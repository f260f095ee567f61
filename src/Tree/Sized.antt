-- ===== src/Tree/Sized.antt =====
-- The shape that (*LoNode).Build keeps (internal/lottery-tree/node.go): each array reaches up to
-- the top number of the lottery, and the child at an index has the number that the index stands for.
use stat_tree_server.Base.{
  ℕ, zero, suc, ◌+◌, ◌-◌, ◌≤◌, ◌<◌, ◌≡◌, ◌≢◌, refl, ◌∙◌, ◌&&◌, List, [], ◌∷◌, none, some, arith,
  ltb, ◌==◌, if◌then◌else◌, Bool-cases, Option-cases, inl, inr,
}
use mathlib.Core.Path.{subst}
use mathlib.Core.Option.{some-injective}
use stat_tree_server.Tree.{
  Node, Slots, node, end, empty, child, num, count, bump, size, slot, put, make, next_size,
  new_node, grown, visit, build_node, build_all, build, new_tree,
}

abbrev mutual
  pub IsSized : ℕ → Node → Type 0
  IsSized top (node n c s) = (n + size s ≡ top) × AreSized top (suc n) s

  pub AreSized : ℕ → ℕ → Slots → Type 0
  AreSized top m end = Unit
  AreSized top m (empty s) = AreSized top (suc m) s
  AreSized top m (child c s) = (num c ≡ m) × (0 < count c) × IsSized top c × AreSized top (suc m) s

pub size-put : (s : Slots) (i : ℕ) (c : Node) → size (put s i c) ≡ size s
unfolding size put
size-put end i c = refl
size-put (empty s) zero c = refl
size-put (child n s) zero c = refl
size-put (empty s) (suc i) c = omega (arith, size-put s i c)
size-put (child n s) (suc i) c = omega (arith, size-put s i c)

pub slot-put :
    (s : Slots) (i j : ℕ) (c : Node)
    → i < size s
    → slot (put s i c) j ≡ (if i == j then some c else slot s j)
unfolding size put slot
slot-put end i j c h = absurd (omega arith)
slot-put (empty s) zero zero c h = refl
slot-put (empty s) zero (suc j) c h = ground arith
slot-put (empty s) (suc i) zero c h = ground arith
slot-put (empty s) (suc i) (suc j) c h = ground (arith, slot-put s i j c)
slot-put (child n s) zero zero c h = refl
slot-put (child n s) zero (suc j) c h = ground arith
slot-put (child n s) (suc i) zero c h = ground arith
slot-put (child n s) (suc i) (suc j) c h = ground (arith, slot-put s i j c)

pub size-make : (n : ℕ) → size (make n) ≡ n
unfolding size make
size-make zero = refl
size-make (suc n) = omega (arith, size-make n)

pub slot-make : (n i : ℕ) → slot (make n) i ≡ none
unfolding slot make
slot-make zero i = refl
slot-make (suc n) zero = refl
slot-make (suc n) (suc i) = slot-make n i

make-AreSized : (top m n : ℕ) → AreSized top m (make n)
unfolding make
make-AreSized top m zero = tt
make-AreSized top m (suc n) = make-AreSized top (suc m) n

pub slot-IsSized :
    (top m : ℕ) (s : Slots) (i : ℕ) {c : Node}
    → AreSized top m s
    → slot s i ≡ some c
    → (num c ≡ m + i) × (0 < count c) × IsSized top c
unfolding slot
slot-IsSized top m end i h e = cc
slot-IsSized top m (empty s) zero h e = cc
slot-IsSized top m (child n s) zero {c} h e =
    subst (λ c. (num c ≡ m + 0) × (0 < count c) × IsSized top c) (some-injective _ _ e)
      (omega arith, h.1, h.2)
slot-IsSized top m (empty s) (suc i) h e =
    let (number, seen, sized) = slot-IsSized top (suc m) s i h e in (omega arith, seen, sized)
slot-IsSized top m (child n s) (suc i) h e =
    let (number, seen, sized) = slot-IsSized top (suc m) s i h.3 e in (omega arith, seen, sized)

put-AreSized :
    (top m : ℕ) (s : Slots) (i : ℕ) (c : Node)
    → AreSized top m s
    → num c ≡ m + i
    → 0 < count c
    → IsSized top c
    → AreSized top m (put s i c)
unfolding put
put-AreSized top m end i c h e pos v = tt
put-AreSized top m (empty s) zero c h e pos v = (omega arith, pos, v, h)
put-AreSized top m (child n s) zero c h e pos v = (omega arith, pos, v, h.3)
put-AreSized top m (empty s) (suc i) c h e pos v =
    put-AreSized top (suc m) s i c h (omega arith) pos v
put-AreSized top m (child n s) (suc i) c h e pos v =
    (h.0, h.1, h.2, put-AreSized top (suc m) s i c h.3 (omega arith) pos v)

-- Go allocates one slot for each number above the node's own, except for the three-number game.
pub new_node-IsSized : (n top : ℕ) → n ≤ top → top ≢ 3 → IsSized top (new_node n top)
unfolding new_node grown
new_node-IsSized n top h other =
    (ground (arith, size-make (next_size n top)), make-AreSized top (suc n) (next_size n top))

-- What the recursive call keeps of a child.
abbrev pub Keeps : ℕ → (Node → Node) → Type 0
Keeps top grow =
    (c : Node)
    → IsSized top c
    → (num (grow c) ≡ num c) × (count (grow c) ≡ count c) × IsSized top (grow c)

pub bump-IsSized :
    (top : ℕ) (c : Node)
    → IsSized top c
    → (num (bump c) ≡ num c) × (count (bump c) ≡ count c + 1) × IsSized top (bump c)
bump-IsSized top (node n c s) h = (refl, refl, h)

pub grown-IsSized :
    (top x : ℕ) (grow : Node → Node) (n : ℕ) (s : Slots)
    → top ≢ 3
    → Keeps top grow
    → n < x
    → x ≤ top
    → n + size s ≡ top
    → AreSized top (suc n) s
    → (num (grown x (size s + n) grow (slot s (x - n - 1))) ≡ x)
      × (0 < count (grown x (size s + n) grow (slot s (x - n - 1))))
      × IsSized top (grown x (size s + n) grow (slot s (x - n - 1)))
unfolding new_node grown
grown-IsSized top x grow n s other keep lo hi full h = elim (Option-cases (slot s (x - n - 1))) [
  | inl e ↦
      let same : size s + n ≡ top = omega arith in
      let (number, counted, sized) = keep (new_node x top) (new_node-IsSized x top hi other) in
      rw (e, same, grown) (number, omega arith, sized)
  | inr (old, e) ↦
      let (number, seen, sized) = slot-IsSized top (suc n) s (x - n - 1) h e in
      let (same, more, counted) = bump-IsSized top old sized in
      let (kept, still, grows) = keep (bump old) counted in
      rw (e, grown) (omega arith, omega arith, grows)
]

pub visit-Keeps :
    (top x : ℕ) (grow : Node → Node) → top ≢ 3 → Keeps top grow → Keeps top (visit x grow)
unfolding visit
visit-Keeps top x grow other keep (node n c s) h =
    elim (Bool-cases (ltb n x && ltb (x - n - 1) (size s))) [
      | inl e ↦
          let (number, seen, sized) =
            grown-IsSized top x grow n s other keep (ground arith) (ground arith) h.0 h.1 in
          rw (e, visit)
            (
              refl,
              refl,
              (
                omega (
                  arith,
                  size-put s (x - n - 1) (grown x (size s + n) grow (slot s (x - n - 1))),
                ),
                put-AreSized top (suc n) s (x - n - 1) _ h.1 (ground arith) seen sized,
              ),
            )
      | inr e ↦ rw (e, visit) (refl, refl, h)
    ]

-- Build keeps a node's number, its own count and the shape of its subtree.
pub build_node-Keeps : (top k : ℕ) (form : List ℕ) → top ≢ 3 → Keeps top (build_node k form)
unfolding build_node
build_node-Keeps top zero form other c h = (refl, refl, h)
build_node-Keeps top (suc k) [] other c h = (refl, refl, h)
build_node-Keeps top (suc k) (x ∷ form) other c h =
    let (number, counted, sized) =
      visit-Keeps top x (build_node k form) other (build_node-Keeps top k form other) c h in
    let (same, still, whole) =
      build_node-Keeps top (suc k) form other (visit x (build_node k form) c) sized in
    (same ∙ number, still ∙ counted, whole)

build_all-Keeps : (top k : ℕ) (draws : List (List ℕ)) → top ≢ 3 → Keeps top (build_all k draws)
unfolding build_all
build_all-Keeps top k [] other c h = (refl, refl, h)
build_all-Keeps top k (d ∷ draws) other c h =
    let (number, counted, sized) = build_node-Keeps top k d other c h in
    let (same, still, whole) = build_all-Keeps top k draws other (build_node k d c) sized in
    (same ∙ number, still ∙ counted, whole)

-- The anchor of a built tree has number 0, and every child stands at its number's index, with a
-- positive count (the three-number lottery, whose arrays are longer, is left out).
pub build-IsSized :
    (top k : ℕ) (draws : List (List ℕ))
    → top ≢ 3
    → (num (build (new_tree top) draws k).anchor ≡ 0)
      × IsSized top (build (new_tree top) draws k).anchor
unfolding build new_tree new_node
build-IsSized top k draws other =
    let (number, counted, sized) =
      build_all-Keeps top k draws other (new_node 0 top)
        (new_node-IsSized 0 top (omega arith) other) in
    (number, sized)
