-- ===== src/Tree/Counts.antt =====
-- What the counts of a built tree are: Build of internal/lottery-tree/node.go and tree.go against
-- the draws that were inserted.
use stat_tree_server.Base.{
  ℕ, zero, suc, ◌+◌, ◌-◌, ◌≤◌, ◌<◌, ◌≡◌, ◌≢◌, refl, ◌∙◌, List, [], ◌∷◌, Option, none, some, arith,
  length, ◌==◌, if◌then◌else◌, eq→==, ne→==,
}
use native.Mathlib.Decide.{ℕ_discrete}
use stat_tree_server.Tree.{
  Node, Slots, node, num, count, bump, size, slot, next_size, new_node, grown, visit, build_node,
  build_all, build, new_tree,
}
use stat_tree_server.Tree.{lookup}
use stat_tree_server.Tree.Groups.{count_at, occurrences, total_occurrences, IsGroup}
use stat_tree_server.Tree.Sized.{
  IsSized, bump-IsSized, slot-put, slot-make, slot-IsSized, visit-Keeps, new_node-IsSized,
  build_node-Keeps,
}

-- A new child has no groups below it, and a counted child has the same ones.
count_at-new_node : (z : ℕ) (p : List ℕ) (x lottery : ℕ) → count_at (z ∷ p) (new_node x lottery) ≡ 0
unfolding count_at lookup new_node
count_at-new_node z p x lottery = ground (arith, slot-make (next_size x lottery) (z - x - 1))

count_at-bump : (z : ℕ) (p : List ℕ) (c : Node) → count_at (z ∷ p) (bump c) ≡ count_at (z ∷ p) c
unfolding count_at lookup
count_at-bump z p (node n c s) = refl

-- The child of one number changes under a round of Build, and no other.
lookup-visit :
    (top x y : ℕ) (grow : Node → Node) (n : ℕ) (c : ℕ) (s : Slots)
    → n < x
    → x ≤ top
    → n + size s ≡ top
    → lookup x (visit y grow (node n c s)) ≡ (
        if x == y
        then some (grown y (size s + n) grow (slot s (y - n - 1)))
        else lookup x (node n c s))
unfolding lookup visit
lookup-visit top x y grow n c s lo hi h =
    ground
      (arith, slot-put s (y - n - 1) (x - n - 1) (grown y (size s + n) grow (slot s (y - n - 1))))

-- What Build with `k` levels and the rest of a form does to the groups below a child.
abbrev Counts : ℕ → ℕ → List ℕ → Type 0
Counts top k form =
    (c : Node) (z : ℕ) (q : List ℕ)
    → IsSized top c
    → IsGroup top (num c) (z ∷ q)
    → length q < k
    → count_at (z ∷ q) (build_node k form c) ≡ count_at (z ∷ q) c + occurrences (z ∷ q) form

abbrev count_below : List ℕ → Option Node → ℕ
count_below p o = elim o [ none ↦ 0 | some c ↦ count_at p c ]

count-new_node : (x lottery : ℕ) → count (new_node x lottery) ≡ 1
unfolding new_node
count-new_node x lottery = refl

number-new_node-lt : (x lottery z : ℕ) → x < z → num (new_node x lottery) < z
unfolding new_node
number-new_node-lt x lottery z h = h

occurrences-nil : (form : List ℕ) → occurrences [] form ≡ 1
unfolding occurrences
occurrences-nil form = refl

pub leaf-count : (n : Node) → count_at [] n ≡ count n
unfolding count_at
leaf-count n = refl

leaf_counts :
    (top k : ℕ) (form : List ℕ) (n : Node)
    → top ≢ 3
    → IsSized top n
    → count_at [] (build_node k form n) ≡ count n
leaf_counts top k form n other h =
    leaf-count (build_node k form n) ∙ (build_node-Keeps top k form other n h).1

-- The child that a round of Build stores has one more occurrence for each way to go on.
grown-Counts :
    (top k : ℕ) (form : List ℕ) (x : ℕ) (p : List ℕ) (o : Option Node)
    → Counts top k form
    → top ≢ 3
    → x ≤ top
    → ((old : Node) → o ≡ some old → (num old ≡ x) × IsSized top old)
    → IsGroup top x p
    → length p ≤ k
    → count_at p (grown x top (build_node k form) o) ≡ count_below p o + occurrences p form
unfolding grown
grown-Counts top k form x [] none ih other hi shape group len = omega (
  arith,
  leaf_counts top k form (new_node x top) other (new_node-IsSized x top hi other),
  occurrences-nil form,
  count-new_node x top,
)
grown-Counts top k form x [] (some old) ih other hi shape group len =
    let (number, sized) = shape old refl in
    let (same, more, counted) = bump-IsSized top old sized in
    omega
      (arith, leaf_counts top k form (bump old) other counted, leaf-count old, occurrences-nil form)
grown-Counts top k form x (z ∷ q) none ih other hi shape group len = omega (
  arith,
  ih (new_node x top) z q (new_node-IsSized x top hi other)
      (number-new_node-lt x top z group.0, group.1, group.2) (omega arith),
  count_at-new_node z q x top,
)
grown-Counts top k form x (z ∷ q) (some old) ih other hi shape group len =
    let (number, sized) = shape old refl in
    let (same, more, counted) = bump-IsSized top old sized in
    omega (
      arith,
      ih (bump old) z q counted (omega arith, group.1, group.2) (omega arith),
      count_at-bump z q old,
    )

count_at-cons : (x : ℕ) (p : List ℕ) (n : Node) → count_at (x ∷ p) n ≡ count_below p (lookup x n)
unfolding count_at
count_at-cons x p n = refl

lookup-slot : (x n c : ℕ) (s : Slots) → n < x → lookup x (node n c s) ≡ slot s (x - n - 1)
unfolding lookup
lookup-slot x n c s h = ground arith

-- A round of Build for `x` adds the occurrences that begin with `x` there.
visit-Counts_self :
    (top k : ℕ) (form : List ℕ) (x : ℕ) (p : List ℕ) (n : Node)
    → Counts top k form
    → top ≢ 3
    → IsSized top n
    → IsGroup top (num n) (x ∷ p)
    → length p ≤ k
    → count_at (x ∷ p) (visit x (build_node k form) n) ≡ count_at (x ∷ p) n + occurrences p form
visit-Counts_self top k form x p (node n c s) ih other h group len =
    let same : size s + n ≡ top = omega (arith, h.0) in
    rw
      (
        count_at-cons,
        count_at-cons,
        lookup-visit top x x (build_node k form) n c s group.0 group.1 h.0,
        eq→== x x refl,
        lookup-slot x n c s group.0,
        same,
      )
      (grown-Counts top k form x p (slot s (x - n - 1)) ih other group.1
        (λ old e.
          let (number, seen, sized) = slot-IsSized top (suc n) s (x - n - 1) h.1 e in
          (omega arith, sized))
        group.2 len)

-- A round for another number leaves the group alone.
visit_counts_ne :
    (top k : ℕ) (form : List ℕ) (y x : ℕ) (p : List ℕ) (n : Node)
    → x ≢ y
    → IsSized top n
    → IsGroup top (num n) (x ∷ p)
    → count_at (x ∷ p) (visit y (build_node k form) n) ≡ count_at (x ∷ p) n
visit_counts_ne top k form y x p (node n c s) ne h group = rw (
  count_at-cons,
  count_at-cons,
  lookup-visit top x y (build_node k form) n c s group.0 group.1 h.0,
  ne→== x y ne,
)

visit-Counts :
    (top k : ℕ) (form : List ℕ) (y x : ℕ) (p : List ℕ) (n : Node)
    → Counts top k form
    → top ≢ 3
    → IsSized top n
    → IsGroup top (num n) (x ∷ p)
    → length p ≤ k
    → count_at (x ∷ p) (visit y (build_node k form) n)
      ≡ count_at (x ∷ p) n + (if x == y then occurrences p form else 0)
visit-Counts top k form y x p n ih other h group len = elim (ℕ_discrete x y) [
  | yes e ↦
      let self = visit-Counts_self top k form x p n ih other h group len in
      rw (eq→== x y e, ← e) self
  | no e ↦ rw (ne→== x y e, visit_counts_ne top k form y x p n e h group) (omega arith)
]

-- Build adds to the count of a group the number of times that the group stands in the form.
pub build_node_counts :
    (top k : ℕ) (form : List ℕ) (n : Node) (x : ℕ) (p : List ℕ)
    → top ≢ 3
    → IsSized top n
    → IsGroup top (num n) (x ∷ p)
    → length p < k
    → count_at (x ∷ p) (build_node k form n) ≡ count_at (x ∷ p) n + occurrences (x ∷ p) form
unfolding build_node occurrences
build_node_counts top zero form n x p other h group len = absurd (omega arith)
build_node_counts top (suc k) [] n x p other h group len = omega arith
build_node_counts top (suc k) (y ∷ form) n x p other h group len =
    let (number, counted, sized) =
      visit-Keeps top y (build_node k form) other (build_node-Keeps top k form other) n h in
    omega (
      arith,
      build_node_counts top (suc k) form (visit y (build_node k form) n) x p other sized
          (omega arith, group.1, group.2) len,
      visit-Counts top k form y x p n
          (λ c z q v g l. build_node_counts top k form c z q other v g l) other h group
          (omega arith),
    )

-- The same for the tree of all draws.
build_all_counts :
    (top k : ℕ) (draws : List (List ℕ)) (n : Node) (x : ℕ) (p : List ℕ)
    → top ≢ 3
    → IsSized top n
    → IsGroup top (num n) (x ∷ p)
    → length p < k
    → count_at (x ∷ p) (build_all k draws n) ≡ count_at (x ∷ p) n + total_occurrences (x ∷ p) draws
unfolding build_all total_occurrences
build_all_counts top k [] n x p other h group len = omega arith
build_all_counts top k (d ∷ draws) n x p other h group len =
    let (number, counted, sized) = build_node-Keeps top k d other n h in
    omega (
      arith,
      build_all_counts top k draws (build_node k d n) x p other sized
          (omega arith, group.1, group.2) len,
      build_node_counts top k d n x p other h group len,
    )

-- After NewLoTree and Build, the count of every ascending group of up to `k` numbers in 1..top is
-- the number of times that the group stands, in order, in the draws (top is not 3).
pub build-counts :
    (top k : ℕ) (draws : List (List ℕ)) (x : ℕ) (p : List ℕ)
    → top ≢ 3
    → IsGroup top 0 (x ∷ p)
    → length p < k
    → count_at (x ∷ p) (build (new_tree top) draws k).anchor ≡ total_occurrences (x ∷ p) draws
unfolding build new_tree
build-counts top k draws x p other group len = omega (
  arith,
  build_all_counts top k draws (new_node 0 top) x p other
      (new_node-IsSized 0 top (omega arith) other)
      (number-new_node-lt 0 top x group.0, group.1, group.2) len,
  count_at-new_node x p 0 top,
)
