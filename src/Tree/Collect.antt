-- ===== src/Tree/Collect.antt =====
-- (*LoTree).CollectNodes of internal/lottery-tree/tree.go against the counts of the groups.
use mathlib.Core.List.{append-nil}
use mathlib.Core.Path.{ap₂}
use stat_tree_server.Base.{
  ℕ, zero, suc, ◌+◌, ◌-◌, ◌<◌, ◌≡◌, refl, sym, ◌∙◌, ap, lt→ltb, List, [], ◌∷◌, ◌++◌, map, none,
  some, arith, leb, if◌then◌else◌, length, All, All-map, All-append, All-every,
}
use stat_tree_server.Combos.Spec.{combos, range, combos-length, All-map-cons}
use stat_tree_server.Tree.{
  Node, Slots, node, end, empty, child, num, count, size, slot, collect, collect_slots,
}
use stat_tree_server.Tree.{lookup}
use stat_tree_server.Tree.Groups.{count_at, IsGroup}
use stat_tree_server.Tree.Counts.{leaf-count}
use stat_tree_server.Tree.Sized.{IsSized, AreSized}
use stat_tree_server.Tree.Present.{
  present, present-append, present-map-cons, present-absent, present-agree,
}

-- Combinations of consecutive numbers are groups.
pub combos-range-IsGroup :
    (top k lo n : ℕ) → lo + n ≡ top → All (IsGroup top lo) (combos k (range (suc lo) n))
unfolding combos range
combos-range-IsGroup top zero lo n h = (tt, tt)
combos-range-IsGroup top (suc k) lo zero h = tt
combos-range-IsGroup top (suc k) lo (suc n) h =
    All-append _ _ _
      (All-map-cons _ (suc lo) _ (
        All-map _ _ (λ p g. (omega arith, omega arith, g)) _
          (combos-range-IsGroup top k (suc lo) n (omega arith))))
      (All-map _ _ (λ p g. IsGroup-weaken p g) _
        (combos-range-IsGroup top (suc k) (suc lo) n (omega arith)))
  where
    IsGroup-weaken : (p : List ℕ) → IsGroup top (suc lo) p → IsGroup top lo p
    IsGroup-weaken [] g = tt
    IsGroup-weaken (x ∷ p) g = (omega arith, g.1, g.2)

-- The count of a group below an array whose first slot stands for the number `m`.
pub slots_count : ℕ → Slots → List ℕ → ℕ
slots_count m s [] = 0
slots_count m s (x ∷ p) = elim (if leb m x then slot s (x - m) else none) [
  | none ↦ 0
  | some c ↦ count_at p c
]

pub count_at-slots :
    (n c : ℕ) (s : Slots) (p : List ℕ)
    → 0 < length p
    → slots_count (suc n) s p ≡ count_at p (node n c s)
unfolding slots_count count_at lookup
count_at-slots n c s [] h = absurd (omega arith)
count_at-slots n c s (x ∷ p) h =
    let same : x - suc n ≡ x - n - 1 = omega arith in rw (same, slots_count) (ground arith)

minus_self : (m : ℕ) → m - m ≡ 0
minus_self m = omega arith

slots_count-empty : (m : ℕ) (s : Slots) (p : List ℕ) → slots_count m (empty s) (m ∷ p) ≡ 0
unfolding slots_count slot
slots_count-empty m s p = rw (minus_self m, slots_count) (ground arith)

slots_count-child :
    (m : ℕ) (c : Node) (s : Slots) (p : List ℕ) → slots_count m (child c s) (m ∷ p) ≡ count_at p c
unfolding slots_count slot
slots_count-child m c s p = rw (minus_self m, slots_count) (ground arith)

slot-skip :
    (m x : ℕ) (c : Node) (s : Slots)
    → m < x
    → (slot (empty s) (x - m) ≡ slot s (x - suc m))
      × (slot (child c s) (x - m) ≡ slot s (x - suc m))
unfolding slot
slot-skip m x c s h = let e : x - m ≡ suc (x - suc m) = omega arith in rw e (refl, refl)

slots_count-skip :
    (top m : ℕ) (c : Node) (s : Slots) (p : List ℕ)
    → IsGroup top m p
    → (slots_count m (empty s) p ≡ slots_count (suc m) s p)
      × (slots_count m (child c s) p ≡ slots_count (suc m) s p)
unfolding slots_count
slots_count-skip top m c s [] g = (refl, refl)
slots_count-skip top m c s (x ∷ p) g =
    let (first, second) = slot-skip m x c s g.0 in (ground (arith, first), ground (arith, second))

-- Combinations that begin with the first number come first.
present-first :
    (f : List ℕ → ℕ) (prefix : List ℕ) (m r w : ℕ)
    → present f prefix (combos (suc r) (range m (suc w)))
      ≡ present (λ p. f (m ∷ p)) (prefix ++ m ∷ []) (combos r (range (suc m) w))
        ++ present f prefix (combos (suc r) (range (suc m) w))
unfolding combos range
present-first f prefix m r w =
    present-append f prefix (map (◌∷◌ m) (combos r (range (suc m) w))) _
    ∙ ap (λ l. l ++ present f prefix (combos (suc r) (range (suc m) w)))
        (present-map-cons f prefix m (combos r (range (suc m) w)))

pub present-leaf :
    (f : List ℕ → ℕ) (prefix xs : List ℕ)
    → 0 < f []
    → present f prefix (combos 0 xs) ≡ (record { numbers = prefix; count = f [] }) ∷ []
unfolding present combos
present-leaf f prefix xs h = rw (lt→ltb _ _ h, append-nil)

present-none :
    (f : List ℕ → ℕ) (prefix : List ℕ) (m r : ℕ)
    → present f prefix (combos (suc r) (range m 0)) ≡ []
unfolding present combos range
present-none f prefix m r = refl

count_at-leaf : (n c : ℕ) (s : Slots) → 0 < c → 0 < count_at [] (node n c s)
unfolding count_at
count_at-leaf n c s h = h

-- collectNodes lists the groups of the wanted size below a node, in lexicographic order.
mutual
  unfolding collect size

  pub collect-present :
      (c : Node) (top m w r : ℕ) (prefix : List ℕ)
      → num c ≡ m
      → m + w ≡ top
      → 0 < count c
      → IsSized top c
      → collect c r prefix
        ≡ present (λ p. count_at p c) (prefix ++ m ∷ []) (combos r (range (suc m) w))
  collect-present (node n c s) top m w zero prefix e full pos h = rw (← e) (
      sym (
        present-leaf (λ p. count_at p (node n c s)) (prefix ++ n ∷ []) _ (count_at-leaf n c s pos)
        ∙ ap (λ k. (record { numbers = prefix ++ n ∷ []; count = k }) ∷ [])
            (leaf-count (node n c s))))
  collect-present (node n c s) top m w (suc r) prefix e full pos h =
      let same : w ≡ size s = omega (arith, h.0) in
      rw (same, ← e)
        (collect_slots-present s top (suc n) r (prefix ++ n ∷ []) (omega (arith, h.0)) h.1
          ∙ present-agree _ _ (prefix ++ n ∷ []) _ (
              All-map _ _ (λ p l. count_at-slots n c s p (omega arith)) _
                (combos-length (suc r) (range (suc n) (size s)))))

  pub collect_slots-present :
      (s : Slots) (top m r : ℕ) (prefix : List ℕ)
      → m + size s ≡ suc top
      → AreSized top m s
      → collect_slots s r prefix
        ≡ present (slots_count m s) prefix (combos (suc r) (range m (size s)))
  collect_slots-present end top m r prefix full h =
      sym (present-none (slots_count m end) prefix m r)
  collect_slots-present (empty s) top m r prefix full h =
      collect_slots-present s top (suc m) r prefix (omega arith) h
      ∙ sym (
          present-first (slots_count m (empty s)) prefix m r (size s)
          ∙ ap₂ ◌++◌ (present-absent _ _ _ (All-every (λ p. slots_count-empty m s p) _)) (
              present-agree _ _ prefix _ (
                All-map _ _ (λ p g. (slots_count-skip top m (node 0 0 end) s p g).0) _
                  (combos-range-IsGroup top (suc r) m (size s) (omega arith)))))
  collect_slots-present (child c s) top m r prefix full h =
      ap₂ ◌++◌ (collect-present c top m (size s) r prefix h.0 (omega arith) h.1 h.2)
        (collect_slots-present s top (suc m) r prefix (omega arith) h.3)
      ∙ sym (
          present-first (slots_count m (child c s)) prefix m r (size s)
          ∙ ap₂ ◌++◌ (present-agree _ _ _ _ (All-every (λ p. slots_count-child m c s p) _)) (
              present-agree _ _ prefix _ (
                All-map _ _ (λ p g. (slots_count-skip top m c s p g).1) _
                  (combos-range-IsGroup top (suc r) m (size s) (omega arith)))))
