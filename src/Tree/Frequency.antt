-- ===== src/Tree/Frequency.antt =====
-- The counts of the tree of internal/lottery-tree/node.go and tree.go as frequencies, on ascending
-- draws (tree.go calls them sorted).
use stat_tree_server.Base.{
  ℕ, ◌+◌, ◌≤◌, ◌<◌, ◌≡◌, ◌≢◌, ◌∙◌, refl, false, List, [], ◌∷◌, arith, length, if◌then◌else◌, elem,
  elem_all, All,
}
use native.Mathlib.Decide.{ℕ_discrete, dec_lt}
use stat_tree_server.Tree.{build, new_tree}
use stat_tree_server.Tree.Groups.{count_at, occurrences, total_occurrences, IsGroup}
use stat_tree_server.Tree.Counts.{build-counts}

-- Strictly ascending, above `lo`.
abbrev pub Ascends : ℕ → List ℕ → Type 0
Ascends lo [] = Unit
Ascends lo (y ∷ ys) = (lo < y) × Ascends y ys

-- How many draws hold every number of the group.
unfoldable pub frequency : List ℕ → List (List ℕ) → ℕ
frequency p [] = 0
frequency p (d ∷ draws) = (if elem_all p d then 1 else 0) + frequency p draws

elem_below : (x lo : ℕ) (ys : List ℕ) → x ≤ lo → Ascends lo ys → elem x ys ≡ false
elem_below x lo [] h a = refl
elem_below x lo (y ∷ ys) h a = ground (arith, elem_below x y ys (omega arith) a.1)

occurrences-absent : (x : ℕ) (p ys : List ℕ) → elem x ys ≡ false → occurrences (x ∷ p) ys ≡ 0
unfolding occurrences
occurrences-absent x p [] h = refl
occurrences-absent x p (y ∷ ys) h = ground (arith, occurrences-absent x p ys)

elem_all-skip :
    (top y : ℕ) (p ys : List ℕ) (lo : ℕ)
    → y ≤ lo
    → IsGroup top lo p
    → elem_all p (y ∷ ys) ≡ elem_all p ys
elem_all-skip top y [] ys lo h g = refl
elem_all-skip top y (x ∷ p) ys lo h g = ground (arith, elem_all-skip top y p ys x (omega arith) g.2)

-- In an ascending draw an ascending group stands once if the draw holds its numbers, else never.
pub occurrences-elem_all :
    (top low lo : ℕ) (p d : List ℕ)
    → IsGroup top low p
    → Ascends lo d
    → occurrences p d ≡ (if elem_all p d then 1 else 0)
unfolding occurrences
occurrences-elem_all top low lo [] d g a = refl
occurrences-elem_all top low lo (x ∷ p) [] g a = refl
occurrences-elem_all top low lo (x ∷ p) (y ∷ ys) g a = elim (ℕ_discrete x y) [
  | yes e ↦ ground (
    arith,
    occurrences-elem_all top x y p ys g.2 a.1,
    occurrences-absent x p ys (elem_below x y ys (omega arith) a.1),
    elem_all-skip top y p ys x (omega arith) g.2,
  )
  | no e ↦ elim (dec_lt x y) [
    | yes before ↦
        let absent = elem_below x y ys (omega arith) a.1 in
        ground (arith, absent, occurrences-absent x p ys absent)
    | no after ↦ ground (
      arith,
      occurrences-elem_all top low y (x ∷ p) ys g a.1,
      elem_all-skip top y p ys x (omega arith) g.2,
    )
  ]
]

total_occurrences-frequency :
    (top low : ℕ) (p : List ℕ) (draws : List (List ℕ))
    → IsGroup top low p
    → All (Ascends 0) draws
    → total_occurrences p draws ≡ frequency p draws
unfolding total_occurrences frequency
total_occurrences-frequency top low p [] g a = refl
total_occurrences-frequency top low p (d ∷ draws) g a = ground (
  arith,
  occurrences-elem_all top low 0 p d g a.0,
  total_occurrences-frequency top low p draws g a.1,
)

-- If every draw is strictly ascending, the count that the built tree holds for an ascending group
-- of 1 to `k` numbers in 1..top is the number of draws that hold all its numbers (top is not 3).
pub build-frequency :
    (top k : ℕ) (draws : List (List ℕ)) (x : ℕ) (p : List ℕ)
    → top ≢ 3
    → All (Ascends 0) draws
    → IsGroup top 0 (x ∷ p)
    → length p < k
    → count_at (x ∷ p) (build (new_tree top) draws k).anchor ≡ frequency (x ∷ p) draws
build-frequency top k draws x p other a group len =
    build-counts top k draws x p other group len
    ∙ total_occurrences-frequency top 0 (x ∷ p) draws group a
