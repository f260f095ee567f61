-- ===== src/Tree/Groups.antt =====
-- The abstract view of a prefix tree: the count of each group of numbers, and how often a group
-- stands in a draw. Specification of internal/lottery-tree/node.go and tree.go.
use stat_tree_server.Base.{ℕ, ◌+◌, ◌≤◌, ◌<◌, List, [], ◌∷◌, none, some, ◌==◌, if◌then◌else◌}
use stat_tree_server.Tree.{lookup, Node, count}

-- The count that the tree holds for a group, 0 where it has no node.
unfoldable pub count_at : List ℕ → Node → ℕ
count_at [] n = count n
count_at (x ∷ p) n = elim (lookup x n) [ none ↦ 0 | some c ↦ count_at p c ]

-- How often a group stands in a draw, in order.
unfoldable pub occurrences : List ℕ → List ℕ → ℕ
occurrences [] ys = 1
occurrences (x ∷ p) [] = 0
occurrences (x ∷ p) (y ∷ ys) = (if x == y then occurrences p ys else 0) + occurrences (x ∷ p) ys

-- The same over all draws.
unfoldable pub total_occurrences : List ℕ → List (List ℕ) → ℕ
total_occurrences p [] = 0
total_occurrences p (d ∷ draws) = occurrences p d + total_occurrences p draws

-- An ascending group of numbers above `lo` and up to `top`.
abbrev pub IsGroup : ℕ → ℕ → List ℕ → Type 0
IsGroup top lo [] = Unit
IsGroup top lo (x ∷ p) = (lo < x) × (x ≤ top) × IsGroup top x p
