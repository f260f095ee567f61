-- ===== src/Tree/Reports.antt =====
-- CollectNodes of internal/lottery-tree/tree.go on a built tree, against the draws.
use Prim.Native.String.{String}
use stat_tree_server.Base.{
  ℕ, suc, ◌+◌, ◌<◌, ◌≡◌, ◌≢◌, ◌∙◌, ap, List, [], ◌∷◌, arith, length, All, All-map, All-both,
}
use stat_tree_server.Base.Sort.{sort_stable}
use stat_tree_server.Combos.Spec.{combos, range, combos-length}
use stat_tree_server.Tree.{
  Node, node, num, next, size, NodeEntry, build, new_tree, collect_slots, collect_nodes, before,
}
use stat_tree_server.Tree.Groups.{count_at, IsGroup}
use stat_tree_server.Tree.Sized.{IsSized, build-IsSized}
use stat_tree_server.Tree.Present.{present, present-agree}
use stat_tree_server.Tree.Collect.{collect_slots-present, count_at-slots, combos-range-IsGroup}
use stat_tree_server.Tree.Frequency.{Ascends, frequency, build-frequency}

-- All groups of a size, in ascending order of their numbers, with their frequency in the draws,
-- where that is not 0.
unfoldable pub ranking : ℕ → ℕ → List (List ℕ) → List NodeEntry
ranking top k draws = present (λ p. frequency p draws) [] (combos k (range 1 top))

pub anchor-present :
    (a : Node) (top m w r : ℕ)
    → num a ≡ m
    → m + w ≡ top
    → IsSized top a
    → collect_slots (next a) r []
      ≡ present (λ p. count_at p a) [] (combos (suc r) (range (suc m) w))
anchor-present (node n c s) top m w r e full h =
    let same : w ≡ size s = omega (arith, h.0) in
    rw (← e, same)
      (collect_slots-present s top (suc n) r [] (omega (arith, h.0)) h.1
        ∙ present-agree _ _ [] _ (
            All-map _ _ (λ p l. count_at-slots n c s p (omega arith)) _
              (combos-length (suc r) (range (suc n) (size s)))))

-- On strictly ascending draws, CollectNodes of a tree (whose top number is not 3) that is built to
-- at least this depth reports exactly
-- the groups of the size that stand in a draw, each with the number of draws that hold all its
-- numbers, sorted by that number and, among equals, in ascending order of the numbers.
pub collect_nodes-ranking :
    (top k r : ℕ) (draws : List (List ℕ)) (mode : String)
    → top ≢ 3
    → r < k
    → All (Ascends 0) draws
    → collect_nodes (build (new_tree top) draws k) (suc r) mode
      ≡ sort_stable (before mode) (ranking top (suc r) draws)
unfolding collect_nodes ranking
collect_nodes-ranking top k r draws mode other depth asc =
    let (number, sized) = build-IsSized top k draws other in
    ap (sort_stable (before mode)) (
      anchor-present (build (new_tree top) draws k).anchor top 0 top r number (omega arith) sized
      ∙ present-agree _ _ [] _ (
          All-both _ _ _ agree _ (combos-range-IsGroup top (suc r) 0 top (omega arith))
            (combos-length (suc r) (range 1 top))))
  where
    agree :
        (p : List ℕ)
        → IsGroup top 0 p
        → length p ≡ suc r
        → count_at p (build (new_tree top) draws k).anchor ≡ frequency p draws
    agree [] g l = absurd (omega arith)
    agree (x ∷ p) g l = build-frequency top k draws x p other asc g (omega arith)
