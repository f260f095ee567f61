-- ===== src/Tree/Order.antt =====
-- The order of the entries that CollectNodes of internal/lottery-tree/tree.go returns.
use mathlib.Core.List.{Perm}
use Prim.Native.String.{String}
use stat_tree_server.Base.{ℕ, suc, ◌≡◌, true, false, [], arith, Bool-cases, inl, inr}
use stat_tree_server.Base.Sort.{IsSorted, sort_stable-IsSorted, sort_stable-perm}
use stat_tree_server.Tree.{LoTree, NodeEntry, next, before, is_weak, collect_slots, collect_nodes}

before_asym : (mode : String) (a b : NodeEntry) → before mode a b ≡ true → before mode b a ≡ false
before_asym mode a b h = elim (Bool-cases (is_weak mode)) [
  | inl e ↦ ground (arith, e)
  | inr e ↦ ground (arith, e)
]

before_trans :
    (mode : String) (a b c : NodeEntry)
    → before mode b a ≡ false
    → before mode c b ≡ false
    → before mode c a ≡ false
before_trans mode a b c h h' = elim (Bool-cases (is_weak mode)) [
  | inl e ↦ ground (arith, e)
  | inr e ↦ ground (arith, e)
]

-- For a positive size, CollectNodes returns the nodes of that depth, each once, with no entry that
-- its order puts before an earlier one (more frequent first, or less frequent first in weak mode).
pub collect_nodes-IsSorted :
    (t : LoTree) (r : ℕ) (mode : String)
    → IsSorted (before mode) (collect_nodes t (suc r) mode)
      × Perm (collect_nodes t (suc r) mode) (collect_slots (next t.anchor) r [])
unfolding collect_nodes
collect_nodes-IsSorted t r mode = (
  sort_stable-IsSorted (before mode) (before_asym mode) (before_trans mode) _,
  sort_stable-perm (before mode) _,
)
