-- ===== src/Tree.antt =====
-- internal/lottery-tree/node.go and tree.go: the prefix tree over number groups.
-- `Prev` and `Piece` are never read, and are left out. A number of a draw is a natural number: a
-- negative one fails the bounds test of Build as 0 does.
pub mod Groups
pub mod Sized
pub mod Counts
pub mod Frequency
pub mod Present
pub mod Collect
pub mod Reports
pub mod Order
use Prim.Native.String.{String}
use text.Mathlib.Text.{◌==◌ as str_eq}
use stat_tree_server.Base.Sort.{sort_stable}
use stat_tree_server.Base.{
  ℕ, zero, suc, ◌+◌, ◌-◌, Bool, ◌&&◌, List, [], ◌∷◌, ◌++◌, Option, none, some, length, ltb, ◌==◌,
  if◌then◌else◌,
}

-- LoNode: its number, its count, and the array Next, where `empty` is a nil pointer.
mutual
  pub data Node : Type 0 where
    node : ℕ → ℕ → Slots → Node

  pub data Slots : Type 0 where
    end : Slots
    empty : Slots → Slots
    child : Node → Slots → Slots

abbrev pub num : Node → ℕ
num (node n c next) = n

abbrev pub count : Node → ℕ
count (node n c next) = c

abbrev pub next : Node → Slots
next (node n c s) = s

abbrev pub bump : Node → Node
bump (node n c s) = node n (c + 1) s

-- `len(n.Next)`
unfoldable pub size : Slots → ℕ
size end = 0
size (empty s) = suc (size s)
size (child n s) = suc (size s)

-- `n.Next[i]`, with `none` for a nil pointer
unfoldable pub slot : Slots → ℕ → Option Node
slot end i = none
slot (empty s) zero = none
slot (child n s) zero = some n
slot (empty s) (suc i) = slot s i
slot (child n s) (suc i) = slot s i

-- `n.Next[i] = c`
unfoldable pub put : Slots → ℕ → Node → Slots
put end i c = end
put (empty s) zero c = child c s
put (child n s) zero c = child c s
put (empty s) (suc i) c = empty (put s i c)
put (child n s) (suc i) c = child n (put s i c)

-- `make([]*LoNode, n)`
unfoldable pub make : ℕ → Slots
make zero = end
make (suc n) = empty (make n)

abbrev pub next_size : ℕ → ℕ → ℕ
next_size n lottery = if lottery == 3 then lottery else lottery - n

-- NewLoNode and NewLoNodeWithParent, which differ in the parent pointer only
unfoldable pub new_node : ℕ → ℕ → Node
new_node n lottery = node n 1 (make (next_size n lottery))

-- What Build stores for the number `x`: a new child or the old one counted once more, grown by the
-- recursive call.
unfoldable pub grown : ℕ → ℕ → (Node → Node) → Option Node → Node
grown x lottery grow none = grow (new_node x lottery)
grown x lottery grow (some old) = grow (bump old)

-- One round of Build's loop.
unfoldable pub visit : ℕ → (Node → Node) → Node → Node
visit x grow (node n c s) =
    let i = x - n - 1 in
    if ltb n x && ltb i (size s)
    then node n c (put s i (grown x (size s + n) grow (slot s i)))
    else node n c s

-- (*LoNode).Build: the list is the form from `current` on.
unfoldable pub build_node : ℕ → List ℕ → Node → Node
build_node zero form n = n
build_node (suc k) [] n = n
build_node (suc k) (x ∷ form) n = build_node (suc k) form (visit x (build_node k form) n)

-- The child that analyzeBuild finds for the number `x`: the test of `treeIndex` against the array.
unfoldable pub lookup : ℕ → Node → Option Node
lookup x n = if ltb (num n) x then slot (next n) (x - num n - 1) else none

pub record LoTree : Type 0 where
  pub anchor : Node
  pub lottery : ℕ
  pub build_calls : ℕ

unfoldable pub new_tree : ℕ → LoTree
new_tree lottery = record { anchor = new_node 0 lottery; lottery = lottery; build_calls = 0 }

-- the loop of (*LoTree).Build
unfoldable pub build_all : ℕ → List (List ℕ) → Node → Node
build_all k [] n = n
build_all k (d ∷ draws) n = build_all k draws (build_node k d n)

unfoldable pub build : LoTree → List (List ℕ) → ℕ → LoTree
build t draws k = record t { anchor = build_all k draws t.anchor; build_calls = length draws }

pub record NodeEntry : Type 0 where
  pub numbers : List ℕ
  pub count : ℕ

-- (*LoNode).collectNodes and its loop over Next: what is appended to `out`.
unfoldable mutual
  pub collect : Node → ℕ → List ℕ → List NodeEntry
  collect (node n c s) zero prefix = (record { numbers = prefix ++ n ∷ []; count = c }) ∷ []
  collect (node n c s) (suc remaining) prefix = collect_slots s remaining (prefix ++ n ∷ [])

  pub collect_slots : Slots → ℕ → List ℕ → List NodeEntry
  collect_slots end remaining prefix = []
  collect_slots (empty s) remaining prefix = collect_slots s remaining prefix
  collect_slots (child c s) remaining prefix =
      collect c remaining prefix ++ collect_slots s remaining prefix

-- `mode == string(Weak)`
abbrev pub is_weak : String → Bool
is_weak mode = str_eq mode "weak"

-- The order of CollectNodes: whether the first entry comes before the second.
abbrev pub before : String → NodeEntry → NodeEntry → Bool
before mode a b = if is_weak mode then ltb a.count b.count else ltb b.count a.count

-- (*LoTree).CollectNodes; the anchor is never nil after NewLoTree.
unfoldable pub collect_nodes : LoTree → ℕ → String → List NodeEntry
collect_nodes t zero mode = []
collect_nodes t (suc remaining) mode =
    sort_stable (before mode) (collect_slots (next t.anchor) remaining [])
