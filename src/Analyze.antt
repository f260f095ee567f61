-- ===== src/Analyze.antt =====
-- internal/lottery-tree/lottery_archive.go: AnalyzeArray and analyzeBuild. The response messages are
-- those of proto/lottery.proto; their int32 fields are numbers here, which is exact below 2^31.
pub mod Counts
pub mod Adds
pub mod Frequency
use stat_tree_server.Base.{
  ℕ, zero, suc, ◌+◌, Bool, true, false, List, [], ◌∷◌, ◌++◌, map, Option, none, some, ltb, ◌==◌,
  if◌then◌else◌, set, get_or,
}
use stat_tree_server.Base.Sort.{sort_stable}
use stat_tree_server.Combos.Spec.{range}
use stat_tree_server.Tree.{Node, count, LoTree, NodeEntry, lookup}

abbrev pub max_group_size : ℕ
max_group_size = 6

pub record FrequencyGroup : Type 0 where
  pub size : ℕ
  pub combos : ℕ
  pub entries : List NodeEntry

pub record AnalyzeResponse : Type 0 where
  pub frequency_groups : List FrequencyGroup
  pub archive_size : ℕ

-- `groups[i].Entries = append(groups[i].Entries, e)`, over the entries of each group
unfoldable pub append_at : ℕ → NodeEntry → List (List NodeEntry) → List (List NodeEntry)
append_at i e groups = set groups i (get_or groups i [] ++ e ∷ [])

-- What analyzeBuild does about one number of the form, if there is a child for it: `deeper` is the
-- recursive call on that child.
unfoldable pub analyze_child :
    ℕ
    → List ℕ
    → (Node → List (List NodeEntry) → List (List NodeEntry))
    → Option Node
    → List (List NodeEntry)
    → List (List NodeEntry)
unfolding append_at
analyze_child size numbers deeper none groups = groups
analyze_child size numbers deeper (some c) groups =
    deeper c (append_at size (record { numbers = numbers; count = count c }) groups)

-- (*LoNode).analyzeBuild: the list is the form from `current` on, and the result the groups' entries.
unfoldable pub analyze_build :
    List ℕ → ℕ → ℕ → List ℕ → Node → List (List NodeEntry) → List (List NodeEntry)
analyze_build [] size max_size prefix n groups = groups
analyze_build (x ∷ form) size max_size prefix n groups = elim (size == max_size) [
  | true ↦ groups
  | false ↦ analyze_build form size max_size prefix n (
      analyze_child size (prefix ++ x ∷ [])
        (analyze_build form (suc size) max_size (prefix ++ x ∷ [])) (lookup x n) groups)
]

-- The order of the entries of a group: most frequent first.
abbrev pub more_frequent : NodeEntry → NodeEntry → Bool
more_frequent a b = ltb b.count a.count

-- one group of the response, for the index `i` of `groups`
unfoldable pub group_of : List (List NodeEntry) → ℕ → FrequencyGroup
group_of groups i = record {
  size = suc i;
  combos = 0;
  entries = sort_stable more_frequent (get_or groups i []);
}

-- (*LoTree).AnalyzeArray
unfoldable pub analyze_array : LoTree → List ℕ → ℕ → AnalyzeResponse
unfolding group_of
analyze_array t form max_size =
    let groups =
      analyze_build form 0 max_size [] t.anchor (map (λ _. []) (range 0 max_group_size)) in
    record {
      frequency_groups = map (group_of groups) (range 0 max_group_size);
      archive_size = t.build_calls;
    }
