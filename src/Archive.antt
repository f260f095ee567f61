-- ===== src/Archive.antt =====
-- internal/lottery-tree/lottery_archive.go: LotteryArchive and its queries, and the types of
-- types.go. The nil tests of the trees are left out: NewLotteryArchive always sets them.
pub mod Won
pub mod Groups
pub mod Score
pub mod Ranks
use Prim.Native.String.{String}
use stat_tree_server.Base.{
  ℕ, zero, suc, ◌+◌, Bool, true, false, ◌||◌, List, [], ◌∷◌, map, Option, none, some, length,
  get_elem?, get_or, take, elem, ltb, leb, ◌==◌, if◌then◌else◌,
}
use stat_tree_server.Base.Sort.{sort_stable}
use stat_tree_server.Combos.{binomial_count}
use stat_tree_server.Combos.Spec.{range}
use stat_tree_server.Mask.{combo_mask}
use stat_tree_server.Models.{Float64, LotteryResult}
use stat_tree_server.Tree.{
  LoTree, Node, num, next, count, slot, size, NodeEntry, new_tree, build, collect_nodes, is_weak,
}
use stat_tree_server.Analyze.{FrequencyGroup, AnalyzeResponse, max_group_size, analyze_array}

pub data LotteryType : Type 0 where
  lottery triple_seven one_two_three : LotteryType

pub record LotteryArchive (F : Type 0) : Type 0 where
  pub lottery_type : LotteryType
  pub from : ℕ
  pub to : ℕ
  pub draws : List (LotteryResult F)
  pub numbers : List (List ℕ)
  pub strongs : List (List ℕ)
  pub winning_combos : List ℕ
  pub tree : LoTree
  pub strong_tree : LoTree

abbrev pub max_strong : ℕ
max_strong = 7

abbrev pub max_number : LotteryType → ℕ
max_number triple_seven = 70
max_number one_two_three = 10
max_number lottery = 37

-- `g.Combos = int32(binomialCount(a.MaxNumber(), int(g.Size)))`
unfoldable pub with_combos : ℕ → FrequencyGroup → FrequencyGroup
with_combos top g = record g { combos = binomial_count top g.size }

-- sort.Ints
unfoldable pub sort_ints : List ℕ → List ℕ
sort_ints xs = sort_stable ltb xs

module _ {F : Type 0} where
  -- The keys of `a.WinningCombos` after the loop over the draws.
  unfoldable pub winning_masks : List (LotteryResult F) → List ℕ
  winning_masks [] = []
  winning_masks (d ∷ draws) =
      let rest = winning_masks draws in
      if leb 6 (length d.numbers) then combo_mask (sort_ints (take 6 d.numbers)) ∷ rest else rest

  unfoldable pub new_archive : LotteryType → ℕ → ℕ → List (LotteryResult F) → LotteryArchive F
  new_archive game from to draws = record {
    lottery_type = game;
    from = from;
    to = to;
    draws = draws;
    numbers = map (λ d. d.numbers) draws;
    strongs = map (λ d. d.strong ∷ []) draws;
    winning_combos = winning_masks draws;
    tree = build (new_tree (max_number game)) (map (λ d. d.numbers) draws) max_group_size;
    strong_tree = build (new_tree (max_strong + 2)) (map (λ d. d.strong ∷ []) draws) 1;
  }

  unfoldable pub rank_numbers : LotteryArchive F → String → List ℕ
  rank_numbers a mode =
      if length a.draws == 0
      then range 1 (max_number a.lottery_type)
      else map (λ e. get_or e.numbers 0 0) (collect_nodes a.tree 1 mode)

  unfoldable pub top_groups : LotteryArchive F → ℕ → ℕ → String → List NodeEntry
  top_groups a how_many size mode =
      if size == 0 || ltb max_group_size size || how_many == 0
      then []
      else let entries = collect_nodes a.tree size mode in
        if ltb how_many (length entries) then take how_many entries else entries

  unfoldable pub has_won : LotteryArchive F → List ℕ → Bool
  has_won a combo =
      if length a.winning_combos == 0 then false else elem (combo_mask combo) a.winning_combos

  -- `g.Combos = binomialCount(MaxNumber, g.Size)` for every group of the analysis
  unfoldable pub analyze_form : LotteryArchive F → List ℕ → AnalyzeResponse
  analyze_form a form =
      let resp = analyze_array a.tree form max_group_size in
      record resp {
        frequency_groups = map (with_combos (max_number a.lottery_type)) resp.frequency_groups;
      }

-- The loop of TopStrong over `node` at index `i`, in "strong" mode; no count yet is below all.
unfoldable pub strongest : List (Option Node) → ℕ → ℕ → Option ℕ → ℕ
strongest [] i best best_count = best
strongest (none ∷ nodes) i best best_count = strongest nodes (suc i) best best_count
strongest (some n ∷ nodes) i best none = strongest nodes (suc i) (suc i) (some (count n))
strongest (some n ∷ nodes) i best (some c) =
    strongest nodes (suc i) (if ltb c (count n) then suc i else best)
      (some (if ltb c (count n) then count n else c))

-- The loop in "weak" mode.
unfoldable pub weakest : List (Option Node) → ℕ → ℕ → ℕ → ℕ
weakest [] i best best_count = best
weakest (none ∷ nodes) i best best_count = weakest nodes (suc i) best best_count
weakest (some n ∷ nodes) i best best_count =
    weakest nodes (suc i) (if ltb (count n) best_count then suc i else best)
      (if ltb (count n) best_count then count n else best_count)

-- `a.StrongTree.Anchor.Next[i]` for the indices that the loop visits
unfoldable pub strong_nodes : Node → List (Option Node)
strong_nodes anchor =
    map (slot (next anchor))
      (range 0 (if ltb max_strong (size (next anchor)) then max_strong else size (next anchor)))

-- math.MaxInt32
abbrev pub max_int32 : ℕ
max_int32 = 2147483647

abbrev is_lottery : LotteryType → Bool
is_lottery lottery = true
is_lottery _ = false

unfoldable pub top_strong : {F : Type 0} → LotteryArchive F → String → ℕ
unfolding strong_nodes strongest weakest
top_strong a mode =
    if is_lottery a.lottery_type
    then (if is_weak mode
        then weakest (strong_nodes a.strong_tree.anchor) 0 0 max_int32
        else strongest (strong_nodes a.strong_tree.anchor) 0 0 none)
    else 0
