-- ===== src/Archive/Ranks.antt =====
-- RankNumbers of internal/lottery-tree/lottery_archive.go against the draws.
use Prim.Native.String.{String}
use stat_tree_server.Base.{ℕ, ◌<◌, ◌≡◌, refl, List, map, arith, length, get_or, All, ne→==}
use stat_tree_server.Base.Sort.{sort_stable}
use stat_tree_server.Models.{LotteryResult}
use stat_tree_server.Tree.{before}
use stat_tree_server.Tree.Frequency.{Ascends}
use stat_tree_server.Tree.Reports.{ranking, collect_nodes-ranking}
use stat_tree_server.Archive.{LotteryType, max_number, new_archive, rank_numbers}
use stat_tree_server.Archive.Groups.{numbers_of, max_number-ne-three}

-- On a non-empty archive of strictly ascending draws, RankNumbers returns the numbers that some draw
-- holds, and no others, sorted by the number of draws that hold them and, among equals, ascending.
pub rank_numbers-ranking :
    {F : Type 0} (game : LotteryType) (from to : ℕ) (draws : List (LotteryResult F)) (mode : String)
    → 0 < length draws
    → All (Ascends 0) (numbers_of draws)
    → rank_numbers (new_archive game from to draws) mode
      ≡ map
          (λ e. get_or e.numbers 0 0)
          (sort_stable (before mode) (ranking (max_number game) 1 (numbers_of draws)))
unfolding rank_numbers new_archive
rank_numbers-ranking game from to draws mode some asc =
    rw
      (
        ne→== (length draws) 0 (omega arith),
        collect_nodes-ranking (max_number game) 6 0 (numbers_of draws) mode
            (max_number-ne-three game) (omega arith) asc,
      )
      refl
