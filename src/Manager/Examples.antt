-- ===== src/Manager/Examples.antt =====
-- A list of three cache entries and two date ranges for internal/services/lottery_manager.go.
use stat_tree_server.Base.{ℕ, List, [], Option, none, some}
use stat_tree_server.Models.{LotteryResult}
use stat_tree_server.Archive.{LotteryArchive}
use stat_tree_server.Manager.Cache.{LotteryManager, new_manager, archive, build, invalidate_range}
use stat_tree_server.Manager.Answers.{IsCache}
use stat_tree_server.Manager.Windowed.{IsFor}
use stat_tree_server.Manager.Reach.{ask, drop, Reachable, start, call, Reachable-IsCache}

abbrev no_draws_of : Option (ℕ → ℕ → Option (List (LotteryResult ℕ)))
no_draws_of = some (λ from to. some [])

abbrev empty_manager : LotteryManager (LotteryArchive ℕ)
empty_manager = new_manager

-- Two windows are asked for, and the dates of one are dropped.
abbrev used_manager : LotteryManager (LotteryArchive ℕ)
used_manager =
    invalidate_range 63300000000 63300000000
      (archive (build none) 63400000000 0 (archive (build no_draws_of) 0 0 empty_manager).1).1

used_manager-Reachable : Reachable used_manager
used_manager-Reachable =
    call (call (call start (ask no_draws_of 0 0 _)) (ask none 63400000000 0 _))
      (drop 63300000000 63300000000 _)

Reachable-IsCache_example : IsCache IsFor used_manager
Reachable-IsCache_example = Reachable-IsCache used_manager-Reachable
