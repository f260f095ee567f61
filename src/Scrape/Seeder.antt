-- ===== src/Scrape/Seeder.antt =====
-- internal/seeder/lottery_seeder.go: the first load of the whole history into the table.
use stat_tree_server.Base.{ℕ, List, Option, none, some, ltb, if◌then◌else◌}
use stat_tree_server.Models.{LotteryResult}
use stat_tree_server.Repository.Queries.{Pool, count_draws, create_batch}

module _ {F : Type 0} (pool : Pool F) where
  -- ForceSeedLotteryData, on what FetchLotteryData gives; `none` is an error
  unfoldable pub force_seed_lottery_data :
      Option (List (LotteryResult F)) → pool.Rows → Option {0} Unit × pool.Rows
  unfolding create_batch
  force_seed_lottery_data none r = (none, r)
  force_seed_lottery_data (some results) r = create_batch pool results r

  abbrev pub if_empty :
      Option ℕ → Option (List (LotteryResult F)) → pool.Rows → Option {0} Unit × pool.Rows
  if_empty none fetched r = (none, r)
  if_empty (some n) fetched r = if ltb 0 n then (some tt, r) else force_seed_lottery_data fetched r

  -- SeedLotteryData
  unfoldable pub seed_lottery_data :
      Option (List (LotteryResult F)) → pool.Rows → Option {0} Unit × pool.Rows
  unfolding force_seed_lottery_data count_draws
  seed_lottery_data fetched r = if_empty (count_draws pool r) fetched r
