-- ===== src/Startup.antt =====
-- internal/startup/server.go: how the service starts, and its scheduled runs of the scraper. The
-- outside state `S` has the table and the site; what opens the database, the gateway and the Redis
-- client are parameters, as are the two seeders. A duration is a number of nanoseconds.
pub mod Schedule
pub mod Examples
use Prim.Native.String.{String}
use text.Mathlib.Text.{◌==◌ as str_eq}
use stat_tree_server.Base.{
  ℕ, ◌*◌, Bool, true, false, not, ◌&&◌, List, [], ◌∷◌, Option, none, some, leb, if◌then◌else◌,
}
use stat_tree_server.Base.Options.{◌>>=◌}
use stat_tree_server.Config.{Config, ServerConfig, DatabaseConfig}
use stat_tree_server.Manager.Cache.{LotteryManager, new_manager, invalidate_all}
use stat_tree_server.Repository.{Tally}
use stat_tree_server.Scrape.{Outcome}

-- time.Hour and time.Minute
abbrev hour : ℕ
hour = 3600000000000

abbrev minute : ℕ
minute = 60000000000

unfoldable pub parse_cron_as_interval : String → ℕ
parse_cron_as_interval cron_spec =
    if str_eq cron_spec "0 3 * * *"
    then 24 * hour
    else if str_eq cron_spec "0 * * * *"
    then hour
    else if str_eq cron_spec "*/15 * * * *"
    then 15 * minute
    else 24 * hour

-- What happens to the goroutine of the scheduler: a tick of the ticker, or the close of scraperStop.
pub data Event : Type 0 where
  tick stop : Event

module _ {S C : Type 0} (run : S → C → Option (Outcome S C)) where
  -- refresh: a run, whose error is only logged
  unfoldable pub refresh : S × C → Option (S × C)
  refresh (s, c) = run s c >>= λ o. some (o.state, o.cache)

  unfoldable pub schedule_loop : List Event → S × C → Option (S × C)
  unfolding refresh
  schedule_loop [] at = some at
  schedule_loop (stop ∷ events) at = some at
  schedule_loop (tick ∷ events) at = refresh at >>= λ at'. schedule_loop events at'

  -- startScraperScheduler, and the events until the service ends
  unfoldable pub start_scraper_scheduler : String → List Event → S × C → Option (S × C)
  unfolding schedule_loop parse_cron_as_interval
  start_scraper_scheduler cron events at =
      if leb (parse_cron_as_interval cron) 0 then some at else schedule_loop events at

-- What NewServer opens: the pool, the gateway and the Redis client.
pub record Environment : Type 0 where
  pub open_database : DatabaseConfig → Bool
  pub open_gateway : ServerConfig → Bool
  pub parse_url : String → Bool

-- SeedLotteryData, of which `true` is success, and SeedMissingPrizes.
pub record Seeders (S : Type 0) : Type 0 where
  pub seed_lottery : S → Bool × S
  pub seed_prizes : ℕ → S → Option Tally × S

pub record Server (A : Type 0) : Type 0 where
  pub manager : LotteryManager A
  pub consumer : Bool
  pub scheduled : Bool

module _ {A S : Type 0} (env : Environment) (seeders : Seeders S) (cfg : Config) where
  -- the block under `cfg.Scraper.SeedOnBoot`
  unfoldable pub seed_on_boot : LotteryManager A → S → LotteryManager A × S
  unfolding invalidate_all
  seed_on_boot m s =
      if cfg.scraper.seed_on_boot
      then (invalidate_all m, (seeders.seed_prizes 50 (seeders.seed_lottery s).1).1)
      else (m, s)

  -- the consumer and the scheduler, where they are configured
  unfoldable pub assembled : LotteryManager A → Server A
  assembled m = record {
    manager = m;
    consumer = not (str_eq cfg.redis_url "") && env.parse_url cfg.redis_url;
    scheduled = not (str_eq cfg.scraper.cron "");
  }

  unfoldable pub with_gateway : LotteryManager A × S → Option (Server A) × S
  unfolding assembled
  with_gateway (m, s) = (if env.open_gateway cfg.server then some (assembled m) else none, s)

  -- NewServer; `none` is an error, with the database closed
  unfoldable pub new_server : S → Option (Server A) × S
  unfolding seed_on_boot with_gateway new_manager
  new_server s =
      if env.open_database cfg.database
      then with_gateway (seed_on_boot new_manager s)
      else (none, s)
