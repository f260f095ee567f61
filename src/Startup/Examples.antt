-- ===== src/Startup/Examples.antt =====
-- A start and some scheduled runs for internal/startup/server.go; the outside state is a number.
use stat_tree_server.Base.{
  ℕ, suc, ◌≡◌, refl, true, false, List, [], ◌∷◌, Option, none, some, arith, ◌==◌, ◌%◌,
  if◌then◌else◌,
}
use stat_tree_server.Models.{LotteryResult}
use stat_tree_server.Archive.{LotteryArchive}
use stat_tree_server.Config.{load}
use stat_tree_server.Manager.Cache.{new_manager, invalidate_all}
use stat_tree_server.Repository.{Tally, no_draws}
use stat_tree_server.Scrape.{run_once}
use stat_tree_server.Startup.{
  Event, tick, stop, start_scraper_scheduler, Environment, Seeders, new_server,
}
use stat_tree_server.Startup.Schedule.{Runs, ticks, start_scraper_scheduler-Runs}

-- The site is down at every second call.
abbrev fetcher : ℕ → Option (List (LotteryResult ℕ)) × ℕ
fetcher s = (if s % 2 == 0 then none else some [], suc s)

abbrev inserter : List (LotteryResult ℕ) → ℕ → Option Tally × ℕ
inserter results s = (some no_draws, s)

abbrev seeder : ℕ → ℕ → Option Tally × ℕ
seeder n s = (some no_draws, s)

abbrev events : List Event
events = tick ∷ tick ∷ stop ∷ tick ∷ []

start_scraper_scheduler-Runs_example :
    (end : ℕ × ℕ) × (start_scraper_scheduler
        (run_once fetcher inserter (some seeder) none)
        "0 3 * * *"
        events
        (0, 7)
      ≡ some end)
    × Runs (run_once fetcher inserter (some seeder) none) (ticks events) (0, 7) end
start_scraper_scheduler-Runs_example =
    start_scraper_scheduler-Runs fetcher inserter (some seeder) none "0 3 * * *" events 0 7
      (λ s. omega arith)

two_runs :
    start_scraper_scheduler {C = ℕ}
      (run_once fetcher inserter (some seeder) none)
      "0 3 * * *"
      events
      (0, 7)
    ≡ some (2, 7)
unfolding start_scraper_scheduler run_once
two_runs = refl

abbrev environment : Environment
environment = record {
  open_database = λ c. true;
  open_gateway = λ c. true;
  parse_url = λ url. false;
}

-- Both seeders fail.
abbrev seeders : Seeders ℕ
seeders = record { seed_lottery = λ s. (false, s); seed_prizes = λ n s. (none, s) }

-- With an empty environment the service starts though the seeders fail, with a schedule and without
-- the consumer.
started : new_server {A = LotteryArchive ℕ} environment seeders (load (λ key. "")) 7 ≡ (
  some (record { manager = invalidate_all new_manager; consumer = false; scheduled = true }),
  7,
)
unfolding new_server load
started = refl
