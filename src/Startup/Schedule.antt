-- ===== src/Startup/Schedule.antt =====
-- The scheduled runs of internal/startup/server.go.
use Prim.Native.String.{String}
use stat_tree_server.Base.{
  ℕ, zero, suc, ◌<◌, ◌≡◌, refl, false, List, [], ◌∷◌, Option, some, arith, leb,
}
use stat_tree_server.Models.{LotteryResult}
use stat_tree_server.Repository.{Tally}
use stat_tree_server.Scrape.{Outcome, Invalidator, run_once}
use stat_tree_server.Scrape.Rounds.{IsSeeder, run_once_ends}
use stat_tree_server.Startup.{
  Event, tick, stop, refresh, schedule_loop, start_scraper_scheduler, parse_cron_as_interval,
}

-- The number of ticks before the first stop.
unfoldable pub ticks : List Event → ℕ
ticks [] = 0
ticks (stop ∷ events) = 0
ticks (tick ∷ events) = suc (ticks events)

-- A number of runs, one after the other.
pub data Runs {S C : Type 0} (run : S → C → Option (Outcome S C)) : ℕ → S × C → S × C → Type 0 where
  no_run : (at : S × C) → Runs run zero at at
  one_more :
      {n : ℕ} {s : S} {c : C} {end : S × C} (o : Outcome S C)
      → run s c ≡ some o
      → Runs run n (o.state, o.cache) end
      → Runs run (suc n) (s, c) end

module _ {S C : Type 0} (run : S → C → Option (Outcome S C)) where
  loop-Runs :
      (events : List Event) (s : S) (c : C)
      → ((s : S) (c : C) → (o : Outcome S C) × (run s c ≡ some o))
      → (end : S × C) × (schedule_loop run events (s, c) ≡ some end)
        × Runs run (ticks events) (s, c) end
  unfolding schedule_loop refresh ticks
  loop-Runs [] s c ends = ((s, c), refl, no_run (s, c))
  loop-Runs (stop ∷ events) s c ends = ((s, c), refl, no_run (s, c))
  loop-Runs (tick ∷ events) s c ends =
      let (o, e) = ends s c in
      let (end, loop, runs) = loop-Runs events o.state o.cache ends in
      (end, rw e loop, one_more o e runs)

interval_pos : (cron : String) → 0 < parse_cron_as_interval cron
unfolding parse_cron_as_interval
interval_pos cron = ground arith

module _ {F S C : Type 0} where
  -- Whatever the schedule says, and if every batch of the seeder writes at most the batch size, the
  -- scheduler ends every run that it starts, and starts one for each tick before the stop, each on
  -- what the one before has left, whether or not that one failed.
  pub start_scraper_scheduler-Runs :
      (fetcher : S → Option (List (LotteryResult F)) × S)
      (inserter : List (LotteryResult F) → S → Option Tally × S)
      (seed : Option (ℕ → S → Option Tally × S)) (i : Option (Invalidator C)) (cron : String)
      (events : List Event) (s : S) (c : C)
      → IsSeeder seed
      → (end : S × C) × (start_scraper_scheduler
            (run_once fetcher inserter seed i)
            cron
            events
            (s, c)
          ≡ some end)
        × Runs (run_once fetcher inserter seed i) (ticks events) (s, c) end
  unfolding start_scraper_scheduler
  start_scraper_scheduler-Runs fetcher inserter seed i cron events s c small =
      let waits : leb (parse_cron_as_interval cron) 0 ≡ false = ground (arith, interval_pos cron) in
      let (end, loop, runs) =
        loop-Runs (run_once fetcher inserter seed i) events s c (λ s' c'.
          let (o, e, few) = run_once_ends fetcher inserter seed i s' c' small in (o, e)) in
      (end, rw waits loop, runs)
