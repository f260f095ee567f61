-- ===== src/Scrape.antt =====
-- internal/services/scrape_runner.go: one run of the scraper, and internal/seeder/prize_seeder.go:
-- the backfill of prizes. The state `S` is what the run reads and writes outside of itself (the site
-- and the database); a call that may fail gives `none` beside the new state. The mutex lets one run
-- follow the other, and is left out with the logging.
pub mod Rounds
pub mod Backfill
pub mod Fresh
pub mod Seeder
pub mod Seeding
pub mod Boots
pub mod Examples
use stat_tree_server.Base.{
  ℕ, zero, suc, ◌+◌, ◌≤◌, ◌≡◌, ◌≢◌, Bool, true, false, List, [], ◌∷◌, ◌++◌, Option, none, some, ltb,
  ◌==◌, if◌then◌else◌,
}
use stat_tree_server.Models.{LotteryResult, DrawRef}
use stat_tree_server.Repository.{Tally, no_draws, tally_draw}

-- the phases that a run reports through onPhase
pub data Phase : Type 0 where
  fetch insert prizes : Phase

pub data RunError : Type 0 where
  fetch_failed insert_failed : RunError

pub record ScrapeResult : Type 0 where
  pub inserted : ℕ
  pub prizes_written : ℕ

-- What CacheRangeInvalidator promises: a range of dates that is invalidated is no longer held, and
-- nothing else comes in.
pub record Invalidator (C : Type 0) : Type 0 where
  pub invalidate_range : ℕ → ℕ → C → C
  pub holds : C → ℕ → Bool
  pub drops :
      (from to date : ℕ) (c : C)
      → from ≢ 0
      → from ≤ date
      → date ≤ to
      → holds (invalidate_range from to c) date ≡ false
  pub shrinks :
      (from to date : ℕ) (c : C)
      → holds c date ≡ false
      → holds (invalidate_range from to c) date ≡ false

abbrev pub prize_backfill_batch_size : ℕ
prize_backfill_batch_size = 50

abbrev pub max_prize_backfill_per_run : ℕ
max_prize_backfill_per_run = 2000

-- What a run has done by its end: the result or an error, the phases, and both states.
pub record Outcome (S C : Type 0) : Type 0 where
  pub result : ScrapeResult
  pub error : Option RunError
  pub phases : List Phase
  pub state : S
  pub cache : C

-- `if r.invalidator != nil { r.invalidator.InvalidateRange(from, to) }`
abbrev pub invalidate : {C : Type 0} → Option (Invalidator C) → Tally → C → C
invalidate none t c = c
invalidate (some i) t c = i.invalidate_range t.min_date t.max_date c

module _ {S C : Type 0} where
  -- what a round of the backfill does with the seeder's answer; `again` is the rest of the loop
  abbrev pub backfill_round :
      (ℕ → S → C → Option (ℕ × S × C))
      → Option (Invalidator C)
      → ℕ
      → C
      → Option Tally × S
      → Option (ℕ × S × C)
  backfill_round again i total c (none, s) = some (total, s, c)
  backfill_round again i total c (some t, s) =
      if t.written == 0 then some (total, s, c) else again (total + t.written) s (invalidate i t c)

  -- the loop of the backfill; `none` is a lack of fuel
  unfoldable pub backfill_loop :
      ℕ → (ℕ → S → Option Tally × S) → Option (Invalidator C) → ℕ → S → C → Option (ℕ × S × C)
  backfill_loop zero seed i total s c = none
  backfill_loop (suc fuel) seed i total s c =
      if ltb total max_prize_backfill_per_run
      then backfill_round (backfill_loop fuel seed i) i total c (seed prize_backfill_batch_size s)
      else some (total, s, c)

  -- the end of a run
  abbrev pub finish : Tally → Option (ℕ × S × C) → Option (Outcome S C)
  finish t none = none
  finish t (some (total, s, c)) = some (record {
    result = record { inserted = t.written; prizes_written = total };
    error = none;
    phases = fetch ∷ insert ∷ prizes ∷ [];
    state = s;
    cache = c;
  })

  abbrev pub failed : RunError → List Phase → S → C → Option (Outcome S C)
  failed e phases s c = some (record {
    result = record { inserted = 0; prizes_written = 0 };
    error = some e;
    phases = phases;
    state = s;
    cache = c;
  })

  -- the backfill, if there is a seeder
  unfoldable pub backfill :
      ℕ → Option (ℕ → S → Option Tally × S) → Option (Invalidator C) → S → C → Option (ℕ × S × C)
  unfolding backfill_loop
  backfill fuel none i s c = some (0, s, c)
  backfill fuel (some seed) i s c = backfill_loop fuel seed i 0 s c

  unfoldable pub after_insert :
      ℕ
      → Option (ℕ → S → Option Tally × S)
      → Option (Invalidator C)
      → C
      → Option Tally × S
      → Option (Outcome S C)
  unfolding backfill
  after_insert fuel seed i c (none, s) = failed insert_failed (fetch ∷ insert ∷ []) s c
  after_insert fuel seed i c (some t, s) =
      finish t (backfill fuel seed i s (if ltb 0 t.written then invalidate i t c else c))

module _ {F S C : Type 0} where
  unfoldable pub after_fetch :
      ℕ
      → (List (LotteryResult F) → S → Option Tally × S)
      → Option (ℕ → S → Option Tally × S)
      → Option (Invalidator C)
      → C
      → Option (List (LotteryResult F)) × S
      → Option (Outcome S C)
  unfolding after_insert
  after_fetch fuel inserter seed i c (none, s) = failed fetch_failed (fetch ∷ []) s c
  after_fetch fuel inserter seed i c (some results, s) =
      after_insert fuel seed i c (inserter results s)

  -- (*ScraperRunner).RunOnce, with the fetcher, the inserter, the seeder and the invalidator
  unfoldable pub run_once :
      (S → Option (List (LotteryResult F)) × S)
      → (List (LotteryResult F) → S → Option Tally × S)
      → Option (ℕ → S → Option Tally × S)
      → Option (Invalidator C)
      → S
      → C
      → Option (Outcome S C)
  unfolding after_fetch
  run_once fetcher inserter seed i s c =
      after_fetch (max_prize_backfill_per_run + 1) inserter seed i c (fetcher s)

-- What the prize seeder calls: GetDrawsWithoutPrizeRefs, FetchPrizeAmounts and UpdatePrizeAmounts.
pub record PrizeSource (F S : Type 0) : Type 0 where
  pub get_refs : ℕ → S → Option (List DrawRef) × S
  pub fetch_amounts : ℕ → S → Option (List F) × S
  pub update_amounts : ℕ → List F → S → Option ℕ × S

-- `written++`, and the updates of the dates unless the date is the zero time
unfoldable pub tally_update : ℕ → Tally → Tally
unfolding tally_draw
tally_update date t = if date == 0 then record t { written = t.written + 1 } else tally_draw date t

-- a `continue`, or the update of the totals
abbrev pub tally_result : Option ℕ → Tally → Tally
tally_result none t = t
tally_result (some date) t = tally_update date t

module _ {F S : Type 0} (p : PrizeSource F S) where
  -- what is done with one draw: the date of the updated row, if both calls succeed
  unfoldable pub update_draw : DrawRef → S → Option ℕ × S
  update_draw ref s = stored (p.fetch_amounts ref.draw_number s)
    where
      stored : Option (List F) × S → Option ℕ × S
      stored (none, s') = (none, s')
      stored (some amounts, s') = p.update_amounts ref.draw_number amounts s'

  -- the loop of SeedMissingPrizes
  unfoldable pub seed_loop : List DrawRef → Tally → S → Tally × S
  unfolding update_draw tally_update
  seed_loop [] t s = (t, s)
  seed_loop (ref ∷ refs) t s =
      let (date, s') = update_draw ref s in seed_loop refs (tally_result date t) s'

  abbrev pub after_refs : Option (List DrawRef) × S → Option Tally × S
  after_refs (none, s) = (none, s)
  after_refs (some refs, s) = let (t, s') = seed_loop refs no_draws s in (some t, s')

  unfoldable pub seed_missing_prizes : ℕ → S → Option Tally × S
  unfolding seed_loop
  seed_missing_prizes batch_size s =
      after_refs (p.get_refs (if batch_size == 0 then 50 else batch_size) s)
