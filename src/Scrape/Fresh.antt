-- ===== src/Scrape/Fresh.antt =====
-- Which dates the cache still holds after a run of internal/services/scrape_runner.go.
use mathlib.Core.Path.{subst}
use mathlib.Core.Option.{some-injective, none-ne-some}
use stat_tree_server.Base.{
  ℕ, zero, suc, ◌+◌, ◌<◌, ◌≡◌, ◌≢◌, refl, ap, ◌∙◌, true, false, List, [], ◌∷◌, Option, none, some,
  arith, ltb, ◌==◌, if◌then◌else◌, Bool-cases, inl, inr, All, All-map,
}
use stat_tree_server.Models.{LotteryResult}
use stat_tree_server.Repository.{Database, IsDatabase, Tally, no_draws, insert_new_draws}
use stat_tree_server.Repository.Dates.{tally_all, tally_all-Covers, written-tally_all}
use stat_tree_server.Repository.Insert.{dates_without_row, insert_new_draws-Outcome}
use stat_tree_server.Repository.Insert
use stat_tree_server.Scrape.Rounds.{IsSeeder, run_once_ends}
use stat_tree_server.Scrape.{
  Invalidator, Outcome, backfill_round, backfill_loop, backfill, finish, after_insert, after_fetch,
  run_once, invalidate,
}

module _ {S C : Type 0} (inv : Invalidator C) (date : ℕ) where
  -- The cache at an end does not hold the date.
  abbrev IsGone : Option (ℕ × S × C) → Type 0
  IsGone none = Unit
  IsGone (some (total, s, c)) = inv.holds c date ≡ false

  backfill_round-IsGone :
      (again : ℕ → S → C → Option (ℕ × S × C)) (total : ℕ) (c : C) (r : Option Tally × S)
      → inv.holds c date ≡ false
      → ((more : ℕ) (s : S) (c' : C) → inv.holds c' date ≡ false → IsGone (again more s c'))
      → IsGone (backfill_round again (some inv) total c r)
  backfill_round-IsGone again total c (none, s) gone next = gone
  backfill_round-IsGone again total c (some t, s) gone next = elim (Bool-cases (t.written == 0)) [
    | inl e ↦ rw e gone
    | inr e ↦ rw e (next (total + t.written) s _ (inv.shrinks t.min_date t.max_date date c gone))
  ]

  backfill_loop-IsGone :
      (fuel : ℕ) (seed : ℕ → S → Option Tally × S) (total : ℕ) (s : S) (c : C)
      → inv.holds c date ≡ false
      → IsGone (backfill_loop fuel seed (some inv) total s c)
  unfolding backfill_loop
  backfill_loop-IsGone zero seed total s c gone = tt
  backfill_loop-IsGone (suc fuel) seed total s c gone = elim (Bool-cases (ltb total 2000)) [
    | inl e ↦ rw e (
        backfill_round-IsGone (backfill_loop fuel seed (some inv)) total c (seed 50 s) gone
          λ more s' c' gone'. backfill_loop-IsGone fuel seed more s' c' gone')
    | inr e ↦ rw e gone
  ]

  backfill-IsGone :
      (fuel : ℕ) (seed : Option (ℕ → S → Option Tally × S)) (s : S) (c : C)
      → inv.holds c date ≡ false
      → IsGone (backfill fuel seed (some inv) s c)
  unfolding backfill
  backfill-IsGone fuel none s c gone = gone
  backfill-IsGone fuel (some seed) s c gone = backfill_loop-IsGone fuel seed 0 s c gone

  finish_gone :
      (t : Tally) (r : Option (ℕ × S × C)) (o : Outcome S C)
      → IsGone r
      → finish t r ≡ some o
      → inv.holds o.cache date ≡ false
  finish_gone t none o gone e = absurd (none-ne-some _ e)
  finish_gone t (some (total, s, c)) o gone e =
      subst (λ x. inv.holds x.cache date ≡ false) (some-injective _ _ e) gone

-- The cache after the insert, before the backfill.
abbrev refreshed : {C : Type 0} → Invalidator C → Tally → C → C
refreshed inv t c = if ltb 0 t.written then invalidate (some inv) t c else c

refreshed_positive :
    {C : Type 0} (inv : Invalidator C) (t : Tally) (c : C)
    → 0 < t.written
    → refreshed inv t c ≡ inv.invalidate_range t.min_date t.max_date c
refreshed_positive inv t c h = rw (ltb_true) refl
  where
    ltb_true : ltb 0 t.written ≡ true
    ltb_true = ground arith

-- The dates of a tally are dropped.
dropped :
    {C : Type 0} (inv : Invalidator C) (dates : List ℕ) (c : C)
    → All (λ d. d ≢ 0) dates
    → All (λ d. inv.holds (refreshed inv (tally_all dates no_draws) c) d ≡ false) dates
dropped inv [] c a = tt
dropped inv (d ∷ dates) c a =
    let t = tally_all (d ∷ dates) no_draws in
    let some_written : 0 < t.written = ground (arith, written-tally_all (d ∷ dates) no_draws) in
    All-map _ _
      (λ x h.
        ap (λ k. inv.holds k x) (refreshed_positive inv t c some_written)
        ∙ inv.drops t.min_date t.max_date x c h.2 h.0 h.1)
      (d ∷ dates) (tally_all-Covers (d ∷ dates) no_draws a)

-- A run with a cache to invalidate that fetches draws with dates and inserts them, and whose batches
-- write at most fifty prizes each, ends; and then the cache holds none of the dates of the draws that
-- had no row before.
pub run_once-dropped :
    {F C : Type 0} (db : Database F) (law : IsDatabase db) (inv : Invalidator C)
    (fetcher : db.Rows → Option (List (LotteryResult F)) × db.Rows)
    (seed : Option (ℕ → db.Rows → Option Tally × db.Rows)) (s s1 s2 : db.Rows) (c : C)
    (results : List (LotteryResult F)) (t : Tally)
    → IsSeeder seed
    → fetcher s ≡ (some results, s1)
    → insert_new_draws db results s1 ≡ (some t, s2)
    → All (λ d. d ≢ 0) (dates_without_row db s1 results)
    → (o : Outcome db.Rows C) × (run_once fetcher (insert_new_draws db) seed (some inv) s c
        ≡ some o)
      × All (λ d. inv.holds o.cache d ≡ false) (dates_without_row db s1 results)
unfolding run_once after_fetch after_insert
run_once-dropped {F = F} db law inv fetcher seed s s1 s2 c results t batches fetched inserted
      dated =
    let (o, e, few) = run_once_ends fetcher (insert_new_draws db) seed (some inv) s c batches in
    let dates = dates_without_row db s1 results in
    let t_eq =
      (subst (Insert.Outcome db s1 results) inserted
        (insert_new_draws-Outcome db law results s1)).0 in
    let at_end = rw (fetched, inserted) at e in
    (
      o,
      e,
      All-map _ _
          (λ d gone.
            finish_gone inv d t _ o
              (backfill-IsGone inv d 2001 seed s2 (refreshed inv t c)
                (ap (λ x. inv.holds (refreshed inv x c) d) t_eq ∙ gone))
              at_end)
          dates (dropped inv dates c dated),
    )
