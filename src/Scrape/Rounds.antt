-- ===== src/Scrape/Rounds.antt =====
-- The end of a run of internal/services/scrape_runner.go, and how many prizes it writes.
use stat_tree_server.Base.{
  ℕ, zero, suc, ◌+◌, ◌-◌, ◌≤◌, ◌<◌, ◌≡◌, refl, List, Option, none, some, arith, ltb, ◌==◌,
  Bool-cases, inl, inr,
}
use stat_tree_server.Models.{LotteryResult}
use stat_tree_server.Repository.{Tally}
use stat_tree_server.Scrape.{
  Invalidator, Outcome, backfill_round, backfill_loop, backfill, finish, after_insert, after_fetch,
  run_once, prize_backfill_batch_size, max_prize_backfill_per_run, invalidate,
}

-- A batch of the seeder writes at most its size.
abbrev pub IsBatch : {S : Type 0} → Option Tally × S → Type 0
IsBatch (none, s) = Unit
IsBatch (some t, s) = t.written ≤ prize_backfill_batch_size

abbrev pub IsSeeder : {S : Type 0} → Option (ℕ → S → Option Tally × S) → Type 0
IsSeeder none = Unit
IsSeeder {S = S} (some seed) = (s : S) → IsBatch (seed prize_backfill_batch_size s)

-- An end with at most a batch more than the limit of a run.
abbrev IsEnd : {S C : Type 0} → Option (ℕ × S × C) → Type 0
IsEnd none = ⊥
IsEnd (some (total, s, c)) = total < max_prize_backfill_per_run + prize_backfill_batch_size

module _ {S C : Type 0} (seed : ℕ → S → Option Tally × S) (i : Option (Invalidator C)) where
  backfill_round-IsEnd :
      (again : ℕ → S → C → Option (ℕ × S × C)) (total : ℕ) (c : C) (r : Option Tally × S)
      → total < max_prize_backfill_per_run
      → IsBatch r
      → ((more : ℕ) (s : S) (c' : C)
          → 0 < more
          → more ≤ prize_backfill_batch_size
          → IsEnd (again (total + more) s c'))
      → IsEnd (backfill_round again i total c r)
  backfill_round-IsEnd again total c (none, s) small b next = omega arith
  backfill_round-IsEnd again total c (some t, s) small b next = elim (Bool-cases (t.written == 0)) [
    | inl e ↦ rw e (omega arith)
    | inr e ↦ rw e (next t.written s (invalidate i t c) (ground arith) b)
  ]

  backfill_loop-IsEnd :
      (fuel total : ℕ) (s : S) (c : C)
      → ((s' : S) → IsBatch (seed prize_backfill_batch_size s'))
      → max_prize_backfill_per_run - total < fuel
      → total < max_prize_backfill_per_run + prize_backfill_batch_size
      → IsEnd (backfill_loop fuel seed i total s c)
  unfolding backfill_loop
  backfill_loop-IsEnd zero total s c b deep small = absurd (omega arith)
  backfill_loop-IsEnd (suc fuel) total s c b deep small =
      elim (Bool-cases (ltb total max_prize_backfill_per_run)) [
        | inl e ↦ rw e (
            backfill_round-IsEnd (backfill_loop fuel seed i) total c
              (seed prize_backfill_batch_size s) (ground arith) (b s)
              λ more s' c' pos few.
                backfill_loop-IsEnd fuel (total + more) s' c' b (ground arith) (ground arith))
        | inr e ↦ rw e small
      ]

module _ {S C : Type 0} where
  abbrev Ends : Option (Outcome S C) → Type 0
  Ends none = ⊥
  Ends (some o) = o.result.prizes_written < max_prize_backfill_per_run + prize_backfill_batch_size

  finish-Ends : (t : Tally) (r : Option (ℕ × S × C)) → IsEnd r → Ends (finish t r)
  finish-Ends t none h = h
  finish-Ends t (some (total, s, c)) h = h

  backfill-IsEnd :
      (seed : Option (ℕ → S → Option Tally × S)) (i : Option (Invalidator C)) (s : S) (c : C)
      → IsSeeder seed
      → IsEnd (backfill (max_prize_backfill_per_run + 1) seed i s c)
  unfolding backfill
  backfill-IsEnd none i s c b = omega arith
  backfill-IsEnd (some seed) i s c b =
      backfill_loop-IsEnd seed i 2001 0 s c b (omega arith) (omega arith)

  after_insert-Ends :
      (seed : Option (ℕ → S → Option Tally × S)) (i : Option (Invalidator C)) (c : C)
      (r : Option Tally × S)
      → IsSeeder seed
      → Ends (after_insert (max_prize_backfill_per_run + 1) seed i c r)
  unfolding after_insert
  after_insert-Ends seed i c (none, s) b = omega arith
  after_insert-Ends seed i c (some t, s) b = finish-Ends t _ (backfill-IsEnd seed i s _ b)

ends :
    {S C : Type 0} {r : Option (Outcome S C)}
    → Ends r
    → (o : Outcome S C) × (r ≡ some o) × o.result.prizes_written < 2050
ends {r = none} h = absurd h
ends {r = some o} h = (o, refl, h)

module _ {F S C : Type 0} where
  fetched :
      (inserter : List (LotteryResult F) → S → Option Tally × S)
      (seed : Option (ℕ → S → Option Tally × S)) (i : Option (Invalidator C)) (c : C)
      (r : Option (List (LotteryResult F)) × S)
      → IsSeeder seed
      → Ends (after_fetch (max_prize_backfill_per_run + 1) inserter seed i c r)
  unfolding after_fetch
  fetched inserter seed i c (none, s) b = omega arith
  fetched inserter seed i c (some results, s) b = after_insert-Ends seed i c (inserter results s) b

  -- If every batch of the seeder writes at most the batch size, a run ends within 2001 rounds of its
  -- backfill, and reports fewer than 2050 written prizes.
  pub run_once_ends :
      (fetcher : S → Option (List (LotteryResult F)) × S)
      (inserter : List (LotteryResult F) → S → Option Tally × S)
      (seed : Option (ℕ → S → Option Tally × S)) (i : Option (Invalidator C)) (s : S) (c : C)
      → IsSeeder seed
      → (o : Outcome S C) × (run_once fetcher inserter seed i s c ≡ some o)
        × o.result.prizes_written < 2050
  unfolding run_once
  run_once_ends fetcher inserter seed i s c b = ends (fetched inserter seed i c (fetcher s) b)
