-- ===== src/Scrape/Backfill.antt =====
-- What a batch of internal/seeder/prize_seeder.go reports of the draws that it updates.
use stat_tree_server.Base.{
  ℕ, suc, ◌+◌, ◌≤◌, ◌<◌, ◌≡◌, ◌≢◌, refl, ◌∙◌, List, [], ◌∷◌, Option, none, some, arith, length,
  ◌==◌, Bool-cases, inl, inr, All,
}
use stat_tree_server.Models.{DrawRef, LotteryResult}
use stat_tree_server.Repository.{Tally, no_draws, tally_draw}
use stat_tree_server.Repository.Dates.{Covers}
use stat_tree_server.Scrape.{
  PrizeSource, tally_update, update_draw, tally_result, seed_loop, after_refs, seed_missing_prizes,
  run_once, Invalidator, Outcome,
}
use stat_tree_server.Scrape.Rounds.{IsBatch, IsSeeder, run_once_ends}

tally_update-written : (date : ℕ) (t : Tally) → (tally_update date t).written ≡ t.written + 1
unfolding tally_update tally_draw
tally_update-written date t = elim (Bool-cases (date == 0)) [
  | inl e ↦ rw e refl
  | inr e ↦ rw e refl
]

-- A reported date is in the range, unless it is the zero time.
abbrev pub IsReported : Tally → ℕ → Type 0
IsReported t date = date ≢ 0 → Covers t date

abbrev with_date : Option ℕ → List ℕ → List ℕ
with_date none rest = rest
with_date (some d) rest = d ∷ rest

tally_result-written :
    (o : Option ℕ) (t : Tally) (rest : List ℕ)
    → (tally_result o t).written + length rest ≡ t.written + length (with_date o rest)
tally_result-written none t rest = refl
tally_result-written (some d) t rest = ground (arith, tally_update-written d t)

length-with_date : (o : Option ℕ) (rest : List ℕ) → length (with_date o rest) ≤ suc (length rest)
length-with_date none rest = ground arith
length-with_date (some d) rest = ground arith

module _ {F S : Type 0} (p : PrizeSource F S) where
  -- The dates of the rows that a batch updates.
  unfoldable pub updated_dates : List DrawRef → S → List ℕ
  updated_dates [] s = []
  updated_dates (ref ∷ refs) s =
      let (date, s') = update_draw p ref s in with_date date (updated_dates refs s')

  length-updated_dates : (refs : List DrawRef) (s : S) → length (updated_dates refs s) ≤ length refs
  unfolding updated_dates
  length-updated_dates [] s = ground arith
  length-updated_dates (ref ∷ refs) s =
      let (date, s') = update_draw p ref s in
      ground (arith, length-with_date date (updated_dates refs s'), length-updated_dates refs s')

  seed_loop-written :
      (refs : List DrawRef) (t : Tally) (s : S)
      → (seed_loop p refs t s).0.written ≡ t.written + length (updated_dates refs s)
  unfolding seed_loop updated_dates
  seed_loop-written [] t s = ground arith
  seed_loop-written (ref ∷ refs) t s =
      let (date, s') = update_draw p ref s in
      seed_loop-written refs (tally_result date t) s'
      ∙ tally_result-written date t (updated_dates refs s')

  -- What a batch has done, by the answer of the query for draws: nothing after an error; else it
  -- tells how many rows it has updated, and a range with all of their dates but zero ones.
  abbrev pub BatchDone : Option (List DrawRef) × S → Option Tally × S → Type 0
  BatchDone (none, s) (r, s') = (r ≡ none) × (s' ≡ s)
  BatchDone (some refs, s) (none, s') = ⊥
  BatchDone (some refs, s) (some t, s') =
      (t.written ≡ length (updated_dates refs s)) × All (IsReported t) (updated_dates refs s)

  -- The query returns at most as many draws as it is asked for (LIMIT), where 0 asks for all.
  abbrev pub IsLimited : Type 0
  IsLimited =
      (n : ℕ) (s s' : S) (refs : List DrawRef)
      → 0 < n
      → p.get_refs n s ≡ (some refs, s')
      → length refs ≤ n

  IsBatch-after_refs :
      (q : Option (List DrawRef) × S)
      → ((refs : List DrawRef) (s : S) → q ≡ (some refs, s) → length refs ≤ 50)
      → IsBatch (after_refs p q)
  IsBatch-after_refs (none, s) h = tt
  IsBatch-after_refs (some refs, s) h =
      omega (arith, h refs s refl, seed_loop-written refs no_draws s, length-updated_dates refs s)

  pub seed_missing_prizes-IsSeeder : IsLimited → IsSeeder (some (seed_missing_prizes p))
  unfolding seed_missing_prizes
  seed_missing_prizes-IsSeeder limited s' =
      IsBatch-after_refs (p.get_refs 50 s') (λ refs s'' e. limited 50 s' s'' refs (omega arith) e)

module _ {F S C : Type 0} where
  -- A run with the prize seeder ends within 2001 rounds of its backfill, and reports fewer than 2050
  -- written prizes, if the query returns at most as many draws as a positive limit asks for.
  pub run_once-seeder_ends :
      (p : PrizeSource F S) (fetcher : S → Option (List (LotteryResult F)) × S)
      (inserter : List (LotteryResult F) → S → Option Tally × S) (i : Option (Invalidator C))
      (s : S) (c : C)
      → IsLimited p
      → (o : Outcome S C) × (run_once fetcher inserter (some (seed_missing_prizes p)) i s c
          ≡ some o)
        × o.result.prizes_written < 2050
  run_once-seeder_ends p fetcher inserter i s c limited =
      run_once_ends fetcher inserter (some (seed_missing_prizes p)) i s c
        (seed_missing_prizes-IsSeeder p limited)
