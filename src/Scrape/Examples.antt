-- ===== src/Scrape/Examples.antt =====
-- A table of draws as a list, for internal/repository/lottery_result_repository.go, and runs of
-- internal/services/scrape_runner.go on it.
use mathlib.Core.Option.{some-injective}
use stat_tree_server.Base.{
  ℕ, zero, suc, ◌≤◌, ◌<◌, ◌≡◌, refl, sym, ap, ◌∙◌, false, List, [], ◌∷◌, ◌++◌, map, Option, none,
  some, arith, length, elem, take, ◌==◌, if◌then◌else◌, Bool-cases, inl, inr, All,
}
use stat_tree_server.Base.Options.{is_some, or_else}
use stat_tree_server.Models.{LotteryResult}
use stat_tree_server.Archive.{LotteryArchive}
use stat_tree_server.Repository.{
  Database, IsDatabase, insert_new_draws, insert_loop, existing_draw_numbers, tally_draw,
}
use stat_tree_server.Repository.Insert.{find_draw, dates_without_row, insert_new_draws-Outcome}
use stat_tree_server.Repository.Insert
use stat_tree_server.Scrape.{PrizeSource, Outcome, run_once, seed_missing_prizes}
use stat_tree_server.Scrape.Backfill.{IsLimited, seed_missing_prizes-IsSeeder, run_once-seeder_ends}
use stat_tree_server.Scrape.Fresh.{run_once-dropped}
use stat_tree_server.Manager.Cache.{LotteryManager, new_manager, archive, build}
use stat_tree_server.Manager.Dates.{manager_invalidator, holds_date}

abbrev table : Database ℕ
table = record {
  Rows = List (LotteryResult ℕ);
  row = find_draw;
  select_existing = λ ns r. some (map (λ d. d.draw_number) r);
  begin = λ r. some r;
  insert = λ d r. some (r ++ d ∷ []);
  commit = λ tx r. some tx;
}

elem-find_draw :
    (n : ℕ) (r : List (LotteryResult ℕ))
    → elem n (map (λ d. d.draw_number) r) ≡ is_some (find_draw n r)
unfolding find_draw
elem-find_draw n [] = refl
elem-find_draw n (d ∷ r) = elim (Bool-cases (n == d.draw_number)) [
  | inl same ↦ rw same refl
  | inr other ↦ rw other (elem-find_draw n r)
]

find_draw-append :
    (n : ℕ) (r : List (LotteryResult ℕ)) (d : LotteryResult ℕ)
    → find_draw n (r ++ d ∷ [])
      ≡ (if n == d.draw_number then or_else (find_draw n r) (some d) else find_draw n r)
unfolding find_draw
find_draw-append n [] d = refl
find_draw-append n (x ∷ r) d = elim (Bool-cases (n == x.draw_number)) [
  | inl same ↦
      rw same (elim (Bool-cases (n == d.draw_number)) [ inl e ↦ rw e refl | inr e ↦ rw e refl ])
  | inr other ↦ rw other (find_draw-append n r d)
]

table-IsDatabase : IsDatabase table
table-IsDatabase = record {
  selects = λ ns es r n e h. ap (elem n) (sym (some-injective _ _ e)) ∙ elem-find_draw n r;
  begins = λ r tx n e. ap (find_draw n) (sym (some-injective _ _ e));
  inserts = λ d r r' n e. ap (find_draw n) (sym (some-injective _ _ e)) ∙ find_draw-append n r d;
  commits = λ tx r r' n e. ap (find_draw n) (sym (some-injective _ _ e));
}

abbrev draw : ℕ → ℕ → LotteryResult ℕ
draw number date = record {
  id = 0;
  draw_number = number;
  draw_date = date;
  numbers = 1 ∷ 2 ∷ 3 ∷ 4 ∷ 5 ∷ 6 ∷ [];
  strong = 1;
  lottery_type = "lotto";
  prize_amounts = [];
  created_at = 0;
  updated_at = 0;
}

abbrev fetched : List (LotteryResult ℕ)
fetched = draw 2 20 ∷ draw 3 30 ∷ []

insert_new_draws-Outcome_example :
    Insert.Outcome table (draw 2 20 ∷ []) fetched (insert_new_draws table fetched (draw 2 20 ∷ []))
insert_new_draws-Outcome_example =
    insert_new_draws-Outcome table table-IsDatabase fetched (draw 2 20 ∷ [])

abbrev date_of : Option (LotteryResult ℕ) → Option ℕ
date_of none = none
date_of (some d) = some d.draw_date

abbrev source : PrizeSource ℕ (List (LotteryResult ℕ))
source = record {
  get_refs = λ n s. (
    some (take n (map (λ d. record { draw_number = d.draw_number; draw_date = d.draw_date }) s)),
    s,
  );
  fetch_amounts = λ n s. (some (5 ∷ []), s);
  update_amounts = λ n amounts s. (date_of (find_draw n s), s);
}

length-take : {A : Type 0} (n : ℕ) (xs : List A) → length (take n xs) ≤ n
length-take zero xs = ground arith
length-take (suc n) [] = ground arith
length-take (suc n) (x ∷ xs) = ground (arith, length-take n xs)

source-IsLimited : IsLimited source
source-IsLimited n s s' refs pos e =
    rw (sym (some-injective _ _ (ap (λ q. q.0) e))) (length-take n _)

abbrev cached : LotteryManager (LotteryArchive ℕ)
cached = (archive (build none) 10 40 new_manager).1

run_once-seeder_ends_example :
    (o : Outcome (List (LotteryResult ℕ)) (LotteryManager (LotteryArchive ℕ))) × (run_once
        (λ s. (some fetched, s))
        (insert_new_draws table)
        (some (seed_missing_prizes source))
        (some manager_invalidator)
        (draw 2 20 ∷ [])
        cached
      ≡ some o)
    × o.result.prizes_written < 2050
run_once-seeder_ends_example =
    run_once-seeder_ends source (λ s. (some fetched, s)) (insert_new_draws table)
      (some manager_invalidator) (draw 2 20 ∷ []) cached source-IsLimited

new_dates : dates_without_row table (draw 2 20 ∷ []) fetched ≡ 30 ∷ []
unfolding dates_without_row find_draw
new_dates = refl

run_once-dropped_example :
    (o : Outcome (List (LotteryResult ℕ)) (LotteryManager (LotteryArchive ℕ))) × (run_once
        (λ s. (some fetched, s))
        (insert_new_draws table)
        (some (seed_missing_prizes source))
        (some manager_invalidator)
        (draw 2 20 ∷ [])
        cached
      ≡ some o)
    × All (λ d. holds_date o.cache d ≡ false) (dates_without_row table (draw 2 20 ∷ []) fetched)
unfolding insert_new_draws insert_loop existing_draw_numbers tally_draw dates_without_row find_draw
run_once-dropped_example =
    run_once-dropped table table-IsDatabase manager_invalidator (λ s. (some fetched, s))
      (some (seed_missing_prizes source)) (draw 2 20 ∷ []) (draw 2 20 ∷ [])
      (draw 2 20 ∷ draw 3 30 ∷ []) cached fetched
      (record { written = 1; min_date = 30; max_date = 30 })
      (seed_missing_prizes-IsSeeder source source-IsLimited) refl refl (ground arith, tt)
