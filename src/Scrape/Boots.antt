-- ===== src/Scrape/Boots.antt =====
-- A table of rows for internal/seeder/lottery_seeder.go, with a first load of three draws.
use mathlib.Core.Option.{some-injective}
use native.Mathlib.Decide.{ℕ_discrete}
use stat_tree_server.Base.{
  ℕ, ◌≡◌, refl, sym, ap, ◌∙◌, List, [], ◌∷◌, Option, none, some, length, ◌==◌, if◌then◌else◌, arith,
  eq→==, ne→==,
}
use stat_tree_server.Models.{LotteryResult}
use stat_tree_server.Repository.Queries.{Pool}
use stat_tree_server.Repository.Examples.{draw}
use stat_tree_server.Repository.Upsert.{Content, IsUpserting, merged, coalesce}
use stat_tree_server.Scrape.Seeder.{seed_lottery_data}
use stat_tree_server.Scrape.Seeding.{IsSeeded, seed_lottery_data-IsSeeded}

abbrev row_at : ℕ → List (ℕ × Content ℕ) → Option (Content ℕ)
row_at n [] = none
row_at n ((m, c) ∷ rows) = if n == m then some c else row_at n rows

abbrev table : Pool ℕ
table = record {
  Rows = List (ℕ × Content ℕ);
  select_results = λ q args r. none;
  select_result = λ q args r. none;
  select_numbers = λ q r. none;
  select_refs = λ q r. none;
  select_count = λ q r. some (length r);
  insert_row = λ q d r. none;
  update_row = λ q n amounts r. none;
  exec_row = λ q d r. some ((d.draw_number, merged (row_at d.draw_number r) d) ∷ r);
  begin = λ r. some r;
  commit = λ tx r. some tx;
}

put_row :
    (d : LotteryResult ℕ) (r : List (ℕ × Content ℕ)) (n : ℕ)
    → row_at n ((d.draw_number, merged (row_at d.draw_number r) d) ∷ r)
      ≡ (if n == d.draw_number then some (merged (row_at n r) d) else row_at n r)
put_row d r n = elim (ℕ_discrete n d.draw_number) [
  | yes same ↦ rw (eq→== n d.draw_number same) (ap (λ m. some (merged (row_at m r) d)) (sym same))
  | no other ↦ rw (ne→== n d.draw_number other) refl
]

no_rows : (r : List (ℕ × Content ℕ)) (n : ℕ) → length r ≡ 0 → row_at n r ≡ none
no_rows [] n h = refl
no_rows (x ∷ r) n h = absurd (omega arith)

abbrev table_law : IsUpserting table
table_law = record {
  content = row_at;
  upserts = λ d r r' n e. ap (row_at n) (sym (some-injective _ _ e)) ∙ put_row d r n;
  begins = λ r tx n e. ap (row_at n) (sym (some-injective _ _ e));
  commits = λ tx r r' n e. ap (row_at n) (sym (some-injective _ _ e));
  counts = λ r n e. no_rows r n (some-injective _ _ e);
}

abbrev fetched : List (LotteryResult ℕ)
fetched = draw 7 70 ∷ draw 8 80 ∷ draw 7 75 ∷ []

seed_lottery_data-IsSeeded_example :
    IsSeeded table table_law [] (some fetched) (seed_lottery_data table (some fetched) [])
seed_lottery_data-IsSeeded_example = seed_lottery_data-IsSeeded table table_law (some fetched) []

-- The later date of draw 7 stands.
seeded_date :
    row_at 7 (seed_lottery_data table (some fetched) []).1
    ≡ some (record {
      draw_date = 75;
      numbers = 1 ∷ 2 ∷ 3 ∷ 4 ∷ 5 ∷ 6 ∷ [];
      strong = 1;
      lottery_type = "lotto";
      prize_amounts = [];
    })
unfolding seed_lottery_data coalesce
seeded_date = refl
