-- ===== src/Repository.antt =====
-- internal/repository/lottery_result_repository.go: InsertNewDraws with existingDrawNumbers. The
-- database is a parameter, with one field for each statement that is sent to it; `none` is an error.
-- A draw number is a natural number.
pub mod Dates
pub mod Insert
pub mod Queries
pub mod Ranges
pub mod Upsert
pub mod Examples
use stat_tree_server.Base.{
  ℕ, ◌+◌, ◌≡◌, Bool, true, false, ◌||◌, List, [], ◌∷◌, map, Option, none, some, length, elem, ltb,
  ◌==◌, if◌then◌else◌,
}
use stat_tree_server.Base.Options.{◌>>=◌, is_some, or_else}
use stat_tree_server.Models.{LotteryResult}

pub record Database (F : Type 0) : Type 1 where
  pub Rows : Type 0
  pub row : ℕ → Rows → Option (LotteryResult F)
  pub select_existing : List ℕ → Rows → Option (List ℕ)
  pub begin : Rows → Option Rows
  pub insert : LotteryResult F → Rows → Option Rows
  pub commit : Rows → Rows → Option Rows

-- What the statements are documented to do: SELECT … WHERE draw_number = ANY finds the numbers that
-- have a row, a transaction starts from the table, INSERT … ON CONFLICT (draw_number) DO NOTHING
-- adds a row unless its number has one, and COMMIT makes the transaction's rows the table's.
pub record IsDatabase {F : Type 0} (db : Database F) : Type 0 where
  pub selects :
      (ns es : List ℕ) (r : db.Rows) (n : ℕ)
      → db.select_existing ns r ≡ some es
      → elem n ns ≡ true
      → elem n es ≡ is_some (db.row n r)
  pub begins : (r tx : db.Rows) (n : ℕ) → db.begin r ≡ some tx → db.row n tx ≡ db.row n r
  pub inserts :
      (d : LotteryResult F) (r r' : db.Rows) (n : ℕ)
      → db.insert d r ≡ some r'
      → db.row n r' ≡ (if n == d.draw_number then or_else (db.row n r) (some d) else db.row n r)
  pub commits : (tx r r' : db.Rows) (n : ℕ) → db.commit tx r ≡ some r' → db.row n r' ≡ db.row n tx

-- What InsertNewDraws and SeedMissingPrizes report: a number of draws, and the first and the last of
-- their dates, 0 while there is none.
pub record Tally : Type 0 where
  pub written : ℕ
  pub min_date : ℕ
  pub max_date : ℕ

abbrev pub no_draws : Tally
no_draws = record { written = 0; min_date = 0; max_date = 0 }

-- `inserted++`, and the updates of minDate and maxDate
unfoldable pub tally_draw : ℕ → Tally → Tally
tally_draw date t = record {
  written = t.written + 1;
  min_date = if t.min_date == 0 || ltb date t.min_date then date else t.min_date;
  max_date = if t.max_date == 0 || ltb t.max_date date then date else t.max_date;
}

-- The rows are those of the result, or the old ones after an error (the deferred Rollback).
abbrev pub settle {ℓ κ} : {A : Type ℓ} {R : Type κ} → R → Option (A × R) → Option A × R
settle r none = (none, r)
settle r (some (a, r')) = (some a, r')

module _ {F : Type 0} (db : Database F) where
  unfoldable pub existing_draw_numbers : List ℕ → db.Rows → Option (List ℕ)
  existing_draw_numbers [] r = some []
  existing_draw_numbers (n ∷ ns) r = db.select_existing (n ∷ ns) r

  -- the loop of InsertNewDraws
  unfoldable pub insert_loop :
      List ℕ → List (LotteryResult F) → Tally → db.Rows → Option (Tally × db.Rows)
  unfolding tally_draw
  insert_loop existing [] t tx = some (t, tx)
  insert_loop existing (d ∷ results) t tx =
      if elem d.draw_number existing
      then insert_loop existing results t tx
      else db.insert d tx >>= λ tx'. insert_loop existing results (tally_draw d.draw_date t) tx'

  unfoldable pub insert_new_draws : List (LotteryResult F) → db.Rows → Option Tally × db.Rows
  unfolding existing_draw_numbers insert_loop
  insert_new_draws [] r = (some no_draws, r)
  insert_new_draws (d ∷ results) r = settle r (
      existing_draw_numbers (map (λ e. e.draw_number) (d ∷ results)) r >>= λ existing.
      db.begin r >>= λ tx. insert_loop existing (d ∷ results) no_draws tx >>= λ (t, tx').
      db.commit tx' r >>= λ r'. some (t, r'))
