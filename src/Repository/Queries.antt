-- ===== src/Repository/Queries.antt =====
-- The other statements of internal/repository/lottery_result_repository.go. The pool of connections is
-- a parameter, with a field for each shape of statement; a statement is the list of its pieces of
-- text and its placeholders, `param n` for "$n". `none` is an error, and in a list of rows it is a row
-- that Scan rejects. Line breaks and indentation are left out of the text.
use Prim.Native.String.{String}
use stat_tree_server.Base.{
  ℕ, Bool, not, ◌||◌, List, [], ◌∷◌, ◌++◌, Option, none, some, length, ltb, ◌==◌, if◌then◌else◌,
}
use stat_tree_server.Base.Options.{◌>>=◌}
use stat_tree_server.Models.{LotteryResult, DrawRef}
use stat_tree_server.Repository.{settle}

pub data Fragment : Type 0 where
  sql : String → Fragment
  param digits : ℕ → Fragment

abbrev pub Statement : Type 0
Statement = List Fragment

pub record Pool (F : Type 0) : Type 1 where
  pub Rows : Type 0
  pub select_results : Statement → List ℕ → Rows → Option (List (Option (LotteryResult F)))
  pub select_result : Statement → List ℕ → Rows → Option (LotteryResult F)
  pub select_numbers : Statement → Rows → Option (List (Option ℕ))
  pub select_refs : Statement → Rows → Option (List (Option DrawRef))
  pub select_count : Statement → Rows → Option ℕ
  pub insert_row : Statement → LotteryResult F → Rows → Option ((ℕ × ℕ × ℕ) × Rows)
  pub update_row : Statement → ℕ → List F → Rows → Option (ℕ × Rows)
  pub exec_row : Statement → LotteryResult F → Rows → Option Rows
  pub begin : Rows → Option Rows
  pub commit : Rows → Rows → Option Rows

-- `for rows.Next() { … Scan … append }`
unfoldable pub scan_rows : {A : Type 0} → List (Option A) → Option (List A)
scan_rows [] = some []
scan_rows (none ∷ rows) = none
scan_rows (some a ∷ rows) = scan_rows rows >>= λ rest. some (a ∷ rest)

abbrev pub columns : Fragment
columns =
    sql
      "SELECT id, draw_number, draw_date, numbers, strong, lottery_type, prize_amounts, created_at, updated_at FROM lottery_results"

-- `if limit > 0 { query += fmt.Sprintf(" LIMIT %d", limit) }`
abbrev pub limited : ℕ → Statement → Statement
limited limit q = if ltb 0 limit then q ++ sql " LIMIT " ∷ digits limit ∷ [] else q

abbrev pub min_prize_draw_number : ℕ
min_prize_draw_number = 2982

abbrev pub min_prize_draw_date : String
min_prize_draw_date = "2018-01-30"

-- the rows that have no prizes but a page of the site
abbrev pub without_prizes : Fragment → Statement
without_prizes select =
    select
    ∷ sql
        " FROM lottery_results WHERE prize_amounts IS NULL AND strong BETWEEN 1 AND 7 AND draw_number >= "
    ∷ digits min_prize_draw_number
    ∷ sql " AND draw_date >= '"
    ∷ sql min_prize_draw_date
    ∷ sql "' ORDER BY draw_date DESC"
    ∷ []

abbrev pub upsert : Fragment
upsert =
    sql
      "INSERT INTO lottery_results (draw_number, draw_date, numbers, strong, lottery_type, prize_amounts, created_at, updated_at) VALUES ($1, $2, $3, $4, $5, $6, $7, $8) ON CONFLICT (draw_number) DO UPDATE SET draw_date = EXCLUDED.draw_date, numbers = EXCLUDED.numbers, strong = EXCLUDED.strong, lottery_type = EXCLUDED.lottery_type, prize_amounts = COALESCE(EXCLUDED.prize_amounts, lottery_results.prize_amounts), updated_at = EXCLUDED.updated_at"

-- The statement and the arguments of GetByDateRange: `args = append(args, from)` makes from the
-- placeholder of its own place.
unfoldable pub with_from : ℕ → Statement × List ℕ → Statement × List ℕ
with_from from (q, args) =
    if from == 0
    then (q, args)
    else (q ++ sql "draw_date >= " ∷ param (length (args ++ from ∷ [])) ∷ [], args ++ from ∷ [])

unfoldable pub with_to : Bool → ℕ → Statement × List ℕ → Statement × List ℕ
with_to has_condition to (q, args) = if to == 0 then (q, args) else (
  (if has_condition then q ++ sql " AND " ∷ [] else q)
      ++ sql "draw_date <= " ∷ param (length (args ++ to ∷ [])) ∷ [],
  args ++ to ∷ [],
)

unfoldable pub date_range_query : ℕ → ℕ → Statement × List ℕ
unfolding with_from with_to
date_range_query from to =
    let (q, args) =
      if not (from == 0) || not (to == 0)
      then with_to (not (from == 0)) to (with_from from (columns ∷ sql " WHERE " ∷ [], []))
      else (columns ∷ [], []) in
    (q ++ sql " ORDER BY draw_date ASC" ∷ [], args)

module _ {F : Type 0} (pool : Pool F) where
  unfoldable pub get_by_date_range : ℕ → ℕ → pool.Rows → Option (List (LotteryResult F))
  unfolding date_range_query scan_rows
  get_by_date_range from to r =
      let (q, args) = date_range_query from to in pool.select_results q args r >>= scan_rows

  unfoldable pub get_all : ℕ → pool.Rows → Option (List (LotteryResult F))
  unfolding scan_rows
  get_all limit r =
      pool.select_results (limited limit (columns ∷ sql " ORDER BY draw_date DESC" ∷ [])) [] r
      >>= scan_rows

  unfoldable pub get_by_id : ℕ → pool.Rows → Option (LotteryResult F)
  get_by_id id r = pool.select_result (columns ∷ sql " WHERE id = " ∷ param 1 ∷ []) (id ∷ []) r

  unfoldable pub get_by_draw_number : ℕ → pool.Rows → Option (LotteryResult F)
  get_by_draw_number draw_number r =
      pool.select_result (columns ∷ sql " WHERE draw_number = " ∷ param 1 ∷ []) (draw_number ∷ []) r

  unfoldable pub get_latest : pool.Rows → Option (LotteryResult F)
  get_latest r = pool.select_result (columns ∷ sql " ORDER BY draw_date DESC LIMIT 1" ∷ []) [] r

  unfoldable pub count_draws : pool.Rows → Option ℕ
  count_draws r = pool.select_count (sql "SELECT COUNT(*) FROM lottery_results" ∷ []) r

  unfoldable pub get_draws_without_prizes : ℕ → pool.Rows → Option (List ℕ)
  unfolding scan_rows
  get_draws_without_prizes limit r =
      pool.select_numbers (limited limit (without_prizes (sql "SELECT draw_number"))) r
      >>= scan_rows

  unfoldable pub get_draws_without_prize_refs : ℕ → pool.Rows → Option (List DrawRef)
  unfolding scan_rows
  get_draws_without_prize_refs limit r =
      pool.select_refs (limited limit (without_prizes (sql "SELECT draw_number, draw_date"))) r
      >>= scan_rows

  unfoldable pub update_prize_amounts : ℕ → List F → pool.Rows → Option ℕ × pool.Rows
  update_prize_amounts draw_number amounts r = settle r (
      pool.update_row
        (sql
            "UPDATE lottery_results SET prize_amounts = $2, updated_at = CURRENT_TIMESTAMP WHERE draw_number = $1 RETURNING draw_date"
          ∷ [])
        draw_number amounts r)

  -- Create writes what the row then has to the fields of its argument.
  abbrev pub stored_as : LotteryResult F → (ℕ × ℕ × ℕ) × pool.Rows → LotteryResult F × pool.Rows
  stored_as result ((id, created_at, updated_at), r) =
      (record result { id = id; created_at = created_at; updated_at = updated_at }, r)

  unfoldable pub create : LotteryResult F → pool.Rows → Option (LotteryResult F) × pool.Rows
  create result r = settle r (
      pool.insert_row (upsert ∷ sql " RETURNING id, created_at, updated_at" ∷ []) result r
      >>= λ stored. some (stored_as result stored))

  -- the loop of CreateBatch
  unfoldable pub create_loop : List (LotteryResult F) → pool.Rows → Option pool.Rows
  create_loop [] tx = some tx
  create_loop (result ∷ results) tx =
      pool.exec_row (upsert ∷ []) result tx >>= λ tx'. create_loop results tx'

  unfoldable pub create_batch : List (LotteryResult F) → pool.Rows → Option {0} Unit × pool.Rows
  unfolding create_loop
  create_batch results r = settle r (
      pool.begin r >>= λ tx.
      create_loop results tx >>= λ tx'. pool.commit tx' r >>= λ r'. some (tt, r'))
