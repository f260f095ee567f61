-- ===== src/Repository/Examples.antt =====
-- A server for the statements of internal/repository/lottery_result_repository.go, which reads the
-- conditions on draw_date from the pieces of the text.
use Prim.Native.String.{String}
use text.Mathlib.Text.{◌==◌ as str_eq}
use mathlib.Core.Option.{some-injective}
use stat_tree_server.Base.{
  ℕ, ◌-◌, ◌≡◌, refl, sym, ap, Bool, true, false, arith, ltb, ◌||◌, ◌&&◌, List, [], ◌∷◌, ◌++◌, map,
  none, some, get_or, leb, if◌then◌else◌,
}
use stat_tree_server.Base.Sort.{keep, sort_stable, sort_stable-IsSorted}
use stat_tree_server.Models.{LotteryResult}
use stat_tree_server.Repository.Queries.{sql, param, digits, Statement, Pool, get_by_date_range}
use stat_tree_server.Repository.Ranges.{
  Condition, at_least, at_most, select_text, meets_all, and_text, IsScan, IsPool, IsDated, HasRange,
  get_by_date_range-HasRange, keep-ext,
}

-- Whether a date meets the conditions of a statement; `last` is the text before.
pub reads : List ℕ → ℕ → String → Statement → Bool
reads args date last [] = true
reads args date last (sql t ∷ q) = reads args date t q
reads args date last (digits n ∷ q) = reads args date last q
reads args date last (param n ∷ q) =
    let rest = reads args date last q in
    (if str_eq last "draw_date >= "
      then leb (get_or args (n - 1) 0) date
      else leb date (get_or args (n - 1) 0))
    && rest

reads-and_text :
    (args : List ℕ) (date : ℕ) (last : String) (cs : List Condition)
    → reads args date last (and_text cs ++ sql " ORDER BY draw_date ASC" ∷ [])
      ≡ meets_all args date cs
unfolding reads
reads-and_text args date last [] = refl
reads-and_text args date last (at_least n ∷ cs) =
    ap (λ b. leb (get_or args (n - 1) 0) date && b) (reads-and_text args date "draw_date >= " cs)
reads-and_text args date last (at_most n ∷ cs) =
    ap (λ b. leb date (get_or args (n - 1) 0) && b) (reads-and_text args date "draw_date <= " cs)

pub reads-select_text :
    (args : List ℕ) (date : ℕ) (cs : List Condition)
    → reads args date "" (select_text cs) ≡ meets_all args date cs
unfolding reads
reads-select_text args date [] = refl
reads-select_text args date (at_least n ∷ cs) =
    ap (λ b. leb (get_or args (n - 1) 0) date && b) (reads-and_text args date "draw_date >= " cs)
reads-select_text args date (at_most n ∷ cs) =
    ap (λ b. leb date (get_or args (n - 1) 0) && b) (reads-and_text args date "draw_date <= " cs)

pub map-some-IsScan : {A : Type 0} (xs : List A) → IsScan (map some xs) xs
map-some-IsScan [] = tt
map-some-IsScan (x ∷ xs) = (refl, map-some-IsScan xs)

-- Whether a statement asks for the order of the dates.
pub orders : Statement → Bool
orders [] = false
orders (sql t ∷ q) = str_eq t " ORDER BY draw_date ASC" || orders q
orders (digits n ∷ q) = orders q
orders (param n ∷ q) = orders q

orders-and_text :
    (cs : List Condition) → orders (and_text cs ++ sql " ORDER BY draw_date ASC" ∷ []) ≡ true
unfolding orders
orders-and_text [] = refl
orders-and_text (at_least n ∷ cs) = orders-and_text cs
orders-and_text (at_most n ∷ cs) = orders-and_text cs

pub orders-select_text : (cs : List Condition) → orders (select_text cs) ≡ true
unfolding orders
orders-select_text [] = refl
orders-select_text (at_least n ∷ cs) = orders-and_text cs
orders-select_text (at_most n ∷ cs) = orders-and_text cs

abbrev pub date_order : List (LotteryResult ℕ) → List (LotteryResult ℕ)
date_order r = sort_stable (λ x y. ltb x.draw_date y.draw_date) r

pub date_order-IsDated : (r : List (LotteryResult ℕ)) → IsDated (date_order r)
date_order-IsDated r = sort_stable-IsSorted _ (λ x y h. ground arith) (λ x y z h k. ground arith) r

abbrev pub server : Pool ℕ
server = record {
  Rows = List (LotteryResult ℕ);
  select_results = λ q args r.
      some
        (map some (keep (λ d. reads args d.draw_date "" q) (if orders q then date_order r else r)));
  select_result = λ q args r. none;
  select_numbers = λ q r. none;
  select_refs = λ q r. none;
  select_count = λ q r. none;
  insert_row = λ q d r. none;
  update_row = λ q n amounts r. none;
  exec_row = λ q d r. none;
  begin = λ r. none;
  commit = λ tx r. none;
}

abbrev pub server_law : IsPool server
server_law = record {
  by_date = date_order;
  dated = date_order-IsDated;
  selects = λ cs args r rows bound e.
      rw
        (
          sym (some-injective _ _ e),
          orders-select_text cs,
          keep-ext (λ d. reads args d.draw_date "" (select_text cs))
              (λ d. meets_all args d.draw_date cs) (date_order r)
              (λ d. reads-select_text args d.draw_date cs),
        )
        (map-some-IsScan (keep (λ d. meets_all args d.draw_date cs) (date_order r)));
}

abbrev pub draw : ℕ → ℕ → LotteryResult ℕ
draw number date = record {
  id = number;
  draw_number = number;
  draw_date = date;
  numbers = 1 ∷ 2 ∷ 3 ∷ 4 ∷ 5 ∷ 6 ∷ [];
  strong = 1;
  lottery_type = "lotto";
  prize_amounts = [];
  created_at = 0;
  updated_at = 0;
}

abbrev pub rows : List (LotteryResult ℕ)
rows = draw 1 10 ∷ draw 2 20 ∷ draw 3 30 ∷ []

get_by_date_range-HasRange_example :
    HasRange server server_law 15 0 rows (get_by_date_range server 15 0 rows)
get_by_date_range-HasRange_example = get_by_date_range-HasRange server server_law 15 0 rows
