-- ===== src/Repository/Ranges.antt =====
-- GetByDateRange of internal/repository/lottery_result_repository.go: the statement that it builds,
-- and the draws that it returns.
use mathlib.Core.Path.{subst}
use stat_tree_server.Base.{
  ℕ, ◌-◌, ◌≤◌, ◌<◌, ◌≡◌, ◌⊎◌, refl, sym, ap, ◌∙◌, Bool, true, false, ◌&&◌, List, [], ◌∷◌, ◌++◌,
  Option, none, some, arith, length, get_or, ltb, leb, ◌==◌, if◌then◌else◌, All, Bool-cases,
  Option-cases, inl, inr,
}
use stat_tree_server.Base.Options.{◌>>=◌}
use stat_tree_server.Base.Sort.{keep, IsSorted, keep-IsSorted}
use stat_tree_server.Models.{LotteryResult}
use stat_tree_server.Simulate.Windows.{within}
use stat_tree_server.Repository.Queries.{
  sql, param, Statement, Pool, columns, scan_rows, with_from, with_to, date_range_query,
  get_by_date_range,
}

-- A condition on draw_date: `draw_date >= $n` or `draw_date <= $n`.
pub data Condition : Type 0 where
  at_least at_most : ℕ → Condition

abbrev pub condition_text : Condition → Statement
condition_text (at_least n) = sql "draw_date >= " ∷ param n ∷ []
condition_text (at_most n) = sql "draw_date <= " ∷ param n ∷ []

abbrev pub and_text : List Condition → Statement
and_text [] = []
and_text (c ∷ cs) = sql " AND " ∷ condition_text c ++ and_text cs

abbrev where_text : List Condition → Statement
where_text [] = []
where_text (c ∷ cs) = sql " WHERE " ∷ condition_text c ++ and_text cs

-- The statement that reads the draws that meet all conditions.
abbrev pub select_text : List Condition → Statement
select_text cs = columns ∷ (where_text cs ++ sql " ORDER BY draw_date ASC" ∷ [])

abbrev pub meets : List ℕ → ℕ → Condition → Bool
meets args date (at_least n) = leb (get_or args (n - 1) 0) date
meets args date (at_most n) = leb date (get_or args (n - 1) 0)

abbrev pub meets_all : List ℕ → ℕ → List Condition → Bool
meets_all args date [] = true
meets_all args date (c ∷ cs) = meets args date c && meets_all args date cs

-- Each placeholder has its argument.
abbrev IsBound : ℕ → Condition → Type 0
IsBound n (at_least i) = (0 < i) × (i ≤ n)
IsBound n (at_most i) = (0 < i) × (i ≤ n)

-- The rows are those of the list, of which Scan may reject some.
abbrev pub IsScan : {A : Type 0} → List (Option A) → List A → Type 0
IsScan [] [] = Unit
IsScan [] (x ∷ xs) = ⊥
IsScan (o ∷ rows) [] = ⊥
IsScan (none ∷ rows) (x ∷ xs) = IsScan rows xs
IsScan (some a ∷ rows) (x ∷ xs) = (a ≡ x) × IsScan rows xs

-- No draw is dated after one that follows it.
abbrev pub IsDated : {F : Type 0} → List (LotteryResult F) → Type 0
IsDated draws = IsSorted (λ x y. ltb x.draw_date y.draw_date) draws

-- What the server is documented to do: a SELECT whose placeholders have arguments gives the rows that
-- meet its conditions, in the order of their dates.
pub record IsPool {F : Type 0} (pool : Pool F) : Type 0 where
  pub by_date : pool.Rows → List (LotteryResult F)
  pub dated : (r : pool.Rows) → IsDated (by_date r)
  pub selects :
      (cs : List Condition) (args : List ℕ) (r : pool.Rows) (rows : List (Option (LotteryResult F)))
      → All (IsBound (length args)) cs
      → pool.select_results (select_text cs) args r ≡ some rows
      → IsScan rows (keep (λ d. meets_all args d.draw_date cs) (by_date r))

abbrev pub rejects : {A : Type 0} → List (Option A) → Bool
rejects [] = false
rejects (none ∷ rows) = true
rejects (some a ∷ rows) = rejects rows

-- The loop over the rows returns them all, or fails at one that Scan rejects.
abbrev Scanned : {A : Type 0} → List (Option A) → List A → Option (List A) → Type 0
Scanned rows xs none = rejects rows ≡ true
Scanned rows xs (some ys) = ys ≡ xs

Scanned-cons :
    {A : Type 0} (a x : A) (rows : List (Option A)) (xs : List A) (o : Option (List A))
    → a ≡ x
    → Scanned rows xs o
    → Scanned (some a ∷ rows) (x ∷ xs) (o >>= λ rest. some (a ∷ rest))
Scanned-cons a x rows xs none e h = h
Scanned-cons a x rows xs (some ys) e h = rw (e, h) refl

scan_rows-Scanned :
    {A : Type 0} (rows : List (Option A)) (xs : List A)
    → IsScan rows xs
    → Scanned rows xs (scan_rows rows)
unfolding scan_rows
scan_rows-Scanned [] [] h = refl
scan_rows-Scanned [] (x ∷ xs) h = absurd h
scan_rows-Scanned (none ∷ rows) [] h = absurd h
scan_rows-Scanned (some a ∷ rows) [] h = absurd h
scan_rows-Scanned (none ∷ rows) (x ∷ xs) h = refl
scan_rows-Scanned (some a ∷ rows) (x ∷ xs) h =
    Scanned-cons a x rows xs (scan_rows rows) h.0 (scan_rows-Scanned rows xs h.1)

-- The conditions for the bounds that are given, with their arguments.
unfoldable pub conditions : ℕ → ℕ → List Condition × List ℕ
conditions from to =
    if from == 0
    then (if to == 0 then ([], []) else (at_most 1 ∷ [], to ∷ []))
    else (if to == 0
        then (at_least 1 ∷ [], from ∷ [])
        else (at_least 1 ∷ at_most 2 ∷ [], from ∷ to ∷ []))

date_range_query-conditions :
    (from to : ℕ)
    → (let (cs, args) = conditions from to in date_range_query from to ≡ (select_text cs, args))
unfolding date_range_query with_from with_to conditions
date_range_query-conditions from to = elim (Bool-cases (from == 0)) [
  | inl f ↦ elim (Bool-cases (to == 0)) [ inl t ↦ rw (f, t) refl | inr t ↦ rw (f, t) refl ]
  | inr f ↦ elim (Bool-cases (to == 0)) [ inl t ↦ rw (f, t) refl | inr t ↦ rw (f, t) refl ]
]

conditions-IsBound :
    (from to : ℕ) → (let (cs, args) = conditions from to in All (IsBound (length args)) cs)
unfolding conditions
conditions-IsBound from to = elim (Bool-cases (from == 0)) [
  | inl f ↦ elim (Bool-cases (to == 0)) [ inl t ↦ rw (f, t) tt | inr t ↦ rw (f, t) (ground arith) ]
  | inr f ↦ elim (Bool-cases (to == 0)) [
    | inl t ↦ rw (f, t) (ground arith)
    | inr t ↦ rw (f, t) (ground arith)
  ]
]

conditions-within :
    (from to date : ℕ)
    → (let (cs, args) = conditions from to in meets_all args date cs ≡ within from to date)
unfolding conditions
conditions-within from to date = elim (Bool-cases (from == 0)) [
  | inl f ↦ elim (Bool-cases (to == 0)) [
    | inl t ↦ rw (f, t) refl
    | inr t ↦ rw (f, t) (ground arith)
  ]
  | inr f ↦ elim (Bool-cases (to == 0)) [
    | inl t ↦ rw (f, t) (ground arith)
    | inr t ↦ rw (f, t) (ground arith)
  ]
]

pub keep-ext :
    {A : Type 0} (p q : A → Bool) (xs : List A) → ((x : A) → p x ≡ q x) → keep p xs ≡ keep q xs
unfolding keep
keep-ext p q [] h = refl
keep-ext p q (x ∷ xs) h = rw (h x, keep-ext p q xs h) refl

module _ {F : Type 0} (pool : Pool F) (law : IsPool pool) where
  -- What GetByDateRange returns, by whether it fails.
  abbrev pub HasRange : ℕ → ℕ → pool.Rows → Option (List (LotteryResult F)) → Type 0
  HasRange from to r none =
      (let (q, args) = date_range_query from to in
        (pool.select_results q args r ≡ none)
        ⊎ ((rows : List (Option (LotteryResult F))) × (pool.select_results q args r ≡ some rows)
            × (rejects rows ≡ true)))
  HasRange from to r (some draws) =
      (draws ≡ keep (λ d. within from to d.draw_date) (law.by_date r)) × IsDated draws

  selected :
      (from to : ℕ) (r : pool.Rows) (rows : List (Option (LotteryResult F)))
      → (let (q, args) = date_range_query from to in pool.select_results q args r ≡ some rows)
      → IsScan rows (keep (λ d. within from to d.draw_date) (law.by_date r))
  selected from to r rows e =
      let (cs, args) = conditions from to in
      let e' =
        ap (λ s. pool.select_results s.0 s.1 r) (sym (date_range_query-conditions from to)) ∙ e in
      rw
        (sym (
          keep-ext (λ d. meets_all args d.draw_date cs) (λ d. within from to d.draw_date)
            (law.by_date r) (λ d. conditions-within from to d.draw_date)))
        (law.selects cs args r rows (conditions-IsBound from to) e')

  -- GetByDateRange returns the draws of the table whose date lies within the inclusive bounds, of
  -- which the zero time is open, in the order of their dates; it fails only if the query fails or a
  -- row cannot be scanned.
  pub get_by_date_range-HasRange :
      (from to : ℕ) (r : pool.Rows) → HasRange from to r (get_by_date_range pool from to r)
  unfolding get_by_date_range
  get_by_date_range-HasRange from to r =
      let (q, args) = date_range_query from to in
      elim (Option-cases (pool.select_results q args r)) [
        | inl e ↦ rw e (inl e)
        | inr (rows, e) ↦
            subst (HasRange from to r) (ap (λ o. o >>= scan_rows) (sym e)) (
              by_scan rows e (scan_rows rows)
                (scan_rows-Scanned rows _ (selected from to r rows e)))
      ]
    where
      by_scan :
          (rows : List (Option (LotteryResult F)))
          → (let (q, args) = date_range_query from to in pool.select_results q args r ≡ some rows)
          → (o : Option (List (LotteryResult F)))
          → Scanned rows (keep (λ d. within from to d.draw_date) (law.by_date r)) o
          → HasRange from to r o
      by_scan rows e none h = inr (rows, e, h)
      by_scan rows e (some draws) h = (
        h,
        subst IsDated (sym h) (keep-IsSorted _ (λ d. within from to d.draw_date) _ (law.dated r)),
      )
