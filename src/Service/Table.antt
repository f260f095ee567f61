-- ===== src/Service/Table.antt =====
-- The handlers of internal/services/lottery_service.go on the table of draws: a handler, the manager
-- and GetByDateRange of internal/repository/lottery_result_repository.go together.
use mathlib.Core.Path.{subst}
use stat_tree_server.Base.{
  length, ◌<◌, ℕ, ◌≡◌, sym, Bool, List, [], ◌∷◌, none, some, Option, All, Bool-cases, inl, inr,
}
use stat_tree_server.Base.Sort.{keep}
use stat_tree_server.Models.{Float64, LotteryResult}
use stat_tree_server.Simulate.Windows.{within}
use stat_tree_server.Tree.Frequency.{Ascends}
use stat_tree_server.Archive.{LotteryArchive}
use stat_tree_server.Archive.Groups.{numbers_of}
use stat_tree_server.Repository.Queries.{Pool, get_by_date_range}
use stat_tree_server.Repository.Ranges.{IsPool, HasRange, get_by_date_range-HasRange}
use stat_tree_server.Manager.Cache.{LotteryManager}
use stat_tree_server.Manager.Answers.{IsCache}
use stat_tree_server.Service.{Repo, FormRequest, analyze, score_form_request}
use stat_tree_server.Archive.Score.{score}
use stat_tree_server.Service.Reports.{
  HasReport, GivesAscending, analysis_of, Never, TooShort, analyze-HasReport, score-HasReport,
}
use stat_tree_server.Simulate.Session.{SimulateRequest}
use stat_tree_server.Service.Backtest.{HasBacktest, simulate_request, simulate_request-HasBacktest}
use stat_tree_server.Service.Load.{IsDrawn, IsGiven, IsGiving}

numbers-keep :
    {F : Type 0} (p : LotteryResult F → Bool) (draws : List (LotteryResult F))
    → All (Ascends 0) (numbers_of draws)
    → All (Ascends 0) (numbers_of (keep p draws))
unfolding keep
numbers-keep p [] a = tt
numbers-keep p (d ∷ draws) a = elim (Bool-cases (p d)) [
  | inl e ↦ rw e (a.0, numbers-keep p draws a.1)
  | inr e ↦ rw e (numbers-keep p draws a.1)
]

module _ {F : Type 0} (pool : Pool F) (law : IsPool pool) (r : pool.Rows) where
  -- The repository on the rows of the table.
  unfoldable pub repo_of : Repo F
  unfolding get_by_date_range
  repo_of = some (λ from to. get_by_date_range pool from to r)

  -- The draws of the table within the bounds.
  abbrev pub IsRange : ℕ → ℕ → List (LotteryResult F) → Type 0
  IsRange from to draws = draws ≡ keep (λ d. within from to d.draw_date) (law.by_date r)

  -- GetByDateRange fails for the bounds: the query fails, or a row cannot be scanned.
  abbrev pub IsFailing : ℕ → ℕ → Type 0
  IsFailing from to = HasRange pool law from to r none

  repo_of-IsGiving : IsGiving IsRange IsFailing repo_of
  unfolding repo_of
  repo_of-IsGiving from to =
      given (get_by_date_range pool from to r) (get_by_date_range-HasRange pool law from to r)
    where
      given :
          (o : Option (List (LotteryResult F)))
          → HasRange pool law from to r o
          → IsGiven IsRange IsFailing from to o
      given none h = h
      given (some draws) h = h.0

  IsRange-GivesAscending : All (Ascends 0) (numbers_of (law.by_date r)) → GivesAscending IsRange
  IsRange-GivesAscending ascending from to draws e =
      subst (λ l. All (Ascends 0) (numbers_of l)) (sym e)
        (numbers-keep (λ d. within from to d.draw_date) (law.by_date r) ascending)

  -- On a cache of archives of the table, whose draws have ascending numbers, Analyze either fails
  -- where the query fails or a row cannot be scanned, and the cache has no archive for the window, or
  -- answers for each size up to six with the subsequences of the form that are ascending groups of
  -- some draw, each with its number of draws, most frequent first, of exactly the draws of the table
  -- within the bounds of a window with the days that are asked for, from the default start if none
  -- is. It refuses no form, and the cache is in order again; no call panics or waits without end.
  pub analyze_table :
      (req : FormRequest) (m : LotteryManager (LotteryArchive F))
      → All (Ascends 0) (numbers_of (law.by_date r))
      → IsCache (IsDrawn IsRange) m
      → HasReport IsRange IsFailing analysis_of Never req (analyze repo_of req m)
  analyze_table req m ascending c =
      analyze-HasReport IsRange IsFailing repo_of req m (IsRange-GivesAscending ascending)
        repo_of-IsGiving c

module _ (fl : Float64) (pool : Pool fl.F) (law : IsPool pool) (r : pool.Rows) where
  -- On a cache of archives of the table, whose draws have ascending numbers, and for a request with
  -- fewer than 2^31 numbers, ScoreForm either fails where the query fails or a row cannot be scanned,
  -- and the cache has no archive for the window, or refuses a form of fewer than two numbers, and no
  -- other, or answers with the heat of the form against exactly the draws of the table within the
  -- bounds of a window with the days that are asked for, from the default start if none is. For each
  -- pair of the form that ascends, the heat counts the draws that hold it, and 0 for any other pair.
  -- The cache is in order again; no call panics or waits without end.
  pub score_form_table :
      (req : FormRequest) (m : LotteryManager (LotteryArchive fl.F))
      → length req.form < 2147483648
      → All (Ascends 0) (numbers_of (law.by_date r))
      → IsCache (IsDrawn (IsRange pool law r)) m
      → HasReport
          (IsRange pool law r)
          (IsFailing pool law r)
          (score fl 37)
          TooShort
          req
          (score_form_request fl (repo_of pool law r) req m)
  score_form_table req m fits_message ascending c =
      score-HasReport fl (IsRange pool law r) (IsFailing pool law r) (repo_of pool law r) req m
        fits_message (IsRange-GivesAscending pool law r ascending) (repo_of-IsGiving pool law r) c

  -- On a cache of archives of the table, Simulate either fails where the query fails or a row cannot
  -- be scanned, and the cache has no archive for the window, or refuses a form of fewer than six
  -- positive numbers, and no other, or answers with a summary of exactly the draws that are within
  -- the simulate window, if there is one, and within the bounds of a window with the days of the
  -- union of both windows, from the default start if it has none: how many they are, how many
  -- combinations were played, and for each tier the sum of its hits, each as a word of 32 bits. The
  -- cache is in order again; no call panics or waits without end.
  pub simulate_table :
      (req : SimulateRequest fl.F) (m : LotteryManager (LotteryArchive fl.F))
      → IsCache (IsDrawn (IsRange pool law r)) m
      → HasBacktest fl
          (IsRange pool law r)
          (IsFailing pool law r)
          req
          (simulate_request fl (repo_of pool law r) req m)
  simulate_table req m c =
      simulate_request-HasBacktest fl (IsRange pool law r) (IsFailing pool law r)
        (repo_of pool law r) req m (repo_of-IsGiving pool law r) c
