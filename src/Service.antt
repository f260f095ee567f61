-- ===== src/Service.antt =====
-- internal/services/lottery_service.go: the handlers HealthCheck, GenerateForm, GetStatistics, Analyze
-- and ScoreForm. A handler takes the repository's GetByDateRange and the manager, and gives its reply
-- and the manager after it. An int32 of a request is a word of 32 bits; the counts of an archive are
-- natural numbers, which Int32 conversions cut to 32 bits. The error texts leave out what they format.
pub mod Load
pub mod Statistics
pub mod Forms
pub mod Reports
pub mod Backtest
pub mod Table
pub mod Examples
use Prim.Native.String.{String}
use stat_tree_server.Base.{
  ℕ, ◌+◌, ◌-◌, Bool, true, false, not, ◌&&◌, ◌||◌, List, [], ◌∷◌, Option, none, some, length, take,
  get_or, ltb, leb, ◌==◌, if◌then◌else◌,
}
use stat_tree_server.Models.{Float64, LotteryResult}
use stat_tree_server.Tree.{NodeEntry}
use stat_tree_server.Analyze.{AnalyzeResponse}
use stat_tree_server.Archive.{LotteryArchive, top_groups, analyze_form}
use stat_tree_server.Archive.Score.{ScoreFormResponse, score_form}
use stat_tree_server.Generator.{Run, ok, panic, out_of_fuel, new_form_generator, generate}
use stat_tree_server.Simulate.{DateWindow, window_from_proto}
use stat_tree_server.Convert.{
  is_positive, int32_of_int, int_of_int32, ints_to_int32s, int32s_to_ints,
}
use stat_tree_server.Manager.Cache.{LotteryManager, Answer, found, error, blocked, archive, build}

pub data Strength : Type 0 where
  strength_unspecified weak strong : Strength

pub data ServiceError : Type 0 where
  load_failed : String → ServiceError
  invalid_argument : String → ServiceError
  unsupported_group_size : ServiceError

-- What a call ends with; `crashed` is a panic, `stuck` a wait without end.
pub data Reply (A : Type 0) : Type 0 where
  reply : A → Reply A
  refused : ServiceError → Reply A
  crashed stuck : Reply A

pub record GenerateFormRequest : Type 0 where
  pub how_many : ℕ
  pub form_type : ℕ
  pub will_be : List ℕ
  pub window : Option DateWindow
  pub strength : Strength

pub record NumberSet : Type 0 where
  pub numbers : List ℕ
  pub strong : Option ℕ

pub record GetStatisticsRequest : Type 0 where
  pub how_many : ℕ
  pub form_type : ℕ
  pub window : Option DateWindow
  pub strength : Strength

pub record Pair : Type 0 where
  pub numbers : List ℕ
  pub count : ℕ

pub record GetStatisticsResponse : Type 0 where
  pub pairs : List Pair
  pub total_draws_in_range : ℕ

pub record FormRequest : Type 0 where
  pub form : List ℕ
  pub window : Option DateWindow

pub record HealthCheckResponse : Type 0 where
  pub status : String
  pub version : String
  pub draws_loaded : ℕ

unfoldable pub strength_mode : Strength → String
strength_mode weak = "weak"
strength_mode strong = "strong"
strength_mode strength_unspecified = "strong"

-- `int32(count)` of the repository's Count, if there is a repository and no error
abbrev counted : Option (Option ℕ) → ℕ
counted none = 0
counted (some none) = 0
counted (some (some n)) = int32_of_int n

unfoldable pub health_check : Option (Option ℕ) → HealthCheckResponse
unfolding int32_of_int
health_check count = record { status = "healthy"; version = "1.0.0"; draws_loaded = counted count }

-- GetByDateRange, if there is a repository
abbrev pub Repo : Type 0 → Type 0
Repo F = Option (ℕ → ℕ → Option (List (LotteryResult F)))

module _ {F : Type 0} where
  -- (*LotteryService).archive
  unfoldable pub load_archive :
      Repo F
      → Option DateWindow
      → LotteryManager (LotteryArchive F)
      → Answer (LotteryArchive F) × LotteryManager (LotteryArchive F)
  unfolding archive build
  load_archive repo w m = let (from, to) = window_from_proto w in archive (build repo) from to m

  -- `if err != nil { return nil, err }`, and the rest of a handler on the archive
  abbrev pub with_archive :
      {A M : Type 0} → (LotteryArchive F → Reply A) → Answer (LotteryArchive F) × M → Reply A × M
  with_archive rest (found none, m) = (crashed, m)
  with_archive rest (found (some a), m) = (rest a, m)
  with_archive rest (error text, m) = (refused (load_failed text), m)
  with_archive rest (blocked, m) = (stuck, m)

-- a row of the generator: its regular numbers, and the strong one at its end
unfoldable pub number_set : List ℕ → NumberSet
unfolding ints_to_int32s int32_of_int
number_set row =
    let s = int32_of_int (get_or row (length row - 1) 0) in
    record {
      numbers = ints_to_int32s (take (length row - 1) row);
      strong = if not (s == 0) && ltb s 2147483648 then some s else none;
    }

unfoldable pub number_sets : List (List ℕ) → List NumberSet
unfolding number_set
number_sets [] = []
number_sets (row ∷ rows) =
    let rest = number_sets rows in if length row == 0 then rest else number_set row ∷ rest

abbrev pub forms_reply : Run (List (List ℕ)) → Reply (List NumberSet)
forms_reply (ok rows) = reply (number_sets rows)
forms_reply panic = crashed
forms_reply out_of_fuel = stuck

-- `if howMany > 50 { howMany = 50 }`
abbrev pub at_most_fifty : ℕ → ℕ
at_most_fifty n = if ltb 50 n then 50 else n

-- `formType := int(v)`, and 6 if that is below 6
abbrev pub form_size : ℕ → ℕ
form_size v = let n = int_of_int32 v in if not (is_positive n) || ltb n 6 then 6 else n

unfoldable pub pairs_of : List NodeEntry → List Pair
unfolding ints_to_int32s int32_of_int
pairs_of [] = []
pairs_of (e ∷ entries) =
    record { numbers = ints_to_int32s e.numbers; count = int32_of_int e.count } ∷ pairs_of entries

-- `int(v)`, and `d` if that is not positive
abbrev pub positive_or : ℕ → ℕ → ℕ
positive_or d v = let n = int_of_int32 v in if is_positive n then n else d

module _ {F : Type 0} where
  unfoldable pub generate_form :
      Repo F
      → GenerateFormRequest
      → LotteryManager (LotteryArchive F)
      → Reply (List NumberSet) × LotteryManager (LotteryArchive F)
  unfolding load_archive number_sets int_of_int32 int32s_to_ints strength_mode generate
      new_form_generator
  generate_form repo req m =
      let how_many = int_of_int32 req.how_many in
      if is_positive how_many
      then with_archive
          (λ a. forms_reply (
            generate (new_form_generator a (form_size req.form_type) (strength_mode req.strength))
              (at_most_fifty how_many) (int32s_to_ints req.will_be)))
          (load_archive repo req.window m)
      else (refused (invalid_argument "how_many must be positive"), m)

  -- the groups of the archive, and the number of its draws
  unfoldable pub statistics_of : GetStatisticsRequest → LotteryArchive F → GetStatisticsResponse
  unfolding pairs_of int_of_int32 int32_of_int strength_mode top_groups
  statistics_of req a = record {
    pairs = pairs_of (
        top_groups a (positive_or 10 req.how_many) (positive_or 2 req.form_type)
          (strength_mode req.strength));
    total_draws_in_range = int32_of_int (length a.draws);
  }

  unfoldable pub get_statistics :
      Repo F
      → GetStatisticsRequest
      → LotteryManager (LotteryArchive F)
      → Reply GetStatisticsResponse × LotteryManager (LotteryArchive F)
  unfolding load_archive statistics_of int_of_int32
  get_statistics repo req m =
      if ltb 6 (positive_or 2 req.form_type)
      then (refused unsupported_group_size, m)
      else with_archive (λ a. reply (statistics_of req a)) (load_archive repo req.window m)

  unfoldable pub analyze :
      Repo F
      → FormRequest
      → LotteryManager (LotteryArchive F)
      → Reply AnalyzeResponse × LotteryManager (LotteryArchive F)
  unfolding load_archive int32s_to_ints analyze_form
  analyze repo req m =
      with_archive (λ a. reply (analyze_form a (int32s_to_ints req.form)))
        (load_archive repo req.window m)

unfoldable pub score_form_request :
    (fl : Float64)
    → Repo fl.F
    → FormRequest
    → LotteryManager (LotteryArchive fl.F)
    → Reply (ScoreFormResponse fl.F) × LotteryManager (LotteryArchive fl.F)
unfolding load_archive int32s_to_ints score_form
score_form_request fl repo req m =
    let numbers = int32s_to_ints req.form in
    with_archive
      (λ a.
        if ltb (length numbers) 2
        then refused (invalid_argument "form must contain at least 2 numbers")
        else reply (score_form fl a numbers))
      (load_archive repo req.window m)
