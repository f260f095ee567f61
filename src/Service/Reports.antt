-- ===== src/Service/Reports.antt =====
-- Analyze and ScoreForm of internal/services/lottery_service.go, from the request to the report on the
-- draws of the window.
use mathlib.Core.Path.{subst}
use stat_tree_server.Base.{
  ℕ, ◌<◌, ◌≡◌, sym, ap, ◌∙◌, Bool, List, arith, length, ltb, if◌then◌else◌, All, Bool-cases, inl,
  inr, true, false,
}
use stat_tree_server.Models.{Float64, LotteryResult}
use stat_tree_server.Tree.Frequency.{Ascends}
use stat_tree_server.Analyze.{AnalyzeResponse}
use stat_tree_server.Convert.{int32s_to_ints}
use stat_tree_server.Archive.{LotteryArchive, lottery, analyze_form}
use stat_tree_server.Archive.Groups.{numbers_of, full_analysis, analyze_form-full_analysis}
use stat_tree_server.Archive.Score.{ScoreFormResponse, score_form, score, score_form-score}
use stat_tree_server.Manager.Cache.{LotteryManager, window_key}
use stat_tree_server.Manager.Answers.{IsCache}
use stat_tree_server.Service.{
  Repo, Reply, reply, refused, crashed, stuck, load_failed, invalid_argument,
  unsupported_group_size, FormRequest, analyze, score_form_request,
}
use stat_tree_server.Service.Forms.{length-int32s_to_ints}
use stat_tree_server.Service.Load.{IsDrawn, IsGiving, Fails, request_key, with_archive_ends}

-- The report of Analyze.
abbrev pub analysis_of : {F : Type 0} → List (LotteryResult F) → List ℕ → AnalyzeResponse
analysis_of draws form = full_analysis 37 (numbers_of draws) form

abbrev pub Never : List ℕ → Type 0
Never form = ⊥

-- The draws that the repository gives have ascending numbers.
abbrev pub GivesAscending : {F : Type 0} → (ℕ → ℕ → List (LotteryResult F) → Type 0) → Type 0
GivesAscending {F = F} G =
    (from to : ℕ) (draws : List (LotteryResult F))
    → G from to draws
    → All (Ascends 0) (numbers_of draws)

module _ {F : Type 0} (G : ℕ → ℕ → List (LotteryResult F) → Type 0) (E : ℕ → ℕ → Type 0) where
  -- How Analyze and ScoreForm end: with a report on draws of the window, with the error of the load,
  -- or with the refusal of a form.
  abbrev pub HasReport :
      {B : Type 0}
      → (List (LotteryResult F) → List ℕ → B)
      → (List ℕ → Type 0)
      → FormRequest
      → Reply B × LotteryManager (LotteryArchive F)
      → Type 0
  HasReport report Refused req (reply resp, m') =
      (from : ℕ) × (to : ℕ) × (draws : List (LotteryResult F)) × (window_key from to
        ≡ request_key req.window)
      × G from to draws
      × (Refused req.form → ⊥)
      × (resp ≡ report draws (int32s_to_ints req.form))
      × IsCache (IsDrawn G) m'
  HasReport report Refused req (refused (load_failed text), m') = Fails G E req.window m'
  HasReport report Refused req (refused (invalid_argument text), m') =
      Refused req.form × IsCache (IsDrawn G) m'
  HasReport report Refused req (refused unsupported_group_size, m') = ⊥
  HasReport report Refused req (crashed, m') = ⊥
  HasReport report Refused req (stuck, m') = ⊥

  pub analyze-HasReport :
      (repo : Repo F) (req : FormRequest) (m : LotteryManager (LotteryArchive F))
      → GivesAscending G
      → IsGiving G E repo
      → IsCache (IsDrawn G) m
      → HasReport analysis_of Never req (analyze repo req m)
  unfolding analyze
  analyze-HasReport repo req m ascending g c =
      let form = int32s_to_ints req.form in
      with_archive_ends G E repo req.window m g c (HasReport analysis_of Never req)
        (λ a. reply (analyze_form a form))
        (λ a m' (from, to, draws, is_new, key, given) c'. (
          from,
          to,
          draws,
          key,
          given,
          λ h. h,
          ap (λ b. analyze_form b form) is_new
              ∙ analyze_form-full_analysis lottery from to draws form
                  (ascending from to draws given),
          c',
        ))
        (λ text m' h. h)

abbrev pub TooShort : List ℕ → Type 0
TooShort form = length form < 2

module _ (fl : Float64) (G : ℕ → ℕ → List (LotteryResult fl.F) → Type 0) (E : ℕ → ℕ → Type 0) where
  pub score-HasReport :
      (repo : Repo fl.F) (req : FormRequest) (m : LotteryManager (LotteryArchive fl.F))
      → length req.form < 2147483648
      → GivesAscending G
      → IsGiving G E repo
      → IsCache (IsDrawn G) m
      → HasReport G E (score fl 37) TooShort req (score_form_request fl repo req m)
  unfolding score_form_request
  score-HasReport repo req m fits_message ascending g c =
      with_archive_ends G E repo req.window m g c (HasReport G E (score fl 37) TooShort req) answer
        (λ a m' (from, to, draws, is_new, key, given) c'. elim (Bool-cases (ltb (length form) 2)) [
          | inl short ↦
              subst (λ b. HasReport G E (score fl 37) TooShort req (replied b a, m')) (sym short)
                (omega (arith, short_form short, length-int32s_to_ints req.form), c')
          | inr fits ↦
              subst (λ b. HasReport G E (score fl 37) TooShort req (replied b a, m')) (sym fits)
                (
                  from,
                  to,
                  draws,
                  key,
                  given,
                  λ short. long_form fits (omega (arith, short, length-int32s_to_ints req.form)),
                  ap (λ b. score_form fl b form) is_new
                      ∙ score_form-score fl lottery from to draws form
                          (omega (arith, fits_message, length-int32s_to_ints req.form))
                          (ascending from to draws given),
                  c',
                )
        ])
        (λ text m' h. h)
    where
      form : List ℕ
      form = int32s_to_ints req.form

      replied : Bool → LotteryArchive fl.F → Reply (ScoreFormResponse fl.F)
      replied b a =
          if b
          then refused (invalid_argument "form must contain at least 2 numbers")
          else reply (score_form fl a form)

      answer : LotteryArchive fl.F → Reply (ScoreFormResponse fl.F)
      answer a = replied (ltb (length form) 2) a

      short_form : ltb (length form) 2 ≡ true → length form < 2
      short_form h = ground arith

      long_form : ltb (length form) 2 ≡ false → length form < 2 → ⊥
      long_form h s = ground arith
