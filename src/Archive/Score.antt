-- ===== src/Archive/Score.antt =====
-- ScoreForm of internal/lottery-tree/lottery_archive.go: the heat index of a form.
use stat_tree_server.Base.{
  ◌<◌, ℕ, ◌+◌, ◌≡◌, refl, ◌∙◌, Bool, List, [], ◌∷◌, arith, length, get_or, if◌then◌else◌, All,
  Bool-cases, inl, inr,
}
use stat_tree_server.Base.Sort.{sort_stable, insert}
use stat_tree_server.Convert.{int32_of_int}
use stat_tree_server.Combos.{binomial_count}
use stat_tree_server.Combos.Binomial.{binomial_count-choose, groups-IsSmall, pairs-IsSmall}
use stat_tree_server.Combos.Spec.{choose, combos, range}
use stat_tree_server.Models.{Float64, LotteryResult}
use stat_tree_server.Tree.{NodeEntry}
use stat_tree_server.Tree.Frequency.{Ascends}
use stat_tree_server.Tree.Present.{present}
use stat_tree_server.Analyze.{FrequencyGroup, max_group_size, analyze_array, more_frequent}
use stat_tree_server.Analyze.Frequency.{group_frequency, analysis, analyze_array-analysis}
use stat_tree_server.Archive.{LotteryType, LotteryArchive, max_number, new_archive}
use stat_tree_server.Archive.Groups.{numbers_of, max_number-ne-three, max_number-le_thousand}

pub record ScoreFormResponse (F : Type 0) : Type 0 where
  pub heat : F
  pub observed_pair_hits : ℕ
  pub expected_pair_hits : F
  pub draws : ℕ
  pub pair_count : ℕ

-- `observed += int64(e.GetCount())`
unfoldable pub sum_counts : List NodeEntry → ℕ
sum_counts [] = 0
sum_counts (e ∷ entries) = e.count + sum_counts entries

abbrev no_group : FrequencyGroup
no_group = record { size = 0; combos = 0; entries = [] }

unfoldable pub score_form : (fl : Float64) → LotteryArchive fl.F → List ℕ → ScoreFormResponse fl.F
unfolding sum_counts int32_of_int
score_form fl a form =
    let pairs = binomial_count (length form) 2 in
    let resp = analyze_array a.tree form max_group_size in
    let observed = sum_counts (get_or resp.frequency_groups 1 no_group).entries in
    let expected =
      fl.div
        (fl.mul (fl.mul (fl.of_nat (length a.draws)) (fl.of_nat pairs))
          (fl.of_nat (binomial_count max_group_size 2)))
        (fl.of_nat (binomial_count (max_number a.lottery_type) 2)) in
    record {
      heat =
          if fl.lt (fl.of_nat 0) expected
          then fl.div (fl.mul (fl.of_nat 100) (fl.of_nat observed)) expected
          else fl.of_nat 0;
      observed_pair_hits = observed;
      expected_pair_hits = expected;
      draws = int32_of_int (length a.draws);
      pair_count = int32_of_int pairs;
    }

-- The sum of a count over a list of groups.
unfoldable pub sum_of : (List ℕ → ℕ) → List (List ℕ) → ℕ
sum_of f [] = 0
sum_of f (p ∷ ps) = f p + sum_of f ps

sum_counts-present :
    (f : List ℕ → ℕ) (prefix : List ℕ) (ps : List (List ℕ))
    → sum_counts (present f prefix ps) ≡ sum_of f ps
unfolding sum_counts present sum_of
sum_counts-present f prefix [] = refl
sum_counts-present f prefix (p ∷ ps) = ground (arith, sum_counts-present f prefix ps)

sum_counts-insert :
    (less : NodeEntry → NodeEntry → Bool) (e : NodeEntry) (l : List NodeEntry)
    → sum_counts (insert less e l) ≡ e.count + sum_counts l
unfolding sum_counts insert
sum_counts-insert less e [] = refl
sum_counts-insert less e (x ∷ l) = elim (Bool-cases (less x e)) [
  | inl c ↦ rw c (omega (arith, sum_counts-insert less e l))
  | inr c ↦ rw c
]

sum_counts-sort :
    (less : NodeEntry → NodeEntry → Bool) (l : List NodeEntry)
    → sum_counts (sort_stable less l) ≡ sum_counts l
unfolding sum_counts sort_stable
sum_counts-sort less [] = refl
sum_counts-sort less (e ∷ l) =
    omega (arith, sum_counts-insert less e (sort_stable less l), sum_counts-sort less l)

-- On an archive of strictly ascending draws, the observed pair hits of ScoreForm are the sum, over
-- all pairs of places of the form, of the number of draws that hold the pair (0 for a pair that is
-- not ascending or out of range).
pub score_form-pair_hits :
    (fl : Float64) (game : LotteryType) (from to : ℕ) (draws : List (LotteryResult fl.F))
    (form : List ℕ)
    → All (Ascends 0) (numbers_of draws)
    → (score_form fl (new_archive game from to draws) form).observed_pair_hits
      ≡ sum_of (group_frequency (max_number game) (numbers_of draws)) (combos 2 form)
unfolding score_form new_archive analysis range
score_form-pair_hits fl game from to draws form asc =
    rw
      (analyze_array-analysis (max_number game) 6 (numbers_of draws) form (max_number-ne-three game)
        (omega arith) asc)
      (sum_counts-sort more_frequent _
        ∙ sum_counts-present (group_frequency (max_number game) (numbers_of draws)) []
            (combos 2 form))

-- What ScoreForm computes from observed hits.
abbrev scored : (fl : Float64) → ℕ → ℕ → ℕ → ℕ → ℕ → ScoreFormResponse fl.F
scored fl draws pairs in_draw in_all observed =
    let expected =
      fl.div (fl.mul (fl.mul (fl.of_nat draws) (fl.of_nat pairs)) (fl.of_nat in_draw))
        (fl.of_nat in_all) in
    record {
      heat =
          if fl.lt (fl.of_nat 0) expected
          then fl.div (fl.mul (fl.of_nat 100) (fl.of_nat observed)) expected
          else fl.of_nat 0;
      observed_pair_hits = observed;
      expected_pair_hits = expected;
      draws = int32_of_int draws;
      pair_count = int32_of_int pairs;
    }

-- The heat of a form against draws from 1 to `top`: the observed hits of its pairs, as a percentage of
-- those that chance gives, of the draws times the pairs times the share of the pairs that a draw has.
unfoldable pub score :
    (fl : Float64) → ℕ → List (LotteryResult fl.F) → List ℕ → ScoreFormResponse fl.F
unfolding sum_of
score fl top draws form =
    scored fl (length draws) (choose (length form) 2) (choose 6 2) (choose top 2)
      (sum_of (group_frequency top (numbers_of draws)) (combos 2 form))

score_form-scored :
    (fl : Float64) (game : LotteryType) (from to : ℕ) (draws : List (LotteryResult fl.F))
    (form : List ℕ)
    → score_form fl (new_archive game from to draws) form
      ≡ scored fl
          (length draws)
          (binomial_count (length form) 2)
          (binomial_count 6 2)
          (binomial_count (max_number game) 2)
          (score_form fl (new_archive game from to draws) form).observed_pair_hits
unfolding score_form new_archive
score_form-scored fl game from to draws form = refl

-- On an archive of strictly ascending draws ScoreForm is the heat of the form, of fewer than 2^31
-- numbers.
pub score_form-score :
    (fl : Float64) (game : LotteryType) (from to : ℕ) (draws : List (LotteryResult fl.F))
    (form : List ℕ)
    → length form < 2147483648
    → All (Ascends 0) (numbers_of draws)
    → score_form fl (new_archive game from to draws) form ≡ score fl (max_number game) draws form
unfolding score
score_form-score fl game from to draws form short asc =
    score_form-scored fl game from to draws form
    ∙ rw
        (
          binomial_count-choose (length form) 2 (pairs-IsSmall (length form) short),
          binomial_count-choose 6 2 (groups-IsSmall 6 2 (omega arith) (omega arith)),
          binomial_count-choose (max_number game) 2
              (groups-IsSmall (max_number game) 2 (max_number-le_thousand game) (omega arith)),
          score_form-pair_hits fl game from to draws form asc,
        )
        refl
