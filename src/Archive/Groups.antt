-- ===== src/Archive/Groups.antt =====
-- TopGroups and AnalyzeForm of internal/lottery-tree/lottery_archive.go against the draws.
use Prim.Native.String.{String}
use stat_tree_server.Base.{
  ℕ, zero, suc, ◌≤◌, ◌<◌, ◌≡◌, ◌≢◌, refl, sym, ◌∙◌, ap, List, [], ◌∷◌, map, arith, length, take,
  ltb, All, All-map, Bool-cases, inl, inr, ne→==, le→ltb,
}
use stat_tree_server.Base.Sort.{sort_stable}
use stat_tree_server.Combos.Spec.{map-map', range, choose}
use stat_tree_server.Combos.Binomial.{binomial_count-choose, groups-IsSmall}
use stat_tree_server.Models.{LotteryResult}
use stat_tree_server.Tree.{before}
use stat_tree_server.Tree.Frequency.{Ascends}
use stat_tree_server.Tree.Reports.{ranking, collect_nodes-ranking}
use stat_tree_server.Analyze.{AnalyzeResponse}
use stat_tree_server.Analyze.Frequency.{
  analysis, analysis_group, analyze_array-analysis, map-agree, range-lt,
}
use stat_tree_server.Archive.{
  LotteryType, max_number, triple_seven, one_two_three, lottery, with_combos, new_archive,
  top_groups, analyze_form,
}

pub max_number-ne-three : (game : LotteryType) → max_number game ≢ 3
max_number-ne-three lottery = omega arith
max_number-ne-three triple_seven = omega arith
max_number-ne-three one_two_three = omega arith

pub max_number-le_thousand : (game : LotteryType) → max_number game ≤ 1000
max_number-le_thousand lottery = omega arith
max_number-le_thousand triple_seven = omega arith
max_number-le_thousand one_two_three = omega arith

take-all {ℓ} : {A : Type ℓ} (n : ℕ) (xs : List A) → length xs ≤ n → take n xs ≡ xs
take-all zero [] h = refl
take-all zero (x ∷ xs) h = absurd (omega arith)
take-all (suc n) [] h = refl
take-all (suc n) (x ∷ xs) h = ap (◌∷◌ x) (take-all n xs (omega arith))

-- An analysis of a form whose groups also say how many groups of their size there are.
unfoldable pub full_analysis : ℕ → List (List ℕ) → List ℕ → AnalyzeResponse
full_analysis top draws form = record {
  frequency_groups =
      map (λ i. record (analysis_group top draws form i) { combos = choose top (suc i) })
        (range 0 6);
  archive_size = length draws;
}

length-map' {ℓ κ} :
    {A : Type ℓ} {B : Type κ} (f : A → B) (xs : List A) → length (map f xs) ≡ length xs
length-map' f [] = refl
length-map' f (x ∷ xs) = ap suc (length-map' f xs)

with_combos-analysis_group :
    (top : ℕ) (draws : List (List ℕ)) (form : List ℕ) (i : ℕ)
    → top ≤ 1000
    → i < 6
    → with_combos top (analysis_group top draws form i)
      ≡ record (analysis_group top draws form i) { combos = choose top (suc i) }
unfolding with_combos analysis_group
with_combos-analysis_group top draws form i h few =
    rw (binomial_count-choose top (suc i) (groups-IsSmall top (suc i) h (omega arith)))

module _ {F : Type 0} where
  -- The regular numbers of the draws.
  abbrev pub numbers_of : List (LotteryResult F) → List (List ℕ)
  numbers_of = map (λ d. d.numbers)

  -- On an archive of strictly ascending draws, TopGroups with a size from 1 to 6 and a positive
  -- limit returns the first entries, up to the limit, of all groups of the size that some draw
  -- holds, each with the number of draws that hold it, sorted by that number and, among equals, in
  -- ascending order of the numbers.
  pub top_groups-ranking :
      (game : LotteryType) (from to : ℕ) (draws : List (LotteryResult F)) (how_many size : ℕ)
      (mode : String)
      → All (Ascends 0) (numbers_of draws)
      → 0 < how_many
      → 0 < size
      → size ≤ 6
      → top_groups (new_archive game from to draws) how_many size mode
        ≡ take how_many
            (sort_stable (before mode) (ranking (max_number game) size (numbers_of draws)))
  unfolding top_groups new_archive
  top_groups-ranking game from to draws how_many zero mode asc some_wanted pos fits =
      absurd (omega arith)
  top_groups-ranking game from to draws how_many (suc r) mode asc some_wanted pos fits =
      let entries =
        sort_stable (before mode) (ranking (max_number game) (suc r) (numbers_of draws)) in
      rw
        (
          ne→== how_many 0 (omega arith),
          ne→== (suc r) 0 (omega arith),
          le→ltb 6 (suc r) fits,
          collect_nodes-ranking (max_number game) 6 r (numbers_of draws) mode
              (max_number-ne-three game) (omega arith) asc,
        )
        (elim (Bool-cases (ltb how_many (length entries))) [
          | inl e ↦ rw e
          | inr e ↦ rw e (sym (take-all how_many entries (ground arith)))
        ])

  -- On an archive of strictly ascending draws, AnalyzeForm reports for each size up to six the
  -- subsequences of the form that are ascending groups of some draw, each with the number of draws
  -- that hold it, most frequent first, beside the number of all groups of the size.
  pub analyze_form-full_analysis :
      (game : LotteryType) (from to : ℕ) (draws : List (LotteryResult F)) (form : List ℕ)
      → All (Ascends 0) (numbers_of draws)
      → analyze_form (new_archive game from to draws) form
        ≡ full_analysis (max_number game) (numbers_of draws) form
  unfolding analyze_form new_archive full_analysis analysis
  analyze_form-full_analysis game from to draws form asc =
      let top = max_number game in
      rw
        (analyze_array-analysis top 6 (numbers_of draws) form (max_number-ne-three game)
          (omega arith) asc)
        (ap (λ l. record { frequency_groups = l; archive_size = length (numbers_of draws) })
          (map-map' _ _ (range 0 6)
            ∙ map-agree _ _ (range 0 6) (
                All-map (λ i. i < 6) _
                  (λ i few.
                    with_combos-analysis_group top (numbers_of draws) form i
                      (max_number-le_thousand game) few)
                  (range 0 6) (range-lt 0 6 6 (omega arith)))))
