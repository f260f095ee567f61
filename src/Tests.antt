-- ===== src/Tests.antt =====
-- Concrete draws, forms and generators for the code of internal/lottery-tree.
use mathlib.Core.Logic.{◌↔◌}
use stat_tree_server.Base.{
  ℕ, true, get_or, inl, inr, Distinct, ◌<◌, ◌≤◌, ◌≡◌, refl, ap, List, [], ◌∷◌, ◌++◌, map, arith,
  length, take, All,
}
use stat_tree_server.Base.Sort.{sort_stable, insert}
use stat_tree_server.Models.{LotteryResult}
use stat_tree_server.Archive.Ranks.{rank_numbers-ranking}
use stat_tree_server.Simulate.Windows.{within}
use stat_tree_server.Manager.{ranges_overlap}
use stat_tree_server.Manager.Windows.{ranges_overlap-meets}
use stat_tree_server.Mask.{combo_mask}
use stat_tree_server.Combos.{binomial_count}
use stat_tree_server.Combos.Spec.{choose}
use stat_tree_server.Combos.Binomial.{binomial_count-choose, groups-IsSmall}
use stat_tree_server.Tree.{
  build, build_all, build_node, visit, grown, new_node, make, size, slot, put, collect,
  collect_slots, new_tree, collect_nodes, before,
}
use stat_tree_server.Tree.Groups.{count_at, total_occurrences}
use stat_tree_server.Tree.Counts.{build-counts}
use stat_tree_server.Tree.Reports.{ranking, collect_nodes-ranking}
use stat_tree_server.Analyze.{analyze_array, max_group_size}
use stat_tree_server.Analyze.Frequency.{analysis, analyze_array-analysis}
use stat_tree_server.Generator.{
  ok, Cursor, FormGenerator, new_form_generator, regroup, search_forms, accepts, generate,
}
use stat_tree_server.Generator.Search.{Outcome, search_forms-Outcome}
use stat_tree_server.Generator.Regroup.{IsRegrouped, regroup-IsRegrouped}
use stat_tree_server.Generator.Generate.{IsForm}
use stat_tree_server.Generator.Batch.{generate-IsBatch}
use stat_tree_server.Archive.{rank_numbers, top_strong, lottery, new_archive, has_won, top_groups}
use stat_tree_server.Archive.Won.{won_before, has_won-won_before}
use stat_tree_server.Archive.Groups.{top_groups-ranking}

abbrev draws : List (List ℕ)
draws = (1 ∷ 2 ∷ 3 ∷ 4 ∷ 5 ∷ 6 ∷ []) ∷ (1 ∷ 2 ∷ 3 ∷ 7 ∷ 8 ∷ 9 ∷ []) ∷ []

abbrev drawn : ℕ → List ℕ → LotteryResult ℕ
drawn n numbers = record {
  id = n;
  draw_number = n;
  draw_date = n;
  numbers = numbers;
  strong = 3;
  lottery_type = "lottery";
  prize_amounts = [];
  created_at = n;
  updated_at = n;
}

abbrev results : List (LotteryResult ℕ)
results = drawn 1 (1 ∷ 2 ∷ 3 ∷ 4 ∷ 5 ∷ 6 ∷ []) ∷ drawn 2 (1 ∷ 2 ∷ 3 ∷ 7 ∷ 8 ∷ 9 ∷ []) ∷ []

abbrev form : List ℕ
form = 3 ∷ 1 ∷ 4 ∷ 5 ∷ []

build-counts_example :
    count_at (1 ∷ 3 ∷ []) (build (new_tree 37) draws 6).anchor
    ≡ total_occurrences (1 ∷ 3 ∷ []) draws
build-counts_example =
    build-counts 37 6 draws 1 (3 ∷ []) (omega arith)
      (omega arith, omega arith, (omega arith, omega arith, tt)) (omega arith)

collect_nodes-ranking_example :
    collect_nodes (build (new_tree 37) draws 6) 2 "weak"
    ≡ sort_stable (before "weak") (ranking 37 2 draws)
collect_nodes-ranking_example =
    collect_nodes-ranking 37 6 1 draws "weak" (omega arith) (omega arith) (ground arith)

binomial_count-choose_example : binomial_count 37 6 ≡ choose 37 6
binomial_count-choose_example =
    binomial_count-choose 37 6 (groups-IsSmall 37 6 (omega arith) (omega arith))

analyze_array-analysis_example :
    analyze_array (build (new_tree 37) draws 6) (3 ∷ 1 ∷ 2 ∷ []) max_group_size
    ≡ analysis 37 draws (3 ∷ 1 ∷ 2 ∷ [])
analyze_array-analysis_example =
    analyze_array-analysis 37 6 draws (3 ∷ 1 ∷ 2 ∷ []) (omega arith) (omega arith) (ground arith)

has_won-won_before_example :
    has_won (new_archive lottery 0 9 results) (6 ∷ 5 ∷ 4 ∷ 3 ∷ 2 ∷ 1 ∷ [])
    ≡ won_before (6 ∷ 5 ∷ 4 ∷ 3 ∷ 2 ∷ 1 ∷ []) results
has_won-won_before_example = has_won-won_before lottery 0 9 results (6 ∷ 5 ∷ 4 ∷ 3 ∷ 2 ∷ 1 ∷ [])

top_groups-ranking_example :
    top_groups (new_archive lottery 0 9 results) 5 2 "strong"
    ≡ take 5 (sort_stable (before "strong") (ranking 37 2 draws))
top_groups-ranking_example =
    top_groups-ranking lottery 0 9 results 5 2 "strong" (ground arith) (omega arith) (omega arith)
      (omega arith)

abbrev generator : FormGenerator ℕ
generator = new_form_generator (new_archive lottery 0 9 results) 6 "strong"

-- The nine numbers that were drawn are ranked.
ranked_numbers : rank_numbers generator.archive "strong" ≡ 1 ∷ 2 ∷ 3 ∷ 4 ∷ 5 ∷ 6 ∷ 7 ∷ 8 ∷ 9 ∷ []
unfolding new_form_generator rank_numbers new_archive collect_nodes build new_tree build_all
    build_node visit grown new_node make size slot put collect collect_slots sort_stable insert
ranked_numbers = refl

enough_ranked : 6 ≤ length (rank_numbers generator.archive "strong")
unfolding new_form_generator
enough_ranked = omega (arith, ap length ranked_numbers)

abbrev requests : List ℕ
requests = 9 ∷ 40 ∷ []

few_requests : length requests ≤ generator.form_type
unfolding new_form_generator
few_requests = omega arith

generate-IsBatch_example :
    (forms : List (List ℕ)) × (generate generator 3 requests
      ≡ ok (map (λ c. c ++ top_strong generator.archive generator.mode ∷ []) forms))
    × (0 < length forms)
    × (length forms ≤ 3)
    × All
        (IsForm generator.archive generator.form_type
          (rank_numbers generator.archive generator.mode)
          requests)
        forms
    × Distinct (map combo_mask forms)
unfolding new_form_generator
generate-IsBatch_example =
    generate-IsBatch generator 3 requests (omega arith) (omega arith) enough_ranked few_requests

abbrev first_try : Cursor
first_try = record { tries = 9 ∷ 1 ∷ 2 ∷ 3 ∷ 4 ∷ 5 ∷ 6 ∷ 7 ∷ 8 ∷ []; case_l = 0 }

search_forms-Outcome_example :
    Outcome (accepts generator) 1 first_try.tries (search_forms 19 generator 1 6 first_try)
unfolding new_form_generator
search_forms-Outcome_example =
    search_forms-Outcome generator 19 1 6 first_try (omega arith) (omega arith) (omega arith)
      (omega arith)

regroup-IsRegrouped_example :
    (t : List ℕ) × (skip : ℕ) × (regroup requests 0 (1 ∷ 2 ∷ 9 ∷ []) ≡ ok (t, skip))
    × IsRegrouped requests 0 (1 ∷ 2 ∷ 9 ∷ []) t skip
regroup-IsRegrouped_example = regroup-IsRegrouped requests 0 (1 ∷ 2 ∷ 9 ∷ []) (omega arith)

rank_numbers-ranking_example :
    rank_numbers (new_archive lottery 0 9 results) "weak"
    ≡ map (λ e. get_or e.numbers 0 0) (sort_stable (before "weak") (ranking 37 1 draws))
rank_numbers-ranking_example =
    rank_numbers-ranking lottery 0 9 results "weak" (omega arith) (ground arith)

ranges_overlap-meets_example :
    (ranges_overlap 3 0 1 5 ≡ true)
    ↔ ((date : ℕ) × (within 3 0 date ≡ true) × (within 1 5 date ≡ true))
ranges_overlap-meets_example = ranges_overlap-meets 3 0 1 5 (inl refl) (inr (omega arith))
