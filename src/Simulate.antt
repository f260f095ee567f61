-- ===== src/Simulate.antt =====
-- internal/services/simulate.go: the backtest of a form against historical draws.
-- The messages are those of proto/lottery.proto. A number of a form is a natural: the negative ones
-- are dropped with 0. The logging is left out.
pub mod Hits
pub mod Tiers
pub mod Forms
pub mod Windows
pub mod Session
pub mod Summary
pub mod Examples
use stat_tree_server.Base.{
  ℕ, zero, suc, ◌+◌, ◌-◌, ◌*◌, Bool, true, false, not, ◌&&◌, ◌||◌, List, [], ◌∷◌, ◌++◌, map, Option,
  none, some, length, get_or, set, take, elem, ltb, leb, ◌==◌, if◌then◌else◌,
}
use stat_tree_server.Combos.Spec.{range}
use stat_tree_server.Combos.{generate_combinations}
use stat_tree_server.Models.{Float64, LotteryResult}
use stat_tree_server.Archive.{LotteryArchive, sort_ints}

-- Both bounds of a window; `none` is a bound that is not set.
pub record DateWindow : Type 0 where
  pub from : Option ℕ
  pub to : Option ℕ

-- `ts.AsTime()`, where the zero time, 0, stands for an unset bound
abbrev pub bound : Option ℕ → ℕ
bound none = 0
bound (some t) = t

abbrev pub window_from_proto : Option DateWindow → ℕ × ℕ
window_from_proto none = (0, 0)
window_from_proto (some w) = (bound w.from, bound w.to)

-- timestamppb.New of a bound that is not the zero time
abbrev pub stamp : ℕ → Option ℕ
stamp t = if t == 0 then none else some t

unfoldable pub union_windows : Option DateWindow → Option DateWindow → Option DateWindow
union_windows none b = b
union_windows (some a) none = some a
union_windows (some a) (some b) =
    let (a_from, a_to) = window_from_proto (some a) in
    let (b_from, b_to) = window_from_proto (some b) in
    some (record {
      from =
          stamp
            (if b_from == 0 || (not (a_from == 0) && ltb b_from a_from) then b_from else a_from);
      to = stamp (if b_to == 0 || (not (a_to == 0) && ltb a_to b_to) then b_to else a_to);
    })

-- the body of filterDrawsByWindow's loop: whether the date is kept
abbrev pub kept : ℕ → ℕ → ℕ → Bool
kept from to date =
    if not (from == 0) && ltb date from
    then false
    else if not (to == 0) && ltb to date
    then false
    else true

unfoldable pub kept_draws : {F : Type 0} → ℕ → ℕ → List (LotteryResult F) → List (LotteryResult F)
kept_draws from to [] = []
kept_draws from to (d ∷ draws) =
    let rest = kept_draws from to draws in if kept from to d.draw_date then d ∷ rest else rest

unfoldable pub filter_draws_by_window :
    {F : Type 0} → List (LotteryResult F) → ℕ → ℕ → List (LotteryResult F)
unfolding kept_draws
filter_draws_by_window draws from to =
    if from == 0 && to == 0 then draws else kept_draws from to draws

-- the loop of dedupAndSort
unfoldable pub dedup : List ℕ → List ℕ → List ℕ
dedup seen [] = []
dedup seen (n ∷ nums) = if elem n seen then dedup seen nums else n ∷ dedup (n ∷ seen) nums

unfoldable pub dedup_and_sort : List ℕ → List ℕ
unfolding dedup
dedup_and_sort nums = sort_ints (dedup [] nums)

unfoldable pub match_to_tier : ℕ → Bool → ℕ
match_to_tier matches strong_matched =
    if matches == 6
    then (if strong_matched then 1 else 2)
    else if matches == 5
    then (if strong_matched then 3 else 4)
    else if matches == 4
    then (if strong_matched then 5 else 6)
    else if matches == 3
    then (if strong_matched then 7 else 8)
    else 0

-- generateCombinations, which runs the loop of GenerateCombinations in lottery_archive.go
abbrev pub simulate_combinations : List ℕ → ℕ → List (List ℕ)
simulate_combinations numbers k = generate_combinations numbers k

-- the inner loop of simulateDraw: how many numbers of the combination the draw holds
unfoldable pub matches : List ℕ → List ℕ → ℕ
matches winning [] = 0
matches winning (n ∷ combo) = (if elem n winning then 1 else 0) + matches winning combo

-- `tierHitsCount[tier-1]++`, for a tier above 0
unfoldable pub add_hit : ℕ → List ℕ → List ℕ
add_hit tier counts =
    if ltb 0 tier then set counts (tier - 1) (get_or counts (tier - 1) 0 + 1) else counts

-- the loop of simulateDraw over the combinations
unfoldable pub count_hits : List ℕ → Bool → List (List ℕ) → List ℕ → List ℕ
unfolding match_to_tier matches add_hit
count_hits winning strong_matched [] counts = counts
count_hits winning strong_matched (combo ∷ combos) counts =
    count_hits winning strong_matched combos
      (add_hit (match_to_tier (matches winning combo) strong_matched) counts)

-- `[8]int{}`
abbrev pub no_hits : List ℕ
no_hits = 0 ∷ 0 ∷ 0 ∷ 0 ∷ 0 ∷ 0 ∷ 0 ∷ 0 ∷ []

pub record SimulateTierHit (F : Type 0) : Type 0 where
  pub tier : ℕ
  pub hits : ℕ
  pub amount_per_hit : F
  pub total : F

pub record SimulateDrawResult (F : Type 0) : Type 0 where
  pub draw_number : ℕ
  pub draw_date : ℕ
  pub winning_numbers : List ℕ
  pub winning_strong : ℕ
  pub tier_hits : List (SimulateTierHit F)
  pub prize_won : F
  pub ticket_cost : F
  pub used_real_prizes : Bool

module _ (fl : Float64) where
  abbrev pub zero_amount : fl.F
  zero_amount = fl.of_nat 0

  abbrev pub tier_hit : ℕ → ℕ → fl.F → SimulateTierHit fl.F
  tier_hit tier hits amount = record {
    tier = tier;
    hits = hits;
    amount_per_hit = amount;
    total = fl.mul (fl.of_nat hits) amount;
  }

  -- the loop that builds the tier hits, from index `i` on, and the prize beside them
  unfoldable pub build_hits : ℕ → List ℕ → List fl.F → fl.F → List (SimulateTierHit fl.F) × fl.F
  build_hits i [] amounts won = ([], won)
  build_hits i (c ∷ counts) amounts won =
      let hit = tier_hit (suc i) c (get_or amounts i zero_amount) in
      let (hits, prize) =
        build_hits (suc i) counts amounts (if ltb 0 c then fl.add won hit.total else won) in
      (if ltb 0 c then hit ∷ hits else hits, prize)

  unfoldable pub simulate_draw :
      LotteryResult fl.F → List (List ℕ) → ℕ → List fl.F → fl.F → SimulateDrawResult fl.F
  unfolding count_hits build_hits
  simulate_draw draw combinations user_strong amounts cost =
      let strong_matched = ltb 0 user_strong && user_strong == draw.strong in
      let counts = count_hits draw.numbers strong_matched combinations no_hits in
      let (hits, won) = build_hits 0 counts amounts zero_amount in
      record {
        draw_number = draw.draw_number;
        draw_date = draw.draw_date;
        winning_numbers = draw.numbers;
        winning_strong = draw.strong;
        tier_hits = hits;
        prize_won = won;
        ticket_cost = cost;
        used_real_prizes = false;
      }
