-- ===== src/Simulate/Session.antt =====
-- Simulate of internal/services/simulate.go. `load` is the method archive of the service, which
-- gives nothing where it fails.
use stat_tree_server.Base.{
  ℕ, suc, ◌+◌, ◌-◌, ◌*◌, Bool, ◌&&◌, List, [], ◌∷◌, ◌++◌, map, Option, none, some, length, get_or,
  set, take, ltb, ◌==◌, if◌then◌else◌,
}
use stat_tree_server.Base.Sort.{keep}
use stat_tree_server.Combos.Spec.{range}
use stat_tree_server.Models.{Float64, LotteryResult}
use stat_tree_server.Archive.{LotteryArchive}
use stat_tree_server.Convert.{int32_of_int}
use stat_tree_server.Simulate.{
  DateWindow, window_from_proto, union_windows, filter_draws_by_window, dedup_and_sort,
  simulate_combinations, SimulateTierHit, SimulateDrawResult, zero_amount, simulate_draw, no_hits,
}

pub record SimulateRequest (F : Type 0) : Type 0 where
  pub form : List ℕ
  pub strong : ℕ
  pub archive_window : Option DateWindow
  pub simulate_window : Option DateWindow
  pub ticket_cost : F
  pub prize_amounts : List F

pub record SimulateTierSummary (F : Type 0) : Type 0 where
  pub tier : ℕ
  pub total_hits : ℕ
  pub total_amount : F

pub record SimulateSummary (F : Type 0) : Type 0 where
  pub total_draws : ℕ
  pub total_combinations : ℕ
  pub total_spent : F
  pub total_won : F
  pub net : F
  pub tier_summaries : List (SimulateTierSummary F)
  pub draws_with_real_prizes : ℕ

pub record SimulateResponse (F : Type 0) : Type 0 where
  pub draws : List (SimulateDrawResult F)
  pub summary : SimulateSummary F

-- What Simulate returns: a response, the error of the load, or errInvalidForm.
pub data Reply (F : Type 0) : Type 0 where
  response : SimulateResponse F → Reply F
  load_failed invalid_form : Reply F

-- The variables that the loop over the draws changes.
pub record Totals (F : Type 0) : Type 0 where
  pub draw_results : List (SimulateDrawResult F)
  pub tier_total_hits : List ℕ
  pub tier_total_amount : List F
  pub total_spent : F
  pub total_won : F
  pub using_real_prizes : ℕ

-- the numbers of the form that are above 0
unfoldable pub positive : List ℕ → List ℕ
positive nums = keep (ltb 0) nums

-- the combinations of a form of at least six numbers
unfoldable pub played : List ℕ → List (List ℕ)
played nums =
    let form = dedup_and_sort nums in
    simulate_combinations (if ltb 12 (length form) then take 12 form else form) 6

module _ (fl : Float64) where
  abbrev pub default_prize_amounts : List fl.F
  default_prize_amounts =
      fl.of_nat 5000000
      ∷ fl.of_nat 750000
      ∷ fl.of_nat 10000
      ∷ fl.of_nat 2000
      ∷ fl.of_nat 500
      ∷ fl.of_nat 150
      ∷ fl.of_nat 75
      ∷ fl.of_nat 15
      ∷ []

  abbrev pub no_amounts : List fl.F
  no_amounts = map (λ _. zero_amount fl) (range 0 8)

  -- `hasOverride` and `userOverrides`
  unfoldable pub overrides : List fl.F → List (Option fl.F)
  overrides amounts =
      if length amounts == 8
      then map (λ a. if fl.le (zero_amount fl) a then some a else none) amounts
      else map (λ _. none) (range 0 8)

  unfoldable pub override : List (Option fl.F) → List fl.F → List fl.F
  override [] amounts = amounts
  override (o ∷ os) [] = []
  override (none ∷ os) (a ∷ amounts) = a ∷ override os amounts
  override (some p ∷ os) (a ∷ amounts) = p ∷ override os amounts

  abbrev pub has_real : LotteryResult fl.F → Bool
  has_real d = length d.prize_amounts == 8

  unfoldable pub draw_prizes : List (Option fl.F) → LotteryResult fl.F → List fl.F
  unfolding override
  draw_prizes os d = override os (if has_real d then d.prize_amounts else default_prize_amounts)

  -- the loop over the tier hits of a draw
  unfoldable pub add_tier_hits :
      List (SimulateTierHit fl.F) → List ℕ → List fl.F → List ℕ × List fl.F
  add_tier_hits [] hits amounts = (hits, amounts)
  add_tier_hits (h ∷ hs) hits amounts =
      if ltb 0 h.tier && ltb (h.tier - 1) 8
      then add_tier_hits hs (set hits (h.tier - 1) (get_or hits (h.tier - 1) 0 + h.hits))
          (set amounts (h.tier - 1) (fl.add (get_or amounts (h.tier - 1) (zero_amount fl)) h.total))
      else add_tier_hits hs hits amounts

  -- one round of the loop over the draws
  unfoldable pub play_draw :
      List (List ℕ) → ℕ → List (Option fl.F) → fl.F → LotteryResult fl.F → Totals fl.F → Totals fl.F
  unfolding draw_prizes add_tier_hits
  play_draw combinations user_strong os cost d t =
      let result = record (simulate_draw fl d combinations user_strong (draw_prizes os d) cost) {
        used_real_prizes = has_real d;
      } in
      let (hits, amounts) = add_tier_hits result.tier_hits t.tier_total_hits t.tier_total_amount in
      record {
        draw_results = t.draw_results ++ result ∷ [];
        tier_total_hits = hits;
        tier_total_amount = amounts;
        total_spent = fl.add t.total_spent result.ticket_cost;
        total_won = fl.add t.total_won result.prize_won;
        using_real_prizes = if has_real d then t.using_real_prizes + 1 else t.using_real_prizes;
      }

  unfoldable pub play_draws :
      List (List ℕ)
      → ℕ
      → List (Option fl.F)
      → fl.F
      → List (LotteryResult fl.F)
      → Totals fl.F
      → Totals fl.F
  unfolding play_draw
  play_draws combinations user_strong os cost [] t = t
  play_draws combinations user_strong os cost (d ∷ draws) t =
      play_draws combinations user_strong os cost draws
        (play_draw combinations user_strong os cost d t)

  abbrev pub start_totals : Totals fl.F
  start_totals = record {
    draw_results = [];
    tier_total_hits = no_hits;
    tier_total_amount = no_amounts;
    total_spent = zero_amount fl;
    total_won = zero_amount fl;
    using_real_prizes = 0;
  }

  -- the tier summaries; a tier's label is a function of its number
  unfoldable pub summarize : Totals fl.F → ℕ → SimulateTierSummary fl.F
  unfolding int32_of_int
  summarize t i = record {
    tier = suc i;
    total_hits = int32_of_int (get_or t.tier_total_hits i 0);
    total_amount = get_or t.tier_total_amount i (zero_amount fl);
  }

  -- What Simulate answers about the combinations and the draws that it has settled on.
  unfoldable pub report :
      List (List ℕ) → List (LotteryResult fl.F) → Totals fl.F → SimulateResponse fl.F
  unfolding int32_of_int summarize
  report combinations results t = record {
    draws = keep (λ d. fl.lt (zero_amount fl) d.prize_won) t.draw_results;
    summary = record {
      total_draws = int32_of_int (length results);
      total_combinations = int32_of_int (length results * length combinations);
      total_spent = t.total_spent;
      total_won = t.total_won;
      net = fl.sub t.total_won t.total_spent;
      tier_summaries = map (summarize t) (range 0 8);
      draws_with_real_prizes = int32_of_int t.using_real_prizes;
    };
  }

  abbrev pub draws_in : Option DateWindow → List (LotteryResult fl.F) → List (LotteryResult fl.F)
  draws_in none draws = draws
  draws_in (some w) draws =
      filter_draws_by_window draws (window_from_proto (some w)).0 (window_from_proto (some w)).1

  -- the ticket cost of a request, and the cost of a draw
  abbrev pub draw_cost : SimulateRequest fl.F → fl.F
  draw_cost req =
      fl.mul (fl.of_nat (length (played (positive req.form))))
        (if fl.le req.ticket_cost (zero_amount fl) then fl.of_nat 3 else req.ticket_cost)

  -- the loop over the draws
  unfoldable pub totals_of : SimulateRequest fl.F → LotteryArchive fl.F → Totals fl.F
  unfolding positive overrides play_draws played
  totals_of req arch =
      play_draws (played (positive req.form)) req.strong (overrides req.prize_amounts)
        (draw_cost req) (draws_in req.simulate_window arch.draws) start_totals

  -- what follows the load of the archive
  unfoldable pub answer : SimulateRequest fl.F → Option (LotteryArchive fl.F) → Reply fl.F
  unfolding report totals_of
  answer req none = load_failed
  answer req (some arch) =
      if ltb (length (positive req.form)) 6
      then invalid_form
      else response (
          report (played (positive req.form)) (draws_in req.simulate_window arch.draws)
            (totals_of req arch))

  unfoldable pub simulate :
      (Option DateWindow → Option (LotteryArchive fl.F)) → SimulateRequest fl.F → Reply fl.F
  unfolding answer
  simulate load req = answer req (load (union_windows req.archive_window req.simulate_window))
