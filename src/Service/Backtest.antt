-- ===== src/Service/Backtest.antt =====
-- Simulate of internal/services/simulate.go with the cache that it loads its archive from.
use mathlib.Core.Path.{subst}
use stat_tree_server.Base.{
  ℕ, ◌≤◌, ◌<◌, ◌*◌, ◌≡◌, refl, sym, ap, ◌∙◌, List, map, Option, none, some, length, arith, ltb,
  Bool-cases, inl, inr,
}
use stat_tree_server.Base.Sort.{keep}
use stat_tree_server.Combos.Spec.{range}
use stat_tree_server.Models.{Float64, LotteryResult}
use stat_tree_server.Archive.{LotteryArchive, new_archive}
use stat_tree_server.Simulate.{DateWindow, window_from_proto, union_windows}
use stat_tree_server.Simulate.Windows.{within, filter_draws_by_window-keep}
use stat_tree_server.Simulate.Session.{
  SimulateRequest, SimulateResponse, positive, played, answer, simulate, response, invalid_form,
  draws_in,
}
use stat_tree_server.Simulate.Session.{load_failed as no_archive}
use stat_tree_server.Simulate.Session.{Reply as SimulateReply}
use stat_tree_server.Simulate.Summary.{hits_of, simulate-summary}
use stat_tree_server.Convert.{int32_of_int}
use stat_tree_server.Manager.Cache.{LotteryManager, window_key}
use stat_tree_server.Manager.Answers.{IsCache}
use stat_tree_server.Service.{
  Repo, Reply, reply, refused, crashed, stuck, load_failed, invalid_argument,
  unsupported_group_size, load_archive, with_archive,
}
use stat_tree_server.Service.Load.{request_key, IsDrawn, IsGiving, Fails, with_archive_ends}

-- A reply of Simulate as one of the service, with the text of errInvalidForm. On an archive `answer`
-- never gives the error of a load.
abbrev simulated : {F : Type 0} → SimulateReply F → Reply (SimulateResponse F)
simulated (response resp) = reply resp
simulated invalid_form = refused (invalid_argument "simulate: form must contain at least 6 numbers")
simulated no_archive = refused (load_failed "")

unfoldable pub simulate_request :
    (fl : Float64)
    → Repo fl.F
    → SimulateRequest fl.F
    → LotteryManager (LotteryArchive fl.F)
    → Reply (SimulateResponse fl.F) × LotteryManager (LotteryArchive fl.F)
unfolding load_archive answer union_windows
simulate_request fl repo req m =
    with_archive (λ a. simulated (answer fl req (some a)))
      (load_archive repo (union_windows req.archive_window req.simulate_window) m)

-- The draws that a backtest plays: those within the bounds of the window, if there is one.
abbrev pub backtested :
    {F : Type 0} → Option DateWindow → List (LotteryResult F) → List (LotteryResult F)
backtested none draws = draws
backtested (some w) draws =
    let (from, to) = window_from_proto (some w) in keep (λ d. within from to d.draw_date) draws

module _ (fl : Float64) where
  -- The summary counts the draws, the combinations that are played, and the hits of each tier.
  abbrev pub HasSummary :
      SimulateRequest fl.F → List (LotteryResult fl.F) → SimulateResponse fl.F → Type 0
  HasSummary req draws resp =
      (resp.summary.total_draws ≡ int32_of_int (length draws))
      × (resp.summary.total_combinations
          ≡ int32_of_int (length draws * length (played (positive req.form))))
      × (map (λ s. s.total_hits) resp.summary.tier_summaries
          ≡ map (λ k. int32_of_int (hits_of fl (played (positive req.form)) req.strong draws k))
              (range 0 8))

  draws_in-backtested :
      (w : Option DateWindow) (draws : List (LotteryResult fl.F))
      → draws_in fl w draws ≡ backtested w draws
  draws_in-backtested none draws = refl
  draws_in-backtested (some w) draws = filter_draws_by_window-keep draws _ _

  module _ (G : ℕ → ℕ → List (LotteryResult fl.F) → Type 0) (E : ℕ → ℕ → Type 0) where
    -- How Simulate ends.
    abbrev pub HasBacktest :
        SimulateRequest fl.F
        → Reply (SimulateResponse fl.F) × LotteryManager (LotteryArchive fl.F)
        → Type 0
    HasBacktest req (reply resp, m') =
        (from : ℕ) × (to : ℕ) × (draws : List (LotteryResult fl.F)) × (window_key from to
          ≡ request_key (union_windows req.archive_window req.simulate_window))
        × G from to draws
        × (6 ≤ length (positive req.form))
        × HasSummary req (backtested req.simulate_window draws) resp
        × IsCache (IsDrawn G) m'
    HasBacktest req (refused (load_failed text), m') =
        Fails G E (union_windows req.archive_window req.simulate_window) m'
    HasBacktest req (refused (invalid_argument text), m') =
        (length (positive req.form) < 6) × IsCache (IsDrawn G) m'
    HasBacktest req (refused unsupported_group_size, m') = ⊥
    HasBacktest req (crashed, m') = ⊥
    HasBacktest req (stuck, m') = ⊥

    answer-HasBacktest :
        (req : SimulateRequest fl.F) (a : LotteryArchive fl.F)
        (m : LotteryManager (LotteryArchive fl.F))
        → IsDrawn G (request_key (union_windows req.archive_window req.simulate_window)) a
        → IsCache (IsDrawn G) m
        → HasBacktest req (simulated (answer fl req (some a)), m)
    unfolding simulate answer new_archive
    answer-HasBacktest req a m (from, to, draws, is_new, key, given) c =
        elim (Bool-cases (ltb (length (positive req.form)) 6)) [
          | inl short ↦ rw short (ground arith, c)
          | inr fits ↦
              let enough : 6 ≤ length (positive req.form) = ground arith in
              let (resp, is_resp, total, combos, hits) =
                simulate-summary fl (λ w. some a) req a refl enough in
              let same : draws_in fl req.simulate_window a.draws
                  ≡ backtested req.simulate_window draws =
                ap (λ b. draws_in fl req.simulate_window b.draws) is_new
                ∙ draws_in-backtested req.simulate_window draws in
              subst (λ r. HasBacktest req (simulated r, m)) (sym is_resp)
                (
                  from,
                  to,
                  draws,
                  key,
                  given,
                  enough,
                  subst (λ l. HasSummary req l resp) same (total, combos, hits),
                  c,
                )
        ]

    pub simulate_request-HasBacktest :
        (repo : Repo fl.F) (req : SimulateRequest fl.F) (m : LotteryManager (LotteryArchive fl.F))
        → IsGiving G E repo
        → IsCache (IsDrawn G) m
        → HasBacktest req (simulate_request fl repo req m)
    unfolding simulate_request
    simulate_request-HasBacktest repo req m g c =
        with_archive_ends G E repo (union_windows req.archive_window req.simulate_window) m g c
          (HasBacktest req) (λ a. simulated (answer fl req (some a)))
          (λ a m' drawn c'. answer-HasBacktest req a m' drawn c') (λ text m' h. h)
