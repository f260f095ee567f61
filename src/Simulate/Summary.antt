-- ===== src/Simulate/Summary.antt =====
-- The summary that Simulate of internal/services/simulate.go gives of a window of draws.
use mathlib.Core.Path.{fun_ext}
use native.Mathlib.Decide.{ℕ_discrete, dec_lt}
use stat_tree_server.Base.{
  ℕ, zero, suc, ◌+◌, ◌-◌, ◌≤◌, ◌≡◌, refl, ap, ◌∙◌, Bool, ◌&&◌, List, [], ◌∷◌, arith, length,
  length-set, get_or, get_or-set, set, ltb, ◌==◌, if◌then◌else◌, Bool-cases, eq→==, ne→==, lt→ltb,
  le→ltb, inl, inr, Option, some, All, ◌*◌, map,
}
use stat_tree_server.Models.{Float64, LotteryResult}
use stat_tree_server.Archive.{LotteryArchive}
use stat_tree_server.Combos.Spec.{range, map-map'}
use stat_tree_server.Convert.{int32_of_int}
use stat_tree_server.Simulate.{
  DateWindow, union_windows, count_hits, no_hits, add_hit, zero_amount, build_hits, simulate_draw,
}
use stat_tree_server.Simulate.Session.{
  Totals, SimulateRequest, SimulateResponse, response, positive, played, draws_in, totals_of,
  answer, simulate, report, summarize, add_tier_hits, play_draw, play_draws, start_totals,
  draw_prizes,
}

add_hit-length : (tier : ℕ) (counts : List ℕ) → length (add_hit tier counts) ≡ length counts
unfolding add_hit
add_hit-length tier counts = elim (Bool-cases (ltb 0 tier)) [
  | inl e ↦ rw e (length-set counts (tier - 1) _)
  | inr e ↦ rw e refl
]

pub count_hits-length :
    (winning : List ℕ) (s : Bool) (cs : List (List ℕ)) (counts : List ℕ)
    → length (count_hits winning s cs counts) ≡ length counts
unfolding count_hits
count_hits-length winning s [] counts = refl
count_hits-length winning s (c ∷ cs) counts =
    count_hits-length winning s cs _ ∙ add_hit-length _ counts

counted :
    (hits : List ℕ) (i k c rest : ℕ)
    → (if i == k then get_or hits i 0 + c else get_or hits k 0) + rest
      ≡ get_or hits k 0 + ((if i == k then c else 0) + rest)
counted hits i k c rest = elim (ℕ_discrete i k) [
  | yes same ↦ rw (same, eq→== k k refl) (omega arith)
  | no other ↦ rw (ne→== i k other) (omega arith)
]

-- A list read from the place `i` on starts with its first element.
shift :
    (k i c : ℕ) (counts : List ℕ)
    → (if ltb k i then 0 else get_or (c ∷ counts) (k - i) 0)
      ≡ (if i == k then c else 0) + (if ltb k (suc i) then 0 else get_or counts (k - suc i) 0)
shift k i c counts = elim (dec_lt k i) [
  | yes below ↦ ground arith
  | no above ↦ elim (ℕ_discrete i k) [
    | yes same ↦
        let none_left : k - i ≡ 0 = omega arith in
        rw (none_left, le→ltb k i (omega arith), eq→== i k same, lt→ltb k (suc i) (omega arith))
          (omega arith)
    | no other ↦
        let later : k - i ≡ suc (k - suc i) = omega arith in
        rw (later, le→ltb k i (omega arith), ne→== i k other, le→ltb k (suc i) (omega arith))
          (omega arith)
  ]
]

get_or-zeros : (l : List ℕ) (k : ℕ) → All (λ x. x ≡ 0) l → get_or l k 0 ≡ 0
get_or-zeros [] k a = refl
get_or-zeros (x ∷ l) zero a = a.0
get_or-zeros (x ∷ l) (suc k) a = get_or-zeros l k a.1

module _ (fl : Float64) where
  -- The hits of a draw are added to the counters of their tiers.
  add_tier_hits-build :
      (i : ℕ) (counts : List ℕ) (prizes : List fl.F) (won : fl.F) (hits : List ℕ)
      (amounts : List fl.F) (k : ℕ)
      → i + length counts ≤ 8
      → length hits ≡ 8
      → (length (add_tier_hits fl (build_hits fl i counts prizes won).0 hits amounts).0 ≡ 8)
        × (get_or (add_tier_hits fl (build_hits fl i counts prizes won).0 hits amounts).0 k 0
            ≡ get_or hits k 0 + (if ltb k i then 0 else get_or counts (k - i) 0))
  unfolding add_tier_hits build_hits
  add_tier_hits-build i [] prizes won hits amounts k fits len = (len, ground arith)
  add_tier_hits-build i (c ∷ counts) prizes won hits amounts k fits len =
      elim (Bool-cases (ltb 0 c)) [
        | inl e ↦
            let same : suc i - 1 ≡ i = omega arith in
            let new = get_or hits i 0 + c in
            let (len', get) =
              add_tier_hits-build (suc i) counts prizes
                (fl.add won (fl.mul (fl.of_nat c) (get_or prizes i (zero_amount fl))))
                (set hits i new)
                (set amounts i (
                  fl.add (get_or amounts i (zero_amount fl))
                    (fl.mul (fl.of_nat c) (get_or prizes i (zero_amount fl)))))
                k (omega arith) (length-set hits i new ∙ len) in
            rw (e, same, lt→ltb 0 (suc i) (omega arith), lt→ltb i 8 (omega arith))
              (
                len',
                get
                    ∙ rw (get_or-set hits i k new 0 (omega arith), shift k i c counts)
                        (counted hits i k c _),
              )
        | inr e ↦
            let (len', get) =
              add_tier_hits-build (suc i) counts prizes won hits amounts k (omega arith) len in
            rw e (len', get ∙ rw (shift k i c counts) (ground arith))
      ]

  -- The hits of each tier in one draw.
  abbrev pub draw_hits : List (List ℕ) → ℕ → LotteryResult fl.F → List ℕ
  draw_hits combinations user_strong d =
      count_hits d.numbers (ltb 0 user_strong && user_strong == d.strong) combinations no_hits

  -- The hits of the tier with index `k`, over all draws.
  unfoldable pub hits_of : List (List ℕ) → ℕ → List (LotteryResult fl.F) → ℕ → ℕ
  hits_of combinations user_strong [] k = 0
  hits_of combinations user_strong (d ∷ draws) k =
      get_or (draw_hits combinations user_strong d) k 0 + hits_of combinations user_strong draws k

  play_draw-hits :
      (combinations : List (List ℕ)) (user_strong : ℕ) (os : List (Option fl.F)) (cost : fl.F)
      (d : LotteryResult fl.F) (t : Totals fl.F) (k : ℕ)
      → length t.tier_total_hits ≡ 8
      → (length (play_draw fl combinations user_strong os cost d t).tier_total_hits ≡ 8)
        × (get_or (play_draw fl combinations user_strong os cost d t).tier_total_hits k 0
            ≡ get_or t.tier_total_hits k 0 + get_or (draw_hits combinations user_strong d) k 0)
  unfolding play_draw simulate_draw
  play_draw-hits combinations user_strong os cost d t k len =
      let counts = draw_hits combinations user_strong d in
      let same : k - 0 ≡ k = omega arith in
      let (len', get) =
        add_tier_hits-build 0 counts (draw_prizes fl os d) (zero_amount fl) t.tier_total_hits
          t.tier_total_amount k
          (omega (
            arith,
            count_hits-length d.numbers (ltb 0 user_strong && user_strong == d.strong) combinations
                no_hits,
          ))
          len in
      (len', get ∙ rw (same, le→ltb k 0 (omega arith)) refl)

  play_draws-hits :
      (combinations : List (List ℕ)) (user_strong : ℕ) (os : List (Option fl.F)) (cost : fl.F)
      (draws : List (LotteryResult fl.F)) (t : Totals fl.F) (k : ℕ)
      → length t.tier_total_hits ≡ 8
      → get_or (play_draws fl combinations user_strong os cost draws t).tier_total_hits k 0
        ≡ get_or t.tier_total_hits k 0 + hits_of combinations user_strong draws k
  unfolding play_draws hits_of
  play_draws-hits combinations user_strong os cost [] t k len = omega arith
  play_draws-hits combinations user_strong os cost (d ∷ draws) t k len =
      let (len', get) = play_draw-hits combinations user_strong os cost d t k len in
      play_draws-hits combinations user_strong os cost draws _ k len' ∙ omega (arith, get)

  -- Where the archive loads and the form has at least six positive numbers, Simulate answers with a
  -- summary of all draws of the window: how many they are, how many combinations were played, and
  -- for each tier the sum of its hits over the draws, each as a word of 32 bits.
  pub simulate-summary :
      (load : Option DateWindow → Option (LotteryArchive fl.F)) (req : SimulateRequest fl.F)
      (arch : LotteryArchive fl.F)
      → load (union_windows req.archive_window req.simulate_window) ≡ some arch
      → 6 ≤ length (positive req.form)
      → (resp : SimulateResponse fl.F) × (simulate fl load req ≡ response resp)
        × (resp.summary.total_draws
            ≡ int32_of_int (length (draws_in fl req.simulate_window arch.draws)))
        × (resp.summary.total_combinations
            ≡ int32_of_int (
                length (draws_in fl req.simulate_window arch.draws)
                * length (played (positive req.form))))
        × (map (λ s. s.total_hits) resp.summary.tier_summaries
            ≡ map
                (λ k. int32_of_int (
                  hits_of
                    (played (positive req.form))
                    req.strong
                    (draws_in fl req.simulate_window arch.draws)
                    k))
                (range 0 8))
  unfolding simulate answer report totals_of summarize
  simulate-summary load req arch e enough =
      let results = draws_in fl req.simulate_window arch.draws in
      (
        report fl (played (positive req.form)) results (totals_of fl req arch),
        rw (e, le→ltb (length (positive req.form)) 6 enough) refl,
        refl,
        refl,
        map-map' _ _ (range 0 8)
            ∙ ap (λ f. map f (range 0 8))
                (fun_ext λ k. ap int32_of_int (
                  play_draws-hits (played (positive req.form)) req.strong _ _ results
                    (start_totals fl) k refl
                  ∙ omega (arith, get_or-zeros no_hits k (ground arith)))),
      )
