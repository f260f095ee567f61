-- ===== src/Manager/Callers/Answered.antt =====
-- What a call of Archive in internal/services/lottery_manager.go answers while the table of draws
-- does not change, and invalidations and other calls of Archive go on.
use mathlib.Core.Path.{subst}
use stat_tree_server.Base.{
  ℕ, ◌≡◌, refl, sym, ap, true, [], some, Bool-cases, inl, inr, arith, ◌==◌, if◌then◌else◌,
}
use stat_tree_server.Manager.Cache.{LotteryManager, found, invalidate_range, invalidate_all}
use stat_tree_server.Manager.Callers.{
  Caller, calling, returned, Move, update, World, Step, pick, write, invalidate, clear, Reach,
  later, without,
}
use stat_tree_server.Manager.Callers.Maps.{invalidate_range-IsPart}
use stat_tree_server.Manager.Callers.Coherent.{Coherent}
use stat_tree_server.Manager.Callers.Current.{Reach-Coherent}
use stat_tree_server.Manager.Callers.Good.{IsGood}
use stat_tree_server.Manager.Callers.Stays.{Stays, part-Stays, Move-Stays}
use stat_tree_server.Manager.Callers.Served.{
  in_call, IsAnswer, IsServing, keeps-IsServing, own-IsServing,
}
use stat_tree_server.Manager.Callers.Named.{IsNamed, Reach-IsNamed}

module _ {A T : Type 0} (reads : T → ℕ → ℕ → A) where
  -- The step changes no draw, and does not start the next call after `i`.
  abbrev pub IsCalm : ℕ → {w v : World A T} → Step reads w v → Type 0
  IsCalm i {w} (pick j mv) = i ≡ j → in_call (w.callers j) ≡ true
  IsCalm i (write t from to law) = ⊥
  IsCalm i (invalidate from to) = Unit
  IsCalm i clear = Unit

  -- The worlds that such steps lead to.
  pub data Calm (i : ℕ) (w : World A T) : World A T → Type 0 where
    rest : Calm i w w
    go : {v u : World A T} → Calm i w v → (s : Step reads v u) → IsCalm i s → Calm i w u

  module _ (from to : ℕ) where
    pick-IsServing :
        {t : T} {m m' : LotteryManager A} {p' : Caller A} (callers : ℕ → Caller A) (i j : ℕ)
        → Move reads t m (callers j) m' p'
        → (i ≡ j → in_call (callers j) ≡ true)
        → IsNamed m
        → Coherent reads t [] m callers
        → IsServing reads from to t m callers (callers i)
        → IsServing reads from to t m' (update callers j p') (update callers j p' i)
    pick-IsServing {t} {m} {m'} {p'} callers i j mv calm named c h =
        let keep : (e : ℕ)
            → IsGood reads t m.entries m.next_id callers e
            → Stays reads t m.entries m'.entries m'.next_id (update callers j p') e =
          Move-Stays reads t callers j mv refl (c.knows j) in
        elim (Bool-cases (i == j)) [
          | inl same ↦
              let at_j : i ≡ j = ground arith in
              subst (IsServing reads from to t m' (update callers j p'))
                (sym (ap (λ b. if b then p' else callers i) same))
                (own-IsServing reads from to callers (update callers j p') mv (calm at_j) named c
                  keep (subst (λ k. IsServing reads from to t m callers (callers k)) at_j h))
          | inr other ↦
              subst (IsServing reads from to t m' (update callers j p'))
                (sym (ap (λ b. if b then p' else callers i) other))
                (keeps-IsServing reads from to t m m' callers (update callers j p') keep (callers i)
                  h)
        ]

    Step-IsServing :
        {w v : World A T} (i : ℕ) (s : Step reads w v)
        → IsCalm i s
        → IsNamed w.manager
        → Coherent reads w.table [] w.manager w.callers
        → IsServing reads from to w.table w.manager w.callers (w.callers i)
        → IsServing reads from to v.table v.manager v.callers (v.callers i)
    unfolding invalidate_all
    Step-IsServing {w} i (pick j mv) calm named c h = pick-IsServing w.callers i j mv calm named c h
    Step-IsServing i (write t a b law) calm named c h = absurd calm
    Step-IsServing {w} i (invalidate a b) calm named c h =
        keeps-IsServing reads from to w.table w.manager (invalidate_range a b w.manager) w.callers
          w.callers
          (λ e g.
            part-Stays reads w.table w.manager.entries w.manager _ w.callers e
              (invalidate_range-IsPart a b w.manager) (g, refl, λ over. over))
          (w.callers i) h
    Step-IsServing {w} i clear calm named c h =
        keeps-IsServing reads from to w.table w.manager (invalidate_all w.manager) w.callers
          w.callers (λ e g. (g, refl, λ over. over)) (w.callers i) h

  calm-dirty :
      {w v : World A T} (i : ℕ) (s : Step reads w v) → IsCalm i s → w.dirty ≡ [] → v.dirty ≡ []
  unfolding without
  calm-dirty i (pick j mv) calm h = h
  calm-dirty i (write t a b law) calm h = absurd calm
  calm-dirty i (invalidate a b) calm h = ap (without (a, b)) h
  calm-dirty i clear calm h = refl

  -- A world that calm steps lead to is reached, no range is dirty, and the call is served.
  Calm-IsServing :
      {w : World A T} (i from to : ℕ) {v : World A T}
      → Calm i w v
      → Reach reads w
      → w.dirty ≡ []
      → w.callers i ≡ calling from to
      → Reach reads v
        × (v.dirty ≡ [])
        × IsServing reads from to v.table v.manager v.callers (v.callers i)
  Calm-IsServing {w} i from to rest r clean at_i = (
    r,
    clean,
    subst (IsServing reads from to w.table w.manager w.callers) (sym at_i) (refl, refl),
  )
  Calm-IsServing i from to (go {v} cs s calm) r clean at_i =
      let (r', clean', h) = Calm-IsServing i from to cs r clean at_i in
      (
        later r' s,
        calm-dirty i s calm clean',
        Step-IsServing from to i s calm (Reach-IsNamed r')
            (subst (λ d. Coherent reads v.table d v.manager v.callers) clean'
              (Reach-Coherent reads r'))
            h,
      )

  -- However calls of Archive and invalidations interleave: a call that starts when every changed
  -- range of dates is invalidated, and that returns an archive while no draw changes, returns what
  -- the table has for a window with the key of the one that was asked for.
  pub Calm-IsAnswer :
      {w v : World A T} {a : A} (i from to : ℕ)
      → Reach reads w
      → w.dirty ≡ []
      → w.callers i ≡ calling from to
      → Calm i w v
      → v.callers i ≡ returned (found (some a))
      → IsAnswer reads from to v.table a
  Calm-IsAnswer {v = v} i from to r clean at_i cs out =
      subst (IsServing reads from to v.table v.manager v.callers) out
        (Calm-IsServing i from to cs r clean at_i).2
