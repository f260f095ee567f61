-- ===== src/Manager/Callers/Returns.antt =====
-- The calls of Archive in internal/services/lottery_manager.go can return, whatever other calls do.
use mathlib.Core.Path.{subst}
use stat_tree_server.Base.{ℕ, ◌≡◌, sym, ◌∙◌, true, false, Bool-cases, Option-cases, inl, inr}
use stat_tree_server.Manager.Cache.{LotteryManager, Access, ready, waiting, missing, Answer, access}
use stat_tree_server.Manager.Callers.{
  Caller, calling, holding, selecting, listening, hitting, building, returned, entered, Move, enter,
  in_flight, ready_now, listen, wake, wake_error, hit, build_archive, finish, update, World, pick,
  Reach, later,
}
use stat_tree_server.Manager.Callers.Wakes.{IsPatient, Alone, rest, go, update_at, listening-Closes}

module _ {A T : Type 0} (reads : T → ℕ → ℕ → A) where
  -- Steps of calls, no context of which ends, lead from the first world to the second one.
  pub data Runs : World A T → World A T → Type 0 where
    done : {w : World A T} → Runs w w
    after : {w v u : World A T} {j : ℕ} → Alone reads j w v → Runs v u → Runs w u

  abbrev pub CanReturn : ℕ → World A T → Type 0
  CanReturn i w = (v : World A T) × (a : Answer A) × Runs w v × (v.callers i ≡ returned a)

  after-CanReturn : {w v : World A T} {i j : ℕ} → Alone reads j w v → CanReturn i v → CanReturn i w
  after-CanReturn s (u, a, run, at_i) = (u, a, after s run, at_i)

  -- The world after a move of the call `i`.
  abbrev moved : World A T → ℕ → LotteryManager A → Caller A → World A T
  moved w i m p = record w { manager = m; callers = update w.callers i p }

  move-CanReturn :
      (i : ℕ) (w : World A T) {m : LotteryManager A} {p p' : Caller A}
      → w.callers i ≡ p
      → (mv : Move reads w.table w.manager p m p') → IsPatient mv
      → CanReturn i (moved w i m p')
      → CanReturn i w
  move-CanReturn i w at_i mv patient = after-CanReturn (go rest at_i mv patient)

  move-Reach :
      (i : ℕ) (w : World A T) {m : LotteryManager A} {p p' : Caller A}
      → w.callers i ≡ p
      → Move reads w.table w.manager p m p'
      → Reach reads w
      → Reach reads (moved w i m p')
  move-Reach i w {m} {p} {p'} at_i mv r =
      later r (pick i (subst (λ q. Move reads w.table w.manager q m p') (sym at_i) mv))

  returned-CanReturn :
      (i : ℕ) (w : World A T) (m : LotteryManager A) (a : Answer A)
      → CanReturn i (moved w i m (returned a))
  returned-CanReturn i w m a = (_, a, done, update_at w.callers i (returned a))

  hitting-CanReturn : (i e : ℕ) (w : World A T) → w.callers i ≡ hitting e → CanReturn i w
  hitting-CanReturn i e w at_i = move-CanReturn i w at_i hit tt (returned-CanReturn i w _ _)

  building-CanReturn :
      (i e from to : ℕ) (w : World A T) → w.callers i ≡ building e from to → CanReturn i w
  building-CanReturn i e from to w at_i = move-CanReturn i w at_i build_archive tt (
      move-CanReturn i (moved w i w.manager _) (update_at w.callers i _) finish tt
        (returned-CanReturn i (moved w i w.manager _) _ _))

  -- The channel is closed.
  woken-CanReturn :
      (i e : ℕ) (w : World A T)
      → w.callers i ≡ listening e
      → (w.manager.entries e).loading ≡ false
      → CanReturn i w
  woken-CanReturn i e w at_i over = elim (Option-cases (w.manager.entries e).err) [
    | inl well ↦ move-CanReturn i w at_i (wake over well) tt (
        hitting-CanReturn i e (moved w i w.manager (hitting e)) (update_at w.callers i (hitting e)))
    | inr (text, ill) ↦
        move-CanReturn i w at_i (wake_error over ill) tt (returned-CanReturn i w _ _)
  ]

  listening-CanReturn :
      {w : World A T} (i e : ℕ)
      → Reach reads w
      → w.callers i ≡ listening e
      → (w.manager.entries e).loading ≡ true
      → CanReturn i w
  listening-CanReturn i e r at_i busy =
      let (j, load, closes) = listening-Closes reads r i e at_i busy in
      let (v, alone, closed, same) = closes in
      after-CanReturn alone (woken-CanReturn i e v (same ∙ at_i) closed)

  holding-CanReturn :
      {w : World A T} (i e : ℕ) → Reach reads w → w.callers i ≡ holding e → CanReturn i w
  holding-CanReturn {w} i e r at_i = elim (Bool-cases (w.manager.entries e).loading) [
    | inl busy ↦
        let w1 = moved w i w.manager (selecting e) in
        let at_1 = update_at w.callers i (selecting e) in
        move-CanReturn i w at_i (in_flight busy) tt (
          move-CanReturn i w1 at_1 (listen busy) tt (
            listening-CanReturn i e
              (move-Reach i w1 at_1 (listen busy) (move-Reach i w at_i (in_flight busy) r))
              (update_at w1.callers i (listening e)) busy))
    | inr over ↦ move-CanReturn i w at_i (ready_now over) tt (
        hitting-CanReturn i e (moved w i w.manager (hitting e)) (update_at w.callers i (hitting e)))
  ]

  entered-CanReturn :
      {w : World A T} (i from to : ℕ) (x : Access)
      → Reach reads w
      → w.callers i ≡ entered from to x
      → CanReturn i w
  entered-CanReturn i from to (ready e) r at_i = holding-CanReturn i e r at_i
  entered-CanReturn i from to (waiting e) r at_i = holding-CanReturn i e r at_i
  entered-CanReturn {w} i from to (missing e) r at_i = building-CanReturn i e from to w at_i

  -- However calls of Archive, writes and invalidations interleave: a call that starts can return, by
  -- steps of calls alone and without an end of any context.
  pub calling-CanReturn :
      {w : World A T}
      → Reach reads w
      → (i from to : ℕ) → w.callers i ≡ calling from to
      → CanReturn i w
  calling-CanReturn {w} r i from to at_i = move-CanReturn i w at_i enter tt (
      entered-CanReturn i from to (access from to w.manager).0 (move-Reach i w at_i enter r)
        (update_at w.callers i _))
