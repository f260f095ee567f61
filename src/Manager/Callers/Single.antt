-- ===== src/Manager/Callers/Single.antt =====
-- The loads of Archive in internal/services/lottery_manager.go while nothing leaves the map but by a
-- load that fails.
use mathlib.Core.Path.{subst}
use mathlib.Core.Option.{some-injective, none-ne-some}
use stat_tree_server.Base.{
  ℕ, suc, ◌<◌, ◌≡◌, ◌≢◌, refl, sym, ap, ◌∙◌, List, some, length, arith, eq→==, ne→==, le→ltb,
  Bool-cases, Option-cases, inl, inr,
}
use native.Mathlib.Decide.{ℕ_discrete}
use stat_tree_server.Manager.Keys.{IsKeyed, find-cached, elem-delete}
use stat_tree_server.Manager.Cache.{
  LotteryManager, Loaded, built, failed, answer_of, find_key, window_key, access, add_entry, trim,
  touch, finish_load, evict,
}
use stat_tree_server.Manager.Callers.{
  Caller, building, returned, entered, Move, call, call_again, enter, in_flight, ready_now, listen,
  miss_channel, wake, wake_error, cancel, cancel_stranded, hit, build_archive, build_fails, finish,
  update, World, Step, pick, write, invalidate, clear, Reach, begin, later,
}
use stat_tree_server.Manager.Callers.Maps.{Cached}
use stat_tree_server.Manager.Callers.Knows.{Knows}
use stat_tree_server.Manager.Callers.Manned.{load_of, loads}
use stat_tree_server.Manager.Callers.Current.{Reach-Coherent}
use stat_tree_server.Manager.Callers.Flights.{IsFlown, Reach-IsFlown, single_flight}

module _ {A : Type 0} where
  -- The entries that the calls load are in the map.
  abbrev IsListed : LotteryManager A → (ℕ → Caller A) → Type 0
  IsListed m callers = (j e : ℕ) → load_of (callers j) ≡ some e → Cached e m.cache

  -- A call moves, and what the map had of the loads of the other calls, it has still.
  moved-IsListed :
      (m m' : LotteryManager A) (callers : ℕ → Caller A) (i : ℕ) (p : Caller A)
      → ((j e : ℕ) → j ≢ i → load_of (callers j) ≡ some e → Cached e m.cache → Cached e m'.cache)
      → ((e : ℕ) → load_of p ≡ some e → Cached e m'.cache)
      → IsListed m callers
      → IsListed m' (update callers i p)
  moved-IsListed m m' callers i p others own h j e = elim (ℕ_discrete j i) [
    | yes same ↦ rw (eq→== j i same) (own e)
    | no other ↦ rw (ne→== j i other) (λ load. others j e other load (h j e load))
  ]

  -- A call moves and the map stays.
  still-IsListed :
      (m m' : LotteryManager A) (callers : ℕ → Caller A) (i : ℕ) (p : Caller A)
      → m'.cache ≡ m.cache
      → ((e : ℕ) → load_of p ≡ some e → load_of (callers i) ≡ some e)
      → IsListed m callers
      → IsListed m' (update callers i p)
  still-IsListed m m' callers i p same own h =
      moved-IsListed m m' callers i p (λ j e other load at_e. subst (Cached e) (sym same) at_e)
        (λ e load. subst (Cached e) (sym same) (h i e (own e load))) h

  enter-IsListed :
      (m : LotteryManager A) (callers : ℕ → Caller A) (i from to : ℕ)
      → length m.cache < 8
      → IsListed m callers
      → IsListed (access from to m).1 (update callers i (entered from to (access from to m).0))
  unfolding access trim add_entry
  enter-IsListed m callers i from to room h =
      elim (Option-cases (find_key (window_key from to) m.cache)) [
        | inl absent ↦
            rw (absent, le→ltb 8 (suc (length m.cache)) (omega arith))
              (moved-IsListed m (add_entry (window_key from to) from to m) callers i
                (building m.next_id from to) (λ j e other load at_e. ground arith)
                (λ e load. let same = some-injective _ _ load in ground arith) h)
        | inr (x, at_x) ↦ elim (Bool-cases (m.entries x).loading) [
          | inl busy ↦
              rw (at_x, busy)
                (still-IsListed m m callers i _ refl (λ e load. absurd (none-ne-some _ load)) h)
          | inr over ↦
              rw (at_x, over)
                (still-IsListed m m callers i _ refl (λ e load. absurd (none-ne-some _ load)) h)
        ]
      ]

  finish-IsListed :
      (m : LotteryManager A) (callers : ℕ → Caller A) (i e from to : ℕ) (result : Loaded A)
      → load_of (callers i) ≡ some e
      → (m.entries e).key ≡ window_key from to
      → IsKeyed (λ x. (m.entries x).key) m.cache
      → IsFlown m (loads callers)
      → IsListed m callers
      → IsListed
          (finish_load (window_key from to) e result m)
          (update callers i (returned (answer_of result)))
  unfolding finish_load evict
  finish-IsListed m callers i e from to (built a) load key keyed fly h =
      still-IsListed m (finish_load (window_key from to) e (built a) m) callers i
        (returned (answer_of (built a))) refl (λ x none_left. absurd (none-ne-some _ none_left)) h
  finish-IsListed m callers i e from to (failed text) load key keyed fly h =
      moved-IsListed m (finish_load (window_key from to) e (failed text) m) callers i
        (returned (answer_of (failed text)))
        (λ j x other load_x at_x.
          let differs : x ≢ e =
            λ same. other (fly.1.alone j i x load_x (load ∙ ap some (sym same))) in
          let here =
            ap (λ k. find_key k m.cache) (sym key)
            ∙ find-cached (λ y. (m.entries y).key) e m.cache keyed fly.0 (h i e load) in
          elem-delete (λ y. (m.entries y).key) (window_key from to) e x m.cache keyed fly.0 here
          ∙ rw (at_x, ne→== x e differs) refl)
        (λ x none_left. absurd (none-ne-some _ none_left)) h

  Move-IsListed :
      {T : Type 0} {reads : T → ℕ → ℕ → A} {t : T} {m m' : LotteryManager A} {p p' : Caller A}
      (dirty : List (ℕ × ℕ)) (callers : ℕ → Caller A) (i : ℕ)
      → Move reads t m p m' p'
      → load_of (callers i) ≡ load_of p
      → length m.cache < 8
      → IsKeyed (λ x. (m.entries x).key) m.cache
      → IsFlown m (loads callers)
      → Knows reads t dirty m.entries m.next_id m.cache p
      → IsListed m callers
      → IsListed m' (update callers i p')
  unfolding touch
  Move-IsListed {m = m} d cs i (enter {from} {to}) at room keyed fly k h =
      enter-IsListed m cs i from to room h
  Move-IsListed {m = m} d cs i (finish {e = x} {from} {to} {result = built a}) at room keyed fly k
        h =
      finish-IsListed m cs i x from to (built a) at k.0.at_key keyed fly h
  Move-IsListed {m = m} d cs i (finish {e = x} {from} {to} {result = failed text}) at room keyed fly
        k h =
      finish-IsListed m cs i x from to (failed text) at k.at_key keyed fly h
  Move-IsListed {m = m} d cs i build_archive at room keyed fly k h =
      still-IsListed m m cs i _ refl (λ e load. at ∙ load) h
  Move-IsListed {m = m} d cs i (build_fails text) at room keyed fly k h =
      still-IsListed m m cs i _ refl (λ e load. at ∙ load) h
  Move-IsListed {m = m} d cs i (call from to) at room keyed fly k h =
      still-IsListed m m cs i _ refl (λ e load. absurd (none-ne-some _ load)) h
  Move-IsListed {m = m} d cs i (call_again from to) at room keyed fly k h =
      still-IsListed m m cs i _ refl (λ e load. absurd (none-ne-some _ load)) h
  Move-IsListed {m = m} d cs i (in_flight b) at room keyed fly k h =
      still-IsListed m m cs i _ refl (λ e load. absurd (none-ne-some _ load)) h
  Move-IsListed {m = m} d cs i (ready_now b) at room keyed fly k h =
      still-IsListed m m cs i _ refl (λ e load. absurd (none-ne-some _ load)) h
  Move-IsListed {m = m} d cs i (listen b) at room keyed fly k h =
      still-IsListed m m cs i _ refl (λ e load. absurd (none-ne-some _ load)) h
  Move-IsListed {m = m} d cs i (miss_channel b) at room keyed fly k h =
      still-IsListed m m cs i _ refl (λ e load. absurd (none-ne-some _ load)) h
  Move-IsListed {m = m} d cs i (wake b r) at room keyed fly k h =
      still-IsListed m m cs i _ refl (λ e load. absurd (none-ne-some _ load)) h
  Move-IsListed {m = m} d cs i (wake_error b r) at room keyed fly k h =
      still-IsListed m m cs i _ refl (λ e load. absurd (none-ne-some _ load)) h
  Move-IsListed {m = m} d cs i cancel at room keyed fly k h =
      still-IsListed m m cs i _ refl (λ e load. absurd (none-ne-some _ load)) h
  Move-IsListed {m = m} d cs i cancel_stranded at room keyed fly k h =
      still-IsListed m m cs i _ refl (λ e load. absurd (none-ne-some _ load)) h
  Move-IsListed {m = m} d cs i (hit {e = x}) at room keyed fly k h =
      still-IsListed m (touch x m) cs i _ refl (λ e load. absurd (none-ne-some _ load)) h

module _ {A T : Type 0} (reads : T → ℕ → ℕ → A) where
  -- The step invalidates nothing.
  abbrev pub Keeps : {w v : World A T} → Step reads w v → Type 0
  Keeps (pick i mv) = Unit
  Keeps (write t from to law) = Unit
  Keeps (invalidate from to) = ⊥
  Keeps clear = ⊥

  -- Nothing has been invalidated, and the map has had room for one more entry at each step.
  abbrev pub Undisturbed : {w : World A T} → Reach reads w → Type 0
  Undisturbed (begin t) = Unit
  Undisturbed (later {w} r s) = Undisturbed r × (length w.manager.cache < 8) × Keeps s

  Step-IsListed :
      {w v : World A T} (s : Step reads w v)
      → Keeps s
      → Reach reads w
      → length w.manager.cache < 8
      → IsListed w.manager w.callers
      → IsListed v.manager v.callers
  Step-IsListed {w} (pick i mv) kept r room h =
      let c = Reach-Coherent reads r in
      Move-IsListed w.dirty w.callers i mv refl room c.keyed (Reach-IsFlown r) (c.knows i) h
  Step-IsListed (write t from to law) kept r room h = h
  Step-IsListed (invalidate from to) kept r room h = absurd kept
  Step-IsListed clear kept r room h = absurd kept

  Reach-IsListed :
      {w : World A T} (r : Reach reads w) → Undisturbed r → IsListed w.manager w.callers
  Reach-IsListed (begin t) u = λ j e load. absurd (none-ne-some _ load)
  Reach-IsListed (later r s) (u, room, kept) = Step-IsListed s kept r room (Reach-IsListed r u)

  -- However calls of Archive and writes interleave, as long as nothing is invalidated and the map
  -- holds fewer than eight entries before each step: no two calls load for one key.
  pub one_load :
      {w : World A T} (r : Reach reads w)
      → Undisturbed r
      → (i j e x : ℕ) → load_of (w.callers i) ≡ some e
      → load_of (w.callers j) ≡ some x
      → (w.manager.entries e).key ≡ (w.manager.entries x).key
      → i ≡ j
  one_load r u i j e x load_e load_x same =
      let listed = Reach-IsListed r u in
      single_flight r i j e x load_e load_x (listed i e load_e) (listed j x load_x) same
