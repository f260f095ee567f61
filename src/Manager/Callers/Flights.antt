-- ===== src/Manager/Callers/Flights.antt =====
-- The loads in flight of LotteryManager in internal/services/lottery_manager.go, while calls run side
-- by side: none is doubled, and none is left alone.
use mathlib.Core.Path.{subst}
use mathlib.Core.Option.{some-injective}
use stat_tree_server.Base.{
  ℕ, ◌≡◌, refl, sym, ap, ◌∙◌, Option, none, some, inl, inr, Option-cases, Bool-cases,
}
use stat_tree_server.Manager.Keys.{HasKeys, HasKeys-delete, find-cached}
use stat_tree_server.Manager.Cache.{
  Key, LotteryManager, find_key, window_key, access, add_entry, touch, new_manager, answer_of,
  finish_load, built, failed, Loaded, evict, invalidate_all,
}
use stat_tree_server.Manager.Callers.{
  Caller, holding, building, returned, entered, Move, call, call_again, enter, in_flight, ready_now,
  listen, miss_channel, wake, wake_error, cancel, cancel_stranded, hit, build_archive, build_fails,
  finish, update, World, Step, pick, write, invalidate, clear, Reach, begin, later,
}
use stat_tree_server.Manager.Callers.Maps.{Cached, IsPart, trim-IsPart, invalidate_range-IsPart}
use stat_tree_server.Manager.Callers.Manned.{
  load_of, loads, loads-update, put_same, IsManned, start-IsManned, end-IsManned,
}
use stat_tree_server.Manager.Callers.Current.{Reach-Coherent}

module _ {A : Type 0} where
  -- The invariant of the loads and of the keys of the map.
  abbrev pub IsFlown : LotteryManager A → (ℕ → Option ℕ) → Type 0
  IsFlown m f = HasKeys m.cache × IsManned m.entries m.next_id f

  part-IsFlown :
      (m m' : LotteryManager A) (f : ℕ → Option ℕ) → IsPart m' m → IsFlown m f → IsFlown m' f
  part-IsFlown m m' f p h = (
    p.keys h.0,
    subst (λ g. IsManned g m'.next_id f) (sym p.entries)
        (subst (λ n. IsManned m.entries n f) (sym p.next_id) h.1),
  )

  -- A call moves on and loads what it has loaded before.
  same-IsFlown :
      (m : LotteryManager A) (callers : ℕ → Caller A) (i : ℕ) (p : Caller A)
      → load_of p ≡ load_of (callers i)
      → IsFlown m (loads callers)
      → IsFlown m (loads (update callers i p))
  same-IsFlown m callers i p same h =
      subst (IsFlown m)
        (sym (loads-update callers i p ∙ put_same (loads callers) i (load_of p) same)) h

  enter-IsFlown :
      (m : LotteryManager A) (callers : ℕ → Caller A) (i from to : ℕ)
      → load_of (callers i) ≡ none
      → IsFlown m (loads callers)
      → IsFlown
          (access from to m).1
          (loads (update callers i (entered from to (access from to m).0)))
  unfolding access
  enter-IsFlown m callers i from to no_load h =
      elim (Option-cases (find_key (window_key from to) m.cache)) [
        | inl e ↦ rw e (
            part-IsFlown (add_entry (window_key from to) from to m) _ _
              (trim-IsPart (add_entry (window_key from to) from to m)) (added e))
        | inr (x, e) ↦ elim (Bool-cases (m.entries x).loading) [
          | inl busy ↦ rw (e, busy) (same-IsFlown m callers i (holding x) (sym no_load) h)
          | inr ready ↦ rw (e, ready) (same-IsFlown m callers i (holding x) (sym no_load) h)
        ]
      ]
    where
      added :
          find_key (window_key from to) m.cache ≡ none
          → IsFlown
              (add_entry (window_key from to) from to m)
              (loads (update callers i (building m.next_id from to)))
      added e =
          subst (IsFlown (add_entry (window_key from to) from to m))
            (sym (loads-update callers i (building m.next_id from to)))
            (unfold add_entry in
              ((e, h.0), start-IsManned m.entries m.next_id (loads callers) i _ no_load refl h.1))

  finish-IsFlown :
      (m : LotteryManager A) (callers : ℕ → Caller A) (i e from to : ℕ) (result : Loaded A)
      → load_of (callers i) ≡ some e
      → IsFlown m (loads callers)
      → IsFlown
          (finish_load (window_key from to) e result m)
          (loads (update callers i (returned (answer_of result))))
  unfolding finish_load evict
  finish-IsFlown m callers i e from to (built a) load h =
      subst (IsFlown (finish_load (window_key from to) e (built a) m))
        (sym (loads-update callers i (returned (answer_of (built a)))))
        (h.0, end-IsManned m.entries m.next_id (loads callers) i e _ load refl h.1)
  finish-IsFlown m callers i e from to (failed text) load h =
      subst (IsFlown (finish_load (window_key from to) e (failed text) m))
        (sym (loads-update callers i (returned (answer_of (failed text)))))
        (
          HasKeys-delete (window_key from to) m.cache h.0,
          end-IsManned m.entries m.next_id (loads callers) i e _ load refl h.1,
        )

  Move-IsFlown :
      {T : Type 0} {reads : T → ℕ → ℕ → A} {t : T} {m m' : LotteryManager A} {p p' : Caller A}
      (callers : ℕ → Caller A) (i : ℕ)
      → Move reads t m p m' p'
      → load_of (callers i) ≡ load_of p
      → IsFlown m (loads callers)
      → IsFlown m' (loads (update callers i p'))
  unfolding touch
  Move-IsFlown {m} callers i (call from to) h c = same-IsFlown m callers i _ (sym h) c
  Move-IsFlown {m} callers i (call_again from to) h c = same-IsFlown m callers i _ (sym h) c
  Move-IsFlown {m} callers i (enter {from} {to}) h c = enter-IsFlown m callers i from to h c
  Move-IsFlown {m} callers i (in_flight g) h c = same-IsFlown m callers i _ (sym h) c
  Move-IsFlown {m} callers i (ready_now g) h c = same-IsFlown m callers i _ (sym h) c
  Move-IsFlown {m} callers i (listen g) h c = same-IsFlown m callers i _ (sym h) c
  Move-IsFlown {m} callers i (miss_channel g) h c = same-IsFlown m callers i _ (sym h) c
  Move-IsFlown {m} callers i (wake g r) h c = same-IsFlown m callers i _ (sym h) c
  Move-IsFlown {m} callers i (wake_error g r) h c = same-IsFlown m callers i _ (sym h) c
  Move-IsFlown {m} callers i cancel h c = same-IsFlown m callers i _ (sym h) c
  Move-IsFlown {m} callers i cancel_stranded h c = same-IsFlown m callers i _ (sym h) c
  Move-IsFlown {m} callers i hit h c = same-IsFlown m callers i _ (sym h) c
  Move-IsFlown {m} callers i build_archive h c = same-IsFlown m callers i _ (sym h) c
  Move-IsFlown {m} callers i (build_fails text) h c = same-IsFlown m callers i _ (sym h) c
  Move-IsFlown {m} callers i (finish {e} {from} {to} {result}) h c =
      finish-IsFlown m callers i e from to result h c

module _ {A T : Type 0} {reads : T → ℕ → ℕ → A} where
  Step-IsFlown :
      {w v : World A T}
      → Step reads w v
      → IsFlown w.manager (loads w.callers)
      → IsFlown v.manager (loads v.callers)
  unfolding invalidate_all
  Step-IsFlown {w} (pick i mv) h = Move-IsFlown w.callers i mv refl h
  Step-IsFlown (write t from to law) h = h
  Step-IsFlown {w} (invalidate from to) h =
      part-IsFlown w.manager _ (loads w.callers) (invalidate_range-IsPart from to w.manager) h
  Step-IsFlown clear h = (tt, h.1)

  pub Reach-IsFlown : {w : World A T} → Reach reads w → IsFlown w.manager (loads w.callers)
  unfolding new_manager
  Reach-IsFlown (begin t) =
      (tt, record { manned = λ e fly. cc; flying = λ i e h. cc; alone = λ i j e h k. cc })
  Reach-IsFlown (later r s) = Step-IsFlown s (Reach-IsFlown r)

  -- However calls of Archive, writes and invalidations interleave: no two calls load entries that
  -- are in the map under one key.
  pub single_flight :
      {w : World A T}
      → Reach reads w
      → (i j e x : ℕ) → load_of (w.callers i) ≡ some e
      → load_of (w.callers j) ≡ some x
      → Cached e w.manager.cache
      → Cached x w.manager.cache
      → (w.manager.entries e).key ≡ (w.manager.entries x).key
      → i ≡ j
  single_flight {w} r i j e x load_e load_x at_e at_x same =
      let (keys, fly) = Reach-IsFlown r in
      let key_of : ℕ → Key = λ y. (w.manager.entries y).key in
      let find = λ (y : ℕ) (at_y : Cached y w.manager.cache).
        find-cached key_of y w.manager.cache (Reach-Coherent reads r).keyed keys at_y in
      let e_x : e ≡ x =
        some-injective _ _
          (sym (find e at_e) ∙ ap (λ k. find_key k w.manager.cache) same ∙ find x at_x) in
      fly.alone i j x (load_e ∙ ap some e_x) load_x
