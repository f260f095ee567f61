-- ===== src/Manager/Callers/Current.antt =====
-- Calls of Archive, writes of draws and invalidations of internal/services/lottery_manager.go in any
-- order: the archives that the cache holds.
use stat_tree_server.Base.{
  ℕ, ◌≡◌, refl, false, List, some, inl, inr, Option-cases, arith, Bool-cases,
}
use stat_tree_server.Manager.Cache.{
  LotteryManager, find_key, window_key, access, add_entry, touch, new_manager, answer_of,
}
use stat_tree_server.Manager.Callers.{
  Caller, entered, Move, call, call_again, enter, in_flight, ready_now, listen, miss_channel, wake,
  wake_error, cancel, cancel_stranded, hit, build_archive, build_fails, finish, update, World, Step,
  pick, write, invalidate, clear, Reach, begin, later,
}
use stat_tree_server.Manager.Callers.Maps.{Cached, trim-IsPart}
use stat_tree_server.Manager.Callers.Knows.{IsClean, Knows}
use stat_tree_server.Manager.Callers.Coherent.{
  Coherent, part-Coherent, still-Coherent, invalidate-Coherent, write-Coherent, clear-Coherent,
}
use stat_tree_server.Manager.Callers.Loads.{add_entry-Coherent, finish-Coherent}

module _ {A T : Type 0} (reads : T → ℕ → ℕ → A) where
  enter-Coherent :
      (t : T) (dirty : List (ℕ × ℕ)) (m : LotteryManager A) (callers : ℕ → Caller A) (i from to : ℕ)
      → Coherent reads t dirty m callers
      → Coherent reads t dirty
          (access from to m).1
          (update callers i (entered from to (access from to m).0))
  unfolding access
  enter-Coherent t dirty m callers i from to c =
      elim (Option-cases (find_key (window_key from to) m.cache)) [
        | inl e ↦ rw e (
            part-Coherent reads t dirty (add_entry (window_key from to) from to m) _ _
              (trim-IsPart (add_entry (window_key from to) from to m))
              (add_entry-Coherent reads t dirty m callers i from to c))
        | inr (x, e) ↦ elim (Bool-cases (m.entries x).loading) [
          | inl busy ↦ rw (e, busy) (still-Coherent reads t dirty m callers i _ tt c)
          | inr idle ↦ rw (e, idle) (still-Coherent reads t dirty m callers i _ tt c)
        ]
      ]

  Move-Coherent :
      {t : T} {m m' : LotteryManager A} {p p' : Caller A} (dirty : List (ℕ × ℕ))
      (callers : ℕ → Caller A) (i : ℕ)
      → Move reads t m p m' p'
      → Knows reads t dirty m.entries m.next_id m.cache p
      → Coherent reads t dirty m callers
      → Coherent reads t dirty m' (update callers i p')
  unfolding touch
  Move-Coherent {t} {m} d callers i (call from to) h c = still-Coherent reads t d m callers i _ tt c
  Move-Coherent {t} {m} d callers i (call_again from to) h c =
      still-Coherent reads t d m callers i _ tt c
  Move-Coherent {t} {m} d callers i (enter {from} {to}) h c =
      enter-Coherent t d m callers i from to c
  Move-Coherent {t} {m} d callers i (in_flight g) h c = still-Coherent reads t d m callers i _ tt c
  Move-Coherent {t} {m} d callers i (ready_now g) h c = still-Coherent reads t d m callers i _ tt c
  Move-Coherent {t} {m} d callers i (listen g) h c = still-Coherent reads t d m callers i _ tt c
  Move-Coherent {t} {m} d callers i (miss_channel g) h c =
      still-Coherent reads t d m callers i _ tt c
  Move-Coherent {t} {m} d callers i (wake g r) h c = still-Coherent reads t d m callers i _ tt c
  Move-Coherent {t} {m} d callers i (wake_error g r) h c =
      still-Coherent reads t d m callers i _ tt c
  Move-Coherent {t} {m} d callers i cancel h c = still-Coherent reads t d m callers i _ tt c
  Move-Coherent {t} {m} d callers i cancel_stranded h c =
      still-Coherent reads t d m callers i _ tt c
  Move-Coherent {t} {m} d callers i hit h c = still-Coherent reads t d m callers i _ tt c
  Move-Coherent {t} {m} d callers i build_archive h c =
      still-Coherent reads t d m callers i _ (h, λ at_e clean. refl) c
  Move-Coherent {t} {m} d callers i (build_fails text) h c =
      still-Coherent reads t d m callers i _ h c
  Move-Coherent {t} {m} d callers i (finish {e} {from} {to} {result}) h c =
      finish-Coherent reads t d m callers i e from to result (answer_of result) h c

  Step-Coherent :
      {w v : World A T}
      → Step reads w v
      → Coherent reads w.table w.dirty w.manager w.callers
      → Coherent reads v.table v.dirty v.manager v.callers
  Step-Coherent {w} (pick i mv) c = Move-Coherent w.dirty w.callers i mv (c.knows i) c
  Step-Coherent {w} (write t from to law) c =
      write-Coherent reads w.table t w.dirty w.manager w.callers from to law c
  Step-Coherent {w} (invalidate from to) c =
      invalidate-Coherent reads w.table w.dirty w.manager w.callers from to c
  Step-Coherent {w} clear c = clear-Coherent reads w.table w.dirty w.manager w.callers c

  pub Reach-Coherent :
      {w : World A T} → Reach reads w → Coherent reads w.table w.dirty w.manager w.callers
  unfolding new_manager
  Reach-Coherent (begin t) = record {
    keyed = tt;
    known = λ e h. absurd (ground arith);
    current = λ e h. absurd (ground arith);
    knows = λ i. tt;
  }
  Reach-Coherent (later r s) = Step-Coherent s (Reach-Coherent r)

  -- However calls of Archive, writes and invalidations interleave: an archive that is loaded and in
  -- the map is the one that its window reads from the table as it is now, unless the window meets a
  -- range of dates that was written and is not invalidated yet.
  pub Reach-current :
      {w : World A T}
      → Reach reads w
      → (e : ℕ) → Cached e w.manager.cache
      → (let x = w.manager.entries e in
          IsClean x.from x.to w.dirty
          → x.loading ≡ false
          → x.arch ≡ some (reads w.table x.from x.to))
  Reach-current r e = (Reach-Coherent r).current e
