-- ===== src/Manager/Callers/Named.antt =====
-- The entries of LotteryManager in internal/services/lottery_manager.go have the keys of their windows.
use mathlib.Core.Path.{subst}
use native.Mathlib.Decide.{ℕ_discrete}
use stat_tree_server.Base.{ℕ, ◌<◌, ◌≡◌, refl, sym, ap, ◌∙◌, arith, inl, inr, Option-cases}
use stat_tree_server.Manager.Cache.{
  CacheEntry, LotteryManager, Loaded, built, failed, window_key, store, find_key, access, add_entry,
  touch, finish_load, evict, invalidate_all, new_manager,
}
use stat_tree_server.Manager.Sections.{store_self}
use stat_tree_server.Manager.Callers.{
  Caller, Move, call, call_again, enter, in_flight, ready_now, listen, miss_channel, wake,
  wake_error, cancel, cancel_stranded, hit, build_archive, build_fails, finish, World, Step, pick,
  write, invalidate, clear, Reach, begin, later,
}
use stat_tree_server.Manager.Callers.Maps.{IsPart, trim-IsPart, invalidate_range-IsPart}
use stat_tree_server.Manager.Callers.Loads.{store_other, store-part}

module _ {A : Type 0} where
  -- The entry is under the key of its window.
  abbrev pub HasName : CacheEntry A → Type 0
  HasName r = r.key ≡ window_key r.from r.to

  abbrev pub IsNamed : LotteryManager A → Type 0
  IsNamed m = (e : ℕ) → e < m.next_id → HasName (m.entries e)

  part-IsNamed : (m m' : LotteryManager A) → IsPart m' m → IsNamed m → IsNamed m'
  part-IsNamed m m' p h e below =
      subst (λ f. HasName (f e)) (sym p.entries) (h e (subst (λ n. e < n) p.next_id below))

  added-IsNamed :
      (m : LotteryManager A) (from to : ℕ)
      → IsNamed m
      → IsNamed (add_entry (window_key from to) from to m)
  unfolding add_entry
  added-IsNamed m from to h e below = elim (ℕ_discrete e m.next_id) [
    | yes same ↦
        subst HasName
          (sym (ap (store m.entries m.next_id _) same ∙ store_self m.entries m.next_id _)) refl
    | no other ↦ subst HasName (sym (store_other m.entries m.next_id _ e other)) (h e (omega arith))
  ]

  enter-IsNamed : (m : LotteryManager A) (from to : ℕ) → IsNamed m → IsNamed (access from to m).1
  unfolding access
  enter-IsNamed m from to h = elim (Option-cases (find_key (window_key from to) m.cache)) [
    | inl absent ↦ rw absent (
        part-IsNamed (add_entry (window_key from to) from to m) _
          (trim-IsPart (add_entry (window_key from to) from to m)) (added-IsNamed m from to h))
    | inr (x, at_x) ↦ rw at_x h
  ]

  stored-HasName :
      (entries : ℕ → CacheEntry A) (x e : ℕ) (v : CacheEntry A)
      → (v.key ≡ (entries x).key) × (v.from ≡ (entries x).from) × (v.to ≡ (entries x).to)
      → HasName (entries e)
      → HasName (store entries x v e)
  stored-HasName entries x e v (at_key, at_from, at_to) h =
      store-part (λ r. r.key) entries x v e at_key
      ∙ h
      ∙ ap (λ lo. window_key lo (entries e).to)
          (sym (store-part (λ r. r.from) entries x v e at_from))
      ∙ ap (window_key (store entries x v e).from)
          (sym (store-part (λ r. r.to) entries x v e at_to))

  finish-IsNamed :
      (m : LotteryManager A) (x from to : ℕ) (result : Loaded A)
      → IsNamed m
      → IsNamed (finish_load (window_key from to) x result m)
  unfolding finish_load evict
  finish-IsNamed m x from to (built a) h e below =
      stored-HasName m.entries x e _ (refl, refl, refl) (h e below)
  finish-IsNamed m x from to (failed text) h e below =
      stored-HasName m.entries x e _ (refl, refl, refl) (h e below)

  Move-IsNamed :
      {T : Type 0} {reads : T → ℕ → ℕ → A} {t : T} {m m' : LotteryManager A} {p p' : Caller A}
      → Move reads t m p m' p'
      → IsNamed m
      → IsNamed m'
  unfolding touch
  Move-IsNamed (call from to) h = h
  Move-IsNamed (call_again from to) h = h
  Move-IsNamed {m = m} (enter {from} {to}) h = enter-IsNamed m from to h
  Move-IsNamed (in_flight b) h = h
  Move-IsNamed (ready_now b) h = h
  Move-IsNamed (listen b) h = h
  Move-IsNamed (miss_channel b) h = h
  Move-IsNamed (wake b r) h = h
  Move-IsNamed (wake_error b r) h = h
  Move-IsNamed cancel h = h
  Move-IsNamed cancel_stranded h = h
  Move-IsNamed hit h = h
  Move-IsNamed build_archive h = h
  Move-IsNamed (build_fails text) h = h
  Move-IsNamed {m = m} (finish {e = x} {from} {to} {result}) h = finish-IsNamed m x from to result h

  Step-IsNamed :
      {T : Type 0} {reads : T → ℕ → ℕ → A} {w v : World A T}
      → Step reads w v
      → IsNamed w.manager
      → IsNamed v.manager
  unfolding invalidate_all
  Step-IsNamed (pick i mv) h = Move-IsNamed mv h
  Step-IsNamed (write t from to law) h = h
  Step-IsNamed {w = w} (invalidate from to) h =
      part-IsNamed w.manager _ (invalidate_range-IsPart from to w.manager) h
  Step-IsNamed clear h = h

  pub Reach-IsNamed :
      {T : Type 0} {reads : T → ℕ → ℕ → A} {w : World A T} → Reach reads w → IsNamed w.manager
  unfolding new_manager
  Reach-IsNamed (begin t) = λ e below. absurd (omega arith)
  Reach-IsNamed (later r s) = Step-IsNamed s (Reach-IsNamed r)
