-- ===== src/Manager/Callers/Stays.antt =====
-- The steps of Archive in internal/services/lottery_manager.go keep the entries good that calls have
-- found, and their windows.
use mathlib.Core.Path.{subst}
use mathlib.Core.Option.{some-injective, none-ne-some}
use native.Mathlib.Decide.{ℕ_discrete}
use stat_tree_server.Base.{
  ℕ, suc, ◌≡◌, ◌≢◌, refl, sym, ap, ◌∙◌, false, [], none, some, arith, Bool-cases, inl, inr,
  Option-cases,
}
use stat_tree_server.Manager.Cache.{
  CacheEntry, LotteryManager, Loaded, built, failed, window_key, store, find_key, access, add_entry,
  touch, finish_load, evict, answer_of,
}
use stat_tree_server.Manager.Sections.{store_self}
use stat_tree_server.Manager.Callers.{
  Caller, holding, building, finishing, returned, update, entered, Move, call, call_again, enter,
  in_flight, ready_now, listen, miss_channel, wake, wake_error, cancel, cancel_stranded, hit,
  build_archive, build_fails, finish,
}
use stat_tree_server.Manager.Callers.Maps.{IsPart, trim-IsPart}
use stat_tree_server.Manager.Callers.Knows.{IsOf, Knows}
use stat_tree_server.Manager.Callers.Loads.{store_other, store-part}
use stat_tree_server.Manager.Callers.Good.{
  IsGood, IsFresh, result_of, still-IsGood, other-IsGood, end-IsGood,
}

module _ {A T : Type 0} (reads : T → ℕ → ℕ → A) (t : T) where
  -- The entry is good, and has the key from before; if its load was over, it still is.
  abbrev pub Stays : (ℕ → CacheEntry A) → (ℕ → CacheEntry A) → ℕ → (ℕ → Caller A) → ℕ → Type 0
  Stays before entries n callers e =
      IsGood reads t entries n callers e
      × ((entries e).key ≡ (before e).key)
      × ((before e).loading ≡ false → (entries e).loading ≡ false)

  still-Stays :
      (entries : ℕ → CacheEntry A) (n : ℕ) (callers : ℕ → Caller A) (j : ℕ) (p : Caller A) (e : ℕ)
      → result_of p ≡ none
      → IsGood reads t entries n callers e
      → Stays entries entries n (update callers j p) e
  still-Stays entries n callers j p e no_result g = (
    still-IsGood reads t entries n callers j p e
        (λ a h. absurd (none-ne-some _ (sym no_result ∙ h))) g,
    refl,
    λ over. over,
  )

  pub part-Stays :
      (before : ℕ → CacheEntry A) (m m' : LotteryManager A) (callers : ℕ → Caller A) (e : ℕ)
      → IsPart m' m
      → Stays before m.entries m.next_id callers e
      → Stays before m'.entries m'.next_id callers e
  part-Stays before m m' callers e p s =
      subst (λ f. Stays before f m'.next_id callers e) (sym p.entries)
        (subst (λ n. Stays before m.entries n callers e) (sym p.next_id) s)

  added-Stays :
      (m : LotteryManager A) (callers : ℕ → Caller A) (j from to e : ℕ)
      → IsGood reads t m.entries m.next_id callers e
      → (let m' = add_entry (window_key from to) from to m in
          Stays m.entries m'.entries m'.next_id (update callers j (building m.next_id from to)) e)
  unfolding add_entry
  added-Stays m callers j from to e g =
      let other : e ≢ m.next_id = λ same. omega (arith, g.known) in
      let same = store_other m.entries m.next_id _ e other in
      (
        other-IsGood reads t m.entries m.next_id (suc m.next_id) callers j m.next_id _
            (building m.next_id from to) e other (omega arith) refl g,
        ap (λ r. r.key) same,
        λ over. ap (λ r. r.loading) same ∙ over,
      )

  enter-Stays :
      (m : LotteryManager A) (callers : ℕ → Caller A) (j from to e : ℕ)
      → IsGood reads t m.entries m.next_id callers e
      → Stays m.entries
          (access from to m).1.entries
          (access from to m).1.next_id
          (update callers j (entered from to (access from to m).0))
          e
  unfolding access
  enter-Stays m callers j from to e g =
      elim (Option-cases (find_key (window_key from to) m.cache)) [
        | inl absent ↦ rw absent (
            part-Stays m.entries (add_entry (window_key from to) from to m) _ _ e
              (trim-IsPart (add_entry (window_key from to) from to m))
              (added-Stays m callers j from to e g))
        | inr (x, at_x) ↦ elim (Bool-cases (m.entries x).loading) [
          | inl busy ↦
              rw (at_x, busy) (still-Stays m.entries m.next_id callers j (holding x) e refl g)
          | inr over ↦
              rw (at_x, over) (still-Stays m.entries m.next_id callers j (holding x) e refl g)
        ]
      ]

  build-Stays :
      (entries : ℕ → CacheEntry A) (n : ℕ) (callers : ℕ → Caller A) (j x from to e : ℕ)
      → IsOf entries n x from to
      → IsGood reads t entries n callers e
      → Stays entries entries n (update callers j (finishing x from to (built (reads t from to)))) e
  build-Stays entries n callers j x from to e o g = (
    still-IsGood reads t entries n callers j (finishing x from to (built (reads t from to))) e
        (λ a h.
          let pair = some-injective _ _ h in
          sym (ap (λ q. q.1) pair)
          ∙ ap (λ lo. reads t lo to) (sym o.at_from)
          ∙ ap (reads t (entries x).from) (sym o.at_to)
          ∙ ap (λ q. reads t (entries q.0).from (entries q.0).to) pair)
        g,
    refl,
    λ over. over,
  )

  -- The last section writes to the entry of the load.
  stored-Stays :
      (entries : ℕ → CacheEntry A) (n : ℕ) (callers : ℕ → Caller A) (j x e : ℕ) (v : CacheEntry A)
      (p : Caller A)
      → (v.from ≡ (entries x).from) × (v.to ≡ (entries x).to) × (v.key ≡ (entries x).key)
      → v.loading ≡ false
      → result_of p ≡ none
      → (x ≡ e → IsFresh reads t v)
      → IsGood reads t entries n callers e
      → Stays entries (store entries x v) n (update callers j p) e
  stored-Stays entries n callers j x e v p (at_from, at_to, at_key) over no_result now g = (
    elim (ℕ_discrete e x) [
      | yes same ↦
          subst (λ y. IsGood reads t (store entries y v) n (update callers j p) e) same
            (end-IsGood reads t entries n callers j v p e
              (
                at_from ∙ ap (λ y. (entries y).from) (sym same),
                at_to ∙ ap (λ y. (entries y).to) (sym same),
              )
              (now (sym same)) no_result g)
      | no other ↦
          other-IsGood reads t entries n n callers j x v p e other (omega arith) no_result g
    ],
    store-part (λ r. r.key) entries x v e at_key,
    λ was. elim (ℕ_discrete e x) [
      | yes same ↦
          ap (λ y. (store entries x v y).loading) same
          ∙ ap (λ r. r.loading) (store_self entries x v)
          ∙ over
      | no other ↦ ap (λ r. r.loading) (store_other entries x v e other) ∙ was
    ],
  )

  finish-Stays :
      (m : LotteryManager A) (callers : ℕ → Caller A) (j x from to e : ℕ) (result : Loaded A)
      → callers j ≡ finishing x from to result
      → IsGood reads t m.entries m.next_id callers e
      → (let m' = finish_load (window_key from to) x result m in
          Stays m.entries m'.entries m'.next_id (update callers j (returned (answer_of result))) e)
  unfolding finish_load evict
  finish-Stays m callers j x from to e (built a) at_j g =
      stored-Stays m.entries m.next_id callers j x e _ (returned (answer_of (built a)))
        (refl, refl, refl) refl refl
        (λ same. inr (
          ap some (
            g.coming j a (ap result_of at_j ∙ ap (λ y. some (y, a)) same)
            ∙ ap (λ y. reads t (m.entries y).from (m.entries y).to) (sym same))))
        g
  finish-Stays m callers j x from to e (failed text) at_j g =
      stored-Stays m.entries m.next_id callers j x e _ (returned (answer_of (failed text)))
        (refl, refl, refl) refl refl (λ same. inl refl) g

  pub Move-Stays :
      {m m' : LotteryManager A} {p p' : Caller A} (callers : ℕ → Caller A) (j : ℕ)
      → Move reads t m p m' p'
      → callers j ≡ p
      → Knows reads t [] m.entries m.next_id m.cache p
      → (e : ℕ) → IsGood reads t m.entries m.next_id callers e
      → Stays m.entries m'.entries m'.next_id (update callers j p') e
  unfolding touch
  Move-Stays {m} cs j (call from to) at_j k e g = still-Stays m.entries m.next_id cs j _ e refl g
  Move-Stays {m} cs j (call_again from to) at_j k e g =
      still-Stays m.entries m.next_id cs j _ e refl g
  Move-Stays {m} cs j (enter {from} {to}) at_j k e g = enter-Stays m cs j from to e g
  Move-Stays {m} cs j (in_flight b) at_j k e g = still-Stays m.entries m.next_id cs j _ e refl g
  Move-Stays {m} cs j (ready_now b) at_j k e g = still-Stays m.entries m.next_id cs j _ e refl g
  Move-Stays {m} cs j (listen b) at_j k e g = still-Stays m.entries m.next_id cs j _ e refl g
  Move-Stays {m} cs j (miss_channel b) at_j k e g = still-Stays m.entries m.next_id cs j _ e refl g
  Move-Stays {m} cs j (wake b r) at_j k e g = still-Stays m.entries m.next_id cs j _ e refl g
  Move-Stays {m} cs j (wake_error b r) at_j k e g = still-Stays m.entries m.next_id cs j _ e refl g
  Move-Stays {m} cs j cancel at_j k e g = still-Stays m.entries m.next_id cs j _ e refl g
  Move-Stays {m} cs j cancel_stranded at_j k e g = still-Stays m.entries m.next_id cs j _ e refl g
  Move-Stays {m} cs j hit at_j k e g = still-Stays m.entries m.next_id cs j _ e refl g
  Move-Stays {m} cs j (build_archive {e = x} {from} {to}) at_j k e g =
      build-Stays m.entries m.next_id cs j x from to e k g
  Move-Stays {m} cs j (build_fails text) at_j k e g =
      still-Stays m.entries m.next_id cs j _ e refl g
  Move-Stays {m} cs j (finish {e = x} {from} {to} {result}) at_j k e g =
      finish-Stays m cs j x from to e result at_j g
