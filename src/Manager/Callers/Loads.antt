-- ===== src/Manager/Callers/Loads.antt =====
-- The first and the last section of a load by Archive in internal/services/lottery_manager.go, while
-- other calls run.
use mathlib.Core.Path.{subst, fun_ext}
use native.Mathlib.Decide.{ℕ_discrete}
use stat_tree_server.Base.{
  ℕ, suc, ◌<◌, ◌≡◌, ◌≢◌, refl, sym, ap, ◌∙◌, true, false, List, ◌∷◌, none, some, arith, elem, eq→==,
  ne→==, clash,
}
use stat_tree_server.Manager.Keys.{ids_of, IsKeyed, same_key_self, All-delete}
use stat_tree_server.Manager.Cache.{
  Key, same_key, delete_key, LotteryManager, CacheEntry, Loaded, built, failed, window_key, store,
  Answer, evict, add_entry, finish_load,
}
use stat_tree_server.Manager.Sections.{All-store, not_below, store_self}
use stat_tree_server.Manager.Callers.{Caller, building, finishing, returned, update}
use stat_tree_server.Manager.Callers.Maps.{Cached, deleted, Cached-delete}
use stat_tree_server.Manager.Callers.Knows.{IsClean, IsOf, Knows, IsCoherent, Knows-map}
use stat_tree_server.Manager.Callers.Coherent.{Coherent, update-all}

pub store_other :
    {A : Type 0} (f : ℕ → CacheEntry A) (i : ℕ) (v : CacheEntry A) (x : ℕ)
    → x ≢ i
    → store f i v x ≡ f x
store_other f i v x n = rw (ne→== x i n) refl

-- A write to an entry that keeps a part of it keeps that part of all entries.
pub store-part {ℓ} :
    {A : Type 0} {B : Type ℓ} (part : CacheEntry A → B) (f : ℕ → CacheEntry A) (i : ℕ)
    (v : CacheEntry A) (x : ℕ)
    → part v ≡ part (f i)
    → part (store f i v x) ≡ part (f x)
store-part part f i v x same = elim (ℕ_discrete x i) [
  | yes at_i ↦ rw (eq→== x i at_i) (same ∙ ap (λ y. part (f y)) (sym at_i))
  | no other ↦ rw (ne→== x i other) refl
]

module _ {A T : Type 0} (reads : T → ℕ → ℕ → A) where
  pub add_entry-Coherent :
      (t : T) (dirty : List (ℕ × ℕ)) (m : LotteryManager A) (callers : ℕ → Caller A) (i from to : ℕ)
      → Coherent reads t dirty m callers
      → Coherent reads t dirty
          (add_entry (window_key from to) from to m)
          (update callers i (building m.next_id from to))
  unfolding add_entry
  add_entry-Coherent t dirty m callers i from to c =
      let n = m.next_id in
      let f = m.entries in
      let v : CacheEntry A = record {
        key = window_key from to;
        from = from;
        to = to;
        arch = none;
        loading = true;
        err = none;
      } in
      let new_id = not_below n (ids_of m.cache) c.known in
      let mine : store f n v n ≡ v = store_self f n v in
      let old : (x : ℕ) → x < n → store f n v x ≡ f x =
        λ x below. store_other f n v x (λ e. omega arith) in
      let keep : (x lo hi : ℕ) → IsOf f n x lo hi → IsOf (store f n v) (suc n) x lo hi =
        λ x lo hi o. record {
          known = omega (arith, o.known);
          at_from = ap (λ r. r.from) (old x o.known) ∙ o.at_from;
          at_to = ap (λ r. r.to) (old x o.known) ∙ o.at_to;
          at_key = ap (λ r. r.key) (old x o.known) ∙ o.at_key;
        } in
      let was : (x : ℕ) → x < n → Cached x ((window_key from to, n) ∷ m.cache) → Cached x m.cache =
        λ x below h. ground (arith, ne→== x n (λ e. omega arith)) in
      record {
        keyed = (
          rw mine (same_key_self (window_key from to)),
          All-store (λ j r. same_key r.key j ≡ true) f n v m.cache new_id c.keyed,
        );
        known = λ x h. below_suc x h (c.known x);
        current = λ x h. elim (ℕ_discrete x n) [
          | yes at_n ↦
              λ clean idle. absurd (clash (ap (λ r. r.loading) (ap (store f n v) at_n ∙ mine)) idle)
          | no other ↦
              let at_x : Cached x m.cache = ground (arith, ne→== x n other) in
              let same = old x (c.known x at_x) in
              λ clean idle.
                subst
                  (λ r.
                    IsClean r.from r.to dirty
                    → r.loading ≡ false
                    → r.arch ≡ some (reads t r.from r.to))
                  (sym same) (c.current x at_x) clean idle
        ];
        knows =
            update-all
              (Knows reads t dirty (store f n v) (suc n) ((window_key from to, n) ∷ m.cache))
              callers i (building n from to)
              (λ j.
                Knows-map reads t t dirty dirty f (store f n v) n (suc n) m.cache
                  ((window_key from to, n) ∷ m.cache) keep (λ x lo hi o h. was x o.known h)
                  (λ x lo hi o h clean. (clean, refl)) (callers j) (c.knows j))
              (record {
                known = omega arith;
                at_from = ap (λ r. r.from) mine;
                at_to = ap (λ r. r.to) mine;
                at_key = ap (λ r. r.key) mine;
              });
      }
    where
      below_suc :
          (x : ℕ)
          → elem x (m.next_id ∷ ids_of m.cache) ≡ true
          → (elem x (ids_of m.cache) ≡ true → x < m.next_id)
          → x < suc m.next_id
      below_suc x h old = elim (ℕ_discrete x m.next_id) [
        | yes same ↦ omega arith
        | no other ↦ omega (arith, old (ground arith))
      ]

  -- The end of a load writes to an entry and keeps its window.
  store-IsOf :
      (f : ℕ → CacheEntry A) (n e : ℕ) (v : CacheEntry A) (x lo hi : ℕ)
      → (v.key ≡ (f e).key) × (v.from ≡ (f e).from) × (v.to ≡ (f e).to)
      → IsOf f n x lo hi
      → IsOf (store f e v) n x lo hi
  store-IsOf f n e v x lo hi same o = record {
    known = o.known;
    at_from = store-part (λ r. r.from) f e v x same.1 ∙ o.at_from;
    at_to = store-part (λ r. r.to) f e v x same.2 ∙ o.at_to;
    at_key = store-part (λ r. r.key) f e v x same.0 ∙ o.at_key;
  }

  store-IsKeyed :
      (f : ℕ → CacheEntry A) (e : ℕ) (v : CacheEntry A) (cache : List (Key × ℕ))
      → v.key ≡ (f e).key
      → IsKeyed (λ x. (f x).key) cache
      → IsKeyed (λ x. (store f e v x).key) cache
  store-IsKeyed f e v cache same h =
      subst (λ g. IsKeyed g cache) (fun_ext λ x. sym (store-part (λ r. r.key) f e v x same)) h

  -- A load ends: the map keeps its entry, which is up to date then, or loses it.
  stored-Coherent :
      (t : T) (dirty : List (ℕ × ℕ)) (f : ℕ → CacheEntry A) (n : ℕ) (cache cache' : List (Key × ℕ))
      (callers : ℕ → Caller A) (i e : ℕ) (v : CacheEntry A) (p : Caller A)
      → (v.key ≡ (f e).key) × (v.from ≡ (f e).from) × (v.to ≡ (f e).to)
      → IsKeyed (λ x. (f x).key) cache'
      → ((x : ℕ) → Cached x cache' → Cached x cache)
      → (Cached e cache' → IsClean v.from v.to dirty → v.arch ≡ some (reads t v.from v.to))
      → Knows reads t dirty (store f e v) n cache' p
      → IsCoherent reads t dirty f n cache callers
      → IsCoherent reads t dirty (store f e v) n cache' (update callers i p)
  stored-Coherent t dirty f n cache cache' callers i e v p same keyed less now knows c = record {
    keyed = store-IsKeyed f e v cache' same.0 keyed;
    known = λ x at_x. c.known x (less x at_x);
    current = λ x at_x. elim (ℕ_discrete x e) [
      | yes at_e ↦
          subst
            (λ r.
              IsClean r.from r.to dirty → r.loading ≡ false → r.arch ≡ some (reads t r.from r.to))
            (sym (ap (store f e v) at_e ∙ store_self f e v))
            (λ clean idle. now (subst (λ y. Cached y cache') at_e at_x) clean)
      | no other ↦
          subst
            (λ r.
              IsClean r.from r.to dirty → r.loading ≡ false → r.arch ≡ some (reads t r.from r.to))
            (sym (store_other f e v x other)) (c.current x (less x at_x))
    ];
    knows =
        update-all (Knows reads t dirty (store f e v) n cache') callers i p
          (λ j.
            Knows-map reads t t dirty dirty f (store f e v) n n cache cache'
              (λ x lo hi o. store-IsOf f n e v x lo hi same o) (λ x lo hi o. less x)
              (λ x lo hi o h clean. (clean, refl)) (callers j) (c.knows j))
          knows;
  }

  pub finish-Coherent :
      (t : T) (dirty : List (ℕ × ℕ)) (m : LotteryManager A) (callers : ℕ → Caller A)
      (i e from to : ℕ) (result : Loaded A) (answer : Answer A)
      → Knows reads t dirty m.entries m.next_id m.cache (finishing e from to result)
      → Coherent reads t dirty m callers
      → Coherent reads t dirty
          (finish_load (window_key from to) e result m)
          (update callers i (returned answer))
  unfolding finish_load evict
  finish-Coherent t dirty m callers i e from to (built a) answer (o, fresh) c =
      stored-Coherent t dirty m.entries m.next_id m.cache m.cache callers i e _ (returned answer)
        (refl, refl, refl) c.keyed (λ x h. h)
        (λ at_e clean. ap some (
          fresh at_e (
            subst (λ lo. IsClean lo to dirty) o.at_from
              (subst (λ hi. IsClean (m.entries e).from hi dirty) o.at_to clean))
          ∙ rw (o.at_from, o.at_to) refl))
        tt c
  finish-Coherent t dirty m callers i e from to (failed text) answer o c =
      let k = window_key from to in
      stored-Coherent t dirty m.entries m.next_id m.cache (delete_key k m.cache) callers i e _
        (returned answer) (refl, refl, refl) (All-delete _ k m.cache c.keyed)
        (λ x h. Cached-delete k x m.cache h)
        (λ at_e. absurd (
          clash at_e (
            deleted (λ x. (m.entries x).key) k e m.cache c.keyed
              (ap (λ j. same_key j k) o.at_key ∙ same_key_self k))))
        tt c
