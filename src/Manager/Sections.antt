-- ===== src/Manager/Sections.antt =====
-- The sections of Archive in internal/services/lottery_manager.go keep the invariant of the manager.
use mathlib.Core.Path.{subst}
use native.Mathlib.Decide.{ℕ_discrete}
use Prim.Native.String.{String}
use stat_tree_server.Base.{
  ℕ, suc, ◌<◌, ◌≡◌, refl, sym, ap, ◌∙◌, Bool, true, false, ◌||◌, List, [], ◌∷◌, ◌++◌, none, some,
  arith, elem, ◌==◌, Bool-cases, inl, inr, All, All-map, eq→==, ne→==,
}
use stat_tree_server.Manager.Order.{IsOrder, add_to_front-IsOrder}
use stat_tree_server.Manager.Unlink.{move_to_front-IsOrder, elem-append}
use stat_tree_server.Manager.Keys.{
  ids_of, IsKeyed, same_key_self, key_of-found, same_key-path, elem-delete,
}
use stat_tree_server.Manager.Cache.{
  Key, same_key, find_key, delete_key, CacheEntry, LotteryManager, store, evict, add_entry, touch,
  finish_load, built, failed,
}
use stat_tree_server.Manager.Sound.{
  IsSound, IsWell, IsBuilt, IsValid, evict-IsWell, split_at, found_cached,
}

pub store_self : {A : Type 0} (f : ℕ → CacheEntry A) (i : ℕ) (v : CacheEntry A) → store f i v i ≡ v
store_self f i v = rw (eq→== i i refl) refl

-- What holds of the entries of the map still does after a write to another entry.
pub All-store :
    {A : Type 0} (Q : Key → CacheEntry A → Type 0) (f : ℕ → CacheEntry A) (i : ℕ) (v : CacheEntry A)
    (cache : List (Key × ℕ))
    → elem i (ids_of cache) ≡ false
    → All (λ (k, x). Q k (f x)) cache
    → All (λ (k, x). Q k (store f i v x)) cache
All-store Q f i v [] n a = tt
All-store Q f i v ((k, x) ∷ cache) n a =
    let x_i : (x == i) ≡ false = ground arith in
    (rw x_i a.0, All-store Q f i v cache (ground arith) a.1)

elem_middle :
    (x : ℕ) (pre : List ℕ) (e : ℕ) (post : List ℕ)
    → elem x (pre ++ e ∷ post) ≡ elem x (e ∷ pre ++ post)
elem_middle x pre e post =
    elem-append x pre (e ∷ post)
    ∙ swapped (elem x pre) (x == e) (elem x post)
    ∙ ap (λ b. (x == e) || b) (sym (elem-append x pre post))
  where
    swapped : (a b c : Bool) → a || (b || c) ≡ b || (a || c)
    swapped a b c = ground arith

pub not_below : (n : ℕ) (ids : List ℕ) → ((x : ℕ) → elem x ids ≡ true → x < n) → elem n ids ≡ false
not_below n ids h = elim (Bool-cases (elem n ids)) [
  | inl e ↦ absurd (omega (arith, h n e))
  | inr e ↦ e
]

below :
    (n : ℕ) (ids : List ℕ)
    → ((x : ℕ) → elem x ids ≡ true → x < n)
    → (x : ℕ) → elem x (n ∷ ids) ≡ true
    → x < suc n
below n ids h x e = elim (ℕ_discrete x n) [
  | yes same ↦ ground arith
  | no other ↦ let rest : elem x ids ≡ true = ground arith in omega (arith, h x rest)
]

module _ {A : Type 0} (P : Key → A → Type 0) where
  pub touch-IsWell :
      (k : Key) (e : ℕ) (m : LotteryManager A)
      → find_key k m.cache ≡ some e
      → IsWell P m
      → IsWell P (touch e m)
  unfolding touch
  touch-IsWell k e m at_k (ids, s) =
      let (pre, post, eq) = split_at e ids (sym (s.same e) ∙ found_cached k e m.cache at_k) in
      let moved : (x : ℕ) → elem x ids ≡ elem x (e ∷ pre ++ post) =
        λ x. ap (elem x) eq ∙ elem_middle x pre e post in
      (
        e ∷ pre ++ post,
        record {
          order = move_to_front-IsOrder pre e post m.links (subst (IsOrder m.links) eq s.order);
          same = λ x. s.same x ∙ moved x;
          keyed = s.keyed;
          keys = s.keys;
          fresh = λ x h. s.fresh x (moved x ∙ h);
          valid = s.valid;
        },
      )

  pub add_entry-IsSound :
      (k : Key) (from to : ℕ) (m : LotteryManager A) (ids : List ℕ)
      → find_key k m.cache ≡ none
      → IsSound P m ids
      → IsSound P (add_entry k from to m) (m.next_id ∷ ids)
  unfolding add_entry
  add_entry-IsSound k from to m ids absent s =
      let n = m.next_id in
      let new_id : elem n ids ≡ false = not_below n ids s.fresh in
      let not_cached : elem n (ids_of m.cache) ≡ false = s.same n ∙ new_id in
      record {
        order = add_to_front-IsOrder n m.links ids new_id s.order;
        same = λ x. ap (λ b. (x == n) || b) (s.same x);
        keyed = (
          rw (store_self m.entries n _) (same_key_self k),
          All-store (λ j c. same_key c.key j ≡ true) m.entries n _ m.cache not_cached s.keyed,
        );
        keys = (absent, s.keys);
        fresh = λ x h. below n ids s.fresh x h;
        valid = (
          λ idle. absurd (ground arith),
          All-store (λ j c. c.loading ≡ false → IsBuilt P j c.arch) m.entries n _ m.cache not_cached
              s.valid,
        );
      }

  -- A build that succeeds fills the entry.
  pub finish-built :
      (k : Key) (e : ℕ) (a : A) (m : LotteryManager A)
      → find_key k m.cache ≡ some e
      → P k a
      → IsWell P m
      → IsWell P (finish_load k e (built a) m)
  unfolding finish_load
  finish-built k e a m at_k good (ids, s) =
      let k_e =
        same_key-path _ k (key_of-found (λ y. (m.entries y).key) k e m.cache s.keyed at_k) in
      (
        ids,
        record {
          order = s.order;
          same = s.same;
          keyed = All-map _ _ (λ (j, x) h. key_kept j x h) m.cache s.keyed;
          keys = s.keys;
          fresh = s.fresh;
          valid = valid_after m.cache s.keyed s.valid k_e;
        },
      )
    where
      key_kept :
          (j : Key) (x : ℕ)
          → same_key (m.entries x).key j ≡ true
          → same_key
              (store m.entries e
                (record (m.entries e) { arch = some a; loading = false; err = none })
                x).key
              j
            ≡ true
      key_kept j x h = elim (ℕ_discrete x e) [
        | yes is_e ↦ rw (eq→== x e is_e) (ap (λ y. same_key (m.entries y).key j) (sym is_e) ∙ h)
        | no other ↦ rw (ne→== x e other) h
      ]

      valid_after :
          (cache : List (Key × ℕ))
          → IsKeyed (λ y. (m.entries y).key) cache
          → IsValid P m.entries cache
          → (m.entries e).key ≡ k
          → IsValid P
              (store m.entries e
                (record (m.entries e) { arch = some a; loading = false; err = none }))
              cache
      valid_after [] ks v k_e = tt
      valid_after ((j, x) ∷ cache) ks v k_e = elim (ℕ_discrete x e) [
        | yes is_e ↦
            let e_j =
              same_key-path _ j (ap (λ y. same_key (m.entries y).key j) (sym is_e) ∙ ks.0) in
            (
              rw (eq→== x e is_e) (λ idle. subst (λ i. P i a) (sym k_e ∙ e_j) good),
              valid_after cache ks.1 v.1 k_e,
            )
        | no other ↦ (rw (ne→== x e other) v.0, valid_after cache ks.1 v.1 k_e)
      ]

  -- A build that fails takes the entry out.
  pub finish-failed :
      (k : Key) (e : ℕ) (text : String) (m : LotteryManager A)
      → find_key k m.cache ≡ some e
      → IsWell P m
      → IsWell P (finish_load k e (failed text) m)
  unfolding finish_load evict
  finish-failed k e text m at_k (ids, s) =
      let (ids', s') = evict-IsWell P k e m at_k (ids, s) in
      let out : elem e (ids_of (delete_key k m.cache)) ≡ false =
        elem-delete (λ y. (m.entries y).key) k e e m.cache s.keyed s.keys at_k
        ∙ rw (eq→== e e refl) (ground arith) in
      (
        ids',
        record {
          order = s'.order;
          same = s'.same;
          keyed =
              All-store (λ j c. same_key c.key j ≡ true) m.entries e _ (delete_key k m.cache) out
                s'.keyed;
          keys = s'.keys;
          fresh = s'.fresh;
          valid =
              All-store (λ j c. c.loading ≡ false → IsBuilt P j c.arch) m.entries e _
                (delete_key k m.cache) out s'.valid;
        },
      )
