-- ===== src/Manager/Trim.antt =====
-- The eviction of the least recently used entry by a miss of Archive in
-- internal/services/lottery_manager.go.
use mathlib.Core.Path.{subst}
use mathlib.Core.Option.{some-injective, none-ne-some}
use stat_tree_server.Base.{
  clash, ℕ, ◌≤◌, ◌<◌, ◌≡◌, refl, sym, ◌∙◌, true, false, List, [], ◌∷◌, Option, none, some, arith,
  length, elem, ◌==◌, Bool-cases, inl, inr, eq→==, ne→==, ltb,
}
use stat_tree_server.Manager.Order.{last_or}
use stat_tree_server.Manager.Keys.{
  ids_of, same_key_self, find-cached, not_cached, find-delete_other, length-delete_found,
}
use stat_tree_server.Manager.Cache.{
  Key, delete_key, same_key, find_key, LotteryManager, CacheEntry, evict, evict_idle, add_entry,
  trim,
}
use stat_tree_server.Manager.Sound.{IsSound, IsWell, evict-IsWell}
use stat_tree_server.Manager.Sections.{add_entry-IsSound}

-- A list that is not empty has a last entry.
last_in :
    (y : ℕ) (ids : List ℕ) → (v : ℕ) × (last_or (some y) ids ≡ some v) × (elem v (y ∷ ids) ≡ true)
last_in y [] = (y, refl, rw (eq→== y y refl) refl)
last_in y (x ∷ ids) = let (v, e, h) = last_in x ids in (v, e, ground (arith, h))

evict_idle-some :
    {A : Type 0} (o : Option ℕ) (v : ℕ) (m : LotteryManager A)
    → o ≡ some v
    → (m.entries v).loading ≡ false
    → evict_idle o m ≡ evict (m.entries v).key v m
unfolding evict
evict_idle-some none v m e idle = absurd (none-ne-some _ e)
evict_idle-some (some w) v m e idle = rw (some-injective _ _ e, idle) refl

-- No entry is in flight.
abbrev pub IsIdle : {A : Type 0} → LotteryManager A → Type 0
IsIdle m = (x : ℕ) → (m.entries x).loading ≡ false

module _ {A : Type 0} (P : Key → A → Type 0) where
  -- The cache is in order and within its bound, and holds the entry `n` in flight for the key.
  pub record IsRoomy (k : Key) (n : ℕ) (entries : ℕ → CacheEntry A) (m : LotteryManager A)
      : Type 0 where
    pub well : IsWell P m
    pub bound : length m.cache ≤ 8
    pub at_key : find_key k m.cache ≡ some n
    pub same_entries : m.entries ≡ entries

  evict-IsRoomy :
      (k : Key) (from to : ℕ) (m : LotteryManager A) (y : ℕ) (ids : List ℕ)
      → length m.cache ≤ 8
      → IsIdle m
      → find_key k m.cache ≡ none
      → IsSound P m (y ∷ ids)
      → IsRoomy k m.next_id
          (add_entry k from to m).entries
          (evict_idle (add_entry k from to m).links.tail (add_entry k from to m))
  unfolding evict add_entry
  evict-IsRoomy k from to m y ids bound idle absent s =
      let m1 = add_entry k from to m in
      let s1 = add_entry-IsSound P k from to m (y ∷ ids) absent s in
      let (v, at_tail, v_in) = last_in y ids in
      let key_of : ℕ → Key = λ x. (m.entries x).key in
      let v_n : (v == m.next_id) ≡ false = ne→== v m.next_id (λ e. omega (arith, s.fresh v v_in)) in
      let v_idle : (m1.entries v).loading ≡ false = rw v_n (idle v) in
      let v_key =
        find-cached (λ x. (m1.entries x).key) v m1.cache s1.keyed s1.keys
          (s1.same v ∙ ground (arith, v_in)) in
      let k_v : same_key (m1.entries v).key k ≡ false =
        rw v_n (elim (Bool-cases (same_key (m.entries v).key k)) [
          | inl e ↦
              absurd (clash (s.same v ∙ v_in) (not_cached key_of k v m.cache s.keyed e absent))
          | inr e ↦ e
        ]) in
      let bound_after : length (delete_key (m1.entries v).key m1.cache) ≤ 8 =
        omega (arith, length-delete_found (m1.entries v).key v m1.cache v_key) in
      subst (IsRoomy k m.next_id m1.entries)
        (sym (evict_idle-some m1.links.tail v m1 (s1.order.at_tail ∙ at_tail) v_idle))
        (record {
          well = evict-IsWell P (m1.entries v).key v m1 v_key (m.next_id ∷ y ∷ ids, s1);
          bound = bound_after;
          at_key = find-delete_other (m1.entries v).key k m1.cache k_v ∙ rw (same_key_self k) refl;
          same_entries = refl;
        })

  not_nil :
      (m : LotteryManager A) (ids : List ℕ)
      → 0 < length m.cache
      → IsSound P m ids
      → (y : ℕ) × (rest : List ℕ) × (ids ≡ y ∷ rest)
  not_nil m (y ∷ rest) h s = (y, rest, refl)
  not_nil m [] h s = absurd (no_cache m.cache h s.same)
    where
      no_cache :
          (cache : List (Key × ℕ))
          → 0 < length cache
          → ((x : ℕ) → elem x (ids_of cache) ≡ false)
          → ⊥
      no_cache [] h n = ground arith
      no_cache ((k, e) ∷ cache) h n = clash (rw (eq→== e e refl) refl) (n e)

  -- After a miss and its eviction there are at most eight entries, and the new one is among them.
  pub trim-IsRoomy :
      (k : Key) (from to : ℕ) (m : LotteryManager A)
      → length m.cache ≤ 8
      → IsIdle m
      → find_key k m.cache ≡ none
      → IsWell P m
      → IsRoomy k m.next_id (add_entry k from to m).entries (trim (add_entry k from to m))
  unfolding trim add_entry
  trim-IsRoomy k from to m bound idle absent (ids, s) =
      elim (Bool-cases (ltb 8 (length (add_entry k from to m).cache))) [
        | inl full ↦
            let (y, rest, eq) = not_nil m ids (ground arith) s in
            rw full (evict-IsRoomy k from to m y rest bound idle absent (subst (IsSound P m) eq s))
        | inr small ↦ rw small (record {
          well = (m.next_id ∷ ids, add_entry-IsSound P k from to m ids absent s);
          bound = ground arith;
          at_key = rw (same_key_self k) refl;
          same_entries = refl;
        })
      ]
