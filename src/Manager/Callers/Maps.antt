-- ===== src/Manager/Callers/Maps.antt =====
-- What the sections of Archive and InvalidateRange in internal/services/lottery_manager.go leave of
-- the map, in whatever order the list of pointers is.
use native.Mathlib.Decide.{ℕ_discrete}
use stat_tree_server.Base.{
  ℕ, ◌≡◌, refl, ◌∙◌, true, false, List, [], ◌∷◌, Option, none, some, arith, length, elem, ltb,
  Bool-cases, inl, inr, clash,
}
use stat_tree_server.Manager.{ranges_overlap}
use stat_tree_server.Manager.Keys.{
  ids_of, IsKeyed, HasKeys, HasKeys-delete, All-delete, not_cached, find-deleted,
}
use stat_tree_server.Manager.Cache.{
  Key, same_key, delete_key, LotteryManager, evict, evict_idle, trim, invalidate_loop,
  invalidate_range,
}

-- The entry is in the map.
abbrev pub Cached : ℕ → List (Key × ℕ) → Type 0
Cached e cache = elem e (ids_of cache) ≡ true

pub Cached-delete :
    (k : Key) (e : ℕ) (cache : List (Key × ℕ)) → Cached e (delete_key k cache) → Cached e cache
Cached-delete k e [] h = h
Cached-delete k e ((i, x) ∷ cache) h = elim (Bool-cases (same_key i k)) [
  | inl s ↦ ground (arith, Cached-delete k e cache (rw s at h))
  | inr n ↦
      let h' : elem e (x ∷ ids_of (delete_key k cache)) ≡ true = rw n at h in
      ground (arith, Cached-delete k e cache)
]

-- A deletion takes out the entry that stands under the key.
pub deleted :
    (key_of : ℕ → Key) (k : Key) (e : ℕ) (cache : List (Key × ℕ))
    → IsKeyed key_of cache
    → same_key (key_of e) k ≡ true
    → elem e (ids_of (delete_key k cache)) ≡ false
deleted key_of k e cache keyed s =
    not_cached key_of k e (delete_key k cache) (All-delete _ k cache keyed) s (find-deleted k cache)

module _ {A : Type 0} where
  -- The first manager has some of the map of the second, and the same entries.
  pub record IsPart (m' m : LotteryManager A) : Type 0 where
    pub entries : m'.entries ≡ m.entries
    pub next_id : m'.next_id ≡ m.next_id
    pub cached : (e : ℕ) → Cached e m'.cache → Cached e m.cache
    pub keyed : (key_of : ℕ → Key) → IsKeyed key_of m.cache → IsKeyed key_of m'.cache
    pub keys : HasKeys m.cache → HasKeys m'.cache

  pub IsPart-self : (m : LotteryManager A) → IsPart m m
  IsPart-self m = record {
    entries = refl;
    next_id = refl;
    cached = λ e h. h;
    keyed = λ key_of h. h;
    keys = λ h. h;
  }

  pub evict-IsPart : (k : Key) (e : ℕ) (m : LotteryManager A) → IsPart (evict k e m) m
  unfolding evict
  evict-IsPart k e m = record {
    entries = refl;
    next_id = refl;
    cached = λ x h. Cached-delete k x m.cache h;
    keyed = λ key_of h. All-delete _ k m.cache h;
    keys = λ h. HasKeys-delete k m.cache h;
  }

  evict_idle-IsPart : (o : Option ℕ) (m : LotteryManager A) → IsPart (evict_idle o m) m
  evict_idle-IsPart none m = IsPart-self m
  evict_idle-IsPart (some v) m = elim (Bool-cases (m.entries v).loading) [
    | inl busy ↦ rw busy (IsPart-self m)
    | inr idle ↦ rw idle (evict-IsPart (m.entries v).key v m)
  ]

  -- The eviction of a miss.
  pub trim-IsPart : (m : LotteryManager A) → IsPart (trim m) m
  unfolding trim
  trim-IsPart m = elim (Bool-cases (ltb 8 (length m.cache))) [
    | inl full ↦ rw full (evict_idle-IsPart m.links.tail m)
    | inr small ↦ rw small (IsPart-self m)
  ]

  pub IsPart-trans : {a b c : LotteryManager A} → IsPart a b → IsPart b c → IsPart a c
  IsPart-trans p q = record {
    entries = p.entries ∙ q.entries;
    next_id = p.next_id ∙ q.next_id;
    cached = λ e h. q.cached e (p.cached e h);
    keyed = λ key_of h. p.keyed key_of (q.keyed key_of h);
    keys = λ h. p.keys (q.keys h);
  }

  pub invalidate_loop-IsPart :
      (from to : ℕ) (rest : List (Key × ℕ)) (m : LotteryManager A)
      → IsPart (invalidate_loop from to rest m) m
  unfolding invalidate_loop
  invalidate_loop-IsPart from to [] m = IsPart-self m
  invalidate_loop-IsPart from to ((k, e) ∷ rest) m =
      elim (Bool-cases (ranges_overlap (m.entries e).from (m.entries e).to from to)) [
        | inl meets ↦
            rw meets (
              IsPart-trans (invalidate_loop-IsPart from to rest (evict k e m)) (evict-IsPart k e m))
        | inr apart ↦ rw apart (invalidate_loop-IsPart from to rest m)
      ]

  -- An entry that the loop has passed and left in the map is out of the range.
  passed-apart :
      (from to e : ℕ) (rest : List (Key × ℕ)) (m : LotteryManager A)
      → IsKeyed (λ x. (m.entries x).key) m.cache
      → IsKeyed (λ x. (m.entries x).key) rest
      → Cached e (invalidate_loop from to rest m).cache
      → Cached e rest
      → ranges_overlap (m.entries e).from (m.entries e).to from to ≡ false
  unfolding invalidate_loop evict
  passed-apart from to e [] m keyed keyed' h at_e = absurd (ground arith)
  passed-apart from to e ((k, x) ∷ rest) m keyed keyed' h at_e =
      elim (Bool-cases (ranges_overlap (m.entries x).from (m.entries x).to from to)) [
        | inl meets ↦
            let h' : Cached e (invalidate_loop from to rest (evict k x m)).cache =
              rw (meets, invalidate_loop) at h in
            elim (ℕ_discrete e x) [
              | yes same ↦ absurd (
                  clash ((invalidate_loop-IsPart from to rest (evict k x m)).cached e h')
                    (rw same (deleted (λ y. (m.entries y).key) k x m.cache keyed keyed'.0)))
              | no other ↦
                  passed-apart from to e rest (evict k x m) (All-delete _ k m.cache keyed) keyed'.1
                    h' (ground arith)
            ]
        | inr apart ↦
            let h' : Cached e (invalidate_loop from to rest m).cache =
              rw (apart, invalidate_loop) at h in
            elim (ℕ_discrete e x) [
              | yes same ↦ rw same apart
              | no other ↦ passed-apart from to e rest m keyed keyed'.1 h' (ground arith)
            ]
      ]

  pub invalidate_range-IsPart :
      (from to : ℕ) (m : LotteryManager A) → IsPart (invalidate_range from to m) m
  unfolding invalidate_range
  invalidate_range-IsPart from to m = invalidate_loop-IsPart from to m.cache m

  pub invalidate_range-apart :
      (from to e : ℕ) (m : LotteryManager A)
      → IsKeyed (λ x. (m.entries x).key) m.cache
      → Cached e (invalidate_range from to m).cache
      → ranges_overlap (m.entries e).from (m.entries e).to from to ≡ false
  unfolding invalidate_range
  invalidate_range-apart from to e m keyed h =
      passed-apart from to e m.cache m keyed keyed h
        ((invalidate_loop-IsPart from to m.cache m).cached e h)
