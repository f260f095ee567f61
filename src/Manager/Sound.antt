-- ===== src/Manager/Sound.antt =====
-- The invariant of LotteryManager in internal/services/lottery_manager.go, and the sections of
-- Archive that keep it.
use mathlib.Core.Path.{subst}
use mathlib.Core.Option.{some-injective, none-ne-some}
use native.Mathlib.Decide.{ℕ_discrete}
use stat_tree_server.Base.{
  ℕ, ◌<◌, ◌≡◌, refl, sym, ap, ◌∙◌, true, false, ◌&&◌, not, List, [], ◌∷◌, ◌++◌, Option, none, some,
  arith, elem, ◌==◌, Bool-cases, inl, inr, All, eq→==, Distinct,
}
use stat_tree_server.Manager.Order.{IsOrder}
use stat_tree_server.Manager.Unlink.{remove-IsOrder, elem-append, not_before, Distinct-after}
use stat_tree_server.Manager.Keys.{
  ids_of, IsKeyed, HasKeys, HasKeys-delete, All-delete, elem-delete,
}
use stat_tree_server.Manager.Cache.{Key, same_key, find_key, CacheEntry, LotteryManager, evict}

-- The place of a number in a list.
pub split_at :
    (e : ℕ) (ids : List ℕ)
    → elem e ids ≡ true
    → (pre : List ℕ) × (post : List ℕ) × (ids ≡ pre ++ e ∷ post)
split_at e [] h = absurd (ground arith)
split_at e (x ∷ ids) h = elim (ℕ_discrete e x) [
  | yes same ↦ ([], ids, ap (λ y. y ∷ ids) (sym same))
  | no other ↦ let (pre, post, eq) = split_at e ids (ground arith) in (x ∷ pre, post, ap (◌∷◌ x) eq)
]

pub found_cached :
    (k : Key) (e : ℕ) (cache : List (Key × ℕ))
    → find_key k cache ≡ some e
    → elem e (ids_of cache) ≡ true
found_cached k e [] h = absurd (none-ne-some _ h)
found_cached k e ((i, x) ∷ cache) h = elim (Bool-cases (same_key i k)) [
  | inl s ↦ rw (eq→== e x (sym (some-injective _ _ (rw s at h)))) refl
  | inr n ↦ ground (arith, found_cached k e cache (rw n at h))
]

in_more :
    (pre : List ℕ) (e : ℕ) (post : List ℕ) (x : ℕ)
    → elem x (pre ++ post) ≡ true
    → elem x (pre ++ e ∷ post) ≡ true
in_more pre e post x h = ground (arith, elem-append x pre post, elem-append x pre (e ∷ post))

-- What is left of a list without repetitions when an entry leaves it.
elem_without :
    (pre : List ℕ) (e : ℕ) (post : List ℕ) (x : ℕ)
    → Distinct (pre ++ e ∷ post)
    → elem x (pre ++ e ∷ post) && not (x == e) ≡ elem x (pre ++ post)
elem_without pre e post x d = elim (ℕ_discrete x e) [
  | yes same ↦
      rw (same, elem-append e pre post, not_before pre e post d, (Distinct-after pre e post d).0)
        (ground arith)
  | no other ↦ ground (arith, elem-append x pre post, elem-append x pre (e ∷ post))
]

module _ {A : Type 0} (P : Key → A → Type 0) where
  -- A built archive is one for the key.
  abbrev pub IsBuilt : Key → Option A → Type 0
  IsBuilt k none = ⊥
  IsBuilt k (some a) = P k a

  abbrev pub IsValid : (ℕ → CacheEntry A) → List (Key × ℕ) → Type 0
  IsValid entries cache =
      All (λ (k, e). (entries e).loading ≡ false → IsBuilt k (entries e).arch) cache

  -- The list holds the entries of the map, which stand under their keys, once for each key, and
  -- have an archive for it unless they are in flight.
  pub record IsSound (m : LotteryManager A) (ids : List ℕ) : Type 0 where
    pub order : IsOrder m.links ids
    pub same : (x : ℕ) → elem x (ids_of m.cache) ≡ elem x ids
    pub keyed : IsKeyed (λ e. (m.entries e).key) m.cache
    pub keys : HasKeys m.cache
    pub fresh : (x : ℕ) → elem x ids ≡ true → x < m.next_id
    pub valid : IsValid m.entries m.cache

  -- Some list holds the entries.
  abbrev pub IsWell : LotteryManager A → Type 0
  IsWell m = (ids : List ℕ) × IsSound m ids

  pub evict-IsWell :
      (k : Key) (e : ℕ) (m : LotteryManager A)
      → find_key k m.cache ≡ some e
      → IsWell m
      → IsWell (evict k e m)
  unfolding evict
  evict-IsWell k e m at_k (ids, s) =
      let in_cache = found_cached k e m.cache at_k in
      let (pre, post, eq) = split_at e ids (sym (s.same e) ∙ in_cache) in
      let o = subst (IsOrder m.links) eq s.order in
      (
        pre ++ post,
        record {
          order = remove-IsOrder pre e post m.links o;
          same = λ x.
              elem-delete (λ y. (m.entries y).key) k e x m.cache s.keyed s.keys at_k
              ∙ ap (λ b. b && not (x == e)) (s.same x ∙ ap (elem x) eq)
              ∙ elem_without pre e post x o.distinct;
          keyed = All-delete _ k m.cache s.keyed;
          keys = HasKeys-delete k m.cache s.keys;
          fresh = λ x h. s.fresh x (ap (elem x) eq ∙ in_more pre e post x h);
          valid = All-delete _ k m.cache s.valid;
        },
      )
