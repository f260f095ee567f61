-- ===== src/Manager/Invalidate.antt =====
-- InvalidateRange of internal/services/lottery_manager.go: it keeps the invariant of the cache, and
-- fills the interface that the scraper uses to drop dates.
use mathlib.Core.Option.{none-ne-some}
use stat_tree_server.Base.{
  ℕ, ◌≡◌, refl, sym, ◌∙◌, false, List, [], ◌∷◌, none, some, arith, Bool-cases, inl, inr, All,
}
use stat_tree_server.Manager.{ranges_overlap}
use stat_tree_server.Manager.Keys.{
  HasKeys, same_key_sym, same_key_self, find-delete_other, length-delete,
}
use stat_tree_server.Manager.Cache.{
  Key, same_key, find_key, delete_key, LotteryManager, evict, invalidate_loop, invalidate_range,
}
use stat_tree_server.Manager.Sound.{evict-IsWell}
use stat_tree_server.Manager.Answers.{IsCache}

-- The pairs are those that a lookup finds.
abbrev AreFound : List (Key × ℕ) → List (Key × ℕ) → Type 0
AreFound cache rest = All (λ (k, e). find_key k cache ≡ some e) rest

absent_keys :
    (k : Key) (rest : List (Key × ℕ))
    → find_key k rest ≡ none
    → All (λ (j, x). same_key k j ≡ false) rest
absent_keys k [] h = tt
absent_keys k ((j, x) ∷ rest) h = elim (Bool-cases (same_key j k)) [
  | inl s ↦ absurd (none-ne-some _ (sym (rw s at h)))
  | inr n ↦ (same_key_sym k j ∙ n, absent_keys k rest (rw n at h))
]

AreFound-cons :
    (j : Key) (x : ℕ) (cache rest : List (Key × ℕ))
    → All (λ (k, e). same_key j k ≡ false) rest
    → AreFound cache rest
    → AreFound ((j, x) ∷ cache) rest
AreFound-cons j x cache [] a f = tt
AreFound-cons j x cache ((k, e) ∷ rest) a f = (rw a.0 f.0, AreFound-cons j x cache rest a.1 f.1)

AreFound-delete :
    (j : Key) (cache rest : List (Key × ℕ))
    → All (λ (k, e). same_key j k ≡ false) rest
    → AreFound cache rest
    → AreFound (delete_key j cache) rest
AreFound-delete j cache [] a f = tt
AreFound-delete j cache ((k, e) ∷ rest) a f =
    (find-delete_other j k cache a.0 ∙ f.0, AreFound-delete j cache rest a.1 f.1)

all_found : (cache : List (Key × ℕ)) → HasKeys cache → AreFound cache cache
all_found [] h = tt
all_found ((k, e) ∷ cache) h = (
  rw (same_key_self k) refl,
  AreFound-cons k e cache cache (absent_keys k cache h.0) (all_found cache h.1),
)

module _ {A : Type 0} (P : Key → A → Type 0) (from to : ℕ) where
  evict-IsCache :
      (k : Key) (e : ℕ) (m : LotteryManager A)
      → find_key k m.cache ≡ some e
      → IsCache P m
      → IsCache P (evict k e m)
  unfolding evict
  evict-IsCache k e m at_k c = record {
    well = evict-IsWell P k e m at_k c.well;
    bound = omega (arith, length-delete k m.cache, c.bound);
    idle = c.idle;
  }

  invalidate_loop-IsCache :
      (rest : List (Key × ℕ)) (m : LotteryManager A)
      → HasKeys rest
      → AreFound m.cache rest
      → IsCache P m
      → IsCache P (invalidate_loop from to rest m)
  unfolding invalidate_loop evict
  invalidate_loop-IsCache [] m h f c = c
  invalidate_loop-IsCache ((k, e) ∷ rest) m h f c =
      elim (Bool-cases (ranges_overlap (m.entries e).from (m.entries e).to from to)) [
        | inl meets ↦ rw meets (
            invalidate_loop-IsCache rest (evict k e m) h.1
              (AreFound-delete k m.cache rest (absent_keys k rest h.0) f.1)
              (evict-IsCache k e m f.0 c))
        | inr apart ↦ rw apart (invalidate_loop-IsCache rest m h.1 f.1 c)
      ]

  -- InvalidateRange keeps the invariant of the cache.
  pub invalidate_range-IsCache :
      (m : LotteryManager A) → IsCache P m → IsCache P (invalidate_range from to m)
  unfolding invalidate_range
  invalidate_range-IsCache m c =
      let s = c.well.1 in invalidate_loop-IsCache m.cache m s.keys (all_found m.cache s.keys) c
