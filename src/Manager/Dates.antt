-- ===== src/Manager/Dates.antt =====
-- The dates that the cache of internal/services/lottery_manager.go holds: InvalidateRange as the
-- CacheRangeInvalidator of internal/services/scrape_runner.go.
use stat_tree_server.Base.{
  clash, ℕ, ◌≤◌, ◌≡◌, ◌⊎◌, refl, ap, ◌∙◌, Bool, false, ◌||◌, List, [], ◌∷◌, arith, Bool-cases, inl,
  inr, All, All-map,
}
use stat_tree_server.Simulate.Windows.{within}
use stat_tree_server.Scrape.{Invalidator}
use stat_tree_server.Manager.{ranges_overlap}
use stat_tree_server.Manager.Keys.{same_key_self, All-delete}
use stat_tree_server.Manager.Cache.{
  Key, same_key, delete_key, LotteryManager, CacheEntry, evict, invalidate_loop, invalidate_range,
}

module _ {A : Type 0} where
  abbrev covers : (ℕ → CacheEntry A) → ℕ → ℕ → Bool
  covers entries date e = within (entries e).from (entries e).to date

  -- Some window in the map includes the date.
  abbrev pub any_covers : (ℕ → CacheEntry A) → ℕ → List (Key × ℕ) → Bool
  any_covers entries date [] = false
  any_covers entries date ((k, e) ∷ cache) = covers entries date e || any_covers entries date cache

  abbrev pub holds_date : LotteryManager A → ℕ → Bool
  holds_date m date = any_covers m.entries date m.cache

-- A pair is one of a list.
abbrev IsIn : Key × ℕ → List (Key × ℕ) → Type 0
IsIn p [] = ⊥
IsIn p (q ∷ qs) = (p ≡ q) ⊎ IsIn p qs

All-IsIn : (cache : List (Key × ℕ)) → All (λ p. IsIn p cache) cache
All-IsIn [] = tt
All-IsIn (q ∷ cache) = (inl refl, All-map _ _ (λ p h. inr h) cache (All-IsIn cache))

-- What a deletion leaves stands under other keys.
All-delete_other :
    (Q : Key × ℕ → Type 0) (j : Key) (cache : List (Key × ℕ))
    → All Q cache
    → All (λ p. Q p × same_key p.0 j ≡ false) (delete_key j cache)
All-delete_other Q j [] a = tt
All-delete_other Q j ((k, e) ∷ cache) a = elim (Bool-cases (same_key k j)) [
  | inl s ↦ rw s (All-delete_other Q j cache a.1)
  | inr n ↦ rw n ((a.0, n), All-delete_other Q j cache a.1)
]

outside :
    (from to date a b : ℕ)
    → from ≤ date
    → date ≤ to
    → ranges_overlap a b from to ≡ false
    → within a b date ≡ false
unfolding ranges_overlap
outside from to date a b h h' apart = ground arith

module _ {A : Type 0} (from to date : ℕ) where
  none_covers :
      (entries : ℕ → CacheEntry A) (cache : List (Key × ℕ))
      → All (λ p. covers entries date p.1 ≡ false) cache
      → any_covers entries date cache ≡ false
  none_covers entries [] a = refl
  none_covers entries ((k, e) ∷ cache) a = rw (a.0, none_covers entries cache a.1) refl

  each_covers :
      (entries : ℕ → CacheEntry A) (cache : List (Key × ℕ))
      → any_covers entries date cache ≡ false
      → All (λ p. covers entries date p.1 ≡ false) cache
  each_covers entries [] h = tt
  each_covers entries ((k, e) ∷ cache) h =
      let now : covers entries date e ≡ false = left _ _ h in
      (now, each_covers entries cache (right _ _ h))
    where
      left : (a b : Bool) → a || b ≡ false → a ≡ false
      left a b h = ground arith

      right : (a b : Bool) → a || b ≡ false → b ≡ false
      right a b h = ground arith

  -- What is still to be looked at may cover the date, if the range has it.
  abbrev IsSafe : List (Key × ℕ) → LotteryManager A → Type 0
  IsSafe rest m = All (λ p. IsIn p rest ⊎ (covers m.entries date p.1 ≡ false)) m.cache

  evict-IsSafe :
      (k : Key) (e : ℕ) (rest : List (Key × ℕ)) (m : LotteryManager A)
      → IsSafe ((k, e) ∷ rest) m
      → IsSafe rest (evict k e m)
  unfolding evict
  evict-IsSafe k e rest m a =
      All-map _ _ (λ p h. later p h.0 h.1) (delete_key k m.cache) (All-delete_other _ k m.cache a)
    where
      later :
          (p : Key × ℕ)
          → IsIn p ((k, e) ∷ rest) ⊎ (covers m.entries date p.1 ≡ false)
          → same_key p.0 k ≡ false
          → IsIn p rest ⊎ (covers m.entries date p.1 ≡ false)
      later p (inl (inl same)) n =
          absurd (clash (ap (λ q. same_key q.0 k) same ∙ same_key_self k) n)
      later p (inl (inr h)) n = inl h
      later p (inr c) n = inr c

  keep-IsSafe :
      (k : Key) (e : ℕ) (rest : List (Key × ℕ)) (m : LotteryManager A)
      → covers m.entries date e ≡ false
      → IsSafe ((k, e) ∷ rest) m
      → IsSafe rest m
  keep-IsSafe k e rest m c a = All-map _ _ (λ p h. later p h) m.cache a
    where
      later :
          (p : Key × ℕ)
          → IsIn p ((k, e) ∷ rest) ⊎ (covers m.entries date p.1 ≡ false)
          → IsIn p rest ⊎ (covers m.entries date p.1 ≡ false)
      later p (inl (inl same)) = inr (ap (λ q. covers m.entries date q.1) same ∙ c)
      later p (inl (inr h)) = inl h
      later p (inr c') = inr c'

  loop-IsSafe :
      (rest : List (Key × ℕ)) (m : LotteryManager A)
      → from ≤ date
      → date ≤ to
      → IsSafe rest m
      → holds_date (invalidate_loop from to rest m) date ≡ false
  unfolding invalidate_loop evict
  loop-IsSafe [] m h h' a =
      none_covers m.entries m.cache (All-map _ _ (λ p q. settled p q) m.cache a)
    where
      settled :
          (p : Key × ℕ)
          → ⊥ ⊎ (covers m.entries date p.1 ≡ false)
          → covers m.entries date p.1 ≡ false
      settled p (inl b) = absurd b
      settled p (inr c) = c
  loop-IsSafe ((k, e) ∷ rest) m h h' a =
      elim (Bool-cases (ranges_overlap (m.entries e).from (m.entries e).to from to)) [
        | inl meets ↦
            rw (meets, invalidate_loop)
              (loop-IsSafe rest (evict k e m) h h' (evict-IsSafe k e rest m a))
        | inr apart ↦
            rw (apart, invalidate_loop)
              (loop-IsSafe rest m h h' (
                keep-IsSafe k e rest m
                  (outside from to date (m.entries e).from (m.entries e).to h h' apart) a))
      ]

  loop_shrinks :
      (rest : List (Key × ℕ)) (m : LotteryManager A)
      → All (λ p. covers m.entries date p.1 ≡ false) m.cache
      → holds_date (invalidate_loop from to rest m) date ≡ false
  unfolding invalidate_loop evict
  loop_shrinks [] m a = none_covers m.entries m.cache a
  loop_shrinks ((k, e) ∷ rest) m a =
      elim (Bool-cases (ranges_overlap (m.entries e).from (m.entries e).to from to)) [
        | inl meets ↦
            rw (meets, invalidate_loop) (loop_shrinks rest (evict k e m) (All-delete _ k m.cache a))
        | inr apart ↦ rw (apart, invalidate_loop) (loop_shrinks rest m a)
      ]

  -- InvalidateRange drops every window that includes a date of the range.
  pub invalidate_range_drops :
      (m : LotteryManager A)
      → from ≤ date
      → date ≤ to
      → holds_date (invalidate_range from to m) date ≡ false
  unfolding invalidate_range
  invalidate_range_drops m h h' =
      loop-IsSafe m.cache m h h' (All-map _ _ (λ p i. inl i) m.cache (All-IsIn m.cache))

  -- InvalidateRange adds no window.
  pub invalidate_range_shrinks :
      (m : LotteryManager A)
      → holds_date m date ≡ false
      → holds_date (invalidate_range from to m) date ≡ false
  unfolding invalidate_range
  invalidate_range_shrinks m h = loop_shrinks m.cache m (each_covers m.entries m.cache h)

-- The manager as the scraper uses it.
abbrev pub manager_invalidator : {A : Type 0} → Invalidator (LotteryManager A)
manager_invalidator = record {
  invalidate_range = invalidate_range;
  holds = holds_date;
  drops = λ from to date m pos h h'. invalidate_range_drops from to date m h h';
  shrinks = λ from to date m h. invalidate_range_shrinks from to date m h;
}
