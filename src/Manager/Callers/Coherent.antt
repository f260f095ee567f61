-- ===== src/Manager/Callers/Coherent.antt =====
-- The archives in the map of LotteryManager in internal/services/lottery_manager.go, while calls of
-- Archive, writes of draws and invalidations run side by side.
use mathlib.Core.Path.{subst}
use stat_tree_server.Base.{
  ℕ, ◌≡◌, refl, sym, ap, false, List, [], ◌∷◌, arith, ◌==◌, Bool-cases, inl, inr,
}
use stat_tree_server.Manager.{ranges_overlap}
use stat_tree_server.Manager.Keys.{same_key-path}
use stat_tree_server.Manager.Cache.{same_key, LotteryManager, invalidate_range, invalidate_all}
use stat_tree_server.Manager.Callers.{Caller, update, without}
use stat_tree_server.Manager.Callers.Maps.{IsPart, invalidate_range-IsPart, invalidate_range-apart}
use stat_tree_server.Manager.Callers.Knows.{IsClean, Knows, IsCoherent, IsCoherent-keep}

-- What holds of all calls still does when it holds of the one that moves.
pub update-all :
    {A : Type 0} (P : Caller A → Type 0) (callers : ℕ → Caller A) (i : ℕ) (p : Caller A)
    → ((j : ℕ) → P (callers j))
    → P p
    → (j : ℕ) → P (update callers i p j)
update-all P callers i p h hp j = elim (Bool-cases (j == i)) [
  | inl same ↦ rw same hp
  | inr other ↦ rw other (h j)
]

-- A window that misses a range is clean if it is so once the range is settled.
IsClean-without :
    (lo hi a b : ℕ) (dirty : List (ℕ × ℕ))
    → ranges_overlap lo hi a b ≡ false
    → IsClean lo hi (without (a, b) dirty)
    → IsClean lo hi dirty
unfolding without
IsClean-without lo hi a b [] apart h = tt
IsClean-without lo hi a b ((x, y) ∷ dirty) apart h = elim (Bool-cases (same_key (x, y) (a, b))) [
  | inl s ↦
      let at_x : x ≡ a = ap (λ k. k.0) (same_key-path (x, y) (a, b) s) in
      let at_y : y ≡ b = ap (λ k. k.1) (same_key-path (x, y) (a, b) s) in
      (rw (at_x, at_y) apart, IsClean-without lo hi a b dirty apart (rw (s, without) at h))
  | inr n ↦
      let h' : IsClean lo hi ((x, y) ∷ without (a, b) dirty) = rw (n, without) at h in
      (h'.0, IsClean-without lo hi a b dirty apart h'.1)
]

module _ {A T : Type 0} (reads : T → ℕ → ℕ → A) where
  -- The invariant of a manager.
  abbrev pub Coherent : T → List (ℕ × ℕ) → LotteryManager A → (ℕ → Caller A) → Type 0
  Coherent t dirty m callers = IsCoherent reads t dirty m.entries m.next_id m.cache callers

  pub part-Coherent :
      (t : T) (dirty : List (ℕ × ℕ)) (m m' : LotteryManager A) (callers : ℕ → Caller A)
      → IsPart m' m
      → Coherent t dirty m callers
      → Coherent t dirty m' callers
  part-Coherent t dirty m m' callers p c =
      subst (λ f. IsCoherent reads t dirty f m'.next_id m'.cache callers) (sym p.entries)
        (subst (λ n. IsCoherent reads t dirty m.entries n m'.cache callers) (sym p.next_id)
          (IsCoherent-keep reads t t dirty dirty m.entries m.next_id m.cache m'.cache callers
            (p.keyed (λ e. (m.entries e).key) c.keyed) p.cached (λ e at_e clean. (clean, refl)) c))

  -- A step of one call that leaves the manager alone, but for the pointers.
  pub still-Coherent :
      (t : T) (dirty : List (ℕ × ℕ)) (m : LotteryManager A) (callers : ℕ → Caller A) (i : ℕ)
      (p : Caller A)
      → Knows reads t dirty m.entries m.next_id m.cache p
      → Coherent t dirty m callers
      → Coherent t dirty m (update callers i p)
  still-Coherent t dirty m callers i p knows c = record {
    keyed = c.keyed;
    known = c.known;
    current = c.current;
    knows = update-all (Knows reads t dirty m.entries m.next_id m.cache) callers i p c.knows knows;
  }

  pub invalidate-Coherent :
      (t : T) (dirty : List (ℕ × ℕ)) (m : LotteryManager A) (callers : ℕ → Caller A) (from to : ℕ)
      → Coherent t dirty m callers
      → Coherent t (without (from, to) dirty) (invalidate_range from to m) callers
  invalidate-Coherent t dirty m callers from to c =
      let p = invalidate_range-IsPart from to m in
      let m' = invalidate_range from to m in
      subst (λ f. IsCoherent reads t (without (from, to) dirty) f m'.next_id m'.cache callers)
        (sym p.entries)
        (subst (λ n. IsCoherent reads t (without (from, to) dirty) m.entries n m'.cache callers)
          (sym p.next_id)
          (IsCoherent-keep reads t t dirty (without (from, to) dirty) m.entries m.next_id m.cache
            m'.cache callers (p.keyed (λ e. (m.entries e).key) c.keyed) p.cached
            (λ e at_e clean. (
              IsClean-without (m.entries e).from (m.entries e).to from to dirty
                  (invalidate_range-apart from to e m c.keyed at_e) clean,
              refl,
            ))
            c))

  pub write-Coherent :
      (t t' : T) (dirty : List (ℕ × ℕ)) (m : LotteryManager A) (callers : ℕ → Caller A)
      (from to : ℕ)
      → ((lo hi : ℕ) → ranges_overlap lo hi from to ≡ false → reads t' lo hi ≡ reads t lo hi)
      → Coherent t dirty m callers
      → Coherent t' ((from, to) ∷ dirty) m callers
  write-Coherent t t' dirty m callers from to law c =
      IsCoherent-keep reads t t' dirty ((from, to) ∷ dirty) m.entries m.next_id m.cache m.cache
        callers c.keyed (λ e h. h)
        (λ e at_e clean. (clean.1, sym (law (m.entries e).from (m.entries e).to clean.0))) c

  pub clear-Coherent :
      (t : T) (dirty : List (ℕ × ℕ)) (m : LotteryManager A) (callers : ℕ → Caller A)
      → Coherent t dirty m callers
      → Coherent t [] (invalidate_all m) callers
  unfolding invalidate_all
  clear-Coherent t dirty m callers c =
      IsCoherent-keep reads t t dirty [] m.entries m.next_id m.cache [] callers tt
        (λ e h. absurd (ground arith)) (λ e h clean. absurd (ground arith)) c
