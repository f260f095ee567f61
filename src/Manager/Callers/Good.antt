-- ===== src/Manager/Callers/Good.antt =====
-- The entries of LotteryManager in internal/services/lottery_manager.go that a call has found, while
-- the table of draws does not change.
use mathlib.Core.Path.{subst}
use mathlib.Core.Option.{some-injective, none-ne-some}
use stat_tree_server.Base.{
  ℕ, ◌<◌, ◌≤◌, ◌≡◌, ◌≢◌, ◌⊎◌, sym, ap, ◌∙◌, false, List, [], Option, none, some, arith, ◌==◌,
  Bool-cases, inl, inr,
}
use stat_tree_server.Manager.Cache.{Key, CacheEntry, built, failed, store}
use stat_tree_server.Manager.Sections.{store_self}
use stat_tree_server.Manager.Callers.{
  Caller, idle, calling, holding, selecting, listening, stranded, hitting, building, finishing,
  returned, update,
}
use stat_tree_server.Manager.Callers.Maps.{Cached}
use stat_tree_server.Manager.Callers.Knows.{Knows, IsCoherent}
use stat_tree_server.Manager.Callers.Loads.{store_other}

-- The archive that a call has built for an entry.
abbrev pub result_of : {A : Type 0} → Caller A → Option (ℕ × A)
result_of idle = none
result_of (calling from to) = none
result_of (holding e) = none
result_of (selecting e) = none
result_of (listening e) = none
result_of stranded = none
result_of (hitting e) = none
result_of (building e from to) = none
result_of (finishing e from to (built a)) = some (e, a)
result_of (finishing e from to (failed text)) = none
result_of (returned a) = none

module _ {A T : Type 0} (reads : T → ℕ → ℕ → A) (t : T) where
  -- The archive of the entry is none, or up to date.
  abbrev pub IsFresh : CacheEntry A → Type 0
  IsFresh r = (r.arch ≡ none) ⊎ (r.arch ≡ some (reads t r.from r.to))

  -- What is or will be in the entry is up to date.
  pub record IsGood (entries : ℕ → CacheEntry A) (next_id : ℕ) (callers : ℕ → Caller A) (e : ℕ)
      : Type 0 where
    pub known : e < next_id
    pub fresh : (entries e).loading ≡ false → IsFresh (entries e)
    pub coming :
        (j : ℕ) (a : A)
        → result_of (callers j) ≡ some (e, a)
        → a ≡ reads t (entries e).from (entries e).to

  result-fresh :
      (entries : ℕ → CacheEntry A) (n : ℕ) (cache : List (Key × ℕ)) (p : Caller A) (e : ℕ) (a : A)
      → Knows reads t [] entries n cache p
      → Cached e cache
      → result_of p ≡ some (e, a)
      → a ≡ reads t (entries e).from (entries e).to
  result-fresh entries n cache (finishing x from to (built b)) e a (o, up_to_date) at_e h =
      let pair = some-injective _ _ h in
      let x_e : x ≡ e = ap (λ q. q.0) pair in
      sym (ap (λ q. q.1) pair)
      ∙ up_to_date (subst (λ y. Cached y cache) (sym x_e) at_e) tt
      ∙ ap (λ lo. reads t lo to) (sym o.at_from)
      ∙ ap (reads t (entries x).from) (sym o.at_to)
      ∙ ap (λ y. reads t (entries y).from (entries y).to) x_e
  result-fresh entries n cache (finishing x from to (failed text)) e a k at_e h =
      absurd (none-ne-some _ h)
  result-fresh entries n cache idle e a k at_e h = absurd (none-ne-some _ h)
  result-fresh entries n cache (calling from to) e a k at_e h = absurd (none-ne-some _ h)
  result-fresh entries n cache (holding x) e a k at_e h = absurd (none-ne-some _ h)
  result-fresh entries n cache (selecting x) e a k at_e h = absurd (none-ne-some _ h)
  result-fresh entries n cache (listening x) e a k at_e h = absurd (none-ne-some _ h)
  result-fresh entries n cache stranded e a k at_e h = absurd (none-ne-some _ h)
  result-fresh entries n cache (hitting x) e a k at_e h = absurd (none-ne-some _ h)
  result-fresh entries n cache (building x from to) e a k at_e h = absurd (none-ne-some _ h)
  result-fresh entries n cache (returned b) e a k at_e h = absurd (none-ne-some _ h)

  -- An entry of the map is good while no range is dirty.
  pub cached-IsGood :
      (entries : ℕ → CacheEntry A) (n : ℕ) (cache : List (Key × ℕ)) (callers : ℕ → Caller A) (e : ℕ)
      → IsCoherent reads t [] entries n cache callers
      → Cached e cache
      → IsGood entries n callers e
  cached-IsGood entries n cache callers e c at_e = record {
    known = c.known e at_e;
    fresh = λ over. inr (c.current e at_e tt over);
    coming = λ j a h. result-fresh entries n cache (callers j) e a (c.knows j) at_e h;
  }

  coming-update :
      (callers : ℕ → Caller A) (i : ℕ) (p : Caller A) (e : ℕ) (r : CacheEntry A)
      → ((j : ℕ) (a : A) → result_of (callers j) ≡ some (e, a) → a ≡ reads t r.from r.to)
      → ((a : A) → result_of p ≡ some (e, a) → a ≡ reads t r.from r.to)
      → (j : ℕ) (a : A) → result_of (update callers i p j) ≡ some (e, a)
      → a ≡ reads t r.from r.to
  coming-update callers i p e r h hp j a = elim (Bool-cases (j == i)) [
    | inl same ↦ rw same (hp a)
    | inr other ↦ rw other (h j a)
  ]

  -- A step of a call that leaves the entries alone keeps a good entry, if what it has built is good.
  pub still-IsGood :
      (entries : ℕ → CacheEntry A) (n : ℕ) (callers : ℕ → Caller A) (i : ℕ) (p : Caller A) (e : ℕ)
      → ((a : A) → result_of p ≡ some (e, a) → a ≡ reads t (entries e).from (entries e).to)
      → IsGood entries n callers e
      → IsGood entries n (update callers i p) e
  still-IsGood entries n callers i p e hp g = record {
    known = g.known;
    fresh = g.fresh;
    coming = coming-update callers i p e (entries e) g.coming hp;
  }

  -- A write to another entry keeps a good entry.
  pub other-IsGood :
      (entries : ℕ → CacheEntry A) (n n' : ℕ) (callers : ℕ → Caller A) (i x : ℕ) (v : CacheEntry A)
      (p : Caller A) (e : ℕ)
      → e ≢ x
      → n ≤ n'
      → result_of p ≡ none
      → IsGood entries n callers e
      → IsGood (store entries x v) n' (update callers i p) e
  other-IsGood entries n n' callers i x v p e other more no_result g =
      let same = store_other entries x v e other in
      record {
        known = omega (arith, g.known);
        fresh = subst (λ r. r.loading ≡ false → IsFresh r) (sym same) g.fresh;
        coming =
            subst
              (λ r.
                (j : ℕ) (a : A)
                → result_of (update callers i p j) ≡ some (e, a)
                → a ≡ reads t r.from r.to)
              (sym same)
              (coming-update callers i p e (entries e) g.coming
                (λ a h. absurd (none-ne-some _ (sym no_result ∙ h))));
      }

  -- The end of its load keeps a good entry.
  pub end-IsGood :
      (entries : ℕ → CacheEntry A) (n : ℕ) (callers : ℕ → Caller A) (i : ℕ) (v : CacheEntry A)
      (p : Caller A) (e : ℕ)
      → (v.from ≡ (entries e).from) × (v.to ≡ (entries e).to)
      → IsFresh v
      → result_of p ≡ none
      → IsGood entries n callers e
      → IsGood (store entries e v) n (update callers i p) e
  end-IsGood entries n callers i v p e (at_from, at_to) now no_result g =
      let mine = store_self entries e v in
      record {
        known = g.known;
        fresh = subst (λ r. r.loading ≡ false → IsFresh r) (sym mine) (λ over. now);
        coming =
            subst
              (λ r.
                (j : ℕ) (a : A)
                → result_of (update callers i p j) ≡ some (e, a)
                → a ≡ reads t r.from r.to)
              (sym mine)
              (coming-update callers i p e v
                (λ j a h.
                  g.coming j a h
                  ∙ ap (λ lo. reads t lo (entries e).to) (sym at_from)
                  ∙ ap (reads t v.from) (sym at_to))
                (λ a h. absurd (none-ne-some _ (sym no_result ∙ h))));
      }
