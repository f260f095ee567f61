-- ===== src/Manager/Callers/Knows.antt =====
-- The archives in the map of LotteryManager in internal/services/lottery_manager.go, while calls of
-- Archive, writes of draws and invalidations run side by side.
use mathlib.Core.Path.{subst}
use stat_tree_server.Base.{ℕ, ◌<◌, ◌≡◌, ap, ◌∙◌, false, List, some, All}
use stat_tree_server.Manager.{ranges_overlap}
use stat_tree_server.Manager.Keys.{IsKeyed}
use stat_tree_server.Manager.Cache.{Key, CacheEntry, built, failed, window_key}
use stat_tree_server.Manager.Callers.{
  Caller, idle, calling, holding, selecting, listening, stranded, hitting, building, finishing,
  returned,
}
use stat_tree_server.Manager.Callers.Maps.{Cached}

-- The window meets none of the ranges.
abbrev pub IsClean : ℕ → ℕ → List (ℕ × ℕ) → Type 0
IsClean lo hi dirty = All (λ (a, b). ranges_overlap lo hi a b ≡ false) dirty

-- The entry was made for the window.
pub record IsOf {A : Type 0} (entries : ℕ → CacheEntry A) (next_id e from to : ℕ) : Type 0 where
  pub known : e < next_id
  pub at_from : (entries e).from ≡ from
  pub at_to : (entries e).to ≡ to
  pub at_key : (entries e).key ≡ window_key from to

module _ {A T : Type 0} (reads : T → ℕ → ℕ → A) where
  -- What holds of a call that loads: its entry is for its window, and what it has built is up to
  -- date, if the entry is in the map and its window meets no dirty range.
  abbrev pub Knows : T → List (ℕ × ℕ) → (ℕ → CacheEntry A) → ℕ → List (Key × ℕ) → Caller A → Type 0
  Knows t dirty entries n cache (building e from to) = IsOf entries n e from to
  Knows t dirty entries n cache (finishing e from to (built a)) =
      IsOf entries n e from to × (Cached e cache → IsClean from to dirty → a ≡ reads t from to)
  Knows t dirty entries n cache (finishing e from to (failed text)) = IsOf entries n e from to
  Knows t dirty entries n cache _ = Unit

  pub record IsCoherent (t : T) (dirty : List (ℕ × ℕ)) (entries : ℕ → CacheEntry A) (next_id : ℕ)
      (cache : List (Key × ℕ)) (callers : ℕ → Caller A) : Type 0 where
    pub keyed : IsKeyed (λ e. (entries e).key) cache
    pub known : (e : ℕ) → Cached e cache → e < next_id
    pub current :
        (e : ℕ)
        → Cached e cache
        → IsClean (entries e).from (entries e).to dirty
        → (entries e).loading ≡ false
        → (entries e).arch ≡ some (reads t (entries e).from (entries e).to)
    pub knows : (i : ℕ) → Knows t dirty entries next_id cache (callers i)

  -- What a loading call knows survives a step that keeps the windows of the entries and that leaves
  -- no window clean of which the reading has changed.
  pub Knows-map :
      (t t' : T) (dirty dirty' : List (ℕ × ℕ)) (f f' : ℕ → CacheEntry A) (n n' : ℕ)
      (cache cache' : List (Key × ℕ))
      → ((e from to : ℕ) → IsOf f n e from to → IsOf f' n' e from to)
      → ((e from to : ℕ) → IsOf f n e from to → Cached e cache' → Cached e cache)
      → ((e from to : ℕ)
          → IsOf f n e from to
          → Cached e cache'
          → IsClean from to dirty'
          → IsClean from to dirty × (reads t from to ≡ reads t' from to))
      → (p : Caller A) → Knows t dirty f n cache p
      → Knows t' dirty' f' n' cache' p
  Knows-map t t' d d' f f' n n' c c' keep less back idle h = tt
  Knows-map t t' d d' f f' n n' c c' keep less back (calling from to) h = tt
  Knows-map t t' d d' f f' n n' c c' keep less back (holding e) h = tt
  Knows-map t t' d d' f f' n n' c c' keep less back (selecting e) h = tt
  Knows-map t t' d d' f f' n n' c c' keep less back (listening e) h = tt
  Knows-map t t' d d' f f' n n' c c' keep less back stranded h = tt
  Knows-map t t' d d' f f' n n' c c' keep less back (hitting e) h = tt
  Knows-map t t' d d' f f' n n' c c' keep less back (building e from to) h = keep e from to h
  Knows-map t t' d d' f f' n n' c c' keep less back (finishing e from to (built a)) h = (
    keep e from to h.0,
    λ at_e clean.
        let (was_clean, eq) = back e from to h.0 at_e clean in
        h.1 (less e from to h.0 at_e) was_clean ∙ eq,
  )
  Knows-map t t' d d' f f' n n' c c' keep less back (finishing e from to (failed text)) h =
      keep e from to h
  Knows-map t t' d d' f f' n n' c c' keep less back (returned a) h = tt

  -- A step that leaves the entries alone keeps the invariant, if each entry that it leaves in the
  -- map and clean was so before, and reads the same.
  pub IsCoherent-keep :
      (t t' : T) (dirty dirty' : List (ℕ × ℕ)) (f : ℕ → CacheEntry A) (n : ℕ)
      (cache cache' : List (Key × ℕ)) (callers : ℕ → Caller A)
      → IsKeyed (λ e. (f e).key) cache'
      → ((e : ℕ) → Cached e cache' → Cached e cache)
      → ((e : ℕ)
          → Cached e cache'
          → IsClean (f e).from (f e).to dirty'
          → IsClean (f e).from (f e).to dirty
            × (reads t (f e).from (f e).to ≡ reads t' (f e).from (f e).to))
      → IsCoherent t dirty f n cache callers
      → IsCoherent t' dirty' f n cache' callers
  IsCoherent-keep t t' dirty dirty' f n cache cache' callers keyed less back c = record {
    keyed = keyed;
    known = λ e at_e. c.known e (less e at_e);
    current = λ e at_e clean idle.
        let (was, eq) = back e at_e clean in c.current e (less e at_e) was idle ∙ ap some eq;
    knows = λ i.
        Knows-map t t' dirty dirty' f f n n cache cache' (λ e from to o. o) (λ e from to o. less e)
          (λ e from to o at_e clean.
            subst (λ lo. IsClean lo to dirty × (reads t lo to ≡ reads t' lo to)) o.at_from
              (subst
                (λ hi.
                  IsClean (f e).from hi dirty × (reads t (f e).from hi ≡ reads t' (f e).from hi))
                o.at_to (back e at_e (rw (o.at_from, o.at_to) clean))))
          (callers i) (c.knows i);
  }
