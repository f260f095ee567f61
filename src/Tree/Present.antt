-- ===== src/Tree/Present.antt =====
-- The groups of a list that a count function finds, as entries in the list's order: what
-- CollectNodes and AnalyzeArray report (internal/lottery-tree/tree.go, lottery_archive.go), seen
-- from the counts.
use mathlib.Core.List.{append_assoc}
use stat_tree_server.Base.{
  ℕ, ◌<◌, ◌≡◌, refl, List, [], ◌∷◌, ◌++◌, map, arith, ltb, if◌then◌else◌, All, Bool-cases, inl, inr,
}
use stat_tree_server.Tree.{NodeEntry}

-- The entries for the groups that `f` counts at least once, each behind the prefix.
unfoldable pub present : (List ℕ → ℕ) → List ℕ → List (List ℕ) → List NodeEntry
present f prefix [] = []
present f prefix (p ∷ ps) =
    let rest = present f prefix ps in
    if ltb 0 (f p) then (record { numbers = prefix ++ p; count = f p }) ∷ rest else rest

pub present-append :
    (f : List ℕ → ℕ) (prefix : List ℕ) (ps qs : List (List ℕ))
    → present f prefix (ps ++ qs) ≡ present f prefix ps ++ present f prefix qs
unfolding present
present-append f prefix [] qs = refl
present-append f prefix (p ∷ ps) qs = ground (arith, present-append f prefix ps qs)

pub present-map-cons :
    (f : List ℕ → ℕ) (prefix : List ℕ) (x : ℕ) (ps : List (List ℕ))
    → present f prefix (map (◌∷◌ x) ps) ≡ present (λ p. f (x ∷ p)) (prefix ++ x ∷ []) ps
unfolding present
present-map-cons f prefix x [] = refl
present-map-cons f prefix x (p ∷ ps) =
    ground (arith, present-map-cons f prefix x ps, append_assoc prefix (x ∷ []) p)

pub present-absent :
    (f : List ℕ → ℕ) (prefix : List ℕ) (ps : List (List ℕ))
    → All (λ p. f p ≡ 0) ps
    → present f prefix ps ≡ []
unfolding present
present-absent f prefix [] h = refl
present-absent f prefix (p ∷ ps) h = ground (arith, present-absent f prefix ps h.1)

pub present-agree :
    (f g : List ℕ → ℕ) (prefix : List ℕ) (ps : List (List ℕ))
    → All (λ p. f p ≡ g p) ps
    → present f prefix ps ≡ present g prefix ps
unfolding present
present-agree f g prefix [] h = refl
present-agree f g prefix (p ∷ ps) h = ground (arith, present-agree f g prefix ps h.1, h.0)

pub present-All {κ} :
    (P : NodeEntry → Type κ) (f : List ℕ → ℕ) (prefix : List ℕ) (ps : List (List ℕ))
    → All (λ p. 0 < f p → P (record { numbers = prefix ++ p; count = f p })) ps
    → All P (present f prefix ps)
unfolding present
present-All P f prefix [] h = tt
present-All P f prefix (p ∷ ps) h = elim (Bool-cases (ltb 0 (f p))) [
  | inl e ↦ rw e (h.0 (ground arith), present-All P f prefix ps h.1)
  | inr e ↦ rw e (present-All P f prefix ps h.1)
]
