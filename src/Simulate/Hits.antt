-- ===== src/Simulate/Hits.antt =====
-- How many combinations of a form hold a given number of drawn numbers: the matches that
-- internal/services/simulate.go counts.
use mathlib.Core.Path.{ap₂}
use stat_tree_server.Base.{
  ℕ, zero, suc, ◌+◌, ◌*◌, ◌≤◌, ◌<◌, ◌≡◌, refl, ◌∙◌, true, false, List, [], ◌∷◌, ◌++◌, map, arith,
  length, elem, ◌==◌, if◌then◌else◌, All, Bool-cases, inl, inr,
}
use stat_tree_server.Combos.Spec.{combos, choose, combos-length}
use stat_tree_server.Simulate.{matches}

-- How many of the combinations hold exactly `m` drawn numbers.
unfoldable pub with_matches : List ℕ → ℕ → List (List ℕ) → ℕ
with_matches winning m [] = 0
with_matches winning m (c ∷ cs) =
    (if matches winning c == m then 1 else 0) + with_matches winning m cs

with_matches-append :
    (winning : List ℕ) (m : ℕ) (cs ds : List (List ℕ))
    → with_matches winning m (cs ++ ds) ≡ with_matches winning m cs + with_matches winning m ds
unfolding with_matches
with_matches-append winning m [] ds = omega arith
with_matches-append winning m (c ∷ cs) ds = omega (arith, with_matches-append winning m cs ds)

matches-le : (winning c : List ℕ) → matches winning c ≤ length c
unfolding matches
matches-le winning [] = omega arith
matches-le winning (n ∷ c) = ground (arith, matches-le winning c)

too_many :
    (winning : List ℕ) (m k : ℕ) (cs : List (List ℕ))
    → k < m
    → All (λ c. length c ≡ k) cs
    → with_matches winning m cs ≡ 0
unfolding with_matches
too_many winning m k [] h a = refl
too_many winning m k (c ∷ cs) h a =
    ground (arith, matches-le winning c, a.0, too_many winning m k cs h a.1)

-- A first number that the draw holds is one match more.
with_hit :
    (winning : List ℕ) (x m : ℕ) (cs : List (List ℕ))
    → elem x winning ≡ true
    → with_matches winning (suc m) (map (◌∷◌ x) cs) ≡ with_matches winning m cs
unfolding with_matches matches
with_hit winning x m [] e = refl
with_hit winning x m (c ∷ cs) e = rw e (ground (arith, with_hit winning x m cs e))

no_miss :
    (winning : List ℕ) (x : ℕ) (cs : List (List ℕ))
    → elem x winning ≡ true
    → with_matches winning 0 (map (◌∷◌ x) cs) ≡ 0
unfolding with_matches matches
no_miss winning x [] e = refl
no_miss winning x (c ∷ cs) e = rw e (ground (arith, no_miss winning x cs e))

with_miss :
    (winning : List ℕ) (x m : ℕ) (cs : List (List ℕ))
    → elem x winning ≡ false
    → with_matches winning m (map (◌∷◌ x) cs) ≡ with_matches winning m cs
unfolding with_matches matches
with_miss winning x m [] e = refl
with_miss winning x m (c ∷ cs) e = rw e (ground (arith, with_miss winning x m cs e))

choose_zero : (n : ℕ) → choose n 0 ≡ 1
unfolding choose
choose_zero zero = refl
choose_zero (suc n) = refl

with_matches_none : (winning : List ℕ) (xs : List ℕ) → with_matches winning 0 (combos 0 xs) ≡ 1
unfolding with_matches matches combos
with_matches_none winning [] = refl
with_matches_none winning (x ∷ xs) = refl

matches-hit :
    (winning : List ℕ) (x : ℕ) (xs : List ℕ)
    → elem x winning ≡ true
    → matches winning (x ∷ xs) ≡ suc (matches winning xs)
unfolding matches
matches-hit winning x xs e = rw e (omega arith)

matches-miss :
    (winning : List ℕ) (x : ℕ) (xs : List ℕ)
    → elem x winning ≡ false
    → matches winning (x ∷ xs) ≡ matches winning xs
unfolding matches
matches-miss winning x xs e = rw e (omega arith)

split_hit :
    (winning : List ℕ) (x m k : ℕ) (xs : List ℕ)
    → elem x winning ≡ true
    → with_matches winning (suc m) (combos (suc k) (x ∷ xs))
      ≡ with_matches winning m (combos k xs) + with_matches winning (suc m) (combos (suc k) xs)
unfolding combos
split_hit winning x m k xs e = omega (
  arith,
  with_matches-append winning (suc m) (map (◌∷◌ x) (combos k xs)) (combos (suc k) xs),
  with_hit winning x m (combos k xs) e,
)

split_no_miss :
    (winning : List ℕ) (x k : ℕ) (xs : List ℕ)
    → elem x winning ≡ true
    → with_matches winning 0 (combos (suc k) (x ∷ xs)) ≡ with_matches winning 0 (combos (suc k) xs)
unfolding combos
split_no_miss winning x k xs e = omega (
  arith,
  with_matches-append winning 0 (map (◌∷◌ x) (combos k xs)) (combos (suc k) xs),
  no_miss winning x (combos k xs) e,
)

split_miss :
    (winning : List ℕ) (x m k : ℕ) (xs : List ℕ)
    → elem x winning ≡ false
    → with_matches winning m (combos (suc k) (x ∷ xs))
      ≡ with_matches winning m (combos k xs) + with_matches winning m (combos (suc k) xs)
unfolding combos
split_miss winning x m k xs e = omega (
  arith,
  with_matches-append winning m (map (◌∷◌ x) (combos k xs)) (combos (suc k) xs),
  with_miss winning x m (combos k xs) e,
)

choose_step : (n k : ℕ) → choose (suc n) (suc k) ≡ choose n k + choose n (suc k)
unfolding choose
choose_step n k = refl

distrib : (a b c : ℕ) → (a + b) * c ≡ a * c + b * c
distrib a b c = grind arith

distrib' : (a b c : ℕ) → c * (a + b) ≡ c * a + c * b
distrib' a b c = grind arith

abbrev Counted : List ℕ → List ℕ → ℕ → Type 0
Counted winning xs l =
    (m j k : ℕ)
    → k ≡ m + j
    → with_matches winning m (combos k xs) ≡ choose (matches winning xs) m * choose l j

Counted-nil : (winning : List ℕ) (l : ℕ) → l ≡ 0 → Counted winning [] l
unfolding combos choose with_matches matches
Counted-nil winning l e zero zero zero h = rw (choose_zero l) refl
Counted-nil winning l e zero (suc j) zero h = absurd (omega arith)
Counted-nil winning l e zero zero (suc k) h = absurd (omega arith)
Counted-nil winning l e zero (suc j) (suc k) h = rw e refl
Counted-nil winning l e (suc m) j zero h = absurd (omega arith)
Counted-nil winning l e (suc m) j (suc k) h = omega arith

Counted-hit :
    (winning : List ℕ) (x : ℕ) (xs : List ℕ) (l : ℕ)
    → elem x winning ≡ true
    → Counted winning xs l
    → Counted winning (x ∷ xs) l
Counted-hit winning x xs l e ih zero zero zero h =
    with_matches_none winning (x ∷ xs)
    ∙ rw (choose_zero (matches winning (x ∷ xs)), choose_zero l) refl
Counted-hit winning x xs l e ih zero zero (suc k) h = absurd (omega arith)
Counted-hit winning x xs l e ih zero (suc j) zero h = absurd (omega arith)
Counted-hit winning x xs l e ih zero (suc j) (suc k) h =
    rw (choose_zero (matches winning (x ∷ xs)), ← choose_zero (matches winning xs))
      (split_no_miss winning x k xs e ∙ ih 0 (suc j) (suc k) h)
Counted-hit winning x xs l e ih (suc m) j zero h = absurd (omega arith)
Counted-hit winning x xs l e ih (suc m) j (suc k) h =
    rw
      (
        matches-hit winning x xs e,
        choose_step (matches winning xs) m,
        distrib (choose (matches winning xs) m) (choose (matches winning xs) (suc m)) (choose l j),
      )
      (split_hit winning x m k xs e ∙ ap₂ ◌+◌ (ih m j k (omega arith)) (ih (suc m) j (suc k) h))

Counted-miss :
    (winning : List ℕ) (x : ℕ) (xs : List ℕ) (l : ℕ)
    → elem x winning ≡ false
    → Counted winning xs l
    → Counted winning (x ∷ xs) (suc l)
Counted-miss winning x xs l e ih zero zero zero h =
    with_matches_none winning (x ∷ xs)
    ∙ rw (choose_zero (matches winning (x ∷ xs)), choose_zero (suc l)) refl
Counted-miss winning x xs l e ih zero zero (suc k) h = absurd (omega arith)
Counted-miss winning x xs l e ih (suc m) j zero h = absurd (omega arith)
Counted-miss winning x xs l e ih zero (suc j) zero h = absurd (omega arith)
Counted-miss winning x xs l e ih (suc m) zero (suc k) h =
    rw (matches-miss winning x xs e, choose_zero (suc l), ← choose_zero l)
      (split_miss winning x (suc m) k xs e
        ∙ ap₂ ◌+◌ (too_many winning (suc m) k _ (omega arith) (combos-length k xs))
            (ih (suc m) 0 (suc k) h)
        ∙ omega arith)
Counted-miss winning x xs l e ih m (suc j) (suc k) h =
    rw
      (
        matches-miss winning x xs e,
        choose_step l j,
        distrib' (choose l j) (choose l (suc j)) (choose (matches winning xs) m),
      )
      (split_miss winning x m k xs e ∙ ap₂ ◌+◌ (ih m j k (omega arith)) (ih m (suc j) (suc k) h))

miss_case :
    (winning : List ℕ) (x : ℕ) (xs : List ℕ) (l : ℕ)
    → matches winning (x ∷ xs) + l ≡ suc (length xs)
    → elem x winning ≡ false
    → ((l' : ℕ) → matches winning xs + l' ≡ length xs → Counted winning xs l')
    → Counted winning (x ∷ xs) l
miss_case winning x xs zero e miss ih =
    absurd (omega (arith, matches-miss winning x xs miss, matches-le winning xs))
miss_case winning x xs (suc l) e miss ih =
    Counted-miss winning x xs l miss (ih l (omega (arith, matches-miss winning x xs miss)))

-- If w numbers of a form are drawn and l are not, choose w m * choose l j of its combinations of
-- m + j numbers hold exactly m drawn numbers.
pub with_matches-combos :
    (winning xs : List ℕ) (l : ℕ)
    → matches winning xs + l ≡ length xs
    → (m j k : ℕ) → k ≡ m + j
    → with_matches winning m (combos k xs) ≡ choose (matches winning xs) m * choose l j
with_matches-combos winning [] l e = Counted-nil winning l (omega (arith, matches-le winning []))
with_matches-combos winning (x ∷ xs) l e = elim (Bool-cases (elem x winning)) [
  | inl hit ↦
      Counted-hit winning x xs l hit
        (with_matches-combos winning xs l (omega (arith, matches-hit winning x xs hit)))
  | inr miss ↦ miss_case winning x xs l e miss (λ l' e'. with_matches-combos winning xs l' e')
]
