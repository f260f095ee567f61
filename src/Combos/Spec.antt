-- ===== src/Combos/Spec.antt =====
-- The abstract view of a choice of k numbers: all subsequences of length k, in lexicographic order
-- of the places. Specification of GenerateCombinations in internal/lottery-tree/lottery_archive.go.
use stat_tree_server.Base.{
  ℕ, zero, suc, ◌+◌, ◌≡◌, refl, ap, List, [], ◌∷◌, ◌++◌, map, arith, length, All, All-append,
  All-map, length-append,
}

module _ {ℓ} {A : Type ℓ} where
  unfoldable pub combos : ℕ → List A → List (List A)
  combos zero xs = [] ∷ []
  combos (suc k) [] = []
  combos (suc k) (x ∷ xs) = map (◌∷◌ x) (combos k xs) ++ combos (suc k) xs

  pub length-map {κ} : {B : Type κ} (f : A → B) (xs : List A) → length (map f xs) ≡ length xs
  length-map f [] = refl
  length-map f (x ∷ xs) = ap suc (length-map f xs)

pub map-map' {ℓ κ μ} :
    {A : Type ℓ} {B : Type κ} {C : Type μ} (g : B → C) (f : A → B) (xs : List A)
    → map g (map f xs) ≡ map (λ x. g (f x)) xs
map-map' g f [] = refl
map-map' g f (x ∷ xs) = ap (◌∷◌ (g (f x))) (map-map' g f xs)

-- i, i + 1, …, of the given length
unfoldable pub range : ℕ → ℕ → List ℕ
range i zero = []
range i (suc n) = i ∷ range (suc i) n

pub length-range : (i n : ℕ) → length (range i n) ≡ n
unfolding range
length-range i zero = refl
length-range i (suc n) = ap suc (length-range (suc i) n)

-- Pascal's triangle.
unfoldable pub choose : ℕ → ℕ → ℕ
choose n zero = 1
choose zero (suc k) = 0
choose (suc n) (suc k) = choose n k + choose n (suc k)

module _ {ℓ} {A : Type ℓ} where
  -- There are as many combinations as Pascal's triangle says.
  pub length-combos : (k : ℕ) (xs : List A) → length (combos k xs) ≡ choose (length xs) k
  unfolding combos choose
  length-combos zero [] = refl
  length-combos zero (x ∷ xs) = refl
  length-combos (suc k) [] = refl
  length-combos (suc k) (x ∷ xs) = omega (
    arith,
    length-append (map (◌∷◌ x) (combos k xs)) (combos (suc k) xs),
    length-map (◌∷◌ x) (combos k xs),
    length-combos k xs,
    length-combos (suc k) xs,
  )

  pub All-map-cons {κ} :
      (P : List A → Type κ) (x : A) (ps : List (List A))
      → All (λ p. P (x ∷ p)) ps
      → All P (map (◌∷◌ x) ps)
  All-map-cons P x [] h = tt
  All-map-cons P x (p ∷ ps) h = (h.0, All-map-cons P x ps h.1)

  -- Each combination has k elements.
  pub combos-length : (k : ℕ) (xs : List A) → All (λ p. length p ≡ k) (combos k xs)
  unfolding combos
  combos-length zero xs = (refl, tt)
  combos-length (suc k) [] = tt
  combos-length (suc k) (x ∷ xs) =
      All-append _ _ _
        (All-map-cons _ x _ (All-map _ _ (λ p e. ap suc e) (combos k xs) (combos-length k xs)))
        (combos-length (suc k) xs)
