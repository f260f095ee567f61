-- ===== src/Generator/Swap.antt =====
-- The exchange of two entries of tries in internal/lottery-tree/form_generator.go.
use stat_tree_server.Base.{
  ℕ, zero, suc, ◌+◌, ◌≤◌, ◌<◌, ◌≡◌, refl, sym, ap, ◌∙◌, List, [], ◌∷◌, some, arith, length,
  length-set, get_elem?, set, take, ◌==◌, if◌then◌else◌, eq→==, ne→==,
}
use mathlib.Core.Option.{some-injective, none-ne-some}
use mathlib.Core.Path.{ap₂}
use native.Mathlib.Decide.{ℕ_discrete}
use stat_tree_server.Generator.{ok, swap}

module _ {ℓ} {A : Type ℓ} where
  pub get_elem?-lt : (a : List A) (i : ℕ) → i < length a → (x : A) × (get_elem? a i ≡ some x)
  get_elem?-lt [] i h = absurd (omega arith)
  get_elem?-lt (x ∷ a) zero h = (x, refl)
  get_elem?-lt (x ∷ a) (suc i) h = get_elem?-lt a i (omega arith)

  get_elem?-set :
      (a : List A) (i k : ℕ) (v : A)
      → i < length a
      → get_elem? (set a i v) k ≡ (if k == i then some v else get_elem? a k)
  get_elem?-set [] i k v h = absurd (omega arith)
  get_elem?-set (x ∷ a) zero zero v h = refl
  get_elem?-set (x ∷ a) zero (suc k) v h = rw (ne→== (suc k) 0 (omega arith)) refl
  get_elem?-set (x ∷ a) (suc i) zero v h = rw (ne→== 0 (suc i) (omega arith)) refl
  get_elem?-set (x ∷ a) (suc i) (suc k) v h =
      get_elem?-set a i k v (omega arith)
      ∙ ap (λ b. if b then some v else get_elem? a k) (ground arith)

  list_ext : (a b : List A) → ((k : ℕ) → get_elem? a k ≡ get_elem? b k) → a ≡ b
  list_ext [] [] same = refl
  list_ext [] (y ∷ b) same = absurd (none-ne-some _ (same 0))
  list_ext (x ∷ a) [] same = absurd (none-ne-some _ (sym (same 0)))
  list_ext (x ∷ a) (y ∷ b) same =
      ap₂ ◌∷◌ (some-injective _ _ (same 0)) (list_ext a b (λ k. same (suc k)))

  take-set : (a : List A) (n i : ℕ) (v : A) → n ≤ i → take n (set a i v) ≡ take n a
  take-set a zero i v h = refl
  take-set [] (suc n) i v h = refl
  take-set (x ∷ a) (suc n) zero v h = absurd (omega arith)
  take-set (x ∷ a) (suc n) (suc i) v h = ap (◌∷◌ x) (take-set a n i v (omega arith))

-- How often a number stands in a list.
abbrev pub times : ℕ → List ℕ → ℕ
times x [] = 0
times x (y ∷ ys) = (if x == y then 1 else 0) + times x ys

times-set :
    (z : ℕ) (a : List ℕ) (i x v : ℕ)
    → get_elem? a i ≡ some x
    → times z (set a i v) + (if z == x then 1 else 0) ≡ times z a + (if z == v then 1 else 0)
times-set z [] i x v h = absurd (none-ne-some _ h)
times-set z (y ∷ a) zero x v h = let e : y ≡ x = some-injective _ _ h in rw e (omega arith)
times-set z (y ∷ a) (suc i) x v h = omega (arith, times-set z a i x v h)

-- What the exchange makes of `a`.
pub record IsSwapped (a : List ℕ) (i j : ℕ) (b : List ℕ) : Type 0 where
  pub same_length : length b ≡ length a
  pub rearranged : (z : ℕ) → times z b ≡ times z a
  pub prefix_kept : (n : ℕ) → n ≤ i → n ≤ j → take n b ≡ take n a
  pub moved : get_elem? b i ≡ get_elem? a j
  pub undone : swap b i j ≡ ok a

swap-known :
    (a : List ℕ) (i j x y : ℕ)
    → get_elem? a i ≡ some x
    → get_elem? a j ≡ some y
    → swap a i j ≡ ok (set (set a i y) j x)
unfolding swap
swap-known a i j x y hx hy = rw (hx, hy) refl

module _ (a : List ℕ) (i j x y : ℕ) (hi : i < length a) (hj : j < length a)
    (hx : get_elem? a i ≡ some x) (hy : get_elem? a j ≡ some y) where
  get_elem?-exchanged :
      (k : ℕ)
      → get_elem? (set (set a i y) j x) k
        ≡ (if k == j then some x else if k == i then some y else get_elem? a k)
  get_elem?-exchanged k =
      get_elem?-set (set a i y) j k x (omega (arith, length-set a i y))
      ∙ ap (λ o. if k == j then some x else o) (get_elem?-set a i k y hi)

  at_first : get_elem? (set (set a i y) j x) i ≡ some y
  at_first = elim (ℕ_discrete i j) [
    | yes e ↦ get_elem?-exchanged i ∙ rw (eq→== i j e) (sym hx ∙ ap (get_elem? a) e ∙ hy)
    | no n ↦ get_elem?-exchanged i ∙ rw (ne→== i j n, eq→== i i refl) refl
  ]

  at_second : get_elem? (set (set a i y) j x) j ≡ some x
  at_second = get_elem?-exchanged j ∙ rw (eq→== j j refl) refl

  still : get_elem? (set a i y) j ≡ some y
  still = elim (ℕ_discrete j i) [
    | yes e ↦ get_elem?-set a i j y hi ∙ rw (eq→== j i e) refl
    | no n ↦ get_elem?-set a i j y hi ∙ rw (ne→== j i n) hy
  ]

  back : set (set (set (set a i y) j x) i x) j y ≡ a
  back = list_ext _ _ λ k.
      get_elem?-set _ j k y (
        omega (
          arith,
          length-set a i y,
          length-set (set a i y) j x,
          length-set (set (set a i y) j x) i x,
        ))
      ∙ ap (λ o. if k == j then some y else o)
          (get_elem?-set _ i k x (omega (arith, length-set a i y, length-set (set a i y) j x)))
      ∙ ap (λ o. if k == j then some y else if k == i then some x else o) (get_elem?-exchanged k)
      ∙ same k
    where
      same :
          (k : ℕ)
          → (if k == j
              then some y
              else if k == i
              then some x
              else if k == j
              then some x
              else if k == i
              then some y
              else get_elem? a k)
            ≡ get_elem? a k
      same k = elim (ℕ_discrete k j) [
        | yes e ↦ rw (eq→== k j e) (sym hy ∙ ap (get_elem? a) (sym e))
        | no n ↦ elim (ℕ_discrete k i) [
          | yes e ↦ rw (ne→== k j n, eq→== k i e) (sym hx ∙ ap (get_elem? a) (sym e))
          | no m ↦ rw (ne→== k j n, ne→== k i m) refl
        ]
      ]

  known : IsSwapped a i j (set (set a i y) j x)
  known = record {
    same_length = length-set (set a i y) j x ∙ length-set a i y;
    rearranged = λ z. omega (arith, times-set z a i x y hx, times-set z (set a i y) j y x still);
    prefix_kept = λ n bi bj. take-set (set a i y) n j x bj ∙ take-set a n i y bi;
    moved = at_first ∙ sym hy;
    undone = swap-known _ i j y x at_first at_second ∙ ap ok back;
  }

pub swap-IsSwapped :
    (a : List ℕ) (i j : ℕ)
    → i < length a
    → j < length a
    → (b : List ℕ) × (swap a i j ≡ ok b) × IsSwapped a i j b
swap-IsSwapped a i j hi hj =
    let (x, hx) = get_elem?-lt a i hi in
    let (y, hy) = get_elem?-lt a j hj in
    (set (set a i y) j x, swap-known a i j x y hx hy, known a i j x y hi hj hx hy)
