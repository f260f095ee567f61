-- ===== src/Combos/Enumerate.antt =====
-- GenerateCombinations of internal/lottery-tree/lottery_archive.go against the combinations of the
-- specification.
use mathlib.Core.List.{append_assoc, map-append}
use stat_tree_server.Base.{
  ℕ, zero, suc, ◌+◌, ◌-◌, ◌≤◌, ◌<◌, ◌≡◌, refl, sym, ◌∙◌, ap, List, [], ◌∷◌, ◌++◌, map, Option, none,
  some, arith, length, get_elem?, length-append, ◌==◌, Bool-cases, ==_iff, eq→==, ne→==, le→ltb,
  lt→ltb, inl, inr, Option-cases,
}
use mathlib.Core.Path.{ap₂}
use native.Mathlib.Decide.{ℕ_discrete, dec_lt}
use stat_tree_server.Combos.{pick, combinations_loop, generate_combinations}
use stat_tree_server.Combos.Spec.{combos, range, choose, length-range, length-combos}
use stat_tree_server.Combos.Next.{next_indices, advance-next_indices}

-- The index lists from this one on, in lexicographic order.
from : ℕ → List ℕ → List (List ℕ)
from n [] = [] ∷ []
from n (i ∷ is) = map (◌∷◌ i) (from n is) ++ combos (suc (length is)) (range (suc i) (n - suc i))

-- Ascending indices from `lo` on, with room for those that follow.
abbrev Fits : ℕ → ℕ → List ℕ → Type 0
Fits n lo [] = Unit
Fits n lo (i ∷ is) = (lo ≤ i) × (i + suc (length is) ≤ n) × Fits n (suc i) is

combos-short : {A : Type 0} (k : ℕ) (xs : List A) → length xs < k → combos k xs ≡ []
unfolding combos
combos-short zero xs h = absurd (omega arith)
combos-short (suc k) [] h = refl
combos-short (suc k) (x ∷ xs) h =
    rw (combos-short k xs (omega arith), combos-short (suc k) xs (omega arith))

combos-all : {A : Type 0} (xs : List A) → combos (length xs) xs ≡ xs ∷ []
unfolding combos
combos-all [] = refl
combos-all (x ∷ xs) = rw (combos-all xs, combos-short (suc (length xs)) xs (omega arith))

-- From the first index list on, they are all.
from-range : (n i k : ℕ) → i + k ≤ n → from n (range i k) ≡ combos k (range i (n - i))
unfolding from range combos
from-range n i zero h = refl
from-range n i (suc k) h =
    let e : n - i ≡ suc (n - suc i) = omega arith in
    rw (e, range, from-range n (suc i) k (omega arith), length-range (suc i) k)

range-Fits : (n lo i k : ℕ) → lo ≤ i → i + k ≤ n → Fits n lo (range i k)
unfolding range
range-Fits n lo i zero h g = tt
range-Fits n lo i (suc k) h g = (
  h,
  omega (arith, length-range (suc i) k),
  range-Fits n (suc i) (suc i) k (omega arith) (omega arith),
)

-- What holds of a value, if there is one.
abbrev IfSome : (List ℕ → Type 0) → Option (List ℕ) → Type 0
IfSome P none = Unit
IfSome P (some x) = P x

abbrev Follows : ℕ → ℕ → List ℕ → List ℕ → Type 0
Follows n lo is is' = Fits n lo is' × (length is' ≡ length is)

next-Fits : (n lo : ℕ) (is : List ℕ) → Fits n lo is → IfSome (Follows n lo is) (next_indices n is)
unfolding next_indices
next-Fits n lo [] f = tt
next-Fits n lo (i ∷ is) f = elim (Option-cases (next_indices n is)) [
  | inl last ↦
      rw (last, next_indices)
        (elim (Bool-cases (i + suc (length is) == n)) [
          | inl e ↦ rw e tt
          | inr e ↦ rw e (
            range-Fits n lo (suc i) (suc (length is)) (omega arith) (ground arith),
            length-range (suc i) (suc (length is)),
          )
        ])
  | inr (js, more) ↦
      let (fits, size) = rw more at (next-Fits n (suc i) is f.2) in
      rw (more, next_indices) ((f.0, omega arith, fits), ap suc size)
]

-- The index lists that come after this one.
after : ℕ → Option (List ℕ) → List (List ℕ)
after n none = []
after n (some is) = from n is

from-next : (n lo : ℕ) (is : List ℕ) → Fits n lo is → from n is ≡ is ∷ after n (next_indices n is)
unfolding from after next_indices
from-next n lo [] f = refl
from-next n lo (i ∷ is) f = elim (Option-cases (next_indices n is)) [
  | inl last ↦
      rw (last, next_indices, from-next n (suc i) is f.2, last, after)
        (elim (Bool-cases (i + suc (length is) == n)) [
          | inl e ↦
              let same = (==_iff (i + suc (length is)) n).0 e in
              rw e (
                ap (◌∷◌ (i ∷ is)) (
                  combos-short (suc (length is)) _
                    (omega (arith, same, length-range (suc i) (n - suc i)))))
          | inr e ↦
              rw e (ap (◌∷◌ (i ∷ is)) (sym (from-range n (suc i) (suc (length is)) (ground arith))))
        ])
  | inr (js, more) ↦
      let (fits, size) = rw more at (next-Fits n (suc i) is f.2) in
      rw (more, next_indices, from-next n (suc i) is f.2, more, after, size)
]

module _ {A : Type 0} where
  -- The loop lists the picks of every index list from the current one on, if the fuel suffices.
  loop-from :
      (fuel lo : ℕ) (numbers : List A) (is : List ℕ)
      → length is ≤ length numbers
      → Fits (length numbers) lo is
      → length (from (length numbers) is) ≤ fuel
      → combinations_loop fuel (length is) numbers is
        ≡ map (pick numbers) (from (length numbers) is)
  unfolding combinations_loop after
  loop-from zero lo numbers is short f h =
      absurd (omega (arith, ap length (from-next (length numbers) lo is f)))
  loop-from (suc fuel) lo numbers is short f h =
      let n = length numbers in
      let step = from-next n lo is f in
      elim (Option-cases (next_indices n is)) [
        | inl last ↦
            rw (advance-next_indices n is short ∙ last, combinations_loop, step, last, after)
        | inr (js, more) ↦
            let (fits, size) = rw more at (next-Fits n lo is f) in
            let ahead : from n is ≡ is ∷ from n js = step ∙ ap (λ o. is ∷ after n o) more in
            rw (advance-next_indices n is short ∙ more, combinations_loop, ahead)
              (ap (◌∷◌ (pick numbers is)) (
                rw size at (
                  loop-from fuel lo numbers js (omega arith) fits
                    (omega (arith, ap length ahead)))))
      ]

  pick-map-cons :
      (numbers : List A) (i : ℕ) (x : A) (ls : List (List ℕ))
      → get_elem? numbers i ≡ some x
      → map (pick numbers) (map (◌∷◌ i) ls) ≡ map (◌∷◌ x) (map (pick numbers) ls)
  unfolding pick
  pick-map-cons numbers i x [] e = refl
  pick-map-cons numbers i x (is ∷ ls) e = rw (e, pick, pick-map-cons numbers i x ls e)

  get_elem?-middle :
      (pre : List A) (x : A) (xs : List A) → get_elem? (pre ++ x ∷ xs) (length pre) ≡ some x
  get_elem?-middle [] x xs = refl
  get_elem?-middle (y ∷ pre) x xs = get_elem?-middle pre x xs

  -- Combinations of places, read in the list, are the combinations of the list.
  combos-pick :
      (k : ℕ) (pre xs : List A)
      → map (pick (pre ++ xs)) (combos k (range (length pre) (length xs))) ≡ combos k xs
  unfolding combos range pick
  combos-pick zero pre xs = refl
  combos-pick (suc k) pre [] = refl
  combos-pick (suc k) pre (x ∷ xs) =
      let longer : length (pre ++ x ∷ []) ≡ suc (length pre) =
        omega (arith, length-append pre (x ∷ [])) in
      let rest = combos-pick k (pre ++ x ∷ []) xs in
      let rest' = combos-pick (suc k) (pre ++ x ∷ []) xs in
      map-append (pick (pre ++ x ∷ xs)) _ _
      ∙ ap₂ ◌++◌
          (pick-map-cons (pre ++ x ∷ xs) (length pre) x _ (get_elem?-middle pre x xs)
            ∙ ap (map (◌∷◌ x)) (rw (append_assoc pre (x ∷ []) xs, longer) at rest))
          (rw (append_assoc pre (x ∷ []) xs, longer) at rest')

  pub generate_combinations-combos :
      (numbers : List A) (k : ℕ) → 0 < k → generate_combinations numbers k ≡ combos k numbers
  unfolding generate_combinations
  generate_combinations-combos numbers k pos =
      let n = length numbers in
      elim (dec_lt n k) [
        | yes short ↦ rw (lt→ltb n k short, combos-short k numbers short)
        | no fits ↦ elim (ℕ_discrete k n) [
          | yes same ↦
              rw (le→ltb n k (omega arith), ne→== k 0 (omega arith), eq→== k n same, same)
                (sym (combos-all numbers))
          | no less ↦
              let whole : n - 0 ≡ n = omega arith in
              let start = rw whole at (from-range n 0 k (omega arith)) in
              let all : length (from n (range 0 k)) ≡ choose n k =
                ap length start
                ∙ length-combos k (range 0 n)
                ∙ ap (λ m. choose m k) (length-range 0 n) in
              rw (le→ltb n k (omega arith), ne→== k 0 (omega arith), ne→== k n less)
                (rw (length-range 0 k) at (
                    loop-from (choose n k) 0 numbers (range 0 k) (omega (arith, length-range 0 k))
                      (range-Fits n 0 0 k (omega arith) (omega arith)) (omega (arith, all)))
                  ∙ ap (map (pick numbers)) start
                  ∙ combos-pick k [] numbers)
        ]
      ]
