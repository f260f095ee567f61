-- ===== src/Combos.antt =====
-- internal/lottery-tree/lottery_archive.go: GenerateCombinations and binomialCount, and the copy of
-- the former in internal/services/simulate.go. Sizes are naturals, so the tests for negative sizes
-- are gone. In binomialCount an int is a word of 64 bits, in two's complement. The number that it
-- gives GenerateCombinations is only the capacity of the result, which is left out here.
pub mod Spec
pub mod Binomial
pub mod Next
pub mod Enumerate
use stat_tree_server.Base.{
  ℕ, zero, suc, ◌+◌, ◌-◌, ◌*◌, ◌/◌, ◌%◌, Bool, ◌||◌, List, [], ◌∷◌, ◌++◌, map, Option, none, some,
  length, get_elem?, get_or, set, ltb, leb, ◌==◌, if◌then◌else◌,
}
use stat_tree_server.Combos.Spec.{range, choose}

-- `w / d` for an int and a positive int; the quotient of a negative one is cut towards 0.
abbrev pub quotient : ℕ → ℕ → ℕ
quotient w d =
    if ltb w 9223372036854775808
    then w / d
    else (18446744073709551616 - (18446744073709551616 - w) / d) % 18446744073709551616

-- the loop of binomialCount, at `i`, with the rounds that are left; the product wraps
unfoldable pub binomial_loop : ℕ → ℕ → ℕ → ℕ → ℕ
binomial_loop zero i n result = result
binomial_loop (suc rounds) i n result =
    binomial_loop rounds (suc i) n (quotient (result * (n - i) % 18446744073709551616) (suc i))

unfoldable pub binomial_count : ℕ → ℕ → ℕ
unfolding binomial_loop
binomial_count n k =
    if ltb n k
    then 0
    else if k == 0 || k == n
    then 1
    else binomial_loop (if ltb (n - k) k then n - k else k) 0 n 1

-- `for i >= 0 && indices[i] == n-k+i { i-- }`, from i = c - 1; `none` for i < 0
unfoldable pub last_open : ℕ → ℕ → List ℕ → ℕ → Option ℕ
last_open n k indices zero = none
last_open n k indices (suc i) =
    if get_or indices i 0 == n - k + i then last_open n k indices i else some i

-- `indices[j] = indices[j-1] + 1`, from `j` on
unfoldable pub refill : ℕ → ℕ → List ℕ → List ℕ
refill zero j indices = indices
refill (suc rounds) j indices = refill rounds (suc j) (set indices j (get_or indices (j - 1) 0 + 1))

-- The indices of the next combination, or `none` where the loop breaks.
unfoldable pub advance : ℕ → ℕ → List ℕ → Option (List ℕ)
unfolding last_open refill
advance n k indices = elim (last_open n k indices k) [
  | none ↦ none
  | some i ↦ some (refill (k - i - 1) (suc i) (set indices i (get_or indices i 0 + 1)))
]

module _ {ℓ} {A : Type ℓ} where
  -- `combo[i] = numbers[idx]`; an index out of range, which would panic, picks nothing
  unfoldable pub pick : List A → List ℕ → List A
  pick numbers [] = []
  pick numbers (i ∷ indices) = elim (get_elem? numbers i) [
    | none ↦ pick numbers indices
    | some x ↦ x ∷ pick numbers indices
  ]

  -- the outer loop; the fuel bounds the combinations
  unfoldable pub combinations_loop : ℕ → ℕ → List A → List ℕ → List (List A)
  combinations_loop zero k numbers indices = []
  combinations_loop (suc fuel) k numbers indices =
      pick numbers indices ∷ elim (advance (length numbers) k indices) [
        | none ↦ []
        | some indices' ↦ combinations_loop fuel k numbers indices'
      ]

  unfoldable pub generate_combinations : List A → ℕ → List (List A)
  unfolding combinations_loop pick advance choose
  generate_combinations numbers k =
      let n = length numbers in
      if ltb n k || k == 0
      then []
      else if k == n
      then numbers ∷ []
      else combinations_loop (choose n k) k numbers (range 0 k)
