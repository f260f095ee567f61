-- ===== src/Combos/Binomial.antt =====
-- binomialCount of internal/lottery-tree/lottery_archive.go against Pascal's triangle.
use stat_tree_server.Base.{
  ℕ, zero, suc, ◌+◌, ◌-◌, ◌*◌, ◌/◌, ◌%◌, ◌≤◌, ◌<◌, ◌≡◌, refl, sym, ◌∙◌, ap, arith, true, ltb,
  lt→ltb, le→ltb, Bool-cases, inl, inr, ◌==◌, ◌||◌,
}
use native.Mathlib.Decide.{dec_lt}
use native.Mathlib.Nat.{mul-div_cancel, mul-le-mul_left, mul-le-mul_right, le_trans}
use stat_tree_server.Combos.{quotient, binomial_loop, binomial_count}
use stat_tree_server.Combos.Spec.{choose}

choose_above : (n k : ℕ) → n < k → choose n k ≡ 0
unfolding choose
choose_above n zero h = absurd (omega arith)
choose_above zero (suc k) h = refl
choose_above (suc n) (suc k) h =
    omega (arith, choose_above n k (omega arith), choose_above n (suc k) (omega arith))

choose_self : (n : ℕ) → choose n n ≡ 1
unfolding choose
choose_self zero = refl
choose_self (suc n) = omega (arith, choose_self n, choose_above n (suc n) (omega arith))

step_sum :
    (a b c k d : ℕ)
    → b * suc k ≡ a * suc d
    → c * suc (suc k) ≡ b * d
    → (b + c) * suc (suc k) ≡ (a + b) * suc d
step_sum a b c k d p q = omega arith

-- (k + 1) C(n, k + 1) = (n - k) C(n, k)
choose-step : (n k : ℕ) → choose n (suc k) * suc k ≡ choose n k * (n - k)
unfolding choose
choose-step zero k = grind arith
choose-step (suc n) zero = grind (arith, choose-step n 0)
choose-step (suc n) (suc k) = elim (dec_lt k n) [
  | yes h ↦
      let one : n - k ≡ suc (n - suc k) = omega arith in
      let two : suc n - suc k ≡ suc (n - suc k) = omega arith in
      rw two (
        step_sum (choose n k) (choose n (suc k)) (choose n (suc (suc k))) k (n - suc k)
          (rw one at (choose-step n k)) (choose-step n (suc k)))
  | no h ↦
      let none_left : suc n - suc k ≡ 0 = omega arith in
      rw
        (
          none_left,
          choose_above n (suc k) (omega arith),
          choose_above n (suc (suc k)) (omega arith),
        )
        (omega arith)
]

choose-zero : (n : ℕ) → choose n 0 ≡ 1
unfolding choose
choose-zero zero = refl
choose-zero (suc n) = refl

choose-suc : (n k : ℕ) → choose (suc n) (suc k) ≡ choose n k + choose n (suc k)
unfolding choose
choose-suc n k = refl

choose-sum : (a b : ℕ) → choose (a + b) a ≡ choose (a + b) b
choose-sum zero b = let e : 0 + b ≡ b = omega arith in rw (e, choose-zero b, choose_self b)
choose-sum (suc a) zero =
    let e : suc a + 0 ≡ suc a = omega arith in rw (e, choose-zero (suc a), choose_self (suc a))
choose-sum (suc a) (suc b) =
    let e : suc a + suc b ≡ suc (a + suc b) = omega arith in
    let f : suc a + b ≡ a + suc b = omega arith in
    rw (e, choose-suc, choose-suc)
      (omega (arith, choose-sum a (suc b), rw f at (choose-sum (suc a) b)))

choose-sub : (n k : ℕ) → k ≤ n → choose n (n - k) ≡ choose n k
choose-sub n k h = let e : n - k + k ≡ n = omega arith in rw e at (choose-sum (n - k) k)

divide_step : (x y : ℕ) → x * suc y / suc y ≡ x
divide_step x y = mul-div_cancel x (omega arith)

-- The products of the rounds fit an int.
abbrev pub IsSmall : ℕ → ℕ → Type 0
IsSmall n k = (j : ℕ) → j < k → j < n - k → choose n j * (n - j) < 9223372036854775808

word_quotient : (x d : ℕ) → x < 9223372036854775808 → quotient (x % 18446744073709551616) d ≡ x / d
word_quotient x d h =
    let exact : x % 18446744073709551616 ≡ x = omega arith in
    let positive : ltb x 9223372036854775808 ≡ true = ground arith in rw (exact, positive) refl

-- After `i` rounds the result is C(n, i): each division is exact.
binomial_loop-choose :
    (rounds i n : ℕ)
    → ((j : ℕ) → j < i + rounds → choose n j * (n - j) < 9223372036854775808)
    → binomial_loop rounds i n (choose n i) ≡ choose n (i + rounds)
unfolding binomial_loop
binomial_loop-choose zero i n small = ap (choose n) (omega arith)
binomial_loop-choose (suc rounds) i n small =
    rw
      (
        word_quotient (choose n i * (n - i)) (suc i) (small i (omega arith)),
        ← choose-step n i,
        divide_step,
      )
      (binomial_loop-choose rounds (suc i) n (λ j h. small j (omega (arith, h)))
        ∙ ap (choose n) (omega arith))

-- binomialCount is the entry of Pascal's triangle, 0 for k > n, as long as no product of its loop
-- reaches 2^63.
pub binomial_count-choose : (n k : ℕ) → IsSmall n k → binomial_count n k ≡ choose n k
unfolding binomial_count
binomial_count-choose n k small = elim (dec_lt n k) [
  | yes above ↦ rw (lt→ltb n k above) (sym (choose_above n k above))
  | no h ↦ rw (le→ltb n k (omega (arith, h))) (elim (Bool-cases (k == 0 || k == n)) [
    | inl edge ↦ rw edge (ground (arith, choose_self n, choose-zero n))
    | inr inner ↦ rw inner (elim (Bool-cases (ltb (n - k) k)) [
      | inl high ↦ rw high (
          ap (binomial_loop (n - k) 0 n) (sym (choose-zero n))
          ∙ binomial_loop-choose (n - k) 0 n
              (λ j less. small j (ground arith) (omega (arith, less)))
          ∙ ap (choose n) (omega arith)
          ∙ choose-sub n k (omega arith))
      | inr low ↦ rw low (
          ap (binomial_loop k 0 n) (sym (choose-zero n))
          ∙ binomial_loop-choose k 0 n (λ j less. small j (omega (arith, less)) (ground arith))
          ∙ ap (choose n) (omega arith))
    ])
  ])
]

product_le : (a b c d : ℕ) → a ≤ b → c ≤ d → a * c ≤ b * d
product_le a b c d h k = le_trans (mul-le-mul_left a k) (mul-le-mul_right d h)

power : ℕ → ℕ → ℕ
power b zero = 1
power b (suc j) = power b j * b

choose-power : (n b j : ℕ) → n ≤ b → choose n j ≤ power b j
unfolding power
choose-power n b zero h = rw (choose-zero n) (omega arith)
choose-power n b (suc j) h = omega (
  arith,
  choose-step n j,
  product_le (choose n (suc j)) (choose n (suc j)) 1 (suc j) (omega arith) (omega arith),
  product_le (choose n j) (power b j) (n - j) b (choose-power n b j h) (omega arith),
)

power-IsSmall :
    (n b k : ℕ) → n ≤ b → ((j : ℕ) → j < k → power b j * b < 9223372036854775808) → IsSmall n k
power-IsSmall n b k h top j below other = omega (
  arith,
  top j below,
  product_le (choose n j) (power b j) (n - j) b (choose-power n b j h) (omega arith),
)

thousands : (j : ℕ) → j < 6 → power 1000 j * 1000 < 9223372036854775808
unfolding power
thousands zero h = omega arith
thousands (suc zero) h = omega arith
thousands (suc (suc zero)) h = omega arith
thousands (suc (suc (suc zero))) h = omega arith
thousands (suc (suc (suc (suc zero)))) h = omega arith
thousands (suc (suc (suc (suc (suc zero))))) h = omega arith
thousands (suc (suc (suc (suc (suc (suc j)))))) h = absurd (omega arith)

-- So it is for the groups of up to six of at most a thousand numbers.
pub groups-IsSmall : (n k : ℕ) → n ≤ 1000 → k ≤ 6 → IsSmall n k
groups-IsSmall n k h few = power-IsSmall n 1000 k h (λ j below. thousands j (omega (arith, below)))

-- And for the pairs of a form that a message can hold.
pub pairs-IsSmall : (n : ℕ) → n < 2147483648 → IsSmall n 2
unfolding power
pairs-IsSmall n h = power-IsSmall n 2147483648 2 (omega arith) two
  where
    two : (j : ℕ) → j < 2 → power 2147483648 j * 2147483648 < 9223372036854775808
    two zero below = omega arith
    two (suc zero) below = omega arith
    two (suc (suc j)) below = absurd (omega arith)
