-- ===== src/Mask/Sets.antt =====
-- ComboMask of internal/lottery-tree/lottery_archive.go as a set of numbers in 1..63.
use Prim.Native.Nat.{bit_or, max}
use native.Mathlib.Nat.{pow-suc}
use native.Mathlib.Decide.{dec_lt}
use stat_tree_server.Base.{
  ℕ, zero, suc, ◌^◌, ◌<◌, ◌≡◌, ◌↔◌, refl, sym, ◌∙◌, ap, Bool, true, false, ◌&&◌, List, [], ◌∷◌,
  arith, ltb, if◌then◌else◌, elem, Bool-cases, inl, inr,
}
use stat_tree_server.Mask.{mask_from, combo_mask}
use stat_tree_server.Mask.Bits.{bit, bit-bit_or, bit-pow, bit-zero, eq_of_bits, bit_or-lt}

pow_pos : (n : ℕ) → 0 < 2 ^ n
pow_pos zero = omega arith
pow_pos (suc n) = omega (arith, pow-suc 2 n, pow_pos n)

pow-lt : (n m : ℕ) → n < m → 2 ^ n < 2 ^ m
pow-lt n zero h = absurd (omega arith)
pow-lt n (suc m) h = elim (dec_lt n m) [
  | yes below ↦ omega (arith, pow-suc 2 m, pow-lt n m below)
  | no last ↦ let same : n ≡ m = omega arith in rw same (omega (arith, pow-suc 2 m, pow_pos m))
]

mask_from-lt : (mask : ℕ) (nums : List ℕ) → mask < 2 ^ 64 → mask_from mask nums < 2 ^ 64
unfolding mask_from
mask_from-lt mask [] h = h
mask_from-lt mask (n ∷ nums) h = elim (Bool-cases (ltb 0 n && ltb n 64)) [
  | inl e ↦ rw e (
      mask_from-lt (bit_or mask (2 ^ n)) nums
        (bit_or-lt 64 mask (2 ^ n) h (pow-lt n 64 (ground arith))))
  | inr e ↦ rw e (mask_from-lt mask nums h)
]

bit-mask_from :
    (k mask : ℕ) (nums : List ℕ)
    → 0 < k
    → k < 64
    → bit k (mask_from mask nums) ≡ max (bit k mask) (if elem k nums then 1 else 0)
unfolding mask_from
bit-mask_from k mask [] pos h = omega arith
bit-mask_from k mask (n ∷ nums) pos h = elim (Bool-cases (ltb 0 n && ltb n 64)) [
  | inl e ↦
      rw
        (
          e,
          bit-mask_from k (bit_or mask (2 ^ n)) nums pos h,
          bit-bit_or k mask (2 ^ n),
          bit-pow k n,
        )
        (ground arith)
  | inr e ↦ rw (e, bit-mask_from k mask nums pos h) (ground arith)
]

-- No number is kept at the lowest bit.
bit-mask_from_low : (mask : ℕ) (nums : List ℕ) → bit 0 (mask_from mask nums) ≡ bit 0 mask
unfolding mask_from
bit-mask_from_low mask [] = refl
bit-mask_from_low mask (n ∷ nums) = elim (Bool-cases (ltb 0 n && ltb n 64)) [
  | inl e ↦
      rw (e, bit-mask_from_low (bit_or mask (2 ^ n)) nums, bit-bit_or 0 mask (2 ^ n), bit-pow 0 n)
        (ground arith)
  | inr e ↦ rw (e, bit-mask_from_low mask nums)
]

-- Bit k of a combination's mask says whether it holds the number k, for 0 < k < 64.
pub bit-combo_mask :
    (k : ℕ) (nums : List ℕ)
    → 0 < k
    → k < 64
    → bit k (combo_mask nums) ≡ (if elem k nums then 1 else 0)
unfolding combo_mask
bit-combo_mask k nums pos h = bit-mask_from k 0 nums pos h ∙ omega (arith, bit-zero k)

low : (nums : List ℕ) → bit 0 (combo_mask nums) ≡ 0
unfolding combo_mask
low nums = bit-mask_from_low 0 nums ∙ bit-zero 0

combo_mask-lt : (nums : List ℕ) → combo_mask nums < 2 ^ 64
unfolding combo_mask
combo_mask-lt nums = mask_from-lt 0 nums (omega arith)

-- Two lists have the same mask exactly when they hold the same numbers among 1..63, whatever
-- their order and repetitions.
pub combo_mask-eq_iff :
    (xs ys : List ℕ)
    → (combo_mask xs ≡ combo_mask ys) ↔ ((k : ℕ) → 0 < k → k < 64 → elem k xs ≡ elem k ys)
combo_mask-eq_iff xs ys =
    (λ e k pos h. same_test (elem k xs) (elem k ys) (one e k pos h), λ all. two all)
  where
    same_test : (a b : Bool) → ◌≡◌ {A = ℕ} (if a then 1 else 0) (if b then 1 else 0) → a ≡ b
    same_test true true e = refl
    same_test true false e = absurd (omega arith)
    same_test false true e = absurd (omega arith)
    same_test false false e = refl

    one :
        combo_mask xs ≡ combo_mask ys
        → (k : ℕ) → 0 < k
        → k < 64
        → ◌≡◌ {A = ℕ} (if elem k xs then 1 else 0) (if elem k ys then 1 else 0)
    one e k pos h = sym (bit-combo_mask k xs pos h) ∙ ap (bit k) e ∙ bit-combo_mask k ys pos h

    bits :
        ((k : ℕ) → 0 < k → k < 64 → elem k xs ≡ elem k ys)
        → (k : ℕ) → k < 64
        → bit k (combo_mask xs) ≡ bit k (combo_mask ys)
    bits all zero h = low xs ∙ sym (low ys)
    bits all (suc k) h =
        bit-combo_mask (suc k) xs (omega arith) h
        ∙ ap (λ b. if b then 1 else 0) (all (suc k) (omega arith) h)
        ∙ sym (bit-combo_mask (suc k) ys (omega arith) h)

    two : ((k : ℕ) → 0 < k → k < 64 → elem k xs ≡ elem k ys) → combo_mask xs ≡ combo_mask ys
    two all = eq_of_bits 64 _ _ (combo_mask-lt xs) (combo_mask-lt ys) (bits all)
