-- ===== src/Convert/Words.antt =====
-- The conversions of internal/utils/convert.go there and back.
use stat_tree_server.Base.{ℕ, ◌≤◌, ◌<◌, ◌≡◌, ◌⊎◌, ◌↔◌, refl, List, [], ◌∷◌, arith, All}
use stat_tree_server.Convert.{int32_of_int, int_of_int32, ints_to_int32s, int32s_to_ints}

-- A word of 64 bits that stands for a number from -2 ^ 31 up to 2 ^ 31 - 1.
abbrev pub FitsInt32 : ℕ → Type 0
FitsInt32 v = (v < 2147483648) ⊎ (18446744071562067968 ≤ v)

word_kept : (v : ℕ) → v < 4294967296 → int32_of_int (int_of_int32 v) ≡ v
unfolding int32_of_int int_of_int32
word_kept v h = ground arith

-- Int32sToInts loses nothing: IntsToInt32s gives the list of int32 values back.
pub ints_to_int32s-int32s_to_ints :
    (vs : List ℕ) → All (λ v. v < 4294967296) vs → ints_to_int32s (int32s_to_ints vs) ≡ vs
unfolding ints_to_int32s int32s_to_ints
ints_to_int32s-int32s_to_ints [] a = refl
ints_to_int32s-int32s_to_ints (v ∷ vs) a =
    rw (word_kept v a.0, ints_to_int32s-int32s_to_ints vs a.1) refl

-- An int survives its conversion to int32 exactly if its value is from -2 ^ 31 up to 2 ^ 31 - 1.
pub int_of_int32-int32_of_int :
    (v : ℕ) → v < 18446744073709551616 → (int_of_int32 (int32_of_int v) ≡ v) ↔ FitsInt32 v
unfolding int32_of_int int_of_int32
int_of_int32-int32_of_int v h = (λ e. ground arith, λ fits. ground arith)
