-- ===== src/Convert.antt =====
-- internal/utils/convert.go. An int is a word of 64 bits and an int32 one of 32 bits, each a natural
-- number in two's complement.
pub mod Words
use stat_tree_server.Base.{
  ℕ, ◌+◌, ◌%◌, ◌^◌, Bool, not, ◌&&◌, List, [], ◌∷◌, ltb, leb, ◌==◌, if◌then◌else◌,
}

-- `int32(v)`
unfoldable pub int32_of_int : ℕ → ℕ
int32_of_int v = v % 4294967296

-- `int(v)`, which extends the sign
unfoldable pub int_of_int32 : ℕ → ℕ
int_of_int32 v = if ltb v 2147483648 then v else v + 18446744069414584320

-- `v > 0`
abbrev pub is_positive : ℕ → Bool
is_positive v = not (v == 0) && ltb v 9223372036854775808

unfoldable pub ints_to_int32s : List ℕ → List ℕ
unfolding int32_of_int
ints_to_int32s [] = []
ints_to_int32s (v ∷ vs) = int32_of_int v ∷ ints_to_int32s vs

unfoldable pub int32s_to_ints : List ℕ → List ℕ
unfolding int_of_int32
int32s_to_ints [] = []
int32s_to_ints (v ∷ vs) = int_of_int32 v ∷ int32s_to_ints vs

unfoldable pub ints_to_int32s_filtered : List ℕ → List ℕ
unfolding int32_of_int
ints_to_int32s_filtered [] = []
ints_to_int32s_filtered (v ∷ vs) =
    let rest = ints_to_int32s_filtered vs in if is_positive v then int32_of_int v ∷ rest else rest
