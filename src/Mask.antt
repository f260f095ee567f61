-- ===== src/Mask.antt =====
-- ComboMask of internal/lottery-tree/lottery_archive.go: a set of numbers as the bits of a uint64.
pub mod Bits
pub mod Sets
use Prim.Native.Nat.{bit_or}
use stat_tree_server.Base.{ℕ, ◌^◌, ◌&&◌, List, [], ◌∷◌, ltb, if◌then◌else◌}

-- the loop of ComboMask: `mask |= 1 << n` for 0 < n < 64
unfoldable pub mask_from : ℕ → List ℕ → ℕ
mask_from mask [] = mask
mask_from mask (n ∷ nums) =
    mask_from (if ltb 0 n && ltb n 64 then bit_or mask (2 ^ n) else mask) nums

unfoldable pub combo_mask : List ℕ → ℕ
unfolding mask_from
combo_mask nums = mask_from 0 nums
