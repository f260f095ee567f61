-- ===== src/Manager/Windows.antt =====
-- rangesOverlap of internal/services/lottery_manager.go, which decides what InvalidateRange drops.
use stat_tree_server.Base.{ℕ, ◌≤◌, ◌≡◌, ◌↔◌, ◌⊎◌, true, arith, ltb, if◌then◌else◌}
use stat_tree_server.Simulate.Windows.{within}
use stat_tree_server.Manager.{ranges_overlap}

-- A date in both of two overlapping ranges: the later of the lower bounds, if it is not open.
abbrev meeting : ℕ → ℕ → ℕ
meeting a b = if ltb a b then b else a

-- For ranges that are not empty, rangesOverlap holds exactly if some date lies in both.
pub ranges_overlap-meets :
    (a_from a_to b_from b_to : ℕ)
    → (a_to ≡ 0) ⊎ (a_from ≤ a_to)
    → (b_to ≡ 0) ⊎ (b_from ≤ b_to)
    → (ranges_overlap a_from a_to b_from b_to ≡ true)
      ↔ ((date : ℕ) × (within a_from a_to date ≡ true) × (within b_from b_to date ≡ true))
unfolding ranges_overlap
ranges_overlap-meets a_from a_to b_from b_to a b =
    (λ h. (meeting a_from b_from, ground arith, ground arith), λ (date, in_a, in_b). ground arith)
