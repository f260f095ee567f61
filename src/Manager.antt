-- ===== src/Manager.antt =====
-- internal/services/lottery_manager.go: the date windows of the cache of archives. A time is a
-- number of seconds, and 0 is the zero time, an open bound; `default_from` is the date that the code
-- parses from defaultArchiveFrom.
pub mod Windows
pub mod Order
pub mod Unlink
pub mod Cache
pub mod Keys
pub mod Sound
pub mod Sections
pub mod Trim
pub mod Answers
pub mod Invalidate
pub mod Dates
pub mod Windowed
pub mod Reach
pub mod Callers
pub mod Examples
use stat_tree_server.Base.{ℕ, Bool, true, false, not, ◌&&◌, ltb, ◌==◌, if◌then◌else◌}

-- 12 February 2004, in seconds from 1 January of year 1
abbrev pub default_from : ℕ
default_from = 63212140800

unfoldable pub normalize_window : ℕ → ℕ → ℕ × ℕ
normalize_window from to = (if from == 0 then default_from else from, to)

unfoldable pub ranges_overlap : ℕ → ℕ → ℕ → ℕ → Bool
ranges_overlap a_from a_to b_from b_to =
    if not (a_to == 0) && not (b_from == 0) && ltb a_to b_from
    then false
    else if not (b_to == 0) && not (a_from == 0) && ltb b_to a_from
    then false
    else true
