-- ===== src/Manager/Reach.antt =====
-- The calls of LotteryManager in internal/services/lottery_manager.go one after the other, from
-- NewLotteryManager on.
use stat_tree_server.Base.{ℕ, refl, List, [], Option, none, some, arith}
use stat_tree_server.Models.{LotteryResult}
use stat_tree_server.Archive.{LotteryArchive}
use stat_tree_server.Manager.{normalize_window}
use stat_tree_server.Manager.Cache.{
  Key, LotteryManager, Answer, found, error, blocked, Loaded, new_manager, archive, build,
  window_key, invalidate_range, invalidate_all,
}
use stat_tree_server.Manager.Answers.{IsCache, IsAnswered}
use stat_tree_server.Manager.Invalidate.{invalidate_range-IsCache}
use stat_tree_server.Manager.Windowed.{IsFor, archive_build-IsAnswered}

-- A call: the repository of an Archive call is as the database is then.
pub data Call {F : Type 0}
    : LotteryManager (LotteryArchive F) → LotteryManager (LotteryArchive F) → Type 0 where
  ask :
      (repo : Option (ℕ → ℕ → Option (List (LotteryResult F)))) (from to : ℕ)
      (m : LotteryManager (LotteryArchive F))
      → Call m (archive (build repo) from to m).1
  drop : (from to : ℕ) (m : LotteryManager (LotteryArchive F)) → Call m (invalidate_range from to m)
  clear : (m : LotteryManager (LotteryArchive F)) → Call m (invalidate_all m)

pub data Reachable {F : Type 0} : LotteryManager (LotteryArchive F) → Type 0 where
  start : Reachable new_manager
  call : {m m' : LotteryManager (LotteryArchive F)} → Reachable m → Call m m' → Reachable m'

answered-IsCache :
    {A : Type 0} (P : Key → A → Type 0) (k : Key) (b : Loaded A) (r : Answer A × LotteryManager A)
    → IsAnswered P k b r
    → IsCache P r.1
answered-IsCache P k b (found none, m) h = absurd h
answered-IsCache P k b (found (some a), m) h = h.2
answered-IsCache P k b (error text, m) h = h.2
answered-IsCache P k b (blocked, m) h = absurd h

pub new_manager-IsCache : {A : Type 0} (P : Key → A → Type 0) → IsCache P new_manager
unfolding new_manager
new_manager-IsCache P = record {
  well = (
    [],
    record {
      order = record { linked = tt; at_head = refl; at_tail = refl; distinct = tt };
      same = λ x. refl;
      keyed = tt;
      keys = tt;
      fresh = λ x h. absurd (ground arith);
      valid = tt;
    },
  );
  bound = omega arith;
  idle = λ x. refl;
}

invalidate_all-IsCache :
    {A : Type 0} (P : Key → A → Type 0) (m : LotteryManager A)
    → IsCache P m
    → IsCache P (invalidate_all m)
unfolding invalidate_all
invalidate_all-IsCache P m c = record {
  well = (
    [],
    record {
      order = record { linked = tt; at_head = refl; at_tail = refl; distinct = tt };
      same = λ x. refl;
      keyed = tt;
      keys = tt;
      fresh = λ x h. absurd (ground arith);
      valid = tt;
    },
  );
  bound = omega arith;
  idle = c.idle;
}

module _ {F : Type 0} where
  Call-IsCache :
      {m m' : LotteryManager (LotteryArchive F)} → Call m m' → IsCache IsFor m → IsCache IsFor m'
  Call-IsCache (ask repo from to m) c =
      let (lo, hi) = normalize_window from to in
      answered-IsCache IsFor (window_key lo hi) (build repo lo hi) (archive (build repo) from to m)
        (archive_build-IsAnswered repo from to m c)
  Call-IsCache (drop from to m) c = invalidate_range-IsCache IsFor from to m c
  Call-IsCache (clear m) c = invalidate_all-IsCache IsFor m c

  -- After any sequence of calls of Archive, InvalidateRange and InvalidateAll on a new manager, the
  -- map and the list hold the same entries, at most eight, each with an archive for its key.
  pub Reachable-IsCache : {m : LotteryManager (LotteryArchive F)} → Reachable m → IsCache IsFor m
  Reachable-IsCache start = new_manager-IsCache IsFor
  Reachable-IsCache (call r c) = Call-IsCache c (Reachable-IsCache r)
