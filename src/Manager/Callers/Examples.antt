-- ===== src/Manager/Callers/Examples.antt =====
-- Runs of concurrent calls of Archive of internal/services/lottery_manager.go on a table of draws.
use stat_tree_server.Base.{ℕ, ◌≡◌, refl, arith, List, [], ◌∷◌, none, some, ◌++◌}
use stat_tree_server.Base.Sort.{keep}
use stat_tree_server.Models.{LotteryResult}
use stat_tree_server.Archive.{LotteryArchive}
use stat_tree_server.Repository.Examples.{draw, rows}
use stat_tree_server.Manager.{normalize_window, ranges_overlap}
use stat_tree_server.Manager.Cache.{
  found, invalidate_all, access, finish_load, add_entry, trim, touch, window_key, new_manager,
  evict,
}
use stat_tree_server.Manager.Callers.{
  call, enter, in_flight, ready_now, listen, miss_channel, hit, build_archive, build_fails, finish,
  stranded, returned, wake, clear, World, Step, pick, write, Reach, begin, later,
}
use stat_tree_server.Manager.Callers.Rows.{archive_of, archive_of-apart, SameOutside}
use stat_tree_server.Manager.Callers.Current.{Reach-current}
use stat_tree_server.Manager.Callers.Manned.{load_of}
use stat_tree_server.Manager.Callers.Single.{one_load}
use stat_tree_server.Manager.Callers.Answered.{Calm, rest, go, Calm-IsAnswer}
use stat_tree_server.Manager.Callers.Served.{IsAnswer}
use stat_tree_server.Manager.Callers.Returns.{CanReturn, calling-CanReturn}
use stat_tree_server.Manager.Callers.Wakes.{Closes, listening-Closes}

abbrev Rows : Type 0
Rows = List (LotteryResult ℕ)

abbrev Reached : Type 0
Reached = (w : World (LotteryArchive ℕ) Rows) × Reach archive_of w

-- One step more.
infixl 20 ◌⨟◌
abbrev ◌⨟◌ :
    {w v : World (LotteryArchive ℕ) Rows}
    → Reach archive_of w
    → Step archive_of w v
    → Reach archive_of v
r ⨟ s = later r s

-- Two calls for one window: the first one loads, the second one listens.
abbrev listened : Reached
unfolding access add_entry trim window_key normalize_window new_manager
listened = (
  _,
  begin rows
      ⨟ pick 0 (call 0 0)
      ⨟ pick 1 (call 0 0)
      ⨟ pick 0 enter
      ⨟ pick 1 enter
      ⨟ pick 1 (in_flight refl)
      ⨟ pick 1 (listen refl),
)

listening-Closes_example :
    (i : ℕ) × (load_of (listened.0.callers i) ≡ some 0) × Closes archive_of i 1 0 listened.0
unfolding access add_entry trim window_key normalize_window new_manager
listening-Closes_example = listening-Closes archive_of listened.1 1 0 refl refl

-- Two loads of two windows.
abbrev two_loads : Reached
unfolding access add_entry trim window_key normalize_window new_manager
two_loads = (_, begin rows ⨟ pick 0 (call 0 0) ⨟ pick 1 (call 10 20) ⨟ pick 0 enter ⨟ pick 1 enter)

one_load_example : ◌≡◌ {A = ℕ} 1 1
unfolding access add_entry trim window_key normalize_window new_manager
one_load_example =
    one_load archive_of two_loads.1
      ((((tt, omega arith, tt), omega arith, tt), omega arith, tt), omega arith, tt) 1 1 1 1 refl
      refl refl

later_draw : SameOutside 40 40 rows (rows ++ draw 4 40 ∷ [])
unfolding keep
later_draw = refl

-- A load ends, and then a draw of a later date than its window is written.
abbrev loaded : Reached
unfolding access finish_load add_entry trim window_key normalize_window new_manager
loaded = (
  _,
  begin rows
      ⨟ pick 0 (call 10 20)
      ⨟ pick 0 enter
      ⨟ pick 0 build_archive
      ⨟ pick 0 finish
      ⨟ write (rows ++ draw 4 40 ∷ []) 40 40
          (archive_of-apart rows (rows ++ draw 4 40 ∷ []) 40 40 later_draw),
)

Reach-current_example :
    (loaded.0.manager.entries 0).arch ≡ some (archive_of (rows ++ draw 4 40 ∷ []) 10 20)
unfolding access finish_load add_entry trim window_key normalize_window new_manager ranges_overlap
Reach-current_example = Reach-current archive_of loaded.1 0 refl (refl, tt) refl

-- A call finds the entry of a load that fails before the call looks at it: it answers with no archive
-- and no error.
abbrev found_nothing : Reached
unfolding access finish_load add_entry trim window_key normalize_window new_manager touch evict
found_nothing = (
  _,
  begin rows
      ⨟ pick 0 (call 0 0)
      ⨟ pick 1 (call 0 0)
      ⨟ pick 0 enter
      ⨟ pick 1 enter
      ⨟ pick 0 (build_fails "down")
      ⨟ pick 0 finish
      ⨟ pick 1 (ready_now refl)
      ⨟ pick 1 hit,
)

found_nothing_answer : found_nothing.0.callers 1 ≡ returned (found none)
unfolding access finish_load add_entry trim window_key normalize_window new_manager touch evict
found_nothing_answer = refl

-- A load ends between the two reads of `e.done` by another call: that call waits on a nil channel,
-- though the archive is there.
abbrev stranded_call : Reached
unfolding access finish_load add_entry trim window_key normalize_window new_manager
stranded_call = (
  _,
  begin rows
      ⨟ pick 0 (call 0 0)
      ⨟ pick 1 (call 0 0)
      ⨟ pick 0 enter
      ⨟ pick 1 enter
      ⨟ pick 1 (in_flight refl)
      ⨟ pick 0 build_archive
      ⨟ pick 0 finish
      ⨟ pick 1 (miss_channel refl),
)

stranded_call_stands :
    (stranded_call.0.callers 1 ≡ stranded)
    × ((stranded_call.0.manager.entries 0).arch ≡ some (archive_of rows 63212140800 0))
unfolding access finish_load add_entry trim window_key normalize_window new_manager
stranded_call_stands = (refl, refl)

-- A call starts while another one loads the archive of its window.
abbrev started : Reached
unfolding access add_entry trim window_key normalize_window new_manager
started = (_, begin rows ⨟ pick 0 (call 0 0) ⨟ pick 1 (call 0 0) ⨟ pick 0 enter)

-- It waits for that load, which InvalidateAll takes out of the cache before it ends.
abbrev shared : (v : World (LotteryArchive ℕ) Rows) × Calm archive_of 1 started.0 v
unfolding access finish_load add_entry trim window_key normalize_window new_manager touch
shared = (
  _,
  go
      (go
        (go
          (go
            (go
              (go
                (go (go rest (pick 1 enter) (λ same. refl)) (pick 1 (in_flight refl))
                  (λ same. refl))
                (pick 1 (listen refl)) (λ same. refl))
              clear tt)
            (pick 0 build_archive) (λ same. refl))
          (pick 0 finish) (λ same. refl))
        (pick 1 (wake refl refl)) (λ same. refl))
      (pick 1 hit) (λ same. refl),
)

Calm-IsAnswer_example : IsAnswer archive_of 63212140800 0 rows (archive_of rows 63212140800 0)
unfolding access finish_load add_entry trim window_key normalize_window new_manager touch
    invalidate_all
Calm-IsAnswer_example = Calm-IsAnswer archive_of 1 63212140800 0 started.1 refl refl shared.1 refl

calling-CanReturn_example : CanReturn archive_of 1 started.0
unfolding access add_entry trim window_key normalize_window new_manager
calling-CanReturn_example = calling-CanReturn archive_of started.1 1 63212140800 0 refl
