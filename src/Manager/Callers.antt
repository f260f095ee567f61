-- ===== src/Manager/Callers.antt =====
-- Callers of LotteryManager in internal/services/lottery_manager.go side by side. A call of Archive
-- stands between two of its accesses to shared memory; a step moves one call, changes the table of
-- draws in a range of dates, or runs InvalidateRange or InvalidateAll under the mutex. `dirty` has the
-- ranges that were changed and are not invalidated yet. What GetByDateRange and NewLotteryArchive
-- give for a window of a table is the parameter `reads`; the query may fail.
pub mod Maps
pub mod Knows
pub mod Coherent
pub mod Loads
pub mod Current
pub mod Manned
pub mod Flights
pub mod Single
pub mod Wakes
pub mod Returns
pub mod Good
pub mod Stays
pub mod Named
pub mod Served
pub mod Answered
pub mod Rows
pub mod Examples
use Prim.Native.String.{String}
use stat_tree_server.Base.{
  ℕ, Bool, true, false, List, [], ◌∷◌, none, some, ◌==◌, ◌≡◌, if◌then◌else◌,
}
use stat_tree_server.Manager.{normalize_window, ranges_overlap}
use stat_tree_server.Manager.Cache.{
  same_key, LotteryManager, new_manager, Access, ready, waiting, missing, Answer, found, error,
  Loaded, built, failed, answer_of, window_key, access, touch, finish_load, invalidate_range,
  invalidate_all,
}

-- Where a call of Archive stands.
pub data Caller (A : Type 0) : Type 0 where
  idle : Caller A
  calling : (from to : ℕ) → Caller A  -- before the first lock
  holding : (e : ℕ) → Caller A  -- a hit, before `e.done != nil`
  selecting : (e : ℕ) → Caller A  -- before `<-e.done`, which reads `e.done` again
  listening : (e : ℕ) → Caller A  -- in the select, on the channel of `e`
  stranded : Caller A  -- in the select, on a nil channel
  hitting : (e : ℕ) → Caller A  -- before the lock around moveToFront
  building : (e from to : ℕ) → Caller A  -- a miss, before build
  finishing : (e from to : ℕ) (result : Loaded A) → Caller A  -- before the last lock
  returned : Answer A → Caller A

-- The text of the error of a context that has ended.
abbrev canceled : String
canceled = "context canceled"

-- After the first section.
abbrev pub entered : {A : Type 0} → ℕ → ℕ → Access → Caller A
entered from to (ready e) = holding e
entered from to (waiting e) = holding e
entered from to (missing e) = building e from to

-- One call goes one step.
pub data Move {A T : Type 0} (reads : T → ℕ → ℕ → A) (t : T) (m : LotteryManager A)
    : Caller A → LotteryManager A → Caller A → Type 0 where
  call :
      (from to : ℕ)
      → Move reads t m idle m (calling (normalize_window from to).0 (normalize_window from to).1)
  call_again :
      {a : Answer A} (from to : ℕ)
      → Move reads t m
          (returned a)
          m
          (calling (normalize_window from to).0 (normalize_window from to).1)
  enter :
      {from to : ℕ}
      → Move reads t m (calling from to) (access from to m).1 (entered from to (access from to m).0)
  in_flight : {e : ℕ} → (m.entries e).loading ≡ true → Move reads t m (holding e) m (selecting e)
  ready_now : {e : ℕ} → (m.entries e).loading ≡ false → Move reads t m (holding e) m (hitting e)
  listen : {e : ℕ} → (m.entries e).loading ≡ true → Move reads t m (selecting e) m (listening e)
  miss_channel : {e : ℕ} → (m.entries e).loading ≡ false → Move reads t m (selecting e) m stranded
  wake :
      {e : ℕ}
      → (m.entries e).loading ≡ false
      → (m.entries e).err ≡ none
      → Move reads t m (listening e) m (hitting e)
  wake_error :
      {e : ℕ} {text : String}
      → (m.entries e).loading ≡ false
      → (m.entries e).err ≡ some text
      → Move reads t m (listening e) m (returned (error text))
  cancel : {e : ℕ} → Move reads t m (listening e) m (returned (error canceled))
  cancel_stranded : Move reads t m stranded m (returned (error canceled))
  hit : {e : ℕ} → Move reads t m (hitting e) (touch e m) (returned (found (m.entries e).arch))
  build_archive :
      {e from to : ℕ}
      → Move reads t m (building e from to) m (finishing e from to (built (reads t from to)))
  build_fails :
      {e from to : ℕ} (text : String)
      → Move reads t m (building e from to) m (finishing e from to (failed text))
  finish :
      {e from to : ℕ} {result : Loaded A}
      → Move reads t m
          (finishing e from to result)
          (finish_load (window_key from to) e result m)
          (returned (answer_of result))

abbrev pub update : {A : Type 0} → (ℕ → Caller A) → ℕ → Caller A → ℕ → Caller A
update callers i p j = if j == i then p else callers j

-- `reads` is a parameter of the relations below.
pub record World (A T : Type 0) : Type 0 where
  pub table : T
  pub dirty : List (ℕ × ℕ)
  pub manager : LotteryManager A
  pub callers : ℕ → Caller A

-- The ranges that are left when one is invalidated.
unfoldable pub without : ℕ × ℕ → List (ℕ × ℕ) → List (ℕ × ℕ)
without r [] = []
without r (d ∷ dirty) = let rest = without r dirty in if same_key d r then rest else d ∷ rest

pub data Step {A T : Type 0} (reads : T → ℕ → ℕ → A) (w : World A T) : World A T → Type 0 where
  pick :
      (i : ℕ) {m : LotteryManager A} {p : Caller A}
      → Move reads w.table w.manager (w.callers i) m p
      → Step reads w (record w { manager = m; callers = update w.callers i p })
  write :
      (t : T) (from to : ℕ)
      → ((lo hi : ℕ) → ranges_overlap lo hi from to ≡ false → reads t lo hi ≡ reads w.table lo hi)
      → Step reads w (record w { table = t; dirty = (from, to) ∷ w.dirty })
  invalidate :
      (from to : ℕ)
      → Step reads w (record w {
        manager = invalidate_range from to w.manager;
        dirty = without (from, to) w.dirty;
      })
  clear : Step reads w (record w { manager = invalidate_all w.manager; dirty = [] })

abbrev pub first_world : {A T : Type 0} → T → World A T
first_world t = record { table = t; dirty = []; manager = new_manager; callers = λ i. idle }

-- The worlds that the steps lead to from a new manager.
pub data Reach {A T : Type 0} (reads : T → ℕ → ℕ → A) : World A T → Type 0 where
  begin : (t : T) → Reach reads (first_world t)
  later : {w v : World A T} → Reach reads w → Step reads w v → Reach reads v
