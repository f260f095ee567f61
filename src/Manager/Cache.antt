-- ===== src/Manager/Cache.antt =====
-- The operations of LotteryManager in internal/services/lottery_manager.go. The map is an association
-- list, a cacheEntry is a number that `entries` resolves, and a channel `done` is the Boolean
-- `loading`. Archive is cut at its locks: access, finish_load and touch each run under the mutex, and
-- archive is their composition with nothing in between. A call that waits for a channel that
-- nobody closes is `blocked`.
use Prim.Native.String.{String}
use stat_tree_server.Base.{
  ℕ, suc, ◌/◌, Bool, true, false, ◌&&◌, List, [], ◌∷◌, Option, none, some, length, ltb, ◌==◌,
  if◌then◌else◌,
}
use stat_tree_server.Models.{LotteryResult}
use stat_tree_server.Archive.{LotteryArchive, lottery, new_archive}
use stat_tree_server.Manager.{normalize_window, ranges_overlap}
use stat_tree_server.Manager.Order.{Links, add_to_front, remove, move_to_front}

-- The key of a window, a text of two days or "open", is a pair of day numbers, 0 for "open".
abbrev pub Key : Type 0
Key = ℕ × ℕ

abbrev pub day_key : ℕ → ℕ
day_key t = if t == 0 then 0 else suc (t / 86400)

unfoldable pub window_key : ℕ → ℕ → Key
window_key from to = (day_key from, day_key to)

abbrev pub same_key : Key → Key → Bool
same_key (a, b) (c, d) = (a == c) && (b == d)

pub record CacheEntry (A : Type 0) : Type 0 where
  pub key : Key
  pub from : ℕ
  pub to : ℕ
  pub arch : Option A
  pub loading : Bool
  pub err : Option String

pub record LotteryManager (A : Type 0) : Type 0 where
  pub cache : List (Key × ℕ)
  pub links : Links
  pub entries : ℕ → CacheEntry A
  pub next_id : ℕ

abbrev pub max_cache_entries : ℕ
max_cache_entries = 8

abbrev pub no_links : Links
no_links = record { prev = λ i. none; next = λ i. none; head = none; tail = none }

abbrev pub no_entry : {A : Type 0} → CacheEntry A
no_entry = record { key = (0, 0); from = 0; to = 0; arch = none; loading = false; err = none }

unfoldable pub new_manager : {A : Type 0} → LotteryManager A
new_manager = record { cache = []; links = no_links; entries = λ i. no_entry; next_id = 0 }

-- `m.cache[key]`
abbrev pub find_key : Key → List (Key × ℕ) → Option ℕ
find_key k [] = none
find_key k ((j, e) ∷ cache) = if same_key j k then some e else find_key k cache

-- `delete(m.cache, key)`
abbrev pub delete_key : Key → List (Key × ℕ) → List (Key × ℕ)
delete_key k [] = []
delete_key k ((j, e) ∷ cache) =
    let rest = delete_key k cache in if same_key j k then rest else (j, e) ∷ rest

abbrev pub store : {A : Type 0} → (ℕ → CacheEntry A) → ℕ → CacheEntry A → ℕ → CacheEntry A
store f i v j = if j == i then v else f j

-- The answer of Archive.
pub data Answer (A : Type 0) : Type 0 where
  found : Option A → Answer A
  error : String → Answer A
  blocked : Answer A

-- What build returns: an archive or an error, of which the text leaves out the window and the cause.
pub data Loaded (A : Type 0) : Type 0 where
  built : A → Loaded A
  failed : String → Loaded A

abbrev pub answer_of : {A : Type 0} → Loaded A → Answer A
answer_of (built a) = found (some a)
answer_of (failed text) = error text

-- Where the first section of Archive leaves: with a ready entry, an entry in flight or a new one.
pub data Access : Type 0 where
  ready waiting missing : ℕ → Access

module _ {A : Type 0} where
  -- `m.remove(e); delete(m.cache, key)`
  unfoldable pub evict : Key → ℕ → LotteryManager A → LotteryManager A
  unfolding remove
  evict k e m = record m { cache = delete_key k m.cache; links = remove e m.links }

  abbrev pub evict_idle : Option ℕ → LotteryManager A → LotteryManager A
  evict_idle none m = m
  evict_idle (some victim) m =
      if (m.entries victim).loading then m else evict (m.entries victim).key victim m

  -- a miss: the new entry, and the eviction of the least recently used one
  unfoldable pub add_entry : Key → ℕ → ℕ → LotteryManager A → LotteryManager A
  unfolding add_to_front
  add_entry k from to m = record {
    cache = (k, m.next_id) ∷ m.cache;
    links = add_to_front m.next_id m.links;
    entries =
        store m.entries m.next_id
          (record { key = k; from = from; to = to; arch = none; loading = true; err = none });
    next_id = suc m.next_id;
  }

  unfoldable pub trim : LotteryManager A → LotteryManager A
  unfolding evict
  trim m = if ltb max_cache_entries (length m.cache) then evict_idle m.links.tail m else m

  -- the first section of Archive, for a normalized window
  unfoldable pub access : ℕ → ℕ → LotteryManager A → Access × LotteryManager A
  unfolding add_entry trim window_key
  access from to m = looked_up (find_key (window_key from to) m.cache)
    where
      looked_up : Option ℕ → Access × LotteryManager A
      looked_up (some e) = (if (m.entries e).loading then waiting e else ready e, m)
      looked_up none = (missing m.next_id, trim (add_entry (window_key from to) from to m))

  -- the section after a hit
  unfoldable pub touch : ℕ → LotteryManager A → LotteryManager A
  unfolding move_to_front
  touch e m = record m { links = move_to_front e m.links }

  -- the last section of a miss, with the built archive or an error
  unfoldable pub finish_load : Key → ℕ → Loaded A → LotteryManager A → LotteryManager A
  unfolding evict
  finish_load k e (failed text) m = evict k e (record m {
    entries =
        store m.entries e (record (m.entries e) { arch = none; loading = false; err = some text });
  })
  finish_load k e (built a) m = record m {
    entries =
        store m.entries e (record (m.entries e) { arch = some a; loading = false; err = none });
  }

  -- Archive, with nothing between its sections
  unfoldable pub archive :
      (ℕ → ℕ → Loaded A) → ℕ → ℕ → LotteryManager A → Answer A × LotteryManager A
  unfolding access touch finish_load window_key normalize_window
  archive build from to m = accessed (access lo hi m)
    where
      lo : ℕ
      lo = (normalize_window from to).0

      hi : ℕ
      hi = (normalize_window from to).1

      accessed : Access × LotteryManager A → Answer A × LotteryManager A
      accessed (ready e, m') = (found (m'.entries e).arch, touch e m')
      accessed (waiting e, m') = (blocked, m')
      accessed (missing e, m') =
          let result = build lo hi in (answer_of result, finish_load (window_key lo hi) e result m')

  -- the loop of InvalidateRange
  unfoldable pub invalidate_loop : ℕ → ℕ → List (Key × ℕ) → LotteryManager A → LotteryManager A
  unfolding evict ranges_overlap
  invalidate_loop from to [] m = m
  invalidate_loop from to ((k, e) ∷ rest) m =
      invalidate_loop from to rest
        (if ranges_overlap (m.entries e).from (m.entries e).to from to then evict k e m else m)

  unfoldable pub invalidate_range : ℕ → ℕ → LotteryManager A → LotteryManager A
  unfolding invalidate_loop
  invalidate_range from to m = invalidate_loop from to m.cache m

  unfoldable pub invalidate_all : LotteryManager A → LotteryManager A
  invalidate_all m = record m { cache = []; links = no_links }

  abbrev pub cache_size : LotteryManager A → ℕ
  cache_size m = length m.cache

-- build, with GetByDateRange of the repository, if there is one
unfoldable pub build :
    {F : Type 0}
    → Option (ℕ → ℕ → Option (List (LotteryResult F)))
    → ℕ
    → ℕ
    → Loaded (LotteryArchive F)
unfolding new_archive
build {F = F} repo from to = loaded repo
  where
    archive_of : Option (List (LotteryResult F)) → Loaded (LotteryArchive F)
    archive_of none = failed "lottery manager: load draws"
    archive_of (some draws) = built (new_archive lottery from to draws)

    loaded : Option (ℕ → ℕ → Option (List (LotteryResult F))) → Loaded (LotteryArchive F)
    loaded none = built (new_archive lottery from to [])
    loaded (some get_by_date_range) = archive_of (get_by_date_range from to)
