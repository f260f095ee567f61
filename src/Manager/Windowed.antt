-- ===== src/Manager/Windowed.antt =====
-- Archive and build of internal/services/lottery_manager.go together: the archives that the cache
-- hands out.
use mathlib.Core.Path.{subst}
use stat_tree_server.Base.{ℕ, ◌≡◌, refl, ap, ◌∙◌, List, Option, none, some}
use stat_tree_server.Models.{LotteryResult}
use stat_tree_server.Archive.{LotteryArchive, new_archive}
use stat_tree_server.Manager.{normalize_window}
use stat_tree_server.Manager.Cache.{
  Key, LotteryManager, Answer, found, error, blocked, Loaded, built, failed, window_key, access,
  archive, build,
}
use stat_tree_server.Manager.Answers.{IsCache, IsAnswered, Holds, archive-IsAnswered}

-- The archive is for a window with the key.
abbrev pub IsFor : {F : Type 0} → Key → LotteryArchive F → Type 0
IsFor k a = window_key a.from a.to ≡ k

abbrev IsLoaded : {F : Type 0} → Key → Loaded (LotteryArchive F) → Type 0
IsLoaded k (built a) = IsFor k a
IsLoaded k (failed text) = Unit

module _ {F : Type 0} where
  build-IsLoaded :
      (repo : Option (ℕ → ℕ → Option (List (LotteryResult F)))) (from to : ℕ)
      → IsLoaded (window_key from to) (build repo from to)
  unfolding build new_archive
  build-IsLoaded none from to = refl
  build-IsLoaded (some get) from to = read (get from to)
    where
      read :
          (r : Option (List (LotteryResult F)))
          → IsLoaded (window_key from to) (build (some (λ x y. r)) from to)
      read none = tt
      read (some draws) = refl

  pub archive_build-IsAnswered :
      (repo : Option (ℕ → ℕ → Option (List (LotteryResult F)))) (from to : ℕ)
      (m : LotteryManager (LotteryArchive F))
      → IsCache IsFor m
      → (let (lo, hi) = normalize_window from to in
          IsAnswered IsFor (window_key lo hi) (build repo lo hi) (archive (build repo) from to m))
  archive_build-IsAnswered repo from to m c =
      archive-IsAnswered IsFor (build repo) from to m
        (let (lo, hi) = normalize_window from to in
          λ a e. subst (IsLoaded (window_key lo hi)) e (build-IsLoaded repo lo hi))
        c

module _ {A : Type 0} (P : Key → A → Type 0) where
  held-archive :
      (b : ℕ → ℕ → Loaded A) (from to : ℕ) (m : LotteryManager A) (a : A)
      → IsCache P m
      → (let (lo, hi) = normalize_window from to in Holds P m (window_key lo hi) a)
      → (archive b from to m).0 ≡ found (some a)
  unfolding archive access
  held-archive b from to m a c (i, at_key, arch) = rw (at_key, c.idle i, arch) refl

  answered_again :
      (k : Key) (b : Loaded A) (a : A) (r : Answer A × LotteryManager A)
      → r.0 ≡ found (some a)
      → IsAnswered P k b r
      → IsCache P r.1 × Holds P r.1 k a
  answered_again k b a (found none, m) e h = absurd h
  answered_again k b a (found (some x), m) e (good, (i, at_key, arch), c) =
      (c, (i, at_key, arch ∙ ap answered e))
    where
      answered : Answer A → Option A
      answered (found o) = o
      answered (error text) = none
      answered blocked = none
  answered_again k b a (error text, m) e h = absurd (subst IsError e tt)
    where
      IsError : Answer A → Type 0
      IsError (found o) = ⊥
      IsError (error t) = Unit
      IsError blocked = Unit
  answered_again k b a (blocked, m) e h = absurd h

  -- A second call for a window gets the archive of the first, whatever a build would give now.
  pub archive_again :
      (first second : ℕ → ℕ → Loaded A) (from to : ℕ) (m : LotteryManager A) (a : A)
      → (let (lo, hi) = normalize_window from to in
          (x : A) → first lo hi ≡ built x → P (window_key lo hi) x)
      → IsCache P m
      → (archive first from to m).0 ≡ found (some a)
      → (archive second from to (archive first from to m).1).0 ≡ found (some a)
  archive_again first second from to m a builds c e =
      let (lo, hi) = normalize_window from to in
      let (c', held) =
        answered_again (window_key lo hi) (first lo hi) a (archive first from to m) e
          (archive-IsAnswered P first from to m builds c) in
      held-archive second from to (archive first from to m).1 a c' held
