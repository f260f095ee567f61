-- ===== src/Service/Load.antt =====
-- The method archive of internal/services/lottery_service.go, and the archives that it loads.
use Prim.Native.String.{String}
use mathlib.Core.Path.{subst}
use stat_tree_server.Base.{ℕ, ◌≡◌, refl, List, [], Option, none, some}
use stat_tree_server.Models.{LotteryResult}
use stat_tree_server.Archive.{LotteryArchive, lottery, new_archive}
use stat_tree_server.Simulate.{DateWindow, window_from_proto}
use stat_tree_server.Manager.{normalize_window}
use stat_tree_server.Manager.Cache.{
  Key, LotteryManager, Loaded, built, failed, window_key, find_key, build, Answer, found, error,
  blocked,
}
use stat_tree_server.Manager.Answers.{IsCache, IsAnswered, archive-IsAnswered}
use stat_tree_server.Service.{Repo, load_archive, Reply, refused, load_failed, with_archive}

-- The key of the window that a request asks for.
abbrev pub request_key : Option DateWindow → Key
request_key w =
    let (from, to) = window_from_proto w in
    let (lo, hi) = normalize_window from to in window_key lo hi

-- `G` says which draws the repository gives for a window.
module _ {F : Type 0} (G : ℕ → ℕ → List (LotteryResult F) → Type 0) where
  -- An archive of draws that the repository has given for a window with the key.
  abbrev pub IsDrawn : Key → LotteryArchive F → Type 0
  IsDrawn k a =
      (from : ℕ) × (to : ℕ) × (draws : List (LotteryResult F)) × (a
        ≡ new_archive lottery from to draws)
      × (window_key from to ≡ k)
      × G from to draws

-- `E` says when the repository fails for a window.
module _ {F : Type 0} (G : ℕ → ℕ → List (LotteryResult F) → Type 0) (E : ℕ → ℕ → Type 0) where
  abbrev pub IsGiven : ℕ → ℕ → Option (List (LotteryResult F)) → Type 0
  IsGiven from to none = E from to
  IsGiven from to (some draws) = G from to draws

  -- The repository gives such draws or fails so, and there are none without a repository.
  abbrev pub IsGiving : Repo F → Type 0
  IsGiving none = (from to : ℕ) → G from to []
  IsGiving (some get) = (from to : ℕ) → IsGiven from to (get from to)

  abbrev IsLoaded : ℕ → ℕ → Loaded (LotteryArchive F) → Type 0
  IsLoaded from to (built a) = IsDrawn G (window_key from to) a
  IsLoaded from to (failed text) = E from to

  build-IsLoaded :
      (repo : Repo F) (from to : ℕ) → IsGiving repo → IsLoaded from to (build repo from to)
  unfolding build
  build-IsLoaded none from to g = (from, to, [], refl, refl, g from to)
  build-IsLoaded (some get) from to g = read (get from to) (g from to)
    where
      read :
          (r : Option (List (LotteryResult F)))
          → IsGiven from to r
          → IsLoaded from to (build (some (λ x y. r)) from to)
      read none h = h
      read (some draws) h = (from, to, draws, refl, refl, h)

  -- The repository fails for the window of a request, and the cache, which is in order, has no
  -- archive for it.
  abbrev pub Fails : Option DateWindow → LotteryManager (LotteryArchive F) → Type 0
  Fails w m =
      (let (from, to) = window_from_proto w in let (lo, hi) = normalize_window from to in E lo hi)
      × (find_key (request_key w) m.cache ≡ none)
      × IsCache (IsDrawn G) m

  load_archive-IsAnswered :
      (repo : Repo F) (w : Option DateWindow) (m : LotteryManager (LotteryArchive F))
      → IsGiving repo
      → IsCache (IsDrawn G) m
      → (let (from, to) = window_from_proto w in
          let (lo, hi) = normalize_window from to in
          IsAnswered (IsDrawn G) (request_key w) (build repo lo hi) (load_archive repo w m))
  unfolding load_archive
  load_archive-IsAnswered repo w m g c =
      let (from, to) = window_from_proto w in
      let (lo, hi) = normalize_window from to in
      archive-IsAnswered (IsDrawn G) (build repo) from to m
        (λ a e. subst (IsLoaded lo hi) e (build-IsLoaded repo lo hi g)) c

  answered_ends :
      {B : Type 0} (Q : Reply B × LotteryManager (LotteryArchive F) → Type 0)
      (rest : LotteryArchive F → Reply B) (k : Key) (b : Loaded (LotteryArchive F))
      (r : Answer (LotteryArchive F) × LotteryManager (LotteryArchive F))
      → IsAnswered (IsDrawn G) k b r
      → ((a : LotteryArchive F) (m : LotteryManager (LotteryArchive F))
          → IsDrawn G k a
          → IsCache (IsDrawn G) m
          → Q (rest a, m))
      → ((text : String) (m : LotteryManager (LotteryArchive F))
          → (b ≡ failed text) × (find_key k m.cache ≡ none) × IsCache (IsDrawn G) m
          → Q (refused (load_failed text), m))
      → Q (with_archive rest r)
  answered_ends Q rest k b (found none, m) h on_archive on_error = absurd h
  answered_ends Q rest k b (found (some a), m) (drawn, held, c) on_archive on_error =
      on_archive a m drawn c
  answered_ends Q rest k b (error text, m) h on_archive on_error = on_error text m h
  answered_ends Q rest k b (blocked, m) h on_archive on_error = absurd h

  -- A handler ends as the rest does on an archive for the window, or with the error of a load that
  -- fails.
  pub with_archive_ends :
      {B : Type 0} (repo : Repo F) (w : Option DateWindow) (m : LotteryManager (LotteryArchive F))
      → IsGiving repo
      → IsCache (IsDrawn G) m
      → (Q : Reply B × LotteryManager (LotteryArchive F) → Type 0)
        (rest : LotteryArchive F → Reply B)
      → ((a : LotteryArchive F) (m' : LotteryManager (LotteryArchive F))
          → IsDrawn G (request_key w) a
          → IsCache (IsDrawn G) m'
          → Q (rest a, m'))
      → ((text : String) (m' : LotteryManager (LotteryArchive F))
          → Fails w m'
          → Q (refused (load_failed text), m'))
      → Q (with_archive rest (load_archive repo w m))
  with_archive_ends repo w m g c Q rest on_archive on_error =
      let (from, to) = window_from_proto w in
      let (lo, hi) = normalize_window from to in
      answered_ends Q rest (request_key w) (build repo lo hi) (load_archive repo w m)
        (load_archive-IsAnswered repo w m g c) on_archive
        (λ text m' (e, gone, c').
          on_error text m' (subst (IsLoaded lo hi) e (build-IsLoaded repo lo hi g), gone, c'))
