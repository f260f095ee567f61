-- ===== src/Service/Statistics.antt =====
-- GetStatistics of internal/services/lottery_service.go, from the request to the ranking of groups.
use mathlib.Core.Path.{subst}
use stat_tree_server.Base.{
  ℕ, ◌≤◌, ◌<◌, ◌≡◌, refl, sym, ap, ◌∙◌, Bool, List, arith, length, take, ltb, if◌then◌else◌, All,
  Bool-cases, inl, inr,
}
use stat_tree_server.Base.Sort.{sort_stable}
use stat_tree_server.Models.{LotteryResult}
use stat_tree_server.Tree.{before}
use stat_tree_server.Tree.Frequency.{Ascends}
use stat_tree_server.Tree.Reports.{ranking}
use stat_tree_server.Convert.{int32_of_int, int_of_int32}
use stat_tree_server.Archive.{LotteryArchive, lottery, new_archive}
use stat_tree_server.Archive.Groups.{numbers_of, top_groups-ranking}
use stat_tree_server.Manager.Cache.{LotteryManager, window_key}
use stat_tree_server.Manager.Answers.{IsCache}
use stat_tree_server.Service.{
  Repo, load_archive, Reply, reply, refused, crashed, stuck, load_failed, invalid_argument,
  unsupported_group_size, GetStatisticsRequest, GetStatisticsResponse, get_statistics,
  statistics_of, pairs_of, positive_or, strength_mode, with_archive,
}
use stat_tree_server.Service.Load.{IsDrawn, IsGiving, Fails, request_key, with_archive_ends}

positive_or_pos : (d v : ℕ) → 0 < d → 0 < positive_or d v
unfolding int_of_int32
positive_or_pos d v h = ground arith

-- The statistics of draws: the most frequent groups of the size, of all that some draw holds.
unfoldable pub statistics :
    {F : Type 0} → GetStatisticsRequest → List (LotteryResult F) → GetStatisticsResponse
statistics req draws = record {
  pairs = pairs_of (
      take (positive_or 10 req.how_many) (
        sort_stable (before (strength_mode req.strength))
          (ranking 37 (positive_or 2 req.form_type) (numbers_of draws))));
  total_draws_in_range = int32_of_int (length draws);
}

module _ {F : Type 0} where
  statistics_of-new :
      (req : GetStatisticsRequest) (from to : ℕ) (draws : List (LotteryResult F))
      → All (Ascends 0) (numbers_of draws)
      → positive_or 2 req.form_type ≤ 6
      → statistics_of req (new_archive lottery from to draws) ≡ statistics req draws
  unfolding statistics_of statistics new_archive
  statistics_of-new req from to draws asc fits =
      ap (λ l. record { pairs = pairs_of l; total_draws_in_range = int32_of_int (length draws) })
        (top_groups-ranking lottery from to draws (positive_or 10 req.how_many)
          (positive_or 2 req.form_type) (strength_mode req.strength) asc
          (positive_or_pos 10 req.how_many (omega arith))
          (positive_or_pos 2 req.form_type (omega arith)) fits)

module _ {F : Type 0} (G : ℕ → ℕ → List (LotteryResult F) → Type 0) (E : ℕ → ℕ → Type 0) where
  -- How GetStatistics ends.
  abbrev pub HasStatistics :
      GetStatisticsRequest
      → LotteryManager (LotteryArchive F)
      → Reply GetStatisticsResponse × LotteryManager (LotteryArchive F)
      → Type 0
  HasStatistics req m (reply resp, m') =
      (from : ℕ) × (to : ℕ) × (draws : List (LotteryResult F)) × (window_key from to
        ≡ request_key req.window)
      × G from to draws
      × (resp ≡ statistics req draws)
      × IsCache (IsDrawn G) m'
  HasStatistics req m (refused (load_failed text), m') = Fails G E req.window m'
  HasStatistics req m (refused (invalid_argument text), m') = ⊥
  HasStatistics req m (refused unsupported_group_size, m') =
      (6 < positive_or 2 req.form_type) × (m' ≡ m)
  HasStatistics req m (crashed, m') = ⊥
  HasStatistics req m (stuck, m') = ⊥

  -- On a cache that is in order, and a repository whose draws have ascending numbers, GetStatistics
  -- either refuses a group size above six and leaves the cache alone, or fails with the load of the
  -- archive, or answers with the statistics of draws that the repository gives for the window: of all
  -- groups of the size that some draw holds, the most (or least) frequent ones with their numbers of
  -- draws. The cache is in order again; no call panics or waits without end.
  pub get_statistics-HasStatistics :
      (repo : Repo F) (req : GetStatisticsRequest) (m : LotteryManager (LotteryArchive F))
      → ((from to : ℕ) (draws : List (LotteryResult F))
          → G from to draws
          → All (Ascends 0) (numbers_of draws))
      → IsGiving G E repo
      → IsCache (IsDrawn G) m
      → HasStatistics req m (get_statistics repo req m)
  unfolding get_statistics
  get_statistics-HasStatistics repo req m ascending g c =
      elim (Bool-cases (ltb 6 (positive_or 2 req.form_type))) [
        | inl large ↦ subst served (sym large) (ground arith, refl)
        | inr small ↦
            let fits : positive_or 2 req.form_type ≤ 6 = ground arith in
            subst served (sym small) (
              with_archive_ends G E repo req.window m g c (HasStatistics req m)
                (λ a. reply (statistics_of req a))
                (λ a m' (from, to, draws, is_new, key, given) c'. (
                  from,
                  to,
                  draws,
                  key,
                  given,
                  ap (statistics_of req) is_new
                      ∙ statistics_of-new req from to draws (ascending from to draws given) fits,
                  c',
                ))
                (λ text m' h. h))
      ]
    where
      served : Bool → Type 0
      served b = HasStatistics req m (
          if b
          then (refused unsupported_group_size, m)
          else with_archive (λ a. reply (statistics_of req a)) (load_archive repo req.window m))
