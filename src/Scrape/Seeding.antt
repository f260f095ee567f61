-- ===== src/Scrape/Seeding.antt =====
-- SeedLotteryData of internal/seeder/lottery_seeder.go with CreateBatch of
-- internal/repository/lottery_result_repository.go: the table after the first load.
use stat_tree_server.Base.{
  ℕ, ◌<◌, ◌≡◌, ◌⊎◌, refl, ap, ◌∙◌, List, Option, none, some, arith, ltb, inl, inr, Bool-cases,
  Option-cases,
}
use stat_tree_server.Models.{LotteryResult}
use stat_tree_server.Repository.Queries.{Pool, count_draws, create_batch}
use stat_tree_server.Repository.Upsert.{
  IsUpserting, IsCreated, stored, last_draw, last_prizes, create_batch-IsCreated,
}
use stat_tree_server.Scrape.Seeder.{seed_lottery_data, force_seed_lottery_data}

module _ {F : Type 0} (pool : Pool F) (law : IsUpserting pool) where
  -- How SeedLotteryData ends: with an error and the table as before, with a table that had rows and
  -- is as before, or with the draws in an empty table.
  abbrev pub IsSeeded :
      pool.Rows → Option (List (LotteryResult F)) → Option {0} Unit × pool.Rows → Type 0
  IsSeeded r fetched (none, r') = r' ≡ r
  IsSeeded r fetched (some done, r') =
      ((n : ℕ) × (count_draws pool r ≡ some n) × (0 < n) × (r' ≡ r))
      ⊎ ((results : List (LotteryResult F)) × (fetched ≡ some results)
          × (count_draws pool r ≡ some 0)
          × ((n : ℕ)
              → law.content n r' ≡ stored none (last_draw n results) (last_prizes n results)))

  created-IsSeeded :
      (r : pool.Rows) (results : List (LotteryResult F)) (end : Option {0} Unit × pool.Rows)
      → count_draws pool r ≡ some 0
      → IsCreated pool law r results end
      → IsSeeded r (some results) end
  unfolding count_draws
  created-IsSeeded r results (none, r') empty h = h
  created-IsSeeded r results (some done, r') empty h = inr (
    results,
    refl,
    empty,
    λ n.
        h n
        ∙ ap (λ o. stored o (last_draw n results) (last_prizes n results)) (law.counts r n empty),
  )

  forced-IsSeeded :
      (r : pool.Rows) (fetched : Option (List (LotteryResult F)))
      → count_draws pool r ≡ some 0
      → IsSeeded r fetched (force_seed_lottery_data pool fetched r)
  unfolding force_seed_lottery_data
  forced-IsSeeded r none empty = refl
  forced-IsSeeded r (some results) empty =
      created-IsSeeded r results (create_batch pool results r) empty
        (create_batch-IsCreated pool law results r)

  -- SeedLotteryData either fails and leaves the table as before, or finds rows and leaves them alone,
  -- or finds no row and gives each draw number what the last of the fetched draws with it says, with
  -- the last prizes of these draws that are not empty.
  pub seed_lottery_data-IsSeeded :
      (fetched : Option (List (LotteryResult F))) (r : pool.Rows)
      → IsSeeded r fetched (seed_lottery_data pool fetched r)
  unfolding seed_lottery_data
  seed_lottery_data-IsSeeded fetched r = elim (Option-cases (count_draws pool r)) [
    | inl e ↦ rw e refl
    | inr (n, e) ↦ elim (Bool-cases (ltb 0 n)) [
      | inl rows ↦ rw (e, rows) (inl (n, e, ground arith, refl))
      | inr empty ↦
          let n_zero : n ≡ 0 = ground arith in
          rw (e, empty) (forced-IsSeeded r fetched (e ∙ ap some n_zero))
    ]
  ]
