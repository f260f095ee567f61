-- ===== src/Manager/Callers/Rows.antt =====
-- The table of draws for the cache of internal/services/lottery_manager.go: what build reads from it
-- for a window, and which windows a change of it leaves alone.
use stat_tree_server.Base.{
  ℕ, ◌≡◌, refl, sym, ap, ◌∙◌, Bool, false, not, List, [], ◌∷◌, some, arith, Bool-cases, inl, inr,
}
use stat_tree_server.Base.Sort.{keep}
use stat_tree_server.Models.{LotteryResult}
use stat_tree_server.Archive.{LotteryArchive, lottery, new_archive}
use stat_tree_server.Simulate.Windows.{within}
use stat_tree_server.Manager.{ranges_overlap}
use stat_tree_server.Manager.Cache.{built, build}

keep-keep :
    {A : Type 0} (p q : A → Bool) (xs : List A)
    → ((x : A) → q x ≡ false → p x ≡ false)
    → keep p (keep q xs) ≡ keep p xs
unfolding keep
keep-keep p q [] h = refl
keep-keep p q (x ∷ xs) h = elim (Bool-cases (q x)) [
  | inl in_q ↦ rw in_q (ground (arith, keep-keep p q xs h))
  | inr out ↦ rw (out, h x out) (keep-keep p q xs h)
]

-- No date lies in two ranges of which rangesOverlap says that they miss each other.
apart-outside :
    (lo hi from to date : ℕ)
    → ranges_overlap lo hi from to ≡ false
    → not (within from to date) ≡ false
    → within lo hi date ≡ false
unfolding ranges_overlap
apart-outside lo hi from to date apart inside = ground arith

module _ {F : Type 0} where
  -- What the window reads from the rows, in the order of their dates.
  unfoldable pub archive_of : List (LotteryResult F) → ℕ → ℕ → LotteryArchive F
  unfolding new_archive
  archive_of rows lo hi = new_archive lottery lo hi (keep (λ d. within lo hi d.draw_date) rows)

  -- It is the result of build.
  build-archive_of :
      (rows : List (LotteryResult F)) (lo hi : ℕ)
      → build (some (λ from to. some (keep (λ d. within from to d.draw_date) rows))) lo hi
        ≡ built (archive_of rows lo hi)
  unfolding build archive_of
  build-archive_of rows lo hi = refl

  -- The rows outside the range are the same.
  abbrev pub SameOutside : ℕ → ℕ → List (LotteryResult F) → List (LotteryResult F) → Type 0
  SameOutside from to rows rows' =
      keep (λ d. not (within from to d.draw_date)) rows'
      ≡ keep (λ d. not (within from to d.draw_date)) rows

  -- A change of rows with dates in a range changes no window that misses the range.
  pub archive_of-apart :
      (rows rows' : List (LotteryResult F)) (from to : ℕ)
      → SameOutside from to rows rows'
      → (lo hi : ℕ) → ranges_overlap lo hi from to ≡ false
      → archive_of rows' lo hi ≡ archive_of rows lo hi
  unfolding archive_of
  archive_of-apart rows rows' from to same lo hi apart =
      let q = λ (d : LotteryResult F). not (within from to d.draw_date) in
      let p = λ (d : LotteryResult F). within lo hi d.draw_date in
      let out = λ (d : LotteryResult F). apart-outside lo hi from to d.draw_date apart in
      ap (new_archive lottery lo hi)
        (sym (keep-keep p q rows' out) ∙ ap (keep p) same ∙ keep-keep p q rows out)
