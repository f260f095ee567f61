-- ===== src/Repository/Dates.antt =====
-- The range of dates that InsertNewDraws (internal/repository/lottery_result_repository.go) and
-- SeedMissingPrizes (internal/seeder/prize_seeder.go) report.
use stat_tree_server.Base.{ℕ, ◌+◌, ◌≤◌, ◌≡◌, ◌≢◌, List, [], ◌∷◌, arith, length, All}
use stat_tree_server.Repository.{Tally, tally_draw}

-- The tally of a list of dates, after `t`.
unfoldable pub tally_all : List ℕ → Tally → Tally
unfolding tally_draw
tally_all [] t = t
tally_all (d ∷ dates) t = tally_all dates (tally_draw d t)

abbrev pub Covers : Tally → ℕ → Type 0
Covers t date = t.min_date ≤ date × date ≤ t.max_date × t.min_date ≢ 0

pub tally_draw-Covers : (date : ℕ) (t : Tally) → date ≢ 0 → Covers (tally_draw date t) date
unfolding tally_draw
tally_draw-Covers date t pos = (ground arith, ground arith, ground arith)

pub tally_draw_keeps :
    (date d : ℕ) (t : Tally) → d ≢ 0 → Covers t date → Covers (tally_draw d t) date
unfolding tally_draw
tally_draw_keeps date d t pos c = (ground arith, ground arith, ground arith)

tally_all_keeps :
    (date : ℕ) (dates : List ℕ) (t : Tally)
    → All (λ d. d ≢ 0) dates
    → Covers t date
    → Covers (tally_all dates t) date
unfolding tally_all
tally_all_keeps date [] t a c = c
tally_all_keeps date (d ∷ dates) t a c =
    tally_all_keeps date dates (tally_draw d t) a.1 (tally_draw_keeps date d t a.0 c)

-- The reported range holds every date of the list, if none of them is the zero time.
pub tally_all-Covers :
    (dates : List ℕ) (t : Tally) → All (λ d. d ≢ 0) dates → All (Covers (tally_all dates t)) dates
unfolding tally_all
tally_all-Covers [] t a = tt
tally_all-Covers (d ∷ dates) t a = (
  tally_all_keeps d dates (tally_draw d t) a.1 (tally_draw-Covers d t a.0),
  tally_all-Covers dates (tally_draw d t) a.1,
)

pub written-tally_all :
    (dates : List ℕ) (t : Tally) → (tally_all dates t).written ≡ t.written + length dates
unfolding tally_all tally_draw
written-tally_all [] t = omega arith
written-tally_all (d ∷ dates) t = omega (arith, written-tally_all dates (tally_draw d t))
