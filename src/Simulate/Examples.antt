-- ===== src/Simulate/Examples.antt =====
-- Concrete forms, windows and draws for internal/services/simulate.go.
use stat_tree_server.Base.{
  ℕ, ◌+◌, ◌-◌, ◌*◌, ◌/◌, ◌≡◌, refl, inl, true, List, [], ◌∷◌, none, some, length, ltb, leb,
}
use stat_tree_server.Models.{Float64}
use stat_tree_server.Combos.Spec.{choose}
use stat_tree_server.Simulate.{
  DateWindow, union_windows, simulate_combinations, count_hits, matches, no_hits,
}
use stat_tree_server.Simulate.Windows.{in_window, union_windows-covers}
use stat_tree_server.Simulate.Tiers.{table, count_hits-hypergeometric}

-- Whole numbers in the place of float64.
abbrev whole : Float64
whole = record {
  F = ℕ;
  of_nat = λ n. n;
  add = λ a b. a + b;
  sub = λ a b. a - b;
  mul = λ a b. a * b;
  div = λ a b. a / b;
  lt = ltb;
  le = leb;
}

abbrev early : DateWindow
early = record { from = some 1; to = some 4 }

abbrev late : DateWindow
late = record { from = some 6; to = none }

abbrev form : List ℕ
form = 1 ∷ 2 ∷ 3 ∷ 4 ∷ 5 ∷ 7 ∷ 30 ∷ 31 ∷ []

union_windows-covers_example :
    (u : DateWindow) × (union_windows (some early) (some late) ≡ some u) × (in_window u 3 ≡ true)
union_windows-covers_example = union_windows-covers early late 3 (inl refl)

-- Five of the eight numbers are in the first draw.
five_matches : matches (1 ∷ 2 ∷ 3 ∷ 4 ∷ 5 ∷ 6 ∷ []) form + 3 ≡ length form
unfolding matches
five_matches = refl

count_hits-hypergeometric_example :
    count_hits (1 ∷ 2 ∷ 3 ∷ 4 ∷ 5 ∷ 6 ∷ []) true (simulate_combinations form 6) no_hits
    ≡ table true 0 3 15 10
unfolding choose matches
count_hits-hypergeometric_example =
    count_hits-hypergeometric (1 ∷ 2 ∷ 3 ∷ 4 ∷ 5 ∷ 6 ∷ []) form true 3 five_matches
