-- ===== src/Scraper/Examples.antt =====
-- A page of prizes for internal/scraper/pais_scraper.go. A label of the page
-- is its kind (1, 2 or 3) before its text.
use stat_tree_server.Base.{
  ℕ, ◌+◌, ◌≡◌, refl, ap, Bool, List, [], ◌∷◌, ◌++◌, Option, none, some, ◌==◌, if◌then◌else◌,
}
use stat_tree_server.Base.Sort.{keep}
use stat_tree_server.Base.Texts.{Text}
use stat_tree_server.Scraper.{
  Patterns, tier_label_to_index, parse_hebrew_number, parse_amount, trim_space, trim_left,
  trim_right, atoi, unsigned, digits_value,
}
use stat_tree_server.Scraper.Table.{parse_table}
use stat_tree_server.Scraper.Prizes.{Row, IsRow, AreRows, labels_of, paid_amounts, parse_table-rows}

of_kind : ℕ → Text → Option Text
of_kind k [] = none
of_kind k (c ∷ cs) = if c == k then some cs else none

tier_of : Option Text → Option (Text × Bool)
tier_of none = none
tier_of (some []) = none
tier_of (some (s ∷ num)) = some (num, s == 1)

abbrev patterns : Patterns
patterns = record {
  tier_label = λ s. tier_of (of_kind 1 s);
  winners = of_kind 2;
  prize = of_kind 3;
  first_prize = of_kind 4;
  second_prize = of_kind 5;
}

-- A row with a digit for its tier and its winners, and two for its amount.
abbrev row : ℕ → ℕ → ℕ → ℕ → ℕ → Row
row num s w a amount = record {
  tier_text = 1 ∷ s ∷ num ∷ [];
  winners_text = 2 ∷ (w + 48) ∷ [];
  amount_text = 3 ∷ (a + 48) ∷ 44 ∷ 48 ∷ [];
  winners = w;
  amount = amount;
}

row-IsRow :
    (i num s w a amount : ℕ)
    → tier_label_to_index (num ∷ []) (s == 1) ≡ some i
    → parse_hebrew_number ((w + 48) ∷ []) ≡ w
    → parse_hebrew_number ((a + 48) ∷ 44 ∷ 48 ∷ []) ≡ amount
    → IsRow patterns i (row num s w a amount)
unfolding of_kind tier_of
row-IsRow i num s w a amount index winners prize = record {
  tier = (num ∷ [], s == 1, refl, index);
  has_winners = ap some winners;
  has_amount = ap some prize;
  no_amount = refl;
  no_tier = refl;
  no_tier_after = refl;
}

abbrev rows : List Row
rows =
    row 54 1 0 9 90
    ∷ row 54 0 2 8 80
    ∷ row 53 1 3 7 70
    ∷ row 53 0 4 6 60
    ∷ row 52 1 5 5 50
    ∷ row 52 0 6 4 40
    ∷ row 51 1 7 3 30
    ∷ row 51 0 8 2 20
    ∷ []

rows-AreRows : AreRows patterns 0 rows
unfolding tier_label_to_index parse_hebrew_number trim_space trim_left trim_right atoi unsigned
    digits_value keep
rows-AreRows = (
  row-IsRow 0 54 1 0 9 90 refl refl refl,
  (
    row-IsRow 1 54 0 2 8 80 refl refl refl,
    (
      row-IsRow 2 53 1 3 7 70 refl refl refl,
      (
        row-IsRow 3 53 0 4 6 60 refl refl refl,
        (
          row-IsRow 4 52 1 5 5 50 refl refl refl,
          (
            row-IsRow 5 52 0 6 4 40 refl refl refl,
            (row-IsRow 6 51 1 7 3 30 refl refl refl, (row-IsRow 7 51 0 8 2 20 refl refl refl, tt)),
          ),
        ),
      ),
    ),
  ),
)

parse_table-rows_example :
    parse_table patterns (labels_of rows ++ (2 ∷ 57 ∷ []) ∷ []) (4 ∷ 53 ∷ 48 ∷ [])
    ≡ some (paid_amounts (parse_amount (some (53 ∷ 48 ∷ []))) (parse_amount none) rows)
unfolding of_kind
parse_table-rows_example =
    parse_table-rows patterns (row 54 1 0 9 90) (row 54 0 2 8 80) (row 53 1 3 7 70)
      (row 53 0 4 6 60) (row 52 1 5 5 50) (row 52 0 6 4 40) (row 51 1 7 3 30) (row 51 0 8 2 20)
      ((2 ∷ 57 ∷ []) ∷ []) (4 ∷ 53 ∷ 48 ∷ []) rows-AreRows
