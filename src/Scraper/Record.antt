-- ===== src/Scraper/Record.antt =====
-- A record of the CSV file of internal/scraper/pais_scraper.go: how parseRecord ends on one whose
-- draw number, date and six numbers can be read.
use stat_tree_server.Base.{ℕ, ◌≡◌, refl, false, List, [], ◌∷◌, Option, some, arith, length, ltb}
use stat_tree_server.Models.{LotteryResult}
use stat_tree_server.Base.Texts.{Text}
use stat_tree_server.Scraper.{
  Parsed, parsed, panicked, on_value, trim_space, atoi, six_numbers, parse_record,
}

-- The field holds the number, with spaces around it.
abbrev pub Reads : Text → ℕ → Type 0
Reads field n = atoi (trim_space field) ≡ some n

-- The end of a record: the strong number, in the field behind the six numbers.
abbrev pub with_strong : {F : Type 0} → ℕ → ℕ → ℕ → List ℕ → List Text → Parsed (LotteryResult F)
with_strong now draw_number draw_date numbers [] = panicked
with_strong now draw_number draw_date numbers (strong_field ∷ rest) =
    on_value (atoi (trim_space strong_field)) λ strong. parsed (record {
      id = 0;
      draw_number = draw_number;
      draw_date = draw_date;
      numbers = numbers;
      strong = strong;
      lottery_type = "lotto";
      prize_amounts = [];
      created_at = now;
      updated_at = now;
    })

-- On a record that begins with a draw number, a date and six numbers, parseRecord panics if no field
-- follows; else it reads the next field as the strong number, rejects the record if that fails, and
-- returns the draw with the numbers in their order.
pub parse_record-with_strong :
    {F : Type 0} (parse_date : Text → Option ℕ) (now : ℕ)
    (number_field date_field fa fb fc fd fe ff : Text) (rest : List Text)
    (draw_number draw_date a b c d e f : ℕ)
    → Reads number_field draw_number
    → parse_date (trim_space date_field) ≡ some draw_date
    → Reads fa a
    → Reads fb b
    → Reads fc c
    → Reads fd d
    → Reads fe e
    → Reads ff f
    → parse_record {F = F} parse_date now
        (number_field ∷ date_field ∷ fa ∷ fb ∷ fc ∷ fd ∷ fe ∷ ff ∷ rest)
      ≡ with_strong now draw_number draw_date (a ∷ b ∷ c ∷ d ∷ e ∷ f ∷ []) rest
unfolding parse_record six_numbers
parse_record-with_strong parse_date now number_field date_field fa fb fc fd fe ff [] draw_number
      draw_date a b c d e f rn rd ra rb rc rd' re rf =
    rw (rn, rd, ra, rb, rc, rd', re, rf) refl
parse_record-with_strong parse_date now number_field date_field fa fb fc fd fe ff (s ∷ rest)
      draw_number draw_date a b c d e f rn rd ra rb rc rd' re rf =
    let long : ltb (length (number_field ∷ date_field ∷ fa ∷ fb ∷ fc ∷ fd ∷ fe ∷ ff ∷ s ∷ rest)) 8
        ≡ false =
      ground arith in
    rw (long, rn, rd, ra, rb, rc, rd', re, rf) refl
