-- ===== src/Scraper/Table.antt =====
-- parsePrizeHTML of internal/scraper/pais_scraper.go, from the labels of the page to the amounts of the
-- eight tiers. The amounts, which the code keeps as float64, are natural numbers; winners and an
-- amount that are still to be found, -1 in the code, are `none`.
use stat_tree_server.Base.{
  ℕ, suc, Bool, ◌&&◌, List, [], ◌∷◌, Option, none, some, get_or, set, take, ltb, ◌==◌,
  if◌then◌else◌,
}
use stat_tree_server.Base.Texts.{Text}
use stat_tree_server.Scraper.{
  Patterns, HtmlNode, aria_labels, text_content, tier_label_to_index, parse_hebrew_number,
  parse_amount,
}

-- What the walk over the labels keeps: tierAmounts, tierWinners and tiersFound.
pub record Tiers : Type 0 where
  pub amounts : List ℕ
  pub winners : List ℕ
  pub found : ℕ

abbrev pub no_tiers : Tiers
no_tiers = record {
  amounts = 0 ∷ 0 ∷ 0 ∷ 0 ∷ 0 ∷ 0 ∷ 0 ∷ 0 ∷ [];
  winners = 0 ∷ 0 ∷ 0 ∷ 0 ∷ 0 ∷ 0 ∷ 0 ∷ 0 ∷ [];
  found = 0;
}

-- `if winners < 0 { if wm := … }`, with the value that the pattern matches
abbrev pub number_at : Option Text → Option ℕ
number_at none = none
number_at (some s) = some (parse_hebrew_number s)

abbrev pub unless_found : Option ℕ → Option Text → Option ℕ
unless_found (some n) m = some n
unless_found none m = number_at m

-- `if winners >= 0 && amount >= 0`
abbrev pub record_tier : ℕ → Option ℕ × Option ℕ → Tiers → Tiers
record_tier i (none, amount) t = t
record_tier i (some winners, none) t = t
record_tier i (some winners, some amount) t = record {
  amounts = set t.amounts i amount;
  winners = set t.winners i winners;
  found = suc t.found;
}

module _ (p : Patterns) where
  -- the loop over the next labels
  unfoldable pub look_ahead : List Text → Option ℕ → Option ℕ → Option ℕ × Option ℕ
  unfolding parse_hebrew_number
  look_ahead [] winners amount = (winners, amount)
  look_ahead (label ∷ labels) winners amount =
      look_ahead labels (unless_found winners (p.winners label))
        (unless_found amount (p.prize label))

  -- the body of the loop: a label, and the labels behind it
  abbrev pub at_tier : Option ℕ → List Text → Tiers → Tiers
  at_tier none labels t = t
  at_tier (some i) labels t = record_tier i (look_ahead (take 4 labels) none none) t

  unfoldable pub at_label : Option (Text × Bool) → List Text → Tiers → Tiers
  unfolding look_ahead tier_label_to_index
  at_label none labels t = t
  at_label (some (num, strong)) labels t = at_tier (tier_label_to_index num strong) labels t

  unfoldable pub tier_loop : List Text → Tiers → Tiers
  unfolding at_label
  tier_loop [] t = t
  tier_loop (label ∷ labels) t =
      let t' = at_label (p.tier_label label) labels t in
      let rest = tier_loop labels t' in if ltb t.found 8 then rest else t

  -- `if tierWinners[i] == 0 && prize > 0 { tierAmounts[i] = prize }`
  abbrev pub advertised : ℕ → ℕ → Tiers → Tiers
  advertised i prize t =
      if (get_or t.winners i 0 == 0) && ltb 0 prize
      then record t { amounts = set t.amounts i prize }
      else t

  -- the labels of the table and the text of the page
  unfoldable pub parse_table : List Text → Text → Option (List ℕ)
  unfolding tier_loop parse_hebrew_number
  parse_table labels page_text =
      let t = tier_loop labels no_tiers in
      let first = parse_amount (p.first_prize page_text) in
      let second = parse_amount (p.second_prize page_text) in
      if ltb t.found 8 then none else some (advertised 1 second (advertised 0 first t)).amounts

  -- `none` is a page that html.Parse rejects
  unfoldable pub parse_prize_html : Option HtmlNode → Option (List ℕ)
  unfolding parse_table aria_labels text_content
  parse_prize_html none = none
  parse_prize_html (some doc) = parse_table (aria_labels doc) (text_content doc)

  -- FetchPrizeAmounts, on the response to its request: the status and the parsed body
  unfoldable pub fetch_prize_amounts : Option (ℕ × Option HtmlNode) → Option (List ℕ)
  unfolding parse_prize_html
  fetch_prize_amounts none = none
  fetch_prize_amounts (some (status, doc)) = if status == 200 then parse_prize_html doc else none
