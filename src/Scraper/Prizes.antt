-- ===== src/Scraper/Prizes.antt =====
-- The table of prizes that internal/scraper/pais_scraper.go reads from a page: its eight tiers in
-- order, each with a label, the number of winners and the amount.
use stat_tree_server.Base.{
  ℕ, suc, ◌+◌, ◌≤◌, ◌≡◌, refl, sym, ap, ◌∙◌, Bool, true, false, ◌&&◌, List, [], ◌∷◌, ◌++◌, map,
  none, some, arith, length, take, ltb, ◌==◌, if◌then◌else◌, Bool-cases, inl, inr,
}
use stat_tree_server.Base.Texts.{Text}
use stat_tree_server.Scraper.{Patterns, tier_label_to_index, parse_amount}
use stat_tree_server.Scraper.Table.{
  Tiers, no_tiers, number_at, record_tier, look_ahead, at_label, tier_loop, advertised, parse_table,
}

-- A row of the table: its three labels, and the numbers in them.
pub record Row : Type 0 where
  pub tier_text : Text
  pub winners_text : Text
  pub amount_text : Text
  pub winners : ℕ
  pub amount : ℕ

unfoldable pub labels_of : List Row → List Text
labels_of [] = []
labels_of (r ∷ rows) = r.tier_text ∷ r.winners_text ∷ r.amount_text ∷ labels_of rows

module _ (p : Patterns) where
  -- The patterns find the number of a tier, its winners and its amount in the labels of a row, and
  -- nothing else there.
  pub record IsRow (i : ℕ) (r : Row) : Type 0 where
    pub tier :
        (num : Text) × (strong : Bool) × (p.tier_label r.tier_text ≡ some (num, strong))
        × (tier_label_to_index num strong ≡ some i)
    pub has_winners : number_at (p.winners r.winners_text) ≡ some r.winners
    pub has_amount : number_at (p.prize r.amount_text) ≡ some r.amount
    pub no_amount : p.prize r.winners_text ≡ none
    pub no_tier : p.tier_label r.winners_text ≡ none
    pub no_tier_after : p.tier_label r.amount_text ≡ none

  -- The rows are those of the tiers from `i` on.
  abbrev pub AreRows : ℕ → List Row → Type 0
  AreRows i [] = Unit
  AreRows i (r ∷ rows) = IsRow i r × AreRows (suc i) rows

  look_ahead-found :
      (labels : List Text) (winners amount : ℕ)
      → look_ahead p labels (some winners) (some amount) ≡ (some winners, some amount)
  unfolding look_ahead
  look_ahead-found [] winners amount = refl
  look_ahead-found (label ∷ labels) winners amount = look_ahead-found labels winners amount

  look_ahead-row :
      (i : ℕ) (r : Row) (labels : List Text)
      → IsRow i r
      → look_ahead p (r.winners_text ∷ r.amount_text ∷ labels) none none
        ≡ (some r.winners, some r.amount)
  unfolding look_ahead
  look_ahead-row i r labels h =
      rw (h.has_winners, h.no_amount, h.has_amount) (look_ahead-found labels r.winners r.amount)

  at_label-row :
      (i : ℕ) (r : Row) (labels : List Text) (t : Tiers)
      → IsRow i r
      → at_label p (p.tier_label r.tier_text) (r.winners_text ∷ r.amount_text ∷ labels) t
        ≡ record_tier i (some r.winners, some r.amount) t
  unfolding at_label
  at_label-row i r labels t h =
      let (num, strong, tier, index) = h.tier in
      rw (tier, index) (ap (λ found. record_tier i found t) (look_ahead-row i r (take 2 labels) h))

  tier_loop_full : (labels : List Text) (t : Tiers) → 8 ≤ t.found → tier_loop p labels t ≡ t
  unfolding tier_loop
  tier_loop_full [] t h = refl
  tier_loop_full (label ∷ labels) t h =
      let full : ltb t.found 8 ≡ false = ground arith in rw full refl

  tier_loop_skip :
      (label : Text) (labels : List Text) (t : Tiers)
      → p.tier_label label ≡ none
      → tier_loop p (label ∷ labels) t ≡ tier_loop p labels t
  unfolding tier_loop at_label
  tier_loop_skip label labels t e = elim (Bool-cases (ltb t.found 8)) [
    | inl more ↦ rw (more, e) refl
    | inr full ↦ rw full (sym (tier_loop_full labels t (ground arith)))
  ]

  -- What the rows add to the tiers.
  unfoldable fold_rows : ℕ → List Row → Tiers → Tiers
  fold_rows i [] t = t
  fold_rows i (r ∷ rows) t =
      fold_rows (suc i) rows (record_tier i (some r.winners, some r.amount) t)

  tier_loop-row :
      (i : ℕ) (r : Row) (labels : List Text) (t : Tiers)
      → IsRow i r
      → t.found + 1 ≤ 8
      → tier_loop p (r.tier_text ∷ r.winners_text ∷ r.amount_text ∷ labels) t
        ≡ tier_loop p labels (record_tier i (some r.winners, some r.amount) t)
  unfolding tier_loop
  tier_loop-row i r labels t h room =
      let more : ltb t.found 8 ≡ true = ground arith in
      let t' = record_tier i (some r.winners, some r.amount) t in
      first_of more
      ∙ ap (tier_loop p (r.winners_text ∷ r.amount_text ∷ labels)) (at_label-row i r labels t h)
      ∙ tier_loop_skip r.winners_text (r.amount_text ∷ labels) t' h.no_tier
      ∙ tier_loop_skip r.amount_text labels t' h.no_tier_after
    where
      first_of :
          ltb t.found 8 ≡ true
          → tier_loop p (r.tier_text ∷ r.winners_text ∷ r.amount_text ∷ labels) t
            ≡ tier_loop p
                (r.winners_text ∷ r.amount_text ∷ labels)
                (at_label p (p.tier_label r.tier_text) (r.winners_text ∷ r.amount_text ∷ labels) t)
      first_of more =
          ap
            (λ b.
              if b
              then tier_loop p (r.winners_text ∷ r.amount_text ∷ labels) (
                  at_label p (p.tier_label r.tier_text) (r.winners_text ∷ r.amount_text ∷ labels) t)
              else t)
            more

  tier_loop-rows :
      (i : ℕ) (rows : List Row) (tail : List Text) (t : Tiers)
      → AreRows i rows
      → t.found + length rows ≤ 8
      → tier_loop p (labels_of rows ++ tail) t ≡ tier_loop p tail (fold_rows i rows t)
  unfolding fold_rows labels_of
  tier_loop-rows i [] tail t a room = refl
  tier_loop-rows i (r ∷ rows) tail t a room =
      tier_loop-row i r (labels_of rows ++ tail) t a.0 (omega arith)
      ∙ tier_loop-rows (suc i) rows tail (record_tier i (some r.winners, some r.amount) t) a.1
          (omega arith)

-- The amount of a row, or the advertised prize where nobody has won, if there is one.
abbrev paid : ℕ → Row → ℕ
paid prize r = if (r.winners == 0) && ltb 0 prize then prize else r.amount

-- The amounts of the rows, the first two with the advertised prizes.
abbrev pub paid_amounts : ℕ → ℕ → List Row → List ℕ
paid_amounts first second [] = []
paid_amounts first second (r ∷ []) = paid first r ∷ []
paid_amounts first second (r ∷ s ∷ rows) = paid first r ∷ paid second s ∷ map (λ x. x.amount) rows

advertised-rows :
    (p : Patterns) (first second : ℕ) (a b c d e f g h : Row)
    → (let rows = a ∷ b ∷ c ∷ d ∷ e ∷ f ∷ g ∷ h ∷ [] in
        (advertised p 1 second (advertised p 0 first (fold_rows p 0 rows no_tiers))).amounts
        ≡ paid_amounts first second rows)
unfolding fold_rows
advertised-rows p first second a b c d e f g h =
    elim (Bool-cases ((a.winners == 0) && ltb 0 first)) [
      | inl x ↦ elim (Bool-cases ((b.winners == 0) && ltb 0 second)) [
        | inl y ↦ rw (x, y) refl
        | inr y ↦ rw (x, y) refl
      ]
      | inr x ↦ elim (Bool-cases ((b.winners == 0) && ltb 0 second)) [
        | inl y ↦ rw (x, y) refl
        | inr y ↦ rw (x, y) refl
      ]
    ]

-- On labels that begin with a row for each of the eight tiers, in order, the table of prizes is read
-- back: the amounts of the rows, but for the first two the advertised prizes where nobody has won
-- and one is advertised. What follows, such as a second table, is not read.
pub parse_table-rows :
    (p : Patterns) (a b c d e f g h : Row) (tail : List Text) (page_text : Text)
    → AreRows p 0 (a ∷ b ∷ c ∷ d ∷ e ∷ f ∷ g ∷ h ∷ [])
    → (let rows = a ∷ b ∷ c ∷ d ∷ e ∷ f ∷ g ∷ h ∷ [] in
        parse_table p (labels_of rows ++ tail) page_text
        ≡ some (
            paid_amounts
              (parse_amount (p.first_prize page_text))
              (parse_amount (p.second_prize page_text))
              rows))
unfolding parse_table fold_rows
parse_table-rows p a b c d e f g h tail page_text are =
    let rows = a ∷ b ∷ c ∷ d ∷ e ∷ f ∷ g ∷ h ∷ [] in
    let first = parse_amount (p.first_prize page_text) in
    let second = parse_amount (p.second_prize page_text) in
    let read =
      tier_loop-rows p 0 rows tail no_tiers are (omega arith)
      ∙ tier_loop_full p tail (fold_rows p 0 rows no_tiers) (omega arith) in
    ap
      (λ t.
        if ltb t.found 8
        then none
        else some (advertised p 1 second (advertised p 0 first t)).amounts)
      read
    ∙ ap some (advertised-rows p first second a b c d e f g h)
