-- ===== src/Repository/Insert.antt =====
-- InsertNewDraws of internal/repository/lottery_result_repository.go, row by row, and the range of
-- dates that it reports.
use mathlib.Core.Path.{subst}
use mathlib.Core.Option.{some-injective, none-ne-some}
use native.Mathlib.Decide.{ℕ_discrete}
use stat_tree_server.Base.{
  ℕ, ◌≡◌, refl, sym, ap, ◌∙◌, true, List, [], ◌∷◌, map, Option, none, some, arith, elem, ◌==◌,
  if◌then◌else◌, All, All-map, ne→==, inl, inr, Bool-cases, Option-cases,
}
use stat_tree_server.Base.Options.{◌>>=◌, is_some, or_else}
use stat_tree_server.Models.{LotteryResult}
use stat_tree_server.Repository.Dates.{tally_all}
use stat_tree_server.Repository.{
  Database, IsDatabase, Tally, no_draws, tally_draw, settle, existing_draw_numbers, insert_loop,
  insert_new_draws,
}

module _ {F : Type 0} where
  -- The first of the draws with the number.
  unfoldable pub find_draw : ℕ → List (LotteryResult F) → Option (LotteryResult F)
  find_draw n [] = none
  find_draw n (d ∷ results) = if n == d.draw_number then some d else find_draw n results

  -- The dates of the draws whose number is not among `existing`.
  unfoldable pub new_dates : List ℕ → List (LotteryResult F) → List ℕ
  new_dates existing [] = []
  new_dates existing (d ∷ results) =
      let rest = new_dates existing results in
      if elem d.draw_number existing then rest else d.draw_date ∷ rest

or_else-some : {A : Type 0} (o p : Option A) → is_some o ≡ true → or_else o p ≡ o
or_else-some none p h = absurd (ground arith)
or_else-some (some a) p h = refl

or_else-none : {A : Type 0} (o : Option A) → or_else o none ≡ o
or_else-none none = refl
or_else-none (some a) = refl

or_else_assoc : {A : Type 0} (o p q : Option A) → or_else (or_else o p) q ≡ or_else o (or_else p q)
or_else_assoc none p q = refl
or_else_assoc (some a) p q = refl

is_some-or_else : {A : Type 0} (o p : Option A) → is_some o ≡ true → is_some (or_else o p) ≡ true
is_some-or_else none p h = absurd (ground arith)
is_some-or_else (some a) p h = refl

module _ {F : Type 0} (db : Database F) where
  -- The dates of the draws that have no row.
  unfoldable pub dates_without_row : db.Rows → List (LotteryResult F) → List ℕ
  dates_without_row r [] = []
  dates_without_row r (d ∷ results) =
      let rest = dates_without_row r results in
      if is_some (db.row d.draw_number r) then rest else d.draw_date ∷ rest

  -- What InsertNewDraws has done to the rows `r`, by how it ended.
  abbrev pub Outcome : db.Rows → List (LotteryResult F) → Option Tally × db.Rows → Type 0
  Outcome r results (none, r') = r' ≡ r
  Outcome r results (some t, r') =
      (t ≡ tally_all (dates_without_row r results) no_draws)
      × ((n : ℕ) → db.row n r' ≡ or_else (db.row n r) (find_draw n results))

module _ {F : Type 0} (db : Database F) (law : IsDatabase db) where
  -- The draws that a number list calls existing have a row.
  abbrev IsKnown : List ℕ → db.Rows → LotteryResult F → Type 0
  IsKnown existing tx d =
      elem d.draw_number existing ≡ true → is_some (db.row d.draw_number tx) ≡ true

  abbrev Inserted : List ℕ → List (LotteryResult F) → Tally → db.Rows → Tally × db.Rows → Type 0
  Inserted existing results t tx (t', tx') =
      (t' ≡ tally_all (new_dates existing results) t)
      × ((n : ℕ) → db.row n tx' ≡ or_else (db.row n tx) (find_draw n results))

  row-insert_known :
      (d : LotteryResult F) (tx tx' : db.Rows) (n : ℕ)
      → db.insert d tx ≡ some tx'
      → is_some (db.row n tx) ≡ true
      → is_some (db.row n tx') ≡ true
  row-insert_known d tx tx' n e h = elim (Bool-cases (n == d.draw_number)) [
    | inl same ↦ rw (law.inserts d tx tx' n e, same) (is_some-or_else (db.row n tx) (some d) h)
    | inr other ↦ rw (law.inserts d tx tx' n e, other) h
  ]

  IsKnown-later :
      (existing : List ℕ) (d : LotteryResult F) (tx tx' : db.Rows)
      (results : List (LotteryResult F))
      → db.insert d tx ≡ some tx'
      → All (IsKnown existing tx) results
      → All (IsKnown existing tx') results
  IsKnown-later existing d tx tx' [] e a = tt
  IsKnown-later existing d tx tx' (x ∷ results) e a = (
    λ h. row-insert_known d tx tx' x.draw_number e (a.0 h),
    IsKnown-later existing d tx tx' results e a.1,
  )

  find_known :
      (d : LotteryResult F) (results : List (LotteryResult F)) (tx : db.Rows) (n : ℕ)
      → is_some (db.row d.draw_number tx) ≡ true
      → or_else (db.row n tx) (find_draw n results)
        ≡ or_else (db.row n tx) (find_draw n (d ∷ results))
  unfolding find_draw
  find_known d results tx n h = elim (ℕ_discrete n d.draw_number) [
    | yes e ↦
        let here = ap (λ m. is_some (db.row m tx)) e ∙ h in
        or_else-some (db.row n tx) _ here ∙ sym (or_else-some (db.row n tx) _ here)
    | no other ↦ rw (ne→== n d.draw_number other) refl
  ]

  find_inserted :
      (d : LotteryResult F) (results : List (LotteryResult F)) (tx tx' : db.Rows) (n : ℕ)
      → db.insert d tx ≡ some tx'
      → or_else (db.row n tx') (find_draw n results)
        ≡ or_else (db.row n tx) (find_draw n (d ∷ results))
  unfolding find_draw
  find_inserted d results tx tx' n e = elim (Bool-cases (n == d.draw_number)) [
    | inl same ↦ rw (law.inserts d tx tx' n e, same) (or_else_assoc (db.row n tx) (some d) _)
    | inr other ↦ rw (law.inserts d tx tx' n e, other) refl
  ]

  insert_loop-Inserted :
      (existing : List ℕ) (results : List (LotteryResult F)) (t : Tally) (tx : db.Rows)
      (r : Tally × db.Rows)
      → insert_loop db existing results t tx ≡ some r
      → All (IsKnown existing tx) results
      → Inserted existing results t tx r
  unfolding insert_loop new_dates tally_all find_draw
  insert_loop-Inserted existing [] t tx r e a =
      subst (Inserted existing [] t tx) (some-injective _ _ e)
        (refl, λ n. sym (or_else-none (db.row n tx)))
  insert_loop-Inserted existing (d ∷ results) t tx r e a =
      elim (Bool-cases (elem d.draw_number existing)) [
        | inl old ↦
            let (t_eq, rows) = insert_loop-Inserted existing results t tx r (rw old at e) a.1 in
            (rw old t_eq, λ n. rows n ∙ find_known d results tx n (a.0 old))
        | inr new ↦ elim (Option-cases (db.insert d tx)) [
          | inl failed ↦ absurd (none-ne-some _ (rw (new, failed) at e))
          | inr (tx1, done) ↦
              let (t_eq, rows) =
                insert_loop-Inserted existing results (tally_draw d.draw_date t) tx1 r
                  (rw (new, done) at e) (IsKnown-later existing d tx tx1 results done a.1) in
              (rw new t_eq, λ n. rows n ∙ find_inserted d results tx tx1 n done)
        ]
      ]

  same_dates :
      (existing : List ℕ) (r : db.Rows) (results : List (LotteryResult F))
      → All (λ d. elem d.draw_number existing ≡ is_some (db.row d.draw_number r)) results
      → new_dates existing results ≡ dates_without_row db r results
  unfolding new_dates dates_without_row
  same_dates existing r [] a = refl
  same_dates existing r (d ∷ results) a = rw (a.0, same_dates existing r results a.1) refl

  elem-numbers :
      (ns : List ℕ) (results : List (LotteryResult F))
      → ((n : ℕ) → elem n (map (λ d. d.draw_number) results) ≡ true → elem n ns ≡ true)
      → All (λ d. elem d.draw_number ns ≡ true) results
  elem-numbers ns [] h = tt
  elem-numbers ns (d ∷ results) h =
      (h d.draw_number (ground arith), elem-numbers ns results (λ n e. h n (ground arith)))

  IsKnown-at_begin :
      (existing : List ℕ) (r tx : db.Rows) (results : List (LotteryResult F))
      → db.begin r ≡ some tx
      → All (λ d. elem d.draw_number existing ≡ is_some (db.row d.draw_number r)) results
      → All (IsKnown existing tx) results
  IsKnown-at_begin existing r tx results e a =
      All-map _ _ (λ d same h. rw (law.begins r tx d.draw_number e) (sym same ∙ h)) results a

  chain-Outcome :
      (existing : List ℕ) (r : db.Rows) (results : List (LotteryResult F))
      → All (λ d. elem d.draw_number existing ≡ is_some (db.row d.draw_number r)) results
      → Outcome db r results (
          settle r (
            db.begin r >>= λ tx. insert_loop db existing results no_draws tx >>= λ (t, tx').
            db.commit tx' r >>= λ r'. some (t, r')))
  chain-Outcome existing r results a = elim (Option-cases (db.begin r)) [
    | inl e ↦ rw e refl
    | inr (tx, begun) ↦ elim (Option-cases (insert_loop db existing results no_draws tx)) [
      | inl e ↦ rw (begun, e) refl
      | inr ((t, tx'), looped) ↦ elim (Option-cases (db.commit tx' r)) [
        | inl e ↦ rw (begun, looped, e) refl
        | inr (r', done) ↦
            let (t_eq, rows) =
              insert_loop-Inserted existing results no_draws tx (t, tx') looped
                (IsKnown-at_begin existing r tx results begun a) in
            rw (begun, looped, done)
              (
                t_eq ∙ ap (λ l. tally_all l no_draws) (same_dates existing r results a),
                λ n.
                    law.commits tx' r r' n done
                    ∙ rows n
                    ∙ ap (λ o. or_else o (find_draw n results)) (law.begins r tx n begun),
              )
      ]
    ]
  ]

  -- After InsertNewDraws the table is as before, if it fails. If not, each draw number has the row
  -- that it had before, or else the first of the draws with that number (if there is one), and the
  -- result tells the number and the range of dates of the draws whose number had no row.
  pub insert_new_draws-Outcome :
      (results : List (LotteryResult F)) (r : db.Rows)
      → Outcome db r results (insert_new_draws db results r)
  unfolding insert_new_draws existing_draw_numbers find_draw dates_without_row tally_all
  insert_new_draws-Outcome [] r = (refl, λ n. sym (or_else-none (db.row n r)))
  insert_new_draws-Outcome (d ∷ results) r =
      let ns = map (λ e. e.draw_number) (d ∷ results) in
      elim (Option-cases (db.select_existing ns r)) [
        | inl e ↦ rw e refl
        | inr (existing, e) ↦ rw e (
            chain-Outcome existing r (d ∷ results) (
              All-map _ _ (λ x h. law.selects ns existing r x.draw_number e h) (d ∷ results)
                (elem-numbers ns (d ∷ results) (λ n h. h))))
      ]
