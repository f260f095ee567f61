-- ===== src/Repository/Upsert.antt =====
-- CreateBatch of internal/repository/lottery_result_repository.go, row by row.
use mathlib.Core.Option.{some-injective, none-ne-some}
use Prim.Native.String.{String}
use stat_tree_server.Base.{
  ℕ, ◌≡◌, refl, sym, ap, ◌∙◌, List, [], ◌∷◌, Option, none, some, ◌==◌, if◌then◌else◌, inl, inr,
  Bool-cases, Option-cases,
}
use stat_tree_server.Base.Options.{◌>>=◌, or_else}
use stat_tree_server.Models.{LotteryResult}
use stat_tree_server.Repository.Queries.{sql, Pool, upsert, create_loop, create_batch}

-- What an upsert writes to a row, beside the number and the times.
pub record Content (F : Type 0) : Type 0 where
  pub draw_date : ℕ
  pub numbers : List ℕ
  pub strong : ℕ
  pub lottery_type : String
  pub prize_amounts : List F

-- COALESCE on prizes, of which none are NULL.
unfoldable pub coalesce : {F : Type 0} → List F → List F → List F
coalesce [] old = old
coalesce (p ∷ ps) old = p ∷ ps

abbrev pub prizes_in : {F : Type 0} → Option (Content F) → List F
prizes_in none = []
prizes_in (some c) = c.prize_amounts

abbrev pub content_of : {F : Type 0} → LotteryResult F → List F → Content F
content_of d prizes = record {
  draw_date = d.draw_date;
  numbers = d.numbers;
  strong = d.strong;
  lottery_type = d.lottery_type;
  prize_amounts = prizes;
}

or_else-none : {A : Type 0} (o : Option A) → or_else o none ≡ o
or_else-none none = refl
or_else-none (some a) = refl

or_else-left : {A : Type 0} (o p : Option A) → or_else o p ≡ none → o ≡ none
or_else-left none p h = refl
or_else-left (some a) p h = h

or_else-ne-none : {A : Type 0} (o : Option A) (a : A) → or_else o (some a) ≡ none → ⊥
or_else-ne-none none a h = none-ne-some _ (sym h)
or_else-ne-none (some b) a h = none-ne-some _ (sym h)

module _ {F : Type 0} where
  -- The last of the draws with the number.
  unfoldable pub last_draw : ℕ → List (LotteryResult F) → Option (LotteryResult F)
  last_draw n [] = none
  last_draw n (d ∷ results) =
      or_else (last_draw n results) (if n == d.draw_number then some d else none)

  -- The prizes of the last of these draws that has any.
  unfoldable pub last_prizes : ℕ → List (LotteryResult F) → List F
  unfolding coalesce
  last_prizes n [] = []
  last_prizes n (d ∷ results) =
      coalesce (last_prizes n results) (if n == d.draw_number then d.prize_amounts else [])

  -- A row after all draws: as before if none has its number, or else what the last one says, but for
  -- prizes, which an empty list never replaces.
  abbrev pub stored : Option (Content F) → Option (LotteryResult F) → List F → Option (Content F)
  stored old none prizes = old
  stored old (some d) prizes = some (content_of d (coalesce prizes (prizes_in old)))

  coalesce_assoc : (a b c : List F) → coalesce (coalesce a b) c ≡ coalesce a (coalesce b c)
  unfolding coalesce
  coalesce_assoc [] b c = refl
  coalesce_assoc (x ∷ a) b c = refl

  coalesce-nil : (a : List F) → coalesce a [] ≡ a
  unfolding coalesce
  coalesce-nil [] = refl
  coalesce-nil (x ∷ a) = refl

  no_prizes :
      (n : ℕ) (results : List (LotteryResult F))
      → last_draw n results ≡ none
      → last_prizes n results ≡ []
  unfolding last_draw last_prizes
  no_prizes n [] h = refl
  no_prizes n (d ∷ results) h =
      let rest = no_prizes n results (or_else-left (last_draw n results) _ h) in
      elim (Bool-cases (n == d.draw_number)) [
        | inl same ↦ absurd (or_else-ne-none (last_draw n results) d (rw (same, last_draw) at h))
        | inr other ↦ rw (other, rest) refl
      ]

  -- What one upsert does to the row with its number.
  abbrev pub merged : Option (Content F) → LotteryResult F → Content F
  merged old d = content_of d (coalesce d.prize_amounts (prizes_in old))

  merged-stored :
      (old : Option (Content F)) (d : LotteryResult F) (last : Option (LotteryResult F))
      (ps : List F)
      → (last ≡ none → ps ≡ [])
      → stored (some (merged old d)) last ps
        ≡ stored old (or_else last (some d)) (coalesce ps d.prize_amounts)
  merged-stored old d none ps h = rw (h refl) (unfold coalesce in refl)
  merged-stored old d (some x) ps h =
      ap (λ l. some (content_of x l)) (sym (coalesce_assoc ps d.prize_amounts (prizes_in old)))

-- What the server is documented to do for an upsert, a transaction and COUNT(*).
pub record IsUpserting {F : Type 0} (pool : Pool F) : Type 0 where
  pub content : ℕ → pool.Rows → Option (Content F)
  pub upserts :
      (d : LotteryResult F) (r r' : pool.Rows) (n : ℕ)
      → pool.exec_row (upsert ∷ []) d r ≡ some r'
      → content n r' ≡ (if n == d.draw_number then some (merged (content n r) d) else content n r)
  pub begins : (r tx : pool.Rows) (n : ℕ) → pool.begin r ≡ some tx → content n tx ≡ content n r
  pub commits :
      (tx r r' : pool.Rows) (n : ℕ) → pool.commit tx r ≡ some r' → content n r' ≡ content n tx
  pub counts :
      (r : pool.Rows) (n : ℕ)
      → pool.select_count (sql "SELECT COUNT(*) FROM lottery_results" ∷ []) r ≡ some 0
      → content n r ≡ none

>>=-some :
    {A B : Type 0} (o : Option A) (f : A → Option B) (b : B)
    → (o >>= f) ≡ some b
    → (a : A) × (o ≡ some a) × (f a ≡ some b)
>>=-some none f b h = absurd (none-ne-some _ h)
>>=-some (some a) f b h = (a, refl, h)

module _ {F : Type 0} (pool : Pool F) (law : IsUpserting pool) where
  create_loop-stored :
      (results : List (LotteryResult F)) (tx tx' : pool.Rows) (n : ℕ)
      → create_loop pool results tx ≡ some tx'
      → law.content n tx' ≡ stored (law.content n tx) (last_draw n results) (last_prizes n results)
  unfolding create_loop last_draw last_prizes
  create_loop-stored [] tx tx' n h = ap (law.content n) (sym (some-injective _ _ h))
  create_loop-stored (d ∷ results) tx tx' n h =
      let (tx1, one, rest) = >>=-some (pool.exec_row (upsert ∷ []) d tx) _ tx' h in
      let later = create_loop-stored results tx1 tx' n rest in
      let first = law.upserts d tx tx1 n one in
      elim (Bool-cases (n == d.draw_number)) [
        | inl same ↦ rw same (
            later
            ∙ ap (λ o. stored o (last_draw n results) (last_prizes n results)) (rw same at first)
            ∙ merged-stored (law.content n tx) d (last_draw n results) (last_prizes n results)
                (no_prizes n results))
        | inr other ↦
            rw (other, or_else-none (last_draw n results), coalesce-nil (last_prizes n results))
              (later
                ∙ ap (λ o. stored o (last_draw n results) (last_prizes n results))
                    (rw other at first))
      ]

  -- How CreateBatch ends.
  abbrev pub IsCreated : pool.Rows → List (LotteryResult F) → Option {0} Unit × pool.Rows → Type 0
  IsCreated r results (none, r') = r' ≡ r
  IsCreated r results (some done, r') =
      (n : ℕ)
      → law.content n r' ≡ stored (law.content n r) (last_draw n results) (last_prizes n results)

  -- CreateBatch either fails and leaves the table as before, or gives each draw number the date, the
  -- numbers, the strong number and the type of the last of the draws with it, and the last prizes that
  -- are not empty, of these draws or else of the row before.
  pub create_batch-IsCreated :
      (results : List (LotteryResult F)) (r : pool.Rows)
      → IsCreated r results (create_batch pool results r)
  unfolding create_batch
  create_batch-IsCreated results r = elim (Option-cases (pool.begin r)) [
    | inl e ↦ rw e refl
    | inr (tx, begun) ↦ elim (Option-cases (create_loop pool results tx)) [
      | inl e ↦ rw (begun, e) refl
      | inr (tx', looped) ↦ elim (Option-cases (pool.commit tx' r)) [
        | inl e ↦ rw (begun, looped, e) refl
        | inr (r', done) ↦
            rw (begun, looped, done)
              (λ n.
                law.commits tx' r r' n done
                ∙ create_loop-stored results tx tx' n looped
                ∙ ap (λ o. stored o (last_draw n results) (last_prizes n results))
                    (law.begins r tx n begun))
      ]
    ]
  ]
