-- ===== src/Generator/Batch.antt =====
-- Generate of internal/lottery-tree/form_generator.go, as a batch of forms.
use mathlib.Core.List.{append_assoc, append-nil}
use stat_tree_server.Base.{
  ℕ, zero, suc, ◌≤◌, ◌<◌, ◌≡◌, refl, sym, ap, ◌∙◌, true, false, List, [], ◌∷◌, ◌++◌, map, arith,
  length, ◌==◌, elem, Distinct, All, ne→==, le→ltb, inl, inr,
}
use stat_tree_server.Mask.{combo_mask}
use stat_tree_server.Archive.{sort_ints, rank_numbers, top_strong}
use stat_tree_server.Generator.{Cursor, ok, FormGenerator, leading, round, generate_loop, generate}
use stat_tree_server.Generator.Generate.{IsForm, round-IsCalled, add_form, add_result-cases}

elem-append_false :
    (x y : ℕ) (xs : List ℕ) → elem x xs ≡ false → (x == y) ≡ false → elem x (xs ++ y ∷ []) ≡ false
elem-append_false x y [] h n = ground arith
elem-append_false x y (z ∷ xs) h n = ground (arith, elem-append_false x y xs)

Distinct-append : (xs : List ℕ) (y : ℕ) → Distinct xs → elem y xs ≡ false → Distinct (xs ++ y ∷ [])
Distinct-append [] y d h = (refl, tt)
Distinct-append (x ∷ xs) y d h =
    (elem-append_false x y xs d.0 (ground arith), Distinct-append xs y d.1 (ground arith))

seen_some : (m : ℕ) (l : List ℕ) → elem m l ≡ true → l ≡ [] → ⊥
seen_some m [] h e = ground arith
seen_some m (x ∷ l) h e = let len = ap length e in omega arith

module _ {F : Type 0} where
  -- A batch that extends what `g` has gathered so far.
  pub record IsBatch (rounds : ℕ) (ranked will_be : List ℕ) (g : FormGenerator F)
      (forms : List (List ℕ)) : Type 0 where
    pub few_forms : length forms ≤ rounds
    pub all_forms : All (IsForm g.archive g.form_type ranked will_be) forms
    pub distinct : Distinct (g.seen ++ map combo_mask forms)
    pub some_form : g.seen ≡ [] → 0 < rounds → 0 < length forms

  generate_loop_step :
      (rounds : ℕ) (ranked will_be : List ℕ) (g g' : FormGenerator F)
      → round ranked will_be g ≡ ok (true, g')
      → generate_loop (suc rounds) ranked will_be g ≡ generate_loop rounds ranked will_be g'
  unfolding generate_loop
  generate_loop_step rounds ranked will_be g g' e = rw e refl

  generate_loop_stop :
      (rounds : ℕ) (ranked will_be : List ℕ) (g g' : FormGenerator F)
      → round ranked will_be g ≡ ok (false, g')
      → generate_loop (suc rounds) ranked will_be g ≡ ok g'.results
  unfolding generate_loop
  generate_loop_stop rounds ranked will_be g g' e = rw e refl

  IsBatch-none :
      (rounds : ℕ) (ranked will_be : List ℕ) (g : FormGenerator F)
      → Distinct g.seen
      → (g.seen ≡ [] → 0 < rounds → ⊥)
      → IsBatch rounds ranked will_be g []
  IsBatch-none rounds ranked will_be g d never = record {
    few_forms = omega arith;
    all_forms = tt;
    distinct = rw (append-nil g.seen) d;
    some_form = λ e h. absurd (never e h);
  }

  IsBatch-more :
      (rounds : ℕ) (ranked will_be : List ℕ) (g : FormGenerator F) (c : List ℕ)
      (forms : List (List ℕ))
      → IsForm g.archive g.form_type ranked will_be c
      → IsBatch rounds ranked will_be (add_form g c) forms
      → IsBatch (suc rounds) ranked will_be g (c ∷ forms)
  unfolding add_form
  IsBatch-more rounds ranked will_be g c forms form b = record {
    few_forms = omega (arith, b.few_forms);
    all_forms = (form, b.all_forms);
    distinct = rw (sym (append_assoc g.seen (combo_mask c ∷ []) (map combo_mask forms))) b.distinct;
    some_form = λ _ _. omega arith;
  }

  generate_loop-IsBatch :
      (rounds : ℕ) (ranked will_be : List ℕ) (g : FormGenerator F)
      → 0 < g.form_type
      → g.form_type ≤ length ranked
      → length will_be ≤ g.form_type
      → Distinct g.seen
      → (forms : List (List ℕ)) × (generate_loop rounds ranked will_be g
          ≡ ok (g.results ++ map (λ c. c ++ g.strong ∷ []) forms))
        × IsBatch rounds ranked will_be g forms
  unfolding add_form generate_loop
  generate_loop-IsBatch zero ranked will_be g pos fits few d = (
    [],
    ap ok (sym (append-nil g.results)),
    IsBatch-none 0 ranked will_be g d (λ _ h. omega arith),
  )
  generate_loop-IsBatch (suc rounds) ranked will_be g pos fits few d =
      let r = round-IsCalled ranked will_be g pos fits few in
      let here = record g { skip = r.skip; cursor = r.cursor } in
      let combo = sort_ints (leading here r.cursor.tries) in
      elim (add_result-cases here r.some_number) [
        | inl (new, e) ↦
            let (forms, run, b) =
              generate_loop-IsBatch rounds ranked will_be (add_form here combo) pos fits few
                (Distinct-append g.seen (combo_mask combo) d new) in
            (
              combo ∷ forms,
              generate_loop_step rounds ranked will_be g _ (r.runs ∙ ap ok e)
                  ∙ run
                  ∙ ap ok (append_assoc g.results _ _),
              same_batch (IsBatch-more rounds ranked will_be here combo forms r.form b),
            )
        | inr (old, e) ↦ (
          [],
          generate_loop_stop rounds ranked will_be g _ (r.runs ∙ ap ok e)
              ∙ ap ok (sym (append-nil g.results)),
          IsBatch-none (suc rounds) ranked will_be g d
              λ empty _. seen_some (combo_mask combo) g.seen old empty,
        )
      ]
    where
      same_batch :
          {c : Cursor} {skip : ℕ} {forms : List (List ℕ)}
          → IsBatch (suc rounds) ranked will_be (record g { skip = skip; cursor = c }) forms
          → IsBatch (suc rounds) ranked will_be g forms
      same_batch b = record {
        few_forms = b.few_forms;
        all_forms = b.all_forms;
        distinct = b.distinct;
        some_form = b.some_form;
      }

  -- For a generator with formType at most the length of the ranking, and at most formType requested
  -- numbers, Generate ends without a panic and returns 1 to howMany forms. Each is the ascending
  -- sort of the first formType numbers of some rearrangement of the ranking, with the strong number
  -- at its end; it holds every requested number that is ranked, and either none of its
  -- six-number combinations has won, or it is the start of the regrouped ranking. No two forms
  -- have the same mask.
  pub generate-IsBatch :
      (g : FormGenerator F) (how_many : ℕ) (will_be : List ℕ)
      → 0 < how_many
      → 0 < g.form_type
      → g.form_type ≤ length (rank_numbers g.archive g.mode)
      → length will_be ≤ g.form_type
      → (forms : List (List ℕ)) × (generate g how_many will_be
          ≡ ok (map (λ c. c ++ top_strong g.archive g.mode ∷ []) forms))
        × (0 < length forms)
        × (length forms ≤ how_many)
        × All (IsForm g.archive g.form_type (rank_numbers g.archive g.mode) will_be) forms
        × Distinct (map combo_mask forms)
  unfolding generate
  generate-IsBatch g how_many will_be some pos fits few =
      let ranked = rank_numbers g.archive g.mode in
      let (forms, run, b) =
        generate_loop-IsBatch how_many ranked will_be
          (record g { strong = top_strong g.archive g.mode; results = []; seen = [] }) pos fits few
          tt in
      (
        forms,
        rw (ne→== how_many 0 (omega arith), le→ltb (length ranked) g.form_type fits) run,
        b.some_form refl some,
        b.few_forms,
        b.all_forms,
        b.distinct,
      )
