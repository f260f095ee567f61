-- ===== src/Generator/Generate.antt =====
-- One round of Generate of internal/lottery-tree/form_generator.go: what a form of a batch is.
use stat_tree_server.Base.{
  ℕ, zero, suc, ◌+◌, ◌*◌, ◌≤◌, ◌<◌, ◌≡◌, ◌⊎◌, refl, ap, ◌∙◌, Bool, true, false, ◌&&◌, List, [], ◌∷◌,
  ◌++◌, arith, length, take, elem, All, All-map, ne→==, le→ltb, inl, inr, Bool-cases,
}
use stat_tree_server.Combos.Spec.{combos}
use stat_tree_server.Combos.Enumerate.{generate_combinations-combos}
use stat_tree_server.Mask.{combo_mask}
use stat_tree_server.Archive.{LotteryArchive, has_won, sort_ints}
use stat_tree_server.Generator.{
  Run, ok, panic, out_of_fuel, Cursor, FormGenerator, regroup, leading, none_won, all_forms_check,
  not_in_results, accepts, search_forms, add_result, round,
}
use stat_tree_server.Generator.Swap.{times}
use stat_tree_server.Generator.Search.{IsShuffled, Outcome, search_forms-Outcome}
use stat_tree_server.Generator.Regroup.{IsRegrouped, regroup-IsRegrouped, elem-take_more}

and_right : (a b : Bool) → a && b ≡ true → b ≡ true
and_right true b e = e
and_right false b e = absurd (ground arith)

Outcome-ok :
    (good : List ℕ → Bool) (start : ℕ) (tries : List ℕ) (r : Run (Bool × Cursor))
    → Outcome good start tries r
    → (found : Bool) × (c : Cursor) × (r ≡ ok (found, c))
      × IsShuffled start tries c.tries
      × ((good c.tries ≡ true) ⊎ (c.tries ≡ tries))
Outcome-ok good start tries (ok (true, c)) o = (true, c, refl, o.1, inl o.0)
Outcome-ok good start tries (ok (false, c)) o = (
  false,
  c,
  refl,
  record {
    same_length = ap length o.0;
    rearranged = λ z. ap (times z) o.0;
    prefix_kept = λ m b. ap (take m) o.0;
  },
  inr o.0,
)
Outcome-ok good start tries panic o = absurd o
Outcome-ok good start tries out_of_fuel o = absurd o

length-take : (n : ℕ) (a : List ℕ) → n ≤ length a → length (take n a) ≡ n
length-take zero a h = refl
length-take (suc n) [] h = absurd (omega arith)
length-take (suc n) (x ∷ a) h = ap suc (length-take n a (omega arith))

module _ {F : Type 0} where
  none_won-All :
      (a : LotteryArchive F) (l : List (List ℕ))
      → none_won a l ≡ true
      → All (λ combo. has_won a combo ≡ false) l
  unfolding none_won
  none_won-All a [] h = tt
  none_won-All a (combo ∷ l) h = elim (Bool-cases (has_won a combo)) [
    | inl e ↦ absurd (ground arith)
    | inr e ↦ (e, none_won-All a l (ground arith))
  ]

  -- The sorted numbers of a form that Generate may return.
  pub record IsForm (a : LotteryArchive F) (size : ℕ) (ranked will_be c : List ℕ) : Type 0 where
    pub order : List ℕ
    pub numbers : c ≡ sort_ints (take size order)
    pub shuffled : IsShuffled 0 ranked order
    pub requested : All (λ w. elem w ranked ≡ true → elem w (take size order) ≡ true) will_be
    pub unwon :
        All (λ combo. has_won a combo ≡ false) (combos 6 (take size order))
        ⊎ ((skip : ℕ) × (regroup will_be 0 ranked ≡ ok (order, skip)))

  leading-take :
      (g : FormGenerator F) (tries : List ℕ)
      → g.form_type ≤ length tries
      → leading g tries ≡ take g.form_type tries
  unfolding leading
  leading-take g tries h = ap (λ n. take n tries) (rw (le→ltb (length tries) g.form_type h) refl)

  accepts_unwon :
      (g : FormGenerator F) (tries : List ℕ)
      → g.form_type ≤ length tries
      → accepts g tries ≡ true
      → All (λ combo. has_won g.archive combo ≡ false) (combos 6 (take g.form_type tries))
  unfolding accepts all_forms_check
  accepts_unwon g tries h e =
      rw
        (← leading-take g tries h, ← generate_combinations-combos (leading g tries) 6 (omega arith))
        (none_won-All g.archive _ (and_right (not_in_results g tries) _ e))

  unfoldable pub add_form : FormGenerator F → List ℕ → FormGenerator F
  add_form g combo = record g {
    seen = g.seen ++ combo_mask combo ∷ [];
    results = g.results ++ (combo ++ g.strong ∷ []) ∷ [];
  }

  pub add_result-cases :
      (g : FormGenerator F)
      → 0 < length (leading g g.cursor.tries)
      → ((elem (combo_mask (sort_ints (leading g g.cursor.tries))) g.seen ≡ false)
          × (add_result g ≡ (true, add_form g (sort_ints (leading g g.cursor.tries)))))
        ⊎ ((elem (combo_mask (sort_ints (leading g g.cursor.tries))) g.seen ≡ true)
            × (add_result g ≡ (false, g)))
  unfolding add_result add_form
  add_result-cases g pos =
      let some = ne→== (length (leading g g.cursor.tries)) 0 (omega arith) in
      elim (Bool-cases (elem (combo_mask (sort_ints (leading g g.cursor.tries))) g.seen)) [
        | inl e ↦ inr (e, rw (some, e) refl)
        | inr e ↦ inl (e, rw (some, e) refl)
      ]

  -- What a round does before addResult.
  pub record IsCalled (ranked will_be : List ℕ) (g : FormGenerator F) : Type 0 where
    pub skip : ℕ
    pub cursor : Cursor
    pub form : IsForm g.archive g.form_type ranked will_be (sort_ints (leading g cursor.tries))
    pub some_number : 0 < length (leading g cursor.tries)
    pub runs : round ranked will_be g ≡ ok (add_result (record g { skip = skip; cursor = cursor }))

  IsCalled-known :
      (ranked will_be : List ℕ) (g : FormGenerator F) (tries : List ℕ) (skip : ℕ) (found : Bool)
      (c : Cursor)
      → 0 < g.form_type
      → g.form_type ≤ length ranked
      → length will_be ≤ g.form_type
      → regroup will_be 0 ranked ≡ ok (tries, skip)
      → IsRegrouped will_be 0 ranked tries skip
      → search_forms
          (2 * length tries + 1)
          g
          skip
          g.form_type
          (record { tries = tries; case_l = g.cursor.case_l })
        ≡ ok (found, c)
      → IsShuffled skip tries c.tries
      → (accepts g c.tries ≡ true) ⊎ (c.tries ≡ tries)
      → IsCalled ranked will_be g
  unfolding round
  IsCalled-known ranked will_be g tries skip found c pos fits few e r e' s why =
      let moved = r.shuffled in
      let lead = leading-take g c.tries (omega (arith, s.same_length, moved.same_length)) in
      record {
        skip = skip;
        cursor = c;
        form = record {
          order = c.tries;
          numbers = ap sort_ints lead;
          shuffled = record {
            same_length = s.same_length ∙ moved.same_length;
            rearranged = λ z. s.rearranged z ∙ moved.rearranged z;
            prefix_kept = λ m b. s.prefix_kept m (omega arith) ∙ moved.prefix_kept m b;
          };
          requested =
              All-map _ _
                (λ w f i.
                  elem-take_more w skip g.form_type c.tries (omega (arith, r.few))
                    (ap (elem w) (s.prefix_kept skip (omega arith)) ∙ f i))
                will_be r.in_front;
          unwon = elim why [
            | inl good ↦
                inl (accepts_unwon g c.tries (omega (arith, s.same_length, moved.same_length)) good)
            | inr same ↦ inr (skip, rw same e)
          ];
        };
        some_number = omega (
          arith,
          ap length lead,
          length-take g.form_type c.tries (omega (arith, s.same_length, moved.same_length)),
        );
        runs = rw (e, e') refl;
      }

  pub round-IsCalled :
      (ranked will_be : List ℕ) (g : FormGenerator F)
      → 0 < g.form_type
      → g.form_type ≤ length ranked
      → length will_be ≤ g.form_type
      → IsCalled ranked will_be g
  round-IsCalled ranked will_be g pos fits few =
      let (tries, skip, e, r) = regroup-IsRegrouped will_be 0 ranked (omega arith) in
      let moved = r.shuffled in
      let (found, c, e', s, why) = Outcome-ok (accepts g) skip tries _ (
        search_forms-Outcome g (2 * length tries + 1) skip g.form_type
          (record { tries = tries; case_l = g.cursor.case_l }) (omega (arith, r.few)) (omega arith)
          (omega (arith, moved.same_length)) (omega (arith, r.few, moved.same_length))) in
      IsCalled-known ranked will_be g tries skip found c pos fits few e r e' s why
