-- ===== src/Service/Forms.antt =====
-- GenerateForm of internal/services/lottery_service.go, from the request to the forms of the generator.
use Prim.Native.String.{String}
use mathlib.Core.Path.{subst}
use stat_tree_server.Base.{
  ℕ, suc, ◌-◌, ◌≤◌, ◌<◌, ◌≡◌, refl, sym, ap, ◌∙◌, Bool, true, false, not, ◌&&◌, List, [], ◌∷◌, ◌++◌,
  map, none, some, arith, length, length-append, take, get_or, ltb, ◌==◌, if◌then◌else◌, All,
  Bool-cases, inl, inr, Distinct,
}
use stat_tree_server.Models.{LotteryResult}
use stat_tree_server.Mask.{combo_mask}
use stat_tree_server.Archive.{LotteryArchive, rank_numbers, top_strong}
use stat_tree_server.Generator.{ok, FormGenerator, new_form_generator, generate}
use stat_tree_server.Generator.Generate.{IsForm}
use stat_tree_server.Generator.Batch.{generate-IsBatch}
use stat_tree_server.Convert.{
  int32_of_int, int_of_int32, is_positive, ints_to_int32s, int32s_to_ints,
}
use stat_tree_server.Manager.Cache.{LotteryManager}
use stat_tree_server.Manager.Answers.{IsCache}
use stat_tree_server.Service.{
  Repo, load_archive, with_archive, Reply, reply, refused, crashed, stuck, load_failed,
  invalid_argument, unsupported_group_size, GenerateFormRequest, NumberSet, number_set, number_sets,
  forms_reply, at_most_fifty, form_size, generate_form, strength_mode,
}
use stat_tree_server.Service.Load.{IsDrawn, IsGiving, Fails, request_key, with_archive_ends}

-- A form and its strong number, which is left out if it is 0.
unfoldable pub set_of : ℕ → List ℕ → NumberSet
set_of s c = record {
  numbers = ints_to_int32s c;
  strong =
      if not (int32_of_int s == 0) && ltb (int32_of_int s) 2147483648
      then some (int32_of_int s)
      else none;
}

take-front : (c : List ℕ) (s : ℕ) → take (length c) (c ++ s ∷ []) ≡ c
take-front [] s = refl
take-front (x ∷ c) s = ap (◌∷◌ x) (take-front c s)

get_or-end : (c : List ℕ) (s : ℕ) → get_or (c ++ s ∷ []) (length c) 0 ≡ s
get_or-end [] s = refl
get_or-end (x ∷ c) s = get_or-end c s

length-front : (c : List ℕ) (s : ℕ) → length (c ++ s ∷ []) - 1 ≡ length c
length-front c s = omega (arith, length-append c (s ∷ []))

number_set-set_of : (s : ℕ) (c : List ℕ) → number_set (c ++ s ∷ []) ≡ set_of s c
unfolding number_set set_of
number_set-set_of s c = rw (length-front c s, take-front c s, get_or-end c s) refl

-- The rows of the generator are split into their regular numbers and the strong one.
number_sets-map :
    (s : ℕ) (forms : List (List ℕ))
    → number_sets (map (λ c. c ++ s ∷ []) forms) ≡ map (set_of s) forms
unfolding number_sets
number_sets-map s [] = refl
number_sets-map s (c ∷ forms) =
    let some_row : (length (c ++ s ∷ []) == 0) ≡ false = ground (arith, length-append c (s ∷ [])) in
    rw (some_row, number_set-set_of s c, number_sets-map s forms) refl

pub length-int32s_to_ints : (vs : List ℕ) → length (int32s_to_ints vs) ≡ length vs
unfolding int32s_to_ints
length-int32s_to_ints [] = refl
length-int32s_to_ints (v ∷ vs) = ap suc (length-int32s_to_ints vs)

pub form_size-large : (v : ℕ) → 6 ≤ form_size v
unfolding int_of_int32
form_size-large v = ground arith

at_most_fifty_pos : (n : ℕ) → is_positive n ≡ true → 0 < at_most_fifty n
at_most_fifty_pos n h = ground arith

none_generated :
    {F : Type 0} (g : FormGenerator F) (n : ℕ) (will_be : List ℕ)
    → ltb (length (rank_numbers g.archive g.mode)) g.form_type ≡ true
    → generate g n will_be ≡ ok []
unfolding generate
none_generated g n will_be short = elim (Bool-cases (n == 0)) [
  | inl e ↦ rw e refl
  | inr e ↦ rw (e, short) refl
]

module _ {F : Type 0} where
  -- What the generator returns for a request of at most `n` forms: none if the ranking is shorter
  -- than a form.
  abbrev Generated : LotteryArchive F → ℕ → String → ℕ → List ℕ → List (List ℕ) → Type 0
  Generated a size mode n will_be forms =
      (length forms ≤ n)
      × All (IsForm a size (rank_numbers a mode) will_be) forms
      × Distinct (map combo_mask forms)
      × (size ≤ length (rank_numbers a mode) → 0 < length forms)

  generate-Generated :
      (g : FormGenerator F) (n : ℕ) (will_be : List ℕ)
      → 0 < n
      → 0 < g.form_type
      → length will_be ≤ g.form_type
      → (forms : List (List ℕ)) × (generate g n will_be
          ≡ ok (map (λ c. c ++ top_strong g.archive g.mode ∷ []) forms))
        × Generated g.archive g.form_type g.mode n will_be forms
  generate-Generated g n will_be some_wanted large few =
      elim (Bool-cases (ltb (length (rank_numbers g.archive g.mode)) g.form_type)) [
        | inl short ↦ (
          [],
          none_generated g n will_be short,
          (ground arith, tt, tt, λ h. absurd (ground arith)),
        )
        | inr fits ↦
            let (forms, run, some_form, few_forms, all_forms, distinct) =
              generate-IsBatch g n will_be some_wanted large (ground arith) few in
            (forms, run, (few_forms, all_forms, distinct, λ h. some_form))
      ]

  form_type-same :
      (a : LotteryArchive F) (size : ℕ) (mode : String)
      → 6 ≤ size
      → (new_form_generator a size mode).form_type ≡ size
  unfolding new_form_generator
  form_type-same a size mode large = ground arith

  replied :
      (a : LotteryArchive F) (size n : ℕ) (mode : String) (will_be : List ℕ)
      → 0 < n
      → 6 ≤ size
      → length will_be ≤ size
      → (forms : List (List ℕ)) × (forms_reply (generate (new_form_generator a size mode) n will_be)
          ≡ reply (map (set_of (top_strong a mode)) forms))
        × Generated a size mode n will_be forms
  unfolding new_form_generator
  replied a size n mode will_be some_wanted large few =
      let e = form_type-same a size mode large in
      let (forms, run, gen) =
        generate-Generated (new_form_generator a size mode) n will_be some_wanted
          (subst (λ k. 0 < k) (sym e) (omega arith))
          (subst (λ k. length will_be ≤ k) (sym e) few) in
      (
        forms,
        ap forms_reply run ∙ ap reply (number_sets-map (top_strong a mode) forms),
        subst (λ k. Generated a k mode n will_be forms) e gen,
      )

module _ {F : Type 0} (G : ℕ → ℕ → List (LotteryResult F) → Type 0) (E : ℕ → ℕ → Type 0) where
  -- How GenerateForm ends.
  abbrev pub HasForms :
      GenerateFormRequest
      → LotteryManager (LotteryArchive F)
      → Reply (List NumberSet) × LotteryManager (LotteryArchive F)
      → Type 0
  HasForms req m (reply sets, m') =
      (a : LotteryArchive F) × (forms : List (List ℕ)) × IsDrawn G (request_key req.window) a
      × (sets ≡ map (set_of (top_strong a (strength_mode req.strength))) forms)
      × Generated a (form_size req.form_type) (strength_mode req.strength)
          (at_most_fifty (int_of_int32 req.how_many)) (int32s_to_ints req.will_be) forms
      × IsCache (IsDrawn G) m'
  HasForms req m (refused (load_failed text), m') = Fails G E req.window m'
  HasForms req m (refused (invalid_argument text), m') =
      (is_positive (int_of_int32 req.how_many) ≡ false) × (m' ≡ m)
  HasForms req m (refused unsupported_group_size, m') = ⊥
  HasForms req m (crashed, m') = ⊥
  HasForms req m (stuck, m') = ⊥

  -- On a cache that is in order, and with at most as many requested numbers as a form has,
  -- GenerateForm either refuses a number of forms that is not positive and leaves the cache alone, or
  -- fails with the load of the archive, or answers with at most fifty forms of an archive of draws
  -- that the repository gives for the window, as Generate promises them, each split into its numbers
  -- and the strong number; none only if the ranking is shorter than a form. No call panics or waits
  -- without end.
  pub generate_form-HasForms :
      (repo : Repo F) (req : GenerateFormRequest) (m : LotteryManager (LotteryArchive F))
      → IsGiving G E repo
      → IsCache (IsDrawn G) m
      → length req.will_be ≤ form_size req.form_type
      → HasForms req m (generate_form repo req m)
  unfolding generate_form
  generate_form-HasForms repo req m g c few =
      let n = int_of_int32 req.how_many in
      let size = form_size req.form_type in
      let mode = strength_mode req.strength in
      let will_be = int32s_to_ints req.will_be in
      elim (Bool-cases (is_positive n)) [
        | inr unwanted ↦ subst served (sym unwanted) (unwanted, refl)
        | inl wanted ↦ subst served (sym wanted) (
            with_archive_ends G E repo req.window m g c (HasForms req m) answer
              (λ a m' drawn c'.
                let (forms, e, gen) =
                  replied a size (at_most_fifty n) mode will_be (at_most_fifty_pos n wanted)
                    (form_size-large req.form_type)
                    (omega (arith, few, length-int32s_to_ints req.will_be)) in
                subst (λ r. HasForms req m (r, m')) (sym e) (a, forms, drawn, refl, gen, c'))
              (λ text m' h. h))
      ]
    where
      answer : LotteryArchive F → Reply (List NumberSet)
      answer a = forms_reply (
          generate (new_form_generator a (form_size req.form_type) (strength_mode req.strength))
            (at_most_fifty (int_of_int32 req.how_many)) (int32s_to_ints req.will_be))

      served : Bool → Type 0
      served b = HasForms req m (
          if b
          then with_archive answer (load_archive repo req.window m)
          else (refused (invalid_argument "how_many must be positive"), m))
