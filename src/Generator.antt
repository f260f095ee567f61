-- ===== src/Generator.antt =====
-- internal/lottery-tree/form_generator.go: FormGenerator, with NewFormGenerator of
-- lottery_archive.go. The fields that `search` changes (tries and caseL) form a record of their own,
-- the cursor. An index out of range is a panic, a value of Run as the lack of fuel is.
pub mod Swap
pub mod Search
pub mod Regroup
pub mod Generate
pub mod Batch
use Prim.Native.String.{String}
use mathlib.Core.Option
use stat_tree_server.Base.{
  ℕ, zero, suc, ◌+◌, ◌-◌, ◌*◌, ◌%◌, Bool, true, false, not, ◌&&◌, ◌||◌, List, [], ◌∷◌, ◌++◌, map,
  Option, none, some, length, get_elem?, set, take, elem, ltb, ◌==◌, if◌then◌else◌,
}
use stat_tree_server.Combos.{generate_combinations}
use stat_tree_server.Mask.{combo_mask}
use stat_tree_server.Archive.{LotteryArchive, rank_numbers, top_strong, has_won, sort_ints}

pub data Run {ℓ} (A : Type ℓ) : Type ℓ where
  ok : A → Run A
  panic out_of_fuel : Run A

infixl 5 ◌>>=◌
abbrev pub ◌>>=◌ {ℓ κ} : {A : Type ℓ} {B : Type κ} → Run A → (A → Run B) → Run B
ok a >>= f = f a
panic >>= f = panic
out_of_fuel >>= f = out_of_fuel

abbrev pub min_form_size : ℕ
min_form_size = 6

pub record Cursor : Type 0 where
  pub tries : List ℕ
  pub case_l : ℕ

pub record FormGenerator (F : Type 0) : Type 0 where
  pub archive : LotteryArchive F
  pub form_type : ℕ
  pub mode : String
  pub strong : ℕ
  pub results : List (List ℕ)
  pub seen : List ℕ
  pub skip : ℕ
  pub cursor : Cursor

abbrev exchange : List ℕ → ℕ → ℕ → Option ℕ → Option ℕ → Run (List ℕ)
exchange a i j (some x) (some y) = ok (set (set a i y) j x)
exchange a i j _ _ = panic

-- `a[i], a[j] = a[j], a[i]`
unfoldable pub swap : List ℕ → ℕ → ℕ → Run (List ℕ)
swap a i j = exchange a i j (get_elem? a i) (get_elem? a j)

-- The place of the first `want` from `start` on, in the loop of regroup.
unfoldable pub find_from : ℕ → ℕ → List ℕ → Option ℕ
find_from start want [] = none
find_from zero want (x ∷ a) = if x == want then some 0 else Option.map suc (find_from zero want a)
find_from (suc start) want (x ∷ a) = Option.map suc (find_from start want a)

-- `if g.tries[j] == want { … break }` for the place that the loop finds, if any
abbrev pub where_found {ℓ} : {A : Type ℓ} → Option ℕ → (Unit {0} → A) → (ℕ → A) → A
where_found none nowhere found = nowhere tt
where_found (some j) nowhere found = found j

-- the loop of regroup: the new list of tries and `start`
unfoldable pub regroup : List ℕ → ℕ → List ℕ → Run (List ℕ × ℕ)
unfolding swap find_from
regroup [] start tries = ok (tries, start)
regroup (want ∷ will_be) start tries =
    where_found (find_from start want tries) (λ _. regroup will_be start tries)
      λ j. swap tries start j >>= λ moved. regroup will_be (suc start) moved

abbrev at_case : ℕ → List ℕ → Cursor
at_case l tries = record { tries = tries; case_l = l }

-- the two guards of search: found, and nothing left to try
abbrev guarded : Bool → Bool → Cursor → (Unit {0} → Run (Bool × Cursor)) → Run (Bool × Cursor)
guarded true stop c next = ok (true, c)
guarded false true c next = ok (false, c)
guarded false false c next = next tt

-- `if search(…) { return true }`, and what follows it
abbrev or_else : Run (Bool × Cursor) → (Cursor → Run (Bool × Cursor)) → Run (Bool × Cursor)
or_else (ok (true, c)) next = ok (true, c)
or_else (ok (false, c)) next = next c
or_else panic next = panic
or_else out_of_fuel next = out_of_fuel

-- the exchange at the end of search
abbrev swap_back : ℕ → ℕ → Run (Bool × Cursor) → Run (Bool × Cursor)
swap_back i j (ok (true, c)) = ok (true, c)
swap_back i j (ok (false, c)) = swap c.tries i j >>= λ back. ok (false, at_case c.case_l back)
swap_back i j panic = panic
swap_back i j out_of_fuel = out_of_fuel

module _ {F : Type 0} where
  unfoldable pub new_form_generator : LotteryArchive F → ℕ → String → FormGenerator F
  new_form_generator a form_type mode = record {
    archive = a;
    form_type = if ltb form_type min_form_size then min_form_size else form_type;
    mode = mode;
    strong = 0;
    results = [];
    seen = [];
    skip = 0;
    cursor = record { tries = []; case_l = 0 };
  }

  -- (*FormGenerator).leading, for a list of tries
  unfoldable pub leading : FormGenerator F → List ℕ → List ℕ
  leading g tries =
      take (if ltb (length tries) g.form_type then length tries else g.form_type) tries

  unfoldable pub not_in_results : FormGenerator F → List ℕ → Bool
  unfolding leading
  not_in_results g tries = not (elem (combo_mask (leading g tries)) g.seen)

  -- the loop of allFormsCheck
  unfoldable pub none_won : LotteryArchive F → List (List ℕ) → Bool
  none_won a [] = true
  none_won a (combo ∷ combos) = if has_won a combo then false else none_won a combos

  unfoldable pub all_forms_check : FormGenerator F → List ℕ → Bool
  unfolding none_won leading
  all_forms_check g tries =
      none_won g.archive (generate_combinations (leading g tries) min_form_size)

  -- the guard of search: the leading combination is unseen and has not won
  unfoldable pub accepts : FormGenerator F → List ℕ → Bool
  unfolding not_in_results all_forms_check
  accepts g tries = not_in_results g tries && all_forms_check g tries

  -- (*FormGenerator).search, on the cursor
  unfoldable pub search_forms : ℕ → FormGenerator F → ℕ → ℕ → Cursor → Run (Bool × Cursor)
  unfolding swap
  search_forms zero g start check c = out_of_fuel
  search_forms (suc fuel) g start check c =
      let l = (c.case_l + 1) % 2 in
      guarded (accepts g c.tries) (start == g.form_type || check == length c.tries)
        (at_case l c.tries)
        λ _. swap c.tries start check >>= λ moved. swap_back start check (
          or_else (search_forms fuel g (start + (l + 1) % 2) (check + l) (at_case l moved))
            (λ c'. search_forms fuel g (start + c'.case_l) (check + (c'.case_l + 1) % 2) c'))

  -- (*FormGenerator).addResult: whether a result was added, and the new state
  unfoldable pub add_result : FormGenerator F → Bool × FormGenerator F
  unfolding leading
  add_result g =
      let combo = sort_ints (leading g g.cursor.tries) in
      let mask = combo_mask combo in
      if length (leading g g.cursor.tries) == 0 || elem mask g.seen then (false, g) else (
        true,
        record g {
          seen = g.seen ++ mask ∷ [];
          results = g.results ++ (combo ++ g.strong ∷ []) ∷ [];
        },
      )

  -- One round of Generate's loop; the result of `search` is not looked at.
  unfoldable pub round : List ℕ → List ℕ → FormGenerator F → Run (Bool × FormGenerator F)
  unfolding regroup search_forms add_result
  round ranked will_be g = regroup will_be 0 ranked >>= λ (tries, skip).
      search_forms (2 * length tries + 1) g skip g.form_type
        (record { tries = tries; case_l = g.cursor.case_l })
      >>= λ (found, cursor). ok (add_result (record g { skip = skip; cursor = cursor }))

  unfoldable pub generate_loop : ℕ → List ℕ → List ℕ → FormGenerator F → Run (List (List ℕ))
  unfolding round
  generate_loop zero ranked will_be g = ok g.results
  generate_loop (suc rounds) ranked will_be g = round ranked will_be g >>= λ (added, g').
      elim added [ true ↦ generate_loop rounds ranked will_be g' | false ↦ ok g'.results ]

  -- (*FormGenerator).Generate
  unfoldable pub generate : FormGenerator F → ℕ → List ℕ → Run (List (List ℕ))
  unfolding generate_loop
  generate g how_many will_be =
      let ranked = rank_numbers g.archive g.mode in
      if how_many == 0 || ltb (length ranked) g.form_type
      then ok []
      else generate_loop how_many ranked will_be
          (record g { strong = top_strong g.archive g.mode; results = []; seen = [] })
