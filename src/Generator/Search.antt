-- ===== src/Generator/Search.antt =====
-- search of internal/lottery-tree/form_generator.go, and what it does to the list of tries.
use mathlib.Core.Path.{subst}
use stat_tree_server.Base.{
  ℕ, zero, suc, ◌+◌, ◌-◌, ◌%◌, ◌≤◌, ◌<◌, ◌≡◌, refl, ap, ◌∙◌, Bool, true, false, ◌||◌, List, arith,
  length, take, ◌==◌,
}
use stat_tree_server.Generator.{
  Run, ok, panic, out_of_fuel, Cursor, FormGenerator, at_case, guarded, or_else, swap_back, accepts,
  search_forms,
}
use stat_tree_server.Generator.Swap.{times, IsSwapped, swap-IsSwapped}

-- A list with the same numbers, each as often, and the same first `n`.
pub record IsShuffled (n : ℕ) (a b : List ℕ) : Type 0 where
  pub same_length : length b ≡ length a
  pub rearranged : (z : ℕ) → times z b ≡ times z a
  pub prefix_kept : (m : ℕ) → m ≤ n → take m b ≡ take m a

-- What search promises when it is called at `start` on `tries`; a panic or a lack of fuel is excluded.
abbrev pub Outcome : (List ℕ → Bool) → ℕ → List ℕ → Run (Bool × Cursor) → Type 0
Outcome good start tries (ok (true, c)) =
    (good c.tries ≡ true) × IsShuffled start tries c.tries × c.case_l < 2
Outcome good start tries (ok (false, c)) = (c.tries ≡ tries) × c.case_l < 2
Outcome good start tries panic = ⊥
Outcome good start tries out_of_fuel = ⊥

Outcome-weaken :
    (good : List ℕ → Bool) (start less : ℕ) (tries : List ℕ) (r : Run (Bool × Cursor))
    → less ≤ start
    → Outcome good start tries r
    → Outcome good less tries r
Outcome-weaken good start less tries (ok (true, c)) h (a, s, l) = (
  a,
  record {
    same_length = s.same_length;
    rearranged = s.rearranged;
    prefix_kept = λ m b. s.prefix_kept m (omega arith);
  },
  l,
)
Outcome-weaken good start less tries (ok (false, c)) h o = o
Outcome-weaken good start less tries panic h o = o
Outcome-weaken good start less tries out_of_fuel h o = o

or_else-Outcome :
    (good : List ℕ → Bool) (start : ℕ) (tries : List ℕ) (r : Run (Bool × Cursor))
    (next : Cursor → Run (Bool × Cursor))
    → Outcome good start tries r
    → ((c : Cursor) → c.tries ≡ tries → c.case_l < 2 → Outcome good start tries (next c))
    → Outcome good start tries (or_else r next)
or_else-Outcome good start tries (ok (true, c)) next o again = o
or_else-Outcome good start tries (ok (false, c)) next o again = again c o.0 o.1
or_else-Outcome good start tries panic next o again = o
or_else-Outcome good start tries out_of_fuel next o again = o

guarded-Outcome :
    (good : List ℕ → Bool) (start : ℕ) (tries : List ℕ) (found stop : Bool) (c : Cursor)
    (next : Unit {0} → Run (Bool × Cursor))
    → (found ≡ true → Outcome good start tries (ok (true, c)))
    → Outcome good start tries (ok (false, c))
    → (stop ≡ false → Outcome good start tries (next tt))
    → Outcome good start tries (guarded found stop c next)
guarded-Outcome good start tries true stop c next o o' o'' = o refl
guarded-Outcome good start tries false true c next o o' o'' = o'
guarded-Outcome good start tries false false c next o o' o'' = o'' refl

swap_back-Outcome :
    (good : List ℕ → Bool) (start check : ℕ) (tries moved : List ℕ) (r : Run (Bool × Cursor))
    → start ≤ check
    → IsSwapped tries start check moved
    → Outcome good start moved r
    → Outcome good start tries (swap_back start check r)
swap_back-Outcome good start check tries moved (ok (true, c)) h s (a, t, l) = (
  a,
  record {
    same_length = t.same_length ∙ s.same_length;
    rearranged = λ z. t.rearranged z ∙ s.rearranged z;
    prefix_kept = λ m b. t.prefix_kept m b ∙ s.prefix_kept m b (omega arith);
  },
  l,
)
swap_back-Outcome good start check tries moved (ok (false, c)) h s (e, l) =
    rw (e, s.undone) (refl, l)
swap_back-Outcome good start check tries moved panic h s o = o
swap_back-Outcome good start check tries moved out_of_fuel h s o = o

module _ {F : Type 0} (g : FormGenerator F) where
  -- Called with start ≤ formType ≤ check ≤ len(tries), search returns (with fuel for its depth) and
  -- never indexes out of range. If it returns true, the list is a rearrangement that keeps the first
  -- `start` numbers and whose leading form is unseen and without a won combination; if it returns
  -- false, the list is as before.
  pub search_forms-Outcome :
      (fuel start check : ℕ) (c : Cursor)
      → start ≤ g.form_type
      → g.form_type ≤ check
      → check ≤ length c.tries
      → (g.form_type - start) + (length c.tries - check) < fuel
      → Outcome (accepts g) start c.tries (search_forms fuel g start check c)
  unfolding search_forms
  search_forms-Outcome zero start check c hs hc hl depth = absurd (omega arith)
  search_forms-Outcome (suc fuel) start check c hs hc hl depth =
      guarded-Outcome (accepts g) start c.tries (accepts g c.tries)
        (start == g.form_type || check == length c.tries) _ _
        (λ e. (
          e,
          record { same_length = refl; rearranged = λ z. refl; prefix_kept = λ m b. refl },
          omega arith,
        ))
        (refl, omega arith)
        λ more.
          let (moved, e, s) = swap-IsSwapped c.tries start check (ground arith) (ground arith) in
          let len = s.same_length in
          rw e (
            swap_back-Outcome (accepts g) start check c.tries moved _ (omega arith) s (
              or_else-Outcome (accepts g) start moved _ _
                (Outcome-weaken _ _ _ _ _ (omega arith) (
                  search_forms-Outcome fuel (start + ((c.case_l + 1) % 2 + 1) % 2)
                    (check + (c.case_l + 1) % 2) (at_case ((c.case_l + 1) % 2) moved) (ground arith)
                    (ground arith) (ground arith) (ground arith)))
                λ c' same small.
                  let len' = ap length same in
                  subst
                    (λ t.
                      Outcome (accepts g) start t
                        (search_forms fuel g (start + c'.case_l) (check + (c'.case_l + 1) % 2) c'))
                    same
                    (Outcome-weaken _ _ start _ _ (omega arith) (
                      search_forms-Outcome fuel (start + c'.case_l) (check + (c'.case_l + 1) % 2) c'
                        (ground arith) (ground arith) (ground arith) (ground arith)))))
