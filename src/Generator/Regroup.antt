-- ===== src/Generator/Regroup.antt =====
-- regroup of internal/lottery-tree/form_generator.go, with the loop that looks for a number.
use mathlib.Core.Option
use mathlib.Core.Path.{subst}
use stat_tree_server.Base.{
  ℕ, zero, suc, ◌+◌, ◌≤◌, ◌<◌, ◌≡◌, refl, ap, ◌∙◌, true, false, List, [], ◌∷◌, Option, none, some,
  arith, length, get_elem?, take, ltb, ◌==◌, elem, All, All-map, inl, inr, Option-cases, Bool-cases,
}
use stat_tree_server.Generator.{ok, find_from, regroup}
use stat_tree_server.Generator.Swap.{times, IsSwapped, swap-IsSwapped}
use stat_tree_server.Generator.Search.{IsShuffled}

elem-times : (x : ℕ) (a : List ℕ) → elem x a ≡ ltb 0 (times x a)
elem-times x [] = refl
elem-times x (y ∷ a) = ground (arith, elem-times x a)

pub elem-take_more :
    (x m n : ℕ) (a : List ℕ) → m ≤ n → elem x (take m a) ≡ true → elem x (take n a) ≡ true
elem-take_more x zero n a h e = ground arith
elem-take_more x (suc m) zero a h e = absurd (omega arith)
elem-take_more x (suc m) (suc n) [] h e = e
elem-take_more x (suc m) (suc n) (y ∷ a) h e = ground (arith, elem-take_more x m n a (omega arith))

elem-take_at : (x i : ℕ) (a : List ℕ) → get_elem? a i ≡ some x → elem x (take (suc i) a) ≡ true
elem-take_at x i [] e = ground arith
elem-take_at x zero (y ∷ a) e = ground arith
elem-take_at x (suc i) (y ∷ a) e = ground (arith, elem-take_at x i a e)

-- What the loop of regroup finds: a place from `start` on, or else the number is not there.
abbrev Found : ℕ → ℕ → List ℕ → Option ℕ → Type 0
Found start want a none = elem want a ≡ true → elem want (take start a) ≡ true
Found start want a (some j) = start ≤ j × j < length a × (get_elem? a j ≡ some want)

Found-behind :
    (start want x : ℕ) (a : List ℕ) (o : Option ℕ)
    → Found start want a o
    → Found (suc start) want (x ∷ a) (Option.map suc o)
Found-behind start want x a none f = λ h. ground (arith, f)
Found-behind start want x a (some j) f = (omega (arith, f.0), omega (arith, f.1), f.2)

Found-other :
    (want x : ℕ) (a : List ℕ) (o : Option ℕ)
    → (x == want) ≡ false
    → Found 0 want a o
    → Found 0 want (x ∷ a) (Option.map suc o)
Found-other want x a none e f = λ h. ground (arith, f)
Found-other want x a (some j) e f = (omega arith, omega (arith, f.1), f.2)

find_from-Found : (start want : ℕ) (a : List ℕ) → Found start want a (find_from start want a)
unfolding find_from
find_from-Found start want [] = λ h. ground arith
find_from-Found zero want (x ∷ a) = elim (Bool-cases (x == want)) [
  | inl e ↦ rw e (omega arith, omega arith, ap some (ground arith))
  | inr e ↦ rw e (Found-other want x a _ e (find_from-Found 0 want a))
]
find_from-Found (suc start) want (x ∷ a) =
    Found-behind start want x a _ (find_from-Found start want a)

-- What regroup makes of `tries` from `start` on.
pub record IsRegrouped (will_be : List ℕ) (start : ℕ) (tries : List ℕ) (t : List ℕ) (skip : ℕ)
    : Type 0 where
  pub shuffled : IsShuffled start tries t
  pub from_start : start ≤ skip
  pub within : skip ≤ length t
  pub few : skip ≤ start + length will_be
  pub in_front : All (λ w. elem w tries ≡ true → elem w (take skip t) ≡ true) will_be

elem-shuffled : (n x : ℕ) (a b : List ℕ) → IsShuffled n a b → elem x a ≡ true → elem x b ≡ true
elem-shuffled n x a b s e = rw (elem-times x b, s.rearranged x, ← elem-times x a) e

regroup_step :
    (want : ℕ) (will_be : List ℕ) (start j : ℕ) (tries moved t : List ℕ) (skip : ℕ)
    → start ≤ j
    → get_elem? tries j ≡ some want
    → IsSwapped tries start j moved
    → IsRegrouped will_be (suc start) moved t skip
    → IsRegrouped (want ∷ will_be) start tries t skip
regroup_step want will_be start j tries moved t skip h e s r =
    let after = r.shuffled in
    record {
      shuffled = record {
        same_length = after.same_length ∙ s.same_length;
        rearranged = λ z. after.rearranged z ∙ s.rearranged z;
        prefix_kept = λ m b. after.prefix_kept m (omega arith) ∙ s.prefix_kept m b (omega arith);
      };
      from_start = omega (arith, r.from_start);
      within = r.within;
      few = omega (arith, r.few);
      in_front = (
        λ _. elem-take_more want (suc start) skip t r.from_start (
            ap (elem want) (after.prefix_kept (suc start) (omega arith))
            ∙ elem-take_at want start moved (s.moved ∙ e)),
        All-map _ _ (λ w f i. f (rw (elem-times w moved, s.rearranged w, ← elem-times w tries) i))
            will_be r.in_front,
      );
    }

regroup_absent :
    (want : ℕ) (will_be : List ℕ) (start : ℕ) (tries t : List ℕ) (skip : ℕ)
    → (elem want tries ≡ true → elem want (take start tries) ≡ true)
    → IsRegrouped will_be start tries t skip
    → IsRegrouped (want ∷ will_be) start tries t skip
regroup_absent want will_be start tries t skip f r =
    let s = r.shuffled in
    record {
      shuffled = s;
      from_start = r.from_start;
      within = r.within;
      few = omega (arith, r.few);
      in_front = (
        λ i.
            elem-take_more want start skip t r.from_start
              (ap (elem want) (s.prefix_kept start (omega arith)) ∙ f i),
        r.in_front,
      );
    }

-- regroup never indexes out of range. The new list is a rearrangement, of which the first `skip`
-- numbers hold every requested number that is in the list; `skip` is at most the number of requests.
pub regroup-IsRegrouped :
    (will_be : List ℕ) (start : ℕ) (tries : List ℕ)
    → start ≤ length tries
    → (t : List ℕ) × (skip : ℕ) × (regroup will_be start tries ≡ ok (t, skip))
      × IsRegrouped will_be start tries t skip
unfolding regroup
regroup-IsRegrouped [] start tries h = (
  tries,
  start,
  refl,
  record {
    shuffled = record { same_length = refl; rearranged = λ z. refl; prefix_kept = λ m b. refl };
    from_start = omega arith;
    within = h;
    few = omega arith;
    in_front = tt;
  },
)
regroup-IsRegrouped (want ∷ will_be) start tries h =
    let known = find_from-Found start want tries in
    elim (Option-cases (find_from start want tries)) [
      | inl e ↦
          let f = subst (Found start want tries) e known in
          let (t, skip, e', r) = regroup-IsRegrouped will_be start tries h in
          (t, skip, rw e e', regroup_absent want will_be start tries t skip f r)
      | inr (j, e) ↦
          let f = subst (Found start want tries) e known in
          let (moved, e', s) = swap-IsSwapped tries start j (omega (arith, f.0, f.1)) f.1 in
          let (t, skip, e'', r) =
            regroup-IsRegrouped will_be (suc start) moved
              (omega (arith, s.same_length, f.0, f.1)) in
          (
            t,
            skip,
            rw (e, e') e'',
            regroup_step want will_be start j tries moved t skip f.0 f.2 s r,
          )
    ]
