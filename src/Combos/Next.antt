-- ===== src/Combos/Next.antt =====
-- The step of GenerateCombinations from one index list to the next (the scan, the increment and the
-- refill of internal/lottery-tree/lottery_archive.go), against a step by recursion on the list.
use mathlib.Core.List.{append_assoc}
use stat_tree_server.Base.{
  ℕ, zero, suc, ◌+◌, ◌-◌, ◌≤◌, ◌<◌, ◌≡◌, refl, ◌∙◌, ap, List, [], ◌∷◌, ◌++◌, Option, none, some,
  arith, length, get_or, set, length-append, ◌==◌, if◌then◌else◌, inl, inr, Option-cases,
}
use stat_tree_server.Combos.{last_open, refill, advance}
use stat_tree_server.Combos.Spec.{range}

-- The place of the last index that can grow.
open_at : ℕ → List ℕ → Option ℕ
open_at n [] = none
open_at n (i ∷ is) = elim (open_at n is) [
  | none ↦ if i + suc (length is) == n then none else some 0
  | some j ↦ some (suc j)
]

-- The index list behind that place starts again, right above it.
grow_at : ℕ → List ℕ → List ℕ
grow_at j [] = []
grow_at zero (i ∷ is) = range (suc i) (suc (length is))
grow_at (suc j) (i ∷ is) = i ∷ grow_at j is

abbrev grown_at : List ℕ → Option ℕ → Option (List ℕ)
grown_at is o = elim o [ none ↦ none | some j ↦ some (grow_at j is) ]

-- The next index list in lexicographic order.
unfoldable pub next_indices : ℕ → List ℕ → Option (List ℕ)
next_indices n [] = none
next_indices n (i ∷ is) = elim (next_indices n is) [
  | none ↦ if i + suc (length is) == n then none else some (range (suc i) (suc (length is)))
  | some is' ↦ some (i ∷ is')
]

get_or-middle : (pre : List ℕ) (i : ℕ) (is : List ℕ) → get_or (pre ++ i ∷ is) (length pre) 0 ≡ i
get_or-middle [] i is = refl
get_or-middle (x ∷ pre) i is = get_or-middle pre i is

-- A place found in the list behind `p` elements, or else what a scan of those finds.
found : Option ℕ → Option ℕ → ℕ → Option ℕ
found none before p = before
found (some j) before p = some (p + j)

last_open-suc :
    (n k : ℕ) (l : List ℕ) (p : ℕ)
    → last_open n k l (suc p) ≡ (if get_or l p 0 == n - k + p then last_open n k l p else some p)
unfolding last_open
last_open-suc n k l p = refl

found-cons :
    (n k : ℕ) (pre : List ℕ) (i : ℕ) (is : List ℕ)
    → length pre + suc (length is) ≡ k
    → k ≤ n
    → found (open_at n is) (last_open n k (pre ++ i ∷ is) (suc (length pre))) (suc (length pre))
      ≡ found (open_at n (i ∷ is)) (last_open n k (pre ++ i ∷ is) (length pre)) (length pre)
unfolding found open_at
found-cons n k pre i is size fits = elim (Option-cases (open_at n is)) [
  | inl e ↦
      rw (e, found)
        (ground (arith, get_or-middle pre i is, last_open-suc n k (pre ++ i ∷ is) (length pre)))
  | inr (j, e) ↦ rw (e, found) (ap some (omega arith))
]

last_open-suffix :
    (n k : ℕ) (pre is : List ℕ)
    → length pre + length is ≡ k
    → k ≤ n
    → last_open n k (pre ++ is) k
      ≡ found (open_at n is) (last_open n k (pre ++ is) (length pre)) (length pre)
unfolding open_at found
last_open-suffix n k pre [] size fits = ap (last_open n k (pre ++ [])) (omega arith)
last_open-suffix n k pre (i ∷ is) size fits =
    let longer : length (pre ++ i ∷ []) ≡ suc (length pre) =
      omega (arith, length-append pre (i ∷ [])) in
    let rest = last_open-suffix n k (pre ++ i ∷ []) is (omega (arith, longer)) fits in
    rw longer at (rw (append_assoc pre (i ∷ []) is) at rest) ∙ found-cons n k pre i is size fits

-- The scan of the whole list.
last_open-open_at :
    (n : ℕ) (is : List ℕ) → length is ≤ n → last_open n (length is) is (length is) ≡ open_at n is
unfolding last_open found
last_open-open_at n is h =
    last_open-suffix n (length is) [] is (omega arith) h ∙ found-zero (open_at n is)
  where
    found-zero : (o : Option ℕ) → found o none 0 ≡ o
    found-zero none = refl
    found-zero (some j) = ap some (omega arith)

refill-cons : (r j x : ℕ) (l : List ℕ) → refill r (suc (suc j)) (x ∷ l) ≡ x ∷ refill r (suc j) l
unfolding refill
refill-cons zero j x l = refl
refill-cons (suc r) j x l =
    let back : suc (suc j) - 1 ≡ suc j = omega arith in
    let back' : suc j - 1 ≡ j = omega arith in
    rw (back, back') (refill-cons r (suc j) x (set l (suc j) (get_or l j 0 + 1)))

refill-range : (v : ℕ) (is : List ℕ) → refill (length is) 1 (v ∷ is) ≡ range v (suc (length is))
unfolding refill range
refill-range v [] = refl
refill-range v (w ∷ is) =
    refill-cons (length is) 0 v ((v + 1) ∷ is)
    ∙ ap (◌∷◌ v) (let e : v + 1 ≡ suc v = omega arith in rw e (refill-range (suc v) is))

refill-grow_at :
    (n j : ℕ) (is : List ℕ)
    → j < length is
    → refill (length is - j - 1) (suc j) (set is j (get_or is j 0 + 1)) ≡ grow_at j is
unfolding grow_at
refill-grow_at n j [] h = absurd (omega arith)
refill-grow_at n zero (i ∷ is) h =
    let e : suc (length is) - 0 - 1 ≡ length is = omega arith in
    let f : i + 1 ≡ suc i = omega arith in rw (e, f) (refill-range (suc i) is)
refill-grow_at n (suc j) (i ∷ is) h =
    let e : suc (length is) - suc j - 1 ≡ length is - j - 1 = omega arith in
    rw e (
      refill-cons (length is - j - 1) j i (set is j (get_or is j 0 + 1))
      ∙ ap (◌∷◌ i) (refill-grow_at n j is (omega arith)))

next_indices-open_at : (n : ℕ) (is : List ℕ) → next_indices n is ≡ grown_at is (open_at n is)
unfolding next_indices open_at grow_at
next_indices-open_at n [] = refl
next_indices-open_at n (i ∷ is) = ground (arith, next_indices-open_at n is)

open_at-lt : (n : ℕ) (is : List ℕ) (j : ℕ) → open_at n is ≡ some j → j < length is
unfolding open_at
open_at-lt n [] j e = cc
open_at-lt n (i ∷ is) j e = elim (Option-cases (open_at n is)) [
  | inl none_found ↦ ground arith
  | inr (k, at) ↦ ground (arith, open_at-lt n is k at)
]

-- The scan, the increment and the refill together are the step to the next index list.
pub advance-next_indices :
    (n : ℕ) (is : List ℕ) → length is ≤ n → advance n (length is) is ≡ next_indices n is
unfolding advance
advance-next_indices n is h = rw (next_indices-open_at n is) (elim (Option-cases (open_at n is)) [
  | inl e ↦ rw (last_open-open_at n is h ∙ e, e, advance)
  | inr (j, e) ↦
      rw (last_open-open_at n is h ∙ e, e, advance)
        (ap some (refill-grow_at n j is (open_at-lt n is j e)))
])
