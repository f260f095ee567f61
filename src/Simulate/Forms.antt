-- ===== src/Simulate/Forms.antt =====
-- dedupAndSort of internal/services/simulate.go, and the form that Simulate makes of a request.
use native.Mathlib.Decide.{ℕ_discrete}
use stat_tree_server.Base.{
  ℕ, ◌<◌, ◌≡◌, refl, ◌∙◌, false, not, ◌&&◌, List, [], ◌∷◌, arith, ltb, elem, Distinct, All,
  Bool-cases, inl, inr,
}
use stat_tree_server.Base.Sort.{insert, sort_stable}
use stat_tree_server.Tree.Frequency.{Ascends}
use stat_tree_server.Archive.{sort_ints}
use stat_tree_server.Archive.Won.{elem-sort_ints}
use stat_tree_server.Simulate.{dedup, dedup_and_sort}

elem-dedup :
    (x : ℕ) (seen nums : List ℕ) → elem x (dedup seen nums) ≡ elem x nums && not (elem x seen)
unfolding dedup
elem-dedup x seen [] = refl
elem-dedup x seen (n ∷ nums) = elim (ℕ_discrete x n) [
  | yes p ↦ rw p (ground (arith, elem-dedup n seen nums, elem-dedup n (n ∷ seen) nums))
  | no q ↦ ground (arith, elem-dedup x seen nums, elem-dedup x (n ∷ seen) nums)
]

dedup-Distinct : (seen nums : List ℕ) → Distinct (dedup seen nums)
unfolding dedup
dedup-Distinct seen [] = tt
dedup-Distinct seen (n ∷ nums) = elim (Bool-cases (elem n seen)) [
  | inl e ↦ rw e (dedup-Distinct seen nums)
  | inr e ↦ rw e (ground (arith, elem-dedup n (n ∷ seen) nums), dedup-Distinct (n ∷ seen) nums)
]

insert-Ascends :
    (lo x : ℕ) (ys : List ℕ)
    → lo < x
    → elem x ys ≡ false
    → Ascends lo ys
    → Ascends lo (insert ltb x ys)
unfolding insert
insert-Ascends lo x [] h n a = (h, tt)
insert-Ascends lo x (y ∷ ys) h n a = elim (Bool-cases (ltb y x)) [
  | inl e ↦ rw e (a.0, insert-Ascends y x ys (ground arith) (ground arith) a.1)
  | inr e ↦ let lower_first : x < y = ground arith in rw e (h, (lower_first, a.1))
]

sort_ints-Ascends :
    (nums : List ℕ) → Distinct nums → All (λ n. 0 < n) nums → Ascends 0 (sort_ints nums)
unfolding sort_ints sort_stable
sort_ints-Ascends [] d p = tt
sort_ints-Ascends (n ∷ nums) d p =
    insert-Ascends 0 n (sort_stable ltb nums) p.0 (elem-sort_ints n nums ∙ d.0)
      (sort_ints-Ascends nums d.1 p.1)

dedup-positive : (seen nums : List ℕ) → All (λ n. 0 < n) nums → All (λ n. 0 < n) (dedup seen nums)
unfolding dedup
dedup-positive seen [] p = tt
dedup-positive seen (n ∷ nums) p = elim (Bool-cases (elem n seen)) [
  | inl e ↦ rw e (dedup-positive seen nums p.1)
  | inr e ↦ rw e (p.0, dedup-positive (n ∷ seen) nums p.1)
]

-- dedupAndSort of positive numbers gives the same numbers, strictly ascending.
pub dedup_and_sort-Ascends :
    (nums : List ℕ)
    → All (λ n. 0 < n) nums
    → Ascends 0 (dedup_and_sort nums) × ((x : ℕ) → elem x (dedup_and_sort nums) ≡ elem x nums)
unfolding dedup_and_sort
dedup_and_sort-Ascends nums p = (
  sort_ints-Ascends (dedup [] nums) (dedup-Distinct [] nums) (dedup-positive [] nums p),
  λ x. elem-sort_ints x (dedup [] nums) ∙ ground (arith, elem-dedup x [] nums),
)
