-- ===== src/Archive/Won.antt =====
-- HasWon of internal/lottery-tree/lottery_archive.go against the draws.
use stat_tree_server.Base.{
  ℕ, zero, suc, ◌+◌, ◌≤◌, ◌<◌, ◌≡◌, refl, ◌∙◌, Bool, true, false, ◌&&◌, ◌||◌, List, [], ◌∷◌, arith,
  length, take, elem, ltb, leb, ◌==◌, ==_iff, if◌then◌else◌, Bool-cases, inl, inr,
}
use native.Mathlib.Decide.{ℕ_discrete}
use stat_tree_server.Base.Sort.{sort_stable, insert}
use stat_tree_server.Combos.Spec.{range}
use stat_tree_server.Mask.{combo_mask}
use stat_tree_server.Mask.Sets.{combo_mask-eq_iff}
use stat_tree_server.Models.{LotteryResult}
use stat_tree_server.Archive.{LotteryType, sort_ints, winning_masks, new_archive, has_won}

abbrev same : Bool → Bool → Bool
same true b = b
same false true = false
same false false = true

-- Whether two lists hold the same of these numbers.
unfoldable pub agree_on : List ℕ → List ℕ → List ℕ → Bool
agree_on [] xs ys = true
agree_on (k ∷ ks) xs ys = same (elem k xs) (elem k ys) && agree_on ks xs ys

-- Whether two lists hold the same numbers among 1..63.
unfoldable pub same_numbers : List ℕ → List ℕ → Bool
unfolding agree_on
same_numbers xs ys = agree_on (range 1 63) xs ys

-- Whether the first six numbers of some complete draw are the numbers of the combination.
unfoldable pub won_before : {F : Type 0} → List ℕ → List (LotteryResult F) → Bool
won_before combo [] = false
won_before combo (d ∷ draws) =
    leb 6 (length d.numbers) && same_numbers combo (take 6 d.numbers) || won_before combo draws

agree_on_sound :
    (i n k : ℕ) (xs ys : List ℕ)
    → agree_on (range i n) xs ys ≡ true
    → i ≤ k
    → k < i + n
    → elem k xs ≡ elem k ys
unfolding agree_on range
agree_on_sound i zero k xs ys h lo hi = absurd (omega arith)
agree_on_sound i (suc n) k xs ys h lo hi = elim (ℕ_discrete i k) [
  | yes e ↦ rw (← e) (same_eq (elem i xs) (elem i ys) (ground arith))
  | no ne ↦ agree_on_sound (suc i) n k xs ys (ground arith) (omega arith) (omega arith)
]
  where
    same_eq : (a b : Bool) → same a b ≡ true → a ≡ b
    same_eq true true h = refl
    same_eq true false h = cc
    same_eq false true h = cc
    same_eq false false h = refl

agree_on_complete :
    (i n : ℕ) (xs ys : List ℕ)
    → ((k : ℕ) → i ≤ k → k < i + n → elem k xs ≡ elem k ys)
    → agree_on (range i n) xs ys ≡ true
unfolding agree_on range
agree_on_complete i zero xs ys h = refl
agree_on_complete i (suc n) xs ys h = rw (
  h i (omega arith) (omega arith),
  same_self (elem i ys),
  agree_on_complete (suc i) n xs ys (λ k lo hi. h k (omega arith) (omega arith)),
)
  where
    same_self : (a : Bool) → same a a ≡ true
    same_self true = refl
    same_self false = refl

-- Equal masks are equal sets.
mask_test : (xs ys : List ℕ) → (combo_mask xs == combo_mask ys) ≡ same_numbers xs ys
unfolding same_numbers
mask_test xs ys = elim (Bool-cases (agree_on (range 1 63) xs ys)) [
  | inl e ↦
      let same_mask =
        (combo_mask-eq_iff xs ys).1 (λ k pos h. agree_on_sound 1 63 k xs ys e pos (omega arith)) in
      rw e ((==_iff _ _).1 same_mask)
  | inr e ↦ elim (Bool-cases (combo_mask xs == combo_mask ys)) [
    | inl t ↦
        let held = (combo_mask-eq_iff xs ys).0 ((==_iff _ _).0 t) in
        cc (agree_on_complete 1 63 xs ys (λ k lo hi. held k (omega arith) (omega arith)))
    | inr t ↦ rw (e, t)
  ]
]

elem-insert : (k x : ℕ) (l : List ℕ) → elem k (insert ltb x l) ≡ (k == x || elem k l)
unfolding insert
elem-insert k x [] = refl
elem-insert k x (y ∷ l) = ground (arith, elem-insert k x l)

pub elem-sort_ints : (k : ℕ) (l : List ℕ) → elem k (sort_ints l) ≡ elem k l
unfolding sort_ints sort_stable
elem-sort_ints k [] = refl
elem-sort_ints k (x ∷ l) = rw (elem-insert k x (sort_stable ltb l), elem-sort_ints k l)

mask-sort_ints : (l : List ℕ) → combo_mask (sort_ints l) ≡ combo_mask l
mask-sort_ints l = (combo_mask-eq_iff (sort_ints l) l).1 (λ k pos h. elem-sort_ints k l)

elem-winning_masks :
    {F : Type 0} (combo : List ℕ) (draws : List (LotteryResult F))
    → elem (combo_mask combo) (winning_masks draws) ≡ won_before combo draws
unfolding winning_masks won_before
elem-winning_masks combo [] = refl
elem-winning_masks combo (d ∷ draws) = ground (
  arith,
  elem-winning_masks combo draws,
  mask-sort_ints (take 6 d.numbers),
  mask_test combo (take 6 d.numbers),
)

-- HasWon says of a combination whether some draw with at least six numbers has, as its first six,
-- the same numbers among 1..63, in any order.
pub has_won-won_before :
    {F : Type 0} (game : LotteryType) (from to : ℕ) (draws : List (LotteryResult F))
    (combo : List ℕ)
    → has_won (new_archive game from to draws) combo ≡ won_before combo draws
unfolding has_won new_archive
has_won-won_before game from to draws combo =
    empty_set (winning_masks draws) ∙ elem-winning_masks combo draws
  where
    empty_set :
        (masks : List ℕ)
        → (if length masks == 0 then false else elem (combo_mask combo) masks)
          ≡ elem (combo_mask combo) masks
    empty_set [] = refl
    empty_set (m ∷ masks) = ground arith
