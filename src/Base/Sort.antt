-- ===== src/Base/Sort.antt =====
-- What the source uses of Go's sort.SliceStable and sort.Ints: a stable sort, here by insertion.
use mathlib.Core.List.{Perm}
use mathlib.Core.List.Perm
use stat_tree_server.Base.{
  ◌≡◌, refl, ◌∙◌, Bool, true, false, List, [], ◌∷◌, arith, if◌then◌else◌, All, All-map, Bool-cases,
  inl, inr, ap,
}

module _ {ℓ} {A : Type ℓ} where
  -- The elements that pass a test, in order.
  unfoldable pub keep : (A → Bool) → List A → List A
  keep p [] = []
  keep p (x ∷ xs) = if p x then x ∷ keep p xs else keep p xs

  module _ (less : A → A → Bool) where
    unfoldable pub insert : A → List A → List A
    insert x [] = x ∷ []
    insert x (y ∷ ys) = let rest = insert x ys in if less y x then y ∷ rest else x ∷ y ∷ ys

    unfoldable pub sort_stable : List A → List A
    unfolding insert
    sort_stable [] = []
    sort_stable (x ∷ xs) = insert x (sort_stable xs)

    -- No later element is less than an earlier one.
    abbrev pub IsSorted : List A → Type 0
    IsSorted [] = Unit
    IsSorted (x ∷ xs) = All (λ y. less y x ≡ false) xs × IsSorted xs

    keep-All {κ} : (P : A → Type κ) (p : A → Bool) (xs : List A) → All P xs → All P (keep p xs)
    unfolding keep
    keep-All P p [] a = tt
    keep-All P p (x ∷ xs) a = elim (Bool-cases (p x)) [
      | inl e ↦ rw e (a.0, keep-All P p xs a.1)
      | inr e ↦ rw e (keep-All P p xs a.1)
    ]

    pub keep-IsSorted : (p : A → Bool) (xs : List A) → IsSorted xs → IsSorted (keep p xs)
    unfolding keep
    keep-IsSorted p [] s = tt
    keep-IsSorted p (x ∷ xs) s = elim (Bool-cases (p x)) [
      | inl e ↦ rw e (keep-All (λ y. less y x ≡ false) p xs s.0, keep-IsSorted p xs s.1)
      | inr e ↦ rw e (keep-IsSorted p xs s.1)
    ]

    insert-perm : (x : A) (ys : List A) → Perm (insert x ys) (x ∷ ys)
    unfolding insert
    insert-perm x [] = Perm.refl (x ∷ [])
    insert-perm x (y ∷ ys) = elim (Bool-cases (less y x)) [
      | inl e ↦ rw e (Perm.trans (Perm.cons y (insert-perm x ys)) (Perm.swap x y ys))
      | inr e ↦ rw e (Perm.refl _)
    ]

    pub sort_stable-perm : (xs : List A) → Perm (sort_stable xs) xs
    unfolding sort_stable
    sort_stable-perm [] = Perm.nil
    sort_stable-perm (x ∷ xs) =
        Perm.trans (insert-perm x (sort_stable xs)) (Perm.cons x (sort_stable-perm xs))

    insert-All {κ} : (P : A → Type κ) (x : A) (ys : List A) → P x → All P ys → All P (insert x ys)
    unfolding insert
    insert-All P x [] h a = (h, tt)
    insert-All P x (y ∷ ys) h a = elim (Bool-cases (less y x)) [
      | inl e ↦ rw e (a.0, insert-All P x ys h a.1)
      | inr e ↦ rw e (h, a)
    ]

    pub sort_stable-All {κ} : (P : A → Type κ) (xs : List A) → All P xs → All P (sort_stable xs)
    unfolding sort_stable
    sort_stable-All P [] a = tt
    sort_stable-All P (x ∷ xs) a = insert-All P x _ a.0 (sort_stable-All P xs a.1)

    module _ (asym : (x y : A) → less x y ≡ true → less y x ≡ false)
        (trans : (x y z : A) → less y x ≡ false → less z y ≡ false → less z x ≡ false) where
      insert-IsSorted : (x : A) (ys : List A) → IsSorted ys → IsSorted (insert x ys)
      unfolding insert
      insert-IsSorted x [] s = (tt, tt)
      insert-IsSorted x (y ∷ ys) s = elim (Bool-cases (less y x)) [
        | inl e ↦
            rw e
              (insert-All (λ z. less z y ≡ false) x ys (asym y x e) s.0, insert-IsSorted x ys s.1)
        | inr e ↦ rw e ((e, All-map _ _ (λ z h. trans x y z e h) ys s.0), s)
      ]

      pub sort_stable-IsSorted : (xs : List A) → IsSorted (sort_stable xs)
      unfolding sort_stable
      sort_stable-IsSorted [] = tt
      sort_stable-IsSorted (x ∷ xs) = insert-IsSorted x _ (sort_stable-IsSorted xs)

    -- Elements of a class in which none is less than another keep their order.
    module _ (p : A → Bool) (even : (x y : A) → p x ≡ true → p y ≡ true → less x y ≡ false) where
      keep-insert : (x : A) (ys : List A) → keep p (insert x ys) ≡ keep p (x ∷ ys)
      unfolding insert keep
      keep-insert x [] = refl
      keep-insert x (y ∷ ys) = ground (arith, keep-insert x ys, even y x)

      pub keep-sort_stable : (xs : List A) → keep p (sort_stable xs) ≡ keep p xs
      unfolding sort_stable keep
      keep-sort_stable [] = refl
      keep-sort_stable (x ∷ xs) =
          keep-insert x (sort_stable xs) ∙ ap (λ t. if p x then x ∷ t else t) (keep-sort_stable xs)
