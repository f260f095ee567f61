-- ===== src/Manager/Unlink.antt =====
-- remove of internal/services/lottery_manager.go: an entry leaves the list of pointers.
use native.Mathlib.Decide.{ℕ_discrete}
use stat_tree_server.Base.{
  ℕ, ◌≡◌, ◌∙◌, refl, sym, ap, true, false, List, [], ◌∷◌, ◌++◌, Option, none, some, arith, ◌==◌,
  ◌||◌, if◌then◌else◌, elem, Distinct, eq→==, ne→==,
}
use stat_tree_server.Manager.Order.{
  Links, write_at, is_at, if_nil, first, last_or, remove, move_to_front, add_to_front-IsOrder,
  IsLinked, IsOrder, IsLinked-same, write-other, apart,
}

pub elem-append : (x : ℕ) (xs ys : List ℕ) → elem x (xs ++ ys) ≡ elem x xs || elem x ys
elem-append x [] ys = refl
elem-append x (y ∷ xs) ys = ground (arith, elem-append x xs ys)

-- What is left of a list without repetitions has none.
Distinct-without :
    (pre : List ℕ) (e : ℕ) (post : List ℕ) → Distinct (pre ++ e ∷ post) → Distinct (pre ++ post)
Distinct-without [] e post d = d.1
Distinct-without (x ∷ pre) e post d = (
  ground (arith, elem-append x pre (e ∷ post), elem-append x pre post, d.0),
  Distinct-without pre e post d.1,
)

pub Distinct-after :
    (pre : List ℕ) (e : ℕ) (post : List ℕ) → Distinct (pre ++ e ∷ post) → Distinct (e ∷ post)
Distinct-after [] e post d = d
Distinct-after (x ∷ pre) e post d = Distinct-after pre e post d.1

-- No number stands on both sides.
separate :
    (pre post : List ℕ) (x : ℕ) → Distinct (pre ++ post) → elem x pre ≡ true → elem x post ≡ false
separate [] post x d h = absurd (ground arith)
separate (y ∷ pre) post x d h = elim (ℕ_discrete x y) [
  | yes e ↦ rw e (ground (arith, elem-append y pre post, d.0))
  | no n ↦ separate pre post x d.1 (ground arith)
]

linked_at :
    (prev next : ℕ → Option ℕ) (p : Option ℕ) (pre : List ℕ) (e : ℕ) (post : List ℕ)
    → IsLinked prev next p (pre ++ e ∷ post)
    → (prev e ≡ last_or p pre) × (next e ≡ first post)
linked_at prev next p [] e post l = (l.0, l.1)
linked_at prev next p (x ∷ pre) e post l = linked_at prev next (some x) pre e post l.2

not_last : (y x : ℕ) (xs : List ℕ) → elem y (x ∷ xs) ≡ false → is_at (last_or (some x) xs) y ≡ false
not_last y x [] h = ground arith
not_last y x (z ∷ xs) h = not_last y z xs (ground arith)

not_in_last : (y : ℕ) (xs : List ℕ) → elem y xs ≡ false → is_at (last_or none xs) y ≡ false
not_in_last y [] h = refl
not_in_last y (x ∷ xs) h = not_last y x xs h

not_first : (y : ℕ) (xs : List ℕ) → elem y xs ≡ false → is_at (first xs) y ≡ false
not_first y [] h = refl
not_first y (x ∷ xs) h = ground arith

write_at_value :
    (f : ℕ → Option ℕ) (o v : Option ℕ) (y : ℕ) → write_at f o v y ≡ (if is_at o y then v else f y)
write_at_value f none v y = refl
write_at_value f (some i) v y = elim (ℕ_discrete y i) [
  | yes e ↦ rw (eq→== y i e, eq→== i y (sym e)) refl
  | no n ↦ rw (ne→== y i n, ne→== i y (λ e. n (sym e))) refl
]

same_test : (y x : ℕ) → (y == x) ≡ false → (x == y) ≡ false
same_test y x h = ground arith

relink_after :
    (prev next prev' next' : ℕ → Option ℕ) (p q : Option ℕ) (post : List ℕ)
    → Distinct post
    → ((y : ℕ) → elem y post ≡ true → prev' y ≡ (if is_at (first post) y then q else prev y))
    → ((y : ℕ) → elem y post ≡ true → next' y ≡ next y)
    → IsLinked prev next p post
    → IsLinked prev' next' q post
relink_after prev next prev' next' p q [] d a b l = tt
relink_after prev next prev' next' p q (x ∷ xs) d a b l = (
  a x (ground arith) ∙ rw (eq→== x x refl) refl,
  b x (ground arith) ∙ l.1,
  IsLinked-same prev next prev' next' (some x) xs
      (λ y h. a y (ground arith) ∙ rw (same_test y x (apart y x xs h d.0)) refl)
      (λ y h. b y (ground arith)) l.2,
)

relink :
    (prev next prev' next' : ℕ → Option ℕ) (p : Option ℕ) (pre : List ℕ) (e : ℕ) (post : List ℕ)
    → Distinct (pre ++ e ∷ post)
    → ((y : ℕ) → elem y pre ≡ true → prev' y ≡ prev y)
    → ((y : ℕ)
        → elem y pre ≡ true
        → next' y ≡ (if is_at (last_or none pre) y then first post else next y))
    → ((y : ℕ)
        → elem y post ≡ true
        → prev' y ≡ (if is_at (first post) y then last_or p pre else prev y))
    → ((y : ℕ) → elem y post ≡ true → next' y ≡ next y)
    → IsLinked prev next p (pre ++ e ∷ post)
    → IsLinked prev' next' p (pre ++ post)
relink prev next prev' next' p [] e post d a b a' b' l =
    relink_after prev next prev' next' (some e) p post d.1 a' b' l.2
relink prev next prev' next' p (x ∷ []) e post d a b a' b' l = (
  a x (ground arith) ∙ l.0,
  b x (ground arith) ∙ rw (eq→== x x refl) refl,
  relink prev next prev' next' (some x) [] e post d.1 (λ y h. absurd (ground arith))
      (λ y h. absurd (ground arith)) a' b' l.2,
)
relink prev next prev' next' p (x ∷ z ∷ pre) e post d a b a' b' l = (
  a x (ground arith) ∙ l.0,
  b x (ground arith)
      ∙ rw (not_last x z pre (ground (arith, elem-append x pre (e ∷ post), d.0))) l.1,
  relink prev next prev' next' (some x) (z ∷ pre) e post d.1 (λ y h. a y (ground arith))
      (λ y h. b y (ground arith)) a' b' l.2,
)

head_without :
    (pre : List ℕ) (e : ℕ) (post : List ℕ)
    → if_nil (last_or none pre) (first post) (first (pre ++ e ∷ post)) ≡ first (pre ++ post)
head_without [] e post = refl
head_without (x ∷ pre) e post = some_last x pre
  where
    some_last : (y : ℕ) (ys : List ℕ) → if_nil (last_or (some y) ys) (first post) (some x) ≡ some x
    some_last y [] = refl
    some_last y (z ∷ ys) = some_last z ys

tail_without :
    (p : Option ℕ) (pre : List ℕ) (e : ℕ) (post : List ℕ)
    → if_nil (first post) (last_or p pre) (last_or p (pre ++ e ∷ post)) ≡ last_or p (pre ++ post)
tail_without p [] e [] = refl
tail_without p [] e (y ∷ post) = refl
tail_without p (x ∷ pre) e post = tail_without (some x) pre e post

pub not_before :
    (pre : List ℕ) (e : ℕ) (post : List ℕ) → Distinct (pre ++ e ∷ post) → elem e pre ≡ false
not_before [] e post d = refl
not_before (x ∷ pre) e post d =
    ground (arith, elem-append x pre (e ∷ post), d.0, not_before pre e post d.1)

other_side :
    (pre post : List ℕ) (x : ℕ) → Distinct (pre ++ post) → elem x post ≡ true → elem x pre ≡ false
other_side [] post x d h = refl
other_side (y ∷ pre) post x d h = elim (ℕ_discrete x y) [
  | yes e ↦
      let same : elem y post ≡ true = rw e at h in
      absurd (ground (arith, elem-append y pre post, d.0, same))
  | no n ↦ ground (arith, other_side pre post x d.1 h)
]

-- remove takes an entry of the list out of it, and leaves the others in their order.
pub remove-IsOrder :
    (pre : List ℕ) (e : ℕ) (post : List ℕ) (l : Links)
    → IsOrder l (pre ++ e ∷ post)
    → IsOrder (remove e l) (pre ++ post)
unfolding remove
remove-IsOrder pre e post l o =
    let (eP, eQ) = linked_at l.prev l.next none pre e post o.linked in
    let d = o.distinct in
    let after = Distinct-after pre e post d in
    let before = not_before pre e post d in
    let d' = Distinct-without pre e post d in
    let n1 : write_at l.next (l.prev e) (l.next e) e ≡ first post =
      write_at_value l.next (l.prev e) (l.next e) e ∙ rw (eP, not_in_last e pre before) eQ in
    let new_prev : (y : ℕ)
        → (y == e) ≡ false
        → (remove e l).prev y ≡ (if is_at (first post) y then last_or none pre else l.prev y) =
      λ y h.
        write-other (write_at l.prev (write_at l.next (l.prev e) (l.next e) e) (l.prev e)) e none y
          h
        ∙ write_at_value l.prev (write_at l.next (l.prev e) (l.next e) e) (l.prev e) y
        ∙ rw (n1, eP) refl in
    let new_next : (y : ℕ)
        → (y == e) ≡ false
        → (remove e l).next y ≡ (if is_at (last_or none pre) y then first post else l.next y) =
      λ y h.
        write-other (write_at l.next (l.prev e) (l.next e)) e none y h
        ∙ write_at_value l.next (l.prev e) (l.next e) y
        ∙ rw (eP, eQ) refl in
    record {
      linked =
          relink l.prev l.next _ _ none pre e post d
            (λ y h.
              new_prev y (apart y e pre h before)
              ∙ rw (not_first y post (separate pre post y d' h)) refl)
            (λ y h. new_next y (apart y e pre h before))
            (λ y h. new_prev y (apart y e post h after.0))
            (λ y h.
              new_next y (apart y e post h after.0)
              ∙ rw (not_in_last y pre (other_side pre post y d' h)) refl)
            o.linked;
      at_head = rw (eP, eQ, o.at_head) (head_without pre e post);
      at_tail = rw (n1, eP, o.at_tail) (tail_without none pre e post);
      distinct = d';
    }

-- moveToFront puts an entry of the list before the others, which keep their order.
pub move_to_front-IsOrder :
    (pre : List ℕ) (e : ℕ) (post : List ℕ) (l : Links)
    → IsOrder l (pre ++ e ∷ post)
    → IsOrder (move_to_front e l) (e ∷ pre ++ post)
unfolding move_to_front
move_to_front-IsOrder [] e post l o =
    let at_front : is_at l.head e ≡ true = ap (λ h. is_at h e) o.at_head ∙ eq→== e e refl in
    rw at_front o
move_to_front-IsOrder (x ∷ pre) e post l o =
    let d = o.distinct in
    let behind : is_at l.head e ≡ false =
      ap (λ h. is_at h e) o.at_head ∙ ground (arith, elem-append x pre (e ∷ post), d.0) in
    rw behind (
      add_to_front-IsOrder e (remove e l) ((x ∷ pre) ++ post)
        (ground (
          arith,
          elem-append x pre (e ∷ post),
          d.0,
          elem-append e pre post,
          not_before pre e post d.1,
          (Distinct-after pre e post d.1).0,
        ))
        (remove-IsOrder (x ∷ pre) e post l o))
