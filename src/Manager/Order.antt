-- ===== src/Manager/Order.antt =====
-- The list of cache entries in internal/services/lottery_manager.go, from the most to the least
-- recently used: addToFront, remove and moveToFront on the pointers. An entry is a number; `none` is
-- a nil pointer.
use mathlib.Core.Path.{subst}
use native.Mathlib.Decide.{ℕ_discrete}
use stat_tree_server.Base.{
  clash, ℕ, ◌≡◌, ◌∙◌, refl, sym, ap, Bool, true, false, List, [], ◌∷◌, Option, none, some, arith,
  ◌==◌, if◌then◌else◌, elem, Distinct, eq→==, ne→==,
}

pub record Links : Type 0 where
  pub prev : ℕ → Option ℕ
  pub next : ℕ → Option ℕ
  pub head : Option ℕ
  pub tail : Option ℕ

-- a write to a field of the entry `i`
abbrev pub write : (ℕ → Option ℕ) → ℕ → Option ℕ → ℕ → Option ℕ
write f i v j = if j == i then v else f j

-- `if i != nil { i.field = v }`
abbrev pub write_at : (ℕ → Option ℕ) → Option ℕ → Option ℕ → ℕ → Option ℕ
write_at f none v = f
write_at f (some i) v = write f i v

-- `if o == nil { o = v }`
abbrev pub unless_set : Option ℕ → Option ℕ → Option ℕ
unless_set none v = v
unless_set (some x) v = some x

abbrev pub if_nil : Option ℕ → Option ℕ → Option ℕ → Option ℕ
if_nil none v w = v
if_nil (some x) v w = w

unfoldable pub add_to_front : ℕ → Links → Links
add_to_front e l = record {
  prev = write_at (write l.prev e none) l.head (some e);
  next = write l.next e l.head;
  head = some e;
  tail = unless_set l.tail (some e);
}

unfoldable pub remove : ℕ → Links → Links
remove e l =
    let next = write_at l.next (l.prev e) (l.next e) in
    let prev = write_at l.prev (next e) (l.prev e) in
    record {
      prev = write prev e none;
      next = write next e none;
      head = if_nil (l.prev e) (l.next e) l.head;
      tail = if_nil (next e) (l.prev e) l.tail;
    }

abbrev pub is_at : Option ℕ → ℕ → Bool
is_at none e = false
is_at (some h) e = h == e

unfoldable pub move_to_front : ℕ → Links → Links
unfolding add_to_front remove
move_to_front e l = if is_at l.head e then l else add_to_front e (remove e l)

abbrev pub first : List ℕ → Option ℕ
first [] = none
first (x ∷ xs) = some x

-- The last entry, or `p` if there is none.
abbrev pub last_or : Option ℕ → List ℕ → Option ℕ
last_or p [] = p
last_or p (x ∷ xs) = last_or (some x) xs

-- The pointers run through the entries in order, after the entry `p`.
abbrev pub IsLinked : (ℕ → Option ℕ) → (ℕ → Option ℕ) → Option ℕ → List ℕ → Type 0
IsLinked prev next p [] = Unit
IsLinked prev next p (x ∷ xs) = (prev x ≡ p) × (next x ≡ first xs) × IsLinked prev next (some x) xs

-- The pointers hold the list of the given entries.
pub record IsOrder (l : Links) (ids : List ℕ) : Type 0 where
  pub linked : IsLinked l.prev l.next none ids
  pub at_head : l.head ≡ first ids
  pub at_tail : l.tail ≡ last_or none ids
  pub distinct : Distinct ids

-- Writes to other entries leave the list alone.
pub IsLinked-same :
    (prev next prev' next' : ℕ → Option ℕ) (p : Option ℕ) (ids : List ℕ)
    → ((x : ℕ) → elem x ids ≡ true → prev' x ≡ prev x)
    → ((x : ℕ) → elem x ids ≡ true → next' x ≡ next x)
    → IsLinked prev next p ids
    → IsLinked prev' next' p ids
IsLinked-same prev next prev' next' p [] a b l = tt
IsLinked-same prev next prev' next' p (x ∷ xs) a b (e, e', l) = (
  a x (here x xs) ∙ e,
  b x (here x xs) ∙ e',
  IsLinked-same prev next prev' next' (some x) xs (λ y h. a y (ground arith))
      (λ y h. b y (ground arith)) l,
)
  where
    here : (x : ℕ) (xs : List ℕ) → elem x (x ∷ xs) ≡ true
    here x xs = ground arith

pub write-other :
    (f : ℕ → Option ℕ) (i : ℕ) (v : Option ℕ) (j : ℕ) → (j == i) ≡ false → write f i v j ≡ f j
write-other f i v j e = rw e refl

pub write_self : (f : ℕ → Option ℕ) (i : ℕ) (v : Option ℕ) → write f i v i ≡ v
write_self f i v = rw (eq→== i i refl) refl

pub apart : (x y : ℕ) (ids : List ℕ) → elem x ids ≡ true → elem y ids ≡ false → (x == y) ≡ false
apart x y ids h n = elim (ℕ_discrete x y) [
  | yes e ↦ absurd (clash (rw e at h) n)
  | no m ↦ ne→== x y m
]

last_or-some :
    (x : ℕ) (xs : List ℕ) (v : Option ℕ) → unless_set (last_or (some x) xs) v ≡ last_or (some x) xs
last_or-some x [] v = refl
last_or-some x (y ∷ xs) v = last_or-some y xs v

front-IsLinked :
    (prev next : ℕ → Option ℕ) (e : ℕ) (ids : List ℕ)
    → elem e ids ≡ false
    → Distinct ids
    → IsLinked prev next none ids
    → IsLinked
        (write_at (write prev e none) (first ids) (some e))
        (write next e (first ids))
        none
        (e ∷ ids)
front-IsLinked prev next e [] n d l = (write_self prev e none, write_self next e none, tt)
front-IsLinked prev next e (x ∷ xs) n d l =
    let e_x : (e == x) ≡ false = ground arith in
    let x_e : (x == e) ≡ false = ground arith in
    (
      write-other (write prev e none) x (some e) e e_x ∙ write_self prev e none,
      write_self next e (some x),
      (
        write_self (write prev e none) x (some e),
        write-other next e (some x) x x_e ∙ l.1,
        IsLinked-same prev next _ _ (some x) xs
            (λ y h.
              write-other (write prev e none) x (some e) y (apart y x xs h d.0)
              ∙ write-other prev e none y (apart y e xs h (ground arith)))
            (λ y h. write-other next e (some x) y (apart y e xs h (ground arith))) l.2,
      ),
    )

front-tail :
    (e : ℕ) (ids : List ℕ) → unless_set (last_or none ids) (some e) ≡ last_or none (e ∷ ids)
front-tail e [] = refl
front-tail e (x ∷ xs) = last_or-some x xs (some e)

-- addToFront puts an entry that is not in the list before the others.
pub add_to_front-IsOrder :
    (e : ℕ) (l : Links) (ids : List ℕ)
    → elem e ids ≡ false
    → IsOrder l ids
    → IsOrder (add_to_front e l) (e ∷ ids)
unfolding add_to_front
add_to_front-IsOrder e l ids n o = record {
  linked =
      subst
        (λ h.
          IsLinked (write_at (write l.prev e none) h (some e)) (write l.next e h) none (e ∷ ids))
        (sym o.at_head) (front-IsLinked l.prev l.next e ids n o.distinct o.linked);
  at_head = refl;
  at_tail = ap (λ t. unless_set t (some e)) o.at_tail ∙ front-tail e ids;
  distinct = (n, o.distinct);
}
