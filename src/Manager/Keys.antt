-- ===== src/Manager/Keys.antt =====
-- The map of the cache in internal/services/lottery_manager.go: what a lookup finds and a deletion
-- leaves, for entries that know their key.
use mathlib.Core.Option.{some-injective, none-ne-some}
use native.Mathlib.Decide.{ℕ_discrete}
use stat_tree_server.Base.{
  clash, ℕ, ◌≤◌, ◌<◌, ◌≡◌, refl, sym, ap, ◌∙◌, true, false, ◌&&◌, not, List, [], ◌∷◌, none, some,
  arith, length, elem, ◌==◌, Bool-cases, inl, inr, All, eq→==, ne→==,
}
use stat_tree_server.Manager.Cache.{Key, same_key, find_key, delete_key}

abbrev pub ids_of : List (Key × ℕ) → List ℕ
ids_of [] = []
ids_of ((k, e) ∷ cache) = e ∷ ids_of cache

-- Each entry of the map stands under the key that `key_of` gives.
abbrev pub IsKeyed : (ℕ → Key) → List (Key × ℕ) → Type 0
IsKeyed key_of cache = All (λ (k, e). same_key (key_of e) k ≡ true) cache

-- No key stands twice in the map.
abbrev pub HasKeys : List (Key × ℕ) → Type 0
HasKeys [] = Unit
HasKeys ((k, e) ∷ cache) = (find_key k cache ≡ none) × HasKeys cache

-- The test tells apart no keys that it finds the same.
pub same_key_cong : (i j k : Key) → same_key j k ≡ true → same_key i j ≡ same_key i k
same_key_cong (a, b) (c, d) (e, f) h = ground arith

pub same_key_sym : (i j : Key) → same_key i j ≡ same_key j i
same_key_sym (a, b) (c, d) = ground arith

pub same_key_self : (k : Key) → same_key k k ≡ true
same_key_self (a, b) = ground arith

pub find-same_key :
    (j k : Key) (cache : List (Key × ℕ)) → same_key j k ≡ true → find_key j cache ≡ find_key k cache
find-same_key j k [] h = refl
find-same_key j k ((i, e) ∷ cache) h = rw (same_key_cong i j k h, find-same_key j k cache h) refl

delete_absent :
    (k : Key) (cache : List (Key × ℕ)) → find_key k cache ≡ none → delete_key k cache ≡ cache
delete_absent k [] h = refl
delete_absent k ((i, e) ∷ cache) h = elim (Bool-cases (same_key i k)) [
  | inl s ↦ absurd (none-ne-some _ (sym (rw s at h)))
  | inr n ↦ rw (n, delete_absent k cache (rw n at h)) refl
]

find-delete :
    (j k : Key) (cache : List (Key × ℕ))
    → find_key j cache ≡ none
    → find_key j (delete_key k cache) ≡ none
find-delete j k [] h = refl
find-delete j k ((i, e) ∷ cache) h = elim (Bool-cases (same_key i j)) [
  | inl s ↦ absurd (none-ne-some _ (sym (rw s at h)))
  | inr n ↦ elim (Bool-cases (same_key i k)) [
    | inl s ↦ rw s (find-delete j k cache (rw n at h))
    | inr n' ↦ rw (n', n) (find-delete j k cache (rw n at h))
  ]
]

pub HasKeys-delete :
    (k : Key) (cache : List (Key × ℕ)) → HasKeys cache → HasKeys (delete_key k cache)
HasKeys-delete k [] h = tt
HasKeys-delete k ((i, e) ∷ cache) h = elim (Bool-cases (same_key i k)) [
  | inl s ↦ rw s (HasKeys-delete k cache h.1)
  | inr n ↦ rw n (find-delete i k cache h.0, HasKeys-delete k cache h.1)
]

pub All-delete :
    (P : Key × ℕ → Type 0) (k : Key) (cache : List (Key × ℕ))
    → All P cache
    → All P (delete_key k cache)
All-delete P k [] a = tt
All-delete P k ((i, e) ∷ cache) a = elim (Bool-cases (same_key i k)) [
  | inl s ↦ rw s (All-delete P k cache a.1)
  | inr n ↦ rw n (a.0, All-delete P k cache a.1)
]

module _ (key_of : ℕ → Key) where
  pub key_of-found :
      (k : Key) (e : ℕ) (cache : List (Key × ℕ))
      → IsKeyed key_of cache
      → find_key k cache ≡ some e
      → same_key (key_of e) k ≡ true
  key_of-found k e [] a h = absurd (none-ne-some _ h)
  key_of-found k e ((i, x) ∷ cache) a h = elim (Bool-cases (same_key i k)) [
    | inl s ↦
        let same_id = some-injective _ _ (rw s at h) in
        rw (sym same_id) (sym (same_key_cong (key_of x) i k s) ∙ a.0)
    | inr n ↦ key_of-found k e cache a.1 (rw n at h)
  ]

  -- An entry under another key is another entry.
  other_entry :
      (i k : Key) (e x : ℕ)
      → same_key (key_of x) i ≡ true
      → same_key (key_of e) k ≡ true
      → same_key i k ≡ false
      → (e == x) ≡ false
  other_entry i k e x at_i at_k n = elim (ℕ_discrete e x) [
    | yes same ↦
        let i_e : same_key i (key_of e) ≡ true =
          same_key_sym i (key_of e) ∙ ap (λ y. same_key (key_of y) i) same ∙ at_i in
        absurd (clash (sym (same_key_cong i (key_of e) k at_k) ∙ i_e) n)
    | no other ↦ ne→== e x other
  ]

  -- An entry whose key the map does not have is not in the map.
  pub not_cached :
      (k : Key) (e : ℕ) (cache : List (Key × ℕ))
      → IsKeyed key_of cache
      → same_key (key_of e) k ≡ true
      → find_key k cache ≡ none
      → elem e (ids_of cache) ≡ false
  not_cached k e [] a s h = refl
  not_cached k e ((i, x) ∷ cache) a s h = elim (Bool-cases (same_key i k)) [
    | inl same ↦ absurd (none-ne-some _ (sym (rw same at h)))
    | inr n ↦ ground (arith, other_entry i k e x a.0 s n, not_cached k e cache a.1 s (rw n at h))
  ]

  -- A deletion takes out the entry that the key finds, and no other.
  pub elem-delete :
      (k : Key) (e x : ℕ) (cache : List (Key × ℕ))
      → IsKeyed key_of cache
      → HasKeys cache
      → find_key k cache ≡ some e
      → elem x (ids_of (delete_key k cache)) ≡ elem x (ids_of cache) && not (x == e)
  elem-delete k e x [] a d h = absurd (none-ne-some _ h)
  elem-delete k e x ((i, y) ∷ cache) a d h = elim (Bool-cases (same_key i k)) [
    | inl same ↦
        let y_e = some-injective _ _ (rw same at h) in
        let absent : find_key k cache ≡ none = sym (find-same_key i k cache same) ∙ d.0 in
        let gone = not_cached i y cache a.1 a.0 d.0 in
        rw (same, delete_absent k cache absent) (without gone y_e)
    | inr n ↦
        let at_k = key_of-found k e cache a.1 (rw n at h) in
        let e_y = other_entry i k e y a.0 at_k n in
        rw n (ground (arith, e_y, elem-delete k e x cache a.1 d.1 (rw n at h)))
  ]
    where
      without :
          elem y (ids_of cache) ≡ false
          → y ≡ e
          → elem x (ids_of cache) ≡ elem x (y ∷ ids_of cache) && not (x == e)
      without gone y_e = elim (ℕ_discrete x y) [
        | yes same ↦ rw (same, gone, eq→== y e y_e) (ground arith)
        | no other ↦ ground arith
      ]

pub length-delete : (k : Key) (cache : List (Key × ℕ)) → length (delete_key k cache) ≤ length cache
length-delete k [] = ground arith
length-delete k ((i, e) ∷ cache) = elim (Bool-cases (same_key i k)) [
  | inl s ↦ rw s (ground (arith, length-delete k cache))
  | inr n ↦ rw n (ground (arith, length-delete k cache))
]

pub length-delete_found :
    (k : Key) (e : ℕ) (cache : List (Key × ℕ))
    → find_key k cache ≡ some e
    → length (delete_key k cache) < length cache
length-delete_found k e [] h = absurd (none-ne-some _ h)
length-delete_found k e ((i, x) ∷ cache) h = elim (Bool-cases (same_key i k)) [
  | inl s ↦ rw s (ground (arith, length-delete k cache))
  | inr n ↦ rw n (ground (arith, length-delete_found k e cache (rw n at h)))
]

-- An entry of the map is found under its key.
pub find-cached :
    (key_of : ℕ → Key) (e : ℕ) (cache : List (Key × ℕ))
    → IsKeyed key_of cache
    → HasKeys cache
    → elem e (ids_of cache) ≡ true
    → find_key (key_of e) cache ≡ some e
find-cached key_of e [] a d h = absurd (ground arith)
find-cached key_of e ((i, x) ∷ cache) a d h = elim (ℕ_discrete e x) [
  | yes same ↦
      let at_i : same_key i (key_of e) ≡ true =
        same_key_sym i (key_of e) ∙ ap (λ y. same_key (key_of y) i) same ∙ a.0 in
      rw at_i (ap some (sym same))
  | no other ↦
      let later : elem e (ids_of cache) ≡ true = ground arith in
      let rest = find-cached key_of e cache a.1 d.1 later in
      elim (Bool-cases (same_key i (key_of e))) [
        | inl s ↦ absurd (none-ne-some _ (sym d.0 ∙ find-same_key i (key_of e) cache s ∙ rest))
        | inr n ↦ rw n rest
      ]
]

pub find-deleted : (k : Key) (cache : List (Key × ℕ)) → find_key k (delete_key k cache) ≡ none
find-deleted k [] = refl
find-deleted k ((i, e) ∷ cache) = elim (Bool-cases (same_key i k)) [
  | inl s ↦ rw s (find-deleted k cache)
  | inr n ↦ rw n (rw n (find-deleted k cache))
]

pub find-delete_other :
    (j k : Key) (cache : List (Key × ℕ))
    → same_key j k ≡ false
    → find_key k (delete_key j cache) ≡ find_key k cache
find-delete_other j k [] n = refl
find-delete_other j k ((i, e) ∷ cache) n = elim (Bool-cases (same_key i j)) [
  | inl s ↦
      let i_k : same_key i k ≡ false =
        same_key_sym i k ∙ same_key_cong k i j s ∙ same_key_sym k j ∙ n in
      rw (s, i_k) (find-delete_other j k cache n)
  | inr n' ↦ elim (Bool-cases (same_key i k)) [
    | inl s ↦ rw (n', s) refl
    | inr n'' ↦ rw (n', n'') (find-delete_other j k cache n)
  ]
]

pub same_key-path : (j k : Key) → same_key j k ≡ true → j ≡ k
same_key-path (a, b) (c, d) h =
    let e : a ≡ c = ground arith in let f : b ≡ d = ground arith in rw (e, f) refl
