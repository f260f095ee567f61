-- ===== src/Auth/Origin.antt =====
-- Where the key of internal/middleware/auth.go that a token is verified with comes from.
use mathlib.Core.Option.{some-injective, none-ne-some}
use stat_tree_server.Base.{
  ℕ, ◌-◌, ◌<◌, ◌≡◌, ◌⊎◌, refl, ap, ◌∙◌, Bool, true, false, not, ◌&&◌, ◌||◌, List, [], ◌∷◌, Option,
  none, some, arith, length, ◌==◌, Bool-cases, inl, inr,
}
use stat_tree_server.Base.Texts.{Text, same_text, same_text-path}
use stat_tree_server.Auth.Jwks.{
  PublicKey, JwksKey, JwksCache, rsa, sig, is_fresh, find_kid, with_key, store_keys, after_refresh,
  if_fresh, or_refresh, parse_rsa_public_key, signing_keys, with_response, refresh, get_key,
}

-- Some member of the list has the property.
abbrev pub Any : {A : Type 0} → (A → Type 0) → List A → Type 0
Any P [] = ⊥
Any P (x ∷ xs) = P x ⊎ Any P xs

abbrev pub IsPair : Text → PublicKey → Text × PublicKey → Type 0
IsPair kid key (k, v) = (k ≡ kid) × (v ≡ key)

find_kid-Any :
    (kid : Text) (key : PublicKey) (keys : List (Text × PublicKey))
    → find_kid kid keys ≡ some key
    → Any (IsPair kid key) keys
find_kid-Any kid key [] h = absurd (none-ne-some _ h)
find_kid-Any kid key ((k, v) ∷ keys) h = elim (Bool-cases (same_text k kid)) [
  | inl e ↦ inl (same_text-path k kid e, some-injective _ _ (rw e at h))
  | inr n ↦ inr (find_kid-Any kid key keys (rw n at h))
]

module _ (decode : Text → Option (List ℕ)) (kid : Text) (key : PublicKey) where
  -- A key of the response that is an RSA key for signatures and has the kid.
  abbrev pub IsSigning : JwksKey → Type 0
  IsSigning k =
      (k.kid ≡ kid)
      × (k.kty ≡ rsa)
      × (k.use_for ≡ sig)
      × (parse_rsa_public_key decode k.n k.e ≡ some key)

  with_key-Any :
      (k : JwksKey) (parsed : Option PublicKey) (keys : List (Text × PublicKey))
      → k.kty ≡ rsa
      → k.use_for ≡ sig
      → parse_rsa_public_key decode k.n k.e ≡ parsed
      → Any (IsPair kid key) (with_key k.kid parsed keys)
      → IsSigning k ⊎ Any (IsPair kid key) keys
  with_key-Any k none keys kty used parse h = inr h
  with_key-Any k (some v) keys kty used parse (inl (same, at_key)) =
      inl (same, kty, used, parse ∙ ap some at_key)
  with_key-Any k (some v) keys kty used parse (inr h) = inr h

  -- The pairs that refresh stores come from the response.
  signing_keys-Any :
      (ks : List JwksKey) (keys : List (Text × PublicKey))
      → Any (IsPair kid key) (signing_keys decode ks keys)
      → Any IsSigning ks ⊎ Any (IsPair kid key) keys
  unfolding signing_keys
  signing_keys-Any [] keys h = inr h
  signing_keys-Any (k ∷ ks) keys h =
      elim (Bool-cases (not (same_text k.kty rsa) || not (same_text k.use_for sig))) [
        | inl skip ↦ elim (signing_keys-Any ks keys (rw (skip, signing_keys) at h)) [
          | inl later ↦ inl (inr later)
          | inr before ↦ inr before
        ]
        | inr used ↦
            elim (signing_keys-Any ks (with_key k.kid (parse_rsa_public_key decode k.n k.e) keys)
              (rw (used, signing_keys) at h)) [
                | inl later ↦ inl (inr later)
                | inr before ↦
                    elim (with_key-Any k (parse_rsa_public_key decode k.n k.e) keys
                      (same_text-path k.kty rsa (ground arith))
                      (same_text-path k.use_for sig (ground arith)) refl before) [
                        | inl now ↦ inl (inl now)
                        | inr early ↦ inr early
                      ]
              ]
      ]

module _ (decode : Text → Option (List ℕ)) (now : ℕ) (response : Option (List JwksKey))
    (c : JwksCache) where
  abbrev InResponse : Text → PublicKey → Option (List JwksKey) → Type 0
  InResponse kid key none = ⊥
  InResponse kid key (some ks) = Any (IsSigning decode kid key) ks

  -- The key stands under the kid in the cache, which is less than 15 minutes old, or it is an RSA key
  -- for signatures with the kid in the response.
  abbrev pub IsOfRealm : Text → PublicKey → Type 0
  IsOfRealm kid key =
      ((now - c.fetched_at < 900) × Any (IsPair kid key) c.keys) ⊎ InResponse kid key response

  in_cache :
      (kid : Text) (key : PublicKey)
      → is_fresh now c ≡ true
      → find_kid kid c.keys ≡ some key
      → IsOfRealm kid key
  in_cache kid key fresh h = inl (ground arith, find_kid-Any kid key c.keys h)

  stored :
      (kid : Text) (key : PublicKey) (ks : List JwksKey) (keys : List (Text × PublicKey))
      → (Any (IsPair kid key) keys → Any (IsSigning decode kid key) ks)
      → (after_refresh kid (store_keys now keys c)).0 ≡ some key
      → Any (IsSigning decode kid key) ks
  stored kid key ks [] from h = absurd (none-ne-some _ h)
  stored kid key ks (q ∷ keys) from h = from (find_kid-Any kid key (q ∷ keys) h)

  responded :
      (kid : Text) (key : PublicKey) (o : Option (List JwksKey))
      → (after_refresh kid (with_response decode now o c)).0 ≡ some key
      → InResponse kid key o
  responded kid key none h = absurd (none-ne-some _ h)
  responded kid key (some ks) h =
      stored kid key ks (signing_keys decode ks [])
        (λ a. elim (signing_keys-Any decode kid key ks [] a) [
          | inl in_ks ↦ in_ks
          | inr nowhere ↦ absurd nowhere
        ])
        h

  refreshed :
      (kid : Text) (key : PublicKey)
      → (after_refresh kid (refresh decode now response c)).0 ≡ some key
      → IsOfRealm kid key
  unfolding refresh
  refreshed kid key h = elim (Bool-cases (not (length c.keys == 0) && is_fresh now c)) [
    | inl e ↦ in_cache kid key (ground arith) (rw (e, refresh) at h)
    | inr e ↦ inr (responded kid key response (rw (e, refresh) at h))
  ]

  looked_up :
      (kid : Text) (key : PublicKey) (fresh : Bool) (o : Option PublicKey)
      → is_fresh now c ≡ fresh
      → find_kid kid c.keys ≡ o
      → (or_refresh kid (if_fresh fresh o) c (refresh decode now response c)).0 ≡ some key
      → IsOfRealm kid key
  looked_up kid key fresh none at_time there h = refreshed kid key h
  looked_up kid key true (some v) at_time there h = in_cache kid key at_time (there ∙ h)
  looked_up kid key false (some v) at_time there h = refreshed kid key h

  pub get_key-IsOfRealm :
      (kid : Text) (key : PublicKey)
      → (get_key decode now response kid c).0 ≡ some key
      → IsOfRealm kid key
  unfolding get_key
  get_key-IsOfRealm kid key h = looked_up kid key (is_fresh now c) (find_kid kid c.keys) refl refl h
