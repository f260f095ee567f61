-- ===== src/Auth/Tokens.antt =====
-- Which requests internal/middleware/auth.go lets through.
use mathlib.Core.Option.{none-ne-some}
use native.Mathlib.Decide.{ℕ_discrete}
use stat_tree_server.Base.{
  ℕ, ◌≡◌, ◌⊎◌, refl, sym, ap, ◌∙◌, Bool, true, false, not, ◌&&◌, List, [], ◌∷◌, ◌++◌, Option, none,
  some, arith, length, ◌==◌, Bool-cases, inl, inr, clash, eq→==, ne→==,
}
use stat_tree_server.Base.Texts.{Text, same_text, same_text-path, same_text_self, trim_prefix}
use stat_tree_server.Auth.{
  AuthConfig, Jwt, Claims, Audience, one_audience, audiences, printed_audiences, no_audience,
  has_text, issuer_of, audience_contains, check_claims, bearer, with_claims, with_public_key,
  with_kid, validate_token_string, validate_auth_header,
}
use stat_tree_server.Auth.Origin.{Any, IsOfRealm, get_key-IsOfRealm}
use stat_tree_server.Auth.Jwks.{PublicKey, JwksKey, JwksCache, get_key}

-- The claim names the audience, alone or in a list.
abbrev pub Names : Audience → Text → Type 0
Names (one_audience v) expected = v ≡ expected
Names (audiences vs) expected = Any (λ v. v ≡ expected) vs
Names (printed_audiences vs) expected = Any (λ v. v ≡ expected) vs
Names no_audience expected = ⊥

has_text-Any :
    (expected : Text) (vs : List Text) → has_text expected vs ≡ true → Any (λ v. v ≡ expected) vs
has_text-Any expected [] h = absurd (clash h refl)
has_text-Any expected (v ∷ vs) h = elim (Bool-cases (same_text v expected)) [
  | inl e ↦ inl (same_text-path v expected e)
  | inr e ↦ inr (has_text-Any expected vs (ground arith))
]

audience_contains-Names :
    (a : Audience) (expected : Text) → audience_contains a expected ≡ true → Names a expected
unfolding audience_contains
audience_contains-Names (one_audience v) expected h = same_text-path v expected h
audience_contains-Names (audiences vs) expected h = has_text-Any expected vs h
audience_contains-Names (printed_audiences vs) expected h = has_text-Any expected vs h
audience_contains-Names no_audience expected h = absurd (clash h refl)

-- The issuer and the audience are as configured, where they are.
abbrev pub Accepts : AuthConfig → Claims → Type 0
Accepts cfg claims =
    ((cfg.issuer ≡ []) ⊎ (issuer_of claims.iss ≡ cfg.issuer))
    × ((cfg.audience ≡ []) ⊎ Names claims.aud cfg.audience)

empty_text : (s : Text) → (length s == 0) ≡ true → s ≡ []
empty_text [] h = refl
empty_text (c ∷ cs) h = absurd (ground arith)

-- A check that is not made, or that holds.
unless_empty : (s : Text) (b : Bool) → not (length s == 0) && not b ≡ false → (s ≡ []) ⊎ (b ≡ true)
unless_empty s b h = elim (Bool-cases (length s == 0)) [
  | inl e ↦ inl (empty_text s e)
  | inr n ↦ inr (ground arith)
]

issuer_accepted : (s t : Text) → (s ≡ []) ⊎ (same_text t s ≡ true) → (s ≡ []) ⊎ (t ≡ s)
issuer_accepted s t (inl e) = inl e
issuer_accepted s t (inr e) = inr (same_text-path t s e)

audience_accepted :
    (a : Audience) (s : Text) → (s ≡ []) ⊎ (audience_contains a s ≡ true) → (s ≡ []) ⊎ Names a s
audience_accepted a s (inl e) = inl e
audience_accepted a s (inr e) = inr (audience_contains-Names a s e)

check_claims-Accepts :
    (cfg : AuthConfig) (claims : Claims) → check_claims cfg claims ≡ none → Accepts cfg claims
unfolding check_claims
check_claims-Accepts cfg claims e =
    let wrong_issuer =
      not (length cfg.issuer == 0) && not (same_text (issuer_of claims.iss) cfg.issuer) in
    let wrong_audience =
      not (length cfg.audience == 0) && not (audience_contains claims.aud cfg.audience) in
    elim (Bool-cases wrong_issuer) [
      | inl i ↦ absurd (none-ne-some _ (sym (rw i at e)))
      | inr i ↦ elim (Bool-cases wrong_audience) [
        | inl a ↦ absurd (none-ne-some _ (sym (rw (i, a) at e)))
        | inr a ↦ (
          issuer_accepted cfg.issuer (issuer_of claims.iss) (unless_empty cfg.issuer _ i),
          audience_accepted claims.aud cfg.audience (unless_empty cfg.audience _ a),
        )
      ]
    ]

trim_prefix-cases :
    (p whole s : Text) → (s ≡ p ++ trim_prefix p whole s) ⊎ (trim_prefix p whole s ≡ whole)
trim_prefix-cases [] whole s = inl refl
trim_prefix-cases (c ∷ cs) whole [] = inr refl
trim_prefix-cases (c ∷ cs) whole (d ∷ ds) = elim (ℕ_discrete c d) [
  | yes e ↦ rw (eq→== c d e) (elim (trim_prefix-cases cs whole ds) [
    | inl split ↦ inl (ap (λ x. x ∷ ds) (sym e) ∙ ap (◌∷◌ c) split)
    | inr kept ↦ inr kept
  ])
  | no n ↦ rw (ne→== c d n) (inr refl)
]

module _ (decode : Text → Option (List ℕ)) (jwt : Jwt) (cfg : AuthConfig) (now : ℕ)
    (response : Option (List JwksKey)) (c : JwksCache) where
  -- The token is valid under a key of the realm for its kid, and has the issuer and the audience of the service.
  abbrev pub IsTrusted : Text → Type 0
  IsTrusted token =
      (kid : Text) × (key : PublicKey) × (claims : Claims) × (jwt.kid_of token ≡ some kid)
      × IsOfRealm decode now response c kid key
      × (jwt.verify token key ≡ some claims)
      × Accepts cfg claims

  claims_accepted :
      (o : Option Claims)
      → with_claims cfg o ≡ none
      → (claims : Claims) × (o ≡ some claims) × Accepts cfg claims
  claims_accepted none e = absurd (none-ne-some _ (sym e))
  claims_accepted (some claims) e = (claims, refl, check_claims-Accepts cfg claims e)

  key_accepted :
      (token : Text) (r : Option PublicKey × JwksCache)
      → (with_public_key jwt cfg token r).0 ≡ none
      → (key : PublicKey) × (claims : Claims) × (r.0 ≡ some key)
        × (jwt.verify token key ≡ some claims)
        × Accepts cfg claims
  key_accepted token (none, c') e = absurd (none-ne-some _ (sym e))
  key_accepted token (some key, c') e =
      let (claims, valid, ok) = claims_accepted (jwt.verify token key) e in
      (key, claims, refl, valid, ok)

  kid_accepted :
      (token : Text) (o : Option Text)
      → jwt.kid_of token ≡ o
      → (with_kid decode jwt cfg now response token c o).0 ≡ none
      → IsTrusted token
  kid_accepted token none k e = absurd (none-ne-some _ (sym e))
  kid_accepted token (some kid) k e =
      let (key, claims, known, valid, ok) =
        key_accepted token (get_key decode now response kid c) e in
      (kid, key, claims, k, get_key-IsOfRealm decode now response c kid key known, valid, ok)

  -- A header that is let through is "Bearer " and a token that is valid under a key for its kid,
  -- which stands in the cache, less than 15 minutes old, or is an RSA key for signatures of the
  -- response; and its issuer is that of the configuration, and its audience is or has that of the
  -- configuration, where they are set there.
  pub validate_auth_header-IsTrusted :
      (header : Text)
      → (validate_auth_header decode jwt cfg now response header c).0 ≡ none
      → (token : Text) × (header ≡ bearer ++ token) × IsTrusted token
  unfolding validate_auth_header validate_token_string
  validate_auth_header-IsTrusted header e = elim (Bool-cases (length header == 0)) [
    | inl empty ↦ absurd (none-ne-some _ (sym (rw empty at e)))
    | inr some_text ↦ elim (Bool-cases (same_text (trim_prefix bearer header header) header)) [
      | inl same ↦ absurd (none-ne-some _ (sym (rw (some_text, same) at e)))
      | inr differs ↦
          let token = trim_prefix bearer header header in
          (
            token,
            split differs (trim_prefix-cases bearer header header),
            kid_accepted token (jwt.kid_of token) refl (rw (some_text, differs) at e),
          )
    ]
  ]
    where
      split :
          same_text (trim_prefix bearer header header) header ≡ false
          → (header ≡ bearer ++ trim_prefix bearer header header)
            ⊎ (trim_prefix bearer header header ≡ header)
          → header ≡ bearer ++ trim_prefix bearer header header
      split differs (inl eq) = eq
      split differs (inr kept) =
          absurd (clash (ap (λ s. same_text s header) kept ∙ same_text_self header) differs)
