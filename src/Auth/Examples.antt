-- ===== src/Auth/Examples.antt =====
-- A signed request and a new kid, for internal/middleware/auth.go. A token is its kid and its issuer.
use stat_tree_server.Base.{ℕ, ◌≡◌, refl, true, List, [], ◌∷◌, ◌++◌, Option, none, some}
use stat_tree_server.Base.Texts.{Text}
use stat_tree_server.Auth.{
  AuthConfig, Jwt, one_audience, bearer, validate_auth_header, validate_token_string, check_claims,
  audience_contains,
}
use stat_tree_server.Auth.Jwks.{PublicKey, JwksCache, get_key}
use stat_tree_server.Auth.Tokens.{IsTrusted, validate_auth_header-IsTrusted}

abbrev pub config : AuthConfig
config = record { enabled = true; jwks_url = []; issuer = 73 ∷ []; audience = 65 ∷ [] }

abbrev pub key : PublicKey
key = record { modulus = 3233; exponent = 17 }

abbrev pub cache : JwksCache
cache = record { keys = (49 ∷ [], key) ∷ []; fetched_at = 100 }

abbrev pub no_bytes : Text → Option (List ℕ)
no_bytes s = none

unfoldable pub first_of : Text → Option Text
first_of [] = none
first_of (c ∷ cs) = some (c ∷ [])

unfoldable pub rest_of : Text → Text
rest_of [] = []
rest_of (c ∷ cs) = cs

abbrev pub jwt : Jwt
jwt = record {
  kid_of = first_of;
  verify = λ token k. some (record { iss = some (rest_of token); aud = one_audience (65 ∷ []) });
}

validate_auth_header-IsTrusted_example :
    (token : Text) × (bearer ++ 49 ∷ 73 ∷ [] ≡ bearer ++ token)
    × IsTrusted no_bytes jwt config 200 none cache token
unfolding validate_auth_header validate_token_string get_key check_claims audience_contains first_of
    rest_of
validate_auth_header-IsTrusted_example =
    validate_auth_header-IsTrusted no_bytes jwt config 200 none cache (bearer ++ 49 ∷ 73 ∷ []) refl
