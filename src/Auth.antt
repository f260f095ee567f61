-- ===== src/Auth.antt =====
-- internal/middleware/auth.go: the validation of bearer tokens, over a cache of the realm's keys. A text
-- is the list of its code points, a byte a number. The JWT library, the decoding of base64 and the
-- response of the key endpoint are parameters; the clock stands still within a call.
pub mod Jwks
pub mod Origin
pub mod Tokens
pub mod Examples
use stat_tree_server.Base.{
  ℕ, ◌+◌, ◌-◌, ◌*◌, ◌%◌, Bool, true, false, not, ◌&&◌, ◌||◌, List, [], ◌∷◌, ◌++◌, Option, none,
  some, length, ltb, ◌==◌, if◌then◌else◌,
}
use stat_tree_server.Base.Options.{◌>>=◌}
use stat_tree_server.Base.Texts.{Text, same_text, trim_prefix}
use stat_tree_server.Auth.Jwks.{JwksKey, PublicKey, JwksCache, get_key}

pub record AuthConfig : Type 0 where
  pub enabled : Bool
  pub jwks_url : Text
  pub issuer : Text
  pub audience : Text

-- The claim "aud": a text, a list of texts, a list of other values as Sprintf prints them, or none.
pub data Audience : Type 0 where
  one_audience : Text → Audience
  audiences printed_audiences : List Text → Audience
  no_audience : Audience

pub record Claims : Type 0 where
  pub iss : Option Text
  pub aud : Audience

-- The JWT library: the kid of a token that is signed by RS256 ("" if it has none), and the claims of a
-- token that is valid under a key.
pub record Jwt : Type 0 where
  pub kid_of : Text → Option Text
  pub verify : Text → PublicKey → Option Claims

abbrev pub has_text : Text → List Text → Bool
has_text expected [] = false
has_text expected (a ∷ rest) = same_text a expected || has_text expected rest

unfoldable pub audience_contains : Audience → Text → Bool
audience_contains (one_audience v) expected = same_text v expected
audience_contains (audiences v) expected = has_text expected v
audience_contains (printed_audiences v) expected = has_text expected v
audience_contains no_audience expected = false

pub data AuthError : Type 0 where
  header_required invalid_format invalid_token invalid_issuer invalid_audience metadata_required :
      AuthError

-- `iss, _ := claims["iss"].(string)`
abbrev pub issuer_of : Option Text → Text
issuer_of none = []
issuer_of (some s) = s

unfoldable pub check_claims : AuthConfig → Claims → Option AuthError
unfolding audience_contains
check_claims cfg claims =
    if not (length cfg.issuer == 0) && not (same_text (issuer_of claims.iss) cfg.issuer)
    then some invalid_issuer
    else if not (length cfg.audience == 0) && not (audience_contains claims.aud cfg.audience)
    then some invalid_audience
    else none

-- "Bearer "
abbrev pub bearer : Text
bearer = 66 ∷ 101 ∷ 97 ∷ 114 ∷ 101 ∷ 114 ∷ 32 ∷ []

abbrev pub with_claims : AuthConfig → Option Claims → Option AuthError
with_claims cfg none = some invalid_token
with_claims cfg (some claims) = check_claims cfg claims

abbrev pub with_public_key :
    Jwt → AuthConfig → Text → Option PublicKey × JwksCache → Option AuthError × JwksCache
with_public_key jwt cfg token (none, c) = (some invalid_token, c)
with_public_key jwt cfg token (some key, c) = (with_claims cfg (jwt.verify token key), c)

module _ (decode : Text → Option (List ℕ)) (jwt : Jwt) (cfg : AuthConfig) (now : ℕ)
    (response : Option (List JwksKey)) where
  -- ParseWithClaims asks for the key if the token is well formed and its method is RS256.
  abbrev pub with_kid : Text → JwksCache → Option Text → Option AuthError × JwksCache
  with_kid token c none = (some invalid_token, c)
  with_kid token c (some kid) = with_public_key jwt cfg token (get_key decode now response kid c)

  unfoldable pub validate_token_string : Text → JwksCache → Option AuthError × JwksCache
  unfolding get_key check_claims
  validate_token_string token c = with_kid token c (jwt.kid_of token)

  unfoldable pub validate_auth_header : Text → JwksCache → Option AuthError × JwksCache
  unfolding validate_token_string
  validate_auth_header header c =
      if length header == 0
      then (some header_required, c)
      else (let token = trim_prefix bearer header header in
          if same_text token header
          then (some invalid_format, c)
          else validate_token_string token c)

  -- JWT: the error of a refused request, or `none` if the next handler serves it
  unfoldable pub http_auth : Text → JwksCache → Option AuthError × JwksCache
  unfolding validate_auth_header
  http_auth header c = if cfg.enabled then validate_auth_header header c else (none, c)

  abbrev pub with_values : JwksCache → Option (List Text) → Option AuthError × JwksCache
  with_values c none = (some metadata_required, c)
  with_values c (some []) = (some header_required, c)
  with_values c (some (value ∷ values)) = validate_auth_header value c

  -- GRPCUnaryInterceptor, on the values of the "authorization" metadata, if there is metadata
  unfoldable pub grpc_auth : Option (List Text) → JwksCache → Option AuthError × JwksCache
  unfolding validate_auth_header
  grpc_auth values c = if cfg.enabled then with_values c values else (none, c)
