-- ===== src/Auth/Jwks.antt =====
-- The cache of the realm's keys in internal/middleware/auth.go. The decoding of base64 and the response
-- of the key endpoint are parameters; the clock stands still within a call.
use stat_tree_server.Base.{
  ℕ, ◌+◌, ◌-◌, ◌*◌, ◌%◌, Bool, true, false, not, ◌&&◌, ◌||◌, List, [], ◌∷◌, Option, none, some,
  length, ltb, ◌==◌, if◌then◌else◌,
}
use stat_tree_server.Base.Options.{◌>>=◌}
use stat_tree_server.Base.Texts.{Text, same_text}

pub record JwksKey : Type 0 where
  pub kty : Text
  pub kid : Text
  pub use_for : Text
  pub n : Text
  pub e : Text

pub record PublicKey : Type 0 where
  pub modulus : ℕ
  pub exponent : ℕ

pub record JwksCache : Type 0 where
  pub keys : List (Text × PublicKey)
  pub fetched_at : ℕ

-- 15 minutes, in seconds
abbrev pub ttl : ℕ
ttl = 900

abbrev pub new_jwks_cache : JwksCache
new_jwks_cache = record { keys = []; fetched_at = 0 }

-- `time.Since(c.fetchedAt) < c.ttl`
abbrev pub is_fresh : ℕ → JwksCache → Bool
is_fresh now c = ltb (now - c.fetched_at) ttl

-- `c.keys[kid]`
abbrev pub find_kid : Text → List (Text × PublicKey) → Option PublicKey
find_kid kid [] = none
find_kid kid ((k, key) ∷ keys) = if same_text k kid then some key else find_kid kid keys

-- SetBytes of big.Int
unfoldable pub big_value : ℕ → List ℕ → ℕ
big_value v [] = v
big_value v (b ∷ bs) = big_value (v * 256 + b) bs

-- the loop over the bytes of the exponent, an int of 64 bits
unfoldable pub exponent_value : ℕ → List ℕ → ℕ
exponent_value v [] = v
exponent_value v (b ∷ bs) = exponent_value ((v * 256 + b) % 18446744073709551616) bs

-- "RSA" and "sig"
abbrev pub rsa : Text
rsa = 82 ∷ 83 ∷ 65 ∷ []

abbrev pub sig : Text
sig = 115 ∷ 105 ∷ 103 ∷ []

-- strings.TrimRight(s, "=")
abbrev pub trim_padding : Text → Text
trim_padding [] = []
trim_padding (c ∷ cs) =
    let rest = trim_padding cs in if (c == 61) && (length rest == 0) then [] else c ∷ rest

abbrev pub key_of : List ℕ → List ℕ → Option PublicKey
key_of n e =
    if exponent_value 0 e == 0
    then none
    else some (record { modulus = big_value 0 n; exponent = exponent_value 0 e })

abbrev pub with_key : Text → Option PublicKey → List (Text × PublicKey) → List (Text × PublicKey)
with_key kid none keys = keys
with_key kid (some key) keys = (kid, key) ∷ keys

-- what refresh does with the keys of the response, `none` if there are none to be read
abbrev pub store_keys : ℕ → List (Text × PublicKey) → JwksCache → Bool × JwksCache
store_keys now [] c = (false, c)
store_keys now (k ∷ keys) c = (true, record { keys = k ∷ keys; fetched_at = now })

abbrev pub after_refresh : Text → Bool × JwksCache → Option PublicKey × JwksCache
after_refresh kid (false, c) = (none, c)
after_refresh kid (true, c) = (find_kid kid c.keys, c)

abbrev pub if_fresh : Bool → Option PublicKey → Option PublicKey
if_fresh fresh none = none
if_fresh fresh (some key) = if fresh then some key else none

abbrev pub or_refresh :
    Text → Option PublicKey → JwksCache → Bool × JwksCache → Option PublicKey × JwksCache
or_refresh kid (some key) c refreshed = (some key, c)
or_refresh kid none c refreshed = after_refresh kid refreshed

module _ (decode : Text → Option (List ℕ)) where
  unfoldable pub base64_url_decode : Text → Option (List ℕ)
  base64_url_decode s = decode (trim_padding s)

  unfoldable pub parse_rsa_public_key : Text → Text → Option PublicKey
  unfolding base64_url_decode exponent_value big_value
  parse_rsa_public_key n e =
      base64_url_decode n >>= λ n'. base64_url_decode e >>= λ e'. key_of n' e'

  -- the loop of refresh, the keys in reverse order, so that the last of a kid is found
  unfoldable pub signing_keys : List JwksKey → List (Text × PublicKey) → List (Text × PublicKey)
  unfolding parse_rsa_public_key
  signing_keys [] keys = keys
  signing_keys (k ∷ ks) keys =
      let parsed = parse_rsa_public_key k.n k.e in
      signing_keys ks (
        if not (same_text k.kty rsa) || not (same_text k.use_for sig)
        then keys
        else with_key k.kid parsed keys)

  abbrev pub with_response : ℕ → Option (List JwksKey) → JwksCache → Bool × JwksCache
  with_response now none c = (false, c)
  with_response now (some ks) c = store_keys now (signing_keys ks []) c

  -- refresh: whether it ends without an error, and the cache
  unfoldable pub refresh : ℕ → Option (List JwksKey) → JwksCache → Bool × JwksCache
  unfolding signing_keys
  refresh now response c =
      if not (length c.keys == 0) && is_fresh now c then (true, c) else with_response now response c

  -- (*jwksCache).get
  unfoldable pub get_key :
      ℕ → Option (List JwksKey) → Text → JwksCache → Option PublicKey × JwksCache
  unfolding refresh
  get_key now response kid c =
      or_refresh kid (if_fresh (is_fresh now c) (find_kid kid c.keys)) c (refresh now response c)
