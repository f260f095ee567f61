-- ===== src/Gateway/Examples.antt =====
-- A signed request to internal/server/gateway.go.
use stat_tree_server.Base.{◌≡◌, refl, true, false, [], ◌∷◌, ◌++◌, none, some}
use stat_tree_server.Auth.{
  bearer, validate_auth_header, validate_token_string, check_claims, audience_contains, http_auth,
  grpc_auth,
}
use stat_tree_server.Auth.Jwks.{get_key}
use stat_tree_server.Auth.Examples.{config, cache, no_bytes, jwt, first_of, rest_of}
use stat_tree_server.Gateway.{
  Request, Routes, serve, options, preflight, incoming_header, cors, protected, forward, grpc_call,
}
use stat_tree_server.Gateway.Guarded.{IsGuarded, serve-IsGuarded}

-- The gateway sends the header along.
abbrev routes : Routes
routes = record {
  is_health = λ path. false;
  is_call = λ req. true;
  metadata = λ req. some (req.authorization ∷ []);
}

abbrev signed : Request
signed = record { method = b'P' ∷ []; path = b'/' ∷ []; authorization = bearer ++ 49 ∷ 73 ∷ [] }

serve-IsGuarded_example : IsGuarded no_bytes jwt 200 none none routes config refl signed cache
unfolding serve cors protected forward grpc_call http_auth grpc_auth validate_auth_header
    validate_token_string get_key check_claims audience_contains first_of rest_of
serve-IsGuarded_example =
    serve-IsGuarded no_bytes jwt 200 none none routes config refl signed cache refl

preflight_open :
    serve no_bytes jwt 200 none none routes (some config) (record signed { method = options }) cache
    ≡ (preflight, cache)
unfolding serve cors
preflight_open = refl

-- "Accept" is not let through, as the names are compared with their letter case.
accept_header : (incoming_header (b'A' ∷ b'c' ∷ b'c' ∷ b'e' ∷ b'p' ∷ b't' ∷ [])).1 ≡ false
unfolding incoming_header
accept_header = refl
