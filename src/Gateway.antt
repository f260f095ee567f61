-- ===== src/Gateway.antt =====
-- internal/server/gateway.go and the interceptor of internal/server/grpc.go: how a request reaches the
-- service. The router of net/http, the mux of grpc-gateway, the metadata that it sends to the gRPC
-- server, and what the key endpoint answers to either of the two are parameters. A nil middleware is `none`.
pub mod Guarded
pub mod Examples
use stat_tree_server.Base.{
  ℕ, Bool, true, false, ◌||◌, List, [], ◌∷◌, Option, none, some, if◌then◌else◌,
}
use stat_tree_server.Base.Texts.{Text, same_text}
use stat_tree_server.Auth.{AuthConfig, AuthError, Jwt, http_auth, grpc_auth}
use stat_tree_server.Auth.Jwks.{JwksKey, JwksCache}

pub record Request : Type 0 where
  pub method : Text
  pub path : Text
  pub authorization : Text

-- What the libraries decide: whether the pattern "/health" matches, whether the mux serves a request
-- by a call of the service, and the values of "authorization" that it sends along, if there is
-- metadata.
pub record Routes : Type 0 where
  pub is_health : Text → Bool
  pub is_call : Request → Bool
  pub metadata : Request → Option (List Text)

-- What becomes of a request: the answer of /health, the one to a preflight, a refusal by the
-- gateway or by the gRPC server, another page of the mux, or a call of the service.
pub data Served : Type 0 where
  healthy preflight other_page called : Served
  unauthorized unauthenticated : AuthError → Served

-- "OPTIONS"
abbrev pub options : Text
options = b'O' ∷ b'P' ∷ b'T' ∷ b'I' ∷ b'O' ∷ b'N' ∷ b'S' ∷ []

-- The header names that WithIncomingHeaderMatcher lets through.
abbrev allowed_headers : List Text
allowed_headers =
    (b'a' ∷ b'u' ∷ b't' ∷ b'h' ∷ b'o' ∷ b'r' ∷ b'i' ∷ b'z' ∷ b'a' ∷ b't' ∷ b'i' ∷ b'o' ∷ b'n' ∷ [])
    ∷ (b'c' ∷ b'o' ∷ b'n' ∷ b't' ∷ b'e' ∷ b'n' ∷ b't' ∷ b'-' ∷ b't' ∷ b'y' ∷ b'p' ∷ b'e' ∷ [])
    ∷ (b'a' ∷ b'c' ∷ b'c' ∷ b'e' ∷ b'p' ∷ b't' ∷ [])
    ∷ (b'x' ∷ b'-' ∷ b'c' ∷ b's' ∷ b'r' ∷ b'f' ∷ b'-' ∷ b't' ∷ b'o' ∷ b'k' ∷ b'e' ∷ b'n' ∷ [])
    ∷ (b'x' ∷ b'-' ∷ b'r' ∷ b'e' ∷ b'q' ∷ b'u' ∷ b'e' ∷ b's' ∷ b't' ∷ b'-' ∷ b'i' ∷ b'd' ∷ [])
    ∷ []

unfoldable pub listed : Text → List Text → Bool
listed key [] = false
listed key (name ∷ names) = same_text key name || listed key names

unfoldable pub incoming_header : Text → Text × Bool
unfolding listed
incoming_header key = (key, listed key allowed_headers)

module _ (decode : Text → Option (List ℕ)) (jwt : Jwt) (now : ℕ)
    (response server_response : Option (List JwksKey)) (routes : Routes)
    (auth : Option AuthConfig) where
  -- NewGRPCServer: the interceptor, if there is a middleware, and then the service
  abbrev pub intercepted : Option AuthError × JwksCache → Served × JwksCache
  intercepted (some e, c) = (unauthenticated e, c)
  intercepted (none, c) = (called, c)

  unfoldable pub grpc_call : Option AuthConfig → Option (List Text) → JwksCache → Served × JwksCache
  unfolding grpc_auth
  grpc_call none values c = (called, c)
  grpc_call (some cfg) values c =
      intercepted (grpc_auth decode jwt cfg now server_response values c)

  -- the mux of the gateway
  unfoldable pub forward : Request → JwksCache → Served × JwksCache
  unfolding grpc_call
  forward req c =
      if routes.is_call req then grpc_call auth (routes.metadata req) c else (other_page, c)

  abbrev pub passed : Request → Option AuthError × JwksCache → Served × JwksCache
  passed req (some e, c) = (unauthorized e, c)
  passed req (none, c) = forward req c

  -- `authMW.JWT(protected)`, if there is a middleware
  unfoldable pub protected : Option AuthConfig → Request → JwksCache → Served × JwksCache
  unfolding forward http_auth
  protected none req c = forward req c
  protected (some cfg) req c =
      passed req (http_auth decode jwt cfg now response req.authorization c)

  -- corsMiddleware, without the headers that it sets
  unfoldable pub cors : Request → JwksCache → Served × JwksCache
  unfolding protected
  cors req c = if same_text req.method options then (preflight, c) else protected auth req c

  -- the handler of the server
  unfoldable pub serve : Request → JwksCache → Served × JwksCache
  unfolding cors
  serve req c = if routes.is_health req.path then (healthy, c) else cors req c
