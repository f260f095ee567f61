-- ===== src/Gateway/Guarded.antt =====
-- Which requests to internal/server/gateway.go reach the service behind internal/server/grpc.go.
use mathlib.Core.Option.{none-ne-some}
use stat_tree_server.Base.{
  ℕ, ◌≡◌, refl, sym, ap, Bool, true, false, List, [], ◌∷◌, ◌++◌, Option, none, some, inl, inr,
  Bool-cases, clash, if◌then◌else◌,
}
use stat_tree_server.Base.Texts.{Text, same_text}
use stat_tree_server.Auth.{
  AuthConfig, AuthError, Jwt, bearer, http_auth, grpc_auth, with_values, validate_auth_header,
}
use stat_tree_server.Auth.Jwks.{JwksKey, JwksCache}
use stat_tree_server.Auth.Tokens.{IsTrusted, validate_auth_header-IsTrusted}
use stat_tree_server.Gateway.{
  Request, Routes, Served, healthy, preflight, other_page, called, unauthorized, unauthenticated,
  options, intercepted, grpc_call, forward, passed, protected, cors, serve,
}

-- The call of the service as a test.
abbrev is_called : Served → Bool
is_called called = true
is_called healthy = false
is_called preflight = false
is_called other_page = false
is_called (unauthorized e) = false
is_called (unauthenticated e) = false

module _ (decode : Text → Option (List ℕ)) (jwt : Jwt) (now : ℕ)
    (response server_response : Option (List JwksKey)) (routes : Routes) (cfg : AuthConfig)
    (on : cfg.enabled ≡ true) where
  -- The header is "Bearer " and a token that is trusted with the cache and the answer of the endpoint.
  abbrev pub HasToken : Option (List JwksKey) → JwksCache → Text → Type 0
  HasToken answer c header =
      (token : Text) × (header ≡ bearer ++ token) × IsTrusted decode jwt cfg now answer c token

  not_called : (s : Served) → s ≡ called → is_called s ≡ false → ⊥
  not_called s h e = clash (ap is_called h) e

  intercepted-called :
      (auth : Option AuthConfig) (r : Option AuthError × JwksCache)
      → (intercepted decode jwt now response server_response routes auth r).0 ≡ called
      → r.0 ≡ none
  intercepted-called auth (none, c) h = refl
  intercepted-called auth (some e, c) h = absurd (not_called (unauthenticated e) h refl)

  values-HasToken :
      (values : Option (List Text)) (c : JwksCache)
      → (with_values decode jwt cfg now server_response c values).0 ≡ none
      → (header : Text) × (rest : List Text) × (values ≡ some (header ∷ rest))
        × HasToken server_response c header
  values-HasToken none c h = absurd (none-ne-some _ (sym h))
  values-HasToken (some []) c h = absurd (none-ne-some _ (sym h))
  values-HasToken (some (header ∷ rest)) c h = (
    header,
    rest,
    refl,
    validate_auth_header-IsTrusted decode jwt cfg now server_response c header h,
  )

  -- The metadata has a token that the gRPC server trusts.
  abbrev pub HasMetadata : Request → JwksCache → Type 0
  HasMetadata req c =
      (header : Text) × (rest : List Text) × (routes.metadata req ≡ some (header ∷ rest))
      × HasToken server_response c header

  forward-HasMetadata :
      (req : Request) (c : JwksCache)
      → (forward decode jwt now response server_response routes (some cfg) req c).0 ≡ called
      → HasMetadata req c
  unfolding forward grpc_call grpc_auth
  forward-HasMetadata req c h = elim (Bool-cases (routes.is_call req)) [
    | inr page ↦ absurd (not_called other_page (rw page at h) refl)
    | inl call ↦
        values-HasToken (routes.metadata req) c
          (intercepted-called (some cfg) _ (rw (call, on) at h))
  ]

  -- What holds of a request that calls the service: it is no preflight and not for /health, its header
  -- is trusted by the gateway, and so is the metadata by the gRPC server, on the cache that the
  -- gateway leaves.
  abbrev pub IsGuarded : Request → JwksCache → Type 0
  IsGuarded req c =
      (routes.is_health req.path ≡ false)
      × (same_text req.method options ≡ false)
      × HasToken response c req.authorization
      × HasMetadata req (validate_auth_header decode jwt cfg now response req.authorization c).1

  passed-IsGuarded :
      (req : Request) (c : JwksCache) (r : Option AuthError × JwksCache)
      → (passed decode jwt now response server_response routes (some cfg) req r).0 ≡ called
      → (r.0 ≡ none) × HasMetadata req r.1
  passed-IsGuarded req c (some e, c') h = absurd (not_called (unauthorized e) h refl)
  passed-IsGuarded req c (none, c') h = (refl, forward-HasMetadata req c' h)

  http_auth-enabled :
      (header : Text) (c : JwksCache)
      → http_auth decode jwt cfg now response header c
        ≡ validate_auth_header decode jwt cfg now response header c
  unfolding http_auth
  http_auth-enabled header c =
      ap (λ b. if b then validate_auth_header decode jwt cfg now response header c else (none, c))
        on

  protected-IsGuarded :
      (req : Request) (c : JwksCache)
      → (protected decode jwt now response server_response routes (some cfg) (some cfg) req c).0
        ≡ called
      → HasToken response c req.authorization
        × HasMetadata req (validate_auth_header decode jwt cfg now response req.authorization c).1
  unfolding protected
  protected-IsGuarded req c h =
      let (accepted, rest) =
        passed-IsGuarded req c
          (validate_auth_header decode jwt cfg now response req.authorization c)
          (rw (http_auth-enabled req.authorization c) at h) in
      (
        validate_auth_header-IsTrusted decode jwt cfg now response c req.authorization accepted,
        rest,
      )

  -- With validation enabled, a REST request that calls the service is not for /health and no preflight,
  -- and carries a token that the gateway trusts; and the metadata that is sent along carries a token
  -- that the gRPC server trusts.
  pub serve-IsGuarded :
      (req : Request) (c : JwksCache)
      → (serve decode jwt now response server_response routes (some cfg) req c).0 ≡ called
      → IsGuarded req c
  unfolding serve cors
  serve-IsGuarded req c h = elim (Bool-cases (routes.is_health req.path)) [
    | inl health ↦ absurd (not_called healthy (rw health at h) refl)
    | inr other ↦ elim (Bool-cases (same_text req.method options)) [
      | inl asks ↦ absurd (not_called preflight (rw (other, asks) at h) refl)
      | inr sends ↦
          let (header, metadata) = protected-IsGuarded req c (rw (other, sends) at h) in
          (other, sends, header, metadata)
    ]
  ]
