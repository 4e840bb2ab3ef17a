-- ===== src/Http/Server.antt =====
-- The chain of handlers that the server starts with (handler and authMiddleware in
-- internal/httpapi/server.go).
use statehouse.Prelude.{
  Float64, Bool, true, ◌≡◌, ap, List, Str, Option, some, none, ok, err, if◌then◌else◌, str, str_eq,
}
use statehouse.Model.Identity.{is_empty}
use statehouse.Strings.{Unicode}
use statehouse.Config.{Config, ServiceTokenConfig, is_enabled, validate}
use statehouse.Config.Validation.{validate-IsServable}
use statehouse.Origin.{Net, OriginError, Policy, Checked, enabled, compile}
use statehouse.Http.{Request, Headers, Handler}
use statehouse.Http.Auth.{AuthMetrics, Authenticator, ServiceTokenPolicy, require_auth}
use statehouse.Http.Cors.{with_cors}
use statehouse.Http.Cors.Responses.{preflight_answered}

unfoldable pub service_token_policy_from_config : ServiceTokenConfig → ServiceTokenPolicy
unfolding is_enabled
service_token_policy_from_config c = record {
  enabled = is_enabled c;
  required_audience = c.required_audience;
  required_scope = c.required_scope;
  allowed_clients = c.allowed_clients;
}

-- Without an identity service there is no authentication.
unfoldable pub auth_middleware : Str → Authenticator → Handler AuthMetrics → Handler AuthMetrics
unfolding require_auth
auth_middleware identity_url a next = if is_empty identity_url then next else require_auth a next

-- The chain over the mux, unless the allowlist does not compile.
abbrev chain :
    {S : Type 0} → Net → Unicode → Policy × Option OriginError → Handler S → Checked (Handler S)
chain net u (_, some e) mux = err e
chain net u (policy, none) mux = ok (with_cors net u policy mux)

unfoldable pub handler : {S : Type 0} → Net → Unicode → List Str → Handler S → Checked (Handler S)
unfolding compile with_cors
handler net u allowed_origins mux = chain net u (compile net u allowed_origins) mux

module _ ⦃fl : Float64⦄ (net : Net) (u : Unicode) (valid_name : Str → Bool) where
  -- With a configuration that passes validation the server's chain of handlers is built, whatever
  -- the handlers of its routes are. Where its policy admits any origin at all, a preflight is then
  -- answered with 204 without a token being looked at: the counters of the authentication stay as
  -- they are.
  pub validated_handler :
      (c : Config) (mux : Handler AuthMetrics)
      → validate u net valid_name c ≡ ok tt
      → (p : Policy) × (h : Handler AuthMetrics) × (compile net u c.allowed_origins ≡ (p, none))
        × (handler net u c.allowed_origins mux ≡ ok h)
        × ((r : Request) (w : Headers) (m : AuthMetrics)
            → str_eq r.method (str "OPTIONS") ≡ true
            → enabled p ≡ true
            → ((h r w m).1 ≡ m) × ((h r w m).0.status ≡ 204))
  unfolding handler
  validated_handler c mux valid =
      let (p, compiled) = (validate-IsServable u net valid_name c valid).origins_compile in
      let built = ap (λ q. chain net u q mux) compiled in
      (
        p,
        with_cors net u p mux,
        compiled,
        built,
        λ r w m o e.
            let (_, kept, status) = preflight_answered net u p mux mux r w m o e in (kept, status),
      )
