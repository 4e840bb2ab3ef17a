-- ===== src/Http/Auth/Admission.antt =====
-- Which requests the middleware passes on (requireAuth, serveUser and serveService in
-- internal/httpapi/auth.go).
use statehouse.Prelude.{
  ℕ, Bool, true, false, ◌≡◌, refl, arith, ◌⊎◌, inl, inr, Option, some, none, [], Str, str, Result,
  ok, err, Bool-cases,
}
use statehouse.Model.Identity.{is_empty}
use statehouse.Http.{Request, Headers, Reply, Handler}
use statehouse.Http.Auth.{
  ParseError, UserClaims, ServiceTokenClaims, AuthMetrics, Authenticator, add_one, audience_ok,
  client_allowed, bearer_token, is_service_token, challenge, unavailable, reject_parse_error,
  reject_invalid, serve_user, serve_claims, serve_service, serve_parsed, serve_token, require_auth,
  invalid_token, insufficient_scope, parse_error_text,
}

-- The counters, by name.
pub data Counter : Type 0 where
  user_accepted service_accepted rejected_missing rejected_invalid rejected_inactive : Counter
  rejected_service_disabled rejected_audience rejected_client rejected_scope : Counter
  keys_unavailable : Counter

-- One counter goes up by one, and the others stay.
abbrev pub raise : Counter → AuthMetrics → AuthMetrics
raise user_accepted m = record m { user_accepted = add_one m.user_accepted }
raise service_accepted m = record m { service_accepted = add_one m.service_accepted }
raise rejected_missing m = record m { rejected_missing = add_one m.rejected_missing }
raise rejected_invalid m = record m { rejected_invalid = add_one m.rejected_invalid }
raise rejected_inactive m = record m { rejected_inactive = add_one m.rejected_inactive }
raise rejected_service_disabled m = record m {
  rejected_service_disabled = add_one m.rejected_service_disabled;
}
raise rejected_audience m = record m { rejected_audience = add_one m.rejected_audience }
raise rejected_client m = record m { rejected_client = add_one m.rejected_client }
raise rejected_scope m = record m { rejected_scope = add_one m.rejected_scope }
raise keys_unavailable m = record m { keys_unavailable = add_one m.keys_unavailable }

abbrev pub refusal_status : Counter → ℕ
refusal_status rejected_client = 403
refusal_status rejected_scope = 403
refusal_status keys_unavailable = 503
refusal_status _ = 401

-- The credentials that may pass, and the counter of each kind: a token that parses as a user's and
-- belongs to an active user, or, where service tokens are enabled, one that parses as a service's
-- and has the audience, the client and the scope that the policy asks for.
pub data Admitted (a : Authenticator) (header : Str) : Counter → Type 0 where
  user :
      (token : Str)
      → bearer_token header ≡ some token
      → is_service_token a.parser token ≡ false
      → (claims : UserClaims) → a.parser.parse token ≡ ok claims
      → claims.is_active ≡ true
      → Admitted a header user_accepted
  service :
      (token : Str)
      → bearer_token header ≡ some token
      → is_service_token a.parser token ≡ true
      → a.service.enabled ≡ true
      → (claims : ServiceTokenClaims) → a.parser.parse_service_token token ≡ ok claims
      → audience_ok a.service claims ≡ true
      → client_allowed a.service claims.client_id ≡ true
      → (is_empty a.service.required_scope ≡ true)
        ⊎ (claims.has_scope a.service.required_scope ≡ true)
      → Admitted a header service_accepted

abbrev pub is_outage : Counter → Bool
is_outage keys_unavailable = true
is_outage _ = false

-- The answers to a request that does not pass: a challenge, or, where the keys could not be fetched,
-- a 503 without one.
pub data Answers (a : Authenticator) (w : Headers) : Counter → Reply → Type 0 where
  challenged :
      (c : Counter) (code desc scope : Str)
      → is_outage c ≡ false
      → Answers a w c (challenge a (refusal_status c) code desc scope w)
  outage : Answers a w keys_unavailable (unavailable w)

-- Either the next handler gets the request, or there is an answer whatever that handler is; one
-- counter goes up.
pub data Decided (a : Authenticator) (r : Request) (w : Headers) (m : AuthMetrics)
    (May : Counter → Type 0) (run : Handler AuthMetrics → Reply × AuthMetrics) : Type 0 where
  passed :
      (c : Counter)
      → May c
      → ((f : Handler AuthMetrics) → run f ≡ f r w (raise c m))
      → Decided a r w m May run
  refused :
      (c : Counter) (reply : Reply)
      → Answers a w c reply
      → ((f : Handler AuthMetrics) → run f ≡ (reply, raise c m))
      → Decided a r w m May run

module _ (a : Authenticator) (r : Request) (w : Headers) (m : AuthMetrics)
    (May : Counter → Type 0) where
  refuse :
      (c : Counter) (code desc scope : Str)
      → is_outage c ≡ false
      → {run : Handler AuthMetrics → Reply × AuthMetrics}
      → ((f : Handler AuthMetrics)
          → run f ≡ (challenge a (refusal_status c) code desc scope w, raise c m))
      → Decided a r w m May run
  refuse c code desc scope n h = refused c _ (challenged c code desc scope n) h

  parse_error-Decided : (e : ParseError) → Decided a r w m May (λ f. reject_parse_error a e w m)
  unfolding reject_parse_error reject_invalid
  parse_error-Decided e = elim (Bool-cases e.is_keys_unavailable) [
    | inl k ↦ refused keys_unavailable (unavailable w) outage (λ f. ground arith)
    | inr k ↦ refuse rejected_invalid invalid_token (parse_error_text e) [] refl (λ f. ground arith)
  ]

  user-Decided :
      (p : Result ParseError UserClaims)
      → ((claims : UserClaims) → p ≡ ok claims → claims.is_active ≡ true → May user_accepted)
      → Decided a r w m May (λ f. serve_user a f r w p m)
  unfolding serve_user
  user-Decided (err e) may = parse_error-Decided e
  user-Decided (ok claims) may = elim (Bool-cases claims.is_active) [
    | inl k ↦ passed user_accepted (may claims refl k) (λ f. ground arith)
    | inr k ↦
        refuse rejected_inactive invalid_token (str "user account is not active") [] refl
          (λ f. ground arith)
  ]

  claims-Decided :
      (claims : ServiceTokenClaims)
      → (audience_ok a.service claims ≡ true
          → client_allowed a.service claims.client_id ≡ true
          → (is_empty a.service.required_scope ≡ true)
            ⊎ (claims.has_scope a.service.required_scope ≡ true)
          → May service_accepted)
      → Decided a r w m May (λ f. serve_claims a f r w claims m)
  unfolding serve_claims
  claims-Decided claims may = elim (Bool-cases (audience_ok a.service claims)) [
    | inr k ↦
        refuse rejected_audience invalid_token (str "token audience does not include this server")
          [] refl (λ f. ground arith)
    | inl k ↦ elim (Bool-cases (client_allowed a.service claims.client_id)) [
      | inr l ↦
          refuse rejected_client insufficient_scope (str "client is not permitted to call this API")
            [] refl (λ f. ground arith)
      | inl l ↦ elim (Bool-cases (is_empty a.service.required_scope)) [
        | inl n ↦ passed service_accepted (may k l (inl n)) (λ f. ground arith)
        | inr n ↦ elim (Bool-cases (claims.has_scope a.service.required_scope)) [
          | inl o ↦ passed service_accepted (may k l (inr o)) (λ f. ground arith)
          | inr o ↦
              refuse rejected_scope insufficient_scope
                (str "token does not carry the scope this API requires") a.service.required_scope
                refl (λ f. ground arith)
        ]
      ]
    ]
  ]

  parsed-Decided :
      (p : Result ParseError ServiceTokenClaims)
      → ((claims : ServiceTokenClaims)
          → p ≡ ok claims
          → audience_ok a.service claims ≡ true
          → client_allowed a.service claims.client_id ≡ true
          → (is_empty a.service.required_scope ≡ true)
            ⊎ (claims.has_scope a.service.required_scope ≡ true)
          → May service_accepted)
      → Decided a r w m May (λ f. serve_parsed a f r w p m)
  parsed-Decided (err e) may = parse_error-Decided e
  parsed-Decided (ok claims) may = claims-Decided claims (may claims refl)

module _ (a : Authenticator) (r : Request) (w : Headers) (m : AuthMetrics) where
  abbrev May : Counter → Type 0
  May = Admitted a r.authorization

  token-Decided :
      (t : Option Str)
      → bearer_token r.authorization ≡ t
      → Decided a r w m May (λ f. serve_token a f r w t m)
  unfolding serve_token serve_service
  token-Decided none h = refuse a r w m May rejected_missing [] [] [] refl (λ f. ground arith)
  token-Decided (some token) h = elim (Bool-cases (is_service_token a.parser token)) [
    | inr k ↦ elim (user-Decided a r w m May (a.parser.parse token) (user token h k)) [
      | passed c may e ↦ passed c may (λ f. rw k (e f))
      | refused c reply by e ↦ refused c reply by (λ f. rw k (e f))
    ]
    | inl k ↦ elim (Bool-cases a.service.enabled) [
      | inr n ↦
          refuse a r w m May rejected_service_disabled invalid_token
            (str "service token presented but this server does not accept service tokens") [] refl
            (λ f. ground arith)
      | inl n ↦
          elim (parsed-Decided a r w m May (a.parser.parse_service_token token)
            (service token h k n)) [
              | passed c may e ↦ passed c may (λ f. rw (k, n) (e f))
              | refused c reply by e ↦ refused c reply by (λ f. rw (k, n) (e f))
            ]
    ]
  ]

  -- Every request raises exactly one counter by one, and either goes to the next handler with an
  -- admitted credential, or gets an answer of the middleware that does not depend on that handler: a
  -- 401 or 403 with a challenge, or a 503 without one where the keys are unavailable.
  pub require_auth-Decided :
      Decided a r w m (Admitted a r.authorization) (λ f. require_auth a f r w m)
  unfolding require_auth
  require_auth-Decided = token-Decided (bearer_token r.authorization) refl
