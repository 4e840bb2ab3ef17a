-- ===== src/Http/Cors/Responses.antt =====
-- What the cross-origin middleware answers (withCORS in internal/httpapi/cors.go).
use statehouse.Prelude.{true, false, ◌≡◌, refl, arith, inl, inr, Str, str, str_eq, Bool-cases}
use statehouse.Strings.{Unicode}
use statehouse.Origin.{Net, Policy, enabled, allow}
use statehouse.Http.{Request, Headers, Handler}
use statehouse.Http.Cors.{is_public, decide_cors, decision_headers, with_cors}

module _ (net : Net) (u : Unicode) (p : Policy) where
  same_decision :
      (r : Request) (o : Str)
      → (decide_cors net u p r).vary_origin ≡ false
      → decide_cors net u p (record r { origin = o }) ≡ decide_cors net u p r
  unfolding decide_cors enabled allow
  same_decision r o v = elim (Bool-cases (is_public r.path)) [
    | inl k ↦ ground arith
    | inr k ↦ ground arith
  ]

module _ {S : Type 0} (net : Net) (u : Unicode) (p : Policy) where
  -- Where the decision does not ask for `Vary: Origin`, the response is the same for every origin of
  -- the request, if the handler behind does not look at the origin.
  pub vary_covers :
      (h : Handler S) (r : Request) (o : Str) (w : Headers) (s : S)
      → ((v : Headers) → h (record r { origin = o }) v s ≡ h r v s)
      → (decide_cors net u p r).vary_origin ≡ false
      → with_cors net u p h (record r { origin = o }) w s ≡ with_cors net u p h r w s
  unfolding with_cors
  vary_covers h r o w s blind v =
      rw (same_decision net u p r o v, blind (decision_headers (decide_cors net u p r) w)) refl

  -- With an allowlist, a request with the method OPTIONS never reaches the handler behind: it gets
  -- an empty 204, and the state is as before.
  pub preflight_answered :
      (h g : Handler S) (r : Request) (w : Headers) (s : S)
      → str_eq r.method (str "OPTIONS") ≡ true
      → enabled p ≡ true
      → (with_cors net u p h r w s ≡ with_cors net u p g r w s)
        × ((with_cors net u p h r w s).1 ≡ s)
        × ((with_cors net u p h r w s).0.status ≡ 204)
  unfolding with_cors
  preflight_answered h g r w s o e = ground arith
