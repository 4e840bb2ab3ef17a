-- ===== src/Http/Cors.antt =====
-- The cross-origin middleware (internal/httpapi/cors.go).
pub mod Responses
use statehouse.Prelude.{
  Bool, true, false, ◌&&◌, ◌||◌, Option, none, some, [], Str, str, str_eq, if◌then◌else◌,
}
use statehouse.Strings.{Unicode}
use statehouse.Origin.{Net, Policy, enabled, allow}
use statehouse.Http.{Request, Headers, Reply, Handler, add, set}

-- The routes whose answer any page may read.
unfoldable pub is_public : Str → Bool
is_public path = str_eq path (str "/openapi.json") || str_eq path (str "/healthz")

-- The value to echo, if any, and whether the answer depended on the request's origin.
pub record CorsDecision : Type 0 where
  pub value : Option Str
  pub vary_origin : Bool

module _ (net : Net) (u : Unicode) (p : Policy) where
  unfoldable pub decide_cors : Request → CorsDecision
  unfolding is_public enabled allow
  decide_cors r =
      if is_public r.path
      then record { value = some (str "*"); vary_origin = false }
      else record { value = allow net u p r.origin; vary_origin = enabled p }

-- The headers of a decision, before the method is looked at.
unfoldable pub allow_headers : Option Str → Headers → Headers
unfolding set
allow_headers none w = w
allow_headers (some v) w =
    set (str "Access-Control-Expose-Headers") (str "WWW-Authenticate")
      (set (str "Timing-Allow-Origin") v (set (str "Access-Control-Allow-Origin") v w))

unfoldable pub decision_headers : CorsDecision → Headers → Headers
unfolding add allow_headers
decision_headers d w =
    allow_headers d.value (if d.vary_origin then add (str "Vary") (str "Origin") w else w)

unfoldable pub preflight_headers : Option Str → Headers → Headers
unfolding set
preflight_headers none w = w
preflight_headers (some v) w = set (str "Access-Control-Max-Age") (str "86400") (
    set (str "Access-Control-Allow-Headers") (str "Authorization, Content-Type")
      (set (str "Access-Control-Allow-Methods") (str "GET, HEAD, OPTIONS") w))

module _ {S : Type 0} (net : Net) (u : Unicode) (p : Policy) (h : Handler S) where
  unfoldable pub with_cors : Handler S
  unfolding decide_cors decision_headers preflight_headers enabled
  with_cors r w s =
      let d = decide_cors net u p r in
      let headers = decision_headers d w in
      if str_eq r.method (str "OPTIONS") && enabled p
      then (record { status = 204; headers = preflight_headers d.value headers; body = [] }, s)
      else h r headers s
