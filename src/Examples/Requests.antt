-- ===== src/Examples/Requests.antt =====
-- The theorems on the middlewares, at a user's token "u.1", a service's token "s.1", and requests from
-- a page. The decoder maps the segment "s" to the type of service tokens.
use statehouse.Prelude.{
  ◌≡◌, refl, some, none, true, false, [], ◌∷◌, Str, str, str_eq, ok, err, if◌then◌else◌,
}
use statehouse.Strings.{split_byte}
use statehouse.Http.{Request, Handler}
use statehouse.Http.Auth.{
  ParseError, Tokens, default_service_token_policy, AuthMetrics, Authenticator, require_auth,
  challenge_text, quote_safe, insufficient_scope,
}
use statehouse.Http.Auth.Admission.{Admitted, Decided, require_auth-Decided}
use statehouse.Http.Auth.Challenges.{pieces, challenge_parts}
use statehouse.Http.Cors.{with_cors, decide_cors}
use statehouse.Http.Cors.Responses.{vary_covers}
use statehouse.Examples.Origins.{loopback, plain, swee}

abbrev failed : ParseError
failed = record { is_keys_unavailable = false; is_token_expired = false }

abbrev tokens : Tokens
tokens = record {
  parse = λ t. if str_eq t (str "u.1") then ok (record { is_active = true }) else err failed;
  parse_service_token = λ t. ok (record {
    client_id = str "greenhouse";
    has_audience = λ a. str_eq a (str "statehouse");
    has_scope = λ s. false;
  });
  decode_raw = λ s. some s;
  decode_padded = λ s. some s;
  json_typ = λ s. if str_eq s (str "s") then some (str "at+jwt") else none;
}

abbrev guarded : Authenticator
guarded = record {
  parser = tokens;
  realm = str "https://id.\"swee.net";
  service = record default_service_token_policy {
    enabled = true;
    required_audience = str "statehouse";
    required_scope = [];
    allowed_clients = str "greenhouse" ∷ [];
  };
  repair = λ s. s;
}

abbrev request : Str → Request
request authorization = record {
  method = str "GET";
  path = str "/state";
  origin = str "https://app.swee.net";
  authorization = authorization;
}

abbrev no_metrics : AuthMetrics
no_metrics = record {
  user_accepted = 0;
  service_accepted = 0;
  rejected_missing = 0;
  rejected_invalid = 0;
  rejected_inactive = 0;
  rejected_service_disabled = 0;
  rejected_audience = 0;
  rejected_client = 0;
  rejected_scope = 0;
  keys_unavailable = 0;
}

abbrev pub fine : Handler AuthMetrics
fine r w m = (record { status = 200; headers = w; body = str "fine" }, m)

require_auth-Decided_example :
    Decided guarded
      (request (str "bearer u.1"))
      []
      no_metrics
      (Admitted guarded (str "bearer u.1"))
      (λ f. require_auth guarded f (request (str "bearer u.1")) [] no_metrics)
require_auth-Decided_example =
    require_auth-Decided guarded (request (str "bearer u.1")) [] no_metrics

challenge_parts_example :
    split_byte 34 (challenge_text guarded insufficient_scope [] (str "state\"read"))
    ≡ str "Bearer realm="
      ∷ quote_safe guarded.repair guarded.realm
      ∷ pieces guarded.repair (str "error") insufficient_scope (
          pieces guarded.repair
            (str "error_description")
            []
            (pieces guarded.repair (str "scope") (str "state\"read") ([] ∷ [])))
challenge_parts_example = challenge_parts guarded insufficient_scope [] (str "state\"read")

abbrev health : Request
health = record (request []) { path = str "/healthz" }

health_public : (decide_cors loopback plain swee health).vary_origin ≡ false
unfolding decide_cors str_eq
health_public = refl

vary_covers_example :
    with_cors loopback plain swee fine
      (record health { origin = str "https://evil.example" })
      []
      no_metrics
    ≡ with_cors loopback plain swee fine health [] no_metrics
vary_covers_example =
    vary_covers loopback plain swee fine health (str "https://evil.example") [] no_metrics
      (λ v. refl) health_public
