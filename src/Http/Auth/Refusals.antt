-- ===== src/Http/Auth/Refusals.antt =====
-- The headers of the answers to refused requests (challenge and unavailable in
-- internal/httpapi/auth.go).
use statehouse.Prelude.{◌≡◌, refl, ◌∙◌, ◌==◌, if◌then◌else◌, Str, str, str_eq}
use statehouse.Http.{Headers, Reply, get, set, error_reply}
use statehouse.Http.Headers.{get-set, get-set_other, get-error_reply}
use statehouse.Http.Auth.{Authenticator, challenge, challenge_text, unavailable}
use statehouse.Http.Auth.Admission.{Counter, challenged, outage, Answers, refusal_status, is_outage}

abbrev authenticate : Str
authenticate = str "WWW-Authenticate"

-- The challenge of a reply is one of this authenticator.
pub IsChallenge : Authenticator → Reply → Type 0
IsChallenge a reply =
    (code : Str) × (desc : Str) × (scope : Str) × (get (str "WWW-Authenticate") reply.headers
      ≡ challenge_text a code desc scope)

-- An answer has the status of its counter. At an outage of the keys it leaves the challenge header
-- as it was; otherwise it carries a challenge.
pub Answers-IsChallenge :
    (a : Authenticator) (w : Headers) (c : Counter) (reply : Reply)
    → Answers a w c reply
    → (reply.status ≡ refusal_status c)
      × (if is_outage c
          then get (str "WWW-Authenticate") reply.headers ≡ get (str "WWW-Authenticate") w
          else IsChallenge a reply)
unfolding challenge unavailable str_eq IsChallenge error_reply
Answers-IsChallenge a w _ _ (challenged c code desc scope n) =
    let text = challenge_text a code desc scope in
    let status = refusal_status c in
    let body = if status == 403 then str "forbidden" else str "unauthorized" in
    let found =
      get-error_reply authenticate status body (set authenticate text w) refl refl refl
      ∙ get-set authenticate text w in
    (refl, rw n (code, desc, scope, found))
Answers-IsChallenge a w _ _ outage = (
  refl,
  get-error_reply authenticate 503 (str "authentication temporarily unavailable")
        (set (str "Retry-After") (str "30") w) refl refl refl
      ∙ get-set_other authenticate (str "Retry-After") (str "30") w refl,
)
