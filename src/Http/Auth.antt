-- ===== src/Http/Auth.antt =====
-- The bearer-token middleware (internal/httpapi/auth.go). The parsers of tokens, base64 and JSON are
-- parameters; so is `strings.Map`'s repair of a text that is not UTF-8.
pub mod Challenges
pub mod Admission
pub mod Refusals
use statehouse.Prelude.{
  ℕ, ◌+◌, ◌%◌, ◌^◌, Bool, true, false, not, ◌&&◌, ◌||◌, Option, none, some, List, [], ◌∷◌, ◌++◌,
  length, ltb, leb, ◌==◌, if◌then◌else◌, Str, str, str_eq, Result, ok, err,
}
use statehouse.Model.Identity.{is_empty}
use statehouse.Strings.{is_ascii, cut, cut_prefix_fold, trim_left, trim_right}
use statehouse.Http.{Request, Headers, Reply, Handler, set, error_reply}

-- What `errors.Is` finds in a parser's error.
pub record ParseError : Type 0 where
  pub is_keys_unavailable : Bool
  pub is_token_expired : Bool

pub record UserClaims : Type 0 where
  pub is_active : Bool

pub record ServiceTokenClaims : Type 0 where
  pub client_id : Str
  pub has_audience : Str → Bool
  pub has_scope : Str → Bool

-- `Parse` and `ParseServiceToken` of the token parser, the two decoders of base64url, and the `typ`
-- of a JSON object.
pub record Tokens : Type 0 where
  pub parse : Str → Result ParseError UserClaims
  pub parse_service_token : Str → Result ParseError ServiceTokenClaims
  pub decode_raw : Str → Option Str
  pub decode_padded : Str → Option Str
  pub json_typ : Str → Option Str

abbrev pub service_token_typ : Str
service_token_typ = str "at+jwt"

abbrev pub invalid_token : Str
invalid_token = str "invalid_token"

abbrev pub insufficient_scope : Str
insufficient_scope = str "insufficient_scope"

pub record ServiceTokenPolicy : Type 0 where
  pub enabled : Bool
  pub required_audience : Str
  pub required_scope : Str
  pub allowed_clients : List Str

unfoldable pub default_service_token_policy : ServiceTokenPolicy
default_service_token_policy = record {
  enabled = true;
  required_audience = [];
  required_scope = [];
  allowed_clients = [];
}

unfoldable pub audience_ok : ServiceTokenPolicy → ServiceTokenClaims → Bool
audience_ok p claims =
    if is_empty p.required_audience then true else claims.has_audience p.required_audience

abbrev pub one_of : Str → List Str → Bool
one_of s [] = false
one_of s (c ∷ cs) = str_eq c s || one_of s cs

unfoldable pub client_allowed : ServiceTokenPolicy → Str → Bool
client_allowed p client_id =
    if length p.allowed_clients == 0 then true else one_of client_id p.allowed_clients

-- Counters of 64 bits.
pub record AuthMetrics : Type 0 where
  pub user_accepted : ℕ
  pub service_accepted : ℕ
  pub rejected_missing : ℕ
  pub rejected_invalid : ℕ
  pub rejected_inactive : ℕ
  pub rejected_service_disabled : ℕ
  pub rejected_audience : ℕ
  pub rejected_client : ℕ
  pub rejected_scope : ℕ
  pub keys_unavailable : ℕ

abbrev pub add_one : ℕ → ℕ
add_one n = (n + 1) % 2 ^ 64

pub record Authenticator : Type 0 where
  pub parser : Tokens
  pub realm : Str
  pub service : ServiceTokenPolicy
  -- Bytes that are not UTF-8 become the replacement character.
  pub repair : Str → Str

-- Printable, and neither a quote nor a backslash. Bytes above 127 belong to other characters.
abbrev pub is_quote_safe : ℕ → Bool
is_quote_safe c = not (c == 34 || c == 92) && not (ltb c 32 || c == 127)

unfoldable pub keep_quote_safe : Str → Str
keep_quote_safe [] = []
keep_quote_safe (c ∷ s) = let rest = keep_quote_safe s in if is_quote_safe c then c ∷ rest else rest

unfoldable pub quote_safe : (Str → Str) → Str → Str
quote_safe repair s = keep_quote_safe (if is_ascii s then s else repair s)

-- A part of the challenge, left out when empty.
unfoldable pub auth_param : (Str → Str) → Str → Str → Str
auth_param repair name value =
    if is_empty value
    then []
    else str ", " ++ (name ++ (str "=\"" ++ (quote_safe repair value ++ str "\"")))

unfoldable pub challenge_text : Authenticator → Str → Str → Str → Str
unfolding auth_param quote_safe
challenge_text a code desc scope =
    str "Bearer realm=\""
    ++ (quote_safe a.repair a.realm
        ++ (str "\""
            ++ (auth_param a.repair (str "error") code
                ++ (auth_param a.repair (str "error_description") desc
                    ++ auth_param a.repair (str "scope") scope))))

unfoldable pub challenge : Authenticator → ℕ → Str → Str → Str → Headers → Reply
unfolding challenge_text set error_reply
challenge a status code desc scope w =
    error_reply status (if status == 403 then str "forbidden" else str "unauthorized")
      (set (str "WWW-Authenticate") (challenge_text a code desc scope) w)

unfoldable pub unavailable : Headers → Reply
unfolding set error_reply
unavailable w =
    error_reply 503 (str "authentication temporarily unavailable")
      (set (str "Retry-After") (str "30") w)

abbrev pub parse_error_text : ParseError → Str
parse_error_text e =
    if e.is_token_expired
    then str "token expired"
    else str "token is malformed, or signed by a key this server does not trust"

unfoldable pub reject_invalid : Authenticator → ParseError → Headers → Reply
unfolding challenge
reject_invalid a e w = challenge a 401 invalid_token (parse_error_text e) [] w

unfoldable pub reject_parse_error :
    Authenticator → ParseError → Headers → AuthMetrics → Reply × AuthMetrics
unfolding unavailable reject_invalid
reject_parse_error a e w m =
    if e.is_keys_unavailable
    then (unavailable w, record m { keys_unavailable = add_one m.keys_unavailable })
    else (reject_invalid a e w, record m { rejected_invalid = add_one m.rejected_invalid })

abbrev pub is_blank : ℕ → Bool
is_blank c = c == 32 || c == 9

-- The text behind the scheme starts with a blank, and has a credential.
unfoldable pub credential : Str → Option Str
credential [] = none
credential (c ∷ s) =
    let token = trim_right is_blank (trim_left is_blank (c ∷ s)) in
    if not (is_blank c) then none else if is_empty token then none else some token

abbrev pub and_then : {A B : Type 0} → Option A → (A → Option B) → Option B
and_then none f = none
and_then (some a) f = f a

-- `EqualFold` with "Bearer" asks for its six letters in either case: none of them has a fold that is
-- not ASCII.
unfoldable pub bearer_token : Str → Option Str
unfolding credential
bearer_token header = and_then (cut_prefix_fold (str "Bearer") header) credential

abbrev pub or_else : {A : Type 0} → Option A → Option A → Option A
or_else none later = later
or_else (some a) later = some a

unfoldable pub decode_jose_segment : Tokens → Str → Option Str
decode_jose_segment t seg =
    if ltb 4096 (length seg) then none else or_else (t.decode_raw seg) (t.decode_padded seg)

abbrev pub is_service_typ : Option Str → Bool
is_service_typ none = false
is_service_typ (some typ) = str_eq typ service_token_typ

unfoldable pub jose_typ : Tokens → Option (Str × Str) → Option Str
unfolding decode_jose_segment
jose_typ t none = none
jose_typ t (some (seg, rest)) =
    if is_empty seg then none else and_then (decode_jose_segment t seg) t.json_typ

unfoldable pub is_service_token : Tokens → Str → Bool
unfolding jose_typ
is_service_token t token = is_service_typ (jose_typ t (cut (str ".") token))

module _ (a : Authenticator) (next : Handler AuthMetrics) (r : Request) (w : Headers) where
  unfoldable pub serve_user : Result ParseError UserClaims → AuthMetrics → Reply × AuthMetrics
  unfolding reject_parse_error challenge
  serve_user (err e) m = reject_parse_error a e w m
  serve_user (ok claims) m =
      if not claims.is_active
      then (
        challenge a 401 invalid_token (str "user account is not active") [] w,
        record m { rejected_inactive = add_one m.rejected_inactive },
      )
      else next r w (record m { user_accepted = add_one m.user_accepted })

  -- The checks on the claims of a service token.
  unfoldable pub serve_claims : ServiceTokenClaims → AuthMetrics → Reply × AuthMetrics
  unfolding audience_ok client_allowed challenge
  serve_claims claims m =
      if not (audience_ok a.service claims)
      then (
        challenge a 401 invalid_token (str "token audience does not include this server") [] w,
        record m { rejected_audience = add_one m.rejected_audience },
      )
      else if not (client_allowed a.service claims.client_id)
      then (
        challenge a 403 insufficient_scope (str "client is not permitted to call this API") [] w,
        record m { rejected_client = add_one m.rejected_client },
      )
      else if not (is_empty a.service.required_scope)
          && not (claims.has_scope a.service.required_scope)
      then (
        challenge a 403 insufficient_scope (str "token does not carry the scope this API requires")
            a.service.required_scope w,
        record m { rejected_scope = add_one m.rejected_scope },
      )
      else next r w (record m { service_accepted = add_one m.service_accepted })

  abbrev pub serve_parsed : Result ParseError ServiceTokenClaims → AuthMetrics → Reply × AuthMetrics
  serve_parsed (err e) m = reject_parse_error a e w m
  serve_parsed (ok claims) m = serve_claims claims m

  unfoldable pub serve_service : Str → AuthMetrics → Reply × AuthMetrics
  unfolding serve_claims reject_parse_error challenge
  serve_service token m =
      if not a.service.enabled
      then (
        challenge a 401 invalid_token
            (str "service token presented but this server does not accept service tokens") [] w,
        record m { rejected_service_disabled = add_one m.rejected_service_disabled },
      )
      else serve_parsed (a.parser.parse_service_token token) m

  unfoldable pub serve_token : Option Str → AuthMetrics → Reply × AuthMetrics
  unfolding serve_user serve_service challenge is_service_token
  serve_token none m =
      (challenge a 401 [] [] [] w, record m { rejected_missing = add_one m.rejected_missing })
  serve_token (some token) m =
      if is_service_token a.parser token
      then serve_service token m
      else serve_user (a.parser.parse token) m

unfoldable pub require_auth : Authenticator → Handler AuthMetrics → Handler AuthMetrics
unfolding bearer_token serve_token
require_auth a next r w m = serve_token a next r w (bearer_token r.authorization) m
