-- ===== src/Origin.antt =====
-- The allowlist of browser origins (internal/origin/origin.go). The parsing of IP addresses is
-- that of Go's `net`, a parameter.
pub mod Hosts
pub mod Parts
pub mod Policies
pub mod Rules
pub mod Entries
pub mod Patterns
pub mod Allowlist
pub mod Matching
pub mod Admits
use mathlib.Core.Option
use statehouse.Prelude.{
  ℕ, ◌+◌, ◌-◌, ◌*◌, Bool, true, false, not, ◌&&◌, ◌||◌, Option, none, some, List, [], ◌∷◌, ◌++◌,
  length, ltb, leb, ◌==◌, if◌then◌else◌, is_some, Str, str, str_eq, Result, ok, err, ◌>>=◌, ◌>>◌,
  guard,
}
use statehouse.Model.Identity.{is_empty}
use statehouse.Strings.{
  Unicode, to_lower, trim_space, cut_prefix, has_prefix, cut_suffix, has_suffix, cut, cut_last,
  contains_byte, contains_any, split_byte, count_byte, all_bytes,
}

-- `net.ParseIP`, whether `To4` is not nil, and `IP.String`.
pub record Net : Type 1 where
  pub Ip : Type 0
  pub parse_ip : Str → Option Ip
  pub is_ipv4 : Ip → Bool
  pub ip_string : Ip → Str

-- The errors of the package, their texts left out.
pub data OriginError : Type 0 where
  no_scheme unsupported_scheme not_an_origin empty_entry no_host host_too_long bad_label :
      OriginError
  bad_port bad_wildcard admits_every_origin wildcard_over_ip too_broad bracketed_ipv4 : OriginError

abbrev pub Checked : Type 0 → Type 0
Checked A = Result OriginError A

abbrev pub wildcard : Str
wildcard = str "*"

pub record Rule : Type 0 where
  pub scheme : Str
  pub host : Str
  pub suffix : Str
  pub port : Str
  pub any_port : Bool

pub record Policy : Type 0 where
  pub allow_all : Bool
  pub rules : List Rule

-- The zero value.
abbrev pub no_policy : Policy
no_policy = record { allow_all = false; rules = [] }

unfoldable pub enabled : Policy → Bool
enabled p = p.allow_all || ltb 0 (length p.rules)

-- A policy and an error, both of which `Compile` returns.
abbrev pub Compiled : Type 0
Compiled = Policy × Option OriginError

-- A pattern's rule behind the others, or the return of its error.
abbrev pub add_rule : Policy → Checked Rule → Compiled
add_rule p (err e) = (no_policy, some e)
add_rule p (ok r) = (record p { rules = p.rules ++ (r ∷ []) }, none)

-- Scheme, host and port.
abbrev pub Triple : Type 0
Triple = Str × Str × Str

abbrev pub or_error : {A : Type 0} → OriginError → Option A → Result OriginError A
or_error e none = err e
or_error e (some a) = ok a

-- What follows the bracket: nothing, or ":" and a port.
unfoldable pub port_after_bracket : Str → Checked Str
port_after_bracket [] = ok []
port_after_bracket (c ∷ port) =
    if not (c == b':') then err bad_label else if is_empty port then err bad_port else ok port

unfoldable pub split_bracket : Option (Str × Str) → Checked (Str × Str)
split_bracket none = err bad_label
split_bracket (some (before, after)) = do
  port ← port_after_bracket after
  ok (before ++ str "]", port)

unfoldable pub split_colon : Str → Option (Str × Str) → Checked (Str × Str)
split_colon rest none = ok (rest, [])
split_colon rest (some (host, port)) = if is_empty port then err bad_port else ok (host, port)

-- Host and port, behind the scheme and a leading wildcard label.
unfoldable pub split_port : Str → Checked (Str × Str)
split_port rest =
    if has_prefix (str "[") rest
    then split_bracket (cut (str "]") rest)
    else split_colon rest (cut_last b':' rest)

-- A leading wildcard label, and the rest.
unfoldable pub lift_wildcard : Str → Option Str → Str × Str
lift_wildcard rest none = ([], rest)
lift_wildcard rest (some parent) = (str "*.", parent)

abbrev pub is_scheme : Str → Bool
is_scheme s = str_eq s (str "http") || str_eq s (str "https")

unfoldable pub split : Unicode → Str → Checked Triple
split u raw = do
  (before, rest) ← or_error no_scheme (cut (str "://") raw)
  let scheme = to_lower u before
  guard (is_scheme scheme) unsupported_scheme
  guard (not (is_empty rest)) no_host
  guard (not (contains_any (str "/?#@\\") rest)) not_an_origin
  let lifted = lift_wildcard rest (cut_prefix (str "*.") rest)
  (host, port) ← split_port lifted.1
  ok (scheme, lifted.0 ++ to_lower u host, port)

abbrev pub is_lower : ℕ → Bool
is_lower c = leb b'a' c && leb c b'z'

abbrev pub is_digit : ℕ → Bool
is_digit c = leb b'0' c && leb c b'9'

abbrev pub is_label_byte : ℕ → Bool
is_label_byte c = is_lower c || is_digit c || c == b'-'

-- The last byte is a "-".
unfoldable pub ends_in_dash : Str → Bool
ends_in_dash [] = false
ends_in_dash (c ∷ s) = let rest = ends_in_dash s in if is_empty s then c == b'-' else rest

unfoldable pub starts_with_dash : Str → Bool
starts_with_dash [] = false
starts_with_dash (c ∷ s) = c == b'-'

unfoldable pub is_label : Str → Bool
is_label l =
    not (is_empty l)
    && leb (length l) 63
    && not (starts_with_dash l || ends_in_dash l)
    && all_bytes is_label_byte l

unfoldable pub all_labels : List Str → Bool
all_labels [] = true
all_labels (l ∷ ls) = is_label l && all_labels ls

-- `for` loop over the digits, from the number so far; `none` at any other byte.
unfoldable pub digits : ℕ → Str → Option ℕ
digits n [] = some n
digits n (c ∷ s) = let rest = digits (n * 10 + (c - b'0')) s in if is_digit c then rest else none

abbrev pub in_range : Option ℕ → Checked (Unit {0})
in_range none = err bad_port
in_range (some n) = guard (leb n 65535) bad_port

unfoldable pub validate_port : Str → Checked (Unit {0})
validate_port [] = err bad_port
validate_port (c ∷ s) =
    if ltb 5 (length (c ∷ s)) || c == b'0' then err bad_port else in_range (digits 0 (c ∷ s))

-- A port may be absent.
abbrev pub check_port : Str → Checked (Unit {0})
check_port port = if is_empty port then ok tt else validate_port port

unfoldable pub serialise : Str → Str → Str → Str
serialise scheme host port =
    if is_empty port
    then scheme ++ (str "://" ++ host)
    else scheme ++ (str "://" ++ (host ++ (str ":" ++ port)))

unfoldable pub matches : Rule → Str → Str → Str → Bool
matches r scheme host port =
    if not (str_eq r.scheme scheme)
    then false
    else if not r.any_port && not (str_eq r.port port)
    then false
    else if not (is_empty r.suffix)
    then ltb (length r.suffix) (length host) && has_suffix r.suffix host
    else str_eq r.host host

abbrev pub any_matches : List Rule → Str → Str → Str → Bool
any_matches [] scheme host port = false
any_matches (r ∷ rs) scheme host port =
    matches r scheme host port || any_matches rs scheme host port

module _ (net : Net) where
  open net use {parse_ip, is_ipv4, ip_string, Ip}

  unfoldable pub bracketed : Option Ip → Checked Str
  bracketed none = err bad_label
  bracketed (some ip) =
      if is_ipv4 ip then err bracketed_ipv4 else ok (str "[" ++ (ip_string ip ++ str "]"))

  -- The address between the brackets, if the closing one is there.
  unfoldable pub inner_ip : Option Str → Option Ip
  inner_ip none = none
  inner_ip (some inner) = parse_ip inner

  unfoldable pub validate_literal : Option Str → Str → Checked Str
  validate_literal (some inner) h = bracketed (inner_ip (cut_suffix (str "]") inner))
  validate_literal none h =
      if ltb 253 (length h)
      then err host_too_long
      else if all_labels (split_byte b'.' h)
      then ok h
      else err bad_label

  unfoldable pub validate_host : Str → Checked Str
  validate_host h = if is_empty h then err no_host else validate_literal (cut_prefix (str "[") h) h

  unfoldable pub compile_host : Rule → Str → Option Str → Checked Rule
  compile_host r host none = do
    guard (not (contains_byte b'*' host)) bad_wildcard
    canonical ← validate_host host
    ok (record r { host = canonical })
  compile_host r host (some parent) = do
    guard (not (contains_byte b'*' parent)) bad_wildcard
    guard (not (has_prefix (str "[") parent || is_some (parse_ip parent))) wildcard_over_ip
    canonical ← validate_host parent
    guard (leb 1 (count_byte b'.' canonical)) too_broad
    ok (record r { suffix = str "." ++ canonical })

  -- The rule so far, from the scheme and the port.
  unfoldable pub compile_port : Str → Str → Checked Rule
  compile_port scheme port =
      let r : Rule = record {
        scheme = scheme;
        host = [];
        suffix = [];
        port = [];
        any_port = false;
      } in
      if str_eq port wildcard
      then ok (record r { any_port = true })
      else (check_port port >>= λ _. ok (record r { port = port }))

  -- The host and the port of an origin.
  check_parts : Triple → Checked Triple
  check_parts (scheme, host, port) = do
    canonical ← validate_host host
    check_port port
    ok (scheme, canonical, port)

  module _ (u : Unicode) where
    unfoldable pub compile_rule : Str → Checked Rule
    compile_rule raw = do
      (scheme, host, port) ← split u raw
      r ← compile_port scheme port
      guard (not (str_eq host wildcard)) admits_every_origin
      compile_host r host (cut_prefix (str "*.") host)

    -- What one round of the loop of `Compile` leaves: the policy so far, or what it returns.
    unfoldable pub compile_entry : Policy → Str → Compiled
    compile_entry p raw =
        let entry = trim_space u raw in
        if is_empty entry
        then (no_policy, some empty_entry)
        else if str_eq entry wildcard
        then (record p { allow_all = true }, none)
        else add_rule p (compile_rule entry)

    unfoldable pub compile_from : Policy → List Str → Compiled
    compile_from p [] = (p, none)
    compile_from p (raw ∷ patterns) =
        let (q, e) = compile_entry p raw in
        let rest = compile_from q patterns in if is_some e then (q, e) else rest

    unfoldable pub compile : List Str → Compiled
    unfolding compile_from
    compile patterns = compile_from no_policy patterns

    -- The parts of an origin in canonical form, if it has one.
    unfoldable pub canonical_parts : Str → Checked Triple
    unfolding check_parts
    canonical_parts o = split u o >>= check_parts

    abbrev pub answer : List Rule → Checked Triple → Option Str
    answer rules (err e) = none
    answer rules (ok (scheme, host, port)) =
        if any_matches rules scheme host port then some (serialise scheme host port) else none

    -- The value to echo; `none` for a refusal.
    unfoldable pub allow : Policy → Str → Option Str
    allow p o =
        if is_empty o
        then none
        else if p.allow_all
        then some wildcard
        else if not (ltb 0 (length p.rules))
        then none
        else answer p.rules (canonical_parts o)
