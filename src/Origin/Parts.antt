-- ===== src/Origin/Parts.antt =====
-- The printing of an origin's parts and their parsing (split and serialise in
-- internal/origin/origin.go).
use mathlib.Core.List.{append_assoc}
use statehouse.Prelude.{
  ℕ, Bool, true, false, not, ◌||◌, ◌≡◌, refl, arith, some, none, [], ◌∷◌, ◌++◌, ◌==◌, ◌⊎◌, inl, inr,
  if◌then◌else◌, Str, str, str_eq→eq, ok,
}
use statehouse.Model.Identity.{is_empty}
use statehouse.Strings.{
  Unicode, is_ascii, lower_ascii, to_lower, cut_prefix, has_prefix, cut, contains_any,
  contains_byte, all_bytes,
}
use statehouse.Strings.Laws.{
  all_bytes_mono, all_bytes-append, contains_any_none, is_lowered, to_lower_fixed, differs,
  cut_last-none, cut_last_append, cut_byte,
}
use statehouse.Origin.{
  Net, is_scheme, is_digit, split, split_port, split_bracket, split_colon, port_after_bracket,
  lift_wildcard, serialise,
}
use statehouse.Origin.Hosts.{Canonical, is_host_byte, is_ip_byte}

-- What follows the scheme.
abbrev pub authority : Str → Str → Str
authority host port = if is_empty port then host else host ++ (str ":" ++ port)

-- The bytes that an origin's host and port may have.
abbrev pub is_authority_byte : ℕ → Bool
is_authority_byte c = is_host_byte c || c == b':' || c == b'[' || c == b']'

append_nonempty : (s t : Str) → is_empty t ≡ false → is_empty (s ++ t) ≡ false
append_nonempty [] t h = h
append_nonempty (c ∷ s) t h = refl

pub scheme_cases :
    (scheme : Str) → is_scheme scheme ≡ true → (scheme ≡ str "http") ⊎ (scheme ≡ str "https")
scheme_cases scheme h =
    ground (arith, str_eq→eq scheme (str "http"), str_eq→eq scheme (str "https"))

split_scheme :
    (u : Unicode) (scheme rest : Str)
    → is_scheme scheme ≡ true
    → (cut (str "://") (scheme ++ (str "://" ++ rest)) ≡ some (scheme, rest))
      × (to_lower u scheme ≡ scheme)
unfolding cut cut_prefix to_lower is_ascii lower_ascii
split_scheme u scheme rest h = elim (scheme_cases scheme h) [
  | inl e ↦ rw e (refl, refl)
  | inr e ↦ rw e (refl, refl)
]

no_colon : (s : Str) → all_bytes is_host_byte s ≡ true → all_bytes (differs b':') s ≡ true
no_colon s h = all_bytes_mono is_host_byte (differs b':') s (λ c e. ground arith) h

digits_no_colon : (s : Str) → all_bytes is_digit s ≡ true → all_bytes (differs b':') s ≡ true
digits_no_colon s h = all_bytes_mono is_digit (differs b':') s (λ c e. ground arith) h

no_bracket : (s : Str) → all_bytes is_ip_byte s ≡ true → all_bytes (differs b']') s ≡ true
no_bracket s h = all_bytes_mono is_ip_byte (differs b']') s (λ c e. ground arith) h

split_port_plain :
    (host port : Str)
    → is_empty host ≡ false
    → all_bytes is_host_byte host ≡ true
    → all_bytes is_digit port ≡ true
    → split_port (authority host port) ≡ ok (host, port)
unfolding split_port has_prefix cut_prefix split_colon all_bytes
split_port_plain [] port n h d = cc
split_port_plain (c ∷ host) [] n h d =
    ground (arith, cut_last-none b':' (c ∷ host) (no_colon (c ∷ host) h))
split_port_plain (c ∷ host) (p ∷ port) n h d =
    ground (arith, cut_last_append b':' (c ∷ host) (p ∷ port) (digits_no_colon (p ∷ port) d))

cut_bracket :
    (ip rest : Str)
    → all_bytes is_ip_byte ip ≡ true
    → cut (str "]") (str "[" ++ (ip ++ (str "]" ++ rest))) ≡ some (str "[" ++ ip, rest)
unfolding all_bytes
cut_bracket ip rest h = cut_byte b']' (b'[' ∷ ip) rest (ground (arith, no_bracket ip h))

split_port_literal :
    (ip port : Str)
    → all_bytes is_ip_byte ip ≡ true
    → split_port (authority (str "[" ++ (ip ++ str "]")) port)
      ≡ ok (str "[" ++ (ip ++ str "]"), port)
unfolding split_port has_prefix cut_prefix split_bracket port_after_bracket
split_port_literal ip [] h = rw (cut_bracket ip [] h) refl
split_port_literal ip (p ∷ port) h =
    rw (append_assoc ip (str "]") (b':' ∷ p ∷ port)) (rw (cut_bracket ip (b':' ∷ p ∷ port) h) refl)

host_bytes :
    (net : Net) (host : Str)
    → Canonical net host
    → (all_bytes is_authority_byte host ≡ true) × (is_empty host ≡ false)
unfolding all_bytes
host_bytes net host (inl (n, h)) =
    (all_bytes_mono is_host_byte is_authority_byte host (λ c e. ground arith) h, n)
host_bytes net host (inr (ip, e, h)) =
    let inside = all_bytes_mono is_ip_byte is_authority_byte ip (λ c f. ground arith) h in
    rw e (ground (arith, all_bytes-append is_authority_byte ip (str "]")))

pub authority_bytes :
    (net : Net) (host port : Str)
    → Canonical net host
    → all_bytes is_digit port ≡ true
    → (all_bytes is_authority_byte (authority host port) ≡ true)
      × (is_empty (authority host port) ≡ false)
unfolding all_bytes
authority_bytes net host [] c d = host_bytes net host c
authority_bytes net host (p ∷ port) c d =
    let ds = all_bytes_mono is_digit is_authority_byte (p ∷ port) (λ b e. ground arith) d in
    ground (
      arith,
      host_bytes net host c,
      all_bytes-append is_authority_byte host (b':' ∷ p ∷ port),
      append_nonempty host (b':' ∷ p ∷ port),
    )

no_wildcard_prefix :
    (s : Str) → all_bytes is_authority_byte s ≡ true → cut_prefix (str "*.") s ≡ none
unfolding all_bytes cut_prefix
no_wildcard_prefix [] h = refl
no_wildcard_prefix (c ∷ s) h = ground arith

no_url_byte :
    (s : Str) → all_bytes is_authority_byte s ≡ true → contains_any (str "/?#@\\") s ≡ false
unfolding contains_byte
no_url_byte s h = contains_any_none (str "/?#@\\") s (
    all_bytes_mono is_authority_byte (λ c. not (contains_byte c (str "/?#@\\"))) s
      (λ c e. ground arith) h)

split_authority :
    (net : Net) (host port : Str)
    → Canonical net host
    → all_bytes is_digit port ≡ true
    → split_port (authority host port) ≡ ok (host, port)
split_authority net host port (inl (n, h)) d = split_port_plain host port n h d
split_authority net host port (inr (ip, e, h)) d = rw e (split_port_literal ip port h)

Canonical-lower :
    (net : Net) (u : Unicode) (host : Str) → Canonical net host → to_lower u host ≡ host
Canonical-lower net u host c = to_lower_fixed u host (
    all_bytes_mono is_authority_byte is_lowered host (λ b e. ground arith)
      (host_bytes net host c).0)

pub serialise_lem :
    (scheme host port : Str)
    → serialise scheme host port ≡ scheme ++ (str "://" ++ authority host port)
unfolding serialise
serialise_lem scheme host [] = refl
serialise_lem scheme host (p ∷ port) = refl

-- Canonical parts print to a text that splits into them.
pub split-serialise :
    (net : Net) (u : Unicode) (scheme host port : Str)
    → is_scheme scheme ≡ true
    → Canonical net host
    → all_bytes is_digit port ≡ true
    → split u (serialise scheme host port) ≡ ok (scheme, host, port)
unfolding split lift_wildcard
split-serialise net u scheme host port s c d =
    let text = authority host port in
    let (bytes, nonempty) = authority_bytes net host port c d in
    let (found, lowered) = split_scheme u scheme text s in
    rw
      (
        serialise_lem,
        found,
        lowered,
        s,
        nonempty,
        no_url_byte text bytes,
        no_wildcard_prefix text bytes,
        split_authority net host port c d,
        Canonical-lower net u host c,
      )
      refl
