-- ===== src/Origin/Hosts.antt =====
-- Canonical hosts and ports (validateHost and validatePort in internal/origin/origin.go).
use statehouse.Prelude.{
  ℕ, Bool, true, false, ◌&&◌, ◌||◌, ◌≡◌, refl, ◌*◌, ◌+◌, ◌-◌, arith, Option, some, none, List, [],
  ◌∷◌, ◌++◌, leb, ◌==◌, ◌⊎◌, inl, inr, Str, str, ok, Bool-cases, Option-cases,
}
use statehouse.Model.Identity.{is_empty}
use statehouse.Strings.{cut_prefix, cut_suffix, split_byte, all_bytes, add_first}
use statehouse.Strings.Laws.{cut_suffix_append}
use statehouse.Origin.{
  Net, is_digit, is_label_byte, is_label, all_labels, digits, validate_port, bracketed, inner_ip,
  validate_literal, validate_host, check_port,
}

-- The bytes of a plain host, of the text of an address, and of a port.
abbrev pub is_host_byte : ℕ → Bool
is_host_byte c = is_label_byte c || c == b'.'

abbrev pub is_ip_byte : ℕ → Bool
is_ip_byte c = is_digit c || (leb b'a' c && leb c b'f') || c == b':'

-- What Go's `net` promises of the addresses that are not IPv4: their text is made of lower-case
-- hexadecimal digits and colons, and parses to the address.
pub record NetLaws (net : Net) : Type 0 where
  pub parse_string :
      (ip : net.Ip) → net.is_ipv4 ip ≡ false → net.parse_ip (net.ip_string ip) ≡ some ip
  pub string_bytes :
      (ip : net.Ip) → net.is_ipv4 ip ≡ false → all_bytes is_ip_byte (net.ip_string ip) ≡ true

abbrev all_parts : List Str → Bool
all_parts [] = true
all_parts (l ∷ ls) = all_bytes is_label_byte l && all_parts ls

labels_parts : (ls : List Str) → all_labels ls ≡ true → all_parts ls ≡ true
unfolding all_labels is_label
labels_parts [] h = refl
labels_parts (l ∷ ls) h = ground (arith, labels_parts ls)

parts_first :
    (c : ℕ) (ls : List Str)
    → all_parts (add_first c ls) ≡ true
    → (is_label_byte c ≡ true) × (all_parts ls ≡ true)
unfolding all_bytes
parts_first c [] h = ground arith
parts_first c (l ∷ ls) h = ground arith

parts_bytes : (s : Str) → all_parts (split_byte b'.' s) ≡ true → all_bytes is_host_byte s ≡ true
unfolding split_byte all_bytes
parts_bytes [] h = refl
parts_bytes (c ∷ s) h = ground (arith, parts_bytes s, parts_first c (split_byte b'.' s))

labels_bytes : (s : Str) → all_labels (split_byte b'.' s) ≡ true → all_bytes is_host_byte s ≡ true
labels_bytes s h = parts_bytes s (labels_parts (split_byte b'.' s) h)

digits_bytes : (n r : ℕ) (s : Str) → digits n s ≡ some r → all_bytes is_digit s ≡ true
unfolding digits all_bytes
digits_bytes n r [] h = refl
digits_bytes n r (c ∷ s) h = ground (arith, digits_bytes (n * 10 + (c - b'0')) r s)

pub port_bytes : (port : Str) → check_port port ≡ ok tt → all_bytes is_digit port ≡ true
unfolding validate_port
port_bytes [] h = unfold all_bytes in refl
port_bytes (c ∷ s) h = elim (Option-cases (digits 0 (c ∷ s))) [
  | inl e ↦ ground arith
  | inr (r, e) ↦ digits_bytes 0 r (c ∷ s) e
]

module _ (net : Net) where
  -- A host in canonical form: a plain one, or an address in brackets.
  abbrev pub Canonical : Str → Type 0
  Canonical h =
      ((is_empty h ≡ false) × (all_bytes is_host_byte h ≡ true))
      ⊎ ((ip : Str) × (h ≡ str "[" ++ (ip ++ str "]")) × (all_bytes is_ip_byte ip ≡ true))

  module _ (laws : NetLaws net) where
    literal_again :
        (ip : net.Ip)
        → net.is_ipv4 ip ≡ false
        → validate_host net (str "[" ++ (net.ip_string ip ++ str "]"))
          ≡ ok (str "[" ++ (net.ip_string ip ++ str "]"))
    unfolding validate_host validate_literal cut_prefix inner_ip bracketed
    literal_again ip v =
        rw (cut_suffix_append (str "]") (net.ip_string ip), laws.parse_string ip v, v) refl

    bracketed-Canonical :
        (o : Option net.Ip) (c : Str)
        → bracketed net o ≡ ok c
        → Canonical c × (validate_host net c ≡ ok c)
    unfolding bracketed
    bracketed-Canonical none c e = cc
    bracketed-Canonical (some ip) c e = elim (Bool-cases (net.is_ipv4 ip)) [
      | inl four ↦ ground arith
      | inr six ↦
          let text = str "[" ++ (net.ip_string ip ++ str "]") in
          let same : text ≡ c = ground arith in
          rw (← same) (inr (net.ip_string ip, refl, laws.string_bytes ip six), literal_again ip six)
    ]

    -- An accepted host is canonical, and accepted as it is.
    pub validate_host-Canonical :
        (h c : Str) → validate_host net h ≡ ok c → Canonical c × (validate_host net c ≡ ok c)
    unfolding validate_host validate_literal
    validate_host-Canonical h c e = elim (Option-cases (cut_prefix (str "[") h)) [
      | inl plain ↦
          let same : h ≡ c = ground arith in
          (rw (← same) (inl (ground (arith, labels_bytes h))), rw same at e)
      | inr (inner, literal) ↦
          bracketed-Canonical (inner_ip net (cut_suffix (str "]") inner)) c (ground arith)
    ]
