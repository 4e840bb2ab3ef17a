-- ===== src/Origin/Policies.antt =====
-- What an allowlist echoes (Allow in internal/origin/origin.go).
use statehouse.Prelude.{
  ℕ, Bool, true, false, ◌||◌, ◌≡◌, refl, arith, some, List, [], ◌∷◌, ◌++◌, ltb, ◌==◌, ◌⊎◌, inl, inr,
  Str, str, ok, err, ◌>>=◌, length,
}
use statehouse.Model.Identity.{is_empty}
use statehouse.Strings.{Unicode, all_bytes}
use statehouse.Strings.Laws.{all_bytes_mono, all_bytes-append}
use statehouse.Origin.{
  Net, Checked, Triple, Rule, Policy, wildcard, is_scheme, split, validate_host, check_port,
  serialise, canonical_parts, check_parts, any_matches, answer, allow,
}
use statehouse.Origin.Hosts.{NetLaws, port_bytes, validate_host-Canonical}
use statehouse.Origin.Parts.{
  split-serialise, authority, is_authority_byte, authority_bytes, scheme_cases, serialise_lem,
}

split-is_scheme :
    (u : Unicode) (raw scheme host port : Str)
    → split u raw ≡ ok (scheme, host, port)
    → is_scheme scheme ≡ true
unfolding split
split-is_scheme u raw scheme host port h = ground arith

-- A letter of the scheme, "/", "*", or a byte of a host or port.
abbrev pub is_echo_byte : ℕ → Bool
is_echo_byte c = is_authority_byte c || c == b'/' || c == b'*'

module _ (net : Net) (u : Unicode) where
  check_parts_inv :
      (scheme host port : Str) (t : Triple)
      → check_parts net (scheme, host, port) ≡ ok t
      → (t.0 ≡ scheme)
        × (validate_host net host ≡ ok t.1)
        × (t.2 ≡ port)
        × (check_port port ≡ ok tt)
  unfolding check_parts
  check_parts_inv scheme host port t h = ground arith

  canonical_parts_inv :
      (r : Checked Triple) (t : Triple)
      → (r >>= check_parts net) ≡ ok t
      → (host : Str) × (r ≡ ok (t.0, host, t.2))
        × (validate_host net host ≡ ok t.1)
        × (check_port t.2 ≡ ok tt)
  canonical_parts_inv (err e) t h = cc
  canonical_parts_inv (ok (scheme, host, port)) t h =
      let (s, v, p, c) = check_parts_inv scheme host port t h in (host, cc, v, rw p c)

  pub answer_inv :
      (rules : List Rule) (r : Checked Triple) (v : Str)
      → answer net u rules r ≡ some v
      → (t : Triple) × (r ≡ ok t)
        × (any_matches rules t.0 t.1 t.2 ≡ true)
        × (serialise t.0 t.1 t.2 ≡ v)
  answer_inv rules (err e) v h = cc
  answer_inv rules (ok (scheme, host, port)) v h =
      ((scheme, host, port), refl, ground arith, ground arith)

  -- What an echoed value comes from.
  pub allow_inv :
      (p : Policy) (o v : Str)
      → allow net u p o ≡ some v
      → ((p.allow_all ≡ true) × (v ≡ wildcard))
        ⊎ ((p.allow_all ≡ false)
            × (ltb 0 (length p.rules) ≡ true)
            × (answer net u p.rules (canonical_parts net u o) ≡ some v))
  unfolding allow
  allow_inv p o v h = ground arith

  module _ (laws : NetLaws net) where
    -- The canonical parts of an origin print to a text that has the same canonical parts.
    pub canonical_parts-serialise :
        (o scheme host port : Str)
        → canonical_parts net u o ≡ ok (scheme, host, port)
        → canonical_parts net u (serialise scheme host port) ≡ ok (scheme, host, port)
    unfolding canonical_parts check_parts
    canonical_parts-serialise o scheme host port h =
        let (raw, splits, valid, checked) =
          canonical_parts_inv (split u o) (scheme, host, port) h in
        let (canonical, again) = validate_host-Canonical net laws raw host valid in
        rw
          (split-serialise net u scheme host port (split-is_scheme u o scheme raw port splits)
            canonical (port_bytes port checked))
          (rw (again, checked) refl)

    serialise_nonempty : (scheme host port : Str) → is_empty (serialise scheme host port) ≡ false
    unfolding serialise
    serialise_nonempty [] host port = ground arith
    serialise_nonempty (c ∷ scheme) host port = ground arith

    listed_again :
        (p : Policy) (t : Triple)
        → p.allow_all ≡ false
        → ltb 0 (length p.rules) ≡ true
        → any_matches p.rules t.0 t.1 t.2 ≡ true
        → canonical_parts net u (serialise t.0 t.1 t.2) ≡ ok t
        → allow net u p (serialise t.0 t.1 t.2) ≡ some (serialise t.0 t.1 t.2)
    unfolding allow
    listed_again p (scheme, host, port) closed listed matched again =
        rw (serialise_nonempty scheme host port, closed, listed, again, matched) refl

    -- What is echoed for an origin is echoed for itself: it is the form that a browser compares.
    pub allow_again : (p : Policy) (o v : Str) → allow net u p o ≡ some v → allow net u p v ≡ some v
    unfolding allow
    allow_again p o v h = elim (allow_inv p o v h) [
      | inl (all, e) ↦ rw e (rw all refl)
      | inr (closed, listed, answered) ↦
          let (t, parts, matched, printed) =
            answer_inv p.rules (canonical_parts net u o) v answered in
          rw (← printed)
            (listed_again p t closed listed matched (canonical_parts-serialise o t.0 t.1 t.2 parts))
    ]

    scheme_bytes : (s : Str) → is_scheme s ≡ true → all_bytes is_echo_byte s ≡ true
    unfolding all_bytes
    scheme_bytes s h = elim (scheme_cases s h) [ inl e ↦ rw e refl | inr e ↦ rw e refl ]

    serialise_bytes :
        (o scheme host port : Str)
        → canonical_parts net u o ≡ ok (scheme, host, port)
        → all_bytes is_echo_byte (serialise scheme host port) ≡ true
    unfolding canonical_parts all_bytes
    serialise_bytes o scheme host port h =
        let (raw, splits, valid, checked) =
          canonical_parts_inv (split u o) (scheme, host, port) h in
        let (canonical, again) = validate_host-Canonical net laws raw host valid in
        let rest = (authority_bytes net host port canonical (port_bytes port checked)).0 in
        let wider =
          all_bytes_mono is_authority_byte is_echo_byte (authority host port) (λ c e. ground arith)
            rest in
        rw (serialise_lem) (
          ground (
            arith,
            all_bytes-append is_echo_byte scheme (str "://" ++ authority host port),
            scheme_bytes scheme (split-is_scheme u o scheme raw port splits),
          ))

    -- A value that is echoed into a response header consists of lower-case letters, digits and the
    -- bytes "-", ".", ":", "/", "[", "]" and "*", whatever the request's header holds.
    pub allow_bytes :
        (p : Policy) (o v : Str) → allow net u p o ≡ some v → all_bytes is_echo_byte v ≡ true
    unfolding all_bytes
    allow_bytes p o v h = elim (allow_inv p o v h) [
      | inl (all, e) ↦ rw e refl
      | inr (closed, listed, answered) ↦
          let (t, parts, matched, printed) =
            answer_inv p.rules (canonical_parts net u o) v answered in
          rw (← printed) (serialise_bytes o t.0 t.1 t.2 parts)
    ]
