-- ===== src/Origin/Patterns.antt =====
-- What one entry of an allowlist covers, and the rule that it compiles to (compileRule in
-- internal/origin/origin.go).
use statehouse.Prelude.{
  Bool, true, false, not, ◌||◌, ◌≡◌, refl, sym, ap, ◌∙◌, subst, arith, Option, some, none, [], ◌++◌,
  leb, ◌⊎◌, inl, inr, Str, str, str_eq, str_eq→eq, ok, bind-eq-ok, guard-eq-ok, is_some,
}
use statehouse.Model.Identity.{is_empty}
use statehouse.Strings.{Unicode, trim_space, cut_prefix, count_byte}
use statehouse.Origin.{
  Net, Checked, Triple, Rule, bad_wildcard, wildcard_over_ip, too_broad, admits_every_origin,
  wildcard, split, validate_host, compile_host, compile_port, compile_rule,
}
use statehouse.Origin.Rules.{cut_prefix_sound}

-- The port that an entry names, or any where it has the wildcard.
abbrev pub PortNamed : Str → Str → Type 0
PortNamed named port = (named ≡ wildcard) ⊎ (named ≡ port)

-- An entry covers the parts of an origin. The scheme is the entry's, and so is the port unless the
-- entry leaves it open. The host is the entry's own, or has at least one byte and a dot before a
-- parent that the entry names behind its "*.": no address, and a host of at least two labels.
pub data Covers (net : Net) (u : Unicode) (raw : Str) (t : Triple) : Type 0 where
  exact :
      (host named : Str)
      → split u (trim_space u raw) ≡ ok (t.0, host, named)
      → validate_host net host ≡ ok t.1
      → PortNamed named t.2
      → Covers net u raw t
  subdomain :
      (sub parent canonical named : Str)
      → split u (trim_space u raw) ≡ ok (t.0, str "*." ++ parent, named)
      → is_some (net.parse_ip parent) ≡ false
      → validate_host net parent ≡ ok canonical
      → leb 1 (count_byte b'.' canonical) ≡ true
      → is_empty sub ≡ false
      → t.1 ≡ sub ++ (str "." ++ canonical)
      → PortNamed named t.2
      → Covers net u raw t

abbrev pub HostKept : Net → Str → Rule → Type 0
HostKept net host r =
    ((is_empty r.suffix ≡ true) × (validate_host net host ≡ ok r.host))
    ⊎ ((parent canonical : Str) × (host ≡ str "*." ++ parent)
        × (is_some (net.parse_ip parent) ≡ false)
        × (validate_host net parent ≡ ok canonical)
        × (leb 1 (count_byte b'.' canonical) ≡ true)
        × (r.suffix ≡ str "." ++ canonical))

abbrev pub PortKept : Str → Rule → Type 0
PortKept named r =
    ((named ≡ wildcard) × (r.any_port ≡ true))
    ⊎ ((r.any_port ≡ false) × (r.port ≡ named) × (str_eq named wildcard ≡ false))

pub named_port :
    (r : Rule) (named port : Str)
    → PortKept named r
    → (r.any_port ≡ true) ⊎ (r.port ≡ port)
    → PortNamed named port
named_port r named port (inl (star, _)) h = inl star
named_port r named port (inr (closed, same, _)) (inl any) = absurd (ground arith)
named_port r named port (inr (closed, same, _)) (inr e) = inr (sym same ∙ e)

-- What the host and the port of an entry make of the rule.
pub record IsRule (net : Net) (host named : Str) (r : Rule) : Type 0 where
  pub port_kept : PortKept named r
  pub host_kept : HostKept net host r

module _ (net : Net) where
  compile_port_inv :
      (scheme port : Str) (r : Rule)
      → compile_port net scheme port ≡ ok r
      → (r.scheme ≡ scheme) × (r.suffix ≡ []) × PortKept port r
  unfolding compile_port
  compile_port_inv scheme port r h = ground (arith, str_eq→eq port wildcard)

  exact_fields :
      (r r' : Rule) (host c : Str)
      → validate_host net host ≡ ok c
      → ◌≡◌ {A = Checked Rule} (ok (record r { host = c })) (ok r')
      → (validate_host net host ≡ ok r'.host)
        × (r'.scheme ≡ r.scheme)
        × (r'.suffix ≡ r.suffix)
        × (r'.any_port ≡ r.any_port)
        × (r'.port ≡ r.port)
  exact_fields r r' host c v e = ground arith

  wildcard_fields :
      (r r' : Rule) (suffix : Str)
      → ◌≡◌ {A = Checked Rule} (ok (record r { suffix = suffix })) (ok r')
      → (r'.suffix ≡ suffix)
        × (r'.scheme ≡ r.scheme)
        × (r'.any_port ≡ r.any_port)
        × (r'.port ≡ r.port)
  wildcard_fields r r' suffix e = ground arith

  neither : (a b : Bool) → not (a || b) ≡ true → b ≡ false
  neither a b h = ground arith

  compile_exact_inv :
      (r r' : Rule) (host : Str)
      → compile_host net r host none ≡ ok r'
      → (validate_host net host ≡ ok r'.host)
        × (r'.scheme ≡ r.scheme)
        × (r'.suffix ≡ r.suffix)
        × (r'.any_port ≡ r.any_port)
        × (r'.port ≡ r.port)
  unfolding compile_host
  compile_exact_inv r r' host h =
      let (_, k) = guard-eq-ok _ bad_wildcard _ h in
      let (canonical, v, e) = bind-eq-ok (validate_host net host) _ k in
      exact_fields r r' host canonical v e

  compile_wildcard_inv :
      (r r' : Rule) (host parent : Str)
      → compile_host net r host (some parent) ≡ ok r'
      → (canonical : Str) × (is_some (net.parse_ip parent) ≡ false)
        × (validate_host net parent ≡ ok canonical)
        × (leb 1 (count_byte b'.' canonical) ≡ true)
        × (r'.suffix ≡ str "." ++ canonical)
        × (r'.scheme ≡ r.scheme)
        × (r'.any_port ≡ r.any_port)
        × (r'.port ≡ r.port)
  unfolding compile_host
  compile_wildcard_inv r r' host parent h =
      let (_, k) = guard-eq-ok _ bad_wildcard _ h in
      let (plain, k₂) = guard-eq-ok _ wildcard_over_ip _ k in
      let (canonical, v, k₃) = bind-eq-ok (validate_host net parent) _ k₂ in
      let (narrow, e) = guard-eq-ok _ too_broad _ k₃ in
      let (suffix, scheme, any, port) = wildcard_fields r r' (str "." ++ canonical) e in
      (canonical, neither _ _ plain, v, narrow, suffix, scheme, any, port)

  compile_host-IsRule :
      (scheme host named : Str) (r r' : Rule) (o : Option Str)
      → cut_prefix (str "*.") host ≡ o
      → compile_port net scheme named ≡ ok r
      → compile_host net r host o ≡ ok r'
      → (r'.scheme ≡ scheme) × IsRule net host named r'
  compile_host-IsRule scheme host named r r' none c h k =
      let (s, suffix, port) = compile_port_inv scheme named r h in
      let (valid, s', suffix', any', port') = compile_exact_inv r r' host k in
      (
        s' ∙ s,
        record {
          port_kept = ground arith;
          host_kept = inl (ap is_empty (suffix' ∙ suffix), valid);
        },
      )
  compile_host-IsRule scheme host named r r' (some parent) c h k =
      let (s, suffix, port) = compile_port_inv scheme named r h in
      let (canonical, plain, valid, narrow, dot, s', any', port') =
        compile_wildcard_inv r r' host parent k in
      (
        s' ∙ s,
        record {
          port_kept = ground arith;
          host_kept = inr (
            parent,
            canonical,
            cut_prefix_sound (str "*.") host parent c,
            plain,
            valid,
            narrow,
            dot,
          );
        },
      )

  module _ (u : Unicode) where
    pub compile_rule-IsRule :
        (raw : Str) (r : Rule)
        → compile_rule net u raw ≡ ok r
        → (host named : Str) × (split u raw ≡ ok (r.scheme, host, named)) × IsRule net host named r
    unfolding compile_rule
    compile_rule-IsRule raw r h =
        let ((scheme, host, named), parts, k) = bind-eq-ok (split u raw) _ h in
        let (r', ports, k₂) = bind-eq-ok (compile_port net scheme named) _ k in
        let (_, k₃) = guard-eq-ok _ admits_every_origin _ k₂ in
        let (s, rule) = compile_host-IsRule scheme host named r' r _ refl ports k₃ in
        (host, named, subst (λ x. split u raw ≡ ok (x, host, named)) (sym s) parts, rule)
