-- ===== src/Origin/Matching.antt =====
-- The rule of an entry matches what the entry covers (compileRule and match in
-- internal/origin/origin.go).
use statehouse.Prelude.{
  true, false, ◌≡◌, refl, sym, ap, ◌∙◌, arith, [], ◌∷◌, ◌++◌, ltb, length, length-append, subst,
  ◌⊎◌, inl, inr, Str, str, str_eq, str_eq_refl, ok, err,
}
use statehouse.Model.Identity.{is_empty}
use statehouse.Strings.{Unicode, trim_space, cut_prefix, has_suffix, split_byte, all_bytes}
use statehouse.Strings.Laws.{cut_suffix_append}
use statehouse.Origin.{
  Net, Checked, Triple, Rule, wildcard, validate_host, validate_literal, is_label, all_labels,
  compile_rule, matches,
}
use statehouse.Origin.Patterns.{
  Covers, exact, subdomain, PortNamed, HostKept, PortKept, compile_rule-IsRule,
}

-- No host begins with a wildcard label.
star_refused : (net : Net) (parent c : Str) → validate_host net (str "*." ++ parent) ≡ ok c → ⊥
unfolding validate_host validate_literal cut_prefix split_byte all_labels is_label all_bytes
star_refused net parent c h = ground arith

-- A proper subdomain ends in what its parent's suffix is.
longer :
    (sub suffix : Str) → is_empty sub ≡ false → ltb (length suffix) (length (sub ++ suffix)) ≡ true
longer [] suffix h = cc
longer (c ∷ sub) suffix h = ground (arith, length-append sub suffix)

ends_in : (sub suffix : Str) → has_suffix suffix (sub ++ suffix) ≡ true
unfolding has_suffix
ends_in sub suffix = rw (cut_suffix_append suffix sub) refl

eq→str_eq : (s t : Str) → s ≡ t → str_eq s t ≡ true
eq→str_eq s t e = ap (str_eq s) (sym e) ∙ str_eq_refl s

port_matches :
    (r : Rule) (named port : Str)
    → PortKept named r
    → PortNamed named port
    → (r.any_port ≡ true) ⊎ (r.port ≡ port)
port_matches r named port (inl (_, any)) covered = inl any
port_matches r named port (inr (_, same, fixed)) (inl star) =
    absurd (ground (arith, eq→str_eq named wildcard star))
port_matches r named port (inr (_, same, fixed)) (inr e) = inr (same ∙ e)

matches_exact :
    (r : Rule) (scheme host port : Str)
    → r.scheme ≡ scheme
    → (r.any_port ≡ true) ⊎ (r.port ≡ port)
    → is_empty r.suffix ≡ true
    → r.host ≡ host
    → matches r scheme host port ≡ true
unfolding matches
matches_exact r scheme host port s p e h =
    ground (arith, eq→str_eq r.scheme scheme s, eq→str_eq r.port port, eq→str_eq r.host host h)

matches_subdomain :
    (r : Rule) (scheme host port : Str)
    → r.scheme ≡ scheme
    → (r.any_port ≡ true) ⊎ (r.port ≡ port)
    → is_empty r.suffix ≡ false
    → ltb (length r.suffix) (length host) ≡ true
    → has_suffix r.suffix host ≡ true
    → matches r scheme host port ≡ true
unfolding matches
matches_subdomain r scheme host port s p e l h =
    ground (arith, eq→str_eq r.scheme scheme s, eq→str_eq r.port port)

same_parts :
    (o : Checked Triple) (s s' h h' n n' : Str)
    → o ≡ ok (s, h, n)
    → o ≡ ok (s', h', n')
    → (s ≡ s') × (h ≡ h') × (n ≡ n')
same_parts (err e) s s' h h' n n' p q = cc
same_parts (ok t) s s' h h' n n' p q = ground arith

module _ (net : Net) (r : Rule) (t : Triple) where
  exact_matches :
      (host : Str)
      → r.scheme ≡ t.0
      → (r.any_port ≡ true) ⊎ (r.port ≡ t.2)
      → validate_host net host ≡ ok t.1
      → HostKept net host r
      → matches r t.0 t.1 t.2 ≡ true
  exact_matches host s p valid (inl (empty, valid')) =
      matches_exact r t.0 t.1 t.2 s p empty (ground arith)
  exact_matches host s p valid (inr (parent, canonical, below, _, _, _, _)) =
      absurd (star_refused net parent t.1 (rw below at valid))

  subdomain_matches :
      (sub parent canonical : Str)
      → r.scheme ≡ t.0
      → (r.any_port ≡ true) ⊎ (r.port ≡ t.2)
      → validate_host net parent ≡ ok canonical
      → is_empty sub ≡ false
      → t.1 ≡ sub ++ (str "." ++ canonical)
      → HostKept net (str "*." ++ parent) r
      → matches r t.0 t.1 t.2 ≡ true
  subdomain_matches sub parent canonical s p valid present whole (inl (_, refused)) =
      absurd (star_refused net parent r.host refused)
  subdomain_matches sub parent canonical s p valid present whole
        (inr (parent', canonical', below, _, valid', _, dot)) =
      let suffix : r.suffix ≡ str "." ++ canonical = ground arith in
      let host : t.1 ≡ sub ++ r.suffix = whole ∙ ap (λ d. sub ++ d) (sym suffix) in
      matches_subdomain r t.0 t.1 t.2 s p (ap is_empty suffix)
        (rw host (longer sub r.suffix present)) (rw host (ends_in sub r.suffix))

module _ (net : Net) (u : Unicode) where
  pub Covers-matches :
      (raw : Str) (r : Rule) (t : Triple)
      → compile_rule net u (trim_space u raw) ≡ ok r
      → Covers net u raw t
      → matches r t.0 t.1 t.2 ≡ true
  Covers-matches raw r t h (exact host named parts valid port) =
      let (host', named', parts', rule) = compile_rule-IsRule net u (trim_space u raw) r h in
      let (s, h', n) = same_parts _ r.scheme t.0 host' host named' named parts' parts in
      exact_matches net r t host s
        (port_matches r named t.2 (subst (λ x. PortKept x r) n rule.port_kept) port) valid
        (subst (λ x. HostKept net x r) h' rule.host_kept)
  Covers-matches raw r t h
        (subdomain sub parent canonical named parts plain valid narrow present whole port) =
      let (host', named', parts', rule) = compile_rule-IsRule net u (trim_space u raw) r h in
      let (s, h', n) =
        same_parts _ r.scheme t.0 host' (str "*." ++ parent) named' named parts' parts in
      subdomain_matches net r t sub parent canonical s
        (port_matches r named t.2 (subst (λ x. PortKept x r) n rule.port_kept) port) valid present
        whole (subst (λ x. HostKept net x r) h' rule.host_kept)
