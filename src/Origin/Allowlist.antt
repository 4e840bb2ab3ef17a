-- ===== src/Origin/Allowlist.antt =====
-- Which entry of an allowlist admits an origin (Compile, compileRule and Allow in
-- internal/origin/origin.go).
use statehouse.Prelude.{
  true, false, ◌≡◌, refl, ap, ◌∙◌, arith, some, none, List, [], ◌∷◌, ◌++◌, ltb, length, ◌⊎◌, inl,
  inr, Str, str_eq, str_eq→eq, ok, err, Bool-cases, Option-cases,
}
use statehouse.Model.Identity.{is_empty}
use statehouse.Strings.{Unicode, trim_space, has_suffix}
use statehouse.Origin.{
  Net, Checked, Triple, Rule, Policy, empty_entry, no_policy, wildcard, split, compile_rule,
  compile_entry, compile_from, compile, add_rule, serialise, canonical_parts, matches, any_matches,
  allow,
}
use statehouse.Origin.Policies.{answer_inv, allow_inv}
use statehouse.Origin.Patterns.{
  Covers, exact, subdomain, PortNamed, HostKept, named_port, compile_rule-IsRule,
}
use statehouse.Origin.Rules.{before_suffix, matches_facts}

module _ (net : Net) (u : Unicode) where
  -- Some entry covers the parts.
  abbrev pub Covered : List Str → Triple → Type 0
  Covered [] t = ⊥
  Covered (raw ∷ rest) t = Covers net u raw t ⊎ Covered rest t

  -- Some entry is the wildcard.
  abbrev pub HasWildcard : List Str → Type 0
  HasWildcard [] = ⊥
  HasWildcard (raw ∷ rest) = (trim_space u raw ≡ wildcard) ⊎ HasWildcard rest

  rule-Covers :
      (raw : Str) (r : Rule) (t : Triple)
      → compile_rule net u (trim_space u raw) ≡ ok r
      → matches r t.0 t.1 t.2 ≡ true
      → Covers net u raw t
  rule-Covers raw r t h m =
      let (host, named, parts, rule) = compile_rule-IsRule net u (trim_space u raw) r h in
      let (scheme, port, ends) = matches_facts r t.0 t.1 t.2 m in
      hosts host named (rw (← scheme) parts) (named_port r named t.2 rule.port_kept port)
        rule.host_kept ends
    where
      hosts :
          (host named : Str)
          → split u (trim_space u raw) ≡ ok (t.0, host, named)
          → PortNamed named t.2
          → HostKept net host r
          → ((is_empty r.suffix ≡ true) × (r.host ≡ t.1))
            ⊎ ((is_empty r.suffix ≡ false)
                × (ltb (length r.suffix) (length t.1) ≡ true)
                × (has_suffix r.suffix t.1 ≡ true))
          → Covers net u raw t
      hosts host named parts port (inl (_, valid)) (inl (_, same)) =
          exact host named parts (rw (← same) valid) port
      hosts host named parts port (inl (empty, _)) (inr (present, _, _)) = absurd (ground arith)
      hosts host named parts port (inr (_, _, _, _, _, _, dot)) (inl (empty, _)) =
          absurd (ground (arith, ap is_empty dot))
      hosts host named parts port (inr (parent, canonical, below, plain, valid, narrow, dot))
            (inr (_, longer, ends)) =
          let (sub, present, whole) = before_suffix r.suffix t.1 longer ends in
          subdomain sub parent canonical named (rw (← below) parts) plain valid narrow present
            (whole ∙ ap (λ d. sub ++ d) dot) port

  any_matches-append :
      (rs : List Rule) (r : Rule) (t : Triple)
      → any_matches (rs ++ (r ∷ [])) t.0 t.1 t.2 ≡ true
      → (any_matches rs t.0 t.1 t.2 ≡ true) ⊎ (matches r t.0 t.1 t.2 ≡ true)
  any_matches-append [] r t h = ground arith
  any_matches-append (x ∷ rs) r t h = ground (arith, any_matches-append rs r t)

  add_rule-Covers :
      (p : Policy) (raw : Str) (c : Checked Rule) (t : Triple)
      → compile_rule net u (trim_space u raw) ≡ c
      → any_matches (add_rule p c).0.rules t.0 t.1 t.2 ≡ true
      → (any_matches p.rules t.0 t.1 t.2 ≡ true) ⊎ Covers net u raw t
  add_rule-Covers p raw (err e) t h m = cc
  add_rule-Covers p raw (ok r) t h m = elim (any_matches-append p.rules r t m) [
    | inl before ↦ inl before
    | inr new ↦ inr (rule-Covers raw r t h new)
  ]

  -- What a round leaves: nothing, the wildcard's policy, or one rule more.
  pub compile_entry_cases :
      (p : Policy) (raw : Str)
      → (compile_entry net u p raw ≡ (no_policy, some empty_entry))
        ⊎ ((trim_space u raw ≡ wildcard)
            × (compile_entry net u p raw ≡ (record p { allow_all = true }, none)))
        ⊎ (compile_entry net u p raw ≡ add_rule p (compile_rule net u (trim_space u raw)))
  unfolding compile_entry
  compile_entry_cases p raw = elim (Bool-cases (is_empty (trim_space u raw))) [
    | inl y ↦ inl (rw y refl)
    | inr n ↦ elim (Bool-cases (str_eq (trim_space u raw) wildcard)) [
      | inl y ↦ inr (inl (str_eq→eq (trim_space u raw) wildcard y, rw (n, y) refl))
      | inr w ↦ inr (inr (rw (n, w) refl))
    ]
  ]

  pub compile_from_cases :
      (p : Policy) (raw : Str) (rest : List Str)
      → (compile_from net u p (raw ∷ rest) ≡ compile_entry net u p raw)
        ⊎ (((compile_entry net u p raw).1 ≡ none)
            × (compile_from net u p (raw ∷ rest)
                ≡ compile_from net u (compile_entry net u p raw).0 rest))
  unfolding compile_from
  compile_from_cases p raw rest = elim (Option-cases (compile_entry net u p raw).1) [
    | inl n ↦ inr (n, rw n refl)
    | inr (e, h) ↦ inl (rw h refl)
  ]

  compile_entry-Covers :
      (p : Policy) (raw : Str) (t : Triple)
      → any_matches (compile_entry net u p raw).0.rules t.0 t.1 t.2 ≡ true
      → (any_matches p.rules t.0 t.1 t.2 ≡ true) ⊎ Covers net u raw t
  compile_entry-Covers p raw t m = elim (compile_entry_cases p raw) [
    | inl e ↦ let wrong : false ≡ true = rw e at m in cc
    | inr (inl (_, e)) ↦ inl (rw e at m)
    | inr (inr e) ↦ add_rule-Covers p raw _ t refl (rw e at m)
  ]

  compile_from-Covered :
      (p : Policy) (patterns : List Str) (t : Triple)
      → any_matches (compile_from net u p patterns).0.rules t.0 t.1 t.2 ≡ true
      → (any_matches p.rules t.0 t.1 t.2 ≡ true) ⊎ Covered patterns t
  compile_from-Covered p [] t m = inl (unfold compile_from in m)
  compile_from-Covered p (raw ∷ rest) t m = elim (compile_from_cases p raw rest) [
    | inl e ↦ first (rw e at m)
    | inr (_, e) ↦ elim (compile_from-Covered (compile_entry net u p raw).0 rest t (rw e at m)) [
      | inl now ↦ first now
      | inr later ↦ inr (inr later)
    ]
  ]
    where
      first :
          any_matches (compile_entry net u p raw).0.rules t.0 t.1 t.2 ≡ true
          → (any_matches p.rules t.0 t.1 t.2 ≡ true) ⊎ Covered (raw ∷ rest) t
      first now = elim (compile_entry-Covers p raw t now) [
        | inl before ↦ inl before
        | inr new ↦ inr (inl new)
      ]

  add_rule-allow_all :
      (p : Policy) (c : Checked Rule) → (add_rule p c).0.allow_all ≡ true → p.allow_all ≡ true
  add_rule-allow_all p (err e) h = cc
  add_rule-allow_all p (ok r) h = h

  compile_entry-HasWildcard :
      (p : Policy) (raw : Str)
      → (compile_entry net u p raw).0.allow_all ≡ true
      → (p.allow_all ≡ true) ⊎ (trim_space u raw ≡ wildcard)
  compile_entry-HasWildcard p raw m = elim (compile_entry_cases p raw) [
    | inl e ↦ let wrong : false ≡ true = rw e at m in cc
    | inr (inl (star, _)) ↦ inr star
    | inr (inr e) ↦ inl (add_rule-allow_all p _ (rw e at m))
  ]

  compile_from-HasWildcard :
      (p : Policy) (patterns : List Str)
      → (compile_from net u p patterns).0.allow_all ≡ true
      → (p.allow_all ≡ true) ⊎ HasWildcard patterns
  compile_from-HasWildcard p [] m = inl (unfold compile_from in m)
  compile_from-HasWildcard p (raw ∷ rest) m = elim (compile_from_cases p raw rest) [
    | inl e ↦ first (rw e at m)
    | inr (_, e) ↦ elim (compile_from-HasWildcard (compile_entry net u p raw).0 rest (rw e at m)) [
      | inl now ↦ first now
      | inr later ↦ inr (inr later)
    ]
  ]
    where
      first :
          (compile_entry net u p raw).0.allow_all ≡ true
          → (p.allow_all ≡ true) ⊎ HasWildcard (raw ∷ rest)
      first now = elim (compile_entry-HasWildcard p raw now) [
        | inl before ↦ inl before
        | inr star ↦ inr (inl star)
      ]

  -- What the policy of an allowlist answers comes from an entry, also where the error of the
  -- compilation is not looked at. Either an entry is the wildcard, and the answer is the wildcard,
  -- or the origin has canonical parts that an entry covers, and the answer is these parts, printed.
  -- An entry covers the parts if it has their scheme, their port or the wildcard port, and either
  -- their host or, behind its "*.", a parent of at least two labels that is no address and that
  -- the host ends in, behind a dot and at least one byte more.
  pub allow-Covered :
      (patterns : List Str) (o v : Str)
      → allow net u (compile net u patterns).0 o ≡ some v
      → (HasWildcard patterns × (v ≡ wildcard))
        ⊎ ((t : Triple) × (canonical_parts net u o ≡ ok t)
            × Covered patterns t
            × (serialise t.0 t.1 t.2 ≡ v))
  unfolding compile
  allow-Covered patterns o v h = elim (allow_inv net u (compile net u patterns).0 o v h) [
    | inl (all, e) ↦ elim (compile_from-HasWildcard no_policy patterns all) [
      | inl start ↦ cc
      | inr star ↦ inl (star, e)
    ]
    | inr (_, listed, answered) ↦
        let rules = (compile net u patterns).0.rules in
        let (t, parts, matched, printed) =
          answer_inv net u rules (canonical_parts net u o) v answered in
        elim (compile_from-Covered no_policy patterns t matched) [
          | inl start ↦ cc
          | inr covered ↦ inr (t, parts, covered, printed)
        ]
  ]
