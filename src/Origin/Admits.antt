-- ===== src/Origin/Admits.antt =====
-- What an allowlist covers is answered (Compile, match and Allow in internal/origin/origin.go).
use statehouse.Prelude.{
  true, false, ◌≡◌, refl, arith, some, none, List, [], ◌∷◌, ◌++◌, ltb, length, inl, inr, Str, ok,
  err, Bool-cases, Option-cases, if◌then◌else◌,
}
use statehouse.Model.Identity.{is_empty}
use statehouse.Strings.{Unicode, trim_space, cut, cut_prefix}
use statehouse.Origin.{
  Net, Checked, Triple, Rule, Policy, no_policy, empty_entry, wildcard, split, compile_rule,
  compile_entry, compile_from, compile, add_rule, serialise, canonical_parts, matches, any_matches,
  allow,
}
use statehouse.Origin.Patterns.{Covers, exact, subdomain}
use statehouse.Origin.Matching.{Covers-matches}
use statehouse.Origin.Allowlist.{Covered, compile_entry_cases}

module _ (net : Net) (u : Unicode) where
  any_matches-kept :
      (rs : List Rule) (r : Rule) (t : Triple)
      → any_matches rs t.0 t.1 t.2 ≡ true
      → any_matches (rs ++ (r ∷ [])) t.0 t.1 t.2 ≡ true
  any_matches-kept [] r t h = cc
  any_matches-kept (x ∷ rs) r t h = ground (arith, any_matches-kept rs r t)

  any_matches-last :
      (rs : List Rule) (r : Rule) (t : Triple)
      → matches r t.0 t.1 t.2 ≡ true
      → any_matches (rs ++ (r ∷ [])) t.0 t.1 t.2 ≡ true
  any_matches-last [] r t h = ground arith
  any_matches-last (x ∷ rs) r t h = ground (arith, any_matches-last rs r t h)

  add_rule-kept :
      (p : Policy) (c : Checked Rule) (t : Triple)
      → (add_rule p c).1 ≡ none
      → any_matches p.rules t.0 t.1 t.2 ≡ true
      → any_matches (add_rule p c).0.rules t.0 t.1 t.2 ≡ true
  add_rule-kept p (err e) t h m = cc
  add_rule-kept p (ok r) t h m = any_matches-kept p.rules r t m

  add_rule-new :
      (p : Policy) (raw : Str) (c : Checked Rule) (t : Triple)
      → compile_rule net u (trim_space u raw) ≡ c
      → (add_rule p c).1 ≡ none
      → Covers net u raw t
      → any_matches (add_rule p c).0.rules t.0 t.1 t.2 ≡ true
  add_rule-new p raw (err e) t h n covers = cc
  add_rule-new p raw (ok r) t h n covers =
      any_matches-last p.rules r t (Covers-matches net u raw r t h covers)

  compile_entry-kept :
      (p : Policy) (raw : Str) (t : Triple)
      → (compile_entry net u p raw).1 ≡ none
      → any_matches p.rules t.0 t.1 t.2 ≡ true
      → any_matches (compile_entry net u p raw).0.rules t.0 t.1 t.2 ≡ true
  compile_entry-kept p raw t n m = elim (compile_entry_cases net u p raw) [
    | inl e ↦ let wrong : some empty_entry ≡ none = rw e at n in cc
    | inr (inl (_, e)) ↦ rw e m
    | inr (inr e) ↦ rw e (add_rule-kept p _ t (rw e at n) m)
  ]

  -- The wildcard is not an origin.
  split_star : (s : Str) (t : Triple) → s ≡ wildcard → split u s ≡ ok t → ⊥
  unfolding split cut cut_prefix
  split_star s t star h = let wrong : split u wildcard ≡ ok t = rw star at h in ground arith

  Covers-no_star : (raw : Str) (t : Triple) → Covers net u raw t → trim_space u raw ≡ wildcard → ⊥
  Covers-no_star raw t (exact _ _ parts _ _) star = split_star _ _ star parts
  Covers-no_star raw t (subdomain _ _ _ _ parts _ _ _ _ _ _) star = split_star _ _ star parts

  compile_entry-new :
      (p : Policy) (raw : Str) (t : Triple)
      → (compile_entry net u p raw).1 ≡ none
      → Covers net u raw t
      → any_matches (compile_entry net u p raw).0.rules t.0 t.1 t.2 ≡ true
  compile_entry-new p raw t n covers = elim (compile_entry_cases net u p raw) [
    | inl e ↦ let wrong : some empty_entry ≡ none = rw e at n in cc
    | inr (inl (star, e)) ↦ absurd (Covers-no_star raw t covers star)
    | inr (inr e) ↦ rw e (add_rule-new p raw _ t refl (rw e at n) covers)
  ]

  -- Where the rest of an allowlist compiles, so does its first entry.
  compile_from-none :
      (p : Policy) (raw : Str) (rest : List Str)
      → (compile_from net u p (raw ∷ rest)).1 ≡ none
      → ((compile_entry net u p raw).1 ≡ none)
        × (compile_from net u p (raw ∷ rest)
            ≡ compile_from net u (compile_entry net u p raw).0 rest)
  unfolding compile_from
  compile_from-none p raw rest n = elim (Option-cases (compile_entry net u p raw).1) [
    | inl e ↦ (e, rw e refl)
    | inr (e, h) ↦ let wrong : some e ≡ none = rw h at n in cc
  ]

  compile_from-kept :
      (p : Policy) (patterns : List Str) (t : Triple)
      → (compile_from net u p patterns).1 ≡ none
      → any_matches p.rules t.0 t.1 t.2 ≡ true
      → any_matches (compile_from net u p patterns).0.rules t.0 t.1 t.2 ≡ true
  compile_from-kept p [] t n m = unfold compile_from in m
  compile_from-kept p (raw ∷ rest) t n m =
      let (now, e) = compile_from-none p raw rest n in
      rw e (
        compile_from-kept (compile_entry net u p raw).0 rest t (rw e at n)
          (compile_entry-kept p raw t now m))

  compile_from-new :
      (p : Policy) (patterns : List Str) (t : Triple)
      → (compile_from net u p patterns).1 ≡ none
      → Covered net u patterns t
      → any_matches (compile_from net u p patterns).0.rules t.0 t.1 t.2 ≡ true
  compile_from-new p [] t n covered = elim covered [ ]
  compile_from-new p (raw ∷ rest) t n (inl covers) =
      let (now, e) = compile_from-none p raw rest n in
      rw e (
        compile_from-kept (compile_entry net u p raw).0 rest t (rw e at n)
          (compile_entry-new p raw t now covers))
  compile_from-new p (raw ∷ rest) t n (inr later) =
      let (_, e) = compile_from-none p raw rest n in
      rw e (compile_from-new (compile_entry net u p raw).0 rest t (rw e at n) later)

  some_rule :
      (rs : List Rule) (t : Triple) → any_matches rs t.0 t.1 t.2 ≡ true → ltb 0 (length rs) ≡ true
  some_rule [] t h = cc
  some_rule (r ∷ rs) t h = ground arith

  some_origin : (o : Str) (t : Triple) → canonical_parts net u o ≡ ok t → is_empty o ≡ false
  unfolding canonical_parts split cut cut_prefix
  some_origin [] t h = ground arith
  some_origin (c ∷ o) t h = refl

  answered :
      (p : Policy) (o : Str) (t : Triple)
      → canonical_parts net u o ≡ ok t
      → any_matches p.rules t.0 t.1 t.2 ≡ true
      → allow net u p o ≡ some (if p.allow_all then wildcard else serialise t.0 t.1 t.2)
  unfolding allow
  answered p o t parts matched =
      rw (some_origin o t parts, some_rule p.rules t matched, parts, matched)
        (elim (Bool-cases p.allow_all) [ inl y ↦ rw y refl | inr n ↦ rw n refl ])

  -- Where an allowlist compiles without an error, each origin whose canonical parts one of its
  -- entries covers is answered: with these parts, printed, or, under the wildcard entry, with the
  -- wildcard.
  pub Covered-allow :
      (patterns : List Str) (o : Str) (t : Triple)
      → (compile net u patterns).1 ≡ none
      → canonical_parts net u o ≡ ok t
      → Covered net u patterns t
      → allow net u (compile net u patterns).0 o
        ≡ some (if (compile net u patterns).0.allow_all then wildcard else serialise t.0 t.1 t.2)
  unfolding compile
  Covered-allow patterns o t n parts covered =
      answered (compile net u patterns).0 o t parts
        (compile_from-new no_policy patterns t n covered)
