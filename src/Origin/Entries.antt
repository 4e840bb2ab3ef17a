-- ===== src/Origin/Entries.antt =====
-- The compilation of an allowlist, entry by entry (Compile in internal/origin/origin.go).
use statehouse.Prelude.{
  false, ◌≡◌, refl, ap, arith, Option, some, none, List, [], ◌∷◌, ◌⊎◌, inl, inr, Str, str_eq, ok,
  err, All, Bool-cases,
}
use statehouse.Model.Identity.{is_empty}
use statehouse.Strings.{Unicode, trim_space}
use statehouse.Origin.{
  Net, Checked, Rule, Policy, OriginError, empty_entry, no_policy, wildcard, compile_rule,
  compile_entry, compile_from, compile, allow,
}

module _ (net : Net) (u : Unicode) where
  -- The verdict on one entry by itself.
  abbrev pub verdict : Str → Option OriginError
  verdict raw = (compile_entry net u no_policy raw).1

  -- An entry's verdict does not depend on the policy so far, which is dropped at an error.
  Agrees : Policy → Str → Type 0
  Agrees p raw =
      ((verdict raw ≡ none) × ((compile_entry net u p raw).1 ≡ none))
      ⊎ ((e : OriginError) × (verdict raw ≡ some e)
          × (compile_entry net u p raw ≡ (no_policy, some e)))

  rule_verdict :
      (p : Policy) (raw : Str) (c : Checked Rule)
      → compile_rule net u (trim_space u raw) ≡ c
      → is_empty (trim_space u raw) ≡ false
      → str_eq (trim_space u raw) wildcard ≡ false
      → Agrees p raw
  unfolding compile_entry Agrees
  rule_verdict p raw (ok r) h n w = inl (rw (verdict, n, w, h) refl, rw (n, w, h) refl)
  rule_verdict p raw (err e) h n w = inr (e, rw (verdict, n, w, h) refl, rw (n, w, h) refl)

  entry_verdict : (p : Policy) (raw : Str) → Agrees p raw
  unfolding compile_entry Agrees
  entry_verdict p raw = elim (Bool-cases (is_empty (trim_space u raw))) [
    | inl y ↦ inr (empty_entry, rw (verdict, y) refl, rw y refl)
    | inr n ↦ elim (Bool-cases (str_eq (trim_space u raw) wildcard)) [
      | inl y ↦ inl (rw (verdict, n, y) refl, rw (n, y) refl)
      | inr w ↦ rule_verdict p raw (compile_rule net u (trim_space u raw)) refl n w
    ]
  ]

  abbrev pub Accepted : Str → Type 0
  Accepted raw = verdict raw ≡ none

  -- The first entry that is refused is refused with `e`.
  abbrev pub FirstRefused : OriginError → List Str → Type 0
  FirstRefused e [] = ⊥
  FirstRefused e (raw ∷ rest) = (verdict raw ≡ some e) ⊎ (Accepted raw × FirstRefused e rest)

  -- How the compilation of the entries that are left may end.
  Ends : Policy → List Str → Type 0
  Ends p patterns =
      (((compile_from net u p patterns).1 ≡ none) × All Accepted patterns)
      ⊎ ((e : OriginError) × (compile_from net u p patterns ≡ (no_policy, some e))
          × FirstRefused e patterns)

  first-Accepted :
      (p : Policy) (raw : Str) (rest : List Str)
      → Accepted raw
      → (compile_entry net u p raw).1 ≡ none
      → Ends (compile_entry net u p raw).0 rest
      → Ends p (raw ∷ rest)
  unfolding compile_from Ends
  first-Accepted p raw rest a h (inl (e, all)) = inl (rw h e, (a, all))
  first-Accepted p raw rest a h (inr (e, f, refused)) = inr (e, rw h f, inr (a, refused))

  compile_from-Ends : (p : Policy) (patterns : List Str) → Ends p patterns
  unfolding compile_from Ends Agrees
  compile_from-Ends p [] = inl (refl, tt)
  compile_from-Ends p (raw ∷ rest) = elim (entry_verdict p raw) [
    | inl (v, h) ↦
        first-Accepted p raw rest v h (compile_from-Ends (compile_entry net u p raw).0 rest)
    | inr (e, v, h) ↦ inr (e, rw h refl, inl v)
  ]

  -- An allowlist compiles without an error if each of its entries does by itself. Otherwise the
  -- error is that of the first entry that does not, and the policy returned beside it refuses every
  -- origin, whatever entries were compiled before it.
  pub compile_outcome :
      (patterns : List Str)
      → (((compile net u patterns).1 ≡ none) × All Accepted patterns)
        ⊎ ((e : OriginError) × ((compile net u patterns).1 ≡ some e)
            × FirstRefused e patterns
            × ((o : Str) → allow net u (compile net u patterns).0 o ≡ none))
  unfolding compile allow Ends
  compile_outcome patterns = elim (compile_from-Ends no_policy patterns) [
    | inl done ↦ inl done
    | inr (e, h, refused) ↦ inr (e, ap (λ c. c.1) h, refused, λ o. rw h (ground arith))
  ]
