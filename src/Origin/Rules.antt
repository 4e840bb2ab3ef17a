-- ===== src/Origin/Rules.antt =====
-- What a rule that matches an origin says of it (match in internal/origin/origin.go).
use mathlib.Core.List.{reverse, reverse-append, reverse-reverse}
use statehouse.Prelude.{
  true, false, ◌≡◌, refl, sym, ap, ◌∙◌, arith, some, [], ◌∷◌, ◌++◌, ltb, ◌⊎◌, inl, inr, Str,
  str_eq→eq, length, Option-cases,
}
use statehouse.Model.Identity.{is_empty}
use statehouse.Strings.{cut_prefix, cut_suffix, has_suffix}
use statehouse.Origin.{Rule, matches}

pub cut_prefix_sound : (p s rest : Str) → cut_prefix p s ≡ some rest → s ≡ p ++ rest
unfolding cut_prefix
cut_prefix_sound [] s rest h = ground arith
cut_prefix_sound (c ∷ p) [] rest h = cc
cut_prefix_sound (c ∷ p) (d ∷ s) rest h = ground (arith, cut_prefix_sound p s rest)

cut_suffix_sound : (p s rest : Str) → cut_suffix p s ≡ some rest → s ≡ rest ++ p
unfolding cut_suffix
cut_suffix_sound p s rest h = elim (Option-cases (cut_prefix (reverse p) (reverse s))) [
  | inl e ↦ ground arith
  | inr (back, e) ↦
      let whole = cut_prefix_sound (reverse p) (reverse s) back e in
      let same : reverse back ≡ rest = ground arith in
      sym (reverse-reverse s)
      ∙ ap reverse whole
      ∙ reverse-append (reverse p) back
      ∙ rw (reverse-reverse p, same) refl
]

-- A text longer than its suffix has something before it.
pub before_suffix :
    (suffix host : Str)
    → ltb (length suffix) (length host) ≡ true
    → has_suffix suffix host ≡ true
    → (sub : Str) × (is_empty sub ≡ false) × (host ≡ sub ++ suffix)
unfolding has_suffix
before_suffix suffix host longer ends = elim (Option-cases (cut_suffix suffix host)) [
  | inl e ↦ ground arith
  | inr ([], e) ↦
      let same = cut_suffix_sound suffix host [] e in absurd (ground (arith, ap length same))
  | inr (c ∷ sub, e) ↦ (c ∷ sub, refl, cut_suffix_sound suffix host (c ∷ sub) e)
]

-- Scheme and port are the rule's, and the host is the rule's or ends in its suffix.
pub matches_facts :
    (r : Rule) (scheme host port : Str)
    → matches r scheme host port ≡ true
    → (r.scheme ≡ scheme)
      × ((r.any_port ≡ true) ⊎ (r.port ≡ port))
      × (((is_empty r.suffix ≡ true) × (r.host ≡ host))
          ⊎ ((is_empty r.suffix ≡ false)
              × (ltb (length r.suffix) (length host) ≡ true)
              × (has_suffix r.suffix host ≡ true)))
unfolding matches
matches_facts r scheme host port h =
    ground (arith, str_eq→eq r.scheme scheme, str_eq→eq r.port port, str_eq→eq r.host host)
