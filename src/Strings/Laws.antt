-- ===== src/Strings/Laws.antt =====
-- Laws of the operations on strings.
use mathlib.Core.List.{reverse, reverse-append, reverse-reverse}
use statehouse.Prelude.{
  ℕ, Bool, true, false, not, ◌&&◌, ◌≡◌, refl, ap, arith, some, none, [], ◌∷◌, ◌++◌, ltb, leb, ◌==◌,
  Str,
}
use statehouse.Strings.{
  Unicode, is_ascii, lower_ascii, to_lower, cut_prefix, cut_suffix, cut, cut_last, contains_byte,
  contains_any, split_byte, all_bytes,
}

pub all_bytes-append :
    (p : ℕ → Bool) (s t : Str) → all_bytes p (s ++ t) ≡ (all_bytes p s && all_bytes p t)
unfolding all_bytes
all_bytes-append p [] t = refl
all_bytes-append p (c ∷ s) t = ground (arith, all_bytes-append p s t)

-- A weaker test passes too.
pub all_bytes_mono :
    (p q : ℕ → Bool) (s : Str)
    → ((c : ℕ) → p c ≡ true → q c ≡ true)
    → all_bytes p s ≡ true
    → all_bytes q s ≡ true
unfolding all_bytes
all_bytes_mono p q [] h a = refl
all_bytes_mono p q (c ∷ s) h a = ground (arith, h c, all_bytes_mono p q s h)

pub contains_any_none :
    (chars s : Str)
    → all_bytes (λ c. not (contains_byte c chars)) s ≡ true
    → contains_any chars s ≡ false
unfolding contains_any all_bytes
contains_any_none chars [] h = refl
contains_any_none chars (c ∷ s) h = ground (arith, contains_any_none chars s)

-- ASCII, and no capital letter.
abbrev pub is_lowered : ℕ → Bool
is_lowered c = ltb c 128 && not (leb b'A' c && leb c b'Z')

lower_fixed : (s : Str) → all_bytes is_lowered s ≡ true → (is_ascii s ≡ true) × (lower_ascii s ≡ s)
unfolding all_bytes is_ascii lower_ascii
lower_fixed [] h = (refl, refl)
lower_fixed (c ∷ s) h = ground (arith, lower_fixed s)

pub to_lower_fixed : (u : Unicode) (s : Str) → all_bytes is_lowered s ≡ true → to_lower u s ≡ s
unfolding to_lower
to_lower_fixed u s h = ground (arith, lower_fixed s)

-- The byte differs.
abbrev pub differs : ℕ → ℕ → Bool
differs b c = not (c == b)

pub cut_last-none : (b : ℕ) (s : Str) → all_bytes (differs b) s ≡ true → cut_last b s ≡ none
unfolding cut_last all_bytes
cut_last-none b [] h = refl
cut_last-none b (c ∷ s) h = ground (arith, cut_last-none b s)

pub cut_last_append :
    (b : ℕ) (s t : Str) → all_bytes (differs b) t ≡ true → cut_last b (s ++ (b ∷ t)) ≡ some (s, t)
unfolding cut_last
cut_last_append b [] t h = ground (arith, cut_last-none b t)
cut_last_append b (c ∷ s) t h = ground (arith, cut_last_append b s t)

pub cut_byte :
    (b : ℕ) (s t : Str) → all_bytes (differs b) s ≡ true → cut (b ∷ []) (s ++ (b ∷ t)) ≡ some (s, t)
unfolding cut cut_prefix all_bytes
cut_byte b [] t h = ground arith
cut_byte b (c ∷ s) t h = ground (arith, cut_byte b s t)

cut_prefix_append : (p s : Str) → cut_prefix p (p ++ s) ≡ some s
unfolding cut_prefix
cut_prefix_append [] s = refl
cut_prefix_append (c ∷ p) s = ground (arith, cut_prefix_append p s)

pub cut_suffix_append : (p s : Str) → cut_suffix p (s ++ p) ≡ some s
unfolding cut_suffix
cut_suffix_append p s =
    rw (reverse-append s p)
      (rw (cut_prefix_append (reverse p) (reverse s)) (ap some (reverse-reverse s)))

pub split_byte_none : (b : ℕ) (s : Str) → all_bytes (differs b) s ≡ true → split_byte b s ≡ s ∷ []
unfolding split_byte all_bytes
split_byte_none b [] h = refl
split_byte_none b (c ∷ s) h = ground (arith, split_byte_none b s)

pub split_byte_append :
    (b : ℕ) (s t : Str)
    → all_bytes (differs b) s ≡ true
    → split_byte b (s ++ (b ∷ t)) ≡ s ∷ split_byte b t
unfolding split_byte all_bytes
split_byte_append b [] t h = ground arith
split_byte_append b (c ∷ s) t h = ground (arith, split_byte_append b s t)
