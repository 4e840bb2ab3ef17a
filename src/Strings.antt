-- ===== src/Strings.antt =====
-- What the program uses of Go's `strings` package. Where a text has a byte above 127, `ToLower`,
-- `TrimSpace` and `Fields` go by the Unicode tables, which are a parameter; ASCII texts take the paths below.
pub mod Laws
use mathlib.Core.List.{reverse}
use mathlib.Core.Option
use statehouse.Prelude.{
  ℕ, ◌+◌, Bool, true, false, not, ◌&&◌, ◌||◌, Option, none, some, List, [], ◌∷◌, map, ltb, leb,
  ◌==◌, if◌then◌else◌, is_some, Str, suc,
}

-- `unicode.ToLower` over the runes of a text, the removal of Unicode space at both ends, and how many
-- fields Unicode space leaves.
pub record Unicode : Type 0 where
  pub lower : Str → Str
  pub trim : Str → Str
  pub count_fields : Str → ℕ

unfoldable pub is_ascii : Str → Bool
is_ascii [] = true
is_ascii (c ∷ s) = ltb c 128 && is_ascii s

abbrev pub lower_byte : ℕ → ℕ
lower_byte c = if leb b'A' c && leb c b'Z' then c + 32 else c

unfoldable pub lower_ascii : Str → Str
lower_ascii [] = []
lower_ascii (c ∷ s) = lower_byte c ∷ lower_ascii s

unfoldable pub to_lower : Unicode → Str → Str
to_lower u s = if is_ascii s then lower_ascii s else u.lower s

-- Tab, line feed, vertical tab, form feed, carriage return and space.
abbrev pub is_space : ℕ → Bool
is_space c = (leb 9 c && leb c 13) || c == b' '

-- `TrimLeft` and `TrimRight` of the bytes that pass a test.
unfoldable pub trim_left : (ℕ → Bool) → Str → Str
trim_left p [] = []
trim_left p (c ∷ s) = let rest = trim_left p s in if p c then rest else c ∷ s

abbrev pub add_unless : (ℕ → Bool) → ℕ → Str → Str
add_unless p c [] = if p c then [] else c ∷ []
add_unless p c (d ∷ t) = c ∷ d ∷ t

unfoldable pub trim_right : (ℕ → Bool) → Str → Str
trim_right p [] = []
trim_right p (c ∷ s) = add_unless p c (trim_right p s)

unfoldable pub trim_space : Unicode → Str → Str
trim_space u s = if is_ascii s then trim_right is_space (trim_left is_space s) else u.trim s

-- A field starts where a byte that is no space follows a space; the text counts as following one.
unfoldable pub field_starts : Bool → Str → ℕ
field_starts was_space [] = 0
field_starts was_space (c ∷ s) =
    let n = field_starts (is_space c) s in if was_space && not (is_space c) then suc n else n

-- The length of `Fields`.
unfoldable pub field_count : Unicode → Str → ℕ
field_count u s = if is_ascii s then field_starts true s else u.count_fields s

-- What follows a prefix that agrees up to the case of ASCII letters, if it is there.
unfoldable pub cut_prefix_fold : Str → Str → Option Str
cut_prefix_fold [] s = some s
cut_prefix_fold (p ∷ ps) [] = none
cut_prefix_fold (p ∷ ps) (c ∷ s) =
    let rest = cut_prefix_fold ps s in if lower_byte p == lower_byte c then rest else none

-- `CutPrefix`: what follows the prefix, if it is there.
unfoldable pub cut_prefix : Str → Str → Option Str
cut_prefix [] s = some s
cut_prefix (p ∷ ps) [] = none
cut_prefix (p ∷ ps) (c ∷ s) = let rest = cut_prefix ps s in if p == c then rest else none

unfoldable pub has_prefix : Str → Str → Bool
has_prefix p s = is_some (cut_prefix p s)

-- `HasSuffix`, and what precedes the suffix, if it is there.
unfoldable pub cut_suffix : Str → Str → Option Str
cut_suffix p s = Option.map reverse (cut_prefix (reverse p) (reverse s))

unfoldable pub has_suffix : Str → Str → Bool
has_suffix p s = is_some (cut_suffix p s)

abbrev pub cons_before : ℕ → Option (Str × Str) → Option (Str × Str)
cons_before c none = none
cons_before c (some (before, after)) = some (c ∷ before, after)

abbrev pub starts_or : Option Str → Option (Str × Str) → Option (Str × Str)
starts_or none later = later
starts_or (some after) later = some ([], after)

-- What precedes and what follows the first occurrence of a text, as `Index` finds it.
unfoldable pub cut : Str → Str → Option (Str × Str)
cut sep [] = starts_or (cut_prefix sep []) none
cut sep (c ∷ s) = starts_or (cut_prefix sep (c ∷ s)) (cons_before c (cut sep s))

unfoldable pub contains : Str → Str → Bool
contains sub s = is_some (cut sub s)

abbrev pub or_last : ℕ → ℕ → Str → Option (Str × Str) → Option (Str × Str)
or_last b c s none = if c == b then some ([], s) else none
or_last b c s (some (before, after)) = some (c ∷ before, after)

-- What precedes and what follows the last occurrence of a byte, as `LastIndex` finds it.
unfoldable pub cut_last : ℕ → Str → Option (Str × Str)
cut_last b [] = none
cut_last b (c ∷ s) = or_last b c s (cut_last b s)

unfoldable pub contains_byte : ℕ → Str → Bool
contains_byte b [] = false
contains_byte b (c ∷ s) = c == b || contains_byte b s

-- `ContainsAny`, of ASCII bytes.
unfoldable pub contains_any : Str → Str → Bool
contains_any chars [] = false
contains_any chars (c ∷ s) = contains_byte c chars || contains_any chars s

abbrev pub add_first : ℕ → List Str → List Str
add_first c [] = (c ∷ []) ∷ []
add_first c (p ∷ ps) = (c ∷ p) ∷ ps

-- `Split` at a byte.
unfoldable pub split_byte : ℕ → Str → List Str
split_byte b [] = [] ∷ []
split_byte b (c ∷ s) =
    let parts = split_byte b s in if c == b then [] ∷ parts else add_first c parts

-- `Count` of a byte.
unfoldable pub count_byte : ℕ → Str → ℕ
count_byte b [] = 0
count_byte b (c ∷ s) = let n = count_byte b s in if c == b then suc n else n

-- Every byte passes a test.
unfoldable pub all_bytes : (ℕ → Bool) → Str → Bool
all_bytes p [] = true
all_bytes p (c ∷ s) = p c && all_bytes p s
