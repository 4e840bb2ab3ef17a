-- ===== src/Device/Hints.antt =====
-- Classification of a device by its name (classifyByHints in internal/device/profiles.go). A map is
-- the list of its entries, the last one written first.
pub mod Order
use statehouse.Prelude.{
  ℕ, Float64, Bool, true, false, Option, none, some, List, [], ◌∷◌, length, ltb, ◌==◌,
  if◌then◌else◌, Str, str_eq, str_lt,
}
use statehouse.Model.Identity.{is_empty}
use statehouse.Strings.{Unicode, to_lower, contains}
use statehouse.Config.{DeviceClassConfig}

abbrev pub Map : Type 0 → Type 0
Map A = List (Str × A)

-- `m[k]`, and a write.
unfoldable pub find : {A : Type 0} → Str → Map A → Option A
find k [] = none
find k (e ∷ m) = let rest = find k m in if str_eq e.0 k then some e.1 else rest

abbrev pub put : {A : Type 0} → Str → A → Map A → Map A
put k a m = (k, a) ∷ m

-- A class with the length of its hint.
pub record Match : Type 0 where
  pub class : Str
  pub hint_len : ℕ

-- The order of the sort: longer hints first, then by the class.
unfoldable pub before : Match → Match → Bool
before m n = if m.hint_len == n.hint_len then str_lt m.class n.class else ltb n.hint_len m.hint_len

unfoldable pub insert_match : Match → List Match → List Match
unfolding before
insert_match m [] = m ∷ []
insert_match m (n ∷ ns) =
    let rest = insert_match m ns in if before n m then n ∷ rest else m ∷ n ∷ ns

unfoldable pub sort_matches : List Match → List Match
unfolding insert_match
sort_matches [] = []
sort_matches (m ∷ ms) = insert_match m (sort_matches ms)

abbrev pub first_class : List Match → Option Str
first_class [] = none
first_class (m ∷ ms) = some m.class

abbrev pub add_match : Str → Option ℕ → List Match → List Match
add_match class none ms = ms
add_match class (some l) ms = record { class = class; hint_len = l } ∷ ms

module _ (u : Unicode) where
  -- The length of the first hint that the name contains; `n` is the name in lower case.
  unfoldable pub first_hint : Str → List Str → Option ℕ
  first_hint n [] = none
  first_hint n (hint ∷ hints) =
      let rest = first_hint n hints in
      if is_empty hint
      then rest
      else if contains (to_lower u hint) n
      then some (length hint)
      else rest

  module _ ⦃fl : Float64⦄ where
    unfoldable pub matches : Str → Map DeviceClassConfig → List Match
    unfolding first_hint
    matches n [] = []
    matches n (e ∷ classes) = add_match e.0 (first_hint n e.1.name_hints) (matches n classes)

    unfoldable pub classify_by_hints : Map DeviceClassConfig → Str → Option Str
    unfolding matches sort_matches
    classify_by_hints classes name =
        let n = to_lower u name in
        if is_empty n then none else first_class (sort_matches (matches n classes))
