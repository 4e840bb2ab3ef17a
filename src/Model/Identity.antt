-- ===== src/Model/Identity.antt =====
-- How a device identifies itself on its protocol (internal/model/identity.go).
use statehouse.Prelude.{Bool, Str, [], ◌∷◌}

pub record DeviceIdentity : Type 0 where
  pub scheme : Str
  pub primary : Str
  pub display : Str

-- `s == ""`
abbrev pub is_empty : Str → Bool
is_empty [] = Bool.true
is_empty (c ∷ s) = Bool.false
