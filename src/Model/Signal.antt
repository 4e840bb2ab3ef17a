-- ===== src/Model/Signal.antt =====
-- Presence assertions from sources that are no devices (internal/model/signal.go). The field Meta
-- is for display alone and is left out.
use statehouse.Prelude.{Float64, Num, Bool, not, ◌&&◌, Str}
use statehouse.Time.{Time, is_zero, after}

module _ ⦃fl : Float64⦄ where
  pub record ActivitySignal : Type 0 where
    pub timestamp : Time
    pub id : Str
    pub source : Str
    pub location : Str
    pub type : Str
    pub confidence : Num
    pub since : Time
    pub expires_at : Time

  abbrev pub is_expired : ActivitySignal → Time → Bool
  is_expired s now = not (is_zero s.expires_at) && after now s.expires_at
