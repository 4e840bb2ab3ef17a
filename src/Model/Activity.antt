-- ===== src/Model/Activity.antt =====
-- Activity and availability states of a device (internal/model/state.go).
use statehouse.Prelude.{ℕ, ◌≡◌, Bool, true, ◌==◌, arith}

pub data Availability : Type 0 where
  unknown online offline_pending offline : Availability

pub data DeviceActivityState : Type 0 where
  unknown idle active starting running finishing finished_recently : DeviceActivityState
  standby normal_idle active_cycle reporting : DeviceActivityState

-- A number for each state, by which two states are compared.
abbrev ordinal : DeviceActivityState → ℕ
ordinal DeviceActivityState.unknown = 0
ordinal DeviceActivityState.idle = 1
ordinal DeviceActivityState.active = 2
ordinal DeviceActivityState.starting = 3
ordinal DeviceActivityState.running = 4
ordinal DeviceActivityState.finishing = 5
ordinal DeviceActivityState.finished_recently = 6
ordinal DeviceActivityState.standby = 7
ordinal DeviceActivityState.normal_idle = 8
ordinal DeviceActivityState.active_cycle = 9
ordinal DeviceActivityState.reporting = 10

-- Go's `==` on states.
unfoldable pub same_state : DeviceActivityState → DeviceActivityState → Bool
same_state a b = ordinal a == ordinal b

pub same_state_refl : (a : DeviceActivityState) → same_state a a ≡ true
unfolding same_state
same_state_refl a = ground arith

pub same_state→eq : (a b : DeviceActivityState) → same_state a b ≡ true → a ≡ b
unfolding same_state
same_state→eq a b h = ground arith

abbrev availability_ordinal : Availability → ℕ
availability_ordinal Availability.unknown = 0
availability_ordinal Availability.online = 1
availability_ordinal Availability.offline_pending = 2
availability_ordinal Availability.offline = 3

unfoldable pub same_availability : Availability → Availability → Bool
same_availability a b = availability_ordinal a == availability_ordinal b
