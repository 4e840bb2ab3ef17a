-- ===== src/State/Availability.antt =====
-- Contact with a device: online, offline, and the debounce between them (SetAvailability,
-- IngestReading and Tick in internal/state/engine.go). Each runs under the store's write lock.
pub mod Debounce
use statehouse.Prelude.{
  Bool, true, false, not, ◌&&◌, Option, some, none, ℤ, pos, leb_ℤ, ltb_ℤ, if◌then◌else◌, is_some,
  get_or_else,
}
use statehouse.Time.{Time, Duration, elapsed}
use statehouse.Model.Activity.{Availability, same_availability}

-- `Device.Availability` and `availabilityOfflineAt` of an entry.
pub record Contact : Type 0 where
  pub availability : Availability
  pub offline_at : Option Time

abbrev pub is : Availability → Contact → Bool
is a c = same_availability c.availability a

-- Any data shows that the device is in contact.
unfoldable pub seen : Contact → Contact
seen c =
    if not (is Availability.online c)
    then record { availability = Availability.online; offline_at = none }
    else c

-- A new state and whether an event tells of it.
abbrev pub Change : Type 0
Change = Contact × Bool

abbrev become : Availability → Contact → Change
become a c = if not (is a c) then (record c { availability = a }, true) else (c, false)

-- An offline report under a positive debounce.
report_debounced : Duration → Time → Contact → Option Time → Change
report_debounced debounce now c none =
    become Availability.offline_pending (record c { offline_at = some now })
report_debounced debounce now c (some t) =
    if leb_ℤ debounce (elapsed now t) then become Availability.offline c else (c, false)

unfoldable pub set_availability : Duration → Time → Availability → Contact → Change
unfolding report_debounced
set_availability debounce now Availability.online c =
    if not (is Availability.online c)
    then (record { availability = Availability.online; offline_at = none }, true)
    else (c, false)
set_availability debounce now Availability.offline c =
    if ltb_ℤ (pos 0) debounce
    then report_debounced debounce now c c.offline_at
    else become Availability.offline c
set_availability debounce now Availability.unknown c = (c, false)
set_availability debounce now Availability.offline_pending c = (c, false)

abbrev matured : Duration → Time → Option Time → Bool
matured debounce now none = false
matured debounce now (some t) = leb_ℤ debounce (elapsed now t)

-- The tick's part: a pending offline matures.
unfoldable pub tick : Duration → Time → Contact → Change
tick debounce now c =
    if is Availability.offline_pending c && matured debounce now c.offline_at
    then (record c { availability = Availability.offline }, true)
    else (c, false)
