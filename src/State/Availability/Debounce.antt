-- ===== src/State/Availability/Debounce.antt =====
-- When a device goes offline, over sequences of data, reports and ticks (SetAvailability,
-- IngestReading and Tick in internal/state/engine.go).
use statehouse.Prelude.{
  Bool, true, false, ◌≡◌, arith, Option, some, none, pos, ◌≤ℤ◌, ◌<ℤ◌, List, [], ◌∷◌, ◌⊎◌, is_some,
  get_or_else,
}
use statehouse.Time.{Time, Duration, elapsed}
use statehouse.Model.Activity.{Availability, same_availability}
use statehouse.State.Availability.{Contact, seen, set_availability, tick}

-- What happens to the contact of a device; the debounce is that of the active configuration.
pub data Event : Type 0 where
  data_seen : Event
  reported : Duration → Time → Availability → Event
  ticked : Duration → Time → Event

abbrev pub step : Contact → Event → Contact
step c data_seen = seen c
step c (reported debounce now a) = (set_availability debounce now a c).0
step c (ticked debounce now) = (tick debounce now c).0

-- The contact after the events so far, newest first.
abbrev pub after_all : List Event → Contact
after_all [] = record { availability = Availability.unknown; offline_at = none }
after_all (e ∷ earlier) = step (after_all earlier) e

-- An offline report came at `t`, and no data and no online report since.
abbrev pub OfflineSince : Time → List Event → Type 0
OfflineSince t [] = ⊥
OfflineSince t (data_seen ∷ h) = ⊥
OfflineSince t (reported debounce now Availability.online ∷ h) = ⊥
OfflineSince t (reported debounce now Availability.offline ∷ h) = (now ≡ t) ⊎ OfflineSince t h
OfflineSince t (reported debounce now Availability.unknown ∷ h) = OfflineSince t h
OfflineSince t (reported debounce now Availability.offline_pending ∷ h) = OfflineSince t h
OfflineSince t (ticked debounce now ∷ h) = OfflineSince t h

abbrev pub Noted : Option Time → List Event → Type 0
Noted none h = Unit
Noted (some t) h = OfflineSince t h

-- An online or unknown device has no offline mark, a pending one has one, and a mark is the time of
-- an offline report that nothing has contradicted.
pub record IsConsistent (c : Contact) (h : List Event) : Type 0 where
  pub calm :
      (same_availability c.availability Availability.online ≡ true)
        ⊎ (same_availability c.availability Availability.unknown ≡ true)
      → c.offline_at ≡ none
  pub pending :
      same_availability c.availability Availability.offline_pending ≡ true
      → is_some c.offline_at ≡ true
  pub noted : Noted c.offline_at h

step-IsConsistent :
    (c : Contact) (e : Event) (h : List Event) → IsConsistent c h → IsConsistent (step c e) (e ∷ h)
unfolding seen set_availability tick same_availability
step-IsConsistent c data_seen h v = ground arith
step-IsConsistent c (reported debounce now Availability.online) h v = ground arith
step-IsConsistent c (reported debounce now Availability.offline) h v = ground arith
step-IsConsistent c (reported debounce now Availability.unknown) h v = ground arith
step-IsConsistent c (reported debounce now Availability.offline_pending) h v = ground arith
step-IsConsistent c (ticked debounce now) h v = ground arith

-- The invariant holds after any events.
pub after_all-IsConsistent : (h : List Event) → IsConsistent (after_all h) h
unfolding same_availability
after_all-IsConsistent [] = ground arith
after_all-IsConsistent (e ∷ h) = step-IsConsistent (after_all h) e h (after_all-IsConsistent h)

-- The debounce under which an event is handled, and its time; data is handled at once.
abbrev pub debounce_of : Event → Duration
debounce_of data_seen = pos 0
debounce_of (reported debounce now a) = debounce
debounce_of (ticked debounce now) = debounce

abbrev pub time_of : Event → Time
time_of data_seen = 0
time_of (reported debounce now a) = now
time_of (ticked debounce now) = now

abbrev pub is_offline : Contact → Bool
is_offline c = same_availability c.availability Availability.offline

-- The mark from which an offline transition is counted.
abbrev mark : Contact → Time
mark c = get_or_else c.offline_at 0

step-offline :
    (c : Contact) (e : Event) (h : List Event)
    → IsConsistent c h
    → pos 0 <ℤ debounce_of e
    → is_offline c ≡ false
    → is_offline (step c e) ≡ true
    → OfflineSince (mark c) (e ∷ h) × (debounce_of e ≤ℤ elapsed (time_of e) (mark c))
unfolding seen set_availability tick same_availability
step-offline c data_seen h v d before goes = absurd (omega arith)
step-offline c (reported debounce now Availability.online) h v d before goes = ground arith
step-offline c (reported debounce now Availability.offline) h v d before goes = ground arith
step-offline c (reported debounce now Availability.unknown) h v d before goes = ground arith
step-offline c (reported debounce now Availability.offline_pending) h v d before goes = ground arith
step-offline c (ticked debounce now) h v d before goes = ground arith

-- An event under a positive debounce that takes a device offline comes at least the debounce after
-- an offline report that neither data nor an online report has contradicted since.
pub offline_debounced :
    (h : List Event) (e : Event)
    → pos 0 <ℤ debounce_of e
    → is_offline (after_all h) ≡ false
    → is_offline (after_all (e ∷ h)) ≡ true
    → (t : Time) × OfflineSince t (e ∷ h) × (debounce_of e ≤ℤ elapsed (time_of e) t)
offline_debounced h e d before goes =
    let c = after_all h in
    let s = step-offline c e h (after_all-IsConsistent h) d before goes in (mark c, s.0, s.1)
