-- ===== src/Adapter/Intercom.antt =====
-- Phone calls (internal/adapter/intercom/adapter.go). JSON and RFC 3339 are parameters; of a payload
-- the fields that go into Meta maps alone are left out.
pub mod Calls
use statehouse.Prelude.{
  ℕ, ◌+◌, Float64, constant, Option, some, none, Bool, true, false, not, ◌&&◌, ◌||◌, List, [], ◌∷◌,
  ◌++◌, ◌==◌, if◌then◌else◌, Str, str, str_eq,
}
use statehouse.Time.{Time}
use statehouse.Strings.{Unicode, to_lower, cut, cut_prefix, has_prefix}
use statehouse.Model.Identity.{is_empty}
use statehouse.Model.Signal.{ActivitySignal}
use statehouse.Model.ActivityRecord.{ActivityRecord, no_record}
use statehouse.Adapter.Timestamps.{sanitise}
use statehouse.Adapter.Validate.{is_alphanumeric, repeats}
use statehouse.State.Entry.Events.{Events, intercom_ringing, intercom_answered, intercom_hungup}
use statehouse.State.Presence.{
  Presence, Surroundings, ingest_signal, clear_signal, record_activity, update_activity,
}

pub record CallPayload : Type 0 where
  pub event : Str
  pub timestamp : Str

pub record Parsers : Type 0 where
  pub parse_call : Str → Option CallPayload
  pub parse_rfc3339 : Str → Option Time

abbrev pub scheme_name : Str
scheme_name = str "intercom"

-- Ten minutes.
abbrev pub call_ttl : ℕ
call_ttl = 600_000_000_000

abbrev pub is_call_byte : ℕ → Bool
is_call_byte c = is_alphanumeric c || c == b'_' || c == b'.' || c == b'/' || c == b':' || c == b'-'

unfoldable pub is_call_id : Str → Bool
is_call_id s = repeats 1 64 is_call_byte s

abbrev or_zero : Option Time → Time
or_zero none = 0
or_zero (some t) = t

unfoldable pub parse_timestamp : Parsers → Str → Time
parse_timestamp ps s = if is_empty s then 0 else or_zero (ps.parse_rfc3339 s)

-- The second of the three parts of "call/<call_id>/<event>", as `SplitN` at 3 finds it.
abbrev second_part : Option (Str × Str) → Option Str
second_part none = none
second_part (some (id, event)) = some id

abbrev after_call : Option (Str × Str) → Option Str
after_call none = none
after_call (some (call, rest)) = second_part (cut (str "/") rest)

unfoldable pub call_id_of : Str → Option Str
call_id_of suffix = after_call (cut (str "/") suffix)

-- `base` is the topic's stem, and events of calls go to the sink if there is one.
pub record Adapter : Type 0 where
  pub base : Str
  pub has_sink : Bool

-- A record that ended.
abbrev ended : Time → ActivityRecord → ActivityRecord
ended t r = record r { ended_at = some t }

module _ ⦃fl : Float64⦄ (ps : Parsers) (u : Unicode) (a : Adapter) (s : Surroundings) where
  abbrev call_signal : Str → Str → ℕ → Time → ActivitySignal
  call_signal id type percent ts = record {
    timestamp = 0;
    id = id;
    source = scheme_name;
    location = [];
    type = type;
    confidence = constant percent 100;
    since = ts;
    expires_at = s.now + call_ttl;
  }

  abbrev to_sink : Events → Presence → Presence × Events
  to_sink es p = (p, if a.has_sink then es else [])

  -- The three kinds of events; any other changes nothing. An answer changes the Meta of the record alone.
  unfoldable pub handle_event : Str → Str → Time → Presence → Presence × Events
  unfolding ingest_signal clear_signal record_activity update_activity
  handle_event event id ts p =
      if str_eq event (str "ringing")
      then to_sink (intercom_ringing ∷ []) (
          record_activity
            (record no_record { id = id; source = scheme_name; type = str "call"; started_at = ts })
            (ingest_signal s (call_signal id (str "call_ringing") 85 ts) p))
      else if str_eq event (str "answered")
      then to_sink (intercom_answered ∷ []) (
          update_activity id (λ r. r)
            (ingest_signal s (call_signal id (str "call_active") 95 ts) p))
      else if str_eq event (str "hungup")
      then to_sink (intercom_hungup ∷ []) (update_activity id (ended ts) (clear_signal s id ts p))
      else (p, [])

  unfoldable pub handle_payload : Str → Option CallPayload → Presence → Presence × Events
  unfolding handle_event parse_timestamp sanitise
  handle_payload id none p = (p, [])
  handle_payload id (some c) p =
      handle_event (to_lower u c.event) id (sanitise (parse_timestamp ps c.timestamp) s.now) p

  unfoldable pub handle_call : Option Str → Str → Presence → Presence × Events
  unfolding handle_payload is_call_id
  handle_call none payload p = (p, [])
  handle_call (some id) payload p =
      if is_empty id
      then (p, [])
      else if not (is_call_id id)
      then (p, [])
      else handle_payload id (ps.parse_call payload) p

  abbrev or_whole : Str → Option Str → Str
  or_whole topic none = topic
  or_whole topic (some rest) = rest

  unfoldable pub handle_message : Str → Str → Presence → Presence × Events
  unfolding handle_call call_id_of
  handle_message topic payload p =
      let suffix = or_whole topic (cut_prefix (a.base ++ str "/") topic) in
      if is_empty payload
      then (p, [])
      else if str_eq suffix (str "status")
      then (p, [])
      else if has_prefix (str "call/") suffix
      then handle_call (call_id_of suffix) payload p
      else (p, [])
