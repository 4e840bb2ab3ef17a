-- ===== src/Adapter/Intercom/Calls.antt =====
-- What a message of the phone system does to the signals (HandleMessage and handleCallEvent in
-- internal/adapter/intercom/adapter.go).
use statehouse.Prelude.{
  Float64, true, false, ◌≡◌, refl, ap, ◌∙◌, ◌⊎◌, inl, inr, Option, some, none, [], ◌++◌, ◌+◌, Str,
  str, str_eq, str_eq_refl, Bool-cases,
}
use statehouse.Time.{Time}
use statehouse.Strings.{Unicode, to_lower, cut_prefix, has_prefix}
use statehouse.Model.Identity.{is_empty}
use statehouse.Model.Signal.{ActivitySignal}
use statehouse.State.Entry.Events.{Events}
use statehouse.State.SignalStore.{lookup, upsert, clear_at}
use statehouse.State.SignalStore.Expiry.{lookup-insert, lookup-delete}
use statehouse.State.Presence.{
  Presence, Surroundings, ingest_signal, clear_signal, record_activity, update_activity, stamped,
  recompute_house,
}
use statehouse.Adapter.Timestamps.{sanitise}
use statehouse.Adapter.Intercom.{
  CallPayload, Parsers, Adapter, scheme_name, call_ttl, is_call_id, call_signal, parse_timestamp,
  handle_event, handle_payload, handle_call, handle_message, call_id_of, or_whole,
}

module _ ⦃fl : Float64⦄ where
  abbrev pub signal_of : Str → Presence → Option ActivitySignal
  signal_of j p = lookup j p.signals.signals

  -- One call's signal is gone, or is one that expires ten minutes from now; the others are as before.
  pub record IsCall (s : Surroundings) (p q : Presence) (id : Str) : Type 0 where
    pub allowed : is_call_id id ≡ true
    pub others : (j : Str) → str_eq id j ≡ false → signal_of j q ≡ signal_of j p
    pub own :
        (signal_of id q ≡ none)
        ⊎ ((sig : ActivitySignal) × (signal_of id q ≡ some sig)
            × (sig.source ≡ scheme_name)
            × (sig.expires_at ≡ s.now + call_ttl))

  -- What a message may have done.
  abbrev MessageOutcome : Surroundings → Presence → Presence × Events → Type 0
  MessageOutcome s p r = (r ≡ (p, [])) ⊎ ((id : Str) × IsCall s p r.0 id)

  asserted :
      (s : Surroundings) (p q : Presence) (id : Str) (sig : ActivitySignal)
      → is_call_id id ≡ true
      → q.signals ≡ upsert p.signals sig
      → sig.id ≡ id
      → sig.source ≡ scheme_name
      → sig.expires_at ≡ s.now + call_ttl
      → IsCall s p q id
  unfolding upsert
  asserted s p q id sig valid e named source expires = record {
    allowed = valid;
    others = λ j n.
        ap (λ z. lookup j z.signals) e
        ∙ lookup-insert sig.id j sig p.signals.signals
        ∙ rw (named, n) refl;
    own = inr (
      sig,
      ap (λ z. lookup id z.signals) e
          ∙ lookup-insert sig.id id sig p.signals.signals
          ∙ rw (named, str_eq_refl id) refl,
      source,
      expires,
    );
  }

  cleared :
      (s : Surroundings) (p q : Presence) (id : Str) (ts : Time)
      → is_call_id id ≡ true
      → q.signals ≡ clear_at p.signals id ts
      → IsCall s p q id
  unfolding clear_at
  cleared s p q id ts valid e = record {
    allowed = valid;
    others =
        λ j n. ap (λ z. lookup j z.signals) e ∙ lookup-delete id j p.signals.signals ∙ rw n refl;
    own = inl (
        ap (λ z. lookup id z.signals) e
        ∙ lookup-delete id id p.signals.signals
        ∙ rw (str_eq_refl id) refl);
  }

  module _ (ps : Parsers) (u : Unicode) (a : Adapter) (s : Surroundings) where
    event_outcome :
        (event id : Str) (ts : Time) (p : Presence)
        → is_call_id id ≡ true
        → MessageOutcome s p (handle_event ps u a s event id ts p)
    unfolding handle_event ingest_signal clear_signal record_activity update_activity
        recompute_house stamped
    event_outcome event id ts p valid = elim (Bool-cases (str_eq event (str "ringing"))) [
      | inl k ↦ rw k (
          inr (
            id,
            asserted s p _ id (stamped s.now (call_signal ps u a s id (str "call_ringing") 85 ts))
                valid refl refl refl refl,
          ))
      | inr k ↦ elim (Bool-cases (str_eq event (str "answered"))) [
        | inl l ↦
            rw (k, l)
              (inr (
                id,
                asserted s p _ id
                    (stamped s.now (call_signal ps u a s id (str "call_active") 95 ts)) valid refl
                    refl refl refl,
              ))
        | inr l ↦ elim (Bool-cases (str_eq event (str "hungup"))) [
          | inl n ↦ rw (k, l, n) (inr (id, cleared s p _ id _ valid refl))
          | inr n ↦ rw (k, l, n) (inl refl)
        ]
      ]
    ]

    payload_outcome :
        (id : Str) (c : Option CallPayload) (p : Presence)
        → is_call_id id ≡ true
        → MessageOutcome s p (handle_payload ps u a s id c p)
    unfolding handle_payload
    payload_outcome id none p valid = inl refl
    payload_outcome id (some c) p valid =
        event_outcome (to_lower u c.event) id (sanitise (parse_timestamp ps c.timestamp) s.now) p
          valid

    call_outcome :
        (o : Option Str) (payload : Str) (p : Presence)
        → MessageOutcome s p (handle_call ps u a s o payload p)
    unfolding handle_call
    call_outcome none payload p = inl refl
    call_outcome (some id) payload p = elim (Bool-cases (is_empty id)) [
      | inl k ↦ rw k (inl refl)
      | inr k ↦ elim (Bool-cases (is_call_id id)) [
        | inl l ↦ rw (k, l) (payload_outcome id (ps.parse_call payload) p l)
        | inr l ↦ rw (k, l) (inl refl)
      ]
    ]

    -- Whatever the topic and the payload of a message are, it changes nothing, or it concerns one call
    -- with an allowed id: that call's signal is gone or expires ten minutes from now, and every other
    -- signal is as before.
    pub handle_message_outcome :
        (topic payload : Str) (p : Presence)
        → let r = handle_message ps u a s topic payload p in
          (r ≡ (p, [])) ⊎ ((id : Str) × IsCall s p r.0 id)
    unfolding handle_message
    handle_message_outcome topic payload p =
        let suffix = or_whole ps u a s topic (cut_prefix (a.base ++ str "/") topic) in
        elim (Bool-cases (is_empty payload)) [
          | inl k ↦ rw k (inl refl)
          | inr k ↦ elim (Bool-cases (str_eq suffix (str "status"))) [
            | inl l ↦ rw (k, l) (inl refl)
            | inr l ↦ elim (Bool-cases (has_prefix (str "call/") suffix)) [
              | inl n ↦ rw (k, l, n) (call_outcome (call_id_of suffix) payload p)
              | inr n ↦ rw (k, l, n) (inl refl)
            ]
          ]
        ]
