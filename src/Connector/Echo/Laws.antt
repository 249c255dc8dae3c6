-- ===== src/Connector/Echo/Laws.antt =====
-- connector/pkg/bridge/bridge.go: what the echo sends back.
use open_claw_bridge.Common.{
  ℕ, Bool, true, false, List, [], ◌∷◌, ◌++◌, if◌then◌else◌, Result, ok, err, ◌≡◌, refl, ◌∙◌, inl,
  inr, Bool-cases, append_assoc,
}
use open_claw_bridge.Text.{Bytes, codes, text_eq, trim_space, fields}
use open_claw_bridge.Json.{Codec}
use open_claw_bridge.GoMap.{get}
use open_claw_bridge.Protocol.Event.{
  Event, EventError, event_user_message, encode_event, decode_event, write_event,
}
use open_claw_bridge.Connector.Events.{error_event, token_event, end_event}
use open_claw_bridge.Connector.Echo.{
  EchoBridge, echo_send, echo_parts, echo_said, stream_echo, is_open, echo_decoded, echo_data,
}

-- The frames of some events of one session.
abbrev pub frames : Codec → Bytes → ℕ → List Event → List (Bytes × ℕ × Bytes)
frames c sid flags [] = []
frames c sid flags (e ∷ es) = (sid, flags, c.print (write_event e)) ∷ frames c sid flags es

-- A token for each word, and then the end.
abbrev pub echo_events : List Bytes → List Event
echo_events [] = end_event ∷ []
echo_events (part ∷ parts) = token_event (part ++ codes " ") ∷ echo_events parts

-- What the echo answers to a message in a session.
abbrev pub echo_reply : Bool → Result EventError Event → List Event
echo_reply false r = error_event (codes "SESSION_NOT_OPEN") (codes "session not open") ∷ []
echo_reply true (err e) = error_event (codes "BAD_EVENT") (codes "invalid event payload") ∷ []
echo_reply true (ok event) =
    if text_eq event.type event_user_message
    then echo_events (fields (trim_space event.content))
    else error_event (codes "UNSUPPORTED_EVENT") (codes "unsupported event type") ∷ []

echo_parts_sent :
    (c : Codec) (sid : Bytes) (flags : ℕ) (parts : List Bytes) (b : EchoBridge)
    → (echo_send c sid flags end_event (echo_parts c sid flags parts b)).sent
      ≡ b.sent ++ frames c sid flags (echo_events parts)
unfolding echo_parts echo_send encode_event text_eq
echo_parts_sent c sid flags [] b = refl
echo_parts_sent c sid flags (part ∷ parts) b =
    let b₁ = echo_send c sid flags (token_event (part ++ codes " ")) b in
    echo_parts_sent c sid flags parts b₁
    ∙ append_assoc b.sent _ (frames c sid flags (echo_events parts))

echo_said_sent :
    (c : Codec) (sid : Bytes) (flags : ℕ) (said : Bytes) (b : EchoBridge)
    → (echo_said c sid flags said b).sent ≡ b.sent ++ frames c sid flags (echo_events (fields said))
unfolding text_eq fields echo_send encode_event
echo_said_sent c sid flags [] b = refl
echo_said_sent c sid flags (x ∷ said) b = echo_parts_sent c sid flags (fields (x ∷ said)) b

echo_decoded_sent :
    (c : Codec) (sid : Bytes) (flags : ℕ) (r : Result EventError Event) (b : EchoBridge)
    → (echo_decoded c sid flags r b).sent ≡ b.sent ++ frames c sid flags (echo_reply true r)
unfolding echo_send encode_event text_eq stream_echo
echo_decoded_sent c sid flags (err e) b = refl
echo_decoded_sent c sid flags (ok event) b =
    elim (Bool-cases (text_eq event.type event_user_message)) [
      | inl h ↦ rw h (echo_said_sent c sid flags (trim_space event.content) b)
      | inr h ↦ rw h refl
    ]

-- The echo answers every message as `echo_reply` describes, in order and with the flags of the
-- message: a user message in an open session comes back as a token for each word and then one end;
-- everything else gets exactly one error.
pub echo_data_sent :
    (c : Codec) (sid : Bytes) (flags : ℕ) (payload : Bytes) (b : EchoBridge)
    → (echo_data c sid flags payload b).sent
      ≡ b.sent
        ++ frames c sid flags (echo_reply (is_open (get b.sessions sid)) (decode_event c payload))
unfolding echo_data echo_send encode_event text_eq
echo_data_sent c sid flags payload b = elim (Bool-cases (is_open (get b.sessions sid))) [
  | inl h ↦ rw h (echo_decoded_sent c sid flags (decode_event c payload) b)
  | inr h ↦ rw h refl
]
