-- ===== src/Connector/Echo.antt =====
-- connector/pkg/bridge/bridge.go: the bridge that echoes. The calls of sender.SendData are the list
-- `sent`, the newest last.
pub mod Laws
use open_claw_bridge.Common.{
  ℕ, Bool, true, false, not, Option, none, some, List, [], ◌∷◌, ◌++◌, if◌then◌else◌, Result, ok,
  err,
}
use open_claw_bridge.Text.{Bytes, codes, text_eq, trim_space, fields}
use open_claw_bridge.GoMap.{Map, get, put, delete}
use open_claw_bridge.Json.{Codec}
use open_claw_bridge.Protocol.Event.{
  Event, EventError, event_user_message, encode_event, decode_event,
}
use open_claw_bridge.Connector.Events.{error_event, token_event, end_event}

pub record EchoBridge : Type 0 where
  pub sessions : Map Bool
  pub sent : List (Bytes × ℕ × Bytes)

unfoldable pub echo_open : Bytes → EchoBridge → EchoBridge
unfolding put
echo_open sid b = record b { sessions = put b.sessions sid true }

unfoldable pub echo_close : Bytes → EchoBridge → EchoBridge
unfolding delete
echo_close sid b = record b { sessions = delete b.sessions sid }

abbrev pub echo_encoded : Bytes → ℕ → Result EventError Bytes → EchoBridge → EchoBridge
echo_encoded sid flags (err e) b = b
echo_encoded sid flags (ok payload) b = record b { sent = b.sent ++ (sid, flags, payload) ∷ [] }

unfoldable pub echo_send : Codec → Bytes → ℕ → Event → EchoBridge → EchoBridge
unfolding encode_event
echo_send c sid flags event b = echo_encoded sid flags (encode_event c event) b

-- for _, part := range parts
unfoldable pub echo_parts : Codec → Bytes → ℕ → List Bytes → EchoBridge → EchoBridge
unfolding echo_send
echo_parts c sid flags [] b = b
echo_parts c sid flags (part ∷ parts) b =
    echo_parts c sid flags parts (echo_send c sid flags (token_event (part ++ codes " ")) b)

-- streamEcho, once the content is trimmed.
abbrev pub echo_said : Codec → Bytes → ℕ → Bytes → EchoBridge → EchoBridge
echo_said c sid flags said b =
    if text_eq said []
    then echo_send c sid flags end_event b
    else echo_send c sid flags end_event (echo_parts c sid flags (fields said) b)

unfoldable pub stream_echo : Codec → Bytes → ℕ → Bytes → EchoBridge → EchoBridge
unfolding echo_parts trim_space fields text_eq
stream_echo c sid flags content b = echo_said c sid flags (trim_space content) b

-- b.sessions[sessionID], false where it is missing
abbrev pub is_open : Option Bool → Bool
is_open none = false
is_open (some x) = x

abbrev pub echo_decoded : Codec → Bytes → ℕ → Result EventError Event → EchoBridge → EchoBridge
echo_decoded c sid flags (err e) b =
    echo_send c sid flags (error_event (codes "BAD_EVENT") (codes "invalid event payload")) b
echo_decoded c sid flags (ok event) b =
    if not (text_eq event.type event_user_message)
    then echo_send c sid flags
        (error_event (codes "UNSUPPORTED_EVENT") (codes "unsupported event type")) b
    else stream_echo c sid flags event.content b

unfoldable pub echo_data : Codec → Bytes → ℕ → Bytes → EchoBridge → EchoBridge
unfolding get decode_event echo_send stream_echo
echo_data c sid flags payload b =
    if not (is_open (get b.sessions sid))
    then echo_send c sid flags (error_event (codes "SESSION_NOT_OPEN") (codes "session not open")) b
    else echo_decoded c sid flags (decode_event c payload) b
