-- ===== src/Connector/Events.antt =====
-- connector/pkg/gatewayclient/events.go: the events that a gateway message stands for.
pub mod Laws
use open_claw_bridge.Common.{
  Bool, true, false, ◌||◌, Option, none, some, List, [], ◌∷◌, ◌++◌, if◌then◌else◌,
}
use open_claw_bridge.Text.{Bytes, codes, text_eq, contains, has_suffix}
use open_claw_bridge.Json.{Fields, Codec}
use open_claw_bridge.Protocol.Event.{Event, no_event, event_token, event_end, event_error}
use open_claw_bridge.Connector.Payload.{
  Envelope, lookup, decode_payload, string_value, normal, extract_content, extract_chat_text,
  extract_agent_text, extract_error_message_from_payload,
}

abbrev pub token_event : Bytes → Event
token_event s = record no_event { type = event_token; content = s }

abbrev pub end_event : Event
end_event = record no_event { type = event_end }

abbrev pub error_event : Bytes → Bytes → Event
error_event code message = record no_event { type = event_error; code = code; message = message }

-- A switch case that lists these words.
unfoldable pub one_of : List Bytes → Bytes → Bool
unfolding text_eq
one_of [] s = false
one_of (w ∷ ws) s = text_eq s w || one_of ws s

unfoldable pub is_pending_status : Bytes → Bool
unfolding one_of
is_pending_status = one_of (
    codes "accepted"
    ∷ codes "queued"
    ∷ codes "started"
    ∷ codes "running"
    ∷ codes "in_flight"
    ∷ codes "inflight"
    ∷ codes "pending"
    ∷ [])

unfoldable pub is_final_status : Bytes → Bool
unfolding one_of
is_final_status = one_of (
    codes "ok"
    ∷ codes "done"
    ∷ codes "completed"
    ∷ codes "final"
    ∷ codes "ended"
    ∷ codes "end"
    ∷ codes "aborted"
    ∷ codes "cancelled"
    ∷ codes "canceled"
    ∷ [])

unfoldable pub is_error_status : Bytes → Bool
unfolding one_of
is_error_status = one_of (codes "error" ∷ codes "failed" ∷ [])

unfoldable pub is_token_event_name : Bytes → Bool
unfolding contains
is_token_event_name name = contains name (codes "token") || contains name (codes "chunk")

unfoldable pub is_done_event_name : Bytes → Bool
unfolding contains has_suffix
is_done_event_name name =
    contains name (codes "completed")
    || contains name (codes "done")
    || has_suffix name (codes ".end")

unfoldable pub is_error_event_name : Bytes → Bool
unfolding contains
is_error_event_name name = contains name (codes "error")

unfoldable pub is_disconnect_event_name : Bytes → Bool
unfolding contains
is_disconnect_event_name name = contains name (codes "disconnect")

unfoldable pub is_chat_event_name : Bytes → Bool
unfolding contains
is_chat_event_name name = contains name (codes "chat")

unfoldable pub is_agent_event_name : Bytes → Bool
unfolding contains
is_agent_event_name name = contains name (codes "agent")

-- if s != "" { events = append(events, token(s)) }
abbrev pub tokens : Bytes → List Event
tokens [] = []
tokens (x ∷ s) = token_event (x ∷ s) ∷ []

abbrev pub gateway_event_error : Codec → Fields → List Event
gateway_event_error c fs =
    error_event (codes "GATEWAY_EVENT_ERROR") (extract_error_message_from_payload c fs) ∷ []

-- The switch on the status, which returns or falls through.
unfoldable pub status_events : Codec → Fields → Bytes → Option (List Event)
unfolding is_pending_status is_final_status is_error_status
status_events c fs status =
    if text_eq status []
    then none
    else if is_pending_status status
    then some (tokens (extract_content c fs))
    else if is_final_status status
    then some (tokens (extract_content c fs) ++ end_event ∷ [])
    else if is_error_status status
    then some (gateway_event_error c fs)
    else none

unfoldable pub chat_events : Codec → Fields → List Event
unfolding one_of extract_chat_text
chat_events c fs =
    let state = normal (string_value c (lookup (codes "state") fs)) in
    let said = extract_chat_text c fs in
    if text_eq state (codes "delta")
    then tokens said
    else if one_of (codes "final" ∷ codes "done" ∷ codes "completed" ∷ []) state
    then tokens said ++ end_event ∷ []
    else if text_eq state (codes "error")
    then gateway_event_error c fs
    else if one_of (codes "aborted" ∷ codes "cancelled" ∷ codes "canceled" ∷ []) state
    then end_event ∷ []
    else tokens said

abbrev pub agent_end : Codec → Fields → Bytes → List Event
agent_end c fs terminal =
    if one_of
      (codes "final"
        ∷ codes "done"
        ∷ codes "completed"
        ∷ codes "end"
        ∷ codes "ended"
        ∷ codes "finish"
        ∷ codes "finished"
        ∷ [])
      terminal
    then end_event ∷ []
    else if one_of (codes "error" ∷ codes "failed" ∷ []) terminal
    then gateway_event_error c fs
    else []

-- if terminal == "" { terminal = payload["type"] }
abbrev pub agent_state : Codec → Fields → Bytes
agent_state c fs = elim (normal (string_value c (lookup (codes "state") fs))) [
  | [] ↦ normal (string_value c (lookup (codes "type") fs))
  | x ∷ s ↦ x ∷ s
]

unfoldable pub agent_events : Codec → Fields → List Event
unfolding one_of extract_agent_text
agent_events c fs = tokens (extract_agent_text c fs) ++ agent_end c fs (agent_state c fs)

unfoldable pub named_events : Codec → Fields → Bytes → List Event
unfolding extract_content
named_events c fs name =
    if is_token_event_name name
    then tokens (extract_content c fs)
    else if is_done_event_name name
    then end_event ∷ []
    else if is_error_event_name name
    then gateway_event_error c fs
    else if is_disconnect_event_name name
    then error_event (codes "GATEWAY_DISCONNECTED") (codes "gateway disconnected") ∷ []
    else []

unfoldable pub map_gateway_event : Codec → Envelope → List Event
unfolding status_events chat_events agent_events named_events
map_gateway_event c env =
    let fs = decode_payload c env.payload in
    let name = normal env.event in
    elim (status_events c fs (normal (string_value c (lookup (codes "status") fs)))) [
      | some events ↦ events
      | none ↦
          if is_chat_event_name name
          then chat_events c fs
          else if is_agent_event_name name
          then agent_events c fs
          else named_events c fs name
    ]
