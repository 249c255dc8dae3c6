-- ===== src/Connector/Gateway.antt =====
-- connector/pkg/gatewayclient/client.go: the client's tables and its operations. What an operation
-- meets outside is a `World`: the clock, and what writing to the connection answers. The calls of
-- handlers.OnEvent are the list `emitted`, the messages written are `written`, the newest last.
pub mod Tracks
pub mod Answers
pub mod Sending
use open_claw_bridge.Common.{
  ℕ, Bool, true, false, ◌||◌, not, Option, none, some, List, [], ◌∷◌, ◌++◌, if◌then◌else◌, ℤ, pos,
}
use open_claw_bridge.Text.{Bytes, codes, text_eq, trim_space, to_lower, contains}
use open_claw_bridge.GoMap.{Map, get, put, delete, delete_where}
use open_claw_bridge.Json.{Value, Items, Fields, Codec, text, array, object, nil, cons, end, field}
use open_claw_bridge.Protocol.Event.{Event, ImageItem, event_end, event_error}
use open_claw_bridge.Connector.Payload.{
  Envelope, or_else, lookup, decode_payload, string_value, normal, extract_content, extract_run_id,
  extract_session_id, extract_correlation_id, extract_error_message_from_payload,
  extract_error_message,
}
use open_claw_bridge.Connector.Events.{
  token_event, end_event, error_event, is_pending_status, is_final_status, is_error_status, tokens,
  map_gateway_event,
}

-- An error is its text, and `none` is nil.
pub record World : Type 0 where
  pub codec : Codec
  pub unix_nano : ℕ
  pub write_error : Option Bytes

-- `connected` is conn != nil, and `listening` handlers.OnEvent != nil.
pub record Client : Type 0 where
  pub connected : Bool
  pub ready : Bool
  pub last_session_id : Bytes
  pub req_to_session : Map Bytes
  pub run_to_session : Map Bytes
  pub listening : Bool
  pub written : List Bytes
  pub emitted : List (Bytes × Event)

-- New, with the handlers of connector/main.go.
abbrev pub new_client : Client
new_client = record {
  connected = false;
  ready = false;
  last_session_id = [];
  req_to_session = [];
  run_to_session = [];
  listening = true;
  written = [];
  emitted = [];
}

unfoldable pub track_request : Bytes → Bytes → Client → Client
unfolding put
track_request req_id session_id s = record s {
  req_to_session = put s.req_to_session req_id session_id;
  last_session_id = session_id;
}

unfoldable pub untrack_request : Bytes → Client → Client
unfolding delete
untrack_request req_id s = record s { req_to_session = delete s.req_to_session req_id }

unfoldable pub request_session : Client → Bytes → Option Bytes
unfolding get
request_session s req_id = get s.req_to_session req_id

unfoldable pub track_run : Bytes → Bytes → Client → Client
unfolding put
track_run run_id session_id s = record s { run_to_session = put s.run_to_session run_id session_id }

unfoldable pub run_session : Client → Bytes → Option Bytes
unfolding get
run_session s run_id = get s.run_to_session run_id

unfoldable pub clear_session_tracks : Bytes → Client → Client
unfolding delete_where text_eq
clear_session_tracks session_id s = record s {
  req_to_session = delete_where (λ sid. text_eq sid session_id) s.req_to_session;
  run_to_session = delete_where (λ sid. text_eq sid session_id) s.run_to_session;
}

unfoldable pub emit_event : Bytes → Event → Client → Client
emit_event session_id event s =
    if s.listening then record s { emitted = s.emitted ++ (session_id, event) ∷ [] } else s

-- `v` is a map[string]any, whose fields json.Marshal sorts.
unfoldable pub write_json : World → Value → Client → Client × Option Bytes
write_json w v s =
    if not s.ready
    then (s, some (codes "gateway not ready"))
    else if not s.connected
    then (s, some (codes "gateway disconnected"))
    else elim w.write_error [
      | some e ↦ (s, some e)
      | none ↦ (record s { written = s.written ++ w.codec.print v ∷ [] }, none)
    ]

unfoldable pub new_id : World → Bytes → Bytes
new_id w prefix = prefix ++ w.codec.int_text (pos w.unix_nano)

unfoldable pub gateway_session_key : Bytes → Bytes
gateway_session_key session_id = codes "bridge_" ++ session_id

abbrev mime_field : Bytes → Fields
mime_field [] = end
mime_field (x ∷ s) = field (codes "mimeType") (text (x ∷ s)) end

-- One round of the loop of normalizeImages.
abbrev pub add_image : Bytes → Bytes → Items → Items
add_image [] mime_type rest = rest
add_image (x ∷ s) mime_type rest =
    cons (object (field (codes "data") (text (x ∷ s)) (mime_field mime_type))) rest

unfoldable pub normalize_images : List ImageItem → Items
unfolding trim_space
normalize_images [] = nil
normalize_images (i ∷ is) =
    add_image (trim_space i.image) (trim_space i.mime_type) (normalize_images is)

abbrev pub images_field : Items → Fields → Fields
images_field nil rest = rest
images_field (cons v vs) rest = field (codes "images") (array (cons v vs)) rest

abbrev pub request : Bytes → Bytes → Fields → Value
request req_id method params = object (
    field (codes "id") (text req_id) (
      field (codes "method") (text method)
        (field (codes "params") (object params) (field (codes "type") (text (codes "req")) end))))

abbrev pub agent_params : Bytes → Bytes → Bytes → Event → Fields
agent_params session_id req_id content event = field (codes "idempotencyKey") (text req_id) (
    images_field (normalize_images event.images) (
      field (codes "message") (text content)
        (field (codes "sessionKey") (text (gateway_session_key session_id)) end)))

-- if err := c.writeJSON(msg); err != nil { c.untrackRequest(reqID); return err }
abbrev pub settle : Bytes → Client × Option Bytes → Client × Option Bytes
settle req_id (s, none) = (s, none)
settle req_id (s, some e) = (untrack_request req_id s, some e)

abbrev pub send_request : World → Bytes → Bytes → Value → Client → Client × Option Bytes
send_request w req_id session_id v s =
    settle req_id (write_json w v (track_request req_id session_id s))

-- SendUserMessage, once the content is trimmed.
abbrev pub send_content : World → Bytes → Event → Bytes → Client → Client × Option Bytes
send_content w session_id event [] s = (s, some (codes "content is required"))
send_content w session_id event (x ∷ content) s =
    let req_id = new_id w (codes "gw_req_") in
    send_request w req_id session_id
      (request req_id (codes "agent") (agent_params session_id req_id (x ∷ content) event)) s

unfoldable pub send_user_message : World → Bytes → Event → Client → Client × Option Bytes
unfolding trim_space new_id gateway_session_key normalize_images track_request write_json
    untrack_request
send_user_message w session_id event s =
    send_content w session_id event (trim_space event.content) s

unfoldable pub send_cancel : World → Bytes → Client → Client × Option Bytes
unfolding new_id gateway_session_key track_request write_json untrack_request
send_cancel w session_id s =
    let req_id = new_id w (codes "gw_cancel_") in
    send_request w req_id session_id
      (request req_id (codes "chat.abort")
        (field (codes "sessionKey") (text (gateway_session_key session_id)) end))
      s

-- if runID := extractRunID(payload); runID != "" { c.trackRun(runID, sessionID) }
abbrev pub note_run : Bytes → Bytes → Client → Client
note_run [] session_id s = s
note_run (x ∷ run_id) session_id s = track_run (x ∷ run_id) session_id s

-- One round of the loop of handleEvent.
unfoldable pub emit_step : Bytes → Event → Client → Client
unfolding emit_event clear_session_tracks text_eq
emit_step session_id e s =
    let s₁ = emit_event session_id e s in
    if text_eq e.type event_end || text_eq e.type event_error
    then clear_session_tracks session_id s₁
    else s₁

unfoldable pub emit_all : Bytes → List Event → Client → Client
unfolding emit_step
emit_all session_id [] s = s
emit_all session_id (e ∷ es) s = emit_all session_id es (emit_step session_id e s)

abbrev pub emit_tokens : Bytes → Bytes → Client → Client
emit_tokens session_id [] s = s
emit_tokens session_id (x ∷ content) s = emit_event session_id (token_event (x ∷ content)) s

-- The end, or the failure, of a session's request: the event, and then no track of the session.
abbrev pub finish : Bytes → Event → Client → Client
finish session_id e s = clear_session_tracks session_id (emit_event session_id e s)

abbrev pub request_failed : Bytes → Event
request_failed message = error_event (codes "GATEWAY_REQUEST_FAILED") message

-- A response with a status of none of the three kinds.
abbrev pub answer_plain : Bytes → Bytes → Client → Client
answer_plain session_id [] s = s
answer_plain session_id (x ∷ content) s =
    finish session_id end_event (emit_event session_id (token_event (x ∷ content)) s)

abbrev pub answer_ok : Codec → Bytes → Fields → Client → Client
answer_ok c session_id fs s =
    let status = normal (string_value c (lookup (codes "status") fs)) in
    let content = extract_content c fs in
    if is_pending_status status
    then emit_tokens session_id content s
    else if is_final_status status
    then finish session_id end_event (emit_tokens session_id content s)
    else if is_error_status status
    then finish session_id (request_failed (extract_error_message_from_payload c fs)) s
    else answer_plain session_id content s

-- env.OK != nil && *env.OK
abbrev pub is_ok : Option Bool → Bool
is_ok (some true) = true
is_ok _ = false

abbrev pub answer : Codec → Bytes → Envelope → Client → Client
answer c session_id env s =
    let fs = decode_payload c env.payload in
    let s₁ = note_run (extract_run_id c fs) session_id s in
    if is_ok env.ok_field
    then answer_ok c session_id fs s₁
    else finish session_id (request_failed (extract_error_message c env)) s₁

-- The error that handleResponse returns is always nil.
unfoldable pub handle_response : Codec → Envelope → Client → Client
unfolding text_eq request_session track_run emit_event clear_session_tracks
handle_response c env s =
    if text_eq env.id []
    then s
    else elim (request_session s env.id) [ none ↦ s | some session_id ↦ answer c session_id env s ]

-- if id != "" { if sid, ok := find(id); ok { return sid } }, and then what follows.
abbrev pub find_session : (Bytes → Option Bytes) → Bytes → Bytes → Bytes
find_session find [] rest = rest
find_session find (x ∷ id) rest = elim (find (x ∷ id)) [ some sid ↦ sid | none ↦ rest ]

unfoldable pub resolve_session_id : Codec → Bytes → Bytes → Fields → Client → Bytes
unfolding extract_session_id request_session run_session
resolve_session_id c corr_id run_id fs s = or_else (extract_session_id c fs) (
    find_session (request_session s) corr_id (
      find_session (run_session s) run_id (find_session (run_session s) corr_id s.last_session_id)))

unfoldable pub handle_event : Codec → Envelope → Client → Client
unfolding resolve_session_id map_gateway_event emit_all
handle_event c env s =
    let fs = decode_payload c env.payload in
    let run_id = extract_run_id c fs in
    let sid = resolve_session_id c (extract_correlation_id c env fs) run_id fs s in
    if text_eq sid [] then s else emit_all sid (map_gateway_event c env) s

-- The switch on the type of a message in the loop of connectAndServe.
unfoldable pub dispatch : Codec → Envelope → Client → Client
unfolding text_eq handle_event handle_response
dispatch c env s =
    if text_eq env.type (codes "event")
    then handle_event c env s
    else if text_eq env.type (codes "res")
    then handle_response c env s
    else s
