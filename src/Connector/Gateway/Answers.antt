-- ===== src/Connector/Gateway/Answers.antt =====
-- handleResponse and handleEvent of connector/pkg/gatewayclient/client.go: the events of one message.
use open_claw_bridge.Common.{
  Bool, true, false, some, List, [], ◌∷◌, ◌++◌, ◌≡◌, ◌≢◌, refl, if◌then◌else◌,
}
use open_claw_bridge.Text.{Bytes, codes, text_eq}
use open_claw_bridge.Text.Laws.{text_eq_of_ne}
use open_claw_bridge.Json.{Fields, Codec}
use open_claw_bridge.Protocol.Event.{Event}
use open_claw_bridge.Connector.Payload.{
  Envelope, lookup, decode_payload, string_value, normal, extract_content, extract_run_id,
  extract_correlation_id, extract_error_message_from_payload, extract_error_message,
}
use open_claw_bridge.Connector.Events.{
  token_event, end_event, is_pending_status, is_final_status, is_error_status, tokens,
  map_gateway_event,
}
use open_claw_bridge.Connector.Events.Laws.{
  IsReply, ends, fails, silent, closes, says_last, tokens-IsReply, tokens_end-IsReply, if-IsReply,
  error_message-nonempty, failure-nonempty, cons-nonempty, map_gateway_event-IsReply,
}
use open_claw_bridge.Connector.Gateway.{
  Client, track_run, note_run, answer, answer_ok, is_ok, emit_tokens, finish, request_failed,
  answer_plain, request_session, resolve_session_id, handle_response, handle_event, emit_step,
  emit_all,
}
use open_claw_bridge.Connector.Gateway.Tracks.{IsAnswer, emit_all-IsAnswer}

-- The events that a response to a request stands for.
abbrev pub plain_events : Bytes → List Event
plain_events [] = []
plain_events (x ∷ content) = token_event (x ∷ content) ∷ end_event ∷ []

abbrev pub ok_events : Codec → Fields → List Event
ok_events c fs =
    let status = normal (string_value c (lookup (codes "status") fs)) in
    let content = extract_content c fs in
    if is_pending_status status
    then tokens content
    else if is_final_status status
    then tokens content ++ end_event ∷ []
    else if is_error_status status
    then request_failed (extract_error_message_from_payload c fs) ∷ []
    else plain_events content

abbrev pub response_events : Codec → Envelope → List Event
response_events c env =
    if is_ok env.ok_field
    then ok_events c (decode_payload c env.payload)
    else request_failed (extract_error_message c env) ∷ []

plain_events-IsReply : (s : Bytes) → IsReply (plain_events s)
plain_events-IsReply [] = silent
plain_events-IsReply (x ∷ s) = says_last (x ∷ s) end_event (cons-nonempty x s) ends

pub response_events-IsReply : (c : Codec) (env : Envelope) → IsReply (response_events c env)
response_events-IsReply c env =
    let fs = decode_payload c env.payload in
    let status = normal (string_value c (lookup (codes "status") fs)) in
    let content = extract_content c fs in
    if-IsReply (is_ok env.ok_field)
      (if-IsReply (is_pending_status status) (tokens-IsReply content) (
        if-IsReply (is_final_status status) (tokens_end-IsReply content end_event ends) (
          if-IsReply (is_error_status status) (closes _ (fails _ _ (error_message-nonempty c fs)))
            (plain_events-IsReply content))))
      (closes _ (fails _ _ (failure-nonempty c env)))

emit_tokens-tokens :
    (sid content : Bytes) (s : Client) → emit_tokens sid content s ≡ emit_all sid (tokens content) s
unfolding emit_all emit_step text_eq
emit_tokens-tokens sid [] s = refl
emit_tokens-tokens sid (x ∷ content) s = refl

finish-tokens :
    (sid content : Bytes) (s : Client)
    → finish sid end_event (emit_tokens sid content s)
      ≡ emit_all sid (tokens content ++ end_event ∷ []) s
unfolding emit_all emit_step text_eq
finish-tokens sid [] s = refl
finish-tokens sid (x ∷ content) s = refl

finish_failed :
    (sid message : Bytes) (s : Client)
    → finish sid (request_failed message) s ≡ emit_all sid (request_failed message ∷ []) s
unfolding emit_all emit_step text_eq
finish_failed sid message s = refl

answer_plain_lem :
    (sid content : Bytes) (s : Client)
    → answer_plain sid content s ≡ emit_all sid (plain_events content) s
unfolding emit_all emit_step text_eq
answer_plain_lem sid [] s = refl
answer_plain_lem sid (x ∷ content) s = refl

if-same :
    {A B : Type 0} (f : A → B) {x y : B} {u v : A} (b : Bool)
    → x ≡ f u
    → y ≡ f v
    → (if b then x else y) ≡ f (if b then u else v)
if-same f true p q = p
if-same f false p q = q

answer_ok_lem :
    (c : Codec) (sid : Bytes) (fs : Fields) (s : Client)
    → answer_ok c sid fs s ≡ emit_all sid (ok_events c fs) s
answer_ok_lem c sid fs s =
    let status = normal (string_value c (lookup (codes "status") fs)) in
    let content = extract_content c fs in
    let run : List Event → Client = λ es. emit_all sid es s in
    if-same run (is_pending_status status) (emit_tokens-tokens sid content s) (
      if-same run (is_final_status status) (finish-tokens sid content s) (
        if-same run (is_error_status status)
          (finish_failed sid (extract_error_message_from_payload c fs) s)
          (answer_plain_lem sid content s)))

-- The branches of `handle_response` come to this: the run is noted, then the events are emitted.
pub answer_lem :
    (c : Codec) (sid : Bytes) (env : Envelope) (s : Client)
    → answer c sid env s
      ≡ emit_all sid
          (response_events c env)
          (note_run (extract_run_id c (decode_payload c env.payload)) sid s)
answer_lem c sid env s =
    let fs = decode_payload c env.payload in
    let s₁ = note_run (extract_run_id c fs) sid s in
    if-same (λ es. emit_all sid es s₁) (is_ok env.ok_field) (answer_ok_lem c sid fs s₁)
      (finish_failed sid (extract_error_message c env) s₁)

note_run-IsAnswer :
    (run sid : Bytes) (es : List Event) (s s' : Client)
    → IsAnswer sid es (note_run run sid s) s'
    → IsAnswer sid es s s'
unfolding track_run
note_run-IsAnswer [] sid es s s' h = h
note_run-IsAnswer (x ∷ run) sid es s s' h = record {
  told = h.told;
  released = h.released;
  kept = h.kept;
  written_same = h.written_same;
  listening_same = h.listening_same;
}

-- A response whose request is tied to a session answers that session and no other: its events are a
-- reply, they are emitted in order with that session's id, and when one of them closes the answer, no
-- request and no run is tied to the session any more; otherwise every request stays tied.
pub handle_response_answers :
    (c : Codec) (env : Envelope) (s : Client) (sid : Bytes)
    → env.id ≢ []
    → request_session s env.id ≡ some sid
    → IsReply (response_events c env)
      × IsAnswer sid (response_events c env) s (handle_response c env s)
unfolding handle_response
handle_response_answers c env s sid hi ht =
    let run = extract_run_id c (decode_payload c env.payload) in
    (
      response_events-IsReply c env,
      rw (text_eq_of_ne env.id [] hi, ht, answer_lem c sid env s)
          (note_run-IsAnswer run sid (response_events c env) s _
            (emit_all-IsAnswer sid (response_events c env) (note_run run sid s))),
    )

-- The session that an event is for.
abbrev pub event_session : Codec → Envelope → Client → Bytes
event_session c env s =
    let fs = decode_payload c env.payload in
    resolve_session_id c (extract_correlation_id c env fs) (extract_run_id c fs) fs s

-- An event of the gateway that has a session answers that session and no other, in the same way.
pub handle_event_answers :
    (c : Codec) (env : Envelope) (s : Client)
    → event_session c env s ≢ []
    → IsReply (map_gateway_event c env)
      × IsAnswer (event_session c env s) (map_gateway_event c env) s (handle_event c env s)
unfolding handle_event
handle_event_answers c env s h = (
  map_gateway_event-IsReply c env,
  rw (text_eq_of_ne (event_session c env s) [] h)
      (emit_all-IsAnswer (event_session c env s) (map_gateway_event c env) s),
)
