-- ===== src/Connector/Reconnect/Ready.antt =====
-- connectAndServe and Run of connector/pkg/gatewayclient/client.go: when the client is ready.
use open_claw_bridge.Common.{
  true, false, Option, none, some, List, [], ◌∷◌, arith, ◌≡◌, refl, ◌∙◌, Bool-cases, Option-cases,
  inl, inr,
}
use open_claw_bridge.Text.{Bytes, codes, text_eq}
use open_claw_bridge.Json.{Codec}
use open_claw_bridge.Relay.Network
use open_claw_bridge.Relay.Network.{Message, Read, binary, received, read_error}
use open_claw_bridge.Protocol.Event.{Event}
use open_claw_bridge.Connector.Payload.{Envelope, decode_payload, extract_run_id}
use open_claw_bridge.Connector.Events.{map_gateway_event}
use open_claw_bridge.Connector.Settings.{GatewayConfig}
use open_claw_bridge.Connector.Gateway.{
  Client, note_run, track_run, answer, emit_step, emit_all, emit_event, clear_session_tracks,
  handle_response, handle_event, dispatch, request_session,
}
use open_claw_bridge.Connector.Gateway.Answers.{answer_lem, response_events, event_session}
use open_claw_bridge.Connector.Handshake.{
  Wait, waiting, passed, refused, decode_envelope, wait_for_challenge, perform_connect,
}
use open_claw_bridge.Connector.Reconnect.{
  Round, Standing, connecting, serving, ended, dispatch_text, serve_message, serve, after_connect,
  connect_id, send_connect, after_challenge, connect_and_serve, set_conn, close_conn, set_ready,
}

-- The flags of the connection are the same.
abbrev pub SameFlags : Client → Client → Type 0
SameFlags s s' = (s'.ready ≡ s.ready) × (s'.connected ≡ s.connected)

emit_step-SameFlags : (sid : Bytes) (e : Event) (s : Client) → SameFlags s (emit_step sid e s)
unfolding emit_step emit_event clear_session_tracks
emit_step-SameFlags sid e s = ground arith

emit_all-SameFlags : (sid : Bytes) (es : List Event) (s : Client) → SameFlags s (emit_all sid es s)
unfolding emit_all
emit_all-SameFlags sid [] s = (refl, refl)
emit_all-SameFlags sid (e ∷ es) s =
    let (r, q) = emit_all-SameFlags sid es (emit_step sid e s) in
    (r ∙ (emit_step-SameFlags sid e s).0, q ∙ (emit_step-SameFlags sid e s).1)

note_run-SameFlags : (run sid : Bytes) (s : Client) → SameFlags s (note_run run sid s)
unfolding track_run
note_run-SameFlags [] sid s = (refl, refl)
note_run-SameFlags (x ∷ run) sid s = (refl, refl)

answer-SameFlags :
    (c : Codec) (sid : Bytes) (env : Envelope) (s : Client) → SameFlags s (answer c sid env s)
answer-SameFlags c sid env s =
    let run = extract_run_id c (decode_payload c env.payload) in
    let (r, q) = emit_all-SameFlags sid (response_events c env) (note_run run sid s) in
    let (r', q') = note_run-SameFlags run sid s in rw (answer_lem c sid env s) (r ∙ r', q ∙ q')

handle_response-SameFlags :
    (c : Codec) (env : Envelope) (s : Client) → SameFlags s (handle_response c env s)
unfolding handle_response
handle_response-SameFlags c env s = elim (Bool-cases (text_eq env.id [])) [
  | inl e ↦ rw e (refl, refl)
  | inr e ↦ elim (Option-cases (request_session s env.id)) [
    | inl n ↦ rw (e, n) (refl, refl)
    | inr (sid, n) ↦ rw (e, n) (answer-SameFlags c sid env s)
  ]
]

handle_event-SameFlags :
    (c : Codec) (env : Envelope) (s : Client) → SameFlags s (handle_event c env s)
unfolding handle_event
handle_event-SameFlags c env s = elim (Bool-cases (text_eq (event_session c env s) [])) [
  | inl e ↦ rw e (refl, refl)
  | inr e ↦ rw e (emit_all-SameFlags (event_session c env s) (map_gateway_event c env) s)
]

pub dispatch-SameFlags : (c : Codec) (env : Envelope) (s : Client) → SameFlags s (dispatch c env s)
unfolding dispatch
dispatch-SameFlags c env s = elim (Bool-cases (text_eq env.type (codes "event"))) [
  | inl e ↦ rw e (handle_event-SameFlags c env s)
  | inr e ↦ elim (Bool-cases (text_eq env.type (codes "res"))) [
    | inl r ↦ rw (e, r) (handle_response-SameFlags c env s)
    | inr r ↦ rw (e, r) (refl, refl)
  ]
]

dispatch_text-SameFlags :
    (c : Codec) (o : Option Envelope) (s : Client) → SameFlags s (dispatch_text c o s)
dispatch_text-SameFlags c none s = (refl, refl)
dispatch_text-SameFlags c (some env) s = dispatch-SameFlags c env s

serve_message-SameFlags : (c : Codec) (m : Message) (s : Client) → SameFlags s (serve_message c m s)
serve_message-SameFlags c (Network.text b) s = dispatch_text-SameFlags c (decode_envelope c b) s
serve_message-SameFlags c (binary b) s = (refl, refl)

-- The client is ready, and connected, exactly while it serves.
abbrev pub Stands : Client × Standing → Type 0
Stands (s, serving) = (s.ready ≡ true) × (s.connected ≡ true)
Stands (s, connecting) = s.ready ≡ false
Stands (s, ended e) = s.ready ≡ false

serve-Stands :
    (c : Codec) (reads : List Read) (s : Client)
    → s.ready ≡ true
    → s.connected ≡ true
    → Stands (serve c reads s)
unfolding serve set_ready close_conn
serve-Stands c [] s r q = (r, q)
serve-Stands c (read_error ∷ reads) s r q = refl
serve-Stands c (received m ∷ reads) s r q =
    let (r', q') = serve_message-SameFlags c m s in
    serve-Stands c reads (serve_message c m s) (r' ∙ r) (q' ∙ q)

after_connect-Stands :
    (c : Codec) (w : Wait) (s : Client)
    → s.ready ≡ false
    → s.connected ≡ true
    → Stands (after_connect c w s)
unfolding set_ready close_conn
after_connect-Stands c waiting s r q = r
after_connect-Stands c (refused e) s r q = refl
after_connect-Stands c (passed reads) s r q = serve-Stands c reads (set_ready true s) refl q

send_connect-Stands :
    (c : Codec) (cfg : GatewayConfig) (r : Round) (reads : List Read) (o : Option Bytes)
    (s : Client)
    → s.ready ≡ false
    → s.connected ≡ true
    → Stands (send_connect c cfg r reads o s)
unfolding set_ready close_conn
send_connect-Stands c cfg r reads (some e) s hr hq = refl
send_connect-Stands c cfg r reads none s hr hq =
    after_connect-Stands c (perform_connect c (connect_id c r) reads) _ hr hq

after_challenge-Stands :
    (c : Codec) (cfg : GatewayConfig) (r : Round) (w : Wait) (s : Client)
    → s.ready ≡ false
    → s.connected ≡ true
    → Stands (after_challenge c cfg r w s)
unfolding set_ready close_conn
after_challenge-Stands c cfg r waiting s hr hq = hr
after_challenge-Stands c cfg r (refused e) s hr hq = refl
after_challenge-Stands c cfg r (passed reads) s hr hq =
    send_connect-Stands c cfg r reads r.write_error s hr hq

pub connect_and_serve-Stands :
    (c : Codec) (cfg : GatewayConfig) (r : Round) (s : Client)
    → s.ready ≡ false
    → Stands (connect_and_serve c cfg r s)
unfolding connect_and_serve set_ready set_conn
connect_and_serve-Stands c cfg r s h = elim (Bool-cases r.dialed) [
  | inl d ↦ rw d (
      after_challenge-Stands c cfg r (wait_for_challenge c r.reads) (set_ready false (set_conn s))
        refl refl)
  | inr d ↦ rw d h
]
