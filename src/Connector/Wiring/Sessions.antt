-- ===== src/Connector/Wiring/Sessions.antt =====
-- The connector of connector/main.go: which sessions are open.
use open_claw_bridge.Common.{
  ℕ, Bool, true, false, ◌||◌, Option, none, some, List, [], ◌∷◌, if◌then◌else◌, arith, Result, ok,
  err, ◌≡◌, refl, ap, ◌∙◌, Bool-cases, inl, inr,
}
use open_claw_bridge.Text.{Bytes, text_eq}
use open_claw_bridge.Text.Laws.{text_eq_iff}
use open_claw_bridge.GoMap.{Map, get, put}
use open_claw_bridge.GoMap.Laws.{get-put, get-delete}
use open_claw_bridge.Json.{Codec}
use open_claw_bridge.Protocol.Frame.{FrameError, DataFrame, parse_data_frame}
use open_claw_bridge.Protocol.Control.{
  ControlMessage, ControlError, decode_control, type_session_open, type_close_session,
}
use open_claw_bridge.Protocol.Event.{Event, EventError, decode_event}
use open_claw_bridge.Relay.Network
use open_claw_bridge.Relay.Network.{Message, Read, binary, received, read_error}
use open_claw_bridge.Connector.Payload.{Envelope}
use open_claw_bridge.Connector.Gateway.{World, Client}
use open_claw_bridge.Connector.Bridge
use open_claw_bridge.Connector.Bridge.{
  GatewaySender, GatewayBridge, handle_data, handle_decoded, handle_in, handle_gateway_event,
  handle_gateway_disconnected, disconnected, send_each, send_event, send_resolved, resolve_session,
}
use open_claw_bridge.Connector.Bridge.Flags.{send_event-sessions, pass_on-sessions}
use open_claw_bridge.Connector.Reconnect.{close_conn, set_ready}
use open_claw_bridge.Connector.RelayClient.{
  LinkEnv, Activity, incoming, heartbeat, receive, on_activity, on_text, on_binary, begin_serve,
  settle_register, link_control, link_set, register_request, RelayClient, LinkError,
}
use open_claw_bridge.Connector.Wiring.{
  Connector, gateway_sender, with_bridge, on_relay_control, connector_host, pass_events,
  client_message, gateway_message, gateway_ready, gateway_lost, with_client, Input, relay_dialed,
  relay_activity, gateway_up, gateway_says, gateway_gone, connector_step, world_at,
}

-- Whether a session is open in a bridge.
abbrev pub is_known : Option ℕ → Bool
is_known none = false
is_known (some flags) = true

abbrev pub is_open : Bytes → GatewayBridge Client → Bool
is_open sid b = is_known (get b.sessions sid)

-- What a control message makes of a session: SESSION_OPEN opens the one it names, CLOSE_SESSION
-- closes it.
abbrev pub after_control : ControlMessage → Bytes → Bool → Bool
after_control m sid old =
    if text_eq m.type type_session_open
    then text_eq m.session_id sid || old
    else if text_eq m.type type_close_session
    then if text_eq m.session_id sid then false else old
    else old

open_session-is_open :
    (k sid : Bytes) (b : GatewayBridge Client)
    → is_open sid (Bridge.open_session k b) ≡ text_eq k sid || is_open sid b
unfolding Bridge.open_session
open_session-is_open k sid b = ground (arith, get-put b.sessions k sid 0, text_eq_iff k sid)

close_session-is_open :
    (k sid : Bytes) (b : GatewayBridge Client)
    → is_open sid (Bridge.close_session k b) ≡ (if text_eq k sid then false else is_open sid b)
unfolding Bridge.close_session
close_session-is_open k sid b = ground (arith, get-delete b.sessions k sid)

on_relay_control-is_open :
    (m : ControlMessage) (sid : Bytes) (b : GatewayBridge Client)
    → is_open sid (on_relay_control m b) ≡ after_control m sid (is_open sid b)
unfolding on_relay_control
on_relay_control-is_open m sid b = elim (Bool-cases (text_eq m.type type_session_open)) [
  | inl o ↦ rw o (open_session-is_open m.session_id sid b)
  | inr o ↦ elim (Bool-cases (text_eq m.type type_close_session)) [
    | inl c ↦ rw (o, c) (close_session-is_open m.session_id sid b)
    | inr c ↦ rw (o, c) refl
  ]
]

-- Everything else that a bridge does leaves the open sessions open, and opens none.
handle_in-is_open :
    (g : GatewaySender Client) (c : Codec) (k : Bytes) (flags : ℕ) (event : Event) (o : Option ℕ)
    (sid : Bytes) (b : GatewayBridge Client)
    → get b.sessions k ≡ o
    → is_open sid (handle_in g c k flags event o b) ≡ is_open sid b
handle_in-is_open g c k flags event none sid b h =
    ap (λ m. is_known (get m sid)) (send_event-sessions c k flags _ b)
handle_in-is_open g c k flags event (some old) sid b h =
    ap (λ m. is_known (get m sid))
      (pass_on-sessions g c k flags event b.gateway
        (record b { sessions = put b.sessions k flags }))
    ∙ ground (arith, get-put b.sessions k sid flags, text_eq_iff k sid)

handle_decoded-is_open :
    (g : GatewaySender Client) (c : Codec) (k : Bytes) (flags : ℕ) (r : Result EventError Event)
    (sid : Bytes) (b : GatewayBridge Client)
    → is_open sid (handle_decoded g c k flags r b) ≡ is_open sid b
handle_decoded-is_open g c k flags (err e) sid b =
    ap (λ m. is_known (get m sid)) (send_event-sessions c k flags _ b)
handle_decoded-is_open g c k flags (ok event) sid b =
    handle_in-is_open g c k flags event (get b.sessions k) sid b refl

handle_data-is_open :
    (g : GatewaySender Client) (c : Codec) (k : Bytes) (flags : ℕ) (payload sid : Bytes)
    (b : GatewayBridge Client)
    → is_open sid (handle_data g c k flags payload b) ≡ is_open sid b
unfolding handle_data
handle_data-is_open g c k flags payload sid b =
    handle_decoded-is_open g c k flags (decode_event c payload) sid b

send_resolved-sessions :
    (c : Codec) (e : Event) (o : Option (Bytes × ℕ)) (b : GatewayBridge Client)
    → (send_resolved c e o b).sessions ≡ b.sessions
send_resolved-sessions c e none b = refl
send_resolved-sessions c e (some (sid, flags)) b = send_event-sessions c sid flags e b

pub pass_events-sessions :
    (c : Codec) (es : List (Bytes × Event)) (b : GatewayBridge Client)
    → (pass_events c es b).sessions ≡ b.sessions
unfolding pass_events handle_gateway_event
pass_events-sessions c [] b = refl
pass_events-sessions c ((sid, e) ∷ es) b =
    pass_events-sessions c es (handle_gateway_event c sid e b)
    ∙ send_resolved-sessions c e (resolve_session sid b) b

client_message-sessions :
    (c : Codec) (m : Envelope) (o : Option Client) (b : GatewayBridge Client)
    → (client_message c m o b).sessions ≡ b.sessions
client_message-sessions c m none b = refl
client_message-sessions c m (some x) b = pass_events-sessions c _ _

send_each-sessions :
    (c : Codec) (e : Event) (m : Map ℕ) (b : GatewayBridge Client)
    → (send_each c e m b).sessions ≡ b.sessions
unfolding send_each
send_each-sessions c e [] b = refl
send_each-sessions c e ((sid, flags) ∷ m) b =
    send_each-sessions c e m (send_event c sid flags e b) ∙ send_event-sessions c sid flags e b

gateway_disconnected-sessions :
    (c : Codec) (e : Bytes) (b : GatewayBridge Client)
    → (handle_gateway_disconnected c e b).sessions ≡ b.sessions
unfolding handle_gateway_disconnected
gateway_disconnected-sessions c e b = send_each-sessions c (disconnected e) b.sessions b

-- The control message that a step of the connector takes, if it takes one.
abbrev pub control_read : Codec → Activity → Option ControlMessage
control_read c heartbeat = none
control_read c (incoming read_error) = none
control_read c (incoming (received (binary b))) = none
control_read c (incoming (received (Network.text b))) = elim (decode_control c b) [
  | err e ↦ none
  | ok m ↦ some m
]

abbrev pub control_of : Codec → Connector → Input → Option ControlMessage
control_of c s (relay_activity t e a) = if s.relay.connected then control_read c a else none
control_of c s _ = none

abbrev pub after_input : Option ControlMessage → Bytes → Bool → Bool
after_input none sid old = old
after_input (some m) sid old = after_control m sid old

on_text-is_open :
    (env : LinkEnv) (w : World) (r : Result ControlError ControlMessage) (sid : Bytes)
    (s : Connector)
    → is_open sid (on_text (connector_host env w) r s).bridge
      ≡ after_input (elim r [ err e ↦ none | ok m ↦ some m ]) sid (is_open sid s.bridge)
unfolding with_bridge
on_text-is_open env w (err e) sid s = refl
on_text-is_open env w (ok m) sid s = on_relay_control-is_open m sid (record s.bridge { sent = [] })

on_binary-is_open :
    (env : LinkEnv) (w : World) (r : Result FrameError DataFrame) (sid : Bytes) (s : Connector)
    → is_open sid (on_binary (connector_host env w) r s).bridge ≡ is_open sid s.bridge
unfolding with_bridge
on_binary-is_open env w (err e) sid s = refl
on_binary-is_open env w (ok d) sid s =
    handle_data-is_open (gateway_sender w) env.codec d.session_id d.flags d.payload sid
      (record s.bridge { sent = [] })

on_activity-is_open :
    (env : LinkEnv) (w : World) (a : Activity) (sid : Bytes) (s : Connector)
    → is_open sid (on_activity (connector_host env w) env a s).bridge
      ≡ after_input (control_read env.codec a) sid (is_open sid s.bridge)
unfolding on_activity receive
on_activity-is_open env w heartbeat sid s = refl
on_activity-is_open env w (incoming read_error) sid s = refl
on_activity-is_open env w (incoming (received (binary b))) sid s =
    on_binary-is_open env w (parse_data_frame b) sid s
on_activity-is_open env w (incoming (received (Network.text b))) sid s =
    on_text-is_open env w (decode_control env.codec b) sid s

settle_register-bridge :
    (env : LinkEnv) (w : World) (r : RelayClient × Option LinkError) (s : Connector)
    → (settle_register (connector_host env w) r s).bridge ≡ s.bridge
settle_register-bridge env w (l, none) s = refl
settle_register-bridge env w (l, some e) s = refl

begin_serve-bridge :
    (env : LinkEnv) (w : World) (dialed : Bool) (s : Connector)
    → (begin_serve (connector_host env w) env dialed s).bridge ≡ s.bridge
unfolding begin_serve
begin_serve-bridge env w false s = refl
begin_serve-bridge env w true s =
    settle_register-bridge env w (link_control env (register_request env) (link_set s.relay)) s

-- Whatever reaches the connector, a session is open after the step if it was and no CLOSE_SESSION
-- names it, or if a SESSION_OPEN does. Nothing else opens or closes one: not the messages and events
-- of the session, not an end of the gateway, and not an end of the connection to the relay.
pub connector_step-is_open :
    (env : LinkEnv) (s : Connector) (i : Input) (sid : Bytes)
    → is_open sid (connector_step env s i).bridge
      ≡ after_input (control_of env.codec s i) sid (is_open sid s.bridge)
unfolding connector_step gateway_message gateway_ready gateway_lost with_bridge
connector_step-is_open env s (relay_dialed dialed) sid = elim (Bool-cases s.relay.connected) [
  | inl h ↦ simp h refl
  | inr h ↦ simp h (ap (λ b. is_open sid b) (begin_serve-bridge env (world_at env 0 none) dialed s))
]
connector_step-is_open env s (relay_activity t e a) sid = elim (Bool-cases s.relay.connected) [
  | inl h ↦ simp h (on_activity-is_open env (world_at env t e) a sid s)
  | inr h ↦ simp h refl
]
connector_step-is_open env s gateway_up sid = refl
connector_step-is_open env s (gateway_says m) sid =
    ap (λ k. is_known (get k sid))
      (client_message-sessions env.codec m s.bridge.gateway (record s.bridge { sent = [] }))
connector_step-is_open env s (gateway_gone e) sid =
    ap (λ k. is_known (get k sid))
      (gateway_disconnected-sessions env.codec e
        (with_client (λ x. close_conn (set_ready false x)) (record s.bridge { sent = [] })))
