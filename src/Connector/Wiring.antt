-- ===== src/Connector/Wiring.antt =====
-- connector/main.go: the relay client, the bridge and the gateway client put together. The client of
-- the gateway is the one that the bridge is bound to. Each message of the relay or of the gateway is
-- handled in one step.
pub mod Sessions
pub mod Frames
pub mod Answers
pub mod Running
use open_claw_bridge.Common.{
  ℕ, Bool, true, false, Option, none, some, List, [], ◌∷◌, ◌++◌, if◌then◌else◌,
}
use open_claw_bridge.Text.{Bytes, text_eq}
use open_claw_bridge.Json.{Codec}
use open_claw_bridge.Protocol.Control.{ControlMessage, type_session_open, type_close_session}
use open_claw_bridge.Protocol.Event.{Event}
use open_claw_bridge.Connector.Payload.{Envelope}
use open_claw_bridge.Connector.Gateway.{
  World, Client, new_client, send_user_message, send_cancel, dispatch,
}
use open_claw_bridge.Connector.Bridge
use open_claw_bridge.Connector.Bridge.{
  GatewaySender, GatewayBridge, handle_data, handle_gateway_event, handle_gateway_disconnected,
}
use open_claw_bridge.Connector.Reconnect.{set_conn, close_conn, set_ready}
use open_claw_bridge.Connector.RelayClient.{
  LinkEnv, RelayClient, new_relay_client, Host, Activity, link_data, begin_serve, on_activity,
}

unfoldable pub is_ready : Client → Bool
is_ready s = s.ready

-- The gateway client as the gateway of the bridge.
abbrev pub gateway_sender : World → GatewaySender Client
gateway_sender w = record {
  send_user_message = send_user_message w;
  send_cancel = send_cancel w;
  is_ready = is_ready;
}

pub record Connector : Type 0 where
  pub relay : RelayClient
  pub bridge : GatewayBridge Client

unfoldable pub new_connector : Connector
new_connector = record {
  relay = new_relay_client;
  bridge = record { sessions = []; gateway = some new_client; sent = [] };
}

-- The calls of relay.SendData in order; the bridge only logs an error of one.
unfoldable pub send_frames : LinkEnv → List (Bytes × ℕ × Bytes) → RelayClient → RelayClient
send_frames env [] l = l
send_frames env ((sid, flags, payload) ∷ fs) l =
    send_frames env fs (link_data env sid flags payload l).0

-- A step of the bridge, whose calls of SendData go to the relay client.
unfoldable pub with_bridge :
    LinkEnv → (GatewayBridge Client → GatewayBridge Client) → Connector → Connector
with_bridge env f s =
    let b = f (record s.bridge { sent = [] }) in
    record { relay = send_frames env b.sent s.relay; bridge = record b { sent = [] } }

-- The switch of the callback for control messages.
unfoldable pub on_relay_control : ControlMessage → GatewayBridge Client → GatewayBridge Client
on_relay_control m b =
    if text_eq m.type type_session_open
    then Bridge.open_session m.session_id b
    else if text_eq m.type type_close_session
    then Bridge.close_session m.session_id b
    else b

abbrev pub connector_host : LinkEnv → World → Host Connector
connector_host env w = record {
  link = λ s. s.relay;
  with_link = λ l s. record s { relay = l };
  on_control = λ m s. with_bridge env (on_relay_control m) s;
  on_data = λ sid flags payload s.
      with_bridge env (handle_data (gateway_sender w) env.codec sid flags payload) s;
}

-- The calls of OnEvent for the events that the client emits.
unfoldable pub pass_events :
    Codec → List (Bytes × Event) → GatewayBridge Client → GatewayBridge Client
pass_events c [] b = b
pass_events c ((sid, e) ∷ es) b = pass_events c es (handle_gateway_event c sid e b)

-- A message of the gateway, from the read loop of its client on.
abbrev pub client_message :
    Codec → Envelope → Option Client → GatewayBridge Client → GatewayBridge Client
client_message c env none b = b
client_message c env (some x) b =
    let y = dispatch c env (record x { emitted = [] }) in
    pass_events c y.emitted (record b { gateway = some (record y { emitted = [] }) })

unfoldable pub gateway_message : LinkEnv → Envelope → Connector → Connector
gateway_message env m s = with_bridge env (λ b. client_message env.codec m b.gateway b) s

abbrev pub on_client : (Client → Client) → Option Client → Option Client
on_client f none = none
on_client f (some x) = some (f x)

abbrev pub with_client : (Client → Client) → GatewayBridge Client → GatewayBridge Client
with_client f b = record b { gateway = on_client f b.gateway }

-- The handshake with the gateway is done.
unfoldable pub gateway_ready : Connector → Connector
gateway_ready s = record s { bridge = with_client (λ x. set_ready true (set_conn x)) s.bridge }

-- An attempt of the gateway client ends: its deferred calls, and then OnDisconnected with the error.
unfoldable pub gateway_lost : LinkEnv → Bytes → Connector → Connector
gateway_lost env e s =
    with_bridge env
      (λ b.
        handle_gateway_disconnected env.codec e
          (with_client (λ x. close_conn (set_ready false x)) b))
      s

-- What reaches the connector: the outcome of a Dial to the relay; what happens on that connection,
-- with the clock and the outcome of a write to the gateway; the gateway.
pub data Input : Type 0 where
  relay_dialed : Bool → Input
  relay_activity : ℕ → Option Bytes → Activity → Input
  gateway_up : Input
  gateway_says : Envelope → Input
  gateway_gone : Bytes → Input

abbrev pub world_at : LinkEnv → ℕ → Option Bytes → World
world_at env t e = record { codec = env.codec; unix_nano = t; write_error = e }

-- The read loop and the heartbeat run only while the connection is up.
unfoldable pub connector_step : LinkEnv → Connector → Input → Connector
connector_step env s (relay_dialed dialed) =
    if s.relay.connected
    then s
    else begin_serve (connector_host env (world_at env 0 none)) env dialed s
connector_step env s (relay_activity t e a) =
    if s.relay.connected then on_activity (connector_host env (world_at env t e)) env a s else s
connector_step env s gateway_up = gateway_ready s
connector_step env s (gateway_says m) = gateway_message env m s
connector_step env s (gateway_gone e) = gateway_lost env e s

unfoldable pub connector_run : LinkEnv → Connector → List Input → Connector
connector_run env s [] = s
connector_run env s (i ∷ is) = connector_run env (connector_step env s i) is
