-- ===== src/Connector/Bridge.antt =====
-- connector/pkg/bridge/gateway_bridge.go: the bridge between the sessions of the relay and a gateway.
-- The gateway, the interface GatewaySender, is a state `G` with the interface's operations. The calls
-- of relay.SendData are the list `sent`, the newest last: the bridge only logs what they return.
pub mod Laws
pub mod Flags
use open_claw_bridge.Common.{
  ℕ, Bool, true, false, not, Option, none, some, List, [], ◌∷◌, ◌++◌, if◌then◌else◌, Result, ok,
  err, ◌==◌,
}
use open_claw_bridge.Text.{Bytes, codes, text_eq}
use open_claw_bridge.GoMap.{Map, get, put, delete, size}
use open_claw_bridge.Json.{Codec}
use open_claw_bridge.Protocol.Event.{Event, event_user_message, encode_event, decode_event}
use open_claw_bridge.Connector.Events.{error_event}

-- An error is its text, and `none` is nil.
pub record GatewaySender (G : Type 0) : Type 0 where
  pub send_user_message : Bytes → Event → G → G × Option Bytes
  pub send_cancel : Bytes → G → G × Option Bytes
  pub is_ready : G → Bool

-- A session is its flags. Of a gateway that is not bound there is none.
pub record GatewayBridge (G : Type 0) : Type 0 where
  pub sessions : Map ℕ
  pub gateway : Option G
  pub sent : List (Bytes × ℕ × Bytes)

-- for sid, state := range b.sessions { return sid, state.flags, true }
abbrev first_entry : Map ℕ → Option (Bytes × ℕ)
first_entry [] = none
first_entry (e ∷ m) = some e

abbrev pub with_flags : Bytes → Option ℕ → Option (Bytes × ℕ)
with_flags sid none = none
with_flags sid (some flags) = some (sid, flags)

abbrev pub disconnected : Bytes → Event
disconnected e = error_event (codes "GATEWAY_DISCONNECTED") (codes "gateway disconnected: " ++ e)

module _ {G : Type 0} where
  unfoldable pub bind_gateway : G → GatewayBridge G → GatewayBridge G
  bind_gateway x b = record b { gateway = some x }

  unfoldable pub open_session : Bytes → GatewayBridge G → GatewayBridge G
  unfolding get put
  open_session sid b = elim (get b.sessions sid) [
    | some flags ↦ b
    | none ↦ record b { sessions = put b.sessions sid 0 }
  ]

  unfoldable pub close_session : Bytes → GatewayBridge G → GatewayBridge G
  unfolding delete
  close_session sid b = record b { sessions = delete b.sessions sid }

  -- What is sent once the event is encoded.
  abbrev pub send_encoded :
      {E : Type 0} → Bytes → ℕ → Result E Bytes → GatewayBridge G → GatewayBridge G
  send_encoded sid flags (err e) b = b
  send_encoded sid flags (ok payload) b = record b { sent = b.sent ++ (sid, flags, payload) ∷ [] }

  unfoldable pub send_event : Codec → Bytes → ℕ → Event → GatewayBridge G → GatewayBridge G
  unfolding encode_event
  send_event c sid flags event b = send_encoded sid flags (encode_event c event) b

  -- What the gateway answered, and the error event under this code if it failed.
  abbrev pub after_call :
      Codec → Bytes → ℕ → Bytes → G × Option Bytes → GatewayBridge G → GatewayBridge G
  after_call c sid flags code (x, none) b = record b { gateway = some x }
  after_call c sid flags code (x, some e) b =
      send_event c sid flags (error_event code e) (record b { gateway = some x })

  -- The switch on the type of the event.
  abbrev pub call_gateway :
      GatewaySender G → Codec → Bytes → ℕ → Event → G → GatewayBridge G → GatewayBridge G
  call_gateway g c sid flags event x b =
      if text_eq event.type event_user_message
      then after_call c sid flags (codes "GATEWAY_SEND_FAILED") (g.send_user_message sid event x) b
      else if text_eq event.type (codes "control")
      then (if not (text_eq event.action (codes "stop"))
          then send_event c sid flags
              (error_event (codes "UNSUPPORTED_CONTROL") (codes "unsupported control action")) b
          else after_call c sid flags (codes "GATEWAY_CANCEL_FAILED") (g.send_cancel sid x) b)
      else send_event c sid flags
          (error_event (codes "UNSUPPORTED_EVENT") (codes "unsupported event type")) b

  abbrev pub pass_on :
      GatewaySender G → Codec → Bytes → ℕ → Event → Option G → GatewayBridge G → GatewayBridge G
  pass_on g c sid flags event none b =
      send_event c sid flags
        (error_event (codes "GATEWAY_NOT_CONFIGURED") (codes "gateway client not configured")) b
  pass_on g c sid flags event (some x) b =
      if not (g.is_ready x)
      then send_event c sid flags
          (error_event (codes "GATEWAY_NOT_READY") (codes "gateway not ready")) b
      else call_gateway g c sid flags event x b

  abbrev pub handle_in :
      GatewaySender G → Codec → Bytes → ℕ → Event → Option ℕ → GatewayBridge G → GatewayBridge G
  handle_in g c sid flags event none b =
      send_event c sid flags (error_event (codes "SESSION_NOT_OPEN") (codes "session not open")) b
  handle_in g c sid flags event (some old) b =
      pass_on g c sid flags event b.gateway (record b { sessions = put b.sessions sid flags })

  abbrev pub handle_decoded :
      {E : Type 0}
      → GatewaySender G
      → Codec
      → Bytes
      → ℕ
      → Result E Event
      → GatewayBridge G
      → GatewayBridge G
  handle_decoded g c sid flags (err e) b =
      send_event c sid flags (error_event (codes "BAD_EVENT") (codes "invalid event payload")) b
  handle_decoded g c sid flags (ok event) b = handle_in g c sid flags event (get b.sessions sid) b

  unfoldable pub handle_data :
      GatewaySender G → Codec → Bytes → ℕ → Bytes → GatewayBridge G → GatewayBridge G
  unfolding decode_event get put text_eq send_event
  handle_data g c sid flags payload b = handle_decoded g c sid flags (decode_event c payload) b

  unfoldable pub resolve_session : Bytes → GatewayBridge G → Option (Bytes × ℕ)
  unfolding get size
  resolve_session [] b = if size b.sessions == 1 then first_entry b.sessions else none
  resolve_session (x ∷ sid) b = with_flags (x ∷ sid) (get b.sessions (x ∷ sid))

  abbrev pub send_resolved : Codec → Event → Option (Bytes × ℕ) → GatewayBridge G → GatewayBridge G
  send_resolved c event none b = b
  send_resolved c event (some (sid, flags)) b = send_event c sid flags event b

  unfoldable pub handle_gateway_event : Codec → Bytes → Event → GatewayBridge G → GatewayBridge G
  unfolding resolve_session send_event
  handle_gateway_event c sid event b = send_resolved c event (resolve_session sid b) b

  unfoldable pub send_each : Codec → Event → Map ℕ → GatewayBridge G → GatewayBridge G
  unfolding send_event
  send_each c event [] b = b
  send_each c event ((sid, flags) ∷ m) b = send_each c event m (send_event c sid flags event b)

  unfoldable pub handle_gateway_disconnected : Codec → Bytes → GatewayBridge G → GatewayBridge G
  unfolding send_each
  handle_gateway_disconnected c e b = send_each c (disconnected e) b.sessions b
