-- ===== src/Connector/Wiring/Frames.antt =====
-- The connector of connector/main.go: the frames that it writes to the relay.
use open_claw_bridge.Common.{
  ℕ, Bool, true, false, Option, none, some, List, [], ◌∷◌, ◌++◌, All, Result, ok, err, ◌≡◌, refl,
  Bool-cases, inl, inr,
}
use open_claw_bridge.Text.{Bytes}
use open_claw_bridge.Protocol.Frame.{FrameError, DataFrame, build_data_frame, parse_data_frame}
use open_claw_bridge.Protocol.Frame.Laws.{parse-build}
use open_claw_bridge.Protocol.Control.{ControlMessage, ControlError, decode_control}
use open_claw_bridge.Relay.Network
use open_claw_bridge.Relay.Network.{Message, Read, binary, received, read_error}
use open_claw_bridge.Connector.Gateway.{World, Client}
use open_claw_bridge.Connector.Bridge.{GatewayBridge}
use open_claw_bridge.Connector.RelayClient.{
  LinkEnv, RelayClient, LinkError, link_write, link_control, link_data, link_set, link_close,
  written_or, write_frame, Activity, incoming, heartbeat, receive, on_activity, on_text, on_binary,
  begin_serve, settle_register, register_request,
}
use open_claw_bridge.Connector.Wiring.{
  Connector, send_frames, with_bridge, connector_host, gateway_message, gateway_ready, gateway_lost,
  Input, relay_dialed, relay_activity, gateway_up, gateway_says, gateway_gone, connector_step,
  connector_run, world_at,
}

-- A message that the relay can parse, if it is a DATA frame at all.
abbrev pub IsFramed : Message → Type 0
IsFramed (Network.text b) = Unit
IsFramed (binary f) = (d : DataFrame) × (parse_data_frame f ≡ ok d)

abbrev pub AllFramed : RelayClient → Type 0
AllFramed l = All IsFramed l.written

All-snoc {ℓ κ} :
    {A : Type ℓ} (P : A → Type κ) (xs : List A) {x : A} → All P xs → P x → All P (xs ++ x ∷ [])
All-snoc P [] h p = (p, tt)
All-snoc P (y ∷ ys) h p = (h.0, All-snoc P ys h.1 p)

written_or-AllFramed :
    (o : Option Bytes) (m : Message) (l : RelayClient)
    → IsFramed m
    → AllFramed l
    → AllFramed (written_or o m l).0
written_or-AllFramed none m l f h = All-snoc IsFramed l.written h f
written_or-AllFramed (some e) m l f h = h

link_write-AllFramed :
    (env : LinkEnv) (m : Message) (l : RelayClient)
    → IsFramed m
    → AllFramed l
    → AllFramed (link_write env m l).0
unfolding link_write
link_write-AllFramed env m l f h = elim (Bool-cases l.connected) [
  | inl c ↦ simp c (written_or-AllFramed (env.fails l.attempts) m l f h)
  | inr c ↦ simp c h
]

write_frame-AllFramed :
    (env : LinkEnv) (sid : Bytes) (flags : ℕ) (payload : Bytes) (r : Result FrameError Bytes)
    (l : RelayClient)
    → build_data_frame sid flags payload ≡ r
    → AllFramed l
    → AllFramed (write_frame env r l).0
write_frame-AllFramed env sid flags payload (err e) l b h = h
write_frame-AllFramed env sid flags payload (ok f) l b h =
    link_write-AllFramed env (binary f) l (_, parse-build sid flags payload f b) h

link_data-AllFramed :
    (env : LinkEnv) (sid : Bytes) (flags : ℕ) (payload : Bytes) (l : RelayClient)
    → AllFramed l
    → AllFramed (link_data env sid flags payload l).0
unfolding link_data
link_data-AllFramed env sid flags payload l h =
    write_frame-AllFramed env sid flags payload (build_data_frame sid flags payload) l refl h

link_control-AllFramed :
    (env : LinkEnv) (m : ControlMessage) (l : RelayClient)
    → AllFramed l
    → AllFramed (link_control env m l).0
unfolding link_control
link_control-AllFramed env m l h = link_write-AllFramed env _ l tt h

send_frames-AllFramed :
    (env : LinkEnv) (fs : List (Bytes × ℕ × Bytes)) (l : RelayClient)
    → AllFramed l
    → AllFramed (send_frames env fs l)
unfolding send_frames
send_frames-AllFramed env [] l h = h
send_frames-AllFramed env ((sid, flags, payload) ∷ fs) l h =
    send_frames-AllFramed env fs (link_data env sid flags payload l).0
      (link_data-AllFramed env sid flags payload l h)

with_bridge-AllFramed :
    (env : LinkEnv) (f : GatewayBridge Client → GatewayBridge Client) (s : Connector)
    → AllFramed s.relay
    → AllFramed (with_bridge env f s).relay
unfolding with_bridge
with_bridge-AllFramed env f s h = send_frames-AllFramed env _ s.relay h

on_text-AllFramed :
    (env : LinkEnv) (w : World) (r : Result ControlError ControlMessage) (s : Connector)
    → AllFramed s.relay
    → AllFramed (on_text (connector_host env w) r s).relay
on_text-AllFramed env w (err e) s h = h
on_text-AllFramed env w (ok m) s h = with_bridge-AllFramed env _ s h

on_binary-AllFramed :
    (env : LinkEnv) (w : World) (r : Result FrameError DataFrame) (s : Connector)
    → AllFramed s.relay
    → AllFramed (on_binary (connector_host env w) r s).relay
on_binary-AllFramed env w (err e) s h = h
on_binary-AllFramed env w (ok d) s h = with_bridge-AllFramed env _ s h

on_activity-AllFramed :
    (env : LinkEnv) (w : World) (a : Activity) (s : Connector)
    → AllFramed s.relay
    → AllFramed (on_activity (connector_host env w) env a s).relay
unfolding on_activity receive link_close
on_activity-AllFramed env w heartbeat s h = link_control-AllFramed env _ s.relay h
on_activity-AllFramed env w (incoming read_error) s h = h
on_activity-AllFramed env w (incoming (received (binary b))) s h =
    on_binary-AllFramed env w (parse_data_frame b) s h
on_activity-AllFramed env w (incoming (received (Network.text b))) s h =
    on_text-AllFramed env w (decode_control env.codec b) s h

settle_register-AllFramed :
    (env : LinkEnv) (w : World) (r : RelayClient × Option LinkError) (s : Connector)
    → AllFramed r.0
    → AllFramed (settle_register (connector_host env w) r s).relay
unfolding link_close
settle_register-AllFramed env w (l, none) s h = h
settle_register-AllFramed env w (l, some e) s h = h

begin_serve-AllFramed :
    (env : LinkEnv) (w : World) (dialed : Bool) (s : Connector)
    → AllFramed s.relay
    → AllFramed (begin_serve (connector_host env w) env dialed s).relay
unfolding begin_serve link_set
begin_serve-AllFramed env w false s h = h
begin_serve-AllFramed env w true s h =
    settle_register-AllFramed env w (link_control env (register_request env) (link_set s.relay)) s
      (link_control-AllFramed env (register_request env) (link_set s.relay) h)

connector_step-AllFramed :
    (env : LinkEnv) (s : Connector) (i : Input)
    → AllFramed s.relay
    → AllFramed (connector_step env s i).relay
unfolding connector_step gateway_message gateway_ready gateway_lost
connector_step-AllFramed env s (relay_dialed dialed) h = elim (Bool-cases s.relay.connected) [
  | inl c ↦ simp c h
  | inr c ↦ simp c (begin_serve-AllFramed env (world_at env 0 none) dialed s h)
]
connector_step-AllFramed env s (relay_activity t e a) h = elim (Bool-cases s.relay.connected) [
  | inl c ↦ simp c (on_activity-AllFramed env (world_at env t e) a s h)
  | inr c ↦ simp c h
]
connector_step-AllFramed env s gateway_up h = h
connector_step-AllFramed env s (gateway_says m) h = with_bridge-AllFramed env _ s h
connector_step-AllFramed env s (gateway_gone e) h = with_bridge-AllFramed env _ s h

-- Whatever reaches the connector, and whichever of its writes fail, every DATA frame that it has
-- written to the relay parses.
pub connector_run-AllFramed :
    (env : LinkEnv) (s : Connector) (is : List Input)
    → AllFramed s.relay
    → AllFramed (connector_run env s is).relay
unfolding connector_run
connector_run-AllFramed env s [] h = h
connector_run-AllFramed env s (i ∷ is) h =
    connector_run-AllFramed env (connector_step env s i) is (connector_step-AllFramed env s i h)
