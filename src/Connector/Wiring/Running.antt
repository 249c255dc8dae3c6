-- ===== src/Connector/Wiring/Running.antt =====
-- connector/main.go: Run of the relay client is among the ways in which inputs reach the connector.
use open_claw_bridge.Common.{
  ℕ, Bool, if◌then◌else◌, true, false, Option, none, some, List, [], ◌∷◌, ◌++◌, ◌≡◌, refl, sym, ap,
  ◌∙◌, Bool-cases, Option-cases, Result, ok, err, inl, inr,
}
use open_claw_bridge.Text.{Bytes}
use open_claw_bridge.Protocol.Frame.{FrameError, DataFrame, build_data_frame, parse_data_frame}
use open_claw_bridge.Protocol.Control.{ControlMessage, ControlError, decode_control}
use open_claw_bridge.Connector.Gateway.{World}
use open_claw_bridge.Relay.Network.{Message, text, binary, received, read_error}
use open_claw_bridge.Connector.RelayClient.{
  LinkEnv, RelayClient, LinkError, register_request, Activity, incoming, heartbeat, Attempt, Host,
  link_close, link_set, begin_serve, settle_register, on_activity, link_serve, link_attempt,
  link_run, link_write, link_data, link_control, write_frame, receive, on_text, on_binary,
}
use open_claw_bridge.Connector.Wiring.{
  Connector, Input, relay_dialed, relay_activity, connector_host, world_at, connector_step,
  connector_run, send_frames, with_bridge,
}

-- The clock, and the outcome of a write to the gateway.
abbrev pub Moment : Type 0
Moment = ℕ × Option Bytes

abbrev pub host_at : LinkEnv → Moment → Host Connector
host_at env w = connector_host env (world_at env w.0 w.1)

abbrev pub activity_inputs : List (Moment × Activity) → Moment → List Input
activity_inputs [] w = relay_activity w.0 w.1 (incoming read_error) ∷ []
activity_inputs ((v, a) ∷ rest) w = relay_activity v.0 v.1 a ∷ activity_inputs rest w

abbrev pub attempt_inputs : Attempt Moment → List Input
attempt_inputs r = relay_dialed r.dialed ∷ activity_inputs r.activities r.last

abbrev pub run_inputs : List (Attempt Moment) → List Input
run_inputs [] = []
run_inputs (r ∷ rs) = attempt_inputs r ++ run_inputs rs

abbrev pub hang_up : Connector → Connector
hang_up s = record s { relay = link_close s.relay }

-- No write, and no callback, changes whether there is a connection.
connected-link_write :
    (env : LinkEnv) (m : Message) (l : RelayClient) → (link_write env m l).0.connected ≡ l.connected
unfolding link_write
connected-link_write env m l = elim (Bool-cases l.connected) [
  | inl up ↦ elim (Option-cases (env.fails l.attempts)) [
    | inl e ↦ simp (up, e)
    | inr (x, e) ↦ simp (up, e)
  ]
  | inr down ↦ simp down
]

connected-write_frame :
    (env : LinkEnv) (r : Result FrameError Bytes) (l : RelayClient)
    → (write_frame env r l).0.connected ≡ l.connected
connected-write_frame env (err e) l = refl
connected-write_frame env (ok f) l = connected-link_write env (binary f) l

connected-send_frames :
    (env : LinkEnv) (fs : List (Bytes × ℕ × Bytes)) (l : RelayClient)
    → (send_frames env fs l).connected ≡ l.connected
unfolding send_frames link_data
connected-send_frames env [] l = refl
connected-send_frames env ((sid, flags, payload) ∷ fs) l =
    connected-send_frames env fs _
    ∙ connected-write_frame env (build_data_frame sid flags payload) l

connected-receive :
    (env : LinkEnv) (w : World) (m : Message) (s : Connector)
    → (receive (connector_host env w) env.codec m s).relay.connected ≡ s.relay.connected
unfolding receive with_bridge
connected-receive env w (text b) s = on_text_same (decode_control env.codec b)
  where
    on_text_same :
        (r : Result ControlError ControlMessage)
        → (on_text (connector_host env w) r s).relay.connected ≡ s.relay.connected
    on_text_same (err e) = refl
    on_text_same (ok m) = connected-send_frames env _ s.relay
connected-receive env w (binary b) s = on_binary_same (parse_data_frame b)
  where
    on_binary_same :
        (r : Result FrameError DataFrame)
        → (on_binary (connector_host env w) r s).relay.connected ≡ s.relay.connected
    on_binary_same (err e) = refl
    on_binary_same (ok d) = connected-send_frames env _ s.relay

module _ (env : LinkEnv) where
  run-append :
      (s : Connector) (is js : List Input)
      → connector_run env s (is ++ js) ≡ connector_run env (connector_run env s is) js
  unfolding connector_run
  run-append s [] js = refl
  run-append s (i ∷ is) js = run-append (connector_step env s i) is js

  -- Without a connection, what happens on one is ignored.
  run-idle :
      (rest : List (Moment × Activity)) (w : Moment) (s : Connector)
      → s.relay.connected ≡ false
      → connector_run env s (activity_inputs rest w) ≡ s
  unfolding connector_run connector_step
  run-idle [] w s h = simp h
  run-idle ((v, a) ∷ rest) w s h =
      ap (λ (t : Connector). connector_run env t (activity_inputs rest w)) (simp h)
      ∙ run-idle rest w s h

  -- On a connection, the loop of the client takes what comes, up to the read that fails.
  run-serve :
      (rest : List (Moment × Activity)) (w : Moment) (s : Connector)
      → s.relay.connected ≡ true
      → connector_run env s (activity_inputs rest w) ≡ link_serve (host_at env) env rest w s
  unfolding connector_run connector_step link_serve on_activity link_control link_close
  run-serve [] w s h = simp h
  run-serve ((v, incoming read_error) ∷ rest) w s h =
      ap (λ (t : Connector). connector_run env t (activity_inputs rest w)) (simp h)
      ∙ run-idle rest w (hang_up s) refl
  run-serve ((v, incoming (received m)) ∷ rest) w s h =
      ap (λ (t : Connector). connector_run env t (activity_inputs rest w)) (simp h)
      ∙ run-serve rest w _ (connected-receive env (world_at env v.0 v.1) m s ∙ h)
  run-serve ((v, heartbeat) ∷ rest) w s h =
      ap (λ (t : Connector). connector_run env t (activity_inputs rest w)) (simp h)
      ∙ run-serve rest w _ (connected-link_write env _ s.relay ∙ h)

  -- The world of the callbacks plays no part in a Dial and in REGISTER.
  same-begin_serve :
      (v w : World) (dialed : Bool) (s : Connector)
      → begin_serve (connector_host env v) env dialed s
        ≡ begin_serve (connector_host env w) env dialed s
  unfolding begin_serve
  same-begin_serve v w false s = refl
  same-begin_serve v w true s = settled (link_control env (register_request env) (link_set s.relay))
    where
      settled :
          (x : RelayClient × Option LinkError)
          → settle_register (connector_host env v) x s ≡ settle_register (connector_host env w) x s
      settled (l, none) = refl
      settled (l, some e) = refl

  run-begun :
      (r : Attempt Moment) (s : Connector)
      → connector_run env s (activity_inputs r.activities r.last)
        ≡ (if s.relay.connected then link_serve (host_at env) env r.activities r.last s else s)
  run-begun r s = elim (Bool-cases s.relay.connected) [
    | inl up ↦ run-serve r.activities r.last s up ∙ (simp up)
    | inr down ↦ run-idle r.activities r.last s down ∙ (simp down)
  ]

  run-attempt :
      (r : Attempt Moment) (s : Connector)
      → s.relay.connected ≡ false
      → connector_run env s (attempt_inputs r) ≡ link_attempt (host_at env) env r s
  unfolding connector_run connector_step link_attempt
  run-attempt r s h =
      ap (λ (t : Connector). connector_run env t (activity_inputs r.activities r.last))
        ((simp h)
          ∙ same-begin_serve (world_at env 0 none) (world_at env r.last.0 r.last.1) r.dialed s)
      ∙ run-begun r _

  down-link_serve :
      (rest : List (Moment × Activity)) (w : Moment) (s : Connector)
      → (link_serve (host_at env) env rest w s).relay.connected ≡ false
  unfolding link_serve on_activity link_close
  down-link_serve [] w s = refl
  down-link_serve ((v, incoming read_error) ∷ rest) w s = refl
  down-link_serve ((v, incoming (received m)) ∷ rest) w s = down-link_serve rest w _
  down-link_serve ((v, heartbeat) ∷ rest) w s = down-link_serve rest w _

  down-link_attempt :
      (r : Attempt Moment) (s : Connector)
      → (link_attempt (host_at env) env r s).relay.connected ≡ false
  unfolding link_attempt
  down-link_attempt r s = down (begin_serve (host_at env r.last) env r.dialed s)
    where
      down :
          (t : Connector)
          → (if t.relay.connected
              then link_serve (host_at env) env r.activities r.last t
              else t).relay.connected
            ≡ false
      down t = elim (Bool-cases t.relay.connected) [
        | inl up ↦ (simp up) ∙ down-link_serve r.activities r.last t
        | inr off ↦ simp off
      ]

  -- Run of the relay client, from a connector without a connection to the relay: until the context is
  -- done it does what the inputs do, attempt by attempt, that make up its attempts; there is no
  -- connection between two attempts, and none once it has returned.
  pub link_run-connector_run :
      (rs : List (Attempt Moment)) (w : Moment) (s : Connector)
      → s.relay.connected ≡ false
      → (link_run (host_at env) env rs w s ≡ hang_up (connector_run env s (run_inputs rs)))
        × ((connector_run env s (run_inputs rs)).relay.connected ≡ false)
        × ((link_run (host_at env) env rs w s).relay.connected ≡ false)
  unfolding link_run connector_run link_close
  link_run-connector_run [] w s h = (refl, h, refl)
  link_run-connector_run (r ∷ rs) w s h =
      let t : Connector = link_attempt (host_at env) env r s in
      let same : connector_run env s (run_inputs (r ∷ rs)) ≡ connector_run env t (run_inputs rs) =
        run-append s (attempt_inputs r) (run_inputs rs)
        ∙ ap (λ (k : Connector). connector_run env k (run_inputs rs)) (run-attempt r s h) in
      let (later, down, off) = link_run-connector_run rs w t (down-link_attempt r s) in
      (later ∙ ap hang_up (sym same), ap (λ (k : Connector). k.relay.connected) same ∙ down, off)
