-- ===== src/Connector/Bridge/Laws.antt =====
-- connector/pkg/bridge/gateway_bridge.go: what becomes of a message, and of the gateway's events.
use open_claw_bridge.Common.{
  ℕ, true, Option, none, some, List, [], ◌∷◌, ◌++◌, Result, ok, err, ◌≡◌, ◌≢◌, refl, ◌⊎◌, inl, inr,
  Bool-cases,
}
use open_claw_bridge.Text.{Bytes, codes, text_eq}
use open_claw_bridge.Text.Laws.{text_eq_iff}
use open_claw_bridge.GoMap.{Map, get, put}
use open_claw_bridge.Json.{Codec}
use open_claw_bridge.Protocol.Event.{
  Event, EventError, event_user_message, encode_event, decode_event, write_event,
}
use open_claw_bridge.Connector.Events.{error_event}
use open_claw_bridge.Connector.Bridge.{
  GatewaySender, GatewayBridge, after_call, call_gateway, pass_on, handle_in, handle_decoded,
  handle_data, send_event,
}

-- One error event is sent back, to the session the message came from and with its flags.
abbrev pub IsRefusal :
    Codec → Bytes → ℕ → List (Bytes × ℕ × Bytes) → List (Bytes × ℕ × Bytes) → Type 0
IsRefusal c sid flags old new =
    (code : Bytes) × (message : Bytes) × (new
      ≡ old ++ (sid, flags, c.print (write_event (error_event code message))) ∷ [])

module _ {G : Type 0} where
  -- What the gateway is asked for an event, and what it answers: a user message is sent on, and
  -- "stop" cancels.
  abbrev pub IsCall : GatewaySender G → Bytes → Event → G → G × Option Bytes → Type 0
  IsCall g sid event x r =
      ((event.type ≡ event_user_message) × (r ≡ g.send_user_message sid event x))
      ⊎ ((event.type ≡ codes "control") × (event.action ≡ codes "stop") × (r ≡ g.send_cancel sid x))

  -- The session is open, the gateway is bound and ready, the event is one that it takes, and it is
  -- asked once; nothing is sent back, unless the gateway fails.
  abbrev pub IsTaken :
      GatewaySender G → Codec → Bytes → ℕ → Bytes → GatewayBridge G → GatewayBridge G → Type 0
  IsTaken g c sid flags payload b b' =
      (event : Event) × (x : G) × (y : G) × (e : Option Bytes) × (decode_event c payload ≡ ok event)
      × (get b.sessions sid ≢ none)
      × (b.gateway ≡ some x)
      × (g.is_ready x ≡ true)
      × IsCall g sid event x (y, e)
      × (b'.gateway ≡ some y)
      × (((e ≡ none) × (b'.sent ≡ b.sent)) ⊎ ((e ≢ none) × IsRefusal c sid flags b.sent b'.sent))

  send_event-IsRefusal :
      (c : Codec) (sid : Bytes) (flags : ℕ) (code message : Bytes) (b : GatewayBridge G)
      → ((send_event c sid flags (error_event code message) b).gateway ≡ b.gateway)
        × IsRefusal c sid flags b.sent (send_event c sid flags (error_event code message) b).sent
  unfolding send_event encode_event text_eq
  send_event-IsRefusal c sid flags code message b = (refl, (code, message, refl))

  -- What a bridge does with a message for a session: it sends one error back and leaves the gateway
  -- alone, or the gateway takes it.
  abbrev pub IsHandled :
      GatewaySender G → Codec → Bytes → ℕ → Bytes → GatewayBridge G → GatewayBridge G → Type 0
  IsHandled g c sid flags payload b b' =
      ((b'.gateway ≡ b.gateway) × IsRefusal c sid flags b.sent b'.sent)
      ⊎ IsTaken g c sid flags payload b b'

  after_call-sent :
      (c : Codec) (sid : Bytes) (flags : ℕ) (code : Bytes) (y : G) (e : Option Bytes)
      (b : GatewayBridge G)
      → let b' : GatewayBridge G = after_call c sid flags code (y, e) b in
        (b'.gateway ≡ some y)
        × (((e ≡ none) × (b'.sent ≡ b.sent)) ⊎ ((e ≢ none) × IsRefusal c sid flags b.sent b'.sent))
  after_call-sent c sid flags code y none b = (refl, inl (refl, refl))
  after_call-sent c sid flags code y (some e) b =
      let (p, q) = send_event-IsRefusal c sid flags code e (record b { gateway = some y }) in
      (p, inr ((λ h. cc), q))

  call_gateway-IsHandled :
      (g : GatewaySender G) (c : Codec) (sid : Bytes) (flags : ℕ) (payload : Bytes) (event : Event)
      (x : G) (b : GatewayBridge G) (m : Map ℕ)
      → decode_event c payload ≡ ok event
      → get b.sessions sid ≢ none
      → b.gateway ≡ some x
      → g.is_ready x ≡ true
      → IsHandled g c sid flags payload b
          (call_gateway g c sid flags event x (record b { sessions = m }))
  call_gateway-IsHandled g c sid flags payload event x b m hd ho hg hr =
      let b₁ : GatewayBridge G = record b { sessions = m } in
      let refused : (code message : Bytes)
          → IsHandled g c sid flags payload b
              (send_event c sid flags (error_event code message) b₁) =
        λ code message. inl (send_event-IsRefusal c sid flags code message b₁) in
      let taken : (code : Bytes) (r : G × Option Bytes)
          → IsCall g sid event x r
          → IsHandled g c sid flags payload b (after_call c sid flags code r b₁) =
        λ code r h.
          let (p, q) = after_call-sent c sid flags code r.0 r.1 b₁ in
          inr (event, x, r.0, r.1, hd, ho, hg, hr, h, p, q) in
      elim (Bool-cases (text_eq event.type event_user_message)) [
        | inl h ↦ rw h (
            taken _ (g.send_user_message sid event x)
              (inl ((text_eq_iff event.type event_user_message).0 h, refl)))
        | inr h ↦ elim (Bool-cases (text_eq event.type (codes "control"))) [
          | inr k ↦ rw (h, k) (refused _ _)
          | inl k ↦ elim (Bool-cases (text_eq event.action (codes "stop"))) [
            | inr l ↦ rw (h, k, l) (refused _ _)
            | inl l ↦
                rw (h, k, l)
                  (taken _ (g.send_cancel sid x) (
                    inr (
                      (text_eq_iff event.type (codes "control")).0 k,
                      (text_eq_iff event.action (codes "stop")).0 l,
                      refl,
                    )))
          ]
        ]
      ]

  pass_on-IsHandled :
      (g : GatewaySender G) (c : Codec) (sid : Bytes) (flags : ℕ) (payload : Bytes) (event : Event)
      (b : GatewayBridge G) (m : Map ℕ) (o : Option G)
      → decode_event c payload ≡ ok event
      → get b.sessions sid ≢ none
      → b.gateway ≡ o
      → IsHandled g c sid flags payload b
          (pass_on g c sid flags event o (record b { sessions = m }))
  pass_on-IsHandled g c sid flags payload event b m none hd ho hg =
      inl (send_event-IsRefusal c sid flags _ _ (record b { sessions = m }))
  pass_on-IsHandled g c sid flags payload event b m (some x) hd ho hg =
      elim (Bool-cases (g.is_ready x)) [
        | inl r ↦ rw r (call_gateway-IsHandled g c sid flags payload event x b m hd ho hg r)
        | inr r ↦ rw r (inl (send_event-IsRefusal c sid flags _ _ (record b { sessions = m })))
      ]

  handle_in-IsHandled :
      (g : GatewaySender G) (c : Codec) (sid : Bytes) (flags : ℕ) (payload : Bytes) (event : Event)
      (b : GatewayBridge G) (o : Option ℕ)
      → decode_event c payload ≡ ok event
      → get b.sessions sid ≡ o
      → IsHandled g c sid flags payload b (handle_in g c sid flags event o b)
  handle_in-IsHandled g c sid flags payload event b none hd ho =
      inl (send_event-IsRefusal c sid flags _ _ b)
  handle_in-IsHandled g c sid flags payload event b (some old) hd ho =
      pass_on-IsHandled g c sid flags payload event b (put b.sessions sid flags) b.gateway hd
        (λ h. cc) refl

  handle_decoded-IsHandled :
      (g : GatewaySender G) (c : Codec) (sid : Bytes) (flags : ℕ) (payload : Bytes)
      (b : GatewayBridge G) (r : Result EventError Event)
      → decode_event c payload ≡ r
      → IsHandled g c sid flags payload b (handle_decoded g c sid flags r b)
  handle_decoded-IsHandled g c sid flags payload b (err e) h =
      inl (send_event-IsRefusal c sid flags _ _ b)
  handle_decoded-IsHandled g c sid flags payload b (ok event) h =
      handle_in-IsHandled g c sid flags payload event b (get b.sessions sid) h refl

  -- Every message is handled: one error goes back to its session, with its flags, and the gateway is
  -- left alone; or the message decodes, its session is open and the gateway, ready, is asked once.
  pub handle_data-IsHandled :
      (g : GatewaySender G) (c : Codec) (sid : Bytes) (flags : ℕ) (payload : Bytes)
      (b : GatewayBridge G)
      → IsHandled g c sid flags payload b (handle_data g c sid flags payload b)
  unfolding handle_data
  handle_data-IsHandled g c sid flags payload b =
      handle_decoded-IsHandled g c sid flags payload b (decode_event c payload) refl
