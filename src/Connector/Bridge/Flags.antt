-- ===== src/Connector/Bridge/Flags.antt =====
-- connector/pkg/bridge/gateway_bridge.go: the flags of a session, and closed sessions.
use open_claw_bridge.Common.{
  ℕ, Option, none, some, ◌∷◌, Result, ok, err, ◌≡◌, ◌≢◌, refl, sym, subst, ap, ◌∙◌, inl, inr,
  Bool-cases,
}
use open_claw_bridge.Text.{Bytes, codes, text_eq}
use open_claw_bridge.Text.Laws.{text_eq_refl}
use open_claw_bridge.GoMap.{get, put}
use open_claw_bridge.GoMap.Laws.{get-put, get-delete}
use open_claw_bridge.Json.{Codec}
use open_claw_bridge.Protocol.Event.{
  Event, EventError, event_user_message, encode_event, decode_event,
}
use open_claw_bridge.Connector.Events.{error_event}
use open_claw_bridge.Connector.Bridge
use open_claw_bridge.Connector.Bridge.{
  GatewaySender, GatewayBridge, send_encoded, after_call, call_gateway, pass_on, handle_in,
  handle_decoded, handle_data, send_event, send_resolved, with_flags, resolve_session,
  handle_gateway_event,
}

module _ {G : Type 0} where
  -- The sessions after a message: of an open session, the flags are the message's if it decodes.
  send_encoded-sessions :
      {E : Type 0} (sid : Bytes) (flags : ℕ) (r : Result E Bytes) (b : GatewayBridge G)
      → (send_encoded sid flags r b).sessions ≡ b.sessions
  send_encoded-sessions sid flags (ok p) b = refl
  send_encoded-sessions sid flags (err e) b = refl

  pub send_event-sessions :
      (c : Codec) (sid : Bytes) (flags : ℕ) (event : Event) (b : GatewayBridge G)
      → (send_event c sid flags event b).sessions ≡ b.sessions
  unfolding send_event
  send_event-sessions c sid flags event b = send_encoded-sessions sid flags (encode_event c event) b

  after_call-sessions :
      (c : Codec) (sid : Bytes) (flags : ℕ) (code : Bytes) (r : G × Option Bytes)
      (b : GatewayBridge G)
      → (after_call c sid flags code r b).sessions ≡ b.sessions
  after_call-sessions c sid flags code (y, none) b = refl
  after_call-sessions c sid flags code (y, some e) b =
      send_event-sessions c sid flags (error_event code e) (record b { gateway = some y })

  call_gateway-sessions :
      (g : GatewaySender G) (c : Codec) (sid : Bytes) (flags : ℕ) (event : Event) (x : G)
      (b : GatewayBridge G)
      → (call_gateway g c sid flags event x b).sessions ≡ b.sessions
  call_gateway-sessions g c sid flags event x b =
      elim (Bool-cases (text_eq event.type event_user_message)) [
        | inl h ↦ rw h (
            after_call-sessions c sid flags (codes "GATEWAY_SEND_FAILED")
              (g.send_user_message sid event x) b)
        | inr h ↦ elim (Bool-cases (text_eq event.type (codes "control"))) [
          | inr k ↦ rw (h, k) (send_event-sessions c sid flags _ b)
          | inl k ↦ elim (Bool-cases (text_eq event.action (codes "stop"))) [
            | inr l ↦ rw (h, k, l) (send_event-sessions c sid flags _ b)
            | inl l ↦
                rw (h, k, l)
                  (after_call-sessions c sid flags (codes "GATEWAY_CANCEL_FAILED")
                    (g.send_cancel sid x) b)
          ]
        ]
      ]

  pub pass_on-sessions :
      (g : GatewaySender G) (c : Codec) (sid : Bytes) (flags : ℕ) (event : Event) (o : Option G)
      (b : GatewayBridge G)
      → (pass_on g c sid flags event o b).sessions ≡ b.sessions
  pass_on-sessions g c sid flags event none b = send_event-sessions c sid flags _ b
  pass_on-sessions g c sid flags event (some x) b = elim (Bool-cases (g.is_ready x)) [
    | inl h ↦ rw h (call_gateway-sessions g c sid flags event x b)
    | inr h ↦ rw h (send_event-sessions c sid flags _ b)
  ]

  pub handle_in-flags :
      (g : GatewaySender G) (c : Codec) (sid : Bytes) (flags : ℕ) (event : Event) (o : Option ℕ)
      (b : GatewayBridge G)
      → o ≢ none
      → get (handle_in g c sid flags event o b).sessions sid ≡ some flags
  handle_in-flags g c sid flags event none b h = absurd (h refl)
  handle_in-flags g c sid flags event (some old) b h =
      let b₁ : GatewayBridge G = record b { sessions = put b.sessions sid flags } in
      ap (λ m. get m sid) (pass_on-sessions g c sid flags event b.gateway b₁)
      ∙ rw (get-put b.sessions sid sid flags, text_eq_refl sid) refl

  -- Once a message of an open session is decoded, an event of the gateway for that session goes back
  -- with the flags of that message.
  pub flags_follow :
      (g : GatewaySender G) (c : Codec) (x : ℕ) (sid : Bytes) (flags : ℕ) (payload : Bytes)
      (event reply : Event) (b : GatewayBridge G)
      → decode_event c payload ≡ ok event
      → get b.sessions (x ∷ sid) ≢ none
      → let b' : GatewayBridge G = handle_data g c (x ∷ sid) flags payload b in
        handle_gateway_event c (x ∷ sid) reply b' ≡ send_event c (x ∷ sid) flags reply b'
  unfolding handle_gateway_event resolve_session handle_data
  flags_follow g c x sid flags payload event reply b hd ho =
      let at : Result EventError Event → GatewayBridge G =
        λ r. handle_decoded g c (x ∷ sid) flags r b in
      let known : get (at (decode_event c payload)).sessions (x ∷ sid) ≡ some flags =
        subst (λ r. get (at r).sessions (x ∷ sid) ≡ some flags) (sym hd)
          (handle_in-flags g c (x ∷ sid) flags event (get b.sessions (x ∷ sid)) b ho) in
      ap (λ o. send_resolved c reply (with_flags (x ∷ sid) o) (at (decode_event c payload))) known

  -- A session that is closed gets nothing more from the gateway.
  pub closed_is_silent :
      (c : Codec) (x : ℕ) (sid : Bytes) (event : Event) (b : GatewayBridge G)
      → (handle_gateway_event c (x ∷ sid) event (Bridge.close_session (x ∷ sid) b)).sent ≡ b.sent
  unfolding handle_gateway_event resolve_session Bridge.close_session
  closed_is_silent c x sid event b =
      rw (get-delete b.sessions (x ∷ sid) (x ∷ sid), text_eq_refl (x ∷ sid)) refl
