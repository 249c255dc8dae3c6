-- ===== src/Connector/Gateway/Sending.antt =====
-- SendUserMessage and SendCancel of connector/pkg/gatewayclient/client.go.
use open_claw_bridge.Common.{
  ℕ, Option, none, some, [], ◌∷◌, ◌++◌, ◌≡◌, ◌≢◌, refl, sym, subst, Bool-cases, Option-cases, ◌⊎◌,
  inl, inr,
}
use open_claw_bridge.Text.{Bytes, codes, trim_space}
use open_claw_bridge.Text.Laws.{text_eq_refl}
use open_claw_bridge.GoMap.{get}
use open_claw_bridge.GoMap.Laws.{get-put, get-delete}
use open_claw_bridge.Json.{Value}
use open_claw_bridge.Protocol.Event.{Event}
use open_claw_bridge.Connector.Gateway.{
  World, Client, track_request, untrack_request, write_json, new_id, settle, send_request,
  send_content, send_user_message, request, agent_params,
}

-- The message is written and its request tied to the session; or nothing is written, the request is
-- not tied, and an error is returned. No event is emitted either way.
abbrev pub IsSent : World → Bytes → Bytes → Value → Client → Client × Option Bytes → Type 0
IsSent w req_id sid v s (s', e) =
    (s'.emitted ≡ s.emitted)
    × (((e ≡ none)
          × (s'.written ≡ s.written ++ w.codec.print v ∷ [])
          × (get s'.req_to_session req_id ≡ some sid))
        ⊎ ((e ≢ none) × (s'.written ≡ s.written) × (get s'.req_to_session req_id ≡ none)))

write_json-cases :
    (w : World) (v : Value) (s : Client)
    → (write_json w v s ≡ (record s { written = s.written ++ w.codec.print v ∷ [] }, none))
      ⊎ ((e : Bytes) × (write_json w v s ≡ (s, some e)))
unfolding write_json
write_json-cases w v s = elim (Bool-cases s.ready) [
  | inr r ↦ simp r (inr (codes "gateway not ready", refl))
  | inl r ↦ elim (Bool-cases s.connected) [
    | inr q ↦ simp (r, q) (inr (codes "gateway disconnected", refl))
    | inl q ↦ elim (Option-cases w.write_error) [
      | inl n ↦ simp (r, q, n) (inl refl)
      | inr (e, n) ↦ simp (r, q, n) (inr (e, refl))
    ]
  ]
]

send_request-IsSent :
    (w : World) (req_id sid : Bytes) (v : Value) (s : Client)
    → IsSent w req_id sid v s (send_request w req_id sid v s)
unfolding track_request untrack_request
send_request-IsSent w req_id sid v s =
    let s₁ = track_request req_id sid s in
    let Good : Client × Option Bytes → Type 0 = λ p. IsSent w req_id sid v s (settle req_id p) in
    elim (write_json-cases w v s₁) [
      | inl h ↦ subst Good (sym h) (
        refl,
        inl (refl, refl, rw (get-put s.req_to_session req_id req_id sid, text_eq_refl req_id) refl),
      )
      | inr (e, h) ↦ subst Good (sym h) (
        refl,
        inr (
          (λ q. cc),
          refl,
          rw (get-delete s₁.req_to_session req_id req_id, text_eq_refl req_id) refl,
        ),
      )
    ]

-- A message with content is sent whole or not at all: it is written with its request tied to the
-- session, or an error is returned, nothing is written and the request is not tied. No event is
-- emitted.
pub send_user_message-IsSent :
    (w : World) (sid : Bytes) (event : Event) (x : ℕ) (content : Bytes) (s : Client)
    → trim_space event.content ≡ x ∷ content
    → IsSent w
        (new_id w (codes "gw_req_"))
        sid
        (request
          (new_id w (codes "gw_req_"))
          (codes "agent")
          (agent_params sid (new_id w (codes "gw_req_")) (x ∷ content) event))
        s
        (send_user_message w sid event s)
unfolding send_user_message
send_user_message-IsSent w sid event x content s h =
    let id = new_id w (codes "gw_req_") in
    let v = request id (codes "agent") (agent_params sid id (x ∷ content) event) in
    subst (λ t. IsSent w id sid v s (send_content w sid event t s)) (sym h)
      (send_request-IsSent w id sid v s)
