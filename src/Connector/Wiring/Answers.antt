-- ===== src/Connector/Wiring/Answers.antt =====
-- The connector of connector/main.go from a user's message to its answer.
pub mod Relayed
use open_claw_bridge.Common.{
  ℕ, suc, ◌≤◌, ◌<◌, Bool, true, false, not, Option, none, some, List, [], ◌∷◌, ◌++◌, if◌then◌else◌,
  arith, All, Result, ok, err, ◌≡◌, ◌≢◌, refl, sym, subst, ap, ◌∙◌, append_assoc, append-nil,
  length,
}
use open_claw_bridge.Text.{Bytes, codes, text_eq, trim_space}
use open_claw_bridge.Text.Laws.{text_eq_iff, text_eq_refl}
use open_claw_bridge.GoMap.{Map, get, put}
use open_claw_bridge.Json.{Value, Codec}
use open_claw_bridge.Protocol.Event.{
  Event, EventError, event_user_message, encode_event, decode_event, write_event,
}
use open_claw_bridge.Protocol.Event.Laws.{encode_event_total}
use open_claw_bridge.Connector.Gateway.{
  World, Client, track_request, new_id, write_json, settle, send_request, send_content, request,
  agent_params, send_user_message,
}
use open_claw_bridge.Connector.Gateway.Tracks.{tagged}
use open_claw_bridge.Connector.Events.{token_event, end_event, error_event}
use open_claw_bridge.Connector.Events.Laws.{
  IsReply, IsTerminal, silent, says, closes, says_last, ends, fails,
}
use open_claw_bridge.Connector.Bridge
use open_claw_bridge.Connector.Bridge.{
  GatewaySender, GatewayBridge, handle_data, handle_decoded, handle_in, pass_on, call_gateway,
  after_call, send_event, send_encoded, send_resolved, with_flags, resolve_session,
  handle_gateway_event,
}
use open_claw_bridge.Connector.Wiring.{gateway_sender, is_ready, pass_events}

-- The request of a message that was read at `w`.
abbrev pub request_id : World → Bytes
request_id w = new_id w (codes "gw_req_")

abbrev pub asked_value : World → Bytes → Event → Bytes → Value
asked_value w sid event content =
    request (request_id w) (codes "agent") (agent_params sid (request_id w) content event)

-- The client after it has sent that request for the session.
abbrev pub asked_client : World → Bytes → Event → Bytes → Client → Client
asked_client w sid event content x = record (track_request (request_id w) sid x) {
  written = x.written ++ w.codec.print (asked_value w sid event content) ∷ [];
}

write_json_sent :
    (w : World) (v : Value) (s : Client)
    → w.write_error ≡ none
    → s.ready ≡ true
    → s.connected ≡ true
    → write_json w v s ≡ (record s { written = s.written ++ w.codec.print v ∷ [] }, none)
unfolding write_json
write_json_sent w v s n r q = simp (r, q, n) refl

pass_on_ready :
    (g : GatewaySender Client) (c : Codec) (sid : Bytes) (flags : ℕ) (event : Event) (x : Client)
    (b : GatewayBridge Client)
    → g.is_ready x ≡ true
    → pass_on g c sid flags event (some x) b ≡ call_gateway g c sid flags event x b
pass_on_ready g c sid flags event x b h = simp h refl

call_gateway_user :
    (g : GatewaySender Client) (c : Codec) (sid : Bytes) (flags : ℕ) (event : Event) (x : Client)
    (b : GatewayBridge Client)
    → text_eq event.type event_user_message ≡ true
    → call_gateway g c sid flags event x b
      ≡ after_call c sid flags (codes "GATEWAY_SEND_FAILED") (g.send_user_message sid event x) b
call_gateway_user g c sid flags event x b h = simp h refl

-- A user's message of an open session is asked of a gateway that is ready.
module _ (w : World) (sid : Bytes) (event : Event) (y : ℕ) (content : Bytes) (x : Client)
    (writes : w.write_error ≡ none) (ready : x.ready ≡ true) (connected : x.connected ≡ true)
    (said : trim_space event.content ≡ y ∷ content) where
  sent_message : send_user_message w sid event x ≡ (asked_client w sid event (y ∷ content) x, none)
  unfolding send_user_message track_request
  sent_message =
      ap (λ t. send_content w sid event t x) said
      ∙ ap (settle (request_id w)) (
          write_json_sent w (asked_value w sid event (y ∷ content))
            (track_request (request_id w) sid x) writes ready connected)

  pub asked_lem :
      (c : Codec) (flags old : ℕ) (payload : Bytes) (b : GatewayBridge Client)
      → decode_event c payload ≡ ok event
      → event.type ≡ event_user_message
      → get b.sessions sid ≡ some old
      → b.gateway ≡ some x
      → handle_data (gateway_sender w) c sid flags payload b ≡ record b {
        sessions = put b.sessions sid flags;
        gateway = some (asked_client w sid event (y ∷ content) x);
      }
  unfolding handle_data is_ready
  asked_lem c flags old payload b hd ht ho hg =
      let g = gateway_sender w in
      let b₁ : GatewayBridge Client = record b { sessions = put b.sessions sid flags } in
      ap (λ r. handle_decoded g c sid flags r b) hd
      ∙ ap (λ o. handle_in g c sid flags event o b) ho
      ∙ ap (λ o. pass_on g c sid flags event o b₁) hg
      ∙ pass_on_ready g c sid flags event x b₁ ready
      ∙ call_gateway_user g c sid flags event x b₁
          ((text_eq_iff event.type event_user_message).1 ht)
      ∙ ap (λ r. after_call c sid flags (codes "GATEWAY_SEND_FAILED") r b₁) sent_message

-- Events that can be encoded.
abbrev pub AllTyped : List Event → Type 0
AllTyped es = All (λ (e : Event). e.type ≢ []) es

terminal-typed : (e : Event) → IsTerminal e → e.type ≢ []
terminal-typed e ends q = cc
terminal-typed e (fails code message h) q = cc

pub reply-AllTyped : (es : List Event) → IsReply es → AllTyped es
reply-AllTyped es silent = tt
reply-AllTyped es (says s h) = ((λ q. cc), tt)
reply-AllTyped es (closes e h) = (terminal-typed e h, tt)
reply-AllTyped es (says_last s e h t) = ((λ q. cc), (terminal-typed e t, tt))

-- The calls of SendData for some events of a session.
abbrev pub calls : Codec → Bytes → ℕ → List Event → List (Bytes × ℕ × Bytes)
calls c sid flags [] = []
calls c sid flags (e ∷ es) = (sid, flags, c.print (write_event e)) ∷ calls c sid flags es

event_sent :
    (c : Codec) (x flags : ℕ) (sid : Bytes) (e : Event) (b : GatewayBridge Client)
    → e.type ≢ []
    → get b.sessions (x ∷ sid) ≡ some flags
    → handle_gateway_event c (x ∷ sid) e b
      ≡ record b { sent = b.sent ++ (x ∷ sid, flags, c.print (write_event e)) ∷ [] }
unfolding handle_gateway_event resolve_session send_event
event_sent c x flags sid e b typed known =
    ap (λ o. send_resolved c e (with_flags (x ∷ sid) o) b) known
    ∙ ap (λ r. send_encoded (x ∷ sid) flags r b) (encode_event_total c e typed)

pub events_sent :
    (c : Codec) (x flags : ℕ) (sid : Bytes) (es : List Event) (b : GatewayBridge Client)
    → AllTyped es
    → get b.sessions (x ∷ sid) ≡ some flags
    → pass_events c (tagged (x ∷ sid) es) b
      ≡ record b { sent = b.sent ++ calls c (x ∷ sid) flags es }
unfolding pass_events
events_sent c x flags sid [] b typed known =
    ap (λ l. record b { sent = l }) (sym (append-nil b.sent))
events_sent c x flags sid (e ∷ es) b (t, typed) known =
    ap (pass_events c (tagged (x ∷ sid) es)) (event_sent c x flags sid e b t known)
    ∙ events_sent c x flags sid es _ typed known
    ∙ ap (λ l. record b { sent = l })
        (append_assoc b.sent ((x ∷ sid, flags, c.print (write_event e)) ∷ [])
          (calls c (x ∷ sid) flags es))
