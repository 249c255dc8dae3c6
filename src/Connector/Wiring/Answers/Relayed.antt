-- ===== src/Connector/Wiring/Answers/Relayed.antt =====
-- The connector of connector/main.go between the relay and the gateway: the answer to a message comes
-- back to its session.
use open_claw_bridge.Common.{
  ℕ, suc, ◌≤◌, ◌<◌, Bool, true, not, Option, none, some, List, [], ◌∷◌, ◌++◌, if◌then◌else◌, arith,
  ok, ◌≡◌, ◌≢◌, refl, sym, ap, ◌∙◌, append_assoc, append-nil, length,
}
use open_claw_bridge.Text.{Bytes, codes, text_eq, trim_space}
use open_claw_bridge.Text.Laws.{text_eq_refl}
use open_claw_bridge.GoMap.{get, put}
use open_claw_bridge.GoMap.Laws.{get-put}
use open_claw_bridge.Json.{Codec}
use open_claw_bridge.Protocol.Frame.{parse_data_frame}
use open_claw_bridge.Protocol.Frame.Laws.{layout, build-eq-layout}
use open_claw_bridge.Protocol.Event.{Event, event_user_message, decode_event, write_event}
use open_claw_bridge.Relay.Network.{Message, binary, received}
use open_claw_bridge.Connector.Payload.{Envelope}
use open_claw_bridge.Connector.Gateway.{
  World, Client, new_id, track_request, handle_event, handle_response, dispatch, request_session,
}
use open_claw_bridge.Connector.Gateway.Tracks.{tagged}
use open_claw_bridge.Connector.Gateway.Answers.{response_events, handle_response_answers}
use open_claw_bridge.Connector.Bridge.{GatewayBridge}
use open_claw_bridge.Connector.RelayClient.{
  LinkEnv, RelayClient, not_connected, link_write, link_data, written_or, write_frame, incoming,
  receive, on_activity, on_binary,
}
use open_claw_bridge.Connector.Wiring.{
  Connector, send_frames, with_bridge, connector_host, pass_events, client_message, gateway_message,
  Input, relay_activity, gateway_says, connector_step, world_at,
}
use open_claw_bridge.Connector.Wiring.Answers.{
  request_id, asked_client, asked_lem, reply-AllTyped, calls, events_sent,
}

-- No write to the relay fails.
abbrev pub NoFaults : LinkEnv → Type 0
NoFaults env = (n : ℕ) → env.fails n ≡ none

-- The DATA frames of some events of a session.
abbrev pub answer_frames : Codec → Bytes → ℕ → List Event → List Message
answer_frames c sid flags [] = []
answer_frames c sid flags (e ∷ es) =
    binary (layout (record { session_id = sid; flags = flags; payload = c.print (write_event e) }))
    ∷ answer_frames c sid flags es

link_written :
    (env : LinkEnv) (m : Message) (l : RelayClient)
    → NoFaults env
    → l.connected ≡ true
    → (link_write env m l).0 ≡ record l { attempts = suc l.attempts; written = l.written ++ m ∷ [] }
unfolding link_write
link_written env m l sure up =
    ap
      (λ (t : Bool).
        (if not t then (l, some not_connected) else written_or (env.fails l.attempts) m l).0)
      up
    ∙ ap (λ o. (written_or o m l).0) (sure l.attempts)

module _ (env : LinkEnv) (sid : Bytes) (flags : ℕ) (sure : NoFaults env) (named : 0 < length sid)
    (fits : length sid ≤ 255) where
  frame_written :
      (p : Bytes) (l : RelayClient)
      → l.connected ≡ true
      → (link_data env sid flags p l).0 ≡ record l {
        attempts = suc l.attempts;
        written =
            l.written
            ++ binary (layout (record { session_id = sid; flags = flags; payload = p })) ∷ [];
      }
  unfolding link_data
  frame_written p l up =
      ap (λ r. (write_frame env r l).0) (build-eq-layout sid flags p named fits)
      ∙ link_written env _ l sure up

  frames_written :
      (c : Codec) (es : List Event) (l : RelayClient)
      → l.connected ≡ true
      → (send_frames env (calls c sid flags es) l).written
        ≡ l.written ++ answer_frames c sid flags es
  unfolding send_frames
  frames_written c [] l up = sym (append-nil l.written)
  frames_written c (e ∷ es) l up =
      let p = c.print (write_event e) in
      ap (λ (k : RelayClient). (send_frames env (calls c sid flags es) k).written)
        (frame_written p l up)
      ∙ frames_written c es _ up
      ∙ append_assoc l.written
          (binary (layout (record { session_id = sid; flags = flags; payload = p })) ∷ [])
          (answer_frames c sid flags es)

dispatch_response :
    (c : Codec) (m : Envelope) (x : Client)
    → m.type ≡ codes "res"
    → dispatch c m x ≡ handle_response c m x
unfolding dispatch text_eq
dispatch_response c m x h =
    ap
      (λ (t : Bytes).
        if text_eq t (codes "event")
        then handle_event c m x
        else if text_eq t (codes "res")
        then handle_response c m x
        else x)
      h

request_id-nonempty : (w : World) → request_id w ≢ []
unfolding new_id
request_id-nonempty w q = cc

-- A response to a request of an open session: its events go to the relay.
module _ (env : LinkEnv) (k : ℕ) (sid : Bytes) (flags : ℕ) (x : Client) (m : Envelope)
    (listening : x.listening ≡ true) (typed : m.type ≡ codes "res") (named : m.id ≢ [])
    (tracked : get x.req_to_session m.id ≡ some (k ∷ sid)) where
  response_passed :
      (b : GatewayBridge Client)
      → get b.sessions (k ∷ sid) ≡ some flags
      → b.sent ≡ []
      → (client_message env.codec m (some x) b).sent
        ≡ calls env.codec (k ∷ sid) flags (response_events env.codec m)
  unfolding request_session
  response_passed b known fresh =
      let c = env.codec in
      let x₁ : Client = record x { emitted = [] } in
      let es = response_events c m in
      let (reply, answer) = handle_response_answers c m x₁ (k ∷ sid) named tracked in
      let emitted : (dispatch c m x₁).emitted ≡ tagged (k ∷ sid) es =
        ap (λ (y : Client). y.emitted) (dispatch_response c m x₁ typed) ∙ answer.told listening in
      let b₁ : GatewayBridge Client = record b {
        gateway = some (record (dispatch c m x₁) { emitted = [] });
      } in
      ap (λ l. (pass_events c l b₁).sent) emitted
      ∙ ap (λ (b' : GatewayBridge Client). b'.sent)
          (events_sent c k flags sid es b₁ (reply-AllTyped es reply) known)
      ∙ ap (λ l. l ++ calls c (k ∷ sid) flags es) fresh

  response_relayed :
      (s : Connector)
      → NoFaults env
      → length (k ∷ sid) ≤ 255
      → s.relay.connected ≡ true
      → s.bridge.gateway ≡ some x
      → get s.bridge.sessions (k ∷ sid) ≡ some flags
      → (connector_step env s (gateway_says m)).relay.written
        ≡ s.relay.written ++ answer_frames env.codec (k ∷ sid) flags (response_events env.codec m)
  unfolding connector_step gateway_message with_bridge
  response_relayed s sure fits up bound known =
      let b : GatewayBridge Client = record s.bridge { sent = [] } in
      ap
        (λ (o : Option Client).
          (send_frames env (client_message env.codec m o b).sent s.relay).written)
        bound
      ∙ ap (λ l. (send_frames env l s.relay).written) (response_passed b known refl)
      ∙ frames_written env (k ∷ sid) flags sure (omega arith) fits env.codec
          (response_events env.codec m) s.relay up

-- A user's message of an open session, in a DATA frame of the relay.
module _ (env : LinkEnv) (t k : ℕ) (sid : Bytes) (flags old y : ℕ) (content payload frame : Bytes)
    (event : Event) (x : Client) (s : Connector) (up : s.relay.connected ≡ true)
    (bound : s.bridge.gateway ≡ some x) (ready : x.ready ≡ true) (connected : x.connected ≡ true)
    (known : get s.bridge.sessions (k ∷ sid) ≡ some old)
    (framed : parse_data_frame frame
      ≡ ok (record { session_id = k ∷ sid; flags = flags; payload = payload }))
    (decoded : decode_event env.codec payload ≡ ok event) (typed : event.type ≡ event_user_message)
    (said : trim_space event.content ≡ y ∷ content) where
  abbrev pub arrival : Input
  arrival = relay_activity t none (incoming (received (binary frame)))

  message_asked : connector_step env s arrival ≡ record s {
    bridge = record {
      sessions = put s.bridge.sessions (k ∷ sid) flags;
      gateway = some (asked_client (world_at env t none) (k ∷ sid) event (y ∷ content) x);
      sent = [];
    };
  }
  unfolding connector_step on_activity receive with_bridge send_frames
  message_asked =
      let w = world_at env t none in
      let b : GatewayBridge Client = record s.bridge { sent = [] } in
      let h = connector_host env w in
      ap (λ (u : Bool). if u then on_activity h env (incoming (received (binary frame))) s else s)
        up
      ∙ ap (λ r. on_binary h r s) framed
      ∙ ap
          (λ (b' : GatewayBridge Client).
            let r : Connector = record {
              relay = send_frames env b'.sent s.relay;
              bridge = record b' { sent = [] };
            } in
            r)
          (asked_lem w (k ∷ sid) event y content x refl ready connected said env.codec flags old
            payload b decoded typed known bound)

  -- The message is asked of the gateway, and nothing goes back to the relay; and when the gateway then
  -- answers this request, each event of the answer goes back in a DATA frame of the session that the
  -- message came from, with its flags, in order and with nothing between.
  pub message_answered :
      (m : Envelope)
      → NoFaults env
      → length (k ∷ sid) ≤ 255
      → x.listening ≡ true
      → m.type ≡ codes "res"
      → m.id ≡ request_id (world_at env t none)
      → let s₁ : Connector = connector_step env s arrival in
        (s₁.bridge.gateway
          ≡ some (asked_client (world_at env t none) (k ∷ sid) event (y ∷ content) x))
        × (s₁.relay ≡ s.relay)
        × ((connector_step env s₁ (gateway_says m)).relay.written
            ≡ s.relay.written
              ++ answer_frames env.codec (k ∷ sid) flags (response_events env.codec m))
  unfolding track_request
  message_answered m sure fits listening response ours =
      let w = world_at env t none in
      let x₁ : Client = asked_client w (k ∷ sid) event (y ∷ content) x in
      let s₁ : Connector = record s {
        bridge = record {
          sessions = put s.bridge.sessions (k ∷ sid) flags;
          gateway = some x₁;
          sent = [];
        };
      } in
      let tied : get x₁.req_to_session m.id ≡ some (k ∷ sid) =
        rw
          (
            ours,
            get-put x.req_to_session (request_id w) (request_id w) (k ∷ sid),
            text_eq_refl (request_id w),
          )
          refl in
      let open_now : get s₁.bridge.sessions (k ∷ sid) ≡ some flags =
        rw (get-put s.bridge.sessions (k ∷ sid) (k ∷ sid) flags, text_eq_refl (k ∷ sid)) refl in
      let named : m.id ≢ [] = λ q. request_id-nonempty w (sym ours ∙ q) in
      rw message_asked (
        refl,
        refl,
        response_relayed env k sid flags x₁ m listening response named tied s₁ sure fits up refl
            open_now,
      )
