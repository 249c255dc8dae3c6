-- ===== src/EndToEnd.antt =====
-- The command line client of cli/main.go and the connector of connector/main.go, at the two ends of a
-- session, without the relay between them.
pub mod Pairing
pub mod RoundTrip
pub mod Shown
use open_claw_bridge.Common.{
  ℕ, ◌≤◌, ◌<◌, true, false, not, none, some, List, [], ◌∷◌, ◌++◌, length, ok, ◌≡◌, ◌≢◌, refl, sym,
  subst, ap, ◌∙◌, arith, All, if◌then◌else◌,
}
use open_claw_bridge.Text.{Bytes, codes, has_prefix, trim_space}
use open_claw_bridge.Text.Laws.{text_eq_refl}
use open_claw_bridge.Json.{Codec, Reads}
use open_claw_bridge.GoMap.{get}
use open_claw_bridge.Protocol.Frame.Laws.{layout, parse-layout}
use open_claw_bridge.Protocol.Event.{Event, decode_event, write_event}
use open_claw_bridge.Protocol.Event.Laws.{decode_event-encode_event, encode_event_total}
use open_claw_bridge.Relay.Network.{Message, binary, received}
use open_claw_bridge.Connector.Payload.{Envelope}
use open_claw_bridge.Connector.Gateway.{Client}
use open_claw_bridge.Connector.Gateway.Answers.{response_events, response_events-IsReply}
use open_claw_bridge.Connector.RelayClient.{LinkEnv, incoming}
use open_claw_bridge.Connector.Wiring.{
  Connector, relay_activity, gateway_says, connector_step, world_at,
}
use open_claw_bridge.Connector.Wiring.Answers.{request_id, asked_client, AllTyped, reply-AllTyped}
use open_claw_bridge.Connector.Wiring.Answers.Relayed.{NoFaults, answer_frames, message_answered}
use open_claw_bridge.Cli.Reader.Turns.{
  Turn, reads, arriving, read_events, frame_events, decoded_events,
}
use open_claw_bridge.Cli.Prompt.{
  Prompt, CliEnv, Sending, user_event, json_prefix, prompt_step, line_typed, prompting, awaiting,
}
use open_claw_bridge.Cli.Prompt.Lines.{line_sent, IsCarried}

-- The messages of a connection as they are read, one after the other.
abbrev pub read_in_turn : List Message → List Turn
read_in_turn [] = []
read_in_turn (m ∷ ms) = reads (received m) ∷ read_in_turn ms

abbrev pub AllRead : Codec → List Event → Type 0
AllRead c es = All (λ e. Reads c (write_event e)) es

pub printed_event :
    (c : Codec) (e : Event)
    → e.type ≢ []
    → Reads c (write_event e)
    → decode_event c (c.print (write_event e)) ≡ ok e
printed_event c e typed h =
    let (p, encoded, decoded) = decode_event-encode_event c e typed h in
    let same : c.print (write_event e) ≡ p = cc (encode_event_total c e typed, encoded) in
    subst (λ p. decode_event c p ≡ ok e) (sym same) decoded

module _ (c : Codec) (sid : Bytes) (flags : ℕ) (named : 0 < length sid) where
  frame_arrives :
      (e : Event)
      → e.type ≢ []
      → Reads c (write_event e)
      → read_events c sid (
          received (
            binary (
              layout
                (record { session_id = sid; flags = flags; payload = c.print (write_event e) }))))
        ≡ e ∷ []
  frame_arrives e typed h =
      let p = c.print (write_event e) in
      ap (frame_events c sid)
        (parse-layout (record { session_id = sid; flags = flags; payload = p }) named)
      ∙ ap (λ b. if not b then [] else decoded_events (decode_event c p)) (text_eq_refl sid)
      ∙ ap decoded_events (printed_event c e typed h)

  -- The frames of an answer, read in turn, bring the client of the session the answer's events.
  frames_arrive :
      (es : List Event)
      → AllTyped es
      → AllRead c es
      → arriving c sid (read_in_turn (answer_frames c sid flags es)) ≡ es
  frames_arrive [] typed h = refl
  frames_arrive (e ∷ es) (t, typed) (r, h) =
      ap (λ got. got ++ arriving c sid (read_in_turn (answer_frames c sid flags es)))
        (frame_arrives e t r)
      ∙ ap (◌∷◌ e) (frames_arrive es typed h)

-- What becomes of a frame that carries a line of a session, and of the gateway's response `m` to it:
-- the gateway is asked for the content of the line, and what the connector writes then is, to the
-- client, the events of the response.
abbrev pub IsAnswered :
    LinkEnv → ℕ → Bytes → Bytes → Bytes → Client → Connector → Envelope → Bytes → Type 0
IsAnswered env t session_id line content x s m frame =
    let s₁ : Connector =
      connector_step env s (relay_activity t none (incoming (received (binary frame)))) in
    let answer = answer_frames env.codec session_id 0 (response_events env.codec m) in
    (s₁.bridge.gateway
      ≡ some (asked_client (world_at env t none) session_id (user_event line) content x))
    × ((connector_step env s₁ (gateway_says m)).relay.written ≡ s.relay.written ++ answer)
    × (arriving env.codec session_id (read_in_turn answer) ≡ response_events env.codec m)

-- A line typed at the client, in a session that the connector has open with a gateway that is ready.
module _ (env : LinkEnv) (cli : CliEnv) (w : Sending) (line : Bytes) (p : Prompt) (t k : ℕ)
    (sid : Bytes) (old y : ℕ) (content : Bytes) (x : Client) (s : Connector)
    (shared : cli.codec ≡ env.codec) (session : p.session_id ≡ k ∷ sid)
    (fits : length (k ∷ sid) ≤ 255) (mode : p.mode ≡ prompting) (unsent : w.unsent ≡ false)
    (said : trim_space line ≡ y ∷ content)
    (plain : has_prefix (trim_space line) json_prefix ≡ false)
    (readable : Reads env.codec (write_event (user_event line))) (up : s.relay.connected ≡ true)
    (bound : s.bridge.gateway ≡ some x) (ready : x.ready ≡ true) (connected : x.connected ≡ true)
    (listening : x.listening ≡ true) (known : get s.bridge.sessions (k ∷ sid) ≡ some old)
    (sure : NoFaults env) where
  -- The line is written as one frame, and the connector that receives it answers it.
  pub line-IsAnswered :
      (m : Envelope)
      → m.type ≡ codes "res"
      → m.id ≡ request_id (world_at env t none)
      → AllRead env.codec (response_events env.codec m)
      → (frame : Bytes) × (prompt_step cli (line_typed line w) p
          ≡ record p { mode = awaiting; written = p.written ++ binary frame ∷ [] })
        × IsCarried env.codec (k ∷ sid) (user_event line) frame
        × IsAnswered env t (k ∷ sid) line (y ∷ content) x s m frame
  line-IsAnswered m response ours readable_answer =
      let (frame, step, carried) =
        line_sent cli w line p mode (λ q. cc (said, q)) plain
          (subst (λ sid. 0 < length sid) (sym session) (omega arith))
          (subst (λ sid. length sid ≤ 255) (sym session) fits)
          (subst (λ c. Reads c (write_event (user_event line))) (sym shared) readable) unsent in
      let (payload, framed, decoded) : IsCarried env.codec (k ∷ sid) (user_event line) frame =
        subst (λ c. IsCarried c (k ∷ sid) (user_event line) frame) shared
          (subst (λ sid. IsCarried cli.codec sid (user_event line) frame) session carried) in
      let (asked, quiet, answered) =
        message_answered env t k sid 0 old y content payload frame (user_event line) x s up bound
          ready connected known framed decoded refl said m sure fits listening response ours in
      let typed = reply-AllTyped _ (response_events-IsReply env.codec m) in
      (
        frame,
        step,
        (payload, framed, decoded),
        (
          asked,
          answered,
          frames_arrive env.codec (k ∷ sid) 0 (omega arith) (response_events env.codec m) typed
              readable_answer,
        ),
      )
