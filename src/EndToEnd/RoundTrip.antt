-- ===== src/EndToEnd/RoundTrip.antt =====
-- A line of the command line client of cli/main.go, through the relay of relay/main.go to the
-- connector of connector/main.go, and the answer back.
use open_claw_bridge.Common.{
  ℕ, ◌≤◌, ◌<◌, true, false, none, some, List, [], ◌∷◌, ◌++◌, length, ok, ◌≡◌, refl, sym, subst, ap,
  ◌∙◌, arith, if◌then◌else◌, ◌==◌, ==_refl, append_assoc, append-nil,
}
use open_claw_bridge.Text.{Bytes, codes, has_prefix, trim_space}
use open_claw_bridge.Json.{Codec, Reads}
use open_claw_bridge.GoMap.{get}
use open_claw_bridge.Protocol.Frame.{DataFrame, parse_data_frame}
use open_claw_bridge.Protocol.Frame.Laws.{layout, parse-layout}
use open_claw_bridge.Protocol.Event.{Event, write_event}
use open_claw_bridge.Relay.Network.{
  Message, Read, Delivery, Network, binary, received, can_write, elem,
}
use open_claw_bridge.Relay.Stores.{Peer, Session, sessions_get}
use open_claw_bridge.Relay.Stores.Laws.{AllEntries-get}
use open_claw_bridge.Relay.Server.{Env, Server, handle_message, opposite}
use open_claw_bridge.Relay.Accept.{connector_loop, client_loop}
use open_claw_bridge.Relay.Spec.{stores}
use open_claw_bridge.Relay.Spec.Invariant.{Inv, IsSession}
use open_claw_bridge.Relay.Routing.{forwarded, route_delivers, opposite-client, opposite-connector}
use open_claw_bridge.Connector.Payload.{Envelope}
use open_claw_bridge.Connector.Gateway.{Client}
use open_claw_bridge.Connector.Gateway.Answers.{response_events}
use open_claw_bridge.Connector.RelayClient.{LinkEnv}
use open_claw_bridge.Connector.Wiring.{Connector, world_at}
use open_claw_bridge.Connector.Wiring.Answers.{request_id}
use open_claw_bridge.Connector.Wiring.Answers.Relayed.{NoFaults, answer_frames}
use open_claw_bridge.Cli.Prompt.{
  Prompt, CliEnv, Sending, user_event, json_prefix, prompt_step, line_typed, prompting, awaiting,
}
use open_claw_bridge.EndToEnd.{AllRead, IsAnswered, line-IsAnswered}

-- What was delivered on a connection, in order.
abbrev pub heard : ℕ → List Delivery → List Message
heard conn [] = []
heard conn (d ∷ log) = heard conn log ++ (if d.conn == conn then d.message ∷ [] else [])

abbrev pub received_in_turn : List Message → List Read
received_in_turn [] = []
received_in_turn (m ∷ ms) = received m ∷ received_in_turn ms

abbrev pub NoFaultsIn : Env → Type 0
NoFaultsIn env = (conn n : ℕ) → env.faults conn n ≡ false

-- A connection that the relay has not closed.
abbrev pub IsUp : ℕ → Server → Type 0
IsUp conn s = elem conn s.network.closed ≡ false

pub can_write_up :
    (env : Env) (conn : ℕ) (n : Network)
    → NoFaultsIn env
    → elem conn n.closed ≡ false
    → can_write env.faults conn n ≡ true
unfolding can_write
can_write_up env conn n sure up = rw (up, sure conn n.writes) refl

heard-forwarded :
    (target : Peer) (frame : Bytes) (s : Server)
    → heard target.conn (forwarded target frame s).network.log
      ≡ heard target.conn s.network.log ++ binary frame ∷ []
heard-forwarded target frame s = rw (==_refl target.conn) refl

-- The relay with a session, where no write fails.
module _ (env : Env) (sure : NoFaultsIn env) (sid : Bytes) (named : 0 < length sid)
    (x : Session) where
  frame_routed :
      (sender target : Peer) (frame : Bytes) (flags : ℕ) (payload : Bytes) (s : Server)
      → parse_data_frame frame ≡ ok (record { session_id = sid; flags = flags; payload = payload })
      → opposite sender x ≡ some target
      → sessions_get s.sessions sid ≡ some x
      → IsUp target.conn s
      → handle_message env sender (binary frame) s ≡ forwarded target frame s
  unfolding handle_message
  frame_routed sender target frame flags payload s parsed across found up =
      route_delivers env sender target frame
        (record { session_id = sid; flags = flags; payload = payload }) x s parsed found across
        (can_write_up env target.conn s.network sure up)

  -- The frames of an answer, read by the relay from the connector, reach the client unchanged.
  answer_routed :
      (c : Codec) (flags : ℕ) (es : List Event) (s : Server)
      → opposite x.connector x ≡ some x.client
      → sessions_get s.sessions sid ≡ some x
      → IsUp x.client.conn s
      → heard x.client.conn
          (connector_loop env x.connector
            (received_in_turn (answer_frames c sid flags es))
            s).network.log
        ≡ heard x.client.conn s.network.log ++ answer_frames c sid flags es
  unfolding connector_loop
  answer_routed c flags [] s across found up = sym (append-nil (heard x.client.conn s.network.log))
  answer_routed c flags (e ∷ es) s across found up =
      let payload = c.print (write_event e) in
      let d : DataFrame = record { session_id = sid; flags = flags; payload = payload } in
      let frame = layout d in
      let rest = received_in_turn (answer_frames c sid flags es) in
      ap (λ (s' : Server). heard x.client.conn (connector_loop env x.connector rest s').network.log)
        (frame_routed x.connector x.client frame flags payload s (parse-layout d named) across found
          up)
      ∙ answer_routed c flags es (forwarded x.client frame s) across found up
      ∙ ap (λ ms. ms ++ answer_frames c sid flags es) (heard-forwarded x.client frame s)
      ∙ append_assoc (heard x.client.conn s.network.log) (binary frame ∷ [])
          (answer_frames c sid flags es)

-- What the relay makes of a frame that it reads from the client of a session, and then of the frames of
-- an answer that it reads from its connector.
abbrev pub IsRelayed : Env → Session → Server → Bytes → List Message → Type 0
IsRelayed env x s frame answer =
    let s₁ : Server = client_loop env x.client (received (binary frame) ∷ []) s in
    let s₂ : Server = connector_loop env x.connector (received_in_turn answer) s₁ in
    (heard x.connector.conn s₁.network.log
      ≡ heard x.connector.conn s.network.log ++ binary frame ∷ [])
    × (heard x.client.conn s₂.network.log ≡ heard x.client.conn s₁.network.log ++ answer)

module _ (env : LinkEnv) (cli : CliEnv) (relay_env : Env) (w : Sending) (line : Bytes) (p : Prompt)
    (t k : ℕ) (sid : Bytes) (old y : ℕ) (content : Bytes) (g : Client) (s : Connector) (x : Session)
    (r : Server) (m : Envelope) where
  -- A session stands from the client over the relay to a connector whose gateway is connected and
  -- ready, no write fails, client and connector read JSON alike, and the codec reads back the events
  -- concerned. Then a line that is not blank and does not begin with `json:` is written as one frame;
  -- the relay delivers it to the connector; the connector asks the gateway for the line, without the
  -- white space around it; when the gateway responds to that request, the relay delivers to the client
  -- exactly what the connector writes; and to the client that is the events of the response, in order.
  pub round_trip :
      cli.codec ≡ env.codec
      → p.session_id ≡ k ∷ sid
      → length (k ∷ sid) ≤ 255
      → p.mode ≡ prompting
      → w.unsent ≡ false
      → trim_space line ≡ y ∷ content
      → has_prefix (trim_space line) json_prefix ≡ false
      → Reads env.codec (write_event (user_event line))
      → s.relay.connected ≡ true
      → s.bridge.gateway ≡ some g
      → g.ready ≡ true
      → g.connected ≡ true
      → g.listening ≡ true
      → get s.bridge.sessions (k ∷ sid) ≡ some old
      → NoFaults env
      → Inv (stores r)
      → sessions_get r.sessions (k ∷ sid) ≡ some x
      → NoFaultsIn relay_env
      → IsUp x.client.conn r
      → IsUp x.connector.conn r
      → m.type ≡ codes "res"
      → m.id ≡ request_id (world_at env t none)
      → AllRead env.codec (response_events env.codec m)
      → (frame : Bytes) × (prompt_step cli (line_typed line w) p
          ≡ record p { mode = awaiting; written = p.written ++ binary frame ∷ [] })
        × IsAnswered env t (k ∷ sid) line (y ∷ content) g s m frame
        × IsRelayed relay_env x r frame
            (answer_frames env.codec (k ∷ sid) 0 (response_events env.codec m))
  unfolding client_loop sessions_get
  round_trip shared session fits mode unsent said plain readable up bound ready connected listening
        known sure v found quiet client_up connector_up response ours readable_answer =
      let (frame, step, (payload, framed, decoded), answered) =
        line-IsAnswered env cli w line p t k sid old y content g s shared session fits mode unsent
          said plain readable up bound ready connected listening known sure m response ours
          readable_answer in
      let pairing =
        AllEntries-get (IsSession r.next_addr) r.sessions (k ∷ sid) x v.session_pairs found in
      let there : handle_message relay_env x.client (binary frame) r
          ≡ forwarded x.connector frame r =
        frame_routed relay_env quiet (k ∷ sid) (omega arith) x x.client x.connector frame 0 payload
          r framed (opposite-client x) found connector_up in
      let answer = answer_frames env.codec (k ∷ sid) 0 (response_events env.codec m) in
      (
        frame,
        step,
        answered,
        subst
            (λ (r₁ : Server).
              (heard x.connector.conn r₁.network.log
                ≡ heard x.connector.conn r.network.log ++ binary frame ∷ [])
              × (heard x.client.conn
                    (connector_loop relay_env x.connector (received_in_turn answer) r₁).network.log
                  ≡ heard x.client.conn r₁.network.log ++ answer))
            (sym there)
            (
              heard-forwarded x.connector frame r,
              answer_routed relay_env quiet (k ∷ sid) (omega arith) x env.codec 0
                  (response_events env.codec m) (forwarded x.connector frame r)
                  (opposite-connector r.next_addr x pairing.1) found client_up,
            ),
      )
