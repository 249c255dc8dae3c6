-- ===== src/Cli/Prompt/Lines.antt =====
-- cli/main.go: what the client sends for a line.
use open_claw_bridge.Common.{
  ◌≤◌, ◌<◌, Bool, true, false, not, Option, none, some, [], ◌∷◌, ◌++◌, if◌then◌else◌, length, drop,
  ok, ◌≡◌, ◌≢◌, subst, ap, ◌∙◌, arith, Bool-cases, ◌⊎◌, inl, inr,
}
use open_claw_bridge.Text.{Bytes, text_eq, has_prefix, trim_space}
use open_claw_bridge.Text.Laws.{text_eq_iff, text_eq_of_ne}
use open_claw_bridge.Json.{Codec, Reads}
use open_claw_bridge.Protocol.Frame.{DataFrame, parse_data_frame}
use open_claw_bridge.Protocol.Frame.Laws.{layout, build-eq-layout, parse-layout}
use open_claw_bridge.Protocol.Event.{Event, decode_event, write_event}
use open_claw_bridge.Protocol.Event.Laws.{decode_event-encode_event}
use open_claw_bridge.Relay.Network.{binary}
use open_claw_bridge.Cli.Prompt.{
  Prompt, CliEnv, Sending, Outbound, outbound, outbound_event, outbound_json, or_user_message,
  user_event, json_prefix, empty_json, prompt_step, line_typed, prompting, awaiting, on_mode,
  send_outbound, send_payload, send_frame, sent, resend, blank, rejected, unmarshal_line,
}

or_user_message-typed : (e : Event) → (or_user_message e).type ≢ []
or_user_message-typed e = elim (Bool-cases (text_eq e.type [])) [
  | inl b ↦ rw b (λ h. cc)
  | inr b ↦ rw b (ground (arith, text_eq_iff e.type []))
]

outbound_json-typed : (o : Option Event) (e : Event) → outbound_json o ≡ outbound e → e.type ≢ []
outbound_json-typed none e h = cc
outbound_json-typed (some k) e h =
    let same : or_user_message k ≡ e = cc in subst (λ e. e.type ≢ []) same (or_user_message-typed k)

-- The bytes that carry an event in a session, as the relay and the connector read them.
abbrev pub IsCarried : Codec → Bytes → Event → Bytes → Type 0
IsCarried c sid e frame =
    (payload : Bytes) × (parse_data_frame frame
      ≡ ok (record { session_id = sid; flags = 0; payload = payload }))
    × (decode_event c payload ≡ ok e)

-- At the prompt, a line is what it takes.
prompting_line :
    (env : CliEnv) (line : Bytes) (w : Sending) (s : Prompt)
    → s.mode ≡ prompting
    → prompt_step env (line_typed line w) s ≡ send_outbound env w (outbound_event env.codec line) s
unfolding prompt_step
prompting_line env line w s m = ap (λ k. on_mode env (line_typed line w) k s) m

plain_line :
    (c : Codec) (line : Bytes)
    → trim_space line ≢ []
    → has_prefix (trim_space line) json_prefix ≡ false
    → outbound_event c line ≡ outbound (user_event line)
unfolding outbound_event
plain_line c line said plain = simp (text_eq_of_ne (trim_space line) [] said, plain)

branch-outbound :
    (b : Bool) (o o' : Outbound) (e : Event)
    → (if b then o else o') ≡ outbound e
    → (o ≡ outbound e) ⊎ (o' ≡ outbound e)
branch-outbound true o o' e h = inl h
branch-outbound false o o' e h = inr h

-- Whatever is sent has a type, so that it can be encoded.
outbound_event-typed :
    (c : Codec) (line : Bytes) (e : Event) → outbound_event c line ≡ outbound e → e.type ≢ []
unfolding outbound_event
outbound_event-typed c line e h =
    let trimmed : Bytes = trim_space line in
    let raw : Bytes = trim_space (drop 5 trimmed) in
    let o : Option Event = unmarshal_line (c.parse raw) line in
    let json : Outbound = if text_eq raw [] then rejected empty_json else outbound_json o in
    let user : Outbound = outbound (user_event line) in
    let rest : Outbound = if not (has_prefix trimmed json_prefix) then user else json in
    elim (branch-outbound (text_eq trimmed []) blank rest e h) [
      | inl p ↦ cc
      | inr p ↦ elim (branch-outbound (not (has_prefix trimmed json_prefix)) user json e p) [
        | inl q ↦ let same : user_event line ≡ e = cc in subst (λ e. e.type ≢ []) same (λ h. cc)
        | inr q ↦
            elim (branch-outbound (text_eq raw []) (rejected empty_json) (outbound_json o) e q) [
              | inl r ↦ cc
              | inr r ↦ outbound_json-typed o e r
            ]
      ]
    ]

module _ (env : CliEnv) (w : Sending) (line : Bytes) (s : Prompt) where
  -- An event that a line makes is written as one frame of the session, without flags, whose payload
  -- decodes to that event; the client then waits. The write is taken to succeed, the session id to
  -- fit in a frame, and the codec to read back the event that it prints.
  pub outbound_sent :
      (e : Event)
      → outbound_event env.codec line ≡ outbound e
      → s.mode ≡ prompting
      → 0 < length s.session_id
      → length s.session_id ≤ 255
      → Reads env.codec (write_event e)
      → w.unsent ≡ false
      → (frame : Bytes) × (prompt_step env (line_typed line w) s
          ≡ record s { mode = awaiting; written = s.written ++ binary frame ∷ [] })
        × IsCarried env.codec s.session_id e frame
  outbound_sent e out m pos fits reads written =
      let (payload, encoded, decoded) =
        decode_event-encode_event env.codec e (outbound_event-typed env.codec line e out) reads in
      let d : DataFrame = record { session_id = s.session_id; flags = 0; payload = payload } in
      let step : prompt_step env (line_typed line w) s
          ≡ send_frame env w payload (ok (layout d)) s =
        prompting_line env line w s m
        ∙ ap (λ o. send_outbound env w o s) out
        ∙ ap (λ r. send_payload env w r s) encoded
        ∙ ap (λ r. send_frame env w payload r s)
            (build-eq-layout s.session_id 0 payload pos fits) in
      (
        layout d,
        step ∙ ap (λ b. if b then resend env w payload s else sent false (layout d) s) written,
        (payload, parse-layout d pos, decoded),
      )

  -- A line that is not blank and does not begin with `json:` is written as one frame of the session,
  -- without flags, whose payload decodes to a user message with the line as it was typed; the client
  -- then waits. The write is taken to succeed, the session id to fit in a frame, and the codec to
  -- read back the event that it prints.
  pub line_sent :
      s.mode ≡ prompting
      → trim_space line ≢ []
      → has_prefix (trim_space line) json_prefix ≡ false
      → 0 < length s.session_id
      → length s.session_id ≤ 255
      → Reads env.codec (write_event (user_event line))
      → w.unsent ≡ false
      → (frame : Bytes) × (prompt_step env (line_typed line w) s
          ≡ record s { mode = awaiting; written = s.written ++ binary frame ∷ [] })
        × IsCarried env.codec s.session_id (user_event line) frame
  line_sent m said plain pos fits reads written =
      outbound_sent (user_event line) (plain_line env.codec line said plain) m pos fits reads
        written
