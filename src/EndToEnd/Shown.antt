-- ===== src/EndToEnd/Shown.antt =====
-- The command line client of cli/main.go as it reads the frames of an answer and shows it.
use open_claw_bridge.Common.{
  ℕ, suc, ◌+◌, ◌≤◌, ◌<◌, true, not, List, [], ◌∷◌, ◌++◌, map, length, length-append, ◌≡◌, ◌≢◌, refl,
  sym, ap, ◌∙◌, arith, if◌then◌else◌, ltb, append_assoc, append-nil,
}
use open_claw_bridge.Text.{Bytes}
use open_claw_bridge.Text.Laws.{text_eq_refl}
use open_claw_bridge.Json.{Reads}
use open_claw_bridge.Protocol.Frame.{DataFrame}
use open_claw_bridge.Protocol.Frame.Laws.{layout, parse-layout}
use open_claw_bridge.Protocol.Event.{Event, write_event, decode_event}
use open_claw_bridge.Relay.Network.{Message, binary, received}
use open_claw_bridge.Connector.Wiring.Answers.{AllTyped}
use open_claw_bridge.Connector.Wiring.Answers.Relayed.{answer_frames}
use open_claw_bridge.Cli.Reader.{
  Reader, read_step, on_read, on_frame, push_decoded, push, stop, queue_size, queue_overflow,
}
use open_claw_bridge.Cli.Prompt.{
  Prompt, CliEnv, piece, answer_end, prompting, awaiting, PromptInput, frame_read, prompt_step,
  prompt_run,
}
use open_claw_bridge.Cli.Prompt.Answer.{takes, token, ending, queued, answer_shown}
use open_claw_bridge.EndToEnd.{AllRead, printed_event}

abbrev pub frames_read : List Message → List PromptInput
frames_read [] = []
frames_read (m ∷ ms) = frame_read (received m) ∷ frames_read ms

prompt_run-append :
    (env : CliEnv) (is js : List PromptInput) (s : Prompt)
    → prompt_run env (is ++ js) s ≡ prompt_run env js (prompt_run env is s)
unfolding prompt_run
prompt_run-append env [] js s = refl
prompt_run-append env (i ∷ is) js s = prompt_run-append env is js (prompt_step env i s)

-- An event is pushed where there is room.
push_room :
    (e : Event) (q : Reader)
    → length q.events < queue_size
    → push e q ≡ record q { events = q.events ++ e ∷ [] }
unfolding push
push_room e q h =
    let room : ltb (length q.events) queue_size ≡ true = ground arith in
    ap (λ b. if b then record q { events = q.events ++ e ∷ [] } else stop queue_overflow q) room

module _ (env : CliEnv) (flags : ℕ) (s : Prompt) (named : 0 < length s.session_id)
    (reading : s.reader.reading ≡ true) where
  frame_queued :
      (e : Event) (old : List Event)
      → e.type ≢ []
      → Reads env.codec (write_event e)
      → length old < queue_size
      → prompt_step env
          (frame_read (
            received (
              binary (
                layout (record {
                  session_id = s.session_id;
                  flags = flags;
                  payload = env.codec.print (write_event e);
                })))))
          (queued old s)
        ≡ queued (old ++ e ∷ []) s
  unfolding prompt_step read_step
  frame_queued e old typed h room =
      let c = env.codec in
      let d : DataFrame = record {
        session_id = s.session_id;
        flags = flags;
        payload = c.print (write_event e);
      } in
      let q : Reader = record s.reader { events = old } in
      let q' : Reader = record s.reader { events = old ++ e ∷ [] } in
      let read : read_step c s.session_id (received (binary (layout d))) q ≡ q' =
        ap (λ b. if b then on_read c s.session_id (received (binary (layout d))) q else q) reading
        ∙ ap (λ r. on_frame c s.session_id r q) (parse-layout d named)
        ∙ ap (λ b. if not b then q else push_decoded (decode_event c d.payload) q)
            (text_eq_refl s.session_id)
        ∙ ap (λ r. push_decoded r q) (printed_event c e typed h)
        ∙ push_room e q room in
      ap (λ (r : Reader). record s { reader = r }) read

  frames_queued :
      (es old : List Event)
      → AllTyped es
      → AllRead env.codec es
      → length old + length es ≤ queue_size
      → prompt_run env (frames_read (answer_frames env.codec s.session_id flags es)) (queued old s)
        ≡ queued (old ++ es) s
  unfolding prompt_run
  frames_queued [] old typed h room = ap (λ es. queued es s) (sym (append-nil old))
  frames_queued (e ∷ es) old (t, typed) (r, h) room =
      ap (prompt_run env (frames_read (answer_frames env.codec s.session_id flags es)))
        (frame_queued e old t r (omega arith))
      ∙ frames_queued es (old ++ e ∷ []) typed h (omega (arith, length-append old (e ∷ [])))
      ∙ ap (λ es. queued es s) (append_assoc old (e ∷ []) es)

  tokens-AllTyped : (contents : List Bytes) → AllTyped (map token contents ++ ending ∷ [])
  tokens-AllTyped [] = ((λ h. cc), tt)
  tokens-AllTyped (content ∷ contents) = ((λ h. cc), tokens-AllTyped contents)

  tokens_length :
      (contents : List Bytes) → length (map token contents ++ ending ∷ []) ≡ suc (length contents)
  tokens_length [] = refl
  tokens_length (content ∷ contents) = ap suc (tokens_length contents)

  -- While the client waits with an empty channel and its loop reads: when the frames of an answer in its
  -- session arrive, tokens and then an end, no more than the channel holds, and are then taken, the
  -- client shows the tokens, in order, then the end, and is back at the prompt with an empty channel. The
  -- codec is taken to read back these events.
  pub answer_arrives :
      (contents : List Bytes)
      → s.mode ≡ awaiting
      → s.reader.events ≡ []
      → suc (length contents) ≤ queue_size
      → AllRead env.codec (map token contents ++ ending ∷ [])
      → prompt_run env
          (frames_read
              (answer_frames env.codec s.session_id flags (map token contents ++ ending ∷ []))
            ++ takes (suc (length contents)))
          s
        ≡ record s { mode = prompting; shown = s.shown ++ (map piece contents ++ answer_end ∷ []) }
  answer_arrives contents mode fresh room h =
      let es = map token contents ++ ending ∷ [] in
      let frames = frames_read (answer_frames env.codec s.session_id flags es) in
      let start : queued [] s ≡ s = ap (λ es. queued es s) (sym fresh) in
      ap (prompt_run env (frames ++ takes (suc (length contents)))) (sym start)
      ∙ prompt_run-append env frames (takes (suc (length contents))) (queued [] s)
      ∙ ap (prompt_run env (takes (suc (length contents))))
          (frames_queued es [] (tokens-AllTyped contents) h (omega (arith, tokens_length contents)))
      ∙ answer_shown env contents [] s mode
      ∙ ap
          (λ es. record s {
            reader = record s.reader { events = es };
            mode = prompting;
            shown = s.shown ++ (map piece contents ++ answer_end ∷ []);
          })
          (sym fresh)
