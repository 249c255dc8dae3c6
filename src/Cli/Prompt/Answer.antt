-- ===== src/Cli/Prompt/Answer.antt =====
-- cli/main.go: what the client makes of an answer, and its session.
use open_claw_bridge.Common.{
  ℕ, zero, suc, List, [], ◌∷◌, ◌++◌, map, length, ◌≡◌, ap, ◌∙◌, append_assoc,
}
use open_claw_bridge.Text.{Bytes, text_eq}
use open_claw_bridge.Protocol.Event.{Event, no_event, event_token, event_end}
use open_claw_bridge.Cli.Reader.{take_event}
use open_claw_bridge.Cli.Prompt.{
  Prompt, CliEnv, piece, answer_end, show, prompting, awaiting, PromptInput, event_ready,
  prompt_step, prompt_run, on_mode, on_event,
}

abbrev pub takes : ℕ → List PromptInput
takes zero = []
takes (suc n) = event_ready ∷ takes n

abbrev pub token : Bytes → Event
token content = record no_event { type = event_token; content = content }

abbrev pub ending : Event
ending = record no_event { type = event_end }

-- The channel while the answer stands in it.
abbrev pub queued : List Event → Prompt → Prompt
queued es s = record s { reader = record s.reader { events = es } }

taken_event :
    (env : CliEnv) (e : Event) (es : List Event) (s : Prompt)
    → s.mode ≡ awaiting
    → prompt_step env event_ready (queued (e ∷ es) s) ≡ on_event e (queued es s)
unfolding prompt_step take_event
taken_event env e es s m = ap (λ k. on_mode env event_ready k (queued (e ∷ es) s)) m

taken_token :
    (env : CliEnv) (content : Bytes) (es : List Event) (s : Prompt)
    → s.mode ≡ awaiting
    → prompt_step env event_ready (queued (token content ∷ es) s)
      ≡ queued es (show (piece content) s)
unfolding on_event text_eq
taken_token env content es s m = taken_event env (token content) es s m

taken_end :
    (env : CliEnv) (es : List Event) (s : Prompt)
    → s.mode ≡ awaiting
    → prompt_step env event_ready (queued (ending ∷ es) s)
      ≡ show answer_end (record (queued es s) { mode = prompting })
unfolding on_event text_eq
taken_end env es s m = taken_event env ending es s m

-- When the answer stands in the channel, as tokens and then an end, the client that waits shows the
-- tokens, in order, then the end, and goes back to the prompt; what stood behind the end stays in the
-- channel.
pub answer_shown :
    (env : CliEnv) (contents : List Bytes) (later : List Event) (s : Prompt)
    → s.mode ≡ awaiting
    → prompt_run env
        (takes (suc (length contents)))
        (queued (map token contents ++ ending ∷ later) s)
      ≡ record s {
        reader = record s.reader { events = later };
        mode = prompting;
        shown = s.shown ++ (map piece contents ++ answer_end ∷ []);
      }
unfolding prompt_run
answer_shown env [] later s m = taken_end env later s m
answer_shown env (content ∷ contents) later s m =
    ap (prompt_run env (takes (suc (length contents))))
      (taken_token env content (map token contents ++ ending ∷ later) s m)
    ∙ answer_shown env contents later (show (piece content) s) m
    ∙ ap
        (λ shown. record s {
          reader = record s.reader { events = later };
          mode = prompting;
          shown = shown;
        })
        (append_assoc s.shown (piece content ∷ []) (map piece contents ++ answer_end ∷ []))
