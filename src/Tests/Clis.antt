-- ===== src/Tests/Clis.antt =====
-- The command line client of cli/main.go on sample inputs.
use open_claw_bridge.Common.{true, false, some, List, [], ◌∷◌, ◌++◌, ◌≡◌, refl, arith}
use open_claw_bridge.Text.{Bytes, codes, text_eq, trim_space, has_prefix}
use open_claw_bridge.Json.{opt_text}
use open_claw_bridge.Protocol.Event.{
  event_token, write_event, opt_images, decode_event, read_event, encode_event,
}
use open_claw_bridge.Protocol.Frame.{parse_data_frame, build_data_frame}
use open_claw_bridge.Relay.Network.{text, binary, received, read_error}
use open_claw_bridge.Cli.Connect.{Attempt}
use open_claw_bridge.Cli.Reader.{new_reader, read_step, take_event, push, stop, connection_lost}
use open_claw_bridge.Cli.Reader.Turns
use open_claw_bridge.Cli.Reader.Turns.{Turn, reads, arriving, run_turns}
use open_claw_bridge.Cli.Reader.Order.{Delivered, run_turns-Delivered}
use open_claw_bridge.Cli.Reader.Bounds.{IsSound, run_turns-IsSound}
use open_claw_bridge.Cli.Prompt.{
  Prompt, CliEnv, Sending, prompt_step, prompt_run, start, line_typed, new_prompt, prompting,
  awaiting, frame_read, event_ready, response_timeout, outbound_event, piece, timed_out, answer_end,
  on_event,
}
use open_claw_bridge.Cli.Prompt.Answer.{token, ending}
use open_claw_bridge.Cli.Prompt.Answer
use open_claw_bridge.Cli.Prompt.Session.{HasSession, start_run-HasSession}
use open_claw_bridge.Connector.Wiring.Answers.Relayed.{answer_frames}
use open_claw_bridge.EndToEnd.Shown.{frames_read, answer_arrives}
use open_claw_bridge.Tests.Samples.{event_codec, sample_event, sample_end}

-- Opens every definition that a run of the client meets.
opened : Unit {0}
unfolding text_eq trim_space has_prefix opt_text write_event opt_images decode_event read_event
    encode_event read_step take_event push stop prompt_step prompt_run outbound_event on_event
    parse_data_frame build_data_frame
opened = tt

abbrev pub sid : Bytes
sid = codes "s_1"

abbrev pub event_frame : Bytes → Bytes
event_frame payload = 3 ∷ (sid ++ (0 ∷ payload))

-- A token, a text message, an event taken, the end, and then the connection is lost.
abbrev turns : List Turn
turns =
    reads (received (binary (event_frame (codes "T"))))
    ∷ reads (received (text (codes "{}")))
    ∷ Turns.takes
    ∷ reads (received (binary (event_frame (codes "E"))))
    ∷ reads read_error
    ∷ []

turns_run : run_turns event_codec sid turns new_reader ≡ (
  sample_event event_token ∷ [],
  record { events = sample_end ∷ []; errs = some connection_lost; reading = false },
)
unfolding opened
turns_run = refl

run_turns-IsSound_example : IsSound (run_turns event_codec sid turns new_reader).1
run_turns-IsSound_example = run_turns-IsSound event_codec sid turns new_reader (omega arith, refl)

run_turns-Delivered_example :
    Delivered (arriving event_codec sid turns) (run_turns event_codec sid turns new_reader)
run_turns-Delivered_example = run_turns-Delivered event_codec sid turns new_reader

abbrev pub cli_env : CliEnv
cli_env = record { codec = event_codec; access_code = codes "A"; reconnect = true }

abbrev pub sending : Sending
sending = record { unsent = false; attempts = []; unsent_again = false }

abbrev pub at_prompt : Prompt
at_prompt = record new_prompt { session_id = sid; mode = prompting }

abbrev at_answer : Prompt
at_answer = record at_prompt { mode = awaiting }

answer_arrives_example :
    prompt_run cli_env
      (frames_read (answer_frames event_codec sid 0 (token (codes "hi") ∷ ending ∷ []))
        ++ Answer.takes 2)
      at_answer
    ≡ record at_prompt { shown = piece (codes "hi") ∷ answer_end ∷ [] }
unfolding opened
answer_arrives_example =
    answer_arrives cli_env 0 at_answer (omega arith) refl (codes "hi" ∷ []) refl refl (omega arith)
      (refl, (refl, tt))

-- An answer that comes after the timeout is shown as the answer to the next line.
late_answer :
    (prompt_run cli_env
      (line_typed (codes "hi") sending
        ∷ response_timeout
        ∷ frame_read (received (binary (event_frame (codes "T"))))
        ∷ frame_read (received (binary (event_frame (codes "E"))))
        ∷ line_typed (codes "hi") sending
        ∷ event_ready
        ∷ event_ready
        ∷ [])
      at_prompt).shown
    ≡ timed_out ∷ piece (codes "hi") ∷ answer_end ∷ []
unfolding opened
late_answer = refl

abbrev lost_attempt : Attempt
lost_attempt = record { dialed = true; unsent = false; reads = read_error ∷ [] }

start_run-HasSession_example :
    HasSession cli_env (prompt_run cli_env (event_ready ∷ []) (start cli_env lost_attempt))
start_run-HasSession_example = start_run-HasSession cli_env lost_attempt (event_ready ∷ [])
