-- ===== src/Cli/Prompt.antt =====
-- main and reconnectSession of cli/main.go: the prompt and its loop over the answer. Whether a write
-- fails, and what each attempt to connect meets, come with the input that needs them. What an attempt
-- left unread comes to the reading loop with its later turns.
pub mod Lines
pub mod Answer
pub mod Session
use open_claw_bridge.Common.{
  Bool, true, false, not, Option, none, some, List, [], ◌∷◌, ◌++◌, if◌then◌else◌, drop, Result, ok,
  err,
}
use open_claw_bridge.Text.{Bytes, codes, text_eq, has_prefix, trim_space}
use open_claw_bridge.Json.{Codec, Value}
use open_claw_bridge.Protocol.Frame.{FrameError, build_data_frame}
use open_claw_bridge.Protocol.Control.{no_message, encode_control, type_close_session}
use open_claw_bridge.Protocol.Event.{
  Event, EventError, no_event, event_user_message, event_token, event_end, event_error,
  encode_event, read_event,
}
use open_claw_bridge.Relay.Network.{Message, Read, text, binary}
use open_claw_bridge.Cli.Connect.{Attempt, Opening, waiting, opened, failed, connect_session}
use open_claw_bridge.Cli.Reader.{Reader, ReaderError, new_reader, read_step, take_event}

-- What the client prints or logs.
pub data Shown : Type 0 where
  empty_json invalid_json encode_failed frame_failed lost interrupted timed_out answer_end : Shown
  piece : Bytes → Shown
  failure : Bytes → Bytes → Shown

-- log.Fatal ends the process, `finished` is its return.
pub data Mode : Type 0 where
  prompting awaiting reconnecting finished fatal : Mode

pub record Prompt : Type 0 where
  pub session_id : Bytes
  pub reader : Reader
  pub mode : Mode
  pub shown : List Shown
  pub written : List Message

pub record CliEnv : Type 0 where
  pub codec : Codec
  pub access_code : Bytes
  pub reconnect : Bool

abbrev pub show : Shown → Prompt → Prompt
show o s = record s { shown = s.shown ++ o ∷ [] }

abbrev pub reconnected :
    Opening → List Message → List Message × Option Bytes → List Message × Option Bytes
reconnected waiting ms rest = (ms, none)
reconnected (opened session_id reads) ms rest = (ms, some session_id)
reconnected (failed e) ms (ms', r) = (ms ++ ms', r)

-- The attempts are all that there will be: without an opening the loop goes on.
unfoldable pub reconnect_session : CliEnv → List Attempt → List Message × Option Bytes
reconnect_session env [] = ([], none)
reconnect_session env (a ∷ later) =
    let rest = reconnect_session env later in
    let (ms, o) = connect_session env.codec env.access_code a in reconnected o ms rest

-- A new connection brings new channels.
abbrev pub with_session : List Message × Option Bytes → (Prompt → Prompt) → Prompt → Prompt
with_session (ms, none) go s = record s { mode = reconnecting; written = s.written ++ ms }
with_session (ms, some session_id) go s =
    go (record s { session_id = session_id; reader = new_reader; written = s.written ++ ms })

abbrev pub user_event : Bytes → Event
user_event line = record no_event { type = event_user_message; content = line }

pub data Outbound : Type 0 where
  blank : Outbound
  rejected : Shown → Outbound
  outbound : Event → Outbound

abbrev pub or_user_message : Event → Event
or_user_message e = if text_eq e.type [] then record e { type = event_user_message } else e

abbrev pub outbound_json : Option Event → Outbound
outbound_json none = rejected invalid_json
outbound_json (some e) = outbound (or_user_message e)

-- json.Unmarshal into the event made from the line.
abbrev pub unmarshal_line : Option Value → Bytes → Option Event
unmarshal_line none line = none
unmarshal_line (some v) line = read_event (user_event line) v

abbrev pub json_prefix : Bytes
json_prefix = codes "json:"

unfoldable pub outbound_event : Codec → Bytes → Outbound
outbound_event c line =
    let trimmed = trim_space line in
    let raw = trim_space (drop 5 trimmed) in
    if text_eq trimmed []
    then blank
    else if not (has_prefix trimmed json_prefix)
    then outbound (user_event line)
    else if text_eq raw []
    then rejected empty_json
    else outbound_json (unmarshal_line (c.parse raw) line)

-- How the sending of one line goes: whether the write fails, the attempts to reconnect then, and
-- whether the second write fails.
pub record Sending : Type 0 where
  pub unsent : Bool
  pub attempts : List Attempt
  pub unsent_again : Bool

abbrev pub sent : Bool → Bytes → Prompt → Prompt
sent true frame s = record s { mode = fatal }
sent false frame s = record s { mode = awaiting; written = s.written ++ binary frame ∷ [] }

abbrev pub sent_again : Bool → Result FrameError Bytes → Prompt → Prompt
sent_again unsent_again (err e) s = record s { mode = fatal }
sent_again unsent_again (ok frame) s = sent unsent_again frame s

unfoldable pub resend : CliEnv → Sending → Bytes → Prompt → Prompt
resend env w payload s =
    if not env.reconnect
    then record s { mode = fatal }
    else with_session (reconnect_session env w.attempts)
        (λ s'. sent_again w.unsent_again (build_data_frame s'.session_id 0 payload) s')
        (show lost s)

abbrev pub send_frame : CliEnv → Sending → Bytes → Result FrameError Bytes → Prompt → Prompt
send_frame env w payload (err e) s = show frame_failed s
send_frame env w payload (ok frame) s =
    if w.unsent then resend env w payload s else sent false frame s

abbrev pub send_payload : CliEnv → Sending → Result EventError Bytes → Prompt → Prompt
send_payload env w (err e) s = show encode_failed s
send_payload env w (ok payload) s =
    send_frame env w payload (build_data_frame s.session_id 0 payload) s

abbrev pub send_outbound : CliEnv → Sending → Outbound → Prompt → Prompt
send_outbound env w blank s = s
send_outbound env w (rejected o) s = show o s
send_outbound env w (outbound e) s = send_payload env w (encode_event env.codec e) s

-- The switch on the type of an event: whether it ends the wait.
unfoldable pub on_event : Event → Prompt → Prompt
on_event e s =
    if text_eq e.type event_token
    then show (piece e.content) s
    else if text_eq e.type event_end
    then show answer_end (record s { mode = prompting })
    else if text_eq e.type event_error
    then show (failure e.code e.message) (record s { mode = prompting })
    else s

abbrev pub on_taken : Option Event × Reader → Prompt → Prompt
on_taken (none, q) s = s
on_taken (some e, q) s = on_event e (record s { reader = q })

abbrev pub on_error : CliEnv → List Attempt → Option ReaderError → Prompt → Prompt
on_error env attempts none s = s
on_error env attempts (some e) s =
    if not env.reconnect
    then record s { mode = fatal }
    else with_session (reconnect_session env attempts)
        (λ s'. show interrupted (record s' { mode = prompting })) (show lost s)

-- bufio.Scanner ends, at the end of the input or on an error, and CLOSE_SESSION is written, or not.
abbrev pub close_input : CliEnv → Bool → Prompt → Prompt
close_input env true s = record s { mode = finished }
close_input env false s = record s {
  mode = finished;
  written =
      s.written
      ++ text (
          encode_control env.codec
            (record no_message { type = type_close_session; session_id = s.session_id }))
        ∷ [];
}

pub data PromptInput : Type 0 where
  line_typed : Bytes → Sending → PromptInput
  input_over : Bool → PromptInput
  frame_read : Read → PromptInput
  event_ready response_timeout : PromptInput
  error_ready : List Attempt → PromptInput

abbrev pub on_typed : CliEnv → PromptInput → Prompt → Prompt
on_typed env (line_typed line w) s = send_outbound env w (outbound_event env.codec line) s
on_typed env (input_over unsent) s = close_input env unsent s
on_typed env _ s = s

-- The cases of the select.
abbrev pub on_awaited : CliEnv → PromptInput → Prompt → Prompt
on_awaited env event_ready s = on_taken (take_event s.reader) s
on_awaited env (error_ready attempts) s = on_error env attempts s.reader.errs s
on_awaited env response_timeout s = show timed_out (record s { mode = prompting })
on_awaited env _ s = s

abbrev pub on_mode : CliEnv → PromptInput → Mode → Prompt → Prompt
on_mode env i prompting s = on_typed env i s
on_mode env i awaiting s = on_awaited env i s
on_mode env i _ s = s

unfoldable pub prompt_step : CliEnv → PromptInput → Prompt → Prompt
prompt_step env (frame_read r) s = record s { reader = read_step env.codec s.session_id r s.reader }
prompt_step env i s = on_mode env i s.mode s

unfoldable pub prompt_run : CliEnv → List PromptInput → Prompt → Prompt
prompt_run env [] s = s
prompt_run env (i ∷ is) s = prompt_run env is (prompt_step env i s)

abbrev pub new_prompt : Prompt
new_prompt = record { session_id = []; reader = new_reader; mode = fatal; shown = []; written = [] }

abbrev pub started : List Message × Opening → Prompt
started (ms, opened session_id reads) = record new_prompt {
  session_id = session_id;
  mode = prompting;
  written = ms;
}
started (ms, waiting) = record new_prompt { mode = reconnecting; written = ms }
started (ms, failed e) = record new_prompt { written = ms }

-- Up to the prompt: without an access code, or when the first attempt fails, the client exits.
unfoldable pub start : CliEnv → Attempt → Prompt
start env a =
    if text_eq (trim_space env.access_code) []
    then new_prompt
    else started (connect_session env.codec env.access_code a)
