-- ===== src/Cli/Prompt/Session.antt =====
-- cli/main.go: the session that the client works in.
use open_claw_bridge.Common.{
  Bool, true, false, Option, none, some, List, [], ◌∷◌, ◌++◌, Result, ok, err, ◌≡◌, ◌≢◌, refl, sym,
  subst, arith, Bool-cases, ◌⊎◌, inl, inr,
}
use open_claw_bridge.Text.{Bytes, text_eq, trim_space}
use open_claw_bridge.Protocol.Frame.{FrameError, build_data_frame}
use open_claw_bridge.Protocol.Event.{Event, EventError, encode_event}
use open_claw_bridge.Relay.Network.{Message}
use open_claw_bridge.Cli.Connect.{Attempt, Opening, waiting, opened, failed, connect_session}
use open_claw_bridge.Cli.Connect.Laws.{IsNamed, connect_session-IsNamed}
use open_claw_bridge.Cli.Reader.{Reader, ReaderError, take_event}
use open_claw_bridge.Cli.Prompt.{
  Prompt, CliEnv, Mode, lost, show, prompting, awaiting, reconnecting, finished, fatal, PromptInput,
  event_ready, error_ready, line_typed, input_over, frame_read, prompt_step, prompt_run, on_mode,
  on_typed, on_awaited, on_event, on_taken, on_error, with_session, reconnect_session, reconnected,
  resend, sent, sent_again, send_frame, send_payload, send_outbound, outbound_event, Outbound,
  blank, rejected, outbound, Sending, start, started,
}

abbrev HasId : Prompt → Type 0
HasId s = s.session_id ≢ []

abbrev Renamed : Option Bytes → Type 0
Renamed none = Unit
Renamed (some sid) = sid ≢ []

reconnected-Renamed :
    (o : Opening) (ms : List Message) (rest : List Message × Option Bytes)
    → IsNamed o
    → Renamed rest.1
    → Renamed (reconnected o ms rest).1
reconnected-Renamed waiting ms rest n h = tt
reconnected-Renamed (opened sid reads) ms rest n h = n
reconnected-Renamed (failed e) ms rest n h = h

reconnect_session-Renamed :
    (env : CliEnv) (attempts : List Attempt) → Renamed (reconnect_session env attempts).1
unfolding reconnect_session
reconnect_session-Renamed env [] = tt
reconnect_session-Renamed env (a ∷ later) =
    reconnected-Renamed (connect_session env.codec env.access_code a).1
      (connect_session env.codec env.access_code a).0 (reconnect_session env later)
      (connect_session-IsNamed env.codec env.access_code a) (reconnect_session-Renamed env later)

with_session-HasId :
    (r : List Message × Option Bytes) (go : Prompt → Prompt) (s : Prompt)
    → Renamed r.1
    → ((s' : Prompt) → HasId s' → HasId (go s'))
    → HasId s
    → HasId (with_session r go s)
with_session-HasId (ms, none) go s n k h = h
with_session-HasId (ms, some sid) go s n k h =
    k (record s { session_id = sid; reader = _; written = s.written ++ ms }) n

module _ (env : CliEnv) where
  sent-HasId : (b : Bool) (frame : Bytes) (s : Prompt) → HasId s → HasId (sent b frame s)
  sent-HasId true frame s h = h
  sent-HasId false frame s h = h

  sent_again-HasId :
      (b : Bool) (r : Result FrameError Bytes) (s : Prompt) → HasId s → HasId (sent_again b r s)
  sent_again-HasId b (err e) s h = h
  sent_again-HasId b (ok f) s h = sent-HasId b f s h

  resend-HasId :
      (w : Sending) (payload : Bytes) (s : Prompt) → HasId s → HasId (resend env w payload s)
  unfolding resend
  resend-HasId w payload s h = elim (Bool-cases env.reconnect) [
    | inl b ↦ simp b (
        with_session-HasId (reconnect_session env w.attempts) _ (show lost s)
          (reconnect_session-Renamed env w.attempts)
          (λ s'. sent_again-HasId w.unsent_again (build_data_frame s'.session_id 0 payload) s') h)
    | inr b ↦ simp b h
  ]

  send_frame-HasId :
      (w : Sending) (payload : Bytes) (r : Result FrameError Bytes) (s : Prompt)
      → HasId s
      → HasId (send_frame env w payload r s)
  send_frame-HasId w payload (err e) s h = h
  send_frame-HasId w payload (ok f) s h = elim (Bool-cases w.unsent) [
    | inl b ↦ simp b (resend-HasId w payload s h)
    | inr b ↦ simp b h
  ]

  send_payload-HasId :
      (w : Sending) (r : Result EventError Bytes) (s : Prompt)
      → HasId s
      → HasId (send_payload env w r s)
  send_payload-HasId w (err e) s h = h
  send_payload-HasId w (ok p) s h = send_frame-HasId w p (build_data_frame s.session_id 0 p) s h

  send_outbound-HasId :
      (w : Sending) (o : Outbound) (s : Prompt) → HasId s → HasId (send_outbound env w o s)
  send_outbound-HasId w blank s h = h
  send_outbound-HasId w (rejected o) s h = h
  send_outbound-HasId w (outbound e) s h = send_payload-HasId w (encode_event env.codec e) s h

  on_event_id : (e : Event) (s : Prompt) → (on_event e s).session_id ≡ s.session_id
  unfolding on_event
  on_event_id e s = ground arith

  on_taken-HasId : (r : Option Event × Reader) (s : Prompt) → HasId s → HasId (on_taken r s)
  on_taken-HasId (none, q) s h = h
  on_taken-HasId (some e, q) s h =
      subst (λ sid. sid ≢ []) (sym (on_event_id e (record s { reader = q }))) h

  on_error-HasId :
      (attempts : List Attempt) (o : Option ReaderError) (s : Prompt)
      → HasId s
      → HasId (on_error env attempts o s)
  on_error-HasId attempts none s h = h
  on_error-HasId attempts (some e) s h = elim (Bool-cases env.reconnect) [
    | inl b ↦ simp b (
        with_session-HasId (reconnect_session env attempts) _ (show lost s)
          (reconnect_session-Renamed env attempts) (λ s' k. k) h)
    | inr b ↦ simp b h
  ]

  on_typed-HasId : (i : PromptInput) (s : Prompt) → HasId s → HasId (on_typed env i s)
  on_typed-HasId (line_typed line w) s h = send_outbound-HasId w (outbound_event env.codec line) s h
  on_typed-HasId (input_over false) s h = h
  on_typed-HasId (input_over true) s h = h
  on_typed-HasId _ s h = h

  on_awaited-HasId : (i : PromptInput) (s : Prompt) → HasId s → HasId (on_awaited env i s)
  on_awaited-HasId event_ready s h = on_taken-HasId (take_event s.reader) s h
  on_awaited-HasId (error_ready attempts) s h = on_error-HasId attempts s.reader.errs s h
  on_awaited-HasId _ s h = h

  on_mode-HasId : (i : PromptInput) (m : Mode) (s : Prompt) → HasId s → HasId (on_mode env i m s)
  on_mode-HasId i prompting s h = on_typed-HasId i s h
  on_mode-HasId i awaiting s h = on_awaited-HasId i s h
  on_mode-HasId i _ s h = h

  prompt_step-HasId : (i : PromptInput) (s : Prompt) → HasId s → HasId (prompt_step env i s)
  unfolding prompt_step
  prompt_step-HasId (frame_read r) s h = h
  prompt_step-HasId i s h = on_mode-HasId i s.mode s h

  -- The client is at no prompt and will not be.
  abbrev IsStuck : Mode → Type 0
  IsStuck fatal = Unit
  IsStuck reconnecting = Unit
  IsStuck _ = ⊥

  on_mode-IsStuck : (i : PromptInput) (m : Mode) (s : Prompt) → IsStuck m → on_mode env i m s ≡ s
  on_mode-IsStuck i fatal s h = refl
  on_mode-IsStuck i reconnecting s h = refl
  on_mode-IsStuck i prompting s h = elim h [ ]
  on_mode-IsStuck i awaiting s h = elim h [ ]
  on_mode-IsStuck i finished s h = elim h [ ]

  prompt_step-IsStuck :
      (i : PromptInput) (s : Prompt) → IsStuck s.mode → IsStuck (prompt_step env i s).mode
  unfolding prompt_step
  prompt_step-IsStuck (frame_read r) s h = h
  prompt_step-IsStuck i s h = subst (λ s. IsStuck s.mode) (sym (on_mode-IsStuck i s.mode s h)) h

  -- The client has a session, or it is past every prompt.
  abbrev pub HasSession : Prompt → Type 0
  HasSession s = HasId s ⊎ IsStuck s.mode

  prompt_run-HasSession :
      (is : List PromptInput) (s : Prompt) → HasSession s → HasSession (prompt_run env is s)
  unfolding prompt_run
  prompt_run-HasSession [] s h = h
  prompt_run-HasSession (i ∷ is) s (inl h) =
      prompt_run-HasSession is (prompt_step env i s) (inl (prompt_step-HasId i s h))
  prompt_run-HasSession (i ∷ is) s (inr h) =
      prompt_run-HasSession is (prompt_step env i s) (inr (prompt_step-IsStuck i s h))

  started-HasSession : (r : List Message × Opening) → IsNamed r.1 → HasSession (started r)
  started-HasSession (ms, opened sid reads) n = inl n
  started-HasSession (ms, waiting) n = inr tt
  started-HasSession (ms, failed e) n = inr tt

  start-HasSession : (a : Attempt) → HasSession (start env a)
  unfolding start
  start-HasSession a = elim (Bool-cases (text_eq (trim_space env.access_code) [])) [
    | inl b ↦ rw b (inr tt)
    | inr b ↦ rw b (
        started-HasSession (connect_session env.codec env.access_code a)
          (connect_session-IsNamed env.codec env.access_code a))
  ]

  -- Whatever the first attempt meets and whatever follows, reconnecting included: a client whose
  -- session id is empty has exited or waits for a connection for good.
  pub start_run-HasSession :
      (a : Attempt) (is : List PromptInput) → HasSession (prompt_run env is (start env a))
  start_run-HasSession a is = prompt_run-HasSession is (start env a) (start-HasSession a)
