-- ===== src/Cli/Reader/Bounds.antt =====
-- readLoop of cli/main.go: its channels stay within their sizes.
use open_claw_bridge.Common.{
  ◌≤◌, Bool, true, false, Option, none, some, List, [], ◌∷◌, if◌then◌else◌, ltb, length,
  length-append, Result, ok, err, ◌≡◌, refl, sym, subst, ap, inl, inr, arith, Bool-cases,
}
use open_claw_bridge.Text.{Bytes, text_eq}
use open_claw_bridge.Json.{Codec}
use open_claw_bridge.Protocol.Frame.{FrameError, DataFrame, parse_data_frame}
use open_claw_bridge.Protocol.Event.{Event, EventError, decode_event}
use open_claw_bridge.Relay.Network.{Read, text, binary, received, read_error}
use open_claw_bridge.Cli.Reader.{
  ReaderError, Reader, read_step, on_read, on_frame, push_decoded, push, stop, take_event, or_error,
  queue_size, queue_overflow,
}
use open_claw_bridge.Cli.Reader.Turns.{
  Turn, reads, takes, run_turns, take_event-none, take_event-some,
}

-- The channel is within its size, and the loop has stopped exactly when it left an error.
abbrev is_none : Option ReaderError → Bool
is_none none = true
is_none (some e) = false

abbrev pub IsSound : Reader → Type 0
IsSound q = (length q.events ≤ queue_size) × (q.reading ≡ is_none q.errs)

is_none-or_error : (o : Option ReaderError) (e : ReaderError) → is_none (or_error o e) ≡ false
is_none-or_error none e = refl
is_none-or_error (some e') e = refl

stop-IsSound : (e : ReaderError) (q : Reader) → IsSound q → IsSound (stop e q)
unfolding stop
stop-IsSound e q (b, h) = (b, sym (is_none-or_error q.errs e))

push-IsSound : (e : Event) (q : Reader) → IsSound q → IsSound (push e q)
unfolding push
push-IsSound e q (b, h) = elim (Bool-cases (ltb (length q.events) queue_size)) [
  | inl t ↦ rw t (ground (arith, length-append q.events (e ∷ [])), h)
  | inr t ↦ rw t (stop-IsSound queue_overflow q (b, h))
]

push_decoded-IsSound :
    (r : Result EventError Event) (q : Reader) → IsSound q → IsSound (push_decoded r q)
push_decoded-IsSound (err e) q s = s
push_decoded-IsSound (ok e) q s = push-IsSound e q s

on_frame-IsSound :
    (c : Codec) (sid : Bytes) (r : Result FrameError DataFrame) (q : Reader)
    → IsSound q
    → IsSound (on_frame c sid r q)
on_frame-IsSound c sid (err e) q s = s
on_frame-IsSound c sid (ok d) q s = elim (Bool-cases (text_eq d.session_id sid)) [
  | inl b ↦ rw b (push_decoded-IsSound (decode_event c d.payload) q s)
  | inr b ↦ rw b s
]

on_read-IsSound :
    (c : Codec) (sid : Bytes) (r : Read) (q : Reader) → IsSound q → IsSound (on_read c sid r q)
on_read-IsSound c sid read_error q s = stop-IsSound _ q s
on_read-IsSound c sid (received (text b)) q s = s
on_read-IsSound c sid (received (binary f)) q s = on_frame-IsSound c sid (parse_data_frame f) q s

read_step-IsSound :
    (c : Codec) (sid : Bytes) (r : Read) (q : Reader) → IsSound q → IsSound (read_step c sid r q)
unfolding read_step
read_step-IsSound c sid r q s = elim (Bool-cases q.reading) [
  | inl h ↦
      subst (λ b. IsSound (if b then on_read c sid r q else q)) (sym h)
        (on_read-IsSound c sid r q s)
  | inr h ↦ subst (λ b. IsSound (if b then on_read c sid r q else q)) (sym h) s
]

take_event-IsSound :
    (q : Reader) (es : List Event) → q.events ≡ es → IsSound q → IsSound (take_event q).1
take_event-IsSound q [] e s = rw (take_event-none q e) s
take_event-IsSound q (x ∷ es) e (b, h) =
    rw (take_event-some q x es e) (ground (arith, ap length e), h)

-- If the channel is within its size, and the loop has stopped exactly if it left an error, this stays
-- so however the two goroutines alternate.
pub run_turns-IsSound :
    (c : Codec) (sid : Bytes) (ts : List Turn) (q : Reader)
    → IsSound q
    → IsSound (run_turns c sid ts q).1
run_turns-IsSound c sid [] q s = s
run_turns-IsSound c sid (reads r ∷ ts) q s =
    run_turns-IsSound c sid ts (read_step c sid r q) (read_step-IsSound c sid r q s)
run_turns-IsSound c sid (takes ∷ ts) q s =
    run_turns-IsSound c sid ts (take_event q).1 (take_event-IsSound q q.events refl s)
