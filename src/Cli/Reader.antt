-- ===== src/Cli/Reader.antt =====
-- readLoop of cli/main.go: the goroutine that reads the connection, and its two channels.
pub mod Turns
pub mod Order
pub mod Bounds
use open_claw_bridge.Common.{
  ℕ, Bool, true, false, not, Option, none, some, List, [], ◌∷◌, ◌++◌, if◌then◌else◌, ltb, length,
  Result, ok, err,
}
use open_claw_bridge.Text.{Bytes, text_eq}
use open_claw_bridge.Json.{Codec}
use open_claw_bridge.Protocol.Frame.{FrameError, DataFrame, parse_data_frame}
use open_claw_bridge.Protocol.Event.{Event, EventError, decode_event}
use open_claw_bridge.Relay.Network.{Message, Read, text, binary, received, read_error}

pub data ReaderError : Type 0 where
  connection_lost queue_overflow : ReaderError

-- make(chan protocol.Event, 16)
abbrev pub queue_size : ℕ
queue_size = 16

-- The channels `events` and `errs`, which holds one error, and whether the loop still runs.
pub record Reader : Type 0 where
  pub events : List Event
  pub errs : Option ReaderError
  pub reading : Bool

abbrev pub new_reader : Reader
new_reader = record { events = []; errs = none; reading = true }

-- select { case errs <- err: default: }; return
abbrev pub or_error : Option ReaderError → ReaderError → Option ReaderError
or_error none e = some e
or_error (some e') e = some e'

unfoldable pub stop : ReaderError → Reader → Reader
stop e q = record q { errs = or_error q.errs e; reading = false }

-- select { case out <- event: default: ... }
unfoldable pub push : Event → Reader → Reader
push e q =
    if ltb (length q.events) queue_size
    then record q { events = q.events ++ e ∷ [] }
    else stop queue_overflow q

abbrev pub push_decoded : Result EventError Event → Reader → Reader
push_decoded (err e) q = q
push_decoded (ok event) q = push event q

abbrev pub on_frame : Codec → Bytes → Result FrameError DataFrame → Reader → Reader
on_frame c session_id (err e) q = q
on_frame c session_id (ok d) q =
    if not (text_eq d.session_id session_id) then q else push_decoded (decode_event c d.payload) q

abbrev pub on_read : Codec → Bytes → Read → Reader → Reader
on_read c session_id read_error q = stop connection_lost q
on_read c session_id (received (text b)) q = q
on_read c session_id (received (binary f)) q = on_frame c session_id (parse_data_frame f) q

-- One round of readLoop, while it runs.
unfoldable pub read_step : Codec → Bytes → Read → Reader → Reader
read_step c session_id r q = if q.reading then on_read c session_id r q else q

-- ev := <-events, where there is one.
abbrev pub take_first : List Event → Reader → Option Event × Reader
take_first [] q = (none, q)
take_first (e ∷ es) q = (some e, record q { events = es })

unfoldable pub take_event : Reader → Option Event × Reader
take_event q = take_first q.events q
