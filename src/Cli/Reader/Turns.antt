-- ===== src/Cli/Reader/Turns.antt =====
-- readLoop of cli/main.go beside the loop that takes events from its channel, in turns.
use open_claw_bridge.Common.{
  not, Option, none, some, List, [], ◌∷◌, ◌++◌, if◌then◌else◌, Result, ok, err, ◌≡◌, refl, ap,
}
use open_claw_bridge.Text.{Bytes, text_eq}
use open_claw_bridge.Json.{Codec}
use open_claw_bridge.Protocol.Frame.{FrameError, DataFrame, parse_data_frame}
use open_claw_bridge.Protocol.Event.{Event, EventError, decode_event}
use open_claw_bridge.Relay.Network.{Read, binary, received}
use open_claw_bridge.Cli.Reader.{Reader, read_step, take_event, take_first}

-- What a read brings for the session.
abbrev pub decoded_events : Result EventError Event → List Event
decoded_events (err e) = []
decoded_events (ok event) = event ∷ []

abbrev pub frame_events : Codec → Bytes → Result FrameError DataFrame → List Event
frame_events c sid (err e) = []
frame_events c sid (ok d) =
    if not (text_eq d.session_id sid) then [] else decoded_events (decode_event c d.payload)

abbrev pub read_events : Codec → Bytes → Read → List Event
read_events c sid (received (binary f)) = frame_events c sid (parse_data_frame f)
read_events c sid _ = []

-- The reading goroutine has a turn, or the prompt takes an event.
pub data Turn : Type 0 where
  reads : Read → Turn
  takes : Turn

abbrev pub arriving : Codec → Bytes → List Turn → List Event
arriving c sid [] = []
arriving c sid (reads r ∷ ts) = read_events c sid r ++ arriving c sid ts
arriving c sid (takes ∷ ts) = arriving c sid ts

abbrev pub taken : Option Event → List Event → List Event
taken none es = es
taken (some e) es = e ∷ es

-- The events taken, in order, and the channels at the end.
abbrev pub run_turns : Codec → Bytes → List Turn → Reader → List Event × Reader
run_turns c sid [] q = ([], q)
run_turns c sid (reads r ∷ ts) q = run_turns c sid ts (read_step c sid r q)
run_turns c sid (takes ∷ ts) q =
    let (o, q') = take_event q in let (es, q'') = run_turns c sid ts q' in (taken o es, q'')

pub take_event-none : (q : Reader) → q.events ≡ [] → take_event q ≡ (none, q)
unfolding take_event
take_event-none q h = ap (λ es. take_first es q) h

pub take_event-some :
    (q : Reader) (e : Event) (es : List Event)
    → q.events ≡ e ∷ es
    → take_event q ≡ (some e, record q { events = es })
unfolding take_event
take_event-some q e es h = ap (λ es. take_first es q) h

-- What one event more in front of the channel does to a run.
abbrev pub after_take : Event → List Event × Reader → List Event × Reader
after_take e (es, q) = (e ∷ es, q)

module _ (c : Codec) (sid : Bytes) (ts : List Turn) (q : Reader) where
  pub run_takes_none : q.events ≡ [] → run_turns c sid (takes ∷ ts) q ≡ run_turns c sid ts q
  run_takes_none h = rw (take_event-none q h) refl

  pub run_takes_some :
      (e : Event) (es : List Event)
      → q.events ≡ e ∷ es
      → run_turns c sid (takes ∷ ts) q
        ≡ after_take e (run_turns c sid ts (record q { events = es }))
  run_takes_some e es h = rw (take_event-some q e es h) refl
