-- ===== src/Cli/Reader/Order.antt =====
-- readLoop of cli/main.go: what passes through its channel, and in which order.
use open_claw_bridge.Common.{
  true, false, List, [], ◌∷◌, ◌++◌, ltb, length, Result, ok, err, ◌≡◌, refl, sym, subst, ap, ◌⊎◌,
  inl, inr, Bool-cases, append_assoc, append-nil,
}
use open_claw_bridge.Text.{Bytes, text_eq}
use open_claw_bridge.Json.{Codec}
use open_claw_bridge.Protocol.Frame.{FrameError, DataFrame, parse_data_frame}
use open_claw_bridge.Protocol.Event.{Event, EventError, decode_event}
use open_claw_bridge.Relay.Network.{Read, text, binary, received, read_error}
use open_claw_bridge.Cli.Reader.{
  Reader, read_step, on_read, on_frame, push_decoded, push, stop, queue_size,
}
use open_claw_bridge.Cli.Reader.Turns.{
  Turn, reads, takes, arriving, run_turns, read_events, frame_events, decoded_events, after_take,
  run_takes_none, run_takes_some,
}

-- What a step did with the events `es` that it read.
abbrev Pushed : List Event → Reader → Reader → Type 0
Pushed es q q' =
    ((q'.events ≡ q.events ++ es) × (q'.reading ≡ true))
    ⊎ ((q'.events ≡ q.events) × (q'.reading ≡ false))

push-Pushed : (e : Event) (q : Reader) → q.reading ≡ true → Pushed (e ∷ []) q (push e q)
unfolding push stop
push-Pushed e q h = elim (Bool-cases (ltb (length q.events) queue_size)) [
  | inl b ↦ rw b (inl (refl, h))
  | inr b ↦ rw b (inr (refl, refl))
]

same-Pushed : (q : Reader) → q.reading ≡ true → Pushed [] q q
same-Pushed q h = inl (sym (append-nil q.events), h)

push_decoded-Pushed :
    (r : Result EventError Event) (q : Reader)
    → q.reading ≡ true
    → Pushed (decoded_events r) q (push_decoded r q)
push_decoded-Pushed (err e) q h = same-Pushed q h
push_decoded-Pushed (ok e) q h = push-Pushed e q h

on_frame-Pushed :
    (c : Codec) (sid : Bytes) (r : Result FrameError DataFrame) (q : Reader)
    → q.reading ≡ true
    → Pushed (frame_events c sid r) q (on_frame c sid r q)
on_frame-Pushed c sid (err e) q h = same-Pushed q h
on_frame-Pushed c sid (ok d) q h = elim (Bool-cases (text_eq d.session_id sid)) [
  | inl b ↦ rw b (push_decoded-Pushed (decode_event c d.payload) q h)
  | inr b ↦ rw b (same-Pushed q h)
]

on_read-Pushed :
    (c : Codec) (sid : Bytes) (r : Read) (q : Reader)
    → q.reading ≡ true
    → Pushed (read_events c sid r) q (on_read c sid r q)
unfolding stop
on_read-Pushed c sid read_error q h = inr (refl, refl)
on_read-Pushed c sid (received (text b)) q h = same-Pushed q h
on_read-Pushed c sid (received (binary f)) q h = on_frame-Pushed c sid (parse_data_frame f) q h

read_step-Pushed :
    (c : Codec) (sid : Bytes) (r : Read) (q : Reader)
    → q.reading ≡ true
    → Pushed (read_events c sid r) q (read_step c sid r q)
unfolding read_step
read_step-Pushed c sid r q h = simp h (on_read-Pushed c sid r q h)

read_step_stopped :
    (c : Codec) (sid : Bytes) (r : Read) (q : Reader) → q.reading ≡ false → read_step c sid r q ≡ q
unfolding read_step
read_step_stopped c sid r q h = simp h

-- A loop that has stopped adds nothing: what is taken and what is left were there.
abbrev Emptied : List Event → List Event × Reader → Type 0
Emptied all (es, q) = (es ++ q.events ≡ all) × (q.reading ≡ false)

Emptied-after_take :
    (e : Event) (all : List Event) (r : List Event × Reader)
    → Emptied all r
    → Emptied (e ∷ all) (after_take e r)
Emptied-after_take e all r (p, s) = (ap (◌∷◌ e) p, s)

run_turns_stopped :
    (c : Codec) (sid : Bytes) (ts : List Turn) (q : Reader) (old : List Event)
    → q.events ≡ old
    → q.reading ≡ false
    → Emptied old (run_turns c sid ts q)
run_turns_stopped c sid [] q old e h = (e, h)
run_turns_stopped c sid (reads r ∷ ts) q old e h =
    subst (λ q'. Emptied old (run_turns c sid ts q')) (sym (read_step_stopped c sid r q h))
      (run_turns_stopped c sid ts q old e h)
run_turns_stopped c sid (takes ∷ ts) q [] e h =
    subst (Emptied []) (sym (run_takes_none c sid ts q e)) (run_turns_stopped c sid ts q [] e h)
run_turns_stopped c sid (takes ∷ ts) q (x ∷ old) e h =
    subst (Emptied (x ∷ old)) (sym (run_takes_some c sid ts q x old e)) (
      Emptied-after_take x old (run_turns c sid ts (record q { events = old }))
        (run_turns_stopped c sid ts (record q { events = old }) old refl h))

-- Everything that came is, in order, taken, in the channel, or lost after the loop stopped.
abbrev pub Delivered : List Event → List Event × Reader → Type 0
Delivered all (es, q) =
    (lost : List Event) × ((es ++ q.events) ++ lost ≡ all) × (q.reading ≡ true → lost ≡ [])

Delivered-after_take :
    (e : Event) (all : List Event) (r : List Event × Reader)
    → Delivered all r
    → Delivered (e ∷ all) (after_take e r)
Delivered-after_take e all r (lost, p, k) = (lost, ap (◌∷◌ e) p, k)

Delivered-stopped :
    (c : Codec) (sid : Bytes) (ts : List Turn) (q : Reader) (more : List Event)
    → q.reading ≡ false
    → Delivered (q.events ++ more) (run_turns c sid ts q)
Delivered-stopped c sid ts q more h =
    let (p, s) = run_turns_stopped c sid ts q q.events refl h in
    (more, ap (λ es. es ++ more) p, λ t. cc)

-- The rest of a run, after a step that pushed `es`.
Delivered-Pushed :
    (c : Codec) (sid : Bytes) (ts : List Turn) (es more : List Event) (q q' : Reader)
    → Pushed es q q'
    → ((old : List Event)
        → q'.events ≡ old
        → q'.reading ≡ true
        → Delivered (old ++ more) (run_turns c sid ts q'))
    → Delivered (q.events ++ (es ++ more)) (run_turns c sid ts q')
Delivered-Pushed c sid ts es more q q' (inl (p, h)) ih =
    subst (λ all. Delivered all (run_turns c sid ts q')) (append_assoc q.events es more)
      (ih (q.events ++ es) p h)
Delivered-Pushed c sid ts es more q q' (inr (p, h)) ih =
    subst (λ old. Delivered (old ++ (es ++ more)) (run_turns c sid ts q')) p
      (Delivered-stopped c sid ts q' (es ++ more) h)

Delivered-reading :
    (c : Codec) (sid : Bytes) (ts : List Turn) (q : Reader) (old : List Event)
    → q.events ≡ old
    → q.reading ≡ true
    → Delivered (old ++ arriving c sid ts) (run_turns c sid ts q)
Delivered-reading c sid [] q old e h = ([], ap (λ es. es ++ []) e, λ t. refl)
Delivered-reading c sid (reads r ∷ ts) q old e h =
    subst (λ es. Delivered (es ++ arriving c sid (reads r ∷ ts)) (run_turns c sid (reads r ∷ ts) q))
      e
      (Delivered-Pushed c sid ts (read_events c sid r) (arriving c sid ts) q (read_step c sid r q)
        (read_step-Pushed c sid r q h) (Delivered-reading c sid ts (read_step c sid r q)))
Delivered-reading c sid (takes ∷ ts) q [] e h =
    subst (Delivered (arriving c sid ts)) (sym (run_takes_none c sid ts q e))
      (Delivered-reading c sid ts q [] e h)
Delivered-reading c sid (takes ∷ ts) q (x ∷ old) e h =
    subst (Delivered (x ∷ old ++ arriving c sid ts)) (sym (run_takes_some c sid ts q x old e)) (
      Delivered-after_take x (old ++ arriving c sid ts)
        (run_turns c sid ts (record q { events = old }))
        (Delivered-reading c sid ts (record q { events = old }) old refl h))

-- However the two goroutines alternate, the events taken, then those in the channel, then those
-- lost, are the events there were and those that came for the session, in order. Nothing is lost
-- while the loop reads on.
pub run_turns-Delivered :
    (c : Codec) (sid : Bytes) (ts : List Turn) (q : Reader)
    → Delivered (q.events ++ arriving c sid ts) (run_turns c sid ts q)
run_turns-Delivered c sid ts q = elim (Bool-cases q.reading) [
  | inl h ↦ Delivered-reading c sid ts q q.events refl h
  | inr h ↦ Delivered-stopped c sid ts q (arriving c sid ts) h
]
