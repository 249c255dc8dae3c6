-- ===== src/Cli/Connect/Laws.antt =====
-- connectSession of cli/main.go: the session id that it gives.
use open_claw_bridge.Common.{List, [], ◌∷◌, Result, ok, err, ◌≢◌, arith, Bool-cases, inl, inr}
use open_claw_bridge.Text.{Bytes, text_eq}
use open_claw_bridge.Text.Laws.{text_eq_iff}
use open_claw_bridge.Json.{Codec}
use open_claw_bridge.Protocol.Control.{
  ControlMessage, ControlError, decode_control, type_connect_ok, type_error,
}
use open_claw_bridge.Relay.Network.{Read, text, binary, received, read_error}
use open_claw_bridge.Cli.Connect.{
  Attempt, Opening, opened, connect_session, wait_connect_ok, connect_reply, connect_message,
}

-- What an opening gives is a session id that is not empty.
abbrev pub IsNamed : Opening → Type 0
IsNamed (opened sid reads) = sid ≢ []
IsNamed _ = Unit

connect_reply-IsNamed :
    (m : ControlMessage) (reads : List Read) (rest : Opening)
    → IsNamed rest
    → IsNamed (connect_reply m reads rest)
unfolding connect_reply
connect_reply-IsNamed m reads rest h = elim (Bool-cases (text_eq m.type type_connect_ok)) [
  | inl p ↦ rw p (elim (Bool-cases (text_eq m.session_id [])) [
    | inl q ↦ rw q tt
    | inr q ↦ rw q (ground (arith, text_eq_iff m.session_id []))
  ])
  | inr p ↦
      rw p (elim (Bool-cases (text_eq m.type type_error)) [ inl q ↦ rw q tt | inr q ↦ rw q h ])
]

connect_message-IsNamed :
    (r : Result ControlError ControlMessage) (reads : List Read) (rest : Opening)
    → IsNamed rest
    → IsNamed (connect_message r reads rest)
connect_message-IsNamed (err e) reads rest h = h
connect_message-IsNamed (ok m) reads rest h = connect_reply-IsNamed m reads rest h

wait_connect_ok-IsNamed : (c : Codec) (reads : List Read) → IsNamed (wait_connect_ok c reads)
unfolding wait_connect_ok
wait_connect_ok-IsNamed c [] = tt
wait_connect_ok-IsNamed c (read_error ∷ reads) = tt
wait_connect_ok-IsNamed c (received (binary b) ∷ reads) = wait_connect_ok-IsNamed c reads
wait_connect_ok-IsNamed c (received (text b) ∷ reads) =
    connect_message-IsNamed (decode_control c b) reads (wait_connect_ok c reads)
      (wait_connect_ok-IsNamed c reads)

pub connect_session-IsNamed :
    (c : Codec) (code : Bytes) (a : Attempt) → IsNamed (connect_session c code a).1
unfolding connect_session
connect_session-IsNamed c code a = elim (Bool-cases a.dialed) [
  | inl d ↦ elim (Bool-cases a.unsent) [
    | inl u ↦ simp (d, u) tt
    | inr u ↦ simp (d, u) (wait_connect_ok-IsNamed c a.reads)
  ]
  | inr d ↦ simp d tt
]
