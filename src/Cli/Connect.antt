-- ===== src/Cli/Connect.antt =====
-- connectSession and waitConnectOK of cli/main.go.
pub mod Laws
use open_claw_bridge.Common.{Bool, List, [], ◌∷◌, if◌then◌else◌, Result, ok, err}
use open_claw_bridge.Text.{Bytes, text_eq}
use open_claw_bridge.Json.{Codec}
use open_claw_bridge.Protocol.Control.{
  ControlMessage, ControlError, no_message, decode_control, encode_control, type_connect,
  type_connect_ok, type_error,
}
use open_claw_bridge.Relay.Network.{Message, Read, text, binary, received, read_error}

pub data ConnectError : Type 0 where
  dial_failed connect_unsent connect_unread missing_session_id : ConnectError
  connect_refused : Bytes → Bytes → ConnectError

-- Where the wait stands: it goes on, or it ended, with the reads that are left.
pub data Opening : Type 0 where
  waiting : Opening
  opened : Bytes → List Read → Opening
  failed : ConnectError → Opening

-- The switch on the type of a control message; `rest` is the wait that goes on.
unfoldable pub connect_reply : ControlMessage → List Read → Opening → Opening
connect_reply m reads rest =
    if text_eq m.type type_connect_ok
    then if text_eq m.session_id [] then failed missing_session_id else opened m.session_id reads
    else if text_eq m.type type_error
    then failed (connect_refused m.code m.message)
    else rest

abbrev pub connect_message : Result ControlError ControlMessage → List Read → Opening → Opening
connect_message (err e) reads rest = rest
connect_message (ok m) reads rest = connect_reply m reads rest

unfoldable pub wait_connect_ok : Codec → List Read → Opening
wait_connect_ok c [] = waiting
wait_connect_ok c (read_error ∷ reads) = failed connect_unread
wait_connect_ok c (received (binary b) ∷ reads) = wait_connect_ok c reads
wait_connect_ok c (received (text b) ∷ reads) =
    connect_message (decode_control c b) reads (wait_connect_ok c reads)

-- What one attempt to connect meets.
pub record Attempt : Type 0 where
  pub dialed : Bool
  pub unsent : Bool
  pub reads : List Read

abbrev pub connect_request : Bytes → ControlMessage
connect_request access_code = record no_message { type = type_connect; access_code = access_code }

-- A connection that did not open is closed; what was written to it is in front.
unfoldable pub connect_session : Codec → Bytes → Attempt → List Message × Opening
connect_session c access_code a =
    if a.dialed
    then (if a.unsent then ([], failed connect_unsent) else (
      text (encode_control c (connect_request access_code)) ∷ [],
      wait_connect_ok c a.reads,
    ))
    else ([], failed dial_failed)
