-- ===== src/Connector/Handshake.antt =====
-- connector/pkg/gatewayclient/client.go: waitForChallenge and performConnect, from the connect
-- request on, over the reads of the connection. A read that fails, by the deadline too, is a read
-- error.
pub mod Laws
use mathlib.Core.Option
use open_claw_bridge.Common.{
  Bool, true, false, ◌&&◌, ◌||◌, Option, none, some, List, [], ◌∷◌, ◌++◌, if◌then◌else◌,
}
use open_claw_bridge.Text.{Bytes, codes, text_eq, to_lower, contains}
use open_claw_bridge.Json.{Value, Fields, Codec, null, bool, object, end, field, names, read_text}
use open_claw_bridge.Relay.Network.{Message, Read, text, binary, received, read_error}
use open_claw_bridge.Connector.Payload.{Envelope, extract_error_message, normal}
use open_claw_bridge.Connector.Events.{is_error_event_name}
use open_claw_bridge.Connector.Gateway.{is_ok}

abbrev pub no_envelope : Envelope
no_envelope = record {
  type = [];
  event = [];
  id = [];
  ok_field = none;
  payload = none;
  error = none;
}

-- The pointer field `OK`.
abbrev pub read_ok : Value → Option (Option Bool)
read_ok null = some none
read_ok (bool b) = some (some b)
read_ok _ = none

unfoldable pub read_failure_fields : Bytes → Fields → Option Bytes
read_failure_fields old end = some old
read_failure_fields old (field key v rest) =
    elim (if names key (codes "message") then read_text old v else some old) [
      | none ↦ none
      | some s ↦ read_failure_fields s rest
    ]

abbrev pub text_or_empty : Option Bytes → Bytes
text_or_empty none = []
text_or_empty (some s) = s

-- The pointer field `Error`, by its message.
abbrev pub read_failure : Option Bytes → Value → Option (Option Bytes)
read_failure old null = some none
read_failure old (object fs) = Option.map some (read_failure_fields (text_or_empty old) fs)
read_failure old _ = none

-- The field `Method` is read, but nothing uses it.
unfoldable pub set_envelope : Envelope → Bytes → Value → Option Envelope
set_envelope m key v =
    if names key (codes "type")
    then Option.map (λ s. record m { type = s }) (read_text m.type v)
    else if names key (codes "event")
    then Option.map (λ s. record m { event = s }) (read_text m.event v)
    else if names key (codes "id")
    then Option.map (λ s. record m { id = s }) (read_text m.id v)
    else if names key (codes "method")
    then Option.map (λ s. m) (read_text [] v)
    else if names key (codes "ok")
    then Option.map (λ o. record m { ok_field = o }) (read_ok v)
    else if names key (codes "payload")
    then some (record m { payload = some v })
    else if names key (codes "error")
    then Option.map (λ o. record m { error = o }) (read_failure m.error v)
    else some m

unfoldable pub read_envelope_fields : Envelope → Fields → Option Envelope
read_envelope_fields m end = some m
read_envelope_fields m (field key v rest) = elim (set_envelope m key v) [
  | none ↦ none
  | some m' ↦ read_envelope_fields m' rest
]

unfoldable pub read_envelope : Value → Option Envelope
read_envelope null = some no_envelope
read_envelope (object fs) = read_envelope_fields no_envelope fs
read_envelope _ = none

unfoldable pub decode_envelope : Codec → Bytes → Option Envelope
decode_envelope c s = elim (c.parse s) [ none ↦ none | some v ↦ read_envelope v ]

pub data HandshakeError : Type 0 where
  gateway_read_failed : HandshakeError
  gateway_auth_failed gateway_failed : Bytes → HandshakeError

unfoldable pub is_unauthorized : Bytes → Bool
is_unauthorized msg =
    let lower = to_lower msg in
    contains lower (codes "unauthorized") || contains lower (codes "forbidden")

-- The error of a refusal with this text, which is the authentication's if it says so.
abbrev pub refusal : Bytes → Bytes → HandshakeError
refusal prefix msg =
    if is_unauthorized msg then gateway_auth_failed msg else gateway_failed (prefix ++ msg)

abbrev pub is_refused : Option Bool → Bool
is_refused (some false) = true
is_refused _ = false

-- What one message means to a wait.
pub data Verdict : Type 0 where
  go_on pass : Verdict
  refuse : HandshakeError → Verdict

unfoldable pub challenge_verdict : Codec → Envelope → Verdict
challenge_verdict c env =
    let event = text_eq env.type (codes "event") in
    if event && text_eq env.event (codes "connect.challenge")
    then pass
    else if event && is_error_event_name (normal env.event)
    then refuse (gateway_failed (codes "gateway challenge failed: " ++ extract_error_message c env))
    else if text_eq env.type (codes "res") && is_refused env.ok_field
    then refuse
        (refusal (codes "gateway pre-connect response failed: ") (extract_error_message c env))
    else go_on

unfoldable pub connect_verdict : Codec → Bytes → Envelope → Verdict
connect_verdict c req_id env =
    if text_eq env.type (codes "res") && text_eq env.id req_id
    then (if is_ok env.ok_field
        then pass
        else refuse (refusal (codes "gateway connect failed: ") (extract_error_message c env)))
    else if text_eq env.type (codes "event") && is_error_event_name (normal env.event)
    then refuse (refusal (codes "gateway connect event error: ") (extract_error_message c env))
    else go_on

abbrev pub decoded_verdict : (Envelope → Verdict) → Option Envelope → Verdict
decoded_verdict f none = go_on
decoded_verdict f (some env) = f env

abbrev pub verdict_of : Codec → (Envelope → Verdict) → Message → Verdict
verdict_of c f (binary b) = go_on
verdict_of c f (text b) = decoded_verdict f (decode_envelope c b)

-- Where a wait stands after some reads: still waiting, or ended with the reads that are left.
pub data Wait : Type 0 where
  waiting : Wait
  passed : List Read → Wait
  refused : HandshakeError → Wait

abbrev pub settle_wait : Verdict → List Read → Wait → Wait
settle_wait go_on reads rest = rest
settle_wait pass reads rest = passed reads
settle_wait (refuse e) reads rest = refused e

-- for { conn.ReadMessage() ... }
unfoldable pub wait_for : Codec → (Envelope → Verdict) → List Read → Wait
wait_for c f [] = waiting
wait_for c f (read_error ∷ reads) = refused gateway_read_failed
wait_for c f (received m ∷ reads) = settle_wait (verdict_of c f m) reads (wait_for c f reads)

unfoldable pub wait_for_challenge : Codec → List Read → Wait
wait_for_challenge c reads = wait_for c (challenge_verdict c) reads

unfoldable pub perform_connect : Codec → Bytes → List Read → Wait
perform_connect c req_id reads = wait_for c (connect_verdict c req_id) reads
