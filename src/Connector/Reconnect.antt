-- ===== src/Connector/Reconnect.antt =====
-- connector/pkg/gatewayclient/client.go: performConnect's request, connectAndServe and Run. What one
-- attempt meets is a `Round`: whether Dial succeeds, the clock, the outcome of the write of the connect
-- request, and the reads of the connection so far. The context is not done in any of them.
pub mod Backoff
pub mod Ready
pub mod Running
use open_claw_bridge.Common.{
  ℕ, ◌+◌, ◌-◌, ◌*◌, ◌%◌, ◌^◌, Bool, true, false, Option, none, some, List, [], ◌∷◌, ◌++◌,
  if◌then◌else◌, ltb, ℤ, pos, negsuc,
}
use open_claw_bridge.Text.{Bytes, codes, text_eq}
use open_claw_bridge.Json.{
  Value, Items, Fields, Codec, number, text, array, object, nil, cons, end, field,
}
use open_claw_bridge.Relay.Network
use open_claw_bridge.Relay.Network.{Message, Read, binary, received, read_error}
use open_claw_bridge.Connector.Payload.{Envelope}
use open_claw_bridge.Connector.Settings.{GatewayConfig}
use open_claw_bridge.Connector.Scopes.{normalize_scopes}
use open_claw_bridge.Connector.Gateway.{World, Client, new_id, dispatch}
use open_claw_bridge.Connector.Handshake.{
  HandshakeError, gateway_auth_failed, Wait, waiting, passed, refused, decode_envelope,
  wait_for_challenge, perform_connect,
}

unfoldable pub set_conn : Client → Client
set_conn s = record s { connected = true }

unfoldable pub close_conn : Client → Client
close_conn s = record s { connected = false }

unfoldable pub set_ready : Bool → Client → Client
set_ready b s = record s { ready = b }

abbrev pub gateway_client_id : Bytes
gateway_client_id = codes "clawbridge-connector"

abbrev pub gateway_client_display_name : Bytes
gateway_client_display_name = codes "ClawBridge Connector"

abbrev pub gateway_client_version : Bytes
gateway_client_version = codes "2.0.0"

abbrev pub gateway_client_platform : Bytes
gateway_client_platform = codes "linux"

abbrev pub gateway_client_mode : Bytes
gateway_client_mode = codes "operator"

unfoldable pub text_items : List Bytes → Items
text_items [] = nil
text_items (s ∷ ss) = cons (text s) (text_items ss)

abbrev pub client_fields : Fields
client_fields = field (codes "displayName") (text gateway_client_display_name) (
    field (codes "id") (text gateway_client_id) (
      field (codes "mode") (text gateway_client_mode) (
        field (codes "platform") (text gateway_client_platform)
          (field (codes "version") (text gateway_client_version) end))))

-- The maps of the request, whose fields json.Marshal sorts.
unfoldable pub connect_request : Codec → GatewayConfig → Bytes → Value
connect_request c cfg req_id = object (
    field (codes "id") (text req_id) (
      field (codes "method") (text (codes "connect")) (
        field (codes "params")
          (object (
            field (codes "auth") (object (field (codes "token") (text cfg.auth_token) end)) (
              field (codes "caps") (array nil) (
                field (codes "client") (object client_fields) (
                  field (codes "locale") (text cfg.locale) (
                    field (codes "maxProtocol") (number (c.int_text cfg.max_protocol)) (
                      field (codes "minProtocol") (number (c.int_text cfg.min_protocol)) (
                        field (codes "role") (text (codes "operator")) (
                          field (codes "scopes") (array (text_items (normalize_scopes cfg.scopes)))
                            (field (codes "userAgent") (text cfg.user_agent) end))))))))))
          (field (codes "type") (text (codes "req")) end))))

pub record Round : Type 0 where
  pub dialed : Bool
  pub unix_nano : ℕ
  pub write_error : Option Bytes
  pub reads : List Read

pub data GatewayError : Type 0 where
  dial_failed connection_lost : GatewayError
  handshake : HandshakeError → GatewayError
  connect_unsent : Bytes → GatewayError

-- Where an attempt stands after its reads: it goes on, in the handshake or in the serve loop, or it
-- ended with an error.
pub data Standing : Type 0 where
  connecting serving : Standing
  ended : GatewayError → Standing

-- The deferred calls of connectAndServe.
abbrev pub give_back : GatewayError → Client → Client × Standing
give_back e s = (close_conn (set_ready false s), ended e)

abbrev pub dispatch_text : Codec → Option Envelope → Client → Client
dispatch_text c none s = s
dispatch_text c (some env) s = dispatch c env s

abbrev pub serve_message : Codec → Message → Client → Client
serve_message c (Network.text b) s = dispatch_text c (decode_envelope c b) s
serve_message c (binary b) s = s

-- The loop of connectAndServe.
unfoldable pub serve : Codec → List Read → Client → Client × Standing
serve c [] s = (s, serving)
serve c (read_error ∷ reads) s = give_back connection_lost s
serve c (received m ∷ reads) s = serve c reads (serve_message c m s)

abbrev pub after_connect : Codec → Wait → Client → Client × Standing
after_connect c waiting s = (s, connecting)
after_connect c (refused e) s = give_back (handshake e) s
after_connect c (passed reads) s = serve c reads (set_ready true s)

abbrev pub connect_id : Codec → Round → Bytes
connect_id c r =
    new_id (record { codec = c; unix_nano = r.unix_nano; write_error = none }) (codes "gw_connect_")

-- performConnect: the request is written, and its response awaited.
abbrev pub send_connect :
    Codec → GatewayConfig → Round → List Read → Option Bytes → Client → Client × Standing
send_connect c cfg r reads (some e) s = give_back (connect_unsent e) s
send_connect c cfg r reads none s =
    after_connect c (perform_connect c (connect_id c r) reads)
      (record s { written = s.written ++ c.print (connect_request c cfg (connect_id c r)) ∷ [] })

abbrev pub after_challenge : Codec → GatewayConfig → Round → Wait → Client → Client × Standing
after_challenge c cfg r waiting s = (s, connecting)
after_challenge c cfg r (refused e) s = give_back (handshake e) s
after_challenge c cfg r (passed reads) s = send_connect c cfg r reads r.write_error s

unfoldable pub connect_and_serve : Codec → GatewayConfig → Round → Client → Client × Standing
connect_and_serve c cfg r s =
    if r.dialed
    then after_challenge c cfg r (wait_for_challenge c r.reads) (set_ready false (set_conn s))
    else (s, ended dial_failed)

-- A time.Duration is its 64-bit pattern.
abbrev pub seconds : ℤ → ℕ
seconds (pos n) = n * 10 ^ 9 % 2 ^ 64
seconds (negsuc n) = (2 ^ 64 - (n + 1) * 10 ^ 9 % 2 ^ 64) % 2 ^ 64

-- a > b on signed patterns.
abbrev pub longer : ℕ → ℕ → Bool
longer a b = ltb ((b + 2 ^ 63) % 2 ^ 64) ((a + 2 ^ 63) % 2 ^ 64)

-- backoff *= 2; if backoff > maxBackoff { backoff = maxBackoff }
unfoldable pub next_backoff : ℕ → ℕ → ℕ
next_backoff longest b =
    let twice = b * 2 % 2 ^ 64 in if longer twice longest then longest else twice

-- errors.Is(err, ErrGatewayAuthFailed)
abbrev pub is_auth_failure : GatewayError → Bool
is_auth_failure (handshake (gateway_auth_failed msg)) = true
is_auth_failure _ = false

-- Where Run stands: in an attempt, between attempts, or returned after a failed authentication.
pub data RunState : Type 0 where
  in_attempt : Standing → RunState
  retrying auth_failed : RunState

-- `waits` holds the errors passed to OnDisconnected, each with the delay behind it.
pub record RunResult : Type 0 where
  pub client : Client
  pub state : RunState
  pub waits : List (GatewayError × ℕ)

abbrev pub add_wait : GatewayError → ℕ → RunResult → RunResult
add_wait e b r = record r { waits = (e, b) ∷ r.waits }

-- One attempt as Run goes on from it, where `rest` is the run with the next delay.
abbrev pub after_attempt : ℕ → Client × Standing → (Client → RunResult) → RunResult
after_attempt b (s, ended e) rest =
    if is_auth_failure e
    then record { client = s; state = auth_failed; waits = [] }
    else add_wait e b (rest s)
after_attempt b (s, connecting) rest = record {
  client = s;
  state = in_attempt connecting;
  waits = [];
}
after_attempt b (s, serving) rest = record { client = s; state = in_attempt serving; waits = [] }

-- The loop of Run, with its delay.
unfoldable pub run_from : Codec → GatewayConfig → ℕ → List Round → Client → RunResult
run_from c cfg b [] s = record { client = s; state = retrying; waits = [] }
run_from c cfg b (r ∷ rs) s =
    after_attempt b (connect_and_serve c cfg r s)
      (run_from c cfg (next_backoff (seconds cfg.reconnect_max_seconds) b) rs)

unfoldable pub run_gateway : Codec → GatewayConfig → List Round → Client → RunResult
run_gateway c cfg rounds s = run_from c cfg (seconds cfg.reconnect_initial_seconds) rounds s
