-- ===== src/Tests/Samples.antt =====
-- The parameters of the model as concrete functions, and sample values.
use open_claw_bridge.Common.{
  false, Option, none, some, List, [], ◌∷◌, ◌++◌, if◌then◌else◌, ℤ, pos, negsuc, ◌==◌,
}
use open_claw_bridge.Text.{Bytes, codes, text_eq}
use open_claw_bridge.Json.{Value, Codec, object, end, field}
use open_claw_bridge.Json
use open_claw_bridge.Relay.Network.{text, received}
use open_claw_bridge.Relay.Stores.{Peer, Session, role_connector, role_client}
use open_claw_bridge.Relay.Server.{Env, Server}
use open_claw_bridge.Relay.Steps.{Input, tunnel, client}
use open_claw_bridge.Protocol.Event.{
  Event, no_event, event_user_message, event_token, event_end, write_event,
}
use open_claw_bridge.Protocol.Control.{type_register, type_connect, type_close_session}

-- The number 1, and 0 for any other.
abbrev pub small_int : Bytes → Option ℤ
small_int s = some (if text_eq s (codes "1") then pos 1 else pos 0)

abbrev pub small_int_text : ℤ → Bytes
small_int_text (pos n) = if n == 1 then codes "1" else codes "0"
small_int_text (negsuc n) = codes "0"

-- A codec that knows one value, and texts without it.
abbrev pub knows : Value → Codec
knows v = record {
  parse = λ s. if text_eq s (codes "{}") then some v else none;
  print = λ w. codes "{}";
  int_of = small_int;
  int_text = small_int_text;
  float_text = λ s. some s;
}

abbrev pub register_text : Bytes
register_text = codes "REGISTER A"

abbrev pub connect_text : Bytes
connect_text = codes "CONNECT A"

abbrev pub close_text : Bytes
close_text = codes "CLOSE s_03"

abbrev control_value : Bytes → Bytes → Bytes → Value
control_value type key s =
    object (field (codes "type") (Json.text type) (field key (Json.text s) end))

-- A codec for three control messages, each by a short text of its own.
abbrev pub three_messages : Codec
three_messages = record {
  parse = λ s.
      if text_eq s register_text
      then some (control_value type_register (codes "access_code_hash") (codes "sha256:41"))
      else if text_eq s connect_text
      then some (control_value type_connect (codes "access_code") (codes "A"))
      else if text_eq s close_text
      then some (control_value type_close_session (codes "session_id") (codes "s_03"))
      else none;
  print = λ v. codes "{}";
  int_of = small_int;
  int_text = small_int_text;
  float_text = λ s. some s;
}

-- No write fails, and a text is its own digest.
abbrev pub sample_env : Env
sample_env = record { codec = three_messages; sha256 = λ s. s; faults = λ conn n. false }

abbrev pub connector_peer : Peer
connector_peer = record { addr = 0; id = codes "c_01"; role = role_connector; conn = 10 }

abbrev pub client_peer : Peer
client_peer = record { addr = 1; id = codes "u_02"; role = role_client; conn = 20 }

abbrev pub sample_session : Session
sample_session = record {
  id = codes "s_03";
  client = client_peer;
  connector = connector_peer;
  e2ee = false;
}

-- A connector registers, and a client connects with its access code.
abbrev pub pairing_inputs : List Input
pairing_inputs =
    tunnel [] (some 10) (received (text register_text)) (some (1 ∷ []))
    ∷ client [] (some 20) (received (text connect_text)) (some (2 ∷ [])) (some (3 ∷ []))
    ∷ []

-- What they lead to.
abbrev pub paired : Server
paired = record {
  hub = (codes "u_02", client_peer) ∷ (codes "c_01", connector_peer) ∷ [];
  auth =
      (
        codes "sha256:41",
        record { peer = some connector_peer; generation = pos 0; caps = record { e2ee = false } },
      )
      ∷ [];
  sessions = (codes "s_03", sample_session) ∷ [];
  metrics = record { forwarded_bytes = 0; errors = 0 };
  network = record {
    closed = [];
    writes = 2;
    log =
        record { conn = 10; message = text (codes "{}") }
        ∷ record { conn = 20; message = text (codes "{}") }
        ∷ [];
  };
  next_addr = 2;
}

-- A frame of that session, with the payload "hi".
abbrev pub sample_frame : Bytes
sample_frame = 4 ∷ (codes "s_03" ++ (0 ∷ codes "hi"))

-- The type that stands first in an object.
abbrev pub type_of : Value → Bytes
type_of (object (field key (Json.text s) rest)) = s
type_of v = []

-- A codec for one event of each type, each by one letter.
abbrev pub sample_event : Bytes → Event
sample_event type = record no_event { type = type; content = codes "hi" }

abbrev pub sample_end : Event
sample_end = record no_event { type = event_end }

abbrev pub event_codec : Codec
event_codec = record {
  parse = λ s.
      if text_eq s (codes "M")
      then some (write_event (sample_event event_user_message))
      else if text_eq s (codes "T")
      then some (write_event (sample_event event_token))
      else if text_eq s (codes "E")
      then some (write_event sample_end)
      else none;
  print = λ v.
      if text_eq (type_of v) event_user_message
      then codes "M"
      else if text_eq (type_of v) event_token
      then codes "T"
      else if text_eq (type_of v) event_end
      then codes "E"
      else codes "{}";
  int_of = small_int;
  int_text = small_int_text;
  float_text = λ s. some s;
}
