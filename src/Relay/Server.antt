-- ===== src/Relay/Server.antt =====
-- relay/main.go. A handler takes the server's state and returns the new one. Each message, and each
-- new connection up to its read loop, is handled in one step.
use open_claw_bridge.Common.{
  ℕ, Bool, not, Option, none, some, List, [], ◌∷◌, ◌&&◌, if◌then◌else◌, Result, ok, err, length,
}
use open_claw_bridge.Text.{Bytes, codes, text_eq}
use open_claw_bridge.Json.{Codec}
use open_claw_bridge.Protocol.Frame.{DataFrame, FrameError, parse_data_frame}
use open_claw_bridge.Protocol.Control.{
  ControlMessage, ControlError, no_message, encode_control, decode_control, type_close_session,
  type_heartbeat, type_error,
}
use open_claw_bridge.GoMap.{Map}
use open_claw_bridge.Relay.Network
use open_claw_bridge.Relay.Network.{
  Message, Read, Network, Faults, text, binary, received, read_error,
}
use open_claw_bridge.Relay.Stores.{
  Peer, Entry, Session, Collector, same_peer, hub_remove, auth_delete_by_peer, sessions_get,
  sessions_delete, sessions_delete_by_peer, add_forwarded_bytes, inc_error,
}

-- What the relay uses and does not implement: JSON text, SHA-256 and the outcome of each write.
pub record Env : Type 0 where
  pub codec : Codec
  pub sha256 : Bytes → Bytes
  pub faults : Faults

-- `next_addr` is the address of the next Peer that is made.
pub record Server : Type 0 where
  pub hub : Map Peer
  pub auth : Map Entry
  pub sessions : Map Session
  pub metrics : Collector
  pub network : Network
  pub next_addr : ℕ

unfoldable pub new_relay_server : Server
new_relay_server = record {
  hub = [];
  auth = [];
  sessions = [];
  metrics = record { forwarded_bytes = 0; errors = 0 };
  network = record { closed = []; writes = 0; log = [] };
  next_addr = 0;
}

-- SendText and SendBinary of hub.Peer.
unfoldable pub send : Env → Peer → Message → Server → Server × Bool
send env peer m s =
    let (n, sent) = Network.write env.faults peer.conn m s.network in
    (record s { network = n }, sent)

-- EncodeControl cannot fail, so the result is that of the write.
unfoldable pub send_control : Env → Peer → ControlMessage → Server → Server × Bool
send_control env peer msg s = send env peer (text (encode_control env.codec msg)) s

abbrev pub count_error : Server → Server
count_error s = record s { metrics = inc_error s.metrics }

abbrev pub error_message : Bytes → Bytes → ControlMessage
error_message code message = record no_message { type = type_error; code = code; message = message }

unfoldable pub send_error : Env → Peer → Bytes → Bytes → Server → Server
send_error env peer code message s =
    let (s', sent) = send_control env peer (error_message code message) s in
    if sent then s' else count_error s'

abbrev pub close_message : Bytes → ControlMessage
close_message session_id = record no_message { type = type_close_session; session_id = session_id }

abbrev pub close_found : Env → Bytes → Map Session × Option Session → Server → Server
close_found env session_id (rest, none) s = s
close_found env session_id (rest, some x) s =
    let s₁ = record s { sessions = rest } in
    let (s₂, _) = send_control env x.client (close_message session_id) s₁ in
    let (s₃, _) = send_control env x.connector (close_message session_id) s₂ in s₃

unfoldable pub close_session : Env → Bytes → Server → Server
close_session env session_id s =
    close_found env session_id (sessions_delete s.sessions session_id) s

-- The endpoint opposite to the sender, if the sender is one of the two.
unfoldable pub opposite : Peer → Session → Option Peer
opposite sender x =
    if same_peer sender x.client
    then some x.connector
    else if same_peer sender x.connector
    then some x.client
    else none

abbrev pub forward_to : Env → Peer → Bytes → Bytes → Option Peer → Server → Server
forward_to env sender frame session_id none s =
    send_error env sender (codes "SESSION_PEER_MISMATCH") (codes "session peer mismatch")
      (count_error s)
forward_to env sender frame session_id (some target) s =
    let (s', sent) = send env target (binary frame) s in
    if sent
    then record s' { metrics = add_forwarded_bytes (length frame) s'.metrics }
    else close_session env session_id (count_error s')

abbrev pub route_session : Env → Peer → Bytes → Bytes → Option Session → Server → Server
route_session env sender frame session_id none s =
    send_error env sender (codes "SESSION_NOT_FOUND") (codes "session not found") (count_error s)
route_session env sender frame session_id (some x) s =
    forward_to env sender frame session_id (opposite sender x) s

abbrev pub route_frame : Env → Peer → Bytes → Result FrameError DataFrame → Server → Server
route_frame env sender frame (err e) s =
    send_error env sender (codes "BAD_DATA_FRAME") (codes "invalid data frame") (count_error s)
route_frame env sender frame (ok d) s =
    route_session env sender frame d.session_id (sessions_get s.sessions d.session_id) s

unfoldable pub route_binary : Env → Peer → Bytes → Server → Server
route_binary env sender frame s = route_frame env sender frame (parse_data_frame frame) s

-- The endpoint that is told of a session that the leaving peer had.
unfoldable pub other_endpoint : Peer → Session → Peer
other_endpoint peer x = if same_peer x.client peer then x.connector else x.client

unfoldable pub notify_removed : Env → Peer → List Session → Server → Server
notify_removed env peer [] s = s
notify_removed env peer (x ∷ xs) s =
    notify_removed env peer xs (send_control env (other_endpoint peer x) (close_message x.id) s).0

unfoldable pub cleanup_peer : Env → Peer → Server → Server
cleanup_peer env peer s =
    let (auth, hashes) = auth_delete_by_peer s.auth peer in
    let (sessions, removed) = sessions_delete_by_peer s.sessions peer in
    let s₁ = notify_removed env peer removed (record s { auth = auth; sessions = sessions }) in
    record s₁ { hub = hub_remove s₁.hub peer.id; network = Network.close peer.conn s₁.network }

unfoldable pub handle_control : Env → Peer → ControlMessage → Server → Server
handle_control env peer msg s =
    if text_eq msg.type type_heartbeat
    then s
    else if text_eq msg.type type_close_session && not (text_eq msg.session_id [])
    then close_session env msg.session_id s
    else send_error env peer (codes "UNSUPPORTED_CONTROL")
        (codes "unsupported control message in this state") s

abbrev pub handle_decoded : Env → Peer → Result ControlError ControlMessage → Server → Server
handle_decoded env peer (err e) s =
    send_error env peer (codes "BAD_CONTROL") (codes "invalid control message") (count_error s)
handle_decoded env peer (ok msg) s = handle_control env peer msg s

-- The body of the read loops, for one message.
unfoldable pub handle_message : Env → Peer → Message → Server → Server
handle_message env peer (text data_bytes) s =
    handle_decoded env peer (decode_control env.codec data_bytes) s
handle_message env peer (binary frame) s = route_binary env peer frame s
