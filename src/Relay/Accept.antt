-- ===== src/Relay/Accept.antt =====
-- relay/main.go: new connections on /tunnel and /client up to their read loops, the loops, and
-- `newID`. What the upgrade, the first read and the random source give is an argument.
use open_claw_bridge.Common.{
  ℕ, suc, Bool, false, not, Option, none, some, List, [], ◌∷◌, ◌++◌, ◌||◌, if◌then◌else◌, ok, err,
}
use open_claw_bridge.Text.{Bytes, codes, text_eq, to_hex}
use open_claw_bridge.Protocol.Control.{
  Caps, ControlMessage, no_message, decode_control, hash_access_code, type_register, type_connect,
  type_connect_ok, type_session_open,
}
use open_claw_bridge.Relay.Network
use open_claw_bridge.Relay.Network.{Message, Read, text, binary, received, read_error}
use open_claw_bridge.Relay.Stores.{
  Peer, Role, role_connector, role_client, Entry, Session, same_peer, hub_add, auth_set, auth_get,
  sessions_set, allow,
}
use open_claw_bridge.Relay.Server.{
  Env, Server, count_error, send_control, send_error, close_session, cleanup_peer, handle_message,
}

-- The random bytes are `none` where rand.Read fails.
unfoldable pub new_id : Bytes → Option Bytes → Bytes
new_id prefix none = prefix ++ codes "fallback"
new_id prefix (some buf) = prefix ++ to_hex buf

-- for { conn.ReadMessage() ... } with the deferred cleanup, over the reads so far.
unfoldable pub connector_loop : Env → Peer → List Read → Server → Server
connector_loop env peer [] s = s
connector_loop env peer (read_error ∷ reads) s = cleanup_peer env peer s
connector_loop env peer (received m ∷ reads) s =
    connector_loop env peer reads (handle_message env peer m s)

unfoldable pub client_loop : Env → Peer → List Read → Server → Server
client_loop env peer [] s = s
client_loop env peer (read_error ∷ reads) s = cleanup_peer env peer s
client_loop env peer (received m ∷ reads) s =
    client_loop env peer reads (handle_message env peer m s)

-- How a handler leaves a new connection: refused with an HTTP error, or dropped, or with its peer in
-- the read loop.
pub data Outcome : Type 0 where
  rate_limited upgrade_failed dropped : Outcome
  serving : Peer → Outcome

-- hub.NewPeer(newID(prefix), role, conn) at a fresh address.
abbrev pub new_peer : Bytes → Option Bytes → Role → ℕ → Server → Peer
new_peer prefix random role conn s = record {
  addr = s.next_addr;
  id = new_id prefix random;
  role = role;
  conn = conn;
}

abbrev pub drop_conn : ℕ → Server → Server × Outcome
drop_conn conn s = (record s { network = Network.close conn s.network }, dropped)

abbrev pub caps_of : Option Caps → Caps
caps_of none = record { e2ee = false }
caps_of (some caps) = caps

abbrev pub close_previous : Peer → Option Entry → Server → Server
close_previous peer none s = s
close_previous peer (some e) s = elim e.peer [
  | none ↦ s
  | some old ↦
      if same_peer old peer then s else record s { network = Network.close old.conn s.network }
]

unfoldable pub register : Peer → ControlMessage → Server → Server
register peer msg s =
    let (auth, previous) =
      auth_set s.auth msg.access_code_hash
        (record { peer = some peer; generation = msg.generation; caps = caps_of msg.caps }) in
    close_previous peer previous
      (record s { hub = hub_add s.hub peer; auth = auth; next_addr = suc s.next_addr })

-- The first message of a tunnel, if it is one that registers.
unfoldable pub register_message : Env → Read → Option ControlMessage
register_message env read_error = none
register_message env (received (binary b)) = none
register_message env (received (text b)) = elim (decode_control env.codec b) [
  | err e ↦ none
  | ok msg ↦
      if not (text_eq msg.type type_register) || text_eq msg.access_code_hash []
      then none
      else some msg
]

unfoldable pub handle_tunnel :
    Env → Bytes → Option ℕ → Read → Option Bytes → Server → Server × Outcome
handle_tunnel env remote_addr upgraded first random s =
    if not (allow remote_addr) then (s, rate_limited) else elim upgraded [
      | none ↦ (count_error s, upgrade_failed)
      | some conn ↦ elim (register_message env first) [
        | none ↦ drop_conn conn s
        | some msg ↦
            let peer = new_peer (codes "c_") random role_connector conn s in
            (register peer msg s, serving peer)
      ]
    ]

unfoldable pub connect_message : Env → Read → Option ControlMessage
connect_message env read_error = none
connect_message env (received (binary b)) = none
connect_message env (received (text b)) = elim (decode_control env.codec b) [
  | err e ↦ none
  | ok msg ↦
      if not (text_eq msg.type type_connect) || text_eq msg.access_code [] then none else some msg
]

abbrev pub connect_ok : Bytes → Caps → ControlMessage
connect_ok session_id caps = record no_message {
  type = type_connect_ok;
  session_id = session_id;
  caps = some caps;
}

abbrev pub session_open : Bytes → Bool → ControlMessage
session_open session_id e2ee = record no_message {
  type = type_session_open;
  session_id = session_id;
  e2ee = e2ee;
}

-- Both ways out of handleClient after a send that failed.
abbrev pub give_up : Env → Bytes → Peer → Server → Server × Outcome
give_up env session_id client s =
    (cleanup_peer env client (close_session env session_id (count_error s)), dropped)

-- From s.sessions.Set(session) on.
unfoldable pub open_session : Env → Session → Caps → Server → Server × Outcome
open_session env x caps s =
    let s₁ = record s { sessions = sessions_set s.sessions x } in
    let (s₂, told_client) = send_control env x.client (connect_ok x.id caps) s₁ in
    let (s₃, told_connector) = send_control env x.connector (session_open x.id x.e2ee) s₂ in
    if told_client
    then if told_connector then (s₃, serving x.client) else give_up env x.id x.client s₃
    else give_up env x.id x.client s₂

-- The connector that is registered under a hash, with its capabilities.
unfoldable pub online : Option Entry → Option (Peer × Caps)
online none = none
online (some e) = elim e.peer [ none ↦ none | some p ↦ some (p, e.caps) ]

unfoldable pub connect : Env → Peer → ControlMessage → Option Bytes → Server → Server × Outcome
connect env client msg random s =
    elim (online (auth_get s.auth (hash_access_code env.sha256 msg.access_code))) [
      | none ↦ (
        cleanup_peer env client
            (send_error env client (codes "CONNECTOR_NOT_FOUND") (codes "connector not online") s),
        dropped,
      )
      | some (connector, caps) ↦
          open_session env
            (record {
              id = new_id (codes "s_") random;
              client = client;
              connector = connector;
              e2ee = msg.e2ee;
            })
            caps s
    ]

unfoldable pub handle_client :
    Env → Bytes → Option ℕ → Read → Option Bytes → Option Bytes → Server → Server × Outcome
handle_client env remote_addr upgraded first random random_session s =
    if not (allow remote_addr) then (s, rate_limited) else elim upgraded [
      | none ↦ (count_error s, upgrade_failed)
      | some conn ↦ elim (connect_message env first) [
        | none ↦ drop_conn conn s
        | some msg ↦
            let peer = new_peer (codes "u_") random role_client conn s in
            connect env peer msg random_session
              (record s { hub = hub_add s.hub peer; next_addr = suc s.next_addr })
      ]
    ]
