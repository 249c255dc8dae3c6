-- ===== src/Relay/Tasks.antt =====
-- relay/main.go, one access to what its goroutines share at a time: a store under its mutex, a write to
-- a connection, a counter. A goroutine is a Task, the accesses that it has still to make. The reads of a
-- connection are given, and end with an error. Making a peer is part of adding it to the hub.
pub mod Alone
pub mod Access
pub mod Debts
pub mod Passing
pub mod Behaviour
pub mod Handlers
pub mod System
pub mod Interleaving
pub mod Ending
pub mod Counting
pub mod Counted
use open_claw_bridge.Common.{
  ℕ, suc, Bool, not, ◌&&◌, Option, none, some, List, [], ◌∷◌, if◌then◌else◌, Result, ok, err,
  length,
}
use open_claw_bridge.Text.{Bytes, codes, text_eq}
use open_claw_bridge.Protocol.Frame.{FrameError, DataFrame, parse_data_frame}
use open_claw_bridge.Protocol.Control.{
  Caps, ControlMessage, ControlError, encode_control, decode_control, hash_access_code,
  type_heartbeat, type_close_session,
}
use open_claw_bridge.Relay.Network
use open_claw_bridge.Relay.Network.{Message, Read, text, binary, received, read_error}
use open_claw_bridge.Relay.Stores.{
  Peer, Role, Entry, Session, role_connector, role_client, same_peer, hub_add, hub_remove, auth_set,
  auth_get, auth_delete_by_peer, sessions_set, sessions_get, sessions_delete,
  sessions_delete_by_peer, add_forwarded_bytes, allow,
}
use open_claw_bridge.Relay.Server.{
  Env, Server, send, count_error, error_message, close_message, opposite, other_endpoint,
}
use open_claw_bridge.Relay.Accept.{
  new_peer, new_id, caps_of, register_message, connect_message, connect_ok, session_open, online,
}

-- An access, and what follows it by the state that it met.
pub data Task : Type 0 where
  done : Task
  access : (Server → Server) → (Server → Task) → Task

abbrev pub send_task : Env → Peer → Message → (Bool → Task) → Task
send_task env p m go = access (λ s. (send env p m s).0) (λ s. go (send env p m s).1)

abbrev pub control_task : Env → Peer → ControlMessage → (Bool → Task) → Task
control_task env p msg go = send_task env p (text (encode_control env.codec msg)) go

abbrev pub count_task : Task → Task
count_task go = access count_error (λ s. go)

abbrev pub error_task : Env → Peer → Bytes → Bytes → Task → Task
error_task env p code message go =
    control_task env p (error_message code message) (λ sent. if sent then go else count_task go)

abbrev pub close_found_task : Env → Bytes → Option Session → Task → Task
close_found_task env session_id none go = go
close_found_task env session_id (some x) go =
    control_task env x.client (close_message session_id)
      (λ _. control_task env x.connector (close_message session_id) (λ _. go))

abbrev pub close_session_task : Env → Bytes → Task → Task
close_session_task env session_id go =
    access (λ s. record s { sessions = (sessions_delete s.sessions session_id).0 })
      (λ s. close_found_task env session_id (sessions_delete s.sessions session_id).1 go)

abbrev pub counted_task : Bytes → Task → Task
counted_task frame go =
    access (λ s. record s { metrics = add_forwarded_bytes (length frame) s.metrics }) (λ s. go)

abbrev pub forward_task : Env → Peer → Bytes → Bytes → Option Peer → Task → Task
forward_task env sender frame session_id none go =
    count_task
      (error_task env sender (codes "SESSION_PEER_MISMATCH") (codes "session peer mismatch") go)
forward_task env sender frame session_id (some target) go =
    send_task env target (binary frame) (λ sent.
      if sent then counted_task frame go else count_task (close_session_task env session_id go))

abbrev pub route_session_task : Env → Peer → Bytes → Bytes → Option Session → Task → Task
route_session_task env sender frame session_id none go =
    count_task (error_task env sender (codes "SESSION_NOT_FOUND") (codes "session not found") go)
route_session_task env sender frame session_id (some x) go =
    forward_task env sender frame session_id (opposite sender x) go

abbrev pub route_task : Env → Peer → Bytes → Result FrameError DataFrame → Task → Task
route_task env sender frame (err e) go =
    count_task (error_task env sender (codes "BAD_DATA_FRAME") (codes "invalid data frame") go)
route_task env sender frame (ok d) go =
    access (λ s. s)
      (λ s.
        route_session_task env sender frame d.session_id (sessions_get s.sessions d.session_id) go)

abbrev pub notify_task : Env → Peer → List Session → Task → Task
notify_task env p [] go = go
notify_task env p (x ∷ xs) go =
    control_task env (other_endpoint p x) (close_message x.id) (λ _. notify_task env p xs go)

abbrev pub drop_task : ℕ → Task
drop_task conn = access (λ s. record s { network = Network.close conn s.network }) (λ _. done)

abbrev pub leave_hub_task : Peer → Task
leave_hub_task p = access (λ s. record s { hub = hub_remove s.hub p.id }) (λ _. drop_task p.conn)

unfoldable pub cleanup_task : Env → Peer → Task
cleanup_task env p =
    access (λ s. record s { auth = (auth_delete_by_peer s.auth p).0 })
      (λ _.
        access (λ s. record s { sessions = (sessions_delete_by_peer s.sessions p).0 })
          (λ s. notify_task env p (sessions_delete_by_peer s.sessions p).1 (leave_hub_task p)))

abbrev pub control_message_task : Env → Peer → ControlMessage → Task → Task
control_message_task env p msg go =
    if text_eq msg.type type_heartbeat
    then go
    else if text_eq msg.type type_close_session && not (text_eq msg.session_id [])
    then close_session_task env msg.session_id go
    else error_task env p (codes "UNSUPPORTED_CONTROL")
        (codes "unsupported control message in this state") go

abbrev pub decoded_task : Env → Peer → Result ControlError ControlMessage → Task → Task
decoded_task env p (err e) go =
    count_task (error_task env p (codes "BAD_CONTROL") (codes "invalid control message") go)
decoded_task env p (ok msg) go = control_message_task env p msg go

abbrev pub message_task : Env → Peer → Message → Task → Task
message_task env p (text b) go = decoded_task env p (decode_control env.codec b) go
message_task env p (binary frame) go = route_task env p frame (parse_data_frame frame) go

-- The read loop of a peer with its deferred cleanup.
unfoldable pub loop_task : Env → Peer → List Read → Task
loop_task env p [] = cleanup_task env p
loop_task env p (read_error ∷ reads) = cleanup_task env p
loop_task env p (received m ∷ reads) = message_task env p m (loop_task env p reads)

abbrev pub join_task : Bytes → Option Bytes → Role → ℕ → (Peer → Task) → Task
join_task prefix random role conn go =
    access
      (λ s. record s {
        hub = hub_add s.hub (new_peer prefix random role conn s);
        next_addr = suc s.next_addr;
      })
      (λ s. go (new_peer prefix random role conn s))

abbrev pub close_old_task : Peer → Option Peer → Task → Task
close_old_task p none go = go
close_old_task p (some old) go =
    if same_peer old p
    then go
    else access (λ s. record s { network = Network.close old.conn s.network }) (λ _. go)

abbrev pub close_previous_task : Peer → Option Entry → Task → Task
close_previous_task p none go = go
close_previous_task p (some e) go = close_old_task p e.peer go

abbrev pub entry_for : Peer → ControlMessage → Entry
entry_for p msg = record { peer = some p; generation = msg.generation; caps = caps_of msg.caps }

abbrev pub register_task : Peer → ControlMessage → Task → Task
register_task p msg go =
    access (λ s. record s { auth = (auth_set s.auth msg.access_code_hash (entry_for p msg)).0 })
      (λ s. close_previous_task p (auth_set s.auth msg.access_code_hash (entry_for p msg)).1 go)

abbrev pub registered_task : Env → Option Bytes → ℕ → Option ControlMessage → List Read → Task
registered_task env random conn none reads = drop_task conn
registered_task env random conn (some msg) reads =
    join_task (codes "c_") random role_connector conn
      (λ p. register_task p msg (loop_task env p reads))

-- handleTunnel, with connectorLoop.
unfoldable pub tunnel_task : Env → Bytes → Option ℕ → Read → Option Bytes → List Read → Task
tunnel_task env remote_addr upgraded first random reads =
    if not (allow remote_addr) then done else elim upgraded [
      | none ↦ count_task done
      | some conn ↦ registered_task env random conn (register_message env first) reads
    ]

abbrev pub give_up_task : Env → Bytes → Peer → Task
give_up_task env session_id client =
    count_task (close_session_task env session_id (cleanup_task env client))

abbrev pub told_task : Env → Session → Caps → Task → Task
told_task env x caps served = control_task env x.client (connect_ok x.id caps) (λ told_client.
    if told_client
    then control_task env x.connector (session_open x.id x.e2ee)
        (λ told_connector. if told_connector then served else give_up_task env x.id x.client)
    else give_up_task env x.id x.client)

abbrev pub open_task : Env → Session → Caps → Task → Task
open_task env x caps served =
    access (λ s. record s { sessions = sessions_set s.sessions x })
      (λ _. told_task env x caps served)

abbrev pub session_of_connect : Peer → Peer → ControlMessage → Option Bytes → Session
session_of_connect client connector msg random = record {
  id = new_id (codes "s_") random;
  client = client;
  connector = connector;
  e2ee = msg.e2ee;
}

abbrev pub found_task :
    Env → Peer → ControlMessage → Option Bytes → List Read → Option (Peer × Caps) → Task
found_task env client msg random reads none =
    error_task env client (codes "CONNECTOR_NOT_FOUND") (codes "connector not online")
      (cleanup_task env client)
found_task env client msg random reads (some (connector, caps)) =
    open_task env (session_of_connect client connector msg random) caps (loop_task env client reads)

abbrev pub connect_task : Env → Peer → ControlMessage → Option Bytes → List Read → Task
connect_task env client msg random reads =
    access (λ s. s)
      (λ s.
        found_task env client msg random reads
          (online (auth_get s.auth (hash_access_code env.sha256 msg.access_code))))

abbrev pub connected_task :
    Env → Option Bytes → Option Bytes → ℕ → Option ControlMessage → List Read → Task
connected_task env random random_session conn none reads = drop_task conn
connected_task env random random_session conn (some msg) reads =
    join_task (codes "u_") random role_client conn
      (λ p. connect_task env p msg random_session reads)

-- handleClient, with clientLoop.
unfoldable pub client_task :
    Env → Bytes → Option ℕ → Read → Option Bytes → Option Bytes → List Read → Task
client_task env remote_addr upgraded first random random_session reads =
    if not (allow remote_addr) then done else elim upgraded [
      | none ↦ count_task done
      | some conn ↦ connected_task env random random_session conn (connect_message env first) reads
    ]

abbrev pub run_alone : Task → Server → Server
run_alone done s = s
run_alone (access f go) s = run_alone (go s) (f s)
