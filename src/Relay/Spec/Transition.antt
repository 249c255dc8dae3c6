-- ===== src/Relay/Spec/Transition.antt =====
-- What each input of the relay does to its stores, with nothing of the network but that a write may fail.
use open_claw_bridge.Common.{ℕ, Option, none, some, [], Result, ok, err, ◌≡◌, ◌≢◌, ◌⊎◌}
use open_claw_bridge.Text.{Bytes, codes}
use open_claw_bridge.GoMap.{get}
use open_claw_bridge.Protocol.Frame.{FrameError, DataFrame, parse_data_frame}
use open_claw_bridge.Protocol.Control.{
  ControlMessage, ControlError, decode_control, hash_access_code, type_register, type_connect,
  type_close_session,
}
use open_claw_bridge.Relay.Network.{Read, received, read_error, text, binary}
use open_claw_bridge.Relay.Stores.{Peer, Role, Entry, Session, role_connector, role_client}
use open_claw_bridge.Relay.Server.{Env}
use open_claw_bridge.Relay.Accept.{new_id, caps_of}
use open_claw_bridge.Relay.Steps.{Input, tunnel, client, read}
use open_claw_bridge.Relay.Spec.{Stores, join, enlist, open_in, close_in, leave}

-- The control message that a read brings.
abbrev pub control_result : Env → Read → Option (Result ControlError ControlMessage)
control_result env (received (text b)) = some (decode_control env.codec b)
control_result env _ = none

-- The peer of a new connection, as it is made where the stores are `a`.
abbrev pub peer_at : Bytes → Option Bytes → Role → ℕ → Stores → Peer
peer_at prefix random role conn a = record {
  addr = a.next_addr;
  id = new_id prefix random;
  role = role;
  conn = conn;
}

-- A REGISTER with a hash makes a connector, registered under the hash. Nothing else does.
abbrev pub IsRegister : ControlMessage → Type 0
IsRegister m = (m.type ≡ type_register) × (m.access_code_hash ≢ [])

abbrev pub entry_of_connector : Peer → ControlMessage → Entry
entry_of_connector p m = record { peer = some p; generation = m.generation; caps = caps_of m.caps }

abbrev pub enrolled : Peer → ControlMessage → Stores → Stores
enrolled p m a = enlist m.access_code_hash (entry_of_connector p m) (join p a)

abbrev pub Registers :
    ℕ → Option Bytes → Option (Result ControlError ControlMessage) → Stores → Stores → Type 0
Registers conn random (some (ok m)) a b =
    (IsRegister m × (b ≡ enrolled (peer_at (codes "c_") random role_connector conn a) m a))
    ⊎ ((IsRegister m → ⊥) × (b ≡ a))
Registers conn random _ a b = b ≡ a

-- A CONNECT with a code makes a client. Without a connector for the code the client leaves again; with
-- one the session of the two is opened, or it is closed and the client leaves, where one of them could
-- not be written to.
abbrev pub IsConnect : ControlMessage → Type 0
IsConnect m = (m.type ≡ type_connect) × (m.access_code ≢ [])

abbrev pub registered_peer : Option Entry → Option Peer
registered_peer none = none
registered_peer (some e) = e.peer

abbrev pub session_between : Peer → Peer → ControlMessage → Option Bytes → Session
session_between p c m random = record {
  id = new_id (codes "s_") random;
  client = p;
  connector = c;
  e2ee = m.e2ee;
}

abbrev pub Pairs : Peer → ControlMessage → Option Bytes → Option Peer → Stores → Stores → Type 0
Pairs p m random none a b = b ≡ leave p (join p a)
Pairs p m random (some c) a b =
    let x = session_between p c m random in
    (b ≡ open_in x (join p a)) ⊎ (b ≡ leave p (close_in x.id (open_in x (join p a))))

abbrev pub Connects :
    Env
    → ℕ
    → Option Bytes
    → Option Bytes
    → Option (Result ControlError ControlMessage)
    → Stores
    → Stores
    → Type 0
Connects env conn random random_session (some (ok m)) a b =
    (IsConnect m
      × Pairs (peer_at (codes "u_") random role_client conn a) m random_session
          (registered_peer (get a.auth (hash_access_code env.sha256 m.access_code))) a b)
    ⊎ ((IsConnect m → ⊥) × (b ≡ a))
Connects env conn random random_session _ a b = b ≡ a

-- A CLOSE_SESSION that names a session closes it. No other control message does anything.
abbrev pub IsClose : ControlMessage → Type 0
IsClose m = (m.type ≡ type_close_session) × (m.session_id ≢ [])

abbrev pub Asks : Result ControlError ControlMessage → Stores → Stores → Type 0
Asks (err e) a b = b ≡ a
Asks (ok m) a b = (IsClose m × (b ≡ close_in m.session_id a)) ⊎ ((IsClose m → ⊥) × (b ≡ a))

-- A DATA frame does nothing, or it closes the stored session that it names, where its sender is one of
-- the two endpoints.
abbrev pub IsEndpoint : Peer → Session → Type 0
IsEndpoint p x = (p.addr ≡ x.client.addr) ⊎ (p.addr ≡ x.connector.addr)

abbrev pub Routes : Peer → Result FrameError DataFrame → Stores → Stores → Type 0
Routes p (err e) a b = b ≡ a
Routes p (ok d) a b =
    (b ≡ a)
    ⊎ ((x : Session) × ((get a.sessions d.session_id ≡ some x)
          × (IsEndpoint p x × (b ≡ close_in d.session_id a))))

-- The end of a connection takes everything of its peer out of the stores.
abbrev pub Transition : Env → Input → Stores → Stores → Type 0
Transition env (tunnel remote_addr none first random) a b = b ≡ a
Transition env (tunnel remote_addr (some conn) first random) a b =
    Registers conn random (control_result env first) a b
Transition env (client remote_addr none first random random_session) a b = b ≡ a
Transition env (client remote_addr (some conn) first random random_session) a b =
    Connects env conn random random_session (control_result env first) a b
Transition env (read p read_error) a b = b ≡ leave p a
Transition env (read p (received (text t))) a b = Asks (decode_control env.codec t) a b
Transition env (read p (received (binary f))) a b = Routes p (parse_data_frame f) a b
