-- ===== src/Relay/Routing.antt =====
-- routeBinary of relay/main.go: who gets a frame.
use open_claw_bridge.Common.{
  ℕ, suc, true, false, Option, none, some, List, [], ◌∷◌, ◌≡◌, ◌⊎◌, inl, inr, refl, ap, ◌∙◌, arith,
  Result, ok, err, length, Bool-cases, Option-cases, ==_refl,
}
use open_claw_bridge.Text.{Bytes}
use open_claw_bridge.Protocol.Frame.{DataFrame, FrameError, parse_data_frame}
use open_claw_bridge.Protocol.Control.{ControlMessage}
use open_claw_bridge.GoMap.{Map, delete}
use open_claw_bridge.Relay.Network
use open_claw_bridge.Relay.Network.{Message, Delivery, Network, text, binary, can_write}
use open_claw_bridge.Relay.Stores.{
  Peer, Session, sessions_get, sessions_delete, add_forwarded_bytes,
}
use open_claw_bridge.Relay.Stores.Laws.{AllEntries-get}
use open_claw_bridge.Relay.Server.{
  Env, Server, send, send_control, send_error, error_message, count_error, close_session,
  close_found, close_message, opposite, forward_to, route_frame, route_binary,
}
use open_claw_bridge.Relay.Spec.{Stores, stores, IsPairing}
use open_claw_bridge.Relay.Spec.Invariant.{Inv, IsSession}
use open_claw_bridge.Relay.Spec.Effects.{stores-close_session}

-- The DATA frames among the deliveries, the latest first.
abbrev pub binaries : List Delivery → List Delivery
binaries [] = []
binaries (d ∷ ds) = elim d.message [ text b ↦ binaries ds | binary b ↦ d ∷ binaries ds ]

abbrev pub data_log : Server → List Delivery
data_log s = binaries s.network.log

abbrev pub deliver : Peer → Message → Network → Network
deliver p m n = record n {
  writes = suc n.writes;
  log = record { conn = p.conn; message = m } ∷ n.log;
}

data_log-send_control :
    (env : Env) (p : Peer) (m : ControlMessage) (s : Server)
    → data_log (send_control env p m s).0 ≡ data_log s
unfolding send_control send Network.write
data_log-send_control env p m s = elim (Bool-cases (can_write env.faults p.conn s.network)) [
  | inl e ↦ rw e refl
  | inr e ↦ rw e refl
]

data_log-send_error :
    (env : Env) (p : Peer) (code message : Bytes) (s : Server)
    → data_log (send_error env p code message s) ≡ data_log s
unfolding send_error
data_log-send_error env p code message s =
    elim (Bool-cases (send_control env p (error_message code message) s).1) [
      | inl e ↦ rw e (data_log-send_control env p (error_message code message) s)
      | inr e ↦ rw e (data_log-send_control env p (error_message code message) s)
    ]

data_log-close_session :
    (env : Env) (k : Bytes) (s : Server) → data_log (close_session env k s) ≡ data_log s
unfolding close_session
data_log-close_session env k s = go (sessions_delete s.sessions k)
  where
    go : (r : Map Session × Option Session) → data_log (close_found env k r s) ≡ data_log s
    go (rest, none) = refl
    go (rest, some x) =
        data_log-send_control env x.connector (close_message k) _
        ∙ data_log-send_control env x.client (close_message k) _

-- A peer is an endpoint of a session, and `other` is the endpoint opposite to it.
abbrev pub IsOpposite : Peer → Session → Peer → Type 0
IsOpposite sender x other =
    ((sender.addr ≡ x.client.addr) × (other ≡ x.connector))
    ⊎ ((sender.addr ≡ x.connector.addr) × (other ≡ x.client))

opposite-IsOpposite :
    (sender other : Peer) (x : Session) → opposite sender x ≡ some other → IsOpposite sender x other
unfolding opposite
opposite-IsOpposite sender other x e = ground arith

pub opposite-client : (x : Session) → opposite x.client x ≡ some x.connector
unfolding opposite
opposite-client x = rw (==_refl x.client.addr) refl

pub opposite-connector :
    (n : ℕ) (x : Session) → IsPairing n x → opposite x.connector x ≡ some x.client
unfolding opposite
opposite-connector n x h = ground arith

-- What a frame did to the DATA log: nothing, or it was forwarded, unchanged, along its session.
abbrev pub IsForwarded : Peer → Bytes → Server → Server → Type 0
IsForwarded sender frame s s' =
    (data_log s' ≡ data_log s)
    ⊎ ((d : DataFrame) × (x : Session) × (other : Peer) × (parse_data_frame frame ≡ ok d)
        × (sessions_get s.sessions d.session_id ≡ some x)
        × IsOpposite sender x other
        × (data_log s' ≡ record { conn = other.conn; message = binary frame } ∷ data_log s))

forward_to-data_log :
    (env : Env) (sender : Peer) (frame k : Bytes) (target : Peer) (s : Server)
    → (data_log (forward_to env sender frame k (some target) s) ≡ data_log s)
      ⊎ (data_log (forward_to env sender frame k (some target) s)
          ≡ record { conn = target.conn; message = binary frame } ∷ data_log s)
unfolding send Network.write
forward_to-data_log env sender frame k target s =
    elim (Bool-cases (can_write env.faults target.conn s.network)) [
      | inl e ↦ rw e (inr refl)
      | inr e ↦ rw e (inl (data_log-close_session env k _))
    ]

route_frame-IsForwarded :
    (env : Env) (sender : Peer) (frame : Bytes) (r : Result FrameError DataFrame) (s : Server)
    → parse_data_frame frame ≡ r
    → IsForwarded sender frame s (route_frame env sender frame r s)
route_frame-IsForwarded env sender frame (err e) s parsed =
    inl (data_log-send_error env sender _ _ (count_error s))
route_frame-IsForwarded env sender frame (ok d) s parsed =
    elim (Option-cases (sessions_get s.sessions d.session_id)) [
      | inl e ↦ rw e (inl (data_log-send_error env sender _ _ (count_error s)))
      | inr (x, found) ↦ rw found (elim (Option-cases (opposite sender x)) [
        | inl e ↦ rw e (inl (data_log-send_error env sender _ _ (count_error s)))
        | inr (target, e) ↦
            rw e (elim (forward_to-data_log env sender frame d.session_id target s) [
              | inl same ↦ inl same
              | inr sent ↦
                  inr (d, x, target, parsed, found, opposite-IsOpposite sender target x e, sent)
            ])
      ])
    ]

-- Whatever the frame, the sender and the state: a DATA frame is delivered to nobody, or once,
-- unchanged, to the endpoint opposite to the sender in the session that the frame names.
pub route_binary-IsForwarded :
    (env : Env) (sender : Peer) (frame : Bytes) (s : Server)
    → IsForwarded sender frame s (route_binary env sender frame s)
unfolding route_binary
route_binary-IsForwarded env sender frame s =
    route_frame-IsForwarded env sender frame (parse_data_frame frame) s refl

abbrev pub forwarded : Peer → Bytes → Server → Server
forwarded target frame s = record s {
  network = deliver target (binary frame) s.network;
  metrics = add_forwarded_bytes (length frame) s.metrics;
}

-- A frame of an endpoint of an open session, towards a connection that takes the write, is
-- forwarded and counted, and changes nothing else.
pub route_delivers :
    (env : Env) (sender target : Peer) (frame : Bytes) (d : DataFrame) (x : Session) (s : Server)
    → parse_data_frame frame ≡ ok d
    → sessions_get s.sessions d.session_id ≡ some x
    → opposite sender x ≡ some target
    → can_write env.faults target.conn s.network ≡ true
    → route_binary env sender frame s ≡ forwarded target frame s
unfolding route_binary send Network.write
route_delivers env sender target frame d x s parsed found e open_conn =
    rw (parsed, route_binary) (rw found (rw e (rw open_conn refl)))

-- Where that connection fails, the session is closed and an error counted, and no bytes are.
pub route_fails :
    (env : Env) (sender target : Peer) (frame : Bytes) (d : DataFrame) (x : Session) (s : Server)
    → parse_data_frame frame ≡ ok d
    → sessions_get s.sessions d.session_id ≡ some x
    → opposite sender x ≡ some target
    → can_write env.faults target.conn s.network ≡ false
    → (route_binary env sender frame s).sessions ≡ delete s.sessions d.session_id
unfolding route_binary send Network.write
route_fails env sender target frame d x s parsed found e broken =
    rw (parsed, route_binary)
      (rw found (
        rw e
          (rw broken (ap (λ (a : Stores). a.sessions) (stores-close_session env d.session_id _)))))

-- A session works both ways: a frame of the client goes to the connector, and one of the connector
-- to the client.
pub route_both_ways :
    (env : Env) (frame : Bytes) (d : DataFrame) (x : Session) (s : Server)
    → Inv (stores s)
    → parse_data_frame frame ≡ ok d
    → sessions_get s.sessions d.session_id ≡ some x
    → can_write env.faults x.connector.conn s.network ≡ true
    → can_write env.faults x.client.conn s.network ≡ true
    → (route_binary env x.client frame s ≡ forwarded x.connector frame s)
      × (route_binary env x.connector frame s ≡ forwarded x.client frame s)
unfolding sessions_get
route_both_ways env frame d x s v parsed found connector_open client_open =
    let pairing =
      AllEntries-get (IsSession s.next_addr) s.sessions d.session_id x v.session_pairs found in
    (
      route_delivers env x.client x.connector frame d x s parsed found (opposite-client x)
          connector_open,
      route_delivers env x.connector x.client frame d x s parsed found
          (opposite-connector s.next_addr x pairing.1) client_open,
    )
