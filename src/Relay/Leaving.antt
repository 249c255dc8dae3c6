-- ===== src/Relay/Leaving.antt =====
-- cleanupPeer of relay/main.go: what is left when a peer's connection ends, and who is told.
use open_claw_bridge.Common.{
  ℕ, suc, true, false, none, List, [], ◌∷◌, ◌++◌, ◌≡◌, refl, ap, ◌∙◌, if◌then◌else◌, All, map,
  append_assoc, ==_refl,
}
use mathlib.Core.List.{reverse, reverse-cons}
use open_claw_bridge.Text.{Bytes, text_eq}
use open_claw_bridge.GoMap.{get, select_where}
use open_claw_bridge.GoMap.Laws.{get-delete, get-delete_where, unless}
use open_claw_bridge.Relay.Network
use open_claw_bridge.Relay.Network.{Message, Delivery, Network, text, binary, can_write, elem}
use open_claw_bridge.Relay.Stores.{
  Peer, Session, same_peer, sessions_get, auth_get, hub_get, entry_of, session_of, values,
  sessions_delete_by_peer,
}
use open_claw_bridge.Relay.Server.{
  Env, Server, send, send_control, close_message, other_endpoint, notify_removed, cleanup_peer,
}
use open_claw_bridge.Relay.Spec.{Stores, stores, leave}
use open_claw_bridge.Relay.Spec.Invariant.{Inv}
use open_claw_bridge.Relay.Spec.Effects.{stores-cleanup_peer}
use open_claw_bridge.Relay.Closing.{close_text}

-- What a leaving peer takes with it: its registrations, its sessions and its place in the hub. Every
-- other registration, session and peer is as it was.
pub record Left (p : Peer) (s s' : Server) : Type 0 where
  pub registrations :
      (hash : Bytes) → auth_get s'.auth hash ≡ unless (entry_of p) (auth_get s.auth hash)
  pub sessions :
      (k : Bytes) → sessions_get s'.sessions k ≡ unless (session_of p) (sessions_get s.sessions k)
  pub peers :
      (id : Bytes) → hub_get s'.hub id ≡ (if text_eq p.id id then none else hub_get s.hub id)
  pub closed : elem p.conn s'.network.closed ≡ true

closed-cleanup_peer :
    (env : Env) (p : Peer) (s : Server) → elem p.conn (cleanup_peer env p s).network.closed ≡ true
unfolding cleanup_peer Network.close elem
closed-cleanup_peer env p s = rw (==_refl p.conn) refl

pub cleanup_peer-Left :
    (env : Env) (p : Peer) (s : Server) → Inv (stores s) → Left p s (cleanup_peer env p s)
unfolding auth_get sessions_get hub_get
cleanup_peer-Left env p s v =
    let e : stores (cleanup_peer env p s) ≡ leave p (stores s) = stores-cleanup_peer env p s in
    record {
      registrations = λ hash.
          ap (λ (a : Stores). get a.auth hash) e
          ∙ get-delete_where (entry_of p) s.auth hash v.auth_distinct;
      sessions = λ k.
          ap (λ (a : Stores). get a.sessions k) e
          ∙ get-delete_where (session_of p) s.sessions k v.sessions_distinct;
      peers = λ id. ap (λ (a : Stores). get a.hub id) e ∙ get-delete s.hub p.id id;
      closed = closed-cleanup_peer env p s;
    }

-- No write fails now or later, on a connection that is not closed.
abbrev pub NoFaults : Env → Type 0
NoFaults env = (conn n : ℕ) → env.faults conn n ≡ false

abbrev pub IsOpen : Network → Peer → Type 0
IsOpen n p = elem p.conn n.closed ≡ false

-- The end of a session that stays when the peer leaves: the connector if the client leaves.
abbrev pub remaining : Peer → Session → Peer
remaining p x = if same_peer x.client p then x.connector else x.client

abbrev pub told : Env → Peer → Session → Delivery
told env p x = record { conn = (remaining p x).conn; message = close_text env x.id }

log-send_control :
    (env : Env) (p : Peer) (k : Bytes) (s : Server)
    → NoFaults env
    → IsOpen s.network p
    → (send_control env p (close_message k) s).0 ≡ record s {
      network = record s.network {
        writes = suc s.network.writes;
        log = record { conn = p.conn; message = close_text env k } ∷ s.network.log;
      };
    }
unfolding send_control send Network.write can_write
log-send_control env p k s sure is_open = rw (is_open, sure p.conn s.network.writes) refl

notify_removed-log :
    (env : Env) (p : Peer) (xs : List Session) (s : Server)
    → NoFaults env
    → All (λ x. IsOpen s.network (remaining p x)) xs
    → (notify_removed env p xs s).network.log ≡ reverse (map (told env p) xs) ++ s.network.log
unfolding notify_removed other_endpoint
notify_removed-log env p [] s sure h = refl
notify_removed-log env p (x ∷ xs) s sure h =
    ap (λ (s' : Server). (notify_removed env p xs s').network.log)
      (log-send_control env (remaining p x) x.id s sure h.0)
    ∙ notify_removed-log env p xs _ sure h.1
    ∙ rw (reverse-cons (told env p x) (map (told env p) xs), append_assoc) refl

-- Where no write fails and the ends that stay are open, each session that goes is told once, to its
-- connector if the client leaves and to its client otherwise, and nobody else is told anything.
pub cleanup_peer_tells :
    (env : Env) (p : Peer) (s : Server)
    → NoFaults env
    → All (λ x. IsOpen s.network (remaining p x)) (values (select_where (session_of p) s.sessions))
    → (cleanup_peer env p s).network.log
      ≡ reverse (map (told env p) (values (select_where (session_of p) s.sessions)))
        ++ s.network.log
unfolding cleanup_peer Network.close sessions_delete_by_peer
cleanup_peer_tells env p s sure h = notify_removed-log env p _ _ sure h
