-- ===== src/Relay/Spec/Refinement.antt =====
-- Every step of the relay, with every outcome of its writes, is a sequence of abstract moves.
use open_claw_bridge.Common.{
  ℕ, ◌<◌, Option, none, some, List, [], ◌∷◌, ◌≡◌, inl, inr, refl, sym, ap, subst, ◌∙◌, arith,
  Bool-cases, Option-cases,
}
use open_claw_bridge.Text.{Bytes, codes}
use open_claw_bridge.GoMap.{get, put}
use open_claw_bridge.Protocol.Control.{ControlMessage, Caps, hash_access_code}
use open_claw_bridge.Relay.Network.{Read, received, read_error}
use open_claw_bridge.Relay.Stores.{
  Peer, Role, Entry, Session, role_connector, role_client, allow, hub_add, auth_set, auth_get,
  sessions_set,
}
use open_claw_bridge.Relay.Stores.Laws.{AllEntries-get}
use open_claw_bridge.Relay.Server.{Env, Server, new_relay_server, send_control, count_error}
use open_claw_bridge.Relay.Accept.{
  new_peer, close_previous, register, register_message, handle_tunnel, connect_message, connect_ok,
  session_open, give_up, open_session, online, connect, handle_client, connector_loop, client_loop,
  caps_of,
}
use open_claw_bridge.Relay.Steps.{Input, tunnel, client, read, loop_of, step, run}
use open_claw_bridge.Relay.Spec.{
  Stores, stores, Move, Moves, joins, enlists, opens, closes, leaves, done, after, join, enlist,
  open_in, leave, IsPairing, IsConnector,
}
use open_claw_bridge.Relay.Spec.Invariant.{Inv, IsEntry, Moves-Inv, Moves-trans}
use open_claw_bridge.Relay.Spec.Effects.{
  KeepsOrCloses, stores-send_control, stores-send_error, stores-close_session, stores-cleanup_peer,
  handle_message-stores,
}

-- One move, from the stores after `s`.
one : {a b : Stores} → Move a b → Moves a b
one m = after done m

message-Moves : {a b : Stores} → KeepsOrCloses a b → Moves a b
message-Moves {a} (inl e) = subst (Moves a) (sym e) done
message-Moves (inr (k, e)) = one (closes k e)

read-Moves :
    (env : Env) (role : Role) (p : Peer) (r : Read) (s : Server)
    → Moves (stores s) (stores (loop_of role env p (r ∷ []) s))
unfolding loop_of connector_loop client_loop
read-Moves env role_connector p read_error s = one (leaves p (stores-cleanup_peer env p s))
read-Moves env role_client p read_error s = one (leaves p (stores-cleanup_peer env p s))
read-Moves env role_connector p (received m) s = message-Moves (handle_message-stores env p m s)
read-Moves env role_client p (received m) s = message-Moves (handle_message-stores env p m s)

close_previous-stores :
    (p : Peer) (o : Option Entry) (s : Server) → stores (close_previous p o s) ≡ stores s
close_previous-stores p none s = refl
close_previous-stores p (some e) s = ground arith

abbrev pub entry_for : Peer → ControlMessage → Entry
entry_for p m = record { peer = some p; generation = m.generation; caps = caps_of m.caps }

pub register-stores :
    (p : Peer) (m : ControlMessage) (s : Server)
    → stores (register p m s) ≡ enlist m.access_code_hash (entry_for p m) (join p (stores s))
unfolding register hub_add auth_set
register-stores p m s = close_previous-stores p (get s.auth m.access_code_hash) _

tunnel-Moves :
    (env : Env) (remote : Bytes) (upgraded : Option ℕ) (first : Read) (random : Option Bytes)
    (s : Server)
    → Moves (stores s) (stores (handle_tunnel env remote upgraded first random s).0)
unfolding handle_tunnel allow
tunnel-Moves env remote none first random s = done
tunnel-Moves env remote (some conn) first random s =
    elim (Option-cases (register_message env first)) [
      | inl e ↦ rw (e, handle_tunnel) done
      | inr (m, e) ↦
          let p = new_peer (codes "c_") random role_connector conn s in
          rw (e, handle_tunnel)
            (after (one (joins p refl refl)) (
              enlists m.access_code_hash (entry_for p m) (omega arith, refl)
                (register-stores p m s)))
    ]

pub IsConnector-online :
    (n : ℕ) (o : Option Entry) (p : Peer) (caps : Caps)
    → ((e : Entry) → o ≡ some e → IsConnector n e.peer)
    → online o ≡ some (p, caps)
    → (p.addr < n) × (p.role ≡ role_connector)
unfolding online
IsConnector-online n none p caps h e = cc
IsConnector-online n (some x) p caps h e = ground (arith, h x)

give_up-Moves :
    (env : Env) (x : Session) (a : Stores) (s : Server)
    → stores s ≡ open_in x a
    → IsPairing a.next_addr x
    → Moves a (stores (give_up env x.id x.client s).0)
give_up-Moves env x a s e pairing =
    after
      (after (one (opens x pairing e))
        (closes x.id (stores-close_session env x.id (count_error s))))
      (leaves x.client (stores-cleanup_peer env x.client _))

open_session-Moves :
    (env : Env) (x : Session) (caps : Caps) (s : Server)
    → IsPairing s.next_addr x
    → Moves (stores s) (stores (open_session env x caps s).0)
unfolding open_session sessions_set
open_session-Moves env x caps s pairing =
    let s₁ : Server = record s { sessions = put s.sessions x.id x } in
    let s₂ : Server = (send_control env x.client (connect_ok x.id caps) s₁).0 in
    let s₃ : Server = (send_control env x.connector (session_open x.id x.e2ee) s₂).0 in
    let e₂ : stores s₂ ≡ open_in x (stores s) =
      stores-send_control env x.client (connect_ok x.id caps) s₁ in
    let e₃ : stores s₃ ≡ open_in x (stores s) =
      stores-send_control env x.connector (session_open x.id x.e2ee) s₂ ∙ e₂ in
    elim (Bool-cases (send_control env x.client (connect_ok x.id caps) s₁).1) [
      | inl told ↦
          rw told
            (elim (Bool-cases (send_control env x.connector (session_open x.id x.e2ee) s₂).1) [
              | inl too ↦ rw too (one (opens x pairing e₃))
              | inr lost ↦ rw lost (give_up-Moves env x (stores s) s₃ e₃ pairing)
            ])
      | inr lost ↦ rw lost (give_up-Moves env x (stores s) s₂ e₂ pairing)
    ]

connect-Moves :
    (env : Env) (p : Peer) (m : ControlMessage) (random : Option Bytes) (s : Server)
    → p.role ≡ role_client
    → p.addr < s.next_addr
    → ((h : Bytes) (e : Entry) → auth_get s.auth h ≡ some e → IsConnector p.addr e.peer)
    → Moves (stores s) (stores (connect env p m random s).0)
unfolding connect
connect-Moves env p m random s role made older =
    let h : Bytes = hash_access_code env.sha256 m.access_code in
    elim (Option-cases (online (auth_get s.auth h))) [
      | inl e ↦
          rw (e, connect)
            (one (
              leaves p
                (stores-cleanup_peer env p _ ∙ ap (leave p) (stores-send_error env p _ _ s))))
      | inr ((c, caps), e) ↦
          let (before, is_connector) = IsConnector-online p.addr _ c caps (older h) e in
          rw (e, connect)
            (open_session-Moves env _ caps s (record {
              client_role = role;
              connector_role = is_connector;
              connector_first = before;
              made = made;
            }))
    ]

client-Moves :
    (env : Env) (remote : Bytes) (upgraded : Option ℕ) (first : Read)
    (random random_session : Option Bytes) (s : Server)
    → Inv (stores s)
    → Moves (stores s) (stores (handle_client env remote upgraded first random random_session s).0)
unfolding handle_client allow hub_add auth_get
client-Moves env remote none first random random_session s v = done
client-Moves env remote (some conn) first random random_session s v =
    elim (Option-cases (connect_message env first)) [
      | inl e ↦ rw (e, handle_client) done
      | inr (m, e) ↦
          let p = new_peer (codes "u_") random role_client conn s in
          rw (e, handle_client)
            (Moves-trans (one (joins p refl refl)) (
              connect-Moves env p m random_session _ refl (omega arith) (λ h x found.
                AllEntries-get (IsEntry s.next_addr) s.auth h x v.auth_entries found)))
    ]

-- From stores that satisfy the invariant, every step of the relay is a sequence of moves.
pub step-Moves :
    (env : Env) (s : Server) (i : Input) → Inv (stores s) → Moves (stores s) (stores (step env s i))
unfolding step
step-Moves env s (tunnel remote upgraded first random) v =
    tunnel-Moves env remote upgraded first random s
step-Moves env s (client remote upgraded first random random_session) v =
    client-Moves env remote upgraded first random random_session s v
step-Moves env s (read p r) v = read-Moves env p.role p r s

new-Inv : Inv (stores new_relay_server)
unfolding new_relay_server
new-Inv = record {
  hub_distinct = tt;
  auth_distinct = tt;
  sessions_distinct = tt;
  hub_peers = tt;
  auth_entries = tt;
  session_pairs = tt;
}

run-Inv_from :
    (env : Env) (s : Server) (is : List Input) → Inv (stores s) → Inv (stores (run env s is))
unfolding run
run-Inv_from env s [] v = v
run-Inv_from env s (i ∷ is) v =
    run-Inv_from env (step env s i) is (Moves-Inv (step-Moves env s i v) v)

-- The invariant holds of the stores after any inputs, whichever writes fail.
pub run-Inv : (env : Env) (is : List Input) → Inv (stores (run env new_relay_server is))
run-Inv env is = run-Inv_from env new_relay_server is new-Inv
