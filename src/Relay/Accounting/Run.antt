-- ===== src/Relay/Accounting/Run.antt =====
-- The bytes that the relay has counted, after any inputs.
use open_claw_bridge.Common.{
  ℕ, Option, none, some, List, [], ◌∷◌, arith, Bool-cases, Option-cases, inl, inr,
}
use open_claw_bridge.Text.{Bytes, codes}
use open_claw_bridge.Protocol.Control.{ControlMessage, Caps, hash_access_code}
use open_claw_bridge.Relay.Network
use open_claw_bridge.Relay.Network.{Read, received, read_error}
use open_claw_bridge.Relay.Stores.{
  Peer, Role, Entry, Session, role_connector, role_client, allow, auth_set, auth_get, sessions_set,
}
use open_claw_bridge.Relay.Server.{Env, Server, new_relay_server, send_control}
use open_claw_bridge.Relay.Accept.{
  new_peer, close_previous, register, register_message, handle_tunnel, connect_message, connect_ok,
  session_open, give_up, open_session, online, connect, handle_client, connector_loop, client_loop,
}
use open_claw_bridge.Relay.Steps.{Input, tunnel, client, read, loop_of, step, run}
use open_claw_bridge.Relay.Accounting.{
  IsCounted, send_control-IsCounted, send_error-IsCounted, count_error-IsCounted,
  close_session-IsCounted, handle_message-IsCounted, cleanup_peer-IsCounted,
}

module _ (env : Env) where
  read-IsCounted :
      (role : Role) (p : Peer) (r : Read) (s : Server)
      → IsCounted s
      → IsCounted (loop_of role env p (r ∷ []) s)
  unfolding loop_of connector_loop client_loop
  read-IsCounted role_connector p read_error s h = cleanup_peer-IsCounted env p s h
  read-IsCounted role_client p read_error s h = cleanup_peer-IsCounted env p s h
  read-IsCounted role_connector p (received m) s h = handle_message-IsCounted env p m s h
  read-IsCounted role_client p (received m) s h = handle_message-IsCounted env p m s h

  close_previous-IsCounted :
      (p : Peer) (o : Option Entry) (s : Server) → IsCounted s → IsCounted (close_previous p o s)
  unfolding Network.close
  close_previous-IsCounted p none s h = h
  close_previous-IsCounted p (some e) s h = record { counted = ground (arith, h.counted) }

  register-IsCounted :
      (p : Peer) (m : ControlMessage) (s : Server) → IsCounted s → IsCounted (register p m s)
  unfolding register
  register-IsCounted p m s h =
      close_previous-IsCounted p (auth_set s.auth m.access_code_hash _).1 _
        (record { counted = h.counted })

  tunnel-IsCounted :
      (remote : Bytes) (upgraded : Option ℕ) (first : Read) (random : Option Bytes) (s : Server)
      → IsCounted s
      → IsCounted (handle_tunnel env remote upgraded first random s).0
  unfolding handle_tunnel allow Network.close
  tunnel-IsCounted remote none first random s h = count_error-IsCounted env s h
  tunnel-IsCounted remote (some conn) first random s h =
      elim (Option-cases (register_message env first)) [
        | inl e ↦ rw (e, handle_tunnel) (record { counted = h.counted })
        | inr (m, e) ↦
            rw (e, handle_tunnel)
              (register-IsCounted (new_peer (codes "c_") random role_connector conn s) m s h)
      ]

  give_up-IsCounted :
      (k : Bytes) (p : Peer) (s : Server) → IsCounted s → IsCounted (give_up env k p s).0
  give_up-IsCounted k p s h =
      cleanup_peer-IsCounted env p _
        (close_session-IsCounted env k _ (count_error-IsCounted env s h))

  open_session-IsCounted :
      (x : Session) (caps : Caps) (s : Server)
      → IsCounted s
      → IsCounted (open_session env x caps s).0
  unfolding open_session
  open_session-IsCounted x caps s h =
      let s₁ : Server = record s { sessions = sessions_set s.sessions x } in
      let s₂ : Server = (send_control env x.client (connect_ok x.id caps) s₁).0 in
      let s₃ : Server = (send_control env x.connector (session_open x.id x.e2ee) s₂).0 in
      let h₂ : IsCounted s₂ =
        send_control-IsCounted env x.client (connect_ok x.id caps) s₁
          (record { counted = h.counted }) in
      let h₃ : IsCounted s₃ =
        send_control-IsCounted env x.connector (session_open x.id x.e2ee) s₂ h₂ in
      elim (Bool-cases (send_control env x.client (connect_ok x.id caps) s₁).1) [
        | inl told ↦
            rw told
              (elim (Bool-cases (send_control env x.connector (session_open x.id x.e2ee) s₂).1) [
                | inl too ↦ rw too h₃
                | inr lost ↦ rw lost (give_up-IsCounted x.id x.client s₃ h₃)
              ])
        | inr lost ↦ rw lost (give_up-IsCounted x.id x.client s₂ h₂)
      ]

  connect-IsCounted :
      (p : Peer) (m : ControlMessage) (random : Option Bytes) (s : Server)
      → IsCounted s
      → IsCounted (connect env p m random s).0
  unfolding connect
  connect-IsCounted p m random s h =
      elim (Option-cases (online (auth_get s.auth (hash_access_code env.sha256 m.access_code)))) [
        | inl e ↦
            rw (e, connect) (cleanup_peer-IsCounted env p _ (send_error-IsCounted env p _ _ s h))
        | inr ((c, caps), e) ↦ rw (e, connect) (open_session-IsCounted _ caps s h)
      ]

  client-IsCounted :
      (remote : Bytes) (upgraded : Option ℕ) (first : Read) (random random_session : Option Bytes)
      (s : Server)
      → IsCounted s
      → IsCounted (handle_client env remote upgraded first random random_session s).0
  unfolding handle_client allow Network.close
  client-IsCounted remote none first random random_session s h = count_error-IsCounted env s h
  client-IsCounted remote (some conn) first random random_session s h =
      elim (Option-cases (connect_message env first)) [
        | inl e ↦ rw (e, handle_client) (record { counted = h.counted })
        | inr (m, e) ↦
            rw (e, handle_client)
              (connect-IsCounted _ m random_session _ (record { counted = h.counted }))
      ]

  step-IsCounted : (s : Server) (i : Input) → IsCounted s → IsCounted (step env s i)
  unfolding step
  step-IsCounted s (tunnel remote upgraded first random) h =
      tunnel-IsCounted remote upgraded first random s h
  step-IsCounted s (client remote upgraded first random random_session) h =
      client-IsCounted remote upgraded first random random_session s h
  step-IsCounted s (read p r) h = read-IsCounted p.role p r s h

  run-IsCounted_from : (s : Server) (is : List Input) → IsCounted s → IsCounted (run env s is)
  unfolding run
  run-IsCounted_from s [] h = h
  run-IsCounted_from s (i ∷ is) h = run-IsCounted_from (step env s i) is (step-IsCounted s i h)

-- After any inputs, and whichever writes fail, the counter of forwarded bytes is the sum of the
-- lengths of the DATA frames that were written, modulo 2^64.
pub run-IsCounted : (env : Env) (is : List Input) → IsCounted (run env new_relay_server is)
unfolding new_relay_server
run-IsCounted env is = run-IsCounted_from env _ is (record { counted = omega arith })
