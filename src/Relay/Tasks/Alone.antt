-- ===== src/Relay/Tasks/Alone.antt =====
-- relay/main.go: a goroutine that nothing interrupts does what the handlers do in one step.
mod Messages
use open_claw_bridge.Common.{
  ℕ, suc, Bool, true, false, not, ◌&&◌, Option, none, some, List, [], ◌∷◌, ◌++◌, if◌then◌else◌,
  Result, ok, err, ◌≡◌, refl, sym, ap, ◌∙◌, Bool-cases, Option-cases, inl, inr, length, arith,
}
use open_claw_bridge.Text.{Bytes, codes, text_eq}
use open_claw_bridge.GoMap.{Map, get, delete}
use open_claw_bridge.Protocol.Frame.{FrameError, DataFrame, parse_data_frame}
use open_claw_bridge.Protocol.Control.{
  Caps, ControlMessage, ControlError, decode_control, hash_access_code, type_heartbeat,
  type_close_session,
}
use open_claw_bridge.Relay.Network
use open_claw_bridge.Relay.Network.{Message, Read, text, binary, received, read_error}
use open_claw_bridge.Relay.Stores.{
  Peer, Entry, Session, role_connector, role_client, same_peer, hub_add, hub_remove, auth_set,
  auth_get, auth_delete_by_peer, sessions_delete_by_peer, sessions_set, sessions_get,
  sessions_delete, allow,
}
use open_claw_bridge.Relay.Server.{
  Env, Server, send, send_control, send_error, count_error, error_message, close_message,
  close_found, close_session, opposite, forward_to, route_session, route_frame, route_binary,
  notify_removed, cleanup_peer, other_endpoint, handle_control, handle_decoded, handle_message,
}
use open_claw_bridge.Relay.Accept.{
  Outcome, dropped, rate_limited, upgrade_failed, serving, new_peer, register, close_previous,
  handle_tunnel, handle_client, register_message, connect_message, connect, open_session, online,
  connector_loop, client_loop, connect_ok, session_open, give_up,
}
use open_claw_bridge.Relay.Tasks.{
  Task, done, access, run_alone, control_task, error_task, count_task, close_session_task,
  close_found_task, forward_task, route_session_task, route_task, notify_task, cleanup_task,
  control_message_task, decoded_task, message_task, loop_task, join_task, register_task, entry_for,
  close_previous_task, close_old_task, registered_task, tunnel_task, give_up_task, open_task,
  session_of_connect, found_task, connect_task, connected_task, client_task,
}
use open_claw_bridge.Relay.Tasks.Alone.Messages.{
  run-if, run-error_task, run-close_session_task, run-cleanup_task, run-message_task,
}

module _ (env : Env) where
  run-loop_task :
      (p : Peer) (reads : List Read) (s : Server)
      → run_alone (loop_task env p reads) s ≡ connector_loop env p (reads ++ read_error ∷ []) s
  unfolding loop_task connector_loop
  run-loop_task p [] s = run-cleanup_task env p s
  run-loop_task p (read_error ∷ reads) s = run-cleanup_task env p s
  run-loop_task p (received m ∷ reads) s =
      run-message_task env p m (loop_task env p reads) s
      ∙ run-loop_task p reads (handle_message env p m s)

  loops-same :
      (p : Peer) (reads : List Read) (s : Server)
      → connector_loop env p reads s ≡ client_loop env p reads s
  unfolding connector_loop client_loop
  loops-same p [] s = refl
  loops-same p (read_error ∷ reads) s = refl
  loops-same p (received m ∷ reads) s = loops-same p reads (handle_message env p m s)

  run-register_task :
      (p : Peer) (msg : ControlMessage) (go : Task) (s : Server)
      → run_alone
          (register_task p msg go)
          (record s { hub = hub_add s.hub p; next_addr = suc s.next_addr })
        ≡ run_alone go (register p msg s)
  unfolding register
  run-register_task p msg go s =
      let (auth, previous) = auth_set s.auth msg.access_code_hash (entry_for p msg) in
      run-previous previous
        (record s { hub = hub_add s.hub p; auth = auth; next_addr = suc s.next_addr })
    where
      run-previous :
          (o : Option Entry) (s : Server)
          → run_alone (close_previous_task p o go) s ≡ run_alone go (close_previous p o s)
      run-previous none s = refl
      run-previous (some e) s = elim (Option-cases e.peer) [
        | inl h ↦ rw (h, close_previous) refl
        | inr (old, h) ↦ rw (h, close_previous) (run-if (same_peer old p) go _ go s s _ refl refl)
      ]

-- A handler, with the loop that it ends in.
abbrev pub and_loop : (Peer → Server → Server) → Server × Outcome → Server
and_loop loop (s, serving p) = loop p s
and_loop loop (s, _) = s

module _ (env : Env) (reads : List Read) where
  abbrev pub tunnel_reads : Peer → Server → Server
  tunnel_reads p s = connector_loop env p (reads ++ read_error ∷ []) s

  abbrev pub client_reads : Peer → Server → Server
  client_reads p s = client_loop env p (reads ++ read_error ∷ []) s

  run-client_loop : (p : Peer) (s : Server) → run_alone (loop_task env p reads) s ≡ client_reads p s
  run-client_loop p s = run-loop_task env p reads s ∙ loops-same env p (reads ++ read_error ∷ []) s

  run-registered_task :
      (random : Option Bytes) (conn : ℕ) (first : Read) (o : Option ControlMessage) (s : Server)
      → register_message env first ≡ o
      → run_alone (registered_task env random conn o reads) s
        ≡ and_loop tunnel_reads (handle_tunnel env [] (some conn) first random s)
  unfolding handle_tunnel allow
  run-registered_task random conn first none s e = rw (e, handle_tunnel) refl
  run-registered_task random conn first (some msg) s e =
      let p = new_peer (codes "c_") random role_connector conn s in
      rw (e, handle_tunnel)
        (run-register_task env p msg (loop_task env p reads) s
          ∙ run-loop_task env p reads (register p msg s))

  run-give_up_task :
      (k : Bytes) (p : Peer) (s : Server)
      → run_alone (give_up_task env k p) s ≡ (give_up env k p s).0
  run-give_up_task k p s =
      run-close_session_task env k (cleanup_task env p) (count_error s)
      ∙ run-cleanup_task env p (close_session env k (count_error s))

  -- What a test chooses, up to the loop.
  run-opened :
      (b : Bool) (t u : Task) (s : Server) (x y : Server × Outcome)
      → run_alone t s ≡ and_loop client_reads x
      → run_alone u s ≡ and_loop client_reads y
      → run_alone (if b then t else u) s ≡ and_loop client_reads (if b then x else y)
  run-opened true t u s x y p q = p
  run-opened false t u s x y p q = q

  run-open_task :
      (x : Session) (caps : Caps) (s : Server)
      → run_alone (open_task env x caps (loop_task env x.client reads)) s
        ≡ and_loop client_reads (open_session env x caps s)
  unfolding open_session send_control
  run-open_task x caps s =
      let s₁ : Server = record s { sessions = sessions_set s.sessions x } in
      let (s₂, told_client) = send_control env x.client (connect_ok x.id caps) s₁ in
      let (s₃, told_connector) = send_control env x.connector (session_open x.id x.e2ee) s₂ in
      run-opened told_client _ (give_up_task env x.id x.client) s₂ _ (give_up env x.id x.client s₂)
        (run-opened told_connector (loop_task env x.client reads) (give_up_task env x.id x.client)
          s₃ (s₃, serving x.client) (give_up env x.id x.client s₃) (run-client_loop x.client s₃)
          (run-give_up_task x.id x.client s₃))
        (run-give_up_task x.id x.client s₂)

  run-found_task :
      (p : Peer) (msg : ControlMessage) (random : Option Bytes) (o : Option (Peer × Caps))
      (s : Server)
      → online (auth_get s.auth (hash_access_code env.sha256 msg.access_code)) ≡ o
      → run_alone (found_task env p msg random reads o) s
        ≡ and_loop client_reads (connect env p msg random s)
  unfolding connect
  run-found_task p msg random none s e =
      rw (e, connect) (run-error_task env p _ _ (cleanup_task env p) s ∙ run-cleanup_task env p _)
  run-found_task p msg random (some (connector, caps)) s e =
      rw (e, connect) (run-open_task (session_of_connect p connector msg random) caps s)

  run-connected_task :
      (random random_session : Option Bytes) (conn : ℕ) (first : Read) (o : Option ControlMessage)
      (s : Server)
      → connect_message env first ≡ o
      → run_alone (connected_task env random random_session conn o reads) s
        ≡ and_loop client_reads (handle_client env [] (some conn) first random random_session s)
  unfolding handle_client allow
  run-connected_task random random_session conn first none s e = rw (e, handle_client) refl
  run-connected_task random random_session conn first (some msg) s e =
      let p = new_peer (codes "u_") random role_client conn s in
      let s₁ : Server = record s { hub = hub_add s.hub p; next_addr = suc s.next_addr } in
      rw (e, handle_client)
        (run-found_task p msg random_session
          (online (auth_get s₁.auth (hash_access_code env.sha256 msg.access_code))) s₁ refl)

  -- A goroutine of the relay that runs to its end without another in between leaves the server as
  -- handleTunnel or handleClient does in one step, with the read loop behind it.
  pub run_alone_lem :
      (remote_addr : Bytes) (upgraded : Option ℕ) (first : Read)
      (random random_session : Option Bytes) (s : Server)
      → (run_alone (tunnel_task env remote_addr upgraded first random reads) s
          ≡ and_loop tunnel_reads (handle_tunnel env remote_addr upgraded first random s))
        × (run_alone (client_task env remote_addr upgraded first random random_session reads) s
            ≡ and_loop client_reads
                (handle_client env remote_addr upgraded first random random_session s))
  unfolding tunnel_task client_task handle_tunnel handle_client allow
  run_alone_lem remote_addr none first random random_session s = (refl, refl)
  run_alone_lem remote_addr (some conn) first random random_session s = (
    run-registered_task random conn first (register_message env first) s refl,
    run-connected_task random random_session conn first (connect_message env first) s refl,
  )
