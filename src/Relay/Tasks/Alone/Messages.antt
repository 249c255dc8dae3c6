-- ===== src/Relay/Tasks/Alone/Messages.antt =====
-- relay/main.go: the handling of a message and the cleanup of a peer, without interruption.
use open_claw_bridge.Common.{
  Bool, true, false, not, ◌&&◌, Option, none, some, List, [], ◌∷◌, if◌then◌else◌, Result, ok, err,
  ◌≡◌, refl, ap, Option-cases, inl, inr,
}
use open_claw_bridge.Text.{Bytes, text_eq}
use open_claw_bridge.GoMap.{Map, get}
use open_claw_bridge.Protocol.Frame.{FrameError, DataFrame, parse_data_frame}
use open_claw_bridge.Protocol.Control.{
  ControlMessage, ControlError, decode_control, type_heartbeat, type_close_session,
}
use open_claw_bridge.Relay.Network
use open_claw_bridge.Relay.Network.{Message, Read, text, binary, received, read_error}
use open_claw_bridge.Relay.Stores.{
  Peer, Session, hub_remove, auth_delete_by_peer, sessions_delete_by_peer, sessions_get,
  sessions_delete,
}
use open_claw_bridge.Relay.Server.{
  Env, Server, send, send_control, send_error, count_error, error_message, close_message,
  close_found, close_session, opposite, forward_to, route_session, route_frame, route_binary,
  notify_removed, cleanup_peer, other_endpoint, handle_control, handle_decoded, handle_message,
}
use open_claw_bridge.Relay.Tasks.{
  Task, done, access, run_alone, error_task, count_task, close_session_task, close_found_task,
  forward_task, route_session_task, route_task, notify_task, cleanup_task, control_message_task,
  decoded_task, message_task,
}

-- What a test chooses, the accesses and the one step choose alike.
pub run-if :
    (b : Bool) (t u go : Task) (s x y : Server)
    → run_alone t s ≡ run_alone go x
    → run_alone u s ≡ run_alone go y
    → run_alone (if b then t else u) s ≡ run_alone go (if b then x else y)
run-if true t u go s x y p q = p
run-if false t u go s x y p q = q

sessions_delete-none :
    (m rest : Map Session) (k : Bytes) → sessions_delete m k ≡ (rest, none) → rest ≡ m
unfolding sessions_delete
sessions_delete-none m rest k e = elim (Option-cases (get m k)) [
  | inl h ↦ cc (rw (h, sessions_delete) at e)
  | inr (x, h) ↦ cc (rw (h, sessions_delete) at e)
]

module _ (env : Env) where
  pub run-error_task :
      (p : Peer) (code message : Bytes) (go : Task) (s : Server)
      → run_alone (error_task env p code message go) s
        ≡ run_alone go (send_error env p code message s)
  unfolding send_error send_control
  run-error_task p code message go s =
      let (s', sent) = send_control env p (error_message code message) s in
      run-if sent go (count_task go) go s' s' (count_error s') refl refl

  pub run-close_session_task :
      (k : Bytes) (go : Task) (s : Server)
      → run_alone (close_session_task env k go) s ≡ run_alone go (close_session env k s)
  unfolding close_session send_control
  run-close_session_task k go s = run-close_found (sessions_delete s.sessions k) refl
    where
      run-close_found :
          (r : Map Session × Option Session)
          → sessions_delete s.sessions k ≡ r
          → run_alone (close_found_task env k r.1 go) (record s { sessions = r.0 })
            ≡ run_alone go (close_found env k r s)
      run-close_found (rest, none) e =
          ap (λ m. run_alone go (record s { sessions = m }))
            (sessions_delete-none s.sessions rest k e)
      run-close_found (rest, some x) e = refl

  pub run-forward_task :
      (sender : Peer) (f k : Bytes) (o : Option Peer) (go : Task) (s : Server)
      → run_alone (forward_task env sender f k o go) s
        ≡ run_alone go (forward_to env sender f k o s)
  run-forward_task sender f k none go s = run-error_task sender _ _ go (count_error s)
  run-forward_task sender f k (some target) go s =
      let (s', sent) = send env target (binary f) s in
      run-if sent _ (count_task (close_session_task env k go)) go s' _
        (close_session env k (count_error s')) refl (run-close_session_task k go (count_error s'))

  pub run-route_session_task :
      (sender : Peer) (f k : Bytes) (o : Option Session) (go : Task) (s : Server)
      → run_alone (route_session_task env sender f k o go) s
        ≡ run_alone go (route_session env sender f k o s)
  run-route_session_task sender f k none go s = run-error_task sender _ _ go (count_error s)
  run-route_session_task sender f k (some x) go s =
      run-forward_task sender f k (opposite sender x) go s

  pub run-route_task :
      (sender : Peer) (f : Bytes) (r : Result FrameError DataFrame) (go : Task) (s : Server)
      → run_alone (route_task env sender f r go) s ≡ run_alone go (route_frame env sender f r s)
  run-route_task sender f (err e) go s = run-error_task sender _ _ go (count_error s)
  run-route_task sender f (ok d) go s =
      run-route_session_task sender f d.session_id (sessions_get s.sessions d.session_id) go s

  pub run-notify_task :
      (p : Peer) (xs : List Session) (go : Task) (s : Server)
      → run_alone (notify_task env p xs go) s ≡ run_alone go (notify_removed env p xs s)
  unfolding notify_removed send_control
  run-notify_task p [] go s = refl
  run-notify_task p (x ∷ xs) go s =
      run-notify_task p xs go (send_control env (other_endpoint p x) (close_message x.id) s).0

  pub run-cleanup_task :
      (p : Peer) (s : Server) → run_alone (cleanup_task env p) s ≡ cleanup_peer env p s
  unfolding cleanup_task cleanup_peer
  run-cleanup_task p s =
      let auth = (auth_delete_by_peer s.auth p).0 in
      let (sessions, removed) = sessions_delete_by_peer s.sessions p in
      run-notify_task p removed
        (access (λ s. record s { hub = hub_remove s.hub p.id })
          (λ _. access (λ s. record s { network = Network.close p.conn s.network }) (λ _. done)))
        (record s { auth = auth; sessions = sessions })

  pub run-control_message_task :
      (p : Peer) (msg : ControlMessage) (go : Task) (s : Server)
      → run_alone (control_message_task env p msg go) s ≡ run_alone go (handle_control env p msg s)
  unfolding handle_control
  run-control_message_task p msg go s =
      run-if (text_eq msg.type type_heartbeat) go _ go s s _ refl (
        run-if (text_eq msg.type type_close_session && not (text_eq msg.session_id []))
          (close_session_task env msg.session_id go) _ go s (close_session env msg.session_id s) _
          (run-close_session_task msg.session_id go s) (run-error_task p _ _ go s))

  pub run-message_task :
      (p : Peer) (m : Message) (go : Task) (s : Server)
      → run_alone (message_task env p m go) s ≡ run_alone go (handle_message env p m s)
  unfolding handle_message route_binary
  run-message_task p (text b) go s = run-decoded (decode_control env.codec b)
    where
      run-decoded :
          (r : Result ControlError ControlMessage)
          → run_alone (decoded_task env p r go) s ≡ run_alone go (handle_decoded env p r s)
      run-decoded (err e) = run-error_task p _ _ go (count_error s)
      run-decoded (ok msg) = run-control_message_task p msg go s
  run-message_task p (binary f) go s = run-route_task p f (parse_data_frame f) go s
