-- ===== src/Relay/Tasks/Passing.antt =====
-- relay/main.go: what holds of the accesses of a goroutine one after the other, in general.
use open_claw_bridge.Common.{
  ℕ, Bool, true, false, not, ◌&&◌, if◌then◌else◌, Option, none, some, List, [], ◌∷◌, Result, ok,
  err, inl, inr, refl, Option-cases, length,
}
use open_claw_bridge.Text.{Bytes, text_eq}
use open_claw_bridge.GoMap.{get}
use open_claw_bridge.Protocol.Frame.{FrameError, DataFrame}
use open_claw_bridge.Protocol.Control.{
  ControlMessage, ControlError, type_heartbeat, type_close_session, Caps,
}
use open_claw_bridge.Relay.Accept.{connect_ok, session_open}
use open_claw_bridge.Relay.Network.{Message, text, binary, close}
use open_claw_bridge.Relay.Stores.{
  Peer, Entry, Session, same_peer, sessions_delete, add_forwarded_bytes,
}
use open_claw_bridge.Relay.Server.{Env, Server, opposite, close_message, count_error}
use open_claw_bridge.Relay.Spec.{stores}
use open_claw_bridge.Relay.Spec.Effects.{KeepsOrCloses, stores-send}
use open_claw_bridge.Relay.Tasks.{
  Task, access, control_task, count_task, error_task, close_found_task, close_session_task,
  forward_task, route_session_task, route_task, notify_task, cleanup_task, control_message_task,
  decoded_task, message_task, close_old_task, close_previous_task, give_up_task, told_task,
  send_task, counted_task,
}

closed-KeepsOrCloses :
    (k : Bytes) (s : Server)
    → KeepsOrCloses (stores s) (stores (record s { sessions = (sessions_delete s.sessions k).0 }))
unfolding sessions_delete
closed-KeepsOrCloses k s = elim (Option-cases (get s.sessions k)) [
  | inl e ↦ rw (e, sessions_delete) (inl refl)
  | inr (x, e) ↦ rw (e, sessions_delete) (inr (k, refl))
]

-- A predicate of tasks that holds in front of each kind of access, if it holds behind it. A write of a
-- DATA frame stands with what it decides: that it is counted, or what follows a failure.
pub record Passes (env : Env) (P : Task → Type 0) : Type 0 where
  pub control_task_lem :
      (p : Peer) (m : ControlMessage) (go : Bool → Task)
      → ((b : Bool) → P (go b))
      → P (control_task env p m go)
  pub count_task_lem : (go : Task) → P go → P (count_task go)
  pub look_lem : (go : Server → Task) → ((s : Server) → P (go s)) → P (access (λ s. s) go)
  pub delete_lem :
      (k : Bytes) (go : Server → Task)
      → ((s : Server) → P (go s))
      → P (access (λ s. record s { sessions = (sessions_delete s.sessions k).0 }) go)
  pub close_lem :
      (conn : ℕ) (go : Task)
      → P go
      → P (access (λ s. record s { network = close conn s.network }) (λ _. go))
  pub frame_lem :
      (t : Peer) (f : Bytes) (go failed : Task)
      → P go
      → P failed
      → P (send_task env t (binary f) (λ sent. if sent then counted_task f go else failed))

pub choice : (P : Task → Type 0) (b : Bool) (t u : Task) → P t → P u → P (if b then t else u)
choice P true t u h g = h
choice P false t u h g = g

-- A predicate that holds in front of any access that keeps the stores or closes a session.
pub stays-Passes :
    (env : Env) (P : Task → Type 0)
    → ((f : Server → Server) (go : Server → Task)
        → ((s : Server) → KeepsOrCloses (stores s) (stores (f s)))
        → ((s : Server) → P (go s))
        → P (access f go))
    → Passes env P
stays-Passes env P stays = record {
  control_task_lem = λ p m go h. stays _ _ (λ s. inl (stores-send env p _ s)) (λ s. h _);
  count_task_lem = λ go h. stays count_error _ (λ s. inl refl) (λ s. h);
  look_lem = λ go h. stays (λ s. s) go (λ s. inl refl) h;
  delete_lem = λ k go h. stays _ go (closed-KeepsOrCloses k) h;
  close_lem = λ conn go h.
      stays (λ s. record s { network = close conn s.network }) _ (λ s. inl refl) (λ s. h);
  frame_lem = λ t f go failed h g.
      stays _ _ (λ s. inl (stores-send env t _ s))
        (λ s.
          choice P _ (counted_task f go) failed
            (stays (λ s. record s { metrics = add_forwarded_bytes (length f) s.metrics }) _
              (λ s. inl refl) (λ s. h))
            g);
}

module _ (env : Env) (P : Task → Type 0) (passes : Passes env P) where
  pub error_task_lem :
      (p : Peer) (code message : Bytes) (go : Task) → P go → P (error_task env p code message go)
  error_task_lem p code message go h =
      passes.control_task_lem p _ _
        (λ sent. choice P sent go (count_task go) h (passes.count_task_lem go h))

  pub close_found_task_lem :
      (k : Bytes) (o : Option Session) (go : Task) → P go → P (close_found_task env k o go)
  close_found_task_lem k none go h = h
  close_found_task_lem k (some x) go h =
      passes.control_task_lem x.client (close_message k) _
        (λ _. passes.control_task_lem x.connector (close_message k) _ (λ _. h))

  pub close_session_task_lem : (k : Bytes) (go : Task) → P go → P (close_session_task env k go)
  close_session_task_lem k go h = passes.delete_lem k _ (λ s. close_found_task_lem k _ go h)

  pub forward_task_lem :
      (p : Peer) (f k : Bytes) (o : Option Peer) (go : Task)
      → P go
      → P (forward_task env p f k o go)
  forward_task_lem p f k none go h = passes.count_task_lem _ (error_task_lem p _ _ go h)
  forward_task_lem p f k (some t) go h =
      passes.frame_lem t f go _ h (passes.count_task_lem _ (close_session_task_lem k go h))

  pub route_session_task_lem :
      (p : Peer) (f k : Bytes) (o : Option Session) (go : Task)
      → P go
      → P (route_session_task env p f k o go)
  route_session_task_lem p f k none go h = passes.count_task_lem _ (error_task_lem p _ _ go h)
  route_session_task_lem p f k (some x) go h = forward_task_lem p f k (opposite p x) go h

  pub route_task_lem :
      (p : Peer) (f : Bytes) (r : Result FrameError DataFrame) (go : Task)
      → P go
      → P (route_task env p f r go)
  route_task_lem p f (err e) go h = passes.count_task_lem _ (error_task_lem p _ _ go h)
  route_task_lem p f (ok d) go h =
      passes.look_lem _ (λ s. route_session_task_lem p f d.session_id _ go h)

  pub notify_task_lem :
      (p : Peer) (xs : List Session) (go : Task) → P go → P (notify_task env p xs go)
  notify_task_lem p [] go h = h
  notify_task_lem p (x ∷ xs) go h = passes.control_task_lem _ _ _ (λ _. notify_task_lem p xs go h)

  pub control_message_task_lem :
      (p : Peer) (m : ControlMessage) (go : Task) → P go → P (control_message_task env p m go)
  control_message_task_lem p m go h = choice P (text_eq m.type type_heartbeat) _ _ h (
      choice P (text_eq m.type type_close_session && not (text_eq m.session_id [])) _ _
        (close_session_task_lem m.session_id go h) (error_task_lem p _ _ go h))

  pub decoded_task_lem :
      (p : Peer) (r : Result ControlError ControlMessage) (go : Task)
      → P go
      → P (decoded_task env p r go)
  decoded_task_lem p (err e) go h = passes.count_task_lem _ (error_task_lem p _ _ go h)
  decoded_task_lem p (ok m) go h = control_message_task_lem p m go h

  pub message_task_lem : (p : Peer) (m : Message) (go : Task) → P go → P (message_task env p m go)
  message_task_lem p (text b) go h = decoded_task_lem p _ go h
  message_task_lem p (binary f) go h = route_task_lem p f _ go h

  pub close_old_task_lem :
      (p : Peer) (o : Option Peer) (go : Task) → P go → P (close_old_task p o go)
  close_old_task_lem p none go h = h
  close_old_task_lem p (some old) go h =
      choice P (same_peer old p) _ _ h (passes.close_lem old.conn go h)

  pub close_previous_task_lem :
      (p : Peer) (o : Option Entry) (go : Task) → P go → P (close_previous_task p o go)
  close_previous_task_lem p none go h = h
  close_previous_task_lem p (some e) go h = close_old_task_lem p e.peer go h

  pub give_up_task_lem : (k : Bytes) (p : Peer) → P (cleanup_task env p) → P (give_up_task env k p)
  give_up_task_lem k p h = passes.count_task_lem _ (close_session_task_lem k _ h)

  pub told_task_lem :
      (x : Session) (caps : Caps) (served : Task)
      → P served
      → P (cleanup_task env x.client)
      → P (told_task env x caps served)
  told_task_lem x caps served h g =
      passes.control_task_lem x.client (connect_ok x.id caps) _ (λ told_client.
        choice P told_client _ _
          (passes.control_task_lem x.connector (session_open x.id x.e2ee) _ (λ told_connector.
            choice P told_connector served _ h (give_up_task_lem x.id x.client g)))
          (give_up_task_lem x.id x.client g))
