-- ===== src/Relay/Spec/Messages.antt =====
-- What a message of a peer, and the end of its connection, do to the stores.
use open_claw_bridge.Common.{
  true, false, not, ◌&&◌, Option, none, some, [], ◌∷◌, Result, ok, err, ◌≡◌, ◌⊎◌, inl, inr, refl,
  ap, ◌∙◌, arith, Bool-cases,
}
use open_claw_bridge.Text.{Bytes, text_eq}
use open_claw_bridge.Text.Laws.{text_eq_iff}
use open_claw_bridge.GoMap.{get}
use open_claw_bridge.Protocol.Frame.{FrameError, DataFrame, parse_data_frame}
use open_claw_bridge.Protocol.Control.{
  ControlMessage, ControlError, decode_control, type_close_session, type_heartbeat,
}
use open_claw_bridge.Relay.Network.{Read, received, read_error, text, binary}
use open_claw_bridge.Relay.Stores.{Peer, Role, Session, role_connector, role_client, sessions_get}
use open_claw_bridge.Relay.Server.{
  Env, Server, send, count_error, opposite, handle_control, handle_decoded, handle_message,
  route_binary, route_frame, route_session, forward_to,
}
use open_claw_bridge.Relay.Accept.{connector_loop, client_loop}
use open_claw_bridge.Relay.Steps.{read, loop_of}
use open_claw_bridge.Relay.Spec.{Stores, stores, close_in}
use open_claw_bridge.Relay.Spec.Effects.{
  stores-send, stores-send_error, stores-close_session, stores-cleanup_peer,
}
use open_claw_bridge.Relay.Spec.Transition.{IsClose, Asks, IsEndpoint, Routes, Transition}

-- A DATA frame.
opposite-IsEndpoint : (p t : Peer) (x : Session) → opposite p x ≡ some t → IsEndpoint p x
unfolding opposite
opposite-IsEndpoint p t x e = ground arith

abbrev ClosesFor : Peer → Bytes → Session → Stores → Stores → Type 0
ClosesFor p k x a b = (b ≡ a) ⊎ (IsEndpoint p x × (b ≡ close_in k a))

forward_to-ClosesFor :
    (env : Env) (p : Peer) (f k : Bytes) (x : Session) (o : Option Peer) (s : Server)
    → opposite p x ≡ o
    → ClosesFor p k x (stores s) (stores (forward_to env p f k o s))
forward_to-ClosesFor env p f k x none s e = inl (stores-send_error env p _ _ (count_error s))
forward_to-ClosesFor env p f k x (some t) s e = elim (Bool-cases (send env t (binary f) s).1) [
  | inl sent ↦ rw sent (inl (stores-send env t (binary f) s))
  | inr lost ↦ rw lost (
      inr (
        opposite-IsEndpoint p t x e,
        stores-close_session env k _ ∙ ap (close_in k) (stores-send env t (binary f) s),
      ))
]

route_session-Routes :
    (env : Env) (p : Peer) (f : Bytes) (d : DataFrame) (o : Option Session) (s : Server)
    → get s.sessions d.session_id ≡ o
    → Routes p (ok d) (stores s) (stores (route_session env p f d.session_id o s))
route_session-Routes env p f d none s e = inl (stores-send_error env p _ _ (count_error s))
route_session-Routes env p f d (some x) s e =
    elim (forward_to-ClosesFor env p f d.session_id x (opposite p x) s refl) [
      | inl same ↦ inl same
      | inr (endpoint, closed) ↦ inr (x, (e, (endpoint, closed)))
    ]

route_frame-Routes :
    (env : Env) (p : Peer) (f : Bytes) (r : Result FrameError DataFrame) (s : Server)
    → Routes p r (stores s) (stores (route_frame env p f r s))
unfolding sessions_get
route_frame-Routes env p f (err e) s = stores-send_error env p _ _ (count_error s)
route_frame-Routes env p f (ok d) s =
    route_session-Routes env p f d (sessions_get s.sessions d.session_id) s refl

-- A control message of a peer.
IsClose-cases :
    (m : ControlMessage)
    → (IsClose m
        × ((text_eq m.type type_heartbeat ≡ false)
            × ((text_eq m.type type_close_session && not (text_eq m.session_id [])) ≡ true)))
      ⊎ ((IsClose m → ⊥)
          × ((text_eq m.type type_close_session && not (text_eq m.session_id [])) ≡ false))
IsClose-cases m = ground (
  arith,
  text_eq_iff m.type type_close_session,
  text_eq_iff m.type type_heartbeat,
  text_eq_iff m.session_id [],
)

handle_control-Asks :
    (env : Env) (p : Peer) (m : ControlMessage) (s : Server)
    → Asks (ok m) (stores s) (stores (handle_control env p m s))
unfolding handle_control
handle_control-Asks env p m s = elim (IsClose-cases m) [
  | inl (h, (awake, e)) ↦
      rw (awake, handle_control) (rw e (inl (h, stores-close_session env m.session_id s)))
  | inr (h, e) ↦ elim (Bool-cases (text_eq m.type type_heartbeat)) [
    | inl beat ↦ rw (beat, handle_control) (inr (h, refl))
    | inr other ↦ rw (other, handle_control) (rw e (inr (h, stores-send_error env p _ _ s)))
  ]
]

handle_decoded-Asks :
    (env : Env) (p : Peer) (r : Result ControlError ControlMessage) (s : Server)
    → Asks r (stores s) (stores (handle_decoded env p r s))
handle_decoded-Asks env p (err e) s = stores-send_error env p _ _ (count_error s)
handle_decoded-Asks env p (ok m) s = handle_control-Asks env p m s

module _ (env : Env) where
  pub read-Transition :
      (role : Role) (p : Peer) (r : Read) (s : Server)
      → Transition env (read p r) (stores s) (stores (loop_of role env p (r ∷ []) s))
  unfolding loop_of connector_loop client_loop handle_message route_binary
  read-Transition role_connector p read_error s = stores-cleanup_peer env p s
  read-Transition role_client p read_error s = stores-cleanup_peer env p s
  read-Transition role_connector p (received (text t)) s =
      handle_decoded-Asks env p (decode_control env.codec t) s
  read-Transition role_client p (received (text t)) s =
      handle_decoded-Asks env p (decode_control env.codec t) s
  read-Transition role_connector p (received (binary f)) s =
      route_frame-Routes env p f (parse_data_frame f) s
  read-Transition role_client p (received (binary f)) s =
      route_frame-Routes env p f (parse_data_frame f) s
