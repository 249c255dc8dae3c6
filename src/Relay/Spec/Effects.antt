-- ===== src/Relay/Spec/Effects.antt =====
-- What each handler of relay/main.go does to the stores.
use open_claw_bridge.Common.{
  Bool, not, ◌&&◌, Option, none, some, List, [], ◌∷◌, ◌≡◌, ◌⊎◌, inl, inr, refl, ap, ◌∙◌, arith,
  Result, ok, err, Bool-cases, Option-cases,
}
use open_claw_bridge.Text.{Bytes, text_eq}
use open_claw_bridge.GoMap.{Map, get, delete}
use open_claw_bridge.Protocol.Frame.{DataFrame, FrameError, parse_data_frame}
use open_claw_bridge.Protocol.Control.{
  ControlMessage, ControlError, decode_control, type_heartbeat, type_close_session,
}
use open_claw_bridge.Relay.Network.{Message, text, binary}
use open_claw_bridge.Relay.Stores.{
  Peer, Session, sessions_get, sessions_delete, auth_delete_by_peer, sessions_delete_by_peer,
  hub_remove,
}
use open_claw_bridge.Relay.Server.{
  Env, Server, send, send_control, send_error, error_message, count_error, close_session, opposite,
  route_frame, route_session, forward_to, route_binary, notify_removed, cleanup_peer,
  handle_control, handle_decoded, handle_message,
}
use open_claw_bridge.Relay.Spec.{Stores, stores, close_in, leave}

pub stores-send :
    (env : Env) (p : Peer) (m : Message) (s : Server) → stores (send env p m s).0 ≡ stores s
unfolding send
stores-send env p m s = refl

pub stores-send_control :
    (env : Env) (p : Peer) (m : ControlMessage) (s : Server)
    → stores (send_control env p m s).0 ≡ stores s
unfolding send_control send
stores-send_control env p m s = refl

pub stores-send_error :
    (env : Env) (p : Peer) (code message : Bytes) (s : Server)
    → stores (send_error env p code message s) ≡ stores s
unfolding send_error send_control send
stores-send_error env p code message s =
    elim (Bool-cases (send_control env p (error_message code message) s).1) [
      | inl e ↦ rw e refl
      | inr e ↦ rw e refl
    ]

pub delete_absent : {V : Type 0} (m : Map V) (k : Bytes) → get m k ≡ none → delete m k ≡ m
unfolding get delete
delete_absent [] k e = refl
delete_absent ((j, v) ∷ m) k e = ground (arith, delete_absent m k)

-- Closing a session deletes it from the store, and changes no other store.
pub stores-close_session :
    (env : Env) (k : Bytes) (s : Server) → stores (close_session env k s) ≡ close_in k (stores s)
unfolding close_session sessions_delete send_control send
stores-close_session env k s = elim (Option-cases (get s.sessions k)) [
  | inl e ↦ rw (e, close_session, sessions_delete) (rw (delete_absent s.sessions k e) refl)
  | inr (x, e) ↦ rw (e, close_session, sessions_delete) refl
]

-- A message to a session leaves the stores alone, or closes the session.
abbrev pub KeepsOrCloses : Stores → Stores → Type 0
KeepsOrCloses a b = (b ≡ a) ⊎ ((k : Bytes) × (b ≡ close_in k a))

forward_to-stores :
    (env : Env) (p : Peer) (f k : Bytes) (o : Option Peer) (s : Server)
    → KeepsOrCloses (stores s) (stores (forward_to env p f k o s))
forward_to-stores env p f k none s = inl (stores-send_error env p _ _ (count_error s))
forward_to-stores env p f k (some t) s = elim (Bool-cases (send env t (binary f) s).1) [
  | inl e ↦ rw e (inl (stores-send env t (binary f) s))
  | inr e ↦
      rw e
        (inr (k, stores-close_session env k _ ∙ ap (close_in k) (stores-send env t (binary f) s)))
]

route_session-stores :
    (env : Env) (p : Peer) (f k : Bytes) (o : Option Session) (s : Server)
    → KeepsOrCloses (stores s) (stores (route_session env p f k o s))
route_session-stores env p f k none s = inl (stores-send_error env p _ _ (count_error s))
route_session-stores env p f k (some x) s = forward_to-stores env p f k (opposite p x) s

route_frame-stores :
    (env : Env) (p : Peer) (f : Bytes) (r : Result FrameError DataFrame) (s : Server)
    → KeepsOrCloses (stores s) (stores (route_frame env p f r s))
route_frame-stores env p f (err e) s = inl (stores-send_error env p _ _ (count_error s))
route_frame-stores env p f (ok d) s =
    route_session-stores env p f d.session_id (sessions_get s.sessions d.session_id) s

-- The test of handleControl for a request to close a session.
abbrev is_close : ControlMessage → Bool
is_close m = text_eq m.type type_close_session && not (text_eq m.session_id [])

handle_control-stores :
    (env : Env) (p : Peer) (m : ControlMessage) (s : Server)
    → KeepsOrCloses (stores s) (stores (handle_control env p m s))
unfolding handle_control
handle_control-stores env p m s = elim (Bool-cases (text_eq m.type type_heartbeat)) [
  | inl beat ↦ rw beat (inl refl)
  | inr other ↦ rw other (elim (Bool-cases (is_close m)) [
    | inl e ↦ rw e (inr (m.session_id, stores-close_session env m.session_id s))
    | inr e ↦ rw e (inl (stores-send_error env p _ _ s))
  ])
]

handle_decoded-stores :
    (env : Env) (p : Peer) (r : Result ControlError ControlMessage) (s : Server)
    → KeepsOrCloses (stores s) (stores (handle_decoded env p r s))
handle_decoded-stores env p (err e) s = inl (stores-send_error env p _ _ (count_error s))
handle_decoded-stores env p (ok m) s = handle_control-stores env p m s

pub handle_message-stores :
    (env : Env) (p : Peer) (m : Message) (s : Server)
    → KeepsOrCloses (stores s) (stores (handle_message env p m s))
unfolding handle_message route_binary
handle_message-stores env p (text b) s = handle_decoded-stores env p (decode_control env.codec b) s
handle_message-stores env p (binary f) s = route_frame-stores env p f (parse_data_frame f) s

-- The stores after a peer's cleanup.
notify_removed-stores :
    (env : Env) (p : Peer) (xs : List Session) (s : Server)
    → stores (notify_removed env p xs s) ≡ stores s
unfolding notify_removed send_control send
notify_removed-stores env p [] s = refl
notify_removed-stores env p (x ∷ xs) s = notify_removed-stores env p xs _

pub stores-cleanup_peer :
    (env : Env) (p : Peer) (s : Server) → stores (cleanup_peer env p s) ≡ leave p (stores s)
unfolding cleanup_peer auth_delete_by_peer sessions_delete_by_peer hub_remove
stores-cleanup_peer env p s =
    let removed : List Session = (sessions_delete_by_peer s.sessions p).1 in
    let s₁ : Server = record s {
      auth = (auth_delete_by_peer s.auth p).0;
      sessions = (sessions_delete_by_peer s.sessions p).0;
    } in
    let same : stores (notify_removed env p removed s₁) ≡ stores s₁ =
      notify_removed-stores env p removed s₁ in
    ap (λ (a : Stores). record a { hub = delete a.hub p.id }) same
