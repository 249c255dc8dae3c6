-- ===== src/Relay/Accounting.antt =====
-- metrics.go: the relay counts exactly the bytes of the DATA frames that it wrote.
pub mod Run
use open_claw_bridge.Common.{
  ℕ, suc, ◌+◌, ◌%◌, ◌^◌, Bool, true, false, not, ◌&&◌, Option, none, some, List, [], ◌∷◌, ◌≡◌, refl,
  sym, ap, ◌∙◌, arith, if◌then◌else◌, Result, ok, err, Bool-cases, Option-cases, inl, inr, length,
}
use open_claw_bridge.Text.{Bytes, codes, text_eq}
use open_claw_bridge.GoMap.{Map}
use open_claw_bridge.Protocol.Frame.{DataFrame, FrameError, parse_data_frame}
use open_claw_bridge.Protocol.Control.{
  ControlMessage, ControlError, Caps, decode_control, type_heartbeat, type_close_session,
}
use open_claw_bridge.Relay.Network
use open_claw_bridge.Relay.Network.{
  Message, Read, Delivery, text, binary, received, read_error, can_write,
}
use open_claw_bridge.Relay.Stores.{
  Peer, Role, role_connector, role_client, Entry, Session, sessions_get, sessions_delete, auth_get,
  auth_set, sessions_delete_by_peer, auth_delete_by_peer, add_forwarded_bytes, inc_error, allow,
}
use open_claw_bridge.Relay.Server.{
  Env, Server, new_relay_server, send, send_control, send_error, count_error, close_session,
  close_found, close_message, opposite, forward_to, route_session, route_frame, route_binary,
  notify_removed, other_endpoint, cleanup_peer, handle_control, handle_decoded, handle_message,
  error_message,
}

-- The bytes of the DATA frames that were written.
abbrev pub data_bytes : List Delivery → ℕ
data_bytes [] = 0
data_bytes (d ∷ ds) = elim d.message [
  | text b ↦ data_bytes ds
  | binary b ↦ length b + data_bytes ds
]

-- The counter is their sum, as far as 64 bits hold it.
pub record IsCounted (s : Server) : Type 0 where
  pub counted : s.metrics.forwarded_bytes ≡ data_bytes s.network.log % 2 ^ 64

module _ (env : Env) where
  send_control-IsCounted :
      (p : Peer) (m : ControlMessage) (s : Server)
      → IsCounted s
      → IsCounted (send_control env p m s).0
  unfolding send_control send Network.write
  send_control-IsCounted p m s h = elim (Bool-cases (can_write env.faults p.conn s.network)) [
    | inl e ↦ rw e (record { counted = h.counted })
    | inr e ↦ rw e (record { counted = h.counted })
  ]

  count_error-IsCounted : (s : Server) → IsCounted s → IsCounted (count_error s)
  unfolding inc_error
  count_error-IsCounted s h = record { counted = h.counted }

  send_error-IsCounted :
      (p : Peer) (code message : Bytes) (s : Server)
      → IsCounted s
      → IsCounted (send_error env p code message s)
  unfolding send_error
  send_error-IsCounted p code message s h =
      let sent = send_control-IsCounted p (error_message code message) s h in
      elim (Bool-cases (send_control env p (error_message code message) s).1) [
        | inl e ↦ rw e sent
        | inr e ↦ rw e (count_error-IsCounted _ sent)
      ]

  close_found-IsCounted :
      (k : Bytes) (r : Map Session × Option Session) (s : Server)
      → IsCounted s
      → IsCounted (close_found env k r s)
  close_found-IsCounted k (rest, none) s h = h
  close_found-IsCounted k (rest, some x) s h =
      send_control-IsCounted x.connector (close_message k) _
        (send_control-IsCounted x.client (close_message k) _ (record { counted = h.counted }))

  close_session-IsCounted :
      (k : Bytes) (s : Server) → IsCounted s → IsCounted (close_session env k s)
  unfolding close_session
  close_session-IsCounted k s h = close_found-IsCounted k (sessions_delete s.sessions k) s h

  -- The one place where a DATA frame is written: it is counted if, and only if, it is.
  forward_to-IsCounted :
      (p : Peer) (f k : Bytes) (o : Option Peer) (s : Server)
      → IsCounted s
      → IsCounted (forward_to env p f k o s)
  unfolding send Network.write add_forwarded_bytes
  forward_to-IsCounted p f k none s h = send_error-IsCounted p _ _ _ (count_error-IsCounted s h)
  forward_to-IsCounted p f k (some t) s h =
      elim (Bool-cases (can_write env.faults t.conn s.network)) [
        | inl e ↦ rw e (record { counted = omega (arith, h.counted) })
        | inr e ↦
            rw e (
              close_session-IsCounted k _
                (count_error-IsCounted _ (record { counted = h.counted })))
      ]

  route_session-IsCounted :
      (p : Peer) (f k : Bytes) (o : Option Session) (s : Server)
      → IsCounted s
      → IsCounted (route_session env p f k o s)
  route_session-IsCounted p f k none s h = send_error-IsCounted p _ _ _ (count_error-IsCounted s h)
  route_session-IsCounted p f k (some x) s h = forward_to-IsCounted p f k (opposite p x) s h

  route_frame-IsCounted :
      (p : Peer) (f : Bytes) (r : Result FrameError DataFrame) (s : Server)
      → IsCounted s
      → IsCounted (route_frame env p f r s)
  route_frame-IsCounted p f (err e) s h = send_error-IsCounted p _ _ _ (count_error-IsCounted s h)
  route_frame-IsCounted p f (ok d) s h =
      route_session-IsCounted p f d.session_id (sessions_get s.sessions d.session_id) s h

  handle_control-IsCounted :
      (p : Peer) (m : ControlMessage) (s : Server)
      → IsCounted s
      → IsCounted (handle_control env p m s)
  unfolding handle_control
  handle_control-IsCounted p m s h = elim (Bool-cases (text_eq m.type type_heartbeat)) [
    | inl beat ↦ rw beat h
    | inr other ↦
        rw other
          (elim (Bool-cases (text_eq m.type type_close_session && not (text_eq m.session_id []))) [
            | inl e ↦ rw e (close_session-IsCounted m.session_id s h)
            | inr e ↦ rw e (send_error-IsCounted p _ _ s h)
          ])
  ]

  handle_decoded-IsCounted :
      (p : Peer) (r : Result ControlError ControlMessage) (s : Server)
      → IsCounted s
      → IsCounted (handle_decoded env p r s)
  handle_decoded-IsCounted p (err e) s h = send_error-IsCounted p _ _ _ (count_error-IsCounted s h)
  handle_decoded-IsCounted p (ok m) s h = handle_control-IsCounted p m s h

  pub handle_message-IsCounted :
      (p : Peer) (m : Message) (s : Server) → IsCounted s → IsCounted (handle_message env p m s)
  unfolding handle_message route_binary
  handle_message-IsCounted p (text b) s h =
      handle_decoded-IsCounted p (decode_control env.codec b) s h
  handle_message-IsCounted p (binary f) s h = route_frame-IsCounted p f (parse_data_frame f) s h

  notify_removed-IsCounted :
      (p : Peer) (xs : List Session) (s : Server)
      → IsCounted s
      → IsCounted (notify_removed env p xs s)
  unfolding notify_removed
  notify_removed-IsCounted p [] s h = h
  notify_removed-IsCounted p (x ∷ xs) s h =
      notify_removed-IsCounted p xs _
        (send_control-IsCounted (other_endpoint p x) (close_message x.id) s h)

  pub cleanup_peer-IsCounted :
      (p : Peer) (s : Server) → IsCounted s → IsCounted (cleanup_peer env p s)
  unfolding cleanup_peer Network.close
  cleanup_peer-IsCounted p s h =
      let s₁ : Server = record s {
        auth = (auth_delete_by_peer s.auth p).0;
        sessions = (sessions_delete_by_peer s.sessions p).0;
      } in
      record {
        counted =
            (notify_removed-IsCounted p (sessions_delete_by_peer s.sessions p).1 s₁
              (record { counted = h.counted })).counted;
      }
