-- ===== src/Relay/Closing.antt =====
-- closeSession and handleControl of relay/main.go.
use open_claw_bridge.Common.{
  true, false, not, ◌&&◌, none, some, [], ◌≡◌, ◌≢◌, refl, ap, ◌∙◌, arith, if◌then◌else◌, ok,
}
use open_claw_bridge.Text.{Bytes, text_eq}
use open_claw_bridge.Text.Laws.{text_eq_iff, text_eq_refl}
use open_claw_bridge.GoMap.{get}
use open_claw_bridge.GoMap.Laws.{get-delete}
use open_claw_bridge.Protocol.Control.{
  ControlMessage, encode_control, decode_control, type_close_session, type_heartbeat,
}
use open_claw_bridge.Relay.Network
use open_claw_bridge.Relay.Network.{Message, Delivery, Network, text, binary, can_write}
use open_claw_bridge.Relay.Stores.{Peer, Session, sessions_get, sessions_delete, session_of}
use open_claw_bridge.Relay.Server.{
  Env, Server, send, send_control, close_session, close_message, handle_control, handle_message,
}
use open_claw_bridge.Relay.Spec.{Stores}
use open_claw_bridge.Relay.Spec.Effects.{stores-close_session}
use open_claw_bridge.Relay.Routing.{deliver}

-- Closing removes the session with this id and no other.
pub get-close_session :
    (env : Env) (k j : Bytes) (s : Server)
    → sessions_get (close_session env k s).sessions j
      ≡ (if text_eq k j then none else sessions_get s.sessions j)
unfolding sessions_get
get-close_session env k j s =
    ap (λ (a : Stores). get a.sessions j) (stores-close_session env k s) ∙ get-delete s.sessions k j

-- Where there is no such session, closing changes nothing at all.
close_absent :
    (env : Env) (k : Bytes) (s : Server)
    → sessions_get s.sessions k ≡ none
    → close_session env k s ≡ s
unfolding close_session sessions_delete sessions_get
close_absent env k s e = rw (e, close_session, sessions_delete) refl

-- To close a session twice is to close it once: nobody is told a second time.
pub close_session_idem :
    (env : Env) (k : Bytes) (s : Server)
    → close_session env k (close_session env k s) ≡ close_session env k s
close_session_idem env k s =
    close_absent env k (close_session env k s)
      (get-close_session env k k s ∙ rw (text_eq_refl k) refl)

abbrev pub close_text : Env → Bytes → Message
close_text env k = text (encode_control env.codec (close_message k))

-- Both endpoints are told, the client first, if their connections take the write.
pub close_session_tells :
    (env : Env) (k : Bytes) (x : Session) (s : Server)
    → sessions_get s.sessions k ≡ some x
    → can_write env.faults x.client.conn s.network ≡ true
    → can_write env.faults x.connector.conn (deliver x.client (close_text env k) s.network) ≡ true
    → (close_session env k s).network
      ≡ deliver x.connector (close_text env k) (deliver x.client (close_text env k) s.network)
unfolding close_session sessions_delete sessions_get send_control send Network.write
close_session_tells env k x s found client_open connector_open =
    rw (found, close_session, sessions_delete) (rw client_open (rw connector_open refl))

-- A request to close is served whoever asks: the session is gone also if the sender is no endpoint
-- of it.
pub stranger_closes :
    (env : Env) (stranger : Peer) (b : Bytes) (m : ControlMessage) (x : Session) (s : Server)
    → decode_control env.codec b ≡ ok m
    → m.type ≡ type_close_session
    → m.session_id ≢ []
    → sessions_get s.sessions m.session_id ≡ some x
    → session_of stranger x ≡ false
    → sessions_get (handle_message env stranger (text b) s).sessions m.session_id ≡ none
unfolding handle_message handle_control
stranger_closes env p b m x s decoded asks named found outside =
    rw (decoded, handle_message)
      (rw (beat, close)
        (get-close_session env m.session_id m.session_id s ∙ rw (text_eq_refl m.session_id) refl))
  where
    beat : text_eq m.type type_heartbeat ≡ false
    beat = rw asks (unfold text_eq in refl)

    close : (text_eq m.type type_close_session && not (text_eq m.session_id [])) ≡ true
    close = ground (arith, text_eq_iff m.type type_close_session, text_eq_iff m.session_id [])
