-- ===== src/Relay/Opening.antt =====
-- handleClient and handleTunnel of relay/main.go: a session opens whole or not at all, and a
-- connector that registers again takes over.
use open_claw_bridge.Common.{true, none, some, ◌≡◌, ◌⊎◌, inl, inr, refl, ap, ◌∙◌, Bool-cases}
use open_claw_bridge.Text.Laws.{text_eq_refl}
use open_claw_bridge.GoMap.{get, put}
use open_claw_bridge.GoMap.Laws.{get-delete, get-put, get-delete_where_absent}
use open_claw_bridge.Protocol.Control.{ControlMessage, Caps, encode_control}
use open_claw_bridge.Relay.Network
use open_claw_bridge.Relay.Network.{Network, Read, Message, text, binary, can_write, elem}
use open_claw_bridge.Relay.Stores.{Peer, Session, sessions_get, sessions_set, hub_get, session_of}
use open_claw_bridge.Relay.Server.{
  Env, Server, send, send_control, count_error, close_session, cleanup_peer,
}
use open_claw_bridge.Relay.Accept.{
  Outcome, dropped, serving, connect_ok, session_open, give_up, open_session,
}
use open_claw_bridge.Relay.Spec.{Stores, stores, close_in, leave}
use open_claw_bridge.Relay.Spec.Effects.{
  stores-send_control, stores-close_session, stores-cleanup_peer,
}
use open_claw_bridge.Relay.Routing.{deliver}

abbrev pub ok_text : Env → Session → Caps → Message
ok_text env x caps = text (encode_control env.codec (connect_ok x.id caps))

abbrev pub open_text : Env → Session → Message
open_text env x = text (encode_control env.codec (session_open x.id x.e2ee))

-- The client gets CONNECT_OK first, and then the connector SESSION_OPEN.
abbrev pub announced : Env → Session → Caps → Network → Network
announced env x caps n =
    deliver x.connector (open_text env x) (deliver x.client (ok_text env x caps) n)

-- The session is stored, both ends are told and the client is served; or there is no such session,
-- the client is dropped, and it is not in the hub.
abbrev pub IsWhole : Env → Session → Caps → Server → Server × Outcome → Type 0
IsWhole env x caps s (s', o) =
    ((o ≡ serving x.client)
      × (sessions_get s'.sessions x.id ≡ some x)
      × (s'.network ≡ announced env x caps s.network))
    ⊎ ((o ≡ dropped) × (sessions_get s'.sessions x.id ≡ none) × (hub_get s'.hub x.client.id ≡ none))

sent :
    (env : Env) (p : Peer) (m : ControlMessage) (s : Server)
    → (send_control env p m s).1 ≡ true
    → (send_control env p m s).0.network ≡ deliver p (text (encode_control env.codec m)) s.network
unfolding send_control send Network.write
sent env p m s h = elim (Bool-cases (can_write env.faults p.conn s.network)) [
  | inl e ↦ rw e refl
  | inr e ↦ cc (rw e at h)
]

give_up-IsWhole :
    (env : Env) (x : Session) (caps : Caps) (s₀ s : Server)
    → IsWhole env x caps s₀ (give_up env x.id x.client s)
unfolding sessions_get hub_get
give_up-IsWhole env x caps s₀ s =
    let s₁ : Server = close_session env x.id (count_error s) in
    let closed : stores s₁ ≡ close_in x.id (stores s) =
      stores-close_session env x.id (count_error s) in
    let e : stores (cleanup_peer env x.client s₁) ≡ leave x.client (close_in x.id (stores s)) =
      stores-cleanup_peer env x.client s₁ ∙ ap (leave x.client) closed in
    inr (
      refl,
      ap (λ (a : Stores). get a.sessions x.id) e
          ∙ get-delete_where_absent (session_of x.client) _ x.id
              (get-delete s.sessions x.id x.id ∙ rw (text_eq_refl x.id) refl),
      ap (λ (a : Stores). get a.hub x.client.id) e
          ∙ get-delete s.hub x.client.id x.client.id
          ∙ rw (text_eq_refl x.client.id) refl,
    )

-- Whichever of its writes fail, a session opens whole or not at all.
pub open_session-IsWhole :
    (env : Env) (x : Session) (caps : Caps) (s : Server)
    → IsWhole env x caps s (open_session env x caps s)
unfolding open_session sessions_set
open_session-IsWhole env x caps s =
    let s₁ : Server = record s { sessions = put s.sessions x.id x } in
    let s₂ : Server = (send_control env x.client (connect_ok x.id caps) s₁).0 in
    let s₃ : Server = (send_control env x.connector (session_open x.id x.e2ee) s₂).0 in
    let e₃ : stores s₃ ≡ stores s₁ =
      stores-send_control env x.connector (session_open x.id x.e2ee) s₂
      ∙ stores-send_control env x.client (connect_ok x.id caps) s₁ in
    let stored : sessions_get s₃.sessions x.id ≡ some x =
      ap (λ (a : Stores). sessions_get a.sessions x.id) e₃
      ∙ unfold sessions_get in (get-put s.sessions x.id x.id x ∙ rw (text_eq_refl x.id) refl) in
    elim (Bool-cases (send_control env x.client (connect_ok x.id caps) s₁).1) [
      | inl told ↦
          rw told
            (elim (Bool-cases (send_control env x.connector (session_open x.id x.e2ee) s₂).1) [
              | inl too ↦ rw too (
                  inl (
                    refl,
                    stored,
                    sent env x.connector (session_open x.id x.e2ee) s₂ too
                        ∙ ap (deliver x.connector (open_text env x))
                            (sent env x.client (connect_ok x.id caps) s₁ told),
                  ))
              | inr lost ↦ rw lost (give_up-IsWhole env x caps s s₃)
            ])
      | inr lost ↦ rw lost (give_up-IsWhole env x caps s s₂)
    ]

-- Where both connections take the write, the session opens, and nothing but CONNECT_OK and
-- SESSION_OPEN is written.
pub open_session_tells :
    (env : Env) (x : Session) (caps : Caps) (s : Server)
    → can_write env.faults x.client.conn s.network ≡ true
    → can_write env.faults x.connector.conn (deliver x.client (ok_text env x caps) s.network) ≡ true
    → ((open_session env x caps s).1 ≡ serving x.client)
      × ((open_session env x caps s).0.network ≡ announced env x caps s.network)
unfolding open_session sessions_set send_control send Network.write
open_session_tells env x caps s client_open connector_open =
    rw client_open (rw connector_open (refl, refl))
