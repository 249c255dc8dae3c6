-- ===== src/Relay/Spec/Accepting.antt =====
-- What a new connection does to the stores, up to its read loop.
use open_claw_bridge.Common.{
  ℕ, Option, none, some, [], Result, ok, err, ◌≡◌, ◌⊎◌, inl, inr, refl, ap, subst, ◌∙◌, arith,
  Bool-cases, Option-cases,
}
use open_claw_bridge.Text.{Bytes, codes}
use open_claw_bridge.Text.Laws.{text_eq_iff}
use open_claw_bridge.GoMap.{get, put}
use open_claw_bridge.Protocol.Control.{
  ControlMessage, ControlError, Caps, decode_control, hash_access_code, type_register, type_connect,
}
use open_claw_bridge.Relay.Network.{Read, received, read_error, text, binary}
use open_claw_bridge.Relay.Stores.{
  Peer, Entry, Session, role_connector, role_client, allow, hub_add, auth_get, sessions_set,
}
use open_claw_bridge.Relay.Server.{Env, Server, send_control, count_error}
use open_claw_bridge.Relay.Accept.{
  new_peer, register_message, handle_tunnel, connect_message, connect_ok, session_open, give_up,
  open_session, online, connect, handle_client,
}
use open_claw_bridge.Relay.Spec.{Stores, stores, join, open_in, close_in, leave}
use open_claw_bridge.Relay.Spec.Effects.{
  stores-send_control, stores-send_error, stores-close_session, stores-cleanup_peer,
}
use open_claw_bridge.Relay.Spec.Refinement.{register-stores}
use open_claw_bridge.Relay.Spec.Transition.{
  control_result, peer_at, IsRegister, enrolled, Registers, IsConnect, registered_peer,
  session_between, Pairs, Connects,
}

module _ (env : Env) where
  -- A new connector.
  register_message-cases :
      (t : Bytes) (m : ControlMessage)
      → decode_control env.codec t ≡ ok m
      → (IsRegister m × (register_message env (received (text t)) ≡ some m))
        ⊎ ((IsRegister m → ⊥) × (register_message env (received (text t)) ≡ none))
  unfolding register_message
  register_message-cases t m e =
      rw (e, register_message)
        (ground (arith, text_eq_iff m.type type_register, text_eq_iff m.access_code_hash []))

  register_message-bad :
      (t : Bytes) (x : ControlError)
      → decode_control env.codec t ≡ err x
      → register_message env (received (text t)) ≡ none
  unfolding register_message
  register_message-bad t x e = rw (e, register_message) refl

  module _ (remote : Bytes) (conn : ℕ) (random : Option Bytes) (s : Server) where
    abbrev pub tunnel_stores : Read → Stores
    tunnel_stores first = stores (handle_tunnel env remote (some conn) first random s).0

    tunnel-refused :
        (first : Read) → register_message env first ≡ none → tunnel_stores first ≡ stores s
    unfolding handle_tunnel allow
    tunnel-refused first e = rw (e, handle_tunnel) refl

    tunnel-enrolled :
        (first : Read) (m : ControlMessage)
        → register_message env first ≡ some m
        → tunnel_stores first
          ≡ enrolled (peer_at (codes "c_") random role_connector conn (stores s)) m (stores s)
    unfolding handle_tunnel allow
    tunnel-enrolled first m e =
        rw (e, handle_tunnel)
          (register-stores (new_peer (codes "c_") random role_connector conn s) m s)

    decoded-Registers :
        (t : Bytes) (r : Result ControlError ControlMessage)
        → decode_control env.codec t ≡ r
        → Registers conn random (some r) (stores s) (tunnel_stores (received (text t)))
    decoded-Registers t (err x) e = tunnel-refused (received (text t)) (register_message-bad t x e)
    decoded-Registers t (ok m) e = elim (register_message-cases t m e) [
      | inl (h, is) ↦ inl (h, tunnel-enrolled (received (text t)) m is)
      | inr (h, is) ↦ inr (h, tunnel-refused (received (text t)) is)
    ]

    pub tunnel-Registers :
        (first : Read)
        → Registers conn random (control_result env first) (stores s) (tunnel_stores first)
    unfolding register_message
    tunnel-Registers read_error = tunnel-refused read_error refl
    tunnel-Registers (received (binary b)) = tunnel-refused (received (binary b)) refl
    tunnel-Registers (received (text t)) = decoded-Registers t (decode_control env.codec t) refl

  -- A new client.
  connect_message-cases :
      (t : Bytes) (m : ControlMessage)
      → decode_control env.codec t ≡ ok m
      → (IsConnect m × (connect_message env (received (text t)) ≡ some m))
        ⊎ ((IsConnect m → ⊥) × (connect_message env (received (text t)) ≡ none))
  unfolding connect_message
  connect_message-cases t m e =
      rw (e, connect_message)
        (ground (arith, text_eq_iff m.type type_connect, text_eq_iff m.access_code []))

  connect_message-bad :
      (t : Bytes) (x : ControlError)
      → decode_control env.codec t ≡ err x
      → connect_message env (received (text t)) ≡ none
  unfolding connect_message
  connect_message-bad t x e = rw (e, connect_message) refl

  online-cases :
      (o : Option Entry)
      → ((online o ≡ none) × (registered_peer o ≡ none))
        ⊎ ((c : Peer) × ((caps : Caps) × ((online o ≡ some (c, caps))
                × (registered_peer o ≡ some c))))
  unfolding online
  online-cases none = inl (refl, refl)
  online-cases (some e) = elim (Option-cases e.peer) [
    | inl n ↦ inl (rw (n, online) refl, n)
    | inr (c, n) ↦ inr (c, (e.caps, (rw (n, online) refl, n)))
  ]

  -- What opening a session leaves, from the stores before.
  abbrev Opens : Session → Stores → Stores → Type 0
  Opens x a b = (b ≡ open_in x a) ⊎ (b ≡ leave x.client (close_in x.id (open_in x a)))

  give_up-Opens :
      (x : Session) (a : Stores) (s : Server)
      → stores s ≡ open_in x a
      → Opens x a (stores (give_up env x.id x.client s).0)
  give_up-Opens x a s e = inr (
      stores-cleanup_peer env x.client _
      ∙ ap (leave x.client) (stores-close_session env x.id (count_error s) ∙ ap (close_in x.id) e))

  open_session-Opens :
      (x : Session) (caps : Caps) (s : Server)
      → Opens x (stores s) (stores (open_session env x caps s).0)
  unfolding open_session sessions_set
  open_session-Opens x caps s =
      let s₁ : Server = record s { sessions = put s.sessions x.id x } in
      let s₂ : Server = (send_control env x.client (connect_ok x.id caps) s₁).0 in
      let s₃ : Server = (send_control env x.connector (session_open x.id x.e2ee) s₂).0 in
      let e₂ : stores s₂ ≡ open_in x (stores s) =
        stores-send_control env x.client (connect_ok x.id caps) s₁ in
      let e₃ : stores s₃ ≡ open_in x (stores s) =
        stores-send_control env x.connector (session_open x.id x.e2ee) s₂ ∙ e₂ in
      elim (Bool-cases (send_control env x.client (connect_ok x.id caps) s₁).1) [
        | inl told ↦
            rw told
              (elim (Bool-cases (send_control env x.connector (session_open x.id x.e2ee) s₂).1) [
                | inl too ↦ rw too (inl e₃)
                | inr lost ↦ rw lost (give_up-Opens x (stores s) s₃ e₃)
              ])
        | inr lost ↦ rw lost (give_up-Opens x (stores s) s₂ e₂)
      ]

  connect-Pairs :
      (p : Peer) (m : ControlMessage) (random : Option Bytes) (a : Stores) (s : Server)
      → stores s ≡ join p a
      → Pairs p m random
          (registered_peer (get s.auth (hash_access_code env.sha256 m.access_code)))
          a
          (stores (connect env p m random s).0)
  unfolding connect auth_get
  connect-Pairs p m random a s e =
      elim (online-cases (get s.auth (hash_access_code env.sha256 m.access_code))) [
        | inl (none_online, n) ↦
            rw (none_online, connect)
              (rw n
                (stores-cleanup_peer env p _ ∙ ap (leave p) (stores-send_error env p _ _ s ∙ e)))
        | inr (c, (caps, (is_online, n))) ↦
            rw (is_online, connect)
              (rw n (
                subst
                  (λ z.
                    Opens (session_between p c m random) z
                      (stores (open_session env (session_between p c m random) caps s).0))
                  e (open_session-Opens (session_between p c m random) caps s)))
      ]

  module _ (remote : Bytes) (conn : ℕ) (random random_session : Option Bytes) (s : Server) where
    abbrev pub client_stores : Read → Stores
    client_stores first =
        stores (handle_client env remote (some conn) first random random_session s).0

    client-refused :
        (first : Read) → connect_message env first ≡ none → client_stores first ≡ stores s
    unfolding handle_client allow
    client-refused first e = rw (e, handle_client) refl

    client-Pairs :
        (first : Read) (m : ControlMessage)
        → connect_message env first ≡ some m
        → Pairs
            (peer_at (codes "u_") random role_client conn (stores s))
            m
            random_session
            (registered_peer (get s.auth (hash_access_code env.sha256 m.access_code)))
            (stores s)
            (client_stores first)
    unfolding handle_client allow hub_add
    client-Pairs first m e =
        rw (e, handle_client)
          (connect-Pairs (new_peer (codes "u_") random role_client conn s) m random_session
            (stores s) _ refl)

    decoded-Connects :
        (t : Bytes) (r : Result ControlError ControlMessage)
        → decode_control env.codec t ≡ r
        → Connects env conn random random_session
            (some r)
            (stores s)
            (client_stores (received (text t)))
    decoded-Connects t (err x) e = client-refused (received (text t)) (connect_message-bad t x e)
    decoded-Connects t (ok m) e = elim (connect_message-cases t m e) [
      | inl (h, is) ↦ inl (h, client-Pairs (received (text t)) m is)
      | inr (h, is) ↦ inr (h, client-refused (received (text t)) is)
    ]

    pub client-Connects :
        (first : Read)
        → Connects env conn random random_session
            (control_result env first)
            (stores s)
            (client_stores first)
    unfolding connect_message
    client-Connects read_error = client-refused read_error refl
    client-Connects (received (binary b)) = client-refused (received (binary b)) refl
    client-Connects (received (text t)) = decoded-Connects t (decode_control env.codec t) refl
