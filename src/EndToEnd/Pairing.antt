-- ===== src/EndToEnd/Pairing.antt =====
-- The opening of a session: connectSession of cli/main.go, handleClient of relay/main.go and the control
-- callback of connector/main.go.
use open_claw_bridge.Common.{
  ℕ, suc, Bool, true, false, ◌||◌, Option, none, some, [], ◌∷◌, ok, err, ◌≡◌, ◌≢◌, refl, sym, subst,
  ap, ◌∙◌, if◌then◌else◌, inl, inr,
}
use open_claw_bridge.Text.{Bytes, codes, text_eq}
use open_claw_bridge.Text.Laws.{text_eq_refl, text_eq_of_ne}
use open_claw_bridge.Json.{Codec, Reads, ReadsInt}
use open_claw_bridge.Protocol.Control.{
  Caps, ControlMessage, or_version, decode_control, encode_control, write_control, hash_access_code,
}
use open_claw_bridge.Protocol.Control.Laws.{versioned, decode_control-encode_control}
use open_claw_bridge.Relay.Network.{text, received}
use open_claw_bridge.Relay.Stores.{
  Peer, Session, role_client, auth_get, hub_add, allow, sessions_get,
}
use open_claw_bridge.Relay.Server.{Env, Server}
use open_claw_bridge.Relay.Accept.{
  Outcome, serving, new_peer, new_id, connect_ok, session_open, open_session, online, connect,
  handle_client, connect_message,
}
use open_claw_bridge.Relay.Opening.{
  ok_text, open_text, announced, IsWhole, open_session-IsWhole, open_session_tells,
}
use open_claw_bridge.Connector.RelayClient.{LinkEnv, incoming}
use open_claw_bridge.Connector.Wiring.{Connector, relay_activity, connector_step}
use open_claw_bridge.Connector.Wiring.Sessions.{
  is_open, after_input, control_read, connector_step-is_open,
}
use open_claw_bridge.Cli.Connect
use open_claw_bridge.Cli.Connect.{
  Attempt, Opening, opened, connect_session, connect_request, connect_reply, wait_connect_ok,
}
use open_claw_bridge.EndToEnd.RoundTrip.{NoFaultsIn, IsUp, can_write_up}

-- The codec reads back what it prints for a control message and its two numbers.
abbrev pub ReadsControl : Codec → ControlMessage → Type 0
ReadsControl c m =
    Reads c (write_control c (versioned m)) × ReadsInt c (or_version m.v) × ReadsInt c m.generation

control_read_back :
    (c : Codec) (m : ControlMessage)
    → m.type ≢ []
    → ReadsControl c m
    → decode_control c (encode_control c m) ≡ ok (versioned m)
control_read_back c m typed (reads, v, generation) =
    decode_control-encode_control c m typed reads v generation

new_id-nonempty : (random : Option Bytes) → new_id (codes "s_") random ≢ []
unfolding new_id
new_id-nonempty none h = cc
new_id-nonempty (some b) h = cc

-- CONNECT_OK opens the session at the client.
connect_ok_opens :
    (c : Codec) (sid : Bytes) (caps : Caps)
    → sid ≢ []
    → ReadsControl c (connect_ok sid caps)
    → wait_connect_ok c (received (text (encode_control c (connect_ok sid caps))) ∷ [])
      ≡ opened sid []
unfolding wait_connect_ok connect_reply text_eq
connect_ok_opens c sid caps named h =
    ap (λ r. Connect.connect_message r [] Connect.waiting)
      (control_read_back c (connect_ok sid caps) (λ q. cc) h)
    ∙ ap (λ b. if b then Connect.failed Connect.missing_session_id else opened sid [])
        (text_eq_of_ne sid [] named)

-- SESSION_OPEN opens it at the connector.
session_open_opens :
    (env : LinkEnv) (sid : Bytes) (e2ee : Bool) (t : ℕ) (s : Connector)
    → s.relay.connected ≡ true
    → ReadsControl env.codec (session_open sid e2ee)
    → is_open sid
        (connector_step env s (
          relay_activity t none
            (incoming (received (text (encode_control env.codec (session_open sid e2ee))))))).bridge
      ≡ true
unfolding text_eq
session_open_opens env sid e2ee t s up h =
    let old = is_open sid s.bridge in
    let m = encode_control env.codec (session_open sid e2ee) in
    connector_step-is_open env s (relay_activity t none (incoming (received (text m)))) sid
    ∙ ap
        (λ b.
          after_input (if b then control_read env.codec (incoming (received (text m))) else none)
            sid old)
        up
    ∙ ap (λ r. after_input (elim r [ err e ↦ none | ok m ↦ some m ]) sid old)
        (control_read_back env.codec (session_open sid e2ee) (λ q. cc) h)
    ∙ ap (λ b. b || old) (text_eq_refl sid)

connect_message_read :
    (env : Env) (code : Bytes)
    → code ≢ []
    → ReadsControl env.codec (connect_request code)
    → connect_message env (received (text (encode_control env.codec (connect_request code))))
      ≡ some (versioned (connect_request code))
unfolding connect_message text_eq
connect_message_read env code given h =
    rw (control_read_back env.codec (connect_request code) (λ q. cc) h, connect_message)
      (rw (text_eq_of_ne code [] given) refl)

serving-IsWhole :
    (env : Env) (x : Session) (caps : Caps) (s : Server) (r : Server × Outcome)
    → IsWhole env x caps s r
    → r.1 ≡ serving x.client
    → (sessions_get r.0.sessions x.id ≡ some x) × (r.0.network ≡ announced env x caps s.network)
serving-IsWhole env x caps s (s', o) (inl (served, found, told)) h = (found, told)
serving-IsWhole env x caps s (s', o) (inr (lost, gone, left)) h = cc

-- The session that handleClient makes.
abbrev pub new_session : Peer → ℕ → Option Bytes → Option Bytes → Server → Session
new_session connector conn random random_session s = record {
  id = new_id (codes "s_") random_session;
  client = new_peer (codes "u_") random role_client conn s;
  connector = connector;
  e2ee = false;
}

-- What the client writes first, as the relay reads it.
abbrev pub connected :
    Env → Bytes → Bytes → ℕ → Option Bytes → Option Bytes → Server → Server × Outcome
connected env code remote_addr conn random random_session s =
    handle_client env remote_addr (some conn)
      (received (text (encode_control env.codec (connect_request code)))) random random_session s

-- The attempt of a client that reads CONNECT_OK.
abbrev pub attempt : Env → Session → Caps → Attempt
attempt env x caps = record {
  dialed = true;
  unsent = false;
  reads = received (ok_text env x caps) ∷ [];
}

-- The relay serves the client in the session and has told both ends, and nothing else; each end that
-- reads what it was told has the session open.
abbrev pub IsPaired :
    Env → Bytes → Session → Caps → Server → Server × Outcome → LinkEnv → ℕ → Connector → Type 0
IsPaired env code x caps s r link_env t k =
    (r.1 ≡ serving x.client)
    × (sessions_get r.0.sessions x.id ≡ some x)
    × (r.0.network ≡ announced env x caps s.network)
    × (connect_session env.codec code (attempt env x caps)
        ≡ (text (encode_control env.codec (connect_request code)) ∷ [], opened x.id []))
    × (is_open x.id
          (connector_step link_env k
            (relay_activity t none (incoming (received (open_text env x))))).bridge
        ≡ true)

-- A client with an access code, and a relay where no write fails.
module _ (env : Env) (quiet : NoFaultsIn env) (code : Bytes) (given : code ≢ []) (connector : Peer)
    (caps : Caps) (remote_addr : Bytes) (conn : ℕ) (random random_session : Option Bytes)
    (s : Server) where
  connected_opens :
      ReadsControl env.codec (connect_request code)
      → online (auth_get s.auth (hash_access_code env.sha256 code)) ≡ some (connector, caps)
      → let x = new_session connector conn random random_session s in
        connected env code remote_addr conn random random_session s
        ≡ open_session env x caps
            (record s { hub = hub_add s.hub x.client; next_addr = suc s.next_addr })
  unfolding handle_client connect allow
  connected_opens readable registered =
      rw (connect_message_read env code given readable, handle_client)
        (rw (registered, connect) refl)

  -- When a client connects with the access code, not empty, of a connector that is registered, no write
  -- fails, all the connections concerned are open, relay and connector read JSON alike and the codec
  -- reads back the messages concerned: the relay stores a session, serves the client, and writes
  -- CONNECT_OK to it, then SESSION_OPEN to the connector, and nothing else; the client, reading this
  -- CONNECT_OK, has the session opened with the same id; and so has the connector, reading this
  -- SESSION_OPEN.
  pub session-IsPaired :
      (link_env : LinkEnv) (t : ℕ) (k : Connector)
      → link_env.codec ≡ env.codec
      → k.relay.connected ≡ true
      → online (auth_get s.auth (hash_access_code env.sha256 code)) ≡ some (connector, caps)
      → IsUp conn s
      → IsUp connector.conn s
      → ReadsControl env.codec (connect_request code)
      → ReadsControl env.codec (connect_ok (new_id (codes "s_") random_session) caps)
      → ReadsControl env.codec (session_open (new_id (codes "s_") random_session) false)
      → IsPaired env code
          (new_session connector conn random random_session s)
          caps
          s
          (connected env code remote_addr conn random random_session s)
          link_env
          t
          k
  unfolding connect_session
  session-IsPaired link_env t k shared up registered client_up connector_up asks answers opens =
      let x = new_session connector conn random random_session s in
      let s₁ : Server = record s { hub = hub_add s.hub x.client; next_addr = suc s.next_addr } in
      let same = connected_opens asks registered in
      let (served, told) =
        open_session_tells env x caps s₁ (can_write_up env conn s.network quiet client_up)
          (can_write_up env connector.conn _ quiet connector_up) in
      let (found, announced_to) =
        serving-IsWhole env x caps s₁ (open_session env x caps s₁)
          (open_session-IsWhole env x caps s₁) served in
      let named = new_id-nonempty random_session in
      (
        ap (λ (r : Server × Outcome). r.1) same ∙ served,
        ap (λ (r : Server × Outcome). sessions_get r.0.sessions x.id) same ∙ found,
        ap (λ (r : Server × Outcome). r.0.network) same ∙ told,
        ap (λ (o : Opening). (text (encode_control env.codec (connect_request code)) ∷ [], o))
            (connect_ok_opens env.codec x.id caps named answers),
        subst
            (λ c.
              is_open x.id
                (connector_step link_env k (
                  relay_activity t none (
                    incoming
                      (received (text (encode_control c (session_open x.id false))))))).bridge
              ≡ true)
            shared
            (session_open_opens link_env x.id false t k up
              (subst (λ c. ReadsControl c (session_open x.id false)) (sym shared) opens)),
      )
