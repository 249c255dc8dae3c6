-- ===== src/Tests/Pairings.antt =====
-- A client that connects through the relay, on sample inputs.
use open_claw_bridge.Common.{false, none, some, [], ◌∷◌, refl, if◌then◌else◌}
use open_claw_bridge.Text.{codes, text_eq}
use open_claw_bridge.GoMap.{get}
use open_claw_bridge.Json.{Codec, opt_text, opt_int, opt_bool}
use open_claw_bridge.Protocol.Control.{
  Caps, type_connect, type_connect_ok, type_session_open, write_control, hash_access_code,
}
use open_claw_bridge.Protocol.Control.Laws.{versioned}
use open_claw_bridge.Relay.Network.{elem}
use open_claw_bridge.Relay.Stores.{Session, auth_get}
use open_claw_bridge.Relay.Server.{Env}
use open_claw_bridge.Relay.Accept.{connect_ok, session_open, new_id, online}
use open_claw_bridge.Connector.RelayClient.{LinkEnv}
use open_claw_bridge.Cli.Connect.{connect_request}
use open_claw_bridge.EndToEnd.Pairing.{new_session, connected, IsPaired, session-IsPaired}
use open_claw_bridge.Tests.Samples.{
  sample_env, three_messages, paired, connector_peer, type_of, small_int, small_int_text,
}
use open_claw_bridge.Tests.EndToEnds.{connector}

abbrev no_caps : Caps
no_caps = record { e2ee = false }

-- A codec for the three messages of a session that opens, each by one letter.
abbrev pairing_codec : Codec
pairing_codec = record {
  parse = λ s.
      if text_eq s (codes "Q")
      then some (write_control three_messages (versioned (connect_request (codes "A"))))
      else if text_eq s (codes "K")
      then some (write_control three_messages (versioned (connect_ok (codes "s_05") no_caps)))
      else if text_eq s (codes "O")
      then some (write_control three_messages (versioned (session_open (codes "s_05") false)))
      else none;
  print = λ v.
      if text_eq (type_of v) type_connect
      then codes "Q"
      else if text_eq (type_of v) type_connect_ok
      then codes "K"
      else if text_eq (type_of v) type_session_open
      then codes "O"
      else codes "{}";
  int_of = small_int;
  int_text = small_int_text;
  float_text = λ s. some s;
}

abbrev pairing_env : Env
pairing_env = record sample_env { codec = pairing_codec }

abbrev pairing_link : LinkEnv
pairing_link = record {
  codec = pairing_codec;
  access_code_hash = codes "sha256:41";
  fails = λ n. none;
}

-- The session with the connector of the sample relay, for a client on connection 30.
abbrev second_session : Session
second_session = new_session connector_peer 30 (some (4 ∷ [])) (some (5 ∷ [])) paired

session-IsPaired_example :
    IsPaired pairing_env
      (codes "A")
      second_session
      no_caps
      paired
      (connected pairing_env (codes "A") [] 30 (some (4 ∷ [])) (some (5 ∷ [])) paired)
      pairing_link
      1
      connector
unfolding text_eq write_control opt_text opt_int opt_bool elem auth_get hash_access_code get new_id
    online
session-IsPaired_example =
    session-IsPaired pairing_env (λ conn n. refl) (codes "A") (λ e. cc) connector_peer no_caps [] 30
      (some (4 ∷ [])) (some (5 ∷ [])) paired pairing_link 1 connector refl refl refl refl refl
      (refl, refl, refl) (refl, refl, refl) (refl, refl, refl)
