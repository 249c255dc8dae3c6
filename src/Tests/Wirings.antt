-- ===== src/Tests/Wirings.antt =====
-- The gateway client's Run, and the connector as a whole, on sample inputs.
use open_claw_bridge.Common.{
  false, ◌*◌, ◌^◌, true, false, none, some, List, [], ◌∷◌, ◌≡◌, refl, arith, length, if◌then◌else◌,
}
use open_claw_bridge.Text.{codes, text_eq}
use open_claw_bridge.Json
use open_claw_bridge.Json.{Value, Codec, object, field, end, names, read_text}
use open_claw_bridge.Relay.Network.{text, received}
use open_claw_bridge.Connector.Gateway.{new_client, new_id}
use open_claw_bridge.Connector.Handshake.{
  wait_for_challenge, challenge_verdict, perform_connect, connect_verdict, wait_for,
  decode_envelope, read_envelope, read_envelope_fields, set_envelope,
}
use open_claw_bridge.Connector.Reconnect.{
  Round, connect_and_serve, serve, run_gateway, RunResult, in_attempt, serving, dial_failed,
}
use open_claw_bridge.Connector.Reconnect.Backoff.{IsBackedOff, run_gateway-IsBackedOff}
use open_claw_bridge.Connector.Reconnect.Running.{
  RunStands, run_gateway_serves, run_gateway-RunStands,
}
use open_claw_bridge.Connector.RelayClient.{LinkEnv, incoming, heartbeat, Attempt, link_run}
use open_claw_bridge.Connector.Wiring.{
  connector_step, connector_run, new_connector, Input, relay_activity,
}
use open_claw_bridge.Connector.Wiring.Running.{
  Moment, host_at, run_inputs, hang_up, link_run-connector_run,
}
use open_claw_bridge.Connector.Wiring.Sessions.{
  is_open, after_input, control_of, connector_step-is_open,
}
use open_claw_bridge.Tests.Samples.{three_messages, small_int, small_int_text, close_text}
use open_claw_bridge.Tests.Connectors.{loaded_config}
use open_claw_bridge.Tests.EndToEnds.{connector}

-- A codec that knows the challenge and an accepted response.
abbrev gateway_codec : Codec
gateway_codec = record {
  parse = λ s.
      if text_eq s (codes "C")
      then some (
          object (
            field (codes "type") (Json.text (codes "event"))
              (field (codes "event") (Json.text (codes "connect.challenge")) end)))
      else if text_eq s (codes "R")
      then some (
          object (
            field (codes "type") (Json.text (codes "res")) (
              field (codes "id") (Json.text (codes "gw_connect_1"))
                (field (codes "ok") (Json.bool true) end))))
      else none;
  print = λ v. codes "{}";
  int_of = small_int;
  int_text = small_int_text;
  float_text = λ s. some s;
}

abbrev bad_round : Round
bad_round = record { dialed = false; unix_nano = 1; write_error = none; reads = [] }

abbrev good_round : Round
good_round = record {
  dialed = true;
  unix_nano = 1;
  write_error = none;
  reads =
      received (text (codes "C")) ∷ received (text (codes "R")) ∷ received (text (codes "?")) ∷ [];
}

run_gateway_serves_example :
    let r : RunResult =
      run_gateway gateway_codec loaded_config.gateway
        (bad_round ∷ bad_round ∷ good_round ∷ [])
        new_client in
    (r.state ≡ in_attempt serving)
    × (r.client.ready ≡ true)
    × (r.client.connected ≡ true)
    × (length r.waits ≡ 2)
unfolding connect_and_serve serve wait_for_challenge challenge_verdict perform_connect
    connect_verdict wait_for decode_envelope read_envelope read_envelope_fields set_envelope names
    read_text text_eq new_id
run_gateway_serves_example =
    run_gateway_serves gateway_codec loaded_config.gateway (bad_round ∷ bad_round ∷ []) good_round
      new_client refl ((dial_failed, refl, refl), ((dial_failed, refl, refl), tt)) refl

run_gateway-RunStands_example :
    let r : RunResult =
      run_gateway gateway_codec loaded_config.gateway (bad_round ∷ good_round ∷ []) new_client in
    RunStands r.client r.state
run_gateway-RunStands_example =
    run_gateway-RunStands gateway_codec loaded_config.gateway (bad_round ∷ good_round ∷ [])
      new_client refl

run_gateway-IsBackedOff_example :
    IsBackedOff
      (10 ^ 9)
      (30 * 10 ^ 9)
      0
      (run_gateway gateway_codec loaded_config.gateway
        (bad_round ∷ bad_round ∷ [])
        new_client).waits
run_gateway-IsBackedOff_example =
    run_gateway-IsBackedOff gateway_codec loaded_config.gateway (bad_round ∷ bad_round ∷ [])
      new_client (omega arith) (omega arith)

-- The environment of a relay that closes the session s_03.
abbrev closing_env : LinkEnv
closing_env = record {
  codec = three_messages;
  access_code_hash = codes "sha256:41";
  fails = λ n. none;
}

abbrev closing : Input
closing = relay_activity 1 none (incoming (received (text close_text)))

connector_step-is_open_example :
    is_open (codes "s_03") (connector_step closing_env connector closing).bridge
    ≡ after_input
        (control_of three_messages connector closing)
        (codes "s_03")
        (is_open (codes "s_03") connector.bridge)
connector_step-is_open_example = connector_step-is_open closing_env connector closing (codes "s_03")

-- Two attempts: one that cannot dial, and one in which a heartbeat is sent and the session s_03 closed.
abbrev link_attempts : List (Attempt Moment)
link_attempts =
    record { dialed = false; activities = []; last = (1, none) }
    ∷ record {
      dialed = true;
      activities = ((2, none), heartbeat) ∷ ((3, none), incoming (received (text close_text))) ∷ [];
      last = (4, none);
    }
    ∷ []

link_run-connector_run_example :
    (link_run (host_at closing_env) closing_env link_attempts (5, none) new_connector
      ≡ hang_up (connector_run closing_env new_connector (run_inputs link_attempts)))
    × ((connector_run closing_env new_connector (run_inputs link_attempts)).relay.connected ≡ false)
    × ((link_run
          (host_at closing_env)
          closing_env
          link_attempts
          (5, none)
          new_connector).relay.connected
        ≡ false)
unfolding new_connector
link_run-connector_run_example =
    link_run-connector_run closing_env link_attempts (5, none) new_connector refl
