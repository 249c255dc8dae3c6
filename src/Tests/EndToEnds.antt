-- ===== src/Tests/EndToEnds.antt =====
-- A line typed at the command line client, answered through the connector, on sample inputs.
use open_claw_bridge.Common.{true, none, some, [], ◌∷◌, ◌≡◌, refl, arith}
use open_claw_bridge.Text.{Bytes, codes, text_eq, trim_space, has_prefix}
use open_claw_bridge.Json
use open_claw_bridge.Json.{Value, object, field, end, opt_text}
use open_claw_bridge.GoMap.{get, put}
use open_claw_bridge.Protocol.Event.{
  event_user_message, write_event, opt_images, decode_event, read_event,
}
use open_claw_bridge.Protocol.Frame.{parse_data_frame}
use open_claw_bridge.Relay.Network.{binary, received}
use open_claw_bridge.Connector.Payload.{
  Envelope, extract_content, decode_payload, string_value, lookup, normal,
}
use open_claw_bridge.Connector.Gateway.{Client, new_client, new_id}
use open_claw_bridge.Connector.Gateway.Answers.{response_events}
use open_claw_bridge.Connector.Events.{is_pending_status, is_final_status, one_of}
use open_claw_bridge.Connector.RelayClient.{LinkEnv, incoming}
use open_claw_bridge.Connector.Wiring.{
  Connector, relay_activity, gateway_says, connector_step, world_at,
}
use open_claw_bridge.Connector.Wiring.Answers.{asked_client}
use open_claw_bridge.Connector.Wiring.Answers.Relayed.{answer_frames, message_answered}
use open_claw_bridge.Cli.Prompt.{Prompt, prompt_step, line_typed, awaiting}
use open_claw_bridge.Relay.Network.{elem}
use open_claw_bridge.Relay.Stores.{sessions_get}
use open_claw_bridge.EndToEnd.{IsAnswered}
use open_claw_bridge.EndToEnd.RoundTrip.{IsRelayed, round_trip}
use open_claw_bridge.Tests.Relays.{paired-Inv}
use open_claw_bridge.Tests.Samples.{sample_env, sample_session, paired}
use open_claw_bridge.Tests.Samples.{event_codec, sample_event}
use open_claw_bridge.Tests.Clis.{cli_env, sending, at_prompt, sid, event_frame}

-- Opens every definition that these runs meet.
opened : Unit {0}
unfolding text_eq trim_space has_prefix opt_text write_event opt_images decode_event read_event get
    put parse_data_frame new_id extract_content decode_payload string_value lookup normal
    is_pending_status is_final_status one_of elem sessions_get
opened = tt

abbrev pub link_env : LinkEnv
link_env = record { codec = event_codec; access_code_hash = codes "sha256:41"; fails = λ n. none }

abbrev pub gateway_client : Client
gateway_client = record new_client { connected = true; ready = true }

-- A connector with the session s_1 open and a gateway that is ready.
abbrev pub connector : Connector
connector = record {
  relay = record { connected = true; attempts = 0; written = [] };
  bridge = record { sessions = (sid, 0) ∷ []; gateway = some gateway_client; sent = [] };
}

abbrev pub response : Envelope
response = record {
  type = codes "res";
  event = [];
  id = codes "gw_req_1";
  ok_field = some true;
  payload = some (
      object (
        field (codes "status") (Json.text (codes "done"))
          (field (codes "content") (Json.text (codes "hi")) end)));
  error = none;
}

-- The same at the ends of the session of the sample relay.
abbrev relayed_prompt : Prompt
relayed_prompt = record at_prompt { session_id = codes "s_03" }

abbrev relayed_connector : Connector
relayed_connector = record connector {
  bridge = record { sessions = (codes "s_03", 0) ∷ []; gateway = some gateway_client; sent = [] };
}

round_trip_example :
    (frame : Bytes) × (prompt_step cli_env (line_typed (codes "hi") sending) relayed_prompt
      ≡ record relayed_prompt { mode = awaiting; written = binary frame ∷ [] })
    × IsAnswered link_env 1
        (codes "s_03")
        (codes "hi")
        (codes "hi")
        gateway_client
        relayed_connector
        response
        frame
    × IsRelayed sample_env sample_session paired frame
        (answer_frames event_codec (codes "s_03") 0 (response_events event_codec response))
unfolding opened
round_trip_example =
    round_trip link_env cli_env sample_env sending (codes "hi") relayed_prompt 1 b's' (codes "_03")
      0 b'h' (codes "i") gateway_client relayed_connector sample_session paired response refl refl
      (omega arith) refl refl refl refl refl refl refl refl refl refl refl (λ n. refl) paired-Inv
      refl (λ conn n. refl) refl refl refl refl (refl, (refl, tt))

message_answered_example :
    let s : Connector =
      connector_step link_env connector
        (relay_activity 1 none (incoming (received (binary (event_frame (codes "M")))))) in
    (s.bridge.gateway
      ≡ some (
          asked_client
            (world_at link_env 1 none)
            sid
            (sample_event event_user_message)
            (codes "hi")
            gateway_client))
    × (s.relay ≡ connector.relay)
    × ((connector_step link_env s (gateway_says response)).relay.written
        ≡ answer_frames event_codec sid 0 (response_events event_codec response))
unfolding opened
message_answered_example =
    message_answered link_env 1 b's' (codes "_1") 0 0 b'h' (codes "i") (codes "M")
      (event_frame (codes "M")) (sample_event event_user_message) gateway_client connector refl refl
      refl refl refl refl refl refl refl response (λ n. refl) (omega arith) refl refl refl
