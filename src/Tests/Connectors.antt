-- ===== src/Tests/Connectors.antt =====
-- The connector of connector/pkg on sample inputs.
use open_claw_bridge.Common.{Option, ℤ, negsuc, ok, true, none, some, [], ◌∷◌, ◌≡◌, refl, pos, List}
use open_claw_bridge.Text.{
  Bytes, codes, text_eq, trim_space, fields, contains, has_suffix, to_lower,
}
use open_claw_bridge.GoMap.{get, put, delete, delete_where, size}
use open_claw_bridge.Json.{Value, Fields, Codec, object, array, cons, nil, end, field, number}
use open_claw_bridge.Json
use open_claw_bridge.Protocol.Control.{hash_access_code}
use open_claw_bridge.Protocol.Event.{
  Event, event_user_message, no_event, encode_event, decode_event, read_event,
}
use open_claw_bridge.Connector.Payload.{
  Envelope, lookup, extract_run_id, extract_chat_text, extract_error_message, extract_session_id,
  extract_correlation_id, extract_content, extract_agent_text, decode_payload, string_value, normal,
}
use open_claw_bridge.Connector.Payload.Search.{IsSearched, extract_run_id-IsSearched}
use open_claw_bridge.Connector.Events.{
  token_event, end_event, is_chat_event_name, map_gateway_event,
}
use open_claw_bridge.Connector.Events.Laws.{IsReply, map_gateway_event-IsReply}
use open_claw_bridge.Connector.Gateway.{
  World, Client, new_client, request_session, handle_response, handle_event, resolve_session_id,
  send_user_message, send_cancel, dispatch, new_id, request, agent_params, emit_step, emit_all,
  track_request,
}
use open_claw_bridge.Connector.Gateway.Tracks.{IsAnswer}
use open_claw_bridge.Connector.Gateway.Answers.{
  response_events, handle_response_answers, event_session, handle_event_answers,
}
use open_claw_bridge.Connector.Gateway.Sending.{IsSent, send_user_message-IsSent}
use open_claw_bridge.Relay.Network.{Read, text, binary, received, read_error}
use open_claw_bridge.Connector.Handshake.{
  perform_connect, wait_for, decode_envelope, read_envelope, read_envelope_fields, set_envelope,
  connect_verdict,
}
use open_claw_bridge.Connector.Handshake.Laws.{IsConnected, perform_connect-IsConnected}
use open_claw_bridge.Json.{names, read_text}
use open_claw_bridge.Connector.Bridge
use open_claw_bridge.Connector.Bridge.{
  GatewaySender, GatewayBridge, handle_data, handle_gateway_event, send_event, resolve_session,
  handle_gateway_disconnected, disconnected,
}
use open_claw_bridge.Connector.Bridge.Laws.{IsHandled, handle_data-IsHandled}
use open_claw_bridge.Connector.Echo.{EchoBridge, echo_data}
use open_claw_bridge.Connector.Echo.Laws.{frames, echo_data_sent}
use open_claw_bridge.Connector.Config.{load, unmarshal_config, hash_of, default_gateway}
use open_claw_bridge.Connector.Settings.{
  Config, read_config, read_config_fields, set_config, read_gateway, read_gateway_fields,
  set_gateway,
}
use open_claw_bridge.Connector.Settings.Laws.{config_layout}
use open_claw_bridge.Json.{read_int, fold_from, fold_first}
use open_claw_bridge.Protocol.Control.{hash_access_code}
use open_claw_bridge.Connector.Config.Laws.{IsLoaded, load-IsLoaded, load-config_layout}
use open_claw_bridge.Connector.Scopes.{normalize_scopes}
use open_claw_bridge.Tests.Samples.{knows}

-- Opens every definition that a run of the connector meets.
opened : Unit {0}
unfolding handle_response handle_event dispatch send_user_message send_cancel handle_data
    handle_gateway_event Bridge.close_session Bridge.open_session handle_gateway_disconnected
    send_event resolve_session echo_data load normalize_scopes map_gateway_event resolve_session_id
    request_session extract_run_id extract_chat_text extract_error_message extract_session_id
    extract_correlation_id extract_agent_text extract_content decode_payload string_value lookup
    normal encode_event decode_event read_event get put delete delete_where size trim_space fields
    contains has_suffix to_lower text_eq new_id emit_all emit_step track_request hash_access_code
opened = tt

-- A payload with a nested answer and a run.
abbrev nested_payload : Fields
nested_payload =
    field (codes "result")
      (object (
        field (codes "runId") (Json.text (codes "run_9")) (
          field (codes "content")
            (array (cons (object (field (codes "text") (Json.text (codes "hi")) end)) nil)) end)))
      end

abbrev sample_codec : Codec
sample_codec = knows (
    object (
      field (codes "type") (Json.text event_user_message)
        (field (codes "content") (Json.text (codes " hi you ")) end)))

abbrev user_message : Event
user_message = record no_event { type = event_user_message; content = codes " hi you " }

nested_run : extract_run_id sample_codec nested_payload ≡ codes "run_9"
unfolding opened
nested_run = refl

nested_text : extract_chat_text sample_codec nested_payload ≡ codes "hi"
unfolding opened
nested_text = refl

abbrev final_payload : Value
final_payload = object (
    field (codes "status") (Json.text (codes " Final "))
      (field (codes "content") (Json.text (codes "hi")) end))

abbrev final_response : Envelope
final_response = record {
  type = codes "res";
  event = [];
  id = codes "gw_req_1";
  ok_field = some true;
  payload = some final_payload;
  error = none;
}

-- A client that waits for the answer to one request of the session s_1.
abbrev waiting : Client
waiting = record new_client {
  connected = true;
  ready = true;
  last_session_id = codes "s_1";
  req_to_session = (codes "gw_req_1", codes "s_1") ∷ [];
}

final_answered : handle_response sample_codec final_response waiting ≡ record waiting {
  req_to_session = [];
  emitted = (codes "s_1", token_event (codes "hi")) ∷ (codes "s_1", end_event) ∷ [];
}
unfolding opened
final_answered = refl

abbrev chat_message : Envelope
chat_message = record {
  type = codes "event";
  event = codes "Chat";
  id = [];
  ok_field = none;
  payload = some (object (field (codes "state") (Json.text (codes "delta")) nested_payload));
  error = none;
}

chat_mapped : map_gateway_event sample_codec chat_message ≡ token_event (codes "hi") ∷ []
unfolding opened is_chat_event_name
chat_mapped = refl

map_gateway_event-IsReply_example : IsReply (map_gateway_event sample_codec chat_message)
map_gateway_event-IsReply_example = map_gateway_event-IsReply sample_codec chat_message

extract_run_id-IsSearched_example : IsSearched sample_codec nested_payload (codes "run_9")
unfolding opened
extract_run_id-IsSearched_example = extract_run_id-IsSearched sample_codec nested_payload

handle_response_answers_example :
    IsReply (response_events sample_codec final_response)
    × IsAnswer
        (codes "s_1")
        (response_events sample_codec final_response)
        waiting
        (handle_response sample_codec final_response waiting)
unfolding opened
handle_response_answers_example =
    handle_response_answers sample_codec final_response waiting (codes "s_1") (λ e. cc) refl

handle_event_answers_example :
    IsReply (map_gateway_event sample_codec chat_message)
    × IsAnswer
        (event_session sample_codec chat_message waiting)
        (map_gateway_event sample_codec chat_message)
        waiting
        (handle_event sample_codec chat_message waiting)
unfolding opened
handle_event_answers_example = handle_event_answers sample_codec chat_message waiting (λ e. cc)

abbrev sample_world : World
sample_world = record { codec = sample_codec; unix_nano = 1; write_error = none }

send_user_message-IsSent_example :
    IsSent sample_world
      (new_id sample_world (codes "gw_req_"))
      (codes "s_1")
      (request (new_id sample_world (codes "gw_req_")) (codes "agent") (
        agent_params
          (codes "s_1")
          (new_id sample_world (codes "gw_req_"))
          (codes "hi you")
          user_message))
      waiting
      (send_user_message sample_world (codes "s_1") user_message waiting)
unfolding opened
send_user_message-IsSent_example =
    send_user_message-IsSent sample_world (codes "s_1") user_message b'h' (codes "i you") waiting
      refl

-- The gateway client as the gateway of a bridge.
abbrev sample_gateway : GatewaySender Client
sample_gateway = record {
  send_user_message = λ sid event s. send_user_message sample_world sid event s;
  send_cancel = λ sid s. send_cancel sample_world sid s;
  is_ready = λ s. s.ready;
}

abbrev sample_bridge : GatewayBridge Client
sample_bridge = record { sessions = (codes "s_1", 0) ∷ []; gateway = some waiting; sent = [] }

handle_data-IsHandled_example :
    IsHandled sample_gateway sample_codec
      (codes "s_1")
      1
      (codes "{}")
      sample_bridge
      (handle_data sample_gateway sample_codec (codes "s_1") 1 (codes "{}") sample_bridge)
handle_data-IsHandled_example =
    handle_data-IsHandled sample_gateway sample_codec (codes "s_1") 1 (codes "{}") sample_bridge

abbrev sample_echo : EchoBridge
sample_echo = record { sessions = (codes "s_1", true) ∷ []; sent = [] }

echo_data_sent_example :
    (echo_data sample_codec (codes "s_1") 0 (codes "{}") sample_echo).sent
    ≡ frames sample_codec
        (codes "s_1")
        0
        (token_event (codes "hi ") ∷ token_event (codes "you ") ∷ end_event ∷ [])
unfolding opened
echo_data_sent_example = echo_data_sent sample_codec (codes "s_1") 0 (codes "{}") sample_echo

abbrev pub loaded_config : Config
loaded_config = record {
  relay_url = codes "ws://r";
  access_code = codes "A";
  access_code_hash = codes "sha256:41";
  gateway = record {
    url = codes "ws://127.0.0.1:18789";
    auth_token = [];
    min_protocol = pos 3;
    max_protocol = pos 4;
    scopes = codes "operator.read" ∷ codes "operator.write" ∷ codes "operator.admin" ∷ [];
    locale = codes "en-US";
    user_agent = codes "openclaw-bridge-connector/0.1.0";
    challenge_timeout_seconds = pos 8;
    reconnect_initial_seconds = pos 1;
    reconnect_max_seconds = pos 30;
  };
}

-- A number is one byte.
abbrev byte_int : Bytes → Option ℤ
byte_int [] = none
byte_int (n ∷ s) = some (pos n)

abbrev byte_text : ℤ → Bytes
byte_text (pos n) = n ∷ []
byte_text (negsuc n) = []

abbrev config_codec : Value → Codec
config_codec v = record (knows v) { int_of = byte_int; int_text = byte_text }

-- A file with a relay URL, an access code and a highest protocol.
abbrev sample_file : Codec
sample_file = config_codec (
    object (
      field (codes "Relay_URL") (Json.text (codes "ws://r")) (
        field (codes "access_code") (Json.text (codes "A")) (
          field (codes "gateway") (object (field (codes "max_protocol") (number (4 ∷ [])) end))
            end))))

file_loaded : load sample_file (λ s. s) (some (codes "{}")) ≡ ok loaded_config
unfolding opened read_config read_config_fields set_config read_gateway read_gateway_fields
    set_gateway read_int read_text names fold_from fold_first unmarshal_config hash_of
    default_gateway hash_access_code
file_loaded = refl

load-IsLoaded_example :
    IsLoaded sample_file
      (λ s. s)
      (some (codes "{}"))
      (load sample_file (λ s. s) (some (codes "{}")))
load-IsLoaded_example = load-IsLoaded sample_file (λ s. s) (some (codes "{}"))

abbrev whole_codec : Codec
whole_codec = config_codec (config_layout (config_codec Json.null) loaded_config)

load-config_layout_example : load whole_codec (λ s. s) (some (codes "{}")) ≡ ok loaded_config
unfolding text_eq
load-config_layout_example =
    load-config_layout whole_codec (λ s. s) loaded_config
      (record {
        has_relay = λ e. cc;
        has_hash = λ e. cc;
        has_url = λ e. cc;
        has_scope = λ e. cc;
        has_locale = λ e. cc;
        has_user_agent = λ e. cc;
        min_positive = tt;
        max_positive = tt;
        timeout_positive = tt;
        initial_positive = tt;
        longest_positive = tt;
      })
      refl
      (record {
        reads_min = refl;
        reads_max = refl;
        reads_timeout = refl;
        reads_initial = refl;
        reads_longest = refl;
      })

abbrev sample_scopes : List Bytes
sample_scopes = codes " a " ∷ codes "b" ∷ codes "a" ∷ codes " " ∷ []

scopes_normalized : normalize_scopes sample_scopes ≡ codes "a" ∷ codes "b" ∷ []
unfolding opened
scopes_normalized = refl

-- A codec that knows one accepted response.
abbrev accepting : Codec
accepting = knows (
    object (
      field (codes "type") (Json.text (codes "res")) (
        field (codes "id") (Json.text (codes "gw_connect_1"))
          (field (codes "ok") (Json.bool true) end))))

abbrev connect_reads : List Read
connect_reads =
    received (binary [])
    ∷ received (text (codes "?"))
    ∷ received (text (codes "{}"))
    ∷ read_error
    ∷ []

perform_connect-IsConnected_example :
    IsConnected accepting (codes "gw_connect_1") connect_reads (read_error ∷ [])
unfolding perform_connect wait_for decode_envelope read_envelope read_envelope_fields set_envelope
    connect_verdict names text_eq read_text
perform_connect-IsConnected_example =
    perform_connect-IsConnected accepting (codes "gw_connect_1") connect_reads (read_error ∷ [])
      refl
