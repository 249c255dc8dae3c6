-- ===== src/Tests/Relays.antt =====
-- The relay of relay/main.go on sample inputs.
use open_claw_bridge.Common.{true, false, none, some, [], ◌∷◌, ◌++◌, ◌≡◌, refl, arith, ◌==◌}
use open_claw_bridge.Text.{codes, to_hex}
use open_claw_bridge.GoMap.{get, put, delete, delete_where, select_where}
use open_claw_bridge.Protocol.Frame.{DataFrame, parse_data_frame}
use open_claw_bridge.Protocol.Control.{decode_control, encode_control, hash_access_code}
use open_claw_bridge.Relay.Network
use open_claw_bridge.Relay.Network.{text, binary, received, read_error, can_write, elem}
use open_claw_bridge.Relay.Stores.{
  hub_add, hub_remove, hub_get, auth_set, auth_get, auth_delete_by_peer, sessions_set, sessions_get,
  sessions_delete, sessions_delete_by_peer, add_forwarded_bytes, inc_error, allow, Collector,
}
use open_claw_bridge.Relay.Server.{
  Env, Server, new_relay_server, send, send_control, send_error, close_session, opposite,
  route_binary, other_endpoint, notify_removed, cleanup_peer, handle_control, handle_message,
}
use open_claw_bridge.Relay.Accept.{
  new_id, connector_loop, client_loop, register, register_message, handle_tunnel, connect_message,
  open_session, online, connect, handle_client,
}
use open_claw_bridge.Relay.Steps.{Input, read, loop_of, step, run}
use mathlib.Core.List.{reverse, map}
use open_claw_bridge.Protocol.Control.{
  Caps, ControlMessage, no_message, version, type_register, type_close_session,
}
use open_claw_bridge.Relay.Stores.{Peer, Entry, role_connector, role_client}
use open_claw_bridge.Relay.Spec.{stores}
use open_claw_bridge.Relay.Spec.Invariant.{Inv}
use open_claw_bridge.Relay.Spec.Refinement.{run-Inv, entry_for}
use open_claw_bridge.Relay.Spec.Transition.{Transition}
use open_claw_bridge.Relay.Spec.Simulation.{step-Transition}
use open_claw_bridge.Relay.Routing.{
  IsForwarded, route_binary-IsForwarded, forwarded, route_both_ways,
}
use open_claw_bridge.Relay.Closing.{stranger_closes}
use open_claw_bridge.Relay.Leaving.{Left, cleanup_peer-Left, cleanup_peer_tells, told}
use open_claw_bridge.Relay.Opening.{IsWhole, open_session-IsWhole}
use open_claw_bridge.Relay.Takeover.{takeover}
use open_claw_bridge.Tests.Samples.{
  sample_env, pairing_inputs, paired, sample_frame, client_peer, connector_peer, sample_session,
  close_text, register_text,
}

-- Opens every definition that a run of the relay meets.
opened : Unit {0}
unfolding run step loop_of connector_loop client_loop handle_tunnel handle_client register
    register_message connect_message open_session online connect new_id to_hex handle_message
    handle_control cleanup_peer notify_removed other_endpoint route_binary opposite close_session
    send_error send_control send Network.write Network.close can_write elem allow inc_error
    add_forwarded_bytes sessions_delete_by_peer sessions_delete sessions_get sessions_set
    auth_delete_by_peer auth_get auth_set hub_remove hub_add hub_get new_relay_server decode_control
    encode_control hash_access_code parse_data_frame get put delete delete_where select_where
opened = tt

pairing : run sample_env new_relay_server pairing_inputs ≡ paired
unfolding opened
pairing = refl

abbrev counters : Collector
counters = record { forwarded_bytes = 8; errors = 0 }

forwarding :
    (step sample_env paired (read client_peer (received (binary sample_frame)))).metrics ≡ counters
unfolding opened
forwarding = refl

run-Inv_example : Inv (stores (run sample_env new_relay_server pairing_inputs))
run-Inv_example = run-Inv sample_env pairing_inputs

pub paired-Inv : Inv (stores paired)
unfolding opened
paired-Inv = run-Inv sample_env pairing_inputs

abbrev client_frame : Input
client_frame = read client_peer (received (binary sample_frame))

step-Transition_example :
    Transition sample_env client_frame
      (stores paired)
      (stores (step sample_env paired client_frame))
step-Transition_example = step-Transition sample_env paired client_frame

route_binary-IsForwarded_example :
    IsForwarded client_peer sample_frame paired
      (route_binary sample_env client_peer sample_frame paired)
route_binary-IsForwarded_example =
    route_binary-IsForwarded sample_env client_peer sample_frame paired

abbrev sample_parts : DataFrame
sample_parts = record { session_id = codes "s_03"; flags = 0; payload = codes "hi" }

route_both_ways_example :
    (route_binary sample_env client_peer sample_frame paired
      ≡ forwarded connector_peer sample_frame paired)
    × (route_binary sample_env connector_peer sample_frame paired
        ≡ forwarded client_peer sample_frame paired)
unfolding opened
route_both_ways_example =
    route_both_ways sample_env sample_frame sample_parts sample_session paired paired-Inv refl refl
      refl refl

-- Writes to connection 10 fail.
abbrev broken_env : Env
broken_env = record sample_env { faults = λ conn n. conn == 10 }

abbrev stranger : Peer
stranger = record { addr = 7; id = codes "u_ff"; role = role_client; conn = 70 }

abbrev close_request : ControlMessage
close_request = record no_message {
  type = type_close_session;
  v = version;
  session_id = codes "s_03";
}

stranger_closes_example :
    sessions_get
      (handle_message sample_env stranger (text close_text) paired).sessions
      (codes "s_03")
    ≡ none
unfolding opened
stranger_closes_example =
    stranger_closes sample_env stranger close_text close_request sample_session paired refl refl
      (λ e. cc) refl refl

cleanup_peer-Left_example : Left client_peer paired (cleanup_peer sample_env client_peer paired)
cleanup_peer-Left_example = cleanup_peer-Left sample_env client_peer paired paired-Inv

cleanup_peer_tells_example :
    (cleanup_peer sample_env client_peer paired).network.log
    ≡ reverse (map (told sample_env client_peer) (sample_session ∷ [])) ++ paired.network.log
unfolding opened
cleanup_peer_tells_example =
    cleanup_peer_tells sample_env client_peer paired (λ conn n. refl) (refl, tt)

abbrev no_caps : Caps
no_caps = record { e2ee = false }

open_session-IsWhole_example :
    IsWhole broken_env sample_session no_caps paired
      (open_session broken_env sample_session no_caps paired)
open_session-IsWhole_example = open_session-IsWhole broken_env sample_session no_caps paired

abbrev register_request : ControlMessage
register_request = record no_message {
  type = type_register;
  v = version;
  access_code_hash = codes "sha256:41";
}

-- The connector comes back on connection 11.
abbrev second : Peer
second = record { addr = 2; id = codes "c_09"; role = role_connector; conn = 11 }

abbrev replaced : Server
replaced =
    (handle_tunnel sample_env [] (some 11) (received (text register_text)) (some (9 ∷ [])) paired).0

takeover_example :
    (auth_get replaced.auth (codes "sha256:41") ≡ some (entry_for second register_request))
    × (auth_get (cleanup_peer sample_env connector_peer replaced).auth (codes "sha256:41")
        ≡ some (entry_for second register_request))
    × ((e : Entry)
        → auth_get paired.auth (codes "sha256:41") ≡ some e
        → e.peer ≡ some connector_peer
        → elem 10 replaced.network.closed ≡ true)
unfolding opened
takeover_example =
    takeover sample_env [] 11 (received (text register_text)) (some (9 ∷ [])) register_request
      connector_peer paired paired-Inv refl (omega arith)
