-- ===== src/Tests/Interleavings.antt =====
-- The goroutines of relay/main.go, interleaved, on sample inputs.
use open_claw_bridge.Common.{ℕ, zero, suc, some, List, [], ◌∷◌, ◌++◌, ◌≡◌, refl}
use open_claw_bridge.Text.{codes, to_hex}
use open_claw_bridge.GoMap.{get, put, delete, delete_where, select_where}
use open_claw_bridge.Protocol.Frame.{parse_data_frame}
use open_claw_bridge.Protocol.Control.{decode_control, encode_control, hash_access_code}
use open_claw_bridge.Relay.Network
use open_claw_bridge.Relay.Network.{text, binary, received, can_write, elem}
use open_claw_bridge.Relay.Stores.{
  hub_add, hub_remove, auth_set, auth_get, auth_delete_by_peer, sessions_set, sessions_get,
  sessions_delete, sessions_delete_by_peer, allow, add_forwarded_bytes,
}
use open_claw_bridge.Relay.Server.{new_relay_server, send, other_endpoint, opposite}
use open_claw_bridge.Relay.Accept.{new_id, register_message, connect_message, online}
use open_claw_bridge.Relay.Spec.{Stores, stores}
use open_claw_bridge.Relay.Tasks.{cleanup_task, loop_task, tunnel_task, client_task}
use open_claw_bridge.Relay.Tasks.Access.{Access, IsCoherent}
use open_claw_bridge.Relay.Tasks.System.{
  SystemEvent, tunnel, client, runs, advance, system_step, run_system, new_system,
}
use open_claw_bridge.Relay.Tasks.Interleaving.{run_system-IsCoherent, system_step-Access}
use open_claw_bridge.Relay.Accounting.{IsCounted}
use open_claw_bridge.Relay.Tasks.Counted.{run_system-IsCounted}
use open_claw_bridge.Relay.Tasks.Ending.{IsEmpty, run_system-IsEmpty}
use open_claw_bridge.Tests.Samples.{
  sample_env, client_peer, sample_session, register_text, connect_text, sample_frame,
}

-- Opens every definition that a run of the goroutines meets.
opened : Unit {0}
unfolding run_system system_step advance new_system tunnel_task client_task loop_task cleanup_task
    register_message connect_message online new_id to_hex other_endpoint send Network.write
    Network.close can_write elem allow sessions_delete_by_peer sessions_delete sessions_get
    sessions_set auth_delete_by_peer auth_get auth_set hub_remove hub_add new_relay_server
    parse_data_frame opposite add_forwarded_bytes decode_control encode_control hash_access_code get
    put delete delete_where select_where
opened = tt

-- The client finds the connector, and opens its session once the cleanup of the connector has deleted the
-- sessions and before it closes the connection.
abbrev race : List SystemEvent
race =
    tunnel [] (some 10) (received (text register_text)) (some (1 ∷ [])) []
    ∷ runs 0
    ∷ runs 0
    ∷ client [] (some 20) (received (text connect_text)) (some (2 ∷ [])) (some (3 ∷ [])) []
    ∷ runs 0
    ∷ runs 0
    ∷ runs 1
    ∷ runs 1
    ∷ runs 0
    ∷ runs 0
    ∷ runs 0
    ∷ runs 1
    ∷ runs 1
    ∷ []

-- The session stays, and its connector is gone.
abbrev stale : Stores
stale = record {
  hub = (codes "u_02", client_peer) ∷ [];
  auth = [];
  sessions = (codes "s_03", sample_session) ∷ [];
  next_addr = 2;
}

stale_session : stores (run_system sample_env new_system race).server ≡ stale
unfolding opened
stale_session = refl

-- The client leaves.
abbrev race_and_leave : List SystemEvent
race_and_leave = race ++ runs 0 ∷ runs 0 ∷ runs 0 ∷ runs 0 ∷ runs 0 ∷ []

run_system-IsCoherent_example : IsCoherent (stores (run_system sample_env new_system race).server)
run_system-IsCoherent_example = run_system-IsCoherent sample_env race

system_step-Access_example :
    Access
      (stores (run_system sample_env new_system race).server)
      (stores (system_step sample_env (run_system sample_env new_system race) (runs 0)).server)
system_step-Access_example = system_step-Access sample_env race (runs 0)

run_system-IsEmpty_example : IsEmpty (run_system sample_env new_system race_and_leave).server
unfolding opened
run_system-IsEmpty_example = run_system-IsEmpty sample_env race_and_leave (refl, (refl, tt))

abbrev times : ℕ → SystemEvent → List SystemEvent
times zero e = []
times (suc n) e = e ∷ times n e

-- The client sends a frame and leaves, and then the connector leaves.
abbrev exchange : List SystemEvent
exchange =
    tunnel [] (some 10) (received (text register_text)) (some (1 ∷ [])) []
    ∷ runs 0
    ∷ runs 0
    ∷ client [] (some 20) (received (text connect_text)) (some (2 ∷ [])) (some (3 ∷ []))
        (received (binary sample_frame) ∷ [])
    ∷ (times 13 (runs 0) ++ times 4 (runs 1))

exchange_counted : (run_system sample_env new_system exchange).server.metrics.forwarded_bytes ≡ 8
unfolding opened
exchange_counted = refl

run_system-IsCounted_example : IsCounted (run_system sample_env new_system exchange).server
unfolding opened
run_system-IsCounted_example = run_system-IsCounted sample_env exchange (refl, (refl, tt))
