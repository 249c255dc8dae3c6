-- ===== src/Connector/Ending.antt =====
-- How the connector ends: Run of connector/pkg/gatewayclient/client.go with its context, and the end of
-- main in connector/main.go. Run of the relay client, which returns nil, is link_run.
pub mod Laws
use open_claw_bridge.Common.{false, Option, none, some, List, [], ◌∷◌}
use open_claw_bridge.Json.{Codec}
use open_claw_bridge.Connector.Settings.{GatewayConfig}
use open_claw_bridge.Connector.Gateway.{Client}
use open_claw_bridge.Connector.Reconnect.{
  Round, RunState, RunResult, in_attempt, retrying, auth_failed, set_ready, close_conn, run_gateway,
}

-- The errors that Run returns.
pub data RunError : Type 0 where
  gateway_auth : RunError

-- The context is done where the attempts stop: between two of them, or in the last one, whose connection
-- is closed, so that it ends before Run returns. A failed authentication has ended Run already.
abbrev pub when_done : Client → RunState → Client × Option RunError
when_done s auth_failed = (s, some gateway_auth)
when_done s retrying = (close_conn s, none)
when_done s (in_attempt st) = (close_conn (set_ready false s), none)

unfoldable pub gateway_run : Codec → GatewayConfig → List Round → Client → Client × Option RunError
gateway_run c cfg rounds s = let r = run_gateway c cfg rounds s in when_done r.client r.state

-- The loop of main over the channel of results: the first error ends it.
unfoldable pub first_error : List (Option RunError) → Option RunError
first_error [] = none
first_error (none ∷ rs) = first_error rs
first_error (some e ∷ rs) = some e

pub data Exit : Type 0 where
  clean fatal_auth : Exit

-- How main exits, with the results of the two clients in the order in which they come.
unfoldable pub main_exit : List (Option RunError) → Exit
unfolding first_error
main_exit rs = elim (first_error rs) [ none ↦ clean | some gateway_auth ↦ fatal_auth ]
