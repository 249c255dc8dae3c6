-- ===== src/Connector/Ending/Laws.antt =====
-- The end of the connector: what is left of the gateway client, and how main exits.
use open_claw_bridge.Common.{false, Option, none, [], ◌∷◌, ◌≡◌}
use open_claw_bridge.Json.{Codec}
use open_claw_bridge.Connector.Settings.{GatewayConfig}
use open_claw_bridge.Connector.Gateway.{Client}
use open_claw_bridge.Connector.Reconnect.{
  Standing, connecting, serving, ended, RunState, in_attempt, retrying, auth_failed,
}
use open_claw_bridge.Connector.Ending.{RunError, fatal_auth, main_exit}

-- An attempt that has ended has left no connection.
abbrev IsLeft : Client × Standing → Type 0
IsLeft (s, serving) = Unit
IsLeft (s, connecting) = Unit
IsLeft (s, ended e) = s.connected ≡ false

module _ (c : Codec) (cfg : GatewayConfig) where
  -- Run leaves no connection where it is not in an attempt.
  abbrev RunLeft : Client → RunState → Type 0
  RunLeft s (in_attempt st) = Unit
  RunLeft s retrying = s.connected ≡ false
  RunLeft s auth_failed = s.connected ≡ false

-- The client is down, and main, which hears of the other client too, exits as it should: with an error
-- exactly after a failed authentication.
pub record IsEnded (s : RunState) (r : Client × Option RunError) : Type 0 where
  pub not_ready : r.0.ready ≡ false
  pub not_connected : r.0.connected ≡ false
  pub fails : s ≡ auth_failed → main_exit (none ∷ r.1 ∷ []) ≡ fatal_auth
  pub succeeds : main_exit (none ∷ r.1 ∷ []) ≡ fatal_auth → s ≡ auth_failed
  pub any_order : main_exit (r.1 ∷ none ∷ []) ≡ main_exit (none ∷ r.1 ∷ [])
