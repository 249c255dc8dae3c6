-- ===== src/Relay/Steps.antt =====
-- The relay as a whole: what reaches it from the outside, one step for each, in any order.
use open_claw_bridge.Common.{ℕ, Option, List, [], ◌∷◌}
use open_claw_bridge.Text.{Bytes}
use open_claw_bridge.Relay.Network.{Read}
use open_claw_bridge.Relay.Stores.{Peer, Role, role_connector, role_client}
use open_claw_bridge.Relay.Server.{Env, Server}
use open_claw_bridge.Relay.Accept.{handle_tunnel, handle_client, connector_loop, client_loop}

-- The arguments of the handlers: the remote address, the connection if the upgrade succeeds, the
-- first read, and the random bytes of each new id. A `read` is what a peer's loop reads next.
pub data Input : Type 0 where
  tunnel : Bytes → Option ℕ → Read → Option Bytes → Input
  client : Bytes → Option ℕ → Read → Option Bytes → Option Bytes → Input
  read : Peer → Read → Input

-- The read loop of a peer's handler.
unfoldable pub loop_of : Role → Env → Peer → List Read → Server → Server
loop_of role_connector env peer reads s = connector_loop env peer reads s
loop_of role_client env peer reads s = client_loop env peer reads s

unfoldable pub step : Env → Server → Input → Server
step env s (tunnel remote_addr upgraded first random) =
    (handle_tunnel env remote_addr upgraded first random s).0
step env s (client remote_addr upgraded first random random_session) =
    (handle_client env remote_addr upgraded first random random_session s).0
step env s (read peer r) = loop_of peer.role env peer (r ∷ []) s

unfoldable pub run : Env → Server → List Input → Server
run env s [] = s
run env s (i ∷ is) = run env (step env s i) is
