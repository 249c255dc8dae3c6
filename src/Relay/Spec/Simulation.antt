-- ===== src/Relay/Spec/Simulation.antt =====
-- Every step of the relay does to the stores what its input says.
use open_claw_bridge.Common.{none, some, refl}
use open_claw_bridge.Relay.Stores.{allow}
use open_claw_bridge.Relay.Server.{Env, Server}
use open_claw_bridge.Relay.Accept.{handle_tunnel, handle_client}
use open_claw_bridge.Relay.Steps.{Input, tunnel, client, read, step}
use open_claw_bridge.Relay.Spec.{stores}
use open_claw_bridge.Relay.Spec.Transition.{Transition}
use open_claw_bridge.Relay.Spec.Messages.{read-Transition}
use open_claw_bridge.Relay.Spec.Accepting.{tunnel-Registers, client-Connects}

-- In any state, and whichever writes fail, an input changes the stores as follows. A connection without an
-- upgrade, or whose first read is not what it should be, changes nothing. A REGISTER with a hash joins a
-- connector and registers it there. A CONNECT with a code joins a client, which leaves again where no
-- connector is registered for the code; else the session of the two is opened, and it may be closed
-- again and the client leave. A CLOSE_SESSION that names a session closes it, and no other control
-- message changes anything. A DATA frame changes nothing, or closes the stored session that it names, of
-- which its sender is an endpoint. The end of a connection removes its peer from the hub, with all its
-- registrations and sessions.
pub step-Transition :
    (env : Env) (s : Server) (i : Input) → Transition env i (stores s) (stores (step env s i))
unfolding step handle_tunnel handle_client allow
step-Transition env s (tunnel remote none first random) = refl
step-Transition env s (tunnel remote (some conn) first random) =
    tunnel-Registers env remote conn random s first
step-Transition env s (client remote none first random random_session) = refl
step-Transition env s (client remote (some conn) first random random_session) =
    client-Connects env remote conn random random_session s first
step-Transition env s (read p r) = read-Transition env p.role p r s
