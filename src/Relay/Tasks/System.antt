-- ===== src/Relay/Tasks/System.antt =====
-- relay/main.go: the relay as a whole. Each connection that arrives is served by a goroutine of its own,
-- and any goroutine may make its next access at any time.
use open_claw_bridge.Common.{ℕ, zero, suc, Option, List, [], ◌∷◌, All, ◌≡◌}
use open_claw_bridge.Text.{Bytes}
use open_claw_bridge.Relay.Network.{Read}
use open_claw_bridge.Relay.Server.{Env, Server, new_relay_server}
use open_claw_bridge.Relay.Tasks.{Task, done, access, tunnel_task, client_task}

-- The arguments of tunnel_task and of client_task, or the place in `tasks` of the goroutine that is next.
pub data SystemEvent : Type 0 where
  tunnel : Bytes → Option ℕ → Read → Option Bytes → List Read → SystemEvent
  client : Bytes → Option ℕ → Read → Option Bytes → Option Bytes → List Read → SystemEvent
  runs : ℕ → SystemEvent

-- `tasks` holds every goroutine, the latest first, also those that are done.
pub record System : Type 0 where
  pub server : Server
  pub tasks : List Task

abbrev pub perform : Task → Server → Server
perform done s = s
perform (access f go) s = f s

abbrev pub next_task : Task → Server → Task
next_task done s = done
next_task (access f go) s = go s

unfoldable pub advance : ℕ → List Task → Server → Server × List Task
advance i [] s = (s, [])
advance zero (t ∷ ts) s = (perform t s, next_task t s ∷ ts)
advance (suc i) (t ∷ ts) s = let rest = advance i ts s in (rest.0, t ∷ rest.1)

abbrev pub arrive : Task → System → System
arrive t y = record y { tasks = t ∷ y.tasks }

unfoldable pub system_step : Env → System → SystemEvent → System
system_step env y (tunnel remote_addr upgraded first random reads) =
    arrive (tunnel_task env remote_addr upgraded first random reads) y
system_step env y (client remote_addr upgraded first random random_session reads) =
    arrive (client_task env remote_addr upgraded first random random_session reads) y
system_step env y (runs i) =
    let next = advance i y.tasks y.server in record { server = next.0; tasks = next.1 }

unfoldable pub run_system : Env → System → List SystemEvent → System
run_system env y [] = y
run_system env y (e ∷ es) = run_system env (system_step env y e) es

unfoldable pub new_system : System
new_system = record { server = new_relay_server; tasks = [] }

-- Every goroutine has returned.
abbrev pub IsQuiet : System → Type 0
IsQuiet y = All (λ t. t ≡ done) y.tasks
