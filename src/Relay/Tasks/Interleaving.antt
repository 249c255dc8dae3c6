-- ===== src/Relay/Tasks/Interleaving.antt =====
-- relay/main.go: what holds under every interleaving of the goroutines.
use open_claw_bridge.Common.{
  ℕ, zero, suc, ◌≤◌, Option, none, some, List, [], ◌∷◌, All, ◌⊎◌, inl, inr, refl, subst, arith,
}
use open_claw_bridge.GoMap.{get}
use open_claw_bridge.Relay.Server.{Env, Server, new_relay_server}
use open_claw_bridge.Relay.Spec.{Stores, stores}
use open_claw_bridge.Relay.Tasks.{Task, done, access}
use open_claw_bridge.Relay.Tasks.Access.{Access, rest, IsCoherent, Access-IsCoherent, Access-grows}
use open_claw_bridge.Relay.Tasks.Debts.{
  Debt, hub_entry, registrations, client_sessions, Settled, incurred, Settled-Access, Owes, Covers,
}
use open_claw_bridge.Relay.Tasks.Behaviour.{Sound, Sound-mono}
use open_claw_bridge.Relay.Tasks.Handlers.{Sound-tunnel_task, Sound-client_task}
use open_claw_bridge.Relay.Tasks.System.{
  SystemEvent, tunnel, client, runs, System, perform, next_task, advance, arrive, system_step,
  run_system, new_system,
}

-- Some goroutine still settles the debt.
abbrev pub Owed : Debt → List Task → Type 0
Owed d [] = ⊥
Owed d (t ∷ ts) = Owes d t ⊎ Owed d ts

abbrev OwedIfAny : Option Debt → List Task → Type 0
OwedIfAny none ts = Unit
OwedIfAny (some d) ts = Owed d ts

abbrev pub IsPaid : List Task → Stores → Type 0
IsPaid ts a = (d : Debt) → Settled d a ⊎ Owed d ts

pub record IsHealthy (y : System) : Type 0 where
  pub coherent : IsCoherent (stores y.server)
  pub sound : All (Sound y.server.next_addr) y.tasks
  pub paid : IsPaid y.tasks (stores y.server)

OwedIfAny-here : (o : Option Debt) (t : Task) (ts : List Task) → Covers o t → OwedIfAny o (t ∷ ts)
OwedIfAny-here none t ts h = tt
OwedIfAny-here (some d) t ts h = inl h

OwedIfAny-there :
    (o : Option Debt) (t : Task) (ts : List Task) → OwedIfAny o ts → OwedIfAny o (t ∷ ts)
OwedIfAny-there none t ts h = tt
OwedIfAny-there (some d) t ts h = inr h

Sound-All : (n k : ℕ) (ts : List Task) → n ≤ k → All (Sound n) ts → All (Sound k) ts
Sound-All n k [] le h = tt
Sound-All n k (t ∷ ts) le h = (Sound-mono n k t le h.0, Sound-All n k ts le h.1)

-- A debt that a goroutine settles stays so until it is settled.
Owes-next :
    (d : Debt) (t : Task) (s : Server)
    → Owes d t
    → Settled d (stores (perform t s)) ⊎ Owes d (next_task t s)
Owes-next d done s h = elim h [ ]
Owes-next d (access f go) s (inl h) = inl (h s)
Owes-next d (access f go) s (inr h) = inr (h s)

Owed-advance :
    (i : ℕ) (ts : List Task) (s : Server) (d : Debt)
    → Owed d ts
    → Settled d (stores (advance i ts s).0) ⊎ Owed d (advance i ts s).1
unfolding advance
Owed-advance zero [] s d h = elim h [ ]
Owed-advance (suc i) [] s d h = elim h [ ]
Owed-advance zero (t ∷ ts) s d (inl h) = elim (Owes-next d t s h) [
  | inl g ↦ inl g
  | inr g ↦ inr (inl g)
]
Owed-advance zero (t ∷ ts) s d (inr h) = inr (inr h)
Owed-advance (suc i) (t ∷ ts) s d (inl h) = inr (inl h)
Owed-advance (suc i) (t ∷ ts) s d (inr h) = elim (Owed-advance i ts s d h) [
  | inl g ↦ inl g
  | inr g ↦ inr (inr g)
]

-- One access of one goroutine: the store allows it, some goroutine answers for it, and all stay sound.
abbrev Advanced : List Task → Server → ℕ → Type 0
Advanced ts s i =
    (m : Access (stores s) (stores (advance i ts s).0)) × (OwedIfAny (incurred m) (advance i ts s).1
      × All (Sound (advance i ts s).0.next_addr) (advance i ts s).1)

advance-Access :
    (i : ℕ) (ts : List Task) (s : Server)
    → IsCoherent (stores s)
    → All (Sound s.next_addr) ts
    → Advanced ts s i
unfolding advance
advance-Access i [] s v h = (rest refl, (tt, tt))
advance-Access zero (done ∷ ts) s v h = (rest refl, (tt, h))
advance-Access zero (access f go ∷ ts) s v h =
    let (m, (c, g)) = h.0 s (omega arith) v in
    (
      m,
      (
        OwedIfAny-here (incurred m) (go s) ts c,
        (g, Sound-All s.next_addr (f s).next_addr ts (Access-grows m) h.1),
      ),
    )
advance-Access (suc i) (t ∷ ts) s v h =
    let (m, (c, g)) = advance-Access i ts s v h.1 in
    let grows : s.next_addr ≤ (advance i ts s).0.next_addr = Access-grows m in
    (
      m,
      (
        OwedIfAny-there (incurred m) t (advance i ts s).1 c,
        (Sound-mono s.next_addr (advance i ts s).0.next_addr t grows h.0, g),
      ),
    )

advance-IsPaid :
    (i : ℕ) (ts : List Task) (s : Server)
    → Advanced ts s i
    → IsPaid ts (stores s)
    → IsPaid (advance i ts s).1 (stores (advance i ts s).0)
advance-IsPaid i ts s (m, (c, g)) h = λ d. elim (h d) [
  | inr owed ↦ Owed-advance i ts s d owed
  | inl settled ↦ elim (Settled-Access m d settled) [
    | inl still ↦ inl still
    | inr e ↦ inr (subst (λ o. OwedIfAny o (advance i ts s).1) e c)
  ]
]

arrive-IsHealthy :
    (t : Task) (y : System) → Sound y.server.next_addr t → IsHealthy y → IsHealthy (arrive t y)
arrive-IsHealthy t y h v = record {
  coherent = v.coherent;
  sound = (h, v.sound);
  paid = λ d. elim (v.paid d) [ inl g ↦ inl g | inr g ↦ inr (inr g) ];
}

system_step-IsHealthy :
    (env : Env) (y : System) (e : SystemEvent) → IsHealthy y → IsHealthy (system_step env y e)
unfolding system_step
system_step-IsHealthy env y (tunnel remote_addr upgraded first random reads) v =
    arrive-IsHealthy _ y (Sound-tunnel_task env _ remote_addr upgraded first random reads) v
system_step-IsHealthy env y (client remote_addr upgraded first random random_session reads) v =
    arrive-IsHealthy _ y
      (Sound-client_task env _ remote_addr upgraded first random random_session reads) v
system_step-IsHealthy env y (runs i) v =
    let (m, (c, g)) = advance-Access i y.tasks y.server v.coherent v.sound in
    record {
      coherent = Access-IsCoherent m v.coherent;
      sound = g;
      paid = advance-IsPaid i y.tasks y.server (m, (c, g)) v.paid;
    }

pub run_system-IsHealthy :
    (env : Env) (es : List SystemEvent) (y : System) → IsHealthy y → IsHealthy (run_system env y es)
unfolding run_system
run_system-IsHealthy env [] y v = v
run_system-IsHealthy env (e ∷ es) y v =
    run_system-IsHealthy env es (system_step env y e) (system_step-IsHealthy env y e v)

new_system-IsHealthy : IsHealthy new_system
unfolding new_system new_relay_server get
new_system-IsHealthy = record {
  coherent = record {
    hub_distinct = tt;
    auth_distinct = tt;
    sessions_distinct = tt;
    hub_peers = tt;
    auth_entries = tt;
    session_pairs = tt;
  };
  sound = tt;
  paid = settled;
}
  where
    settled : IsPaid [] (stores new_relay_server)
    settled (hub_entry k) = inl refl
    settled (registrations n) = inl tt
    settled (client_sessions n) = inl tt

pub reached-IsHealthy :
    (env : Env) (es : List SystemEvent) → IsHealthy (run_system env new_system es)
reached-IsHealthy env es = run_system-IsHealthy env es new_system new_system-IsHealthy

-- However the goroutines interleave: every map has distinct keys, the hub and the sessions hold their
-- values under their own ids, only connectors are registered, each session is between a client and a
-- connector, and every peer in the stores has an address below the next.
pub run_system-IsCoherent :
    (env : Env) (es : List SystemEvent) → IsCoherent (stores (run_system env new_system es).server)
run_system-IsCoherent env es = (reached-IsHealthy env es).coherent

IsHealthy-Access :
    (env : Env) (y : System) (e : SystemEvent)
    → IsHealthy y
    → Access (stores y.server) (stores (system_step env y e).server)
unfolding system_step
IsHealthy-Access env y (tunnel remote_addr upgraded first random reads) v = rest refl
IsHealthy-Access env y (client remote_addr upgraded first random random_session reads) v = rest refl
IsHealthy-Access env y (runs i) v = (advance-Access i y.tasks y.server v.coherent v.sound).0

-- However the goroutines interleave, each event does at most one of eight accesses to the stores: a new
-- peer joins, a connector registers, a session between a client and a connector opens, a session is
-- deleted, a peer's registrations, its sessions or its entry of the hub are deleted, or nothing changes.
pub system_step-Access :
    (env : Env) (es : List SystemEvent) (e : SystemEvent)
    → Access
        (stores (run_system env new_system es).server)
        (stores (system_step env (run_system env new_system es) e).server)
system_step-Access env es e =
    IsHealthy-Access env (run_system env new_system es) e (reached-IsHealthy env es)
