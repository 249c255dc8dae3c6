-- ===== src/Relay/Tasks/Ending.antt =====
-- relay/main.go: when every goroutine has returned, the stores are empty.
use open_claw_bridge.Common.{
  ℕ, false, Option, none, some, List, [], ◌∷◌, All, ◌≡◌, inl, inr, refl, subst, arith,
}
use open_claw_bridge.Text.{Bytes}
use open_claw_bridge.Text.Laws.{text_eq_refl}
use open_claw_bridge.GoMap.{Map, get}
use open_claw_bridge.Relay.Stores.{Peer, Entry, Session}
use open_claw_bridge.Relay.Stores.Laws.{AllEntries}
use open_claw_bridge.Relay.Server.{Env, Server}
use open_claw_bridge.Relay.Spec.{stores}
use open_claw_bridge.Relay.Tasks.{Task, done}
use open_claw_bridge.Relay.Tasks.Access.{IsRegistered, IsEntry}
use open_claw_bridge.Relay.Tasks.Debts.{
  Debt, hub_entry, registrations, client_sessions, Settled, Owes, IsElsewhere, IsOthers, is_at,
}
use open_claw_bridge.Relay.Tasks.System.{SystemEvent, System, run_system, new_system, IsQuiet}
use open_claw_bridge.Relay.Tasks.Interleaving.{Owed, IsHealthy, reached-IsHealthy}

-- Nothing in the hub, no registration and no session.
pub record IsEmpty (s : Server) : Type 0 where
  pub no_peer : s.hub ≡ []
  pub no_registration : s.auth ≡ []
  pub no_session : s.sessions ≡ []

absent-empty : {V : Type 0} (m : Map V) → ((k : Bytes) → get m k ≡ none) → m ≡ []
unfolding get
absent-empty [] h = refl
absent-empty ((k, v) ∷ m) h = ground (arith, h k, text_eq_refl k)

others-empty : (m : Map Session) → ((n : ℕ) → AllEntries (IsOthers n) m) → m ≡ []
others-empty [] h = refl
others-empty ((k, x) ∷ m) h = ground (arith, (h x.client.addr).0)

-- A registration that is at no address would have no peer.
nowhere : (n : ℕ) (o : Option Peer) → IsRegistered n o → ((a : ℕ) → is_at a o ≡ false) → ⊥
nowhere n none r h = r
nowhere n (some p) r h = ground (arith, h p.addr)

elsewhere-empty :
    (n : ℕ) (m : Map Entry)
    → AllEntries (IsEntry n) m
    → ((a : ℕ) → AllEntries (IsElsewhere a) m)
    → m ≡ []
elsewhere-empty n [] v h = refl
elsewhere-empty n ((k, e) ∷ m) v h = elim (nowhere n e.peer v.0 (λ a. (h a).0)) [ ]

Owed-quiet : (d : Debt) (ts : List Task) → All (λ t. t ≡ done) ts → Owed d ts → ⊥
Owed-quiet d [] q h = h
Owed-quiet d (t ∷ ts) q (inl h) = subst (Owes d) q.0 h
Owed-quiet d (t ∷ ts) q (inr h) = Owed-quiet d ts q.1 h

Settled-at_end : (y : System) (d : Debt) → IsHealthy y → IsQuiet y → Settled d (stores y.server)
Settled-at_end y d v q = elim (v.paid d) [ inl h ↦ h | inr h ↦ elim (Owed-quiet d y.tasks q h) [ ] ]

quiet-IsEmpty : (y : System) → IsHealthy y → IsQuiet y → IsEmpty y.server
quiet-IsEmpty y v q = record {
  no_peer = absent-empty y.server.hub (λ k. Settled-at_end y (hub_entry k) v q);
  no_registration =
      elsewhere-empty y.server.next_addr y.server.auth v.coherent.auth_entries
        (λ n. Settled-at_end y (registrations n) v q);
  no_session = others-empty y.server.sessions (λ n. Settled-at_end y (client_sessions n) v q);
}

-- However the goroutines interleaved: once all of them have returned, the hub, the registrations and the
-- sessions are empty.
pub run_system-IsEmpty :
    (env : Env) (es : List SystemEvent)
    → IsQuiet (run_system env new_system es)
    → IsEmpty (run_system env new_system es).server
run_system-IsEmpty env es q =
    quiet-IsEmpty (run_system env new_system es) (reached-IsHealthy env es) q
