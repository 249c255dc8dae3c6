-- ===== src/Relay/Tasks/Counted.antt =====
-- metrics.go under every interleaving of the goroutines of relay/main.go.
use open_claw_bridge.Common.{
  ℕ, zero, suc, ◌+◌, ◌%◌, ◌^◌, ◌<◌, List, [], ◌∷◌, All, ◌≡◌, refl, subst, arith,
}
use open_claw_bridge.Relay.Server.{Env, Server, new_relay_server}
use open_claw_bridge.Relay.Accounting.{data_bytes, IsCounted}
use open_claw_bridge.Relay.Tasks.{Task, done, access}
use open_claw_bridge.Relay.Tasks.Counting.{
  Tallies, Balanced, SameBytes-Tallies, tunnel-Balanced, client-Balanced,
}
use open_claw_bridge.Relay.Tasks.System.{
  SystemEvent, tunnel, client, runs, System, advance, arrive, system_step, run_system, new_system,
  IsQuiet,
}

-- The goroutines together have `n` bytes outstanding.
abbrev Outstanding : ℕ → List Task → Type 0
Outstanding n [] = n ≡ 0
Outstanding n (t ∷ ts) = (i : ℕ) × ((j : ℕ) × ((n ≡ i + j) × (Balanced i t × Outstanding j ts)))

record IsTallied (y : System) : Type 0 where
  n : ℕ
  outstanding : Outstanding n y.tasks
  total : (y.server.metrics.forwarded_bytes + n) % 2 ^ 64 ≡ data_bytes y.server.network.log % 2 ^ 64
  bounded : y.server.metrics.forwarded_bytes < 2 ^ 64

-- What the other goroutines have outstanding stays so.
Tallies-add : (i j n k : ℕ) (s s' : Server) → n ≡ i + j → Tallies i k s s' → Tallies n (k + j) s s'
Tallies-add i j n k s s' e m = record {
  a = m.a;
  b = m.b;
  written = m.written;
  counted = m.counted;
  balance = omega (arith, e, m.balance);
  bounded = m.bounded;
}

Tallies-add_left :
    (i j n k : ℕ) (s s' : Server) → n ≡ i + j → Tallies j k s s' → Tallies n (i + k) s s'
Tallies-add_left i j n k s s' e m = record {
  a = m.a;
  b = m.b;
  written = m.written;
  counted = m.counted;
  balance = omega (arith, e, m.balance);
  bounded = m.bounded;
}

stays-Tallies : (n : ℕ) (s : Server) → Tallies n n s s
stays-Tallies n s = SameBytes-Tallies n s s (record { same_bytes = refl; same_count = refl })

advance-Outstanding :
    (i : ℕ) (ts : List Task) (s : Server) (n : ℕ)
    → Outstanding n ts
    → (k : ℕ) × (Tallies n k s (advance i ts s).0 × Outstanding k (advance i ts s).1)
unfolding advance
advance-Outstanding i [] s n h = (n, (stays-Tallies n s, h))
advance-Outstanding zero (done ∷ ts) s n h = (n, (stays-Tallies n s, h))
advance-Outstanding zero (access f go ∷ ts) s n (i, (j, (e, (h, others)))) =
    let (k, (m, later)) = h s in
    (k + j, (Tallies-add i j n k s (f s) e m, (k, (j, (refl, (later, others))))))
advance-Outstanding (suc place) (t ∷ ts) s n (i, (j, (e, (h, others)))) =
    let (k, (m, later)) = advance-Outstanding place ts s j others in
    (i + k, (Tallies-add_left i j n k s (advance place ts s).0 e m, (i, (k, (refl, (h, later))))))

Tallies-IsTallied :
    (y z : System) (n k : ℕ)
    → Tallies n k y.server z.server
    → Outstanding k z.tasks
    → (y.server.metrics.forwarded_bytes + n) % 2 ^ 64 ≡ data_bytes y.server.network.log % 2 ^ 64
    → y.server.metrics.forwarded_bytes < 2 ^ 64
    → IsTallied z
Tallies-IsTallied y z n k m h total le = record {
  n = k;
  outstanding = h;
  total = omega (arith, m.written, m.counted, m.balance, total);
  bounded = m.bounded le;
}

arrive-IsTallied : (t : Task) (y : System) → Balanced 0 t → IsTallied y → IsTallied (arrive t y)
arrive-IsTallied t y h v = record {
  n = v.n;
  outstanding = (0, (v.n, (omega arith, (h, v.outstanding))));
  total = v.total;
  bounded = v.bounded;
}

module _ (env : Env) where
  step-IsTallied : (y : System) (e : SystemEvent) → IsTallied y → IsTallied (system_step env y e)
  unfolding system_step
  step-IsTallied y (tunnel remote_addr upgraded first random reads) v =
      arrive-IsTallied _ y (tunnel-Balanced env remote_addr upgraded first random reads) v
  step-IsTallied y (client remote_addr upgraded first random random_session reads) v =
      arrive-IsTallied _ y
        (client-Balanced env remote_addr upgraded first random random_session reads) v
  step-IsTallied y (runs i) v =
      let (k, (m, h)) = advance-Outstanding i y.tasks y.server v.n v.outstanding in
      let next = advance i y.tasks y.server in
      Tallies-IsTallied y (record { server = next.0; tasks = next.1 }) v.n k m h v.total v.bounded

  run-IsTallied :
      (es : List SystemEvent) (y : System) → IsTallied y → IsTallied (run_system env y es)
  unfolding run_system
  run-IsTallied [] y v = v
  run-IsTallied (e ∷ es) y v = run-IsTallied es (system_step env y e) (step-IsTallied y e v)

new_system-IsTallied : IsTallied new_system
unfolding new_system new_relay_server
new_system-IsTallied = record { n = 0; outstanding = refl; total = refl; bounded = omega arith }

Outstanding-quiet : (n : ℕ) (ts : List Task) → All (λ t. t ≡ done) ts → Outstanding n ts → n ≡ 0
Outstanding-quiet n [] q h = h
Outstanding-quiet n (t ∷ ts) q (i, (j, (e, (h, others)))) =
    let none_here : i ≡ 0 = subst (Balanced i) q.0 h in
    let none_there : j ≡ 0 = Outstanding-quiet j ts q.1 others in
    omega (arith, e, none_here, none_there)

-- However the goroutines interleaved: once all of them have returned, the counter of forwarded bytes is
-- the sum of the lengths of the DATA frames that were written, modulo 2^64.
pub run_system-IsCounted :
    (env : Env) (es : List SystemEvent)
    → IsQuiet (run_system env new_system es)
    → IsCounted (run_system env new_system es).server
run_system-IsCounted env es q =
    let v = run-IsTallied env es new_system new_system-IsTallied in
    let settled : v.n ≡ 0 =
      Outstanding-quiet v.n (run_system env new_system es).tasks q v.outstanding in
    record { counted = omega (arith, v.total, v.bounded, settled) }
