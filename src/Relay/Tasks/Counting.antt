-- ===== src/Relay/Tasks/Counting.antt =====
-- metrics.go under the goroutines of relay/main.go: between the write of a DATA frame and the access that
-- counts it, its bytes are outstanding.
use open_claw_bridge.Common.{
  ℕ, ◌+◌, ◌%◌, ◌^◌, ◌<◌, if◌then◌else◌, Option, none, some, List, [], ◌∷◌, length, ◌≡◌, refl, ap,
  arith, Bool-cases, inl, inr,
}
use open_claw_bridge.Text.{Bytes, codes}
use open_claw_bridge.Protocol.Control.{Caps, ControlMessage, encode_control}
use open_claw_bridge.Relay.Network
use open_claw_bridge.Relay.Network.{
  Network, Message, Read, text, binary, received, read_error, can_write,
}
use open_claw_bridge.Relay.Stores.{
  Peer, Role, Collector, role_connector, role_client, add_forwarded_bytes, inc_error, allow,
  auth_set, sessions_delete, sessions_delete_by_peer,
}
use open_claw_bridge.Relay.Server.{Env, Server, send}
use open_claw_bridge.Relay.Accept.{new_peer, register_message, connect_message}
use open_claw_bridge.Relay.Accounting.{data_bytes}
use open_claw_bridge.Relay.Tasks.{
  Task, done, access, send_task, counted_task, cleanup_task, leave_hub_task, drop_task, loop_task,
  join_task, register_task, entry_for, registered_task, tunnel_task, session_of_connect, found_task,
  connect_task, connected_task, client_task,
}
use open_claw_bridge.Relay.Tasks.Passing.{
  Passes, error_task_lem, notify_task_lem, message_task_lem, close_previous_task_lem, told_task_lem,
}

-- From `n` bytes outstanding to `k`: a bytes are written, b are counted.
pub record Tallies (n k : ℕ) (s s' : Server) : Type 0 where
  pub a : ℕ
  pub b : ℕ
  pub written : data_bytes s'.network.log ≡ a + data_bytes s.network.log
  pub counted : s'.metrics.forwarded_bytes % 2 ^ 64 ≡ (s.metrics.forwarded_bytes + b) % 2 ^ 64
  pub balance : k + b ≡ n + a
  pub bounded : s.metrics.forwarded_bytes < 2 ^ 64 → s'.metrics.forwarded_bytes < 2 ^ 64

-- A task that still counts the `n` bytes that it has outstanding, and all that it writes.
abbrev pub Balanced : ℕ → Task → Type 0
Balanced n done = n ≡ 0
Balanced n (access f go) = (s : Server) → (k : ℕ) × (Tallies n k s (f s) × Balanced k (go s))

-- An access that writes no DATA frame and does not touch the counter.
pub record SameBytes (s s' : Server) : Type 0 where
  pub same_bytes : data_bytes s'.network.log ≡ data_bytes s.network.log
  pub same_count : s'.metrics.forwarded_bytes ≡ s.metrics.forwarded_bytes

pub SameBytes-Tallies : (n : ℕ) (s s' : Server) → SameBytes s s' → Tallies n n s s'
SameBytes-Tallies n s s' h = record {
  a = 0;
  b = 0;
  written = omega (arith, h.same_bytes);
  counted = omega (arith, h.same_count);
  balance = omega arith;
  bounded = λ le. omega (arith, h.same_count, le);
}

same-Balanced :
    (f : Server → Server) (go : Server → Task)
    → ((s : Server) → SameBytes s (f s))
    → ((s : Server) → Balanced 0 (go s))
    → Balanced 0 (access f go)
same-Balanced f go h g = λ s. (0, (SameBytes-Tallies 0 s (f s) (h s), g s))

send-SameBytes :
    (env : Env) (p : Peer) (b : Bytes) (s : Server) → SameBytes s (send env p (text b) s).0
unfolding send Network.write
send-SameBytes env p b s = elim (Bool-cases (can_write env.faults p.conn s.network)) [
  | inl e ↦ rw e (record { same_bytes = refl; same_count = refl })
  | inr e ↦ rw e (record { same_bytes = refl; same_count = refl })
]

counted-Balanced : (f : Bytes) (go : Task) → Balanced 0 go → Balanced (length f) (counted_task f go)
unfolding add_forwarded_bytes
counted-Balanced f go h = λ s. (
  0,
  (
    record {
      a = 0;
      b = length f;
      written = omega arith;
      counted = omega arith;
      balance = omega arith;
      bounded = λ le. omega arith;
    },
    h,
  ),
)

-- The write of a DATA frame, with the access that counts it or what follows a failure.
frame-Balanced :
    (env : Env) (t : Peer) (f : Bytes) (go failed : Task)
    → Balanced 0 go
    → Balanced 0 failed
    → Balanced 0 (send_task env t (binary f) (λ sent. if sent then counted_task f go else failed))
unfolding send Network.write
frame-Balanced env t f go failed h g = λ s.
    elim (Bool-cases (can_write env.faults t.conn s.network)) [
      | inl e ↦ rw e (
        length f,
        (
          record {
            a = length f;
            b = 0;
            written = refl;
            counted = omega arith;
            balance = omega arith;
            bounded = λ le. le;
          },
          counted-Balanced f go h,
        ),
      )
      | inr e ↦
          rw e (0, (SameBytes-Tallies 0 s _ (record { same_bytes = refl; same_count = refl }), g))
    ]

Balanced-Passes : (env : Env) → Passes env (Balanced 0)
unfolding inc_error Network.close
Balanced-Passes env = record {
  control_task_lem = λ p m go h.
      same-Balanced (λ s. (send env p (text (encode_control env.codec m)) s).0)
        (λ s. go (send env p (text (encode_control env.codec m)) s).1)
        (send-SameBytes env p (encode_control env.codec m)) (λ s. h _);
  count_task_lem = λ go h.
      same-Balanced _ (λ s. go) (λ s. record { same_bytes = refl; same_count = refl }) (λ s. h);
  look_lem =
      λ go h. same-Balanced (λ s. s) go (λ s. record { same_bytes = refl; same_count = refl }) h;
  delete_lem = λ k go h.
      same-Balanced (λ s. record s { sessions = (sessions_delete s.sessions k).0 }) go
        (λ s. record { same_bytes = refl; same_count = refl }) h;
  close_lem = λ conn go h.
      same-Balanced (λ s. record s { network = Network.close conn s.network }) (λ s. go)
        (λ s. record { same_bytes = refl; same_count = refl }) (λ s. h);
  frame_lem = frame-Balanced env;
}

-- An access to a store.
stored : (s s' : Server) → s'.network ≡ s.network → s'.metrics ≡ s.metrics → Tallies 0 0 s s'
stored s s' n m = SameBytes-Tallies 0 s s' (record {
  same_bytes = ap (λ (x : Network). data_bytes x.log) n;
  same_count = ap (λ (x : Collector). x.forwarded_bytes) m;
})

module _ (env : Env) where
  drop-Balanced : (conn : ℕ) → Balanced 0 (drop_task conn)
  drop-Balanced conn = (Balanced-Passes env).close_lem conn done refl

  cleanup-Balanced : (p : Peer) → Balanced 0 (cleanup_task env p)
  unfolding cleanup_task
  cleanup-Balanced p = λ s. (
    0,
    (
      stored _ _ refl refl,
      λ s. (
        0,
        (
          stored _ _ refl refl,
          notify_task_lem env (Balanced 0) (Balanced-Passes env) p
              (sessions_delete_by_peer s.sessions p).1 (leave_hub_task p)
              (λ s. (0, (stored _ _ refl refl, drop-Balanced p.conn))),
        ),
      ),
    ),
  )

  loop-Balanced : (p : Peer) (reads : List Read) → Balanced 0 (loop_task env p reads)
  unfolding loop_task
  loop-Balanced p [] = cleanup-Balanced p
  loop-Balanced p (read_error ∷ reads) = cleanup-Balanced p
  loop-Balanced p (received m ∷ reads) =
      message_task_lem env (Balanced 0) (Balanced-Passes env) p m (loop_task env p reads)
        (loop-Balanced p reads)

  join-Balanced :
      (prefix : Bytes) (random : Option Bytes) (role : Role) (conn : ℕ) (go : Peer → Task)
      → ((p : Peer) → Balanced 0 (go p))
      → Balanced 0 (join_task prefix random role conn go)
  join-Balanced prefix random role conn go h =
      λ s. (0, (stored _ _ refl refl, h (new_peer prefix random role conn s)))

  registered-Balanced :
      (random : Option Bytes) (conn : ℕ) (o : Option ControlMessage) (reads : List Read)
      → Balanced 0 (registered_task env random conn o reads)
  registered-Balanced random conn none reads = drop-Balanced conn
  registered-Balanced random conn (some msg) reads =
      join-Balanced (codes "c_") random role_connector conn
        (λ p. register_task p msg (loop_task env p reads))
        (λ p s. (
          0,
          (
            stored _ _ refl refl,
            close_previous_task_lem env (Balanced 0) (Balanced-Passes env) p
                (auth_set s.auth msg.access_code_hash (entry_for p msg)).1 (loop_task env p reads)
                (loop-Balanced p reads),
          ),
        ))

  pub tunnel-Balanced :
      (remote_addr : Bytes) (upgraded : Option ℕ) (first : Read) (random : Option Bytes)
      (reads : List Read)
      → Balanced 0 (tunnel_task env remote_addr upgraded first random reads)
  unfolding tunnel_task allow
  tunnel-Balanced remote_addr none first random reads =
      (Balanced-Passes env).count_task_lem done refl
  tunnel-Balanced remote_addr (some conn) first random reads =
      registered-Balanced random conn (register_message env first) reads

  found-Balanced :
      (p : Peer) (msg : ControlMessage) (random : Option Bytes) (reads : List Read)
      (o : Option (Peer × Caps))
      → Balanced 0 (found_task env p msg random reads o)
  found-Balanced p msg random reads none =
      error_task_lem env (Balanced 0) (Balanced-Passes env) p _ _ _ (cleanup-Balanced p)
  found-Balanced p msg random reads (some (c, caps)) = λ s. (
    0,
    (
      stored _ _ refl refl,
      told_task_lem env (Balanced 0) (Balanced-Passes env) (session_of_connect p c msg random) caps
          (loop_task env p reads) (loop-Balanced p reads) (cleanup-Balanced p),
    ),
  )

  connected-Balanced :
      (random random_session : Option Bytes) (conn : ℕ) (o : Option ControlMessage)
      (reads : List Read)
      → Balanced 0 (connected_task env random random_session conn o reads)
  connected-Balanced random random_session conn none reads = drop-Balanced conn
  connected-Balanced random random_session conn (some msg) reads =
      join-Balanced (codes "u_") random role_client conn
        (λ p. connect_task env p msg random_session reads)
        (λ p. (Balanced-Passes env).look_lem _ (λ s. found-Balanced p msg random_session reads _))

  pub client-Balanced :
      (remote_addr : Bytes) (upgraded : Option ℕ) (first : Read)
      (random random_session : Option Bytes) (reads : List Read)
      → Balanced 0 (client_task env remote_addr upgraded first random random_session reads)
  unfolding client_task allow
  client-Balanced remote_addr none first random random_session reads =
      (Balanced-Passes env).count_task_lem done refl
  client-Balanced remote_addr (some conn) first random random_session reads =
      connected-Balanced random random_session conn (connect_message env first) reads
