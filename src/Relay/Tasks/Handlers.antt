-- ===== src/Relay/Tasks/Handlers.antt =====
-- relay/main.go: the goroutines of /tunnel and /client do what the stores allow, and take out of the
-- stores whatever they put in, also where others run between their accesses.
use open_claw_bridge.Common.{
  ℕ, suc, ◌<◌, ◌≤◌, Option, none, some, List, [], ◌∷◌, ◌≡◌, inr, refl, arith,
}
use open_claw_bridge.Text.{Bytes, codes}
use open_claw_bridge.Protocol.Control.{Caps, ControlMessage, hash_access_code}
use open_claw_bridge.Relay.Network.{Read, received, read_error}
use open_claw_bridge.Relay.Stores.{
  Peer, Role, Session, role_connector, role_client, hub_add, auth_set, auth_get, sessions_set,
  allow,
}
use open_claw_bridge.Relay.Stores.Laws.{AllEntries-get}
use open_claw_bridge.Relay.Server.{Env}
use open_claw_bridge.Relay.Accept.{new_peer, register_message, connect_message, online}
use open_claw_bridge.Relay.Spec.{IsConnector}
use open_claw_bridge.Relay.Spec.Refinement.{IsConnector-online}
use open_claw_bridge.Relay.Tasks.{
  Task, loop_task, join_task, close_previous_task, register_task, registered_task, tunnel_task,
  told_task, open_task, session_of_connect, found_task, connect_task, connected_task, client_task,
  drop_task, cleanup_task, done, entry_for,
}
use open_claw_bridge.Relay.Tasks.Access.{
  rest, add_peer, set_entry, set_session, IsBetween, IsEntry, IsRegistered,
}
use open_claw_bridge.Relay.Tasks.Debts.{Debt, hub_entry, registrations, client_sessions, Owes}
use open_claw_bridge.Relay.Tasks.Behaviour.{
  Sound, Sound-access, Sound-told_task, Sound-message_task, Sound-count_task, Sound-error_task,
  Sound-cleanup_task, Owes-told_task, Owes-message_task, Owes-error_task, Owes-cleanup_task_entries,
  Sound-close_previous_task, Owes-close_previous_task, Owes-cleanup_task_sessions,
  Owes-cleanup_task_hub,
}

-- The read loop.
Sound-loop_task :
    (env : Env) (n : ℕ) (p : Peer) (reads : List Read) → Sound n (loop_task env p reads)
unfolding loop_task
Sound-loop_task env n p [] = Sound-cleanup_task env n p
Sound-loop_task env n p (read_error ∷ reads) = Sound-cleanup_task env n p
Sound-loop_task env n p (received m ∷ reads) =
    Sound-message_task env n p m (loop_task env p reads) (Sound-loop_task env n p reads)

Owes-loop_task :
    (env : Env) (d : Debt) (p : Peer) (reads : List Read)
    → Owes d (cleanup_task env p)
    → Owes d (loop_task env p reads)
unfolding loop_task
Owes-loop_task env d p [] h = h
Owes-loop_task env d p (read_error ∷ reads) h = h
Owes-loop_task env d p (received m ∷ reads) h =
    Owes-message_task env d p m (loop_task env p reads) (Owes-loop_task env d p reads h)

Sound-drop_task : (n conn : ℕ) → Sound n (drop_task conn)
Sound-drop_task n conn = λ s le v. (rest refl, (tt, tt))

-- A peer that joins owes its entry of the hub.
Sound-join_task :
    (n : ℕ) (prefix : Bytes) (random : Option Bytes) (role : Role) (conn : ℕ) (go : Peer → Task)
    → ((p : Peer)
        → p.role ≡ role
        → Owes (hub_entry p.id) (go p) × ((k : ℕ) → p.addr < k → Sound k (go p)))
    → Sound n (join_task prefix random role conn go)
unfolding hub_add
Sound-join_task n prefix random role conn go h = λ s le v.
    let p : Peer = new_peer prefix random role conn s in
    (add_peer p refl refl, ((h p refl).0, (h p refl).1 (suc s.next_addr) (omega arith)))

-- A connector that registers owes its registrations.
Sound-register_task :
    (env : Env) (n : ℕ) (p : Peer) (msg : ControlMessage) (go : Task)
    → p.addr < n
    → p.role ≡ role_connector
    → Owes (registrations p.addr) go
    → Sound n go
    → Sound n (register_task p msg go)
unfolding auth_set
Sound-register_task env n p msg go made role owes sound =
    Sound-access n
      (λ s. record s { auth = (auth_set s.auth msg.access_code_hash (entry_for p msg)).0 })
      (λ s. close_previous_task p (auth_set s.auth msg.access_code_hash (entry_for p msg)).1 go)
      (λ s le v. (
        set_entry msg.access_code_hash (entry_for p msg) (omega (arith, made, le), role) refl,
        Owes-close_previous_task env (registrations p.addr) p _ go owes,
      ))
      (λ s. Sound-close_previous_task env n p _ go sound)

Owes-register_task :
    (env : Env) (d : Debt) (p : Peer) (msg : ControlMessage) (go : Task)
    → Owes d go
    → Owes d (register_task p msg go)
Owes-register_task env d p msg go h = inr (λ s. Owes-close_previous_task env d p _ go h)

registered-Sound :
    (env : Env) (n : ℕ) (random : Option Bytes) (conn : ℕ) (o : Option ControlMessage)
    (reads : List Read)
    → Sound n (registered_task env random conn o reads)
registered-Sound env n random conn none reads = Sound-drop_task n conn
registered-Sound env n random conn (some msg) reads =
    Sound-join_task n (codes "c_") random role_connector conn
      (λ p. register_task p msg (loop_task env p reads))
      (λ p role. (
        Owes-register_task env (hub_entry p.id) p msg _
            (Owes-loop_task env (hub_entry p.id) p reads (Owes-cleanup_task_hub env p)),
        λ k made.
            Sound-register_task env k p msg _ made role
              (Owes-loop_task env (registrations p.addr) p reads (Owes-cleanup_task_entries env p))
              (Sound-loop_task env k p reads),
      ))

pub Sound-tunnel_task :
    (env : Env) (n : ℕ) (remote_addr : Bytes) (upgraded : Option ℕ) (first : Read)
    (random : Option Bytes) (reads : List Read)
    → Sound n (tunnel_task env remote_addr upgraded first random reads)
unfolding tunnel_task allow
Sound-tunnel_task env n remote_addr none first random reads = Sound-count_task env n done tt
Sound-tunnel_task env n remote_addr (some conn) first random reads =
    registered-Sound env n random conn (register_message env first) reads

-- A client that opens a session owes its sessions.
module _ (env : Env) (x : Session) (caps : Caps) (served : Task) where
  Sound-open_task :
      (n : ℕ)
      → IsBetween n x
      → Owes (client_sessions x.client.addr) served
      → Sound n served
      → Sound n (open_task env x caps served)
  unfolding sessions_set
  Sound-open_task n h owes sound =
      Sound-access n (λ s. record s { sessions = sessions_set s.sessions x })
        (λ _. told_task env x caps served)
        (λ s le v. (
          set_session x (later n s.next_addr h le) refl,
          Owes-told_task env (client_sessions x.client.addr) x caps served owes
              (Owes-cleanup_task_sessions env x.client),
        ))
        (λ _. Sound-told_task env n x caps served sound (Sound-cleanup_task env n x.client))
    where
      later : (n k : ℕ) → IsBetween n x → n ≤ k → IsBetween k x
      later n k h le = ground arith

  Owes-open_task :
      (d : Debt)
      → Owes d served
      → Owes d (cleanup_task env x.client)
      → Owes d (open_task env x caps served)
  Owes-open_task d h g = inr (λ _. Owes-told_task env d x caps served h g)

IsRegistered-IsConnector : (n : ℕ) (o : Option Peer) → IsRegistered n o → IsConnector n o
IsRegistered-IsConnector n none h = tt
IsRegistered-IsConnector n (some p) h = h

module _ (env : Env) (p : Peer) (msg : ControlMessage) (random : Option Bytes)
    (reads : List Read) where
  Sound-found_task :
      (n : ℕ) (o : Option (Peer × Caps))
      → p.addr < n
      → p.role ≡ role_client
      → ((c : Peer) (caps : Caps) → o ≡ some (c, caps) → (c.addr < n) × (c.role ≡ role_connector))
      → Sound n (found_task env p msg random reads o)
  Sound-found_task n none made role h = Sound-error_task env n p _ _ _ (Sound-cleanup_task env n p)
  Sound-found_task n (some (c, caps)) made role h =
      Sound-open_task env (session_of_connect p c msg random) caps (loop_task env p reads) n
        (record {
          client_role = role;
          connector_role = (h c caps refl).1;
          client_made = made;
          connector_made = (h c caps refl).0;
        })
        (Owes-loop_task env (client_sessions p.addr) p reads (Owes-cleanup_task_sessions env p))
        (Sound-loop_task env n p reads)

  Owes-found_task :
      (d : Debt) (o : Option (Peer × Caps))
      → Owes d (cleanup_task env p)
      → Owes d (found_task env p msg random reads o)
  Owes-found_task d none h = Owes-error_task env d p _ _ _ h
  Owes-found_task d (some (c, caps)) h =
      Owes-open_task env (session_of_connect p c msg random) caps (loop_task env p reads) d
        (Owes-loop_task env d p reads h) h

  -- The connector that is found was registered, so it is a peer that was made.
  Sound-connect_task :
      (n : ℕ) → p.addr < n → p.role ≡ role_client → Sound n (connect_task env p msg random reads)
  unfolding auth_get
  Sound-connect_task n made role = λ s le v.
      let hash : Bytes = hash_access_code env.sha256 msg.access_code in
      (
        rest refl,
        (
          tt,
          Sound-found_task s.next_addr (online (auth_get s.auth hash)) (omega (arith, made, le))
              role
              (λ c caps. IsConnector-online s.next_addr (auth_get s.auth hash) c caps (λ e found.
                IsRegistered-IsConnector s.next_addr e.peer
                  (AllEntries-get (IsEntry s.next_addr) s.auth hash e v.auth_entries found))),
        ),
      )

connected-Sound :
    (env : Env) (n : ℕ) (random random_session : Option Bytes) (conn : ℕ)
    (o : Option ControlMessage) (reads : List Read)
    → Sound n (connected_task env random random_session conn o reads)
connected-Sound env n random random_session conn none reads = Sound-drop_task n conn
connected-Sound env n random random_session conn (some msg) reads =
    Sound-join_task n (codes "u_") random role_client conn
      (λ p. connect_task env p msg random_session reads)
      (λ p role. (
        inr (λ s.
            Owes-found_task env p msg random_session reads (hub_entry p.id) _
              (Owes-cleanup_task_hub env p)),
        λ k made. Sound-connect_task env p msg random_session reads k made role,
      ))

pub Sound-client_task :
    (env : Env) (n : ℕ) (remote_addr : Bytes) (upgraded : Option ℕ) (first : Read)
    (random random_session : Option Bytes) (reads : List Read)
    → Sound n (client_task env remote_addr upgraded first random random_session reads)
unfolding client_task allow
Sound-client_task env n remote_addr none first random random_session reads =
    Sound-count_task env n done tt
Sound-client_task env n remote_addr (some conn) first random random_session reads =
    connected-Sound env n random random_session conn (connect_message env first) reads
