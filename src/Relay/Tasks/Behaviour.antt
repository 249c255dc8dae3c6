-- ===== src/Relay/Tasks/Behaviour.antt =====
-- relay/main.go: what the handling of a message, and the cleanup of a peer, do with one access after
-- another.
use open_claw_bridge.Common.{ℕ, ◌≤◌, Option, inl, inr, refl, arith}
use open_claw_bridge.Text.{Bytes}
use open_claw_bridge.Protocol.Control.{Caps}
use open_claw_bridge.Relay.Network.{Message}
use open_claw_bridge.Relay.Stores.{
  Peer, Entry, Session, hub_remove, sessions_delete_by_peer, auth_delete_by_peer,
}
use open_claw_bridge.Relay.Server.{Env, Server}
use open_claw_bridge.Relay.Spec.{stores}
use open_claw_bridge.Relay.Spec.Effects.{KeepsOrCloses}
use open_claw_bridge.Relay.Tasks.{
  Task, done, access, count_task, error_task, leave_hub_task, cleanup_task, message_task,
  close_previous_task, told_task,
}
use open_claw_bridge.Relay.Tasks.Access.{
  Access, rest, delete_session, delete_entries, delete_sessions, delete_peer, IsCoherent,
  Access-grows,
}
use open_claw_bridge.Relay.Tasks.Debts.{
  Debt, hub_entry, registrations, client_sessions, incurred, Owes, Covers, Settled-without_peer,
  Settled-without_entries, Settled-without_sessions,
}
use open_claw_bridge.Relay.Tasks.Passing.{
  Passes, stays-Passes, error_task_lem, notify_task_lem, message_task_lem, close_previous_task_lem,
  told_task_lem,
}

-- Where at least `n` peers were made, whatever the other goroutines do between its accesses: each
-- access is one that a store allows, and what it leaves in a store the rest of the task takes out.
abbrev pub Sound : ℕ → Task → Type 0
Sound n done = Unit
Sound n (access f go) =
    (s : Server)
    → n ≤ s.next_addr
    → IsCoherent (stores s)
    → (m : Access (stores s) (stores (f s))) × (Covers (incurred m) (go s)
        × Sound (f s).next_addr (go s))

pub Sound-mono : (n k : ℕ) (t : Task) → n ≤ k → Sound n t → Sound k t
Sound-mono n k done h g = tt
Sound-mono n k (access f go) h g = λ s le v. g s (omega arith) v

pub Sound-access :
    (n : ℕ) (f : Server → Server) (go : Server → Task)
    → ((s : Server)
        → n ≤ s.next_addr
        → IsCoherent (stores s)
        → (m : Access (stores s) (stores (f s))) × Covers (incurred m) (go s))
    → ((s : Server) → Sound n (go s))
    → Sound n (access f go)
Sound-access n f go h g = λ s le v.
    let (m, c) = h s le v in
    let grows : s.next_addr ≤ (f s).next_addr = Access-grows m in
    (m, (c, Sound-mono n (f s).next_addr (go s) (omega arith) (g s)))

-- Two instances: to be sound, and to settle a debt.
Sound-stays :
    (n : ℕ) (f : Server → Server) (go : Server → Task)
    → ((s : Server) → KeepsOrCloses (stores s) (stores (f s)))
    → ((s : Server) → Sound n (go s))
    → Sound n (access f go)
Sound-stays n f go h g = Sound-access n f go (λ s le v. allowed s (h s)) g
  where
    allowed :
        (s : Server)
        → KeepsOrCloses (stores s) (stores (f s))
        → (m : Access (stores s) (stores (f s))) × Covers (incurred m) (go s)
    allowed s (inl e) = (rest e, tt)
    allowed s (inr (k, e)) = (delete_session k e, tt)

Owes-stays :
    (d : Debt) (f : Server → Server) (go : Server → Task)
    → ((s : Server) → KeepsOrCloses (stores s) (stores (f s)))
    → ((s : Server) → Owes d (go s))
    → Owes d (access f go)
Owes-stays d f go h g = inr g

Sound-Passes : (env : Env) (n : ℕ) → Passes env (Sound n)
Sound-Passes env n = stays-Passes env (Sound n) (Sound-stays n)

Owes-Passes : (env : Env) (d : Debt) → Passes env (Owes d)
Owes-Passes env d = stays-Passes env (Owes d) (Owes-stays d)

module _ (env : Env) (n : ℕ) where
  pub Sound-message_task :
      (p : Peer) (m : Message) (go : Task) → Sound n go → Sound n (message_task env p m go)
  Sound-message_task = message_task_lem env (Sound n) (Sound-Passes env n)

  pub Sound-count_task : (go : Task) → Sound n go → Sound n (count_task go)
  Sound-count_task = (Sound-Passes env n).count_task_lem

  pub Sound-error_task :
      (p : Peer) (code message : Bytes) (go : Task)
      → Sound n go
      → Sound n (error_task env p code message go)
  Sound-error_task = error_task_lem env (Sound n) (Sound-Passes env n)

  pub Sound-told_task :
      (x : Session) (caps : Caps) (served : Task)
      → Sound n served
      → Sound n (cleanup_task env x.client)
      → Sound n (told_task env x caps served)
  Sound-told_task = told_task_lem env (Sound n) (Sound-Passes env n)

  pub Sound-close_previous_task :
      (p : Peer) (o : Option Entry) (go : Task) → Sound n go → Sound n (close_previous_task p o go)
  Sound-close_previous_task = close_previous_task_lem env (Sound n) (Sound-Passes env n)

  pub Sound-leave_hub_task : (p : Peer) → Sound n (leave_hub_task p)
  unfolding hub_remove
  Sound-leave_hub_task p = λ s le v. (delete_peer p.id refl, (tt, λ s le v. (rest refl, (tt, tt))))

pub Sound-cleanup_task : (env : Env) (n : ℕ) (p : Peer) → Sound n (cleanup_task env p)
unfolding cleanup_task auth_delete_by_peer sessions_delete_by_peer
Sound-cleanup_task env n p = λ s le v. (
  delete_entries p refl,
  (
    tt,
    λ s le v. (
      delete_sessions p refl,
      (
        tt,
        notify_task_lem env (Sound s.next_addr) (Sound-Passes env s.next_addr) p _
            (leave_hub_task p) (Sound-leave_hub_task env s.next_addr p),
      ),
    ),
  ),
)

-- The cleanup settles the three debts of its peer.
module _ (env : Env) (p : Peer) where
  pub Owes-cleanup_task_entries : Owes (registrations p.addr) (cleanup_task env p)
  unfolding cleanup_task auth_delete_by_peer
  Owes-cleanup_task_entries = inl (λ s. Settled-without_entries p (stores s))

  pub Owes-cleanup_task_sessions : Owes (client_sessions p.addr) (cleanup_task env p)
  unfolding cleanup_task sessions_delete_by_peer
  Owes-cleanup_task_sessions = inr (λ _. inl (λ s. Settled-without_sessions p (stores s)))

  pub Owes-cleanup_task_hub : Owes (hub_entry p.id) (cleanup_task env p)
  unfolding cleanup_task hub_remove
  Owes-cleanup_task_hub = inr (λ _. inr (λ s.
      notify_task_lem env (Owes (hub_entry p.id)) (Owes-Passes env (hub_entry p.id)) p
        (sessions_delete_by_peer s.sessions p).1 (leave_hub_task p)
        (inl (λ s. Settled-without_peer p.id (stores s)))))

module _ (env : Env) (d : Debt) where
  pub Owes-message_task :
      (p : Peer) (m : Message) (go : Task) → Owes d go → Owes d (message_task env p m go)
  Owes-message_task = message_task_lem env (Owes d) (Owes-Passes env d)

  pub Owes-error_task :
      (p : Peer) (code message : Bytes) (go : Task)
      → Owes d go
      → Owes d (error_task env p code message go)
  Owes-error_task = error_task_lem env (Owes d) (Owes-Passes env d)

  pub Owes-told_task :
      (x : Session) (caps : Caps) (served : Task)
      → Owes d served
      → Owes d (cleanup_task env x.client)
      → Owes d (told_task env x caps served)
  Owes-told_task = told_task_lem env (Owes d) (Owes-Passes env d)

  pub Owes-close_previous_task :
      (p : Peer) (o : Option Entry) (go : Task) → Owes d go → Owes d (close_previous_task p o go)
  Owes-close_previous_task = close_previous_task_lem env (Owes d) (Owes-Passes env d)
