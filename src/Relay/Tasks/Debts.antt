-- ===== src/Relay/Tasks/Debts.antt =====
-- relay/main.go: what a goroutine has put in a store, it still has to take out.
use open_claw_bridge.Common.{
  ℕ, Bool, false, Option, none, some, [], ◌∷◌, ◌==◌, ◌≡◌, ◌⊎◌, inl, inr, refl, sym, subst, ap,
  arith, Bool-cases,
}
use open_claw_bridge.Text.{Bytes}
use open_claw_bridge.Text.Laws.{text_eq_iff, text_eq_refl}
use open_claw_bridge.GoMap.{Map, get, put, delete_where}
use open_claw_bridge.GoMap.Laws.{get-put, get-delete}
use open_claw_bridge.Relay.Stores.{Peer, Entry, Session, points_to, entry_of, session_of}
use open_claw_bridge.Relay.Stores.Laws.{
  AllEntries, AllEntries-delete, AllEntries-put, AllEntries-delete_where,
}
use open_claw_bridge.Relay.Spec.{Stores, stores, join, enlist, open_in, close_in}
use open_claw_bridge.Relay.Server.{Server}
use open_claw_bridge.Relay.Tasks.{Task, done, access}
use open_claw_bridge.Relay.Tasks.Access.{
  Access, rest, add_peer, set_entry, set_session, delete_session, delete_entries, delete_sessions,
  delete_peer, without_entries, without_sessions, without_peer,
}

-- An entry of the hub, the registrations of a peer by its address, the sessions of a client.
pub data Debt : Type 0 where
  hub_entry : Bytes → Debt
  registrations : ℕ → Debt
  client_sessions : ℕ → Debt

abbrev pub is_at : ℕ → Option Peer → Bool
is_at a none = false
is_at a (some p) = p.addr == a

abbrev pub IsElsewhere : ℕ → Bytes → Entry → Type 0
IsElsewhere a k e = is_at a e.peer ≡ false

abbrev pub IsOthers : ℕ → Bytes → Session → Type 0
IsOthers a k x = (x.client.addr == a) ≡ false

-- The stores hold nothing of the kind.
abbrev pub Settled : Debt → Stores → Type 0
Settled (hub_entry k) a = get a.hub k ≡ none
Settled (registrations n) a = AllEntries (IsElsewhere n) a.auth
Settled (client_sessions n) a = AllEntries (IsOthers n) a.sessions

abbrev registration_of : Option Peer → Option Debt
registration_of none = none
registration_of (some p) = some (registrations p.addr)

-- What an access leaves to be taken out.
abbrev pub incurred : {a b : Stores} → Access a b → Option Debt
incurred (add_peer p fresh e) = some (hub_entry p.id)
incurred (set_entry hash entry h e) = registration_of entry.peer
incurred (set_session x h e) = some (client_sessions x.client.addr)
incurred _ = none

-- What is left after a loop that deletes by value.
cleared :
    {V : Type 0} (P : Bytes → V → Type 0) (p : V → Bool)
    → ((k : Bytes) (v : V) → p v ≡ false → P k v)
    → (m : Map V) → AllEntries P (delete_where p m)
unfolding delete_where
cleared P p f [] = tt
cleared P p f ((k, v) ∷ m) = elim (Bool-cases (p v)) [
  | inl e ↦ rw e (cleared P p f m)
  | inr e ↦ rw e (f k v e, cleared P p f m)
]

-- The three accesses of cleanupPeer settle what its peer put in the stores.
pub Settled-without_peer : (k : Bytes) (a : Stores) → Settled (hub_entry k) (without_peer k a)
Settled-without_peer k a = ground (arith, get-delete a.hub k k, text_eq_refl k)

pub Settled-without_entries :
    (p : Peer) (a : Stores) → Settled (registrations p.addr) (without_entries p a)
Settled-without_entries p a =
    cleared (IsElsewhere p.addr) (entry_of p) (λ k e h. elsewhere e.peer h) a.auth
  where
    elsewhere : (o : Option Peer) → points_to p o ≡ false → is_at p.addr o ≡ false
    elsewhere none h = refl
    elsewhere (some q) h = h

pub Settled-without_sessions :
    (p : Peer) (a : Stores) → Settled (client_sessions p.addr) (without_sessions p a)
Settled-without_sessions p a =
    cleared (IsOthers p.addr) (session_of p) (λ k x h. ground arith) a.sessions

-- An access leaves a settled debt settled, or incurs it.
pub Settled-Access :
    {a b : Stores} (m : Access a b) (d : Debt) → Settled d a → Settled d b ⊎ (incurred m ≡ some d)
Settled-Access {a} {b} m d h = settled m d h
  where
    to : (d : Debt) (c : Stores) → b ≡ c → Settled d c → Settled d b
    to d c e g = subst (Settled d) (sym e) g

    hub :
        (p : Peer) (k : Bytes) → get a.hub k ≡ none → (get (put a.hub p.id p) k ≡ none) ⊎ (p.id ≡ k)
    hub p k g = ground (arith, get-put a.hub p.id k p, text_eq_iff p.id k)

    entry :
        (hash : Bytes) (e : Entry) (o : Option Peer) (n : ℕ)
        → e.peer ≡ o
        → AllEntries (IsElsewhere n) a.auth
        → AllEntries (IsElsewhere n) (put a.auth hash e)
          ⊎ (registration_of o ≡ some (registrations n))
    entry hash e none n same g = inl (AllEntries-put (IsElsewhere n) a.auth hash e (rw same refl) g)
    entry hash e (some p) n same g = elim (Bool-cases (p.addr == n)) [
      | inl at ↦ inr (ground arith)
      | inr off ↦ inl (AllEntries-put (IsElsewhere n) a.auth hash e (rw same off) g)
    ]

    settled : (m : Access a b) (d : Debt) → Settled d a → Settled d b ⊎ (incurred m ≡ some d)
    settled (rest e) d h = inl (to d a e h)
    settled (add_peer p fresh e) (hub_entry k) h = elim (hub p k h) [
      | inl g ↦ inl (to (hub_entry k) (join p a) e g)
      | inr same ↦ inr (ap (λ i. some (hub_entry i)) same)
    ]
    settled (add_peer p fresh e) (registrations n) h = inl (to (registrations n) (join p a) e h)
    settled (add_peer p fresh e) (client_sessions n) h = inl (to (client_sessions n) (join p a) e h)
    settled (set_entry hash x c e) (hub_entry k) h = inl (to (hub_entry k) (enlist hash x a) e h)
    settled (set_entry hash x c e) (registrations n) h = elim (entry hash x x.peer n refl h) [
      | inl g ↦ inl (to (registrations n) (enlist hash x a) e g)
      | inr g ↦ inr g
    ]
    settled (set_entry hash x c e) (client_sessions n) h =
        inl (to (client_sessions n) (enlist hash x a) e h)
    settled (set_session x c e) (hub_entry k) h = inl (to (hub_entry k) (open_in x a) e h)
    settled (set_session x c e) (registrations n) h = inl (to (registrations n) (open_in x a) e h)
    settled (set_session x c e) (client_sessions n) h = elim (Bool-cases (x.client.addr == n)) [
      | inl at ↦ inr (ground arith)
      | inr off ↦ inl (
          to (client_sessions n) (open_in x a) e
            (AllEntries-put (IsOthers n) a.sessions x.id x off h))
    ]
    settled (delete_session k e) (hub_entry j) h = inl (to (hub_entry j) (close_in k a) e h)
    settled (delete_session k e) (registrations n) h = inl (to (registrations n) (close_in k a) e h)
    settled (delete_session k e) (client_sessions n) h =
        inl
          (to (client_sessions n) (close_in k a) e (AllEntries-delete (IsOthers n) a.sessions k h))
    settled (delete_entries p e) (hub_entry j) h = inl (to (hub_entry j) (without_entries p a) e h)
    settled (delete_entries p e) (registrations n) h = inl (
        to (registrations n) (without_entries p a) e
          (AllEntries-delete_where (IsElsewhere n) (entry_of p) a.auth h))
    settled (delete_entries p e) (client_sessions n) h =
        inl (to (client_sessions n) (without_entries p a) e h)
    settled (delete_sessions p e) (hub_entry j) h =
        inl (to (hub_entry j) (without_sessions p a) e h)
    settled (delete_sessions p e) (registrations n) h =
        inl (to (registrations n) (without_sessions p a) e h)
    settled (delete_sessions p e) (client_sessions n) h = inl (
        to (client_sessions n) (without_sessions p a) e
          (AllEntries-delete_where (IsOthers n) (session_of p) a.sessions h))
    settled (delete_peer k e) (hub_entry j) h =
        inl (to (hub_entry j) (without_peer k a) e (ground (arith, get-delete a.hub k j)))
    settled (delete_peer k e) (registrations n) h =
        inl (to (registrations n) (without_peer k a) e h)
    settled (delete_peer k e) (client_sessions n) h =
        inl (to (client_sessions n) (without_peer k a) e h)

-- A task that settles a debt, whatever the others do: at its next access, or after it.
abbrev pub Owes : Debt → Task → Type 0
Owes d done = ⊥
Owes d (access f go) = ((s : Server) → Settled d (stores (f s))) ⊎ ((s : Server) → Owes d (go s))

abbrev pub Covers : Option Debt → Task → Type 0
Covers none t = Unit
Covers (some d) t = Owes d t
