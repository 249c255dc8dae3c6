-- ===== src/Relay/Tasks/Access.antt =====
-- relay/main.go: what one access can do to the relay's stores, and what every access keeps.
use open_claw_bridge.Common.{
  ℕ, suc, ◌≤◌, ◌<◌, Option, none, some, [], ◌∷◌, ◌≡◌, refl, sym, subst, arith,
}
use open_claw_bridge.Text.{Bytes}
use open_claw_bridge.GoMap.{Map, put, delete, delete_where, IsDistinct}
use open_claw_bridge.GoMap.Laws.{delete-IsDistinct, put-IsDistinct, delete_where-IsDistinct}
use open_claw_bridge.Relay.Stores.{
  Peer, Entry, Session, role_connector, role_client, entry_of, session_of,
}
use open_claw_bridge.Relay.Stores.Laws.{
  AllEntries, AllEntries-delete, AllEntries-put, AllEntries-delete_where,
}
use open_claw_bridge.Relay.Spec.{Stores, join, enlist, open_in, close_in}

-- A session between a client and a connector that were both made. Where goroutines interleave, the
-- connector may be the younger of the two.
pub record IsBetween (n : ℕ) (x : Session) : Type 0 where
  pub client_role : x.client.role ≡ role_client
  pub connector_role : x.connector.role ≡ role_connector
  pub client_made : x.client.addr < n
  pub connector_made : x.connector.addr < n

-- The registration of a connector that was made.
abbrev pub IsRegistered : ℕ → Option Peer → Type 0
IsRegistered n none = ⊥
IsRegistered n (some p) = (p.addr < n) × (p.role ≡ role_connector)

abbrev pub without_entries : Peer → Stores → Stores
without_entries p a = record a { auth = delete_where (entry_of p) a.auth }

abbrev pub without_sessions : Peer → Stores → Stores
without_sessions p a = record a { sessions = delete_where (session_of p) a.sessions }

abbrev pub without_peer : Bytes → Stores → Stores
without_peer k a = record a { hub = delete a.hub k }

-- One access, of one store at most.
pub data Access (a b : Stores) : Type 0 where
  rest : b ≡ a → Access a b
  add_peer : (p : Peer) → p.addr ≡ a.next_addr → b ≡ join p a → Access a b
  set_entry :
      (hash : Bytes) (e : Entry)
      → IsRegistered a.next_addr e.peer
      → b ≡ enlist hash e a
      → Access a b
  set_session : (x : Session) → IsBetween a.next_addr x → b ≡ open_in x a → Access a b
  delete_session : (k : Bytes) → b ≡ close_in k a → Access a b
  delete_entries : (p : Peer) → b ≡ without_entries p a → Access a b
  delete_sessions : (p : Peer) → b ≡ without_sessions p a → Access a b
  delete_peer : (k : Bytes) → b ≡ without_peer k a → Access a b

abbrev IsPeerKey : ℕ → Bytes → Peer → Type 0
IsPeerKey n k p = (k ≡ p.id) × (p.addr < n)

abbrev pub IsEntry : ℕ → Bytes → Entry → Type 0
IsEntry n k e = IsRegistered n e.peer

abbrev pub IsSession : ℕ → Bytes → Session → Type 0
IsSession n k x = (k ≡ x.id) × IsBetween n x

pub record IsCoherent (a : Stores) : Type 0 where
  pub hub_distinct : IsDistinct a.hub
  pub auth_distinct : IsDistinct a.auth
  pub sessions_distinct : IsDistinct a.sessions
  pub hub_peers : AllEntries (IsPeerKey a.next_addr) a.hub
  pub auth_entries : AllEntries (IsEntry a.next_addr) a.auth
  pub session_pairs : AllEntries (IsSession a.next_addr) a.sessions

AllEntries-mono {ℓ κ} :
    {V : Type ℓ} (P Q : Bytes → V → Type κ)
    → ((k : Bytes) (v : V) → P k v → Q k v)
    → (m : Map V) → AllEntries P m
    → AllEntries Q m
AllEntries-mono P Q f [] h = tt
AllEntries-mono P Q f ((k, v) ∷ m) h = (f k v h.0, AllEntries-mono P Q f m h.1)

IsEntry-suc : (n : ℕ) (k : Bytes) (e : Entry) → IsEntry n k e → IsEntry (suc n) k e
IsEntry-suc n k e h = ground arith

IsSession-suc : (n : ℕ) (k : Bytes) (x : Session) → IsSession n k x → IsSession (suc n) k x
IsSession-suc n k x h = ground arith

join-IsCoherent :
    (p : Peer) (a : Stores) → p.addr ≡ a.next_addr → IsCoherent a → IsCoherent (join p a)
join-IsCoherent p a e v = record {
  hub_distinct = put-IsDistinct a.hub p.id p v.hub_distinct;
  auth_distinct = v.auth_distinct;
  sessions_distinct = v.sessions_distinct;
  hub_peers =
      AllEntries-put (IsPeerKey (suc a.next_addr)) a.hub p.id p (refl, omega arith)
        (AllEntries-mono (IsPeerKey a.next_addr) (IsPeerKey (suc a.next_addr))
          (λ k q h. (h.0, omega (arith, h.1))) a.hub v.hub_peers);
  auth_entries =
      AllEntries-mono (IsEntry a.next_addr) (IsEntry (suc a.next_addr)) (IsEntry-suc a.next_addr)
        a.auth v.auth_entries;
  session_pairs =
      AllEntries-mono (IsSession a.next_addr) (IsSession (suc a.next_addr))
        (IsSession-suc a.next_addr) a.sessions v.session_pairs;
}

-- An access to the registrations, to the sessions, or a removal from the hub keeps the other stores.
module _ (a : Stores) (v : IsCoherent a) where
  auth-IsCoherent :
      (m : Map Entry)
      → IsDistinct m
      → AllEntries (IsEntry a.next_addr) m
      → IsCoherent (record a { auth = m })
  auth-IsCoherent m d h = record {
    hub_distinct = v.hub_distinct;
    auth_distinct = d;
    sessions_distinct = v.sessions_distinct;
    hub_peers = v.hub_peers;
    auth_entries = h;
    session_pairs = v.session_pairs;
  }

  sessions-IsCoherent :
      (m : Map Session)
      → IsDistinct m
      → AllEntries (IsSession a.next_addr) m
      → IsCoherent (record a { sessions = m })
  sessions-IsCoherent m d h = record {
    hub_distinct = v.hub_distinct;
    auth_distinct = v.auth_distinct;
    sessions_distinct = d;
    hub_peers = v.hub_peers;
    auth_entries = v.auth_entries;
    session_pairs = h;
  }

  without_peer-IsCoherent : (k : Bytes) → IsCoherent (without_peer k a)
  without_peer-IsCoherent k = record {
    hub_distinct = delete-IsDistinct a.hub k v.hub_distinct;
    auth_distinct = v.auth_distinct;
    sessions_distinct = v.sessions_distinct;
    hub_peers = AllEntries-delete (IsPeerKey a.next_addr) a.hub k v.hub_peers;
    auth_entries = v.auth_entries;
    session_pairs = v.session_pairs;
  }

pub Access-IsCoherent : {a b : Stores} → Access a b → IsCoherent a → IsCoherent b
Access-IsCoherent (rest e) v = subst IsCoherent (sym e) v
Access-IsCoherent {a} (add_peer p fresh e) v =
    subst IsCoherent (sym e) (join-IsCoherent p a fresh v)
Access-IsCoherent {a} (set_entry hash entry h e) v = subst IsCoherent (sym e) (
    auth-IsCoherent a v (put a.auth hash entry) (put-IsDistinct a.auth hash entry v.auth_distinct)
      (AllEntries-put (IsEntry a.next_addr) a.auth hash entry h v.auth_entries))
Access-IsCoherent {a} (set_session x h e) v = subst IsCoherent (sym e) (
    sessions-IsCoherent a v (put a.sessions x.id x)
      (put-IsDistinct a.sessions x.id x v.sessions_distinct)
      (AllEntries-put (IsSession a.next_addr) a.sessions x.id x (refl, h) v.session_pairs))
Access-IsCoherent {a} (delete_session k e) v = subst IsCoherent (sym e) (
    sessions-IsCoherent a v (delete a.sessions k)
      (delete-IsDistinct a.sessions k v.sessions_distinct)
      (AllEntries-delete (IsSession a.next_addr) a.sessions k v.session_pairs))
Access-IsCoherent {a} (delete_entries p e) v = subst IsCoherent (sym e) (
    auth-IsCoherent a v (delete_where (entry_of p) a.auth)
      (delete_where-IsDistinct (entry_of p) a.auth v.auth_distinct)
      (AllEntries-delete_where (IsEntry a.next_addr) (entry_of p) a.auth v.auth_entries))
Access-IsCoherent {a} (delete_sessions p e) v = subst IsCoherent (sym e) (
    sessions-IsCoherent a v (delete_where (session_of p) a.sessions)
      (delete_where-IsDistinct (session_of p) a.sessions v.sessions_distinct)
      (AllEntries-delete_where (IsSession a.next_addr) (session_of p) a.sessions v.session_pairs))
Access-IsCoherent {a} (delete_peer k e) v = subst IsCoherent (sym e) (without_peer-IsCoherent a v k)

-- No access takes an address back.
pub Access-grows : {a b : Stores} → Access a b → a.next_addr ≤ b.next_addr
Access-grows {a} {b} m = grown m
  where
    next_le : (c : Stores) → a.next_addr ≤ c.next_addr → b ≡ c → a.next_addr ≤ b.next_addr
    next_le c h e = subst (λ (d : Stores). a.next_addr ≤ d.next_addr) (sym e) h

    grown : Access a b → a.next_addr ≤ b.next_addr
    grown (rest e) = next_le a (omega arith) e
    grown (add_peer p fresh e) = next_le (join p a) (omega arith) e
    grown (set_entry hash entry h e) = next_le (enlist hash entry a) (omega arith) e
    grown (set_session x h e) = next_le (open_in x a) (omega arith) e
    grown (delete_session k e) = next_le (close_in k a) (omega arith) e
    grown (delete_entries p e) = next_le (without_entries p a) (omega arith) e
    grown (delete_sessions p e) = next_le (without_sessions p a) (omega arith) e
    grown (delete_peer k e) = next_le (without_peer k a) (omega arith) e
