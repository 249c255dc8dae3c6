-- ===== src/Relay/Spec/Invariant.antt =====
-- What the stores of the relay always satisfy.
use open_claw_bridge.Common.{ℕ, suc, ◌<◌, [], ◌∷◌, ◌≡◌, refl, sym, subst, arith}
use open_claw_bridge.Text.{Bytes}
use open_claw_bridge.GoMap.{Map, IsDistinct}
use open_claw_bridge.GoMap.Laws.{delete-IsDistinct, put-IsDistinct, delete_where-IsDistinct}
use open_claw_bridge.Relay.Stores.{Peer, Entry, Session, entry_of, session_of}
use open_claw_bridge.Relay.Stores.Laws.{
  AllEntries, AllEntries-delete, AllEntries-put, AllEntries-delete_where,
}
use open_claw_bridge.Relay.Spec.{
  Stores, IsPairing, IsConnector, Move, joins, enlists, opens, closes, leaves, Moves, done, after,
  join, leave,
}

abbrev pub IsPeerKey : ℕ → Bytes → Peer → Type 0
IsPeerKey n k p = (k ≡ p.id) × (p.addr < n)

abbrev pub IsEntry : ℕ → Bytes → Entry → Type 0
IsEntry n k e = IsConnector n e.peer

abbrev pub IsSession : ℕ → Bytes → Session → Type 0
IsSession n k x = (k ≡ x.id) × IsPairing n x

-- Each map has its values under their own ids; only connectors are registered; each session pairs
-- a client with an older connector; and every peer has an address below the next.
pub record Inv (a : Stores) : Type 0 where
  pub hub_distinct : IsDistinct a.hub
  pub auth_distinct : IsDistinct a.auth
  pub sessions_distinct : IsDistinct a.sessions
  pub hub_peers : AllEntries (IsPeerKey a.next_addr) a.hub
  pub auth_entries : AllEntries (IsEntry a.next_addr) a.auth
  pub session_pairs : AllEntries (IsSession a.next_addr) a.sessions

AllEntries-mono {ℓ κ} :
    {V : Type ℓ} (P Q : Bytes → V → Type κ)
    → ((k : Bytes) (v : V) → P k v → Q k v)
    → (m : Map V) → AllEntries P m
    → AllEntries Q m
AllEntries-mono P Q f [] h = tt
AllEntries-mono P Q f ((k, v) ∷ m) h = (f k v h.0, AllEntries-mono P Q f m h.1)

IsEntry-suc : (n : ℕ) (k : Bytes) (e : Entry) → IsEntry n k e → IsEntry (suc n) k e
IsEntry-suc n k e h = ground arith

IsSession-suc : (n : ℕ) (k : Bytes) (x : Session) → IsSession n k x → IsSession (suc n) k x
IsSession-suc n k x h = ground arith

join-Inv : (p : Peer) (a : Stores) → p.addr ≡ a.next_addr → Inv a → Inv (join p a)
join-Inv p a e v = record {
  hub_distinct = put-IsDistinct a.hub p.id p v.hub_distinct;
  auth_distinct = v.auth_distinct;
  sessions_distinct = v.sessions_distinct;
  hub_peers =
      AllEntries-put (IsPeerKey (suc a.next_addr)) a.hub p.id p (refl, omega arith)
        (AllEntries-mono (IsPeerKey a.next_addr) (IsPeerKey (suc a.next_addr))
          (λ k q h. (h.0, omega (arith, h.1))) a.hub v.hub_peers);
  auth_entries =
      AllEntries-mono (IsEntry a.next_addr) (IsEntry (suc a.next_addr)) (IsEntry-suc a.next_addr)
        a.auth v.auth_entries;
  session_pairs =
      AllEntries-mono (IsSession a.next_addr) (IsSession (suc a.next_addr))
        (IsSession-suc a.next_addr) a.sessions v.session_pairs;
}

leave-Inv : (p : Peer) (a : Stores) → Inv a → Inv (leave p a)
leave-Inv p a v = record {
  hub_distinct = delete-IsDistinct a.hub p.id v.hub_distinct;
  auth_distinct = delete_where-IsDistinct (entry_of p) a.auth v.auth_distinct;
  sessions_distinct = delete_where-IsDistinct (session_of p) a.sessions v.sessions_distinct;
  hub_peers = AllEntries-delete (IsPeerKey a.next_addr) a.hub p.id v.hub_peers;
  auth_entries = AllEntries-delete_where (IsEntry a.next_addr) (entry_of p) a.auth v.auth_entries;
  session_pairs =
      AllEntries-delete_where (IsSession a.next_addr) (session_of p) a.sessions v.session_pairs;
}

pub Move-Inv : {a b : Stores} → Move a b → Inv a → Inv b
Move-Inv {a} (joins p fresh e) v = subst Inv (sym e) (join-Inv p a fresh v)
Move-Inv {a} (enlists hash entry h e) v = subst Inv (sym e) (record {
  hub_distinct = v.hub_distinct;
  sessions_distinct = v.sessions_distinct;
  hub_peers = v.hub_peers;
  session_pairs = v.session_pairs;
  auth_distinct = put-IsDistinct a.auth hash entry v.auth_distinct;
  auth_entries = AllEntries-put (IsEntry a.next_addr) a.auth hash entry h v.auth_entries;
})
Move-Inv {a} (opens x h e) v = subst Inv (sym e) (record {
  hub_distinct = v.hub_distinct;
  auth_distinct = v.auth_distinct;
  hub_peers = v.hub_peers;
  auth_entries = v.auth_entries;
  sessions_distinct = put-IsDistinct a.sessions x.id x v.sessions_distinct;
  session_pairs =
      AllEntries-put (IsSession a.next_addr) a.sessions x.id x (refl, h) v.session_pairs;
})
Move-Inv {a} (closes session_id e) v = subst Inv (sym e) (record {
  hub_distinct = v.hub_distinct;
  auth_distinct = v.auth_distinct;
  hub_peers = v.hub_peers;
  auth_entries = v.auth_entries;
  sessions_distinct = delete-IsDistinct a.sessions session_id v.sessions_distinct;
  session_pairs = AllEntries-delete (IsSession a.next_addr) a.sessions session_id v.session_pairs;
})
Move-Inv {a} (leaves p e) v = subst Inv (sym e) (leave-Inv p a v)

pub Moves-Inv : {a b : Stores} → Moves a b → Inv a → Inv b
Moves-Inv done v = v
Moves-Inv (after ms m) v = Move-Inv m (Moves-Inv ms v)

pub Moves-trans : {a b c : Stores} → Moves a b → Moves b c → Moves a c
Moves-trans ms done = ms
Moves-trans ms (after ns n) = after (Moves-trans ms ns) n
