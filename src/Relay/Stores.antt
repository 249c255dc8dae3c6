-- ===== src/Relay/Stores.antt =====
-- relay/pkg: hub, authmap, sessions, metrics and ratelimit. A `*hub.Peer` is a Peer with the address
-- `addr`, by which Go compares pointers. A store's mutex makes each of its methods one step.
pub mod Laws
use open_claw_bridge.Common.{
  ℕ, ◌+◌, ◌%◌, ◌^◌, Bool, true, false, Option, none, some, List, [], ◌∷◌, map, ◌==◌, ◌||◌,
  if◌then◌else◌, ℤ,
}
use open_claw_bridge.Text.{Bytes}
use open_claw_bridge.GoMap.{Map, get, put, delete, delete_where, select_where}
use open_claw_bridge.Protocol.Control.{Caps}

-- hub.go
pub data Role : Type 0 where
  role_connector role_client : Role

pub record Peer : Type 0 where
  pub addr : ℕ
  pub id : Bytes
  pub role : Role
  pub conn : ℕ

-- `p == q` on pointers.
abbrev pub same_peer : Peer → Peer → Bool
same_peer p q = p.addr == q.addr

abbrev pub Manager : Type 0
Manager = Map Peer

unfoldable pub hub_add : Manager → Peer → Manager
hub_add m p = put m p.id p

unfoldable pub hub_remove : Manager → Bytes → Manager
hub_remove m peer_id = delete m peer_id

unfoldable pub hub_get : Manager → Bytes → Option Peer
hub_get m peer_id = get m peer_id

-- authmap.go. The pointer of an Entry may be nil.
pub record Entry : Type 0 where
  pub peer : Option Peer
  pub generation : ℤ
  pub caps : Caps

unfoldable pub auth_set : Map Entry → Bytes → Entry → Map Entry × Option Entry
auth_set s hash entry = (put s hash entry, get s hash)

unfoldable pub auth_get : Map Entry → Bytes → Option Entry
auth_get s hash = get s hash

unfoldable pub auth_delete : Map Entry → Bytes → Map Entry
auth_delete s hash = delete s hash

-- entry.Peer == peer
abbrev pub points_to : Peer → Option Peer → Bool
points_to p none = false
points_to p (some q) = same_peer q p

abbrev pub entry_of : Peer → Entry → Bool
entry_of p e = points_to p e.peer

abbrev pub keys {ℓ} : {V : Type ℓ} → Map V → List Bytes
keys [] = []
keys ((k, v) ∷ m) = k ∷ keys m

unfoldable pub auth_delete_by_peer : Map Entry → Peer → Map Entry × List Bytes
auth_delete_by_peer s p = (delete_where (entry_of p) s, keys (select_where (entry_of p) s))

-- sessions.go. Both pointers of a Session are set where the program makes one.
pub record Session : Type 0 where
  pub id : Bytes
  pub client : Peer
  pub connector : Peer
  pub e2ee : Bool

unfoldable pub sessions_set : Map Session → Session → Map Session
sessions_set s x = put s x.id x

unfoldable pub sessions_get : Map Session → Bytes → Option Session
sessions_get s session_id = get s session_id

unfoldable pub sessions_delete : Map Session → Bytes → Map Session × Option Session
sessions_delete s session_id = elim (get s session_id) [
  | none ↦ (s, none)
  | some x ↦ (delete s session_id, some x)
]

abbrev pub session_of : Peer → Session → Bool
session_of p x = same_peer x.client p || same_peer x.connector p

abbrev pub values {ℓ} : {V : Type ℓ} → Map V → List V
values [] = []
values ((k, v) ∷ m) = v ∷ values m

unfoldable pub sessions_delete_by_peer : Map Session → Peer → Map Session × List Session
sessions_delete_by_peer s p =
    (delete_where (session_of p) s, values (select_where (session_of p) s))

-- metrics.go. The counters are the bit patterns of int64.
pub record Collector : Type 0 where
  pub forwarded_bytes : ℕ
  pub errors : ℕ

unfoldable pub add_forwarded_bytes : ℕ → Collector → Collector
add_forwarded_bytes n c = record c { forwarded_bytes = (c.forwarded_bytes + n) % 2 ^ 64 }

unfoldable pub inc_error : Collector → Collector
inc_error c = record c { errors = (c.errors + 1) % 2 ^ 64 }

-- ratelimit.go: a stub that allows everything.
unfoldable pub allow : Bytes → Bool
allow remote_addr = true
