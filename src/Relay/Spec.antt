-- ===== src/Relay/Spec.antt =====
-- The relay without its network: an abstract view of relay/main.go, in which peers join and leave,
-- connectors register, and sessions open and close.
pub mod Invariant
pub mod Effects
pub mod Refinement
pub mod Transition
pub mod Messages
pub mod Accepting
pub mod Simulation
use open_claw_bridge.Common.{ℕ, suc, ◌<◌, Option, none, some, List, [], ◌≡◌, ℤ}
use open_claw_bridge.Text.{Bytes}
use open_claw_bridge.GoMap.{Map, put, delete, delete_where}
use open_claw_bridge.Protocol.Control.{Caps}
use open_claw_bridge.Relay.Stores.{
  Peer, Entry, Session, role_connector, role_client, entry_of, session_of,
}
use open_claw_bridge.Relay.Server.{Server}

pub record Stores : Type 0 where
  pub hub : Map Peer
  pub auth : Map Entry
  pub sessions : Map Session
  pub next_addr : ℕ

abbrev pub stores : Server → Stores
stores s = record { hub = s.hub; auth = s.auth; sessions = s.sessions; next_addr = s.next_addr }

abbrev pub join : Peer → Stores → Stores
join p a = record a { hub = put a.hub p.id p; next_addr = suc a.next_addr }

abbrev pub enlist : Bytes → Entry → Stores → Stores
enlist hash e a = record a { auth = put a.auth hash e }

abbrev pub open_in : Session → Stores → Stores
open_in x a = record a { sessions = put a.sessions x.id x }

abbrev pub close_in : Bytes → Stores → Stores
close_in session_id a = record a { sessions = delete a.sessions session_id }

abbrev pub leave : Peer → Stores → Stores
leave p a = record a {
  hub = delete a.hub p.id;
  auth = delete_where (entry_of p) a.auth;
  sessions = delete_where (session_of p) a.sessions;
}

-- A session is between a client and a connector that was there before the client.
pub record IsPairing (n : ℕ) (x : Session) : Type 0 where
  pub client_role : x.client.role ≡ role_client
  pub connector_role : x.connector.role ≡ role_connector
  pub connector_first : x.connector.addr < x.client.addr
  pub made : x.client.addr < n

abbrev pub IsConnector : ℕ → Option Peer → Type 0
IsConnector n none = Unit
IsConnector n (some p) = (p.addr < n) × (p.role ≡ role_connector)

pub data Move (a b : Stores) : Type 0 where
  joins : (p : Peer) → p.addr ≡ a.next_addr → b ≡ join p a → Move a b
  enlists :
      (hash : Bytes) (e : Entry) → IsConnector a.next_addr e.peer → b ≡ enlist hash e a → Move a b
  opens : (x : Session) → IsPairing a.next_addr x → b ≡ open_in x a → Move a b
  closes : (session_id : Bytes) → b ≡ close_in session_id a → Move a b
  leaves : (p : Peer) → b ≡ leave p a → Move a b

pub data Moves (a : Stores) : Stores → Type 0 where
  done : Moves a a
  after : {b c : Stores} → Moves a b → Move b c → Moves a c
