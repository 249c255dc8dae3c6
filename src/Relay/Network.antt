-- ===== src/Relay/Network.antt =====
-- The WebSocket connections of package github.com/gorilla/websocket as the relay uses them: a write
-- succeeds or fails, and fails on a connection that was closed. Which other writes fail is a
-- parameter, `Faults`: the outcome of each write by its connection and its number.
use open_claw_bridge.Common.{
  ℕ, suc, Bool, true, false, not, ◌&&◌, ◌||◌, List, [], ◌∷◌, ◌==◌, if◌then◌else◌,
}
use open_claw_bridge.Text.{Bytes}

-- A message by its type, websocket.TextMessage or websocket.BinaryMessage.
pub data Message : Type 0 where
  text : Bytes → Message
  binary : Bytes → Message

-- What conn.ReadMessage() returns.
pub data Read : Type 0 where
  received : Message → Read
  read_error : Read

pub record Delivery : Type 0 where
  pub conn : ℕ
  pub message : Message

-- `log` holds what was written, the latest first.
pub record Network : Type 0 where
  pub closed : List ℕ
  pub writes : ℕ
  pub log : List Delivery

abbrev pub Faults : Type 0
Faults = ℕ → ℕ → Bool

unfoldable pub elem : ℕ → List ℕ → Bool
elem x [] = false
elem x (y ∷ ys) = y == x || elem x ys

unfoldable pub can_write : Faults → ℕ → Network → Bool
unfolding elem
can_write faults conn n = not (elem conn n.closed) && not (faults conn n.writes)

-- conn.WriteMessage(...), and whether it returned no error.
unfoldable pub write : Faults → ℕ → Message → Network → Network × Bool
unfolding can_write
write faults conn m n =
    if can_write faults conn n
    then (
      record n { writes = suc n.writes; log = record { conn = conn; message = m } ∷ n.log },
      true,
    )
    else (record n { writes = suc n.writes }, false)

-- conn.Close()
unfoldable pub close : ℕ → Network → Network
close conn n = record n { closed = conn ∷ n.closed }
