-- ===== src/Relay/Ids.antt =====
-- newID of relay/main.go.
use open_claw_bridge.Common.{some, ◌≡◌, All}
use open_claw_bridge.Text.{Bytes}
use open_claw_bridge.Text.Laws.{IsByte, to_hex_inj, append_cancel_left}
use open_claw_bridge.Relay.Accept.{new_id}

-- With one prefix, two ids are the same only if their random bytes are.
pub new_id_inj :
    (prefix b c : Bytes)
    → All IsByte b
    → All IsByte c
    → new_id prefix (some b) ≡ new_id prefix (some c)
    → b ≡ c
unfolding new_id
new_id_inj prefix b c hb hc e = to_hex_inj b c hb hc (append_cancel_left prefix _ _ e)
