-- ===== src/Relay/Takeover.antt =====
-- A connector that registers again, in handleTunnel of relay/main.go, takes over from the one
-- before.
use open_claw_bridge.Common.{ℕ, ◌<◌, true, false, Option, some, ◌≡◌, refl, ap, ◌∙◌, arith, ==_refl}
use open_claw_bridge.Text.{Bytes, codes}
use open_claw_bridge.Text.Laws.{text_eq_refl}
use open_claw_bridge.GoMap.{get, put}
use open_claw_bridge.GoMap.Laws.{get-put, get-delete_where, unless, put-IsDistinct}
use open_claw_bridge.Protocol.Control.{ControlMessage}
use open_claw_bridge.Relay.Network
use open_claw_bridge.Relay.Network.{Read, elem}
use open_claw_bridge.Relay.Stores.{
  Peer, Entry, role_connector, allow, auth_set, auth_get, entry_of, same_peer,
}
use open_claw_bridge.Relay.Server.{Env, Server, cleanup_peer}
use open_claw_bridge.Relay.Accept.{
  new_peer, register, register_message, handle_tunnel, close_previous,
}
use open_claw_bridge.Relay.Spec.{Stores, stores, leave}
use open_claw_bridge.Relay.Spec.Invariant.{Inv}
use open_claw_bridge.Relay.Spec.Effects.{stores-cleanup_peer}
use open_claw_bridge.Relay.Spec.Refinement.{entry_for, register-stores}

module _ (p : Peer) (m : ControlMessage) (s : Server) where
  register_found : auth_get (register p m s).auth m.access_code_hash ≡ some (entry_for p m)
  unfolding auth_get
  register_found =
      ap (λ (a : Stores). get a.auth m.access_code_hash) (register-stores p m s)
      ∙ get-put s.auth m.access_code_hash m.access_code_hash (entry_for p m)
      ∙ rw (text_eq_refl m.access_code_hash) refl

  stays :
      (old : Peer)
      → old.addr < p.addr
      → unless
          (entry_of old)
          (get (put s.auth m.access_code_hash (entry_for p m)) m.access_code_hash)
        ≡ some (entry_for p m)
  stays old older =
      rw (get-put s.auth m.access_code_hash m.access_code_hash (entry_for p m))
        (rw (text_eq_refl m.access_code_hash) (ground arith))

  register_survives :
      (env : Env) (old : Peer)
      → Inv (stores s)
      → old.addr < p.addr
      → auth_get (cleanup_peer env old (register p m s)).auth m.access_code_hash
        ≡ some (entry_for p m)
  unfolding auth_get
  register_survives env old v older =
      ap (λ (a : Stores). get a.auth m.access_code_hash)
        (stores-cleanup_peer env old (register p m s) ∙ ap (leave old) (register-stores p m s))
      ∙ get-delete_where (entry_of old) _ m.access_code_hash
          (put-IsDistinct s.auth m.access_code_hash (entry_for p m) v.auth_distinct)
      ∙ stays old older

  previous_closed :
      (old : Peer) (e : Entry) (s' : Server)
      → e.peer ≡ some old
      → old.addr < p.addr
      → elem old.conn (close_previous p (some e) s').network.closed ≡ true
  unfolding Network.close elem
  previous_closed old e s' is_old older =
      let other : same_peer old p ≡ false = ground arith in
      rw is_old (rw other (rw (==_refl old.conn) refl))

  register_closes :
      (old : Peer) (e : Entry)
      → auth_get s.auth m.access_code_hash ≡ some e
      → e.peer ≡ some old
      → old.addr < p.addr
      → elem old.conn (register p m s).network.closed ≡ true
  unfolding register auth_set auth_get
  register_closes old e found is_old older = rw found (previous_closed old e _ is_old older)

-- A connector that registers is found under its hash; the connection of the connector that was
-- registered there before is closed; and the cleanup that this peer, or any older one, then makes
-- does not undo the new registration.
pub takeover :
    (env : Env) (remote : Bytes) (conn : ℕ) (first : Read) (random : Option Bytes)
    (m : ControlMessage) (old : Peer) (s : Server)
    → Inv (stores s)
    → register_message env first ≡ some m
    → old.addr < s.next_addr
    → let p = new_peer (codes "c_") random role_connector conn s in
      let s' = (handle_tunnel env remote (some conn) first random s).0 in
      (auth_get s'.auth m.access_code_hash ≡ some (entry_for p m))
      × (auth_get (cleanup_peer env old s').auth m.access_code_hash ≡ some (entry_for p m))
      × ((e : Entry)
          → auth_get s.auth m.access_code_hash ≡ some e
          → e.peer ≡ some old
          → elem old.conn s'.network.closed ≡ true)
unfolding handle_tunnel allow
takeover env remote conn first random m old s v e older =
    let p = new_peer (codes "c_") random role_connector conn s in
    rw (e, handle_tunnel)
      (
        register_found p m s,
        register_survives p m s env old v older,
        λ x found is_old. register_closes p m s old x found is_old older,
      )
