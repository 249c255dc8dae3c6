-- ===== src/Relay/Stores/Laws.antt =====
-- Facts that hold of every entry of a map, and that the operations of the stores keep.
use open_claw_bridge.Common.{Bool, some, [], ◌∷◌, ◌≡◌, subst, inl, inr, Bool-cases, arith}
use open_claw_bridge.Text.{Bytes, text_eq}
use open_claw_bridge.Text.Laws.{text_eq_iff}
use open_claw_bridge.GoMap.{Map, get, put, delete, delete_where}

abbrev pub AllEntries {ℓ κ} : {V : Type ℓ} → (Bytes → V → Type κ) → Map V → Type κ
AllEntries P [] = Unit
AllEntries P ((k, v) ∷ m) = P k v × AllEntries P m

module _ {ℓ κ} {V : Type ℓ} (P : Bytes → V → Type κ) where
  pub AllEntries-delete : (m : Map V) (k : Bytes) → AllEntries P m → AllEntries P (delete m k)
  unfolding delete
  AllEntries-delete [] k h = tt
  AllEntries-delete ((j, v) ∷ m) k h = ground (arith, AllEntries-delete m k h.1)

  pub AllEntries-put :
      (m : Map V) (k : Bytes) (v : V) → P k v → AllEntries P m → AllEntries P (put m k v)
  unfolding put
  AllEntries-put m k v p h = (p, AllEntries-delete m k h)

  pub AllEntries-delete_where :
      (p : V → Bool) (m : Map V) → AllEntries P m → AllEntries P (delete_where p m)
  unfolding delete_where
  AllEntries-delete_where p [] h = tt
  AllEntries-delete_where p ((j, v) ∷ m) h = ground (arith, AllEntries-delete_where p m h.1)

  pub AllEntries-get : (m : Map V) (k : Bytes) (v : V) → AllEntries P m → get m k ≡ some v → P k v
  unfolding get
  AllEntries-get [] k v h e = cc
  AllEntries-get ((j, w) ∷ m) k v h e = elim (Bool-cases (text_eq j k)) [
    | inl same ↦
        let found : w ≡ v = cc (rw same at e) in
        subst (P k) found (subst (λ i. P i w) ((text_eq_iff j k).0 same) h.0)
    | inr other ↦ AllEntries-get m k v h.1 (rw other at e)
  ]
