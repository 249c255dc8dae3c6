-- ===== src/GoMap.antt =====
-- Go's `map[string]V` as an association list. Go ranges over a map in any order; here it is the
-- order of the list, and the theorems hold for every list.
pub mod Laws
use open_claw_bridge.Common.{
  ℕ, Bool, true, false, Option, none, some, List, [], ◌∷◌, if◌then◌else◌, length, ◌≡◌,
}
use open_claw_bridge.Text.{Bytes, text_eq}

abbrev pub Map {ℓ} : Type ℓ → Type ℓ
Map V = List (Bytes × V)

module _ {ℓ} {V : Type ℓ} where
  -- v, ok := m[k]
  unfoldable pub get : Map V → Bytes → Option V
  get [] k = none
  get ((j, v) ∷ m) k = if text_eq j k then some v else get m k

  -- delete(m, k)
  unfoldable pub delete : Map V → Bytes → Map V
  delete [] k = []
  delete ((j, v) ∷ m) k = let rest = delete m k in if text_eq j k then rest else (j, v) ∷ rest

  -- m[k] = v
  unfoldable pub put : Map V → Bytes → V → Map V
  put m k v = (k, v) ∷ delete m k

  -- len(m), where the keys are distinct
  unfoldable pub size : Map V → ℕ
  size m = length m

  -- for k, v := range m { if p(v) { delete(m, k) } }
  unfoldable pub delete_where : (V → Bool) → Map V → Map V
  delete_where p [] = []
  delete_where p ((k, v) ∷ m) = let rest = delete_where p m in if p v then rest else (k, v) ∷ rest

  -- The entries that such a loop deletes.
  unfoldable pub select_where : (V → Bool) → Map V → Map V
  select_where p [] = []
  select_where p ((k, v) ∷ m) = let rest = select_where p m in if p v then (k, v) ∷ rest else rest

  -- No key occurs twice: what Go's maps are.
  abbrev pub IsDistinct : Map V → Type ℓ
  IsDistinct [] = Unit
  IsDistinct ((k, v) ∷ m) = (get m k ≡ none) × IsDistinct m
