-- ===== src/GoMap/Laws.antt =====
-- Laws of maps, in the form of a test on the keys.
use open_claw_bridge.Common.{
  Bool, true, Option, none, some, [], ◌∷◌, if◌then◌else◌, ◌≡◌, refl, arith,
}
use open_claw_bridge.Text.{Bytes, text_eq}
use open_claw_bridge.Text.Laws.{text_eq_iff, text_eq_refl}
use open_claw_bridge.GoMap.{Map, get, delete, put, delete_where, select_where, IsDistinct}

-- What is left of a looked-up value when the values with `p` are gone.
abbrev pub unless {ℓ} : {V : Type ℓ} → (V → Bool) → Option V → Option V
unless p none = none
unless p (some v) = if p v then none else some v

module _ {ℓ} {V : Type ℓ} where
  pub get-delete :
      (m : Map V) (k j : Bytes) → get (delete m k) j ≡ (if text_eq k j then none else get m j)
  unfolding get delete
  get-delete [] k j = ground arith
  get-delete ((i, v) ∷ m) k j =
      ground (arith, get-delete m k j, text_eq_iff i k, text_eq_iff i j, text_eq_iff k j)

  pub get-put :
      (m : Map V) (k j : Bytes) (v : V)
      → get (put m k v) j ≡ (if text_eq k j then some v else get m j)
  unfolding get put
  get-put m k j v = ground (arith, get-delete m k j)

  pub get-delete_where_absent :
      (p : V → Bool) (m : Map V) (k : Bytes) → get m k ≡ none → get (delete_where p m) k ≡ none
  unfolding get delete_where
  get-delete_where_absent p [] k e = refl
  get-delete_where_absent p ((j, v) ∷ m) k e = ground (arith, get-delete_where_absent p m k)

  -- A loop that deletes by value keeps exactly the other entries.
  pub get-delete_where :
      (p : V → Bool) (m : Map V) (k : Bytes)
      → IsDistinct m
      → get (delete_where p m) k ≡ unless p (get m k)
  unfolding get delete_where
  get-delete_where p [] k d = refl
  get-delete_where p ((j, v) ∷ m) k d =
      ground (arith, get-delete_where p m k d.1, get-delete_where_absent p m j d.0, text_eq_iff j k)

  pub delete-IsDistinct : (m : Map V) (k : Bytes) → IsDistinct m → IsDistinct (delete m k)
  unfolding delete
  delete-IsDistinct [] k d = tt
  delete-IsDistinct ((j, v) ∷ m) k d = ground (arith, delete-IsDistinct m k d.1, get-delete m k j)

  pub put-IsDistinct : (m : Map V) (k : Bytes) (v : V) → IsDistinct m → IsDistinct (put m k v)
  unfolding put
  put-IsDistinct m k v d = ground (arith, delete-IsDistinct m k d, get-delete m k k, text_eq_refl k)

  pub delete_where-IsDistinct :
      (p : V → Bool) (m : Map V) → IsDistinct m → IsDistinct (delete_where p m)
  unfolding delete_where
  delete_where-IsDistinct p [] d = tt
  delete_where-IsDistinct p ((k, v) ∷ m) d =
      ground (arith, delete_where-IsDistinct p m d.1, get-delete_where_absent p m k d.0)

  -- The deleted entries are those of the map with `p`.
  pub get-select_where :
      (p : V → Bool) (m : Map V) (k : Bytes) (v : V)
      → IsDistinct m
      → get (select_where p m) k ≡ some v
      → (get m k ≡ some v) × (p v ≡ true)
  unfolding get select_where
  get-select_where p [] k v d e = cc
  get-select_where p ((j, w) ∷ m) k v d e =
      ground (arith, get-select_where p m k v d.1, text_eq_iff j k)
