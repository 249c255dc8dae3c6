-- ===== src/Connector/Payload/Places.antt =====
-- connector/pkg/gatewayclient/events.go: the places where a payload can hold a run id.
use open_claw_bridge.Common.{
  Option, none, some, List, [], ◌∷◌, ◌≡◌, ◌≢◌, ◌⊎◌, inl, inr, refl, sym, ap, ◌∙◌,
}
use open_claw_bridge.Text.{Bytes, codes}
use open_claw_bridge.Json.{Value, Fields, Codec, null, bool, number, text, array, object}
use open_claw_bridge.Connector.Payload.{
  lookup, string_value, or_else, in_object, first_text, first_nested,
}

abbrev pub Among : Bytes → List Bytes → Type 0
Among k [] = ⊥
Among k (j ∷ js) = (k ≡ j) ⊎ Among k js

-- A text that is not empty, in a field of one of these names.
abbrev pub IsTextAt : Codec → List Bytes → Fields → Bytes → Type 0
IsTextAt c ks fs r = (k : Bytes) × (Among k ks × ((string_value c (lookup k fs) ≡ r) × (r ≢ [])))

abbrev pub IsObjectAt : List Bytes → Fields → Fields → Type 0
IsObjectAt ks fs gs = (k : Bytes) × (Among k ks × (lookup k fs ≡ some (object gs)))

-- The run id of the payload itself, and that of its object `run`.
abbrev pub IsTop : Codec → Fields → Bytes → Type 0
IsTop c fs r = IsTextAt c (codes "run_id" ∷ codes "runId" ∷ []) fs r

abbrev pub IsOfRun : Codec → Fields → Bytes → Type 0
IsOfRun c fs r =
    (gs : Fields) × (IsObjectAt (codes "run" ∷ []) fs gs
      × IsTextAt c (codes "id" ∷ codes "run_id" ∷ codes "runId" ∷ []) gs r)

-- A run id of a payload, at any depth.
pub data IsRunId (c : Codec) : Fields → Bytes → Type 0 where
  top : (fs : Fields) (r : Bytes) → IsTop c fs r → IsRunId c fs r
  of_run : (fs : Fields) (r : Bytes) → IsOfRun c fs r → IsRunId c fs r
  inside :
      (fs gs : Fields) (r : Bytes)
      → IsObjectAt (codes "response" ∷ codes "result" ∷ codes "data" ∷ codes "output" ∷ []) fs gs
      → IsRunId c gs r
      → IsRunId c fs r

pub or_else-cases : (s t : Bytes) → ((s ≢ []) × (or_else s t ≡ s)) ⊎ ((s ≡ []) × (or_else s t ≡ t))
or_else-cases [] t = inr (refl, refl)
or_else-cases (x ∷ s) t = inl (λ e. cc, refl)

pub or_else-left : (s t : Bytes) → s ≢ [] → or_else s t ≢ []
or_else-left [] t h = absurd (h refl)
or_else-left (x ∷ s) t h = h

pub or_else-right : (s t : Bytes) → t ≢ [] → or_else s t ≢ []
or_else-right [] t h = h
or_else-right (x ∷ s) t h = λ e. cc

module _ (c : Codec) where
  pub first_text-IsTextAt :
      (ks : List Bytes) (fs : Fields)
      → first_text c ks fs ≢ []
      → IsTextAt c ks fs (first_text c ks fs)
  unfolding first_text
  first_text-IsTextAt [] fs h = absurd (h refl)
  first_text-IsTextAt (k ∷ ks) fs h =
      elim (or_else-cases (string_value c (lookup k fs)) (first_text c ks fs)) [
        | inl (n, e) ↦ (k, (inl refl, (sym e, h)))
        | inr (n, e) ↦
            let (j, (a, (v, m))) = first_text-IsTextAt ks fs (λ z. h (e ∙ z)) in
            (j, (inr a, (v ∙ sym e, h)))
      ]

  pub first_text-found :
      (ks : List Bytes) (fs : Fields) (r : Bytes) → IsTextAt c ks fs r → first_text c ks fs ≢ []
  unfolding first_text
  first_text-found [] fs r (k, (a, v)) = absurd a
  first_text-found (j ∷ ks) fs r (k, (inl e, (v, m))) =
      or_else-left (string_value c (lookup j fs)) (first_text c ks fs)
        (λ z. m (sym v ∙ ap (λ i. string_value c (lookup i fs)) e ∙ z))
  first_text-found (j ∷ ks) fs r (k, (inr a, v)) =
      or_else-right (string_value c (lookup j fs)) (first_text c ks fs)
        (first_text-found ks fs r (k, (a, v)))

-- An object that `f` finds something in.
abbrev pub FoundIn : (Fields → Bytes) → List Bytes → Fields → Bytes → Type 0
FoundIn f ks fs r = (gs : Fields) × (IsObjectAt ks fs gs × (f gs ≡ r))

pub in_object-found :
    (f : Fields → Bytes) (o : Option Value)
    → in_object f o ≢ []
    → (gs : Fields) × ((o ≡ some (object gs)) × (f gs ≡ in_object f o))
in_object-found f (some (object gs)) h = (gs, (refl, refl))
in_object-found f none h = absurd (h refl)
in_object-found f (some null) h = absurd (h refl)
in_object-found f (some (bool b)) h = absurd (h refl)
in_object-found f (some (number n)) h = absurd (h refl)
in_object-found f (some (text s)) h = absurd (h refl)
in_object-found f (some (array vs)) h = absurd (h refl)

pub first_nested-FoundIn :
    (f : Fields → Bytes) (ks : List Bytes) (fs : Fields)
    → first_nested f ks fs ≢ []
    → FoundIn f ks fs (first_nested f ks fs)
unfolding first_nested
first_nested-FoundIn f [] fs h = absurd (h refl)
first_nested-FoundIn f (k ∷ ks) fs h =
    elim (or_else-cases (in_object f (lookup k fs)) (first_nested f ks fs)) [
      | inl (n, e) ↦
          let (gs, (found, v)) = in_object-found f (lookup k fs) n in
          (gs, ((k, (inl refl, found)), v ∙ sym e))
      | inr (n, e) ↦
          let (gs, ((j, (a, found)), v)) = first_nested-FoundIn f ks fs (λ z. h (e ∙ z)) in
          (gs, ((j, (inr a, found)), v ∙ sym e))
    ]

pub first_nested-found :
    (f : Fields → Bytes) (ks : List Bytes) (fs gs : Fields)
    → IsObjectAt ks fs gs
    → f gs ≢ []
    → first_nested f ks fs ≢ []
unfolding first_nested
first_nested-found f [] fs gs (k, (a, e)) h = absurd a
first_nested-found f (j ∷ ks) fs gs (k, (inl same, e)) h =
    or_else-left (in_object f (lookup j fs)) (first_nested f ks fs)
      (λ z. h (ap (in_object f) (sym e ∙ ap (λ i. lookup i fs) same) ∙ z))
first_nested-found f (j ∷ ks) fs gs (k, (inr a, e)) h =
    or_else-right (in_object f (lookup j fs)) (first_nested f ks fs)
      (first_nested-found f ks fs gs (k, (a, e)) h)
