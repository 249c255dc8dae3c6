-- ===== src/Connector/Payload/Search.antt =====
-- extractRunID of connector/pkg/gatewayclient/events.go finds a run id where a payload has one.
use open_claw_bridge.Common.{
  ℕ, zero, suc, some, List, [], ◌∷◌, ◌≡◌, ◌≢◌, ◌⊎◌, inl, inr, refl, sym, subst, ap, ◌∙◌,
}
use open_claw_bridge.Text.{Bytes, codes}
use open_claw_bridge.Json.{Fields, Codec, object}
use open_claw_bridge.Connector.Payload.{
  lookup, or_else, in_object, first_text, first_nested, nested_keys, run_id, extract_run_id,
  fields_size,
}
use open_claw_bridge.Connector.Payload.Fuel.{extract_run_id_lem}
use open_claw_bridge.Connector.Payload.Places.{
  IsTop, IsOfRun, IsTextAt, IsRunId, top, of_run, inside, or_else-cases, or_else-left,
  or_else-right, first_text-IsTextAt, first_text-found, in_object-found, first_nested-FoundIn,
  first_nested-found,
}

-- What the search gives back: the payload's own run id if it has one, else that of `run` if it has one, else
-- one from the objects inside; and nothing where there is none at any depth.
abbrev pub IsSearched : Codec → Fields → Bytes → Type 0
IsSearched c fs [] = (q : Bytes) → IsRunId c fs q → ⊥
IsSearched c fs (x ∷ r) =
    IsTop c fs (x ∷ r)
    ⊎ (((q : Bytes) → IsTop c fs q → ⊥)
        × (IsOfRun c fs (x ∷ r) ⊎ (((q : Bytes) → IsOfRun c fs q → ⊥) × IsRunId c fs (x ∷ r))))

abbrev own_keys : List Bytes
own_keys = codes "run_id" ∷ codes "runId" ∷ []

abbrev of_run_text : Codec → Fields → Bytes
of_run_text c fs = in_object (first_text c (codes "id" ∷ own_keys)) (lookup (codes "run") fs)

module _ (c : Codec) where
  of_run_text-IsOfRun : (fs : Fields) → of_run_text c fs ≢ [] → IsOfRun c fs (of_run_text c fs)
  of_run_text-IsOfRun fs h =
      let f : Fields → Bytes = first_text c (codes "id" ∷ own_keys) in
      let (gs, (found, v)) = in_object-found f (lookup (codes "run") fs) h in
      let said : IsTextAt c (codes "id" ∷ own_keys) gs (f gs) =
        first_text-IsTextAt c (codes "id" ∷ own_keys) gs (λ z. h (sym v ∙ z)) in
      (gs, ((codes "run", (inl refl, found)), subst (IsTextAt c (codes "id" ∷ own_keys) gs) v said))

  of_run_text-found : (fs : Fields) (q : Bytes) → IsOfRun c fs q → of_run_text c fs ≢ []
  of_run_text-found fs q (gs, ((k, (inl same, found)), said)) =
      let f : Fields → Bytes = first_text c (codes "id" ∷ own_keys) in
      let here : lookup (codes "run") fs ≡ some (object gs) =
        ap (λ i. lookup i fs) (sym same) ∙ found in
      λ z. first_text-found c (codes "id" ∷ own_keys) gs q said (sym (ap (in_object f) here) ∙ z)
  of_run_text-found fs q (gs, ((k, (inr a, found)), said)) = absurd a

  -- The fuel plays no part in what is found.
  run_id-IsRunId : (n : ℕ) (fs : Fields) → run_id c n fs ≢ [] → IsRunId c fs (run_id c n fs)
  unfolding run_id
  run_id-IsRunId zero fs h = absurd (h refl)
  run_id-IsRunId (suc n) fs h =
      let own : Bytes = first_text c own_keys fs in
      let run : Bytes = of_run_text c fs in
      let deep : Bytes = first_nested (run_id c n) nested_keys fs in
      elim (or_else-cases own (or_else run deep)) [
        | inl (m, e) ↦
            subst (IsRunId c fs) (sym e) (top fs own (first_text-IsTextAt c own_keys fs m))
        | inr (m, e) ↦ elim (or_else-cases run deep) [
          | inl (l, d) ↦
              subst (IsRunId c fs) (sym (e ∙ d)) (of_run fs run (of_run_text-IsOfRun fs l))
          | inr (l, d) ↦
              let (gs, (at, v)) =
                first_nested-FoundIn (run_id c n) nested_keys fs (λ z. h (e ∙ d ∙ z)) in
              let below : IsRunId c gs (run_id c n gs) =
                run_id-IsRunId n gs (λ z. h (e ∙ d ∙ sym v ∙ z)) in
              subst (IsRunId c fs) (v ∙ sym (e ∙ d)) (inside fs gs (run_id c n gs) at below)
        ]
      ]

  extract_run_id-found : (fs : Fields) (q : Bytes) → IsRunId c fs q → extract_run_id c fs ≢ []
  extract_run_id-found fs q (top _ _ h) = λ z.
      or_else-left (first_text c own_keys fs) _ (first_text-found c own_keys fs q h)
        (sym (extract_run_id_lem c fs) ∙ z)
  extract_run_id-found fs q (of_run _ _ h) = λ z.
      or_else-right (first_text c own_keys fs) _
        (or_else-left (of_run_text c fs) _ (of_run_text-found fs q h))
        (sym (extract_run_id_lem c fs) ∙ z)
  extract_run_id-found fs q (inside _ gs _ at h) = λ z.
      or_else-right (first_text c own_keys fs) _
        (or_else-right (of_run_text c fs) _ (
          first_nested-found (extract_run_id c) nested_keys fs gs at (extract_run_id-found gs q h)))
        (sym (extract_run_id_lem c fs) ∙ z)

  searched : (fs : Fields) (r : Bytes) → extract_run_id c fs ≡ r → IsSearched c fs r
  unfolding extract_run_id
  searched fs [] e = λ q h. extract_run_id-found fs q h e
  searched fs (x ∷ r) e =
      let own : Bytes = first_text c own_keys fs in
      let run : Bytes = of_run_text c fs in
      let deep : Bytes = first_nested (extract_run_id c) nested_keys fs in
      let code : x ∷ r ≡ or_else own (or_else run deep) = sym e ∙ extract_run_id_lem c fs in
      elim (or_else-cases own (or_else run deep)) [
        | inl (m, d) ↦
            inl (subst (IsTop c fs) (sym (code ∙ d)) (first_text-IsTextAt c own_keys fs m))
        | inr (m, d) ↦ inr (
          λ q h. first_text-found c own_keys fs q h m,
          elim (or_else-cases run deep) [
            | inl (l, b) ↦
                inl (subst (IsOfRun c fs) (sym (code ∙ d ∙ b)) (of_run_text-IsOfRun fs l))
            | inr (l, b) ↦ inr (
              λ q h. of_run_text-found fs q h l,
              subst (IsRunId c fs) e
                  (run_id-IsRunId (suc (fields_size fs)) fs (λ z. cc (sym e ∙ z))),
            )
          ],
        )
      ]

  -- extractRunID gives back the payload's own run id if it has one that is not empty, under `run_id` or
  -- `runId`; else that of its object `run`, under `id`, `run_id` or `runId`; else one from the objects
  -- under `response`, `result`, `data` and `output`, at any depth; and nothing only where there is none at
  -- any depth.
  pub extract_run_id-IsSearched : (fs : Fields) → IsSearched c fs (extract_run_id c fs)
  extract_run_id-IsSearched fs = searched fs (extract_run_id c fs) refl
