-- ===== src/Connector/Payload/Fuel.antt =====
-- extractRunID and extractChatText of connector/pkg/gatewayclient/events.go: the size of a payload is
-- enough fuel, and so the functions satisfy the equations of the code, which have none.
use open_claw_bridge.Common.{
  ℕ, zero, suc, ◌+◌, ◌≤◌, ◌<◌, Bool, true, false, Option, none, some, List, [], ◌∷◌, if◌then◌else◌,
  arith, ◌≡◌, refl,
}
use open_claw_bridge.Text.{Bytes, codes, text_eq}
use open_claw_bridge.Json.{
  Value, Fields, Codec, null, bool, number, text, array, object, end, field,
}
use open_claw_bridge.Connector.Payload.{
  lookup, or_else, in_object, first_text, first_nested, nested_keys, size, fields_size, run_id,
  extract_run_id, message_content_text, extract_content, chat_text, extract_chat_text,
}

-- What a lookup finds is no larger than the object.
abbrev IsWithin : ℕ → Option Value → Type 0
IsWithin n none = Unit
IsWithin n (some v) = size v ≤ n

pick-IsWithin :
    (o : Option Value) (b : Bool) (v : Value) (n : ℕ)
    → IsWithin n o
    → IsWithin (size v + n) (elim o [ some w ↦ some w | none ↦ if b then some v else none ])
pick-IsWithin none true v n h = omega arith
pick-IsWithin none false v n h = tt
pick-IsWithin (some u) b v n h = omega arith

lookup-IsWithin : (k : Bytes) (fs : Fields) → IsWithin (fields_size fs) (lookup k fs)
unfolding lookup fields_size
lookup-IsWithin k end = tt
lookup-IsWithin k (field j v fs) =
    pick-IsWithin (lookup k fs) (text_eq j k) v (fields_size fs) (lookup-IsWithin k fs)

in_object_ext :
    (f g : Fields → Bytes) (n : ℕ) (o : Option Value)
    → ((gs : Fields) → fields_size gs < n → f gs ≡ g gs)
    → IsWithin n o
    → in_object f o ≡ in_object g o
unfolding size
in_object_ext f g n (some (object gs)) h w = h gs w
in_object_ext f g n none h w = refl
in_object_ext f g n (some null) h w = refl
in_object_ext f g n (some (bool b)) h w = refl
in_object_ext f g n (some (number t)) h w = refl
in_object_ext f g n (some (text t)) h w = refl
in_object_ext f g n (some (array vs)) h w = refl

first_nested_ext :
    (f g : Fields → Bytes) (ks : List Bytes) (fs : Fields)
    → ((gs : Fields) → fields_size gs < fields_size fs → f gs ≡ g gs)
    → first_nested f ks fs ≡ first_nested g ks fs
unfolding first_nested
first_nested_ext f g [] fs h = refl
first_nested_ext f g (k ∷ ks) fs h =
    let first = in_object_ext f g (fields_size fs) (lookup k fs) h (lookup-IsWithin k fs) in
    rw (first, first_nested_ext f g ks fs h) refl

run_id-enough :
    (c : Codec) (m n : ℕ) (fs : Fields)
    → fields_size fs < m
    → fields_size fs < n
    → run_id c m fs ≡ run_id c n fs
unfolding run_id
run_id-enough c zero n fs hm hn = absurd (omega arith)
run_id-enough c (suc m) zero fs hm hn = absurd (omega arith)
run_id-enough c (suc m) (suc n) fs hm hn =
    let nested : first_nested (run_id c m) nested_keys fs
        ≡ first_nested (run_id c n) nested_keys fs =
      first_nested_ext (run_id c m) (run_id c n) nested_keys fs
        (λ gs h. run_id-enough c m n gs (omega arith) (omega arith)) in
    rw nested refl

chat_text-enough :
    (c : Codec) (m n : ℕ) (fs : Fields)
    → fields_size fs < m
    → fields_size fs < n
    → chat_text c m fs ≡ chat_text c n fs
unfolding chat_text
chat_text-enough c zero n fs hm hn = absurd (omega arith)
chat_text-enough c (suc m) zero fs hm hn = absurd (omega arith)
chat_text-enough c (suc m) (suc n) fs hm hn =
    let nested : first_nested (chat_text c m) nested_keys fs
        ≡ first_nested (chat_text c n) nested_keys fs =
      first_nested_ext (chat_text c m) (chat_text c n) nested_keys fs
        (λ gs h. chat_text-enough c m n gs (omega arith) (omega arith)) in
    rw nested refl

-- extractRunID satisfies the code's own recursion: the fuel never runs out.
pub extract_run_id_lem :
    (c : Codec) (fs : Fields)
    → extract_run_id c fs
      ≡ or_else (first_text c (codes "run_id" ∷ codes "runId" ∷ []) fs) (
          or_else
            (in_object
              (first_text c (codes "id" ∷ codes "run_id" ∷ codes "runId" ∷ []))
              (lookup (codes "run") fs))
            (first_nested (extract_run_id c) nested_keys fs))
unfolding extract_run_id run_id
extract_run_id_lem c fs =
    let nested =
      first_nested_ext (run_id c (fields_size fs)) (extract_run_id c) nested_keys fs
        (λ gs h. run_id-enough c (fields_size fs) (suc (fields_size gs)) gs h (omega arith)) in
    rw nested refl

-- extractChatText satisfies the code's own recursion: the fuel never runs out.
pub extract_chat_text_lem :
    (c : Codec) (fs : Fields)
    → extract_chat_text c fs
      ≡ or_else (first_nested (extract_chat_text c) nested_keys fs) (
          or_else
            (in_object
              (λ gs. message_content_text c (lookup (codes "content") gs))
              (lookup (codes "message") fs))
            (or_else (message_content_text c (lookup (codes "content") fs)) (extract_content c fs)))
unfolding extract_chat_text chat_text
extract_chat_text_lem c fs =
    let nested =
      first_nested_ext (chat_text c (fields_size fs)) (extract_chat_text c) nested_keys fs
        (λ gs h. chat_text-enough c (fields_size fs) (suc (fields_size gs)) gs h (omega arith)) in
    rw nested refl
