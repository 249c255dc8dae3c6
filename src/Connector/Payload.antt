-- ===== src/Connector/Payload.antt =====
-- connector/pkg/gatewayclient/events.go: what is read from the payload of a gateway message. A
-- payload, Go's map[string]any, is the fields of a JSON object; of two fields with one name the
-- later counts.
pub mod Fuel
pub mod Places
pub mod Search
use open_claw_bridge.Common.{
  ℕ, zero, suc, ◌+◌, Bool, true, false, ◌&&◌, ◌||◌, not, Option, none, some, List, [], ◌∷◌, ◌++◌,
  if◌then◌else◌,
}
use open_claw_bridge.Text.{Bytes, codes, text_eq, trim_space, to_lower}
use open_claw_bridge.Json.{
  Value, Items, Fields, Codec, null, bool, number, text, array, object, nil, cons, end, field,
}

-- payload[key]
unfoldable pub lookup : Bytes → Fields → Option Value
unfolding text_eq
lookup key end = none
lookup key (field k v rest) = elim (lookup key rest) [
  | some w ↦ some w
  | none ↦ if text_eq k key then some v else none
]

-- Whether every number of a value has a float64, so that json.Unmarshal succeeds.
unfoldable mutual
  pub has_floats : Codec → Value → Bool
  has_floats c null = true
  has_floats c (bool b) = true
  has_floats c (number n) = elim (c.float_text n) [ none ↦ false | some s ↦ true ]
  has_floats c (text s) = true
  has_floats c (array vs) = items_have_floats c vs
  has_floats c (object fs) = fields_have_floats c fs

  pub items_have_floats : Codec → Items → Bool
  items_have_floats c nil = true
  items_have_floats c (cons v vs) = has_floats c v && items_have_floats c vs

  pub fields_have_floats : Codec → Fields → Bool
  fields_have_floats c end = true
  fields_have_floats c (field k v fs) = has_floats c v && fields_have_floats c fs

-- The raw payload of an envelope is `none` where the field is missing. What is no object, or holds a
-- number that has no float64, counts as the empty map.
unfoldable pub decode_payload : Codec → Option Value → Fields
unfolding has_floats
decode_payload c none = end
decode_payload c (some (object fs)) = if fields_have_floats c fs then fs else end
decode_payload c (some _) = end

-- `stringValue` of client.go, nil included.
unfoldable pub string_value : Codec → Option Value → Bytes
string_value c (some (text s)) = s
string_value c (some (number n)) = elim (c.float_text n) [ none ↦ [] | some s ↦ s ]
string_value c _ = []

-- if s != "" { return s }, and then what follows.
abbrev pub or_else : Bytes → Bytes → Bytes
or_else [] t = t
or_else (x ∷ s) t = x ∷ s

-- for _, key := range keys { if s := stringValue(payload[key]); s != "" { return s } }
unfoldable pub first_text : Codec → List Bytes → Fields → Bytes
unfolding string_value lookup
first_text c [] fs = []
first_text c (k ∷ ks) fs = or_else (string_value c (lookup k fs)) (first_text c ks fs)

-- if nested, ok := payload[key].(map[string]any); ok { ... }
abbrev pub in_object : (Fields → Bytes) → Option Value → Bytes
in_object f (some (object fs)) = f fs
in_object f _ = []

unfoldable pub first_nested : (Fields → Bytes) → List Bytes → Fields → Bytes
unfolding lookup
first_nested f [] fs = []
first_nested f (k ∷ ks) fs = or_else (in_object f (lookup k fs)) (first_nested f ks fs)

unfoldable pub extract_error_message_from_payload : Codec → Fields → Bytes
unfolding first_text first_nested
extract_error_message_from_payload c fs =
    or_else (in_object (first_text c (codes "message" ∷ [])) (lookup (codes "error") fs)) (
      or_else (first_text c (codes "message" ∷ codes "msg" ∷ codes "reason" ∷ []) fs)
        (codes "gateway event error"))

-- The field "error" of an envelope, by its message, and the other fields that are read.
pub record Envelope : Type 0 where
  pub type : Bytes
  pub event : Bytes
  pub id : Bytes
  pub ok_field : Option Bool
  pub payload : Option Value
  pub error : Option Bytes

abbrev pub error_text : Option Bytes → Bytes
error_text none = []
error_text (some s) = s

unfoldable pub extract_error_message : Codec → Envelope → Bytes
unfolding extract_error_message_from_payload decode_payload
extract_error_message c env = or_else (error_text env.error) (
    or_else (extract_error_message_from_payload c (decode_payload c env.payload))
      (codes "unknown error"))

unfoldable pub extract_correlation_id : Codec → Envelope → Fields → Bytes
unfolding first_text
extract_correlation_id c env fs =
    or_else
      (first_text c
        (codes "run_id"
          ∷ codes "runId"
          ∷ codes "request_id"
          ∷ codes "requestId"
          ∷ codes "req_id"
          ∷ codes "reqId"
          ∷ codes "id"
          ∷ [])
        fs)
      env.id

abbrev pub nested_keys : List Bytes
nested_keys = codes "response" ∷ codes "result" ∷ codes "data" ∷ codes "output" ∷ []

-- The fuel bounds how deep objects are followed; the size of the payload is enough.
unfoldable pub run_id : Codec → ℕ → Fields → Bytes
unfolding first_text first_nested
run_id c zero fs = []
run_id c (suc n) fs = or_else (first_text c (codes "run_id" ∷ codes "runId" ∷ []) fs) (
    or_else
      (in_object (first_text c (codes "id" ∷ codes "run_id" ∷ codes "runId" ∷ []))
        (lookup (codes "run") fs))
      (first_nested (run_id c n) nested_keys fs))

unfoldable mutual
  pub size : Value → ℕ
  size null = 1
  size (bool b) = 1
  size (number n) = 1
  size (text s) = 1
  size (array vs) = suc (items_size vs)
  size (object fs) = suc (fields_size fs)

  pub items_size : Items → ℕ
  items_size nil = 0
  items_size (cons v vs) = size v + items_size vs

  pub fields_size : Fields → ℕ
  fields_size end = 0
  fields_size (field k v fs) = size v + fields_size fs

unfoldable pub extract_run_id : Codec → Fields → Bytes
unfolding run_id size
extract_run_id c fs = run_id c (suc (fields_size fs)) fs

unfoldable pub extract_session_id : Codec → Fields → Bytes
unfolding first_text
extract_session_id c fs =
    first_text c (codes "session_id" ∷ codes "sessionId" ∷ codes "sid" ∷ []) fs

unfoldable pub extract_content : Codec → Fields → Bytes
unfolding first_text
extract_content c fs =
    first_text c
      (codes "content" ∷ codes "text" ∷ codes "token" ∷ codes "chunk" ∷ codes "delta" ∷ []) fs

-- strings.ToLower(strings.TrimSpace(s))
unfoldable pub normal : Bytes → Bytes
unfolding to_lower trim_space
normal s = to_lower (trim_space s)

-- The text of one part of a message's content, "" for a part that is skipped.
unfoldable pub part_text : Codec → Value → Bytes
unfolding normal text_eq string_value lookup
part_text c (object fs) =
    let kind = normal (string_value c (lookup (codes "type") fs)) in
    if text_eq kind [] || text_eq kind (codes "text")
    then or_else (string_value c (lookup (codes "text") fs))
        (string_value c (lookup (codes "value") fs))
    else []
part_text c _ = []

unfoldable pub parts_text : Codec → Items → Bytes
unfolding part_text
parts_text c nil = []
parts_text c (cons v vs) = part_text c v ++ parts_text c vs

unfoldable pub message_content_text : Codec → Option Value → Bytes
unfolding parts_text
message_content_text c (some (text s)) = s
message_content_text c (some (array vs)) = parts_text c vs
message_content_text c _ = []

unfoldable pub chat_text : Codec → ℕ → Fields → Bytes
unfolding first_nested message_content_text extract_content
chat_text c zero fs = []
chat_text c (suc n) fs = or_else (first_nested (chat_text c n) nested_keys fs) (
    or_else
      (in_object (λ gs. message_content_text c (lookup (codes "content") gs))
        (lookup (codes "message") fs))
      (or_else (message_content_text c (lookup (codes "content") fs)) (extract_content c fs)))

unfoldable pub extract_chat_text : Codec → Fields → Bytes
unfolding chat_text size
extract_chat_text c fs = chat_text c (suc (fields_size fs)) fs

unfoldable pub extract_agent_text : Codec → Fields → Bytes
unfolding extract_chat_text first_nested
extract_agent_text c fs =
    or_else
      (first_nested (extract_chat_text c)
        (codes "delta" ∷ codes "text" ∷ codes "content" ∷ codes "message" ∷ []) fs)
      (extract_chat_text c fs)
