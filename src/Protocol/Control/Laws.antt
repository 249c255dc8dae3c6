-- ===== src/Protocol/Control/Laws.antt =====
-- Control messages: what is encoded is decoded, and what decoding checks.
use open_claw_bridge.Common.{
  zero, suc, Bool, true, false, Option, none, some, [], ◌∷◌, ℤ, pos, negsuc, ok, ◌≡◌, ◌≢◌, refl,
  arith, inl, inr, Option-cases, ◌||◌,
}
use open_claw_bridge.Text.{Bytes, codes}
use open_claw_bridge.Text.Laws.{text_eq_iff}
use open_claw_bridge.Json.{
  Fields, Codec, Reads, ReadsInt, text, number, field, read_int, opt_text, opt_bool, opt_int,
}
use open_claw_bridge.Protocol.Control.{
  Caps, ControlMessage, or_version, write_caps, write_control, encode_control, set_control,
  read_control_fields, read_control, check_control, decode_control,
}

-- What a string field holds after an optional field of the object.
abbrev or_text : Bytes → Bytes → Bytes
or_text [] old = old
or_text (x ∷ s) old = x ∷ s

or_text-nil : (s : Bytes) → or_text s [] ≡ s
or_text-nil [] = refl
or_text-nil (x ∷ s) = refl

abbrev or_int : ℤ → ℤ → ℤ
or_int (pos zero) old = old
or_int z old = z

or_int-zero : (z : ℤ) → or_int z (pos 0) ≡ z
or_int-zero (pos zero) = refl
or_int-zero _ = refl

abbrev or_caps : Option Caps → Option Caps → Option Caps
or_caps none old = old
or_caps (some c) old = some c

or_caps-none : (o : Option Caps) → or_caps o none ≡ o
or_caps-none none = refl
or_caps-none (some c) = refl

or-false : (b : Bool) → (b || false) ≡ b
or-false true = refl
or-false false = refl

-- One law for each field of the struct: reading it where it was written.
module _ (c : Codec) (m : ControlMessage) (rest : Fields) where
  read-type :
      (s : Bytes)
      → read_control_fields c m (field (codes "type") (text s) rest)
        ≡ read_control_fields c (record m { type = s }) rest
  unfolding read_control_fields
  read-type s = refl

  read-v :
      (z : ℤ)
      → ReadsInt c z
      → read_control_fields c m (field (codes "v") (number (c.int_text z)) rest)
        ≡ read_control_fields c (record m { v = z }) rest
  unfolding read_control_fields
  read-v z e = rw (e, read_control_fields, set_control, read_int) refl

  read-generation :
      (z : ℤ)
      → ReadsInt c z
      → read_control_fields c m (opt_int c (codes "generation") z rest)
        ≡ read_control_fields c (record m { generation = or_int z m.generation }) rest
  unfolding read_control_fields opt_int
  read-generation (pos zero) e = refl
  read-generation (pos (suc n)) e = rw (e, read_control_fields, set_control, read_int) refl
  read-generation (negsuc n) e = rw (e, read_control_fields, set_control, read_int) refl

  read-e2ee :
      (b : Bool)
      → read_control_fields c m (opt_bool (codes "e2ee") b rest)
        ≡ read_control_fields c (record m { e2ee = b || m.e2ee }) rest
  unfolding read_control_fields opt_bool
  read-e2ee true = refl
  read-e2ee false = refl

  read-caps :
      (o : Option Caps)
      → read_control_fields c m (write_caps o rest)
        ≡ read_control_fields c (record m { caps = or_caps o m.caps }) rest
  unfolding read_control_fields
  read-caps none = refl
  read-caps (some k) = refl

  read-access_code_hash :
      (s : Bytes)
      → read_control_fields c m (opt_text (codes "access_code_hash") s rest)
        ≡ read_control_fields c (record m { access_code_hash = or_text s m.access_code_hash }) rest
  unfolding read_control_fields opt_text
  read-access_code_hash [] = refl
  read-access_code_hash (x ∷ s) = refl

  read-access_code :
      (s : Bytes)
      → read_control_fields c m (opt_text (codes "access_code") s rest)
        ≡ read_control_fields c (record m { access_code = or_text s m.access_code }) rest
  unfolding read_control_fields opt_text
  read-access_code [] = refl
  read-access_code (x ∷ s) = refl

  read-session_id :
      (s : Bytes)
      → read_control_fields c m (opt_text (codes "session_id") s rest)
        ≡ read_control_fields c (record m { session_id = or_text s m.session_id }) rest
  unfolding read_control_fields opt_text
  read-session_id [] = refl
  read-session_id (x ∷ s) = refl

  read-code :
      (s : Bytes)
      → read_control_fields c m (opt_text (codes "code") s rest)
        ≡ read_control_fields c (record m { code = or_text s m.code }) rest
  unfolding read_control_fields opt_text
  read-code [] = refl
  read-code (x ∷ s) = refl

  read-message :
      (s : Bytes)
      → read_control_fields c m (opt_text (codes "message") s rest)
        ≡ read_control_fields c (record m { message = or_text s m.message }) rest
  unfolding read_control_fields opt_text
  read-message [] = refl
  read-message (x ∷ s) = refl

ruleset reading = (
  read-type, read-access_code_hash, read-access_code, read-session_id, read-e2ee, read-code,
  read-message, or_text-nil, or_int-zero, or-false, read-caps, or_caps-none,
)

-- Every field is read back from what json.Marshal wrote, the omitted ones as zero.
read-write :
    (c : Codec) (m : ControlMessage)
    → ReadsInt c m.v
    → ReadsInt c m.generation
    → read_control c (write_control c m) ≡ some m
unfolding read_control write_control
read-write c m hv hg =
    let at_v = λ (k : ControlMessage) (rest : Fields). read-v c k rest m.v hv in
    let at_generation =
      λ (k : ControlMessage) (rest : Fields). read-generation c k rest m.generation hg in
    simp (reading, at_v, at_generation)

or_version_idem : (z : ℤ) → or_version (or_version z) ≡ or_version z
or_version_idem z = ground arith

abbrev pub versioned : ControlMessage → ControlMessage
versioned m = record m { v = or_version m.v }

-- A message with a type is decoded as it was encoded, with the version filled in if it was 0. The
-- codec is taken to read back the text that it prints for this message and its two numbers.
pub decode_control-encode_control :
    (c : Codec) (m : ControlMessage)
    → m.type ≢ []
    → Reads c (write_control c (versioned m))
    → ReadsInt c (or_version m.v)
    → ReadsInt c m.generation
    → decode_control c (encode_control c m) ≡ ok (versioned m)
unfolding decode_control encode_control
decode_control-encode_control c m typed reads hv hg =
    rw (reads, decode_control)
      (rw (read-write c (versioned m) hv hg)
        (ground (arith, text_eq_iff m.type [], or_version_idem m.v)))

or_version-ne-zero : (z : ℤ) → or_version z ≢ pos 0
or_version-ne-zero z e = ground arith

check_control-valid :
    (o : Option ControlMessage) (m : ControlMessage)
    → check_control o ≡ ok m
    → (m.type ≢ []) × (m.v ≢ pos 0)
check_control-valid none m e = cc
check_control-valid (some k) m e = ground (arith, text_eq_iff k.type [], or_version-ne-zero k.v)

-- What is decoded has a type, and a version other than 0.
pub decode_control-valid :
    (c : Codec) (s : Bytes) (m : ControlMessage)
    → decode_control c s ≡ ok m
    → (m.type ≢ []) × (m.v ≢ pos 0)
unfolding decode_control
decode_control-valid c s m e = elim (Option-cases (c.parse s)) [
  | inl bad ↦ cc (rw (bad, decode_control) at e)
  | inr (v, good) ↦ check_control-valid (read_control c v) m (rw (good, decode_control) at e)
]
