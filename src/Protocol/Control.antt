-- ===== src/Protocol/Control.antt =====
-- shared/protocol/control.go. `write_control` and `read_control` are what encoding/json does with a
-- ControlMessage by the tags of its fields.
pub mod Laws
use mathlib.Core.Option
use open_claw_bridge.Common.{
  zero, Bool, true, false, Option, none, some, [], ◌++◌, if◌then◌else◌, ℤ, pos, negsuc, Result, ok,
  err,
}
use open_claw_bridge.Text.{Bytes, codes, text_eq, to_hex}
use open_claw_bridge.Json.{
  Value, Fields, Codec, null, text, number, array, object, bool, end, field, names, read_text,
  read_bool, read_int, opt_text, opt_bool, opt_int,
}

abbrev pub version : ℤ
version = pos 1

abbrev pub type_register : Bytes
type_register = codes "REGISTER"

abbrev pub type_connect : Bytes
type_connect = codes "CONNECT"

abbrev pub type_connect_ok : Bytes
type_connect_ok = codes "CONNECT_OK"

abbrev pub type_session_open : Bytes
type_session_open = codes "SESSION_OPEN"

abbrev pub type_close_session : Bytes
type_close_session = codes "CLOSE_SESSION"

abbrev pub type_heartbeat : Bytes
type_heartbeat = codes "HEARTBEAT"

abbrev pub type_error : Bytes
type_error = codes "ERROR"

pub record Caps : Type 0 where
  pub e2ee : Bool

pub record ControlMessage : Type 0 where
  pub type : Bytes
  pub v : ℤ
  pub access_code_hash : Bytes
  pub access_code : Bytes
  pub generation : ℤ
  pub session_id : Bytes
  pub e2ee : Bool
  pub caps : Option Caps
  pub code : Bytes
  pub message : Bytes

-- The zero value, ControlMessage{}.
abbrev pub no_message : ControlMessage
no_message = record {
  type = [];
  v = pos 0;
  access_code_hash = [];
  access_code = [];
  generation = pos 0;
  session_id = [];
  e2ee = false;
  caps = none;
  code = [];
  message = [];
}

pub data ControlError : Type 0 where
  bad_json missing_type : ControlError

-- if msg.V == 0 { msg.V = Version }
abbrev pub or_version : ℤ → ℤ
or_version (pos zero) = version
or_version z = z

abbrev write_caps : Option Caps → Fields → Fields
write_caps none rest = rest
write_caps (some c) rest =
    field (codes "caps") (object (field (codes "e2ee") (bool c.e2ee) end)) rest

unfoldable pub write_control : Codec → ControlMessage → Value
write_control c m = object (
    field (codes "type") (text m.type) (
      field (codes "v") (number (c.int_text m.v)) (
        opt_text (codes "access_code_hash") m.access_code_hash (
          opt_text (codes "access_code") m.access_code (
            opt_int c (codes "generation") m.generation (
              opt_text (codes "session_id") m.session_id (
                opt_bool (codes "e2ee") m.e2ee (
                  write_caps m.caps (
                    opt_text (codes "code") m.code
                      (opt_text (codes "message") m.message end))))))))))

unfoldable pub encode_control : Codec → ControlMessage → Bytes
encode_control c m = c.print (write_control c (record m { v = or_version m.v }))

unfoldable pub read_caps_fields : Caps → Fields → Option Caps
unfolding names read_bool
read_caps_fields caps end = some caps
read_caps_fields caps (field key v rest) =
    elim (if names key (codes "e2ee") then read_bool caps.e2ee v else some caps.e2ee) [
      | none ↦ none
      | some b ↦ read_caps_fields (record { e2ee = b }) rest
    ]

abbrev caps_or_zero : Option Caps → Caps
caps_or_zero none = record { e2ee = false }
caps_or_zero (some c) = c

-- The pointer field `Caps`: null clears it, and an object fills what it points to.
unfoldable pub read_caps : Option Caps → Value → Option (Option Caps)
unfolding read_caps_fields
read_caps old null = some none
read_caps old (object fs) = Option.map some (read_caps_fields (caps_or_zero old) fs)
read_caps old _ = none

unfoldable pub set_control : Codec → ControlMessage → Bytes → Value → Option ControlMessage
unfolding names read_text read_int read_bool read_caps
set_control c m key v =
    if names key (codes "type")
    then Option.map (λ s. record m { type = s }) (read_text m.type v)
    else if names key (codes "v")
    then Option.map (λ z. record m { v = z }) (read_int c m.v v)
    else if names key (codes "access_code_hash")
    then Option.map (λ s. record m { access_code_hash = s }) (read_text m.access_code_hash v)
    else if names key (codes "access_code")
    then Option.map (λ s. record m { access_code = s }) (read_text m.access_code v)
    else if names key (codes "generation")
    then Option.map (λ z. record m { generation = z }) (read_int c m.generation v)
    else if names key (codes "session_id")
    then Option.map (λ s. record m { session_id = s }) (read_text m.session_id v)
    else if names key (codes "e2ee")
    then Option.map (λ b. record m { e2ee = b }) (read_bool m.e2ee v)
    else if names key (codes "caps")
    then Option.map (λ o. record m { caps = o }) (read_caps m.caps v)
    else if names key (codes "code")
    then Option.map (λ s. record m { code = s }) (read_text m.code v)
    else if names key (codes "message")
    then Option.map (λ s. record m { message = s }) (read_text m.message v)
    else some m

unfoldable pub read_control_fields : Codec → ControlMessage → Fields → Option ControlMessage
unfolding set_control
read_control_fields c m end = some m
read_control_fields c m (field key v rest) = elim (set_control c m key v) [
  | none ↦ none
  | some m' ↦ read_control_fields c m' rest
]

-- json.Unmarshal into a ControlMessage: null changes nothing.
unfoldable pub read_control : Codec → Value → Option ControlMessage
unfolding read_control_fields
read_control c null = some no_message
read_control c (object fs) = read_control_fields c no_message fs
read_control c _ = none

abbrev check_control : Option ControlMessage → Result ControlError ControlMessage
check_control none = err bad_json
check_control (some m) =
    if text_eq m.type [] then err missing_type else ok (record m { v = or_version m.v })

unfoldable pub decode_control : Codec → Bytes → Result ControlError ControlMessage
unfolding read_control text_eq
decode_control c s = elim (c.parse s) [
  | none ↦ err bad_json
  | some v ↦ check_control (read_control c v)
]

-- `sha256` stands for crypto/sha256.
unfoldable pub hash_access_code : (Bytes → Bytes) → Bytes → Bytes
unfolding to_hex
hash_access_code sha256 access_code = codes "sha256:" ++ to_hex (sha256 access_code)
