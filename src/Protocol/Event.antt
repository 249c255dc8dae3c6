-- ===== src/Protocol/Event.antt =====
-- shared/protocol/event.go. `write_event` and `read_event` are what encoding/json does with an Event
-- by the tags of its fields. An element of "images" is read into a fresh item.
pub mod Laws
use mathlib.Core.Option
use open_claw_bridge.Common.{
  Option, none, some, List, [], ◌∷◌, if◌then◌else◌, Result, ok, err, Bool,
}
use open_claw_bridge.Text.{Bytes, codes, text_eq}
use open_claw_bridge.Json.{
  Value, Items, Fields, Codec, null, text, array, object, nil, cons, end, field, names, read_text,
  opt_text,
}

abbrev pub event_user_message : Bytes
event_user_message = codes "user_message"

abbrev pub event_token : Bytes
event_token = codes "token"

abbrev pub event_end : Bytes
event_end = codes "end"

abbrev pub event_error : Bytes
event_error = codes "error"

pub record ImageItem : Type 0 where
  pub image : Bytes
  pub mime_type : Bytes

pub record Event : Type 0 where
  pub type : Bytes
  pub content : Bytes
  pub images : List ImageItem
  pub action : Bytes
  pub code : Bytes
  pub message : Bytes

-- The zero value, Event{}.
abbrev pub no_event : Event
no_event = record { type = []; content = []; images = []; action = []; code = []; message = [] }

pub data EventError : Type 0 where
  bad_json missing_event_type : EventError

unfoldable pub write_image : ImageItem → Value
write_image i =
    object (opt_text (codes "data") i.image (opt_text (codes "mimeType") i.mime_type end))

unfoldable pub write_images : List ImageItem → Items
unfolding write_image
write_images [] = nil
write_images (i ∷ is) = cons (write_image i) (write_images is)

unfoldable pub opt_images : List ImageItem → Fields → Fields
unfolding write_images
opt_images [] rest = rest
opt_images (i ∷ is) rest = field (codes "images") (array (write_images (i ∷ is))) rest

unfoldable pub write_event : Event → Value
unfolding opt_images
write_event e = object (
    field (codes "type") (text e.type) (
      opt_text (codes "content") e.content (
        opt_images e.images (
          opt_text (codes "action") e.action
            (opt_text (codes "code") e.code (opt_text (codes "message") e.message end))))))

unfoldable pub encode_event : Codec → Event → Result EventError Bytes
unfolding text_eq
encode_event c e =
    if text_eq e.type [] then err missing_event_type else ok (c.print (write_event e))

unfoldable pub set_image : ImageItem → Bytes → Value → Option ImageItem
unfolding names read_text
set_image i key v =
    if names key (codes "data")
    then Option.map (λ s. record i { image = s }) (read_text i.image v)
    else if names key (codes "mimetype")
    then Option.map (λ s. record i { mime_type = s }) (read_text i.mime_type v)
    else some i

unfoldable pub read_image_fields : ImageItem → Fields → Option ImageItem
unfolding set_image
read_image_fields i end = some i
read_image_fields i (field key v rest) = elim (set_image i key v) [
  | none ↦ none
  | some i' ↦ read_image_fields i' rest
]

unfoldable pub read_image : Value → Option ImageItem
unfolding read_image_fields
read_image null = some (record { image = []; mime_type = [] })
read_image (object fs) = read_image_fields (record { image = []; mime_type = [] }) fs
read_image _ = none

unfoldable pub read_images : Items → Option (List ImageItem)
unfolding read_image
read_images nil = some []
read_images (cons v vs) = elim (read_image v) [
  | none ↦ none
  | some i ↦ Option.map (λ is. i ∷ is) (read_images vs)
]

-- A slice field: null makes it nil.
unfoldable pub read_slice : Value → Option (List ImageItem)
unfolding read_images
read_slice null = some []
read_slice (array vs) = read_images vs
read_slice _ = none

unfoldable pub set_event : Event → Bytes → Value → Option Event
unfolding names read_text read_slice
set_event e key v =
    if names key (codes "type")
    then Option.map (λ s. record e { type = s }) (read_text e.type v)
    else if names key (codes "content")
    then Option.map (λ s. record e { content = s }) (read_text e.content v)
    else if names key (codes "images")
    then Option.map (λ is. record e { images = is }) (read_slice v)
    else if names key (codes "action")
    then Option.map (λ s. record e { action = s }) (read_text e.action v)
    else if names key (codes "code")
    then Option.map (λ s. record e { code = s }) (read_text e.code v)
    else if names key (codes "message")
    then Option.map (λ s. record e { message = s }) (read_text e.message v)
    else some e

unfoldable pub read_event_fields : Event → Fields → Option Event
unfolding set_event
read_event_fields e end = some e
read_event_fields e (field key v rest) = elim (set_event e key v) [
  | none ↦ none
  | some e' ↦ read_event_fields e' rest
]

-- json.Unmarshal into the Event `old`.
unfoldable pub read_event : Event → Value → Option Event
unfolding read_event_fields
read_event old null = some old
read_event old (object fs) = read_event_fields old fs
read_event old _ = none

abbrev check_event : Option Event → Result EventError Event
check_event none = err bad_json
check_event (some e) = if text_eq e.type [] then err missing_event_type else ok e

unfoldable pub decode_event : Codec → Bytes → Result EventError Event
unfolding read_event text_eq
decode_event c s = elim (c.parse s) [
  | none ↦ err bad_json
  | some v ↦ check_event (read_event no_event v)
]
