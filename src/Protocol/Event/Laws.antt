-- ===== src/Protocol/Event/Laws.antt =====
-- Events: what is encoded is decoded.
use open_claw_bridge.Common.{
  Option, none, some, List, [], ◌∷◌, ok, ◌≡◌, ◌≢◌, refl, arith, inl, inr, Option-cases,
}
use open_claw_bridge.Text.{Bytes, codes}
use open_claw_bridge.Text.Laws.{text_eq_iff}
use open_claw_bridge.Json.{Items, array, Fields, Codec, Reads, text, field, opt_text}
use open_claw_bridge.Protocol.Event.{
  ImageItem, Event, no_event, write_image, write_images, opt_images, write_event, encode_event,
  read_image, read_images, read_slice, read_event_fields, read_event, check_event, decode_event,
  set_event,
}

abbrev or_text : Bytes → Bytes → Bytes
or_text [] old = old
or_text (x ∷ s) old = x ∷ s

or_text-nil : (s : Bytes) → or_text s [] ≡ s
or_text-nil [] = refl
or_text-nil (x ∷ s) = refl

read-write_image : (i : ImageItem) → read_image (write_image i) ≡ some i
unfolding read_image write_image opt_text
read-write_image i = ground arith

read-write_images : (is : List ImageItem) → read_images (write_images is) ≡ some is
unfolding read_images write_images
read-write_images [] = refl
read-write_images (i ∷ is) = rw (read-write_image i, read_images) (rw (read-write_images is) refl)

abbrev or_images : List ImageItem → List ImageItem → List ImageItem
or_images [] old = old
or_images (i ∷ is) old = i ∷ is

or_images-nil : (is : List ImageItem) → or_images is [] ≡ is
or_images-nil [] = refl
or_images-nil (i ∷ is) = refl

-- One law for each field of the struct: reading it where it was written.
module _ (e : Event) (rest : Fields) where
  read-type :
      (s : Bytes)
      → read_event_fields e (field (codes "type") (text s) rest)
        ≡ read_event_fields (record e { type = s }) rest
  unfolding read_event_fields
  read-type s = refl

  read-array :
      (vs : Items) (is : List ImageItem)
      → read_images vs ≡ some is
      → read_event_fields e (field (codes "images") (array vs) rest)
        ≡ read_event_fields (record e { images = is }) rest
  unfolding read_event_fields
  read-array vs is h = rw (h, read_event_fields, set_event, read_slice) refl

  read-images :
      (is : List ImageItem)
      → read_event_fields e (opt_images is rest)
        ≡ read_event_fields (record e { images = or_images is e.images }) rest
  unfolding opt_images
  read-images [] = refl
  read-images (i ∷ is) = read-array _ (i ∷ is) (read-write_images (i ∷ is))

  read-content :
      (s : Bytes)
      → read_event_fields e (opt_text (codes "content") s rest)
        ≡ read_event_fields (record e { content = or_text s e.content }) rest
  unfolding read_event_fields opt_text
  read-content [] = refl
  read-content (x ∷ s) = refl

  read-action :
      (s : Bytes)
      → read_event_fields e (opt_text (codes "action") s rest)
        ≡ read_event_fields (record e { action = or_text s e.action }) rest
  unfolding read_event_fields opt_text
  read-action [] = refl
  read-action (x ∷ s) = refl

  read-code :
      (s : Bytes)
      → read_event_fields e (opt_text (codes "code") s rest)
        ≡ read_event_fields (record e { code = or_text s e.code }) rest
  unfolding read_event_fields opt_text
  read-code [] = refl
  read-code (x ∷ s) = refl

  read-message :
      (s : Bytes)
      → read_event_fields e (opt_text (codes "message") s rest)
        ≡ read_event_fields (record e { message = or_text s e.message }) rest
  unfolding read_event_fields opt_text
  read-message [] = refl
  read-message (x ∷ s) = refl

ruleset reading = (
  read-type, read-images, read-content, read-action, read-code, read-message, or_text-nil,
  or_images-nil,
)

read-write : (e : Event) → read_event no_event (write_event e) ≡ some e
unfolding read_event write_event
read-write e = simp reading

pub encode_event_total :
    (c : Codec) (e : Event) → e.type ≢ [] → encode_event c e ≡ ok (c.print (write_event e))
unfolding encode_event
encode_event_total c e h = ground (arith, text_eq_iff e.type [])

-- An event with a type is encoded, and decoded as it was, images included. The codec is taken to
-- read back the text that it prints for this event.
pub decode_event-encode_event :
    (c : Codec) (e : Event)
    → e.type ≢ []
    → Reads c (write_event e)
    → (s : Bytes) × (encode_event c e ≡ ok s) × (decode_event c s ≡ ok e)
decode_event-encode_event c e typed reads = (
  c.print (write_event e),
  encode_event_total c e typed,
  unfold decode_event in
      rw (reads, decode_event) (rw (read-write e) (ground (arith, text_eq_iff e.type []))),
)

check_event-typed : (o : Option Event) (e : Event) → check_event o ≡ ok e → e.type ≢ []
check_event-typed none e h = cc
check_event-typed (some k) e h = ground (arith, text_eq_iff k.type [])

-- What is decoded has a type.
pub decode_event-typed : (c : Codec) (s : Bytes) (e : Event) → decode_event c s ≡ ok e → e.type ≢ []
unfolding decode_event
decode_event-typed c s e h = elim (Option-cases (c.parse s)) [
  | inl bad ↦ cc (rw (bad, decode_event) at h)
  | inr (v, good) ↦ check_event-typed (read_event no_event v) e (rw (good, decode_event) at h)
]
