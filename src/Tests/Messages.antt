-- ===== src/Tests/Messages.antt =====
-- Control messages and events of shared/protocol on sample values.
use open_claw_bridge.Common.{some, true, [], ◌∷◌, ◌≡◌, refl, ok, pos}
use open_claw_bridge.Text.{Bytes, codes, text_eq}
use open_claw_bridge.Json
use open_claw_bridge.Json.{Value, Codec, names, fold_from, read_text, opt_text, opt_int, opt_bool}
use open_claw_bridge.Protocol.Control.{
  ControlMessage, no_message, type_register, write_control, encode_control, decode_control,
}
use open_claw_bridge.Protocol.Control.Laws.{versioned, decode_control-encode_control}
use open_claw_bridge.Protocol.Event.{
  Event, no_event, event_user_message, write_event, encode_event, decode_event,
}
use open_claw_bridge.Protocol.Event.Laws.{decode_event-encode_event}
use open_claw_bridge.Tests.Samples.{knows}

abbrev registration : ControlMessage
registration = record no_message {
  type = type_register;
  access_code_hash = codes "sha256:41";
  generation = pos 1;
  caps = some (record { e2ee = true });
}

abbrev control_codec : Codec
control_codec = knows (write_control (knows Json.null) (versioned registration))

decode_control-encode_control_example :
    decode_control control_codec (encode_control control_codec registration)
    ≡ ok (versioned registration)
unfolding write_control opt_text opt_int opt_bool text_eq
decode_control-encode_control_example =
    decode_control-encode_control control_codec registration (λ e. cc) refl refl refl

abbrev question : Event
question = record no_event {
  type = event_user_message;
  content = codes "hello";
  images = record { image = codes "iVBO"; mime_type = codes "image/png" } ∷ [];
}

abbrev event_codec : Codec
event_codec = knows (write_event question)

decode_event-encode_event_example :
    (s : Bytes) × (encode_event event_codec question ≡ ok s)
    × (decode_event event_codec s ≡ ok question)
unfolding text_eq
decode_event-encode_event_example = decode_event-encode_event event_codec question (λ e. cc) refl
