-- ===== src/Tests/Frames.antt =====
-- The DATA frame of shared/protocol/dataframe.go on sample bytes.
use open_claw_bridge.Common.{[], ◌∷◌, ◌≡◌, refl, ok, err, ◌↔◌, ◌<◌, length}
use open_claw_bridge.Text.{Bytes, codes}
use open_claw_bridge.Protocol.Frame.{
  DataFrame, build_data_frame, parse_data_frame, frame_too_short, sid_len_zero, invalid_header,
}
use open_claw_bridge.Protocol.Frame.Laws.{layout, parse-iff-layout, parse-build}

abbrev hello : Bytes
hello = 2 ∷ b's' ∷ b'1' ∷ 0 ∷ b'h' ∷ b'i' ∷ []

abbrev hello_parts : DataFrame
hello_parts = record { session_id = codes "s1"; flags = 0; payload = codes "hi" }

build_hello : build_data_frame (codes "s1") 0 (codes "hi") ≡ ok hello
unfolding build_data_frame
build_hello = refl

parse_hello : parse_data_frame hello ≡ ok hello_parts
unfolding parse_data_frame
parse_hello = refl

parse_errors :
    (parse_data_frame (1 ∷ b's' ∷ []) ≡ err frame_too_short)
    × (parse_data_frame (0 ∷ 0 ∷ 0 ∷ []) ≡ err sid_len_zero)
    × (parse_data_frame (9 ∷ 0 ∷ 0 ∷ []) ≡ err invalid_header)
unfolding parse_data_frame
parse_errors = (refl, refl, refl)

parse-iff-layout_example :
    (parse_data_frame hello ≡ ok hello_parts)
    ↔ ((hello ≡ layout hello_parts) × (0 < length (codes "s1")))
parse-iff-layout_example = parse-iff-layout hello hello_parts

parse-build_example : parse_data_frame hello ≡ ok hello_parts
parse-build_example = parse-build (codes "s1") 0 (codes "hi") hello build_hello
