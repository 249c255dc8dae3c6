-- ===== src/Protocol/Frame.antt =====
-- shared/protocol/dataframe.go. A frame is one length byte, the session id, one byte of flags and
-- the payload; each error of the source is a constructor.
pub mod Laws
use open_claw_bridge.Common.{
  ℕ, ◌+◌, ◌%◌, [], ◌∷◌, ◌++◌, Result, ok, err, ltb, ◌==◌, if◌then◌else◌, length, get_or, slice,
  drop,
}
use open_claw_bridge.Text.{Bytes}

pub data FrameError : Type 0 where
  session_id_required session_id_too_long frame_too_short sid_len_zero invalid_header : FrameError

pub record DataFrame : Type 0 where
  pub session_id : Bytes
  pub flags : ℕ
  pub payload : Bytes

abbrev pub flag_e2ee : ℕ
flag_e2ee = 1

-- `byte(n)` keeps the low eight bits.
unfoldable pub build_data_frame : Bytes → ℕ → Bytes → Result FrameError Bytes
build_data_frame session_id flags payload =
    if length session_id == 0
    then err session_id_required
    else if ltb 255 (length session_id)
    then err session_id_too_long
    else ok (((length session_id % 256) ∷ []) ++ (session_id ++ (flags ∷ payload)))

unfoldable pub parse_data_frame : Bytes → Result FrameError DataFrame
parse_data_frame frame =
    let sid_len = get_or frame 0 0 in
    if ltb (length frame) 3
    then err frame_too_short
    else if sid_len == 0
    then err sid_len_zero
    else if ltb (length frame) (1 + sid_len + 1)
    then err invalid_header
    else ok (record {
      session_id = slice frame 1 (1 + sid_len);
      flags = get_or frame (1 + sid_len) 0;
      payload = drop (1 + sid_len + 1) frame;
    })
