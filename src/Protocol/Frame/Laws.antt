-- ===== src/Protocol/Frame/Laws.antt =====
-- The DATA frame: what the parser accepts, and the round trips.
use open_claw_bridge.Common.{
  ℕ, suc, ◌+◌, ◌-◌, ◌<◌, ◌≤◌, ◌≡◌, refl, ap, sym, subst, ◌∙◌, ◌↔◌, [], ◌∷◌, ◌++◌, Result, ok, err,
  ltb, ◌==◌, if◌then◌else◌, length, get_or, drop, take, arith, All, split_at, length-take,
  take-append, get_or-append, drop-suc-append, length-append,
}
use open_claw_bridge.Text.{Bytes}
use open_claw_bridge.Text.Laws.{IsByte}
use open_claw_bridge.Protocol.Frame.{
  DataFrame, FrameError, frame_too_short, sid_len_zero, invalid_header, session_id_required,
  session_id_too_long, build_data_frame, parse_data_frame,
}

-- The layout of a frame in docs/protocol.md: sid_len, sid, flags, payload.
abbrev pub layout : DataFrame → Bytes
layout d = length d.session_id ∷ (d.session_id ++ (d.flags ∷ d.payload))

abbrev split : ℕ → Bytes → DataFrame
split n f = record { session_id = take n f; flags = get_or f n 0; payload = drop (suc n) f }

abbrev parse_split : ℕ → Bytes → Result FrameError DataFrame
parse_split n f =
    if ltb (suc (length f)) 3
    then err frame_too_short
    else if n == 0
    then err sid_len_zero
    else if ltb (suc (length f)) (suc (suc n))
    then err invalid_header
    else ok (split n f)

-- The index arithmetic of the parser, worked out behind the length byte.
parse-cons : (n : ℕ) (f : Bytes) → parse_data_frame (n ∷ f) ≡ parse_split n f
unfolding parse_data_frame
parse-cons n f =
    let hi : 1 + n ≡ suc n = omega arith in
    let after : suc n + 1 ≡ suc (suc n) = omega arith in
    let span : suc n - 1 ≡ n = omega arith in rw (hi, after, span) refl

parse_split-ok : (n : ℕ) (f : Bytes) → 0 < n → n < length f → parse_split n f ≡ ok (split n f)
parse_split-ok n f h k = ground arith

parse_split-eq-ok :
    (n : ℕ) (f : Bytes) (d : DataFrame)
    → parse_split n f ≡ ok d
    → (0 < n) × (n < length f) × (split n f ≡ d)
parse_split-eq-ok n f d e = ground arith

split-layout :
    (s : Bytes) (b : ℕ) (p : Bytes)
    → split (length s) (s ++ (b ∷ p)) ≡ record { session_id = s; flags = b; payload = p }
split-layout s b p = cc (take-append s (b ∷ p), get_or-append s p b 0, drop-suc-append s p b)

-- Every frame laid out as the protocol says, with a session id, is read back.
pub parse-layout : (d : DataFrame) → 0 < length d.session_id → parse_data_frame (layout d) ≡ ok d
parse-layout d h =
    parse-cons _ _
    ∙ parse_split-ok (length d.session_id) _ h
        (omega (arith, length-append d.session_id (d.flags ∷ d.payload)))
    ∙ ap ok (split-layout d.session_id d.flags d.payload)

-- And nothing else is accepted.
pub layout-parse :
    (f : Bytes) (d : DataFrame)
    → parse_data_frame f ≡ ok d
    → (f ≡ layout d) × (0 < length d.session_id)
layout-parse [] d e = unfold parse_data_frame in cc e
layout-parse (n ∷ f) d e =
    let (pos, lt, p) = parse_split-eq-ok n f d (sym (parse-cons n f) ∙ e) in
    let size : length (take n f) ≡ n = length-take n f (omega arith) in
    rw (← p) (rw size (ap (◌∷◌ n) (sym (split_at n f 0 lt)), pos))

-- The parser accepts exactly the frames of the protocol.
pub parse-iff-layout :
    (f : Bytes) (d : DataFrame)
    → (parse_data_frame f ≡ ok d) ↔ ((f ≡ layout d) × (0 < length d.session_id))
parse-iff-layout f d = (layout-parse f d, λ h. ap parse_data_frame h.0 ∙ parse-layout d h.1)

pub build-eq-layout :
    (s : Bytes) (b : ℕ) (p : Bytes)
    → 0 < length s
    → length s ≤ 255
    → build_data_frame s b p ≡ ok (layout (record { session_id = s; flags = b; payload = p }))
unfolding build_data_frame
build-eq-layout s b p h k = ground arith

build-inv :
    (s : Bytes) (b : ℕ) (p f : Bytes)
    → build_data_frame s b p ≡ ok f
    → (0 < length s) × (length s ≤ 255)
unfolding build_data_frame
build-inv s b p f e = ground arith

-- What the builder makes, the parser reads back.
pub parse-build :
    (s : Bytes) (b : ℕ) (p f : Bytes)
    → build_data_frame s b p ≡ ok f
    → parse_data_frame f ≡ ok (record { session_id = s; flags = b; payload = p })
parse-build s b p f e =
    let (pos, fits) = build-inv s b p f e in
    let d : DataFrame = record { session_id = s; flags = b; payload = p } in
    cc (build-eq-layout s b p pos fits, parse-layout d pos)

-- The builder refuses an empty id and an id longer than the length byte can say, and nothing else.
pub build_errors :
    (s : Bytes) (b : ℕ) (p : Bytes)
    → ((build_data_frame s b p ≡ err session_id_required) ↔ (length s ≡ 0))
      × ((build_data_frame s b p ≡ err session_id_too_long) ↔ (255 < length s))
unfolding build_data_frame
build_errors s b p = ground arith

-- Building a frame anew from its parts, as read, gives the same bytes.
pub build-parse :
    (f : Bytes) (d : DataFrame)
    → All IsByte f
    → parse_data_frame f ≡ ok d
    → build_data_frame d.session_id d.flags d.payload ≡ ok f
build-parse f d h e =
    let (l, pos) = layout-parse f d e in
    let fits : length d.session_id < 256 = (subst (All IsByte) l h).0 in
    build-eq-layout d.session_id d.flags d.payload pos (omega arith) ∙ ap ok (sym l)
