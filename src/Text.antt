-- ===== src/Text.antt =====
-- Go's `string` and `[]byte` as the list of their bytes, with what the program uses of the
-- packages `strings` and `encoding/hex`.
pub mod Laws
use open_claw_bridge.Common.{
  ℕ, zero, suc, ◌+◌, ◌/◌, ◌%◌, String, Bool, true, false, ◌&&◌, ◌||◌, List, [], ◌∷◌, ◌++◌, map, ltb,
  leb, ◌==◌, if◌then◌else◌, length,
}
use Prim.Native.Char.{code}
use mathlib.Core.List.{reverse}

abbrev pub Bytes : Type 0
Bytes = List ℕ

-- The bytes of a literal of the source; every literal there is ASCII.
abbrev pub codes : String → Bytes
codes String.[] = []
codes (String.◌∷◌ c s) = code c ∷ codes s

-- `s == t`
unfoldable pub text_eq : Bytes → Bytes → Bool
text_eq [] [] = true
text_eq (x ∷ s) (y ∷ t) = x == y && text_eq s t
text_eq _ _ = false

-- strings.HasPrefix(s, p)
unfoldable pub has_prefix : Bytes → Bytes → Bool
has_prefix s [] = true
has_prefix [] (y ∷ p) = false
has_prefix (x ∷ s) (y ∷ p) = x == y && has_prefix s p

-- strings.Contains(s, p)
unfoldable pub contains : Bytes → Bytes → Bool
unfolding has_prefix
contains [] p = has_prefix [] p
contains (x ∷ s) p = has_prefix (x ∷ s) p || contains s p

-- strings.HasSuffix(s, p)
unfoldable pub has_suffix : Bytes → Bytes → Bool
unfolding has_prefix
has_suffix s p = has_prefix (reverse s) (reverse p)

-- The UTF-8 encodings of the white space of unicode.IsSpace.
abbrev pub white_spaces : List Bytes
white_spaces =
    (9 ∷ [])
    ∷ (10 ∷ [])
    ∷ (11 ∷ [])
    ∷ (12 ∷ [])
    ∷ (13 ∷ [])
    ∷ (32 ∷ [])
    ∷ (0xc2 ∷ 0x85 ∷ [])
    ∷ (0xc2 ∷ 0xa0 ∷ [])
    ∷ (0xe1 ∷ 0x9a ∷ 0x80 ∷ [])
    ∷ (0xe2 ∷ 0x80 ∷ 0x80 ∷ [])
    ∷ (0xe2 ∷ 0x80 ∷ 0x81 ∷ [])
    ∷ (0xe2 ∷ 0x80 ∷ 0x82 ∷ [])
    ∷ (0xe2 ∷ 0x80 ∷ 0x83 ∷ [])
    ∷ (0xe2 ∷ 0x80 ∷ 0x84 ∷ [])
    ∷ (0xe2 ∷ 0x80 ∷ 0x85 ∷ [])
    ∷ (0xe2 ∷ 0x80 ∷ 0x86 ∷ [])
    ∷ (0xe2 ∷ 0x80 ∷ 0x87 ∷ [])
    ∷ (0xe2 ∷ 0x80 ∷ 0x88 ∷ [])
    ∷ (0xe2 ∷ 0x80 ∷ 0x89 ∷ [])
    ∷ (0xe2 ∷ 0x80 ∷ 0x8a ∷ [])
    ∷ (0xe2 ∷ 0x80 ∷ 0xa8 ∷ [])
    ∷ (0xe2 ∷ 0x80 ∷ 0xa9 ∷ [])
    ∷ (0xe2 ∷ 0x80 ∷ 0xaf ∷ [])
    ∷ (0xe2 ∷ 0x81 ∷ 0x9f ∷ [])
    ∷ (0xe3 ∷ 0x80 ∷ 0x80 ∷ [])
    ∷ []

-- The length of the first text of the list with which `s` begins, 0 if there is none.
unfoldable pub prefix_length : List Bytes → Bytes → ℕ
unfolding has_prefix
prefix_length [] s = 0
prefix_length (w ∷ ws) s = if has_prefix s w then length w else prefix_length ws s

-- Skips `k` bytes, then every text of `ws` at the front.
unfoldable pub trim_front : List Bytes → ℕ → Bytes → Bytes
unfolding prefix_length
trim_front ws k [] = []
trim_front ws (suc k) (x ∷ s) = trim_front ws k s
trim_front ws zero (x ∷ s) = elim (prefix_length ws (x ∷ s)) [
  | zero ↦ x ∷ s
  | suc k ↦ trim_front ws k s
]

-- strings.TrimSpace(s). The reversed text is stripped of the reversed encodings: no encoding of
-- white space is the end of another character's.
unfoldable pub trim_space : Bytes → Bytes
unfolding trim_front
trim_space s =
    reverse (trim_front (map reverse white_spaces) 0 (reverse (trim_front white_spaces 0 s)))

abbrev pub add_word : Bytes → List Bytes → List Bytes
add_word [] ws = ws
add_word (x ∷ w) ws = (x ∷ w) ∷ ws

-- The words of a text, where `word` is read already and `k` more bytes are white space.
unfoldable pub fields_from : ℕ → Bytes → Bytes → List Bytes
unfolding prefix_length
fields_from k word [] = add_word word []
fields_from (suc k) word (x ∷ s) = fields_from k word s
fields_from zero word (x ∷ s) = elim (prefix_length white_spaces (x ∷ s)) [
  | zero ↦ fields_from zero (word ++ x ∷ []) s
  | suc k ↦ add_word word (fields_from k [] s)
]

-- strings.Fields(s)
unfoldable pub fields : Bytes → List Bytes
unfolding fields_from
fields s = fields_from 0 [] s

-- The lower case of the first character, and how many bytes more than one it takes. The two
-- characters beyond ASCII with an ASCII lower case are U+0130 and U+212A.
unfoldable pub lower_first : Bytes → ℕ × ℕ
unfolding has_prefix
lower_first [] = (0, 0)
lower_first (x ∷ s) =
    if leb b'A' x && leb x b'Z'
    then (x + 32, 0)
    else if has_prefix (x ∷ s) (0xc4 ∷ 0xb0 ∷ [])
    then (b'i', 1)
    else if has_prefix (x ∷ s) (0xe2 ∷ 0x84 ∷ 0xaa ∷ [])
    then (b'k', 2)
    else (x, 0)

unfoldable pub to_lower_from : ℕ → Bytes → Bytes
unfolding lower_first
to_lower_from k [] = []
to_lower_from (suc k) (x ∷ s) = to_lower_from k s
to_lower_from zero (x ∷ s) = let (c, k) = lower_first (x ∷ s) in c ∷ to_lower_from k s

-- strings.ToLower(s), as far as the program can tell: it only compares the result with ASCII
-- words, and every other character beyond ASCII stays beyond ASCII, so it is kept here.
unfoldable pub to_lower : Bytes → Bytes
unfolding to_lower_from
to_lower s = to_lower_from 0 s

abbrev pub hex_digit : ℕ → ℕ
hex_digit n = if ltb n 10 then n + 48 else n + 87

-- hex.EncodeToString(s)
unfoldable pub to_hex : Bytes → Bytes
to_hex [] = []
to_hex (x ∷ s) = hex_digit (x / 16) ∷ hex_digit (x % 16) ∷ to_hex s
