-- ===== src/Json.antt =====
-- JSON values, as package encoding/json reads and writes them. The text of JSON is a parameter, a
-- `Codec`: the program uses it only through json.Marshal and json.Unmarshal. What these do with a
-- struct, or with a map[string]any, is modelled over the values.
use open_claw_bridge.Common.{
  ℕ, zero, suc, ◌+◌, Bool, true, false, Option, none, some, [], ◌∷◌, if◌then◌else◌, ℤ, pos, ◌≡◌,
  leb, ◌&&◌,
}
use open_claw_bridge.Text.{Bytes, text_eq, has_prefix}

-- A number is its literal. The fields of an object stand in the order of the text.
mutual
  pub data Value : Type 0 where
    null : Value
    bool : Bool → Value
    number : Bytes → Value
    text : Bytes → Value
    array : Items → Value
    object : Fields → Value

  pub data Items : Type 0 where
    nil : Items
    cons : Value → Items → Items

  pub data Fields : Type 0 where
    end : Fields
    field : Bytes → Value → Fields → Fields

-- `parse` and `print` are the text of a value; `int_of` is strconv.ParseInt on a literal in 64 bits,
-- `int_text` strconv.FormatInt, and `float_text` is fmt.Sprintf("%.0f") of a literal's float64, if
-- it has one.
pub record Codec : Type 0 where
  pub parse : Bytes → Option Value
  pub print : Value → Bytes
  pub int_of : Bytes → Option ℤ
  pub int_text : ℤ → Bytes
  pub float_text : Bytes → Option Bytes

-- The text printed for a value is read back as that value.
abbrev pub Reads : Codec → Value → Type 0
Reads c v = c.parse (c.print v) ≡ some v

-- The integer printed as a literal is read back.
abbrev pub ReadsInt : Codec → ℤ → Type 0
ReadsInt c z = c.int_of (c.int_text z) ≡ some z

-- The first character of a field's name in lower case, and how many more bytes it takes: the
-- folding of encoding/json, under which U+017F is s and U+212A is k.
unfoldable pub fold_first : Bytes → ℕ × ℕ
unfolding has_prefix
fold_first [] = (0, 0)
fold_first (x ∷ s) =
    if leb b'A' x && leb x b'Z'
    then (x + 32, 0)
    else if has_prefix (x ∷ s) (0xc5 ∷ 0xbf ∷ [])
    then (b's', 1)
    else if has_prefix (x ∷ s) (0xe2 ∷ 0x84 ∷ 0xaa ∷ [])
    then (b'k', 2)
    else (x, 0)

unfoldable pub fold_from : ℕ → Bytes → Bytes
unfolding fold_first
fold_from k [] = []
fold_from (suc k) (x ∷ s) = fold_from k s
fold_from zero (x ∷ s) = let (c, k) = fold_first (x ∷ s) in c ∷ fold_from k s

-- Whether a field of an object goes to the struct field of this name, given in lower case.
unfoldable pub names : Bytes → Bytes → Bool
unfolding fold_from text_eq
names key name = text_eq (fold_from 0 key) name

-- A string field: null leaves it alone, and any other kind is an error.
unfoldable pub read_text : Bytes → Value → Option Bytes
read_text old null = some old
read_text old (text s) = some s
read_text old _ = none

unfoldable pub read_bool : Bool → Value → Option Bool
read_bool old null = some old
read_bool old (bool b) = some b
read_bool old _ = none

unfoldable pub read_int : Codec → ℤ → Value → Option ℤ
read_int c old null = some old
read_int c old (number n) = c.int_of n
read_int c old _ = none

-- `omitempty` on a string and on a bool.
unfoldable pub opt_text : Bytes → Bytes → Fields → Fields
opt_text key [] rest = rest
opt_text key (x ∷ s) rest = field key (text (x ∷ s)) rest

unfoldable pub opt_bool : Bytes → Bool → Fields → Fields
opt_bool key false rest = rest
opt_bool key true rest = field key (bool true) rest

-- `omitempty` on an int.
unfoldable pub opt_int : Codec → Bytes → ℤ → Fields → Fields
opt_int c key (pos zero) rest = rest
opt_int c key z rest = field key (number (c.int_text z)) rest
