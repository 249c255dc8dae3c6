-- ===== src/Text/Laws.antt =====
-- Laws of texts: equality decides, and hexadecimal text determines its bytes.
use open_claw_bridge.Common.{
  ℕ, ◌/◌, ◌%◌, ◌<◌, ◌≡◌, refl, ◌↔◌, ◌≢◌, true, false, [], ◌∷◌, ◌++◌, arith, All,
}
use open_claw_bridge.Text.{Bytes, text_eq, to_hex, hex_digit}

pub text_eq_iff : (s t : Bytes) → (text_eq s t ≡ true) ↔ (s ≡ t)
unfolding text_eq
text_eq_iff (x ∷ s) (y ∷ t) = ground (arith, text_eq_iff s t)
text_eq_iff _ _ = ground arith

pub text_eq_refl : (s : Bytes) → text_eq s s ≡ true
text_eq_refl s = (text_eq_iff s s).1 refl

pub text_eq_of_ne : (s t : Bytes) → s ≢ t → text_eq s t ≡ false
text_eq_of_ne s t h = ground (arith, text_eq_iff s t)

abbrev pub IsByte : ℕ → Type 0
IsByte x = x < 256

hex_digit_inj : (x y : ℕ) → x < 16 → y < 16 → hex_digit x ≡ hex_digit y → x ≡ y
hex_digit_inj x y hx hy e = ground arith

byte_of_digits : (x y : ℕ) → x / 16 ≡ y / 16 → x % 16 ≡ y % 16 → x ≡ y
byte_of_digits x y p q = omega arith

-- Different byte strings have different hexadecimal texts.
pub to_hex_inj : (s t : Bytes) → All IsByte s → All IsByte t → to_hex s ≡ to_hex t → s ≡ t
unfolding to_hex
to_hex_inj [] [] hs ht e = refl
to_hex_inj [] (y ∷ t) hs ht e = cc
to_hex_inj (x ∷ s) [] hs ht e = cc
to_hex_inj (x ∷ s) (y ∷ t) hs ht e =
    let high : x / 16 ≡ y / 16 = hex_digit_inj _ _ (omega arith) (omega arith) (cc) in
    let low : x % 16 ≡ y % 16 = hex_digit_inj _ _ (omega arith) (omega arith) (cc) in
    let rest : to_hex s ≡ to_hex t = cc in
    cc (byte_of_digits x y high low, to_hex_inj s t hs.1 ht.1 rest)

pub append_cancel_left : (p s t : Bytes) → p ++ s ≡ p ++ t → s ≡ t
append_cancel_left [] s t e = e
append_cancel_left (x ∷ p) s t e = append_cancel_left p s t (cc)
