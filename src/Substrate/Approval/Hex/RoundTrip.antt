-- ===== src/Substrate/Approval/Hex/RoundTrip.antt =====
-- `hex_decode` reads back what `hex_encode` of crates/lmml-substrate/src/approval.rs wrote.
use lmml.Base.{ℕ, ◌/◌, ◌%◌, ◌<◌, ◌≡◌, refl, false, some, [], ◌∷◌, arith, length, All, ok}
use lmml.Base.Ascii.{IsAscii, utf8-ascii_text}
use lmml.Substrate.Disk.{Bytes}
use lmml.Substrate.Approval.Hex.{
  hex_digit, hex_digits, hex_encode, byte_value, continues, begins_inside, decode_pairs, hex_decode,
}

abbrev pub AreBytes : Bytes → Type 0
AreBytes = All (λ b. b < 256)

digits-IsAscii : (bytes : Bytes) → AreBytes bytes → IsAscii (hex_digits bytes)
unfolding hex_digits
digits-IsAscii [] h = tt
digits-IsAscii (byte ∷ bytes) h = ground (arith, h.0, digits-IsAscii bytes h.1)

digits-even : (bytes : Bytes) → length (hex_digits bytes) % 2 ≡ 0
unfolding hex_digits
digits-even [] = refl
digits-even (byte ∷ bytes) = omega (arith, digits-even bytes)

byte_value-digits :
    (byte : ℕ) → byte < 256 → byte_value (hex_digit (byte / 16)) (hex_digit (byte % 16)) ≡ some byte
unfolding byte_value hex_digit
byte_value-digits byte h = ground arith

hex_digit-ascii : (n : ℕ) → n < 16 → continues (hex_digit n) ≡ false
unfolding hex_digit
hex_digit-ascii n h = ground arith

digits_begin : (bytes : Bytes) → AreBytes bytes → begins_inside (hex_digits bytes) ≡ false
unfolding hex_digits
digits_begin [] h = refl
digits_begin (byte ∷ bytes) h = hex_digit-ascii (byte / 16) (omega (arith, h.0))

decode_pairs-hex_digits :
    (bytes : Bytes) → AreBytes bytes → decode_pairs (hex_digits bytes) ≡ ok bytes
unfolding hex_digits decode_pairs
decode_pairs-hex_digits [] h = refl
decode_pairs-hex_digits (byte ∷ bytes) h = rw (hex_digit-ascii (byte / 16) (omega (arith, h.0))) (
    rw (digits_begin bytes h.1)
      (rw (byte_value-digits byte h.0) (rw (decode_pairs-hex_digits bytes h.1) refl)))

-- The hexadecimal text of any bytes is read back as those bytes.
pub hex_decode-hex_encode :
    (bytes : Bytes) → AreBytes bytes → hex_decode (hex_encode bytes) ≡ ok bytes
unfolding hex_decode hex_encode
hex_decode-hex_encode bytes h =
    rw (utf8-ascii_text (hex_digits bytes) (digits-IsAscii bytes h))
      (rw (digits-even bytes) (decode_pairs-hex_digits bytes h))
