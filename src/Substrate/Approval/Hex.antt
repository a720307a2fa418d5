-- ===== src/Substrate/Approval/Hex.antt =====
-- Hexadecimal texts: `hex_encode` and `hex_decode` of crates/lmml-substrate/src/approval.rs. The code
-- slices the text at every second byte, which panics inside a character.
pub mod RoundTrip
use lmml.Base.{
  ℕ, ◌+◌, ◌-◌, ◌*◌, ◌/◌, ◌%◌, String, ◌≡◌, refl, Bool, false, not, ◌&&◌, ◌||◌, Option, none, some,
  List, [], ◌∷◌, ltb, leb, eqb, if◌then◌else◌, length, all, ok, err, ◌>>=◌, ◌>>◌, reject_if, ok_or,
}
use lmml.Base.Text.{utf8}
use lmml.Base.Ascii.{ascii_text}
use lmml.Substrate.Errors.{SubstrateError, invalid_approval_contract, panicked, Checked}
use lmml.Substrate.Disk.{Bytes}

abbrev pub odd_length : SubstrateError
odd_length = invalid_approval_contract "hex value has odd length"

abbrev pub invalid_hex : SubstrateError
invalid_hex = invalid_approval_contract "invalid hex value"

hex_digit : ℕ → ℕ
hex_digit n = if ltb n 10 then b'0' + n else b'a' + (n - 10)

-- `format!("{byte:02x}")`, for all the bytes.
unfoldable pub hex_digits : Bytes → List ℕ
unfolding hex_digit
hex_digits [] = []
hex_digits (byte ∷ bytes) = hex_digit (byte / 16) ∷ hex_digit (byte % 16) ∷ hex_digits bytes

unfoldable pub hex_encode : Bytes → String
unfolding hex_digits
hex_encode bytes = ascii_text (hex_digits bytes)

-- `char::to_digit(16)`
unfoldable pub digit_value : ℕ → Option ℕ
digit_value c =
    if leb b'0' c && leb c b'9'
    then some (c - b'0')
    else if leb b'a' c && leb c b'f'
    then some (c - b'a' + 10)
    else if leb b'A' c && leb c b'F'
    then some (c - b'A' + 10)
    else none

abbrev both : Option ℕ → Option ℕ → Option ℕ
both (some high) (some low) = some (high * 16 + low)
both _ _ = none

-- `u8::from_str_radix(text, 16)` of a text of two bytes: a sign `+` may stand in front.
unfoldable pub byte_value : ℕ → ℕ → Option ℕ
unfolding digit_value
byte_value a b = if eqb a b'+' then digit_value b else both (digit_value a) (digit_value b)

-- A byte that continues a character.
abbrev pub continues : ℕ → Bool
continues b = leb 0x80 b && ltb b 0xc0

abbrev begins_inside : List ℕ → Bool
begins_inside [] = false
begins_inside (b ∷ bs) = continues b

unfoldable pub decode_pairs : List ℕ → Checked Bytes
decode_pairs [] = ok []
decode_pairs (a ∷ []) = err panicked
decode_pairs (a ∷ b ∷ rest) = do
  reject_if (continues a || begins_inside rest) panicked
  byte ← ok_or (byte_value a b) invalid_hex
  bytes ← decode_pairs rest
  ok (byte ∷ bytes)

unfoldable pub hex_decode : String → Checked Bytes
unfolding decode_pairs
hex_decode value = do
  reject_if (not (eqb (length (utf8 value) % 2) 0)) odd_length
  decode_pairs (utf8 value)

abbrev bytes_0_255 : Bytes
bytes_0_255 = 0 ∷ 255 ∷ []

hex_tests :
    (hex_decode "00ff" ≡ ok bytes_0_255)
    × (hex_decode "abc" ≡ err odd_length)
    × (hex_decode "0g" ≡ err invalid_hex)
    × (hex_decode "é" ≡ err invalid_hex)
    × (hex_decode "0é0" ≡ err panicked)
unfolding hex_decode byte_value utf8
hex_tests = (refl, refl, refl, refl, refl)
