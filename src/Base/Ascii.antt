-- ===== src/Base/Ascii.antt =====
-- Texts that are made of ASCII codes, and the bytes that are valid UTF-8.
use Prim.Native.Nat.{ℕ, zero, suc, ◌<◌}
use Prim.Native.Char.{Char, char, code, nul, IsScalar}
use Prim.Native.String.{String}
use mathlib.Core.Path.{◌≡◌, refl}
use mathlib.Core.Logic.{dite}
use mathlib.Core.Bool.{Bool, true, false, ◌&&◌, ◌||◌}
use mathlib.Core.List.{List, [], ◌∷◌}
use native.Mathlib.Omega.{arith}
use native.Mathlib.Decide.{dec_lt}
use package.lmml.Base.Tests.{ltb, leb, eqb, if◌then◌else◌}
use package.lmml.Base.Lists.{All}
use package.lmml.Base.Text.{utf8}

ascii-IsScalar : (n : ℕ) → n < 128 → IsScalar n
ascii-IsScalar n h = ground arith

-- The character of an ASCII code; `nul` stands for any other code.
unfoldable pub ascii : ℕ → Char
unfolding dec_lt ascii-IsScalar
ascii n = dite (dec_lt n 128) (λ h. char n (ascii-IsScalar n h)) (λ _. nul)

-- `String::from_utf8` of ASCII bytes.
unfoldable pub ascii_text : List ℕ → String
unfolding ascii
ascii_text [] = String.[]
ascii_text (n ∷ ns) = String.◌∷◌ (ascii n) (ascii_text ns)

abbrev pub IsAscii : List ℕ → Type 0
IsAscii = All (λ n. n < 128)

code-ascii : (n : ℕ) → n < 128 → code (ascii n) ≡ n
unfolding ascii
code-ascii n h = ground arith

pub utf8-ascii_text : (ns : List ℕ) → IsAscii ns → utf8 (ascii_text ns) ≡ ns
unfolding utf8 ascii_text
utf8-ascii_text [] h = refl
utf8-ascii_text (n ∷ ns) h = ground (arith, code-ascii n h.0, utf8-ascii_text ns h.1)

-- How many bytes follow the first byte of a character, and the bounds of the second byte.
abbrev pub following : ℕ → ℕ
following b = if ltb b 0x80 then 0 else if ltb b 0xe0 then 1 else if ltb b 0xf0 then 2 else 3

abbrev pub second_low : ℕ → ℕ
second_low b = if eqb b 0xe0 then 0xa0 else if eqb b 0xf0 then 0x90 else 0x80

abbrev pub second_high : ℕ → ℕ
second_high b = if eqb b 0xed then 0x9f else if eqb b 0xf4 then 0x8f else 0xbf

-- `str::from_utf8(bytes).is_ok()`, where `more` bytes of a character are still to come.
unfoldable pub is_utf8_after : (more low high : ℕ) → List ℕ → Bool
is_utf8_after more low high [] = eqb more 0
is_utf8_after zero low high (b ∷ bs) =
    let rest = is_utf8_after (following b) (second_low b) (second_high b) bs in
    (ltb b 0x80 || (leb 0xc2 b && leb b 0xf4)) && rest
is_utf8_after (suc more) low high (b ∷ bs) =
    leb low b && leb b high && is_utf8_after more 0x80 0xbf bs

unfoldable pub is_utf8 : List ℕ → Bool
unfolding is_utf8_after
is_utf8 bs = is_utf8_after 0 0 0 bs

ascii-is_utf8_after : (low high : ℕ) (bs : List ℕ) → IsAscii bs → is_utf8_after 0 low high bs ≡ true
unfolding is_utf8_after
ascii-is_utf8_after low high [] h = refl
ascii-is_utf8_after low high (b ∷ bs) h =
    ground (arith, h.0, ascii-is_utf8_after (second_low b) (second_high b) bs h.1)

pub ascii-is_utf8 : (bs : List ℕ) → IsAscii bs → is_utf8 bs ≡ true
unfolding is_utf8
ascii-is_utf8 bs h = ascii-is_utf8_after 0 0 bs h

utf8_tests :
    (is_utf8 (utf8 "añ€😀") ≡ true)
    × (is_utf8 (0xc3 ∷ []) ≡ false)
    × (is_utf8 (0xed ∷ 0xa0 ∷ 0x80 ∷ []) ≡ false)
unfolding is_utf8 utf8
utf8_tests = (refl, refl, refl)
