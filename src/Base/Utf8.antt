-- ===== src/Base/Utf8.antt =====
-- `String::from_utf8_lossy`: bytes as a text, where each longest part of a character that is cut short
-- becomes U+FFFD.
pub mod RoundTrip
use Prim.Native.Nat.{ℕ, ◌+◌, ◌-◌, ◌*◌, ◌<◌}
use Prim.Native.Char.{Char, char, nul, IsScalar}
use Prim.Native.String.{String}
use mathlib.Core.Path.{◌≡◌, refl}
use mathlib.Core.Logic.{dite}
use mathlib.Core.Bool.{◌&&◌}
use mathlib.Core.List.{List, [], ◌∷◌, ◌++◌}
use native.Mathlib.Omega.{arith}
use native.Mathlib.Decide.{dec_lt}
use package.lmml.Base.Tests.{ltb, leb, eqb, if◌then◌else◌}
use package.lmml.Base.Ascii.{following, second_low, second_high}

low-IsScalar : (n : ℕ) → n < 0xd800 → IsScalar n
low-IsScalar n h = ground arith

high-IsScalar : (n : ℕ) → 0xdfff < n → n < 0x110000 → IsScalar n
high-IsScalar n h k = ground arith

-- The character of a code point; `nul` stands for a number that is none.
unfoldable pub scalar : ℕ → Char
unfolding dec_lt low-IsScalar high-IsScalar
scalar n =
    dite (dec_lt n 0xd800) (λ h. char n (low-IsScalar n h))
      (λ _.
        dite (dec_lt 0xdfff n)
          (λ h. dite (dec_lt n 0x110000) (λ k. char n (high-IsScalar n h k)) (λ _. nul)) (λ _. nul))

-- What was read of a character: how many bytes are to come, the bounds of the next, the bits so far.
pub record Pending : Type 0 where
  pub more : ℕ
  pub low : ℕ
  pub high : ℕ
  pub bits : ℕ

abbrev pub nothing : Pending
nothing = record { more = 0; low = 0; high = 0; bits = 0 }

abbrev pub first_bits : ℕ → ℕ
first_bits b = if ltb b 0xe0 then b - 0xc0 else if ltb b 0xf0 then b - 0xe0 else b - 0xf0

abbrev pub replacement : ℕ
replacement = 0xfffd

-- A byte where no character is pending: the code points that are complete, and what is pending.
abbrev pub start : ℕ → List ℕ × Pending
start b =
    if ltb b 0x80
    then (b ∷ [], nothing)
    else if leb 0xc2 b && leb b 0xf4
    then (
      [],
      record { more = following b; low = second_low b; high = second_high b; bits = first_bits b },
    )
    else (replacement ∷ [], nothing)

abbrev pub continue : Pending → ℕ → List ℕ × Pending
continue pending b =
    let bits = pending.bits * 64 + (b - 0x80) in
    if eqb pending.more 1
    then (bits ∷ [], nothing)
    else ([], record { more = pending.more - 1; low = 0x80; high = 0xbf; bits = bits })

abbrev pub next_byte : Pending → ℕ → List ℕ × Pending
next_byte pending b =
    if eqb pending.more 0
    then start b
    else if leb pending.low b && leb b pending.high
    then continue pending b
    else (replacement ∷ (start b).0, (start b).1)

unfoldable pub lossy_codes : Pending → List ℕ → List ℕ
lossy_codes pending [] = if eqb pending.more 0 then [] else replacement ∷ []
lossy_codes pending (b ∷ bs) = let step = next_byte pending b in step.0 ++ lossy_codes step.1 bs

unfoldable pub text_of : List ℕ → String
unfolding scalar
text_of [] = String.[]
text_of (n ∷ ns) = String.◌∷◌ (scalar n) (text_of ns)

unfoldable pub from_utf8_lossy : List ℕ → String
unfolding lossy_codes text_of
from_utf8_lossy bytes = text_of (lossy_codes nothing bytes)

lossy_tests :
    (from_utf8_lossy (0x61 ∷ 0xc3 ∷ 0xb1 ∷ 0xe2 ∷ 0x82 ∷ 0xac ∷ 0xf0 ∷ 0x9f ∷ 0x98 ∷ 0x80 ∷ [])
      ≡ "añ€😀")
    × (lossy_codes nothing (0xe2 ∷ 0x82 ∷ 0x61 ∷ 0xed ∷ 0xa0 ∷ 0xc3 ∷ [])
        ≡ 0xfffd ∷ 0x61 ∷ 0xfffd ∷ 0xfffd ∷ 0xfffd ∷ [])
unfolding from_utf8_lossy
lossy_tests = (refl, refl)
