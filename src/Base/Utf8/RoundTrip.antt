-- ===== src/Base/Utf8/RoundTrip.antt =====
-- `String::from_utf8_lossy` on the UTF-8 bytes of a text.
use Prim.Native.Nat.{ℕ, ◌+◌, ◌-◌, ◌*◌, ◌/◌, ◌%◌, ◌<◌, ◌≤◌}
use Prim.Native.Char.{Char, char, code, IsScalar}
use Prim.Native.String.{String}
use mathlib.Core.Path.{◌≡◌, refl, ap, ◌∙◌}
use mathlib.Core.Logic.{◌⊎◌}
use mathlib.Core.Bool.{Bool, true, false}
use mathlib.Core.List.{List, [], ◌∷◌, ◌++◌}
use native.Mathlib.Omega.{arith}
use text.Mathlib.TextEquality.{Char-path}
use package.lmml.Base.Ascii.{second_low, second_high}
use package.lmml.Base.Tests.{ltb, if◌then◌else◌}
use package.lmml.Base.Text.{codes, utf8, utf8_of, concat_utf8}
use package.lmml.Base.Utf8.{scalar, Pending, nothing, lossy_codes, text_of, from_utf8_lossy}

IsScalar-cases : (n : ℕ) → IsScalar n → (n < 0xd800) ⊎ ((0xdfff < n) × (n < 0x110000))
IsScalar-cases n p = ground (arith, p)

code-scalar : (n : ℕ) → IsScalar n → code (scalar n) ≡ n
unfolding scalar
code-scalar n p = ground (arith, p)

scalar-code : (c : Char) → scalar (code c) ≡ c
scalar-code (char n p) = Char-path (scalar n) (char n p) (code-scalar n p)

one_byte :
    (n : ℕ) (bs : List ℕ) → n < 0x80 → lossy_codes nothing (n ∷ bs) ≡ n ∷ lossy_codes nothing bs
unfolding lossy_codes
one_byte n bs h = ground (arith, h)

two_bytes :
    (b c : ℕ) (bs : List ℕ)
    → 0xc2 ≤ b
    → b < 0xe0
    → 0x80 ≤ c
    → c ≤ 0xbf
    → lossy_codes nothing (b ∷ c ∷ bs) ≡ ((b - 0xc0) * 64 + (c - 0x80)) ∷ lossy_codes nothing bs
unfolding lossy_codes
two_bytes b c bs h k l m = ground (arith, h, k, l, m)

three_bytes :
    (b c d : ℕ) (bs : List ℕ)
    → 0xe0 ≤ b
    → b < 0xf0
    → 0x80 ≤ c
    → c ≤ 0xbf
    → (b ≡ 0xe0 → 0xa0 ≤ c)
    → (b ≡ 0xed → c ≤ 0x9f)
    → 0x80 ≤ d
    → d ≤ 0xbf
    → lossy_codes nothing (b ∷ c ∷ d ∷ bs)
      ≡ (((b - 0xe0) * 64 + (c - 0x80)) * 64 + (d - 0x80)) ∷ lossy_codes nothing bs
unfolding lossy_codes
three_bytes b c d bs h k l m low high o p = ground (arith, h, k, l, m, low, high, o, p)

abbrev waiting : (more low high bits : ℕ) → Pending
waiting more low high bits = record { more = more; low = low; high = high; bits = bits }

start_four :
    (b : ℕ) (bs : List ℕ)
    → 0xf0 ≤ b
    → b ≤ 0xf4
    → lossy_codes nothing (b ∷ bs)
      ≡ lossy_codes (waiting 3 (second_low b) (second_high b) (b - 0xf0)) bs
unfolding lossy_codes
start_four b bs h k = ground (arith, h, k)

second_of_four :
    (low high bits c : ℕ) (bs : List ℕ)
    → low ≤ c
    → c ≤ high
    → lossy_codes (waiting 3 low high bits) (c ∷ bs)
      ≡ lossy_codes (waiting 2 0x80 0xbf (bits * 64 + (c - 0x80))) bs
unfolding lossy_codes
second_of_four low high bits c bs h k = ground (arith, h, k)

last_two :
    (bits d e : ℕ) (bs : List ℕ)
    → 0x80 ≤ d
    → d ≤ 0xbf
    → 0x80 ≤ e
    → e ≤ 0xbf
    → lossy_codes (waiting 2 0x80 0xbf bits) (d ∷ e ∷ bs)
      ≡ ((bits * 64 + (d - 0x80)) * 64 + (e - 0x80)) ∷ lossy_codes nothing bs
unfolding lossy_codes
last_two bits d e bs h k l m = ground (arith, h, k, l, m)

low_fits : (b c : ℕ) → 0xf0 ≤ b → 0x80 ≤ c → (b ≡ 0xf0 → 0x90 ≤ c) → second_low b ≤ c
low_fits b c h l low = ground (arith, h, l, low)

high_fits : (b c : ℕ) → 0xf0 ≤ b → c ≤ 0xbf → (b ≡ 0xf4 → c ≤ 0x8f) → c ≤ second_high b
high_fits b c h m high = ground (arith, h, m, high)

four_bytes :
    (b c d e : ℕ) (bs : List ℕ)
    → 0xf0 ≤ b
    → b ≤ 0xf4
    → 0x80 ≤ c
    → c ≤ 0xbf
    → (b ≡ 0xf0 → 0x90 ≤ c)
    → (b ≡ 0xf4 → c ≤ 0x8f)
    → 0x80 ≤ d
    → d ≤ 0xbf
    → 0x80 ≤ e
    → e ≤ 0xbf
    → lossy_codes nothing (b ∷ c ∷ d ∷ e ∷ bs)
      ≡ ((((b - 0xf0) * 64 + (c - 0x80)) * 64 + (d - 0x80)) * 64 + (e - 0x80))
        ∷ lossy_codes nothing bs
four_bytes b c d e bs h k l m low high o p q r =
    start_four b (c ∷ d ∷ e ∷ bs) h k
    ∙ second_of_four (second_low b) (second_high b) (b - 0xf0) c (d ∷ e ∷ bs) (low_fits b c h l low)
        (high_fits b c h m high)
    ∙ last_two ((b - 0xf0) * 64 + (c - 0x80)) d e bs o p q r

two_bits : (n : ℕ) → 0x80 ≤ n → (0xc0 + n / 64 - 0xc0) * 64 + (0x80 + n % 64 - 0x80) ≡ n
two_bits n h = omega arith

three_bits :
    (n : ℕ)
    → ((0xe0 + n / 4096 - 0xe0) * 64 + (0x80 + n / 64 % 64 - 0x80)) * 64 + (0x80 + n % 64 - 0x80)
      ≡ n
three_bits n = omega arith

four_bits :
    (n : ℕ)
    → (((0xf0 + n / 262144 - 0xf0) * 64 + (0x80 + n / 4096 % 64 - 0x80)) * 64
            + (0x80 + n / 64 % 64 - 0x80))
          * 64
        + (0x80 + n % 64 - 0x80)
      ≡ n
four_bits n = omega arith

two_read :
    (n : ℕ) (bs : List ℕ)
    → 0x80 ≤ n
    → n < 0x800
    → lossy_codes nothing ((0xc0 + n / 64) ∷ (0x80 + n % 64) ∷ bs) ≡ n ∷ lossy_codes nothing bs
two_read n bs h k =
    two_bytes (0xc0 + n / 64) (0x80 + n % 64) bs (omega arith) (omega arith) (omega arith)
      (omega arith)
    ∙ ap (λ c. c ∷ lossy_codes nothing bs) (two_bits n h)

three_read :
    (n : ℕ) (bs : List ℕ)
    → IsScalar n
    → 0x800 ≤ n
    → n < 0x10000
    → lossy_codes nothing ((0xe0 + n / 4096) ∷ (0x80 + n / 64 % 64) ∷ (0x80 + n % 64) ∷ bs)
      ≡ n ∷ lossy_codes nothing bs
three_read n bs s h k =
    three_bytes (0xe0 + n / 4096) (0x80 + n / 64 % 64) (0x80 + n % 64) bs (omega arith)
      (omega arith) (omega arith) (omega arith) (λ e. omega arith)
      (λ e. ground (arith, IsScalar-cases n s, e)) (omega arith) (omega arith)
    ∙ ap (λ c. c ∷ lossy_codes nothing bs) (three_bits n)

four_read :
    (n : ℕ) (bs : List ℕ)
    → 0x10000 ≤ n
    → n < 0x110000
    → lossy_codes nothing
        ((0xf0 + n / 262144) ∷ (0x80 + n / 4096 % 64) ∷ (0x80 + n / 64 % 64) ∷ (0x80 + n % 64) ∷ bs)
      ≡ n ∷ lossy_codes nothing bs
four_read n bs h k =
    four_bytes (0xf0 + n / 262144) (0x80 + n / 4096 % 64) (0x80 + n / 64 % 64) (0x80 + n % 64) bs
      (omega arith) (omega arith) (omega arith) (omega arith) (λ e. omega arith) (λ e. omega arith)
      (omega arith) (omega arith) (omega arith) (omega arith)
    ∙ ap (λ c. c ∷ lossy_codes nothing bs) (four_bits n)

char_read :
    (c : Char) (bs : List ℕ)
    → lossy_codes nothing (utf8_of (code c) ++ bs) ≡ code c ∷ lossy_codes nothing bs
char_read (char n p) bs = by_width (ltb n 0x80) (ltb n 0x800) (ltb n 0x10000) refl refl refl
  where
    by_width :
        (one two three : Bool)
        → ltb n 0x80 ≡ one
        → ltb n 0x800 ≡ two
        → ltb n 0x10000 ≡ three
        → lossy_codes nothing (
            (if one
              then n ∷ []
              else if two
              then (0xc0 + n / 64) ∷ (0x80 + n % 64) ∷ []
              else if three
              then (0xe0 + n / 4096) ∷ (0x80 + n / 64 % 64) ∷ (0x80 + n % 64) ∷ []
              else (0xf0 + n / 262144)
                ∷ (0x80 + n / 4096 % 64)
                ∷ (0x80 + n / 64 % 64)
                ∷ (0x80 + n % 64)
                ∷ [])
            ++ bs)
          ≡ n ∷ lossy_codes nothing bs
    by_width true two three h k l = one_byte n bs (ground (arith, h))
    by_width false true three h k l = two_read n bs (ground (arith, h)) (ground (arith, k))
    by_width false false true h k l = three_read n bs p (ground (arith, k)) (ground (arith, l))
    by_width false false false h k l =
        four_read n bs (ground (arith, l)) (ground (arith, l, IsScalar-cases n p))

codes_read : (s : String) → lossy_codes nothing (concat_utf8 (codes s)) ≡ codes s
unfolding lossy_codes
codes_read String.[] = refl
codes_read (String.◌∷◌ c s) =
    char_read c (concat_utf8 (codes s)) ∙ ap (λ cs. code c ∷ cs) (codes_read s)

text_of-codes : (s : String) → text_of (codes s) ≡ s
unfolding text_of
text_of-codes String.[] = refl
text_of-codes (String.◌∷◌ c s) = rw (scalar-code c, text_of-codes s)

-- The UTF-8 bytes of any text are read as that text.
pub from_utf8_lossy-utf8 : (s : String) → from_utf8_lossy (utf8 s) ≡ s
unfolding from_utf8_lossy utf8
from_utf8_lossy-utf8 s = ap text_of (codes_read s) ∙ text_of-codes s
