-- ===== src/Base/Text.antt =====
-- Texts: what the program asks of `str`, over code points. UTF-8 keeps the order of code points, so
-- comparing code points is comparing bytes.
use Prim.Native.Nat.{ℕ, ◌+◌, ◌/◌, ◌%◌}
use Prim.Native.Char.{code}
use Prim.Native.String.{String}
use mathlib.Core.Bool.{Bool, true, false, ◌&&◌, ◌||◌}
use mathlib.Core.List.{List, [], ◌∷◌, ◌++◌}
use mathlib.Core.Option
use mathlib.Core.Option.{Option, none, some}
use text.Mathlib.Text.{◌==◌}
use package.lmml.Base.Tests.{ltb, leb, eqb, if◌then◌else◌}
use package.lmml.Base.Lists.{all}

abbrev pub codes : String → List ℕ
codes String.[] = []
codes (String.◌∷◌ c s) = code c ∷ codes s

-- `char::is_whitespace`: the code points of White_Space.
unfoldable pub is_whitespace : ℕ → Bool
is_whitespace c =
    (leb 0x09 c && leb c 0x0d)
    || eqb c 0x20
    || eqb c 0x85
    || eqb c 0xa0
    || eqb c 0x1680
    || (leb 0x2000 c && leb c 0x200a)
    || eqb c 0x2028
    || eqb c 0x2029
    || eqb c 0x202f
    || eqb c 0x205f
    || eqb c 0x3000

-- `text.trim().is_empty()`
unfoldable pub is_blank : String → Bool
unfolding is_whitespace
is_blank s = all is_whitespace (codes s)

-- `u8::is_ascii_alphanumeric`
unfoldable pub is_ascii_alphanumeric : ℕ → Bool
is_ascii_alphanumeric c =
    (leb b'0' c && leb c b'9') || (leb b'A' c && leb c b'Z') || (leb b'a' c && leb c b'z')

-- `left < right` on texts, and `left >= right`.
unfoldable pub codes_lt : List ℕ → List ℕ → Bool
codes_lt [] [] = false
codes_lt [] (b ∷ ys) = true
codes_lt (a ∷ xs) [] = false
codes_lt (a ∷ xs) (b ∷ ys) = ltb a b || (eqb a b && codes_lt xs ys)

unfoldable pub text_lt : String → String → Bool
unfolding codes_lt
text_lt s t = codes_lt (codes s) (codes t)

-- `text.starts_with(prefix)`, `text.contains(needle)`
unfoldable pub has_prefix : (prefix text : List ℕ) → Bool
has_prefix [] text = true
has_prefix (a ∷ xs) [] = false
has_prefix (a ∷ xs) (b ∷ ys) = eqb a b && has_prefix xs ys

unfoldable pub contains : (needle text : List ℕ) → Bool
unfolding has_prefix
contains needle [] = has_prefix needle []
contains needle (b ∷ ys) = has_prefix needle (b ∷ ys) || contains needle ys

-- `text.strip_suffix(c)` for one character.
unfoldable pub strip_suffix : ℕ → List ℕ → Option (List ℕ)
strip_suffix c [] = none
strip_suffix c (a ∷ []) = if eqb a c then some [] else none
strip_suffix c (a ∷ b ∷ xs) = Option.map (λ ys. a ∷ ys) (strip_suffix c (b ∷ xs))

-- `set.contains(text)` of a set of texts.
abbrev pub mem_text : String → List String → Bool
mem_text s [] = false
mem_text s (t ∷ ts) = (s == t) || mem_text s ts

-- The UTF-8 bytes of a text.
abbrev pub utf8_of : ℕ → List ℕ
utf8_of c =
    if ltb c 0x80
    then c ∷ []
    else if ltb c 0x800
    then (0xc0 + c / 64) ∷ (0x80 + c % 64) ∷ []
    else if ltb c 0x10000
    then (0xe0 + c / 4096) ∷ (0x80 + c / 64 % 64) ∷ (0x80 + c % 64) ∷ []
    else (0xf0 + c / 262144) ∷ (0x80 + c / 4096 % 64) ∷ (0x80 + c / 64 % 64) ∷ (0x80 + c % 64) ∷ []

abbrev pub concat_utf8 : List ℕ → List ℕ
concat_utf8 [] = []
concat_utf8 (c ∷ cs) = utf8_of c ++ concat_utf8 cs

unfoldable pub utf8 : String → List ℕ
utf8 s = concat_utf8 (codes s)

-- `trim_start_matches(p)`, `trim_end_matches(p)` and `trim()`, where `p` tests a code point.
unfoldable pub drop_start : (ℕ → Bool) → String → String
drop_start p String.[] = String.[]
drop_start p (String.◌∷◌ c s) =
    let rest = drop_start p s in if p (code c) then rest else String.◌∷◌ c s

unfoldable pub drop_end : (ℕ → Bool) → String → String
drop_end p String.[] = String.[]
drop_end p (String.◌∷◌ c s) =
    let rest = drop_end p s in if (rest == "") && p (code c) then String.[] else String.◌∷◌ c rest

unfoldable pub trim : String → String
unfolding drop_start drop_end is_whitespace
trim s = drop_end is_whitespace (drop_start is_whitespace s)

-- `text.split_once(c)`: what stands before the first `c`, and after it.
unfoldable pub split_once : ℕ → String → Option (String × String)
split_once c String.[] = none
split_once c (String.◌∷◌ d s) =
    let rest =
      Option.map (λ (parts : String × String). (String.◌∷◌ d parts.0, parts.1)) (split_once c s) in
    if eqb (code d) c then some (String.[], s) else rest

-- `text.starts_with(prefix)`, `text.strip_prefix(prefix)`
abbrev pub starts_with : (prefix text : String) → Bool
starts_with prefix text = has_prefix (codes prefix) (codes text)

unfoldable pub strip_prefix : (prefix text : String) → Option String
strip_prefix String.[] text = some text
strip_prefix (String.◌∷◌ c prefix) String.[] = none
strip_prefix (String.◌∷◌ c prefix) (String.◌∷◌ d text) =
    let rest = strip_prefix prefix text in if eqb (code c) (code d) then rest else none

-- `text.eq_ignore_ascii_case(other)`
abbrev pub ascii_lowercase : ℕ → ℕ
ascii_lowercase c = if leb b'A' c && leb c b'Z' then c + 32 else c

abbrev codes_eq_ignore_case : List ℕ → List ℕ → Bool
codes_eq_ignore_case [] [] = true
codes_eq_ignore_case (a ∷ xs) (b ∷ ys) =
    eqb (ascii_lowercase a) (ascii_lowercase b) && codes_eq_ignore_case xs ys
codes_eq_ignore_case _ _ = false

abbrev pub eq_ignore_ascii_case : String → String → Bool
eq_ignore_ascii_case s t = codes_eq_ignore_case (codes s) (codes t)
