-- ===== src/Compat/Help.antt =====
-- The probing of the binary: `probe_with_runner`, `parse_help_flags`, `capabilities_from_help` and the
-- reading of the version of crates/lmml-compat/src/lib.rs. The runner of
-- the commands is a parameter.
use Prim.Native.Char.{Char, code}
use Prim.Native.String
use Prim.Native.String.{len}
use lmml.Base.{
  ℕ, String, ◌≡◌, refl, Bool, true, false, not, ◌&&◌, ◌||◌, Option, none, some, List, [], ◌∷◌, ◌++◌,
  ◌==◌, ltb, leb, eqb, if◌then◌else◌, unwrap_or, any, Result, ok, err,
}
use lmml.Base.Text.{
  codes, is_whitespace, text_lt, has_prefix, contains, drop_start, drop_end, trim, split_once,
  starts_with,
}
use lmml.Base.Maps.{insert_text}
use lmml.Compat.Types.{CommandOutput, LlamaBinaryCapabilities, CompatError, help_failed, has_any}

abbrev as_text : String → List String
as_text String.[] = []
as_text (String.◌∷◌ c s) = String.◌∷◌ c s ∷ []

abbrev push : String → Char → String
push s c = String.◌++◌ s (String.◌∷◌ c String.[])

-- `text.split_whitespace()`; `word` is what was read of the current word.
unfoldable pub words_from : (word : String) → String → List String
unfolding is_whitespace
words_from word String.[] = as_text word
words_from word (String.◌∷◌ c s) =
    let blank = is_whitespace (code c) in
    let rest = words_from (if blank then "" else push word c) s in
    if blank then as_text word ++ rest else rest

-- `line.strip_suffix('\r')`
strip_return : String → String
strip_return String.[] = String.[]
strip_return (String.◌∷◌ c s) =
    let rest = strip_return s in
    if eqb (code c) b'\r' && (s == "") then String.[] else String.◌∷◌ c rest

-- `text.lines()`: a return before the line feed goes, and what follows the last line feed is a line if
-- it is not empty.
unfoldable pub lines_from : (line : String) → String → List String
unfolding strip_return
lines_from line String.[] = as_text line
lines_from line (String.◌∷◌ c s) =
    let ends = eqb (code c) b'\n' in
    let rest = lines_from (if ends then "" else push line c) s in
    if ends then strip_return line ∷ rest else rest

unfoldable pub lines : String → List String
unfolding lines_from
lines text = lines_from "" text

is_punctuation : ℕ → Bool
is_punctuation c = any (eqb c) (codes ",;:[](){}<>=")

is_ascii_alphabetic : ℕ → Bool
is_ascii_alphabetic c = (leb b'A' c && leb c b'Z') || (leb b'a' c && leb c b'z')

-- The first character that is no dash is a letter.
letter_after_dashes : List ℕ → Bool
letter_after_dashes [] = false
letter_after_dashes (c ∷ cs) =
    let rest = letter_after_dashes cs in if eqb c b'-' then rest else is_ascii_alphabetic c

unfoldable pub is_flag_token : String → Bool
unfolding letter_after_dashes is_ascii_alphabetic
is_flag_token token =
    if ltb (len token) 2 || not (starts_with "-" token)
    then false
    else letter_after_dashes (codes token)

-- `token.split_once('=').map_or(token, |(name, _)| name)`
abbrev name_of : String → Option (String × String) → String
name_of token none = token
name_of token (some parts) = parts.0

-- The flag that a word of the help spells, if any.
unfoldable pub flag_of : String → Option String
unfolding is_punctuation drop_start drop_end split_once
flag_of raw =
    let token = drop_end is_punctuation (drop_start is_punctuation raw) in
    if is_flag_token token
    then some (drop_end (eqb b',') (name_of token (split_once b'=' token)))
    else none

abbrev insert_some : Option String → List String → List String
insert_some none flags = flags
insert_some (some flag) flags = insert_text flag flags

unfoldable pub collect_flags : (flags : List String) → (words : List String) → List String
unfolding insert_text
collect_flags flags [] = flags
collect_flags flags (word ∷ words) = collect_flags (insert_some (flag_of word) flags) words

unfoldable pub parse_help_flags : String → List String
unfolding collect_flags flag_of words_from
parse_help_flags help = collect_flags [] (words_from "" help)

unfoldable pub flash_attn_help_requires_value : String → Bool
unfolding contains
flash_attn_help_requires_value help =
    any
      (λ line.
        contains (codes "--flash-attn") (codes line)
        && (contains (codes "[on|off|auto]") (codes line)
            || contains (codes "<on|off|auto>") (codes line)
            || contains (codes "on|off|auto") (codes line)))
      (lines help)

unfoldable pub capabilities_from_help :
    Option String → (help : String) → List String → LlamaBinaryCapabilities
capabilities_from_help version help flags = record {
  version = version;
  flash_attn = has_any flags ("--flash-attn" ∷ "-fa" ∷ []);
  flash_attn_requires_value = flash_attn_help_requires_value help;
  mlock = has_any flags ("--mlock" ∷ []);
  api_key = has_any flags ("--api-key" ∷ []);
  ubatch_size = has_any flags ("--ubatch-size" ∷ "--micro-batch-size" ∷ "-ub" ∷ []);
  chat_template = has_any flags ("--chat-template" ∷ "--chat-template-file" ∷ []);
  jinja = has_any flags ("--jinja" ∷ []);
  reranking = has_any flags ("--reranking" ∷ "--rerank" ∷ []);
  flags = flags;
}

-- The first line that is not blank, trimmed.
unfoldable pub first_line : List String → Option String
unfolding trim
first_line [] = none
first_line (line ∷ lines) =
    let rest = first_line lines in if trim line == "" then rest else some (trim line)

unfoldable pub parse_version_line : (stdout stderr : String) → Option String
unfolding first_line
parse_version_line stdout stderr = first_line (lines stdout ++ lines stderr)

unfoldable pub non_empty_error : CommandOutput → String
unfolding first_line
non_empty_error output =
    unwrap_or (first_line (lines output.stderr ++ lines output.stdout)) "unknown error"

-- `runner` answers the binary called with its arguments; the two calls run together.
unfoldable pub probe_with_runner :
    (runner : String → List String → CommandOutput) (binary : String)
    → Result CompatError LlamaBinaryCapabilities
probe_with_runner runner binary =
    let version = runner binary ("--version" ∷ []) in
    let help = runner binary ("--help" ∷ []) in
    if not help.success
    then err (help_failed binary (non_empty_error help))
    else (let text = String.◌++◌ help.stdout (String.◌++◌ "\n" help.stderr) in
        ok (
          capabilities_from_help
            (if version.success then parse_version_line version.stdout version.stderr else none)
            text (parse_help_flags text)))

help_tests :
    (parse_help_flags "-fa, --flash-attn [on|off|auto]\n --port=N (--a)"
      ≡ "--a" ∷ "--flash-attn" ∷ "--port" ∷ "-fa" ∷ [])
    × (flash_attn_help_requires_value "--flash-attn [on|off|auto]\r\n" ≡ true)
    × (parse_version_line "\n \n v1 \n" "x" ≡ some "v1")
unfolding parse_help_flags flash_attn_help_requires_value parse_version_line text_lt has_prefix
    is_flag_token lines
help_tests = (refl, refl, refl)
