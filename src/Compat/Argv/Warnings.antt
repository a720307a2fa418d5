-- ===== src/Compat/Argv/Warnings.antt =====
-- The warnings of crates/lmml-compat/src/lib.rs as the settings that have no spelling.
use mathlib.Core.List.{append_assoc}
use lmml.Base.{
  String, ◌≡◌, refl, ap, Bool, true, false, not, ◌&&◌, Option, none, some, List, [], ◌∷◌, ◌++◌, map,
  ltb, if◌then◌else◌, is_some,
}
use lmml.Compat.Types.{LlamaBinaryCapabilities, ServerConfig, DetectionWarning, has_any}
use lmml.Compat.Help.{flash_attn_help_requires_value, capabilities_from_help}
use lmml.Compat.Argv.{filled, flash_names, warn_if, extra_warnings, unsupported_warnings}
use lmml.Compat.Argv.Plan.{
  Setting, names_of, valued, switch, wanted, missing, not_available, flash_setting, text_setting,
  ubatch_setting, ubatch, flash, mlock, api_key, template, optional,
}

abbrev pub missing_warnings : List String → List Setting → List DetectionWarning
missing_warnings flags settings = map not_available (missing flags settings)

missing_warnings-++ :
    (flags : List String) (one two : List Setting)
    → missing_warnings flags (one ++ two) ≡ missing_warnings flags one ++ missing_warnings flags two
unfolding missing
missing_warnings-++ flags [] two = refl
missing_warnings-++ flags (setting ∷ one) two =
    known (has_any flags (names_of setting)) (missing_warnings-++ flags one two)
  where
    known :
        (b : Bool)
        (rest : missing_warnings flags (one ++ two)
          ≡ missing_warnings flags one ++ missing_warnings flags two)
        → map not_available
            (if b then missing flags (one ++ two) else setting ∷ missing flags (one ++ two))
          ≡ map not_available (if b then missing flags one else setting ∷ missing flags one)
            ++ missing_warnings flags two
    known true rest = rest
    known false rest = ap (λ warnings. not_available setting ∷ warnings) rest

prepend :
    (flags : List String) (one two : List Setting) (warnings rest extra : List DetectionWarning)
    (head : warnings ≡ missing_warnings flags one)
    (tail : rest ≡ missing_warnings flags two ++ extra)
    → warnings ++ rest ≡ missing_warnings flags (one ++ two) ++ extra
prepend flags one two warnings rest extra head tail =
    rw (head, tail, missing_warnings-++ flags one two, append_assoc (missing_warnings flags one))

module _ (config : ServerConfig) (version : Option String) (help : String)
    (flags : List String) where
  abbrev caps : LlamaBinaryCapabilities
  caps = capabilities_from_help version help flags

  warn_wanted :
      (setting : Setting) (on : Bool)
      → warn_if config caps (on && not (has_any flags (names_of setting))) setting.name
        ≡ missing_warnings flags (wanted on setting)
  unfolding missing
  warn_wanted setting true = known (has_any flags (names_of setting))
    where
      known :
          (b : Bool)
          → warn_if config caps (not b) setting.name
            ≡ map not_available (if b then [] else setting ∷ [])
      known true = refl
      known false = refl
  warn_wanted setting false = refl

  warn_flash :
      (on requires_value : Bool)
      → warn_if config caps (on && not (has_any flags flash_names)) "--flash-attn"
        ≡ missing_warnings flags (wanted on (flash_setting requires_value))
  warn_flash on true = warn_wanted (flash_setting true) on
  warn_flash on false = warn_wanted (flash_setting false) on

  warn_text :
      (name : String) (aliases : List String) (text : Option String)
      → warn_if config caps (is_some text && not (has_any flags (name ∷ aliases))) name
        ≡ missing_warnings flags (text_setting text name aliases)
  unfolding missing
  warn_text name aliases none = refl
  warn_text name aliases (some text) = warn_wanted (valued name aliases text) true

  -- For the capabilities that `capabilities_from_help` reports of a binary with these flags, the warnings
  -- are those of the optional settings of the configuration that have no spelling among the flags, and
  -- after them those of the extra arguments.
  pub unsupported_warnings-missing :
      unsupported_warnings config (capabilities_from_help version help flags)
      ≡ missing_warnings flags (optional config (flash_attn_help_requires_value help))
        ++ extra_warnings config (capabilities_from_help version help flags)
  unfolding unsupported_warnings capabilities_from_help
  unsupported_warnings-missing =
      prepend flags (flash config (flash_attn_help_requires_value help)) _ _ _ _
        (warn_flash config.flash_attn (flash_attn_help_requires_value help))
        (prepend flags (mlock config) _ _ _ _ (warn_wanted (switch "--mlock" []) config.mlock) (
          prepend flags (api_key config) _ _ _ _ (warn_text "--api-key" [] (filled config.api_key))
            (prepend flags (ubatch config) _ _ _ _
              (warn_wanted (ubatch_setting config) (ltb 0 config.ubatch_size))
              (prepend flags (template config) _ _ _ _
                (warn_text "--chat-template" ("--chat-template-file" ∷ [])
                  (filled config.chat_template))
                (ap (λ warnings. warnings ++ extra_warnings config caps)
                  (warn_wanted (switch "--jinja" []) config.jinja))))))
