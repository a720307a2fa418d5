-- ===== src/Compat/Argv/Plan.antt =====
-- The settings of a configuration of crates/lmml-compat/src/lib.rs: each with its spellings, of which
-- the binary knows some.
use Prim.Native.String
use lmml.Base.{
  String, Bool, true, false, Option, none, some, List, [], ◌∷◌, ◌++◌, ltb, if◌then◌else◌,
}
use lmml.Compat.Types.{ServerConfig, DetectionWarning, has_any}
use lmml.Compat.Argv.{select_flag, flag_with, flag_alone, number_text, integer_text, filled}

-- A setting: its spellings, the preferred one first, and its value, unless it is a switch.
pub record Setting : Type 0 where
  pub name : String
  pub aliases : List String
  pub value : Option String

abbrev pub names_of : Setting → List String
names_of setting = setting.name ∷ setting.aliases

abbrev pub valued : String → List String → String → Setting
valued name aliases text = record { name = name; aliases = aliases; value = some text }

abbrev pub switch : String → List String → Setting
switch name aliases = record { name = name; aliases = aliases; value = none }

abbrev pub wanted : Bool → Setting → List Setting
wanted true setting = setting ∷ []
wanted false setting = []

abbrev pub spell_as : Option String → Option String → List String
spell_as flag none = flag_alone flag
spell_as flag (some text) = flag_with flag text

-- The words of the settings: each by the first spelling in `flags`, or left out.
unfoldable pub render : (flags : List String) → List Setting → List String
render flags [] = []
render flags (setting ∷ settings) =
    spell_as (select_flag flags (names_of setting)) setting.value ++ render flags settings

-- The settings of the list that have no spelling in `flags`.
unfoldable pub missing : (flags : List String) → List Setting → List Setting
missing flags [] = []
missing flags (setting ∷ settings) =
    let rest = missing flags settings in
    if has_any flags (names_of setting) then rest else setting ∷ rest

abbrev pub not_available : Setting → DetectionWarning
not_available setting = record {
  message = String.◌++◌ setting.name " not available in this llama-server build";
}

abbrev pub flash_setting : (requires_value : Bool) → Setting
flash_setting true = valued "--flash-attn" ("-fa" ∷ []) "on"
flash_setting false = switch "--flash-attn" ("-fa" ∷ [])

abbrev pub text_setting : Option String → String → List String → List Setting
text_setting none name aliases = []
text_setting (some text) name aliases = valued name aliases text ∷ []

module _ (config : ServerConfig) where
  abbrev pub basics : List Setting
  basics =
      valued "--model" ("-m" ∷ []) config.model
      ∷ valued "--host" [] config.host
      ∷ valued "--port" [] (number_text config.port)
      ∷ valued "--ctx-size" ("--context-size" ∷ "-c" ∷ []) (number_text config.ctx_size)
      ∷ valued "-ngl" ("--n-gpu-layers" ∷ []) (integer_text config.n_gpu_layers)
      ∷ valued "--batch-size" ("-b" ∷ []) (number_text config.batch_size)
      ∷ []

  abbrev pub ubatch_setting : Setting
  ubatch_setting =
      valued "--ubatch-size" ("--micro-batch-size" ∷ "-ub" ∷ []) (number_text config.ubatch_size)

  abbrev pub ubatch : List Setting
  ubatch = wanted (ltb 0 config.ubatch_size) ubatch_setting

  abbrev pub threads_setting : Setting
  threads_setting = valued "--threads" ("-t" ∷ []) (number_text config.threads)

  abbrev pub threads : List Setting
  threads = wanted (ltb 0 config.threads) threads_setting

  abbrev pub flash : (requires_value : Bool) → List Setting
  flash requires_value = wanted config.flash_attn (flash_setting requires_value)

  abbrev pub mlock : List Setting
  mlock = wanted config.mlock (switch "--mlock" [])

  abbrev pub api_key : List Setting
  api_key = text_setting (filled config.api_key) "--api-key" []

  abbrev pub jinja : List Setting
  jinja = wanted config.jinja (switch "--jinja" [])

  abbrev pub template : List Setting
  template =
      text_setting (filled config.chat_template) "--chat-template" ("--chat-template-file" ∷ [])

  -- The settings of the configuration, in the order of the command line.
  abbrev pub plan : (requires_value : Bool) → List Setting
  plan requires_value =
      (((((((basics ++ ubatch) ++ threads) ++ flash requires_value) ++ mlock) ++ api_key) ++ jinja)
        ++ template)

  -- The settings that are warned about, in the order of the warnings.
  abbrev pub optional : (requires_value : Bool) → List Setting
  optional requires_value =
      flash requires_value ++ (mlock ++ (api_key ++ (ubatch ++ (template ++ jinja))))
