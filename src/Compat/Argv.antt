-- ===== src/Compat/Argv.antt =====
-- The command line of the server: `build_argv` and `unsupported_warnings` of
-- crates/lmml-compat/src/lib.rs.
pub mod Plan
pub mod Render
pub mod Warnings
use Prim.Native.String
use lmml.Base.{
  ℕ, ◌+◌, ◌-◌, ◌/◌, String, Bool, true, false, not, ◌&&◌, Option, none, some, List, [], ◌∷◌, ◌++◌,
  ◌==◌, ltb, if◌then◌else◌, is_some, is_empty, any,
}
use lmml.Base.Int.{ℤ, pos, negsuc}
use lmml.Base.Ascii.{ascii_text}
use lmml.Base.Decimal.{print_u64}
use lmml.Compat.Types.{LlamaBinaryCapabilities, ServerConfig, DetectionWarning, has_flag, has_any}

-- `caps.flags` has the first candidate that the binary knows.
unfoldable pub select_flag : (flags candidates : List String) → Option String
select_flag flags [] = none
select_flag flags (name ∷ names) =
    let rest = select_flag flags names in if has_flag flags name then some name else rest

abbrev pub flag_with : Option String → String → List String
flag_with none value = []
flag_with (some flag) value = flag ∷ value ∷ []

abbrev pub flag_alone : Option String → List String
flag_alone none = []
flag_alone (some flag) = flag ∷ []

unfoldable pub push_value :
    (argv : List String) → (flags candidates : List String) → String → List String
push_value argv flags candidates value = argv ++ flag_with (select_flag flags candidates) value

unfoldable pub push_switch : (argv : List String) → (flags candidates : List String) → List String
push_switch argv flags candidates = argv ++ flag_alone (select_flag flags candidates)

abbrev pub number_text : ℕ → String
number_text n = ascii_text (print_u64 n)

abbrev pub integer_text : ℤ → String
integer_text (pos n) = number_text n
integer_text (negsuc n) = String.◌++◌ "-" (number_text (n + 1))

-- `option.filter(|text| !text.is_empty())`
abbrev pub filled : Option String → Option String
filled none = none
filled (some s) = if s == "" then none else some s

abbrev pub context_names : List String
context_names = "--ctx-size" ∷ "--context-size" ∷ "-c" ∷ []

abbrev pub ubatch_names : List String
ubatch_names = "--ubatch-size" ∷ "--micro-batch-size" ∷ "-ub" ∷ []

abbrev pub flash_names : List String
flash_names = "--flash-attn" ∷ "-fa" ∷ []

abbrev pub template_names : List String
template_names = "--chat-template" ∷ "--chat-template-file" ∷ []

module _ (config : ServerConfig) (caps : LlamaBinaryCapabilities) where
  push_basics : List String
  push_basics =
      let argv = push_value [] caps.flags ("--model" ∷ "-m" ∷ []) config.model in
      let argv = push_value argv caps.flags ("--host" ∷ []) config.host in
      let argv = push_value argv caps.flags ("--port" ∷ []) (number_text config.port) in
      let argv = push_value argv caps.flags context_names (number_text config.ctx_size) in
      let argv =
        push_value argv caps.flags ("-ngl" ∷ "--n-gpu-layers" ∷ [])
          (integer_text config.n_gpu_layers) in
      push_value argv caps.flags ("--batch-size" ∷ "-b" ∷ []) (number_text config.batch_size)

  push_ubatch : List String → List String
  push_ubatch argv =
      if ltb 0 config.ubatch_size && caps.ubatch_size
      then push_value argv caps.flags ubatch_names (number_text config.ubatch_size)
      else argv

  push_threads : List String → List String
  push_threads argv =
      if ltb 0 config.threads
      then push_value argv caps.flags ("--threads" ∷ "-t" ∷ []) (number_text config.threads)
      else argv

  push_flash : List String → List String
  push_flash argv =
      if config.flash_attn && caps.flash_attn
      then (if caps.flash_attn_requires_value
          then push_value argv caps.flags flash_names "on"
          else push_switch argv caps.flags flash_names)
      else argv

  push_mlock : List String → List String
  push_mlock argv =
      if config.mlock && caps.mlock then push_switch argv caps.flags ("--mlock" ∷ []) else argv

  push_filled : Option String → (supported : Bool) → List String → List String → List String
  push_filled none supported names argv = argv
  push_filled (some value) supported names argv =
      if supported then push_value argv caps.flags names value else argv

  push_jinja : List String → List String
  push_jinja argv =
      if config.jinja && caps.jinja then push_switch argv caps.flags ("--jinja" ∷ []) else argv

  unfoldable pub build_argv : List String
  unfolding push_basics push_ubatch push_threads push_flash push_mlock push_filled push_jinja
  build_argv =
      let argv = push_threads (push_ubatch push_basics) in
      let argv = push_mlock (push_flash argv) in
      let argv = push_filled (filled config.api_key) caps.api_key ("--api-key" ∷ []) argv in
      let argv = push_jinja argv in
      let argv = push_filled (filled config.chat_template) caps.chat_template template_names argv in
      argv ++ config.extra_args

  abbrev unsupported : String → DetectionWarning
  unsupported flag = record {
    message = String.◌++◌ flag " not available in this llama-server build";
  }

  abbrev warn_if : Bool → String → List DetectionWarning
  warn_if true flag = unsupported flag ∷ []
  warn_if false flag = []

  unfoldable pub unsupported_extra_arg_present : (candidates : List String) → Bool
  unsupported_extra_arg_present candidates =
      any
        (λ name. any (λ arg. arg == name) config.extra_args && not (has_any caps.flags (name ∷ [])))
        candidates

  unfoldable pub extra_warnings : List DetectionWarning
  unfolding unsupported_extra_arg_present
  extra_warnings =
      warn_if (unsupported_extra_arg_present ("-md" ∷ "--model-draft" ∷ "--spec-draft-model" ∷ []))
        "-md/--model-draft"
      ++ (warn_if (unsupported_extra_arg_present ("--spec-type" ∷ [])) "--spec-type"
          ++ (warn_if (unsupported_extra_arg_present ("--temp" ∷ "--temperature" ∷ []))
                "--temp/--temperature"
              ++ (warn_if (unsupported_extra_arg_present ("--top-k" ∷ [])) "--top-k"
                  ++ (warn_if (unsupported_extra_arg_present ("--top-p" ∷ [])) "--top-p"
                      ++ (warn_if (unsupported_extra_arg_present ("--min-p" ∷ [])) "--min-p"
                          ++ (warn_if (unsupported_extra_arg_present ("--repeat-penalty" ∷ []))
                                "--repeat-penalty"
                              ++ warn_if (unsupported_extra_arg_present ("--reasoning-format" ∷ []))
                                  "--reasoning-format"))))))

  unfoldable pub unsupported_warnings : List DetectionWarning
  unfolding extra_warnings
  unsupported_warnings =
      warn_if (config.flash_attn && not caps.flash_attn) "--flash-attn"
      ++ (warn_if (config.mlock && not caps.mlock) "--mlock"
          ++ (warn_if (is_some (filled config.api_key) && not caps.api_key) "--api-key"
              ++ (warn_if (ltb 0 config.ubatch_size && not caps.ubatch_size) "--ubatch-size"
                  ++ (warn_if (is_some (filled config.chat_template) && not caps.chat_template)
                        "--chat-template"
                      ++ (warn_if (config.jinja && not caps.jinja) "--jinja" ++ extra_warnings)))))
