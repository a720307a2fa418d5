-- ===== src/Compat/Tests.antt =====
-- Concrete configurations and the flags of the tests of crates/lmml-compat/src/lib.rs.
use Prim.Native.String
use lmml.Base.{String, ◌≡◌, refl, true, none, some, List, [], ◌∷◌, ◌++◌, map, ◌==◌, any, ok}
use lmml.Base.Int.{negsuc}
use lmml.Base.Ascii.{ascii_text}
use lmml.Base.Decimal.{print_u64}
use lmml.Base.Text.{text_lt, has_prefix}
use lmml.Compat.Types.{CommandOutput, LlamaBinaryCapabilities, ServerConfig}
use lmml.Compat.Help.{
  lines, is_flag_token, parse_help_flags, flash_attn_help_requires_value, capabilities_from_help,
  probe_with_runner,
}
use lmml.Compat.Argv.{
  select_flag, push_value, push_switch, build_argv, extra_warnings, unsupported_warnings,
}
use lmml.Compat.Argv.Plan.{render, plan, optional}
use lmml.Compat.Argv.Render.{build_argv-plan}
use lmml.Compat.Argv.Warnings.{missing_warnings, unsupported_warnings-missing}

abbrev config : ServerConfig
config = record {
  model = "/models/a.gguf";
  port = 8080;
  host = "127.0.0.1";
  ctx_size = 4096;
  n_gpu_layers = negsuc 0;
  batch_size = 512;
  ubatch_size = 512;
  threads = 4;
  flash_attn = true;
  mlock = true;
  api_key = some "";
  chat_template = some "chatml";
  jinja = true;
  extra_args = "--top-k" ∷ "40" ∷ [];
}

abbrev help : String
help =
    "-m, --model FNAME\n -fa, --flash-attn [on|off|auto]\n --jinja\n --chat-template-file F\n -ngl N"

abbrev flags : List String
flags = "--chat-template-file" ∷ "--flash-attn" ∷ "--jinja" ∷ "--model" ∷ "-fa" ∷ "-m" ∷ "-ngl" ∷ []

abbrev argv : List String
argv =
    "--model" ∷ "/models/a.gguf" ∷ "-ngl" ∷ "-1" ∷ "--flash-attn" ∷ "on" ∷ "--jinja"
    ∷ "--chat-template-file" ∷ "chatml" ∷ "--top-k" ∷ "40" ∷ []

abbrev caps : LlamaBinaryCapabilities
caps = capabilities_from_help none help flags

abbrev runner : String → List String → CommandOutput
runner binary arguments = record {
  success = any (λ argument. argument == "--help") arguments;
  stdout = help;
  stderr = "";
}

probed :
    probe_with_runner runner "llama-server"
    ≡ ok (capabilities_from_help none (String.◌++◌ help "\n") flags)
unfolding probe_with_runner capabilities_from_help parse_help_flags text_lt has_prefix is_flag_token
    lines flash_attn_help_requires_value
probed = refl

written : build_argv config caps ≡ argv
unfolding build_argv capabilities_from_help push_value push_switch select_flag
    flash_attn_help_requires_value lines ascii_text print_u64
written = refl

warned :
    map (λ warning. warning.message) (unsupported_warnings config caps)
    ≡ "--mlock not available in this llama-server build"
      ∷ "--ubatch-size not available in this llama-server build"
      ∷ "--top-k not available in this llama-server build" ∷ []
unfolding unsupported_warnings capabilities_from_help
warned = refl

build_argv-plan_example :
    build_argv config (capabilities_from_help none help flags)
    ≡ render flags (plan config (flash_attn_help_requires_value help)) ++ config.extra_args
build_argv-plan_example = build_argv-plan config none help flags

unsupported_warnings-missing_example :
    unsupported_warnings config (capabilities_from_help none help flags)
    ≡ missing_warnings flags (optional config (flash_attn_help_requires_value help))
      ++ extra_warnings config (capabilities_from_help none help flags)
unsupported_warnings-missing_example = unsupported_warnings-missing config none help flags
