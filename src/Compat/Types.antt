-- ===== src/Compat/Types.antt =====
-- The records of crates/lmml-compat/src/lib.rs. A path is its text.
use lmml.Base.{ℕ, String, Bool, Option, none, some, List, ◌==◌, any}
use lmml.Base.Int.{ℤ}

pub data LlamaRuntimeFlavor : Type 0 where
  upstream prism : LlamaRuntimeFlavor

unfoldable pub repository_url : LlamaRuntimeFlavor → String
repository_url upstream = "https://github.com/ggml-org/llama.cpp.git"
repository_url prism = "https://github.com/PrismML-Eng/llama.cpp.git"

unfoldable pub initial_ref : LlamaRuntimeFlavor → Option String
initial_ref upstream = none
initial_ref prism = some "d8f26eec76da6d09bb708bcba51ef64b8cd868a3"

pub record CommandOutput : Type 0 where
  pub success : Bool
  pub stdout : String
  pub stderr : String

pub record LlamaBinaryCapabilities : Type 0 where
  pub version : Option String
  pub flash_attn : Bool
  pub flash_attn_requires_value : Bool
  pub mlock : Bool
  pub api_key : Bool
  pub ubatch_size : Bool
  pub chat_template : Bool
  pub jinja : Bool
  pub reranking : Bool
  pub flags : List String

pub record ServerConfig : Type 0 where
  pub model : String
  pub port : ℕ
  pub host : String
  pub ctx_size : ℕ
  pub n_gpu_layers : ℤ
  pub batch_size : ℕ
  pub ubatch_size : ℕ
  pub threads : ℕ
  pub flash_attn : Bool
  pub mlock : Bool
  pub api_key : Option String
  pub chat_template : Option String
  pub jinja : Bool
  pub extra_args : List String

pub record DetectionWarning : Type 0 where
  pub message : String

pub data CompatError : Type 0 where
  help_failed : (binary stderr : String) → CompatError

-- `available.iter().any(|flag| flag == name)`
abbrev pub has_flag : List String → String → Bool
has_flag flags name = any (λ flag. flag == name) flags

-- `caps.has_any(names)`, on the flags.
abbrev pub has_any : List String → List String → Bool
has_any flags names = any (has_flag flags) names
