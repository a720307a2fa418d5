-- ===== src/Api.antt =====
-- crates/lmml-api/src/lib.rs: the records that nodes and routers exchange. A `u16`, `u32` or `u64`
-- field is a number, and a `BTreeMap` is its list of entries in the order of the keys.
pub mod Attestation
use lmml.Base.{ℕ, String, Bool, true, false, ◌&&◌, Option, List, ◌==◌, eqb}
use lmml.Substrate.Json.{Value}

-- An `f32`, which is only passed on, is its bit pattern.
pub record F32 : Type 0 where
  pub bits : ℕ

pub data BackendKind : Type 0 where
  cuda metal hip vulkan cpu_avx2 cpu_avx cpu_fallback unknown : BackendKind

-- `Unknown` is `unknown_role`, since two enums have one.
pub data NodeRole : Type 0 where
  workstation_main_gpu lan_worker batch_evaluator embedding_worker critic_worker router tui_host
        unknown_role :
      NodeRole

pub data PrivacyTier : Type 0 where
  lan_only localhost_only internet_allowed : PrivacyTier

pub data NodeStatus : Type 0 where
  ready degraded starting stopped error : NodeStatus

pub record GpuDescriptor : Type 0 where
  pub name : String
  pub backend : BackendKind
  pub arch : Option String
  pub vram_total_mb : ℕ
  pub vram_free_mb : Option ℕ

pub record ModelDescriptor : Type 0 where
  pub id : String
  pub name : String
  pub path : Option String
  pub architecture : Option String
  pub quantization : Option String
  pub context_length : Option ℕ
  pub size_bytes : Option ℕ
  pub loaded : Bool
  pub aliases : List String

pub record AgentQDescriptor : Type 0 where
  pub enabled : Bool
  pub api_version : String
  pub node_name : String
  pub node_kind : String
  pub crown_cell : Option String
  pub packet_overhead_bytes : Option ℕ
  pub endpoints : List String
  pub tags : List String

pub record NodeCapabilities : Type 0 where
  pub api_version : String
  pub lmml_version : String
  pub node_id : String
  pub node_name : String
  pub public_url : Option String
  pub roles : List NodeRole
  pub tags : List String
  pub privacy : PrivacyTier
  pub backend : BackendKind
  pub gpus : List GpuDescriptor
  pub models : List ModelDescriptor
  pub max_context_tokens : Option ℕ
  pub supports_infer : Bool
  pub supports_chat_completions : Bool
  pub supports_responses : Bool
  pub supports_anthropic_messages : Bool
  pub supports_embeddings : Bool
  pub supports_server_control : Bool
  pub auth_required : Bool
  pub llama_cpp_commit : Option String
  pub agentq : Option AgentQDescriptor
  pub extra : List (String × Value)

pub record LanNodeAdvertisement : Type 0 where
  pub magic : String
  pub version : ℕ
  pub api_version : String
  pub node_id : String
  pub node_name : String
  pub public_url : String
  pub backend : BackendKind
  pub gpus : List GpuDescriptor
  pub models : List ModelDescriptor
  pub auth_required : Bool
  pub roles : List NodeRole
  pub tags : List String
  pub last_seen_utc : String

pub record HealthResponse : Type 0 where
  pub api_version : String
  pub node_id : String
  pub node_name : String
  pub status : NodeStatus
  pub time_utc : String
  pub uptime_s : ℕ
  pub llama_healthy : Bool
  pub active_model : Option ModelDescriptor
  pub message : Option String

pub record LoadResponse : Type 0 where
  pub node_id : String
  pub status : NodeStatus
  pub cpu_usage_pct : F32
  pub memory_total_mb : ℕ
  pub memory_used_mb : ℕ
  pub gpus : List GpuDescriptor
  pub running_requests : ℕ
  pub completed_requests : ℕ
  pub failed_requests : ℕ
  pub tokens_in_total : ℕ
  pub tokens_out_total : ℕ

unfoldable pub is_current_lmml_advertisement : LanNodeAdvertisement → Bool
is_current_lmml_advertisement advertisement =
    (advertisement.magic == "lmml.node.advertisement")
    && eqb advertisement.version 1
    && (advertisement.api_version == "lmml-node-api/v1")

abbrev pub status_eq : NodeStatus → NodeStatus → Bool
status_eq ready ready = true
status_eq degraded degraded = true
status_eq starting starting = true
status_eq stopped stopped = true
status_eq error error = true
status_eq _ _ = false
