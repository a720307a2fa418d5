-- ===== src/Substrate/Approval/Policy.antt =====
-- The policy of chat requests: `validate_prompt_request`, `validate_messages` and `json_depth` of
-- crates/lmml-substrate/src/approval.rs.
pub mod Messages
pub mod Limits
pub mod Exact
use Prim.Native.String
use lmml.Base.{
  ℕ, suc, ◌+◌, ◌-◌, ◌/◌, String, not, ◌&&◌, Option, none, some, List, [], ◌∷◌, ◌++◌, ltb, eqb,
  if◌then◌else◌, is_some, is_none, length, ok, err, ◌>>=◌, ◌>>◌, reject_if, for_each, ok_or,
}
use lmml.Base.Text.{mem_text}
use lmml.Substrate.Json.{
  Value, null, bool, number, string, array, object, Values, nil, cons, Fields, end, field, as_str,
  as_u64, get, as_array, as_object,
}
use lmml.Substrate.Errors.{SubstrateError, request_policy_violation, serialize, Checked}
use lmml.Substrate.Disk.{Bytes}
use lmml.Substrate.Approval.Types.{approval_schema_version, RequestPromptSchema, approved}

abbrev pub violation : String → SubstrateError
violation text = request_policy_violation text

abbrev max : ℕ → ℕ → ℕ
max a b = if ltb a b then b else a

unfoldable mutual
  pub json_depth : Value → ℕ
  json_depth (array vs) = deepest_value vs + 1
  json_depth (object fs) = deepest_field fs + 1
  json_depth null = 1
  json_depth (bool b) = 1
  json_depth (number n) = 1
  json_depth (string s) = 1

  pub deepest_value : Values → ℕ
  deepest_value nil = 0
  deepest_value (cons v vs) = max (json_depth v) (deepest_value vs)

  pub deepest_field : Fields → ℕ
  deepest_field end = 0
  deepest_field (field k v fs) = max (json_depth v) (deepest_field fs)

abbrev pub count_values : Values → ℕ
count_values nil = 0
count_values (cons v vs) = suc (count_values vs)

-- `object.get(key).and_then(Value::as_str)`
abbrev pub text_of : Option Value → Option String
text_of none = none
text_of (some v) = as_str v

abbrev pub text_at : String → Fields → Option String
text_at key fs = text_of (get key fs)

-- `part.get("type").and_then(Value::as_str)`: a part that is no object has no type.
abbrev pub part_type : Value → Option String
part_type (object fs) = text_at "type" fs
part_type _ = none

-- `object.get("max_tokens").and_then(Value::as_u64)`
abbrev pub tokens_of : Option Value → Option ℕ
tokens_of none = none
tokens_of (some v) = as_u64 v

abbrev pub overrides : List String
overrides =
    "chat_template" ∷ "chat_template_file" ∷ "jinja" ∷ "template" ∷ "template_kwargs"
    ∷ "chat_template_kwargs" ∷ "grammar" ∷ "reasoning_parser" ∷ []

abbrev pub reasoning_keys : List String
reasoning_keys = "reasoning" ∷ "enable_thinking" ∷ "thinking" ∷ []

unfoldable pub check_keys : Fields → Checked (Unit {0})
check_keys end = ok tt
check_keys (field key v fs) = do
  reject_if (mem_text key overrides)
      (violation (String.◌++◌ "request-level template or parser override is forbidden: " key))
  check_keys fs

module _ (schema : RequestPromptSchema) where
  unfoldable pub check_type : String → Checked (Unit {0})
  check_type kind =
      reject_if (not (mem_text kind schema.allowed_content_types))
        (violation (String.◌++◌ "content type is not permitted: " kind))

  unfoldable pub check_parts : Values → Checked (Unit {0})
  check_parts nil = ok tt
  check_parts (cons part parts) = do
    kind ← ok_or (part_type part) (violation "content part type is required")
    check_type kind
    check_parts parts

  unfoldable pub check_prefix : Fields → Checked (Unit {0})
  check_prefix fs =
      reject_if (is_some (get "prefix" fs) && not schema.assistant_prefill)
        (violation "assistant prefill is not permitted")

  -- What follows the role of a message; after an array of parts the loop continues at once.
  unfoldable pub check_content : Fields → Option Value → Checked (Unit {0})
  check_content fs none = check_prefix fs
  check_content fs (some (string s)) = check_type "text" >> check_prefix fs
  check_content fs (some (array parts)) = check_parts parts
  check_content fs (some null) = err (violation "message content must be a string or array")
  check_content fs (some (bool b)) = err (violation "message content must be a string or array")
  check_content fs (some (number n)) = err (violation "message content must be a string or array")
  check_content fs (some (object o)) = err (violation "message content must be a string or array")

  unfoldable pub check_message : Value → Checked (Unit {0})
  check_message message = do
    fs ← ok_or (as_object message) (violation "each message must be an object")
    role ← ok_or (text_at "role" fs) (violation "message role is required")
    reject_if (not (mem_text role schema.allowed_roles))
        (violation (String.◌++◌ "message role is not permitted: " role))
    check_content fs (get "content" fs)

  unfoldable pub check_all : Values → Checked (Unit {0})
  check_all nil = ok tt
  check_all (cons message messages) = check_message message >> check_all messages

  unfoldable pub validate_messages : Value → Checked (Unit {0})
  unfolding check_all
  validate_messages messages = do
    values ← ok_or (as_array messages) (violation "messages must be an array")
    check_all values

  unfoldable pub check_prompt : Fields → Option Value → Checked (Unit {0})
  check_prompt fs (some messages) = validate_messages messages
  check_prompt fs none =
      reject_if (is_none (text_at "prompt" fs))
        (violation "request must contain messages or prompt")

  unfoldable pub check_tools : Option Value → Checked (Unit {0})
  check_tools none = ok tt
  check_tools (some tools) = do
    values ← ok_or (as_array tools) (violation "tools must be an array")
    reject_if (ltb schema.max_tools (count_values values))
        (violation "request exceeds the approved tool count")

  unfoldable pub check_tokens : Option ℕ → Checked (Unit {0})
  check_tokens none = ok tt
  check_tokens (some tokens) =
      reject_if (ltb schema.max_context_tokens tokens)
        (violation "max_tokens exceeds the approved context budget")

  abbrev pub check_reasoning : Fields → String → Checked (Unit {0})
  check_reasoning fs key =
      reject_if (is_some (get key fs) && not schema.reasoning_controls)
        (violation (String.◌++◌ "reasoning control is not permitted: " key))

  unfoldable pub check_fields : Fields → Checked (Unit {0})
  check_fields fs = do
    check_keys fs
    check_prompt fs (get "messages" fs)
    check_tools (get "tools" fs)
    check_tokens (tokens_of (get "max_tokens" fs))
    for_each (check_reasoning fs) reasoning_keys

  unfoldable pub validate_prompt_request :
      (to_vec : Value → Option Bytes) → Value → Checked (Unit {0})
  validate_prompt_request to_vec request = do
    reject_if (not (eqb schema.schema_version approval_schema_version))
        (violation "unsupported request schema")
    bytes ← ok_or (to_vec request) serialize
    reject_if (ltb schema.max_request_bytes (length bytes))
        (violation "request exceeds the approved byte limit")
    reject_if (ltb schema.max_nesting (json_depth request))
        (violation "request exceeds the approved nesting limit")
    fs ← ok_or (as_object request) (violation "request must be a JSON object")
    check_fields fs
