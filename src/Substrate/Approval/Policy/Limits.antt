-- ===== src/Substrate/Approval/Policy/Limits.antt =====
-- What `validate_prompt_request` of crates/lmml-substrate/src/approval.rs lets through.
use lmml.Base.{
  ℕ, ◌≤◌, String, ◌≡◌, refl, subst, inl, inr, false, Option, none, some, arith, ◌==◌, eq_iff,
  Bool-cases, Option-cases, length, In, ok, for_each, for_each-In,
}
use lmml.Base.Text.{mem_text}
use lmml.Base.Members.{member_mem_text}
use lmml.Substrate.Json.{
  pos_int, Value, null, bool, number, string, array, object, Values, Fields, end, field, get,
  as_object,
}
use lmml.Substrate.Disk.{Bytes}
use lmml.Substrate.Approval.Types.{approval_schema_version, RequestPromptSchema}
use lmml.Substrate.Approval.Policy.{
  json_depth, count_values, text_at, tokens_of, overrides, reasoning_keys, check_keys,
  validate_messages, check_prompt, check_tools, check_tokens, check_reasoning, check_fields,
  validate_prompt_request,
}
use lmml.Substrate.Approval.Policy.Messages.{
  text_of-string, EveryValue, MessagePasses, validate_messages-EveryValue,
}

check_keys-absent :
    (fs : Fields) → check_keys fs ≡ ok tt → (key : String) → In key overrides → get key fs ≡ none
unfolding check_keys get
check_keys-absent end h key i = refl
check_keys-absent (field k v fs) h key i =
    let allowed : mem_text k overrides ≡ false = ground arith in
    let rest : check_keys fs ≡ ok tt = ground arith in
    elim (Bool-cases (k == key)) [
      | inl e ↦
          let same : k ≡ key = (eq_iff k key).0 e in
          ground (arith, member_mem_text key overrides i, allowed, same)
      | inr e ↦ rw e (check_keys-absent fs rest key i)
    ]

as_object-object : (v : Value) (fs : Fields) → as_object v ≡ some fs → v ≡ object fs
as_object-object (object gs) fs h = cc
as_object-object null fs h = cc
as_object-object (bool b) fs h = cc
as_object-object (number n) fs h = cc
as_object-object (string s) fs h = cc
as_object-object (array vs) fs h = cc

module _ (schema : RequestPromptSchema) where
  -- What is checked of a request. Of its messages that is `MessagePasses`, which has no word on a
  -- `prefix` beside an array of parts; a `prompt` beside messages, and a `max_tokens` that is no
  -- unsigned integer, are not looked at.
  pub record RequestPasses (to_vec : Value → Option Bytes) (request : Value) : Type 0 where
    pub fs : Fields
    pub is_object : request ≡ object fs
    pub version : schema.schema_version ≡ approval_schema_version
    pub shallow : json_depth request ≤ schema.max_nesting
    pub written :
        (bytes : Bytes) × (to_vec request ≡ some bytes) × (length bytes ≤ schema.max_request_bytes)
    pub no_override : (key : String) → In key overrides → get key fs ≡ none
    pub messages :
        (v : Value)
        → get "messages" fs ≡ some v
        → (values : Values) × (v ≡ array values) × EveryValue (MessagePasses schema) values
    pub prompt : get "messages" fs ≡ none → (text : String) × (get "prompt" fs ≡ some (string text))
    pub tools :
        (v : Value)
        → get "tools" fs ≡ some v
        → (values : Values) × (v ≡ array values) × (count_values values ≤ schema.max_tools)
    pub tokens :
        (n : ℕ) → get "max_tokens" fs ≡ some (number (pos_int n)) → n ≤ schema.max_context_tokens
    pub reasoning :
        schema.reasoning_controls ≡ false
        → (key : String) → In key reasoning_keys
        → get key fs ≡ none

  tools_permitted :
      (tools : Option Value)
      → check_tools schema tools ≡ ok tt
      → (v : Value) → tools ≡ some v
      → (values : Values) × (v ≡ array values) × (count_values values ≤ schema.max_tools)
  unfolding check_tools
  tools_permitted none h v e = cc
  tools_permitted (some (array values)) h v e = (values, cc, ground arith)
  tools_permitted (some null) h v e = cc
  tools_permitted (some (bool b)) h v e = cc
  tools_permitted (some (number n)) h v e = cc
  tools_permitted (some (string s)) h v e = cc
  tools_permitted (some (object o)) h v e = cc

  tokens_permitted :
      (tokens : Option Value)
      → check_tokens schema (tokens_of tokens) ≡ ok tt
      → (n : ℕ) → tokens ≡ some (number (pos_int n))
      → n ≤ schema.max_context_tokens
  unfolding check_tokens
  tokens_permitted none h n e = cc
  tokens_permitted (some v) h n e =
      let same : v ≡ number (pos_int n) = cc in
      let h' : check_tokens schema (some n) ≡ ok tt =
        subst (λ w. check_tokens schema (tokens_of (some w)) ≡ ok tt) same h in
      ground arith

  reasoning_permitted :
      (fs : Fields)
      → for_each (check_reasoning schema fs) reasoning_keys ≡ ok tt
      → schema.reasoning_controls ≡ false
      → (key : String) → In key reasoning_keys
      → get key fs ≡ none
  reasoning_permitted fs h off key i =
      let checked = for_each-In (check_reasoning schema fs) reasoning_keys h key i in
      elim (Option-cases (get key fs)) [ inl e ↦ e | inr (v, e) ↦ ground (arith, e, off, checked) ]

  prompt_permitted :
      (fs : Fields)
      → check_prompt schema fs (get "messages" fs) ≡ ok tt
      → get "messages" fs ≡ none
      → (text : String) × (get "prompt" fs ≡ some (string text))
  unfolding check_prompt
  prompt_permitted fs h e =
      let h' : check_prompt schema fs none ≡ ok tt =
        subst (λ m. check_prompt schema fs m ≡ ok tt) e h in
      elim (Option-cases (text_at "prompt" fs)) [
        | inl f ↦ ground (arith, f)
        | inr (text, f) ↦ (text, text_of-string (get "prompt" fs) text f)
      ]

  messages_permitted :
      (fs : Fields) (messages : Option Value)
      → check_prompt schema fs messages ≡ ok tt
      → (v : Value) → messages ≡ some v
      → (values : Values) × (v ≡ array values) × EveryValue (MessagePasses schema) values
  unfolding check_prompt
  messages_permitted fs none h v e = cc
  messages_permitted fs (some w) h v e =
      let same : w ≡ v = cc in
      validate_messages-EveryValue schema v (subst (λ m. validate_messages schema m ≡ ok tt) same h)

  passed :
      (to_vec : Value → Option Bytes) (request : Value)
      → validate_prompt_request schema to_vec request ≡ ok tt
      → (bytes : Bytes) × (fs : Fields) × (schema.schema_version ≡ approval_schema_version)
        × (to_vec request ≡ some bytes)
        × (length bytes ≤ schema.max_request_bytes)
        × (json_depth request ≤ schema.max_nesting)
        × (as_object request ≡ some fs)
        × (check_fields schema fs ≡ ok tt)
  unfolding validate_prompt_request
  passed to_vec request h = elim (Option-cases (to_vec request)) [
    | inl e ↦ ground (arith, e)
    | inr (bytes, e) ↦ elim (Option-cases (as_object request)) [
      | inl f ↦ ground (arith, e, f)
      | inr (fs, f) ↦ (
        bytes,
        fs,
        ground (arith, e, f),
        e,
        ground (arith, e, f),
        ground (arith, e, f),
        f,
        ground (arith, e, f),
      )
    ]
  ]

  fields_passed :
      (fs : Fields)
      → check_fields schema fs ≡ ok tt
      → (check_keys fs ≡ ok tt)
        × (check_prompt schema fs (get "messages" fs) ≡ ok tt)
        × (check_tools schema (get "tools" fs) ≡ ok tt)
        × (check_tokens schema (tokens_of (get "max_tokens" fs)) ≡ ok tt)
        × (for_each (check_reasoning schema fs) reasoning_keys ≡ ok tt)
  unfolding check_fields
  fields_passed fs h = (ground arith, ground arith, ground arith, ground arith, ground arith)

  -- An accepted request passes every check, as `RequestPasses` lists them.
  pub validate_prompt_request-RequestPasses :
      (to_vec : Value → Option Bytes) (request : Value)
      → validate_prompt_request schema to_vec request ≡ ok tt
      → RequestPasses to_vec request
  validate_prompt_request-RequestPasses to_vec request h =
      let (bytes, fs, version, written, small, shallow, is_object, rest) =
        passed to_vec request h in
      let (keys, prompt, tools, tokens, reasoning) = fields_passed fs rest in
      record {
        fs = fs;
        is_object = as_object-object request fs is_object;
        version = version;
        shallow = shallow;
        written = (bytes, written, small);
        no_override = check_keys-absent fs keys;
        messages = messages_permitted fs (get "messages" fs) prompt;
        prompt = prompt_permitted fs prompt;
        tools = tools_permitted (get "tools" fs) tools;
        tokens = tokens_permitted (get "max_tokens" fs) tokens;
        reasoning = reasoning_permitted fs reasoning;
      }
