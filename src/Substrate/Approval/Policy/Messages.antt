-- ===== src/Substrate/Approval/Policy/Messages.antt =====
-- What `validate_messages` of crates/lmml-substrate/src/approval.rs lets through.
use lmml.Base.{
  String, ◌≡◌, refl, ap, subst, ◌⊎◌, inl, inr, true, false, Option, none, some, arith, Option-cases,
  is_some, unwrap_or, In, ok, >>-ok,
}
use lmml.Base.Text.{mem_text}
use lmml.Base.Members.{mem_text_member, member_mem_text}
use lmml.Substrate.Json.{
  Value, null, bool, number, string, array, object, Values, nil, cons, Fields, as_str, get,
}
use lmml.Substrate.Approval.Types.{RequestPromptSchema}
use lmml.Substrate.Approval.Policy.{
  text_of, text_at, part_type, check_type, check_parts, check_prefix, check_content, check_message,
  check_all, validate_messages,
}

as_str-string : (v : Value) (s : String) → as_str v ≡ some s → v ≡ string s
as_str-string (string t) s h = cc
as_str-string null s h = cc
as_str-string (bool b) s h = cc
as_str-string (number n) s h = cc
as_str-string (array vs) s h = cc
as_str-string (object fs) s h = cc

pub text_of-string : (v : Option Value) (s : String) → text_of v ≡ some s → v ≡ some (string s)
text_of-string none s h = cc
text_of-string (some v) s h = ap some (as_str-string v s h)

module _ {κ} (P : Value → Type κ) where
  abbrev pub EveryValue : Values → Type κ
  EveryValue nil = Unit
  EveryValue (cons v vs) = P v × EveryValue vs

module _ (schema : RequestPromptSchema) where
  -- The part is an object with a permitted type.
  abbrev pub PartPermitted : Value → Type 0
  PartPermitted part =
      (kind : String) × (part_type part ≡ some kind) × In kind schema.allowed_content_types

  -- The content is text, or a list of parts, and of a permitted type.
  abbrev pub ContentPermitted : Value → Type 0
  ContentPermitted (string s) = In "text" schema.allowed_content_types
  ContentPermitted (array parts) = EveryValue PartPermitted parts
  ContentPermitted _ = ⊥

  -- What is checked of a message. A `prefix` is looked at only where the content is no array, so that
  -- beside an array of parts it passes although the schema permits no assistant prefill.
  pub record MessagePasses (message : Value) : Type 0 where
    pub fs : Fields
    pub is_object : message ≡ object fs
    pub role : String
    pub has_role : get "role" fs ≡ some (string role)
    pub role_allowed : In role schema.allowed_roles
    pub content : (v : Value) → get "content" fs ≡ some v → ContentPermitted v
    pub prefill :
        is_some (get "prefix" fs) ≡ true
        → (schema.assistant_prefill ≡ true)
          ⊎ ((parts : Values) × (get "content" fs ≡ some (array parts)))

  check_parts-EveryValue :
      (parts : Values) → check_parts schema parts ≡ ok tt → EveryValue PartPermitted parts
  unfolding check_parts check_type
  check_parts-EveryValue nil h = tt
  check_parts-EveryValue (cons part parts) h = elim (Option-cases (part_type part)) [
    | inl e ↦ ground (arith, e)
    | inr (kind, e) ↦
        let listed : mem_text kind schema.allowed_content_types ≡ true = ground (arith, e) in
        let rest : check_parts schema parts ≡ ok tt = ground (arith, e) in
        (
          (kind, e, mem_text_member kind schema.allowed_content_types listed),
          check_parts-EveryValue parts rest,
        )
  ]

  pub EveryValue-check_parts :
      (parts : Values) → EveryValue PartPermitted parts → check_parts schema parts ≡ ok tt
  unfolding check_parts check_type
  EveryValue-check_parts nil h = refl
  EveryValue-check_parts (cons part parts) ((kind, e, listed), h) =
      rw (e, member_mem_text kind schema.allowed_content_types listed)
        (EveryValue-check_parts parts h)

  content_permitted :
      (fs : Fields) (content : Option Value)
      → check_content schema fs content ≡ ok tt
      → (v : Value) → content ≡ some v
      → ContentPermitted v
  unfolding check_content check_type
  content_permitted fs none h v e = cc
  content_permitted fs (some (string s)) h v e =
      let listed : mem_text "text" schema.allowed_content_types ≡ true = ground arith in
      subst (λ (c : Option Value). ContentPermitted (unwrap_or c null)) e
        (mem_text_member "text" schema.allowed_content_types listed)
  content_permitted fs (some (array parts)) h v e =
      subst (λ (c : Option Value). ContentPermitted (unwrap_or c null)) e
        (check_parts-EveryValue parts h)
  content_permitted fs (some null) h v e = cc
  content_permitted fs (some (bool b)) h v e = cc
  content_permitted fs (some (number n)) h v e = cc
  content_permitted fs (some (object o)) h v e = cc

  prefill_permitted :
      (fs : Fields) (content : Option Value)
      → check_content schema fs content ≡ ok tt
      → is_some (get "prefix" fs) ≡ true
      → (schema.assistant_prefill ≡ true) ⊎ ((parts : Values) × (content ≡ some (array parts)))
  unfolding check_content check_prefix
  prefill_permitted fs none h p = inl (ground arith)
  prefill_permitted fs (some (string s)) h p = inl (ground arith)
  prefill_permitted fs (some (array parts)) h p = inr (parts, refl)
  prefill_permitted fs (some null) h p = cc
  prefill_permitted fs (some (bool b)) h p = cc
  prefill_permitted fs (some (number n)) h p = cc
  prefill_permitted fs (some (object o)) h p = cc

  pub check_message-MessagePasses :
      (message : Value) → check_message schema message ≡ ok tt → MessagePasses message
  unfolding check_message
  check_message-MessagePasses (object fs) h = elim (Option-cases (text_at "role" fs)) [
    | inl e ↦ ground (arith, e)
    | inr (role, e) ↦
        let listed : mem_text role schema.allowed_roles ≡ true = ground (arith, e) in
        let rest : check_content schema fs (get "content" fs) ≡ ok tt = ground (arith, e) in
        record {
          fs = fs;
          is_object = refl;
          role = role;
          has_role = text_of-string (get "role" fs) role e;
          role_allowed = mem_text_member role schema.allowed_roles listed;
          content = content_permitted fs (get "content" fs) rest;
          prefill = prefill_permitted fs (get "content" fs) rest;
        }
  ]
  check_message-MessagePasses null h = cc
  check_message-MessagePasses (bool b) h = cc
  check_message-MessagePasses (number n) h = cc
  check_message-MessagePasses (string s) h = cc
  check_message-MessagePasses (array vs) h = cc

  check_all-EveryValue :
      (messages : Values) → check_all schema messages ≡ ok tt → EveryValue MessagePasses messages
  unfolding check_all
  check_all-EveryValue nil h = tt
  check_all-EveryValue (cons message messages) h =
      let (first, rest) = >>-ok (check_message schema message) (check_all schema messages) h in
      (check_message-MessagePasses message first, check_all-EveryValue messages rest)

  pub validate_messages-EveryValue :
      (messages : Value)
      → validate_messages schema messages ≡ ok tt
      → (values : Values) × (messages ≡ array values) × EveryValue MessagePasses values
  unfolding validate_messages
  validate_messages-EveryValue (array values) h = (values, refl, check_all-EveryValue values h)
  validate_messages-EveryValue null h = cc
  validate_messages-EveryValue (bool b) h = cc
  validate_messages-EveryValue (number n) h = cc
  validate_messages-EveryValue (string s) h = cc
  validate_messages-EveryValue (object fs) h = cc

  -- Where a message has a permitted role and content of permitted parts, it is let through with a
  -- `prefix`, although the schema permits no assistant prefill.
  pub check_message-unchecked_prefix :
      (fs : Fields) (role : String) (parts : Values) (prefix : Value)
      → schema.assistant_prefill ≡ false
      → get "prefix" fs ≡ some prefix
      → get "role" fs ≡ some (string role)
      → In role schema.allowed_roles
      → get "content" fs ≡ some (array parts)
      → EveryValue PartPermitted parts
      → check_message schema (object fs) ≡ ok tt
  unfolding check_message check_content
  check_message-unchecked_prefix fs role parts prefix off prefixed has_role allowed content
        permitted =
      rw has_role (
        rw (member_mem_text role schema.allowed_roles allowed)
          (rw content (EveryValue-check_parts parts permitted)))
