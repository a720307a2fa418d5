-- ===== src/Substrate/Approval/Tests/Requests.antt =====
-- The theorems about canonical values, requests and decisions.
use mathlib.Core.Quot
use lmml.Base.{◌≡◌, refl, ◌↔◌, true, false, Option, some, [], ◌∷◌, here, ok}
use lmml.Substrate.Json.{
  pos_int, Value, null, bool, number, string, array, object, Values, nil, cons, Fields, end, field,
  get,
}
use lmml.Substrate.Disk.{Bytes}
use lmml.Substrate.Approval.Types.{RequestPromptSchema, AdmissionState}
use lmml.Substrate.Approval.Json.{canonical_value}
use lmml.Substrate.Approval.Json.Order.{IsCanonical}
use lmml.Substrate.Approval.Json.Meaning.{Same}
use lmml.Substrate.Approval.Json.Classes.{Meaning, canonical_value_iff, unique_representative}
use lmml.Substrate.Approval.Policy.{
  json_depth, part_type, check_keys, check_type, check_parts, check_content, check_message,
  validate_messages, check_prompt, check_tools, check_tokens, check_fields, validate_prompt_request,
}
use lmml.Substrate.Approval.Policy.Messages.{check_message-unchecked_prefix}
use lmml.Substrate.Approval.Status.{compute_admission_status, is_receipt_revoked}
use lmml.Substrate.Approval.Status.Decisions.{Approves, compute_admission_status-Approves}
use lmml.Substrate.Approval.Tests.{hash, receipt, state}

abbrev ascending : Fields
ascending = field "a" null (field "b" (bool true) end)

abbrev descending : Fields
descending = field "b" (bool true) (field "a" null end)

canonical_value_iff_example :
    (canonical_value (object ascending) ≡ canonical_value (object descending))
    ↔ Same (object ascending) (object descending)
canonical_value_iff_example = canonical_value_iff (object ascending) (object descending)

unique_representative_example :
    IsCanonical (canonical_value (object descending))
    × (◌≡◌ {A = Meaning}
        (Quot.mk (canonical_value (object descending)))
        (Quot.mk (object descending)))
    × ((w : Value)
        → IsCanonical w
        → ◌≡◌ {A = Meaning} (Quot.mk w) (Quot.mk (object descending))
        → w ≡ canonical_value (object descending))
unique_representative_example = unique_representative (object descending)

abbrev pub schema : RequestPromptSchema
schema = record {
  schema_version = 1;
  schema_id = "chat";
  allowed_roles = "user" ∷ [];
  allowed_content_types = "text" ∷ [];
  max_tools = 1;
  max_nesting = 6;
  max_request_bytes = 100;
  max_context_tokens = 10;
  reasoning_controls = false;
  assistant_prefill = false;
  permitted_template_kwargs = [];
}

abbrev parts : Values
parts = cons (object (field "type" (string "text") end)) nil

abbrev message : Fields
message = field "role" (string "user") (field "content" (array parts) end)

abbrev pub request : Value
request = object (
    field "max_tokens" (number (pos_int 7))
      (field "messages" (array (cons (object message) nil)) end))

abbrev pub two_braces : Value → Option Bytes
two_braces v = some (b'{' ∷ b'}' ∷ [])

accepted : validate_prompt_request schema two_braces request ≡ ok tt
unfolding validate_prompt_request check_fields check_keys check_prompt validate_messages
    check_message check_content check_parts check_type check_tools check_tokens json_depth get
accepted = refl

abbrev prefixed : Fields
prefixed =
    field "role" (string "user") (field "content" (array parts) (field "prefix" (bool true) end))

prefixed_fields :
    (get "prefix" prefixed ≡ some (bool true))
    × (get "role" prefixed ≡ some (string "user"))
    × (get "content" prefixed ≡ some (array parts))
    × (part_type (object (field "type" (string "text") end)) ≡ some "text")
unfolding get
prefixed_fields = (refl, refl, refl, refl)

check_message-unchecked_prefix_example : check_message schema (object prefixed) ≡ ok tt
check_message-unchecked_prefix_example =
    check_message-unchecked_prefix schema prefixed "user" parts (bool true) refl prefixed_fields.0
      prefixed_fields.1 (here refl) prefixed_fields.2 (("text", prefixed_fields.3, here refl), tt)

compute_admission_status-Approves_example :
    ((compute_admission_status
        (some receipt)
        hash
        hash
        hash
        (is_receipt_revoked state receipt.receipt_id)).state
      ≡ AdmissionState.approved)
    ↔ Approves state hash hash hash receipt
compute_admission_status-Approves_example =
    compute_admission_status-Approves state receipt hash hash hash
