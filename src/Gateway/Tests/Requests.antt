-- ===== src/Gateway/Tests/Requests.antt =====
-- A chat request that reaches the backend, and the chunks of one response.
use lmml.Base.{
  ℕ, String, ◌≡◌, refl, sym, subst, true, false, none, some, List, [], ◌∷◌, In, here, Result, ok,
}
use lmml.Base.Text.{strip_prefix, drop_end}
use lmml.Substrate.Disk.{Bytes}
use lmml.Substrate.Json.{get}
use lmml.Substrate.Approval.Policy.{
  json_depth, check_keys, check_type, check_parts, check_content, check_message, validate_messages,
  check_prompt, check_tools, check_tokens, check_fields, validate_prompt_request,
}
use lmml.Substrate.Approval.Tests.Requests.{schema, request, two_braces}
use lmml.Gateway.Admission.{blocked}
use lmml.Gateway.Handlers.{GatewayConfig, BackendRequest, authorize, backend_headers}
use lmml.Gateway.Handlers.Routes.{chat_request, Turn, bytes, waiting, stream_chunks}
use lmml.Gateway.Handlers.Forwarded.{Forwarded, Passes, stream_chunks-approved}
use lmml.Gateway.Served.{chat_request-served}
use lmml.Gateway.Store.{ApprovalStore}
use lmml.Gateway.Verified.{Verified}
use lmml.Substrate.Disk.{World}
use lmml.Substrate.Approval.Tests.{calm_os}
use lmml.Gateway.Tests.Runs.{name, pending, serves}
use lmml.Gateway.Tests.{gateway_platform, store, world, approved_status, told}

abbrev config : GatewayConfig
config = record {
  backend_url = "http://127.0.0.1:8080/";
  max_body_bytes = 100;
  api_key = some "secret";
  backend_api_key = some "inner";
  gateway_id = none;
  deployment_hash = none;
  receipt_id = none;
  receipt_sequence = 0;
  revocation_epoch = 0;
  attestation_private_key = none;
  attestation_ttl = 60;
}

abbrev asked : BackendRequest
asked = record {
  url = "http://127.0.0.1:8080/v1/chat/completions";
  authorization = some "Bearer inner";
  body = some (1 ∷ []);
}

sent :
    chat_request name
      (λ text. true)
      (λ body. ok request)
      two_braces
      told
      config
      schema
      (some "Bearer secret")
      approved_status
      (λ limit. ok (1 ∷ []))
    ≡ ok asked
unfolding chat_request authorize backend_headers strip_prefix validate_prompt_request json_depth
    check_fields check_keys check_prompt get validate_messages check_message check_content
    check_parts check_type check_tools check_tokens drop_end
sent = refl

abbrev to_bytes : ℕ → Result String Bytes
to_bytes limit = ok (1 ∷ [])

chat_request-served_example :
    Forwarded name
      (λ text. true)
      (λ body. ok request)
      two_braces
      told
      config
      schema
      (some "Bearer secret")
      approved_status
      to_bytes
      asked
    × ((st : ApprovalStore) × (some store ≡ some st)
        × (w : World) × In w (world ∷ world ∷ [])
        × Verified calm_os gateway_platform st w.disk)
chat_request-served_example =
    chat_request-served calm_os gateway_platform told name (λ text. true) (λ body. ok request)
      two_braces pending config schema 1 approved_status (some "Bearer secret") to_bytes asked
      (λ h. cc) serves refl sent

-- A chunk that is let through, a wait with nothing, and a chunk that comes after a revocation.
abbrev first : Turn
first = record {
  is_late = false;
  before = approved_status;
  chunk = bytes (5 ∷ []);
  after = approved_status;
}

abbrev second : Turn
second = record first { chunk = waiting }

abbrev third : Turn
third = record first { chunk = bytes (6 ∷ []); after = blocked "stop" }

abbrev turns : List Turn
turns = first ∷ second ∷ third ∷ []

let_through : stream_chunks turns ≡ ok (5 ∷ []) ∷ []
unfolding stream_chunks
let_through = refl

stream_chunks-approved_example : (turn : Turn) × In turn turns × Passes (5 ∷ []) turn
stream_chunks-approved_example =
    stream_chunks-approved turns (5 ∷ []) (subst (In (ok (5 ∷ []))) (sym let_through) (here refl))
