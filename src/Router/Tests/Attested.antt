-- ===== src/Router/Tests/Attested.antt =====
-- A router that enforces approvals, with one upstream that shows an attestation.
use mathlib.Core.Option.{bind}
use lmml.Base.{String, ◌≡◌, refl, Option, none, some, List, [], ◌∷◌, ◌==◌, if◌then◌else◌, ok}
use lmml.Base.Text.{utf8}
use lmml.Base.Decimal.{parse_u64}
use lmml.Substrate.Approval.Hex.{hex_decode, byte_value}
use lmml.Api.Attestation.{verify_gateway_attestation, validate_gateway_attestation_binding}
use lmml.Base.Int.{pos}
use lmml.Router.Counters.{no_requests}
use lmml.Router.Selection.{approval_enforcement_enabled, is_routable, min_by_key, select_upstream}
use lmml.Router.Attested.{
  HealthAnswer, Asked, decode_hex, gateway_attestation_binding, verify_gateway_attestation_bound,
  is_approved_upstream, discover_upstreams,
}
use lmml.Router.Tests.{static_node, capable, load_of, healthy}
use lmml.Gateway.Tests.Attested.{attestation_platform}

abbrev pub var : String → Option String
var name =
    if name == "LMML_APPROVAL_ENFORCEMENT"
    then some "1"
    else if name == "LMML_GATEWAY_ATTESTATION_PUBLIC_KEY_HEX"
    then some "abababababababababababababababababababababababababababababababab"
    else if name == "LMML_GATEWAY_ID"
    then some "gate"
    else if name == "LMML_GATEWAY_DEPLOYMENT_HASH"
    then some "deployment"
    else if name == "LMML_GATEWAY_RECEIPT_ID"
    then some "receipt"
    else if name == "LMML_GATEWAY_RECEIPT_SEQUENCE"
    then some "3"
    else if name == "LMML_GATEWAY_REVOCATION_EPOCH"
    then some "2"
    else none

abbrev health_answer : Option String → HealthAnswer
health_answer attestation = record {
  attestation = attestation;
  approved_upstream = some "approved";
  json = some healthy;
}

abbrev pub answers : List Asked
answers =
    (static_node "n1", (some (health_answer none), (some capable, some (load_of 0))))
    ∷ (static_node "n2", (some (health_answer (some "CQ")), (some capable, some (load_of 5))))
    ∷ []

attested_chosen :
    select_upstream
      (λ text. text)
      (var "LMML_APPROVAL_ENFORCEMENT")
      no_requests
      "/v1/chat/completions"
      none
      none
      (discover_upstreams attestation_platform var (pos 1059) answers)
    ≡ ok (static_node "n2")
unfolding select_upstream min_by_key discover_upstreams is_approved_upstream
    approval_enforcement_enabled decode_hex hex_decode utf8 byte_value is_routable
    verify_gateway_attestation_bound verify_gateway_attestation gateway_attestation_binding bind
    parse_u64 validate_gateway_attestation_binding
attested_chosen = refl
