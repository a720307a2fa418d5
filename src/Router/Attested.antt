-- ===== src/Router/Attested.antt =====
-- What the router of crates/lmml-router/src/lib.rs asks of an upstream's health: `get_upstream_health`,
-- `fetch_upstream_probe` and `discover_upstreams`, with the attestation of the gateway that answers. The
-- environment is a function, and an answer is what came within the timeout. The error `panic` stands for
-- the panic of a task, which has no probe.
pub mod Signed
pub mod Bound
pub mod Chosen
use mathlib.Core.Option.{bind}
use lmml.Base.{
  String, Bool, true, false, Option, none, some, List, [], ◌∷◌, ◌==◌, if◌then◌else◌, Result, ok,
  err, ◌>>=◌, ◌>>◌, ok_or,
}
use lmml.Base.Decimal.{parse_u64}
use lmml.Base.Int.{ℤ}
use lmml.Base.Text.{utf8}
use lmml.Substrate.Errors.{SubstrateError, panicked}
use lmml.Substrate.Disk.{Bytes}
use lmml.Substrate.Approval.Hex.{hex_decode}
use lmml.Api.{HealthResponse, NodeCapabilities, LoadResponse}
use lmml.Api.Attestation.{
  GatewayAttestation, GatewayAttestationBinding, AttestationError, message, panic,
  AttestationPlatform, Attested, verify_gateway_attestation, validate_gateway_attestation_binding,
}
use lmml.Router.Types.{UpstreamNodeConfig, UpstreamProbe}
use lmml.Router.Selection.{approval_enforcement_enabled}

-- The headers of the gateway, if they are texts, and the JSON of the body.
pub record HealthAnswer : Type 0 where
  pub attestation : Option String
  pub approved_upstream : Option String
  pub json : Option HealthResponse

abbrev pub is_panic : SubstrateError → Bool
is_panic panicked = true
is_panic _ = false

abbrev pub key_bytes : Result SubstrateError Bytes → Attested (Option Bytes)
key_bytes (ok key) = ok (some key)
key_bytes (err e) = if is_panic e then err panic else ok none

unfoldable pub decode_hex : String → Attested (Option Bytes)
decode_hex value = key_bytes (hex_decode value)

abbrev pub attestation_key : Option String → Attested (Option Bytes)
attestation_key none = ok none
attestation_key (some value) = decode_hex value

unfoldable pub gateway_attestation_binding :
    (var : String → Option String) → Option GatewayAttestationBinding
gateway_attestation_binding var = bind (var "LMML_GATEWAY_ID") λ gateway_id.
    bind (var "LMML_GATEWAY_DEPLOYMENT_HASH") λ deployment_hash.
      bind (var "LMML_GATEWAY_RECEIPT_ID") λ receipt_id.
        bind (bind (var "LMML_GATEWAY_RECEIPT_SEQUENCE") λ text. parse_u64 (utf8 text))
          λ receipt_sequence.
            bind (bind (var "LMML_GATEWAY_REVOCATION_EPOCH") λ text. parse_u64 (utf8 text))
              λ revocation_epoch. some (record {
                gateway_id = gateway_id;
                deployment_hash = deployment_hash;
                receipt_id = receipt_id;
                receipt_sequence = receipt_sequence;
                revocation_epoch = revocation_epoch;
              })

-- `.is_some()` of what was verified
abbrev pub is_accepted : {A : Type 0} → Attested A → Attested Bool
is_accepted (ok a) = ok true
is_accepted (err (message text)) = ok false
is_accepted (err panic) = err panic

abbrev pub says : Option String → String → Bool
says none expected = false
says (some text) expected = text == expected

-- A task that panicked has no probe.
abbrev pub joined : Attested UpstreamProbe → List UpstreamProbe → List UpstreamProbe
joined (ok probe) probes = probe ∷ probes
joined (err e) probes = probes

-- An upstream and what its three routes answer.
abbrev pub Asked : Type 0
Asked = UpstreamNodeConfig × (Option HealthAnswer × (Option NodeCapabilities × Option LoadResponse))

module _ (p : AttestationPlatform) (var : String → Option String) (now : ℤ) where
  unfoldable pub verify_gateway_attestation_bound :
      (encoded : String) (public_key : Bytes) → Attested GatewayAttestation
  verify_gateway_attestation_bound encoded public_key = do
    attestation ← verify_gateway_attestation p encoded public_key now
    binding ←
        ok_or (gateway_attestation_binding var)
          (message "gateway attestation binding is not configured")
    validate_gateway_attestation_binding attestation.claims binding
    ok attestation

  abbrev pub is_attested : (attestation : Option String) (key : Option Bytes) → Attested Bool
  is_attested (some attestation) (some key) =
      is_accepted (verify_gateway_attestation_bound attestation key)
  is_attested (some attestation) none = ok false
  is_attested none key = ok false

  unfoldable pub is_approved_upstream : HealthAnswer → Attested Bool
  is_approved_upstream response =
      if approval_enforcement_enabled (var "LMML_APPROVAL_ENFORCEMENT")
      then attestation_key (var "LMML_GATEWAY_ATTESTATION_PUBLIC_KEY_HEX")
        >>= is_attested response.attestation
      else ok (says response.approved_upstream "approved")

  abbrev pub with_approval : Option HealthResponse → Bool → Option (Option HealthResponse × Bool)
  with_approval none approved = none
  with_approval (some health) approved = some (some health, approved)

  -- `none` is an error of `reqwest`.
  unfoldable pub get_upstream_health :
      Option HealthAnswer → Attested (Option (Option HealthResponse × Bool))
  get_upstream_health none = ok none
  get_upstream_health (some response) =
      is_approved_upstream response >>= λ approved. ok (with_approval response.json approved)

  abbrev pub probe_of :
      UpstreamNodeConfig
      → Option (Option HealthResponse × Bool)
      → Option NodeCapabilities
      → Option LoadResponse
      → UpstreamProbe
  probe_of config none capabilities load = record {
    config = config;
    health = none;
    approved_upstream = false;
    capabilities = capabilities;
    load = load;
  }
  probe_of config (some (health, approved)) capabilities load = record {
    config = config;
    health = health;
    approved_upstream = approved;
    capabilities = capabilities;
    load = load;
  }

  unfoldable pub fetch_upstream_probe :
      UpstreamNodeConfig
      → Option HealthAnswer
      → Option NodeCapabilities
      → Option LoadResponse
      → Attested UpstreamProbe
  unfolding get_upstream_health
  fetch_upstream_probe config response capabilities load =
      get_upstream_health response >>= λ health. ok (probe_of config health capabilities load)

  -- The answers of the upstreams, in their order.
  unfoldable pub discover_upstreams : List Asked → List UpstreamProbe
  unfolding fetch_upstream_probe
  discover_upstreams [] = []
  discover_upstreams ((config, (response, (capabilities, load))) ∷ rest) =
      joined (fetch_upstream_probe config response capabilities load) (discover_upstreams rest)
