-- ===== src/Gateway/Tests/Attested.antt =====
-- An attestation that a gateway sends, read back.
use mathlib.Core.Option.{bind}
use lmml.Base.{
  ℕ, String, ◌≡◌, refl, ap, sym, Bool, true, false, ◌&&◌, none, some, [], ◌∷◌, ◌==◌, eq_iff, eqb,
  Result, ok, err, arith, if◌then◌else◌,
}
use lmml.Base.Ascii.{ascii_text}
use lmml.Base.Int.{ℤ, pos, negsuc}
use lmml.Substrate.Disk.{Bytes}
use lmml.Substrate.Approval.Tests.{small_key, ring}
use lmml.Substrate.Approval.Tests.Keys.{ring-IsEd25519}
use lmml.Api.Attestation.{
  GatewayAttestationClaims, GatewayAttestation, GatewayAttestationBinding, AttestationPlatform,
  sign_gateway_attestation, verify_gateway_attestation, validate_gateway_attestation_binding,
}
use lmml.Api.Attestation.RoundTrip.{IsCodec}
use lmml.Gateway.Handlers.{GatewayConfig}
use lmml.Gateway.Handlers.Routes.{claims_of, attestation_header}
use lmml.Gateway.Handlers.Health.{attestation_header-accepted}
use lmml.Substrate.Approval.Hex.{hex_encode}

abbrev pub claims : GatewayAttestationClaims
claims = record {
  schema_version = 1;
  gateway_id = "gate";
  deployment_hash = "deployment";
  receipt_id = "receipt";
  receipt_sequence = 3;
  revocation_epoch = 2;
  issued_at_unix = pos 1000;
  expires_at_unix = pos 1060;
}

abbrev pub is_pos : ℕ → ℤ → Bool
is_pos n (pos m) = eqb m n
is_pos n (negsuc m) = false

is_pos_eq : (n : ℕ) (z : ℤ) → is_pos n z ≡ true → z ≡ pos n
is_pos_eq n (pos m) h = ap pos (ground (arith, h))
is_pos_eq n (negsuc m) h = cc

abbrev pub is_claims : GatewayAttestationClaims → Bool
is_claims c =
    eqb c.schema_version 1
    && (c.gateway_id == "gate")
    && (c.deployment_hash == "deployment")
    && (c.receipt_id == "receipt")
    && eqb c.receipt_sequence 3
    && eqb c.revocation_epoch 2
    && is_pos 1000 c.issued_at_unix
    && is_pos 1060 c.expires_at_unix

and_true : (a b : Bool) → (a && b) ≡ true → (a ≡ true) × (b ≡ true)
and_true true b h = (refl, h)
and_true false b h = cc

is_claims_eq : (c : GatewayAttestationClaims) → is_claims c ≡ true → c ≡ claims
is_claims_eq c h = λ i. record {
  schema_version = version i;
  gateway_id = gateway i;
  deployment_hash = deployment i;
  receipt_id = receipt i;
  receipt_sequence = sequence i;
  revocation_epoch = epoch i;
  issued_at_unix = issued i;
  expires_at_unix = expires i;
}
  where
    version : c.schema_version ≡ 1
    version = ground (arith, h)

    gateway : c.gateway_id ≡ "gate"
    gateway = (eq_iff c.gateway_id "gate").0 (ground (arith, h))

    deployment : c.deployment_hash ≡ "deployment"
    deployment = (eq_iff c.deployment_hash "deployment").0 (ground (arith, h))

    receipt : c.receipt_id ≡ "receipt"
    receipt = (eq_iff c.receipt_id "receipt").0 (ground (arith, h))

    sequence : c.receipt_sequence ≡ 3
    sequence = ground (arith, h)

    epoch : c.revocation_epoch ≡ 2
    epoch = ground (arith, h)

    issued : c.issued_at_unix ≡ pos 1000
    issued = is_pos_eq 1000 c.issued_at_unix (ground (arith, h))

    expires : c.expires_at_unix ≡ pos 1060
    expires = is_pos_eq 1060 c.expires_at_unix (ground (arith, h))

abbrev pub signature : String
signature =
    "abababababababababababababababababababababababababababababababababababababababababababababababababababababababababababababababab"

abbrev pub sent : GatewayAttestation
sent = record { claims = claims; signature_hex = signature }

abbrev pub is_sent : GatewayAttestation → Bool
is_sent a = is_claims a.claims && (a.signature_hex == signature)

is_sent_eq : (a : GatewayAttestation) → is_sent a ≡ true → a ≡ sent
is_sent_eq a h =
    let (of_claims, of_signature) =
      and_true (is_claims a.claims) (a.signature_hex == signature) h in
    λ i. record {
      claims = is_claims_eq a.claims of_claims i;
      signature_hex = (eq_iff a.signature_hex signature).0 of_signature i;
    }

-- One byte stands for the JSON text of the one attestation.
abbrev pub attestation_platform : AttestationPlatform
attestation_platform = record {
  ring = ring;
  claims_to_vec = λ c. ok (8 ∷ []);
  to_vec = λ a. if is_sent a then ok (9 ∷ []) else err "unwritten";
  from_slice = λ body. some sent;
  encode = λ body. "CQ";
  decode = λ text. some (9 ∷ []);
}

written_once :
    (b : Bool) (body : Bytes)
    → ◌≡◌ {A = Result String Bytes} (if b then ok (9 ∷ []) else err "unwritten") (ok body)
    → (b ≡ true) × (body ≡ 9 ∷ [])
written_once true body h = (refl, cc)
written_once false body h = cc

attestation-IsCodec : IsCodec attestation_platform
attestation-IsCodec = record {
  json = λ a body h. ap some (sym (is_sent_eq a ((written_once (is_sent a) body h).0)));
  base64 = λ a body h. ap some (sym (written_once (is_sent a) body h).1);
}

abbrev config : GatewayConfig
config = record {
  backend_url = "http://127.0.0.1:8080/";
  max_body_bytes = 100;
  api_key = none;
  backend_api_key = none;
  gateway_id = some "gate";
  deployment_hash = some "deployment";
  receipt_id = some "receipt";
  receipt_sequence = 3;
  revocation_epoch = 2;
  attestation_private_key = some small_key;
  attestation_ttl = 60;
}

abbrev binding : GatewayAttestationBinding
binding = record {
  gateway_id = "gate";
  deployment_hash = "deployment";
  receipt_id = "receipt";
  receipt_sequence = 3;
  revocation_epoch = 2;
}

header_sent : attestation_header attestation_platform config 1000 ≡ some "CQ"
unfolding attestation_header sign_gateway_attestation claims_of hex_encode bind ascii_text
header_sent = refl

attestation_header-accepted_example :
    (attestation : GatewayAttestation) × (verify_gateway_attestation attestation_platform "CQ"
        (ring.public_key small_key)
        (pos 1059)
      ≡ ok attestation)
    × (validate_gateway_attestation_binding attestation.claims binding ≡ ok tt)
attestation_header-accepted_example =
    attestation_header-accepted attestation_platform ring-IsEd25519 attestation-IsCodec config
      small_key binding "CQ" 1000 1059
      (record {
        key_set = refl;
        gateway = refl;
        deployment = refl;
        receipt = refl;
        sequence = refl;
        epoch = refl;
      })
      header_sent (omega arith) (omega arith) (omega arith)
