-- ===== src/Gateway/Handlers/Health.antt =====
-- The attestation that `health` of crates/lmml-gateway/src/lib.rs sends, against the verification of
-- crates/lmml-api/src/lib.rs.
use mathlib.Core.Option.{bind}
use lmml.Base.{ℕ, ◌+◌, ◌^◌, ◌≤◌, ◌<◌, String, ◌≡◌, false, some, eq_refl, arith, ok, err}
use lmml.Base.Int.{pos, to_i64, add_i64}
use lmml.Substrate.Disk.{Bytes}
use lmml.Substrate.Approval.Signing.RoundTrip.{IsEd25519}
use lmml.Api.Attestation.{
  GatewayAttestation, GatewayAttestationBinding, AttestationPlatform, Attested, is_stale,
  sign_gateway_attestation, verify_gateway_attestation, validate_gateway_attestation_binding,
}
use lmml.Api.Attestation.RoundTrip.{IsCodec, verify-sign_gateway_attestation}
use lmml.Gateway.Handlers.{GatewayConfig}
use lmml.Gateway.Handlers.Routes.{claims_of, attested, attestation_header}

-- The gateway has this key and these identities.
pub record Identifies (config : GatewayConfig) (key : Bytes) (binding : GatewayAttestationBinding)
    : Type 0 where
  pub key_set : config.attestation_private_key ≡ some key
  pub gateway : config.gateway_id ≡ some binding.gateway_id
  pub deployment : config.deployment_hash ≡ some binding.deployment_hash
  pub receipt : config.receipt_id ≡ some binding.receipt_id
  pub sequence : config.receipt_sequence ≡ binding.receipt_sequence
  pub epoch : config.revocation_epoch ≡ binding.revocation_epoch

sum_i64 : (a b : ℕ) → a + b < 2 ^ 63 → add_i64 (pos a) (to_i64 b) ≡ pos (a + b)
sum_i64 a b h = ground (arith, h)

fresh_claims :
    (config : GatewayConfig) (g d r : String) (now t : ℕ)
    → now ≤ t
    → t < now + config.attestation_ttl
    → now + config.attestation_ttl + 5 < 2 ^ 63
    → is_stale (claims_of config g d r now) (pos t) ≡ false
unfolding is_stale claims_of
fresh_claims config g d r now t from until small =
    rw (sum_i64 now config.attestation_ttl (omega arith))
      (rw (sum_i64 t 5 (omega arith)) (ground (arith, from, until)))

bound_claims :
    (config : GatewayConfig) (key : Bytes) (binding : GatewayAttestationBinding) (now : ℕ)
    → Identifies config key binding
    → validate_gateway_attestation_binding
        (claims_of config binding.gateway_id binding.deployment_hash binding.receipt_id now)
        binding
      ≡ ok tt
unfolding validate_gateway_attestation_binding claims_of
bound_claims config key binding now h = ground (
  arith,
  h.sequence,
  h.epoch,
  eq_refl binding.gateway_id,
  eq_refl binding.deployment_hash,
  eq_refl binding.receipt_id,
)

attested-some : (r : Attested String) (header : String) → attested r ≡ some header → r ≡ ok header
attested-some (ok text) header h = cc
attested-some (err e) header h = cc

sent_claims :
    (p : AttestationPlatform) (config : GatewayConfig) (key : Bytes)
    (binding : GatewayAttestationBinding) (header : String) (now : ℕ)
    → Identifies config key binding
    → attestation_header p config now ≡ some header
    → attested (
        sign_gateway_attestation p
          (claims_of config binding.gateway_id binding.deployment_hash binding.receipt_id now)
          key)
      ≡ some header
unfolding attestation_header bind
sent_claims p config key binding header now h sent =
    rw (h.key_set, h.gateway, h.deployment, h.receipt) at sent

module _ (p : AttestationPlatform) (sound : IsEd25519 p.ring) (codec : IsCodec p) where
  -- An attestation that a gateway sends at a time is accepted from then on until its lifetime has
  -- passed, by who has the public key of the gateway, and its claims match what is expected of that
  -- gateway. Of the signatures, the JSON texts and the base64 texts it is assumed that what was
  -- written is read back.
  pub attestation_header-accepted :
      (config : GatewayConfig) (key : Bytes) (binding : GatewayAttestationBinding) (header : String)
      (now t : ℕ)
      → Identifies config key binding
      → attestation_header p config now ≡ some header
      → now ≤ t
      → t < now + config.attestation_ttl
      → now + config.attestation_ttl + 5 < 2 ^ 63
      → (attestation : GatewayAttestation) × (verify_gateway_attestation p header
            (p.ring.public_key key)
            (pos t)
          ≡ ok attestation)
        × (validate_gateway_attestation_binding attestation.claims binding ≡ ok tt)
  attestation_header-accepted config key binding header now t h sent from until small =
      let claims =
        claims_of config binding.gateway_id binding.deployment_hash binding.receipt_id now in
      let signed : sign_gateway_attestation p claims key ≡ ok header =
        attested-some (sign_gateway_attestation p claims key) header
          (sent_claims p config key binding header now h sent) in
      let fresh =
        fresh_claims config binding.gateway_id binding.deployment_hash binding.receipt_id now t from
          until small in
      let (attestation, accepted, same) =
        verify-sign_gateway_attestation p sound codec claims key header (pos t) signed fresh in
      (attestation, accepted, rw same (bound_claims config key binding now h))
