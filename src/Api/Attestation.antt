-- ===== src/Api/Attestation.antt =====
-- Gateway attestations: `sign_gateway_attestation`, `verify_gateway_attestation` and
-- `validate_gateway_attestation_binding` of crates/lmml-api/src/lib.rs. The Ed25519 keys of `ring`, the
-- JSON texts and URL_SAFE_NO_PAD are parameters; `hex_encode` and `hex_decode` are those of
-- crates/lmml-substrate/src/approval.rs, written once more.
pub mod RoundTrip
use lmml.Base.{
  ℕ, String, Bool, not, ◌||◌, Option, List, ◌==◌, eqb, Result, ok, err, ◌>>=◌, ◌>>◌, reject_if,
  ok_or, if◌then◌else◌,
}
use lmml.Base.Int.{ℤ, pos, le_int, lt_int, add_i64}
use lmml.Substrate.Errors.{SubstrateError, panicked}
use lmml.Substrate.Disk.{Bytes}
use lmml.Substrate.Approval.Platform.{Ring}
use lmml.Substrate.Approval.Hex.{hex_encode, hex_decode}

pub record GatewayAttestationClaims : Type 0 where
  pub schema_version : ℕ
  pub gateway_id : String
  pub deployment_hash : String
  pub receipt_id : String
  pub receipt_sequence : ℕ
  pub revocation_epoch : ℕ
  pub issued_at_unix : ℤ
  pub expires_at_unix : ℤ

pub record GatewayAttestation : Type 0 where
  pub claims : GatewayAttestationClaims
  pub signature_hex : String

pub record GatewayAttestationBinding : Type 0 where
  pub gateway_id : String
  pub deployment_hash : String
  pub receipt_id : String
  pub receipt_sequence : ℕ
  pub revocation_epoch : ℕ

-- An error text of the code, or the panic of `hex_decode` inside a character.
pub data AttestationError : Type 0 where
  message : String → AttestationError
  panic : AttestationError

pub record AttestationPlatform : Type 0 where
  pub ring : Ring
  pub claims_to_vec : GatewayAttestationClaims → Result String Bytes
  pub to_vec : GatewayAttestation → Result String Bytes
  pub from_slice : Bytes → Option GatewayAttestation
  pub encode : Bytes → String
  pub decode : String → Option Bytes

abbrev pub Attested : Type 0 → Type 0
Attested A = Result AttestationError A

-- `map_err` to an error text, and `map_err(|error| error.to_string())`.
abbrev pub written : {A : Type 0} → Result String A → Attested A
written (ok a) = ok a
written (err text) = err (message text)

abbrev decoded : Result SubstrateError Bytes → Attested Bytes
decoded (ok bytes) = ok bytes
decoded (err panicked) = err panic
decoded (err e) = err (message "invalid gateway attestation signature")

-- `hex_decode(…).ok_or_else(…)`
unfoldable pub signature_bytes : String → Attested Bytes
signature_bytes text = decoded (hex_decode text)

-- The claims that `verify_gateway_attestation` refuses at a time.
unfoldable pub is_stale : GatewayAttestationClaims → (now_unix : ℤ) → Bool
is_stale claims now_unix =
    not (eqb claims.schema_version 1)
    || le_int claims.expires_at_unix now_unix
    || lt_int (add_i64 now_unix (pos 5)) claims.issued_at_unix
    || le_int claims.expires_at_unix claims.issued_at_unix

module _ (p : AttestationPlatform) where
  unfoldable pub sign_gateway_attestation :
      GatewayAttestationClaims → (pkcs8_key : Bytes) → Attested String
  sign_gateway_attestation claims pkcs8_key = do
    reject_if (not (p.ring.accepts pkcs8_key)) (message "invalid gateway attestation private key")
    payload ← written (p.claims_to_vec claims)
    bytes ← written (
        p.to_vec
          (record { claims = claims; signature_hex = hex_encode (p.ring.sign pkcs8_key payload) }))
    ok (p.encode bytes)

  unfoldable pub verify_gateway_attestation :
      (encoded : String) (public_key : Bytes) (now_unix : ℤ) → Attested GatewayAttestation
  unfolding is_stale signature_bytes
  verify_gateway_attestation encoded public_key now_unix = do
    bytes ← ok_or (p.decode encoded) (message "invalid gateway attestation encoding")
    attestation ← ok_or (p.from_slice bytes) (message "invalid gateway attestation JSON")
    reject_if (is_stale attestation.claims now_unix)
        (message "gateway attestation is expired or invalid")
    signature ← signature_bytes attestation.signature_hex
    payload ← written (p.claims_to_vec attestation.claims)
    reject_if (not (p.ring.verify public_key payload signature))
        (message "gateway attestation signature verification failed")
    ok attestation

unfoldable pub validate_gateway_attestation_binding :
    GatewayAttestationClaims → GatewayAttestationBinding → Attested (Unit {0})
validate_gateway_attestation_binding claims expected =
    reject_if
      (not (claims.gateway_id == expected.gateway_id)
        || not (claims.deployment_hash == expected.deployment_hash)
        || not (claims.receipt_id == expected.receipt_id)
        || not (eqb claims.receipt_sequence expected.receipt_sequence)
        || not (eqb claims.revocation_epoch expected.revocation_epoch))
      (message "gateway attestation claims do not match the approved deployment")
