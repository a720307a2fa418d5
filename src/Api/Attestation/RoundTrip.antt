-- ===== src/Api/Attestation/RoundTrip.antt =====
-- What `sign_gateway_attestation` of crates/lmml-api/src/lib.rs writes, against its verification.
use lmml.Base.{String, ◌≡◌, refl, true, false, some, arith, ok, Result-cases, inl, inr}
use lmml.Base.Int.{ℤ}
use lmml.Substrate.Disk.{Bytes}
use lmml.Substrate.Approval.Hex.RoundTrip.{hex_decode-hex_encode}
use lmml.Substrate.Approval.Hex.{hex_encode}
use lmml.Substrate.Approval.Signing.RoundTrip.{IsEd25519}
use lmml.Api.Attestation.{
  GatewayAttestationClaims, GatewayAttestation, AttestationPlatform, signature_bytes, is_stale,
  sign_gateway_attestation, verify_gateway_attestation,
}

-- What `serde_json` and `base64` document: what they wrote they read back.
pub record IsCodec (p : AttestationPlatform) : Type 0 where
  pub json :
      (attestation : GatewayAttestation) (bytes : Bytes)
      → p.to_vec attestation ≡ ok bytes
      → p.from_slice bytes ≡ some attestation
  pub base64 :
      (attestation : GatewayAttestation) (bytes : Bytes)
      → p.to_vec attestation ≡ ok bytes
      → p.decode (p.encode bytes) ≡ some bytes

module _ (p : AttestationPlatform) (sound : IsEd25519 p.ring) (codec : IsCodec p) where
  signature_read :
      (key payload : Bytes)
      → signature_bytes (hex_encode (p.ring.sign key payload)) ≡ ok (p.ring.sign key payload)
  unfolding signature_bytes
  signature_read key payload =
      rw (hex_decode-hex_encode (p.ring.sign key payload) (sound.signature_bytes key payload)) refl

  abbrev signed : GatewayAttestationClaims → (key payload : Bytes) → GatewayAttestation
  signed claims key payload = record {
    claims = claims;
    signature_hex = hex_encode (p.ring.sign key payload);
  }

  signed_accepted :
      (claims : GatewayAttestationClaims) (key payload bytes : Bytes) (now : ℤ)
      → p.ring.accepts key ≡ true
      → p.claims_to_vec claims ≡ ok payload
      → p.to_vec (signed claims key payload) ≡ ok bytes
      → is_stale claims now ≡ false
      → verify_gateway_attestation p (p.encode bytes) (p.ring.public_key key) now
        ≡ ok (signed claims key payload)
  unfolding verify_gateway_attestation
  signed_accepted claims key payload bytes now accepted made told fresh =
      rw (codec.base64 (signed claims key payload) bytes told) (
        rw (codec.json (signed claims key payload) bytes told) (
          rw fresh (
            rw (signature_read key payload)
              (rw made (rw (sound.verifies key payload accepted) refl)))))

  -- What a key signs is accepted under its public key, with the claims that were signed, at any time at which
  -- they are not stale.
  pub verify-sign_gateway_attestation :
      (claims : GatewayAttestationClaims) (key : Bytes) (encoded : String) (now : ℤ)
      → sign_gateway_attestation p claims key ≡ ok encoded
      → is_stale claims now ≡ false
      → (attestation : GatewayAttestation) × (verify_gateway_attestation p encoded
            (p.ring.public_key key)
            now
          ≡ ok attestation)
        × (attestation.claims ≡ claims)
  unfolding sign_gateway_attestation
  verify-sign_gateway_attestation claims key encoded now h fresh =
      elim (Result-cases (p.claims_to_vec claims)) [
        | inl (payload, made) ↦ elim (Result-cases (p.to_vec (signed claims key payload))) [
          | inl (bytes, told) ↦
              let accepted : p.ring.accepts key ≡ true = ground (arith, made, told, h) in
              let same : encoded ≡ p.encode bytes = ground (arith, made, told, h) in
              (
                signed claims key payload,
                rw same (signed_accepted claims key payload bytes now accepted made told fresh),
                refl,
              )
          | inr (e, failed) ↦ ground (arith, made, failed, h)
        ]
        | inr (e, failed) ↦ ground (arith, failed, h)
      ]
