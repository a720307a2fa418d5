-- ===== src/Substrate/Approval/Tests/Keys.antt =====
-- The theorems about signatures and revocation states.
use lmml.Base.{◌≡◌, refl, false, arith, ok}
use lmml.Base.Ascii.{ascii_text}
use lmml.Substrate.Approval.Json.{canonical_value}
use lmml.Base.Text.{is_blank, utf8}
use lmml.Substrate.Approval.Hex.{hex_encode, byte_value, hex_decode}
use lmml.Substrate.Approval.Contracts.{
  require_text, validate_approval_trust_root, validate_timestamp, validate_receipt_fields,
  validate_trust_root_rotation,
}
use lmml.Substrate.Approval.Signing.{
  canonical_json, domain_bytes, domain_hash, receipt_payload, revocation_payload,
  revocation_state_hash, trust_rotation_payload, check_events, validate_revocation_state,
  sign_payload, sign_approval_receipt, verify_payload, verify_approval_receipt,
  verify_revocation_state, verify_trust_root_rotation, generate_approval_trust_root,
}
use lmml.Substrate.Approval.Signing.RoundTrip.{IsEd25519, verify-sign_approval_receipt}
use lmml.Substrate.Approval.Tests.{
  small_key, ring, platform, operator, trust_root, receipt, state, rotation,
}

pub ring-IsEd25519 : IsEd25519 ring
ring-IsEd25519 = record {
  key_size = λ key. refl;
  key_bytes = λ key. omega arith;
  signature_size = λ key message. refl;
  signature_bytes = λ key message. omega arith;
  verifies = λ key message h. refl;
}

generated : generate_approval_trust_root platform operator ≡ ok (trust_root, small_key)
unfolding generate_approval_trust_root hex_encode ascii_text
generated = refl

named : is_blank operator ≡ false
unfolding is_blank
named = refl

signed : sign_approval_receipt platform receipt small_key ≡ ok receipt
unfolding sign_approval_receipt validate_receipt_fields require_text validate_timestamp sign_payload
    receipt_payload domain_bytes canonical_json is_blank hex_encode ascii_text canonical_value
signed = refl

verify-sign_approval_receipt_example : verify_approval_receipt platform receipt trust_root ≡ ok tt
verify-sign_approval_receipt_example =
    verify-sign_approval_receipt platform ring-IsEd25519 operator trust_root small_key receipt
      receipt generated named refl signed

-- Read with the rotation of the files too.
pub verified_rotation : verify_trust_root_rotation platform rotation trust_root ≡ ok tt
unfolding verify_trust_root_rotation validate_trust_root_rotation require_text
    validate_approval_trust_root verify_payload trust_rotation_payload domain_bytes canonical_json
    is_blank hex_decode utf8 byte_value canonical_value
verified_rotation = refl

verified_state : verify_revocation_state platform state trust_root ≡ ok tt
unfolding verify_revocation_state validate_revocation_state check_events revocation_state_hash
    domain_hash canonical_json require_text validate_timestamp validate_approval_trust_root
    verify_payload revocation_payload is_blank hex_decode utf8 byte_value canonical_value
verified_state = refl
