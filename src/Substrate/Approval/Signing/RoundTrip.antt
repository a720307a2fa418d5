-- ===== src/Substrate/Approval/Signing/RoundTrip.antt =====
-- What a key signs by the functions of crates/lmml-substrate/src/approval.rs, its trust root accepts.
use lmml.Base.{
  String, ◌≡◌, refl, ap, ◌≢◌, inl, inr, true, false, [], arith, ◌==◌, eq_iff, eqb, Bool-cases,
  Option-cases, length, ok, err, Result-cases,
}
use lmml.Base.Text.{is_blank, utf8}
use lmml.Substrate.Errors.{Checked}
use lmml.Substrate.Disk.{Bytes}
use lmml.Substrate.Approval.Types.{ApprovalReceipt, ApprovalTrustRoot, TrustRootRotation}
use lmml.Substrate.Approval.Platform.{Ring, ApprovalPlatform}
use lmml.Substrate.Approval.Hex.{hex_encode, hex_decode}
use lmml.Substrate.Approval.Hex.RoundTrip.{AreBytes, hex_decode-hex_encode}
use lmml.Substrate.Approval.Contracts.{
  require_text, validate_approval_trust_root, validate_receipt_fields, validate_trust_root_rotation,
}
use lmml.Substrate.Approval.Signing.{
  receipt_payload, trust_rotation_payload, sign_payload, sign_approval_receipt,
  sign_trust_root_rotation, verify_payload, verify_approval_receipt, verify_trust_root_rotation,
  root_for, generate_approval_trust_root,
}

-- What `ring` documents of Ed25519: public keys of 32 bytes, signatures of 64, and a signature by an
-- accepted key verifies under its public key.
pub record IsEd25519 (ring : Ring) : Type 0 where
  pub key_size : (key : Bytes) → length (ring.public_key key) ≡ 32
  pub key_bytes : (key : Bytes) → AreBytes (ring.public_key key)
  pub signature_size : (key message : Bytes) → length (ring.sign key message) ≡ 64
  pub signature_bytes : (key message : Bytes) → AreBytes (ring.sign key message)
  pub verifies :
      (key message : Bytes)
      → ring.accepts key ≡ true
      → ring.verify (ring.public_key key) message (ring.sign key message) ≡ true

hex_decode-empty : hex_decode "" ≡ ok []
unfolding hex_decode utf8
hex_decode-empty = refl

hex_encode-filled : (bytes : Bytes) → AreBytes bytes → bytes ≢ [] → (hex_encode bytes == "") ≡ false
hex_encode-filled bytes h filled = elim (Bool-cases (hex_encode bytes == "")) [
  | inl e ↦
      let same : hex_encode bytes ≡ "" = (eq_iff (hex_encode bytes) "").0 e in
      let read = hex_decode-hex_encode bytes h in
      absurd (filled (cc (hex_decode-empty, ap hex_decode same)))
  | inr e ↦ e
]

module _ (p : ApprovalPlatform) (sound : IsEd25519 p.ring) where
  signature_accepted :
      (key message : Bytes)
      → p.ring.accepts key ≡ true
      → ((hex_encode (p.ring.sign key message) == "") ≡ false)
        × (verify_payload p
              (hex_encode (p.ring.public_key key))
              (hex_encode (p.ring.sign key message))
              (ok message)
            ≡ ok tt)
  unfolding verify_payload
  signature_accepted key message h = (
    hex_encode-filled (p.ring.sign key message) (sound.signature_bytes key message)
        (λ e. ground (arith, sound.signature_size key message, e)),
    rw (hex_decode-hex_encode (p.ring.public_key key) (sound.key_bytes key)) (
        rw (hex_decode-hex_encode (p.ring.sign key message) (sound.signature_bytes key message))
          (rw (sound.verifies key message h) refl)),
  )

  verify-sign_payload :
      (key : Bytes) (payload : Checked Bytes) (signature : String)
      → sign_payload p key payload ≡ ok signature
      → ((signature == "") ≡ false)
        × (verify_payload p (hex_encode (p.ring.public_key key)) signature payload ≡ ok tt)
  unfolding sign_payload
  verify-sign_payload key (err e) signature h = ground arith
  verify-sign_payload key (ok message) signature h =
      let accepted : p.ring.accepts key ≡ true = ground arith in
      let same : signature ≡ hex_encode (p.ring.sign key message) = ground arith in
      rw same (signature_accepted key message accepted)

  root_for-valid :
      (id : String) (key : Bytes)
      → is_blank id ≡ false
      → validate_approval_trust_root (root_for p id key) ≡ ok tt
  unfolding validate_approval_trust_root require_text
  root_for-valid id key filled = rw filled (
      rw (hex_decode-hex_encode (p.ring.public_key key) (sound.key_bytes key))
        (rw (sound.key_size key) refl))

  generated_root :
      (id : String) (root : ApprovalTrustRoot) (key : Bytes)
      → generate_approval_trust_root p id ≡ ok (root, key)
      → root ≡ root_for p id key
  unfolding generate_approval_trust_root
  generated_root id root key h = elim (Option-cases p.ring.generated) [
    | inl e ↦ ground (arith, e)
    | inr (k, e) ↦ ground (arith, e)
  ]

  same_fields :
      (receipt : ApprovalReceipt) (s : String)
      → validate_receipt_fields p (record receipt { signature_hex = s })
        ≡ validate_receipt_fields p receipt
  unfolding validate_receipt_fields
  same_fields receipt s = refl

  same_payload :
      (receipt : ApprovalReceipt) (s : String)
      → receipt_payload p (record receipt { signature_hex = s }) ≡ receipt_payload p receipt
  unfolding receipt_payload
  same_payload receipt s = refl

  receipt_round :
      (id : String) (key : Bytes) (receipt : ApprovalReceipt) (signature : String)
      → is_blank id ≡ false
      → receipt.signing_key_id ≡ id
      → validate_receipt_fields p receipt ≡ ok tt
      → sign_payload p key (receipt_payload p receipt) ≡ ok signature
      → verify_approval_receipt p (record receipt { signature_hex = signature }) (root_for p id key)
        ≡ ok tt
  unfolding verify_approval_receipt
  receipt_round id key receipt signature filled named fields e =
      let (present, verified) = verify-sign_payload key (receipt_payload p receipt) signature e in
      rw (same_fields receipt signature) (
        rw fields (
          rw (root_for-valid id key filled) (
            rw present (
              rw ((eq_iff receipt.signing_key_id id).1 named)
                (rw (same_payload receipt signature) verified)))))

  -- A receipt that names a generated trust root and is signed by its key is accepted under that root,
  -- where the trust root has an identifier.
  pub verify-sign_approval_receipt :
      (id : String) (root : ApprovalTrustRoot) (key : Bytes) (receipt signed : ApprovalReceipt)
      → generate_approval_trust_root p id ≡ ok (root, key)
      → is_blank id ≡ false
      → receipt.signing_key_id ≡ id
      → sign_approval_receipt p receipt key ≡ ok signed
      → verify_approval_receipt p signed root ≡ ok tt
  unfolding sign_approval_receipt
  verify-sign_approval_receipt id root key receipt signed generated filled named h =
      elim (Result-cases (sign_payload p key (receipt_payload p receipt))) [
        | inl (signature, e) ↦
            let fields : validate_receipt_fields p receipt ≡ ok tt = ground (arith, e) in
            let made : signed ≡ record receipt { signature_hex = signature } = ground (arith, e) in
            rw made (
              rw (generated_root id root key generated)
                (receipt_round id key receipt signature filled named fields e))
        | inr (x, e) ↦ ground (arith, e)
      ]

  same_rotation :
      (rotation : TrustRootRotation) (s : String)
      → (validate_trust_root_rotation p (record rotation { signature_hex = s })
          ≡ validate_trust_root_rotation p rotation)
        × (trust_rotation_payload p (record rotation { signature_hex = s })
            ≡ trust_rotation_payload p rotation)
  unfolding validate_trust_root_rotation trust_rotation_payload
  same_rotation rotation s = (refl, refl)

  rotation_round :
      (id : String) (key : Bytes) (rotation : TrustRootRotation) (signature : String)
      → is_blank id ≡ false
      → rotation.old_key_id ≡ id
      → rotation.old_key_epoch ≡ 1
      → validate_trust_root_rotation p rotation ≡ ok tt
      → sign_payload p key (trust_rotation_payload p rotation) ≡ ok signature
      → verify_trust_root_rotation p
          (record rotation { signature_hex = signature })
          (root_for p id key)
        ≡ ok tt
  unfolding verify_trust_root_rotation
  rotation_round id key rotation signature filled named epoch valid e =
      let (present, verified) =
        verify-sign_payload key (trust_rotation_payload p rotation) signature e in
      let first : eqb rotation.old_key_epoch 1 ≡ true = ground arith in
      let (same_valid, same_bytes) = same_rotation rotation signature in
      rw same_valid (
        rw valid (
          rw (root_for-valid id key filled) (
            rw present
              (rw ((eq_iff rotation.old_key_id id).1 named) (rw first (rw same_bytes verified))))))

  -- A rotation that replaces a generated trust root and is signed by its key is authorized by that
  -- root, where the trust root has an identifier.
  pub verify-sign_trust_root_rotation :
      (id : String) (root : ApprovalTrustRoot) (key : Bytes) (rotation signed : TrustRootRotation)
      → generate_approval_trust_root p id ≡ ok (root, key)
      → is_blank id ≡ false
      → rotation.old_key_id ≡ id
      → rotation.old_key_epoch ≡ 1
      → sign_trust_root_rotation p rotation key ≡ ok signed
      → verify_trust_root_rotation p signed root ≡ ok tt
  unfolding sign_trust_root_rotation
  verify-sign_trust_root_rotation id root key rotation signed generated filled named epoch h =
      elim (Result-cases (sign_payload p key (trust_rotation_payload p rotation))) [
        | inl (signature, e) ↦
            let valid : validate_trust_root_rotation p rotation ≡ ok tt = ground (arith, e) in
            let made : signed ≡ record rotation { signature_hex = signature } = ground (arith, e) in
            rw made (
              rw (generated_root id root key generated)
                (rotation_round id key rotation signature filled named epoch valid e))
        | inr (x, e) ↦ ground (arith, e)
      ]
