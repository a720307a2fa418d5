-- ===== src/Router/Attested/Signed.antt =====
-- Attestations that `verify_gateway_attestation` and `validate_gateway_attestation_binding` of
-- crates/lmml-api/src/lib.rs accept for the environment of a router.
use mathlib.Core.Option.{bind}
use lmml.Base.{
  String, ◌≡◌, refl, subst, true, false, not, Option, none, some, eq_iff, arith, Result, ok, err,
  ok_or, >>=-ok, guard-ok, ok_inj, reject_if-ok,
}
use lmml.Base.Decimal.{parse_u64}
use lmml.Base.Int.{ℤ, le_int}
use lmml.Base.Text.{utf8}
use lmml.Substrate.Disk.{Bytes}
use lmml.Api.Attestation.{
  GatewayAttestationClaims, GatewayAttestation, GatewayAttestationBinding, AttestationPlatform,
  written, signature_bytes, is_stale, verify_gateway_attestation,
  validate_gateway_attestation_binding,
}
use lmml.Router.Attested.{gateway_attestation_binding}

-- The claims are signed by the key, and a time is within their lifetime.
pub record IsSigned (p : AttestationPlatform) (key : Bytes) (now : ℤ)
    (claims : GatewayAttestationClaims) : Type 0 where
  pub payload : Bytes
  pub signature : Bytes
  pub written_as : p.claims_to_vec claims ≡ ok payload
  pub verified : p.ring.verify key payload signature ≡ true
  pub version : claims.schema_version ≡ 1
  pub alive : le_int claims.expires_at_unix now ≡ false

-- The claims are those that the environment names.
pub record IsNamed (var : String → Option String) (claims : GatewayAttestationClaims) : Type 0 where
  pub gateway_id : var "LMML_GATEWAY_ID" ≡ some claims.gateway_id
  pub deployment_hash : var "LMML_GATEWAY_DEPLOYMENT_HASH" ≡ some claims.deployment_hash
  pub receipt_id : var "LMML_GATEWAY_RECEIPT_ID" ≡ some claims.receipt_id
  pub sequence :
      (text : String) × (var "LMML_GATEWAY_RECEIPT_SEQUENCE" ≡ some text)
      × (parse_u64 (utf8 text) ≡ some claims.receipt_sequence)
  pub epoch :
      (text : String) × (var "LMML_GATEWAY_REVOCATION_EPOCH" ≡ some text)
      × (parse_u64 (utf8 text) ≡ some claims.revocation_epoch)

written-ok : {A : Type 0} (r : Result String A) (a : A) → written r ≡ ok a → r ≡ ok a
written-ok (ok b) a h = cc
written-ok (err e) a h = cc

fresh :
    (claims : GatewayAttestationClaims) (now : ℤ)
    → is_stale claims now ≡ false
    → (claims.schema_version ≡ 1) × (le_int claims.expires_at_unix now ≡ false)
unfolding is_stale
fresh claims now h = (ground (arith, h), ground (arith, h))

pub verified-IsSigned :
    (p : AttestationPlatform) (encoded : String) (key : Bytes) (now : ℤ)
    (attestation : GatewayAttestation)
    → verify_gateway_attestation p encoded key now ≡ ok attestation
    → IsSigned p key now attestation.claims
unfolding verify_gateway_attestation
verified-IsSigned p encoded key now attestation h =
    let (bytes, e1, h1) = >>=-ok (ok_or (p.decode encoded) _) _ h in
    let (found, e2, h2) = >>=-ok (ok_or (p.from_slice bytes) _) _ h1 in
    let (e3, h3) = guard-ok (is_stale found.claims now) _ _ h2 in
    let (signature, e4, h4) = >>=-ok (signature_bytes found.signature_hex) _ h3 in
    let (payload, e5, h5) = >>=-ok (written (p.claims_to_vec found.claims)) _ h4 in
    let (e6, h6) = guard-ok (not (p.ring.verify key payload signature)) _ _ h5 in
    subst (λ (a : GatewayAttestation). IsSigned p key now a.claims) (ok_inj found attestation h6)
      (record {
        payload = payload;
        signature = signature;
        written_as = written-ok (p.claims_to_vec found.claims) payload e5;
        verified = ground (arith, e6);
        version = (fresh found.claims now e3).0;
        alive = (fresh found.claims now e3).1;
      })

bind-some :
    {A B : Type 0} (o : Option A) (f : A → Option B) (b : B)
    → bind o f ≡ some b
    → (a : A) × (o ≡ some a) × (f a ≡ some b)
unfolding bind
bind-some none f b h = cc
bind-some (some a) f b h = (a, refl, h)

pub binding-IsNamed :
    (var : String → Option String) (claims : GatewayAttestationClaims)
    (binding : GatewayAttestationBinding)
    → gateway_attestation_binding var ≡ some binding
    → validate_gateway_attestation_binding claims binding ≡ ok tt
    → IsNamed var claims
unfolding gateway_attestation_binding validate_gateway_attestation_binding
binding-IsNamed var claims binding h same =
    let (g, e1, h1) = bind-some (var "LMML_GATEWAY_ID") _ binding h in
    let (d, e2, h2) = bind-some (var "LMML_GATEWAY_DEPLOYMENT_HASH") _ binding h1 in
    let (r, e3, h3) = bind-some (var "LMML_GATEWAY_RECEIPT_ID") _ binding h2 in
    let (n, e4, h4) = bind-some (bind (var "LMML_GATEWAY_RECEIPT_SEQUENCE") _) _ binding h3 in
    let (m, e5, h5) = bind-some (bind (var "LMML_GATEWAY_REVOCATION_EPOCH") _) _ binding h4 in
    let (sequence, f4, g4) = bind-some (var "LMML_GATEWAY_RECEIPT_SEQUENCE") _ n e4 in
    let (epoch, f5, g5) = bind-some (var "LMML_GATEWAY_REVOCATION_EPOCH") _ m e5 in
    let checked = reject_if-ok _ _ same in
    let gateway : claims.gateway_id ≡ g =
      (eq_iff claims.gateway_id g).0 (ground (arith, checked, h5)) in
    let deployment : claims.deployment_hash ≡ d =
      (eq_iff claims.deployment_hash d).0 (ground (arith, checked, h5)) in
    let receipt : claims.receipt_id ≡ r =
      (eq_iff claims.receipt_id r).0 (ground (arith, checked, h5)) in
    let number : claims.receipt_sequence ≡ n = ground (arith, checked, h5) in
    let count : claims.revocation_epoch ≡ m = ground (arith, checked, h5) in
    record {
      gateway_id = rw gateway e1;
      deployment_hash = rw deployment e2;
      receipt_id = rw receipt e3;
      sequence = (sequence, f4, rw number g4);
      epoch = (epoch, f5, rw count g5);
    }
