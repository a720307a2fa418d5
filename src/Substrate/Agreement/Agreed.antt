-- ===== src/Substrate/Agreement/Agreed.antt =====
-- What holds where `store_admitted_successor` of crates/lmml-substrate/src/lifecycle.rs goes on to the
-- files.
use lmml.Base.{
  String, ◌≡◌, ap, not, false, Option, none, some, arith, eq_iff, ok, ok_or-some, >>-ok, >>=-ok,
  guard-ok,
}
use lmml.Substrate.Types.{SubstrateManifest, SuccessorManifest}
use lmml.Substrate.Errors.{invalid_lifecycle_manifest}
use lmml.Substrate.Disk.{Bytes}
use lmml.Substrate.Platform.{Platform}
use lmml.Substrate.Canonical.{validate_substrate_manifest}
use lmml.Substrate.Successors.{is_text, validate_successor_manifest}
use lmml.Substrate.Agreement.{pretty, disagree, admitted_payloads}

-- Both records are valid and name the same successor, the same parent and the same hash of its
-- tensors, and the payloads are what `serde_json` writes for them.
pub record IsAgreed (p : Platform) (canonical : SubstrateManifest) (admission : SuccessorManifest)
    (payloads : Bytes × Bytes) : Type 0 where
  pub canonical_valid : validate_substrate_manifest p canonical ≡ ok tt
  pub admission_valid : validate_successor_manifest p admission ≡ ok tt
  pub same_lineage : canonical.model.lineage_id ≡ admission.successor_lineage_id
  pub same_parent : canonical.model.parent ≡ some admission.parent_lineage_id
  pub same_hash : canonical.model.canonical_manifest_hash ≡ admission.successor_hash
  pub same_tensors : canonical.model.canonical_manifest_hash ≡ admission.tensor_manifest_hash
  pub canonical_written : p.substrate_json.to_vec_pretty canonical ≡ some payloads.0
  pub admission_written : p.successor_json.to_vec_pretty admission ≡ some payloads.1

is_text-some : (o : Option String) (text : String) → not (is_text o text) ≡ false → o ≡ some text
is_text-some none text h = cc
is_text-some (some s) text h = ap some ((eq_iff s text).0 (ground arith))

agreed :
    (canonical : SubstrateManifest) (admission : SuccessorManifest)
    → disagree canonical admission ≡ false
    → (canonical.model.lineage_id ≡ admission.successor_lineage_id)
      × (canonical.model.parent ≡ some admission.parent_lineage_id)
      × (canonical.model.canonical_manifest_hash ≡ admission.successor_hash)
      × (canonical.model.canonical_manifest_hash ≡ admission.tensor_manifest_hash)
unfolding disagree
agreed canonical admission h =
    let model = canonical.model in
    (
      (eq_iff model.lineage_id admission.successor_lineage_id).0 (ground arith),
      is_text-some model.parent admission.parent_lineage_id (ground arith),
      (eq_iff model.canonical_manifest_hash admission.successor_hash).0 (ground arith),
      (eq_iff model.canonical_manifest_hash admission.tensor_manifest_hash).0 (ground arith),
    )

pub admitted_payloads-IsAgreed :
    (p : Platform) (canonical : SubstrateManifest) (admission : SuccessorManifest)
    (payloads : Bytes × Bytes)
    → admitted_payloads p canonical admission ≡ ok payloads
    → IsAgreed p canonical admission payloads
unfolding admitted_payloads
admitted_payloads-IsAgreed p canonical admission payloads h =
    let (canonical_valid, h1) = >>-ok (validate_substrate_manifest p canonical) _ h in
    let (admission_valid, h2) = >>-ok (validate_successor_manifest p admission) _ h1 in
    let (same, h3) =
      guard-ok (disagree canonical admission)
        (invalid_lifecycle_manifest "successor canonical and admission records disagree") _ h2 in
    let (first, written, h4) = >>=-ok (pretty p.substrate_json canonical) _ h3 in
    let (second, admitted, h5) = >>=-ok (pretty p.successor_json admission) _ h4 in
    let (lineage, parent, hash, tensors) = agreed canonical admission same in
    record {
      canonical_valid = canonical_valid;
      admission_valid = admission_valid;
      same_lineage = lineage;
      same_parent = parent;
      same_hash = hash;
      same_tensors = tensors;
      canonical_written = ground (arith, h5, ok_or-some _ _ first written);
      admission_written = ground (arith, h5, ok_or-some _ _ second admitted);
    }
