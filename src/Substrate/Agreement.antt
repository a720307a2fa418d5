-- ===== src/Substrate/Agreement.antt =====
-- The first half of `store_admitted_successor` of crates/lmml-substrate/src/lifecycle.rs, which reads
-- no file: the two records are valid and agree, and have payloads.
pub mod Agreed
use lmml.Base.{Bool, not, ◌||◌, ◌==◌, ok, ◌>>=◌, ◌>>◌, ok_or, reject_if}
use lmml.Substrate.Types.{SubstrateManifest, SuccessorManifest}
use lmml.Substrate.Errors.{Checked, serialize, invalid_lifecycle_manifest}
use lmml.Substrate.Disk.{Bytes}
use lmml.Substrate.Platform.{Platform, Json}
use lmml.Substrate.Canonical.{validate_substrate_manifest}
use lmml.Substrate.Successors.{is_text, validate_successor_manifest}

-- The payload of a record, as `serde_json` writes it.
abbrev pub pretty : {A : Type 0} → Json A → A → Checked Bytes
pretty json value = ok_or (json.to_vec_pretty value) serialize

-- The two records name the same successor, parent and hashes.
unfoldable pub disagree : SubstrateManifest → SuccessorManifest → Bool
disagree canonical admission =
    not (canonical.model.lineage_id == admission.successor_lineage_id)
    || not (is_text canonical.model.parent admission.parent_lineage_id)
    || not (canonical.model.canonical_manifest_hash == admission.successor_hash)
    || not (canonical.model.canonical_manifest_hash == admission.tensor_manifest_hash)

-- Both payloads, of records that are valid and agree.
module _ (p : Platform) where
  unfoldable pub admitted_payloads : SubstrateManifest → SuccessorManifest → Checked (Bytes × Bytes)
  admitted_payloads canonical admission = do
    validate_substrate_manifest p canonical
    validate_successor_manifest p admission
    reject_if (disagree canonical admission)
        (invalid_lifecycle_manifest "successor canonical and admission records disagree")
    canonical_payload ← pretty p.substrate_json canonical
    admission_payload ← pretty p.successor_json admission
    ok (canonical_payload, admission_payload)
