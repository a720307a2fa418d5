-- ===== src/Substrate/Tests/Selection.antt =====
-- The theorems about the selection of a runtime, with two runtimes that suit a request.
use lmml.Base.{String, ◌≡◌, refl, ◌≢◌, none, some, List, [], ◌∷◌, here, there, ok}
use lmml.Base.Text.{is_blank, is_ascii_alphanumeric, text_lt, utf8}
use lmml.Substrate.Types.{
  text_generation, gguf, q8_0, ArtifactManifest, ModelRequest, ModelLease, RuntimeManifest,
}
use lmml.Substrate.Identifiers.{validate_identifier, validate_schema_version}
use lmml.Substrate.Checks.{is_absolute, validate_timestamp}
use lmml.Substrate.Artifacts.{
  validate_created_at, validate_parent_artifact, validate_admission, validate_artifact_manifest,
}
use lmml.Substrate.Leases.{
  validate_model_lease, is_eligible, eligible_pairs, insert_by_id, sort_by_id, lease_of,
  validate_runtime_manifest, runtime_manifest_hash, validate_request, lease_for, issue_model_lease,
}
use lmml.Substrate.Leases.Selection.{IsCandidate}
use lmml.Substrate.Leases.Issue.{issue_model_lease-total}
use lmml.Substrate.Tests.{platform, hash}

abbrev artifact : ArtifactManifest
artifact = record {
  schema_version = 2;
  artifact = record {
    artifact_id = "weights";
    model_lineage_id = "child";
    representation = gguf;
    quantization = some q8_0;
    artifact_hash = hash;
  };
  parent_artifact = none;
  canonical_model = "child";
  tool = "convert";
  tool_version = "1";
  command_or_parameters = [];
  source_hashes = hash ∷ [];
  output_hash = hash;
  artifact_path = "/weights.gguf";
  admission = some (record {
    backend = "llama.cpp";
    backend_version = "1";
    checked_at = "2026-01-01T00:00:00Z";
  });
  created_at = "2026-01-01T00:00:00Z";
}

abbrev runtime_named : String → RuntimeManifest
runtime_named runtime_id = record {
  schema_version = 2;
  runtime_id = runtime_id;
  pid = 42;
  model_lineage_id = "child";
  artifact_id = "weights";
  artifact_hash = hash;
  representation = gguf;
  quantization = some q8_0;
  backend = "llama.cpp";
  backend_version = "1";
  backend_executable = "/bin/llama-server";
  backend_executable_hash = hash;
  command_line_hash = hash;
  endpoint = "http://127.0.0.1:8080";
  context_size = 4096;
  capabilities = text_generation ∷ [];
  prompt_configuration_hash = none;
  runtime_configuration_hash = none;
  deployment_manifest_hash = none;
  approval_receipt_id = none;
  created_at = "2026-01-01T00:00:00Z";
}

abbrev request : ModelRequest
request = record {
  model_lineage_id = "child";
  purpose = "chat";
  representation_preference = gguf ∷ [];
  required_capabilities = text_generation ∷ [];
}

abbrev other_request : ModelRequest
other_request = record request { model_lineage_id = "base" }

abbrev artifacts : List ArtifactManifest
artifacts = artifact ∷ []

abbrev runtimes : List RuntimeManifest
runtimes = runtime_named "r2" ∷ runtime_named "r1" ∷ []

abbrev chosen : RuntimeManifest × ArtifactManifest
chosen = (runtime_named "r1", artifact)

abbrev lease : ModelLease
lease = lease_of request "lease" (runtime_named "r1") artifact hash

request_valid : validate_request platform request artifacts runtimes "lease" ≡ ok tt
unfolding validate_request validate_artifact_manifest validate_runtime_manifest validate_identifier
    is_ascii_alphanumeric validate_schema_version is_blank validate_created_at validate_timestamp
    is_absolute validate_parent_artifact validate_admission
request_valid = refl

other_valid : validate_request platform other_request artifacts runtimes "lease" ≡ ok tt
unfolding validate_request validate_artifact_manifest validate_runtime_manifest validate_identifier
    is_ascii_alphanumeric validate_schema_version is_blank validate_created_at validate_timestamp
    is_absolute validate_parent_artifact validate_admission
other_valid = refl

chosen-IsCandidate : IsCandidate request artifacts runtimes chosen
unfolding is_eligible
chosen-IsCandidate = record { listed = there (here refl); found = refl; eligible = refl }

issued : issue_model_lease platform request artifacts runtimes "lease" ≡ ok lease
unfolding issue_model_lease eligible_pairs is_eligible sort_by_id insert_by_id text_lt lease_for
    runtime_manifest_hash validate_runtime_manifest validate_model_lease validate_identifier
    is_ascii_alphanumeric validate_schema_version is_blank validate_timestamp is_absolute utf8
issued = rw request_valid refl

nothing_eligible : eligible_pairs other_request artifacts runtimes ≡ []
unfolding eligible_pairs is_eligible
nothing_eligible = refl

written : (r : RuntimeManifest) → platform.runtime_json.to_vec r ≢ none
written r h = cc

issue_model_lease-total_example :
    (issued : ModelLease) × (issue_model_lease platform request artifacts runtimes "lease"
      ≡ ok issued)
issue_model_lease-total_example =
    issue_model_lease-total platform request artifacts runtimes "lease" request_valid written chosen
      chosen-IsCandidate
