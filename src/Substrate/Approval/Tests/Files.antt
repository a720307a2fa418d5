-- ===== src/Substrate/Approval/Tests/Files.antt =====
-- The theorems about the files, on a disk with an anchor and a machine that refuses one call.
use lmml.Base
use lmml.Base.{
  ℕ, ◌-◌, ◌/◌, ◌≤◌, ◌≡◌, refl, ap, ◌≢◌, inr, none, some, List, [], ◌∷◌, arith, ◌==◌, eq_iff,
  if◌then◌else◌, length, All,
}
use lmml.Base.Text.{has_prefix, utf8}
use lmml.Base.Ascii.{ascii_text}
use lmml.Substrate.Approval.Json.{canonical_value}
use lmml.Base.Decimal.{max_u64, print_u64}
use lmml.Substrate.Types.{FilePath}
use lmml.Substrate.Errors.{not_found, approval_conflict}
use lmml.Substrate.Disk.{Bytes, World, join}
use lmml.Substrate.Disk.Chains.{Ensures}
use lmml.Substrate.Approval.Signing.{canonical_json, verify_trust_root_rotation}
use lmml.Substrate.Approval.Anchor.{anchor_bytes, with_tmp, write_anchor}
use lmml.Substrate.Approval.Anchor.Reading.{anchor_of-anchor_bytes}
use lmml.Substrate.Approval.Anchor.Writing.{write_anchor-replaces}
use lmml.Substrate.Approval.Anchor.Floor.{AnchorFrom}
use lmml.Substrate.Approval.Stores.{
  last_sequence, receipt_path, epoch_path, store_trust_root_rotation,
}
use lmml.Substrate.Approval.Stores.Monotone.{
  StoreCall, store_receipt, store_state, Fits, run, run-AnchorFrom,
}
use lmml.Substrate.Approval.Stores.Rotation.{IsRotated, store_trust_root_rotation-IsRotated}
use lmml.Substrate.Approval.Stores.Undo.{IsCalm, store_trust_root_rotation-removes_root}
use lmml.Substrate.Approval.Tests.{
  platform, trust_root, receipt, state, rotation, calm_os, failing_at,
}
use lmml.Substrate.Approval.Tests.Keys.{verified_rotation}

abbrev anchor_path : FilePath
anchor_path = "/state/anchor"

abbrev start : World
start = record { disk = λ q. if q == anchor_path then some (anchor_bytes 1 2) else none; calls = 0 }

distinct : with_tmp anchor_path ≢ anchor_path
unfolding with_tmp
distinct h = cc ((eq_iff "/state/anchor.tmp" anchor_path).1 h)

write_anchor-replaces_example :
    Ensures
      (λ a w'. w'.disk anchor_path ≡ some (anchor_bytes 2 5))
      (λ w'. w'.disk anchor_path ≡ start.disk anchor_path)
      (write_anchor (failing_at 4) anchor_path 2 5 start)
write_anchor-replaces_example = write_anchor-replaces (failing_at 4) anchor_path 2 5 start distinct

abbrev calls : List StoreCall
calls =
    store_receipt "/state/receipts" receipt trust_root
    ∷ store_state "/state/revocations" state trust_root
    ∷ []

never_missing : (n : ℕ) → (failing_at 9).read_fault n ≢ some not_found
never_missing n h = cc

receipt_elsewhere : receipt_path "/state/receipts" receipt ≢ anchor_path
unfolding receipt_path join has_prefix
receipt_elsewhere h = cc ((eq_iff "/state/receipts/r1.json" anchor_path).1 h)

state_elsewhere : epoch_path "/state/revocations" state ≢ anchor_path
unfolding epoch_path join has_prefix ascii_text print_u64
state_elsewhere h = cc ((eq_iff "/state/revocations/epoch-2.json" anchor_path).1 h)

last_is_five : last_sequence state ≤ max_u64
unfolding last_sequence
last_is_five = omega arith

calls-Fits : All (Fits anchor_path) calls
calls-Fits = ((receipt_elsewhere, omega arith), ((state_elsewhere, omega arith, last_is_five), tt))

start-AnchorFrom : AnchorFrom anchor_path (1, 2) start.disk
start-AnchorFrom = record {
  anchor = (1, 2);
  bytes = anchor_bytes 1 2;
  stored = refl;
  reads = anchor_of-anchor_bytes anchor_path 1 2 (omega arith) (omega arith);
  fits = omega arith;
  reached = inr (refl, omega arith);
}

run-AnchorFrom_example :
    AnchorFrom anchor_path (1, 2) (run (failing_at 9) platform anchor_path start calls).disk
run-AnchorFrom_example =
    run-AnchorFrom (failing_at 9) platform anchor_path (1, 2) start calls never_missing distinct
      calls-Fits start-AnchorFrom

abbrev root_path : FilePath
root_path = "/state/root.json"

abbrev migration_path : FilePath
migration_path = "/state/migration.json"

migration_elsewhere : migration_path ≢ root_path
migration_elsewhere h = cc ((eq_iff migration_path root_path).1 h)

store_trust_root_rotation-IsRotated_example :
    Ensures
      (λ path w'.
        (path ≡ root_path)
        × IsRotated calm_os platform root_path migration_path rotation trust_root w'.disk)
      (λ w'. Unit {0})
      (store_trust_root_rotation calm_os platform root_path migration_path rotation trust_root
        start)
store_trust_root_rotation-IsRotated_example =
    store_trust_root_rotation-IsRotated calm_os platform root_path migration_path rotation
      trust_root start migration_elsewhere

abbrev root_bytes : Bytes
root_bytes = utf8 "successor"

abbrev migration_bytes : Bytes
migration_bytes = utf8 "operator"

abbrev older_migration : Bytes
older_migration = b'x' ∷ []

-- An earlier migration is recorded, and the root file holds the new root.
abbrev migrated : World
migrated = record {
  disk = λ q.
      if q == root_path
      then some root_bytes
      else if q == migration_path
      then some older_migration
      else none;
  calls = 0;
}

calm : IsCalm calm_os
calm = record { calls_succeed = λ n. refl; reads_succeed = λ n. refl; removals_succeed = λ n. refl }

texts :
    (canonical_json platform platform.trust_root_codec rotation.new_root ≡ Base.ok root_bytes)
    × (canonical_json platform platform.rotation_codec rotation ≡ Base.ok migration_bytes)
unfolding canonical_json canonical_value
texts = (refl, refl)

authorized : verify_trust_root_rotation platform rotation trust_root ≡ Base.ok tt
authorized = verified_rotation

differs : older_migration ≢ migration_bytes
unfolding utf8
differs h = cc (ap length h)

store_trust_root_rotation-removes_root_example :
    (w' : World) × (store_trust_root_rotation calm_os platform root_path migration_path rotation
        trust_root migrated
      ≡ (Base.err (approval_conflict migration_path), w'))
    × (w'.disk root_path ≡ none)
store_trust_root_rotation-removes_root_example =
    store_trust_root_rotation-removes_root calm_os calm platform root_path migration_path rotation
      trust_root root_bytes migration_bytes older_migration migrated authorized (omega arith)
      texts.0 texts.1 refl refl differs
