-- ===== src/Substrate/Tests/Storage.antt =====
-- The theorems about the files of crates/lmml-substrate, on a disk with two files and a machine that
-- refuses one call.
use lmml.Base.{ℕ, ◌≡◌, refl, none, some, [], ◌∷◌, ◌==◌, eqb, if◌then◌else◌, ok, err}
use lmml.Substrate.Errors.{permission_denied, SubstrateError, io, lifecycle_conflict}
use lmml.Substrate.Disk.{
  Bytes, Os, World, ◌>>=◌, lift, attempt, is_file, read_required, persist_noclobber, remove_file,
  directory_of,
}
use lmml.Substrate.Disk.Frame.{Frame}
use lmml.Substrate.Disk.Chains.{Ensures}
use lmml.Substrate.Persist.{
  created, persist_immutable_with_outcome, preflight_immutable, rollback_exact,
}
use lmml.Substrate.Persist.Effects.{persist_write_once, persist_success, persist_failure}
use lmml.Substrate.Agreement.{admitted_payloads}
use lmml.Substrate.Agreement.Agreed.{IsAgreed}
use lmml.Substrate.Admission.{undo, settle, publish_admission, store_admitted_successor}
use lmml.Substrate.Admission.Effects.{store_admitted_success, IsSteady, store_admitted_failure}
use lmml.Substrate.Tests.Records.{sealed_again, successor_valid}
use lmml.Base.Text.{utf8}
use lmml.Substrate.Agreement.{disagree}
use lmml.Substrate.Tests.{platform, canonical, successor}

-- The n-th call fails, and no other.
abbrev failing_at : ℕ → Os
failing_at n = record {
  fault = λ k. if eqb k n then some permission_denied else none;
  read_fault = λ k. none;
  remove_fault = λ k. none;
  intruder = λ k. none;
  temporary = λ k. "/models/tmp";
  written = λ n. 0;
}

abbrev start : World
start = record {
  disk = λ q. if q == "/models/base.json" then some (1 ∷ 2 ∷ []) else none;
  calls = 0;
}

abbrev payload : Bytes
payload = 7 ∷ 8 ∷ []

abbrev denied : SubstrateError
denied = io "/models/new.json" permission_denied

persist_write_once_example :
    Frame "/models/new.json" start.disk
      (persist_immutable_with_outcome
        (failing_at 9)
        "/models/new.json"
        payload
        lifecycle_conflict
        start).1.disk
persist_write_once_example =
    persist_write_once (failing_at 9) "/models/new.json" payload lifecycle_conflict start

persisted :
    (persist_immutable_with_outcome
      (failing_at 9)
      "/models/new.json"
      payload
      lifecycle_conflict
      start).0
    ≡ ok created
unfolding persist_immutable_with_outcome ◌>>=◌ lift attempt is_file persist_noclobber directory_of
persisted = refl

persist_success_example :
    ((persist_immutable_with_outcome
          (failing_at 9)
          "/models/new.json"
          payload
          lifecycle_conflict
          start).1.disk
        "/models/new.json"
      ≡ some payload)
    × (created ≡ created → start.disk "/models/new.json" ≡ none)
persist_success_example =
    persist_success (failing_at 9) "/models/new.json" payload lifecycle_conflict start created
      persisted

persist_denied :
    (persist_immutable_with_outcome
      (failing_at 4)
      "/models/new.json"
      payload
      lifecycle_conflict
      start).0
    ≡ err denied
unfolding persist_immutable_with_outcome ◌>>=◌ lift attempt is_file persist_noclobber directory_of
persist_denied = refl

persist_failure_example :
    (persist_immutable_with_outcome
      (failing_at 4)
      "/models/new.json"
      payload
      lifecycle_conflict
      start).1.disk
    ≡ start.disk
persist_failure_example =
    persist_failure (failing_at 4) "/models/new.json" payload lifecycle_conflict start denied
      (λ n. refl) persist_denied

store_admitted_success_example :
    Ensures
      (λ paths w'.
        (payloads : Bytes × Bytes) × (paths ≡ ("/models/new.json", "/models/admission.json"))
        × IsAgreed platform canonical successor payloads
        × (w'.disk "/models/new.json" ≡ some payloads.0)
        × (w'.disk "/models/admission.json" ≡ some payloads.1))
      (λ w'. Unit {0})
      (store_admitted_successor
        (failing_at 99)
        platform
        "/models/new.json"
        canonical
        "/models/admission.json"
        successor
        start)
store_admitted_success_example =
    store_admitted_success (failing_at 99) platform "/models/new.json" canonical
      "/models/admission.json" successor start

failing_at-IsSteady : (n : ℕ) → IsSteady (failing_at n)
failing_at-IsSteady n = record { alone = λ k. refl; reads = λ k. refl; removes = λ k. refl }

payloads_ready :
    admitted_payloads platform canonical successor ≡ ok (utf8 "child", utf8 "candidate")
unfolding admitted_payloads disagree
payloads_ready = rw sealed_again (rw successor_valid refl)

-- The admission record cannot be made, after the canonical record was.
admission_denied :
    (store_admitted_successor
      (failing_at 11)
      platform
      "/models/new.json"
      canonical
      "/models/admission.json"
      successor
      start).0
    ≡ err (io "/models/admission.json" permission_denied)
unfolding store_admitted_successor ◌>>=◌ lift attempt is_file persist_noclobber directory_of
    read_required remove_file publish_admission persist_immutable_with_outcome preflight_immutable
    rollback_exact settle undo utf8
admission_denied = rw payloads_ready refl

store_admitted_failure_example :
    (store_admitted_successor
      (failing_at 11)
      platform
      "/models/new.json"
      canonical
      "/models/admission.json"
      successor
      start).1.disk
    ≡ start.disk
store_admitted_failure_example =
    store_admitted_failure (failing_at 11) (failing_at-IsSteady 11) platform "/models/new.json"
      canonical "/models/admission.json" successor start
      (io "/models/admission.json" permission_denied) admission_denied
