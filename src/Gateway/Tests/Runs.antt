-- ===== src/Gateway/Tests/Runs.antt =====
-- Calls of the gateway in some orders.
use lmml.Base.{ℕ, String, ◌≡◌, refl, subst, true, false, none, some, List, [], ◌∷◌, In}
use lmml.Substrate.Disk.{World}
use lmml.Substrate.Approval.Types.{AdmissionState}
use lmml.Substrate.Approval.Tests.{calm_os}
use lmml.Gateway.Store.{ApprovalStore}
use lmml.Gateway.Verified.{Verified}
use lmml.Gateway.Admission.{
  GatewayAdmission, Caller, status_call, activate_call, Pc, take_store, read_files, write_status,
  read_shared, read_active, answered, set_active, activated, clear_store, set_revoked, clear_active,
  revoked, blocked, refreshed, answer, System, update, quiet, Move, begin, begin_revoke,
  store_taken, files_read, status_written, status_read, active_read, active_set, store_cleared,
  revoked_set, active_cleared, pick, Reach, start, later,
}
use lmml.Gateway.Admission.Fresh.{status-Verified}
use lmml.Gateway.Tests.{gateway_platform, store, world, approved_status, told, read_approved}

abbrev pub name : AdmissionState → String
name state = "state"

abbrev pub Runs : GatewayAdmission → List World → System → Type 0
Runs initial worlds s = Reach calm_os gateway_platform told name (quiet initial) worlds s

files_approved :
    {m : GatewayAdmission} {caller : Caller}
    → Move calm_os gateway_platform told name m
        (read_files caller store)
        (world ∷ [])
        m
        (write_status caller approved_status)
unfolding refreshed
files_approved {m} {caller} =
    subst
      (λ r.
        Move calm_os gateway_platform told name m (read_files caller store) (world ∷ []) m
          (write_status caller (refreshed "" (some r))))
      read_approved (files_read world)

abbrev pub pending : GatewayAdmission
pending = record {
  status = blocked "post-load verification pending";
  store = some store;
  active = false;
}

-- What accesses leave, the last first: the call, the fields and where the call then stands.
abbrev pub after : GatewayAdmission → List (ℕ × (GatewayAdmission × Pc)) → System
after initial [] = quiet initial
after initial ((i, (m, pc)) ∷ rest) = record {
  shared = m;
  pc = update (after initial rest).pc i pc;
}

abbrev approved_pending : GatewayAdmission
approved_pending = record pending { status = approved_status }

abbrev approved_active : GatewayAdmission
approved_active = record approved_pending { active = true }

-- One activation.
abbrev activation : List (ℕ × (GatewayAdmission × Pc))
activation =
    (0, (approved_active, activated))
    ∷ (0, (approved_pending, set_active))
    ∷ (0, (approved_pending, read_shared activate_call))
    ∷ (0, (pending, write_status activate_call approved_status))
    ∷ (0, (pending, read_files activate_call store))
    ∷ (0, (pending, take_store activate_call))
    ∷ []

activates : Runs pending (world ∷ []) (after pending activation)
activates =
    later
      (later
        (later
          (later (later (later start (pick 0 (begin activate_call))) (pick 0 store_taken))
            (pick 0 files_approved))
          (pick 0 status_written))
        (pick 0 status_read))
      (pick 0 active_set)

-- An activation and then a status request.
abbrev pub served : List (ℕ × (GatewayAdmission × Pc))
served =
    (1, (approved_active, answered approved_status))
    ∷ (1, (approved_active, read_active approved_status))
    ∷ (1, (approved_active, read_shared status_call))
    ∷ (1, (approved_active, write_status status_call approved_status))
    ∷ (1, (approved_active, read_files status_call store))
    ∷ (1, (approved_active, take_store status_call))
    ∷ activation

pub serves : Runs pending (world ∷ world ∷ []) (after pending served)
unfolding answer
serves =
    later
      (later
        (later
          (later (later (later activates (pick 1 (begin status_call))) (pick 1 store_taken))
            (pick 1 files_approved))
          (pick 1 status_written))
        (pick 1 status_read))
      (pick 1 active_read)

status-Verified_example :
    (st : ApprovalStore) × (some store ≡ some st)
    × (w : World) × In w (world ∷ world ∷ [])
    × Verified calm_os gateway_platform st w.disk
status-Verified_example =
    status-Verified calm_os gateway_platform told name pending 1 approved_status (λ h. cc) serves
      refl refl

-- A revocation, and what a late write makes of it.
abbrev withdrawn : GatewayAdmission
withdrawn = record {
  status = record { state = AdmissionState.revoked; reason = "stop" };
  store = none;
  active = true;
}

abbrev closed : GatewayAdmission
closed = record withdrawn { active = false }

-- A status request that read the files before a revocation writes its approval after it, and a later
-- activation with no store to check makes the gateway serve.
abbrev closed_late : GatewayAdmission
closed_late = record closed { status = approved_status }

abbrev revived_admission : GatewayAdmission
revived_admission = record closed_late { active = true }

abbrev revival : List (ℕ × (GatewayAdmission × Pc))
revival =
    (4, (revived_admission, answered approved_status))
    ∷ (4, (revived_admission, read_active approved_status))
    ∷ (4, (revived_admission, read_shared status_call))
    ∷ (4, (revived_admission, take_store status_call))
    ∷ (3, (revived_admission, activated))
    ∷ (3, (closed_late, set_active))
    ∷ (3, (closed_late, read_shared activate_call))
    ∷ (3, (closed_late, take_store activate_call))
    ∷ (1, (closed_late, read_shared status_call))
    ∷ (2, (closed, revoked))
    ∷ (2, (withdrawn, clear_active))
    ∷ (2, (record approved_active { store = none }, set_revoked "stop"))
    ∷ (2, (approved_active, clear_store "stop"))
    ∷ (1, (approved_active, write_status status_call approved_status))
    ∷ (1, (approved_active, read_files status_call store))
    ∷ (1, (approved_active, take_store status_call))
    ∷ activation

revives : Runs pending (world ∷ world ∷ []) (after pending revival)
unfolding answer
revives =
    later
      (later
        (later
          (later
            (later
              (later
                (later
                  (later
                    (later
                      (later
                        (later
                          (later
                            (later
                              (later
                                (later (later activates (pick 1 (begin status_call)))
                                  (pick 1 store_taken))
                                (pick 1 files_approved))
                              (pick 2 (begin_revoke "stop")))
                            (pick 2 store_cleared))
                          (pick 2 revoked_set))
                        (pick 2 active_cleared))
                      (pick 1 status_written))
                    (pick 3 (begin activate_call)))
                  (pick 3 store_taken))
                (pick 3 status_read))
              (pick 3 active_set))
            (pick 4 (begin status_call)))
          (pick 4 store_taken))
        (pick 4 status_read))
      (pick 4 active_read)
