-- ===== src/Gateway/Admission.antt =====
-- `GatewayAdmission` of crates/lmml-gateway/src/lib.rs. Its three fields are locked one by one, so calls
-- interleave between any two accesses: a call is a program counter with the local variables that are
-- live, and a move is one access.
pub mod Fresh
pub mod Revoked
use Prim.Native.String
use lmml.Base.{
  ℕ, String, ◌≡◌, ◌≢◌, refl, Bool, true, false, Option, none, some, List, [], ◌∷◌, ◌++◌, eqb,
  if◌then◌else◌, Result, ok, err,
}
use lmml.Substrate.Errors.{SubstrateError}
use lmml.Substrate.Disk.{Os, World}
use lmml.Substrate.Approval.Types.{AdmissionState, AdmissionStatus}
use lmml.Substrate.Approval.Platform.{ApprovalPlatform}
use lmml.Gateway.Store.{ApprovalStore, read_status}

pub record GatewayAdmission : Type 0 where
  pub status : AdmissionStatus
  pub store : Option ApprovalStore
  pub active : Bool

unfoldable pub new : AdmissionStatus → GatewayAdmission
new status = record { status = status; store = none; active = true }

unfoldable pub with_store : AdmissionStatus → ApprovalStore → GatewayAdmission
with_store status store = record { status = status; store = some store; active = true }

unfoldable pub pending_with_store : AdmissionStatus → ApprovalStore → GatewayAdmission
pending_with_store status store = record { status = status; store = some store; active = false }

-- `refresh` is called by `status` and by `activate_if_approved`.
pub data Caller : Type 0 where
  status_call activate_call : Caller

pub data Pc : Type 0 where
  idle : Pc
  take_store : Caller → Pc  -- `self.store.read()` of `refresh`
  read_files : Caller → ApprovalStore → Pc  -- the blocking task
  write_status : Caller → AdmissionStatus → Pc
  read_shared : Caller → Pc  -- `self.status.read()` after `refresh`
  read_active : AdmissionStatus → Pc
  answered : AdmissionStatus → Pc
  set_active : Pc
  activated : Pc
  not_activated : (message : String) → Pc
  clear_store : (reason : String) → Pc  -- `revoke`
  set_revoked : (reason : String) → Pc
  clear_active : Pc
  revoked : Pc

abbrev pub blocked : String → AdmissionStatus
blocked reason = record { state = AdmissionState.blocked; reason = reason }

abbrev pub is_approved : AdmissionState → Bool
is_approved AdmissionState.approved = true
is_approved _ = false

-- What `refresh` stores of the task's answer; `none` is a task that failed.
unfoldable pub refreshed :
    (join_error : String) → Option (Result String AdmissionStatus) → AdmissionStatus
refreshed join_error none =
    blocked (String.◌++◌ "approval store verification task failed: " join_error)
refreshed join_error (some (ok status)) = status
refreshed join_error (some (err reason)) =
    blocked (String.◌++◌ "approval store verification failed: " reason)

abbrev pub after_store : Caller → Option ApprovalStore → Pc
after_store caller none = read_shared caller
after_store caller (some store) = read_files caller store

-- `name` prints a state and is `format!("{:?}")`.
abbrev pub after_status : (name : AdmissionState → String) → Caller → AdmissionStatus → Pc
after_status name status_call status = read_active status
after_status name activate_call status =
    if is_approved status.state
    then set_active
    else not_activated (
        String.◌++◌ "runtime admission is "
          (String.◌++◌ (name status.state) (String.◌++◌ ": " status.reason)))

unfoldable pub answer : (active : Bool) → AdmissionStatus → AdmissionStatus
answer true status = status
answer false status =
    if is_approved status.state then blocked "post-load verification pending" else status

-- Any number of calls, by their indices; from an index that names no call none is begun.
pub record System : Type 0 where
  pub shared : GatewayAdmission
  pub pc : ℕ → Pc

abbrev pub update : (ℕ → Pc) → ℕ → Pc → ℕ → Pc
update f i pc j = if eqb i j then pc else f j

abbrev pub quiet : GatewayAdmission → System
quiet admission = record { shared = admission; pc = λ _. idle }

module _ (os : Os) (p : ApprovalPlatform) (to_string : SubstrateError → String)
    (name : AdmissionState → String) where
  -- One access of one call. The files are read as some world `w` has them.
  pub data Move (m : GatewayAdmission) : Pc → List World → GatewayAdmission → Pc → Type 0 where
    begin : (caller : Caller) → Move m idle [] m (take_store caller)
    begin_revoke : (reason : String) → Move m idle [] m (clear_store reason)
    store_taken : {caller : Caller} → Move m (take_store caller) [] m (after_store caller m.store)
    files_read :
        {caller : Caller} {store : ApprovalStore} (w : World)
        → Move m
            (read_files caller store)
            (w ∷ [])
            m
            (write_status caller (refreshed "" (some (read_status os p to_string store w).0)))
    task_failed :
        {caller : Caller} {store : ApprovalStore} (join_error : String)
        → Move m (read_files caller store) [] m (write_status caller (refreshed join_error none))
    status_written :
        {caller : Caller} {status : AdmissionStatus}
        → Move m (write_status caller status) [] (record m { status = status }) (read_shared caller)
    status_read :
        {caller : Caller} → Move m (read_shared caller) [] m (after_status name caller m.status)
    active_read :
        {status : AdmissionStatus}
        → Move m (read_active status) [] m (answered (answer m.active status))
    active_set : Move m set_active [] (record m { active = true }) activated
    store_cleared :
        {reason : String}
        → Move m (clear_store reason) [] (record m { store = none }) (set_revoked reason)
    revoked_set :
        {reason : String}
        → Move m
            (set_revoked reason)
            []
            (record m { status = record { state = AdmissionState.revoked; reason = reason } })
            clear_active
    active_cleared : Move m clear_active [] (record m { active = false }) revoked

  -- One access of some call of a family.
  pub data Step (s : System) : List World → System → Type 0 where
    pick :
        (i : ℕ) {worlds : List World} {m : GatewayAdmission} {pc : Pc}
        → Move s.shared (s.pc i) worlds m pc
        → Step s worlds (record { shared = m; pc = update s.pc i pc })

  -- The states that are reached from `s`, with the worlds of which files were read, the last first.
  pub data Reach (s : System) : List World → System → Type 0 where
    start : Reach s [] s
    later :
        {before now : List World} {t u : System}
        → Reach s before t
        → Step t now u
        → Reach s (now ++ before) u
