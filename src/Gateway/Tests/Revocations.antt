-- ===== src/Gateway/Tests/Revocations.antt =====
-- A revocation while a status request is under way.
use lmml.Base.{ℕ, String, ◌≡◌, refl, Bool, true, false, none, eqb, if◌then◌else◌}
use lmml.Substrate.Approval.Types.{AdmissionState}
use lmml.Substrate.Approval.Tests.{calm_os}
use lmml.Gateway.Admission.{
  GatewayAdmission, status_call, Pc, idle, write_status, read_shared, answered, clear_active,
  revoked, System, update, status_written, active_cleared, pick,
}
use lmml.Gateway.Admission.Revoked.{is_activating, Passive, still, further, revoke-stops}
use lmml.Gateway.Tests.{gateway_platform, approved_status, told}

abbrev name : AdmissionState → String
name state = "state"

-- A revocation before its last access, a status request that has read the files, and one that is answered.
abbrev withdrawn : GatewayAdmission
withdrawn = record {
  status = record { state = AdmissionState.revoked; reason = "stop" };
  store = none;
  active = true;
}

abbrev before_last : ℕ → Pc
before_last =
    update
      (update (update (λ _. idle) 2 (answered approved_status)) 1
        (write_status status_call approved_status))
      0 clear_active

abbrev closed : GatewayAdmission
closed = record withdrawn { active = false }

abbrev after_last : System
after_last = record { shared = closed; pc = update before_last 0 revoked }

abbrev late_write : System
late_write = record {
  shared = record closed { status = approved_status };
  pc = update after_last.pc 1 (read_shared status_call);
}

calm_update :
    (f : ℕ → Pc) (i : ℕ) (pc : Pc)
    → is_activating pc ≡ false
    → ((k : ℕ) → is_activating (f k) ≡ false)
    → (k : ℕ) → is_activating (update f i pc k) ≡ false
calm_update f i pc h calm k = chosen (eqb i k)
  where
    chosen : (same : Bool) → is_activating (if same then pc else f k) ≡ false
    chosen true = h
    chosen false = calm k

after_last_calm : (k : ℕ) → is_activating (after_last.pc k) ≡ false
after_last_calm = calm_update before_last 0 revoked refl (
    calm_update _ 0 clear_active refl (
      calm_update _ 1 (write_status status_call approved_status) refl
        (calm_update _ 2 (answered approved_status) refl (λ k. refl))))

written_late : Passive calm_os gateway_platform told name after_last late_write
written_late =
    further still (pick 1 status_written)
      (calm_update after_last.pc 1 (read_shared status_call) refl after_last_calm)

revoke-stops_example : after_last.pc 2 ≡ answered approved_status
revoke-stops_example =
    revoke-stops calm_os gateway_platform told name 0 2
      {s = record { shared = withdrawn; pc = before_last }} {t = after_last} {u = late_write}
      approved_status refl refl (pick 0 active_cleared) after_last_calm written_late refl refl
