-- ===== src/Gateway/Admission/Revoked.antt =====
-- What `GatewayAdmission::revoke` of crates/lmml-gateway/src/lib.rs stops.
use lmml.Base.{
  ℕ, String, ◌≡◌, refl, ap, sym, subst, ◌∙◌, ◌⊎◌, inl, inr, Bool, true, false, Option, none, some,
  List, eqb, if◌then◌else◌, arith,
}
use lmml.Substrate.Errors.{SubstrateError}
use lmml.Substrate.Disk.{Os, World}
use lmml.Substrate.Approval.Types.{AdmissionState, AdmissionStatus}
use lmml.Substrate.Approval.Platform.{ApprovalPlatform}
use lmml.Gateway.Store.{ApprovalStore}
use lmml.Gateway.Admission.{
  GatewayAdmission, Caller, status_call, activate_call, Pc, take_store, read_files, write_status,
  read_shared, answered, set_active, clear_active, revoked, blocked, is_approved, after_store,
  after_status, answer, System, Move, begin, begin_revoke, store_taken, files_read, task_failed,
  status_written, status_read, active_read, active_set, store_cleared, revoked_set, active_cleared,
  Step, pick,
}

abbrev activates : Caller → Bool
activates status_call = false
activates activate_call = true

-- A call of `activate_if_approved` that is under way.
abbrev pub is_activating : Pc → Bool
is_activating (take_store caller) = activates caller
is_activating (read_files caller store) = activates caller
is_activating (write_status caller status) = activates caller
is_activating (read_shared caller) = activates caller
is_activating set_active = true
is_activating _ = false

abbrev Denies : Pc → Type 0
Denies (answered status) = is_approved status.state ≡ false
Denies _ = Unit {0}

module _ (os : Os) (p : ApprovalPlatform) (to_string : SubstrateError → String)
    (name : AdmissionState → String) where
  -- Steps after which no activation is under way.
  pub data Passive (s : System) : System → Type 0 where
    still : Passive s s
    further :
        {worlds : List World} {t u : System}
        → Passive s t
        → Step os p to_string name t worlds u
        → ((i : ℕ) → is_activating (u.pc i) ≡ false)
        → Passive s u

  after_store-Denies : (caller : Caller) (o : Option ApprovalStore) → Denies (after_store caller o)
  after_store-Denies caller none = tt
  after_store-Denies caller (some store) = tt

  after_status-Denies :
      (caller : Caller) (status : AdmissionStatus)
      → activates caller ≡ false
      → Denies (after_status name caller status)
  after_status-Denies status_call status h = tt
  after_status-Denies activate_call status h = cc

  answer-Denies : (status : AdmissionStatus) → is_approved (answer false status).state ≡ false
  unfolding answer
  answer-Denies status = hidden (is_approved status.state) refl
    where
      hidden :
          (b : Bool)
          → is_approved status.state ≡ b
          → is_approved (if b then blocked "post-load verification pending" else status).state
            ≡ false
      hidden true e = refl
      hidden false e = e

  Move-inactive :
      {m m' : GatewayAdmission} {pc pc' : Pc} {now : List World}
      → Move os p to_string name m pc now m' pc'
      → m.active ≡ false
      → is_activating pc ≡ false
      → (m'.active ≡ false) × Denies pc'
  Move-inactive (begin caller) off calm = (off, tt)
  Move-inactive (begin_revoke reason) off calm = (off, tt)
  Move-inactive {m} (store_taken {caller}) off calm = (off, after_store-Denies caller m.store)
  Move-inactive (files_read w) off calm = (off, tt)
  Move-inactive (task_failed join_error) off calm = (off, tt)
  Move-inactive status_written off calm = (off, tt)
  Move-inactive {m} (status_read {caller}) off calm =
      (off, after_status-Denies caller m.status calm)
  Move-inactive (active_read {status}) off calm = (off, rw off (answer-Denies status))
  Move-inactive active_set off calm = cc
  Move-inactive store_cleared off calm = (off, tt)
  Move-inactive revoked_set off calm = (off, tt)
  Move-inactive active_cleared off calm = (refl, tt)

  -- The last access of a revocation.
  Move-clears :
      {m m' : GatewayAdmission} {pc pc' : Pc} {now : List World}
      → Move os p to_string name m pc now m' pc'
      → pc ≡ clear_active
      → m'.active ≡ false
  Move-clears (begin caller) e = cc
  Move-clears (begin_revoke reason) e = cc
  Move-clears store_taken e = cc
  Move-clears (files_read w) e = cc
  Move-clears (task_failed join_error) e = cc
  Move-clears status_written e = cc
  Move-clears status_read e = cc
  Move-clears active_read e = cc
  Move-clears active_set e = cc
  Move-clears store_cleared e = cc
  Move-clears revoked_set e = cc
  Move-clears active_cleared e = refl

  unfinished : clear_active ≡ revoked → ⊥
  unfinished h = cc

  contradictory : {b : Bool} → b ≡ true → b ≡ false → ⊥
  contradictory h k = cc

  record Inv (s u : System) : Type 0 where
    inactive : u.shared.active ≡ false
    calm : (i : ℕ) → is_activating (u.pc i) ≡ false
    calls : (i : ℕ) → Denies (u.pc i) ⊎ (u.pc i ≡ s.pc i)

  Passive-Inv :
      {s u : System}
      → s.shared.active ≡ false
      → ((i : ℕ) → is_activating (s.pc i) ≡ false)
      → Passive s u
      → Inv s u
  Passive-Inv off calm still = record { inactive = off; calm = calm; calls = λ i. inr refl }
  Passive-Inv {s} off calm (further {t = t} r (pick i {pc = pc} move) after) =
      let inv = Passive-Inv off calm r in
      let (inactive, denies) = Move-inactive move inv.inactive (inv.calm i) in
      record {
        inactive = inactive;
        calm = after;
        calls = λ j. other j denies (inv.calls j) (eqb i j);
      }
    where
      other :
          (j : ℕ)
          → Denies pc
          → Denies (t.pc j) ⊎ (t.pc j ≡ s.pc j)
          → (same : Bool)
          → Denies (if same then pc else t.pc j) ⊎ ((if same then pc else t.pc j) ≡ s.pc j)
      other j denies before true = inl denies
      other j denies before false = before

  Step-clears :
      (i : ℕ) {worlds : List World} {s t : System}
      → s.pc i ≡ clear_active
      → t.pc i ≡ revoked
      → Step os p to_string name s worlds t
      → t.shared.active ≡ false
  Step-clears i {s = s} last done (pick k {m = m} {pc = pc} move) = by_index (eqb k i) refl done
    where
      by_index :
          (same : Bool)
          → eqb k i ≡ same
          → (if same then pc else s.pc i) ≡ revoked
          → m.active ≡ false
      by_index true e h =
          Move-clears move (subst (λ n. s.pc n ≡ clear_active) (sym (ground (arith, e))) last)
      by_index false e h = absurd (unfinished (sym last ∙ h))

  -- From the state that the last access of a revocation leaves, and while no call of
  -- `activate_if_approved` is under way: whatever other calls were under way or begin, and however
  -- they interleave, no call of `status` answers with an approval that it had not answered before.
  pub revoke-stops :
      (i j : ℕ) {worlds : List World} {s t u : System} (status : AdmissionStatus)
      → s.pc i ≡ clear_active
      → t.pc i ≡ revoked
      → Step os p to_string name s worlds t
      → ((k : ℕ) → is_activating (t.pc k) ≡ false)
      → Passive t u
      → u.pc j ≡ answered status
      → status.state ≡ AdmissionState.approved
      → t.pc j ≡ answered status
  revoke-stops i j {t = t} {u = u} status last done step calm run at approved =
      of_call ((Passive-Inv (Step-clears i last done step) calm run).calls j)
    where
      of_call : Denies (u.pc j) ⊎ (u.pc j ≡ t.pc j) → t.pc j ≡ answered status
      of_call (inl denies) =
          absurd (contradictory (ap is_approved approved) (subst Denies at denies))
      of_call (inr same) = sym same ∙ at
