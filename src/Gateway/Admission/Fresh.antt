-- ===== src/Gateway/Admission/Fresh.antt =====
-- What an approval by `GatewayAdmission::status` of crates/lmml-gateway/src/lib.rs rests on.
use lmml.Base.{
  ℕ, String, ◌≡◌, refl, subst, ◌≢◌, Bool, true, false, Option, none, some, List, [], ◌∷◌, ◌++◌, eqb,
  if◌then◌else◌, Result, ok, err, In, here, append_right,
}
use lmml.Substrate.Errors.{SubstrateError}
use lmml.Substrate.Disk.{Os, World}
use lmml.Substrate.Approval.Types.{AdmissionState, AdmissionStatus}
use lmml.Substrate.Approval.Platform.{ApprovalPlatform}
use lmml.Gateway.Store.{ApprovalStore, read_status}
use lmml.Gateway.Verified.{Verified, read_status-Verified}
use lmml.Gateway.Admission.{
  GatewayAdmission, Caller, status_call, activate_call, Pc, read_files, write_status, read_active,
  answered, set_active, not_activated, blocked, is_approved, refreshed, after_store, after_status,
  answer, System, quiet, Move, begin, begin_revoke, store_taken, files_read, task_failed,
  status_written, status_read, active_read, active_set, store_cleared, revoked_set, active_cleared,
  Step, pick, Reach, start, later,
}

module _ (os : Os) (p : ApprovalPlatform) (to_string : SubstrateError → String)
    (name : AdmissionState → String) (initial : GatewayAdmission) where
  -- The files showed the approval at some reading.
  abbrev Shown : List World → Type 0
  Shown worlds =
      (store : ApprovalStore) × (initial.store ≡ some store)
      × (w : World) × In w worlds
      × Verified os p store w.disk

  abbrev Trusted : List World → AdmissionStatus → Type 0
  Trusted worlds status = status.state ≡ AdmissionState.approved → Shown worlds

  abbrev Holds : List World → Pc → Type 0
  Holds worlds (read_files caller store) = initial.store ≡ some store
  Holds worlds (write_status caller status) = Trusted worlds status
  Holds worlds (read_active status) = Trusted worlds status
  Holds worlds (answered status) = Trusted worlds status
  Holds worlds _ = Unit {0}

  record Inv (worlds : List World) (s : System) : Type 0 where
    status : Trusted worlds s.shared.status
    store : (st : ApprovalStore) → s.shared.store ≡ some st → initial.store ≡ some st
    calls : (i : ℕ) → Holds worlds (s.pc i)

  more_Trusted :
      (now before : List World) (status : AdmissionStatus)
      → Trusted before status
      → Trusted (now ++ before) status
  more_Trusted now before status h e =
      let (store, named, w, read, shown) = h e in
      (store, named, w, append_right now before w read, shown)

  more_Holds : (now before : List World) (pc : Pc) → Holds before pc → Holds (now ++ before) pc
  more_Holds now before (read_files caller store) h = h
  more_Holds now before (write_status caller status) h = more_Trusted now before status h
  more_Holds now before (read_active status) h = more_Trusted now before status h
  more_Holds now before (answered status) h = more_Trusted now before status h
  more_Holds now before _ h = tt

  untrusted :
      (worlds : List World) (status : AdmissionStatus)
      → is_approved status.state ≡ false
      → Trusted worlds status
  untrusted worlds status h e = absurd (differ status.state h e)
    where
      differ :
          (state : AdmissionState) → is_approved state ≡ false → state ≡ AdmissionState.approved → ⊥
      differ AdmissionState.approved h e = cc
      differ AdmissionState.unknown h e = cc
      differ AdmissionState.extracted h e = cc
      differ AdmissionState.needs_review h e = cc
      differ AdmissionState.rejected h e = cc
      differ AdmissionState.blocked h e = cc
      differ AdmissionState.revoked h e = cc
      differ AdmissionState.invalidated h e = cc
      differ AdmissionState.runtime_verified h e = cc

  refreshed-Trusted :
      (store : ApprovalStore) (w : World) (before : List World)
      → initial.store ≡ some store
      → Trusted (w ∷ before) (refreshed "" (some (read_status os p to_string store w).0))
  unfolding refreshed
  refreshed-Trusted store w before named = of_answer (read_status os p to_string store w).0 refl
    where
      of_answer :
          (r : Result String AdmissionStatus)
          → (read_status os p to_string store w).0 ≡ r
          → Trusted (w ∷ before) (refreshed "" (some r))
      of_answer (ok status) e h =
          (store, named, w, here refl, read_status-Verified os p to_string store w status e h)
      of_answer (err reason) e h = untrusted (w ∷ before) (refreshed "" (some (err reason))) refl h

  answer-Trusted :
      (active : Bool) (worlds : List World) (status : AdmissionStatus)
      → Trusted worlds status
      → Trusted worlds (answer active status)
  unfolding answer
  answer-Trusted true worlds status h = h
  answer-Trusted false worlds status h = hidden (is_approved status.state) refl
    where
      hidden :
          (b : Bool)
          → is_approved status.state ≡ b
          → Trusted worlds (if b then blocked "post-load verification pending" else status)
      hidden true e = untrusted worlds (blocked "post-load verification pending") refl
      hidden false e = h

  -- What one access leaves of the invariant.
  record Kept (worlds : List World) (m : GatewayAdmission) (pc : Pc) : Type 0 where
    kept_status : Trusted worlds m.status
    kept_store : (st : ApprovalStore) → m.store ≡ some st → initial.store ≡ some st
    kept_call : Holds worlds pc

  after_store-Holds :
      (worlds : List World) (caller : Caller) (o : Option ApprovalStore)
      → ((st : ApprovalStore) → o ≡ some st → initial.store ≡ some st)
      → Holds worlds (after_store caller o)
  after_store-Holds worlds caller none h = tt
  after_store-Holds worlds caller (some st) h = h st refl

  after_status-Holds :
      (worlds : List World) (caller : Caller) (status : AdmissionStatus)
      → Trusted worlds status
      → Holds worlds (after_status name caller status)
  after_status-Holds worlds status_call status h = h
  after_status-Holds worlds activate_call status h = chosen (is_approved status.state) _
    where
      chosen :
          (b : Bool) (message : String)
          → Holds worlds (if b then set_active else not_activated message)
      chosen true message = tt
      chosen false message = tt

  same_fields :
      {worlds : List World} {m : GatewayAdmission} {pc pc' : Pc}
      → Kept worlds m pc
      → Holds worlds pc'
      → Kept worlds m pc'
  same_fields k call = record {
    kept_status = k.kept_status;
    kept_store = k.kept_store;
    kept_call = call;
  }

  Move-Kept :
      {m m' : GatewayAdmission} {pc pc' : Pc} {now : List World} (before : List World)
      → Move os p to_string name m pc now m' pc'
      → Kept before m pc
      → Kept (now ++ before) m' pc'
  unfolding refreshed
  Move-Kept before (begin caller) k = same_fields k tt
  Move-Kept before (begin_revoke reason) k = same_fields k tt
  Move-Kept {m} before (store_taken {caller}) k =
      same_fields k (after_store-Holds before caller m.store k.kept_store)
  Move-Kept {m} before (files_read {caller} {store} w) k = record {
    kept_status = more_Trusted (w ∷ []) before m.status k.kept_status;
    kept_store = k.kept_store;
    kept_call = refreshed-Trusted store w before k.kept_call;
  }
  Move-Kept before (task_failed join_error) k =
      same_fields k (untrusted before (refreshed join_error none) refl)
  Move-Kept before status_written k = record {
    kept_status = k.kept_call;
    kept_store = k.kept_store;
    kept_call = tt;
  }
  Move-Kept {m} before (status_read {caller}) k =
      same_fields k (after_status-Holds before caller m.status k.kept_status)
  Move-Kept {m} before (active_read {status}) k =
      same_fields k (answer-Trusted m.active before status k.kept_call)
  Move-Kept before active_set k = record {
    kept_status = k.kept_status;
    kept_store = k.kept_store;
    kept_call = tt;
  }
  Move-Kept before store_cleared k = record {
    kept_status = k.kept_status;
    kept_store = λ st e. cc;
    kept_call = tt;
  }
  Move-Kept before (revoked_set {reason}) k = record {
    kept_status =
        untrusted before (record { state = AdmissionState.revoked; reason = reason }) refl;
    kept_store = k.kept_store;
    kept_call = tt;
  }
  Move-Kept before active_cleared k = record {
    kept_status = k.kept_status;
    kept_store = k.kept_store;
    kept_call = tt;
  }

  Step-Inv :
      {before now : List World} {s t : System}
      → Inv before s
      → Step os p to_string name s now t
      → Inv (now ++ before) t
  Step-Inv {before} {now} {s} inv (pick i {worlds} {m} {pc} move) = record {
    status = kept.kept_status;
    store = kept.kept_store;
    calls = λ j. other j (eqb i j);
  }
    where
      kept : Kept (worlds ++ before) m pc
      kept =
          Move-Kept before move
            (record { kept_status = inv.status; kept_store = inv.store; kept_call = inv.calls i })

      other : (j : ℕ) (same : Bool) → Holds (worlds ++ before) (if same then pc else s.pc j)
      other j true = kept.kept_call
      other j false = more_Holds worlds before (s.pc j) (inv.calls j)

  Reach-Inv :
      {worlds : List World} {s : System}
      → (initial.status.state ≡ AdmissionState.approved → ⊥)
      → Reach os p to_string name (quiet initial) worlds s
      → Inv worlds s
  Reach-Inv blocked_first start = record {
    status = λ e. absurd (blocked_first e);
    store = λ st e. e;
    calls = λ i. tt;
  }
  Reach-Inv blocked_first (later r step) = Step-Inv (Reach-Inv blocked_first r) step

  -- Where the first status does not approve: whatever calls interleave and however, `status`
  -- answers with an approval only after the files of the store, as they were at some reading during
  -- the run, held a receipt that is signed, approves the identities of the store and is not
  -- revoked.
  pub status-Verified :
      {worlds : List World} {s : System} (i : ℕ) (status : AdmissionStatus)
      → initial.status.state ≢ AdmissionState.approved
      → Reach os p to_string name (quiet initial) worlds s
      → s.pc i ≡ answered status
      → status.state ≡ AdmissionState.approved
      → (store : ApprovalStore) × (initial.store ≡ some store)
        × (w : World) × In w worlds
        × Verified os p store w.disk
  status-Verified {worlds} i status blocked_first r at approved =
      subst (Holds worlds) at ((Reach-Inv blocked_first r).calls i) approved
