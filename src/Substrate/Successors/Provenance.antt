-- ===== src/Substrate/Successors/Provenance.antt =====
-- The chain of records behind an admitted successor: the checks between two records of
-- crates/lmml-substrate/src/lifecycle.rs and of src/lifecycle/successor.rs, taken together.
use lmml.Base.{ℕ, String, ◌≤◌, ◌≡◌, arith, ok, err, some, eq_iff, ◌∙◌, inl, inr, Result-cases}
use lmml.Substrate.Types.{
  SuccessorManifest, SuccessorCandidateManifest, TrainingRunManifest, TrainingAuthorizationManifest,
}
use lmml.Substrate.Errors.{SubstrateError}
use lmml.Substrate.Platform.{Platform}
use lmml.Substrate.Checks.{parse_timestamp}
use lmml.Substrate.Training.{validate_training_run_against_authorization}
use lmml.Substrate.Successors.Binding.{
  validate_candidate_against_training, validate_successor_admission,
}

module _ (p : Platform) where
  -- The second of two times is not the earlier one.
  abbrev pub Follows : String → String → Type 0
  Follows earlier later =
      (a : ℕ) × (b : ℕ) × (p.rfc3339 earlier ≡ some a) × (p.rfc3339 later ≡ some b) × (a ≤ b)

  follows :
      (earlier later : String)
      → (a b : ℕ) → parse_timestamp p earlier ≡ ok a
      → parse_timestamp p later ≡ ok b
      → a ≤ b
      → Follows earlier later
  unfolding parse_timestamp
  follows earlier later a b e f o = (a, b, ground (arith, e), ground (arith, f), o)

  -- Both times can be read, where neither failure is what happened.
  both_times :
      (s t : String)
      → ((x : SubstrateError) → parse_timestamp p s ≡ err x → ⊥)
      → ((a : ℕ) (x : SubstrateError)
          → parse_timestamp p s ≡ ok a
          → parse_timestamp p t ≡ err x
          → ⊥)
      → (a : ℕ) × (b : ℕ) × (parse_timestamp p s ≡ ok a) × (parse_timestamp p t ≡ ok b)
  both_times s t no_first no_second = elim (Result-cases (parse_timestamp p s)) [
    | inr (x, e) ↦ absurd (no_first x e)
    | inl (a, e) ↦ elim (Result-cases (parse_timestamp p t)) [
      | inr (x, f) ↦ absurd (no_second a x e f)
      | inl (b, f) ↦ (a, b, e, f)
    ]
  ]

  run_step :
      (authorization : TrainingAuthorizationManifest) (run : TrainingRunManifest)
      → validate_training_run_against_authorization p run authorization ≡ ok tt
      → (run.base_lineage_id ≡ authorization.base_lineage_id)
        × (run.authorization_id ≡ authorization.authorization_id)
        × Follows authorization.created_at run.created_at
  unfolding validate_training_run_against_authorization
  run_step authorization run h =
      let (a, b, e, f) =
        both_times authorization.created_at run.created_at (λ x e. ground (arith, e, h))
          (λ a x e f. ground (arith, e, f, h)) in
      (
        (eq_iff run.base_lineage_id authorization.base_lineage_id).0 (ground (arith, h)),
        (eq_iff run.authorization_id authorization.authorization_id).0 (ground (arith, h)),
        follows _ _ a b e f (ground (arith, e, f, h)),
      )

  candidate_step :
      (run : TrainingRunManifest) (candidate : SuccessorCandidateManifest)
      → validate_candidate_against_training p candidate run ≡ ok tt
      → (candidate.parent_lineage_id ≡ run.base_lineage_id)
        × (candidate.training_run_id ≡ run.training_run_id)
        × Follows run.created_at candidate.created_at
  unfolding validate_candidate_against_training
  candidate_step run candidate h =
      let (b, a, f, e) =
        both_times candidate.created_at run.created_at (λ x e. ground (arith, e, h))
          (λ a x e f. ground (arith, e, f, h)) in
      (
        (eq_iff candidate.parent_lineage_id run.base_lineage_id).0 (ground (arith, h)),
        (eq_iff candidate.training_run_id run.training_run_id).0 (ground (arith, h)),
        follows _ _ a b e f (ground (arith, e, f, h)),
      )

  admission_step :
      (candidate : SuccessorCandidateManifest) (successor : SuccessorManifest)
      → validate_successor_admission p successor candidate ≡ ok tt
      → (successor.parent_lineage_id ≡ candidate.parent_lineage_id)
        × (successor.training_run_id ≡ candidate.training_run_id)
        × Follows candidate.created_at successor.admitted_at
  unfolding validate_successor_admission
  admission_step candidate successor h =
      let (b, a, f, e) =
        both_times successor.admitted_at candidate.created_at (λ x e. ground (arith, e, h))
          (λ a x e f. ground (arith, e, f, h)) in
      (
        (eq_iff successor.parent_lineage_id candidate.parent_lineage_id).0 (ground (arith, h)),
        (eq_iff successor.training_run_id candidate.training_run_id).0 (ground (arith, h)),
        follows _ _ a b e f (ground (arith, e, f, h)),
      )

  -- Where each record was accepted against the one before it, the successor descends from the lineage
  -- that the training was authorized for, it names the run that the authorization allowed, and the
  -- four records were made in this order: authorization, run, candidate, admission.
  pub provenance_chain :
      (authorization : TrainingAuthorizationManifest) (run : TrainingRunManifest)
      (candidate : SuccessorCandidateManifest) (successor : SuccessorManifest)
      → validate_training_run_against_authorization p run authorization ≡ ok tt
      → validate_candidate_against_training p candidate run ≡ ok tt
      → validate_successor_admission p successor candidate ≡ ok tt
      → (successor.parent_lineage_id ≡ authorization.base_lineage_id)
        × (successor.training_run_id ≡ run.training_run_id)
        × (run.authorization_id ≡ authorization.authorization_id)
        × Follows authorization.created_at run.created_at
        × Follows run.created_at candidate.created_at
        × Follows candidate.created_at successor.admitted_at
  provenance_chain authorization run candidate successor x y z =
      let (r1, r2, r3) = run_step authorization run x in
      let (c1, c2, c3) = candidate_step run candidate y in
      let (s1, s2, s3) = admission_step candidate successor z in
      (s1 ∙ (c1 ∙ r1), s2 ∙ c2, r2, r3, c3, s3)
