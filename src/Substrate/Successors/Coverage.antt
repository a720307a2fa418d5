-- ===== src/Substrate/Successors/Coverage.antt =====
-- The regression results of a successor and the baseline of its parent:
-- `validate_successor_baseline` of crates/lmml-substrate/src/lifecycle/successor.rs.
use lmml.Base.{
  String, ◌≡◌, ap, true, List, [], ◌∷◌, map, arith, eq_iff, In, here, there, all-In, In-map, ok,
}
use lmml.Base.F64.{le}
use lmml.Base.Text.{mem_text}
use lmml.Substrate.Types.{
  Hash256, BaselineCase, BaselineManifest, RegressionResult, SuccessorManifest,
}
use lmml.Base.Members.{mem_text_member}
use lmml.Substrate.Platform.{Platform}
use lmml.Substrate.Successors.{validate_successor_manifest}
use lmml.Substrate.Successors.Binding.{same_set, validate_successor_baseline}
use lmml.Substrate.Successors.Gate.{validate_successor_manifest-IsAdmissible}

map_member : {A : Type 0} (f : A → String) (xs : List A) (x : A) → In x xs → In (f x) (map f xs)
map_member f [] x i = elim i [ ]
map_member f (y ∷ xs) x (here e) = here (ap f e)
map_member f (y ∷ xs) x (there i) = there (map_member f xs x i)

module _ (p : Platform) where
  accepted_sets :
      (successor : SuccessorManifest) (baseline : BaselineManifest) (hash : Hash256)
      → validate_successor_baseline p successor baseline hash ≡ ok tt
      → (validate_successor_manifest p successor ≡ ok tt)
        × (successor.parent_lineage_id ≡ baseline.model_lineage_id)
        × (same_set
              (map (λ (c : BaselineCase). c.case_id) baseline.cases)
              (map (λ (r : RegressionResult). r.case_id) successor.regression)
            ≡ true)
  unfolding validate_successor_baseline
  accepted_sets successor baseline hash h = (
    ground (arith, h),
    (eq_iff successor.parent_lineage_id baseline.model_lineage_id).0 (ground (arith, h)),
    ground (arith, h),
  )

  -- A successor that is accepted against a baseline of its parent has, for every case of the baseline,
  -- a regression result that passed and lies within its limit, and has results for no other case.
  pub validate_successor_baseline-covers :
      (successor : SuccessorManifest) (baseline : BaselineManifest) (hash : Hash256)
      → validate_successor_baseline p successor baseline hash ≡ ok tt
      → (successor.parent_lineage_id ≡ baseline.model_lineage_id)
        × ((c : BaselineCase)
            → In c baseline.cases
            → (r : RegressionResult) × In r successor.regression
              × (c.case_id ≡ r.case_id)
              × (r.passed ≡ true)
              × (le r.delta r.maximum_degradation ≡ true))
        × ((r : RegressionResult)
            → In r successor.regression
            → (c : BaselineCase) × In c baseline.cases × (r.case_id ≡ c.case_id))
  unfolding same_set
  validate_successor_baseline-covers successor baseline hash h =
      let (valid, parent, sets) = accepted_sets successor baseline hash h in
      let (a, b, d, e, g, passing) = validate_successor_manifest-IsAdmissible p successor valid in
      (
        parent,
        (λ c i.
            let ids =
              all-In (λ x. mem_text x result_ids) case_ids (ground (arith, sets)) c.case_id
                (map_member (λ (c : BaselineCase). c.case_id) baseline.cases c i) in
            let (r, j, same) =
              In-map (λ (r : RegressionResult). r.case_id) successor.regression c.case_id
                (mem_text_member c.case_id result_ids ids) in
            let (passed, within) = passing r j in (r, j, same, passed, within)),
        (λ r i.
            let ids =
              all-In (λ y. mem_text y case_ids) result_ids (ground (arith, sets)) r.case_id
                (map_member (λ (r : RegressionResult). r.case_id) successor.regression r i) in
            In-map (λ (c : BaselineCase). c.case_id) baseline.cases r.case_id
              (mem_text_member r.case_id case_ids ids)),
      )
    where
      case_ids : List String
      case_ids = map (λ (c : BaselineCase). c.case_id) baseline.cases

      result_ids : List String
      result_ids = map (λ (r : RegressionResult). r.case_id) successor.regression
