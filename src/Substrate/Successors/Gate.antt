-- ===== src/Substrate/Successors/Gate.antt =====
-- The gate of a successor: what `validate_successor_manifest` of
-- crates/lmml-substrate/src/lifecycle.rs asks of the merge and of the regression results.
use lmml.Base.{
  String, true, false, ◌≡◌, ◌≢◌, refl, arith, ok, List, [], ◌∷◌, In, here, there, Pairwise, eq_iff,
  sym,
}
use lmml.Base.F64.{F64, lt, le, is_finite}
use lmml.Base.Text.{mem_text}
use lmml.Substrate.Types.{SuccessorManifest, RegressionResult}
use lmml.Substrate.Platform.{Platform}
use lmml.Substrate.Checks.Inventory.{mem_text-In}
use lmml.Substrate.Successors.{
  check_regression, check_regressions, validate_metrics, validate_successor_manifest,
}

-- Two finite floats are comparable.
le_of_not_lt :
    (x y : F64) → is_finite x ≡ true → is_finite y ≡ true → lt y x ≡ false → le x y ≡ true
unfolding lt le is_finite
le_of_not_lt x y a b h = ground arith

check_regression-ok :
    (r : RegressionResult)
    → check_regression r ≡ ok tt
    → (r.passed ≡ true) × (le r.delta r.maximum_degradation ≡ true)
unfolding check_regression
check_regression-ok r h = ground arith

check_regressions-ok :
    (seen : List String) (results : List RegressionResult)
    → check_regressions seen results ≡ ok tt
    → Pairwise (λ (a b : RegressionResult). a.case_id ≢ b.case_id) results
      × ((a : String) (b : RegressionResult) → In a seen → In b results → a ≢ b.case_id)
      × ((r : RegressionResult) → In r results → check_regression r ≡ ok tt)
unfolding check_regressions
check_regressions-ok seen [] h = (tt, (λ a b i j. elim j [ ]), λ a i. elim i [ ])
check_regressions-ok seen (result ∷ rest) h =
    let (apart, unseen, each) =
      check_regressions-ok (result.case_id ∷ seen) rest (ground (arith, h)) in
    let new : mem_text result.case_id seen ≡ false = ground (arith, h) in
    (
      ((λ b j. unseen result.case_id b (here refl) j), apart),
      (λ a b i j. fresh a b i j new unseen),
      (λ a i. one a i (ground (arith, h)) each),
    )
  where
    fresh :
        (a : String) (b : RegressionResult)
        → In a seen
        → In b (result ∷ rest)
        → mem_text result.case_id seen ≡ false
        → ((a : String) (b : RegressionResult)
            → In a (result.case_id ∷ seen)
            → In b rest
            → a ≢ b.case_id)
        → a ≢ b.case_id
    fresh a b i (here e) new unseen =
        rw e (λ same. mem_text-In result.case_id seen new a i (sym same))
    fresh a b i (there j) new unseen = unseen a b (there i) j

    one :
        (a : RegressionResult)
        → In a (result ∷ rest)
        → check_regression result ≡ ok tt
        → ((a : RegressionResult) → In a rest → check_regression a ≡ ok tt)
        → check_regression a ≡ ok tt
    one a (here e) first others = rw e first
    one a (there i) first others = others a i

module _ (p : Platform) where
  -- An admitted successor is not its own parent, its merge changed a tensor and stayed within the
  -- tolerance of the equivalence check, and it has regression results, no two of one case, all of
  -- which passed and lie within their limit.
  pub validate_successor_manifest-IsAdmissible :
      (m : SuccessorManifest)
      → validate_successor_manifest p m ≡ ok tt
      → (m.successor_lineage_id ≢ m.parent_lineage_id)
        × (m.merge_delta.changed_tensor_count ≢ 0)
        × (le m.equivalence_max_absolute_delta m.equivalence_tolerance ≡ true)
        × (m.regression ≢ [])
        × Pairwise (λ (a b : RegressionResult). a.case_id ≢ b.case_id) m.regression
        × ((r : RegressionResult)
            → In r m.regression
            → (r.passed ≡ true) × (le r.delta r.maximum_degradation ≡ true))
  unfolding validate_successor_manifest validate_metrics
  validate_successor_manifest-IsAdmissible m h =
      let (apart, unseen, each) = check_regressions-ok [] m.regression (ground (arith, h)) in
      (
        ground (arith, h, eq_iff m.successor_lineage_id m.parent_lineage_id),
        ground (arith, h),
        le_of_not_lt m.equivalence_max_absolute_delta m.equivalence_tolerance (ground (arith, h))
            (ground (arith, h)) (ground (arith, h)),
        (λ e. ground (arith, h, e)),
        apart,
        (λ r i. check_regression-ok r (each r i)),
      )
