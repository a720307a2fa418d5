-- ===== src/Substrate/Approval/Stores/Monotone.antt =====
-- The anchor never moves backwards, whatever the stores of crates/lmml-substrate/src/approval.rs are
-- given and whatever fails.
use lmml.Base
use lmml.Base.{
  ℕ, ◌-◌, ◌/◌, ◌≤◌, ◌≡◌, refl, ◌≢◌, inl, inr, false, not, some, List, [], ◌∷◌, arith, ltb,
  Bool-cases, any, there, All,
}
use lmml.Base.Decimal.{max_u64}
use lmml.Substrate.Types.{FilePath}
use lmml.Substrate.Errors.{not_found, approval_conflict, revocation_conflict}
use lmml.Substrate.Disk.{Bytes, Disk, Os, World, lift, attempt}
use lmml.Substrate.Disk.Chains.{Ensures, Ensures-lift, Ensures-bind}
use lmml.Substrate.Approval.Types.{ApprovalReceipt, RevocationState, ApprovalTrustRoot}
use lmml.Substrate.Approval.Platform.{ApprovalPlatform}
use lmml.Substrate.Approval.Files.Leaves.{Leaves-lift, Leaves-attempt, Leaves-persist_immutable}
use lmml.Substrate.Approval.Anchor.{anchor_of, read_anchor, with_tmp, write_anchor}
use lmml.Substrate.Approval.Anchor.Floor.{
  AtLeast, AtLeast-trans, AnchorFrom, both_ways, leaving, read_anchor-known, write_anchor-Reached,
  guarded,
}
use lmml.Substrate.Approval.Files.{persist_immutable}
use lmml.Substrate.Approval.Signing.{
  verify_revocation_state, verify_approval_receipt, canonical_json,
}
use lmml.Substrate.Approval.Stores.{
  last_sequence, is_older, is_below, epoch_of, older_state, older_receipt, receipt_path, epoch_path,
  store_approval_receipt, store_revocation_state,
}

not_older :
    (anchor : ℕ × ℕ) (epoch sequence : ℕ)
    → is_older epoch sequence (some anchor) ≡ false
    → AtLeast anchor (epoch, sequence)
not_older anchor epoch sequence h = elim (Bool-cases (ltb anchor.0 epoch)) [
  | inl f ↦ inl (ground arith)
  | inr f ↦ inr (ground arith, ground arith)
]

module _ (os : Os) (path : FilePath) (bytes : Bytes) (anchor : ℕ × ℕ)
    (reads : anchor_of path (Base.ok bytes) ≡ Base.ok (some anchor)) (limit : anchor.0 ≤ max_u64)
    (honest : (n : ℕ) → os.read_fault n ≢ some not_found) where
  module _ (p : ApprovalPlatform) (trust_root : ApprovalTrustRoot)
      (apart : with_tmp path ≢ path) where
    store_revocation_state-Reached :
        (root : FilePath) (state : RevocationState) (w : World)
        → epoch_path root state ≢ path
        → state.epoch ≤ max_u64
        → last_sequence state ≤ max_u64
        → w.disk path ≡ some bytes
        → Ensures
            (λ a w'. AnchorFrom path anchor w'.disk)
            (λ w'. AnchorFrom path anchor w'.disk)
            (store_revocation_state os p root path state trust_root w)
    unfolding store_revocation_state
    store_revocation_state-Reached root state w elsewhere small small' e =
        Ensures-bind (lift (verify_revocation_state p state trust_root)) _ w
          (leaving os path bytes anchor reads limit honest _ w (Leaves-lift _) e)
          λ a w1 e1.
            Ensures-bind (read_anchor os path) _ w1
              (read_anchor-known os path bytes anchor reads limit honest w1 e1)
              λ read w2 e2.
                Ensures-bind
                  (lift
                    (Base.reject_if (is_older state.epoch (last_sequence state) read) older_state))
                  _ w2
                  (guarded os path bytes anchor reads limit honest
                    (is_older state.epoch (last_sequence state)) older_state read w2 e2)
                  λ b w3 e3.
                    Ensures-bind (attempt os root) _ w3
                      (leaving os path bytes anchor reads limit honest _ w3 (Leaves-attempt os root)
                        e3.1)
                      λ c w4 e4.
                        Ensures-bind (lift (canonical_json p p.revocation_codec state)) _ w4
                          (leaving os path bytes anchor reads limit honest _ w4 (Leaves-lift _) e4)
                          λ payload w5 e5.
                            Ensures-bind
                              (persist_immutable os (epoch_path root state) payload
                                revocation_conflict)
                              _ w5
                              (leaving os path bytes anchor reads limit honest _ w5
                                (Leaves-persist_immutable os (epoch_path root state) path elsewhere
                                  payload revocation_conflict)
                                e5)
                              λ d w6 e6.
                                Ensures-bind
                                  (write_anchor os path state.epoch (last_sequence state)) _ w6
                                  (write_anchor-Reached os path bytes anchor reads limit honest
                                    state.epoch (last_sequence state) w6 apart small small'
                                    (not_older anchor state.epoch (last_sequence state) e3.0) e6)
                                  λ f w7 e7. Ensures-lift _ w7 (λ x h. e7) e7

    store_approval_receipt-Reached :
        (root : FilePath) (receipt : ApprovalReceipt) (w : World)
        → receipt_path root receipt ≢ path
        → receipt.sequence ≤ max_u64
        → w.disk path ≡ some bytes
        → Ensures
            (λ a w'. AnchorFrom path anchor w'.disk)
            (λ w'. AnchorFrom path anchor w'.disk)
            (store_approval_receipt os p root path receipt trust_root w)
    unfolding store_approval_receipt
    store_approval_receipt-Reached root receipt w elsewhere small' e =
        Ensures-bind (lift (verify_approval_receipt p receipt trust_root)) _ w
          (leaving os path bytes anchor reads limit honest _ w (Leaves-lift _) e)
          λ a w1 e1.
            Ensures-bind (read_anchor os path) _ w1
              (read_anchor-known os path bytes anchor reads limit honest w1 e1)
              λ read w2 e2.
                Ensures-bind
                  (lift
                    (Base.reject_if (is_below receipt.sequence read) (older_receipt receipt read)))
                  _ w2
                  (guarded os path bytes anchor reads limit honest (is_below receipt.sequence)
                    (older_receipt receipt read) read w2 e2)
                  λ b w3 e3.
                    Ensures-bind (attempt os root) _ w3
                      (leaving os path bytes anchor reads limit honest _ w3 (Leaves-attempt os root)
                        e3.1)
                      λ c w4 e4.
                        Ensures-bind (lift (canonical_json p p.receipt_codec receipt)) _ w4
                          (leaving os path bytes anchor reads limit honest _ w4 (Leaves-lift _) e4)
                          λ payload w5 e5.
                            Ensures-bind
                              (persist_immutable os (receipt_path root receipt) payload
                                approval_conflict)
                              _ w5
                              (leaving os path bytes anchor reads limit honest _ w5
                                (Leaves-persist_immutable os (receipt_path root receipt) path
                                  elsewhere payload approval_conflict)
                                e5)
                              λ d w6 e6.
                                Ensures-bind (read_anchor os path) _ w6
                                  (read_anchor-known os path bytes anchor reads limit honest w6 e6)
                                  λ current w7 e7.
                                    Ensures-bind
                                      (write_anchor os path (epoch_of current) receipt.sequence) _
                                      w7
                                      (rw e7.0 (
                                        write_anchor-Reached os path bytes anchor reads limit honest
                                          anchor.0 receipt.sequence w7 apart limit small'
                                          (inr (refl, ground (arith, e3.0))) e7.1))
                                      λ f w8 e8. Ensures-lift _ w8 (λ x h. e8) e8

-- A call of one of the two stores.
pub data StoreCall : Type 0 where
  store_receipt : FilePath → ApprovalReceipt → ApprovalTrustRoot → StoreCall
  store_state : FilePath → RevocationState → ApprovalTrustRoot → StoreCall

-- The numbers fit 64 bits, and the record has another path than the anchor.
abbrev pub Fits : FilePath → StoreCall → Type 0
Fits path (store_receipt root receipt trust_root) =
    (receipt_path root receipt ≢ path) × (receipt.sequence ≤ max_u64)
Fits path (store_state root state trust_root) =
    (epoch_path root state ≢ path) × (state.epoch ≤ max_u64) × (last_sequence state ≤ max_u64)

module _ (os : Os) (p : ApprovalPlatform) (path : FilePath) where
  unfoldable pub step : World → StoreCall → World
  step w (store_receipt root receipt trust_root) =
      (store_approval_receipt os p root path receipt trust_root w).1
  step w (store_state root state trust_root) =
      (store_revocation_state os p root path state trust_root w).1

  -- The calls one after the other, whether each succeeds or fails.
  unfoldable pub run : World → List StoreCall → World
  unfolding step
  run w [] = w
  run w (call ∷ calls) = run (step w call) calls

  raise :
      (floor : ℕ × ℕ) (d : Disk) (from : AnchorFrom path floor d) (d' : Disk)
      → AnchorFrom path from.anchor d'
      → AnchorFrom path floor d'
  raise floor d from d' to = record {
    anchor = to.anchor;
    bytes = to.bytes;
    stored = to.stored;
    reads = to.reads;
    fits = to.fits;
    reached = AtLeast-trans floor from.anchor to.anchor from.reached to.reached;
  }

  module _ (honest : (n : ℕ) → os.read_fault n ≢ some not_found)
      (apart : with_tmp path ≢ path) where
    step-AnchorFrom :
        (floor : ℕ × ℕ) (w : World) (call : StoreCall)
        → Fits path call
        → (from : AnchorFrom path floor w.disk) → AnchorFrom path from.anchor (step w call).disk
    unfolding step
    step-AnchorFrom floor w (store_receipt root receipt trust_root) fits from =
        both_ways (λ w'. AnchorFrom path from.anchor w'.disk) _
          (store_approval_receipt-Reached os path from.bytes from.anchor from.reads from.fits honest
            p trust_root apart root receipt w fits.0 fits.1 from.stored)
    step-AnchorFrom floor w (store_state root state trust_root) fits from =
        both_ways (λ w'. AnchorFrom path from.anchor w'.disk) _
          (store_revocation_state-Reached os path from.bytes from.anchor from.reads from.fits honest
            p trust_root apart root state w fits.0 fits.1 fits.2 from.stored)

    run-kept :
        (floor : ℕ × ℕ) (w : World) (calls : List StoreCall)
        → All (Fits path) calls
        → AnchorFrom path floor w.disk
        → AnchorFrom path floor (run w calls).disk
    unfolding run
    run-kept floor w [] fits from = from
    run-kept floor w (call ∷ calls) fits from =
        run-kept floor (step w call) calls fits.1
          (raise floor w.disk from (step w call).disk (step-AnchorFrom floor w call fits.0 from))

-- From an anchor at the floor or above, any calls of the two stores, whether they succeed or fail at
-- any point, leave an anchor at the floor or above. The
-- numbers must fit 64 bits, the files must have other paths than the anchor, and a file that is there
-- must not be reported as missing.
pub run-AnchorFrom :
    (os : Os) (p : ApprovalPlatform) (path : FilePath) (floor : ℕ × ℕ) (w : World)
    (calls : List StoreCall)
    → ((n : ℕ) → os.read_fault n ≢ some not_found)
    → with_tmp path ≢ path
    → All (Fits path) calls
    → AnchorFrom path floor w.disk
    → AnchorFrom path floor (run os p path w calls).disk
run-AnchorFrom os p path floor w calls honest apart fits from =
    run-kept os p path honest apart floor w calls fits from
