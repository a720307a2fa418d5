-- ===== src/Substrate/Approval/Anchor/Floor.antt =====
-- The anchor against a floor: what reading, other files and `write_anchor` of
-- crates/lmml-substrate/src/approval.rs do to an anchor that is at the floor.
use lmml.Base
use lmml.Base.{
  ℕ, suc, ◌-◌, ◌/◌, ◌≤◌, ◌<◌, ◌≡◌, refl, ap, ◌∙◌, subst, ◌≢◌, ◌⊎◌, inl, inr, Bool, false, not,
  Option, some, arith, Option-cases, In, reject_if-ok,
}
use lmml.Base.Decimal.{max_u64}
use lmml.Substrate.Types.{FilePath}
use lmml.Substrate.Errors.{
  IoKind, not_found, already_exists, permission_denied, other, SubstrateError, io, Checked,
}
use lmml.Substrate.Disk.{Bytes, Disk, Os, World, Action, lift, read_required}
use lmml.Substrate.Disk.Chains.{Ensures, Ensures-lift}
use lmml.Substrate.Approval.Files.Leaves.{Leaves}
use lmml.Substrate.Approval.Anchor.{anchor_bytes, anchor_of, read_anchor, with_tmp, write_anchor}
use lmml.Substrate.Approval.Anchor.Reading.{anchor_of-anchor_bytes}
use lmml.Substrate.Approval.Anchor.Writing.{write_anchor-replaces}

-- In the order of pairs, the epoch first.
abbrev pub AtLeast : (floor anchor : ℕ × ℕ) → Type 0
AtLeast floor anchor = (floor.0 < anchor.0) ⊎ ((floor.0 ≡ anchor.0) × (floor.1 ≤ anchor.1))

pub AtLeast-trans : (a b c : ℕ × ℕ) → AtLeast a b → AtLeast b c → AtLeast a c
AtLeast-trans a b c (inl h) (inl k) = inl (omega arith)
AtLeast-trans a b c (inl h) (inr k) = inl (omega (arith, k.0))
AtLeast-trans a b c (inr h) (inl k) = inl (omega (arith, h.0))
AtLeast-trans a b c (inr h) (inr k) = inr (h.0 ∙ k.0, omega (arith, h.1, k.1))

-- The file holds an anchor that is not below the floor.
pub record AnchorFrom (path : FilePath) (floor : ℕ × ℕ) (d : Disk) : Type 0 where
  pub anchor : ℕ × ℕ
  pub bytes : Bytes
  pub stored : d path ≡ some bytes
  pub reads : anchor_of path (Base.ok bytes) ≡ Base.ok (some anchor)
  pub fits : anchor.0 ≤ max_u64
  pub reached : AtLeast floor anchor

-- What holds of the world whether the call returned or failed.
pub both_ways :
    {A : Type 0} (J : World → Type 0) (out : Checked A × World)
    → Ensures (λ a w'. J w') J out
    → J out.1
both_ways J (Base.ok a, w) h = h.returned a refl
both_ways J (Base.err e, w) h = h.failed e refl

module _ (os : Os) (path : FilePath) (bytes : Bytes) (anchor : ℕ × ℕ)
    (reads : anchor_of path (Base.ok bytes) ≡ Base.ok (some anchor)) (limit : anchor.0 ≤ max_u64)
    (honest : (n : ℕ) → os.read_fault n ≢ some not_found) where
  abbrev pub Still : World → Type 0
  Still w = w.disk path ≡ some bytes

  abbrev pub Reached : World → Type 0
  Reached w = AnchorFrom path anchor w.disk

  Still-Reached : (w : World) → Still w → Reached w
  Still-Reached w e = record {
    anchor = anchor;
    bytes = bytes;
    stored = e;
    reads = reads;
    fits = limit;
    reached = inr (refl, omega arith);
  }

  pub leaving :
      {A : Type 0} (m : Action A) (w : World)
      → Leaves path m
      → Still w
      → Ensures (λ a w'. Still w') Reached (m w)
  leaving m w leaves e = record {
    returned = λ a h. leaves.at w ∙ e;
    failed = λ x h. Still-Reached (m w).1 (leaves.at w ∙ e);
  }

  fault_reported :
      (kind : IoKind)
      → kind ≢ not_found
      → anchor_of path (Base.err (io path kind)) ≡ Base.err (io path kind)
  unfolding anchor_of
  fault_reported not_found h = absurd (h refl)
  fault_reported already_exists h = refl
  fault_reported permission_denied h = refl
  fault_reported other h = refl

  read_required-answer :
      (w : World)
      → Still w
      → ((w' : World) × (read_required os path w ≡ (Base.ok bytes, w')) × Still w')
        ⊎ ((kind : IoKind) × (w' : World) × (kind ≢ not_found)
            × (read_required os path w ≡ (Base.err (io path kind), w'))
            × Still w')
  unfolding read_required
  read_required-answer w e = elim (Option-cases (os.read_fault w.calls)) [
    | inl f ↦ inl (record w { calls = suc w.calls }, ground (arith, f, e), e)
    | inr (kind, f) ↦ inr (
      kind,
      record w { calls = suc w.calls },
      λ k. honest w.calls (f ∙ ap some k),
      ground (arith, f),
      e,
    )
  ]

  pub read_anchor-known :
      (w : World)
      → Still w
      → Ensures (λ a w'. (a ≡ some anchor) × Still w') Reached (read_anchor os path w)
  unfolding read_anchor
  read_anchor-known w e = elim (read_required-answer w e) [
    | inl (w', same, e') ↦
        rw same (rw reads (record { returned = λ a h. (cc, e'); failed = λ x h. cc }))
    | inr (kind, w', real, same, e') ↦ rw same (
        rw (fault_reported kind real)
          (record { returned = λ a h. cc; failed = λ x h. Still-Reached w' e' }))
  ]

  pub write_anchor-Reached :
      (epoch sequence : ℕ) (w : World)
      → with_tmp path ≢ path
      → epoch ≤ max_u64
      → sequence ≤ max_u64
      → AtLeast anchor (epoch, sequence)
      → Still w
      → Ensures (λ a w'. Reached w') Reached (write_anchor os path epoch sequence w)
  write_anchor-Reached epoch sequence w apart small small' above e =
      let replaced = write_anchor-replaces os path epoch sequence w apart in
      record {
        returned = λ a h. record {
          anchor = (epoch, sequence);
          bytes = anchor_bytes epoch sequence;
          stored = replaced.returned a h;
          reads = anchor_of-anchor_bytes path epoch sequence small small';
          fits = small;
          reached = above;
        };
        failed = λ x h.
            Still-Reached (write_anchor os path epoch sequence w).1 (replaced.failed x h ∙ e);
      }

  pub guarded :
      (test : Option (ℕ × ℕ) → Bool) (error : SubstrateError) (read : Option (ℕ × ℕ)) (w : World)
      → (read ≡ some anchor) × Still w
      → Ensures
          (λ a w'. (test (some anchor) ≡ false) × Still w')
          Reached
          (lift (Base.reject_if (test read) error) w)
  guarded test error read w (known, e) =
      Ensures-lift _ w
        (λ a h. (subst (λ o. test o ≡ false) known (Base.reject_if-ok (test read) error h), e))
        (Still-Reached w e)
