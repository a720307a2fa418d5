-- ===== src/Gateway/Loaded.antt =====
-- Records that the functions `load_*` of crates/lmml-substrate/src/approval.rs read and check.
use lmml.Base.{
  ok_inj, ok_or-some, ◌≡◌, refl, sym, ap, subst, ◌∙◌, inl, inr, some, arith, Option-cases, ok,
  Result,
}
use lmml.Substrate.Types.{FilePath}
use lmml.Substrate.Errors.{SubstrateError}
use lmml.Substrate.Disk.{Bytes, Disk, Os, World, ◌>>=◌, ◌>>◌, lift, read_required}
use lmml.Substrate.Disk.Chains.{Ensures, Ensures-lift, Ensures-bind}
use lmml.Substrate.Approval.Platform.{Codec, ApprovalPlatform}
use lmml.Substrate.Approval.Loads.{load_json}

-- The file holds the JSON of the record.
abbrev pub Holds : {A : Type 0} → Disk → Codec A → FilePath → A → Type 0
Holds disk codec path a =
    (bytes : Bytes) × (disk path ≡ some bytes) × (codec.from_slice bytes ≡ some a)

abbrev pub Loads : {A : Type 0} → Disk → (A → Type 0) → Result SubstrateError A × World → Type 0
Loads disk Q out = Ensures (λ a w. Q a × (w.disk ≡ disk)) (λ w. Unit {0}) out

module _ (os : Os) where
  read_ok :
      (path : FilePath) (w : World) (bytes : Bytes)
      → (read_required os path w).0 ≡ ok bytes
      → (w.disk path ≡ some bytes) × ((read_required os path w).1.disk ≡ w.disk)
  unfolding read_required
  read_ok path w bytes h = elim (Option-cases (os.read_fault w.calls)) [
    | inl e ↦ elim (Option-cases (w.disk path)) [
      | inl f ↦ ground (arith, e, f, h)
      | inr (found, f) ↦ (ground (arith, e, f, h), rw (e, read_required) (rw f refl))
    ]
    | inr (kind, e) ↦ ground (arith, e, h)
  ]

  module _ (p : ApprovalPlatform) (disk : Disk) where
    read_required-Loads :
        (path : FilePath) (w : World)
        → w.disk ≡ disk
        → Loads disk (λ bytes. disk path ≡ some bytes) (read_required os path w)
    read_required-Loads path w same = record {
      returned = λ bytes h.
          let (found, kept) = read_ok path w bytes h in
          (sym (ap (λ (d : Disk). d path) same) ∙ found, kept ∙ same);
      failed = λ e h. tt;
    }

    load_json-Loads :
        {A : Type 0} (codec : Codec A) (path : FilePath) (w : World)
        → w.disk ≡ disk
        → Loads disk (Holds disk codec path) (load_json os p codec path w)
    unfolding load_json
    load_json-Loads codec path w same =
        Ensures-bind (read_required os path) _ w (read_required-Loads path w same) λ bytes w' h.
          Ensures-lift _ w' (λ a e. ((bytes, h.0, ok_or-some (codec.from_slice bytes) _ a e), h.1))
            tt

    -- A record that is loaded and then checked.
    pub checked-Loads :
        {A : Type 0} (codec : Codec A) (path : FilePath)
        (check : A → Result SubstrateError (Unit {0})) (w : World)
        → w.disk ≡ disk
        → Loads disk
            (λ a. Holds disk codec path a × (check a ≡ ok tt))
            ((load_json os p codec path >>= λ a. lift (check a) >> lift (ok a)) w)
    checked-Loads {A} codec path check w same =
        Ensures-bind (load_json os p codec path) _ w (load_json-Loads codec path w same)
          λ a w' h. after a w' h
      where
        Kept : A → World → Type 0
        Kept a w = (Holds disk codec path a × (check a ≡ ok tt)) × (w.disk ≡ disk)

        after :
            (a : A) (w' : World)
            → Holds disk codec path a × (w'.disk ≡ disk)
            → Loads disk
                (λ a. Holds disk codec path a × (check a ≡ ok tt))
                ((lift (check a) >> lift (ok a)) w')
        after a w' h =
            Ensures-bind {R = λ u v. Kept a v} (lift (check a)) _ w'
              (Ensures-lift (check a) w' (λ u e. ((h.0, e), h.1)) tt)
              λ u v k. Ensures-lift (ok a) v (λ b e. subst (λ c. Kept c v) (ok_inj a b e) k) tt
