-- ===== src/Substrate/Approval/Anchor/Writing.antt =====
-- `write_anchor` of crates/lmml-substrate/src/approval.rs replaces the anchor as a whole or not at all.
use lmml.Base
use lmml.Base.{ℕ, ◌-◌, ◌/◌, ◌≡◌, refl, ◌∙◌, ◌≢◌, not, Option, some, [], arith, eq_iff, any, all}
use lmml.Substrate.Types.{FilePath}
use lmml.Substrate.Disk.{Bytes, write, Os, World, Action, ◌>>=◌, parent_of}
use lmml.Substrate.Disk.Frame.{write_self}
use lmml.Substrate.Disk.Chains.{Ensures, Ensures-bind}
use lmml.Substrate.Approval.Files.{
  write_all, create_file, write_file, rename, protect_file, prepare_directory,
}
use lmml.Substrate.Approval.Files.Leaves.{
  Leaves, Leaves-write_file, Leaves-prepare_directory, Leaves-protect_file,
}
use lmml.Substrate.Approval.Anchor.{anchor_bytes, with_tmp, write_anchor}

-- Where the call does not change the file `q`, its content is kept, and `Q` holds besides.
module _ {A : Type 0} (q : FilePath) (before : Option Bytes) where
  Ensures-Leaves :
      (m : Action A) (w : World)
      → Leaves q m
      → w.disk q ≡ before
      → Ensures (λ a w'. w'.disk q ≡ before) (λ w'. w'.disk q ≡ before) (m w)
  Ensures-Leaves m w leaves e = record {
    returned = λ a h. leaves.at w ∙ e;
    failed = λ x h. leaves.at w ∙ e;
  }

module _ (os : Os) (path tmp : FilePath) (payload : Bytes) (apart : tmp ≢ path) where
  -- The anchor is still the old one, and the temporary file is complete.
  abbrev Ready : Option Bytes → World → Type 0
  Ready before w = (w.disk path ≡ before) × (w.disk tmp ≡ some payload)

  write_file_complete :
      (w : World) (a : Unit {0})
      → (write_file os tmp payload w).0 ≡ Base.ok a
      → (write_file os tmp payload w).1.disk tmp ≡ some payload
  unfolding write_file ◌>>=◌ create_file write_all
  write_file_complete w a h = ground (
    arith,
    write_self (write w.disk tmp (some [])) tmp (some payload),
    write_self w.disk tmp (some payload),
  )

  write_file-Ready :
      (before : Option Bytes) (w : World)
      → w.disk path ≡ before
      → Ensures
          (λ a w'. Ready before w')
          (λ w'. w'.disk path ≡ before)
          (write_file os tmp payload w)
  write_file-Ready before w e = record {
    returned =
        λ a h. ((Leaves-write_file os tmp path apart payload).at w ∙ e, write_file_complete w a h);
    failed = λ x h. (Leaves-write_file os tmp path apart payload).at w ∙ e;
  }

  protect-Ready :
      (before : Option Bytes) (w : World)
      → Ready before w
      → Ensures (λ a w'. Ready before w') (λ w'. w'.disk path ≡ before) (protect_file os tmp w)
  protect-Ready before w e = record {
    returned =
        λ a h. ((Leaves-protect_file os tmp).at w ∙ e.0, (Leaves-protect_file os tmp).at w ∙ e.1);
    failed = λ x h. (Leaves-protect_file os tmp).at w ∙ e.0;
  }

  rename-replaces :
      (before : Option Bytes) (w : World)
      → Ready before w
      → Ensures
          (λ a w'. w'.disk path ≡ some payload)
          (λ w'. w'.disk path ≡ before)
          (rename os tmp path w)
  unfolding rename
  rename-replaces before w e = record {
    returned = λ a h. ground (arith, e.0, e.1, eq_iff tmp path, eq_iff path path);
    failed = λ x h. ground (arith, e.0, e.1);
  }

-- Where the temporary file has another path: if the call succeeds the anchor holds the given epoch and
-- sequence, and if it fails at any point the anchor is as it was.
pub write_anchor-replaces :
    (os : Os) (path : FilePath) (epoch sequence : ℕ) (w : World)
    → with_tmp path ≢ path
    → Ensures
        (λ a w'. w'.disk path ≡ some (anchor_bytes epoch sequence))
        (λ w'. w'.disk path ≡ w.disk path)
        (write_anchor os path epoch sequence w)
unfolding write_anchor
write_anchor-replaces os path epoch sequence w apart =
    Ensures-bind (prepare_directory os (parent_of path)) _ w
      (Ensures-Leaves path (w.disk path) _ w (Leaves-prepare_directory os (parent_of path)) refl)
      λ a w1 e1.
        Ensures-bind (write_file os (with_tmp path) (anchor_bytes epoch sequence)) _ w1
          (write_file-Ready os path (with_tmp path) (anchor_bytes epoch sequence) apart
            (w.disk path) w1 e1)
          λ b w2 e2.
            Ensures-bind (protect_file os (with_tmp path)) _ w2
              (protect-Ready os path (with_tmp path) (anchor_bytes epoch sequence) apart
                (w.disk path) w2 e2)
              λ c w3 e3.
                rename-replaces os path (with_tmp path) (anchor_bytes epoch sequence) apart
                  (w.disk path) w3 e3
