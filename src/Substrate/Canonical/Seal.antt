-- ===== src/Substrate/Canonical/Seal.antt =====
-- The seal of a canonical manifest: `seal_manifest` and `manifest_hash` of
-- crates/lmml-substrate/src/storage.rs.
use lmml.Base.{subst, ◌≡◌, refl, arith, ok, Result-cases, inl, inr, ◌∙◌, ap, sym}
use lmml.Substrate.Types.{SubstrateManifest, Hash256}
use lmml.Substrate.Platform.{Platform}
use lmml.Substrate.Canonical.{manifest_hash, seal_manifest, validate_substrate_manifest}

-- The manifest with another hash in its identity.
abbrev with_hash : Hash256 → SubstrateManifest → SubstrateManifest
with_hash hash m = record m { model = record (m.model) { canonical_manifest_hash = hash } }

module _ (p : Platform) where
  -- The digest is of all but the recorded digest.
  hash-with_hash :
      (hash : Hash256) (m : SubstrateManifest)
      → manifest_hash p (with_hash hash m) ≡ manifest_hash p m
  unfolding manifest_hash
  hash-with_hash hash m = refl

  seal-eq :
      (m : SubstrateManifest) (hash : Hash256)
      → manifest_hash p m ≡ ok hash
      → validate_substrate_manifest p (with_hash hash m) ≡ ok tt
      → seal_manifest p m ≡ ok (with_hash hash m)
  unfolding seal_manifest
  seal-eq m hash e v = rw e (rw v refl)

  seal-inversion :
      (m s : SubstrateManifest)
      → seal_manifest p m ≡ ok s
      → (hash : Hash256) × (manifest_hash p m ≡ ok hash)
        × (validate_substrate_manifest p s ≡ ok tt)
        × (with_hash hash m ≡ s)
  unfolding seal_manifest
  seal-inversion m s h = elim (Result-cases (manifest_hash p m)) [
    | inl (hash, e) ↦ (hash, e, ground (arith, e, h), ground (arith, e, h))
    | inr (x, e) ↦ absurd (ground (arith, e, h))
  ]

  -- A manifest that was sealed is valid, records the digest of its own contents, differs from what was
  -- given in that digest alone, and sealing it again changes nothing.
  pub seal_manifest-IsSealed :
      (m s : SubstrateManifest)
      → seal_manifest p m ≡ ok s
      → (validate_substrate_manifest p s ≡ ok tt)
        × (manifest_hash p s ≡ ok s.model.canonical_manifest_hash)
        × (record m {
          model = record (m.model) { canonical_manifest_hash = s.model.canonical_manifest_hash };
        }
            ≡ s)
        × (seal_manifest p s ≡ ok s)
  seal_manifest-IsSealed m s h =
      let (hash, e, valid, same) = seal-inversion m s h in
      let recorded : hash ≡ s.model.canonical_manifest_hash =
        ap (λ (x : SubstrateManifest). x.model.canonical_manifest_hash) same in
      let hashed : manifest_hash p s ≡ ok hash =
        subst (λ x. manifest_hash p x ≡ ok hash) same (hash-with_hash hash m ∙ e) in
      let again : manifest_hash p s ≡ ok s.model.canonical_manifest_hash =
        hashed ∙ ap ok recorded in
      (
        valid,
        again,
        ap (λ x. with_hash x m) (sym recorded) ∙ same,
        seal-eq s s.model.canonical_manifest_hash again valid,
      )
