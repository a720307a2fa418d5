-- ===== src/Substrate/Canonical/Inventory.antt =====
-- The counts of a canonical manifest: `validate_substrate_manifest` of
-- crates/lmml-substrate/src/storage.rs adds and multiplies with overflow checks.
use lmml.Base.{
  ℕ, ◌+◌, ◌*◌, ◌<◌, false, not, ◌≡◌, arith, List, [], ◌∷◌, some, In, here, there, inl, inr,
  Option-cases, ok, any, any-none, any-In, length, eq_iff, ◌==◌, ◌^◌,
}
use native.Mathlib.Nat.{mul_assoc}
use lmml.Substrate.Types.{SubstrateManifest, TensorDescriptor, ShardManifest}
use lmml.Substrate.Canonical.{product_from, parameter_count_from, validate_inventory, u64_end}

-- The product of the dimensions, and the parameters that the tensors hold, as unbounded numbers.
unfoldable pub product : List ℕ → ℕ
product [] = 1
product (n ∷ shape) = n * product shape

unfoldable pub parameters : List TensorDescriptor → ℕ
unfolding product
parameters [] = 0
parameters (t ∷ tensors) = product t.shape + parameters tensors

product_from_lem :
    (count : ℕ) (shape : List ℕ) (n : ℕ)
    → product_from count shape ≡ some n
    → n ≡ count * product shape
unfolding product_from product
product_from_lem count [] n h = ground arith
product_from_lem count (d ∷ shape) n h =
    ground (arith, product_from_lem (count * d) shape n, mul_assoc count d (product shape))

parameter_count_from_lem :
    (total : ℕ) (tensors : List TensorDescriptor) (n : ℕ)
    → total < u64_end
    → parameter_count_from total tensors ≡ some n
    → (n ≡ total + parameters tensors)
      × (n < u64_end)
      × ((t : TensorDescriptor) → In t tensors → t.parameter_count ≡ product t.shape)
unfolding parameter_count_from parameters
parameter_count_from_lem total [] n small h = (ground arith, ground arith, λ t i. elim i [ ])
parameter_count_from_lem total (t ∷ tensors) n small h =
    elim (Option-cases (product_from 1 t.shape)) [
      | inl e ↦ absurd (ground (arith, e))
      | inr (k, e) ↦
          let first = product_from_lem 1 t.shape k e in
          let same : t.parameter_count ≡ k = ground (arith, e, h) in
          let fits : total + k < u64_end = ground (arith, e, h) in
          let (sum, end, each) =
            parameter_count_from_lem (total + k) tensors n fits (ground (arith, e, h)) in
          (ground arith, end, λ u i. one u i (ground arith) each)
    ]
  where
    one :
        (u : TensorDescriptor)
        → In u (t ∷ tensors)
        → t.parameter_count ≡ product t.shape
        → ((v : TensorDescriptor) → In v tensors → v.parameter_count ≡ product v.shape)
        → u.parameter_count ≡ product u.shape
    one u (here e) first others = rw e first
    one u (there i) first others = others u i

-- The inventory of an accepted manifest: the recorded counts are those of the tensors, as unbounded
-- numbers, and fit 64 bits; each tensor has the parameters of its shape, and a shard of the manifest
-- holds it.
pub validate_inventory-counts :
    (m : SubstrateManifest)
    → validate_inventory m ≡ ok tt
    → (m.tensor_count ≡ length m.tensors)
      × (m.parameter_count ≡ parameters m.tensors)
      × (m.parameter_count < 2 ^ 64)
      × ((t : TensorDescriptor)
          → In t m.tensors
          → (t.parameter_count ≡ product t.shape)
            × ((s : ShardManifest) × In s m.shards × (s.path ≡ t.shard)))
unfolding validate_inventory
validate_inventory-counts m h =
    let e : parameter_count_from 0 m.tensors ≡ some m.parameter_count = ground arith in
    let (sum, end, each) =
      parameter_count_from_lem 0 m.tensors m.parameter_count (ground arith) e in
    (
      ground arith,
      ground arith,
      end,
      λ t i. (
        each t i,
        holder t (
            any-none
              (λ (t : TensorDescriptor).
                not (any (λ (s : ShardManifest). s.path == t.shard) m.shards))
              m.tensors (ground arith) t i),
      ),
    )
  where
    holder :
        (t : TensorDescriptor)
        → not (any (λ (s : ShardManifest). s.path == t.shard) m.shards) ≡ false
        → (s : ShardManifest) × In s m.shards × (s.path ≡ t.shard)
    holder t known =
        let (s, i, e) = any-In (λ (s : ShardManifest). s.path == t.shard) m.shards (ground arith) in
        (s, i, (eq_iff s.path t.shard).0 e)
