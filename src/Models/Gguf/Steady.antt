-- ===== src/Models/Gguf/Steady.antt =====
-- More fuel changes no answer of `parse_gguf_reader` of crates/lmml-models/src/lib.rs.
use lmml.Base.{
  ℕ, zero, suc, ◌≡◌, ◌≢◌, ◌<◌, arith, inl, inr, Bool-cases, eqb_iff, refl, sym, ◌∙◌, ap, Bool, true,
  false, eqb, if◌then◌else◌, length, ok, err,
}
use lmml.Models.Types.{GgufError, GgufMetadata, out_of_fuel, invalid_magic, GgufValue, empty}
use lmml.Models.Gguf.Reading.{
  Bytes, Read, Reader, feed, ◌>>=◌, fail, iterate, read_exact, read_u32, read_u64, read_string,
}
use lmml.Models.Gguf.Parse.{
  initial, magic, bytes_eq, push_item, read_array, read_value, read_entry, read_body,
  parse_gguf_reader, parse_gguf,
}
use lmml.Models.Gguf.Fuel.{parse_gguf-ends}

-- The second answer is the first, unless the first is for want of fuel.
abbrev Extends : {A : Type 0} → Read A → Read A → Type 0
Extends {A} x y = x ≢ err out_of_fuel → y ≡ x

abbrev ExtendsAll : {A : Type 0} → Reader A → Reader A → Type 0
ExtendsAll r s = (bytes : Bytes) → Extends (r bytes) (s bytes)

module _ {A B : Type 0} where
  feed-Extends :
      (x y : Read A) (f g : A → Reader B)
      → Extends x y
      → ((a : A) → ExtendsAll (f a) (g a))
      → Extends (feed x f) (feed y g)
  feed-Extends (ok (a, rest)) y f g same after h =
      let e : y ≡ ok (a, rest) = same (λ p. cc) in rw e (after a rest h)
  feed-Extends (err e) y f g same after h =
      let kept : y ≡ err e = same (λ p. h (ap err (error_of p))) in rw kept refl
    where
      error_of : {d : GgufError} → ◌≡◌ {A = Read A} (err e) (err d) → e ≡ d
      error_of p = cc

  bind-Extends :
      (r s : Reader A) (f g : A → Reader B)
      → ExtendsAll r s
      → ((a : A) → ExtendsAll (f a) (g a))
      → ExtendsAll (r >>= f) (s >>= g)
  unfolding ◌>>=◌
  bind-Extends r s f g same after bytes = feed-Extends (r bytes) (s bytes) f g (same bytes) after

  then-Extends :
      (r : Reader A) (f g : A → Reader B)
      → ((a : A) → ExtendsAll (f a) (g a))
      → ExtendsAll (r >>= f) (r >>= g)
  then-Extends r f g after = bind-Extends r r f g (λ bytes h. refl) after

iterate-Extends :
    {S : Type 0} (count : ℕ) (f g : S → Reader S) (s : S)
    → ((s : S) → ExtendsAll (f s) (g s))
    → ExtendsAll (iterate count f s) (iterate count g s)
unfolding iterate
iterate-Extends zero f g s same = λ bytes h. refl
iterate-Extends (suc count) f g s same =
    bind-Extends (f s) (g s) (iterate count f) (iterate count g) (same s)
      (λ s. iterate-Extends count f g s same)

if-Extends :
    {A : Type 0} (b : Bool) (r r' s : Reader A)
    → ExtendsAll r r'
    → ExtendsAll (if b then r else s) (if b then r' else s)
if-Extends true r r' s same = same
if-Extends false r r' s same = λ bytes h. refl

module _ (memory : ℕ) where
  array-Extends :
      (f g : ℕ → Reader GgufValue)
      → ((t : ℕ) → ExtendsAll (f t) (g t))
      → ExtendsAll (read_array memory f) (read_array memory g)
  unfolding read_array push_item
  array-Extends f g same = then-Extends read_u32 _ _ λ t. then-Extends read_u64 _ _ λ len.
      bind-Extends _ _ _ _
        (iterate-Extends len (push_item memory (f t)) (push_item memory (g t)) empty
          (λ values. bind-Extends (f t) (g t) _ _ (same t) (λ value bytes h. refl)))
        (λ values bytes h. refl)

  value-Extends :
      (fuel t : ℕ) → ExtendsAll (read_value memory fuel t) (read_value memory (suc fuel) t)
  unfolding read_value
  value-Extends zero t =
      if-Extends (eqb t 9) (fail out_of_fuel) (read_array memory (read_value memory zero)) _
        (λ bytes h. absurd (h refl))
  value-Extends (suc fuel) t =
      if-Extends (eqb t 9) _ _ _
        (array-Extends (read_value memory fuel) (read_value memory (suc fuel)) (value-Extends fuel))

  entry-Extends :
      (fuel : ℕ) (metadata : GgufMetadata)
      → ExtendsAll (read_entry memory fuel metadata) (read_entry memory (suc fuel) metadata)
  unfolding read_entry
  entry-Extends fuel metadata = then-Extends (read_string memory) _ _ λ key.
      then-Extends read_u32 _ _ λ t.
        bind-Extends (read_value memory fuel t) (read_value memory (suc fuel) t) _ _
          (value-Extends fuel t) (λ value bytes h. refl)

  body-Extends : (fuel : ℕ) → ExtendsAll (read_body memory fuel) (read_body memory (suc fuel))
  unfolding read_body
  body-Extends fuel = then-Extends read_u32 _ _ λ version. then-Extends read_u64 _ _ λ tensor_count.
      then-Extends read_u64 _ _ λ metadata_count.
        bind-Extends _ _ _ _
          (iterate-Extends metadata_count (read_entry memory fuel) (read_entry memory (suc fuel))
            (initial version tensor_count) (entry-Extends fuel))
          (λ metadata bytes h. refl)

  parse-Extends :
      (fuel : ℕ) → ExtendsAll (parse_gguf_reader memory fuel) (parse_gguf_reader memory (suc fuel))
  unfolding parse_gguf_reader
  parse-Extends fuel = then-Extends (read_exact 4) _ _ λ buf.
      if-Extends (bytes_eq buf magic) (read_body memory fuel) (read_body memory (suc fuel))
        (fail invalid_magic) (body-Extends fuel)

  unchanged :
      (bytes : Bytes) (fuel : ℕ)
      → length bytes < fuel
      → parse_gguf_reader memory fuel bytes ≡ parse_gguf memory bytes
  unfolding parse_gguf
  unchanged bytes zero more = absurd (ground (arith, more))
  unchanged bytes (suc fuel) more = elim (Bool-cases (eqb fuel (length bytes))) [
    | inl e ↦
        let same : fuel ≡ length bytes = (eqb_iff fuel (length bytes)).0 e in
        ap (λ (n : ℕ). parse_gguf_reader memory (suc n) bytes) same
    | inr e ↦
        let before = unchanged bytes fuel (ground (arith, more, e)) in
        parse-Extends fuel bytes (λ p. parse_gguf-ends memory bytes (sym before ∙ p)) ∙ before
  ]

  -- With any fuel that exceeds the number of bytes of the file, the model's parser gives one and
  -- the same answer, that of `parse_gguf`, and no level of nesting is cut off for want of fuel: the
  -- answer is the header, an error of the code, or that an allocation fails, which ends the
  -- process. The depth of the call stack is not bounded in the model.
  pub parse_gguf-steady :
      (bytes : Bytes) (fuel : ℕ)
      → length bytes < fuel
      → (parse_gguf_reader memory fuel bytes ≡ parse_gguf memory bytes)
        × (parse_gguf_reader memory fuel bytes ≢ err out_of_fuel)
  parse_gguf-steady bytes fuel more =
      let same = unchanged bytes fuel more in
      (same, λ p. parse_gguf-ends memory bytes (sym same ∙ p))
