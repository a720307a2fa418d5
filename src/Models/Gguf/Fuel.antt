-- ===== src/Models/Gguf/Fuel.antt =====
-- The fuel of `read_value` and `parse_gguf_reader` of crates/lmml-models/src/lib.rs.
use lmml.Base.{
  ℕ, zero, suc, ◌+◌, String, refl, ◌≢◌, not, List, [], ◌∷◌, arith, ltb, eqb, length, ok, err,
}
use lmml.Base.Utf8.{from_utf8_lossy}
use lmml.Models.Types.{
  GgufMetadata, allocation_failed, out_of_fuel, GgufValue, u8, i8, u16, i16, u32, i32, u64, i64,
  f32, f64, bool, string, array, empty, push_back,
}
use lmml.Models.Gguf.Reading.{
  Bytes, Read, Reader, ◌>>=◌, pure, fail, iterate, read_exact, read_number, read_u32, read_u64,
  read_string,
}
use lmml.Models.Gguf.{apply_metadata_value}
use lmml.Models.Gguf.Parse.{
  initial, note_prism, note_tensor, finish, magic, bytes_eq, read_scalar, push_item, read_array,
  read_value, read_entry, read_tensor, read_body, parse_gguf_reader, parse_gguf,
}
use lmml.Models.Gguf.Eats.{
  Eats, EatsFrom, bind-Eats, then-Eats, pure-Eats, if-Eats, iterate-Eats, read_number-Eats,
  number-Eats, exact-Eats, made-Eats, signed-Eats,
}

module _ (memory : ℕ) where
  string-Eats : (n : ℕ) → EatsFrom 0 n (read_string memory)
  unfolding read_string
  string-Eats n = then-Eats n read_u64 _ (number-Eats 8 n) λ len.
      if-Eats n (ltb memory len) (fail allocation_failed) _ (λ bytes h. refl)
        (then-Eats n (read_exact len) (λ bytes. pure (from_utf8_lossy bytes)) (exact-Eats len n)
          (λ bytes. pure-Eats n (from_utf8_lossy bytes)))

  scalar-Eats : (n value_type : ℕ) → EatsFrom 0 n (read_scalar memory value_type)
  unfolding read_scalar
  scalar-Eats n t = if-Eats n (eqb t 0) _ _ (made-Eats 1 n u8) (
      if-Eats n (eqb t 1) _ _ (signed-Eats 1 n i8) (
        if-Eats n (eqb t 2) _ _ (made-Eats 2 n u16) (
          if-Eats n (eqb t 3) _ _ (signed-Eats 2 n i16) (
            if-Eats n (eqb t 4) _ _ (made-Eats 4 n u32) (
              if-Eats n (eqb t 5) _ _ (signed-Eats 4 n i32) (
                if-Eats n (eqb t 6) _ _ (made-Eats 4 n f32) (
                  if-Eats n (eqb t 7) _ _ (made-Eats 1 n (λ k. bool (not (eqb k 0)))) (
                    if-Eats n (eqb t 8) _ _
                      (then-Eats n (read_string memory) (λ s. pure (string s)) (string-Eats n)
                        (λ s. pure-Eats n (string s)))
                      (if-Eats n (eqb t 10) _ _ (made-Eats 8 n u64) (
                        if-Eats n (eqb t 11) _ _ (signed-Eats 8 n i64)
                          (if-Eats n (eqb t 12) _ _ (made-Eats 8 n f64) (λ bytes h. refl))))))))))))

  array-Eats :
      (n : ℕ) (read_item : ℕ → Reader GgufValue)
      → ((t : ℕ) → EatsFrom 0 n (read_item t))
      → EatsFrom 0 (n + 8 + 4) (read_array memory read_item)
  unfolding read_array push_item
  array-Eats n read_item items =
      bind-Eats 4 (n + 8) read_u32 _ (read_number-Eats 4 (n + 8 + 4)) λ inner_type.
        bind-Eats 8 n read_u64 _ (read_number-Eats 8 (n + 8)) λ len.
          then-Eats n (iterate len (push_item memory (read_item inner_type)) empty)
            (λ values. pure (array values))
            (iterate-Eats n len _
              (λ values.
                then-Eats n (read_item inner_type) (λ value. pure (push_back values value))
                  (items inner_type) (λ value. pure-Eats n (push_back values value)))
              empty)
            (λ values. pure-Eats n (array values))

  too_short : EatsFrom 0 0 (read_array memory (read_value memory 0))
  unfolding read_array read_number read_exact ◌>>=◌
  too_short [] h = refl
  too_short (b ∷ bytes) h = ground (arith, h)

  -- On at most as many bytes as levels of nesting, less one.
  value-Eats : (fuel value_type : ℕ) → EatsFrom 0 fuel (read_value memory (suc fuel) value_type)
  unfolding read_value
  value-Eats zero t = if-Eats 0 (eqb t 9) _ _ too_short (scalar-Eats 0 t)
  value-Eats (suc fuel) t =
      if-Eats (suc fuel) (eqb t 9) _ _
        (λ bytes h.
          array-Eats fuel (read_value memory (suc fuel)) (value-Eats fuel) bytes
            (ground (arith, h)))
        (scalar-Eats (suc fuel) t)

  entry-Eats :
      (fuel : ℕ) (metadata : GgufMetadata) → EatsFrom 0 fuel (read_entry memory (suc fuel) metadata)
  unfolding read_entry
  entry-Eats fuel metadata = then-Eats fuel (read_string memory) _ (string-Eats fuel) λ key.
      then-Eats fuel read_u32 _ (number-Eats 4 fuel) λ value_type.
        then-Eats fuel (read_value memory (suc fuel) value_type) _ (value-Eats fuel value_type)
          λ value. pure-Eats fuel (apply_metadata_value (note_prism metadata key) key value)

  tensor-Eats :
      (n : ℕ) (state : GgufMetadata × List String) → EatsFrom 0 n (read_tensor memory state)
  unfolding read_tensor
  tensor-Eats n state = then-Eats n (read_string memory) _ (string-Eats n) λ name.
      then-Eats n read_u32 _ (number-Eats 4 n) λ dimensions.
        then-Eats n (iterate dimensions (λ (u : Unit {0}). read_u64 >>= λ dimension. pure tt) tt) _
          (iterate-Eats n dimensions _ (λ u. made-Eats 8 n (λ dimension. tt)) tt)
          λ u. then-Eats n read_u32 _ (number-Eats 4 n) λ tensor_type.
            then-Eats n read_u64 _ (number-Eats 8 n)
              λ offset. pure-Eats n (note_tensor state tensor_type)

  body-Eats : (fuel : ℕ) → EatsFrom 0 fuel (read_body memory (suc fuel))
  unfolding read_body
  body-Eats fuel = then-Eats fuel read_u32 _ (number-Eats 4 fuel) λ version.
      then-Eats fuel read_u64 _ (number-Eats 8 fuel) λ tensor_count.
        then-Eats fuel read_u64 _ (number-Eats 8 fuel) λ metadata_count.
          then-Eats fuel
            (iterate metadata_count (read_entry memory (suc fuel)) (initial version tensor_count)) _
            (iterate-Eats fuel metadata_count _ (entry-Eats fuel) (initial version tensor_count))
            λ metadata.
              then-Eats fuel (iterate tensor_count (read_tensor memory) (metadata, [])) _
                (iterate-Eats fuel tensor_count _ (tensor-Eats fuel) (metadata, []))
                λ state. pure-Eats fuel (finish state)

  parse-Eats : (fuel : ℕ) → EatsFrom 0 fuel (parse_gguf_reader memory (suc fuel))
  unfolding parse_gguf_reader
  parse-Eats fuel =
      then-Eats fuel (read_exact 4) _ (exact-Eats 4 fuel)
        λ buf. if-Eats fuel (bytes_eq buf magic) _ _ (body-Eats fuel) (λ bytes h. refl)

  -- The fuel of `parse_gguf`, one more than the bytes of the file, is never used up, whatever the
  -- file: the model's parser ends with the header, with an error of the code, or at an allocation
  -- that fails, which ends the process.
  pub parse_gguf-ends : (bytes : Bytes) → parse_gguf memory bytes ≢ err out_of_fuel
  unfolding parse_gguf
  parse_gguf-ends bytes =
      ended (parse_gguf_reader memory (suc (length bytes)) bytes)
        (parse-Eats (length bytes) bytes (ground arith))
    where
      ended : (result : Read GgufMetadata) → Eats 0 bytes result → result ≢ err out_of_fuel
      ended (ok (a, rest)) h = λ p. cc
      ended (err e) h = λ p. cc
