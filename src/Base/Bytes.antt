-- ===== src/Base/Bytes.antt =====
-- Numbers as bytes, the lowest first.
use Prim.Native.Nat.{ℕ, zero, suc, ◌+◌, ◌*◌, ◌/◌, ◌%◌, ◌^◌, ◌<◌}
use mathlib.Core.Path.{◌≡◌}
use mathlib.Core.List.{List, [], ◌∷◌}
use native.Mathlib.Numerals.{unary_clauses}
use native.Mathlib.Omega.{arith}

-- `n.to_le_bytes()`, of so many bytes.
abbrev pub le_bytes : ℕ → ℕ → List ℕ
le_bytes zero n = []
le_bytes (suc count) n = (n % 256) ∷ le_bytes count (n / 256)

-- `from_le_bytes(buf)`, unsigned.
abbrev pub from_le_bytes : List ℕ → ℕ
from_le_bytes [] = 0
from_le_bytes (b ∷ bs) = b + 256 * from_le_bytes bs

high_bytes : (n m : ℕ) → n < m * 256 → n / 256 < m
high_bytes n m h = ground (arith, h)

pub from_le_bytes-le_bytes : (count n : ℕ) → n < 256 ^ count → from_le_bytes (le_bytes count n) ≡ n
from_le_bytes-le_bytes zero n h = ground (arith, h)
from_le_bytes-le_bytes (suc count) n h =
    let below : n / 256 < 256 ^ count = high_bytes n (256 ^ count) (simp unary_clauses at h) in
    ground (arith, h, from_le_bytes-le_bytes count (n / 256) below)
