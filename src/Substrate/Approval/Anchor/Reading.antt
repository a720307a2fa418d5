-- ===== src/Substrate/Approval/Anchor/Reading.antt =====
-- `read_anchor` reads what `write_anchor` of crates/lmml-substrate/src/approval.rs wrote.
use lmml.Base
use lmml.Base.{ℕ, ◌+◌, ◌-◌, ◌/◌, ◌≤◌, ◌≡◌, refl, ap, true, some, [], ◌∷◌, ◌++◌, arith}
use lmml.Base.Ascii.{IsAscii, ascii-is_utf8}
use lmml.Base.Decimal.{max_u64, print_u64, AreDigits, print_u64-AreDigits, parse-print}
use lmml.Substrate.Types.{FilePath}
use lmml.Substrate.Disk.{Bytes}
use lmml.Substrate.Approval.Anchor.{
  anchor_bytes, cut_line, strip_return, line_text, next_line, next_number, parse_anchor, anchor_of,
}

cut_line-digits :
    (digits rest : Bytes)
    → AreDigits digits
    → cut_line (digits ++ (b'\n' ∷ rest)) ≡ (digits, true, rest)
unfolding cut_line
cut_line-digits [] rest h = refl
cut_line-digits (d ∷ digits) rest h = ground (arith, h.0, cut_line-digits digits rest h.1)

strip_return-digits : (digits : Bytes) → AreDigits digits → strip_return digits ≡ digits
strip_return-digits [] h = refl
strip_return-digits (d ∷ []) h = ground (arith, h.0)
strip_return-digits (d ∷ e ∷ digits) h = ap (λ ds. d ∷ ds) (strip_return-digits (e ∷ digits) h.1)

next_line-cut :
    (digits rest : Bytes)
    → next_line (digits ++ (b'\n' ∷ rest)) ≡ some (line_text (cut_line (digits ++ (b'\n' ∷ rest))))
unfolding next_line
next_line-cut [] rest = refl
next_line-cut (d ∷ digits) rest = refl

next_line-digits :
    (digits rest : Bytes)
    → AreDigits digits
    → next_line (digits ++ (b'\n' ∷ rest)) ≡ some (digits, rest)
next_line-digits digits rest h =
    rw (next_line-cut digits rest)
      (rw (cut_line-digits digits rest h) (rw (strip_return-digits digits h) refl))

next_number-print :
    (n : ℕ) (rest : Bytes)
    → n ≤ max_u64
    → next_number (print_u64 n ++ (b'\n' ∷ rest)) ≡ Base.ok (n, rest)
unfolding next_number
next_number-print n rest h =
    rw (next_line-digits (print_u64 n) rest (print_u64-AreDigits n)) (rw (parse-print n h) refl)

digits-IsAscii : (digits rest : Bytes) → AreDigits digits → IsAscii rest → IsAscii (digits ++ rest)
digits-IsAscii [] rest h k = k
digits-IsAscii (d ∷ digits) rest h k = (omega (arith, h.0), digits-IsAscii digits rest h.1 k)

anchor_bytes-IsAscii : (epoch sequence : ℕ) → IsAscii (anchor_bytes epoch sequence)
unfolding anchor_bytes
anchor_bytes-IsAscii epoch sequence =
    digits-IsAscii (print_u64 epoch) _ (print_u64-AreDigits epoch) (
      omega arith,
      digits-IsAscii (print_u64 sequence) _ (print_u64-AreDigits sequence) (omega arith),
    )

parsed :
    (epoch sequence : ℕ)
    → epoch ≤ max_u64
    → sequence ≤ max_u64
    → parse_anchor (anchor_bytes epoch sequence) ≡ Base.ok (epoch, sequence)
unfolding parse_anchor anchor_bytes
parsed epoch sequence h k =
    rw (next_number-print epoch (print_u64 sequence ++ (b'\n' ∷ [])) h)
      (rw (next_number-print sequence [] k) refl)

-- The bytes of an anchor are read back as its epoch and sequence, where both fit 64 bits.
pub anchor_of-anchor_bytes :
    (path : FilePath) (epoch sequence : ℕ)
    → epoch ≤ max_u64
    → sequence ≤ max_u64
    → anchor_of path (Base.ok (anchor_bytes epoch sequence)) ≡ Base.ok (some (epoch, sequence))
unfolding anchor_of
anchor_of-anchor_bytes path epoch sequence h k =
    rw (ascii-is_utf8 (anchor_bytes epoch sequence) (anchor_bytes-IsAscii epoch sequence))
      (rw (parsed epoch sequence h k) refl)
