-- ===== src/Substrate/Approval/Anchor.antt =====
-- The anchor: the epoch and the sequence below which nothing is accepted, two lines of decimal digits
-- (`read_anchor` and `write_anchor` of crates/lmml-substrate/src/approval.rs).
pub mod Reading
pub mod Writing
pub mod Floor
use Prim.Native.Char.{code}
use Prim.Native.String
use lmml.Base.{
  ℕ, ◌+◌, ◌-◌, ◌/◌, String, ◌≡◌, refl, Bool, true, false, not, ◌&&◌, Option, none, some, [], ◌∷◌,
  ◌++◌, eqb, if◌then◌else◌, unwrap_or, all, there,
}
use lmml.Base
use lmml.Base.Ascii.{is_utf8}
use lmml.Base.Decimal.{print_u64, parse_u64}
use lmml.Substrate.Types.{FilePath}
use lmml.Substrate.Errors.{not_found, other, SubstrateError, approval_rollback, io, Checked}
use lmml.Substrate.Disk.{Bytes, Os, World, Action, ◌>>=◌, ◌>>◌, read_required, parent_of}
use lmml.Substrate.Approval.Files.{write_file, rename, protect_file, prepare_directory}

-- `format!("{epoch}\n{sequence}\n")`
unfoldable pub anchor_bytes : (epoch sequence : ℕ) → Bytes
anchor_bytes epoch sequence = print_u64 epoch ++ (b'\n' ∷ (print_u64 sequence ++ (b'\n' ∷ [])))

-- What stands before the first line feed, whether there is one, and the rest.
unfoldable pub cut_line : Bytes → Bytes × Bool × Bytes
cut_line [] = ([], false, [])
cut_line (c ∷ cs) =
    let (line, ended, rest) = cut_line cs in
    if eqb c b'\n' then ([], true, cs) else (c ∷ line, ended, rest)

-- `line.strip_suffix('\r')`
abbrev pub strip_return : Bytes → Bytes
strip_return [] = []
strip_return (c ∷ []) = if eqb c b'\r' then [] else c ∷ []
strip_return (c ∷ d ∷ cs) = c ∷ strip_return (d ∷ cs)

abbrev line_text : Bytes × Bool × Bytes → Bytes × Bytes
line_text (line, true, rest) = (strip_return line, rest)
line_text (line, false, rest) = (line, rest)

-- The next of `text.lines()`: a return before the line feed goes too.
unfoldable pub next_line : Bytes → Option (Bytes × Bytes)
unfolding cut_line
next_line [] = none
next_line (c ∷ cs) = some (line_text (cut_line (c ∷ cs)))

abbrev pub invalid_anchor : SubstrateError
invalid_anchor = approval_rollback "invalid revocation anchor"

-- `fields.next().and_then(|value| value.parse().ok())`, and what is left.
unfoldable pub next_number : Bytes → Base.Result SubstrateError (ℕ × Bytes)
next_number bytes =
    Base.◌>>=◌ (Base.ok_or (next_line bytes) invalid_anchor)
      λ (line, rest). Base.◌>>=◌ (Base.ok_or (parse_u64 line) invalid_anchor) λ n. Base.ok (n, rest)

unfoldable pub parse_anchor : Bytes → Checked (ℕ × ℕ)
parse_anchor bytes =
    Base.◌>>=◌ (next_number bytes)
      λ (epoch, rest). Base.◌>>=◌ (next_number rest) λ (sequence, more). Base.ok (epoch, sequence)

-- What is read of the file: a file that is not there is no anchor, and text must be UTF-8.
unfoldable pub anchor_of : FilePath → Checked Bytes → Checked (Option (ℕ × ℕ))
anchor_of path (Base.ok bytes) =
    if is_utf8 bytes
    then Base.◌>>=◌ (parse_anchor bytes) (λ anchor. Base.ok (some anchor))
    else Base.err (io path other)
anchor_of path (Base.err (io q not_found)) = Base.ok none
anchor_of path (Base.err e) = Base.err e

abbrev pub answer_of : FilePath → Checked Bytes × World → Checked (Option (ℕ × ℕ)) × World
answer_of path (answer, w) = (anchor_of path answer, w)

unfoldable pub read_anchor : Os → FilePath → Action (Option (ℕ × ℕ))
read_anchor os path w = answer_of path (read_required os path w)

-- `path.with_extension("tmp")` of a path that ends in a file name. `stem` is what stands before the
-- last dot of the name, where that does not begin the name, and `whole` is all that was read.
tmp_from : (stem : Option String) (whole : String) (in_name : Bool) → String → String
tmp_from stem whole in_name String.[] =
    if in_name then String.◌++◌ (unwrap_or stem whole) ".tmp" else whole
tmp_from stem whole in_name (String.◌∷◌ c s) =
    let slash = eqb (code c) b'/' in
    tmp_from (if slash then none else if eqb (code c) b'.' && in_name then some whole else stem)
      (String.◌++◌ whole (String.◌∷◌ c String.[])) (not slash) s

unfoldable pub with_tmp : FilePath → FilePath
unfolding tmp_from
with_tmp path = tmp_from none "" false path

unfoldable pub write_anchor : Os → FilePath → (epoch sequence : ℕ) → Action (Unit {0})
write_anchor os path epoch sequence = do
  prepare_directory os (parent_of path)
  write_file os (with_tmp path) (anchor_bytes epoch sequence)
  protect_file os (with_tmp path)
  rename os (with_tmp path) path

with_tmp_tests :
    (with_tmp "/a.b/anchor" ≡ "/a.b/anchor.tmp")
    × (with_tmp "/a/anchor.txt" ≡ "/a/anchor.tmp")
    × (with_tmp "/a/.anchor" ≡ "/a/.anchor.tmp")
unfolding with_tmp
with_tmp_tests = (refl, refl, refl)
