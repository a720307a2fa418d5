-- ===== src/Substrate/Disk.antt =====
-- The files that crates/lmml-substrate reads and writes by `std::fs`, and the calls that it makes.
-- A disk maps the path of a regular file to its bytes; directories are not modelled. An `Os` says
-- what the machine and other processes do at the n-th call: whether it fails, and whether another
-- process creates the file just before it. It also names the temporary files, and says
-- how many bytes a write that fails leaves behind.
pub mod Frame
pub mod Chains
use Prim.Native.String
use lmml.Base.{
  ℕ, suc, String, Bool, true, false, Option, none, some, List, [], ◌∷◌, ◌&&◌, ◌||◌, all, not, ◌≡◌,
  refl, ◌==◌, eqb, is_some, if◌then◌else◌,
}
use Prim.Native.Char.{code}
use lmml.Base
use lmml.Base.Text.{codes, starts_with, has_prefix}
use lmml.Substrate.Types.{FilePath}
use lmml.Substrate.Errors.{IoKind, already_exists, not_found, SubstrateError, io, Checked}

abbrev pub Bytes : Type 0
Bytes = List ℕ

abbrev pub bytes_eq : Bytes → Bytes → Bool
bytes_eq [] [] = true
bytes_eq (a ∷ xs) (b ∷ ys) = eqb a b && bytes_eq xs ys
bytes_eq _ _ = false

abbrev pub Disk : Type 0
Disk = FilePath → Option Bytes

abbrev pub write : Disk → FilePath → Option Bytes → Disk
write disk path content q = if path == q then content else disk q

pub record Os : Type 0 where
  pub fault : ℕ → Option IoKind
  pub read_fault : ℕ → Option IoKind
  pub remove_fault : ℕ → Option IoKind
  pub intruder : ℕ → Option Bytes
  pub temporary : ℕ → FilePath
  pub written : ℕ → ℕ

pub record World : Type 0 where
  pub disk : Disk
  pub calls : ℕ

-- A call that mutates the disk, and its `Result`: what was written stays written after an error.
abbrev pub Action {ℓ} : Type ℓ → Type ℓ
Action A = World → Checked A × World

module _ {ℓ κ} {A : Type ℓ} {B : Type κ} where
  abbrev pub continue : Checked A → (A → Action B) → Action B
  continue (Base.ok a) f w = f a w
  continue (Base.err e) f w = (Base.err e, w)

  infixl 5 ◌>>=◌
  unfoldable pub ◌>>=◌ : Action A → (A → Action B) → Action B
  ◌>>=◌ m f w = let (r, w') = m w in continue r f w'

module _ {ℓ} {B : Type ℓ} where
  infixl 5 ◌>>◌
  abbrev pub ◌>>◌ : Action (Unit {0}) → Action B → Action B
  m >> k = m >>= λ _. k

module _ {ℓ} {A : Type ℓ} where
  unfoldable pub lift : Checked A → Action A
  lift r w = (r, w)

abbrev tick : World → World
tick w = record w { calls = suc w.calls }

-- A call that fails or does nothing to the files: `fs::create_dir_all`, or writing a temporary file.
unfoldable pub attempt : Os → FilePath → Action (Unit {0})
attempt os path w = elim (os.fault w.calls) [
  | some kind ↦ (Base.err (io path kind), tick w)
  | none ↦ (Base.ok tt, tick w)
]

-- `path.is_file()`: false also where the metadata cannot be read.
unfoldable pub is_file : Os → FilePath → Action Bool
is_file os path w =
    (Base.ok (if is_some (os.fault w.calls) then false else is_some (w.disk path)), tick w)

-- `read_required(path)`
unfoldable pub read_required : Os → FilePath → Action Bytes
read_required os path w = elim (os.read_fault w.calls) [
  | some kind ↦ (Base.err (io path kind), tick w)
  | none ↦ elim (w.disk path) [
    | none ↦ (Base.err (io path not_found), tick w)
    | some bytes ↦ (Base.ok bytes, tick w)
  ]
]

pub data Published : Type 0 where
  published : Published
  refused : IoKind → Published

-- `temporary.persist_noclobber(path)`: creates the file, or leaves the one that is there.
unfoldable pub persist_noclobber : Os → FilePath → Bytes → Action Published
persist_noclobber os path payload w = elim (os.fault w.calls) [
  | some kind ↦ (Base.ok (refused kind), tick w)
  | none ↦ elim (w.disk path) [
    | some bytes ↦ (Base.ok (refused already_exists), tick w)
    | none ↦ elim (os.intruder w.calls) [
      | some bytes ↦ (
        Base.ok (refused already_exists),
        record { disk = write w.disk path (some bytes); calls = suc w.calls },
      )
      | none ↦ (
        Base.ok published,
        record { disk = write w.disk path (some payload); calls = suc w.calls },
      )
    ]
  ]
]

-- `fs::remove_file(path)`
unfoldable pub remove_file : Os → FilePath → Action (Unit {0})
remove_file os path w = elim (os.remove_fault w.calls) [
  | some kind ↦ (Base.err (io path kind), tick w)
  | none ↦ elim (w.disk path) [
    | none ↦ (Base.err (io path not_found), tick w)
    | some bytes ↦ (Base.ok tt, record { disk = write w.disk path none; calls = suc w.calls })
  ]
]

abbrev pub ends_in_slash : List ℕ → Bool
ends_in_slash [] = false
ends_in_slash (c ∷ []) = eqb c b'/'
ends_in_slash (c ∷ d ∷ cs) = ends_in_slash (d ∷ cs)

-- `path.parent()`, or the empty path where there is none. `whole` is what was read, `above` what stood
-- before its last run of slashes, and `found` the parent of what ends at the last other character.
directory_from : (found above whole : String) → (in_slashes : Bool) → String → String
directory_from found above whole in_slashes String.[] = found
directory_from found above whole in_slashes (String.◌∷◌ c s) =
    let slash = eqb (code c) b'/' in
    directory_from (if not slash && in_slashes then above else found)
      (if slash && not in_slashes then (if whole == "" then "/" else whole) else above)
      (String.◌++◌ whole (String.◌∷◌ c String.[])) slash s

-- `path.parent()`: the root and the empty path have none.
unfoldable pub parent_of : FilePath → Option FilePath
unfolding directory_from
parent_of path =
    if all (λ c. eqb c b'/') (codes path) then none else some (directory_from "" "" "" false path)

-- The parent, or "." where that is missing or empty.
unfoldable pub directory_of : FilePath → FilePath
unfolding directory_from
directory_of path =
    let parent = directory_from "" "" "" false path in if parent == "" then "." else parent

-- `path.join(name)`
unfoldable pub join : FilePath → String → FilePath
join path name =
    if starts_with "/" name || path == ""
    then name
    else if ends_in_slash (codes path)
    then String.◌++◌ path name
    else String.◌++◌ path (String.◌++◌ "/" name)

directory_of_tests :
    (directory_of "/a/b.json" ≡ "/a")
    × (directory_of "/a" ≡ "/")
    × (directory_of "a" ≡ ".")
    × (directory_of "m/n//o/" ≡ "m/n")
unfolding directory_of
directory_of_tests = (refl, refl, refl, refl)

join_tests :
    (join "/a" "b.json" ≡ "/a/b.json")
    × (join "/a/" "b.json" ≡ "/a/b.json")
    × (join "/a" "/b" ≡ "/b")
    × (parent_of "/" ≡ none)
unfolding join parent_of has_prefix
join_tests = (refl, refl, refl, refl)
