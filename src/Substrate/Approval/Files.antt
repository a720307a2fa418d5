-- ===== src/Substrate/Approval/Files.antt =====
-- The file operations of crates/lmml-substrate/src/approval.rs: its own `persist_immutable`, which
-- creates the file before it writes, and the protection of files and directories. Permissions are not
-- modelled, so such a call fails or does nothing.
pub mod Leaves
pub mod Stored
use lmml.Base
use lmml.Base.{◌==◌, eqb, if◌then◌else◌, none, some, take, Option, List, ◌∷◌, [], suc}
use lmml.Substrate.Types.{FilePath}
use lmml.Substrate.Errors.{not_found, already_exists, SubstrateError, io}
use lmml.Substrate.Disk.{
  Bytes, bytes_eq, Disk, write, Os, Action, ◌>>=◌, ◌>>◌, lift, attempt, read_required, Published,
  published, refused, persist_noclobber,
}

-- `file.write_all(payload)` on a file that is empty: a write that fails leaves the first bytes.
unfoldable pub write_all : Os → FilePath → Bytes → Action (Unit {0})
write_all os path payload w = elim (os.fault w.calls) [
  | some kind ↦ (
    Base.err (io path kind),
    record {
      disk = write w.disk path (some (take (os.written w.calls) payload));
      calls = suc w.calls;
    },
  )
  | none ↦ (Base.ok tt, record { disk = write w.disk path (some payload); calls = suc w.calls })
]

-- `File::create(path)`
unfoldable pub create_file : Os → FilePath → Action (Unit {0})
create_file os path w = elim (os.fault w.calls) [
  | some kind ↦ (Base.err (io path kind), record w { calls = suc w.calls })
  | none ↦ (Base.ok tt, record { disk = write w.disk path (some []); calls = suc w.calls })
]

-- `fs::write(path, payload)`
unfoldable pub write_file : Os → FilePath → Bytes → Action (Unit {0})
write_file os path payload = do create_file os path; write_all os path payload

abbrev moved : Disk → (source target : FilePath) → Disk
moved disk source target =
    if source == target then disk else write (write disk target (disk source)) source none

-- `fs::rename(source, target)`
unfoldable pub rename : Os → (source target : FilePath) → Action (Unit {0})
rename os source target w = elim (os.fault w.calls) [
  | some kind ↦ (Base.err (io target kind), record w { calls = suc w.calls })
  | none ↦ elim (w.disk source) [
    | none ↦ (Base.err (io target not_found), record w { calls = suc w.calls })
    | some bytes ↦ (Base.ok tt, record { disk = moved w.disk source target; calls = suc w.calls })
  ]
]

-- `OpenOptions::new().write(true).create_new(true).open(path)`
unfoldable pub open_new : Os → FilePath → Action Published
open_new os path = persist_noclobber os path []

unfoldable pub accept_equal :
    Os → FilePath → Bytes → (FilePath → SubstrateError) → Action (Unit {0})
accept_equal os path payload conflict = do
  found ← read_required os path
  lift (if bytes_eq found payload then Base.ok tt else Base.err (conflict path))

unfoldable pub fill_new :
    Os → FilePath → Bytes → (FilePath → SubstrateError) → Published → Action (Unit {0})
fill_new os path payload conflict published = do write_all os path payload; attempt os path
fill_new os path payload conflict (refused already_exists) = accept_equal os path payload conflict
fill_new os path payload conflict (refused kind) = lift (Base.err (io path kind))

unfoldable pub persist_immutable :
    Os → FilePath → Bytes → (FilePath → SubstrateError) → Action (Unit {0})
persist_immutable os path payload conflict = do
  answer ← open_new os path
  fill_new os path payload conflict answer

unfoldable pub protect_directory : Os → FilePath → Action (Unit {0})
protect_directory os path = attempt os path

unfoldable pub protect_file : Os → FilePath → Action (Unit {0})
protect_file os path = attempt os path

-- The metadata are read, then written back.
unfoldable pub make_read_only : Os → FilePath → Action (Unit {0})
make_read_only os path = do attempt os path; attempt os path

-- `if let Some(parent) = path.parent() { create_dir_all(parent)?; protect_directory(parent)?; }`
unfoldable pub prepare_directory : Os → Option FilePath → Action (Unit {0})
prepare_directory os none = lift (Base.ok tt)
prepare_directory os (some parent) = do attempt os parent; protect_directory os parent
