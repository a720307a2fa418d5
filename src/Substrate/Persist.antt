-- ===== src/Substrate/Persist.antt =====
-- Write-once publication: `persist_immutable_with_outcome` of crates/lmml-substrate/src/storage.rs,
-- and `preflight_immutable` and `rollback_exact` of crates/lmml-substrate/src/lifecycle.rs.
pub mod Effects
use lmml.Base.{Bool, true, false, not, some, ok, err, if◌then◌else◌, ◌&&◌}
use lmml.Substrate.Types.{FilePath}
use lmml.Substrate.Errors.{IoKind, already_exists, SubstrateError, io, lifecycle_conflict}
use lmml.Substrate.Disk.{
  Bytes, bytes_eq, Os, World, Action, ◌>>=◌, ◌>>◌, lift, attempt, is_file, read_required,
  persist_noclobber, published, refused, Published, remove_file, directory_of,
}

pub data PersistOutcome : Type 0 where
  created existing : PersistOutcome

-- The bytes that are there are the payload, or the path is in conflict.
unfoldable pub accept_existing :
    Os → FilePath → Bytes → (FilePath → SubstrateError) → Action PersistOutcome
accept_existing os path payload conflict = do
  found ← read_required os path
  lift (if bytes_eq found payload then ok existing else err (conflict path))

abbrev publish_new :
    Os → FilePath → Bytes → (FilePath → SubstrateError) → Published → Action PersistOutcome
publish_new os path payload conflict published = lift (ok created)
publish_new os path payload conflict (refused already_exists) =
    accept_existing os path payload conflict
publish_new os path payload conflict (refused kind) = lift (err (io path kind))

write_temporary : Os → Action (Unit {0})
write_temporary os w = attempt os (os.temporary w.calls) w

unfoldable pub create_new :
    Os → FilePath → Bytes → (FilePath → SubstrateError) → Action PersistOutcome
unfolding write_temporary
create_new os path payload conflict = do
  attempt os (directory_of path)
  write_temporary os
  answer ← persist_noclobber os path payload
  publish_new os path payload conflict answer

unfoldable pub persist_immutable_with_outcome :
    Os → FilePath → Bytes → (FilePath → SubstrateError) → Action PersistOutcome
unfolding accept_existing create_new
persist_immutable_with_outcome os path payload conflict = do
  attempt os (directory_of path)
  there ← is_file os path
  if there then accept_existing os path payload conflict else create_new os path payload conflict

unfoldable pub persist_immutable :
    Os → FilePath → Bytes → (FilePath → SubstrateError) → Action (Unit {0})
unfolding persist_immutable_with_outcome
persist_immutable os path payload conflict = do
  outcome ← persist_immutable_with_outcome os path payload conflict
  lift (ok tt)

unfoldable pub preflight_immutable :
    Os → FilePath → Bytes → (FilePath → SubstrateError) → Action (Unit {0})
preflight_immutable os path payload conflict = do
  there ← is_file os path
  if there
      then (do
        found ← read_required os path
        lift (if not (bytes_eq found payload) then err (conflict path) else ok tt))
      else lift (ok tt)

unfoldable pub rollback_exact : Os → FilePath → Bytes → Action (Unit {0})
rollback_exact os path payload = do
  found ← read_required os path
  if not (bytes_eq found payload) then lift (err (lifecycle_conflict path)) else remove_file os path
