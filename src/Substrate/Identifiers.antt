-- ===== src/Substrate/Identifiers.antt =====
-- Digests, identifiers and schema versions: `Hash256::parse` of crates/lmml-substrate/src/types.rs,
-- `validate_identifier` and `validate_schema_version` of crates/lmml-substrate/src/storage.rs.
pub mod Safety
use Prim.Native.String.{len}
use lmml.Base.{ℕ, String, Bool, not, ◌&&◌, ◌||◌, ◌==◌, eqb, leb, all, ok, err, if◌then◌else◌}
use lmml.Base.Text.{codes, is_ascii_alphanumeric}
use lmml.Substrate.Types.{Hash256, schema_version_2}
use lmml.Substrate.Errors.{Checked, invalid_hash, invalid_identifier, unsupported_schema_version}

unfoldable pub is_hash_byte : ℕ → Bool
is_hash_byte byte = (leb b'0' byte && leb byte b'9') || (leb b'a' byte && leb byte b'f')

-- A text all of whose code points are ASCII has as many bytes; another is refused either way.
unfoldable pub parse_hash256 : String → Checked Hash256
unfolding is_hash_byte
parse_hash256 value =
    if eqb (len value) 64 && all is_hash_byte (codes value)
    then ok value
    else err (invalid_hash value)

unfoldable pub is_identifier_byte : ℕ → Bool
unfolding is_ascii_alphanumeric
is_identifier_byte byte =
    is_ascii_alphanumeric byte || (eqb byte b'-' || eqb byte b'_' || eqb byte b'.')

unfoldable pub validate_identifier : String → Checked (Unit {0})
unfolding is_identifier_byte
validate_identifier identifier =
    if not (identifier == "")
      && not (identifier == ".")
      && not (identifier == "..")
      && all is_identifier_byte (codes identifier)
    then ok tt
    else err (invalid_identifier identifier)

unfoldable pub validate_schema_version : ℕ → Checked (Unit {0})
validate_schema_version version =
    if eqb version schema_version_2
    then ok tt
    else err (unsupported_schema_version schema_version_2 version)
