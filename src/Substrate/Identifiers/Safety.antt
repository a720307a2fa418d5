-- ===== src/Substrate/Identifiers/Safety.antt =====
-- What `validate_identifier` of crates/lmml-substrate/src/storage.rs keeps out of a file name.
use lmml.Base.{ℕ, String, false, ◌≡◌, ◌≢◌, refl, arith, ok, eq_iff, In, all-In}
use lmml.Base.Text.{codes, is_ascii_alphanumeric}
use lmml.Substrate.Identifiers.{is_identifier_byte, validate_identifier}

slash_refused : is_identifier_byte b'/' ≡ false
unfolding is_identifier_byte is_ascii_alphanumeric
slash_refused = refl

-- An accepted identifier is one component of a path: it is not empty, it is not the name of the
-- directory or of its parent, and no slash stands in it.
pub validate_identifier-IsComponent :
    (identifier : String)
    → validate_identifier identifier ≡ ok tt
    → (identifier ≢ "")
      × (identifier ≢ ".")
      × (identifier ≢ "..")
      × ((byte : ℕ) → In byte (codes identifier) → byte ≢ b'/')
unfolding validate_identifier
validate_identifier-IsComponent identifier h = (
  λ e. ground (arith, (eq_iff identifier "").1 e),
  λ e. ground (arith, (eq_iff identifier ".").1 e),
  λ e. ground (arith, (eq_iff identifier "..").1 e),
  λ byte i e.
      ground (
        arith,
        slash_refused,
        e,
        all-In is_identifier_byte (codes identifier) (ground arith) byte i,
      ),
)
