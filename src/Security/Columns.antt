-- ===== src/Security/Columns.antt =====
-- src/security/encrypted-column.transformer.ts: how an encrypted column is written and read. The instance
-- that the module keeps is the argument `registered`.
pub mod RoundTrip
use dupdap_backend.Base.{
  ℕ, Bool, true, false, ◌||◌, List, [], ◌∷◌, Option, none, some, Result, ok, err, if◌then◌else◌,
  is_empty, starts_with,
}
use dupdap_backend.Security.Encryption.{Node, DecryptError, EncryptionService, encrypt, decrypt}

-- `not_registered` is the Error of `getEncryptionService`, `decryption_failed` the
-- DecryptionFailedException.
pub data ColumnError : Type 0 where
  not_registered : ColumnError
  decryption_failed : DecryptError → ColumnError

-- "encv1:"
abbrev pub written_prefix : List ℕ
written_prefix = 101 ∷ 110 ∷ 99 ∷ 118 ∷ 49 ∷ 58 ∷ []

unfoldable pub to_column :
    Node
    → (registered : Option EncryptionService) (iv : List ℕ) → Option (List ℕ)
    → Result ColumnError (Option (List ℕ))
to_column node registered iv none = ok none
to_column node registered iv (some value) =
    if is_empty value || starts_with value written_prefix
    then ok (some value)
    else elim registered [
      | none ↦ err not_registered
      | some service ↦ ok (some (encrypt node service iv value))
    ]

unfoldable pub from_column :
    Node
    → (registered : Option EncryptionService) → Option (List ℕ)
    → Result ColumnError (Option (List ℕ))
from_column node registered none = ok none
from_column node registered (some value) =
    if is_empty value then ok (some value) else elim registered [
      | none ↦ err not_registered
      | some service ↦ elim (decrypt node service value) [
        | err e ↦ err (decryption_failed e)
        | ok text ↦ ok (some text)
      ]
    ]
