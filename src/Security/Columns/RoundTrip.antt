-- ===== src/Security/Columns/RoundTrip.antt =====
-- What is read back of an encrypted column (src/security/encrypted-column.transformer.ts).
use dupdap_backend.Base.{
  ℕ, ◌≡◌, refl, Bool, true, false, ◌++◌, List, [], ◌∷◌, Option, none, some, length, Result, ok, err,
  arith, is_empty, starts_with, Bool-cases, inl, inr,
}
use dupdap_backend.Security.Encryption.{
  Node, IsNode, EncryptionService, decrypt, encrypt, reading_key, encrypted_prefix, colon,
  gcm_iv_bytes, aes_key_bytes, well_formed,
}
use dupdap_backend.Security.Encryption.RoundTrip.{decrypt-encrypt}
use dupdap_backend.Security.Columns.{
  ColumnError, not_registered, to_column, from_column, written_prefix,
}

-- A text with the prefix of the column has not the prefix of the service.
prefixes_differ :
    (value : List ℕ)
    → starts_with value written_prefix ≡ true
    → starts_with value (encrypted_prefix ++ colon ∷ []) ≡ false
unfolding starts_with
prefixes_differ [] h = cc
prefixes_differ (a ∷ []) h = ground arith
prefixes_differ (a ∷ b ∷ []) h = ground arith
prefixes_differ (a ∷ b ∷ c ∷ value) h = ground arith

-- A text that is not the service's is read as it stands.
pub decrypt-plain :
    (node : Node) (service : EncryptionService) (value : List ℕ)
    → starts_with value (encrypted_prefix ++ colon ∷ []) ≡ false
    → decrypt node service value ≡ ok value
unfolding decrypt
decrypt-plain node service [] h = refl
decrypt-plain node service (c ∷ value) h = rw h refl

encrypt-filled :
    (node : Node) (service : EncryptionService) (iv value : List ℕ)
    → is_empty value ≡ false
    → is_empty (encrypt node service iv value) ≡ false
unfolding encrypt
encrypt-filled node service iv value h = rw h refl

pub from_column-plain :
    (node : Node) (service : EncryptionService) (value text : List ℕ)
    → is_empty value ≡ false
    → decrypt node service value ≡ ok text
    → from_column node (some service) (some value) ≡ ok (some text)
unfolding from_column
from_column-plain node service value text filled reads = rw filled (rw reads refl)

-- What a text that is encrypted is read as.
pub from_column-encrypt :
    (node : Node) (service : EncryptionService) (iv value text : List ℕ)
    → is_empty value ≡ false
    → decrypt node service (encrypt node service iv value) ≡ ok text
    → from_column node (some service) (some (encrypt node service iv value)) ≡ ok (some text)
from_column-encrypt node service iv value text filled =
    from_column-plain node service (encrypt node service iv value) text
      (encrypt-filled node service iv value filled)

-- A value that is written to the column and read again.
abbrev pub reread :
    Node
    → (registered : Option EncryptionService) (iv : List ℕ) → Option (List ℕ)
    → Result ColumnError (Option (List ℕ))
reread node registered iv value = elim (to_column node registered iv value) [
  | err e ↦ err e
  | ok stored ↦ from_column node registered stored
]

to_column-marked :
    (node : Node) (registered : Option EncryptionService) (iv value : List ℕ)
    → starts_with value written_prefix ≡ true
    → to_column node registered iv (some value) ≡ ok (some value)
unfolding to_column
to_column-marked node registered iv [] h = refl
to_column-marked node registered iv (c ∷ value) h = rw h refl

pub to_column-fresh :
    (node : Node) (service : EncryptionService) (iv value : List ℕ)
    → is_empty value ≡ false
    → starts_with value written_prefix ≡ false
    → to_column node (some service) iv (some value) ≡ ok (some (encrypt node service iv value))
unfolding to_column
to_column-fresh node service iv value filled h = rw (filled, h) refl

-- The text of a value; nothing has none.
abbrev pub is_formed : Option (List ℕ) → Bool
is_formed none = true
is_formed (some text) = well_formed text

-- Without an instance: nothing and the empty text are kept, and every other value throws.
abbrev pub unregistered : Option (List ℕ) → Result ColumnError (Option (List ℕ))
unregistered none = ok none
unregistered (some []) = ok (some [])
unregistered (some (c ∷ text)) = err not_registered

reread-unregistered :
    (node : Node) (iv : List ℕ) (value : Option (List ℕ))
    → reread node none iv value ≡ unregistered value
unfolding to_column from_column
reread-unregistered node iv none = refl
reread-unregistered node iv (some []) = refl
reread-unregistered node iv (some (c ∷ value)) =
    elim (Bool-cases (starts_with (c ∷ value) written_prefix)) [
      | inl marked ↦ rw (reread, to_column, marked) refl
      | inr fresh ↦ rw (reread, to_column, fresh) refl
    ]

reread-registered :
    (node : Node) (laws : IsNode node) (service : EncryptionService) (iv : List ℕ)
    (value : Option (List ℕ))
    → length iv ≡ gcm_iv_bytes
    → length service.key ≡ aes_key_bytes
    → reading_key service ≡ service.key
    → is_formed value ≡ true
    → reread node (some service) iv value ≡ ok value
reread-registered node laws service iv none iv_size key_size same formed =
    unfold to_column from_column in refl
reread-registered node laws service iv (some []) iv_size key_size same formed =
    unfold to_column from_column in refl
reread-registered node laws service iv (some (c ∷ value)) iv_size key_size same formed =
    let text = c ∷ value in
    elim (Bool-cases (starts_with text written_prefix)) [
      | inl marked ↦
          rw (to_column-marked node (some service) iv text marked, reread)
            (from_column-plain node service text text refl
              (decrypt-plain node service text (prefixes_differ text marked)))
      | inr fresh ↦
          rw (to_column-fresh node service iv text refl fresh, reread)
            (from_column-encrypt node service iv text text refl
              (decrypt-encrypt node laws service iv text iv_size key_size formed same))
    ]

-- What is written to a column and read again, whatever the value is (nothing, the empty text, a text with
-- the prefix of either file) as long as its surrogates are in pairs. Where no instance is registered, as in
-- the program at this commit, nothing and the empty text are kept and every other value throws. Where an
-- instance with a key of 32 bytes is registered that reads with its active key, the value is read as it was
-- written, under any nonce of 12 bytes.
pub reread_lem :
    (node : Node) (laws : IsNode node) (service : EncryptionService) (iv : List ℕ)
    (value : Option (List ℕ))
    → length iv ≡ gcm_iv_bytes
    → length service.key ≡ aes_key_bytes
    → reading_key service ≡ service.key
    → is_formed value ≡ true
    → (reread node none iv value ≡ unregistered value)
      × (reread node (some service) iv value ≡ ok value)
reread_lem node laws service iv value iv_size key_size same formed = (
  reread-unregistered node iv value,
  reread-registered node laws service iv value iv_size key_size same formed,
)
