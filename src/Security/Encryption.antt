-- ===== src/Security/Encryption.antt =====
-- src/security/encryption.service.ts: the fields that are encrypted at rest. Texts are lists of code units
-- and byte strings lists of bytes. What the service takes from Node (base64, UTF-8 and the cipher
-- aes-256-gcm) is the record `Node`; `IsNode` is what is documented of it.
pub mod RoundTrip
use dupdap_backend.Base.{
  ℕ, ◌≡◌, ◌≢◌, leb, Bool, true, false, not, ◌&&◌, ◌||◌, ◌==◌, List, [], ◌∷◌, ◌++◌, Option, none,
  some, length, Result, ok, err, if◌then◌else◌, is_empty, starts_with, split_on, Lacks, same_text,
}

pub record Node : Type 0 where
  -- `bytes.toString('base64')` and `Buffer.from(text, 'base64')`
  pub to_base64 : List ℕ → List ℕ
  pub from_base64 : List ℕ → List ℕ
  -- `Buffer.from(text, 'hex')`
  pub from_hex : List ℕ → List ℕ
  -- `Buffer.from(text, 'utf8')` and `bytes.toString('utf8')`
  pub to_utf8 : List ℕ → List ℕ
  pub from_utf8 : List ℕ → List ℕ
  -- `createCipheriv('aes-256-gcm', key, iv)` run on the bytes: the tag and the ciphertext.
  pub seal : (key iv bytes : List ℕ) → List ℕ × List ℕ
  -- `createDecipheriv`, `setAuthTag` and the run; `none` where `final` throws.
  pub unseal : (key iv tag bytes : List ℕ) → Option (List ℕ)

-- ":"
abbrev pub colon : ℕ
colon = 58

-- The first and the second code unit of a surrogate pair.
abbrev pub is_high : ℕ → Bool
is_high c = leb 55296 c && leb c 56319

abbrev pub is_low : ℕ → Bool
is_low c = leb 56320 c && leb c 57343

-- Every surrogate is in a pair: only then does UTF-8 keep the text.
unfoldable pub well_formed : List ℕ → Bool
well_formed [] = true
well_formed (c ∷ []) = not (is_high c || is_low c)
well_formed (c ∷ d ∷ text) =
    let paired = well_formed text in
    let single = well_formed (d ∷ text) in
    if is_high c then is_low d && paired else not (is_low c) && single

-- The cipher takes keys of 32 bytes.
abbrev pub aes_key_bytes : ℕ
aes_key_bytes = 32

pub record IsNode (n : Node) : Type 0 where
  pub from_base64-to_base64 : (bytes : List ℕ) → n.from_base64 (n.to_base64 bytes) ≡ bytes
  pub from_base64-nil : n.from_base64 [] ≡ []
  pub to_base64-Lacks : (bytes : List ℕ) → Lacks colon (n.to_base64 bytes)
  pub from_utf8-to_utf8 :
      (text : List ℕ) → well_formed text ≡ true → n.from_utf8 (n.to_utf8 text) ≡ text
  pub from_utf8-nil : n.from_utf8 [] ≡ []
  pub seal-tag :
      (key iv bytes : List ℕ) → length key ≡ aes_key_bytes → length (n.seal key iv bytes).0 ≡ 16
  pub seal-nil :
      (key iv bytes : List ℕ)
      → length key ≡ aes_key_bytes
      → (n.seal key iv bytes).1 ≡ []
      → bytes ≡ []
  pub unseal-seal :
      (key iv bytes : List ℕ)
      → length key ≡ aes_key_bytes
      → n.unseal key iv (n.seal key iv bytes).0 (n.seal key iv bytes).1 ≡ some bytes

-- What `decrypt` and `decryptLegacy` throw.
pub data DecryptError : Type 0 where
  invalid_format invalid_components invalid_legacy not_authentic : DecryptError

-- "env1"
abbrev pub encrypted_prefix : List ℕ
encrypted_prefix = 101 ∷ 110 ∷ 118 ∷ 49 ∷ []

abbrev pub gcm_iv_bytes : ℕ
gcm_iv_bytes = 12

abbrev pub gcm_tag_bytes : ℕ
gcm_tag_bytes = 16

pub record EncryptionService : Type 0 where
  pub key : List ℕ
  pub previous_key : Option (List ℕ)
  pub key_version : ℕ

-- `this.previousKey ?? this.key`
abbrev pub reading_key : EncryptionService → List ℕ
reading_key service = elim service.previous_key [ none ↦ service.key | some key ↦ key ]

-- `[a, b, c, d].join(':')`
abbrev pub join_four : (a b c d : List ℕ) → List ℕ
join_four a b c d = a ++ colon ∷ (b ++ colon ∷ (c ++ colon ∷ d))

-- The three parts behind the prefix.
unfoldable pub decrypt_parts :
    Node → EncryptionService → (iv_b64 tag_b64 payload_b64 : List ℕ) → Result DecryptError (List ℕ)
decrypt_parts node service iv_b64 tag_b64 payload_b64 =
    let iv = node.from_base64 iv_b64 in
    let auth_tag = node.from_base64 tag_b64 in
    if not (length iv == gcm_iv_bytes) || not (length auth_tag == gcm_tag_bytes)
    then err invalid_components
    else (elim (node.unseal (reading_key service) iv auth_tag (node.from_base64 payload_b64)) [
      | none ↦ err not_authentic
      | some bytes ↦ ok (node.from_utf8 bytes)
    ])

-- From the parts of the text.
unfoldable pub decrypt_split :
    Node → EncryptionService → (parts : List (List ℕ)) → Result DecryptError (List ℕ)
unfolding decrypt_parts
decrypt_split node service (prefix ∷ iv_b64 ∷ tag_b64 ∷ payload_b64 ∷ []) =
    if not (same_text prefix encrypted_prefix)
      || (is_empty iv_b64 || (is_empty tag_b64 || is_empty payload_b64))
    then err invalid_format
    else decrypt_parts node service iv_b64 tag_b64 payload_b64
decrypt_split node service parts = err invalid_format

unfoldable pub decrypt :
    Node → EncryptionService → (ciphertext : List ℕ) → Result DecryptError (List ℕ)
unfolding decrypt_split
decrypt node service ciphertext =
    if is_empty ciphertext
    then ok ciphertext
    else (if not (starts_with ciphertext (encrypted_prefix ++ colon ∷ []))
        then ok ciphertext
        else decrypt_split node service (split_on colon [] ciphertext))

-- `randomBytes(GCM_IV_BYTES)` is an argument.
unfoldable pub encrypt : Node → EncryptionService → (iv plaintext : List ℕ) → List ℕ
encrypt node service iv plaintext =
    if is_empty plaintext
    then plaintext
    else (let sealed = node.seal service.key iv (node.to_utf8 plaintext) in
        join_four encrypted_prefix (node.to_base64 iv) (node.to_base64 sealed.0)
          (node.to_base64 sealed.1))

-- From the parts of the text; parts that are missing are `undefined`, and what follows the second is ignored.
decrypt_legacy_split :
    Node → EncryptionService → (iv : List ℕ) (parts : List (List ℕ)) → Result DecryptError (List ℕ)
decrypt_legacy_split node service iv (auth_tag_hex ∷ encrypted_hex ∷ parts) =
    if is_empty auth_tag_hex || is_empty encrypted_hex
    then err invalid_legacy
    else (elim (node.unseal (reading_key service) iv (node.from_hex auth_tag_hex)
        (node.from_hex encrypted_hex)) [
          | none ↦ err not_authentic
          | some bytes ↦ ok (node.from_utf8 bytes)
        ])
decrypt_legacy_split node service iv parts = err invalid_legacy

unfoldable pub decrypt_legacy :
    Node → EncryptionService → (ciphertext iv_hex : List ℕ) → Result DecryptError (List ℕ)
unfolding decrypt_legacy_split
decrypt_legacy node service ciphertext iv_hex =
    decrypt_legacy_split node service (node.from_hex iv_hex) (split_on colon [] ciphertext)

unfoldable pub reencrypt :
    Node → EncryptionService → (iv ciphertext : List ℕ) → Result DecryptError (List ℕ × ℕ)
unfolding decrypt encrypt
reencrypt node service iv ciphertext = elim (decrypt node service ciphertext) [
  | err e ↦ err e
  | ok plaintext ↦ ok (encrypt node service iv plaintext, service.key_version)
]
