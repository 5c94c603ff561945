-- ===== src/Security/Encryption/RoundTrip.antt =====
-- What the service reads of what it has written (src/security/encryption.service.ts).
use dupdap_backend.Base.{
  ℕ, ◌≡◌, ◌∙◌, sym, ap, refl, false, List, [], ◌∷◌, ◌++◌, Option, none, some, length, Result, ok,
  err, true, arith, is_empty, starts_with, split_on, Lacks, split_on-piece, split_on-last,
  same_text, is_empty-nil, Bool-cases, inl, inr, ◌<◌,
}
use dupdap_backend.Security.Encryption.{
  Node, IsNode, DecryptError, EncryptionService, decrypt, decrypt_split, decrypt_parts, encrypt,
  reading_key, join_four, encrypted_prefix, colon, gcm_iv_bytes, gcm_tag_bytes, not_authentic,
  aes_key_bytes, well_formed,
}

-- The parts of a joined text.
split_on-join_four :
    (a b c d : List ℕ)
    → Lacks colon a
    → Lacks colon b
    → Lacks colon c
    → Lacks colon d
    → split_on colon [] (join_four a b c d) ≡ a ∷ b ∷ c ∷ d ∷ []
split_on-join_four a b c d ha hb hc hd =
    rw
      (
        split_on-piece colon [] a (b ++ colon ∷ (c ++ colon ∷ d)) ha,
        split_on-piece colon [] b (c ++ colon ∷ d) hb,
        split_on-piece colon [] c d hc,
        split_on-last colon [] d hd,
      )
      refl

-- What comes out of the cipher under a key.
abbrev pub opened :
    Node
    → (key : List ℕ) → (iv : List ℕ) → (sealed : List ℕ × List ℕ) → Result DecryptError (List ℕ)
opened node key iv sealed = elim (node.unseal key iv sealed.0 sealed.1) [
  | none ↦ err not_authentic
  | some bytes ↦ ok (node.from_utf8 bytes)
]

-- A joined text of parts that are not empty reaches the cipher.
decrypt-join_four :
    (node : Node) (service : EncryptionService) (a b c : List ℕ)
    → Lacks colon a
    → Lacks colon b
    → Lacks colon c
    → is_empty a ≡ false
    → is_empty b ≡ false
    → is_empty c ≡ false
    → decrypt node service (join_four encrypted_prefix a b c) ≡ decrypt_parts node service a b c
unfolding decrypt decrypt_split same_text starts_with
decrypt-join_four node service a b c ha hb hc fa fb fc =
    rw (split_on-join_four encrypted_prefix a b c (refl, (refl, (refl, (refl, tt)))) ha hb hc)
      (rw (fa, fb, fc) refl)

module _ (node : Node) (laws : IsNode node) where
  open laws use {
    from_base64-to_base64, from_base64-nil, to_base64-Lacks, from_utf8-to_utf8, from_utf8-nil,
    seal-tag, seal-nil, unseal-seal,
  }

  -- Only nothing is encoded as nothing.
  to_base64-filled :
      (bytes : List ℕ) → is_empty bytes ≡ false → is_empty (node.to_base64 bytes) ≡ false
  to_base64-filled bytes h = elim (Bool-cases (is_empty (node.to_base64 bytes))) [
    | inr filled ↦ filled
    | inl none_left ↦
        let e : node.to_base64 bytes ≡ [] = is_empty-nil (node.to_base64 bytes) none_left in
        let same : bytes ≡ [] =
          sym (from_base64-to_base64 bytes) ∙ ap node.from_base64 e ∙ from_base64-nil in
        cc (ap is_empty same)
  ]

  to_utf8-filled :
      (text : List ℕ)
      → well_formed text ≡ true
      → is_empty text ≡ false
      → is_empty (node.to_utf8 text) ≡ false
  to_utf8-filled text formed h = elim (Bool-cases (is_empty (node.to_utf8 text))) [
    | inr filled ↦ filled
    | inl none_left ↦
        let e : node.to_utf8 text ≡ [] = is_empty-nil (node.to_utf8 text) none_left in
        let same : text ≡ [] =
          sym (from_utf8-to_utf8 text formed) ∙ ap node.from_utf8 e ∙ from_utf8-nil in
        cc (ap is_empty same)
  ]

  sealed-filled :
      (key iv bytes : List ℕ)
      → length key ≡ aes_key_bytes
      → is_empty bytes ≡ false
      → is_empty (node.seal key iv bytes).1 ≡ false
  sealed-filled key iv bytes key_size h = elim (Bool-cases (is_empty (node.seal key iv bytes).1)) [
    | inr filled ↦ filled
    | inl none_left ↦
        let same : bytes ≡ [] = seal-nil key iv bytes key_size (is_empty-nil _ none_left) in
        cc (ap is_empty same)
  ]

  sized_filled : (bytes : List ℕ) → 0 < length bytes → is_empty bytes ≡ false
  sized_filled [] h = ground arith
  sized_filled (b ∷ bytes) h = refl

  decrypt_parts-to_base64 :
      (service : EncryptionService) (iv tag bytes : List ℕ)
      → length iv ≡ gcm_iv_bytes
      → length tag ≡ gcm_tag_bytes
      → decrypt_parts node service (node.to_base64 iv) (node.to_base64 tag) (node.to_base64 bytes)
        ≡ opened node (reading_key service) iv (tag, bytes)
  unfolding decrypt_parts
  decrypt_parts-to_base64 service iv tag bytes hi ht =
      rw (from_base64-to_base64 iv, from_base64-to_base64 tag, from_base64-to_base64 bytes, hi, ht)
        refl

  -- A text that is not empty and a nonce of 12 bytes: `decrypt` of what `encrypt` has written is what the
  -- cipher opens under the key that `decrypt` reads with.
  pub decrypt-encrypt_filled :
      (service : EncryptionService) (iv text : List ℕ)
      → length iv ≡ gcm_iv_bytes
      → length service.key ≡ aes_key_bytes
      → well_formed text ≡ true
      → is_empty text ≡ false
      → decrypt node service (encrypt node service iv text)
        ≡ opened node (reading_key service) iv (node.seal service.key iv (node.to_utf8 text))
  unfolding encrypt
  decrypt-encrypt_filled service iv text iv_size key_size formed filled =
      let sealed = node.seal service.key iv (node.to_utf8 text) in
      let tag_size = seal-tag service.key iv (node.to_utf8 text) key_size in
      rw filled (
        decrypt-join_four node service (node.to_base64 iv) (node.to_base64 sealed.0)
          (node.to_base64 sealed.1) (to_base64-Lacks iv) (to_base64-Lacks sealed.0)
          (to_base64-Lacks sealed.1)
          (to_base64-filled iv (sized_filled iv (omega (arith, iv_size))))
          (to_base64-filled sealed.0 (sized_filled sealed.0 (omega (arith, tag_size))))
          (to_base64-filled sealed.1 (
            sealed-filled service.key iv (node.to_utf8 text) key_size
              (to_utf8-filled text formed filled)))
        ∙ decrypt_parts-to_base64 service iv sealed.0 sealed.1 iv_size tag_size)

  -- Where `decrypt` reads with the active key (no previous key is configured, or it is the same one), it gives
  -- every well-formed text back that `encrypt` has written, the empty one included, under any nonce of 12 bytes.
  pub decrypt-encrypt :
      (service : EncryptionService) (iv text : List ℕ)
      → length iv ≡ gcm_iv_bytes
      → length service.key ≡ aes_key_bytes
      → well_formed text ≡ true
      → reading_key service ≡ service.key
      → decrypt node service (encrypt node service iv text) ≡ ok text
  decrypt-encrypt service iv [] iv_size key_size formed same = unfold decrypt encrypt in refl
  decrypt-encrypt service iv (c ∷ text) iv_size key_size formed same =
      decrypt-encrypt_filled service iv (c ∷ text) iv_size key_size formed refl
      ∙ ap (λ key. opened node key iv (node.seal service.key iv (node.to_utf8 (c ∷ text)))) same
      ∙ rw (unseal-seal service.key iv (node.to_utf8 (c ∷ text)) key_size, opened)
          (ap ok (from_utf8-to_utf8 (c ∷ text) formed))

  -- While a previous key is configured that does not open what the active key has sealed, no text that is
  -- encrypted is readable: `decrypt` throws.
  decrypt-encrypt_rotated :
      (service : EncryptionService) (iv text previous : List ℕ)
      → length iv ≡ gcm_iv_bytes
      → length service.key ≡ aes_key_bytes
      → well_formed text ≡ true
      → is_empty text ≡ false
      → service.previous_key ≡ some previous
      → (let sealed = node.seal service.key iv (node.to_utf8 text) in
          node.unseal previous iv sealed.0 sealed.1)
        ≡ none
      → decrypt node service (encrypt node service iv text) ≡ err not_authentic
  decrypt-encrypt_rotated service iv text previous iv_size key_size formed filled given closed =
      let reads : reading_key service ≡ previous =
        ap (λ (p : Option (List ℕ)). elim p [ none ↦ service.key | some key ↦ key ]) given in
      decrypt-encrypt_filled service iv text iv_size key_size formed filled
      ∙ ap (λ key. opened node key iv (node.seal service.key iv (node.to_utf8 text))) reads
      ∙ rw (closed, opened) refl
