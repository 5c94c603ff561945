-- ===== src/Wallet/Keys/Rotation.antt =====
-- What a rotation of the encryption key leaves of a wallet
-- (src/blockchain-wallet/blockchain-wallet.service.ts).
use dupdap_backend.Base.{
  Absent, IsKeyed, ℕ, ◌+◌, ◌==◌, ◌≡◌, ◌∙◌, ap, refl, false, ◌||◌, List, [], ◌∷◌, ◌++◌, some, ok,
  Result-cases, Dict, lookup, insert, lookup-insert, lookup-insert_self, length, arith,
  if◌then◌else◌, is_empty, starts_with, Bool-cases, inl, inr, ==_iff, subst,
}
use dupdap_backend.Security.Encryption.{
  Node, EncryptionService, encrypt, reencrypt, encrypted_prefix, colon,
}
use dupdap_backend.Security.Columns.{written_prefix}
use dupdap_backend.Security.Columns.RoundTrip.{decrypt-plain, to_column-fresh}
use dupdap_backend.Wallet.Keys.{
  BlockchainWallet, Reencryption, load, save, find_all, rotate_one, rotate_each, reencrypt_wallets,
}

-- What the rotation makes of the row of a wallet that it has read.
abbrev pub rotated_row :
    Node
    → EncryptionService
    → (nonces : List ℕ × List ℕ) (row wallet : BlockchainWallet) → BlockchainWallet
rotated_row node service nonces row wallet =
    if is_empty wallet.encrypted_secret_key || wallet.key_version == service.key_version
    then row
    else record wallet {
      encrypted_secret_key =
          encrypt node service nonces.1 (encrypt node service nonces.0 wallet.encrypted_secret_key);
      key_version = service.key_version;
    }

-- A ciphertext has not the prefix at which the column stops.
pub encrypt-starts_with :
    (node : Node) (service : EncryptionService) (iv text : List ℕ)
    → is_empty text ≡ false
    → (is_empty (encrypt node service iv text) ≡ false)
      × (starts_with (encrypt node service iv text) written_prefix ≡ false)
unfolding encrypt starts_with
encrypt-starts_with node service iv text filled = rw filled (refl, refl)

module _ (node : Node) (service : EncryptionService) where
  save-encrypt :
      (iv iv' : List ℕ) (user version : ℕ) (text : List ℕ) (wallet : BlockchainWallet)
      (table : Dict BlockchainWallet)
      → is_empty text ≡ false
      → save node
          (some service)
          iv'
          user
          (record wallet {
            encrypted_secret_key = encrypt node service iv text;
            key_version = version;
          })
          table
        ≡ ok (
            insert user
              (record wallet {
                encrypted_secret_key = encrypt node service iv' (encrypt node service iv text);
                key_version = version;
              })
              table)
  unfolding save
  save-encrypt iv iv' user version text wallet table filled =
      let shape = encrypt-starts_with node service iv text filled in
      rw (to_column-fresh node service iv' (encrypt node service iv text) shape.0 shape.1, save)
        refl

  reencrypt-plain :
      (iv text : List ℕ)
      → starts_with text (encrypted_prefix ++ colon ∷ []) ≡ false
      → reencrypt node service iv text ≡ ok (encrypt node service iv text, service.key_version)
  unfolding reencrypt
  reencrypt-plain iv text plain = rw (decrypt-plain node service text plain, reencrypt) refl

  -- A write leaves the other rows alone.
  save-other :
      (iv : List ℕ) (user j : ℕ) (wallet : BlockchainWallet) (table : Dict BlockchainWallet)
      {table' : Dict BlockchainWallet}
      → (user == j) ≡ false
      → save node (some service) iv user wallet table ≡ ok table'
      → lookup j table' ≡ lookup j table
  unfolding save
  save-other iv user j wallet table other e = grind (arith, lookup-insert)

  -- A round leaves the other rows alone.
  rotate_one-other :
      (nonces : ℕ → List ℕ × List ℕ) (user j : ℕ) (wallet : BlockchainWallet) (s : Reencryption)
      → (user == j) ≡ false
      → lookup j (rotate_one node (some service) service nonces (user, wallet) s).table
        ≡ lookup j s.table
  unfolding rotate_one
  rotate_one-other nonces user j wallet s other = grind (arith, save-other)

  -- What a round makes of its own row.
  rotate_one_self :
      (nonces : ℕ → List ℕ × List ℕ) (user : ℕ) (row wallet : BlockchainWallet) (s : Reencryption)
      → starts_with wallet.encrypted_secret_key (encrypted_prefix ++ colon ∷ []) ≡ false
      → lookup user s.table ≡ some row
      → lookup user (rotate_one node (some service) service nonces (user, wallet) s).table
        ≡ some (rotated_row node service (nonces user) row wallet)
  unfolding rotate_one
  rotate_one_self nonces user row wallet s plain at =
      let secret = wallet.encrypted_secret_key in
      elim (Bool-cases (is_empty secret)) [
        | inl none_left ↦ rw none_left at
        | inr filled ↦ elim (Bool-cases (wallet.key_version == service.key_version)) [
          | inl current ↦ rw (filled, current) at
          | inr old ↦
              let saved =
                save-encrypt (nonces user).0 (nonces user).1 user service.key_version secret wallet
                  s.table filled in
              rw (filled, old)
                (rw (reencrypt-plain (nonces user).0 secret plain)
                  (rw saved (lookup-insert_self user _ s.table)))
        ]
      ]

  -- The first row of a table that can be read.
  find_all-cons :
      (user : ℕ) (row : BlockchainWallet) (rows : Dict BlockchainWallet)
      {wallets : List (ℕ × BlockchainWallet)}
      → find_all node (some service) ((user, row) ∷ rows) ≡ ok wallets
      → (wallet : BlockchainWallet) × (rest : List (ℕ × BlockchainWallet)) × (load node
            (some service)
            row
          ≡ ok wallet)
        × (find_all node (some service) rows ≡ ok rest)
        × (wallets ≡ (user, wallet) ∷ rest)
  unfolding find_all
  find_all-cons user row rows e = elim (Result-cases (load node (some service) row)) [
    | inr (f, fails) ↦ absurd (ground (arith, fails))
    | inl (wallet, reads) ↦ elim (Result-cases (find_all node (some service) rows)) [
      | inr (f, fails) ↦ absurd (ground (arith, fails))
      | inl (rest, loads) ↦ (wallet, rest, reads, loads, ground (arith, reads, loads))
    ]
  ]

  rotate_one-count :
      (nonces : ℕ → List ℕ × List ℕ) (wallet : ℕ × BlockchainWallet) (s : Reencryption)
      → (let s' = rotate_one node (some service) service nonces wallet s in s'.rotated + s'.skipped)
        ≡ s.rotated + s.skipped + 1
  unfolding rotate_one
  rotate_one-count nonces (user, wallet) s = ground arith

  -- What is loaded has the users of the table.
  find_all-Absent :
      (j : ℕ) (rows : Dict BlockchainWallet) {wallets : List (ℕ × BlockchainWallet)}
      → find_all node (some service) rows ≡ ok wallets
      → Absent j rows
      → Absent j wallets
  find_all-Absent j [] e h = unfold find_all in (ground arith)
  find_all-Absent j ((user, row) ∷ rows) e h =
      let (wallet, rest, reads, loads, same) = find_all-cons user row rows e in
      rw same (h.0, find_all-Absent j rows loads h.1)

  rotate_each-Absent :
      (nonces : ℕ → List ℕ × List ℕ) (j : ℕ) (wallets : List (ℕ × BlockchainWallet))
      (s : Reencryption)
      → Absent j wallets
      → lookup j (rotate_each node (some service) service nonces wallets s).table ≡ lookup j s.table
  unfolding rotate_each
  rotate_each-Absent nonces j [] s h = refl
  rotate_each-Absent nonces j ((user, wallet) ∷ wallets) s h =
      rotate_each-Absent nonces j wallets
        (rotate_one node (some service) service nonces (user, wallet) s) h.1
      ∙ rotate_one-other nonces user j wallet s h.0

  -- The loop, over what has been loaded of a part of the table.
  rotate_each-row :
      (nonces : ℕ → List ℕ × List ℕ) (j : ℕ) (rows : Dict BlockchainWallet)
      (row wallet : BlockchainWallet) (s : Reencryption) {wallets : List (ℕ × BlockchainWallet)}
      → IsKeyed rows
      → find_all node (some service) rows ≡ ok wallets
      → lookup j rows ≡ some row
      → load node (some service) row ≡ ok wallet
      → starts_with wallet.encrypted_secret_key (encrypted_prefix ++ colon ∷ []) ≡ false
      → lookup j s.table ≡ some row
      → lookup j (rotate_each node (some service) service nonces wallets s).table
        ≡ some (rotated_row node service (nonces j) row wallet)
  unfolding rotate_each
  rotate_each-row nonces j [] row wallet s keyed e at reads plain stored = cc
  rotate_each-row nonces j ((user, first) ∷ rows) row wallet s keyed e at reads plain stored =
      let (loaded, rest, first_reads, loads, same) = find_all-cons user first rows e in
      let next = rotate_one node (some service) service nonces (user, loaded) s in
      rw same (elim (Bool-cases (user == j)) [
        | inl here ↦
            let u : user ≡ j = (==_iff user j).0 here in
            let f : first ≡ row = ground (arith, at, here) in
            let w : loaded ≡ wallet = cc in
            rotate_each-Absent nonces j rest next
              (find_all-Absent j rows loads (subst (λ k. Absent k rows) u keyed.0))
            ∙ ap (λ l. lookup j (rotate_one node (some service) service nonces (user, l) s).table) w
            ∙ ap (λ k. lookup j (rotate_one node (some service) service nonces (k, wallet) s).table)
                u
            ∙ rotate_one_self nonces j row wallet s plain stored
        | inr other ↦
            rotate_each-row nonces j rows row wallet next keyed.1 loads (ground (arith, at, other))
              reads plain (rotate_one-other nonces user j loaded s other ∙ stored)
      ])

  -- A rotation: of a wallet whose secret key was read in clear, the row is left as it was if the key is empty or the row has the
  -- current version. Otherwise the row gets the current version, and its key is encrypted twice under the
  -- active key: by `reencrypt` and by the column.
  pub reencrypt_wallets-row :
      (nonces : ℕ → List ℕ × List ℕ) (table : Dict BlockchainWallet) (user : ℕ)
      (row wallet : BlockchainWallet) {s : Reencryption}
      → IsKeyed table
      → reencrypt_wallets node (some service) service nonces table ≡ ok s
      → lookup user table ≡ some row
      → load node (some service) row ≡ ok wallet
      → starts_with wallet.encrypted_secret_key (encrypted_prefix ++ colon ∷ []) ≡ false
      → lookup user s.table ≡ some (rotated_row node service (nonces user) row wallet)
  unfolding reencrypt_wallets
  reencrypt_wallets-row nonces table user row wallet {s} keyed e at reads plain =
      elim (Result-cases (find_all node (some service) table)) [
        | inr (f, fails) ↦ absurd (ground (arith, fails))
        | inl (wallets, loads) ↦
            let start : Reencryption = record { table = table; rotated = 0; skipped = 0 } in
            let ran : rotate_each node (some service) service nonces wallets start ≡ s =
              ground (arith, e, loads) in
            subst
              (λ t. lookup user t.table ≡ some (rotated_row node service (nonces user) row wallet))
              ran (rotate_each-row nonces user table row wallet start keyed loads at reads plain at)
      ]

  rotate_each-count :
      (nonces : ℕ → List ℕ × List ℕ) (wallets : List (ℕ × BlockchainWallet)) (s : Reencryption)
      → (let s' = rotate_each node (some service) service nonces wallets s in
          s'.rotated + s'.skipped)
        ≡ s.rotated + s.skipped + length wallets
  unfolding rotate_each
  rotate_each-count nonces [] s = omega arith
  rotate_each-count nonces (wallet ∷ wallets) s = omega (
    arith,
    rotate_each-count nonces wallets (rotate_one node (some service) service nonces wallet s),
    rotate_one-count nonces wallet s,
  )
