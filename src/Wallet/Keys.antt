-- ===== src/Wallet/Keys.antt =====
-- src/blockchain-wallet/blockchain-wallet.service.ts: the wallets of the users and their secret keys. The table is
-- kept by its unique column `userId`; of a row, the column of the secret key holds what the transformer of
-- src/security has written.
pub mod Rotation
use dupdap_backend.Base.{
  ℕ, ◌+◌, ◌==◌, Bool, true, false, List, [], ◌∷◌, ◌++◌, Option, none, some, Result, ok, err, Dict,
  lookup, insert, if◌then◌else◌, is_empty,
}
use dupdap_backend.Security.Encryption.{
  Node, EncryptionService, DecryptError, reencrypt, decrypt_legacy,
}
use dupdap_backend.Security.Columns.{ColumnError, to_column, from_column}

pub record BlockchainWallet : Type 0 where
  pub stellar_address : ℕ
  pub encrypted_secret_key : List ℕ
  pub iv : Option (List ℕ)
  pub key_version : ℕ
  pub balance_usdc : ℕ
  pub staked_balance : ℕ
  pub last_synced_at : Option ℕ

pub data WalletError : Type 0 where
  already_provisioned not_provisioned unavailable cannot_decrypt soroban_failed : WalletError
  column : ColumnError → WalletError

-- The value of the column that is not null.
abbrev text_of : Option (List ℕ) → List ℕ
text_of none = []
text_of (some text) = text

-- What `provision` does outside the table: the registration on the contract, the funding by
-- friendbot and the event.
pub data Effect : Type 0 where
  register_user : (username stellar_address : ℕ) → Effect
  friendbot : (stellar_address : ℕ) → Effect
  provisioned : (user stellar_address : ℕ) → Effect

pub record Reencryption : Type 0 where
  pub table : Dict BlockchainWallet
  pub rotated : ℕ
  pub skipped : ℕ

module _ (node : Node) (registered : Option EncryptionService) where
  -- A row that is read, and an entity that is written.
  unfoldable pub load : BlockchainWallet → Result WalletError BlockchainWallet
  load row = elim (from_column node registered (some row.encrypted_secret_key)) [
    | err e ↦ err (column e)
    | ok value ↦ ok (record row { encrypted_secret_key = text_of value })
  ]

  unfoldable pub save :
      (iv : List ℕ) (user : ℕ)
      → BlockchainWallet
      → Dict BlockchainWallet
      → Result WalletError (Dict BlockchainWallet)
  save iv user wallet table =
      elim (to_column node registered iv (some wallet.encrypted_secret_key)) [
        | err e ↦ err (column e)
        | ok stored ↦
            ok (insert user (record wallet { encrypted_secret_key = text_of stored }) table)
      ]

  -- `walletRepo.find()`
  unfoldable pub find_all : Dict BlockchainWallet → Result WalletError (List (ℕ × BlockchainWallet))
  unfolding load
  find_all [] = ok []
  find_all ((user, row) ∷ rows) =
      let rest = find_all rows in
      elim (load row) [
        | err e ↦ err e
        | ok wallet ↦ elim rest [ err e ↦ err e | ok wallets ↦ ok ((user, wallet) ∷ wallets) ]
      ]

  unfoldable pub get_wallet :
      (user : ℕ) → Dict BlockchainWallet → Result WalletError BlockchainWallet
  unfolding load
  get_wallet user table = elim (lookup user table) [
    | none ↦ err not_provisioned
    | some row ↦ load row
  ]

  -- The random key pair is an argument. A failure of the registration or of the funding is caught.
  unfoldable pub provision :
      (service : EncryptionService) (is_testnet : Bool) (iv : List ℕ) (public_key : ℕ)
      (secret_key : List ℕ) (user username : ℕ)
      → Dict BlockchainWallet
      → Result WalletError (Dict BlockchainWallet × List Effect)
  unfolding load save
  provision service is_testnet iv public_key secret_key user username table =
      elim (get_wallet user table) [
        | ok wallet ↦ err already_provisioned
        | err e ↦ elim e [
          | not_provisioned ↦
              elim (save iv user
                (record {
                  stellar_address = public_key;
                  encrypted_secret_key = secret_key;
                  iv = none;
                  key_version = service.key_version;
                  balance_usdc = 0;
                  staked_balance = 0;
                  last_synced_at = none;
                })
                table) [
                  | err e ↦ err e
                  | ok table ↦ ok (
                    table,
                    register_user username public_key
                          ∷ (if is_testnet then friendbot public_key ∷ [] else [])
                        ++ provisioned user public_key ∷ [],
                  )
                ]
          | other ↦ err other
        ]
      ]

  -- The two balances of the contract, `none` where a read throws.
  unfoldable pub sync_balance :
      (iv : List ℕ) (balances : Option (ℕ × ℕ)) (now user : ℕ)
      → Dict BlockchainWallet
      → Result WalletError (Dict BlockchainWallet)
  unfolding get_wallet save
  sync_balance iv balances now user table = elim (get_wallet user table) [
    | err e ↦ err e
    | ok wallet ↦ elim balances [
      | none ↦ err soroban_failed
      | some (usdc, staked) ↦
          save iv user
            (record wallet {
              balance_usdc = usdc;
              staked_balance = staked;
              last_synced_at = some now;
            })
            table
    ]
  ]

  -- A round of the loop. The nonces are those of `reencrypt` and of the column.
  unfoldable pub rotate_one :
      (service : EncryptionService) (nonces : ℕ → List ℕ × List ℕ)
      → ℕ × BlockchainWallet
      → Reencryption
      → Reencryption
  rotate_one service nonces (user, wallet) s =
      let skip = record s { skipped = s.skipped + 1 } in
      if is_empty wallet.encrypted_secret_key
      then skip
      else (if wallet.key_version == service.key_version
          then skip
          else elim (reencrypt node service (nonces user).0 wallet.encrypted_secret_key) [
            | err e ↦ skip
            | ok (ciphertext, key_version) ↦
                elim (save (nonces user).1 user
                  (record wallet { encrypted_secret_key = ciphertext; key_version = key_version })
                  s.table) [
                    | err e ↦ skip
                    | ok table ↦ record s { table = table; rotated = s.rotated + 1 }
                  ]
          ])

  unfoldable pub rotate_each :
      (service : EncryptionService) (nonces : ℕ → List ℕ × List ℕ)
      → List (ℕ × BlockchainWallet)
      → Reencryption
      → Reencryption
  rotate_each service nonces [] s = s
  rotate_each service nonces (wallet ∷ wallets) s =
      rotate_each service nonces wallets (rotate_one service nonces wallet s)

  unfoldable pub reencrypt_wallets :
      (service : EncryptionService) (nonces : ℕ → List ℕ × List ℕ)
      → Dict BlockchainWallet
      → Result WalletError Reencryption
  reencrypt_wallets service nonces table = elim (find_all table) [
    | err e ↦ err e
    | ok wallets ↦
        ok (rotate_each service nonces wallets (record { table = table; rotated = 0; skipped = 0 }))
  ]

-- `service` is the instance that the wallets are given.
unfoldable decrypt_secret_key :
    Node → (service : EncryptionService) → BlockchainWallet → Result WalletError (List ℕ)
decrypt_secret_key node service wallet =
    if is_empty wallet.encrypted_secret_key then err unavailable else elim wallet.iv [
      | none ↦ ok wallet.encrypted_secret_key
      | some iv ↦
          if is_empty iv
          then ok wallet.encrypted_secret_key
          else elim (decrypt_legacy node service wallet.encrypted_secret_key iv) [
            | err e ↦ err cannot_decrypt
            | ok text ↦ ok text
          ]
    ]
