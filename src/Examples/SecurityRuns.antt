-- ===== src/Examples/SecurityRuns.antt =====
-- Runs of the encryption, the wallets, the second factor and the guard of API keys on concrete data.
use dupdap_backend.Base.{
  ℕ, ◌+◌, ◌-◌, ◌/◌, ltb, ◌==◌, ◌≡◌, ◌↔◌, ◌⊎◌, refl, true, false, List, [], ◌∷◌, Option, none, some,
  ok, err, if◌then◌else◌, map, length, trim, is_empty, same_text, same_text_self, Lacks, arith,
}
use dupdap_backend.Security.Encryption.{well_formed, Node, IsNode, EncryptionService, colon}
use dupdap_backend.Security.Columns.{not_registered}
use dupdap_backend.Security.Columns.RoundTrip.{reread, reread_lem}
use dupdap_backend.Admin.Totp.{base32_encode, base32_decode, verify_totp_token}
use dupdap_backend.Admin.Totp.Base32.{base32_decode-base32_encode}
use dupdap_backend.Admin.Totp.Window.{authenticator_code, verify_totp_token_iff}
use dupdap_backend.Merchants.Records.{Merchant, active, merchant, payments_read}
use dupdap_backend.Auth.Guard
use dupdap_backend.Auth.Guard.{User, Gate, as_api_key}
use dupdap_backend.Auth.Guard.Admission.{IsHolder, can_activate_iff}

-- A stand-in for Node: bytes are moved past the colon, and the tag repeats the length of the key.
past_colon : ℕ → ℕ
past_colon b = if ltb b 58 then b else b + 1

before_colon : ℕ → ℕ
before_colon c = if ltb c 58 then c else c - 1

sixteen : ℕ → List ℕ
sixteen n = n ∷ 0 ∷ 0 ∷ 0 ∷ 0 ∷ 0 ∷ 0 ∷ 0 ∷ 0 ∷ 0 ∷ 0 ∷ 0 ∷ 0 ∷ 0 ∷ 0 ∷ 0 ∷ []

abbrev node : Node
unfolding past_colon before_colon sixteen same_text
node = record {
  to_base64 = map past_colon;
  from_base64 = map before_colon;
  from_hex = λ text. text;
  to_utf8 = λ text. text;
  from_utf8 = λ bytes. bytes;
  seal = λ key iv bytes. (sixteen (length key), bytes);
  unseal = λ key iv tag bytes. if same_text tag (sixteen (length key)) then some bytes else none;
}

before-past : (bytes : List ℕ) → map before_colon (map past_colon bytes) ≡ bytes
unfolding before_colon past_colon
before-past [] = refl
before-past (b ∷ bytes) = ground (arith, before-past bytes)

past-Lacks : (bytes : List ℕ) → Lacks colon (map past_colon bytes)
unfolding past_colon
past-Lacks [] = tt
past-Lacks (b ∷ bytes) = (ground arith, past-Lacks bytes)

opens_own : (key bytes : List ℕ) → node.unseal key [] (sixteen (length key)) bytes ≡ some bytes
unfolding node
opens_own key bytes = rw (same_text_self (sixteen (length key))) refl

node-IsNode : IsNode node
unfolding node
node-IsNode = record {
  from_base64-to_base64 = before-past;
  from_base64-nil = refl;
  to_base64-Lacks = past-Lacks;
  from_utf8-to_utf8 = λ text formed. refl;
  from_utf8-nil = refl;
  seal-tag = λ key iv bytes size. unfold sixteen in refl;
  seal-nil = λ key iv bytes size e. e;
  unseal-seal = λ key iv bytes size. opens_own key bytes;
}

abbrev new_key : List ℕ
new_key =
    1 ∷ 2 ∷ 3 ∷ 4 ∷ 5 ∷ 6 ∷ 7 ∷ 8 ∷ 9 ∷ 10 ∷ 11 ∷ 12 ∷ 13 ∷ 14 ∷ 15 ∷ 16 ∷ 17 ∷ 18 ∷ 19 ∷ 20 ∷ 21
    ∷ 22 ∷ 23 ∷ 24 ∷ 25 ∷ 26 ∷ 27 ∷ 28 ∷ 29 ∷ 30 ∷ 31 ∷ 32 ∷ []

abbrev service : EncryptionService
service = record { key = new_key; previous_key = none; key_version = 2 }

abbrev nonce : List ℕ
nonce = 7 ∷ 7 ∷ 7 ∷ 7 ∷ 7 ∷ 7 ∷ 7 ∷ 7 ∷ 7 ∷ 7 ∷ 7 ∷ 7 ∷ []

-- "S123"
abbrev secret : List ℕ
secret = 83 ∷ 49 ∷ 50 ∷ 51 ∷ []

reread_lem_example :
    (reread node none nonce (some secret) ≡ err not_registered)
    × (reread node (some service) nonce (some secret) ≡ ok (some secret))
unfolding well_formed
reread_lem_example = reread_lem node node-IsNode service nonce (some secret) refl refl refl refl

-- The first key of RFC 4226.
abbrev totp_key : List ℕ
totp_key = 49 ∷ 50 ∷ 51 ∷ 52 ∷ 53 ∷ 54 ∷ 55 ∷ []

base32_decode-base32_encode_example : base32_decode (base32_encode totp_key) ≡ totp_key
base32_decode-base32_encode_example = base32_decode-base32_encode totp_key (omega arith)

abbrev digest : (key : List ℕ) (counter : ℕ) → List ℕ
digest key counter = counter ∷ counter ∷ counter ∷ counter ∷ key

abbrev token : List ℕ
token = 48 ∷ 48 ∷ 48 ∷ 48 ∷ 48 ∷ 49 ∷ []

verify_totp_token_iff_example :
    (verify_totp_token digest (base32_encode totp_key) token 59 ≡ true) ↔ (
      (authenticator_code digest totp_key (59 / 30 - 1) ≡ token)
      ⊎ ((authenticator_code digest totp_key (59 / 30) ≡ token)
          ⊎ (authenticator_code digest totp_key (59 / 30 + 1) ≡ token)))
verify_totp_token_iff_example =
    verify_totp_token_iff digest totp_key token 59 (omega arith) (omega arith)

abbrev merchant_1 : Merchant
merchant_1 = record {
  email = 4;
  status = active;
  role = merchant;
  api_key = none;
  api_key_lookup_hash = some 77;
  scopes = some (payments_read ∷ []);
  api_key_ip_allowlist = some ((49 ∷ []) ∷ []);
  api_key_expires_at = some 5000;
  api_key_expiry_sent_at = none;
  single_transaction_limit_usd = 10;
  daily_limit_usd = 100;
}

abbrev request : Guard.Request
request = record {
  api_key = some (32 ∷ 107 ∷ []);
  client_ip = 49 ∷ [];
  required_scopes = some (payments_read ∷ []);
}

abbrev holder : User
holder = record { merchant_id = 9; email = 4; role = merchant; scopes = payments_read ∷ [] }

abbrev gate : Gate
gate = record { windows = []; audit = [] }

abbrev find_merchant : List ℕ → Option (ℕ × Merchant)
find_merchant key = if length key == 1 then some (9, merchant_1) else none

can_activate_iff_example :
    ((Guard.can_activate find_merchant none false 4000 request gate).1 ≡ ok (as_api_key holder)) ↔ (
      (raw : List ℕ) × (request.api_key ≡ some raw)
      × (is_empty (trim raw) ≡ false)
      × IsHolder none 4000 request gate find_merchant (trim raw) holder)
can_activate_iff_example = can_activate_iff none 4000 request gate find_merchant false holder
