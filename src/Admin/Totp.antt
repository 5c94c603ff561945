-- ===== src/Admin/Totp.antt =====
-- The secrets and tokens of the second factor in src/admin/admin.service.ts (`base32Encode`, `base32Decode`, `totpCode`,
-- `verifyTotpToken`). A text is a list of code units. `val` is a 32-bit number, with its wrap-around written
-- out: `val << k` is `val * 2 ^ k % 2 ^ 32`, `|` with bits that are clear is `+`, and `& 0x1f` is `% 32`.
pub mod Base32
pub mod Window
use dupdap_backend.Base.{
  ℕ, zero, suc, ◌+◌, ◌-◌, ◌*◌, ◌/◌, ◌%◌, ◌^◌, leb, ltb, ◌==◌, Bool, true, false, not, ◌&&◌, ◌||◌,
  List, [], ◌∷◌, ◌++◌, Option, none, some, any, get_elem?, length, map, if◌then◌else◌, same_text,
}

-- "ABCDEFGHIJKLMNOPQRSTUVWXYZ234567"
unfoldable pub alpha : ℕ → ℕ
alpha i = if ltb i 26 then 65 + i else 24 + i

-- `alpha.indexOf(c)`; `none` is -1.
unfoldable pub index_of : ℕ → Option ℕ
index_of c =
    if leb 65 c && leb c 90
    then some (c - 65)
    else (if leb 50 c && leb c 55 then some (c - 24) else none)

-- The inner `while`: the indexes that are put out, and the bits that stay. Each round takes 5 of the bits.
unfoldable pub drain : (fuel bits val : ℕ) → List ℕ
drain zero bits val = []
drain (suc fuel) bits val =
    let rest = drain fuel (bits - 5) val in
    if leb 5 bits then val / 2 ^ (bits - 5) % 32 ∷ rest else []

unfoldable pub encode_from : (bits val : ℕ) → List ℕ → List ℕ
unfolding drain
encode_from bits val [] = if ltb 0 bits then val * 2 ^ (5 - bits) % 32 ∷ [] else []
encode_from bits val (byte ∷ buf) =
    let val' = val * 256 % 2 ^ 32 + byte in
    drain (bits + 8) (bits + 8) val' ++ encode_from ((bits + 8) % 5) val' buf

unfoldable pub base32_encode : List ℕ → List ℕ
unfolding encode_from alpha
base32_encode buf = map alpha (encode_from 0 0 buf)

-- The loop over the characters that are in the alphabet.
unfoldable pub decode_from : (bits val : ℕ) → List ℕ → List ℕ
decode_from bits val [] = []
decode_from bits val (idx ∷ rest) =
    let val' = val * 32 % 2 ^ 32 + idx in
    let pushed = val' / 2 ^ (bits - 3) % 256 ∷ decode_from (bits - 3) val' rest in
    let kept = decode_from (bits + 5) val' rest in if leb 8 (bits + 5) then pushed else kept

-- `c.toUpperCase()` of an ASCII character.
abbrev upper : ℕ → ℕ
upper c = if leb 97 c && leb c 122 then c - 32 else c

-- `if (idx < 0) continue`
unfoldable pub indexes_of : List ℕ → List ℕ
indexes_of [] = []
indexes_of (c ∷ text) =
    let rest = indexes_of text in elim (index_of (upper c)) [ none ↦ rest | some idx ↦ idx ∷ rest ]

-- `replace(/=+$/, '')` takes off characters that are not in the alphabet, which the loop passes over.
unfoldable pub base32_decode : List ℕ → List ℕ
unfolding indexes_of decode_from
base32_decode text = decode_from 0 0 (indexes_of text)

-- `String(code).padStart(6, '0')` of a number below 1,000,000.
abbrev pub six_digits : ℕ → List ℕ
six_digits code =
    (48 + code / 100000 % 10)
    ∷ (48 + code / 10000 % 10)
    ∷ (48 + code / 1000 % 10)
    ∷ (48 + code / 100 % 10)
    ∷ (48 + code / 10 % 10)
    ∷ (48 + code % 10)
    ∷ []

-- A byte of the digest.
abbrev pub byte_at : List ℕ → ℕ → ℕ
byte_at hmac i = elim (get_elem? hmac i) [ none ↦ 0 | some byte ↦ byte ]

-- The digest of HMAC-SHA1 over the counter in 8 bytes, of which the first four are 0, is a parameter.
unfoldable pub totp_code :
    (hmac : (key : List ℕ) (counter : ℕ) → List ℕ) → (secret : List ℕ) (time : ℕ) → List ℕ
unfolding base32_decode
totp_code hmac secret time =
    let digest = hmac (base32_decode secret) (time / 30 % 2 ^ 32) in
    let offset = byte_at digest 19 % 16 in
    six_digits (
      (byte_at digest offset % 128 * 2 ^ 24
        + byte_at digest (offset + 1) * 2 ^ 16
        + byte_at digest (offset + 2) * 2 ^ 8
        + byte_at digest (offset + 3))
      % 1000000)

unfoldable pub verify_totp_token :
    (hmac : (key : List ℕ) (counter : ℕ) → List ℕ) → (secret token : List ℕ) (t : ℕ) → Bool
unfolding totp_code
verify_totp_token hmac secret token t =
    length token == 6
    && any (λ time. same_text (totp_code hmac secret time) token) ((t - 30) ∷ t ∷ (t + 30) ∷ [])
