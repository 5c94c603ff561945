-- ===== src/Admin/Totp/Base32.antt =====
-- Base 32 there and back (src/admin/admin.service.ts).
use dupdap_backend.Base.{
  ℕ, ◌+◌, ◌*◌, ◌/◌, ◌%◌, ◌^◌, ◌<◌, ◌≡◌, ◌∙◌, refl, ap, List, [], ◌∷◌, map, All, All-append, arith,
  ◌-◌, leb, ltb, Bool-cases, inl, inr, zero, suc,
}
use dupdap_backend.Admin.Totp.{
  alpha, index_of, drain, encode_from, decode_from, base32_encode, base32_decode, indexes_of,
}

abbrev pub AreBytes : List ℕ → Type 0
AreBytes = All (λ b. b < 256)

-- Lists with equal heads and equal tails.
cons {ℓ} : {A : Type ℓ} {x y : A} {xs ys : List A} → x ≡ y → xs ≡ ys → x ∷ xs ≡ y ∷ ys
cons p q = λ i. p i ∷ q i

-- What the decoder still owes: the byte whose last bits the encoder holds back. `e` and `d` are the two
-- numbers `val`; the encoder has `n` bits left and the decoder `8 - n`, in `from_n`.
mutual
  unfolding encode_from drain decode_from

  from0 : (e d : ℕ) (buf : List ℕ) → AreBytes buf → decode_from 0 d (encode_from 0 e buf) ≡ buf
  from0 e d [] h = refl
  from0 e d (x ∷ buf) h =
      let e' = e * 256 % 2 ^ 32 + x in
      from3 e' (d * 32 % 2 ^ 32 + e' / 8 % 32) x buf (omega (arith, h.0)) h.1

  from3 :
      (e d b : ℕ) (buf : List ℕ)
      → b ≡ d % 32 * 8 + e % 8
      → AreBytes buf
      → decode_from 5 d (encode_from 3 e buf) ≡ b ∷ buf
  from3 e d b [] p h = cons (omega (arith, p)) refl
  from3 e d b (x ∷ buf) p h =
      let e' : ℕ = e * 256 % 2 ^ 32 + x in
      let d1 : ℕ = d * 32 % 2 ^ 32 + e' / 2 ^ 6 % 32 in
      let d2 : ℕ = d1 * 32 % 2 ^ 32 + e' / 2 ^ 1 % 32 in
      cons (omega (arith, p, h.0)) (from1 e' d2 x buf (omega (arith, h.0)) h.1)

  from1 :
      (e d b : ℕ) (buf : List ℕ)
      → b ≡ d % 128 * 2 + e % 2
      → AreBytes buf
      → decode_from 7 d (encode_from 1 e buf) ≡ b ∷ buf
  from1 e d b [] p h = cons (omega (arith, p)) refl
  from1 e d b (x ∷ buf) p h =
      let e' : ℕ = e * 256 % 2 ^ 32 + x in
      let d1 : ℕ = d * 32 % 2 ^ 32 + e' / 2 ^ 4 % 32 in
      cons (omega (arith, p, h.0)) (from4 e' d1 x buf (omega (arith, h.0)) h.1)

  from4 :
      (e d b : ℕ) (buf : List ℕ)
      → b ≡ d % 16 * 16 + e % 16
      → AreBytes buf
      → decode_from 4 d (encode_from 4 e buf) ≡ b ∷ buf
  from4 e d b [] p h = cons (omega (arith, p)) refl
  from4 e d b (x ∷ buf) p h =
      let e' : ℕ = e * 256 % 2 ^ 32 + x in
      let d1 : ℕ = d * 32 % 2 ^ 32 + e' / 2 ^ 7 % 32 in
      let d2 : ℕ = d1 * 32 % 2 ^ 32 + e' / 2 ^ 2 % 32 in
      cons (omega (arith, p, h.0)) (from2 e' d2 x buf (omega (arith, h.0)) h.1)

  from2 :
      (e d b : ℕ) (buf : List ℕ)
      → b ≡ d % 64 * 4 + e % 4
      → AreBytes buf
      → decode_from 6 d (encode_from 2 e buf) ≡ b ∷ buf
  from2 e d b [] p h = cons (omega (arith, p)) refl
  from2 e d b (x ∷ buf) p h =
      let e' : ℕ = e * 256 % 2 ^ 32 + x in
      let d1 : ℕ = d * 32 % 2 ^ 32 + e' / 2 ^ 5 % 32 in
      let d2 : ℕ = d1 * 32 % 2 ^ 32 + e' / 2 ^ 0 % 32 in
      cons (omega (arith, p, h.0)) (cons (omega (arith, h.0)) (from0 e' d2 buf h.1))

AreIndexes : List ℕ → Type 0
AreIndexes = All (λ i. i < 32)

drain-AreIndexes : (fuel bits val : ℕ) → AreIndexes (drain fuel bits val)
unfolding drain AreIndexes
drain-AreIndexes zero bits val = tt
drain-AreIndexes (suc fuel) bits val = elim (Bool-cases (leb 5 bits)) [
  | inl more ↦ rw more (omega arith, drain-AreIndexes fuel (bits - 5) val)
  | inr done ↦ rw done tt
]

encode_from-AreIndexes : (bits val : ℕ) (buf : List ℕ) → AreIndexes (encode_from bits val buf)
unfolding encode_from AreIndexes
encode_from-AreIndexes bits val [] = elim (Bool-cases (ltb 0 bits)) [
  | inl more ↦ rw more (omega arith, tt)
  | inr done ↦ rw done tt
]
encode_from-AreIndexes bits val (byte ∷ buf) =
    All-append (λ i. i < 32) _ _
      (drain-AreIndexes (bits + 8) (bits + 8) (val * 256 % 2 ^ 32 + byte))
      (encode_from-AreIndexes ((bits + 8) % 5) (val * 256 % 2 ^ 32 + byte) buf)

indexes_of-map : (l : List ℕ) → AreIndexes l → indexes_of (map alpha l) ≡ l
unfolding indexes_of alpha index_of AreIndexes
indexes_of-map [] h = refl
indexes_of-map (i ∷ l) h = ground (arith, h.0, indexes_of-map l h.1)

-- Every text that is encoded from bytes is decoded to the same bytes, of whatever length.
pub base32_decode-base32_encode :
    (buf : List ℕ) → AreBytes buf → base32_decode (base32_encode buf) ≡ buf
unfolding base32_decode base32_encode
base32_decode-base32_encode buf h =
    ap (decode_from 0 0) (indexes_of-map (encode_from 0 0 buf) (encode_from-AreIndexes 0 0 buf))
    ∙ from0 0 0 buf h
