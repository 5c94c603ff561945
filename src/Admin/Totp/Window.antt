-- ===== src/Admin/Totp/Window.antt =====
-- Which tokens of the second factor are accepted (src/admin/admin.service.ts).
use dupdap_backend.Base.{
  ℕ, ◌+◌, ◌-◌, ◌*◌, ◌/◌, ◌%◌, ◌^◌, ◌≤◌, ◌≡◌, ◌↔◌, ◌∙◌, refl, ap, sym, List, true, false, ◌||◌, ◌&&◌,
  arith, same_text, same_text_iff, Bool-cases, length, ◌==◌, ◌⊎◌, inl, inr,
}
use dupdap_backend.Admin.Totp.{totp_code, verify_totp_token, base32_encode, six_digits, byte_at}
use dupdap_backend.Admin.Totp.Base32.{AreBytes, base32_decode-base32_encode}

-- The code of RFC 6238 for a key of bytes and a time step of 30 seconds, as an authenticator computes it: six
-- digits of the 31 bits of the digest at the offset that its last byte names.
abbrev pub authenticator_code :
    (hmac : (key : List ℕ) (counter : ℕ) → List ℕ) → (key : List ℕ) (step : ℕ) → List ℕ
authenticator_code hmac key step =
    let digest = hmac key (step % 2 ^ 32) in
    let offset = byte_at digest 19 % 16 in
    six_digits (
      (byte_at digest offset % 128 * 2 ^ 24
        + byte_at digest (offset + 1) * 2 ^ 16
        + byte_at digest (offset + 2) * 2 ^ 8
        + byte_at digest (offset + 3))
      % 1000000)

-- One of three texts of six characters.
one_of_three :
    (a b c token : List ℕ)
    → length a ≡ 6
    → length b ≡ 6
    → length c ≡ 6
    → ((length token == 6
          && (same_text a token || (same_text b token || (same_text c token || false))))
        ≡ true)
      ↔ ((a ≡ token) ⊎ ((b ≡ token) ⊎ (c ≡ token)))
one_of_three a b c token la lb lc =
    let ia = same_text_iff a token in
    let ib = same_text_iff b token in
    let ic = same_text_iff c token in
    (
      λ h. elim (Bool-cases (same_text a token)) [
        | inl x ↦ inl (ia.0 x)
        | inr x ↦ elim (Bool-cases (same_text b token)) [
          | inl y ↦ inr (inl (ib.0 y))
          | inr y ↦ inr (inr (ic.0 (ground (arith, h, x, y))))
        ]
      ],
      λ h. elim h [
        | inl e ↦ ground (arith, ia.1 e, sym (ap length e), la)
        | inr r ↦ elim r [
          | inl e ↦ ground (arith, ib.1 e, sym (ap length e), lb)
          | inr e ↦ ground (arith, ic.1 e, sym (ap length e), lc)
        ]
      ],
    )

module _ (hmac : (key : List ℕ) (counter : ℕ) → List ℕ) where
  totp_code-encoded :
      (key : List ℕ) (time : ℕ)
      → AreBytes key
      → totp_code hmac (base32_encode key) time ≡ authenticator_code hmac key (time / 30)
  unfolding totp_code
  totp_code-encoded key time h =
      ap (λ k. authenticator_code hmac k (time / 30)) (base32_decode-base32_encode key h)

  -- For a secret that was encoded from bytes, and a clock that shows 30 seconds or more: a token is accepted if and only if
  -- it is the code of the step of the clock, of the one before it or of the one after it.
  pub verify_totp_token_iff :
      (key token : List ℕ) (t : ℕ)
      → AreBytes key
      → 30 ≤ t
      → (verify_totp_token hmac (base32_encode key) token t ≡ true) ↔ (
          (authenticator_code hmac key (t / 30 - 1) ≡ token)
          ⊎ ((authenticator_code hmac key (t / 30) ≡ token)
              ⊎ (authenticator_code hmac key (t / 30 + 1) ≡ token)))
  unfolding verify_totp_token
  verify_totp_token_iff key token t bytes h =
      let code = λ (s : ℕ). authenticator_code hmac key s in
      let before : (t - 30) / 30 ≡ t / 30 - 1 = omega arith in
      let after : (t + 30) / 30 ≡ t / 30 + 1 = omega arith in
      let a = totp_code-encoded key (t - 30) bytes ∙ ap code before in
      let b = totp_code-encoded key t bytes in
      let c = totp_code-encoded key (t + 30) bytes ∙ ap code after in
      rw (a, b, c)
        (one_of_three (code (t / 30 - 1)) (code (t / 30)) (code (t / 30 + 1)) token refl refl refl)
