-- ===== src/Security/IpAllowlist/Networks.antt =====
-- Which addresses a network matches (src/security/ip-allowlist.guard.ts).
use native.Mathlib.Nat.{div-add-mod, mul-div_cancel_left, mod-one, mod-eq_of_lt, one-le-pow}
use dupdap_backend.Base.{
  ℕ, ◌-◌, ◌*◌, ◌/◌, ◌%◌, ◌^◌, ◌≡◌, ◌≤◌, ◌<◌, ◌↔◌, ◌∙◌, sym, ap, refl, true, false, List, some,
  if◌then◌else◌, ◌==◌, ==_iff, ltb, arith, Bool-cases, inl, inr,
}
use dupdap_backend.Security.IpAllowlist.{to_int, one_shifted, masked, ipv4_in_cidr}

-- Taking the rest off leaves a multiple.
sub_mod : (x n : ℕ) → x - x % n ≡ n * (x / n)
sub_mod x n = omega (arith, div-add-mod x n)

same_multiple : (x y n : ℕ) → 0 < n → (x - x % n ≡ y - y % n) ↔ (x / n ≡ y / n)
same_multiple x y n h = (
  λ e.
      sym (mul-div_cancel_left (x / n) h)
      ∙ ap (λ m. m / n) (sym (sub_mod x n) ∙ e ∙ sub_mod y n)
      ∙ mul-div_cancel_left (y / n) h,
  λ e. sub_mod x n ∙ ap (λ m. n * m) e ∙ sym (sub_mod y n),
)

one_shifted-pos : (n : ℕ) → 0 < one_shifted n
unfolding one_shifted
one_shifted-pos n = one-le-pow (n % 32) 2 (omega arith)

one_shifted-lt : (n : ℕ) → n < 32 → one_shifted n ≡ 2 ^ n
unfolding one_shifted
one_shifted-lt n h = ap (λ k. 2 ^ k) (mod-eq_of_lt h)

masked_zero : (x : ℕ) → masked 0 x ≡ x
unfolding masked one_shifted
masked_zero x = omega (arith, mod-one x)

masked_iff :
    (bits x y : ℕ)
    → 0 < bits
    → bits ≤ 32
    → (masked bits x ≡ masked bits y) ↔ (x / 2 ^ (32 - bits) ≡ y / 2 ^ (32 - bits))
unfolding masked
masked_iff bits x y pos le =
    rw (sym (one_shifted-lt (32 - bits) (omega (arith, pos, le))))
      (same_multiple x y (one_shifted (32 - bits)) (one_shifted-pos (32 - bits)))

-- An address and a network that both parse, with a prefix of at most 32 bits: with 1 bit and more, the
-- address matches if and only if it has the leading bits of the network; with 0 bits, where it
-- should match always, it matches only if the two are the same address.
pub ipv4_in_cidr_iff :
    (ip range : List ℕ) (bits : ℕ) {x y : ℕ}
    → to_int ip ≡ some x
    → to_int range ≡ some y
    → bits ≤ 32
    → (ipv4_in_cidr ip range bits ≡ true)
      ↔ (if bits == 0 then x ≡ y else x / 2 ^ (32 - bits) ≡ y / 2 ^ (32 - bits))
unfolding ipv4_in_cidr
ipv4_in_cidr_iff ip range bits {x} {y} is_ip is_range le =
    let fits : ltb 32 bits ≡ false = ground arith in
    let ran : ipv4_in_cidr ip range bits ≡ (masked bits x == masked bits y) =
      rw (fits, ipv4_in_cidr) (rw is_ip (rw is_range refl)) in
    let test = ==_iff (masked bits x) (masked bits y) in
    elim (Bool-cases (bits == 0)) [
      | inl none_given ↦
          let none_left : bits ≡ 0 = (==_iff bits 0).0 none_given in
          let mx : masked bits x ≡ x = rw none_left (masked_zero x) in
          let my : masked bits y ≡ y = rw none_left (masked_zero y) in
          rw none_given
            (λ h. sym mx ∙ test.0 (sym ran ∙ h) ∙ my, λ e. ran ∙ test.1 (mx ∙ e ∙ sym my))
      | inr given ↦
          let same = masked_iff bits x y (ground arith) le in
          rw given (λ h. same.0 (test.0 (sym ran ∙ h)), λ e. ran ∙ test.1 (same.1 e))
    ]
