-- ===== src/Wallet/Slippage/Tolerance.antt =====
-- Which swaps are let through (src/blockchain-wallet/slippage.service.ts).
use native.Mathlib.Nat.{div-lt_iff_lt-mul}
use dupdap_backend.Base.{
  ℕ, ◌+◌, ◌*◌, ◌≤◌, ◌<◌, ◌≡◌, ◌↔◌, refl, ltb, ◌==◌, false, ◌∷◌, ok, err, arith, lt→ltb, ltb→lt,
  Bool-cases, inl, inr,
}
use dupdap_backend.Wallet.Slippage.{
  positive, Slippage, check_slippage, compare_rates, slippage_bps, distance, get_max_slippage_bps,
  exceeded,
}

-- A rounded slippage is above the limit if and only if the exact one is at least half a basis point above it.
slippage_bps-lt_iff :
    (limit d e : ℕ) → 0 < e → (limit < slippage_bps d e) ↔ ((2 * limit + 1) * e ≤ 20000 * d)
unfolding slippage_bps
slippage_bps-lt_iff limit d e h =
    let bound : (slippage_bps d e < limit + 1) ↔ (2 * (d * 10000) + e < (limit + 1) * (2 * e)) =
      div-lt_iff_lt-mul (omega arith) in
    let ring : (limit + 1) * (2 * e) ≡ (2 * limit + 1) * e + e = grind arith in
    (
      λ above. elim (Bool-cases (ltb (20000 * d) ((2 * limit + 1) * e))) [
        | inl small ↦
            let under = bound.1 (omega (arith, ring, ltb→lt _ _ small)) in
            absurd (omega (arith, under))
        | inr big ↦ ground arith
      ],
      λ far. elim (Bool-cases (ltb limit (slippage_bps d e))) [
        | inl above ↦ ltb→lt _ _ above
        | inr below ↦
            let kept : slippage_bps d e < limit + 1 = ground arith in
            absurd (omega (arith, bound.0 kept, ring, far))
      ],
    )

-- A swap at two positive rates passes, and changes nothing, if the distance of the rates is less than half a basis point above
-- the limit; otherwise it is refused, and one event with the limit and the slippage is emitted.
check_slippage_lem :
    (e a : ℕ) (s : Slippage)
    → 0 < e
    → (let d = distance e (positive a) in
        let limit = get_max_slippage_bps s in
        (20000 * d < (2 * limit + 1) * e → check_slippage (positive e) (positive a) s ≡ (s, ok tt))
        × ((2 * limit + 1) * e ≤ 20000 * d
            → check_slippage (positive e) (positive a) s ≡ (
              record s {
                events =
                    record { max_slippage_bps = limit; actual_slippage_bps = slippage_bps d e }
                    ∷ s.events;
              },
              err exceeded,
            )))
unfolding check_slippage compare_rates
check_slippage_lem e a s h =
    let d = distance e (positive a) in
    let limit = get_max_slippage_bps s in
    let not_zero : (e == 0) ≡ false = ground arith in
    let test = slippage_bps-lt_iff limit d e h in
    (
      λ close. elim (Bool-cases (ltb limit (slippage_bps d e))) [
        | inl above ↦ absurd (omega (arith, close, test.0 (ltb→lt _ _ above)))
        | inr below ↦ rw (not_zero, below) refl
      ],
      λ far. rw (not_zero, lt→ltb limit (slippage_bps d e) (test.1 far)) refl,
    )
