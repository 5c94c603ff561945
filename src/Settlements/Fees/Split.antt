-- ===== src/Settlements/Fees/Split.antt =====
-- How an amount is split into fee and rest (src/settlements/fee-calculation.service.ts).
use dupdap_backend.Base.{ℕ, ◌+◌, ◌*◌, ◌-◌, ◌≡◌, ◌≤◌, ◌<◌, true, refl, some, ok, arith}
use dupdap_backend.Settlements.Fees.{
  FeeTier, FeeResult, fee_tiers, within, resolve_tier, round, calculate_fee,
}

-- Whatever the amount, the tier that is taken is one whose bounds hold it.
resolve_tier-within : (cents : ℕ) → within cents (resolve_tier cents fee_tiers) ≡ true
unfolding resolve_tier
resolve_tier-within cents = ground arith

resolve_tier-rate :
    (cents : ℕ)
    → (15 ≤ (resolve_tier cents fee_tiers).rate) × ((resolve_tier cents fee_tiers).rate ≤ 29)
unfolding resolve_tier
resolve_tier-rate cents = (ground arith, ground arith)

round-le : (n : ℕ) → (round n * 1000 ≤ n + 500) × (n < round n * 1000 + 500 + 1)
unfolding round
round-le n = (omega arith, omega arith)

fee-le : (cents : ℕ) → round (cents * (resolve_tier cents fee_tiers).rate) ≤ cents
unfolding resolve_tier round
fee-le cents = ground arith

-- The result for a valid amount: fee and rest add up to the amount; the fee is the amount times the
-- rate, to the nearest cent; and name and rate are those of a tier whose bounds hold the amount.
calculate_fee_lem :
    (cents : ℕ)
    → (r : FeeResult) × (tier : FeeTier) × (calculate_fee (some cents) ≡ ok r)
      × (r.fee_cents + r.net_cents ≡ cents)
      × (r.fee_cents * 1000 ≤ cents * r.fee_rate + 500)
      × (cents * r.fee_rate ≤ r.fee_cents * 1000 + 500)
      × (within cents tier ≡ true)
      × (r.tier_name ≡ tier.name)
      × (r.fee_rate ≡ tier.rate)
unfolding calculate_fee
calculate_fee_lem cents =
    let tier = resolve_tier cents fee_tiers in
    let fee = round (cents * tier.rate) in
    let (low, high) = round-le (cents * tier.rate) in
    let le = fee-le cents in
    (
      record {
        fee_cents = fee;
        fee_rate = tier.rate;
        tier_name = tier.name;
        net_cents = cents - fee;
      },
      tier,
      refl,
      omega (arith, le),
      low,
      omega (arith, high),
      resolve_tier-within cents,
      refl,
      refl,
    )
