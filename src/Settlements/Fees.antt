-- ===== src/Settlements/Fees.antt =====
-- src/settlements/fee-calculation.service.ts on whole cents, in exact arithmetic: an amount is `none` where it is
-- not finite or negative. A rate is in thousandths, a bound in cents.
pub mod Split
use dupdap_backend.Base.{
  ℕ, ◌+◌, ◌*◌, ◌/◌, ◌-◌, Bool, true, ◌&&◌, ltb, leb, List, [], ◌∷◌, Option, none, some, Result, ok,
  err, if◌then◌else◌,
}

pub data TierName : Type 0 where
  standard growth scale enterprise : TierName

pub record FeeTier : Type 0 where
  pub name : TierName
  pub min_cents : ℕ
  pub max_cents : Option ℕ
  pub rate : ℕ

pub record FeeResult : Type 0 where
  pub fee_cents : ℕ
  pub fee_rate : ℕ
  pub tier_name : TierName
  pub net_cents : ℕ

pub data FeeError : Type 0 where
  invalid_amount : FeeError

abbrev pub enterprise_tier : FeeTier
enterprise_tier = record { name = enterprise; min_cents = 10000000; max_cents = none; rate = 15 }

abbrev pub fee_tiers : List FeeTier
fee_tiers =
    record { name = standard; min_cents = 0; max_cents = some 100000; rate = 29 }
    ∷ record { name = growth; min_cents = 100000; max_cents = some 1000000; rate = 25 }
    ∷ record { name = scale; min_cents = 1000000; max_cents = some 10000000; rate = 20 }
    ∷ enterprise_tier
    ∷ []

abbrev pub within : ℕ → FeeTier → Bool
within cents tier =
    leb tier.min_cents cents
    && elim tier.max_cents [ none ↦ true | some max_cents ↦ ltb cents max_cents ]

-- The loop, and the last tier where no other fits.
unfoldable pub resolve_tier : ℕ → List FeeTier → FeeTier
resolve_tier cents [] = enterprise_tier
resolve_tier cents (tier ∷ tiers) = if within cents tier then tier else resolve_tier cents tiers

-- `round` of thousandths of a cent, half a cent up.
unfoldable pub round : ℕ → ℕ
round thousandths = (thousandths + 500) / 1000

unfoldable pub calculate_fee : Option ℕ → Result FeeError FeeResult
calculate_fee none = err invalid_amount
calculate_fee (some cents) =
    let tier = resolve_tier cents fee_tiers in
    let fee = round (cents * tier.rate) in
    ok (record {
      fee_cents = fee;
      fee_rate = tier.rate;
      tier_name = tier.name;
      net_cents = cents - fee;
    })
