-- ===== src/Wallet/Slippage.antt =====
-- src/blockchain-wallet/slippage.service.ts. A rate is a whole number of the smallest unit that both rates are written in, with its
-- sign; the quotient and its rounding are exact where the code uses floating point numbers.
pub mod Tolerance
use dupdap_backend.Base.{
  ℕ, ◌+◌, ◌-◌, ◌*◌, ◌/◌, ltb, ◌==◌, Bool, true, false, ◌||◌, List, [], ◌∷◌, Option, none, some,
  Result, ok, err, if◌then◌else◌,
}

-- `parseFloat`: NaN, or a number.
pub data Rate : Type 0 where
  nan : Rate
  positive negative : ℕ → Rate

pub data SlippageError : Type 0 where
  out_of_range expected_not_a_number actual_not_a_number exceeded : SlippageError

pub record SlippageExceeded : Type 0 where
  pub max_slippage_bps : ℕ
  pub actual_slippage_bps : ℕ

-- The row of the table, and the events that were emitted.
pub record Slippage : Type 0 where
  pub max_slippage_bps : Option ℕ
  pub events : List SlippageExceeded

abbrev pub default_max_slippage_bps : ℕ
default_max_slippage_bps = 100

unfoldable pub on_module_init : Slippage → Slippage
on_module_init s = elim s.max_slippage_bps [
  | none ↦ record s { max_slippage_bps = some default_max_slippage_bps }
  | some bps ↦ s
]

abbrev pub get_max_slippage_bps : Slippage → ℕ
get_max_slippage_bps s = elim s.max_slippage_bps [
  | none ↦ default_max_slippage_bps
  | some bps ↦ bps
]

unfoldable pub set_max_slippage :
    (is_negative : Bool) (bps : ℕ) → Slippage → Result SlippageError Slippage
set_max_slippage is_negative bps s =
    if is_negative || ltb 10000 bps
    then err out_of_range
    else ok (record s { max_slippage_bps = some bps })

-- `Math.abs(expected - actual)` of a positive expected rate.
unfoldable pub distance : (expected : ℕ) → Rate → ℕ
distance expected nan = 0
distance expected (positive actual) = (expected - actual) + (actual - expected)
distance expected (negative actual) = expected + actual

-- `Math.round((distance / expected) * 10_000)`
unfoldable pub slippage_bps : (distance expected : ℕ) → ℕ
slippage_bps distance expected = (2 * (distance * 10000) + expected) / (2 * expected)

-- The comparison, for rates that are numbers. The quotient of a negative expected rate is not above 0.
unfoldable pub compare_rates :
    (expected actual : Rate) → Slippage → Slippage × Result SlippageError (Unit {0})
unfolding distance slippage_bps
compare_rates nan actual s = (s, err expected_not_a_number)
compare_rates (negative expected) actual s = (s, ok tt)
compare_rates (positive expected) actual s =
    let bps = slippage_bps (distance expected actual) expected in
    let max_bps = get_max_slippage_bps s in
    if ltb max_bps bps
    then (
      record s {
        events = record { max_slippage_bps = max_bps; actual_slippage_bps = bps } ∷ s.events;
      },
      err exceeded,
    )
    else (s, ok tt)

abbrev pub is_zero : Rate → Bool
is_zero nan = true
is_zero (positive n) = n == 0
is_zero (negative n) = n == 0

abbrev pub is_nan : Rate → Bool
is_nan nan = true
is_nan (positive n) = false
is_nan (negative n) = false

-- `isNaN(expected) || expected === 0`
unfoldable pub check_slippage :
    (expected actual : Rate) → Slippage → Slippage × Result SlippageError (Unit {0})
unfolding compare_rates
check_slippage expected actual s =
    if is_zero expected
    then (s, err expected_not_a_number)
    else (if is_nan actual then (s, err actual_not_a_number) else compare_rates expected actual s)
