-- ===== src/Examples/PaymentRuns.antt =====
-- Runs of the theorems about src/payments.
use dupdap_backend.Base.{ℕ, ◌≡◌, refl, ◌↔◌, true, List, [], ◌∷◌, ok}
use dupdap_backend.Payments.StateMachine.{
  PaymentStatus-discrete, pending, confirmed, settling, settled, failed, allowed_transitions,
  can_transition, assert_transition, transition, is_terminal,
}
use dupdap_backend.Payments.StateMachine.Lifecycle.{◌⟶◌, follow, is_terminal_iff}
use dupdap_backend.Payments.Csv.{parse_csv}
use dupdap_backend.Payments.Csv.RoundTrip.{print_csv, kept, parse_csv-print_csv}

is_terminal_iff_example : (is_terminal failed ≡ true) ↔ ((t : _) → ¬ (failed ⟶ t))
is_terminal_iff_example = is_terminal_iff failed

life-follow : follow pending (confirmed ∷ settling ∷ settled ∷ []) ≡ ok settled
unfolding follow transition assert_transition can_transition PaymentStatus-discrete
    allowed_transitions
life-follow = refl

-- `a,"b,"` and `"` in one row.
abbrev table : List (List (List ℕ))
table = ((97 ∷ []) ∷ (98 ∷ 44 ∷ []) ∷ (34 ∷ []) ∷ []) ∷ []

parse_csv-print_csv_example : parse_csv (print_csv true table) ≡ ok (kept table)
parse_csv-print_csv_example = parse_csv-print_csv true table
