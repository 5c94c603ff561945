-- ===== src/Examples/EscrowRuns.antt =====
-- Runs of the theorems about src/blockchain-wallet/payment-escrow.service.ts.
use dupdap_backend.Base.{◌≤◌, ◌≡◌, refl, [], ◌∷◌, none, some, ok, All}
use dupdap_backend.Wallet.Escrow.{
  Escrow, pending, PaymentExpiredEvent, release_call, new, expire_payment,
}
use dupdap_backend.Wallet.Escrow.Steps.{
  advance, create, expire_call, pause_call, apply, System, initial, start, call, starts, here, next,
}
use dupdap_backend.Wallet.Escrow.Lock.{IsLocked, Reach-IsLocked}
use dupdap_backend.Wallet.Escrow.Expiry.{HasNoReturn, Reach-HasNoReturn}

-- One release is under way.
abbrev releasing : System
releasing = start (release_call 1 "merchant") initial

Reach-IsLocked_example : IsLocked releasing × (releasing.guarded_in_flight ≤ 1)
Reach-IsLocked_example =
    Reach-IsLocked {y = releasing} (next here (starts (release_call 1 "merchant")))

abbrev paused_twice : System
paused_twice =
    let once = record initial { service = apply (pause_call 3 10) new } in
    record once { service = apply (pause_call 3 20) once.service }

abbrev made : System
made = record initial { service = apply (create 10 1 "merchant" "5.00" (some 1001)) new }

abbrev later_on : System
later_on = record made { service = apply (advance 5) made.service }

abbrev gone : System
gone = record later_on { service = apply (expire_call 1) later_on.service }

Reach-HasNoReturn_example : All HasNoReturn gone.service.expired_event_log
Reach-HasNoReturn_example = Reach-HasNoReturn {y = gone} (
    next (next (next here (call (create 10 1 "merchant" "5.00" (some 1001)))) (call (advance 5)))
      (call (expire_call 1)))

-- A pending payment whose ledger has passed.
abbrev late : Escrow
late = record new {
  payments =
      (
        1,
        record {
          id = 1;
          merchant_address = "merchant";
          customer_address = none;
          amount_usdc = "5.00";
          expiry_ledger = 900;
          status = pending;
          created_at = 10;
        },
      )
      ∷ [];
}

abbrev expiry_event : PaymentExpiredEvent
expiry_event = record {
  payment_id = 1;
  expiry_ledger = 900;
  ledger_at_expiry = 1000;
  refund_instruction = record { amount_usdc = "5.00"; return_to_address = none };
}

late-expire_payment : (expire_payment 1 late).1 ≡ ok (some expiry_event)
unfolding expire_payment
late-expire_payment = refl
