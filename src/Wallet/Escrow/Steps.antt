-- ===== src/Wallet/Escrow/Steps.antt =====
-- The escrow service (src/blockchain-wallet/payment-escrow.service.ts) on an event loop: any call may
-- run between the start of a guarded operation and the moment its Soroban call settles.
use Prim.Native.String.{String}
use dupdap_backend.Base.{ℕ, suc, ◌≡◌, Option, Result, ok, err}
use dupdap_backend.Wallet.Escrow.{
  Escrow, EscrowError, SorobanCall, new, set_current_ledger, advance_ledger, create_payment,
  confirm, expire_payment, pause, unpause, begin, release_lock,
}

-- The calls that finish without an await in between.
pub data Call : Type 0 where
  set_ledger advance : ℕ → Call
  create : (now payment_id : ℕ) → (merchant_address amount_usdc : String) → Option ℕ → Call
  confirm_call : ℕ → String → Call
  expire_call : ℕ → Call
  pause_call unpause_call : (admin now : ℕ) → Call

unfoldable pub apply : Call → Escrow → Escrow
unfolding set_current_ledger advance_ledger create_payment confirm expire_payment pause unpause
apply (set_ledger n) s = set_current_ledger n s
apply (advance n) s = advance_ledger n s
apply (create now i m a x) s = (create_payment now i m a x s).0
apply (confirm_call i c) s = (confirm i c s).0
apply (expire_call i) s = (expire_payment i s).0
apply (pause_call a now) s = pause a now s
apply (unpause_call a now) s = unpause a now s

-- The service with the number of guarded operations (`deposit`, `release`, `refund`) whose Soroban call
-- has not settled, and the number of the calls of the Soroban client that are made without the guard
-- (`registerUser`, `getBalance`, `getStakeBalance`) and have not settled.
pub record System : Type 0 where
  pub service : Escrow
  pub guarded_in_flight : ℕ
  pub unguarded_in_flight : ℕ

abbrev admitted : Result EscrowError (Unit {0}) → ℕ → ℕ
admitted (ok _) n = suc n
admitted (err _) n = n

unfoldable pub start : SorobanCall → System → System
unfolding begin
start request y =
    let (s, entered) = begin request y.service in
    record y { service = s; guarded_in_flight = admitted entered y.guarded_in_flight }

pub data Step (y : System) : System → Type 0 where
  call : (c : Call) → Step y (record y { service = apply c y.service })
  starts : (request : SorobanCall) → Step y (start request y)
  settles :
      (n : ℕ)
      → y.guarded_in_flight ≡ suc n
      → Step y (record y { service = release_lock y.service; guarded_in_flight = n })
  starts_unguarded : Step y (record y { unguarded_in_flight = suc y.unguarded_in_flight })
  settles_unguarded :
      (n : ℕ) → y.unguarded_in_flight ≡ suc n → Step y (record y { unguarded_in_flight = n })

abbrev pub initial : System
initial = record { service = new; guarded_in_flight = 0; unguarded_in_flight = 0 }

pub data Reach : System → Type 0 where
  here : Reach initial
  next : {y z : System} → Reach y → Step y z → Reach z
