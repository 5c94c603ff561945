-- ===== src/Stellar/Payments.antt =====
-- The rows, calls and answers of src/stellar/stellar-monitor.service.ts.
use dupdap_backend.Base.{ℕ, Bool, List, Option}
use dupdap_backend.Settlements.{StoredPaymentStatus}
use dupdap_backend.Stellar.EscrowMonitor

pub record Merchant : Type 0 where
  pub id : ℕ
  pub has_email : Bool
  pub has_sms_phone_number : Bool

pub data Asset : Type 0 where
  usdc xlm : Asset

-- The relation `merchant` is there only if the query asks for it. Amounts are in millionths.
pub record Payment : Type 0 where
  pub merchant_id : ℕ
  pub reference : ℕ
  -- `metadata.escrowPaymentId`
  pub escrow_payment_id : Option ℕ
  pub merchant : Option Merchant
  pub status : StoredPaymentStatus
  pub stellar_memo : Option ℕ
  pub expires_at : ℕ
  pub tx_hash : Option ℕ
  pub confirmed_at : Option ℕ
  pub customer_wallet_address : Option ℕ
  pub amount_usdc : Option ℕ
  pub amount_xlm : Option ℕ

-- A transaction as Horizon lists it; `ledger` is what `parseLedger` makes of it.
pub record Transaction : Type 0 where
  pub paging_token : ℕ
  pub ledger : Option ℕ
  pub memo : Option ℕ
  pub hash : ℕ

pub record Verification : Type 0 where
  pub verified : Bool
  pub amount : ℕ
  pub asset : Asset
  pub from : Option ℕ

-- The calls of other services, with the payment that they are about.
pub data Call : Type 0 where
  contract_confirm contract_expire queue_email enqueue_sms : (payment : ℕ) → Call
  webhook_confirmed webhook_expired initiate_settlement : (payment : ℕ) → Call

-- The alerts, by their key.
pub data Alert : Type 0 where
  fetch_failed : Alert
  confirm_failed expire_failed : (payment : ℕ) → Alert

pub data RunStatus : Type 0 where
  idle succeeded failed : RunStatus

pub record World : Type 0 where
  pub settles : Call → Bool
  pub verify : (hash memo : ℕ) → Verification
  pub email_enabled : (merchant : ℕ) → Bool
  pub sms_enabled : (merchant : ℕ) → Bool

pub record Monitor : Type 0 where
  pub ids : List ℕ
  pub row : ℕ → Option Payment
  pub cursor : Option ℕ
  pub last_processed_ledger : Option ℕ
  pub lag_ledgers : ℕ
  pub last_run_status : RunStatus
  pub calls : List Call
  pub alerts : List Alert
  -- The state of the Soroban monitor, which reads the payments of the same table.
  pub escrow : EscrowMonitor.Monitor
