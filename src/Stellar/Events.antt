-- ===== src/Stellar/Events.antt =====
-- The events and messages of src/stellar/soroban-event.dto.ts, and the parsing of an event in
-- src/stellar/soroban-event-indexer.service.ts. Texts are lists of code units where the source asks whether
-- one is empty.
use dupdap_backend.Base.{
  ℕ, Bool, true, false, List, [], ◌∷◌, Option, none, some, Result, ok, err, if◌then◌else◌,
}

-- A JSON value as the source reads it: `String(v)`, `Number(v)` (`none` is NaN) and
-- `typeof v === 'string'`.
pub record Json : Type 0 where
  pub as_text : List ℕ
  pub as_number : Option ℕ
  pub is_text : Bool

-- The first topics that the source knows, and the others.
pub data Topic : Type 0 where
  payment_confirmed settlement_completed : Topic
  other_topic : ℕ → Topic

-- The fields of `value` that are read; a missing or null field is `none`.
pub record EventValue : Type 0 where
  pub payment_reference : Option Json
  pub reference : Option Json
  pub tx_hash : Option Json
  pub amount : Option Json
  pub asset : Option Json
  pub from : Option Json
  pub settlement_id : Option Json
  pub partner_reference : Option Json

pub record SorobanRpcEvent : Type 0 where
  pub id : ℕ
  pub paging_token : ℕ
  pub ledger : Option ℕ
  pub ledger_closed_at : ℕ
  pub contract_id : ℕ
  pub topic : List Topic
  pub value : EventValue

-- The base of the messages is the event that they are made of.
pub data SorobanContractEventDto : Type 0 where
  payment_confirmed_dto :
      (raw : SorobanRpcEvent) (payment_reference tx_hash : List ℕ) (amount : ℕ) (asset : List ℕ)
      (from : Option (List ℕ))
      → SorobanContractEventDto
  settlement_completed_dto :
      (raw : SorobanRpcEvent) (settlement_id : List ℕ) (partner_reference : Option (List ℕ))
      → SorobanContractEventDto

pub data EventError : Type 0 where
  invalid_payment_confirmed invalid_settlement_completed listener_failed : EventError

pub record SorobanEventsResponse : Type 0 where
  pub events : List SorobanRpcEvent
  pub latest_ledger : ℕ

pub record DeadLetter : Type 0 where
  pub event : SorobanRpcEvent
  pub error : EventError

abbrev pub page_limit : ℕ
page_limit = 200

abbrev pub max_skipped_polls : ℕ
max_skipped_polls = 3

-- `String(v ?? fallback)`
abbrev text_or : Option Json → List ℕ → List ℕ
text_or none fallback = fallback
text_or (some v) fallback = v.as_text

-- `a ?? b`
abbrev or_else {ℓ} : {A : Type ℓ} → Option A → Option A → Option A
or_else none b = b
or_else (some a) b = some a

-- `Number(v ?? 0)`
abbrev number_or_zero : Option Json → Option ℕ
number_or_zero none = some 0
number_or_zero (some v) = v.as_number

-- `typeof v === 'string' ? v : undefined`
abbrev text_only : Option Json → Option (List ℕ)
text_only none = none
text_only (some v) = if v.is_text then some v.as_text else none

-- `!text`
abbrev is_empty : List ℕ → Bool
is_empty [] = true
is_empty (c ∷ text) = false

-- "USDC"
abbrev usdc : List ℕ
usdc = 85 ∷ 83 ∷ 68 ∷ 67 ∷ []

unfoldable pub to_payment_confirmed_dto :
    SorobanRpcEvent → Result EventError SorobanContractEventDto
to_payment_confirmed_dto raw =
    let payment_reference = text_or (or_else raw.value.payment_reference raw.value.reference) [] in
    let tx_hash = text_or raw.value.tx_hash [] in
    let asset = text_or raw.value.asset usdc in
    elim (number_or_zero raw.value.amount) [
      | none ↦ err invalid_payment_confirmed
      | some amount ↦
          if is_empty payment_reference
          then err invalid_payment_confirmed
          else if is_empty tx_hash
          then err invalid_payment_confirmed
          else ok (
              payment_confirmed_dto raw payment_reference tx_hash amount asset
                (text_only raw.value.from))
    ]

unfoldable pub to_settlement_completed_dto :
    SorobanRpcEvent → Result EventError SorobanContractEventDto
to_settlement_completed_dto raw =
    let settlement_id = text_or (or_else raw.value.settlement_id raw.value.reference) [] in
    if is_empty settlement_id
    then err invalid_settlement_completed
    else ok (settlement_completed_dto raw settlement_id (text_only raw.value.partner_reference))

abbrev returned {ℓ κ} : {E : Type ℓ} {A : Type κ} → Result E A → Result E (Option A)
returned (ok a) = ok (some a)
returned (err e) = err e

-- `null` is `ok none`.
unfoldable pub parse_event : SorobanRpcEvent → Result EventError (Option SorobanContractEventDto)
unfolding to_payment_confirmed_dto to_settlement_completed_dto
parse_event raw = elim raw.topic [
  | [] ↦ ok none
  | topic ∷ rest ↦ elim topic [
    | payment_confirmed ↦ returned (to_payment_confirmed_dto raw)
    | settlement_completed ↦ returned (to_settlement_completed_dto raw)
    | other_topic t ↦ ok none
  ]
]
