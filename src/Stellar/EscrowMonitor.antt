-- ===== src/Stellar/EscrowMonitor.antt =====
-- src/stellar/soroban-monitor.service.ts, the poll that maps escrow events to payments. The RPC request,
-- whether the cache answers, and the calls that may throw (`Outside`) are arguments. Identifiers are
-- numbers, 0 stands for the empty text. The column `amountUsdc` has six decimals: an amount is in
-- millionths. Nothing else writes the payments while a poll runs. A Boolean beside a state says
-- whether the call returned; after a throw the loop is left.
pub mod Causes
pub mod Window
pub mod Deposits
use dupdap_backend.Base.{
  ℕ, ◌-◌, ◌*◌, max, not, ◌&&◌, Bool, true, false, ◌||◌, ltb, ◌==◌, List, [], ◌∷◌, ◌++◌, Option,
  none, some, Result, ok, err, any, find, map, length, if◌then◌else◌,
}
use dupdap_backend.Settlements.{
  StoredPaymentStatus, confirmed, settled, refunded, expired, failed_payment,
}
use mathlib.Core.Logic.{ite}

unfoldable pub StoredPaymentStatus-discrete : Discrete StoredPaymentStatus
StoredPaymentStatus-discrete = hlevel

abbrev pub same_status : StoredPaymentStatus → StoredPaymentStatus → Bool
same_status a b = ite (StoredPaymentStatus-discrete a b) true false

pub data EscrowEventTopic : Type 0 where
  deposit release refund expired_event dispute : EscrowEventTopic

-- A topic in lower case: a known one, another text, or not a text.
pub data RawTopic : Type 0 where
  named : EscrowEventTopic → RawTopic
  other_text not_text : RawTopic

-- A null topic is `none`; the payload is normalized.
pub record SorobanEvent : Type 0 where
  pub id : ℕ
  pub topic : List (Option RawTopic)
  pub payment_id : Option ℕ
  pub payment_id_camel : Option ℕ

pub record Payment : Type 0 where
  pub id : ℕ
  pub reference : ℕ
  pub escrow_payment_id : Option ℕ
  pub status : StoredPaymentStatus
  pub amount_usdc : Option ℕ

-- The two alerts that are raised: by its key.
pub data MonitorAlert : Type 0 where
  fetch_failed : MonitorAlert
  short_paid : (payment escrow_payment_id shortfall : ℕ) → MonitorAlert

pub record Monitor : Type 0 where
  pub processed_event_ids : List ℕ
  pub start_ledger : ℕ
  pub state_loaded : Bool
  pub stored_cursor : Option ℕ
  pub stored_ids : Option (List ℕ)
  pub payments : List Payment
  pub alerts : List MonitorAlert

pub record SorobanEventsResponse : Type 0 where
  pub events : List SorobanEvent
  pub latest_ledger : ℕ

abbrev pub window_size : ℕ
window_size = 10000

-- `Set.has` and `Set.add`
abbrev pub has_id : ℕ → List ℕ → Bool
has_id id = any (λ other. other == id)

abbrev pub add_id : ℕ → List ℕ → List ℕ
add_id id ids = if has_id id ids then ids else ids ++ id ∷ []

abbrev add_ids : List ℕ → List ℕ → List ℕ
add_ids [] ids = ids
add_ids (id ∷ rest) ids = add_ids rest (add_id id ids)

-- `delete` of the first value.
abbrev pub drop_oldest : List ℕ → List ℕ
drop_oldest [] = []
drop_oldest (id ∷ ids) = ids

-- The set with a new id, kept to the size of the window.
unfoldable pub remember : ℕ → List ℕ → List ℕ
remember id ids =
    let added = add_id id ids in if ltb window_size (length added) then drop_oldest added else added

unfoldable pub extract_topic : List (Option RawTopic) → Option EscrowEventTopic
extract_topic topics =
    let first : Option RawTopic = elim topics [
      | [] ↦ none
      | zeroth ∷ rest ↦ elim rest [
        | [] ↦ zeroth
        | second ∷ more ↦ elim second [ none ↦ zeroth | some topic ↦ some topic ]
      ]
    ] in
    elim first [
      | none ↦ none
      | some (named topic) ↦ some topic
      | some other_text ↦ none
      | some not_text ↦ none
    ]

unfoldable pub map_topic_to_status : EscrowEventTopic → StoredPaymentStatus
map_topic_to_status deposit = confirmed
map_topic_to_status release = settled
map_topic_to_status refund = refunded
map_topic_to_status expired_event = expired
map_topic_to_status dispute = failed_payment

abbrev pub is_deposit : EscrowEventTopic → Bool
is_deposit deposit = true
is_deposit _ = false

abbrev pub matches_escrow_payment_id : ℕ → Payment → Bool
matches_escrow_payment_id id payment =
    elim payment.escrow_payment_id [ none ↦ false | some other ↦ other == id ]
    || payment.reference == id

-- `payload.payment_id ?? payload.paymentId`, and nothing where the text is empty.
abbrev pub payment_id_of : SorobanEvent → Option ℕ
payment_id_of event =
    let raw : Option ℕ = elim event.payment_id [
      | none ↦ event.payment_id_camel
      | some id ↦ some id
    ] in
    elim raw [ none ↦ none | some id ↦ if id == 0 then none else some id ]

-- `save` of a payment that the table holds.
abbrev pub save : Payment → List Payment → List Payment
save row = map (λ stored. if stored.id == row.id then row else stored)

-- `BigInt(Math.round(Number(payment.amountUsdc ?? 0) * 10_000_000))`: a millionth is ten stroops.
abbrev pub expected_stroops : Payment → ℕ
expected_stroops payment = elim payment.amount_usdc [ none ↦ 0 | some amount ↦ amount * 10 ]

-- What the call of `queryContractBalance` comes to. StellarService has no such method at this commit,
-- so there the call throws, whatever it is asked.
pub data BalanceAnswer : Type 0 where
  throws unavailable : BalanceAnswer
  holds : (stroops : ℕ) → BalanceAnswer

-- The calls of other services: the balance, and whether `raise` and `save` return.
pub record Outside : Type 0 where
  pub balance : (escrow_payment_id : ℕ) → BalanceAnswer
  pub raises : MonitorAlert → Bool
  pub saves : (payment : ℕ) → Bool

module _ (outside : Outside) where
  -- `some true` is a short-paid deposit, and `none` a throw.
  unfoldable pub verify_deposit_balance :
      Payment → (escrow_payment_id : ℕ) → Monitor → Monitor × Option Bool
  verify_deposit_balance payment escrow_payment_id s = elim (outside.balance escrow_payment_id) [
    | throws ↦ (s, none)
    | unavailable ↦ (s, some false)
    | holds on_chain ↦
        let expected = expected_stroops payment in
        let alert = short_paid payment.id escrow_payment_id (expected - on_chain) in
        if ltb on_chain expected
        then (
          record s { alerts = s.alerts ++ alert ∷ [] },
          if outside.raises alert then some true else none,
        )
        else (s, some false)
  ]

  -- The status of the topic, unless the payment has it.
  unfoldable pub apply_topic : EscrowEventTopic → Payment → Monitor → Monitor × Bool
  apply_topic topic matched s =
      let next = map_topic_to_status topic in
      if same_status matched.status next
      then (s, true)
      else if outside.saves matched.id
      then (record s { payments = save (record matched { status = next }) s.payments }, true)
      else (s, false)

  -- From the payment that was found.
  unfoldable pub process_matched :
      EscrowEventTopic → (escrow_payment_id : ℕ) → Payment → Monitor → Monitor × Bool
  unfolding verify_deposit_balance apply_topic
  process_matched topic id matched s =
      let (s', verified) = verify_deposit_balance matched id s in
      let applied = apply_topic topic matched s in
      let applied' = apply_topic topic matched s' in
      if is_deposit topic
      then elim verified [
        | none ↦ (s', false)
        | some is_short ↦ if is_short then (s', true) else applied'
      ]
      else applied

  unfoldable pub process_escrow_event : SorobanEvent → Monitor → Monitor × Bool
  unfolding process_matched
  process_escrow_event event s = elim (extract_topic event.topic) [
    | none ↦ (s, true)
    | some topic ↦ elim (payment_id_of event) [
      | none ↦ (s, true)
      | some id ↦ elim (find (matches_escrow_payment_id id) s.payments) [
        | none ↦ (s, true)
        | some matched ↦ process_matched topic id matched s
      ]
    ]
  ]

  -- The body of the loop over the events.
  unfoldable pub handle_event : SorobanEvent → Monitor → Monitor × Bool
  handle_event event s =
      if has_id event.id s.processed_event_ids
      then (s, true)
      else process_escrow_event event
          (record s { processed_event_ids = remember event.id s.processed_event_ids })

  unfoldable pub handle_events : List SorobanEvent → Monitor → Monitor × Bool
  handle_events [] s = (s, true)
  handle_events (event ∷ events) s =
      let first = handle_event event s in
      let rest = handle_events events first.0 in if first.1 then rest else first

-- What is known of the cache: whether there is one, and whether its reads and its writes settle.
pub record CacheHealth : Type 0 where
  pub has_cache : Bool
  pub reads : Bool
  pub writes : Bool

unfoldable pub load_state : CacheHealth → Monitor → Monitor
load_state cache s =
    if s.state_loaded || not cache.has_cache
    then s
    else if cache.reads
    then record s {
      start_ledger = elim s.stored_cursor [
        | none ↦ s.start_ledger
        | some ledger ↦ max s.start_ledger ledger
      ];
      processed_event_ids = elim s.stored_ids [
        | none ↦ s.processed_event_ids
        | some ids ↦ add_ids ids s.processed_event_ids
      ];
      state_loaded = true;
    }
    else s

-- `cacheSet`, for the two keys.
unfoldable pub save_cursor : CacheHealth → ℕ → Monitor → Monitor
save_cursor cache ledger s =
    if cache.has_cache && cache.writes then record s { stored_cursor = some ledger } else s

unfoldable pub save_ids : CacheHealth → Monitor → Monitor
save_ids cache s =
    if cache.has_cache && cache.writes
    then record s { stored_ids = some s.processed_event_ids }
    else s

-- After the loop: the set is stored, unless it was left by a throw.
abbrev pub end_page : CacheHealth → Monitor × Bool → Monitor × Bool
end_page cache (s, true) = (save_ids cache s, true)
end_page cache (s, false) = (s, false)

unfoldable pub poll_escrow_events :
    {E : Type 0} (escrow_contract_id : Option ℕ) (cache : CacheHealth) (outside : Outside)
    (get_events : (start_ledger : ℕ) → Result E SorobanEventsResponse)
    → Monitor
    → Monitor × Bool
poll_escrow_events escrow_contract_id cache outside get_events s = elim escrow_contract_id [
  | none ↦ (s, true)
  | some contract ↦
      let loaded = load_state cache s in
      elim (get_events loaded.start_ledger) [
        | err e ↦ (
          record loaded { alerts = loaded.alerts ++ fetch_failed ∷ [] },
          outside.raises fetch_failed,
        )
        | ok response ↦ elim response.events [
          | [] ↦ (loaded, true)
          | first ∷ rest ↦
              let moved =
                save_cursor cache response.latest_ledger
                  (record loaded { start_ledger = response.latest_ledger }) in
              elim moved.payments [
                | [] ↦ (moved, true)
                | payment ∷ payments ↦ end_page cache (handle_events outside (first ∷ rest) moved)
              ]
        ]
      ]
]
