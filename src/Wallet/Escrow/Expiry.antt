-- ===== src/Wallet/Escrow/Expiry.antt =====
-- The life of a payment in src/blockchain-wallet/payment-escrow.service.ts: confirmation, expiry, and
-- the refund instructions of the expiry events.
use Prim.Native.String.{String}
use dupdap_backend.Base.{
  ℕ, ◌<◌, ◌≡◌, refl, ◌⊎◌, inl, inr, false, none, some, ok, err, arith, All, All-append, All-insert,
  lookup-All, lookup, lookup-insert, Option-cases, Bool-cases, leb, ltb, ◌||◌,
}
use dupdap_backend.Wallet.Escrow.{
  Escrow, is_confirmed, is_expired_status, ContractPayment, PaymentExpiredEvent, confirmed, expired,
  payment_expired, confirm, expire_payment, release_lock, advance_ledger,
}
use dupdap_backend.Wallet.Escrow.Steps.{
  Call, set_ledger, advance, create, confirm_call, expire_call, pause_call, unpause_call, apply,
  System, start, Step, call, starts, settles, starts_unguarded, settles_unguarded, Reach, here,
  next,
}

-- Only a confirmed payment has a customer address.
abbrev HasOwner : ContractPayment → Type 0
HasOwner p = (p.status ≡ confirmed) ⊎ (p.customer_address ≡ none)

abbrev pub HasNoReturn : PaymentExpiredEvent → Type 0
HasNoReturn event = event.refund_instruction.return_to_address ≡ none

record IsUnreturned (s : Escrow) : Type 0 where
  owners : All (λ e. HasOwner e.1) s.payments
  events : All HasNoReturn s.expired_event_log

confirm-IsUnreturned :
    (i : ℕ) (c : String) (s : Escrow) → IsUnreturned s → IsUnreturned (confirm i c s).0
unfolding confirm
confirm-IsUnreturned i c s h = elim (Option-cases (lookup i s.payments)) [
  | inl missing ↦ rw (missing, confirm) h
  | inr (p, found) ↦
      let p' = record p { customer_address = some c; status = confirmed } in
      elim (Bool-cases (ltb p.expiry_ledger s.current_ledger)) [
        | inl late ↦ rw (found, confirm) (rw late h)
        | inr in_time ↦
            rw (found, confirm)
              (rw in_time (record {
                owners = All-insert HasOwner i p' s.payments (inl refl) h.owners;
                events = h.events;
              }))
      ]
]

-- The event of a payment that expires carries its customer address, which it does not have.
no_return :
    (i : ℕ) (p : ContractPayment) (s : Escrow)
    → lookup i s.payments ≡ some p
    → is_confirmed p.status ≡ false
    → IsUnreturned s
    → p.customer_address ≡ none
no_return i p s found open_ h = ground (arith, lookup-All HasOwner i p s.payments h.owners found)

expire_payment-IsUnreturned :
    (i : ℕ) (s : Escrow) → IsUnreturned s → IsUnreturned (expire_payment i s).0
unfolding expire_payment
expire_payment-IsUnreturned i s h = elim (Option-cases (lookup i s.payments)) [
  | inl missing ↦ rw (missing, expire_payment) h
  | inr (p, found) ↦
      elim (Bool-cases (is_confirmed p.status || leb s.current_ledger p.expiry_ledger)) [
        | inl stays ↦ rw (found, expire_payment) (rw stays h)
        | inr due ↦ elim (Bool-cases (is_expired_status p.status)) [
          | inl twice ↦ rw (found, expire_payment) (rw (due, twice) h)
          | inr once ↦
              let gone = no_return i p s found (ground arith) h in
              let p' = record p { status = expired } in
              rw (found, expire_payment)
                (rw (due, once)
                  (record {
                    owners = All-insert HasOwner i p' s.payments (inr gone) h.owners;
                    events = All-append HasNoReturn s.expired_event_log _ h.events (gone, tt);
                  }))
        ]
      ]
]

apply-IsUnreturned : (c : Call) (s : Escrow) → IsUnreturned s → IsUnreturned (apply c s)
unfolding apply
apply-IsUnreturned (set_ledger n) s h = record { owners = h.owners; events = h.events }
apply-IsUnreturned (advance n) s h = record { owners = h.owners; events = h.events }
apply-IsUnreturned (create now i m a x) s h = record {
  owners = All-insert HasOwner i _ s.payments (inr refl) h.owners;
  events = h.events;
}
apply-IsUnreturned (confirm_call i c) s h = confirm-IsUnreturned i c s h
apply-IsUnreturned (expire_call i) s h = expire_payment-IsUnreturned i s h
apply-IsUnreturned (pause_call a now) s h = ground arith
apply-IsUnreturned (unpause_call a now) s h = ground arith

Step-IsUnreturned : {y z : System} → Step y z → IsUnreturned y.service → IsUnreturned z.service
unfolding start release_lock
Step-IsUnreturned {y} (call c) h = apply-IsUnreturned c y.service h
Step-IsUnreturned {y} (starts request) h = ground arith
Step-IsUnreturned {y} (settles n e) h = record { owners = h.owners; events = h.events }
Step-IsUnreturned {y} starts_unguarded h = h
Step-IsUnreturned {y} (settles_unguarded n e) h = h

-- However calls interleave, no expiry event ever names an address to return the money to: only a
-- confirmed payment has a customer address, and a confirmed payment does not expire.
pub Reach-HasNoReturn : {y : System} → Reach y → All HasNoReturn y.service.expired_event_log
Reach-HasNoReturn r = (unreturned r).events
  where
    unreturned : {y : System} → Reach y → IsUnreturned y.service
    unreturned here = record { owners = tt; events = tt }
    unreturned (next r st) = Step-IsUnreturned st (unreturned r)

expire_inversion :
    (i : ℕ) (s : Escrow) {event : PaymentExpiredEvent}
    → (expire_payment i s).1 ≡ ok (some event)
    → (p : ContractPayment) × (lookup i (expire_payment i s).0.payments
        ≡ some (record p { status = expired }))
      × (p.expiry_ledger < s.current_ledger)
      × (event.expiry_ledger ≡ p.expiry_ledger)
      × ((expire_payment i s).0.current_ledger ≡ s.current_ledger)
unfolding expire_payment
expire_inversion i s {event} e = elim (Option-cases (lookup i s.payments)) [
  | inl missing ↦ cc (rw (missing, expire_payment) at e)
  | inr (p, found) ↦
      let stored = lookup-insert i i (record p { status = expired }) s.payments in
      (p, ground (arith, stored), ground arith, ground arith, ground arith)
]

stays_expired :
    (i : ℕ) (c : String) (q : ContractPayment) (t : Escrow)
    → lookup i t.payments ≡ some q
    → q.status ≡ expired
    → q.expiry_ledger < t.current_ledger
    → (expire_payment i t ≡ (t, ok none))
      × (confirm i c t ≡ (t, err (payment_expired i q.expiry_ledger t.current_ledger)))
unfolding expire_payment confirm
stays_expired i c q t found x late =
    (rw (found, expire_payment) (ground arith), rw (found, confirm) (ground arith))

-- Once a payment has expired it stays so however far the ledger advances: a second expiry answers
-- null and logs nothing, and a confirmation is refused as expired; neither changes the service.
expire_final :
    (i delta : ℕ) (c : String) (s : Escrow) {event : PaymentExpiredEvent}
    → (expire_payment i s).1 ≡ ok (some event)
    → let later = advance_ledger delta (expire_payment i s).0 in
      (expire_payment i later ≡ (later, ok none))
      × (confirm i c later
          ≡ (later, err (payment_expired i event.expiry_ledger later.current_ledger)))
unfolding advance_ledger
expire_final i delta c s {event} e =
    let (p, stored, late, same, kept) = expire_inversion i s {event = event} e in
    let later = advance_ledger delta (expire_payment i s).0 in
    let (quiet, refused) =
      stays_expired i c (record p { status = expired }) later stored refl (omega arith) in
    (quiet, rw same refused)
