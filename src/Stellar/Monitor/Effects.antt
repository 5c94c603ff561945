-- ===== src/Stellar/Monitor/Effects.antt =====
-- What the calls of other services leave alone (src/stellar/stellar-monitor.service.ts).
use dupdap_backend.Base.{
  ◌⊎◌, ℕ, ◌≡◌, ◌∙◌, refl, Bool, List, [], ◌∷◌, ◌++◌, none, some, if◌then◌else◌, arith, Option-cases,
  Bool-cases, inl, inr, count, count-append, ◌==◌,
}
use dupdap_backend.Settlements.{expired}
use dupdap_backend.Stellar.Monitor.{
  perform, confirm_payment, find_locked, expire_one, save, email_calls, sms_calls, as_confirmed,
}
use dupdap_backend.Stellar.Payments.{
  World, Monitor, Call, Payment, Verification, contract_confirm, contract_expire, webhook_confirmed,
  webhook_expired, initiate_settlement,
}

module _ (world : World) where
  pub perform-row : (calls : List Call) (s : Monitor) → (perform world calls s).0.row ≡ s.row
  unfolding perform
  perform-row [] s = refl
  perform-row (call ∷ rest) s = elim (Bool-cases (world.settles call)) [
    | inl settled ↦ rw settled (perform-row rest (record s { calls = s.calls ++ call ∷ [] }))
    | inr thrown ↦ rw thrown refl
  ]

  -- Calls that a test does not pass.
  pub perform-count :
      (p : Call → Bool) (calls : List Call) (s : Monitor)
      → count p calls ≡ 0
      → count p (perform world calls s).0.calls ≡ count p s.calls
  unfolding perform
  perform-count p [] s h = refl
  perform-count p (call ∷ rest) s h =
      let s' = record s { calls = s.calls ++ call ∷ [] } in
      let head = count-append p s.calls (call ∷ []) in
      elim (Bool-cases (world.settles call)) [
        | inl settled ↦
            rw settled (omega (arith, h, head, perform-count p rest s' (omega (arith, h))))
        | inr thrown ↦ rw thrown (omega (arith, h, head))
      ]

  -- The row that the refetch answers has no merchant.
  find_locked-merchant :
      (id : ℕ) (s : Monitor) {locked : Payment}
      → find_locked id s ≡ some locked
      → locked.merchant ≡ none
  unfolding find_locked
  find_locked-merchant id s h = ground arith

  -- What goes out after the row is written.
  effects : (now id hash : ℕ) → Verification → Payment → List Call
  effects now id hash result locked =
      let row = as_confirmed now hash result locked in
      email_calls world id row
      ++ sms_calls world id row
      ++ webhook_confirmed id ∷ initiate_settlement id ∷ []

  effects-lem :
      (now id hash : ℕ) (result : Verification) (locked : Payment)
      → locked.merchant ≡ none
      → effects now id hash result locked ≡ webhook_confirmed id ∷ initiate_settlement id ∷ []
  unfolding effects email_calls sms_calls as_confirmed
  effects-lem now id hash result locked h = rw h refl

  -- A confirmation makes the calls of a payment without a merchant.
  pub confirm_payment-count :
      (p : Call → Bool) (now id hash : ℕ) (result : Verification) (s : Monitor)
      → count p (contract_confirm id ∷ webhook_confirmed id ∷ initiate_settlement id ∷ []) ≡ 0
      → count p (confirm_payment world now id hash result s).0.calls ≡ count p s.calls
  unfolding confirm_payment effects
  confirm_payment-count p now id hash result s h = elim (Option-cases (find_locked id s)) [
    | inl finished ↦ rw (finished, confirm_payment) refl
    | inr (locked, found) ↦
        let ask = contract_confirm id ∷ [] in
        let asked = (perform world ask s).0 in
        let row = as_confirmed now hash result locked in
        let written = save id row asked in
        let first = perform-count p ask s (omega (arith, h)) in
        let calls = effects now id hash result locked in
        let few : count p calls ≡ 0 =
          rw (effects-lem now id hash result locked (find_locked-merchant id s found))
            (omega (arith, h)) in
        let second = perform-count p calls written few in
        elim (Bool-cases (perform world ask s).1) [
          | inr refused ↦ rw (found, confirm_payment) (rw refused first)
          | inl agreed ↦ elim (Bool-cases (perform world calls written).1) [
            | inl settled ↦ rw (found, confirm_payment) (rw agreed (rw settled (second ∙ first)))
            | inr thrown ↦ rw (found, confirm_payment) (rw agreed (rw thrown (second ∙ first)))
          ]
        ]
  ]

  -- It writes the row or not.
  pub confirm_payment-row :
      (now id hash other : ℕ) (result : Verification) (s : Monitor)
      → let s' = (confirm_payment world now id hash result s).0 in
        (s'.row other ≡ s.row other)
        ⊎ ((locked : Payment) × (find_locked id s ≡ some locked)
            × (s'.row other ≡ (
                if other == id then some (as_confirmed now hash result locked) else s.row other)))
  unfolding confirm_payment effects
  confirm_payment-row now id hash other result s = elim (Option-cases (find_locked id s)) [
    | inl finished ↦ inl (rw (finished, confirm_payment) refl)
    | inr (locked, found) ↦
        let ask = contract_confirm id ∷ [] in
        let asked = (perform world ask s).0 in
        let row = as_confirmed now hash result locked in
        let written = save id row asked in
        let calls = effects now id hash result locked in
        let first = perform-row ask s in
        let second = perform-row calls written in
        elim (Bool-cases (perform world ask s).1) [
          | inr refused ↦ inl (rw (found, confirm_payment) (rw refused (rw first refl)))
          | inl agreed ↦ elim (Bool-cases (perform world calls written).1) [
            | inl settled ↦ inr (
              locked,
              found,
              rw (found, confirm_payment) (rw agreed (rw settled (rw second (rw first refl)))),
            )
            | inr thrown ↦ inl (rw (found, confirm_payment) (rw agreed (rw thrown refl)))
          ]
        ]
  ]

  pub expire_one-count :
      (p : Call → Bool) (id : ℕ) (payment : Payment) (s : Monitor)
      → count p (contract_expire id ∷ webhook_expired id ∷ []) ≡ 0
      → count p (expire_one world id payment s).calls ≡ count p s.calls
  unfolding expire_one
  expire_one-count p id payment s h =
      let ask = contract_expire id ∷ [] in
      let asked = (perform world ask s).0 in
      let written = save id (record payment { status = expired }) asked in
      let first = perform-count p ask s (omega (arith, h)) in
      let second = perform-count p (webhook_expired id ∷ []) written (omega (arith, h)) in
      elim (Bool-cases (perform world ask s).1) [
        | inr refused ↦ rw refused first
        | inl agreed ↦ elim (Bool-cases (perform world (webhook_expired id ∷ []) written).1) [
          | inl settled ↦ rw agreed (rw settled (second ∙ first))
          | inr thrown ↦ rw agreed (rw thrown (second ∙ first))
        ]
      ]

  pub expire_one-row :
      (id other : ℕ) (payment : Payment) (s : Monitor)
      → let s' = expire_one world id payment s in
        (s'.row other ≡ s.row other)
        ⊎ (s'.row other
            ≡ (if other == id then some (record payment { status = expired }) else s.row other))
  unfolding expire_one
  expire_one-row id other payment s =
      let ask = contract_expire id ∷ [] in
      let asked = (perform world ask s).0 in
      let written = save id (record payment { status = expired }) asked in
      let first = perform-row ask s in
      let second = perform-row (webhook_expired id ∷ []) written in
      elim (Bool-cases (perform world ask s).1) [
        | inr refused ↦ inl (rw refused (rw first refl))
        | inl agreed ↦ elim (Bool-cases (perform world (webhook_expired id ∷ []) written).1) [
          | inl settled ↦ inr (rw agreed (rw settled (rw second (rw first refl))))
          | inr thrown ↦ inr (rw agreed (rw thrown (rw second (rw first refl))))
        ]
      ]
