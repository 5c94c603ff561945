-- ===== src/Wallet/Escrow/Pause.antt =====
-- The pause switch of src/blockchain-wallet/payment-escrow.service.ts and its event log.
use dupdap_backend.Base.{ℕ, ◌≡◌, refl, Bool, true, false, List, [], ◌∷◌, ◌++◌, arith}
use dupdap_backend.Wallet.Escrow.{
  Escrow, ContractEvent, contract_paused, contract_unpaused, pause, unpause, release_lock,
}
use dupdap_backend.Wallet.Escrow.Steps.{
  Call, set_ledger, advance, create, confirm_call, expire_call, pause_call, unpause_call, apply,
  System, start, Step, call, starts, settles, starts_unguarded, settles_unguarded, Reach, here,
  next,
}

-- The log switches the flag from `before` to `after`: each event is a real change.
abbrev pub Switches : Bool → List ContractEvent → Bool → Type 0
Switches before [] after = before ≡ after
Switches before (contract_paused _ _ ∷ log) after = (before ≡ false) × Switches true log after
Switches before (contract_unpaused _ _ ∷ log) after = (before ≡ true) × Switches false log after

Switches-paused :
    (before : Bool) (log : List ContractEvent) (admin now : ℕ)
    → Switches before log false
    → Switches before (log ++ contract_paused admin now ∷ []) true
Switches-paused before [] admin now h = (h, refl)
Switches-paused before (contract_paused a n ∷ log) admin now h =
    (h.0, Switches-paused true log admin now h.1)
Switches-paused before (contract_unpaused a n ∷ log) admin now h =
    (h.0, Switches-paused false log admin now h.1)

Switches-unpaused :
    (before : Bool) (log : List ContractEvent) (admin now : ℕ)
    → Switches before log true
    → Switches before (log ++ contract_unpaused admin now ∷ []) false
Switches-unpaused before [] admin now h = (h, refl)
Switches-unpaused before (contract_paused a n ∷ log) admin now h =
    (h.0, Switches-unpaused true log admin now h.1)
Switches-unpaused before (contract_unpaused a n ∷ log) admin now h =
    (h.0, Switches-unpaused false log admin now h.1)

abbrev IsLogged : Escrow → Type 0
IsLogged s = Switches false s.event_log s.paused

pause-IsLogged : (admin now : ℕ) (s : Escrow) → IsLogged s → IsLogged (pause admin now s)
unfolding pause
pause-IsLogged admin now s h = ground (arith, Switches-paused false s.event_log admin now)

unpause-IsLogged : (admin now : ℕ) (s : Escrow) → IsLogged s → IsLogged (unpause admin now s)
unfolding unpause
unpause-IsLogged admin now s h = ground (arith, Switches-unpaused false s.event_log admin now)

apply-IsLogged : (c : Call) (s : Escrow) → IsLogged s → IsLogged (apply c s)
unfolding apply
apply-IsLogged (set_ledger n) s h = h
apply-IsLogged (advance n) s h = h
apply-IsLogged (create now i m a x) s h = h
apply-IsLogged (confirm_call i c) s h = ground arith
apply-IsLogged (expire_call i) s h = ground arith
apply-IsLogged (pause_call a now) s h = pause-IsLogged a now s h
apply-IsLogged (unpause_call a now) s h = unpause-IsLogged a now s h

Step-IsLogged : {y z : System} → Step y z → IsLogged y.service → IsLogged z.service
unfolding start release_lock
Step-IsLogged {y} (call c) h = apply-IsLogged c y.service h
Step-IsLogged {y} (starts request) h = ground arith
Step-IsLogged {y} (settles n e) h = h
Step-IsLogged {y} starts_unguarded h = h
Step-IsLogged {y} (settles_unguarded n e) h = h

-- However calls interleave, the event log alternates between pausing and unpausing, starting with a
-- pause, and its last event is the state of the switch: repeated calls leave no event.
Reach-Switches : {y : System} → Reach y → Switches false y.service.event_log y.service.paused
Reach-Switches here = refl
Reach-Switches (next r st) = Step-IsLogged st (Reach-Switches r)
