-- ===== src/Wallet/Escrow/Lock.antt =====
-- The reentrancy guard of src/blockchain-wallet/payment-escrow.service.ts.
use dupdap_backend.Base.{
  ◌≤◌, ◌≡◌, ◌⊎◌, inl, inr, Bool-cases, refl, true, false, ◌++◌, ◌∷◌, [], Result, err, arith,
  if◌then◌else◌,
}
use dupdap_backend.Wallet.Escrow.{
  Escrow, EscrowError, SorobanCall, paused_error, reentrant_call, release_lock, guarded,
}
use dupdap_backend.Wallet.Escrow.Steps.{
  Call, set_ledger, advance, create, confirm_call, expire_call, pause_call, unpause_call, apply,
  System, start, Step, call, starts, settles, starts_unguarded, settles_unguarded, Reach, here,
  next,
}

-- The flag is the number of guarded calls in flight.
abbrev pub IsLocked : System → Type 0
IsLocked y = y.guarded_in_flight ≡ (if y.service.locked then 1 else 0)

apply-locked : (c : Call) (s : Escrow) → (apply c s).locked ≡ s.locked
unfolding apply
apply-locked (set_ledger n) s = refl
apply-locked (advance n) s = refl
apply-locked (create now i m a x) s = refl
apply-locked (confirm_call i c) s = ground arith
apply-locked (expire_call i) s = ground arith
apply-locked (pause_call a now) s = ground arith
apply-locked (unpause_call a now) s = ground arith

Step-IsLocked : {y z : System} → Step y z → IsLocked y → IsLocked z
unfolding start release_lock
Step-IsLocked {y} (call c) h = rw (apply-locked c y.service) h
Step-IsLocked {y} (starts request) h = ground arith
Step-IsLocked {y} (settles n e) h = ground arith
Step-IsLocked {y} starts_unguarded h = h
Step-IsLocked {y} (settles_unguarded n e) h = h

-- However calls interleave, also with calls of the Soroban client that do not take the lock: the lock is
-- held exactly while the Soroban call of a deposit, a release or a refund is in flight, and of these there
-- is never more than one.
pub Reach-IsLocked : {y : System} → Reach y → IsLocked y × (y.guarded_in_flight ≤ 1)
Reach-IsLocked here = (refl, omega arith)
Reach-IsLocked (next r st) = let h = Step-IsLocked st (Reach-IsLocked r).0 in (h, ground arith)

-- What a guarded operation does on each branch: paused, it throws and changes nothing; locked, it
-- throws and changes nothing; otherwise it takes the lock, makes its one Soroban call, answers as
-- that call settles, and leaves the service unlocked.
guarded_lem :
    (request : SorobanCall) (others : Escrow → Escrow) (settled : Result EscrowError (Unit {0}))
    (s : Escrow)
    → let run = guarded request others settled s in
      (s.paused ≡ true) × (run ≡ (s, err paused_error))
      ⊎ (s.paused ≡ false) × (s.locked ≡ true) × (run ≡ (s, err reentrant_call))
      ⊎ (s.paused ≡ false)
        × (s.locked ≡ false)
        × (run.1 ≡ settled)
        × (run.0.locked ≡ false)
        × (run.0
            ≡ release_lock
                (others (record s { locked = true; submitted = s.submitted ++ request ∷ [] })))
unfolding guarded
guarded_lem request others settled s = elim (Bool-cases s.paused) [
  | inl h ↦ inl (h, ground arith)
  | inr h ↦ elim (Bool-cases s.locked) [
    | inl k ↦ inr (inl (h, k, ground arith))
    | inr k ↦ inr (inr (h, k, ground arith, ground arith, ground arith))
  ]
]
