-- ===== src/Stellar/RpcResilience/Backoff.antt =====
-- The attempts on one endpoint (`withBackoff` of src/stellar/soroban-rpc-resilience.ts).
use dupdap_backend.Base.{
  ℕ, ◌≡◌, Bool, true, false, [], ◌∷◌, some, Result, ok, err, arith, not, if◌then◌else◌,
}
use dupdap_backend.Stellar.RpcResilience.{rpc_max_attempts, with_backoff, attempts}

module _ {E T : Type 0} (is_retryable : E → Bool) where
  -- An attempt that ends the loop by itself: a success, or an error that is not retryable.
  abbrev pub is_final : Result E T → Bool
  is_final (ok r) = true
  is_final (err e) = not (is_retryable e)

  -- One endpoint is tried at most three times, with sleeps of 250 and then 500 ms in between: the
  -- first attempt that is a success or a lasting error gives the result, and otherwise the third.
  pub with_backoff_lem :
      (operation : ℕ → Result E T)
      → let run = with_backoff is_retryable rpc_max_attempts operation 1 in
        (is_final (operation 1) ≡ true → run ≡ some (operation 1, []))
        × (is_final (operation 1) ≡ false
            → is_final (operation 2) ≡ true
            → run ≡ some (operation 2, 250 ∷ []))
        × (is_final (operation 1) ≡ false
            → is_final (operation 2) ≡ false
            → run ≡ some (operation 3, 250 ∷ 500 ∷ []))
  unfolding with_backoff
  with_backoff_lem operation = (λ h. ground arith, λ h k. ground arith, λ h k. ground arith)

  -- The attempt that `attempts` takes its result from.
  abbrev pub settled : (ℕ → Result E T) → Result E T
  settled operation =
      if is_final (operation 1)
      then operation 1
      else if is_final (operation 2)
      then operation 2
      else operation 3

  -- The loop always ends.
  pub attempts_lem :
      (operation : ℕ → Result E T) → attempts is_retryable operation ≡ some (settled operation)
  unfolding attempts
  attempts_lem operation = ground (arith, with_backoff_lem operation)
