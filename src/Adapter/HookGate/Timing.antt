-- ===== src/Adapter/HookGate/Timing.antt =====
-- EvaluateHook of pkg/adapter/hook_gate.go over every timing of one call.
use reinframe.Prelude.{◌≡◌, true, false, none, ◌⊎◌, arith}
use reinframe.Adapter.HookGate.{
  HookRequest, HookPolicy, PathOps, allow, deny, CtxErr, Schedule, result_taken, timeout_decision,
  evaluate_hook_rules, evaluate_hook,
}

module _ (ops : PathOps) (req : HookRequest) (p : HookPolicy) where
  -- A timed call answers by the rules or by the timeout policy.
  evaluate_hook_either :
      (t : Schedule) (err : CtxErr)
      → (evaluate_hook ops t req p ≡ evaluate_hook_rules ops req p)
        ⊎ (evaluate_hook ops t req p ≡ timeout_decision p err)
  unfolding evaluate_hook timeout_decision
  evaluate_hook_either t err = ground arith

  -- Whatever the clock and the caller do: a fail-closed gate allows only what the rules allow, a
  -- fail-open gate denies only what the rules deny, and a call that nothing interrupts is decided by
  -- the rules.
  pub evaluate_hook_timing :
      (t : Schedule)
      → (p.fail_open ≡ false
          → (evaluate_hook ops t req p).action ≡ allow
          → (evaluate_hook_rules ops req p).action ≡ allow)
        × (p.fail_open ≡ true
            → (evaluate_hook ops t req p).action ≡ deny
            → (evaluate_hook_rules ops req p).action ≡ deny)
        × (t.at_start ≡ none
            → t.wait_ends ≡ none
            → t.after_wait ≡ none
            → t.finish ≡ result_taken
            → evaluate_hook ops t req p ≡ evaluate_hook_rules ops req p)
  unfolding evaluate_hook timeout_decision
  evaluate_hook_timing t =
      ((λ closed h. ground arith), (λ open_gate h. ground arith), (λ a b c d. ground arith))
