-- ===== src/Adapter/HookGate/Reasons.antt =====
-- The hook gate of pkg/adapter/hook_gate.go under a policy that has one more reason to deny a tool.
use reinframe.Prelude.{
  String, true, false, not, ◌||◌, none, some, insert, lookup-insert_self, is_empty, if◌then◌else◌,
  ◌≡◌, ◌≢◌, refl, arith, ne→not-is_empty,
}
use reinframe.Adapter.HookGate.{
  HookRequest, HookPolicy, PathOps, Schedule, deny, decision, result_taken, deny_reason,
  evaluate_hook, evaluate_hook_rules, timeout_decision,
}

-- `ToolDenyReasons[tool] = reason`
abbrev pub add_reason : String → String → HookPolicy → HookPolicy
add_reason tool r p = record p { tool_deny_reasons = insert tool r p.tool_deny_reasons }

-- Nothing interrupts the call.
abbrev pub IsPrompt : Schedule → Type 0
IsPrompt t =
    (t.at_start ≡ none) × (t.wait_ends ≡ none) × (t.after_wait ≡ none) × (t.finish ≡ result_taken)

module _ (ops : PathOps) (req : HookRequest) (p : HookPolicy) (r : String) where
  deny_reason-insert :
      req.tool_name ≢ ""
      → r ≢ ""
      → deny_reason req.tool_name (insert req.tool_name r p.tool_deny_reasons) ≡ some r
  unfolding deny_reason
  deny_reason-insert named filled =
      rw
        (
          ne→not-is_empty _ named,
          lookup-insert_self req.tool_name r p.tool_deny_reasons,
          ne→not-is_empty _ filled,
        )
        refl

  rules-add_reason :
      req.tool_name ≢ ""
      → r ≢ ""
      → evaluate_hook_rules ops req (add_reason req.tool_name r p) ≡ (
          if not (is_empty p.hard_deny_intervention_id) || p.budget_exhausted
          then evaluate_hook_rules ops req p
          else decision deny r)
  unfolding evaluate_hook_rules
  rules-add_reason named filled = ground (arith, deny_reason-insert named filled)

  pub denied-add_reason :
      (t : Schedule)
      → req.tool_name ≢ ""
      → r ≢ ""
      → (evaluate_hook ops t req p).action ≡ deny
      → (evaluate_hook ops t req (add_reason req.tool_name r p)).action ≡ deny
  unfolding evaluate_hook timeout_decision
  denied-add_reason t named filled h = ground (arith, rules-add_reason named filled)

  pub prompt-add_reason :
      (t : Schedule)
      → IsPrompt t
      → req.tool_name ≢ ""
      → r ≢ ""
      → p.hard_deny_intervention_id ≡ ""
      → p.budget_exhausted ≡ false
      → evaluate_hook ops t req (add_reason req.tool_name r p) ≡ decision deny r
  unfolding evaluate_hook
  prompt-add_reason t prompt named filled unlatched within =
      let open_latch : is_empty p.hard_deny_intervention_id ≡ true = rw unlatched refl in
      ground (arith, rules-add_reason named filled, prompt, open_latch)
