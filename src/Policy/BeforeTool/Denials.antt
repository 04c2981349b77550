-- ===== src/Policy/BeforeTool/Denials.antt =====
-- EvaluateBeforeTool of pkg/policy/before_tool.go against the gate under the base policy.
use reinframe.Prelude.{
  String, Char, true, false, none, some, is_empty, ◌≡◌, ◌≢◌, refl, arith, ◌∙◌, ap, inl, inr,
  ne→not-is_empty, not-is_empty→ne, ◌⊎◌, Bool-cases,
}
use reinframe.Adapter.HookGate.{HookDecision, PathOps, Schedule, deny, decision, evaluate_hook}
use reinframe.Adapter.HookGate.Reasons.{IsPrompt, denied-add_reason, prompt-add_reason}
use reinframe.Policy.BeforeTool.{
  BeforeToolInput, is_churn, should_deny_disproportionate, added_reason, with_reason,
  evaluate_before_tool,
}

module _ (lower : Char → Char) (i : BeforeToolInput) where
  added_reason-cases :
      (added_reason lower i ≡ none)
      ⊎ ((r : String) × (added_reason lower i ≡ some r) × (i.request.tool_name ≢ "") × (r ≢ ""))
  added_reason-cases = elim (Bool-cases (is_empty i.request.tool_name)) [
    | inl e ↦ inl (unfold added_reason in ground (arith, e))
    | inr e ↦
        let named = not-is_empty→ne i.request.tool_name e in
        elim (Bool-cases (is_churn lower i.churn_signal)) [
          | inl churn ↦ inr (
            "redundant_validation",
            unfold added_reason in ground (arith, e, churn),
            named,
            not-is_empty→ne "redundant_validation" refl,
          )
          | inr quiet ↦
              (elim (Bool-cases
                (should_deny_disproportionate lower i.contract i.ledger i.request)) [
                  | inl large ↦ inr (
                    "disproportionate_scope",
                    unfold added_reason in ground (arith, e, quiet, large),
                    named,
                    not-is_empty→ne "disproportionate_scope" refl,
                  )
                  | inr small ↦ inl (unfold added_reason in ground (arith, e, quiet, small))
                ])
        ]
  ]

  added_reason-churn :
      i.request.tool_name ≢ ""
      → is_churn lower i.churn_signal ≡ true
      → added_reason lower i ≡ some "redundant_validation"
  unfolding added_reason
  added_reason-churn named churn = ground (arith, ne→not-is_empty _ named)

  added_reason-disproportionate :
      i.request.tool_name ≢ ""
      → is_churn lower i.churn_signal ≡ false
      → should_deny_disproportionate lower i.contract i.ledger i.request ≡ true
      → added_reason lower i ≡ some "disproportionate_scope"
  unfolding added_reason
  added_reason-disproportionate named churn large = ground (arith, ne→not-is_empty _ named)

  added_reason-none :
      (i.request.tool_name ≡ "")
        ⊎ ((is_churn lower i.churn_signal ≡ false)
            × (should_deny_disproportionate lower i.contract i.ledger i.request ≡ false))
      → added_reason lower i ≡ none
  unfolding added_reason
  added_reason-none (inl e) = rw e refl
  added_reason-none (inr (quiet, small)) = ground (arith, quiet, small)

  module _ (ops : PathOps) (t : Schedule) where
    before_tool-none :
        added_reason lower i ≡ none
        → evaluate_before_tool lower ops t i ≡ evaluate_hook ops t i.request i.base_policy
    unfolding evaluate_before_tool with_reason
    before_tool-none e = rw e refl

    before_tool-denied :
        (evaluate_hook ops t i.request i.base_policy).action ≡ deny
        → (evaluate_before_tool lower ops t i).action ≡ deny
    unfolding evaluate_before_tool with_reason
    before_tool-denied h = elim added_reason-cases [
      | inl e ↦ ap (λ (d : HookDecision). d.action) (before_tool-none e) ∙ h
      | inr (r, e, named, filled) ↦
          rw e (denied-add_reason ops i.request i.base_policy r t named filled h)
    ]

    before_tool-some :
        (r : String)
        → added_reason lower i ≡ some r
        → i.request.tool_name ≢ ""
        → r ≢ ""
        → IsPrompt t
        → i.base_policy.hard_deny_intervention_id ≡ ""
        → i.base_policy.budget_exhausted ≡ false
        → evaluate_before_tool lower ops t i ≡ decision deny r
    unfolding evaluate_before_tool with_reason
    before_tool-some r e named filled prompt unlatched within =
        rw e
          (prompt-add_reason ops i.request i.base_policy r t prompt named filled unlatched within)

    -- Whatever the clock and the caller do, what the gate denies under the base policy is denied
    -- here too; a call without a tool's name, or with neither a churn signal nor a disproportionate
    -- full suite, is decided by the gate under the base policy. If nothing interrupts the call, the
    -- base policy has no hard latch and the budget is not exhausted, a named tool is denied as a
    -- redundant validation under a churn signal, and without one as of disproportionate scope if it
    -- is a full suite that the contract makes disproportionate.
    pub before_tool_denials :
        ((evaluate_hook ops t i.request i.base_policy).action ≡ deny
          → (evaluate_before_tool lower ops t i).action ≡ deny)
        × ((i.request.tool_name ≡ "")
              ⊎ ((is_churn lower i.churn_signal ≡ false)
                  × (should_deny_disproportionate lower i.contract i.ledger i.request ≡ false))
            → evaluate_before_tool lower ops t i ≡ evaluate_hook ops t i.request i.base_policy)
        × (i.request.tool_name ≢ ""
            → IsPrompt t
            → i.base_policy.hard_deny_intervention_id ≡ ""
            → i.base_policy.budget_exhausted ≡ false
            → (is_churn lower i.churn_signal ≡ true
                → evaluate_before_tool lower ops t i ≡ decision deny "redundant_validation")
              × (is_churn lower i.churn_signal ≡ false
                  → should_deny_disproportionate lower i.contract i.ledger i.request ≡ true
                  → evaluate_before_tool lower ops t i ≡ decision deny "disproportionate_scope"))
    before_tool_denials = (
      before_tool-denied,
      λ h. before_tool-none (added_reason-none h),
      λ named prompt unlatched within. (
        λ churn.
            before_tool-some "redundant_validation" (added_reason-churn named churn) named
              (not-is_empty→ne "redundant_validation" refl) prompt unlatched within,
        λ quiet large.
            before_tool-some "disproportionate_scope"
              (added_reason-disproportionate named quiet large) named
              (not-is_empty→ne "disproportionate_scope" refl) prompt unlatched within,
      ),
    )
