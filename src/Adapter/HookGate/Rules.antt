-- ===== src/Adapter/HookGate/Rules.antt =====
-- evaluateHookRules of pkg/adapter/hook_gate.go against the conditions that block a tool call.
use reinframe.Prelude.{
  String, ◌≡◌, ◌≢◌, ◌↔◌, refl, true, false, not, ◌&&◌, some, List, [], ◌∷◌, lookup, is_empty,
  is_empty→eq, not-is_empty→ne, ne→not-is_empty, if◌then◌else◌, ◌⊎◌, inl, inr, arith,
}
use reinframe.Adapter.HookGate.{
  allow, deny, defer, HookRequest, HookPolicy, PathOps, path_in_scope, is_denied, deny_reason,
  out_of_scope, evaluate_hook_rules, decision,
}

-- What the policy holds against the request.
pub data Blocked (ops : PathOps) (req : HookRequest) (p : HookPolicy) : Type 0 where
  latched : p.hard_deny_intervention_id ≢ "" → Blocked ops req p
  over_budget : p.budget_exhausted ≡ true → Blocked ops req p
  has_reason :
      (r : String)
      → req.tool_name ≢ ""
      → lookup req.tool_name p.tool_deny_reasons ≡ some r
      → r ≢ ""
      → Blocked ops req p
  listed : req.tool_name ≢ "" → lookup req.tool_name p.denied_tools ≡ some tt → Blocked ops req p
  strays :
      p.scope_whitelist ≢ []
      → path_in_scope ops req.file_path p.scope_whitelist ≡ false
      → Blocked ops req p

module _ (ops : PathOps) (req : HookRequest) (p : HookPolicy) where
  -- The same as tests.
  abbrev Tests : Type 0
  Tests =
      (is_empty p.hard_deny_intervention_id ≡ false)
      ⊎ (p.budget_exhausted ≡ true)
      ⊎ ((r : String) × (deny_reason req.tool_name p.tool_deny_reasons ≡ some r))
      ⊎ ((not (is_empty req.tool_name) && is_denied req.tool_name p.denied_tools) ≡ true)
      ⊎ (out_of_scope ops req p.scope_whitelist ≡ true)

  deny→Tests : (evaluate_hook_rules ops req p).action ≡ deny → Tests
  unfolding evaluate_hook_rules
  deny→Tests h = ground arith

  Tests→deny : Tests → (evaluate_hook_rules ops req p).action ≡ deny
  unfolding evaluate_hook_rules
  Tests→deny h = ground arith

  strays_of :
      (wl : List String)
      → out_of_scope ops req wl ≡ true
      → (wl ≢ []) × (path_in_scope ops req.file_path wl ≡ false)
  unfolding out_of_scope
  strays_of [] h = absurd (cc)
  strays_of (e ∷ wl) h = ((λ k. cc), ground arith)

  of_strays :
      (wl : List String)
      → wl ≢ []
      → path_in_scope ops req.file_path wl ≡ false
      → out_of_scope ops req wl ≡ true
  unfolding out_of_scope
  of_strays [] g h = absurd (g refl)
  of_strays (e ∷ wl) g h = rw h

  Tests→Blocked : Tests → Blocked ops req p
  unfolding deny_reason is_denied out_of_scope
  Tests→Blocked (inl h) = latched (not-is_empty→ne p.hard_deny_intervention_id h)
  Tests→Blocked (inr (inl h)) = over_budget h
  Tests→Blocked (inr (inr (inl (r, h)))) =
      has_reason r (not-is_empty→ne req.tool_name (ground arith)) (ground arith)
        (not-is_empty→ne r (ground arith))
  Tests→Blocked (inr (inr (inr (inl h)))) =
      listed (not-is_empty→ne req.tool_name (ground arith)) (ground arith)
  Tests→Blocked (inr (inr (inr (inr h)))) =
      let (given, outside) = strays_of p.scope_whitelist h in strays given outside

  Blocked→Tests : Blocked ops req p → Tests
  unfolding deny_reason is_denied out_of_scope
  Blocked→Tests (latched h) = inl (ne→not-is_empty _ h)
  Blocked→Tests (over_budget h) = inr (inl h)
  Blocked→Tests (has_reason r named found filled) =
      inr (inr (inl (r, rw (ne→not-is_empty _ named, found, ne→not-is_empty _ filled))))
  Blocked→Tests (listed named found) =
      inr (inr (inr (inl (rw (ne→not-is_empty _ named, found, is_denied)))))
  Blocked→Tests (strays given outside) =
      inr (inr (inr (inr (of_strays p.scope_whitelist given outside))))

  unblocked :
      (evaluate_hook_rules ops req p).action ≢ deny
      → (evaluate_hook_rules ops req p) ≡ (
          if is_empty p.pending_advisory_intervention_id then decision allow "allow" else record {
            action = defer;
            reason_code = "defer_pending_advisory";
            intervention_id = p.pending_advisory_intervention_id;
            deadline = p.defer_deadline;
          })
  unfolding evaluate_hook_rules
  unblocked h = ground arith

  blocked : Blocked ops req p → (evaluate_hook_rules ops req p).action ≡ deny
  blocked b = Tests→deny (Blocked→Tests b)

  -- The gate denies exactly the blocked requests: a hard latch, an exhausted budget, a deny reason
  -- or a deny-list entry for the named tool, or a path outside a given whitelist. It defers exactly
  -- the unblocked requests with a pending advisory, whose id it then names, and allows the rest.
  pub evaluate_hook_rules_cases :
      ((evaluate_hook_rules ops req p).action ≡ deny ↔ Blocked ops req p)
      × ((evaluate_hook_rules ops req p).action ≡ defer
          ↔ ((¬ Blocked ops req p) × (p.pending_advisory_intervention_id ≢ "")))
      × ((evaluate_hook_rules ops req p).action ≡ allow
          ↔ ((¬ Blocked ops req p) × (p.pending_advisory_intervention_id ≡ "")))
      × ((evaluate_hook_rules ops req p).action ≡ defer
          → (evaluate_hook_rules ops req p).intervention_id ≡ p.pending_advisory_intervention_id)
  evaluate_hook_rules_cases = (
    ((λ h. Tests→Blocked (deny→Tests h)), (λ b. blocked b)),
    (
      (λ h.
          let u = unblocked (λ d. cc) in
          ((λ b. let d = blocked b in cc), not-is_empty→ne _ (ground arith))),
      (λ h.
          let u = unblocked (λ d. h.0 (Tests→Blocked (deny→Tests d))) in
          let e = ne→not-is_empty _ h.1 in ground arith),
    ),
    (
      (λ h.
          let u = unblocked (λ d. cc) in
          ((λ b. let d = blocked b in cc), is_empty→eq _ (ground arith))),
      (λ h.
          let u = unblocked (λ d. h.0 (Tests→Blocked (deny→Tests d))) in
          let e : is_empty p.pending_advisory_intervention_id ≡ true = rw h.1 in ground arith),
    ),
    (λ h. let u = unblocked (λ d. cc) in ground arith),
  )
