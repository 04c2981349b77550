-- ===== src/Adapter/HookGate.antt =====
-- pkg/adapter/hook_gate.go: the synchronous gate in front of a tool call. `filepath.Clean` and
-- `filepath.Match` are the fields of the section's parameter; a run's timing is a `Schedule`.
pub mod Rules
pub mod Timing
pub mod Reasons
use reinframe.Prelude.{
  ℕ, String, Char, Bool, true, false, not, ◌&&◌, ◌||◌, Option, none, some, List, [], ◌∷◌, Map,
  lookup, is_empty, str_eq, ◌⧺◌, if◌then◌else◌,
}
use reinframe.Adapter.Proposed.{ProposedAction}
use text.Mathlib.Text.{starts_with}

pub data HookAction : Type 0 where
  allow deny defer : HookAction

pub record HookDecision : Type 0 where
  pub action : HookAction
  pub reason_code : String
  pub intervention_id : String
  pub deadline : Option ℕ

-- The fields of `HookRequest` that the rules and the policy read.
pub record HookRequest : Type 0 where
  pub session_id : String
  pub tool_name : String
  pub file_path : String
  pub proposed : Option ProposedAction

pub record HookPolicy : Type 0 where
  pub fail_open : Bool
  pub denied_tools : Map (Unit {0})
  pub tool_deny_reasons : Map String
  pub scope_whitelist : List String
  pub budget_exhausted : Bool
  pub hard_deny_intervention_id : String
  pub pending_advisory_intervention_id : String
  pub defer_deadline : Option ℕ
  pub has_wait : Bool

-- What `path/filepath` is asked for.
pub record PathOps : Type 0 where
  pub clean : String → String
  pub matches : String → String → Bool

abbrev pub decision : HookAction → String → HookDecision
decision a r = record { action = a; reason_code = r; intervention_id = ""; deadline = none }

-- `strings.TrimRight(e, "/")`
trim_right_sep : String → String
trim_right_sep String.[] = String.[]
trim_right_sep (String.◌∷◌ c s) =
    let r = trim_right_sep s in
    if is_empty r && str_eq (String.◌∷◌ c String.[]) "/" then String.[] else String.◌∷◌ c r

-- `strings.HasPrefix`
has_prefix : String → String → Bool
has_prefix s t = starts_with s t

is_denied : String → Map (Unit {0}) → Bool
is_denied tool m = elim (lookup tool m) [ none ↦ false | some _ ↦ true ]

-- The reason that `ToolDenyReasons` holds for the tool, if it is not empty.
deny_reason : String → Map String → Option String
deny_reason tool m =
    if is_empty tool
    then none
    else (elim (lookup tool m) [ none ↦ none | some r ↦ if is_empty r then none else some r ])

-- `errors` that a context ends with.
pub data CtxErr : Type 0 where
  deadline_exceeded canceled : CtxErr

unfoldable pub timeout_decision : HookPolicy → CtxErr → HookDecision
timeout_decision p err =
    if p.fail_open then decision allow "timeout_fail_open" else decision deny "timeout_fail_closed"

-- What the clock and the caller do during one call: the state of the caller's context at the
-- start, what the wait barrier gives way to, the state of the context after it, and whether the
-- final `select` takes the goroutine's result or sees the context end, and then whether the result
-- has raced in.
pub data Finish : Type 0 where
  result_taken : Finish
  ended : (err : CtxErr) (raced_in : Bool) → Finish

pub record Schedule : Type 0 where
  pub at_start : Option CtxErr
  pub wait_ends : Option CtxErr
  pub after_wait : Option CtxErr
  pub finish : Finish

module _ (ops : PathOps) where
  -- One round of the loop over the whitelist; `clean` is the cleaned path.
  entry_covers : String → String → Bool
  unfolding trim_right_sep has_prefix
  entry_covers clean entry =
      let e = ops.clean entry in
      not (is_empty entry)
      && (str_eq clean e || has_prefix clean (trim_right_sep e ⧺ "/") || ops.matches entry clean)

  any_covers : String → List String → Bool
  any_covers clean [] = false
  any_covers clean (entry ∷ rest) = entry_covers clean entry || any_covers clean rest

  unfoldable pub path_in_scope : String → List String → Bool
  unfolding any_covers entry_covers
  path_in_scope file_path whitelist =
      not (is_empty file_path) && any_covers (ops.clean file_path) whitelist

  -- `len(policy.ScopeWhitelist) > 0 && !pathInScope(…)`
  out_of_scope : HookRequest → List String → Bool
  out_of_scope req [] = false
  out_of_scope req (entry ∷ rest) = not (path_in_scope req.file_path (entry ∷ rest))

  -- `evaluateHookRules`
  unfoldable pub evaluate_hook_rules : HookRequest → HookPolicy → HookDecision
  unfolding out_of_scope deny_reason is_denied
  evaluate_hook_rules req p =
      if not (is_empty p.hard_deny_intervention_id)
      then record (decision deny "denied_hard_latch") {
        intervention_id = p.hard_deny_intervention_id;
      }
      else if p.budget_exhausted
      then decision deny "denied_budget_exhausted"
      else elim (deny_reason req.tool_name p.tool_deny_reasons) [
        | some reason ↦ decision deny reason
        | none ↦
            if not (is_empty req.tool_name) && is_denied req.tool_name p.denied_tools
            then decision deny "denied_tool"
            else if out_of_scope req p.scope_whitelist
            then decision deny "denied_path_scope"
            else if not (is_empty p.pending_advisory_intervention_id)
            then record {
              action = defer;
              reason_code = "defer_pending_advisory";
              intervention_id = p.pending_advisory_intervention_id;
              deadline = p.defer_deadline;
            }
            else decision allow "allow"
      ]

  -- What the goroutine sends.
  goroutine : Schedule → HookRequest → HookPolicy → HookDecision
  goroutine t req p =
      let checked : HookDecision = elim t.after_wait [
        | some err ↦ timeout_decision p err
        | none ↦ evaluate_hook_rules req p
      ] in
      if p.has_wait
      then (elim t.wait_ends [ some err ↦ timeout_decision p err | none ↦ checked ])
      else checked

  conclude : Finish → HookDecision → HookPolicy → HookDecision
  conclude result_taken sent p = sent
  conclude (ended err true) sent p = sent
  conclude (ended err false) sent p = timeout_decision p err

  unfoldable pub evaluate_hook : Schedule → HookRequest → HookPolicy → HookDecision
  unfolding goroutine conclude
  evaluate_hook t req p = elim t.at_start [
    | some err ↦ timeout_decision p err
    | none ↦ conclude t.finish (goroutine t req p) p
  ]
