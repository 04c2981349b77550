-- ===== src/Policy/BeforeTool.antt =====
-- pkg/policy/before_tool.go: the adjudication of a tool call before it runs. `ops` and `t` are the
-- gate's parameters, `lower` is that of the proposed actions.
pub mod Denials
use reinframe.Prelude.{
  String, Char, Bool, true, false, not, ◌&&◌, ◌||◌, Option, none, some, List, [], ◌∷◌, Map, lookup,
  insert, lookup-insert, is_empty, str_eq, eq_refl, if◌then◌else◌, ◌≡◌, ◌≢◌, refl, arith,
}
use reinframe.Detector.Fingerprint.{trim_space, map_chars}
use reinframe.Detector.Signal.{TunnelSignal}
use reinframe.Adapter.Proposed.{contains, full_suite_command}
use reinframe.Protocol.Contract.{TaskContract, EvidenceLedger}
use reinframe.Adapter.HookGate.{
  HookRequest, HookPolicy, HookDecision, PathOps, Schedule, deny, decision, result_taken,
  evaluate_hook, evaluate_hook_rules, timeout_decision,
}

pub record BeforeToolInput : Type 0 where
  pub request : HookRequest
  pub base_policy : HookPolicy
  pub contract : Option TaskContract
  pub ledger : Option EvidenceLedger
  pub churn_signal : Option TunnelSignal

abbrev pub is_met : Option String → Bool
is_met none = false
is_met (some status) = str_eq status "met"

all_met : List String → Map String → Bool
all_met [] statuses = true
all_met (id ∷ ids) statuses = is_met (lookup id statuses) && all_met ids statuses

-- `criteriaAllMet`
unfoldable pub criteria_all_met : List String → Option EvidenceLedger → Bool
unfolding all_met
criteria_all_met ids none = false
criteria_all_met [] (some led) = false
criteria_all_met (id ∷ ids) (some led) = all_met (id ∷ ids) led.criteria_status

module _ (lower : Char → Char) where
  -- `isFullSuiteTool`
  is_full_suite_tool : String → Bool
  is_full_suite_tool tool_name =
      let n = map_chars lower (trim_space tool_name) in
      not (is_empty n)
      && (contains n "./..." || contains n "go test" && contains n "-race" && contains n "./")

  -- `isFullSuiteRequest`
  unfoldable pub is_full_suite_request : HookRequest → Bool
  unfolding is_full_suite_tool
  is_full_suite_request req = elim req.proposed [
    | some pa ↦ full_suite_command lower pa
    | none ↦ is_full_suite_tool req.tool_name
  ]

  -- `shouldDenyDisproportionate`
  unfoldable pub should_deny_disproportionate :
      Option TaskContract → Option EvidenceLedger → HookRequest → Bool
  should_deny_disproportionate none led req = false
  should_deny_disproportionate (some c) led req =
      is_full_suite_request req
      && (str_eq c.complexity "trivial" || str_eq c.complexity "simple")
      && str_eq c.risk "low"
      && criteria_all_met c.success_criteria led

  abbrev pub is_churn : Option TunnelSignal → Bool
  is_churn none = false
  is_churn (some sig) = str_eq sig.failure_mode "verification_churn"

  -- The reason that the call adds for the tool.
  unfoldable pub added_reason : BeforeToolInput → Option String
  added_reason i =
      if is_empty i.request.tool_name
      then none
      else if is_churn i.churn_signal
      then some "redundant_validation"
      else if should_deny_disproportionate i.contract i.ledger i.request
      then some "disproportionate_scope"
      else none

  -- The copy of the policy with that reason under the tool.
  unfoldable pub with_reason : BeforeToolInput → Option String → HookPolicy
  with_reason i none = i.base_policy
  with_reason i (some r) = record i.base_policy {
    tool_deny_reasons = insert i.request.tool_name r i.base_policy.tool_deny_reasons;
  }

  module _ (ops : PathOps) where
    -- `EvaluateBeforeTool`
    unfoldable pub evaluate_before_tool : Schedule → BeforeToolInput → HookDecision
    unfolding with_reason added_reason
    evaluate_before_tool t i = evaluate_hook ops t i.request (with_reason i (added_reason i))
