-- ===== src/Policy/Tests.antt =====
-- Runs of the policy of pkg/policy on small inputs.
use reinframe.Prelude.{
  Char, String, true, false, none, some, pos, [], ◌∷◌, ◌≡◌, ◌≢◌, ◌⊎◌, refl, lookup,
}
use reinframe.Detector.Fingerprint.{trim_space, is_space, map_chars}
use reinframe.Adapter.Proposed.{
  ProposedAction, full_suite_command, is_full_suite_text, contains, fields, is_assignment,
  is_shell_ident, folds_to_test, go_test_has_altering_flags,
}
use reinframe.Adapter.HookGate.{PathOps, Schedule, deny, decision, result_taken, evaluate_hook}
use reinframe.Adapter.HookGate.Reasons.{IsPrompt}
use reinframe.Policy.BeforeTool.{
  BeforeToolInput, should_deny_disproportionate, evaluate_before_tool, criteria_all_met,
  is_full_suite_request,
}
use reinframe.Policy.BeforeTool.Denials.{before_tool_denials}

abbrev same : Char → Char
same c = c

abbrev plain_paths : PathOps
plain_paths = record { clean = λ p. p; matches = λ p q. false }

abbrev shell : String → ProposedAction
shell command = record {
  action_id = "a";
  session_id = "s";
  workspace_revision = "";
  contract_revision = 0;
  tool_name = "Bash";
  tool_class = "shell";
  command = command;
}

-- The commands that run a whole suite, and some that do not.
suite_test : full_suite_command same (shell " go tesT -race ./pkg") ≡ true
unfolding full_suite_command is_full_suite_text trim_space is_space map_chars fields contains
    is_assignment is_shell_ident folds_to_test go_test_has_altering_flags
suite_test = refl

exec_test : full_suite_command same (shell "go test -exec=sh ./...") ≡ false
unfolding full_suite_command is_full_suite_text trim_space is_space map_chars fields contains
    is_assignment is_shell_ident folds_to_test go_test_has_altering_flags
exec_test = refl

path_test : full_suite_command same (shell "PATH=/tmp go test ./...") ≡ false
unfolding full_suite_command is_full_suite_text trim_space is_space map_chars fields contains
    is_assignment is_shell_ident folds_to_test go_test_has_altering_flags
path_test = refl

abbrev suite : BeforeToolInput
suite = record {
  request = record {
    session_id = "s";
    tool_name = "Bash";
    file_path = "";
    proposed = some (shell "go test ./...");
  };
  base_policy = record {
    fail_open = false;
    denied_tools = [];
    tool_deny_reasons = ("Edit", "frozen") ∷ [];
    scope_whitelist = [];
    budget_exhausted = false;
    hard_deny_intervention_id = "";
    pending_advisory_intervention_id = "";
    defer_deadline = none;
    has_wait = false;
  };
  contract = some (record {
    revision = pos 1;
    complexity = "simple";
    risk = "low";
    confidence = 90;
    success_criteria = "c1" ∷ [];
  });
  ledger = some (record {
    criteria_status = ("c1", "met") ∷ [];
    validation_records = [];
    tool_call_counts = [];
  });
  churn_signal = none;
}

disproportionate_test :
    should_deny_disproportionate same suite.contract suite.ledger suite.request ≡ true
unfolding should_deny_disproportionate is_full_suite_request criteria_all_met lookup
    full_suite_command is_full_suite_text trim_space is_space map_chars fields contains
    is_assignment is_shell_ident folds_to_test go_test_has_altering_flags
disproportionate_test = refl

abbrev prompt : Schedule
prompt = record { at_start = none; wait_ends = none; after_wait = none; finish = result_taken }

before_tool_denials_example :
    ((evaluate_hook plain_paths prompt suite.request suite.base_policy).action ≡ deny
      → (evaluate_before_tool same plain_paths prompt suite).action ≡ deny)
    × ((suite.request.tool_name ≡ "")
          ⊎ ((false ≡ false)
              × (should_deny_disproportionate same suite.contract suite.ledger suite.request
                  ≡ false))
        → evaluate_before_tool same plain_paths prompt suite
          ≡ evaluate_hook plain_paths prompt suite.request suite.base_policy)
    × (suite.request.tool_name ≢ ""
        → IsPrompt prompt
        → suite.base_policy.hard_deny_intervention_id ≡ ""
        → false ≡ false
        → (false ≡ true
            → evaluate_before_tool same plain_paths prompt suite
              ≡ decision deny "redundant_validation")
          × (false ≡ false
              → should_deny_disproportionate same suite.contract suite.ledger suite.request ≡ true
              → evaluate_before_tool same plain_paths prompt suite
                ≡ decision deny "disproportionate_scope"))
before_tool_denials_example = before_tool_denials same suite plain_paths prompt
