-- ===== src/Challenge/Service/Tests.antt =====
-- The retries of pkg/challenge/service.go at concrete calls.
use reinframe.Prelude.{
  arith, eq_iff, String, false, not, ◌&&◌, none, some, List, [], ◌∷◌, ◌≡◌, refl, lookup,
}
use reinframe.Challenge.States.{ChallengeState}
use reinframe.Challenge.Store.{Decision, ChallengeRecord, Store, new_store, get}
use reinframe.Challenge.Service.{RetryRequest, FingerprintResult, Relationship, is_due}
use reinframe.Challenge.Service.Opening.{OpenCase, appealable, write_opened}
use reinframe.Challenge.Service.Safe.{IsNamed}
use reinframe.Challenge.Service.Retry.{Attempt}
use reinframe.Challenge.Service.Retry.Settle.{ReEvalResult, settle, cancel}
use reinframe.Challenge.Service.Retry.OneShot.{
  Step, opens, begins, wakes, settles, allowances, IsOneShot, retries-IsOneShot,
}
use reinframe.Challenge.Service.Retry.Outcomes.{
  allows_first, is_pending, is_cleared, settle-allows_first, HasEnded, settle-HasEnded,
}

abbrev effect : FingerprintResult
effect = record {
  fingerprint = "fp";
  side_effect_class = "test_suite";
  target_resources = [];
  operation_digest = "op";
}

abbrev case : String → OpenCase
case id = record {
  challenge_id = id;
  nonce = "n";
  suggested_fix = "";
  session_id = "s";
  fp = effect;
  action_id = "a1";
  policy_class = "PRODUCTIVITY";
  block_class = "OVER_SOP";
  reason_code = "BLOCK";
  claims = [];
  workspace_revision = "";
  contract_revision = 0;
  branch = "";
  policy_version = "v1";
  ruleset_hash = "r";
  policy_hash = "p";
  correlation_id = "c";
  ticket = 0;
  expires_after = 0;
}

abbrev retry : RetryRequest
retry = record {
  challenge_id = "ch-1";
  challenge_nonce = "";
  require_nonce = false;
  session_id = "s";
  branch = "";
  retry_request_id = "";
  proposed = record {
    action_id = "a2";
    session_id = "s";
    workspace_revision = "";
    contract_revision = 0;
    tool_name = "Bash";
    tool_class = "shell";
    command = "go test ./...";
  };
  correlation_id = "c2";
}

abbrev attempt : String → Attempt
attempt key = record { fingerprint = "fp"; relationship = Relationship.same; key = key }

abbrev cleared : ReEvalResult
cleared = record {
  stage2_decision = Decision.allow;
  intervention = "";
  reason = "justified";
  audit_id = "";
}

-- One challenge that is opened and justified, and one whose budget is spent.
abbrev challenge : ChallengeRecord
challenge = record ((write_opened new_store (case "ch-1") 1).1) {
  state = ChallengeState.justified;
  justification_hash = "jh";
}

abbrev pending : ChallengeRecord
pending = record challenge { state = ChallengeState.retry_pending; retry_budget = 0 }

abbrev store_of : ChallengeRecord → Store
store_of rec = record new_store { seq = 2; by_id = ("ch-1", rec) ∷ [] }

store_of-IsNamed : IsNamed (store_of challenge).by_id
unfolding lookup write_opened
store_of-IsNamed k rec at = ground (arith, eq_iff "ch-1" k)

-- Two attempts interleave; the first is allowed, repeated, and the second is not.
abbrev steps : List Step
steps =
    begins retry (attempt "k1") 3
    ∷ begins retry (attempt "k2") 4
    ∷ settles retry (attempt "k1") cleared 5
    ∷ wakes retry (attempt "k2")
    ∷ begins retry (attempt "k1") 6
    ∷ opens (case "ch-2") appealable 7
    ∷ []

retries-IsOneShot_example : IsOneShot (allowances "ch-1" (store_of challenge) steps)
unfolding lookup write_opened
retries-IsOneShot_example =
    retries-IsOneShot "ch-1" (store_of challenge) steps store_of-IsNamed (refl, refl)
      (tt, (tt, (tt, (tt, (tt, (refl, tt))))))

settle-allows_first_example :
    allows_first (settle (store_of pending) retry (attempt "k1") cleared 5).1
    ≡ (elim (get (store_of pending) "ch-1") [
      | none ↦ false
      | some rec ↦ not (is_due (store_of pending) rec) && is_pending rec.state && is_cleared cleared
    ])
settle-allows_first_example = settle-allows_first (store_of pending) retry (attempt "k1") cleared 5

settle-HasEnded_example :
    HasEnded "ch-1" (settle (store_of pending) retry (attempt "k1") cleared 5).0
    × HasEnded "ch-1" (cancel (store_of pending) retry (attempt "k1") 5)
unfolding get lookup write_opened
settle-HasEnded_example =
    settle-HasEnded retry (attempt "k1") 5 pending (store_of pending) cleared refl refl refl
