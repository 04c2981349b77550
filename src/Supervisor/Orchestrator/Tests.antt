-- ===== src/Supervisor/Orchestrator/Tests.antt =====
-- The theorems about pkg/supervisor/orchestrator.go at concrete calls.
use reinframe.Prelude.{
  ℕ, String, Char, true, false, none, some, List, [], ◌∷◌, pos, ◌≡◌, ◌≢◌, refl, lookup,
}
use reinframe.Detector.Signal.{AgentEvent}
use reinframe.Detector.RepeatedFailure.{RepeatedFailureDetector}
use reinframe.Policy.Slow.{Formats, Engine}
use reinframe.Adapter.Delivery.{AckStatus, AckLayer, ErrorClass, DeliveryMode, Boundary}
use reinframe.Adapter.HookGate.{
  HookRequest, HookPolicy, PathOps, Schedule, allow, defer, result_taken,
}
use reinframe.Adapter.HookGate.Rules.{Blocked}
use reinframe.Adapter.HookGate.Reasons.{IsPrompt}
use reinframe.Adapter.Ledger.{written, installed}
use reinframe.Adapter.Advisory.{AdvisoryDelivery, World, Actuator}
use reinframe.Supervisor.Orchestrator.{
  Orchestrator, Moments, new_orchestrator, hook_policy_for, evaluate_pre_tool,
  acknowledge_intervention,
}
use reinframe.Supervisor.Orchestrator.Latches.{Call, heard, reached, run, IsHeld, latches-IsHeld}
use reinframe.Supervisor.Orchestrator.Answers.{pre_tool_latched, acknowledge-latches}

abbrev same : Char → Char
same c = c

abbrev formats : Formats
formats = record { show_g = λ n. ""; show_fixed = λ n. ""; show_map = λ m. "" }

abbrev plain_paths : PathOps
plain_paths = record { clean = λ p. p; matches = λ p q. false }

abbrev det : RepeatedFailureDetector
det = record { threshold = 2; sessions = []; seq = 0 }

abbrev pol : Engine
pol = record { reviewer = none; reviewer_model = ""; id_seq = 0 }

abbrev del : AdvisoryDelivery
del = record {
  queue = record { by_id = []; by_sess = [] };
  ledger = none;
  supports_advice_delivery = true;
  nop_alerter = true;
  default_ttl = 100;
  dedupe_host_family = "";
}

abbrev base : HookPolicy
base = record {
  fail_open = false;
  denied_tools = [];
  tool_deny_reasons = [];
  scope_whitelist = [];
  budget_exhausted = false;
  hard_deny_intervention_id = "";
  pending_advisory_intervention_id = "";
  defer_deadline = none;
  has_wait = false;
}

abbrev failed_event : String → AgentEvent
failed_event id = record {
  event_id = id;
  session_id = "s";
  event_type = "failure";
  payload = record { raw = "boom"; as_test_result = none; as_tool_call = none; as_object = none };
}

abbrev moments : ℕ → Moments
moments n = record {
  append_fails = false;
  detected = n;
  asked = n;
  decided = n;
  enqueued = n;
  first_audit = n;
  second_audit = n;
}

-- The host accepts the advice, and shows it.
abbrev shown : Actuator
shown iv = (
  record {
    intervention_id = iv.intervention_id;
    accepted = true;
    delivery_mode = DeliveryMode.advice;
    delivered_at = 3;
    ack_status = AckStatus.pending;
    ack_at = none;
    error_class = ErrorClass.no_error;
    message = "";
    ack_layer = AckLayer.session_visible;
    host_family = "";
    host_version = "";
    profile = "";
    safe_boundary = "";
    target_session_id = "s";
    caps_digest = "";
    delivery_boundary = Boundary.session_visible;
  },
  false,
)

abbrev world : World
world = record {
  now = 3;
  wall = 3;
  alert_error = none;
  first_write = written;
  second_write = written;
  marker_write = installed;
}

-- The same failure twice, and the advice is shown.
abbrev calls : List Call
calls =
    heard (failed_event "e1") (moments 1)
    ∷ heard (failed_event "e2") (moments 2)
    ∷ reached shown world 3 "s"
    ∷ []

abbrev start : Orchestrator
start = record {
  det = det;
  pol = pol;
  del = del;
  ttl = pos 50;
  base_policy = base;
  pending_latch = [];
  audit = [];
}

abbrev advice_id : String
advice_id = "iv-zoom-sig-rf-e2-1-1"

latches-IsHeld_example :
    IsHeld (run same formats (new_orchestrator det pol del (pos 50) base) calls)
latches-IsHeld_example = latches-IsHeld same formats det pol del (pos 50) base calls

abbrev latched : Orchestrator
latched = record start { pending_latch = ("s", advice_id) ∷ [] }

abbrev request : HookRequest
request = record { session_id = "s"; tool_name = "Edit"; file_path = "a.go"; proposed = none }

abbrev prompt : Schedule
prompt = record { at_start = none; wait_ends = none; after_wait = none; finish = result_taken }

pre_tool_latched_example :
    ((evaluate_pre_tool plain_paths prompt latched request).action ≢ allow)
    × (IsPrompt prompt
        → ¬ Blocked plain_paths request base
        → ((evaluate_pre_tool plain_paths prompt latched request).action ≡ defer)
          × ((evaluate_pre_tool plain_paths prompt latched request).intervention_id ≡ advice_id))
unfolding lookup
pre_tool_latched_example =
    pre_tool_latched plain_paths prompt latched request advice_id refl (λ e. cc) refl

-- The latch that the calls leave, and that an answer takes off.
abbrev advised : Orchestrator
advised = run same formats (new_orchestrator det pol del (pos 50) base) calls

acknowledge-latches_example :
    ((acknowledge_intervention advised written 4 5 advice_id AckStatus.acked).1 ≢ none
      → (acknowledge_intervention advised written 4 5 advice_id AckStatus.acked).0.pending_latch
        ≡ advised.pending_latch)
    × (true ≡ false
        → (acknowledge_intervention advised written 4 5 advice_id AckStatus.acked).0.pending_latch
          ≡ advised.pending_latch)
    × (true ≡ true
        → (acknowledge_intervention advised written 4 5 advice_id AckStatus.acked).1 ≡ none
        → (session : String) → lookup session advised.pending_latch ≡ some advice_id
        → hook_policy_for
            (acknowledge_intervention advised written 4 5 advice_id AckStatus.acked).0
            session
          ≡ advised.base_policy)
    × (advice_id ≢ ""
        → (session : String) → lookup session advised.pending_latch ≢ some advice_id
        → lookup session
            (acknowledge_intervention advised written 4 5 advice_id AckStatus.acked).0.pending_latch
          ≡ lookup session advised.pending_latch)
acknowledge-latches_example =
    acknowledge-latches advised written 4 5 advice_id AckStatus.acked
      (latches-IsHeld same formats det pol del (pos 50) base calls)
