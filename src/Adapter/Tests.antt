-- ===== src/Adapter/Tests.antt =====
-- Runs of the gate, the queue, the ledger and the delivery of pkg/adapter on small inputs.
use reinframe.Prelude.{
  ◌≤◌, String, true, false, none, some, [], ◌∷◌, pos, ◌≡◌, ◌≢◌, ◌↔◌, inl, inr, refl, lookup, insert,
}
use reinframe.Adapter.Delivery.{
  Intervention, DeliveryState, AckStatus, AckLayer, ErrorClass, DeliveryMode, Boundary,
}
use reinframe.Adapter.HookGate.{
  HookRequest, HookPolicy, PathOps, Schedule, deadline_exceeded, ended, allow, deny, defer,
  result_taken, evaluate_hook_rules, evaluate_hook,
}
use reinframe.Adapter.HookGate.Rules.{Blocked, evaluate_hook_rules_cases}
use reinframe.Adapter.HookGate.Timing.{evaluate_hook_timing}
use reinframe.Adapter.PendingQueue.{PendingItem, PendingQueue, empty, enqueue, next_pending}
use reinframe.Adapter.PendingQueue.HandOut.{submit, next, update, handed, handed_once}
use reinframe.Adapter.PendingQueue.Oldest.{waiting, is_waiting, first_handed, next_pending-waiting}
use reinframe.Adapter.Ledger.{
  Ledger, opened, open_ledger, written, unwritten, is_suppress_state, already_delivered_key,
  record_result, validate_transition, known_state, installed,
}
use reinframe.Adapter.Ledger.Tests.{new_ledger, new_ledger-IsKept, installs_small}
use reinframe.Adapter.Boundary.{
  classify_delivery_boundary, should_ambiguous_suppress, map_result_to_state,
}
use reinframe.Adapter.Acknowledge.{AcknowledgeRequest, bare_explicit}
use reinframe.Adapter.Advisory.{AdvisoryDelivery, World, Actuator, deliver_item, is_duplicate}
use reinframe.Adapter.Advisory.Acks.{acknowledge_source, acknowledge}
use reinframe.Adapter.Advisory.Ceiling.{acknowledge_never_explicit}
use reinframe.Adapter.Advisory.Redelivery.{no_redelivery}

-- Paths that are clean already, and patterns that match themselves.
abbrev plain_paths : PathOps
plain_paths = record { clean = λ p. p; matches = λ p q. false }

abbrev request : HookRequest
request = record { session_id = "s"; tool_name = "Edit"; file_path = "src/a/b.go"; proposed = none }

abbrev policy : HookPolicy
policy = record {
  fail_open = false;
  denied_tools = ("Bash", tt) ∷ [];
  tool_deny_reasons = [];
  scope_whitelist = "src/" ∷ [];
  budget_exhausted = false;
  hard_deny_intervention_id = "";
  pending_advisory_intervention_id = "iv-1";
  defer_deadline = some 40;
  has_wait = false;
}

evaluate_hook_rules_cases_example :
    ((evaluate_hook_rules plain_paths request policy).action ≡ deny
      ↔ Blocked plain_paths request policy)
    × ((evaluate_hook_rules plain_paths request policy).action ≡ defer
        ↔ ((¬ Blocked plain_paths request policy) × (policy.pending_advisory_intervention_id ≢ "")))
    × ((evaluate_hook_rules plain_paths request policy).action ≡ allow
        ↔ ((¬ Blocked plain_paths request policy) × (policy.pending_advisory_intervention_id ≡ "")))
    × ((evaluate_hook_rules plain_paths request policy).action ≡ defer
        → (evaluate_hook_rules plain_paths request policy).intervention_id
          ≡ policy.pending_advisory_intervention_id)
evaluate_hook_rules_cases_example = evaluate_hook_rules_cases plain_paths request policy

-- The context ends while the rules are evaluated.
abbrev late : Schedule
late = record {
  at_start = none;
  wait_ends = none;
  after_wait = none;
  finish = ended deadline_exceeded false;
}

evaluate_hook_timing_example :
    (false ≡ false
      → (evaluate_hook plain_paths late request policy).action ≡ allow
      → (evaluate_hook_rules plain_paths request policy).action ≡ allow)
    × (false ≡ true
        → (evaluate_hook plain_paths late request policy).action ≡ deny
        → (evaluate_hook_rules plain_paths request policy).action ≡ deny)
    × (late.at_start ≡ none
        → late.wait_ends ≡ none
        → late.after_wait ≡ none
        → late.finish ≡ result_taken
        → evaluate_hook plain_paths late request policy
          ≡ evaluate_hook_rules plain_paths request policy)
evaluate_hook_timing_example = evaluate_hook_timing plain_paths request policy late

abbrev advice : Intervention
advice = record {
  intervention_id = "iv-1";
  session_id = "s";
  action_type = "ZOOM_OUT_PROMPT";
  advice_prompt = "step back";
  fingerprint = "fp";
  level = 1;
  status = "PENDING";
  requires_ack = true;
  safe_boundary = "before_tool";
  priority = 10;
  executed_at = 0;
}

handed_once_example :
    handed empty
      (submit advice (pos 10) 1
        ∷ next "s" 2
        ∷ submit advice (pos 10) 3
        ∷ update "iv-1" DeliveryState.rejected none
        ∷ submit advice (pos 10) 4
        ∷ next "s" 5
        ∷ [])
      "iv-1"
    ≤ 1
handed_once_example =
    handed_once
      (submit advice (pos 10) 1
        ∷ next "s" 2
        ∷ submit advice (pos 10) 3
        ∷ update "iv-1" DeliveryState.rejected none
        ∷ submit advice (pos 10) 4
        ∷ next "s" 5
        ∷ [])
      "iv-1" (tt, (tt, (tt, (refl, (tt, (tt, tt))))))

abbrev later_advice : Intervention
later_advice = record advice { intervention_id = "iv-2" }

-- The first item expires at 11.
abbrev two_items : PendingQueue
two_items = (enqueue (enqueue empty advice (pos 10) 1).0 later_advice (pos 50) 2).0

next_pending-waiting_example :
    (next_pending two_items "s" 20).1
    ≡ some (record {
      intervention = later_advice;
      state = DeliveryState.delivering;
      enqueued_at = 2;
      expires_at = 52;
      result = none;
    })
unfolding enqueue lookup insert waiting is_waiting first_handed
next_pending-waiting_example = next_pending-waiting two_items "s" 20

abbrev item : PendingItem
item = record {
  intervention = advice;
  state = DeliveryState.delivering;
  enqueued_at = 1;
  expires_at = 100;
  result = none;
}

abbrev delivery : AdvisoryDelivery
delivery = record {
  queue = record { by_id = ("iv-1", item) ∷ []; by_sess = [] };
  ledger = some new_ledger;
  supports_advice_delivery = true;
  nop_alerter = true;
  default_ttl = 100;
  dedupe_host_family = "grok_build";
}

abbrev ack : AcknowledgeRequest
ack = record {
  schema_version = "";
  intervention_id = "iv-1";
  host_family = "grok_build";
  host_version = "";
  profile = "";
  target_session = "s";
  source_kind = "session_update";
  source_event_id = "e-1";
  correlation_id = "";
  ack_layer = AckLayer.behavioral;
  status = AckStatus.acked;
  observed_at = none;
}

acknowledge_never_explicit_example :
    ((id : String) (it : PendingItem)
      → lookup id (acknowledge_source delivery written 9 ack).0.queue.by_id ≡ some it
      → it.state ≡ DeliveryState.explicit_ack
      → lookup id delivery.queue.by_id ≡ some it)
    × ((acknowledge_source delivery written 9 ack).1 ≢ none
        → (acknowledge_source delivery written 9 ack).0.queue ≡ delivery.queue)
    × ((acknowledge delivery written 9 "iv-1" AckStatus.acked).1 ≡ some bare_explicit)
acknowledge_never_explicit_example = acknowledge_never_explicit delivery written 9 ack

-- The host has shown the advice, the line of it is torn, and the marker is written.
abbrev shown : Actuator
shown iv = (
  record {
    intervention_id = iv.intervention_id;
    accepted = true;
    delivery_mode = DeliveryMode.advice;
    delivered_at = 3;
    ack_status = AckStatus.pending;
    ack_at = none;
    error_class = ErrorClass.no_error;
    message = "";
    ack_layer = AckLayer.session_visible;
    host_family = "";
    host_version = "";
    profile = "";
    safe_boundary = "";
    target_session_id = "s";
    caps_digest = "";
    delivery_boundary = Boundary.session_visible;
  },
  false,
)

abbrev marked : World
marked = record {
  now = 3;
  wall = 3;
  alert_error = none;
  first_write = unwritten;
  second_write = unwritten;
  marker_write = installed;
}

no_redelivery_example :
    (l' : Ledger) × (((deliver_item delivery shown marked "s" item).delivery.ledger ≡ some l')
      × ((l2 : Ledger) (d2 : AdvisoryDelivery) (again : Actuator) (w2 : World) (it2 : PendingItem)
          → open_ledger l'.disk ≡ opened l2
          → d2.ledger ≡ some l2
          → d2.dedupe_host_family ≡ "grok_build"
          → it2.result ≡ none
          → it2.intervention.intervention_id ≡ "iv-1"
          → it2.intervention.fingerprint ≡ "fp"
          → (deliver_item d2 again w2 "s" it2).sent ≡ false))
unfolding deliver_item should_ambiguous_suppress classify_delivery_boundary is_suppress_state
    map_result_to_state is_duplicate already_delivered_key record_result validate_transition
    known_state
no_redelivery_example =
    no_redelivery delivery new_ledger shown marked "s" item refl (inl new_ledger-IsKept) refl refl
      refl refl refl refl (λ n. inr (refl, installs_small)) refl
