-- ===== src/Supervisor/Orchestrator.antt =====
-- pkg/supervisor/orchestrator.go: events go through the detector and the slow policy into the queue,
-- and a latch for each session defers its tools while advice is pending. The detector, the policy and
-- the delivery are the models of the other packages; clocks, writes and the host's answers are
-- arguments, and whether the optional store refuses an event is one too.
pub mod Latches
pub mod Answers
pub mod Tests
use reinframe.Prelude.{
  ℕ, String, Char, Bool, true, false, not, ◌&&◌, ◌||◌, Option, none, some, List, [], ◌∷◌, ◌++◌, ℤ,
  Map, lookup, insert, remove, is_empty, str_eq, ◌⧺◌, if◌then◌else◌,
}
use reinframe.Detector.Signal.{AgentEvent, TunnelSignal}
use reinframe.Detector.RepeatedFailure as RepeatedFailure
use reinframe.Detector.RepeatedFailure.{RepeatedFailureDetector}
use reinframe.Policy.Slow.{Formats, Engine, SlowInput, SlowResult, evaluate_slow}
use reinframe.Adapter.Delivery.{
  Intervention, DeliveryState, DeliveryMode, AckStatus, AckLayer, InterventionResult,
}
use reinframe.Adapter.PendingQueue.{PendingItem, EnqueueResult, get}
use reinframe.Adapter.Ledger.{AppendIo, state_name}
use reinframe.Adapter.HookGate.{
  HookRequest, HookPolicy, HookDecision, PathOps, Schedule, evaluate_hook,
}
use reinframe.Adapter.Acknowledge.{AckErr}
use reinframe.Adapter.Advisory.{
  AdvisoryDelivery, Actuator, World, Delivered, submit, deliver_pending,
}
use reinframe.Adapter.Advisory.Acks.{acknowledge, acknowledge_source, is_acked, status_name}

pub record AuditEntry : Type 0 where
  pub at : ℕ
  pub session : String
  pub category : String
  pub summary : String
  pub ref_id : String

pub record Orchestrator : Type 0 where
  pub det : RepeatedFailureDetector
  pub pol : Engine
  pub del : AdvisoryDelivery
  pub ttl : ℤ
  pub base_policy : HookPolicy
  pub pending_latch : Map String
  pub audit : List AuditEntry

-- `NewOrchestrator`, of parts that are there.
unfoldable pub new_orchestrator :
    RepeatedFailureDetector → Engine → AdvisoryDelivery → ℤ → HookPolicy → Orchestrator
new_orchestrator det pol del ttl base = record {
  det = det;
  pol = pol;
  del = del;
  ttl = ttl;
  base_policy = base;
  pending_latch = [];
  audit = [];
}

-- `recordAudit`
unfoldable pub record_audit : ℕ → String → String → String → String → Orchestrator → Orchestrator
record_audit at session category summary ref o = record o {
  audit =
      o.audit
      ++ record { at = at; session = session; category = category; summary = summary; ref_id = ref }
        ∷ [];
}

-- `clearLatch`
unfoldable pub clear_latch : String → String → Orchestrator → Orchestrator
clear_latch session id o = elim (lookup session o.pending_latch) [
  | none ↦ o
  | some cur ↦
      if is_empty id || str_eq cur id
      then record o { pending_latch = remove session o.pending_latch }
      else o
]

-- `hookPolicyFor`
unfoldable pub hook_policy_for : Orchestrator → String → HookPolicy
hook_policy_for o session = elim (lookup session o.pending_latch) [
  | none ↦ o.base_policy
  | some id ↦
      if is_empty id
      then o.base_policy
      else record o.base_policy { pending_advisory_intervention_id = id }
]

-- `PendingInterventionID`
unfoldable pub pending_intervention_id : Orchestrator → String → String
pending_intervention_id o session = elim (lookup session o.pending_latch) [
  | none ↦ ""
  | some id ↦ id
]

-- `EvaluatePreTool`
unfoldable pub evaluate_pre_tool : PathOps → Schedule → Orchestrator → HookRequest → HookDecision
evaluate_pre_tool ops t o req = evaluate_hook ops t req (hook_policy_for o req.session_id)

-- The times that one call of `HandleEvent` reads, and whether the store refuses the event.
pub record Moments : Type 0 where
  pub append_fails : Bool
  pub detected : ℕ
  pub asked : ℕ
  pub decided : ℕ
  pub enqueued : ℕ
  pub first_audit : ℕ
  pub second_audit : ℕ

pub data HandleErr : Type 0 where
  store_append policy_failed : HandleErr

pub record Handled : Type 0 where
  pub after : Orchestrator
  pub sent : Option TunnelSignal
  pub intervention : Option Intervention
  pub error : Option HandleErr

show_bool : Bool → String
show_bool true = "true"
show_bool false = "false"

-- The intervention is queued, and latched if it is new.
unfoldable pub enqueue_intervention :
    Orchestrator → Moments → String → TunnelSignal → Intervention → Handled
unfolding show_bool
enqueue_intervention o t session sig iv =
    let (del, enq) = submit o.del iv o.ttl t.enqueued in
    let queued = record o { del = del } in
    let latched = record queued {
      pending_latch = insert session iv.intervention_id o.pending_latch;
    } in
    let summary =
      "enqueue suppressed=" ⧺ show_bool enq.suppressed ⧺ " expired=" ⧺ show_bool enq.expired in
    record {
      after =
          if enq.suppressed || enq.expired
          then record_audit t.second_audit session "queue" summary iv.intervention_id queued
          else record_audit t.second_audit session "policy" "enqueued_zoom_out" iv.intervention_id
              latched;
      sent = some sig;
      intervention = some iv;
      error = none;
    }

-- What the policy makes of the signal.
unfoldable pub act_on : Orchestrator → Moments → String → TunnelSignal → SlowResult → Bool → Handled
act_on o t session sig slow failed =
    if failed
    then record { after = o; sent = some sig; intervention = none; error = some policy_failed }
    else elim slow.intervention [
      | none ↦ record {
        after =
            record_audit t.second_audit session "policy" ("no_intervention:" ⧺ slow.reason)
              sig.signal_id o;
        sent = some sig;
        intervention = none;
        error = none;
      }
      | some iv ↦ enqueue_intervention o t session sig iv
    ]

abbrev pub slow_input : TunnelSignal → SlowInput
slow_input sig = record {
  tunnel_signal = some sig;
  contract = none;
  ledger = none;
  uncertain = false;
  advice_prompt = "";
}

unfoldable pub on_signal : Formats → Orchestrator → Moments → String → TunnelSignal → Handled
on_signal formats o t session sig =
    let noted =
      record_audit t.first_audit session "detector" "repeated_failure_signal" sig.signal_id o in
    let (pol, slow, failed) = evaluate_slow formats o.pol (slow_input sig) t.asked t.decided in
    act_on (record noted { pol = pol }) t session sig slow failed

abbrev quiet : Orchestrator → Option HandleErr → Handled
quiet o e = record { after = o; sent = none; intervention = none; error = e }

-- `HandleEvent`
unfoldable pub handle_event :
    (Char → Char) → Formats → Orchestrator → AgentEvent → Moments → Handled
handle_event lower formats o event t =
    let (det, sig) = RepeatedFailure.observe lower o.det event t.detected in
    if t.append_fails then quiet o (some store_append) else elim sig [
      | none ↦ quiet (record o { det = det }) none
      | some s ↦ on_signal formats (record o { det = det }) t event.session_id s
    ]

-- The delivered item needs no latch any more.
unfoldable pub releases : DeliveryState → InterventionResult → Bool → Bool
releases DeliveryState.acked res failed = true
releases DeliveryState.suppressed res failed = true
releases DeliveryState.ambiguous res failed = true
releases DeliveryState.failed res failed = elim res.delivery_mode [
  | DeliveryMode.human_escalation ↦ not failed
  | _ ↦ false
]
releases DeliveryState.unsupported res failed = elim res.ack_status [
  | AckStatus.unsupported ↦ not failed
  | _ ↦ false
]
releases _ res failed = false

is_error : {A : Type 0} → Option A → Bool
is_error none = false
is_error (some e) = true

unfoldable pub after_delivery : Orchestrator → ℕ → String → Delivered → Orchestrator
unfolding is_error
after_delivery o at session d =
    let o' = record o { del = d.delivery } in
    elim d.item [
      | none ↦ o'
      | some it ↦ elim d.result [
        | none ↦ o'
        | some res ↦
            let id = it.intervention.intervention_id in
            let noted =
              record_audit at session "delivery"
                ("state=" ⧺ state_name it.state ⧺ " ack=" ⧺ status_name res.ack_status) id o' in
            if releases it.state res (is_error d.error) then clear_latch session id noted else noted
      ]
    ]

-- `DeliverAtSafeBoundary`; an item that is delivered always comes with a result.
unfoldable pub deliver_at_safe_boundary :
    Orchestrator → Actuator → World → ℕ → String → Orchestrator × Delivered
deliver_at_safe_boundary o actuator w at session =
    let d = deliver_pending o.del actuator w session in (after_delivery o at session d, d)

-- The delivery's part of `Acknowledge`.
unfoldable pub answer_delivery :
    AdvisoryDelivery → AppendIo → ℕ → String → AckStatus → AdvisoryDelivery × Option AckErr
answer_delivery del io wall id status =
    if is_acked status
    then acknowledge_source del io wall (record {
      schema_version = "reinframe.ack_request.v1";
      intervention_id = id;
      host_family = "";
      host_version = "";
      profile = "";
      target_session = "";
      source_kind = "orchestrator";
      source_event_id = "orchestrator:" ⧺ id;
      correlation_id = "";
      ack_layer = AckLayer.session_visible;
      status = status;
      observed_at = none;
    })
    else acknowledge del io wall id status

unfoldable pub after_answer :
    Orchestrator → ℕ → String → AckStatus → AdvisoryDelivery → Orchestrator
after_answer o at id status del =
    let o' = record o { del = del } in
    elim (get del.queue id) [
      | none ↦ o'
      | some it ↦
          let session = it.intervention.session_id in
          let noted = record_audit at session "ack" (status_name status) id o' in
          if is_acked status then clear_latch session id noted else noted
    ]

-- `Acknowledge`; `wall` is the clock of the answer, `at` that of the audit.
unfoldable pub acknowledge_intervention :
    Orchestrator → AppendIo → ℕ → ℕ → String → AckStatus → Orchestrator × Option AckErr
acknowledge_intervention o io wall at id status =
    let (del, failed) = answer_delivery o.del io wall id status in
    elim failed [
      | some e ↦ (record o { del = del }, some e)
      | none ↦ (after_answer o at id status del, none)
    ]
