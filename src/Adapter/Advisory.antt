-- ===== src/Adapter/Advisory.antt =====
-- pkg/adapter/advisory_delivery.go: delivery at a safe turn boundary, and acknowledgement. The
-- actuator and the human alerter are interfaces, so what they answer is an argument, like the clocks
-- and what the file system makes of each write. `sent` says that the actuator was called.
pub mod Acks
pub mod Ceiling
pub mod Remembering
pub mod Redelivery
pub mod Keeping
use reinframe.Prelude.{
  ℕ, suc, ◌+◌, String, Bool, true, false, not, ◌&&◌, ◌||◌, Option, none, some, ℤ, pos, negsuc,
  positive_or, str_eq, is_empty, ◌⧺◌, ltb, if◌then◌else◌,
}
use reinframe.Detector.Fingerprint.{trim_space}
use reinframe.Adapter.Delivery.{
  Intervention, DeliveryState, AckStatus, ErrorClass, AckLayer, Boundary, DeliveryMode,
  InterventionResult, default_delivery_mode,
}
use reinframe.Adapter.PendingQueue.{
  PendingItem, PendingQueue, EnqueueResult, enqueue, next_pending, update_state, get,
}
use reinframe.Adapter.Ledger.{
  Ledger, AppendIo, MarkIo, LedgerErr, record_result, mark_ambiguous_suppress,
  already_delivered_key,
}
use reinframe.Adapter.Boundary.{
  classify_delivery_boundary, should_ambiguous_suppress, map_result_to_state,
}
use reinframe.Adapter.Acknowledge.{
  AcknowledgeRequest, AckErr, profile_max_ack_layer, is_explicit, validate_acknowledge_request,
}

pub record AdvisoryDelivery : Type 0 where
  pub queue : PendingQueue
  pub ledger : Option Ledger
  pub supports_advice_delivery : Bool
  pub nop_alerter : Bool
  pub default_ttl : ℕ
  pub dedupe_host_family : String

pub data DeliverErr : Type 0 where
  no_pending actuator_failed alerter_is_nop alert_failed durable_write_failed : DeliverErr

-- What a call meets outside: the queue's clock and the wall clock, the alerter's error, and how the
-- writes end that the call may make.
pub record World : Type 0 where
  pub now : ℕ
  pub wall : ℕ
  pub alert_error : Option String
  pub first_write : AppendIo
  pub second_write : AppendIo
  pub marker_write : MarkIo

pub record Delivered : Type 0 where
  pub delivery : AdvisoryDelivery
  pub item : Option PendingItem
  pub result : Option InterventionResult
  pub error : Option DeliverErr
  pub sent : Bool

abbrev pub Actuator : Type 0
Actuator = Intervention → InterventionResult × Bool

-- `Enqueue`
unfoldable pub submit : AdvisoryDelivery → Intervention → ℤ → ℕ → AdvisoryDelivery × EnqueueResult
submit d iv ttl now =
    let (q, r) = enqueue d.queue iv (pos (positive_or d.default_ttl ttl)) now in
    (record d { queue = q }, r)

-- The item is set to `state` with `res`, in the queue and in the copy that is returned.
unfoldable pub settle :
    AdvisoryDelivery
    → PendingItem
    → DeliveryState
    → InterventionResult
    → Option DeliverErr
    → Bool
    → Delivered
settle d it state res err sent = record {
  delivery = record d {
    queue = (update_state d.queue it.intervention.intervention_id state (some res)).0;
  };
  item = some (record it { state = state; result = some res });
  result = some res;
  error = err;
  sent = sent;
}

blank_result : Intervention → DeliveryMode → ℕ → InterventionResult
blank_result iv mode now = record {
  intervention_id = iv.intervention_id;
  accepted = false;
  delivery_mode = mode;
  delivered_at = now;
  ack_status = AckStatus.other "";
  ack_at = none;
  error_class = ErrorClass.other "";
  message = "";
  ack_layer = AckLayer.other "";
  host_family = "";
  host_version = "";
  profile = "";
  safe_boundary = "";
  target_session_id = "";
  caps_digest = "";
  delivery_boundary = Boundary.other "";
}

-- The host family of the dedupe key.
item_host : AdvisoryDelivery → PendingItem → String
item_host d it = elim it.result [
  | none ↦ d.dedupe_host_family
  | some r ↦ if is_empty r.host_family then d.dedupe_host_family else r.host_family
]

-- The ledger holds the item's key.
unfoldable pub is_duplicate : AdvisoryDelivery → String → PendingItem → Bool
unfolding item_host
is_duplicate d session_id it = elim d.ledger [
  | none ↦ false
  | some l ↦
      already_delivered_key l it.intervention.intervention_id session_id (item_host d it)
        it.intervention.fingerprint
]

with_ledger : AdvisoryDelivery → Ledger → AdvisoryDelivery
with_ledger d l = record d { ledger = some l }

-- The error of the audit line is dropped.
unfoldable pub suppress : AdvisoryDelivery → World → String → PendingItem → Delivered
unfolding blank_result item_host settle with_ledger
suppress d w session_id it =
    let iv = it.intervention in
    let res = record (blank_result iv (default_delivery_mode iv.action_type) w.wall) {
      ack_status = AckStatus.rejected;
      error_class = ErrorClass.no_error;
      message = "duplicate InterventionID suppressed by durable ledger";
      ack_layer = AckLayer.no_layer;
      host_family = item_host d it;
    } in
    let d' : AdvisoryDelivery = elim d.ledger [
      | none ↦ d
      | some l ↦
          with_ledger d
            (record_result l w.first_write DeliveryState.delivering session_id res
              DeliveryState.suppressed "" "" iv.fingerprint).0
    ] in
    settle d' it DeliveryState.suppressed res none false

-- The agent takes no advice: a human is alerted, and a silent alerter is an error.
unfoldable pub escalate : AdvisoryDelivery → World → PendingItem → Delivered
unfolding blank_result settle
escalate d w it =
    let missing : String = "missing capability CapAdviceDelivery; escalate to human required" in
    let silent : String = "human alerter is NopHumanAlerter; cannot claim escalation succeeded" in
    let res = record (blank_result it.intervention DeliveryMode.human_escalation w.wall) {
      ack_status = AckStatus.unsupported;
      error_class = ErrorClass.unsupported_capability;
      message = missing;
    } in
    if d.nop_alerter
    then settle d it DeliveryState.failed
        (record res { message = missing ⧺ ": " ⧺ silent; error_class = ErrorClass.transport })
        (some alerter_is_nop) false
    else (elim w.alert_error [
      | some text ↦
          settle d it DeliveryState.failed
            (record res {
              message = missing ⧺ ": alerter error: " ⧺ text;
              error_class = ErrorClass.transport;
            })
            (some alert_failed) false
      | none ↦ settle d it DeliveryState.failed res none false
    ])

actuator_error : Bool → Option DeliverErr
actuator_error failed = if failed then some actuator_failed else none

unfoldable pub noted : InterventionResult → InterventionResult
noted res = record res { message = trim_space (res.message ⧺ "; durable_write_failed") }

is_no_error : ErrorClass → Bool
is_no_error ErrorClass.no_error = true
is_no_error _ = false

-- The AMBIGUOUS line, or else the suppress marker.
unfoldable pub mark_ambiguous :
    Ledger → World → String → InterventionResult → Intervention → Ledger × Option LedgerErr
mark_ambiguous l w session_id res iv =
    let (l', failed) =
      record_result l w.second_write DeliveryState.delivering session_id res DeliveryState.ambiguous
        "" "" iv.fingerprint in
    elim failed [
      | none ↦ (l', none)
      | some e ↦
          mark_ambiguous_suppress l' w.marker_write iv.intervention_id session_id res.host_family
            iv.fingerprint
    ]

-- The ledger could not record what the host answered.
unfoldable pub write_failed :
    AdvisoryDelivery
    → Ledger
    → World
    → String
    → PendingItem
    → InterventionResult
    → DeliveryState
    → Bool
    → Delivered
unfolding settle noted is_no_error mark_ambiguous with_ledger
write_failed d l w session_id it res state failed =
    let n = noted res in
    let unsent = record n {
      error_class = if is_no_error n.error_class then ErrorClass.transport else n.error_class;
    } in
    let unclear = record n { error_class = ErrorClass.transport } in
    let marked = mark_ambiguous l w session_id unclear it.intervention in
    if should_ambiguous_suppress (classify_delivery_boundary res failed)
    then settle (with_ledger d marked.0) it DeliveryState.ambiguous unclear
        (some durable_write_failed) true
    else settle (with_ledger d l) it state unsent (some durable_write_failed) true

-- An answer without a host family gets the one of the dedupe key.
abbrev pub with_host : AdvisoryDelivery → InterventionResult → InterventionResult
with_host d answer = record answer {
  host_family = if is_empty answer.host_family then d.dedupe_host_family else answer.host_family;
}

-- The actuator's answer is recorded.
unfoldable pub record_answer :
    AdvisoryDelivery → World → String → PendingItem → InterventionResult → Bool → Delivered
unfolding settle actuator_error write_failed with_ledger
record_answer d w session_id it answer failed =
    let res = with_host d answer in
    let state = map_result_to_state res failed in
    elim d.ledger [
      | none ↦ settle d it state res (actuator_error failed) true
      | some l ↦
          let (l', lerr) =
            record_result l w.first_write DeliveryState.delivering session_id res state "" ""
              it.intervention.fingerprint in
          elim lerr [
            | none ↦ settle (with_ledger d l') it state res (actuator_error failed) true
            | some e ↦ write_failed d l' w session_id it res state failed
          ]
    ]

-- `DeliverPending` for an item that the queue has handed out.
unfoldable pub deliver_item : AdvisoryDelivery → Actuator → World → String → PendingItem → Delivered
unfolding suppress escalate record_answer
deliver_item d actuator w session_id it =
    let (answer, failed) = actuator it.intervention in
    if is_duplicate d session_id it
    then suppress d w session_id it
    else if not d.supports_advice_delivery
    then escalate d w it
    else record_answer d w session_id it answer failed

-- `DeliverPending`
unfoldable pub deliver_pending : AdvisoryDelivery → Actuator → World → String → Delivered
deliver_pending d actuator w session_id =
    let (q, next) = next_pending d.queue session_id w.now in
    elim next [
      | none ↦ record {
        delivery = record d { queue = q };
        item = none;
        result = none;
        error = some no_pending;
        sent = false;
      }
      | some it ↦ deliver_item (record d { queue = q }) actuator w session_id it
    ]
