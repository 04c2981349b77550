-- ===== src/Adapter/Advisory/Keeping.antt =====
-- pkg/adapter/advisory_delivery.go: delivery and acknowledgement keep every item of the queue.
use reinframe.Prelude.{ℕ, String, Bool, not, Option, none, some, ◌≡◌, refl, if_keeps, option_keeps}
use reinframe.Adapter.Delivery.{DeliveryState, InterventionResult, AckStatus}
use reinframe.Adapter.PendingQueue.{PendingItem, PendingQueue, next_pending, update_state}
use reinframe.Adapter.PendingQueue.Keeping.{Keeps, next_pending-Keeps, update_state-Keeps}
use reinframe.Adapter.Ledger.{AppendIo, Ledger}
use reinframe.Adapter.Boundary.{classify_delivery_boundary, should_ambiguous_suppress}
use reinframe.Adapter.Acknowledge.{AcknowledgeRequest, AckErr, profile_max_ack_layer}
use reinframe.Adapter.Advisory.{
  AdvisoryDelivery, Actuator, World, Delivered, DeliverErr, settle, with_ledger, suppress, escalate,
  write_failed, record_answer, deliver_item, deliver_pending, is_duplicate,
}
use reinframe.Adapter.Advisory.Acks.{
  acknowledge, acknowledge_source, answer, commit, awaiting_explicit_ack, is_mismatch, base_result,
  ack_default, is_acked, outcome, capped_layer,
}

abbrev pub KeepsItems : AdvisoryDelivery → AdvisoryDelivery → Type 0
KeepsItems d d' = Keeps d.queue.by_id d'.queue.by_id

settle-KeepsItems :
    (d : AdvisoryDelivery) (it : PendingItem) (state : DeliveryState) (res : InterventionResult)
    (e : Option DeliverErr) (sent : Bool)
    → KeepsItems d (settle d it state res e sent).delivery
unfolding settle
settle-KeepsItems d it state res e sent =
    update_state-Keeps d.queue it.intervention.intervention_id state (some res)

-- The ledger is written, the queue stays.
queue_with :
    (d : AdvisoryDelivery) (o : Option Ledger) (write : Ledger → Ledger)
    → (elim o as (λ x. AdvisoryDelivery) [ none ↦ d | some l ↦ with_ledger d (write l) ]).queue
      ≡ d.queue
unfolding with_ledger
queue_with d none write = refl
queue_with d (some l) write = refl

update_from :
    (q q' : PendingQueue) (k : String) (state : DeliveryState) (r : Option InterventionResult)
    → q' ≡ q
    → Keeps q.by_id (update_state q' k state r).0.by_id
update_from q q' k state r e = rw e (update_state-Keeps q k state r)

suppress-KeepsItems :
    (d : AdvisoryDelivery) (w : World) (session_id : String) (it : PendingItem)
    → KeepsItems d (suppress d w session_id it).delivery
unfolding suppress
suppress-KeepsItems d w session_id it = update_from d.queue _ _ _ _ (queue_with d d.ledger _)

escalate-KeepsItems :
    (d : AdvisoryDelivery) (w : World) (it : PendingItem) → KeepsItems d (escalate d w it).delivery
unfolding escalate
escalate-KeepsItems d w it =
    let same = update_state-Keeps d.queue it.intervention.intervention_id in
    if_keeps (λ (r : Delivered). KeepsItems d r.delivery) d.nop_alerter (same _ _)
      (option_keeps (λ (r : Delivered). KeepsItems d r.delivery) w.alert_error (same _ _)
        (λ text. same _ _))

write_failed-KeepsItems :
    (d : AdvisoryDelivery) (l : Ledger) (w : World) (session_id : String) (it : PendingItem)
    (res : InterventionResult) (state : DeliveryState) (failed : Bool)
    → KeepsItems d (write_failed d l w session_id it res state failed).delivery
unfolding write_failed with_ledger
write_failed-KeepsItems d l w session_id it res state failed =
    let same = update_state-Keeps d.queue it.intervention.intervention_id in
    if_keeps (λ (r : Delivered). KeepsItems d r.delivery)
      (should_ambiguous_suppress (classify_delivery_boundary res failed)) (same _ _) (same _ _)

record_answer-KeepsItems :
    (d : AdvisoryDelivery) (w : World) (session_id : String) (it : PendingItem)
    (res : InterventionResult) (failed : Bool)
    → KeepsItems d (record_answer d w session_id it res failed).delivery
unfolding record_answer with_ledger
record_answer-KeepsItems d w session_id it res failed =
    let same = update_state-Keeps d.queue it.intervention.intervention_id in
    let P = λ (r : Delivered). KeepsItems d r.delivery in
    option_keeps P d.ledger (same _ _)
      λ l. option_keeps P _ (same _ _) λ e. write_failed-KeepsItems d _ w session_id it _ _ failed

deliver_item-KeepsItems :
    (d : AdvisoryDelivery) (actuator : Actuator) (w : World) (session_id : String)
    (it : PendingItem)
    → KeepsItems d (deliver_item d actuator w session_id it).delivery
unfolding deliver_item
deliver_item-KeepsItems d actuator w session_id it =
    let P = λ (r : Delivered). KeepsItems d r.delivery in
    if_keeps P (is_duplicate d session_id it) (suppress-KeepsItems d w session_id it) (
      if_keeps P (not d.supports_advice_delivery) (escalate-KeepsItems d w it) (
        record_answer-KeepsItems d w session_id it (actuator it.intervention).0
          (actuator it.intervention).1))

pub deliver_pending-KeepsItems :
    (d : AdvisoryDelivery) (actuator : Actuator) (w : World) (session_id : String)
    → KeepsItems d (deliver_pending d actuator w session_id).delivery
unfolding deliver_pending
deliver_pending-KeepsItems d actuator w session_id =
    let q = (next_pending d.queue session_id w.now).0 in
    let handed = next_pending-Keeps d.queue session_id w.now in
    option_keeps (λ (r : Delivered). KeepsItems d r.delivery)
      (next_pending d.queue session_id w.now).1 handed
      (λ it id iv h.
        deliver_item-KeepsItems (record d { queue = q }) actuator w session_id it id iv
          (handed id iv h))

commit-KeepsItems :
    (d : AdvisoryDelivery) (io : AppendIo) (req : AcknowledgeRequest) (it : PendingItem)
    (r : DeliveryState × InterventionResult)
    → KeepsItems d (commit d io req it r).0
unfolding commit
commit-KeepsItems d io req it (state, res) =
    let P = λ (r : AdvisoryDelivery × Option AckErr). KeepsItems d r.0 in
    let same = update_state-Keeps d.queue req.intervention_id state (some res) in
    option_keeps P d.ledger same λ l. option_keeps P _ same (λ e id iv h. h)

answer-KeepsItems :
    (d : AdvisoryDelivery) (io : AppendIo) (wall : ℕ) (req : AcknowledgeRequest) (it : PendingItem)
    → KeepsItems d (answer d io wall req it).0
unfolding answer
answer-KeepsItems d io wall req it =
    let P = λ (r : AdvisoryDelivery × Option AckErr). KeepsItems d r.0 in
    let stays : Keeps d.queue.by_id d.queue.by_id = λ id iv h. h in
    let now : ℕ = elim req.observed_at [ none ↦ wall | some t ↦ t ] in
    let res = base_result req it now in
    let max = profile_max_ack_layer res.host_family res.profile in
    if_keeps P (not (awaiting_explicit_ack it.state)) stays (
      if_keeps P (is_mismatch it req.target_session) stays (
        option_keeps P (capped_layer (ack_default req.ack_layer req.status) max) stays λ layer.
          option_keeps P (outcome req.status req layer res now) stays
            λ r. commit-KeepsItems d io req it r))

pub acknowledge_source-KeepsItems :
    (d : AdvisoryDelivery) (io : AppendIo) (wall : ℕ) (req : AcknowledgeRequest)
    → KeepsItems d (acknowledge_source d io wall req).0
unfolding acknowledge_source
acknowledge_source-KeepsItems d io wall req =
    let P = λ (r : AdvisoryDelivery × Option AckErr). KeepsItems d r.0 in
    let stays : Keeps d.queue.by_id d.queue.by_id = λ id iv h. h in
    option_keeps P _ (option_keeps P _ stays λ it. answer-KeepsItems d io wall req it) λ e. stays

pub acknowledge-KeepsItems :
    (d : AdvisoryDelivery) (io : AppendIo) (wall : ℕ) (id : String) (status : AckStatus)
    → KeepsItems d (acknowledge d io wall id status).0
unfolding acknowledge
acknowledge-KeepsItems d io wall id status =
    if_keeps (λ (r : AdvisoryDelivery × Option AckErr). KeepsItems d r.0) (is_acked status)
      (λ id iv h. h) (acknowledge_source-KeepsItems d io wall _)
