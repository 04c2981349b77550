-- ===== src/Supervisor/Orchestrator/Latches.antt =====
-- The latches of pkg/supervisor/orchestrator.go against the queue of the delivery.
use reinframe.Prelude.{
  ℕ, String, Char, Bool, ◌||◌, Option, some, List, [], ◌∷◌, ℤ, pos, positive_or, Map, lookup,
  insert, lookup-insert, lookup-remove, is_empty, str_eq, ◌≡◌, refl, ◌∙◌, arith, Bool-cases,
  Option-cases, inl, inr, eq_iff, if_keeps, if_splits, option_keeps, subst,
}
use reinframe.Detector.Signal.{AgentEvent, TunnelSignal}
use reinframe.Detector.RepeatedFailure as RepeatedFailure
use reinframe.Detector.RepeatedFailure.{RepeatedFailureDetector}
use reinframe.Detector.RepeatedFailure.Signals.{Signals, observe-Signals}
use reinframe.Policy.Slow.{Formats, Engine, SlowResult, evaluate_slow}
use reinframe.Policy.Slow.Outcomes.{Suits, slow_outcomes}
use reinframe.Adapter.Delivery.{Intervention, AckStatus}
use reinframe.Adapter.PendingQueue.{PendingItem, enqueue, get}
use reinframe.Adapter.PendingQueue.Keeping.{Holds, Keeps, enqueue-Keeps, enqueue-TakenIn}
use reinframe.Adapter.HookGate.{HookPolicy}
use reinframe.Adapter.Ledger.{AppendIo}
use reinframe.Adapter.Acknowledge.{AckErr}
use reinframe.Adapter.Advisory.{
  AdvisoryDelivery, Actuator, World, Delivered, submit, deliver_pending,
}
use reinframe.Adapter.Advisory.Acks.{is_acked}
use reinframe.Adapter.Advisory.Keeping.{
  deliver_pending-KeepsItems, acknowledge-KeepsItems, acknowledge_source-KeepsItems,
}
use reinframe.Supervisor.Orchestrator.{
  Orchestrator, new_orchestrator, record_audit, clear_latch, Moments, Handled, enqueue_intervention,
  act_on, slow_input, on_signal, handle_event, after_delivery, deliver_at_safe_boundary,
  answer_delivery, after_answer, acknowledge_intervention,
}

-- Every latch names an intervention for its session that the queue holds under its id.
abbrev pub Latched : Map String → Map PendingItem → Type 0
Latched latch m =
    (session id : String)
    → lookup session latch ≡ some id
    → (iv : Intervention) × (Holds m id iv) × (iv.session_id ≡ session) × (iv.intervention_id ≡ id)

abbrev pub IsHeld : Orchestrator → Type 0
IsHeld o = Latched o.pending_latch o.del.queue.by_id

Latched-Keeps :
    (latch : Map String) (m m' : Map PendingItem) → Keeps m m' → Latched latch m → Latched latch m'
Latched-Keeps latch m m' keeps h session id at =
    let (iv, held, for_session, named) = h session id at in
    (iv, keeps id iv held, for_session, named)

Latched-insert :
    (latch : Map String) (m : Map PendingItem) (session : String) (iv : Intervention)
    → Holds m iv.intervention_id iv
    → iv.session_id ≡ session
    → Latched latch m
    → Latched (insert session iv.intervention_id latch) m
Latched-insert latch m session iv held for_session h s id at =
    elim (Bool-cases (str_eq session s)) [
      | inl e ↦
          let same : iv.intervention_id ≡ id =
            ground (arith, lookup-insert session s iv.intervention_id latch, at, e) in
          let here : session ≡ s = ground (arith, eq_iff session s) in
          (iv, subst (λ k. Holds m k iv) same held, for_session ∙ here, same)
      | inr e ↦ h s id (ground (arith, lookup-insert session s iv.intervention_id latch, at, e))
    ]

clear_latch-IsHeld :
    (session id : String) (o : Orchestrator) → IsHeld o → IsHeld (clear_latch session id o)
unfolding clear_latch
clear_latch-IsHeld session id o h = option_keeps IsHeld (lookup session o.pending_latch) h λ cur.
    if_keeps IsHeld (is_empty id || str_eq cur id)
      (λ s k at. h s k (ground (arith, lookup-remove session s o.pending_latch, at))) h

enqueue_intervention-IsHeld :
    (o : Orchestrator) (t : Moments) (session : String) (sig : TunnelSignal) (iv : Intervention)
    → iv.session_id ≡ session
    → IsHeld o
    → IsHeld (enqueue_intervention o t session sig iv).after
unfolding enqueue_intervention record_audit submit
enqueue_intervention-IsHeld o t session sig iv for_session h =
    let ttl = pos (positive_or o.del.default_ttl o.ttl) in
    let r = enqueue o.del.queue iv ttl t.enqueued in
    let stays =
      Latched-Keeps o.pending_latch o.del.queue.by_id r.0.by_id
        (enqueue-Keeps o.del.queue iv ttl t.enqueued) h in
    if_splits IsHeld (r.1.suppressed || r.1.expired) (λ _. stays)
      (λ new.
        Latched-insert o.pending_latch r.0.by_id session iv
          (enqueue-TakenIn o.del.queue iv ttl t.enqueued new) for_session stays)

act_on-IsHeld :
    (o : Orchestrator) (t : Moments) (session : String) (sig : TunnelSignal) (slow : SlowResult)
    (failed : Bool)
    → sig.session_id ≡ session
    → Suits sig slow.intervention
    → IsHeld o
    → IsHeld (act_on o t session sig slow failed).after
unfolding act_on record_audit
act_on-IsHeld o t session sig slow failed for_session suits h =
    if_keeps (λ (r : Handled). IsHeld r.after) failed h
      (elim (Option-cases slow.intervention) [
        | inl e ↦ rw e h
        | inr (iv, e) ↦
            let fit = subst (Suits sig) e suits in
            rw e (enqueue_intervention-IsHeld o t session sig iv (fit.0 ∙ for_session) h)
      ])

on_signal-IsHeld :
    (formats : Formats) (o : Orchestrator) (t : Moments) (session : String) (sig : TunnelSignal)
    → sig.session_id ≡ session
    → IsHeld o
    → IsHeld (on_signal formats o t session sig).after
unfolding on_signal record_audit
on_signal-IsHeld formats o t session sig for_session h =
    let r = evaluate_slow formats o.pol (slow_input sig) t.asked t.decided in
    let suits = (slow_outcomes formats o.pol (slow_input sig) t.asked t.decided sig refl).2 in
    act_on-IsHeld _ t session sig r.1 r.2 for_session suits h

handle_event-IsHeld :
    (lower : Char → Char) (formats : Formats) (o : Orchestrator) (event : AgentEvent) (t : Moments)
    → IsHeld o
    → IsHeld (handle_event lower formats o event t).after
unfolding handle_event
handle_event-IsHeld lower formats o event t h =
    let P = λ (r : Handled). IsHeld r.after in
    let (det, sig) = RepeatedFailure.observe lower o.det event t.detected in
    let says = observe-Signals lower o.det event t.detected in
    if_keeps P t.append_fails h (elim (Option-cases sig) [
      | inl e ↦ rw e h
      | inr (s, e) ↦
          let fit = subst (Signals event.session_id) e says in
          rw e (on_signal-IsHeld formats _ t event.session_id s fit.0 h)
    ])

after_delivery-IsHeld :
    (o : Orchestrator) (at : ℕ) (session : String) (d : Delivered)
    → Latched o.pending_latch d.delivery.queue.by_id
    → IsHeld (after_delivery o at session d)
unfolding after_delivery record_audit
after_delivery-IsHeld o at session d h = option_keeps IsHeld d.item h λ it.
    option_keeps IsHeld d.result h
      λ res. if_keeps IsHeld _ (clear_latch-IsHeld session it.intervention.intervention_id _ h) h

deliver_at_safe_boundary-IsHeld :
    (o : Orchestrator) (actuator : Actuator) (w : World) (at : ℕ) (session : String)
    → IsHeld o
    → IsHeld (deliver_at_safe_boundary o actuator w at session).0
unfolding deliver_at_safe_boundary
deliver_at_safe_boundary-IsHeld o actuator w at session h =
    after_delivery-IsHeld o at session (deliver_pending o.del actuator w session) (
      Latched-Keeps o.pending_latch o.del.queue.by_id _
        (deliver_pending-KeepsItems o.del actuator w session) h)

after_answer-IsHeld :
    (o : Orchestrator) (at : ℕ) (id : String) (status : AckStatus) (del : AdvisoryDelivery)
    → Latched o.pending_latch del.queue.by_id
    → IsHeld (after_answer o at id status del)
unfolding after_answer record_audit
after_answer-IsHeld o at id status del h =
    option_keeps IsHeld (get del.queue id) h λ it.
      if_keeps IsHeld (is_acked status) (clear_latch-IsHeld it.intervention.session_id id _ h) h

pub answer_delivery-Keeps :
    (del : AdvisoryDelivery) (io : AppendIo) (wall : ℕ) (id : String) (status : AckStatus)
    → Keeps del.queue.by_id (answer_delivery del io wall id status).0.queue.by_id
unfolding answer_delivery
answer_delivery-Keeps del io wall id status =
    if_keeps (λ (r : AdvisoryDelivery × Option AckErr). Keeps del.queue.by_id r.0.queue.by_id)
      (is_acked status) (acknowledge_source-KeepsItems del io wall _)
      (acknowledge-KeepsItems del io wall id status)

acknowledge_intervention-IsHeld :
    (o : Orchestrator) (io : AppendIo) (wall at : ℕ) (id : String) (status : AckStatus)
    → IsHeld o
    → IsHeld (acknowledge_intervention o io wall at id status).0
unfolding acknowledge_intervention
acknowledge_intervention-IsHeld o io wall at id status h =
    let r = answer_delivery o.del io wall id status in
    let stays =
      Latched-Keeps o.pending_latch o.del.queue.by_id r.0.queue.by_id
        (answer_delivery-Keeps o.del io wall id status) h in
    option_keeps (λ (r : Orchestrator × Option AckErr). IsHeld r.0) r.1
      (after_answer-IsHeld o at id status r.0 stays) (λ _. stays)

-- A call of the orchestrator, with what its surroundings answer.
pub data Call : Type 0 where
  heard : AgentEvent → Moments → Call
  reached : Actuator → World → ℕ → String → Call
  answered : AppendIo → ℕ → ℕ → String → AckStatus → Call

unfoldable pub call : (Char → Char) → Formats → Orchestrator → Call → Orchestrator
call lower formats o (heard e t) = (handle_event lower formats o e t).after
call lower formats o (reached actuator w at session) =
    (deliver_at_safe_boundary o actuator w at session).0
call lower formats o (answered io wall at id status) =
    (acknowledge_intervention o io wall at id status).0

call-IsHeld :
    (lower : Char → Char) (formats : Formats) (o : Orchestrator) (c : Call)
    → IsHeld o
    → IsHeld (call lower formats o c)
unfolding call
call-IsHeld lower formats o (heard e t) = handle_event-IsHeld lower formats o e t
call-IsHeld lower formats o (reached actuator w at session) =
    deliver_at_safe_boundary-IsHeld o actuator w at session
call-IsHeld lower formats o (answered io wall at id status) =
    acknowledge_intervention-IsHeld o io wall at id status

unfoldable pub run : (Char → Char) → Formats → Orchestrator → List Call → Orchestrator
run lower formats o [] = o
run lower formats o (c ∷ cs) = run lower formats (call lower formats o c) cs

run-IsHeld :
    (lower : Char → Char) (formats : Formats) (o : Orchestrator) (cs : List Call)
    → IsHeld o
    → IsHeld (run lower formats o cs)
unfolding run
run-IsHeld lower formats o [] h = h
run-IsHeld lower formats o (c ∷ cs) h =
    run-IsHeld lower formats (call lower formats o c) cs (call-IsHeld lower formats o c h)

-- Whatever events are handled, boundaries are served and interventions answered after the
-- orchestrator is new, each of its latches names an intervention for the latch's own session that the
-- delivery's queue holds.
pub latches-IsHeld :
    (lower : Char → Char) (formats : Formats) (det : RepeatedFailureDetector) (pol : Engine)
    (del : AdvisoryDelivery) (ttl : ℤ) (base : HookPolicy) (cs : List Call)
    → IsHeld (run lower formats (new_orchestrator det pol del ttl base) cs)
unfolding new_orchestrator lookup
latches-IsHeld lower formats det pol del ttl base cs =
    run-IsHeld lower formats (new_orchestrator det pol del ttl base) cs (λ session id at. cc)
