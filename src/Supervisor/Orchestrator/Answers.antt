-- ===== src/Supervisor/Orchestrator/Answers.antt =====
-- Acknowledge and EvaluatePreTool of pkg/supervisor/orchestrator.go: what holds tools back, and what
-- lets them go on.
use reinframe.Prelude.{
  ℕ, String, true, false, none, some, lookup, lookup-remove, ne→not-is_empty, ap, ◌≡◌, ◌≢◌, refl,
  ◌∙◌, arith, Bool-cases, Option-cases, inl, inr, eq_iff, eq_refl, sym, subst,
}
use reinframe.Adapter.Delivery.{Intervention, AckStatus}
use reinframe.Adapter.PendingQueue.{get}
use reinframe.Adapter.PendingQueue.Keeping.{Holds}
use reinframe.Adapter.HookGate.{
  HookRequest, HookPolicy, PathOps, Schedule, evaluate_hook, allow, defer,
}
use reinframe.Adapter.HookGate.Rules.{Blocked, evaluate_hook_rules_cases}
use reinframe.Adapter.HookGate.Timing.{evaluate_hook_timing}
use reinframe.Adapter.HookGate.Reasons.{IsPrompt}
use reinframe.Adapter.Ledger.{AppendIo}
use reinframe.Adapter.Advisory.{AdvisoryDelivery}
use reinframe.Adapter.Advisory.Acks.{is_acked}
use reinframe.Supervisor.Orchestrator.{
  Orchestrator, record_audit, clear_latch, hook_policy_for, evaluate_pre_tool, answer_delivery,
  after_answer, acknowledge_intervention,
}
use reinframe.Supervisor.Orchestrator.Latches.{IsHeld, answer_delivery-Keeps}

abbrev pub with_pending : HookPolicy → String → HookPolicy
with_pending p id = record p { pending_advisory_intervention_id = id }

hook_policy_for-latched :
    (o : Orchestrator) (session id : String)
    → lookup session o.pending_latch ≡ some id
    → id ≢ ""
    → hook_policy_for o session ≡ with_pending o.base_policy id
unfolding hook_policy_for
hook_policy_for-latched o session id at named =
    let e = ne→not-is_empty id named in rw (at, hook_policy_for, e) refl

-- The advice that is pending blocks nothing.
blocked_without :
    (ops : PathOps) (req : HookRequest) (p : HookPolicy) (id : String)
    → Blocked ops req (with_pending p id)
    → Blocked ops req p
blocked_without ops req p id (Blocked.latched h) = Blocked.latched h
blocked_without ops req p id (Blocked.over_budget h) = Blocked.over_budget h
blocked_without ops req p id (Blocked.has_reason r named at given) =
    Blocked.has_reason r named at given
blocked_without ops req p id (Blocked.listed named at) = Blocked.listed named at
blocked_without ops req p id (Blocked.strays given out) = Blocked.strays given out

abbrev Waits : PathOps → Schedule → HookRequest → HookPolicy → HookPolicy → String → Type 0
Waits ops t req base p id =
    ((evaluate_hook ops t req p).action ≢ allow)
    × (IsPrompt t
        → ¬ Blocked ops req base
        → ((evaluate_hook ops t req p).action ≡ defer)
          × ((evaluate_hook ops t req p).intervention_id ≡ id))

with_pending-Waits :
    (ops : PathOps) (t : Schedule) (req : HookRequest) (p : HookPolicy) (id : String)
    → p.fail_open ≡ false
    → id ≢ ""
    → Waits ops t req p (with_pending p id) id
with_pending-Waits ops t req p id closed named =
    let p' = with_pending p id in
    let timing = evaluate_hook_timing ops req p' t in
    let rules = evaluate_hook_rules_cases ops req p' in
    (
      (λ h. absurd (named ((rules.2.0 (timing.0 closed h)).1))),
      (λ calm free.
          let same = timing.2 calm.0 calm.1 calm.2 calm.3 in
          let deferred = rules.1.1 ((λ b. free (blocked_without ops req p id b)), named) in
          (
            ap (λ d. d.action) same ∙ deferred,
            ap (λ d. d.intervention_id) same ∙ rules.3 deferred,
          )),
    )

-- While the session's latch names advice, a fail-closed gate allows it no tool, whatever the timing.
-- A call that nothing interrupts and that the base policy does not block is deferred, and the answer
-- names that advice.
pub pre_tool_latched :
    (ops : PathOps) (t : Schedule) (o : Orchestrator) (req : HookRequest) (id : String)
    → lookup req.session_id o.pending_latch ≡ some id
    → id ≢ ""
    → o.base_policy.fail_open ≡ false
    → ((evaluate_pre_tool ops t o req).action ≢ allow)
      × (IsPrompt t
          → ¬ Blocked ops req o.base_policy
          → ((evaluate_pre_tool ops t o req).action ≡ defer)
            × ((evaluate_pre_tool ops t o req).intervention_id ≡ id))
unfolding evaluate_pre_tool
pre_tool_latched ops t o req id at named closed =
    subst (λ p. Waits ops t req o.base_policy p id)
      (sym (hook_policy_for-latched o req.session_id id at named))
      (with_pending-Waits ops t req o.base_policy id closed named)

-- The latches after the answer `status` to `id`.
record Released (o o' : Orchestrator) (id : String) (status : AckStatus) : Type 0 where
  acked :
      is_acked status ≡ true
      → (session : String) → lookup session o.pending_latch ≡ some id
      → lookup session o'.pending_latch ≡ none
  others :
      id ≢ ""
      → (session : String) → lookup session o.pending_latch ≢ some id
      → lookup session o'.pending_latch ≡ lookup session o.pending_latch
  kept : is_acked status ≡ false → o'.pending_latch ≡ o.pending_latch
  base : o'.base_policy ≡ o.base_policy

clear_latch-gone :
    (session id s : String) (o : Orchestrator)
    → session ≡ s
    → lookup s o.pending_latch ≡ some id
    → lookup s (clear_latch session id o).pending_latch ≡ none
unfolding clear_latch
clear_latch-gone session id s o here at =
    ground (arith, lookup-remove session s o.pending_latch, eq_iff session s, eq_refl id, here, at)

clear_latch-base :
    (session id : String) (o : Orchestrator)
    → (clear_latch session id o).base_policy ≡ o.base_policy
unfolding clear_latch
clear_latch-base session id o = ground arith

clear_latch-others :
    (session id s : String) (o : Orchestrator)
    → id ≢ ""
    → lookup s o.pending_latch ≢ some id
    → lookup s (clear_latch session id o).pending_latch ≡ lookup s o.pending_latch
unfolding clear_latch
clear_latch-others session id s o named not_at =
    elim (Option-cases (lookup session o.pending_latch)) [
      | inl e ↦ rw (e, clear_latch) refl
      | inr (cur, e) ↦
          let filled = ne→not-is_empty id named in
          ground (arith, lookup-remove session s o.pending_latch, eq_iff cur id, eq_iff session s)
    ]

-- The queue's item for `id` is for the session of each latch that names `id`.
after_answer-Released :
    (o : Orchestrator) (at : ℕ) (id : String) (status : AckStatus) (del : AdvisoryDelivery)
    → ((session : String)
        → lookup session o.pending_latch ≡ some id
        → (iv : Intervention) × Holds del.queue.by_id id iv × (iv.session_id ≡ session))
    → Released o (after_answer o at id status del) id status
unfolding after_answer record_audit get
after_answer-Released o at id status del held = elim (Option-cases (lookup id del.queue.by_id)) [
  | inl e ↦
      rw (e, after_answer)
        (record {
          acked =
              λ a session latched. let (iv, (it, found, for_iv), to) = held session latched in cc;
          others = λ named s h. refl;
          kept = λ h. refl;
          base = refl;
        })
  | inr (it, e) ↦ elim (Bool-cases (is_acked status)) [
    | inr not_so ↦
        rw (e, after_answer, not_so)
          (record {
            acked = λ a session latched. cc;
            others = λ named s h. refl;
            kept = λ h. refl;
            base = refl;
          })
    | inl is ↦
        let session = it.intervention.session_id in
        rw (e, after_answer, is)
          (record {
            acked = λ a s latched.
                let (iv, (it', found, for_iv), to) = held s latched in
                let here : session ≡ s = cc in clear_latch-gone session id s _ here latched;
            others = λ named s h. clear_latch-others session id s _ named h;
            kept = λ h. cc;
            base = clear_latch-base session id _;
          })
  ]
]

-- A refused answer leaves every latch, and so does an answer other than `acked`. An `acked` one that
-- is taken removes the latches on its intervention, so that the base policy alone decides on the tools
-- of those sessions; it leaves the latches on other interventions.
pub acknowledge-latches :
    (o : Orchestrator) (io : AppendIo) (wall at : ℕ) (id : String) (status : AckStatus)
    → IsHeld o
    → let (o', failed) = acknowledge_intervention o io wall at id status in
      (failed ≢ none → o'.pending_latch ≡ o.pending_latch)
      × (is_acked status ≡ false → o'.pending_latch ≡ o.pending_latch)
      × (is_acked status ≡ true
          → failed ≡ none
          → (session : String) → lookup session o.pending_latch ≡ some id
          → hook_policy_for o' session ≡ o.base_policy)
      × (id ≢ ""
          → (session : String) → lookup session o.pending_latch ≢ some id
          → lookup session o'.pending_latch ≡ lookup session o.pending_latch)
unfolding acknowledge_intervention hook_policy_for
acknowledge-latches o io wall at id status held =
    let r = answer_delivery o.del io wall id status in
    elim (Option-cases r.1) [
      | inr (err, e) ↦
          rw (e, acknowledge_intervention)
            ((λ h. refl), (λ h. refl), (λ a none_failed. cc), (λ named s h. refl))
      | inl e ↦
          let released = after_answer-Released o at id status r.0 (λ session latched.
            let (iv, there, to, named) = held session id latched in
            (iv, answer_delivery-Keeps o.del io wall id status id iv there, to)) in
          rw (e, acknowledge_intervention)
            (
              (λ h. absurd (h refl)),
              released.kept,
              (λ a fine session latched.
                  rw (released.acked a session latched, hook_policy_for) released.base),
              released.others,
            )
    ]
