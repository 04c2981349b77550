-- ===== src/Challenge/Projector/Matching.antt =====
-- One event: ApplyEvent and Replay of pkg/challenge against appendTransitionAudit.
use reinframe.Prelude.{
  arith, ◌+◌, String, Bool, true, false, not, ◌&&◌, ◌==◌, is_empty, str_eq, if_splits, ok, eq_iff,
  ◌≡◌, refl, sym, ◌∙◌,
}
use reinframe.Challenge.States.{ChallengeState, is_terminal, validate_transition}
use reinframe.Challenge.Store.{ChallengeRecord, ChallengeEvent, Decision, Store, Transition, moved}
use reinframe.Challenge.Projector.{
  same_state, is_unset, is_revival, seeded, named, default_budget, project_opened, project_consumed,
  project, stamp, apply_event, replay_event, replay_one,
}
use reinframe.Challenge.Projector.Steps.{
  kind_of, is_step, step_is_set, step_is_live, step-differs, step_is_valid,
}

-- What a replay and the live record have in common.
pub record Matches (a b : ChallengeRecord) : Type 0 where
  pub state : a.state ≡ b.state
  pub sequence : a.updated_sequence ≡ b.updated_sequence
  pub time : a.updated_at ≡ b.updated_at
  pub audit : a.provider_call_audit_id ≡ b.provider_call_audit_id

true_not_false : is_unset ChallengeState.unset ≡ false → ⊥
unfolding is_unset same_state
true_not_false e = cc

default_budget-audit :
    (rec : ChallengeRecord)
    → (default_budget rec).provider_call_audit_id ≡ rec.provider_call_audit_id
unfolding default_budget
default_budget-audit rec =
    if_splits (λ (r : ChallengeRecord). r.provider_call_audit_id ≡ rec.provider_call_audit_id)
      (rec.retry_budget_initial == 0
        && rec.retry_budget == 0
        && not (str_eq rec.appealability "HUMAN_REVIEW"))
      (λ _. refl) (λ _. refl)

-- What the switch makes of an event that the service writes.
abbrev pub Projected : ChallengeRecord → ChallengeEvent → ChallengeRecord → Type 0
Projected rec ev out =
    (project rec ev ≡ ok out)
    × ((out.state ≡ ev.to_state) × (out.provider_call_audit_id ≡ rec.provider_call_audit_id))

pub project-kind :
    (rec : ChallengeRecord) (ev : ChallengeEvent) (to : ChallengeState)
    → ev.to_state ≡ to
    → ev.kind ≡ kind_of to
    → is_unset to ≡ false
    → (out : ChallengeRecord) × Projected rec ev out
unfolding project project_opened project_consumed default_budget
project-kind rec ev ChallengeState.unset e k set = absurd (true_not_false set)
project-kind rec ev ChallengeState.opened e k set =
    (project_opened rec ev, (rw k refl, (sym e, default_budget-audit rec)))
project-kind rec ev ChallengeState.justified e k set =
    (record rec { state = ChallengeState.justified }, (rw k refl, (sym e, refl)))
project-kind rec ev ChallengeState.retry_pending e k set =
    let to_set : is_unset ev.to_state ≡ false = rw e set in
    (project_consumed rec ev, (rw k refl, (rw to_set refl, refl)))
project-kind rec ev ChallengeState.allowed_once e k set = (
  record rec {
    state = ChallengeState.allowed_once;
    stage2_decision = Decision.allow;
    intervention = "none";
  },
  (rw k refl, (sym e, refl)),
)
project-kind rec ev ChallengeState.rejected e k set = (
  record rec { state = ChallengeState.rejected; stage2_decision = Decision.block },
  (rw k refl, (sym e, refl)),
)
project-kind rec ev ChallengeState.human_review e k set = (
  record rec {
    state = ChallengeState.human_review;
    stage2_decision = Decision.block;
    intervention = "HUMAN_REVIEW";
    retry_budget = 0;
  },
  (rw k refl, (sym e, refl)),
)
project-kind rec ev ChallengeState.abandoned e k set =
    (record rec { state = ChallengeState.abandoned }, (rw k refl, (sym e, refl)))
project-kind rec ev ChallengeState.expired e k set =
    (record rec { state = ChallengeState.expired }, (rw k refl, (sym e, refl)))

-- A record that `Replay` applies the event to.
seeded-state : (rec : ChallengeRecord) (ev : ChallengeEvent) → (seeded rec ev).state ≡ rec.state
unfolding seeded default_budget
seeded-state rec ev =
    if_splits (λ (r : ChallengeRecord). r.state ≡ rec.state)
      (is_unset rec.state && same_state ev.to_state ChallengeState.opened)
      (λ _.
        if_splits (λ (r : ChallengeRecord). r.state ≡ rec.state)
          (rec.retry_budget_initial == 0
            && rec.retry_budget == 0
            && not (str_eq rec.appealability "HUMAN_REVIEW"))
          (λ _. refl) (λ _. refl))
      (λ _. refl)

seeded-audit :
    (rec : ChallengeRecord) (ev : ChallengeEvent)
    → (seeded rec ev).provider_call_audit_id ≡ rec.provider_call_audit_id
unfolding seeded
seeded-audit rec ev =
    if_splits (λ (r : ChallengeRecord). r.provider_call_audit_id ≡ rec.provider_call_audit_id)
      (is_unset rec.state && same_state ev.to_state ChallengeState.opened)
      (λ _. default_budget-audit rec) (λ _. refl)

-- The event that `appendTransitionAudit` writes.
abbrev pub written : Store → ChallengeRecord → Transition → ChallengeEvent
written s rec t = record {
  sequence = s.seq + 1;
  challenge_id = rec.challenge_id;
  session_id = rec.session_id;
  kind = t.kind;
  from_state = t.from;
  to_state = t.to;
  correlation_id = t.corr;
  causation_id = t.cause;
  payload_hash = t.payload_hash;
  provider_call_audit_id = t.audit_id;
  note = t.note;
  at = t.at;
}

and_false : (x y : Bool) → (x && false && y) ≡ false
and_false true y = refl
and_false false y = refl

apply_event-Matches :
    (s : Store) (a rec : ChallengeRecord) (t : Transition)
    → Matches a rec
    → t.kind ≡ kind_of t.to
    → is_step rec.state t.to ≡ true
    → (out : ChallengeRecord) × ((apply_event (seeded a (written s rec t)) (written s rec t)
          ≡ ok out)
        × Matches out (moved s rec t))
unfolding apply_event stamp
apply_event-Matches s a rec t m k h =
    let ev = written s rec t in
    let r = seeded a ev in
    let here : r.state ≡ rec.state = seeded-state a ev ∙ m.state in
    let differs : same_state r.state t.to ≡ false = rw here (step-differs rec.state t.to h) in
    let (out, (e, (to, kept))) = project-kind r ev t.to refl k (step_is_set rec.state t.to h) in
    let same = kept ∙ seeded-audit a ev ∙ m.audit in
    (
      stamp ev out,
      (
        rw
            (
              apply_event,
              differs,
              e,
              and_false (not (is_unset r.state)) (not (str_eq t.kind "budget_consumed")),
            )
            refl,
        record { state = to; sequence = refl; time = refl; audit = rw same refl },
      ),
    )

replay_event-Matches :
    (s : Store) (b : Bool) (a rec : ChallengeRecord) (t : Transition)
    → Matches a rec
    → t.kind ≡ kind_of t.to
    → is_step rec.state t.to ≡ true
    → (out : ChallengeRecord) × ((replay_event b a (written s rec t) ≡ ok (true, out))
        × Matches out (moved s rec t))
unfolding replay_event is_revival
replay_event-Matches s b a rec t m k h =
    let ev = written s rec t in
    let (out, (e, matches)) = apply_event-Matches s a rec t m k h in
    let ended : is_terminal a.state ≡ false = rw m.state (step_is_live rec.state t.to h) in
    let valid : (not (validate_transition a.state t.to) && not (is_unset a.state)) ≡ false =
      rw m.state (step_is_valid rec.state t.to h) in
    let passes : (not (validate_transition a.state t.to) && b && not (is_unset a.state)) ≡ false =
      ground (arith, valid) in
    (out, (rw (replay_event, ended, passes, e) refl, matches))

named-Matches :
    (b : Bool) (a rec : ChallengeRecord) (ev : ChallengeEvent)
    → Matches a rec
    → Matches (named b a ev) rec
unfolding named
named-Matches b a rec ev m =
    if_splits (λ (r : ChallengeRecord). Matches r rec) (not b && is_empty a.challenge_id)
      (λ _. record { state = m.state; sequence = m.sequence; time = m.time; audit = m.audit })
      (λ _. m)

pub replay_one-Matches :
    (id : String) (s : Store) (at : Bool × ChallengeRecord) (rec : ChallengeRecord) (t : Transition)
    → rec.challenge_id ≡ id
    → Matches at.1 rec
    → t.kind ≡ kind_of t.to
    → is_step rec.state t.to ≡ true
    → (out : ChallengeRecord) × ((replay_one id at (written s rec t) ≡ ok (true, out))
        × Matches out (moved s rec t))
unfolding replay_one
replay_one-Matches id s at rec t own m k h =
    let ev = written s rec t in
    let named_so : str_eq rec.challenge_id id ≡ true = (eq_iff rec.challenge_id id).1 own in
    let passes : (not (is_empty id) && not (str_eq rec.challenge_id id)) ≡ false =
      ground (arith, named_so) in
    let (out, (e, matches)) =
      replay_event-Matches s at.0 (named at.0 at.1 ev) rec t (named-Matches at.0 at.1 rec ev m) k
        h in
    (out, (rw (replay_one, passes) e, matches))
