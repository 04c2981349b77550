-- ===== src/Challenge/Projector/Tests.antt =====
-- Replay of pkg/challenge at concrete events.
use reinframe.Prelude.{none, ℕ, true, String, List, [], ◌∷◌, ◌++◌, ◌≡◌, refl, ok, err}
use reinframe.Challenge.States.{ChallengeState, is_terminal, validate_transition}
use reinframe.Challenge.Store.{ChallengeRecord, ChallengeEvent, Decision, Transition, new_store}
use reinframe.Challenge.Projector.{
  is_unset, same_state, default_budget, project_opened, project_consumed, project, stamp,
  apply_event, named, is_revival, seeded, replay_event, replay_one, replay_each, replay, no_events,
  unknown_type,
}
use reinframe.Challenge.Projector.Steps.{IsChain}
use reinframe.Challenge.Projector.Matching.{Matches}
use reinframe.Challenge.Projector.Live.{live, replay-live}
use reinframe.Challenge.Projector.Ended.{SameOutcome, replay-keeps_ended}

abbrev seed : ChallengeRecord
seed = record {
  challenge_id = "";
  challenge_nonce = "";
  suggested_fix = "";
  session_id = "";
  action_fingerprint = "fp";
  original_action_id = "";
  policy_class = "";
  block_class = "";
  reason_code = "";
  required_claims = [];
  retry_budget = 0;
  retry_budget_initial = 0;
  state = ChallengeState.unset;
  appealability = "";
  intervention = "";
  stage2_decision = Decision.undecided;
  workspace_revision = "";
  contract_revision = 0;
  branch = "";
  side_effect_class = "";
  target_resources = [];
  policy_version = "";
  ruleset_hash = "";
  policy_hash = "";
  justification_hash = "";
  consumed_retry_key = "";
  operation_digest = "";
  expires_at_sequence = 0;
  created_sequence = 0;
  updated_sequence = 0;
  provider_call_audit_id = "";
  created_at = 0;
  updated_at = 0;
}

abbrev event : ℕ → String → ChallengeState → ChallengeState → ChallengeEvent
event n kind from to = record {
  sequence = n;
  challenge_id = "ch";
  session_id = "s";
  kind = kind;
  from_state = from;
  to_state = to;
  correlation_id = "";
  causation_id = "";
  payload_hash = "";
  provider_call_audit_id = "";
  note = "";
  at = n;
}

abbrev retried : List ChallengeEvent
retried =
    event 1 "opened" ChallengeState.unset ChallengeState.opened
    ∷ event 2 "justified" ChallengeState.opened ChallengeState.justified
    ∷ event 3 "budget_consumed" ChallengeState.justified ChallengeState.retry_pending
    ∷ event 4 "allowed_once" ChallengeState.retry_pending ChallengeState.allowed_once
    ∷ []

-- The expiry that comes late does not count.
abbrev late : List ChallengeEvent
late =
    event 5 "expired" ChallengeState.retry_pending ChallengeState.expired
    ∷ event 6 "allowed_once" ChallengeState.retry_pending ChallengeState.allowed_once
    ∷ []

abbrev allowed : ℕ → ChallengeRecord
allowed n = record seed {
  challenge_id = "ch";
  session_id = "s";
  state = ChallengeState.allowed_once;
  stage2_decision = Decision.allow;
  intervention = "none";
  retry_budget_initial = 1;
  created_sequence = 1;
  created_at = 1;
  updated_sequence = n;
  updated_at = n;
}

replays : replay retried seed ≡ ok (allowed 4)
unfolding replay replay_each replay_one replay_event named is_revival seeded default_budget
    apply_event project project_opened project_consumed stamp is_unset same_state is_terminal
    validate_transition
replays = refl

replays_late : replay (retried ++ late) seed ≡ ok (allowed 6)
unfolding replay replay_each replay_one replay_event named is_revival seeded default_budget
    apply_event project project_opened project_consumed stamp is_unset same_state is_terminal
    validate_transition
replays_late = refl

replays_nothing : replay [] seed ≡ err no_events
unfolding replay replay_each replay_one replay_event named is_revival seeded default_budget
    apply_event project project_opened project_consumed stamp is_unset same_state is_terminal
    validate_transition
replays_nothing = refl

refuses_unknown :
    replay (event 1 "reopened" ChallengeState.unset ChallengeState.unset ∷ []) seed
    ≡ err unknown_type
unfolding replay replay_each replay_one replay_event named is_revival seeded default_budget
    apply_event project project_opened project_consumed stamp is_unset same_state is_terminal
    validate_transition
refuses_unknown = refl

ended : is_terminal (allowed 4).state ≡ true
unfolding is_terminal
ended = refl

replay-keeps_ended_example : SameOutcome (allowed 4) (allowed 6)
replay-keeps_ended_example =
    replay-keeps_ended seed retried late (allowed 4) (allowed 6) replays ended replays_late

abbrev change : String → ChallengeState → ChallengeState → Transition
change kind from to = record {
  from = from;
  to = to;
  kind = kind;
  corr = "";
  cause = "";
  payload_hash = "";
  note = "";
  audit_id = "call";
  at = 7;
  just = none;
}

abbrev opening : Transition
opening = change "opened" ChallengeState.unset ChallengeState.opened

abbrev later : List Transition
later =
    change "justified" ChallengeState.opened ChallengeState.justified
    ∷ change "budget_consumed" ChallengeState.justified ChallengeState.retry_pending
    ∷ change "allowed_once" ChallengeState.retry_pending ChallengeState.allowed_once
    ∷ []

abbrev first : ChallengeRecord
first = record seed { challenge_id = "ch" }

goes_on : IsChain first.state (opening ∷ later)
unfolding validate_transition is_unset same_state
goes_on = (refl, (refl, (refl, (refl, (refl, (refl, (refl, (refl, tt))))))))

replay-live_example :
    (out : ChallengeRecord) × ((replay (live new_store first (opening ∷ later)).0.events first
        ≡ ok out)
      × Matches out (live new_store first (opening ∷ later)).1)
replay-live_example = replay-live new_store first opening later refl tt goes_on
