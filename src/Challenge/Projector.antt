-- ===== src/Challenge/Projector.antt =====
-- pkg/challenge/projector.go, and Replay of pkg/challenge/store.go: a record from the events of its
-- challenge. A time is zero where Go's `IsZero` holds. The schema version, a constant, is left out.
pub mod Ended
pub mod Steps
pub mod Matching
pub mod Live
mod Tests
use reinframe.Prelude.{
  ℕ, ◌-◌, String, Bool, true, false, not, ◌&&◌, ◌||◌, ◌==◌, List, [], ◌∷◌, is_empty, str_eq,
  if◌then◌else◌, Result, ok, err, ◌>>=◌, ◌>>◌, ensure,
}
use reinframe.Challenge.States.{ChallengeState, is_terminal, validate_transition}
use reinframe.Challenge.Store.{ChallengeRecord, ChallengeEvent, Decision}

-- The text of a state.
abbrev pub state_text : ChallengeState → String
state_text ChallengeState.unset = ""
state_text ChallengeState.opened = "OPEN"
state_text ChallengeState.justified = "JUSTIFIED"
state_text ChallengeState.retry_pending = "RETRY_PENDING"
state_text ChallengeState.allowed_once = "ALLOWED_ONCE"
state_text ChallengeState.rejected = "REJECTED"
state_text ChallengeState.human_review = "HUMAN_REVIEW"
state_text ChallengeState.abandoned = "ABANDONED"
state_text ChallengeState.expired = "EXPIRED"

unfoldable pub same_state : ChallengeState → ChallengeState → Bool
same_state a b = str_eq (state_text a) (state_text b)

unfoldable pub is_unset : ChallengeState → Bool
is_unset st = same_state st ChallengeState.unset

pub data ReplayError : Type 0 where
  unknown_type invalid_transition no_events : ReplayError

-- The budget of a record that is opened, unless it has one or is for a human to review.
unfoldable pub default_budget : ChallengeRecord → ChallengeRecord
default_budget rec =
    if rec.retry_budget_initial == 0
      && rec.retry_budget == 0
      && not (str_eq rec.appealability "HUMAN_REVIEW")
    then record rec { retry_budget = 1; retry_budget_initial = 1 }
    else rec

-- The case "opened".
unfoldable pub project_opened : ChallengeRecord → ChallengeEvent → ChallengeRecord
unfolding default_budget
project_opened rec ev =
    let budgeted = default_budget rec in
    record budgeted {
      state = ChallengeState.opened;
      stage2_decision = Decision.block;
      intervention = if is_empty rec.intervention then "APPEALABLE_CHALLENGE" else rec.intervention;
      created_sequence = if rec.created_sequence == 0 then ev.sequence else rec.created_sequence;
      created_at = if rec.created_at == 0 then ev.at else rec.created_at;
    }

-- The case "budget_consumed".
unfoldable pub project_consumed : ChallengeRecord → ChallengeEvent → ChallengeRecord
project_consumed rec ev = record rec {
  retry_budget = rec.retry_budget - 1;
  state = if is_unset ev.to_state then ChallengeState.retry_pending else ev.to_state;
}

-- The switch over the type of the event.
unfoldable pub project : ChallengeRecord → ChallengeEvent → Result ReplayError ChallengeRecord
unfolding project_opened project_consumed
project rec ev =
    if str_eq ev.kind "opened"
    then ok (project_opened rec ev)
    else if str_eq ev.kind "justified"
    then ok (record rec { state = ChallengeState.justified })
    else if str_eq ev.kind "budget_consumed"
    then ok (project_consumed rec ev)
    else if str_eq ev.kind "retry_pending"
    then ok (record rec { state = ChallengeState.retry_pending })
    else if str_eq ev.kind "allowed_once"
    then ok (record rec {
      state = ChallengeState.allowed_once;
      stage2_decision = Decision.allow;
      intervention = "none";
    })
    else if str_eq ev.kind "rejected"
    then ok (record rec { state = ChallengeState.rejected; stage2_decision = Decision.block })
    else if str_eq ev.kind "human_review"
    then ok (record rec {
      state = ChallengeState.human_review;
      stage2_decision = Decision.block;
      intervention = "HUMAN_REVIEW";
      retry_budget = 0;
    })
    else if str_eq ev.kind "abandoned"
    then ok (record rec { state = ChallengeState.abandoned })
    else if str_eq ev.kind "expired"
    then ok (record rec { state = ChallengeState.expired })
    else if is_unset ev.to_state
    then err unknown_type
    else ok (record rec { state = ev.to_state })

-- What is written after the switch.
unfoldable pub stamp : ChallengeEvent → ChallengeRecord → ChallengeRecord
stamp ev rec = record rec {
  updated_sequence = ev.sequence;
  updated_at = ev.at;
  provider_call_audit_id =
      if is_empty ev.provider_call_audit_id
      then rec.provider_call_audit_id
      else ev.provider_call_audit_id;
}

-- `ApplyEvent`
unfoldable pub apply_event : ChallengeRecord → ChallengeEvent → Result ReplayError ChallengeRecord
apply_event rec ev =
    if not (is_unset rec.state)
      && same_state rec.state ev.to_state
      && not (str_eq ev.kind "budget_consumed")
    then ok (record rec { updated_sequence = ev.sequence; updated_at = ev.at })
    else project rec ev >>= λ r. ok (stamp ev r)

-- The record takes the names of its first event, if it has none.
unfoldable pub named : Bool → ChallengeRecord → ChallengeEvent → ChallengeRecord
named applied rec ev =
    if not applied && is_empty rec.challenge_id
    then record rec { challenge_id = ev.challenge_id; session_id = ev.session_id }
    else rec

-- The event would revive a challenge that has ended.
unfoldable pub is_revival : ChallengeRecord → ChallengeEvent → Bool
is_revival rec ev =
    is_terminal rec.state
    && not (same_state ev.to_state rec.state)
    && (same_state rec.state ChallengeState.expired || not (same_state ev.from_state rec.state))

-- The budget that is set before the first event opens the record.
unfoldable pub seeded : ChallengeRecord → ChallengeEvent → ChallengeRecord
seeded rec ev =
    if is_unset rec.state && same_state ev.to_state ChallengeState.opened
    then default_budget rec
    else rec

-- One round of the loop of `Replay` over an event of the challenge; the flag is `applied`.
unfoldable pub replay_event :
    Bool → ChallengeRecord → ChallengeEvent → Result ReplayError (Bool × ChallengeRecord)
unfolding is_revival seeded
replay_event applied rec ev =
    if is_revival rec ev
    then ok (applied, rec)
    else if not (validate_transition rec.state ev.to_state) && applied && not (is_unset rec.state)
    then err invalid_transition
    else apply_event (seeded rec ev) ev >>= λ next. ok (true, next)

-- The round, which passes over the events of other challenges.
unfoldable pub replay_one :
    String → Bool × ChallengeRecord → ChallengeEvent → Result ReplayError (Bool × ChallengeRecord)
unfolding named
replay_one id at ev =
    if not (is_empty id) && not (str_eq ev.challenge_id id)
    then ok at
    else replay_event at.0 (named at.0 at.1 ev) ev

unfoldable pub replay_each :
    String
    → Bool × ChallengeRecord
    → List ChallengeEvent
    → Result ReplayError (Bool × ChallengeRecord)
replay_each id at [] = ok at
replay_each id at (ev ∷ evs) = replay_one id at ev >>= λ next. replay_each id next evs

-- `Replay`
unfoldable pub replay : List ChallengeEvent → ChallengeRecord → Result ReplayError ChallengeRecord
replay evs seed = do
  end ← replay_each seed.challenge_id (false, seed) evs
  ensure end.0 no_events
  ok end.1
