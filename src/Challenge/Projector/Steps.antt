-- ===== src/Challenge/Projector/Steps.antt =====
-- The changes of state of a challenge as pkg/challenge/service.go writes them.
use reinframe.Prelude.{
  arith, String, Bool, Bool-cases, true, false, not, ◌&&◌, ◌||◌, List, [], ◌∷◌, ◌≡◌, refl, inl, inr,
}
use reinframe.Challenge.States.{ChallengeState, is_terminal, validate_transition}
use reinframe.Challenge.States.Paths.{terminal_step}
use reinframe.Challenge.Store.{Transition}
use reinframe.Challenge.Projector.{same_state, is_unset}
use reinframe.Challenge.Projector.Ended.{same_state_refl, terminal_is_set}

-- The type that the service gives an event that leads to the state.
abbrev pub kind_of : ChallengeState → String
kind_of ChallengeState.unset = ""
kind_of ChallengeState.opened = "opened"
kind_of ChallengeState.justified = "justified"
kind_of ChallengeState.retry_pending = "budget_consumed"
kind_of ChallengeState.allowed_once = "allowed_once"
kind_of ChallengeState.rejected = "rejected"
kind_of ChallengeState.human_review = "human_review"
kind_of ChallengeState.abandoned = "abandoned"
kind_of ChallengeState.expired = "expired"

-- A change of state that the table allows, or that opens a challenge for a human to review.
abbrev pub is_step : ChallengeState → ChallengeState → Bool
is_step a b =
    (validate_transition a b || is_unset a && same_state b ChallengeState.human_review)
    && not (same_state a b)

-- Changes of state one after another, named as the service names them.
abbrev pub IsChain : ChallengeState → List Transition → Type 0
IsChain st [] = Unit {0}
IsChain st (t ∷ ts) = (t.kind ≡ kind_of t.to) × ((is_step st t.to ≡ true) × IsChain t.to ts)

unset_same : (b : ChallengeState) → is_unset b ≡ true → b ≡ ChallengeState.unset
unfolding is_unset same_state
unset_same ChallengeState.unset h = refl
unset_same ChallengeState.opened h = cc
unset_same ChallengeState.justified h = cc
unset_same ChallengeState.retry_pending h = cc
unset_same ChallengeState.allowed_once h = cc
unset_same ChallengeState.rejected h = cc
unset_same ChallengeState.human_review h = cc
unset_same ChallengeState.abandoned h = cc
unset_same ChallengeState.expired h = cc

not_to_unset : (a : ChallengeState) → validate_transition a ChallengeState.unset ≡ false
unfolding validate_transition
not_to_unset ChallengeState.unset = refl
not_to_unset ChallengeState.opened = refl
not_to_unset ChallengeState.justified = refl
not_to_unset ChallengeState.retry_pending = refl
not_to_unset ChallengeState.allowed_once = refl
not_to_unset ChallengeState.rejected = refl
not_to_unset ChallengeState.human_review = refl
not_to_unset ChallengeState.abandoned = refl
not_to_unset ChallengeState.expired = refl

unset_not_reviewed : same_state ChallengeState.unset ChallengeState.human_review ≡ false
unfolding same_state
unset_not_reviewed = refl

pub step_is_set : (a b : ChallengeState) → is_step a b ≡ true → is_unset b ≡ false
step_is_set a b h = elim (Bool-cases (is_unset b)) [
  | inl e ↦ absurd (ground (arith, rw (unset_same b e) at h, not_to_unset a, unset_not_reviewed))
  | inr e ↦ e
]

pub step_is_live : (a b : ChallengeState) → is_step a b ≡ true → is_terminal a ≡ false
step_is_live a b h = elim (Bool-cases (is_terminal a)) [
  | inl e ↦
      let set = terminal_is_set a e in
      let valid : validate_transition a b ≡ true = ground (arith, h, set) in
      absurd (ground (arith, rw (terminal_step a b e valid) at h, same_state_refl a))
  | inr e ↦ e
]

pub step-differs : (a b : ChallengeState) → is_step a b ≡ true → same_state a b ≡ false
step-differs a b h = ground (arith, h)

pub step_is_valid :
    (a b : ChallengeState)
    → is_step a b ≡ true
    → (not (validate_transition a b) && not (is_unset a)) ≡ false
step_is_valid a b h = ground (arith, h)
