-- ===== src/Challenge/Service/Retry/Outcomes.antt =====
-- What settles a pending challenge in pkg/challenge/service.go.
use reinframe.Prelude.{
  ℕ, String, Bool, true, false, not, ◌&&◌, none, some, lookup, str_eq, ◌≡◌, refl, inl, inr, arith,
  Option-cases, eq_refl, if_keeps, if_splits,
}
use reinframe.Challenge.States.{ChallengeState, is_terminal}
use reinframe.Challenge.Store.{ChallengeRecord, Store, Transition, append_transition, moved, get}
use reinframe.Challenge.Service.{RetryRequest, RetryResult, is_due, is_provider_fail_open_reason}
use reinframe.Challenge.Service.Safe.{put-own}
use reinframe.Challenge.Service.Retry.{Attempt, lapse}
use reinframe.Challenge.Service.Retry.Settle.{
  ReEvalResult, is_allow, verdict_of, conclude, settled_before, settle, settle_at, cancel,
  if_pending,
}

abbrev pub is_pending : ChallengeState → Bool
is_pending ChallengeState.retry_pending = true
is_pending _ = false

-- A first ALLOW.
abbrev pub allows_first : RetryResult → Bool
allows_first r = is_allow r.decision && not r.idempotent_replay

-- The evaluation stands for an ALLOW.
abbrev pub is_cleared : ReEvalResult → Bool
is_cleared re =
    is_allow re.stage2_decision
    && not (is_provider_fail_open_reason re.reason)
    && not (str_eq re.intervention "HUMAN_REVIEW")

verdict_of-is_allow :
    (rec : ChallengeRecord) (re : ReEvalResult)
    → is_allow (verdict_of rec re).decision ≡ is_cleared re
unfolding verdict_of
verdict_of-is_allow rec re = ground arith

settle_at-allows_first :
    (s : Store) (req : RetryRequest) (a : Attempt) (re : ReEvalResult) (now : ℕ)
    (rec : ChallengeRecord) (st : ChallengeState)
    → allows_first (settle_at s req a re now rec st).1 ≡ (is_pending st && is_cleared re)
unfolding settle_at conclude settled_before
settle_at-allows_first s req a re now rec ChallengeState.retry_pending =
    let e = verdict_of-is_allow rec re in ground arith
settle_at-allows_first s req a re now rec ChallengeState.allowed_once = ground arith
settle_at-allows_first s req a re now rec ChallengeState.rejected = ground arith
settle_at-allows_first s req a re now rec ChallengeState.human_review = ground arith
settle_at-allows_first s req a re now rec ChallengeState.unset = refl
settle_at-allows_first s req a re now rec ChallengeState.opened = refl
settle_at-allows_first s req a re now rec ChallengeState.justified = refl
settle_at-allows_first s req a re now rec ChallengeState.abandoned = refl
settle_at-allows_first s req a re now rec ChallengeState.expired = refl

-- An attempt is answered by a first ALLOW exactly if its challenge is still pending and has not lapsed,
-- and the evaluation allows it, neither by failing open nor with a review by a person.
pub settle-allows_first :
    (s : Store) (req : RetryRequest) (a : Attempt) (re : ReEvalResult) (now : ℕ)
    → allows_first (settle s req a re now).1 ≡ (elim (get s req.challenge_id) [
      | none ↦ false
      | some rec ↦ not (is_due s rec) && is_pending rec.state && is_cleared re
    ])
unfolding settle get lapse
settle-allows_first s req a re now = elim (Option-cases (lookup req.challenge_id s.by_id)) [
  | inl e ↦ rw (e, settle) refl
  | inr (rec, e) ↦
      rw (e, settle)
        (if_splits
          (λ (r : Store × RetryResult).
            allows_first r.1 ≡ (not (is_due s rec) && is_pending rec.state && is_cleared re))
          (is_due s rec) (λ due. rw due refl)
          (λ live. rw live (settle_at-allows_first s req a re now rec rec.state)))
]

-- The record under the id has ended.
abbrev pub HasEnded : String → Store → Type 0
HasEnded id s =
    (rec : ChallengeRecord) × (lookup id s.by_id ≡ some rec) × (is_terminal rec.state ≡ true)

append-HasEnded :
    (id : String) (s : Store) (rec : ChallengeRecord) (t : Transition)
    → rec.challenge_id ≡ id
    → is_terminal t.to ≡ true
    → HasEnded id (append_transition s rec t).0
unfolding append_transition
append-HasEnded id s rec t named ended =
    (moved s rec t, put-own _ (moved s rec t) _ t.just id (rw named (eq_refl id)), ended)

verdict_of-is_terminal :
    (rec : ChallengeRecord) (re : ReEvalResult) → is_terminal (verdict_of rec re).to ≡ true
unfolding verdict_of is_terminal
verdict_of-is_terminal rec re = ground arith

module _ (req : RetryRequest) (a : Attempt) (now : ℕ) (rec : ChallengeRecord) where
  abbrev Ends : Store → Type 0
  Ends s = HasEnded req.challenge_id s

  lapse-HasEnded :
      (s : Store) → rec.challenge_id ≡ req.challenge_id → Ends (lapse s req a now rec).0
  unfolding lapse is_terminal
  lapse-HasEnded s named = append-HasEnded req.challenge_id s rec _ named refl

  settle_at-HasEnded :
      (s : Store) (re : ReEvalResult) (st : ChallengeState)
      → rec.challenge_id ≡ req.challenge_id
      → st ≡ ChallengeState.retry_pending
      → Ends (settle_at s req a re now rec st).0
  unfolding settle_at conclude
  settle_at-HasEnded s re st named pending =
      rw (pending, settle_at)
        (append-HasEnded req.challenge_id s _ _ named (verdict_of-is_terminal rec re))

  if_pending-HasEnded :
      (s s' : Store) (st : ChallengeState)
      → st ≡ ChallengeState.retry_pending
      → Ends s'
      → Ends (if_pending s s' st)
  unfolding if_pending
  if_pending-HasEnded s s' st pending h = rw (pending, if_pending) h

  -- An attempt that spent the budget ends its challenge, whatever the evaluation answers, and also if
  -- the caller is gone before it does: the challenge does not stay pending.
  pub settle-HasEnded :
      (s : Store) (re : ReEvalResult)
      → get s req.challenge_id ≡ some rec
      → rec.challenge_id ≡ req.challenge_id
      → rec.state ≡ ChallengeState.retry_pending
      → Ends (settle s req a re now).0 × Ends (cancel s req a now)
  unfolding settle cancel is_terminal
  settle-HasEnded s re at named pending = (
    rw (at, settle)
        (if_keeps (λ (r : Store × RetryResult). Ends r.0) (is_due s rec) (lapse-HasEnded s named)
          (settle_at-HasEnded s re rec.state named pending)),
    rw (at, cancel)
        (if_pending-HasEnded s _ rec.state pending
          (append-HasEnded req.challenge_id s _ _ named refl)),
  )
