-- ===== src/Challenge/Service/Retry/Settling.antt =====
-- The second locked part of AttemptRetry in pkg/challenge/service.go, and the other steps, never allow a
-- challenge twice.
use reinframe.Prelude.{
  ℕ, String, false, not, ◌&&◌, some, lookup, str_eq, ◌≡◌, refl, ◌⊎◌, inl, inr, arith, Bool-cases,
  Option-cases, eq_iff, if_splits,
}
use reinframe.Challenge.States.{ChallengeState}
use reinframe.Challenge.Store.{Decision, ChallengeRecord, Store, get}
use reinframe.Challenge.Service.{RetryRequest, RetryResult, is_due, is_provider_fail_open_reason}
use reinframe.Challenge.Service.Safe.{is_once, IsSafe, stay-IsSafe, append-IsSafe, allow-IsSafe}
use reinframe.Challenge.Service.Retry.{Attempt, after_wait}
use reinframe.Challenge.Service.Retry.Settle.{
  ReEvalResult, is_allow, verdict_of, conclude, settled_before, settle, settle_at,
}
use reinframe.Challenge.Service.Retry.Beginning.{allowance, Repeats, reply-IsSafe, lapse-IsSafe}

verdict_of-cases :
    (rec : ChallengeRecord) (re : ReEvalResult)
    → (((verdict_of rec re).to ≡ ChallengeState.allowed_once)
        × ((verdict_of rec re).decision ≡ Decision.allow))
      ⊎ ((is_once (verdict_of rec re).to ≡ false) × (is_allow (verdict_of rec re).decision ≡ false))
unfolding verdict_of
verdict_of-cases rec re = elim (Bool-cases (str_eq re.intervention "HUMAN_REVIEW")) [
  | inl human ↦ inr (ground (arith, human), ground (arith, human))
  | inr e ↦
      elim (Bool-cases
        (is_allow re.stage2_decision && not (is_provider_fail_open_reason re.reason))) [
          | inl allows ↦ inl (ground (arith, e, allows), ground (arith, e, allows))
          | inr f ↦ inr (ground (arith, e, f), ground (arith, e, f))
        ]
]

conclude-IsSafe :
    (id : String) (s : Store) (req : RetryRequest) (a : Attempt) (re : ReEvalResult) (now : ℕ)
    (rec : ChallengeRecord)
    → lookup req.challenge_id s.by_id ≡ some rec
    → is_once rec.state ≡ false
    → IsSafe id s
        (conclude s req a re now rec).0
        (allowance id req a (conclude s req a re now rec).1)
unfolding conclude
conclude-IsSafe id s req a re now rec at live = elim (verdict_of-cases rec re) [
  | inl (once, allows) ↦ rw allows (allow-IsSafe id req.challenge_id s rec _ _ at refl live once)
  | inr (other, blocks) ↦
      rw blocks (append-IsSafe id req.challenge_id s rec _ _ at refl live other (λ h. blocks))
]

-- The answer about a record that another call has settled.
settled_before-Repeats :
    (rec : ChallengeRecord) (a : Attempt) → Repeats rec a (settled_before rec a)
unfolding settled_before
settled_before-Repeats rec a = (
  (λ q. ground (arith, q.0, q.1)),
  (λ k h allows.
      (ground (arith, eq_iff a.key rec.consumed_retry_key, h.0, h.1, allows), ground arith)),
)

pub after_wait-Repeats : (rec : ChallengeRecord) (a : Attempt) → Repeats rec a (after_wait rec a)
unfolding after_wait
after_wait-Repeats rec a = (
  (λ q. ground (arith, q.0, q.1)),
  (λ k h allows.
      (ground (arith, eq_iff a.key rec.consumed_retry_key, h.0, h.1, allows), ground arith)),
)

settle_at-IsSafe :
    (id : String) (s : Store) (req : RetryRequest) (a : Attempt) (re : ReEvalResult) (now : ℕ)
    (rec : ChallengeRecord) (st : ChallengeState)
    → lookup req.challenge_id s.by_id ≡ some rec
    → rec.state ≡ st
    → IsSafe id s
        (settle_at s req a re now rec st).0
        (allowance id req a (settle_at s req a re now rec st).1)
unfolding settle_at
settle_at-IsSafe id s req a re now rec ChallengeState.retry_pending at e =
    conclude-IsSafe id s req a re now rec at (rw e refl)
settle_at-IsSafe id s req a re now rec ChallengeState.allowed_once at e =
    reply-IsSafe id s req a rec (settled_before rec a) at (settled_before-Repeats rec a)
settle_at-IsSafe id s req a re now rec ChallengeState.rejected at e =
    reply-IsSafe id s req a rec (settled_before rec a) at (settled_before-Repeats rec a)
settle_at-IsSafe id s req a re now rec ChallengeState.human_review at e =
    reply-IsSafe id s req a rec (settled_before rec a) at (settled_before-Repeats rec a)
settle_at-IsSafe id s req a re now rec ChallengeState.unset at e = stay-IsSafe id s
settle_at-IsSafe id s req a re now rec ChallengeState.opened at e = stay-IsSafe id s
settle_at-IsSafe id s req a re now rec ChallengeState.justified at e = stay-IsSafe id s
settle_at-IsSafe id s req a re now rec ChallengeState.abandoned at e = stay-IsSafe id s
settle_at-IsSafe id s req a re now rec ChallengeState.expired at e = stay-IsSafe id s

pub settle-IsSafe :
    (id : String) (s : Store) (req : RetryRequest) (a : Attempt) (re : ReEvalResult) (now : ℕ)
    → IsSafe id s (settle s req a re now).0 (allowance id req a (settle s req a re now).1)
unfolding settle get
settle-IsSafe id s req a re now = elim (Option-cases (lookup req.challenge_id s.by_id)) [
  | inl e ↦ rw (e, settle) (stay-IsSafe id s)
  | inr (rec, e) ↦
      rw (e, settle)
        (if_splits (λ (r : Store × RetryResult). IsSafe id s r.0 (allowance id req a r.1))
          (is_due s rec) (lapse-IsSafe id s req a now rec e)
          (λ live. settle_at-IsSafe id s req a re now rec rec.state e refl))
]
