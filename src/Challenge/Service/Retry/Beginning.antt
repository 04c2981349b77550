-- ===== src/Challenge/Service/Retry/Beginning.antt =====
-- The first locked part of AttemptRetry in pkg/challenge/service.go, and what it allows.
use reinframe.Prelude.{
  ℕ, ◌+◌, String, true, false, not, ◌&&◌, ◌==◌, none, some, lookup, str_eq, is_empty, ◌≡◌, refl,
  sym, ◌∙◌, inl, inr, arith, ap, subst, Bool-cases, Option-cases, eq_iff, if_keeps, if_splits,
  if◌then◌else◌,
}
use reinframe.Challenge.States.{ChallengeState}
use reinframe.Challenge.Store.{ChallengeRecord, Store, get}
use reinframe.Challenge.Service.{RetryRequest, RetryResult, blocked, is_due}
use reinframe.Challenge.Service.Safe.{
  is_once, IsQuiet, IsSpent, Allowance, IsSafe, stay-IsSafe, append-IsSafe, write-IsSafe, once_ends,
}
use reinframe.Challenge.Service.Retry.{
  Attempt, Begun, answered, waits, evaluates, begin, begin_at, reject, spend, lapse, allowed_before,
  ended_before,
}
use reinframe.Challenge.Service.Retry.Settle.{is_allow}

-- What an answer to the request allows the challenge `id`.
abbrev pub allowance : String → RetryRequest → Attempt → RetryResult → Allowance
allowance id req a r =
    if is_allow r.decision
    then (if str_eq req.challenge_id id then some (a.key, not r.idempotent_replay) else none)
    else none

abbrev pub begun_allowance : String → RetryRequest → Attempt → Begun → Allowance
begun_allowance id req a (answered r) = allowance id req a r
begun_allowance id req a waits = none
begun_allowance id req a (evaluates rec just) = none

-- The answer allows an allowed record's own key again, and nothing else.
abbrev pub Repeats : ChallengeRecord → Attempt → RetryResult → Type 0
Repeats rec a r =
    (IsQuiet (some rec) → is_allow r.decision ≡ false)
    × ((k : String)
        → IsSpent k (some rec)
        → is_allow r.decision ≡ true
        → (a.key ≡ k) × (r.idempotent_replay ≡ true))

pub reply-IsSafe :
    (id : String) (s : Store) (req : RetryRequest) (a : Attempt) (rec : ChallengeRecord)
    (r : RetryResult)
    → lookup req.challenge_id s.by_id ≡ some rec
    → Repeats rec a r
    → IsSafe id s s (allowance id req a r)
reply-IsSafe id s req a rec r at (quiet, spent) = record {
  named = λ n. n;
  quiet = λ n q. elim (Bool-cases (str_eq req.challenge_id id)) [
    | inr e ↦ inl (q, rw e (if_keeps (λ x. x ≡ none) (is_allow r.decision) refl refl))
    | inl e ↦
        let here : req.challenge_id ≡ id = ground (arith, eq_iff req.challenge_id id) in
        let was = subst IsQuiet (ap (λ j. lookup j s.by_id) (sym here) ∙ at) q in
        inl (q, rw (quiet was) refl)
  ];
  spent = λ n k h. elim (Bool-cases (str_eq req.challenge_id id)) [
    | inr e ↦ (h, inl (rw e (if_keeps (λ x. x ≡ none) (is_allow r.decision) refl refl)))
    | inl e ↦
        let here : req.challenge_id ≡ id = ground (arith, eq_iff req.challenge_id id) in
        let was = subst (IsSpent k) (ap (λ j. lookup j s.by_id) (sym here) ∙ at) h in
        elim (Bool-cases (is_allow r.decision)) [
          | inr no_allow ↦ (h, inl (rw no_allow refl))
          | inl allows ↦
              let (key, again) = spent k was allows in (h, inr (rw (allows, e, key, again) refl))
        ]
  ];
}

-- An answer that blocks.
blocks-Repeats :
    (rec : ChallengeRecord) (a : Attempt) (r : RetryResult)
    → is_allow r.decision ≡ false
    → Repeats rec a r
blocks-Repeats rec a r e = ((λ q. e), (λ k h allows. cc))

allowed_before-Repeats :
    (rec : ChallengeRecord) (a : Attempt)
    → rec.state ≡ ChallengeState.allowed_once
    → Repeats rec a (allowed_before rec a)
unfolding allowed_before
allowed_before-Repeats rec a once =
    if_splits (Repeats rec a) (is_empty rec.consumed_retry_key)
      (λ e.
        blocks-Repeats rec a
          (blocked rec (some a.relationship) "already_consumed"
            "retry: already_consumed (missing retry identity)")
          refl)
      (λ keyed.
        if_splits (Repeats rec a) (str_eq a.key rec.consumed_retry_key)
          (λ same. (
            (λ q. let never = q.0 in cc),
            (λ k h allows. (ground (arith, eq_iff a.key rec.consumed_retry_key, h.1, same), refl)),
          ))
          (λ e.
            blocks-Repeats rec a
              (blocked rec (some a.relationship) "retry_budget_exhausted"
                "retry: retry_budget_exhausted / already_consumed")
              refl))

-- The record has ended in another state.
ended_before-Repeats :
    (rec : ChallengeRecord) (a : Attempt)
    → is_once rec.state ≡ false
    → Repeats rec a (ended_before rec a)
unfolding ended_before
ended_before-Repeats rec a other =
    let base = blocked rec (some a.relationship) "already_terminal" "" in
    let again = record base { decision = rec.stage2_decision; idempotent_replay = true } in
    let repeats : Repeats rec a again = ((λ q. q.1), (λ k h allows. let once = h.0 in cc)) in
    if_keeps (Repeats rec a)
      (not (is_empty rec.consumed_retry_key) && str_eq a.key rec.consumed_retry_key) repeats
      (blocks-Repeats rec a base refl)

begin_at-IsSafe :
    (id : String) (s : Store) (req : RetryRequest) (a : Attempt) (now : ℕ) (rec : ChallengeRecord)
    (st : ChallengeState)
    → lookup req.challenge_id s.by_id ≡ some rec
    → rec.state ≡ st
    → IsSafe id s
        (begin_at s req a now rec st).0
        (begun_allowance id req a (begin_at s req a now rec st).1)
unfolding begin_at reject spend
begin_at-IsSafe id s req a now rec ChallengeState.expired at e = stay-IsSafe id s
begin_at-IsSafe id s req a now rec ChallengeState.unset at e = stay-IsSafe id s
begin_at-IsSafe id s req a now rec ChallengeState.allowed_once at e =
    reply-IsSafe id s req a rec (allowed_before rec a) at (allowed_before-Repeats rec a e)
begin_at-IsSafe id s req a now rec ChallengeState.rejected at e =
    reply-IsSafe id s req a rec (ended_before rec a) at (ended_before-Repeats rec a (rw e refl))
begin_at-IsSafe id s req a now rec ChallengeState.human_review at e =
    reply-IsSafe id s req a rec (ended_before rec a) at (ended_before-Repeats rec a (rw e refl))
begin_at-IsSafe id s req a now rec ChallengeState.abandoned at e =
    reply-IsSafe id s req a rec (ended_before rec a) at (ended_before-Repeats rec a (rw e refl))
begin_at-IsSafe id s req a now rec ChallengeState.opened at e =
    append-IsSafe id req.challenge_id s rec _ _ at refl (rw e refl) refl (λ h. refl)
begin_at-IsSafe id s req a now rec ChallengeState.retry_pending at e = stay-IsSafe id s
begin_at-IsSafe id s req a now rec ChallengeState.justified at e =
    if_keeps (λ (r : Store × Begun). IsSafe id s r.0 (begun_allowance id req a r.1))
      (rec.retry_budget == 0)
      (append-IsSafe id req.challenge_id s rec _ _ at refl (rw e refl) refl (λ h. refl))
      (write-IsSafe id req.challenge_id s (s.seq + 1) rec _ _ none at refl (rw e refl) refl
        (λ h. h))

-- A record that is due has not ended.
pub due-live : (s : Store) (rec : ChallengeRecord) → is_due s rec ≡ true → is_once rec.state ≡ false
due-live s rec due = elim (Bool-cases (is_once rec.state)) [
  | inr e ↦ e
  | inl e ↦ let ended = once_ends rec.state e in ground arith
]

pub lapse-IsSafe :
    (id : String) (s : Store) (req : RetryRequest) (a : Attempt) (now : ℕ) (rec : ChallengeRecord)
    → lookup req.challenge_id s.by_id ≡ some rec
    → is_due s rec ≡ true
    → IsSafe id s (lapse s req a now rec).0 (allowance id req a (lapse s req a now rec).1)
unfolding lapse
lapse-IsSafe id s req a now rec at due =
    append-IsSafe id req.challenge_id s rec rec _ at refl (due-live s rec due) refl (λ h. h)

pub begin-IsSafe :
    (id : String) (s : Store) (req : RetryRequest) (a : Attempt) (now : ℕ)
    → IsSafe id s (begin s req a now).0 (begun_allowance id req a (begin s req a now).1)
unfolding begin get
begin-IsSafe id s req a now = elim (Option-cases (lookup req.challenge_id s.by_id)) [
  | inl e ↦ rw (e, begin) (stay-IsSafe id s)
  | inr (rec, e) ↦
      rw (e, begin)
        (if_splits (λ (r : Store × Begun). IsSafe id s r.0 (begun_allowance id req a r.1))
          (is_due s rec) (lapse-IsSafe id s req a now rec e)
          (λ live. begin_at-IsSafe id s req a now rec rec.state e refl))
]
