-- ===== src/Challenge/Service/Retry/Settle.antt =====
-- AttemptRetry of pkg/challenge/service.go after the re-evaluation, whose answer is an argument: the
-- locked part that settles the challenge.
use reinframe.Prelude.{
  ℕ, String, Bool, true, false, not, ◌&&◌, none, some, is_empty, str_eq, ◌⧺◌, if◌then◌else◌,
}
use reinframe.Challenge.States.{ChallengeState}
use reinframe.Challenge.Store.{Decision, ChallengeRecord, Store, append_transition, get}
use reinframe.Challenge.Service.{
  RetryRequest, RetryResult, refused, blocked, is_provider_fail_open_reason, is_due,
}
use reinframe.Challenge.Service.Retry.{Attempt, lapse}

-- `ReEvalResult`; the call of the provider is its audit id.
pub record ReEvalResult : Type 0 where
  pub stage2_decision : Decision
  pub intervention : String
  pub reason : String
  pub audit_id : String

-- What stands for an evaluation that fails.
abbrev pub reeval_error : ReEvalResult
reeval_error = record {
  stage2_decision = Decision.block;
  intervention = "";
  reason = "reeval_error";
  audit_id = "";
}

abbrev pub is_allow : Decision → Bool
is_allow Decision.allow = true
is_allow _ = false

-- Where the pending record goes.
pub record Verdict : Type 0 where
  pub to : ChallengeState
  pub decision : Decision
  pub intervention : String
  pub kind : String
  pub note : String

-- The switch over the evaluation.
unfoldable pub verdict_of : ChallengeRecord → ReEvalResult → Verdict
verdict_of rec re =
    let open_fails = is_provider_fail_open_reason re.reason in
    if str_eq re.intervention "HUMAN_REVIEW"
    then record {
      to = ChallengeState.human_review;
      decision = Decision.block;
      intervention = "HUMAN_REVIEW";
      kind = "human_review";
      note = re.reason;
    }
    else if is_allow re.stage2_decision && not open_fails
    then record {
      to = ChallengeState.allowed_once;
      decision = Decision.allow;
      intervention = "none";
      kind = "allowed_once";
      note = re.reason;
    }
    else record {
      to = ChallengeState.rejected;
      decision = Decision.block;
      intervention = rec.intervention;
      kind = "rejected";
      note =
          if is_allow re.stage2_decision && open_fails
          then re.reason ⧺ "_no_allowed_once"
          else re.reason;
    }

-- The record is settled. The fields are set before the write, so that setting them again in the
-- stored record changes nothing.
unfoldable pub conclude :
    Store → RetryRequest → Attempt → ReEvalResult → ℕ → ChallengeRecord → Store × RetryResult
conclude s req a re now rec =
    let v = verdict_of rec re in
    let (s', out) =
      append_transition s
        (record rec {
          stage2_decision = v.decision;
          intervention = v.intervention;
          consumed_retry_key = a.key;
        })
        (record {
          from = rec.state;
          to = v.to;
          kind = v.kind;
          corr = req.correlation_id;
          cause = req.proposed.action_id;
          payload_hash = a.key;
          note = v.note;
          audit_id = re.audit_id;
          at = now;
          just = none;
        }) in
    (s', record (blocked out (some a.relationship) "" "") { decision = v.decision })

-- The record was settled by another call meanwhile.
unfoldable pub settled_before : ChallengeRecord → Attempt → RetryResult
settled_before rec a =
    let again = record (blocked rec (some a.relationship) "" "") { idempotent_replay = true } in
    elim rec.state [
      | ChallengeState.allowed_once ↦
          if not (is_empty rec.consumed_retry_key) && str_eq a.key rec.consumed_retry_key
          then record again { decision = Decision.allow }
          else record again {
            rejected_reason = "retry_budget_exhausted";
            error = "retry: retry_budget_exhausted";
          }
      | _ ↦ record again { decision = rec.stage2_decision }
    ]

state_changed : ChallengeRecord → Attempt → RetryResult
state_changed rec a =
    record (blocked rec (some a.relationship) "state_changed" "retry: unexpected state") {
      intervention = "";
    }

unfoldable pub settle_at :
    Store
    → RetryRequest
    → Attempt
    → ReEvalResult
    → ℕ
    → ChallengeRecord
    → ChallengeState
    → Store × RetryResult
unfolding state_changed
settle_at s req a re now rec ChallengeState.retry_pending = conclude s req a re now rec
settle_at s req a re now rec ChallengeState.allowed_once = (s, settled_before rec a)
settle_at s req a re now rec ChallengeState.rejected = (s, settled_before rec a)
settle_at s req a re now rec ChallengeState.human_review = (s, settled_before rec a)
settle_at s req a re now rec _ = (s, state_changed rec a)

-- The second locked part.
unfoldable pub settle : Store → RetryRequest → Attempt → ReEvalResult → ℕ → Store × RetryResult
settle s req a re now = elim (get s req.challenge_id) [
  | none ↦ (s, refused "retry: lost challenge")
  | some rec ↦
      if is_due s rec then lapse s req a now rec else settle_at s req a re now rec rec.state
]

-- Only a pending record is ended.
unfoldable pub if_pending : Store → Store → ChallengeState → Store
if_pending s ended ChallengeState.retry_pending = ended
if_pending s ended _ = s

-- The evaluation fails because the caller is gone.
unfoldable pub cancel : Store → RetryRequest → Attempt → ℕ → Store
cancel s req a now = elim (get s req.challenge_id) [
  | none ↦ s
  | some cur ↦
      let ended =
        append_transition s
          (record cur { consumed_retry_key = a.key; stage2_decision = Decision.block })
          (record {
            from = ChallengeState.retry_pending;
            to = ChallengeState.rejected;
            kind = "rejected";
            corr = req.correlation_id;
            cause = req.proposed.action_id;
            payload_hash = a.key;
            note = "owner_context_canceled";
            audit_id = "";
            at = now;
            just = none;
          }) in
      if_pending s ended.0 cur.state
]
