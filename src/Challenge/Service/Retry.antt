-- ===== src/Challenge/Service/Retry.antt =====
-- AttemptRetry of pkg/challenge/service.go in its steps: the checks before the lock, the locked part
-- that spends the budget, and the wait for another attempt.
pub mod Settle
pub mod Settling
pub mod Beginning
pub mod Silent
pub mod OneShot
pub mod Outcomes
use reinframe.Prelude.{
  ℕ, zero, suc, ◌+◌, String, Bool, true, false, not, ◌&&◌, ◌||◌, ◌==◌, Option, none, some, List, [],
  ◌∷◌, is_empty, str_eq, ◌⧺◌, if◌then◌else◌, lookup, insert, Result, ok, err, ◌>>=◌, ◌>>◌, ensure,
}
use reinframe.Detector.Fingerprint.{trim_space}
use reinframe.Challenge.States.{ChallengeState, is_terminal}
use reinframe.Challenge.Store.{
  Decision, ChallengeRecord, ChallengeEvent, Store, append_transition, put, get,
}
use reinframe.Challenge.Service.{
  FingerprintResult, Relationship, Fingerprints, RetryRequest, RetryResult, refused, blocked,
  first_non_empty, pick_contract, check_ownership, is_target_superset, is_provider_fail_open_reason,
  is_due, expiry, expire_if_needed,
}

-- What the checks before the lock have found.
pub record Attempt : Type 0 where
  pub fingerprint : String
  pub relationship : Relationship
  pub key : String

-- The record as an original for `ClassifyRelationship`.
original : ChallengeRecord → FingerprintResult
original rec = record {
  fingerprint = rec.action_fingerprint;
  side_effect_class = rec.side_effect_class;
  target_resources = rec.target_resources;
  operation_digest = rec.operation_digest;
}

is_bound : Relationship → Bool
is_bound Relationship.same = true
is_bound Relationship.bypass = true
is_bound _ = false

module _ (ops : Fingerprints) where
  -- `retryAttemptKey`
  retry_attempt_key : String → RetryRequest → String → String
  retry_attempt_key id req fp = ops.hash_fields (
      ("challenge_id", id)
      ∷ ("action_id", req.proposed.action_id)
      ∷ ("correlation_id", req.correlation_id)
      ∷ ("retry_request_id", req.retry_request_id)
      ∷ ("fingerprint", fp)
      ∷ [])

  -- The action is that of the challenge.
  check_action : ChallengeRecord → RetryRequest → Result RetryResult Attempt
  unfolding first_non_empty pick_contract original is_bound retry_attempt_key
  check_action rec req =
      let p = req.proposed in
      elim (ops.compute p rec.session_id rec.branch
        (first_non_empty p.workspace_revision rec.workspace_revision)
        (pick_contract p.contract_revision rec.contract_revision)) [
          | none ↦
              err
                (record (blocked rec none "fingerprint_error" "fingerprint") { intervention = "" })
          | some fp ↦
              let rel = ops.relate (original rec) fp in
              if is_target_superset fp.target_resources rec.target_resources
              then err (
                  blocked rec (some Relationship.different) "scope_expansion"
                    "retry: target scope expansion is not bound to challenge")
              else if not (is_bound rel)
              then err (
                  blocked rec (some rel) "not_same_semantic_action"
                    "retry: action relationship is not bound to challenge")
              else ok (record {
                fingerprint = fp.fingerprint;
                relationship = rel;
                key = retry_attempt_key rec.challenge_id req fp.fingerprint;
              })
        ]

  check_nonce : ChallengeRecord → RetryRequest → Result RetryResult (Unit {0})
  check_nonce rec req = do
    ensure (not (req.require_nonce && is_empty (trim_space req.challenge_nonce)))
        (blocked rec none "missing_challenge_nonce" "retry: missing challenge nonce")
    ensure
        (is_empty req.challenge_nonce
          || is_empty rec.challenge_nonce
          || str_eq req.challenge_nonce rec.challenge_nonce)
        (blocked rec none "corrupted_challenge_nonce" "retry: corrupted or invalid challenge nonce")
    ensure (is_empty req.challenge_nonce || not (is_empty rec.challenge_nonce)) (
        blocked rec none "corrupted_challenge_nonce"
          "retry: corrupted challenge nonce (no nonce issued)")

  check_record : ChallengeRecord → RetryRequest → Result RetryResult Attempt
  unfolding check_nonce check_action
  check_record rec req = elim (check_ownership rec req) [
    | some e ↦ err (blocked rec none "ownership_mismatch" e)
    | none ↦ do check_nonce rec req; check_action rec req
  ]

  -- The part of `AttemptRetry` before the lock.
  unfoldable pub enter : Store → RetryRequest → ℕ → Store × Result RetryResult Attempt
  unfolding check_record
  enter s req now =
      let lossy = record (refused "retry: proposed_action") {
        decision = Decision.block;
        rejected_reason = "lossy_proposed_action";
      } in
      let nameless = record (refused "retry: CorrelationID or RetryRequestID required") {
        decision = Decision.block;
        rejected_reason = "missing_retry_identity";
      } in
      if is_empty (trim_space req.challenge_id)
      then (s, err (refused "retry: challenge_id required"))
      else if not (ops.is_valid req.proposed)
      then (s, err lossy)
      else if is_empty (trim_space req.correlation_id) && is_empty (trim_space req.retry_request_id)
      then (s, err nameless)
      else elim (get s req.challenge_id) [
        | none ↦ (s, err (refused "retry: unknown challenge"))
        | some rec ↦
            let (s', cur, lapsed) = expire_if_needed s rec now in
            let late = record (blocked cur none "expired" "challenge expired") {
              intervention = "";
            } in
            (s', if lapsed then err late else check_record cur req)
      ]

-- What the locked part makes of an attempt: an answer, a wait for the attempt in flight, or a record
-- to evaluate again with its justification.
pub data Begun : Type 0 where
  answered : RetryResult → Begun
  waits : Begun
  evaluates : ChallengeRecord → Option String → Begun

-- The record was ALLOWED_ONCE before.
unfoldable pub allowed_before : ChallengeRecord → Attempt → RetryResult
allowed_before rec a =
    if is_empty rec.consumed_retry_key
    then blocked rec (some a.relationship) "already_consumed"
        "retry: already_consumed (missing retry identity)"
    else if str_eq a.key rec.consumed_retry_key
    then record (blocked rec (some a.relationship) "idempotent_replay" "") {
      decision = Decision.allow;
      idempotent_replay = true;
    }
    else blocked rec (some a.relationship) "retry_budget_exhausted"
        "retry: retry_budget_exhausted / already_consumed"

-- The record is REJECTED, HUMAN_REVIEW or ABANDONED.
ended_before : ChallengeRecord → Attempt → RetryResult
ended_before rec a =
    if not (is_empty rec.consumed_retry_key) && str_eq a.key rec.consumed_retry_key
    then record (blocked rec (some a.relationship) "already_terminal" "") {
      decision = rec.stage2_decision;
      idempotent_replay = true;
    }
    else blocked rec (some a.relationship) "already_terminal" ""

-- The attempt ends the challenge: REJECTED, with the decision BLOCK, which is set before the write, so
-- that setting it again in the stored record changes nothing.
unfoldable pub reject :
    Store → RetryRequest → Attempt → ℕ → ChallengeRecord → String → Store × ChallengeRecord
reject s req a now rec note =
    append_transition s (record rec { stage2_decision = Decision.block })
      (record {
        from = rec.state;
        to = ChallengeState.rejected;
        kind = "rejected";
        corr = req.correlation_id;
        cause = req.proposed.action_id;
        payload_hash = a.fingerprint;
        note = note;
        audit_id = "";
        at = now;
        just = none;
      })

lowered : ℕ → ℕ
lowered zero = zero
lowered (suc n) = n

-- The budget is spent, and the challenge is RETRY_PENDING.
unfoldable pub spend : Store → RetryRequest → Attempt → ℕ → ChallengeRecord → Store × Begun
unfolding lowered
spend s req a now rec =
    let pending = record rec {
      retry_budget = lowered rec.retry_budget;
      updated_sequence = s.seq + 1;
      updated_at = now;
      state = ChallengeState.retry_pending;
    } in
    let ev : ChallengeEvent = record {
      sequence = s.seq + 1;
      challenge_id = rec.challenge_id;
      session_id = rec.session_id;
      kind = "budget_consumed";
      from_state = rec.state;
      to_state = ChallengeState.retry_pending;
      correlation_id = req.correlation_id;
      causation_id = req.proposed.action_id;
      payload_hash = a.key;
      provider_call_audit_id = "";
      note = "one_shot_budget";
      at = now;
    } in
    (
      put (record s { seq = s.seq + 1 }) pending ev none,
      evaluates pending (lookup rec.challenge_id s.justifications),
    )

-- The move to EXPIRED under the lock.
unfoldable pub lapse : Store → RetryRequest → Attempt → ℕ → ChallengeRecord → Store × RetryResult
lapse s req a now rec =
    let (s', ended) = append_transition s rec (
      expiry rec.state req.correlation_id req.proposed.action_id a.fingerprint
        "sequence_expiry_under_lock" now) in
    (
      s',
      record (blocked ended (some a.relationship) "expired" "retry: expired") { intervention = "" },
    )

-- The first locked part, by the state of the record.
unfoldable pub begin_at :
    Store → RetryRequest → Attempt → ℕ → ChallengeRecord → ChallengeState → Store × Begun
unfolding ended_before
begin_at s req a now rec ChallengeState.expired = (
  s,
  answered
      (record (blocked rec (some a.relationship) "expired" "retry: expired") { intervention = "" }),
)
begin_at s req a now rec ChallengeState.allowed_once = (s, answered (allowed_before rec a))
begin_at s req a now rec ChallengeState.rejected = (s, answered (ended_before rec a))
begin_at s req a now rec ChallengeState.human_review = (s, answered (ended_before rec a))
begin_at s req a now rec ChallengeState.abandoned = (s, answered (ended_before rec a))
begin_at s req a now rec ChallengeState.opened =
    let (s', ended) = reject s req a now rec "retry_without_justification" in
    (
      s',
      answered (record (blocked ended (some a.relationship) "retry_without_justification" "") {
        intervention = "APPEALABLE_CHALLENGE";
      }),
    )
begin_at s req a now rec ChallengeState.justified =
    let (s', ended) = reject s req a now rec "budget_exhausted" in
    let poor = record (blocked ended (some a.relationship) "budget_exhausted" "") {
      intervention = "";
    } in
    if rec.retry_budget == 0 then (s', answered poor) else spend s req a now rec
begin_at s req a now rec ChallengeState.retry_pending = (s, waits)
begin_at s req a now rec ChallengeState.unset = (
  s,
  answered (record (blocked rec (some a.relationship) "invalid_state" "retry: invalid state") {
    intervention = "";
  }),
)

unfoldable pub begin : Store → RetryRequest → Attempt → ℕ → Store × Begun
begin s req a now = elim (get s req.challenge_id) [
  | none ↦ (s, answered (refused "retry: unknown challenge"))
  | some rec ↦
      let (s', late) = lapse s req a now rec in
      if is_due s rec then (s', answered late) else begin_at s req a now rec rec.state
]

-- The answer after `waitTerminal` has found the record ended.
unfoldable pub after_wait : ChallengeRecord → Attempt → RetryResult
after_wait final a =
    let again = record (blocked final (some a.relationship) "duplicate_retry" "") {
      idempotent_replay = true;
    } in
    elim final.state [
      | ChallengeState.allowed_once ↦
          if not (is_empty final.consumed_retry_key) && str_eq a.key final.consumed_retry_key
          then record again { decision = Decision.allow }
          else record again {
            rejected_reason = "retry_budget_exhausted";
            error = "retry: retry_budget_exhausted";
          }
      | _ ↦ record again { decision = final.stage2_decision }
    ]
