-- ===== src/Challenge/Service/Opening.antt =====
-- The locked parts of Open in pkg/challenge/service.go, one for each way of a blocked action to be
-- appealed. The case is what the checks before the lock have made of the request.
use reinframe.Prelude.{
  ℕ, ◌+◌, String, Bool, not, ◌&&◌, ◌||◌, ◌==◌, Option, none, some, List, [], ◌∷◌, Map, str_eq,
  if◌then◌else◌, ltb,
}
use reinframe.Challenge.States.{ChallengeState, is_terminal}
use reinframe.Challenge.Store.{
  Decision, ChallengeRecord, Store, BarrierEntry, Opening, append_transition, put, get,
  mark_barrier, barrier_note, semantic_action_match, same_string_set,
}
use reinframe.Challenge.Service.{FingerprintResult, expiry}

-- How an action may be appealed.
pub data Appeal : Type 0 where
  non_appealable human_review appealable : Appeal

-- The switch of `ClassifyAppealability` over a resolved block class.
unfoldable pub appeal_of : String → Appeal
appeal_of bc =
    if str_eq bc "SECRET_EXFILTRATION" || str_eq bc "EXPLICIT_DENY" || str_eq bc "CROSS_WORKSPACE"
    then non_appealable
    else if str_eq bc "PRODUCTION_DEPLOY"
        || str_eq bc "PAYMENT"
        || str_eq bc "REMOTE_DELETION"
        || str_eq bc "PERMISSION_CHANGE"
        || str_eq bc "UNKNOWN_SECURITY"
    then human_review
    else if str_eq bc "SCOPE_DRIFT"
        || str_eq bc "OVER_SOP"
        || str_eq bc "EXPENSIVE_HARDENING"
        || str_eq bc "REPEATED_EXPLORATION"
        || str_eq bc "EVIDENCE_GAP"
        || str_eq bc "PRODUCTIVITY_BLOCK"
    then appealable
    else human_review

-- The request with its fingerprint, its claims, the id and the nonce of a new challenge, and the
-- sequence that was read first.
pub record OpenCase : Type 0 where
  pub challenge_id : String
  pub nonce : String
  pub suggested_fix : String
  pub session_id : String
  pub fp : FingerprintResult
  pub action_id : String
  pub policy_class : String
  pub block_class : String
  pub reason_code : String
  pub claims : List String
  pub workspace_revision : String
  pub contract_revision : ℕ
  pub branch : String
  pub policy_version : String
  pub ruleset_hash : String
  pub policy_hash : String
  pub correlation_id : String
  pub ticket : ℕ
  pub expires_after : ℕ

-- The new record of an appealable action, before it has a sequence.
record_of : OpenCase → ℕ → ChallengeRecord
record_of c now = record {
  challenge_id = c.challenge_id;
  challenge_nonce = c.nonce;
  suggested_fix = c.suggested_fix;
  session_id = c.session_id;
  action_fingerprint = c.fp.fingerprint;
  original_action_id = c.action_id;
  policy_class = c.policy_class;
  block_class = c.block_class;
  reason_code = c.reason_code;
  required_claims = c.claims;
  retry_budget = 1;
  retry_budget_initial = 1;
  state = ChallengeState.opened;
  appealability = "APPEALABLE";
  intervention = "APPEALABLE_CHALLENGE";
  stage2_decision = Decision.block;
  workspace_revision = c.workspace_revision;
  contract_revision = c.contract_revision;
  branch = c.branch;
  side_effect_class = c.fp.side_effect_class;
  target_resources = c.fp.target_resources;
  policy_version = c.policy_version;
  ruleset_hash = c.ruleset_hash;
  policy_hash = c.policy_hash;
  justification_hash = "";
  consumed_retry_key = "";
  operation_digest = c.fp.operation_digest;
  expires_at_sequence = 0;
  created_sequence = 0;
  updated_sequence = 0;
  provider_call_audit_id = "";
  created_at = now;
  updated_at = now;
}

-- A live record of the session for this action, or for the same effect by another tool.
is_rival : OpenCase → ChallengeRecord → Bool
is_rival c rec =
    str_eq rec.session_id c.session_id
    && not (is_terminal rec.state)
    && (str_eq rec.action_fingerprint c.fp.fingerprint
        || semantic_action_match rec.side_effect_class rec.target_resources rec.operation_digest
            c.fp.side_effect_class c.fp.target_resources c.fp.operation_digest)

-- A live record of the session for this very action.
is_hit : OpenCase → ChallengeRecord → Bool
is_hit c rec =
    str_eq rec.session_id c.session_id
    && str_eq rec.action_fingerprint c.fp.fingerprint
    && not (is_terminal rec.state)

-- The ids of the records that pass the test.
ids_of : (ChallengeRecord → Bool) → Map ChallengeRecord → List String
ids_of test [] = []
ids_of test ((id, rec) ∷ m) = let rest = ids_of test m in if test rec then id ∷ rest else rest

-- A record is expired if it is live.
unfoldable pub expire_live : OpenCase → String → String → ℕ → String → Store → Store
expire_live c cause note now id s = elim (get s id) [
  | none ↦ s
  | some cur ↦
      if is_terminal cur.state
      then s
      else (append_transition s cur
          (expiry cur.state c.correlation_id cause c.fp.fingerprint note now)).0
]

unfoldable pub expire_all : OpenCase → String → ℕ → List String → Store → Store
expire_all c note now [] s = s
expire_all c note now (id ∷ ids) s =
    expire_all c note now ids (expire_live c c.action_id note now id s)

-- `expireActiveBySemanticLocked`
unfoldable pub expire_active : OpenCase → String → ℕ → Store → Store
unfolding is_rival ids_of
expire_active c note now s = expire_all c note now (ids_of (is_rival c) s.by_id) s

barrier_of : OpenCase → String → BarrierEntry
barrier_of c note = record {
  note = note;
  policy_version = c.policy_version;
  ruleset_hash = c.ruleset_hash;
  mark_seq = 0;
  side_effect_class = c.fp.side_effect_class;
  target_resources = c.fp.target_resources;
  operation_digest = c.fp.operation_digest;
}

-- A denial that cannot be appealed; an error is returned.
unfoldable pub open_denied : Store → OpenCase → ℕ → Store
unfolding barrier_of
open_denied s c now =
    mark_barrier (expire_active c "superseded_by_hard_block" now s) c.session_id c.fp.fingerprint
      (barrier_of c "hard_block")

-- An action that a person has to review.
unfoldable pub open_review : Store → OpenCase → ℕ → Store × ChallengeRecord
unfolding barrier_of record_of
open_review s c now =
    let barred =
      mark_barrier (expire_active c "superseded_by_human_review" now s) c.session_id
        c.fp.fingerprint (barrier_of c "human_review") in
    append_transition barred
      (record (record_of c now) {
        challenge_nonce = "";
        suggested_fix = "";
        retry_budget = 0;
        retry_budget_initial = 0;
        state = ChallengeState.human_review;
        appealability = "HUMAN_REVIEW";
        intervention = "HUMAN_REVIEW";
      })
      (record {
        from = ChallengeState.unset;
        to = ChallengeState.human_review;
        kind = "human_review";
        corr = c.correlation_id;
        cause = c.action_id;
        payload_hash = c.fp.fingerprint;
        note = "open_human_review";
        audit_id = "";
        at = now;
        just = none;
      })

-- `policyIdentityMatch`
unfoldable pub policy_identity_match : ChallengeRecord → OpenCase → Bool
policy_identity_match rec c =
    str_eq rec.policy_class c.policy_class
    && str_eq rec.block_class c.block_class
    && str_eq rec.policy_version c.policy_version
    && str_eq rec.ruleset_hash c.ruleset_hash
    && str_eq rec.policy_hash c.policy_hash
    && str_eq rec.reason_code c.reason_code
    && str_eq rec.branch c.branch
    && str_eq rec.workspace_revision c.workspace_revision
    && rec.contract_revision == c.contract_revision
    && same_string_set rec.required_claims c.claims

-- One round of the loop over the hits: a hit of another policy is expired, and so is a second of the
-- same. A record that was hit is as it was, since each round writes its own.
unfoldable pub reclaim_one :
    OpenCase → ℕ → String → Store × Option ChallengeRecord → Store × Option ChallengeRecord
reclaim_one c now id (s, kept) = elim (get s id) [
  | none ↦ (s, kept)
  | some rec ↦
      if policy_identity_match rec c
      then (elim kept [
        | none ↦ (s, some rec)
        | some first ↦ (expire_live c id "superseded_duplicate_open" now id s, some first)
      ])
      else (expire_live c id "superseded_by_policy_change" now id s, kept)
]

unfoldable pub reclaim :
    OpenCase → ℕ → List String → Store × Option ChallengeRecord → Store × Option ChallengeRecord
reclaim c now [] r = r
reclaim c now (id ∷ ids) r = reclaim c now ids (reclaim_one c now id r)

-- The new challenge is written.
unfoldable pub write_opened : Store → OpenCase → ℕ → Store × ChallengeRecord
unfolding record_of
write_opened s c now =
    let seq = s.seq + 1 in
    let rec = record (record_of c now) {
      created_sequence = seq;
      updated_sequence = seq;
      expires_at_sequence = if ltb 0 c.expires_after then seq + c.expires_after else 0;
    } in
    (
      put (record s { seq = seq }) rec
          (record {
            sequence = seq;
            challenge_id = rec.challenge_id;
            session_id = rec.session_id;
            kind = "opened";
            from_state = ChallengeState.unset;
            to_state = ChallengeState.opened;
            correlation_id = c.correlation_id;
            causation_id = c.action_id;
            payload_hash = c.fp.fingerprint;
            provider_call_audit_id = "";
            note = "open_appealable";
            at = now;
          })
          none,
      rec,
    )

-- The request as the barriers read it.
abbrev pub opening_of : OpenCase → Opening
opening_of c = record {
  session = c.session_id;
  fingerprint = c.fp.fingerprint;
  policy = c.policy_version;
  rules = c.ruleset_hash;
  ticket = c.ticket;
  side = c.fp.side_effect_class;
  targets = c.fp.target_resources;
  digest = c.fp.operation_digest;
}

-- The live challenge of the same policy, or a new one.
unfoldable pub kept_or_opened :
    OpenCase → ℕ → Store × Option ChallengeRecord → Store × Option ChallengeRecord
kept_or_opened c now (s, some rec) = (s, some rec)
kept_or_opened c now (s, none) = let (s', rec) = write_opened s c now in (s', some rec)

-- An appealable action; `none` where a barrier forbids it.
unfoldable pub open_appealable : Store → OpenCase → ℕ → Store × Option ChallengeRecord
unfolding is_hit ids_of
open_appealable s c now = elim (barrier_note s (opening_of c)) [
  | some note ↦ (s, none)
  | none ↦ kept_or_opened c now (reclaim c now (ids_of (is_hit c) s.by_id) (s, none))
]

-- The locked part of `Open`.
unfoldable pub open_locked : Store → OpenCase → Appeal → ℕ → Store × Option ChallengeRecord
open_locked s c non_appealable now = (open_denied s c now, none)
open_locked s c human_review now = let (s', rec) = open_review s c now in (s', some rec)
open_locked s c appealable now = open_appealable s c now
