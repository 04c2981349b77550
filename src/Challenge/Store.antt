-- ===== src/Challenge/Store.antt =====
-- pkg/challenge/store.go: the event log, the records, the active challenge of each session and action
-- fingerprint, and the barriers of hard denials. The mutexes make each call one step; the clock is an
-- argument. Records are values, so cloning is the identity. The channels of the waiters and the file
-- of the store are left out.
pub mod Single
pub mod Barriers
use reinframe.Prelude.{
  ℕ, suc, ◌+◌, String, Bool, true, false, not, ◌&&◌, ◌||◌, Option, none, some, List, [], ◌∷◌, ◌++◌,
  Map, lookup, insert, remove, lookup_or, is_empty, str_eq, ltb, ◌⧺◌, if◌then◌else◌,
}
use reinframe.Challenge.States.{ChallengeState, is_terminal, is_active}
use text.Mathlib.Text.{starts_with}

-- The decision of stage 2: a Go string, of which the empty one is `undecided`.
pub data Decision : Type 0 where
  allow block undecided : Decision
  other : String → Decision

-- `ChallengeRecord`. Its numbers are not negative: the budget starts at 1 and is lowered while it is
-- positive, the sequences count, and no contract has a revision below 0.
pub record ChallengeRecord : Type 0 where
  pub challenge_id : String
  pub challenge_nonce : String
  pub suggested_fix : String
  pub session_id : String
  pub action_fingerprint : String
  pub original_action_id : String
  pub policy_class : String
  pub block_class : String
  pub reason_code : String
  pub required_claims : List String
  pub retry_budget : ℕ
  pub retry_budget_initial : ℕ
  pub state : ChallengeState
  pub appealability : String
  pub intervention : String
  pub stage2_decision : Decision
  pub workspace_revision : String
  pub contract_revision : ℕ
  pub branch : String
  pub side_effect_class : String
  pub target_resources : List String
  pub policy_version : String
  pub ruleset_hash : String
  pub policy_hash : String
  pub justification_hash : String
  pub consumed_retry_key : String
  pub operation_digest : String
  pub expires_at_sequence : ℕ
  pub created_sequence : ℕ
  pub updated_sequence : ℕ
  pub provider_call_audit_id : String
  pub created_at : ℕ
  pub updated_at : ℕ

pub record ChallengeEvent : Type 0 where
  pub sequence : ℕ
  pub challenge_id : String
  pub session_id : String
  pub kind : String
  pub from_state : ChallengeState
  pub to_state : ChallengeState
  pub correlation_id : String
  pub causation_id : String
  pub payload_hash : String
  pub provider_call_audit_id : String
  pub note : String
  pub at : ℕ

-- `barrierEntry`
pub record BarrierEntry : Type 0 where
  pub note : String
  pub policy_version : String
  pub ruleset_hash : String
  pub mark_seq : ℕ
  pub side_effect_class : String
  pub target_resources : List String
  pub operation_digest : String

-- A justification is its hash here.
pub record Store : Type 0 where
  pub seq : ℕ
  pub events : List ChallengeEvent
  pub by_id : Map ChallengeRecord
  pub justifications : Map String
  pub open_by_fp : Map String
  pub non_appeal_barrier : Map BarrierEntry

-- `NewStore`
abbrev pub new_store : Store
new_store = record {
  seq = 0;
  events = [];
  by_id = [];
  justifications = [];
  open_by_fp = [];
  non_appeal_barrier = [];
}

-- `sessionID + "|" + fingerprint`
abbrev pub barrier_key : String → String → String
barrier_key session fp = session ⧺ "|" ⧺ fp

-- The two records are challenges of one session and action.
abbrev pub same_action : ChallengeRecord → ChallengeRecord → Bool
same_action a b =
    str_eq a.session_id b.session_id && str_eq a.action_fingerprint b.action_fingerprint

-- What `putLocked` makes of another record when `rec` becomes active.
unfoldable pub expire_one : ChallengeRecord → String → ChallengeRecord → ChallengeRecord
expire_one rec id existing =
    if not (str_eq id rec.challenge_id)
      && same_action existing rec
      && not (is_terminal existing.state)
    then record existing {
      state = ChallengeState.expired;
      updated_sequence = rec.updated_sequence;
      updated_at = rec.updated_at;
    }
    else existing

unfoldable pub expire_others : ChallengeRecord → Map ChallengeRecord → Map ChallengeRecord
unfolding expire_one
expire_others rec [] = []
expire_others rec ((id, existing) ∷ m) = (id, expire_one rec id existing) ∷ expire_others rec m

-- `putLocked`
unfoldable pub put : Store → ChallengeRecord → ChallengeEvent → Option String → Store
put s rec ev just =
    let by_id = insert rec.challenge_id rec s.by_id in
    let key = barrier_key rec.session_id rec.action_fingerprint in
    let justified : Map String = elim just [
      | none ↦ s.justifications
      | some j ↦ insert rec.challenge_id j s.justifications
    ] in
    let logged = record s { events = s.events ++ ev ∷ []; justifications = justified } in
    if is_active rec.state
    then record logged {
      by_id = expire_others rec by_id;
      open_by_fp = insert key rec.challenge_id s.open_by_fp;
    }
    else record logged {
      by_id = by_id;
      open_by_fp =
          if str_eq (lookup_or "" key s.open_by_fp) rec.challenge_id
          then remove key s.open_by_fp
          else s.open_by_fp;
    }

-- The arguments of `appendTransitionAudit` beside the record.
pub record Transition : Type 0 where
  pub from : ChallengeState
  pub to : ChallengeState
  pub kind : String
  pub corr : String
  pub cause : String
  pub payload_hash : String
  pub note : String
  pub audit_id : String
  pub at : ℕ
  pub just : Option String

abbrev pub moved : Store → ChallengeRecord → Transition → ChallengeRecord
moved s rec t = record rec {
  state = t.to;
  updated_sequence = s.seq + 1;
  updated_at = t.at;
  provider_call_audit_id = if is_empty t.audit_id then rec.provider_call_audit_id else t.audit_id;
}

-- `appendTransitionAudit`
unfoldable pub append_transition : Store → ChallengeRecord → Transition → Store × ChallengeRecord
unfolding put
append_transition s rec t =
    let r = moved s rec t in
    let ev : ChallengeEvent = record {
      sequence = s.seq + 1;
      challenge_id = rec.challenge_id;
      session_id = rec.session_id;
      kind = t.kind;
      from_state = t.from;
      to_state = t.to;
      correlation_id = t.corr;
      causation_id = t.cause;
      payload_hash = t.payload_hash;
      provider_call_audit_id = t.audit_id;
      note = t.note;
      at = t.at;
    } in
    (put (record s { seq = s.seq + 1 }) r ev t.just, r)

-- `Get`
unfoldable pub get : Store → String → Option ChallengeRecord
get s id = lookup id s.by_id

-- `ActiveByFingerprint`
unfoldable pub active_by_fingerprint : Store → String → String → Option ChallengeRecord
active_by_fingerprint s session fp = elim (lookup (barrier_key session fp) s.open_by_fp) [
  | none ↦ none
  | some id ↦ (elim (lookup id s.by_id) [
    | none ↦ none
    | some rec ↦ if is_active rec.state then some rec else none
  ])
]

-- `markNonAppealBarrierLocked`; the entry's own `mark_seq` is replaced by the new watermark.
unfoldable pub mark_barrier : Store → String → String → BarrierEntry → Store
mark_barrier s session fp e = record s {
  seq = s.seq + 1;
  non_appeal_barrier =
      insert (barrier_key session fp) (record e { mark_seq = s.seq + 1 }) s.non_appeal_barrier;
}

-- `sameStringSet`, which compares in order.
unfoldable pub same_string_set : List String → List String → Bool
same_string_set [] [] = true
same_string_set (x ∷ xs) (y ∷ ys) = str_eq x y && same_string_set xs ys
same_string_set _ _ = false

-- `semanticActionMatch`
unfoldable pub semantic_action_match :
    String → List String → String → String → List String → String → Bool
unfolding same_string_set
semantic_action_match side targets op side' targets' op' =
    str_eq side side' && not (is_empty op) && str_eq op op' && same_string_set targets targets'

-- `barrierPolicyHit`
unfoldable pub barrier_policy_hit : BarrierEntry → String → String → ℕ → Option String
barrier_policy_hit e policy rules ticket =
    if str_eq e.policy_version policy && str_eq e.ruleset_hash rules
    then some e.note
    else if ltb ticket e.mark_seq
    then some (e.note ⧺ "_stale_open")
    else none

-- A request to open, as far as the barriers read it.
pub record Opening : Type 0 where
  pub session : String
  pub fingerprint : String
  pub policy : String
  pub rules : String
  pub ticket : ℕ
  pub side : String
  pub targets : List String
  pub digest : String

-- The loop over the entries of other keys of the session.
unfoldable pub scan_barriers : Opening → String → Map BarrierEntry → Option String
unfolding semantic_action_match barrier_policy_hit
scan_barriers o k [] = none
scan_barriers o k ((key, e) ∷ m) =
    let rest = scan_barriers o k m in
    if str_eq key k
      || not (starts_with key (o.session ⧺ "|"))
      || not (
          semantic_action_match e.side_effect_class e.target_resources e.operation_digest o.side
            o.targets o.digest)
    then rest
    else (elim (barrier_policy_hit e o.policy o.rules o.ticket) [
      | some note ↦ some note
      | none ↦ rest
    ])

-- `nonAppealBarrierNoteLocked`; `none` where the open may proceed.
unfoldable pub barrier_note : Store → Opening → Option String
unfolding scan_barriers barrier_policy_hit
barrier_note s o =
    let k = barrier_key o.session o.fingerprint in
    let exact : Option String = elim (lookup k s.non_appeal_barrier) [
      | none ↦ none
      | some e ↦ barrier_policy_hit e o.policy o.rules o.ticket
    ] in
    elim exact [
      | some note ↦ some note
      | none ↦ if is_empty o.digest then none else scan_barriers o k s.non_appeal_barrier
    ]
