-- ===== src/Challenge/Service.antt =====
-- pkg/challenge/service.go: a retry of a blocked action, against the store of the challenges. Each part
-- of a call that holds the store's lock is a function, so that calls may interleave; the clock is an
-- argument. What pkg/challenge/fingerprint.go computes is a parameter.
pub mod Retry
pub mod Safe
pub mod Opening
pub mod Tests
use reinframe.Prelude.{
  ℕ, ◌+◌, String, Bool, true, false, not, ◌&&◌, ◌||◌, ◌==◌, Option, none, some, List, [], ◌∷◌,
  length, is_empty, str_eq, ltb, leb, if◌then◌else◌, lookup, insert,
}
use reinframe.Detector.Fingerprint.{trim_space}
use reinframe.Adapter.Proposed.{ProposedAction}
use reinframe.Challenge.States.{ChallengeState, is_terminal}
use reinframe.Challenge.Store.{Decision, ChallengeRecord, Store, Transition, append_transition, get}

pub record FingerprintResult : Type 0 where
  pub fingerprint : String
  pub side_effect_class : String
  pub target_resources : List String
  pub operation_digest : String

-- `SemanticRelationship`
pub data Relationship : Type 0 where
  same reduced_scope different bypass : Relationship

-- What the fingerprints answer: `ValidateProposedForChallenge`, `ComputeFingerprint` for a session, a
-- branch, a workspace and a contract revision, `ClassifyRelationship`, the hash of named fields, and the code of a list of texts.
pub record Fingerprints : Type 0 where
  pub is_valid : ProposedAction → Bool
  pub compute : ProposedAction → String → String → String → ℕ → Option FingerprintResult
  pub relate : FingerprintResult → FingerprintResult → Relationship
  pub hash_fields : List (String × String) → String
  pub encode_list : List String → String

pub record RetryRequest : Type 0 where
  pub challenge_id : String
  pub challenge_nonce : String
  pub require_nonce : Bool
  pub session_id : String
  pub branch : String
  pub retry_request_id : String
  pub proposed : ProposedAction
  pub correlation_id : String

-- `RetryResult` with the error that is returned beside it, without its arguments; the provider's audit
-- is left out.
pub record RetryResult : Type 0 where
  pub rec : Option ChallengeRecord
  pub decision : Decision
  pub intervention : String
  pub relationship : Option Relationship
  pub idempotent_replay : Bool
  pub rejected_reason : String
  pub error : String

-- Nothing but an error.
abbrev pub refused : String → RetryResult
refused error = record {
  rec = none;
  decision = Decision.undecided;
  intervention = "";
  relationship = none;
  idempotent_replay = false;
  rejected_reason = "";
  error = error;
}

-- A block, with the record's intervention.
abbrev pub blocked : ChallengeRecord → Option Relationship → String → String → RetryResult
blocked rec rel reason error = record {
  rec = some rec;
  decision = Decision.block;
  intervention = rec.intervention;
  relationship = rel;
  idempotent_replay = false;
  rejected_reason = reason;
  error = error;
}

-- `firstNonEmpty` and `pickContract`
first_non_empty : String → String → String
first_non_empty a b = if is_empty (trim_space a) then b else a

pick_contract : ℕ → ℕ → ℕ
pick_contract a b = if a == 0 then b else a

-- The text is given, and is not that of the record.
differs : String → String → Bool
differs given own = not (is_empty (trim_space given)) && not (str_eq (trim_space given) own)

-- `checkOwnership`: the error, if the request is not for the owner of the challenge.
unfoldable pub check_ownership : ChallengeRecord → RetryRequest → Option String
unfolding differs
check_ownership rec req =
    if differs req.session_id rec.session_id
    then some "retry: session_id mismatch"
    else if differs req.proposed.session_id rec.session_id
    then some "retry: proposed session_id mismatch"
    else if differs req.branch rec.branch && not (is_empty rec.branch)
    then some "retry: branch mismatch"
    else if differs req.proposed.workspace_revision rec.workspace_revision
        && not (is_empty (trim_space rec.workspace_revision))
    then some "retry: workspace_revision mismatch"
    else if not (req.proposed.contract_revision == 0)
        && not (rec.contract_revision == 0)
        && not (req.proposed.contract_revision == rec.contract_revision)
    then some "retry: contract_revision mismatch"
    else none

holds : String → List String → Bool
holds t [] = false
holds t (x ∷ xs) = str_eq x t || holds t xs

holds_all : List String → List String → Bool
unfolding holds
holds_all cand [] = true
holds_all cand (t ∷ ts) = holds t cand && holds_all cand ts

-- `isTargetSuperset`
unfoldable pub is_target_superset : List String → List String → Bool
unfolding holds_all
is_target_superset cand original =
    ltb (length original) (length cand) && not (length original == 0) && holds_all cand original

-- `isProviderFailOpenReason`
unfoldable pub is_provider_fail_open_reason : String → Bool
is_provider_fail_open_reason reason =
    str_eq reason "provider_fail_open"
    || str_eq reason "parse_fail_open"
    || str_eq reason "severity_fail_open"
    || str_eq reason "reeval_error"

-- The challenge has lapsed and is not ended.
abbrev pub is_due : Store → ChallengeRecord → Bool
is_due s rec =
    ltb 0 rec.expires_at_sequence
    && leb rec.expires_at_sequence s.seq
    && not (is_terminal rec.state)

-- The move to EXPIRED.
abbrev pub expiry : ChallengeState → String → String → String → String → ℕ → Transition
expiry from corr cause payload note now = record {
  from = from;
  to = ChallengeState.expired;
  kind = "expired";
  corr = corr;
  cause = cause;
  payload_hash = payload;
  note = note;
  audit_id = "";
  at = now;
  just = none;
}

-- `expireIfNeeded`: the record as it is now, and whether it has been expired.
unfoldable pub expire_if_needed : Store → ChallengeRecord → ℕ → Store × ChallengeRecord × Bool
expire_if_needed s rec now =
    if not (is_due s rec) then (s, rec, false) else elim (get s rec.challenge_id) [
      | none ↦ (s, rec, false)
      | some cur ↦
          if is_terminal cur.state
          then (s, cur, false)
          else let (s', updated) =
              append_transition s cur
                (expiry cur.state "" rec.challenge_id "" "sequence_expiry" now) in
            (s', updated, true)
    ]

-- The part of `Abandon` by the state of the record; `left` is what it would become.
unfoldable pub abandon_at :
    Store
    → ChallengeRecord
    → Store × ChallengeRecord
    → ChallengeState
    → Store × Option ChallengeRecord × Bool
abandon_at s rec (s', left) ChallengeState.opened = (s', some left, false)
abandon_at s rec (s', left) ChallengeState.justified = (s', some left, false)
abandon_at s rec (s', left) st = (s, some rec, not (is_terminal st))

-- `Abandon`; the flag says that an error is returned.
unfoldable pub abandon : Store → String → String → ℕ → Store × Option ChallengeRecord × Bool
abandon s id corr now = elim (get s id) [
  | none ↦ (s, none, true)
  | some rec ↦
      abandon_at s rec
        (append_transition s rec (record {
          from = rec.state;
          to = ChallengeState.abandoned;
          kind = "abandoned";
          corr = corr;
          cause = id;
          payload_hash = "";
          note = "user_abandon";
          audit_id = "";
          at = now;
          just = none;
        }))
        rec.state
]

-- One round of `ExpireDue`; `seq` is the sequence at the start of the loop.
unfoldable pub expire_at : ℕ → ℕ → String → Store → Store × Bool
expire_at seq now id s = elim (get s id) [
  | none ↦ (s, false)
  | some rec ↦
      if ltb 0 rec.expires_at_sequence
        && leb rec.expires_at_sequence seq
        && not (is_terminal rec.state)
      then ((append_transition s rec (expiry rec.state "" id "" "sequence_expiry" now)).0, true)
      else (s, false)
]

unfoldable pub expire_each : ℕ → ℕ → List String → Store → Store × ℕ
expire_each seq now [] s = (s, 0)
expire_each seq now (id ∷ ids) s =
    let (s1, due) = expire_at seq now id s in
    let (s2, n) = expire_each seq now ids s1 in (s2, if due then n + 1 else n)

keys : {A : Type 0} → List (String × A) → List String
keys [] = []
keys ((k, x) ∷ m) = k ∷ keys m

-- `ExpireDue`
unfoldable pub expire_due : Store → ℕ → Store × ℕ
unfolding keys
expire_due s now = expire_each s.seq now (keys s.by_id) s

-- The part of `Justify` by the state of the record; `taken` is what it would become.
unfoldable pub justify_at :
    Store
    → ChallengeRecord
    → String
    → Store × ChallengeRecord
    → ChallengeState
    → Store × Option ChallengeRecord × Bool
justify_at s rec hash (s', updated) ChallengeState.opened = (s', some updated, false)
justify_at s rec hash (s', updated) ChallengeState.justified =
    (s, some rec, not (str_eq rec.justification_hash hash))
justify_at s rec hash (s', updated) _ = (s, some rec, true)

-- The locked part of `Justify`; `hash` is that of the cleaned justification.
unfoldable pub justify_locked : Store → String → String → ℕ → Store × Option ChallengeRecord × Bool
justify_locked s id hash now = elim (get s id) [
  | none ↦ (s, none, true)
  | some rec ↦
      let (late, ended) =
        append_transition s rec
          (expiry rec.state id rec.original_action_id "" "sequence_expiry_under_lock" now) in
      let taken =
        append_transition s (record rec { justification_hash = hash })
          (record {
            from = rec.state;
            to = ChallengeState.justified;
            kind = "justified";
            corr = id;
            cause = rec.original_action_id;
            payload_hash = hash;
            note = "justification_accepted";
            audit_id = "";
            at = now;
            just = some hash;
          }) in
      if is_due s rec then (late, some ended, true) else justify_at s rec hash taken rec.state
]

-- `Justify`; `hash` is that of the justification that is accepted for the record, if it is.
unfoldable pub justify :
    Store
    → String
    → (ChallengeRecord → Option String)
    → ℕ
    → ℕ
    → Store × Option ChallengeRecord × Bool
justify s id hash first now = elim (get s id) [
  | none ↦ (s, none, true)
  | some rec ↦
      let (s', cur, lapsed) = expire_if_needed s rec first in
      if lapsed then (s', some cur, true) else elim cur.state [
        | ChallengeState.expired ↦ (s', some cur, true)
        | _ ↦ (elim (hash cur) [
          | none ↦ (s', none, true)
          | some h ↦ justify_locked s' cur.challenge_id h now
        ])
      ]
]
