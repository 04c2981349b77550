-- ===== src/Challenge/Justification.antt =====
-- pkg/challenge/justification.go: what a blocked agent may bring forward. The first error is returned;
-- Go goes over the fields in any order, so that it may report another one of them. `lower` maps one
-- character as `unicode.ToLower` does.
pub mod Trimming
pub mod Claims
pub mod Accepted
mod Tests
use reinframe.Prelude.{
  ℕ, zero, suc, ◌+◌, String, Char, Bool, true, false, not, ◌&&◌, ◌||◌, Option, none, some, List, [],
  ◌∷◌, length, is_empty, str_eq, leb, if◌then◌else◌, Result, ok, err, ◌>>=◌, ◌>>◌, ensure,
}
use reinframe.Detector.Fingerprint.{trim_space, map_chars}
use reinframe.Adapter.Proposed.{contains}
use reinframe.Challenge.Store.{ChallengeRecord}
use reinframe.Challenge.Service.{Fingerprints}

pub record Justification : Type 0 where
  pub schema_version : String
  pub challenge_id : String
  pub concrete_value : String
  pub prevented_failure_or_threat : String
  pub estimated_cost : String
  pub alternatives_considered : String
  pub scope_limit : String
  pub verification_plan : String
  pub rollback_plan : String
  pub evidence_ids : List String

pub data Flaw : Type 0 where
  unsupported_schema challenge_id_required field_too_long control_text unsupported_claim : Flaw
  missing_claim too_many_evidence_ids empty_evidence_id evidence_id_too_long : Flaw
  duplicate_evidence_id unknown_evidence_id : Flaw

abbrev pub schema : String
schema = "reinframe.challenge_justification.v1"

abbrev pub max_field : ℕ
max_field = 500

-- `injectionMarkers`
abbrev pub injection_markers : List String
injection_markers =
    "ignore previous" ∷ "ignore all previous" ∷ "system prompt" ∷ "override policy" ∷ "set policy"
    ∷ "ruleset=" ∷ "provider=" ∷ "model=" ∷ "api_key" ∷ "authorization:" ∷ "BEGIN PRIVATE"
    ∷ "chain-of-thought" ∷ "chain of thought" ∷ "<policy>" ∷ "</policy>" ∷ "allow unconditionally"
    ∷ "force allow" ∷ "decision=allow" ∷ "stage2=allow" ∷ []

-- `utf8.RuneCountInString`
abbrev pub runes : String → ℕ
runes String.[] = 0
runes (String.◌∷◌ c s) = suc (runes s)

abbrev pub first_runes : ℕ → String → String
first_runes zero s = String.[]
first_runes (suc n) String.[] = String.[]
first_runes (suc n) (String.◌∷◌ c s) = String.◌∷◌ c (first_runes n s)

-- `boundField`
abbrev pub bound_field : String → String
bound_field s =
    if leb (runes (trim_space s)) max_field
    then trim_space s
    else first_runes max_field (trim_space s)

abbrev pub is_in : String → List String → Bool
is_in x [] = false
is_in x (y ∷ ys) = str_eq x y || is_in x ys

-- The text for a claim, `none` where the name is none of the texts' claims.
unfoldable pub text_for : String → Justification → Option String
text_for claim j =
    if str_eq claim "concrete_value"
    then some j.concrete_value
    else if str_eq claim "prevented_failure_or_threat"
    then some j.prevented_failure_or_threat
    else if str_eq claim "estimated_cost"
    then some j.estimated_cost
    else if str_eq claim "scope_limit"
    then some j.scope_limit
    else if str_eq claim "verification_plan"
    then some j.verification_plan
    else if str_eq claim "rollback_plan"
    then some j.rollback_plan
    else if str_eq claim "alternatives_considered"
    then some j.alternatives_considered
    else none

abbrev pub has_any : List String → Bool
has_any [] = false
has_any (x ∷ xs) = true

-- One round of the loop over the required claims.
unfoldable pub check_claim : Justification → String → Result Flaw (Unit {0})
check_claim j given =
    let claim = trim_space given in
    if str_eq claim "supporting_evidence_event_ids"
    then ensure (has_any j.evidence_ids) missing_claim
    else elim (text_for claim j) [
      | none ↦ err unsupported_claim
      | some v ↦ ensure (not (is_empty (trim_space v))) missing_claim
    ]

unfoldable pub check_claims : Justification → List String → Result Flaw (Unit {0})
check_claims j [] = ok tt
check_claims j (c ∷ cs) = do check_claim j c; check_claims j cs

-- The schema, if none is given.
unfoldable pub with_schema : Justification → Justification
with_schema j = record j {
  schema_version = if is_empty (trim_space j.schema_version) then schema else j.schema_version;
}

-- The justification that is accepted, with its evidence.
unfoldable pub cleaned : Justification → List String → Justification
cleaned j ids = record {
  schema_version = schema;
  challenge_id = trim_space j.challenge_id;
  concrete_value = bound_field j.concrete_value;
  prevented_failure_or_threat = bound_field j.prevented_failure_or_threat;
  estimated_cost = bound_field j.estimated_cost;
  alternatives_considered = bound_field j.alternatives_considered;
  scope_limit = bound_field j.scope_limit;
  verification_plan = bound_field j.verification_plan;
  rollback_plan = bound_field j.rollback_plan;
  evidence_ids = ids;
}

-- `HashJustification`
unfoldable pub hash_justification : Fingerprints → Justification → String
hash_justification ops j = ops.hash_fields (
    ("schema", j.schema_version)
    ∷ ("challenge_id", j.challenge_id)
    ∷ ("concrete_value", j.concrete_value)
    ∷ ("prevented_failure_or_threat", j.prevented_failure_or_threat)
    ∷ ("estimated_cost", j.estimated_cost)
    ∷ ("alternatives_considered", j.alternatives_considered)
    ∷ ("scope_limit", j.scope_limit)
    ∷ ("verification_plan", j.verification_plan)
    ∷ ("rollback_plan", j.rollback_plan)
    ∷ ("evidence", ops.encode_list j.evidence_ids)
    ∷ [])

module _ (lower : Char → Char) where
  -- The text contains one of the markers, in any case.
  unfoldable pub has_marker : String → List String → Bool
  has_marker v [] = false
  has_marker v (m ∷ ms) = contains (map_chars lower v) (map_chars lower m) || has_marker v ms

  -- `checkInjection`
  unfoldable pub check_injection : String → Result Flaw (Unit {0})
  check_injection v = ensure (not (has_marker v injection_markers)) control_text

  -- `checkField`
  unfoldable pub check_field : String → Result Flaw (Unit {0})
  check_field v = do ensure (leb (runes v) max_field) field_too_long; check_injection v

  unfoldable pub check_fields : List String → Result Flaw (Unit {0})
  check_fields [] = ok tt
  check_fields (v ∷ vs) = do check_field v; check_fields vs

  -- The loop over the evidence; `seen` are the ids that it has taken.
  unfoldable pub clean_ids : List String → List String → List String → Result Flaw (List String)
  clean_ids known seen [] = ok []
  clean_ids known seen (given ∷ ids) =
      let id = trim_space given in
      do
        ensure (not (is_empty id)) empty_evidence_id
        ensure (leb (runes id) 128) evidence_id_too_long
        ensure (not (is_in id seen)) duplicate_evidence_id
        ensure (is_in id known) unknown_evidence_id
        check_injection id
        rest ← clean_ids known (id ∷ seen) ids
        ok (id ∷ rest)

  -- `ValidateJustification`
  unfoldable pub validate_justification :
      Justification → List String → List String → Result Flaw Justification
  unfolding with_schema
  validate_justification j known claims = do
    ensure (str_eq (with_schema j).schema_version schema) unsupported_schema
    ensure (not (is_empty (trim_space j.challenge_id))) challenge_id_required
    check_fields (
        j.concrete_value ∷ j.prevented_failure_or_threat ∷ j.estimated_cost
        ∷ j.alternatives_considered ∷ j.scope_limit ∷ j.verification_plan ∷ j.rollback_plan ∷ [])
    check_claims j claims
    ensure (leb (length j.evidence_ids) 16) too_many_evidence_ids
    ids ← clean_ids known [] j.evidence_ids
    ok (cleaned j ids)

  -- The hash that `Justify` keeps for a record, if the justification is accepted and names it.
  unfoldable pub accepted_hash :
      Fingerprints → Justification → List String → ChallengeRecord → Option String
  accepted_hash ops j known rec = elim (validate_justification j known rec.required_claims) [
    | err e ↦ none
    | ok clean ↦
        if str_eq clean.challenge_id rec.challenge_id
        then some (hash_justification ops clean)
        else none
  ]
