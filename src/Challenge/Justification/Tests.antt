-- ===== src/Challenge/Justification/Tests.antt =====
-- pkg/challenge/justification.go at concrete justifications.
use reinframe.Prelude.{String, Char, List, [], ◌∷◌, ◌≡◌, refl, ok, err}
use reinframe.Detector.Fingerprint.{trim_space, map_chars}
use reinframe.Adapter.Proposed.{contains}
use reinframe.Challenge.Justification.{
  Justification, schema, validate_justification, clean_ids, duplicate_evidence_id, control_text,
  check_fields, check_field, check_injection, has_marker, check_claims, check_claim, text_for,
  cleaned, with_schema,
}
use reinframe.Challenge.Justification.Accepted.{IsAccepted, validate_justification-IsAccepted}

abbrev same : Char → Char
same c = c

abbrev given : Justification
given = record {
  schema_version = "";
  challenge_id = " ch ";
  concrete_value = " v ";
  prevented_failure_or_threat = "";
  estimated_cost = "";
  alternatives_considered = "";
  scope_limit = "";
  verification_plan = "";
  rollback_plan = "";
  evidence_ids = "e1" ∷ " e2" ∷ [];
}

abbrev clean : Justification
clean = record {
  schema_version = schema;
  challenge_id = "ch";
  concrete_value = "v";
  prevented_failure_or_threat = "";
  estimated_cost = "";
  alternatives_considered = "";
  scope_limit = "";
  verification_plan = "";
  rollback_plan = "";
  evidence_ids = "e1" ∷ "e2" ∷ [];
}

abbrev claims : List String
claims = "concrete_value" ∷ "supporting_evidence_event_ids" ∷ []

accepts : validate_justification same given ("e2" ∷ "e1" ∷ []) claims ≡ ok clean
unfolding validate_justification check_fields check_field check_injection has_marker contains
    map_chars trim_space check_claims check_claim text_for clean_ids cleaned with_schema
accepts = refl

refuses_twice : clean_ids same ("e1" ∷ []) [] ("e1" ∷ "e1 " ∷ []) ≡ err duplicate_evidence_id
unfolding validate_justification check_fields check_field check_injection has_marker contains
    map_chars trim_space check_claims check_claim text_for clean_ids cleaned with_schema
refuses_twice = refl

refuses_control : clean_ids same ("model=x" ∷ []) [] ("model=x" ∷ []) ≡ err control_text
unfolding validate_justification check_fields check_field check_injection has_marker contains
    map_chars trim_space check_claims check_claim text_for clean_ids cleaned with_schema
refuses_control = refl

validate_justification-IsAccepted_example : IsAccepted same given ("e2" ∷ "e1" ∷ []) claims clean
validate_justification-IsAccepted_example =
    validate_justification-IsAccepted same given ("e2" ∷ "e1" ∷ []) claims clean accepts
