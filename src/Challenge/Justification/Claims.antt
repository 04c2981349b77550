-- ===== src/Challenge/Justification/Claims.antt =====
-- The claims that ValidateJustification of pkg/challenge/justification.go asks for.
use reinframe.Prelude.{
  String, true, false, not, none, some, List, [], ◌∷◌, All, length, is_empty, str_eq, if◌then◌else◌,
  ◌∙◌, Ensures, Ensures-bind, Ensures-guard, Ensures-map, ◌≡◌, refl, arith, Option-cases,
  Bool-cases, inl, inr,
}
use reinframe.Detector.Fingerprint.{trim_space}
use reinframe.Challenge.Justification.{
  Justification, bound_field, text_for, check_claim, check_claims, cleaned, has_any, missing_claim,
}
use reinframe.Challenge.Justification.Trimming.{bound_field-full}

-- The claim is answered: by evidence, or by a text that is not blank.
abbrev pub IsAnswered : Justification → String → Type 0
IsAnswered j given =
    if str_eq (trim_space given) "supporting_evidence_event_ids"
    then has_any j.evidence_ids ≡ true
    else elim (text_for (trim_space given) j) [
      | none ↦ ⊥
      | some v ↦ is_empty (trim_space v) ≡ false
    ]

-- Each text without the space around it.
abbrev pub trimmed : List String → List String
trimmed [] = []
trimmed (s ∷ ss) = trim_space s ∷ trimmed ss

text_for-cleaned :
    (claim : String) (j : Justification) (ids : List String)
    → text_for claim (cleaned j ids)
      ≡ (elim (text_for claim j) [ none ↦ none | some v ↦ some (bound_field v) ])
unfolding text_for cleaned
text_for-cleaned claim j ids = ground arith

-- What `check_claim` sees to.
abbrev pub Backed : Justification → String → Type 0
Backed j given =
    if str_eq (trim_space given) "supporting_evidence_event_ids"
    then has_any j.evidence_ids ≡ true
    else elim (text_for (trim_space given) j) [
      | none ↦ ⊥
      | some v ↦ is_empty (trim_space v) ≡ false
    ]

check_claim-Backed :
    (j : Justification) (given : String) → Ensures (λ _. Backed j given) (check_claim j given)
unfolding check_claim
check_claim-Backed j given =
    elim (Bool-cases (str_eq (trim_space given) "supporting_evidence_event_ids")) [
      | inl e ↦
          rw (e, check_claim)
            (Ensures-guard (has_any j.evidence_ids ≡ true) (has_any j.evidence_ids) missing_claim
              (λ h. h))
      | inr e ↦ elim (Option-cases (text_for (trim_space given) j)) [
        | inl absent ↦ rw (e, check_claim, absent) tt
        | inr (v, there) ↦
            rw (e, check_claim, there)
              (Ensures-guard (is_empty (trim_space v) ≡ false) (not (is_empty (trim_space v)))
                missing_claim (λ h. ground (arith, h)))
      ]
    ]

pub check_claims-Backed :
    (j : Justification) (claims : List String)
    → Ensures (λ _. All (Backed j) claims) (check_claims j claims)
unfolding check_claims
check_claims-Backed j [] = tt
check_claims-Backed j (c ∷ cs) =
    Ensures-bind (λ _. Backed j c) (λ _. All (Backed j) (c ∷ cs)) (check_claim j c)
      (λ _. check_claims j cs) (check_claim-Backed j c)
      (λ _ backed.
        Ensures-map (λ _. All (Backed j) cs) (λ _. All (Backed j) (c ∷ cs)) (check_claims j cs)
          (λ _ rest. (backed, rest)) (check_claims-Backed j cs))

has_any-trimmed : (ids : List String) → has_any ids ≡ true → has_any (trimmed ids) ≡ true
has_any-trimmed [] h = h
has_any-trimmed (x ∷ xs) h = refl

pub length-trimmed : (ids : List String) → length (trimmed ids) ≡ length ids
length-trimmed [] = refl
length-trimmed (x ∷ xs) = omega (arith, length-trimmed xs)

pub Backed-IsAnswered :
    (j : Justification) (ids : List String) (given : String)
    → ids ≡ trimmed j.evidence_ids
    → Backed j given
    → IsAnswered (cleaned j ids) given
unfolding cleaned
Backed-IsAnswered j ids given same backed =
    let claim = trim_space given in
    elim (Bool-cases (str_eq claim "supporting_evidence_event_ids")) [
      | inl e ↦ rw (e, same) (has_any-trimmed j.evidence_ids (rw e at backed))
      | inr e ↦ elim (Option-cases (text_for claim j)) [
        | inl absent ↦ absurd (rw (e, absent) at backed)
        | inr (v, there) ↦
            let found : text_for claim (cleaned j ids) ≡ some (bound_field v) =
              text_for-cleaned claim j ids ∙ rw there refl in
            rw (e, found) (bound_field-full v (rw (e, there) at backed))
      ]
    ]
