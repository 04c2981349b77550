-- ===== src/Challenge/Justification/Accepted.antt =====
-- What ValidateJustification of pkg/challenge/justification.go accepts.
use reinframe.Prelude.{
  ◌≤◌, String, Char, true, false, not, List, [], ◌∷◌, All, length, is_empty, str_eq, leb, Result,
  ok, ◌>>=◌, ◌>>◌, ensure, Ensures, ap, not-eq-true, Ensures-ensure, All-map, Ensures-bind,
  Ensures-guard, Ensures-map, Ensures-eq, ◌≡◌, refl, arith,
}
use reinframe.Detector.Fingerprint.{trim_space}
use reinframe.Challenge.Justification.{
  Justification, Flaw, schema, max_field, runes, is_in, check_claims, cleaned, check_injection,
  check_field, check_fields, clean_ids, has_marker, validate_justification, with_schema,
  unsupported_schema, challenge_id_required, injection_markers, too_many_evidence_ids,
  empty_evidence_id, evidence_id_too_long, control_text, duplicate_evidence_id, unknown_evidence_id,
  field_too_long,
}
use reinframe.Challenge.Justification.Trimming.{bound_field-trims}
use reinframe.Challenge.Justification.Claims.{
  IsAnswered, trimmed, Backed, check_claims-Backed, Backed-IsAnswered, length-trimmed,
}

-- No text of the list stands in it twice.
abbrev pub IsDistinct : List String → Type 0
IsDistinct [] = Unit {0}
IsDistinct (x ∷ xs) = All (λ y. str_eq y x ≡ false) xs × IsDistinct xs

-- The texts of a justification.
abbrev pub texts : Justification → List String
texts j =
    j.concrete_value ∷ j.prevented_failure_or_threat ∷ j.estimated_cost ∷ j.alternatives_considered
    ∷ j.scope_limit ∷ j.verification_plan ∷ j.rollback_plan ∷ []

-- `checkField` finds nothing wrong with the text.
abbrev pub IsClean : (Char → Char) → String → Type 0
IsClean lower v = (runes v ≤ max_field) × (has_marker lower v injection_markers ≡ false)

-- An id of known evidence, which is not empty, not too long, and without control text.
abbrev pub IsCited : (Char → Char) → List String → String → Type 0
IsCited lower known id =
    (is_in id known ≡ true)
    × ((is_empty id ≡ false) × ((runes id ≤ 128) × (has_marker lower id injection_markers ≡ false)))

-- What the loop over the evidence has taken.
record Taken (lower : Char → Char) (known seen given out : List String) : Type 0 where
  cited : All (IsCited lower known) out
  not_seen : All (λ x. is_in x seen ≡ false) out
  distinct : IsDistinct out
  same : out ≡ trimmed given

seen_apart :
    (id : String) (seen out : List String)
    → All (λ x. is_in x (id ∷ seen) ≡ false) out
    → All (λ x. str_eq x id ≡ false) out × All (λ x. is_in x seen ≡ false) out
seen_apart id seen [] h = (tt, tt)
seen_apart id seen (x ∷ xs) h =
    let (apart, rest) = seen_apart id seen xs h.1 in
    let here = h.0 in ((ground (arith, here), apart), (ground (arith, here), rest))

check_injection-clean :
    (lower : Char → Char) (v : String)
    → Ensures (λ _. has_marker lower v injection_markers ≡ false) (check_injection lower v)
unfolding check_injection
check_injection-clean lower v =
    Ensures-guard (has_marker lower v injection_markers ≡ false)
      (not (has_marker lower v injection_markers)) control_text (λ h. not-eq-true _ h)

check_field-IsClean :
    (lower : Char → Char) (v : String) → Ensures (λ _. IsClean lower v) (check_field lower v)
unfolding check_field
check_field-IsClean lower v =
    Ensures-ensure (λ _. IsClean lower v) (leb (runes v) max_field) field_too_long
      (check_injection lower v)
      λ short.
        Ensures-map (λ _. has_marker lower v injection_markers ≡ false) (λ _. IsClean lower v)
          (check_injection lower v) (λ _ clean. (ground (arith, short), clean))
          (check_injection-clean lower v)

check_fields-IsClean :
    (lower : Char → Char) (vs : List String)
    → Ensures (λ _. All (IsClean lower) vs) (check_fields lower vs)
unfolding check_fields
check_fields-IsClean lower [] = tt
check_fields-IsClean lower (v ∷ vs) =
    Ensures-bind (λ _. IsClean lower v) (λ _. All (IsClean lower) (v ∷ vs)) (check_field lower v)
      (λ _. check_fields lower vs) (check_field-IsClean lower v)
      λ _ clean.
        Ensures-map (λ _. All (IsClean lower) vs) (λ _. All (IsClean lower) (v ∷ vs))
          (check_fields lower vs) (λ _ rest. (clean, rest)) (check_fields-IsClean lower vs)

-- The texts of the accepted justification are those that were given, trimmed.
texts-cleaned :
    (lower : Char → Char) (j : Justification) (ids : List String)
    → All (IsClean lower) (texts j)
    → texts (cleaned j ids) ≡ trimmed (texts j)
unfolding cleaned
texts-cleaned lower j ids (a, (b, (c, (d, (e, (f, (g, rest))))))) =
    rw
      (
        bound_field-trims j.concrete_value a.0,
        bound_field-trims j.prevented_failure_or_threat b.0,
        bound_field-trims j.estimated_cost c.0,
        bound_field-trims j.alternatives_considered d.0,
        bound_field-trims j.scope_limit e.0,
        bound_field-trims j.verification_plan f.0,
        bound_field-trims j.rollback_plan g.0,
      )
      refl

-- A justification that has been accepted, and what was given.
pub record IsAccepted (lower : Char → Char) (j : Justification) (known claims : List String)
    (out : Justification) : Type 0 where
  pub versioned : out.schema_version ≡ schema
  pub named : (out.challenge_id ≡ trim_space j.challenge_id) × (is_empty out.challenge_id ≡ false)
  pub clean : All (IsClean lower) (texts j)
  pub kept : texts out ≡ trimmed (texts j)
  pub answers : All (IsAnswered out) claims
  pub cited : All (IsCited lower known) out.evidence_ids
  pub evidence : out.evidence_ids ≡ trimmed j.evidence_ids
  pub distinct : IsDistinct out.evidence_ids
  pub few : length out.evidence_ids ≤ 16

module _ (lower : Char → Char) where
  clean_ids-Taken :
      (known seen given : List String)
      → Ensures (Taken lower known seen given) (clean_ids lower known seen given)
  unfolding clean_ids
  clean_ids-Taken known seen [] = record { cited = tt; not_seen = tt; distinct = tt; same = refl }
  clean_ids-Taken known seen (g ∷ gs) =
      let id = trim_space g in
      let P = Taken lower known seen (g ∷ gs) in
      Ensures-ensure P (not (is_empty id)) empty_evidence_id _ λ filled.
        Ensures-ensure P (leb (runes id) 128) evidence_id_too_long _ λ short.
          Ensures-ensure P (not (is_in id seen)) duplicate_evidence_id _ λ new.
            Ensures-ensure P (is_in id known) unknown_evidence_id _ λ in_known.
              Ensures-bind (λ _. has_marker lower id injection_markers ≡ false) P
                (check_injection lower id) _ (check_injection-clean lower id)
                λ _ clean.
                  Ensures-bind (Taken lower known (id ∷ seen) gs) P
                    (clean_ids lower known (id ∷ seen) gs) _ (clean_ids-Taken known (id ∷ seen) gs)
                    λ rest h.
                      let (apart, not_seen) = seen_apart id seen rest h.not_seen in
                      record {
                        cited = (
                          (in_known, (not-eq-true _ filled, (ground (arith, short), clean))),
                          h.cited,
                        );
                        not_seen = (not-eq-true _ new, not_seen);
                        distinct = (apart, h.distinct);
                        same = ap (λ out. id ∷ out) h.same;
                      }

  cleaned-IsAccepted :
      (j : Justification) (known claims ids : List String)
      → is_empty (trim_space j.challenge_id) ≡ false
      → All (IsClean lower) (texts j)
      → All (Backed j) claims
      → leb (length j.evidence_ids) 16 ≡ true
      → Taken lower known [] j.evidence_ids ids
      → IsAccepted lower j known claims (cleaned j ids)
  unfolding cleaned
  cleaned-IsAccepted j known claims ids named clean backed few taken = record {
    versioned = refl;
    named = (refl, named);
    clean = clean;
    kept = texts-cleaned lower j ids clean;
    answers =
        All-map (Backed j) (IsAnswered (cleaned j ids))
          (λ g h. Backed-IsAnswered j ids g taken.same h) claims backed;
    cited = taken.cited;
    evidence = taken.same;
    distinct = taken.distinct;
    few = rw (taken.same, length-trimmed j.evidence_ids) (ground (arith, few));
  }

  -- If a justification is accepted, every text that was given has at most 500 characters and no control
  -- text, and the texts of the answer are these, trimmed; the challenge is named, and every claim that
  -- is required is answered by a text of more than spaces, or by evidence. The evidence is that which was
  -- given, trimmed: at most sixteen ids, none of them twice, each known, not empty, of at most 128
  -- characters and without control text.
  pub validate_justification-IsAccepted :
      (j : Justification) (known claims : List String) (out : Justification)
      → validate_justification lower j known claims ≡ ok out
      → IsAccepted lower j known claims out
  unfolding validate_justification with_schema
  validate_justification-IsAccepted j known claims out e =
      let P = IsAccepted lower j known claims in
      let with_ids : List String → Result Flaw Justification = λ ids. ok (cleaned j ids) in
      let collect = clean_ids lower known [] j.evidence_ids in
      let from_few =
        ensure (leb (length j.evidence_ids) 16) too_many_evidence_ids >> (collect >>= with_ids) in
      let from_claims = check_claims j claims >> from_few in
      let from_fields = check_fields lower (texts j) >> from_claims in
      let named = not (is_empty (trim_space j.challenge_id)) in
      let from_name = ensure named challenge_id_required >> from_fields in
      let accepted : Ensures P (validate_justification lower j known claims) =
        Ensures-ensure P (str_eq (with_schema j).schema_version schema) unsupported_schema from_name
          λ _. Ensures-ensure P named challenge_id_required from_fields λ is_named.
            Ensures-bind (λ _. All (IsClean lower) (texts j)) P (check_fields lower (texts j))
              (λ _. from_claims) (check_fields-IsClean lower (texts j))
              λ _ clean.
                Ensures-bind (λ _. All (Backed j) claims) P (check_claims j claims) (λ _. from_few)
                  (check_claims-Backed j claims)
                  λ _ backed.
                    Ensures-ensure P (leb (length j.evidence_ids) 16) too_many_evidence_ids
                      (collect >>= with_ids)
                      λ few.
                        Ensures-bind (Taken lower known [] j.evidence_ids) P collect with_ids
                          (clean_ids-Taken known [] j.evidence_ids)
                          λ ids taken.
                            cleaned-IsAccepted j known claims ids (not-eq-true _ is_named) clean
                              backed few taken in
      Ensures-eq P (validate_justification lower j known claims) accepted e
