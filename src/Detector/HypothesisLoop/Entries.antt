-- ===== src/Detector/HypothesisLoop/Entries.antt =====
-- What each operation of pkg/detector/hypothesis_loop.go leaves of a count and of a set of evidence.
use reinframe.Prelude.{
  ℕ, suc, ◌+◌, String, Bool, true, false, not, ◌&&◌, ◌||◌, Option, none, some, List, [], lookup,
  insert, lookup_or, lookup_or-insert, lookup-remove, str_eq, leb, if◌then◌else◌, ◌≡◌, refl, arith,
  ◌∙◌, Bool-cases, inl, inr, ap, eq_iff,
}
use reinframe.Detector.Signal.{TunnelSignal}
use reinframe.Detector.HypothesisLoop.{
  IdSet, HypothesisSession, HypothesisLoopDetector, empty_session, has, attach, set_entry, count_of,
  evidence_of, observe_locked, reset_session,
}
use reinframe.Detector.HypothesisLoop.Evidence.{names, brings_new, has-attach, flag-attach}

abbrev pub sends : Option TunnelSignal → Bool
sends none = false
sends (some sig) = true

session-set_entry :
    (d : HypothesisLoopDetector) (s fp : String) (seen : IdSet) (n : ℕ) (s' : String)
    → lookup_or empty_session s' (set_entry d s fp seen n).sessions ≡ (
        if str_eq s s'
        then record {
          counts = insert fp n (lookup_or empty_session s d.sessions).counts;
          seen_evidence = insert fp seen (lookup_or empty_session s d.sessions).seen_evidence;
        }
        else lookup_or empty_session s' d.sessions)
unfolding set_entry
session-set_entry d s fp seen n s' = lookup_or-insert empty_session s s' _ d.sessions

pub count_of-set_entry :
    (d : HypothesisLoopDetector) (s fp : String) (seen : IdSet) (n : ℕ) (s' fp' : String)
    → count_of (set_entry d s fp seen n) s' fp'
      ≡ (if str_eq s s' && str_eq fp fp' then n else count_of d s' fp')
unfolding count_of
count_of-set_entry d s fp seen n s' fp' =
    let ss = lookup_or empty_session s d.sessions in
    ap (λ (t : HypothesisSession). lookup_or 0 fp' t.counts) (session-set_entry d s fp seen n s')
    ∙ elim (Bool-cases (str_eq s s')) [
      | inl e ↦
          let same : s ≡ s' = ground (arith, eq_iff s s') in
          rw e (lookup_or-insert 0 fp fp' n ss.counts ∙ rw same refl)
      | inr e ↦ rw e refl
    ]

pub evidence_of-set_entry :
    (d : HypothesisLoopDetector) (s fp : String) (seen : IdSet) (n : ℕ) (s' fp' : String)
    → evidence_of (set_entry d s fp seen n) s' fp'
      ≡ (if str_eq s s' && str_eq fp fp' then seen else evidence_of d s' fp')
unfolding evidence_of
evidence_of-set_entry d s fp seen n s' fp' =
    let ss = lookup_or empty_session s d.sessions in
    ap (λ (t : HypothesisSession). lookup_or [] fp' t.seen_evidence)
      (session-set_entry d s fp seen n s')
    ∙ elim (Bool-cases (str_eq s s')) [
      | inl e ↦
          let same : s ≡ s' = ground (arith, eq_iff s s') in
          rw e (lookup_or-insert [] fp fp' seen ss.seen_evidence ∙ rw same refl)
      | inr e ↦ rw e refl
    ]

pub count_of-reset_session :
    (d : HypothesisLoopDetector) (s s' fp : String)
    → count_of (reset_session d s) s' fp ≡ (if str_eq s s' then 0 else count_of d s' fp)
unfolding reset_session count_of lookup
count_of-reset_session d s s' fp = ground (arith, lookup-remove s s' d.sessions)

pub has-reset_session :
    (d : HypothesisLoopDetector) (s s' fp id : String)
    → has (evidence_of (reset_session d s) s' fp) id
      ≡ (not (str_eq s s') && has (evidence_of d s' fp) id)
unfolding reset_session evidence_of lookup
has-reset_session d s s' fp id = ground (arith, lookup-remove s s' d.sessions)

-- What an observation leaves of the count.
pub count_of-observe_locked :
    (d : HypothesisLoopDetector) (s fp : String) (ids : List String) (now : ℕ) (s' fp' : String)
    → count_of (observe_locked d s fp ids now).0 s' fp' ≡ (
        if str_eq s s' && str_eq fp fp'
        then if brings_new (has (evidence_of d s fp)) ids then 1 else suc (count_of d s fp)
        else count_of d s' fp')
unfolding observe_locked
count_of-observe_locked d s fp ids now s' fp' =
    let found = attach (evidence_of d s fp, false) ids in
    let n = count_of d s fp + 1 in
    ground (
      arith,
      flag-attach (evidence_of d s fp, false) ids,
      count_of-set_entry d s fp found.0 1 s' fp',
      count_of-set_entry d s fp found.0 n s' fp',
    )

-- What an observation leaves of the evidence.
pub has-observe_locked :
    (d : HypothesisLoopDetector) (s fp : String) (ids : List String) (now : ℕ) (s' fp' id : String)
    → has (evidence_of (observe_locked d s fp ids now).0 s' fp') id ≡ (
        if str_eq s s' && str_eq fp fp'
        then names ids id || has (evidence_of d s fp) id
        else has (evidence_of d s' fp') id)
unfolding observe_locked
has-observe_locked d s fp ids now s' fp' id =
    let found = attach (evidence_of d s fp, false) ids in
    let n = count_of d s fp + 1 in
    ground (
      arith,
      has-attach (evidence_of d s fp, false) ids id,
      evidence_of-set_entry d s fp found.0 1 s' fp',
      evidence_of-set_entry d s fp found.0 n s' fp',
    )

pub sends-observe_locked :
    (d : HypothesisLoopDetector) (s fp : String) (ids : List String) (now : ℕ)
    → sends (observe_locked d s fp ids now).1
      ≡ (not (brings_new (has (evidence_of d s fp)) ids) && leb d.threshold (suc (count_of d s fp)))
unfolding observe_locked
sends-observe_locked d s fp ids now = ground (arith, flag-attach (evidence_of d s fp, false) ids)
