-- ===== src/Detector/RepeatedFailure/History.antt =====
-- pkg/detector/repeated_failure.go against the list of everything it was shown.
use reinframe.Prelude.{
  ℕ, suc, ◌+◌, String, Char, ◌≡◌, refl, Bool, true, false, not, positive_or, ap, ap₂, ◌&&◌, ◌||◌,
  Option, none, some, List, [], ◌∷◌, ℤ, lookup, lookup_or, insert, lookup-insert,
  lookup-insert_self, lookup_or-insert, subst, leb, lookup-remove, is_empty, str_eq, if◌then◌else◌,
  Bool-cases, inl, inr, arith, eq_iff, ◌∙◌,
}
use reinframe.Detector.Fingerprint.{normalize_fingerprint}
use reinframe.Detector.Signal.{TunnelSignal}
use reinframe.Detector.RepeatedFailure.{
  RepeatedFailureDetector, SessionFingerprints, new, mark, record_failure, count_of, reset_session,
  observe_raw, empty_session, count_in, default_threshold,
}

abbrev pub sends : Option TunnelSignal → Bool
sends none = false
sends (some s) = true

-- Whether the signal is sent does not show in the marks.
sessions-record_failure :
    (d : RepeatedFailureDetector) (s fp src : String) (now : ℕ)
    → (record_failure d s fp src now).0.sessions
      ≡ insert s (mark (lookup_or empty_session s d.sessions) fp now) d.sessions
unfolding record_failure
sessions-record_failure d s fp src now = ground arith

count_in-mark :
    (o : Option SessionFingerprints) (fp fp' : String) (now : ℕ)
    → count_in (some (mark (elim o [ none ↦ empty_session | some ss ↦ ss ]) fp now)) fp'
      ≡ (if str_eq fp fp' then suc (count_in o fp') else count_in o fp')
unfolding mark lookup
count_in-mark none fp fp' now = lookup_or-insert 0 fp fp' 1 []
count_in-mark (some ss) fp fp' now =
    let before = lookup_or 0 fp ss.counts in
    ground (arith, lookup_or-insert 0 fp fp' (before + 1) ss.counts, eq_iff fp fp')

count_of-record_failure_self :
    (d : RepeatedFailureDetector) (s fp src : String) (now : ℕ) (fp' : String)
    → count_of (record_failure d s fp src now).0 s fp'
      ≡ (if str_eq fp fp' then suc (count_of d s fp') else count_of d s fp')
unfolding count_of
count_of-record_failure_self d s fp src now fp' =
    rw (sessions-record_failure d s fp src now, lookup-insert_self)
      (count_in-mark (lookup s d.sessions) fp fp' now)

count_of-record_failure_ne :
    (d : RepeatedFailureDetector) (s fp src : String) (now : ℕ) (s' fp' : String)
    → str_eq s s' ≡ false
    → count_of (record_failure d s fp src now).0 s' fp' ≡ count_of d s' fp'
unfolding count_of
count_of-record_failure_ne d s fp src now s' fp' e =
    rw (sessions-record_failure d s fp src now, lookup-insert, e)

-- One failure adds one to its own count and to no other.
pub count_of-record_failure :
    (d : RepeatedFailureDetector) (s fp src : String) (now : ℕ) (s' fp' : String)
    → count_of (record_failure d s fp src now).0 s' fp'
      ≡ (if str_eq s s' && str_eq fp fp' then suc (count_of d s' fp') else count_of d s' fp')
count_of-record_failure d s fp src now s' fp' = elim (Bool-cases (str_eq s s')) [
  | inl e ↦ rw e (
      subst
        (λ t.
          count_of (record_failure d s fp src now).0 t fp'
          ≡ (if str_eq fp fp' then suc (count_of d t fp') else count_of d t fp'))
        ((eq_iff s s').0 e) (count_of-record_failure_self d s fp src now fp'))
  | inr e ↦ rw e (count_of-record_failure_ne d s fp src now s' fp' e)
]

-- A signal is sent exactly from the threshold on.
sends-record_failure :
    (d : RepeatedFailureDetector) (s fp src : String) (now : ℕ)
    → sends (record_failure d s fp src now).1 ≡ leb d.threshold (suc (count_of d s fp))
unfolding record_failure count_of
sends-record_failure d s fp src now =
    ground (arith, count_in-mark (lookup s d.sessions) fp fp now, eq_iff fp fp)

count_of-reset_session :
    (d : RepeatedFailureDetector) (s s' fp : String)
    → count_of (reset_session d s) s' fp ≡ (if str_eq s s' then 0 else count_of d s' fp)
unfolding reset_session count_of
count_of-reset_session d s s' fp = ground (arith, lookup-remove s s' d.sessions)

-- A call that changes the detector.
pub data Call : Type 0 where
  failure : (session_id raw source_id : String) (now : ℕ) → Call
  reset : (session_id : String) → Call

module _ (lower : Char → Char) where
  unfoldable pub step : RepeatedFailureDetector → Call → RepeatedFailureDetector
  step d (failure s raw src now) = (observe_raw lower d s raw src now).0
  step d (reset s) = reset_session d s

  unfoldable pub run : RepeatedFailureDetector → List Call → RepeatedFailureDetector
  unfolding step
  run d [] = d
  run d (c ∷ cs) = run (step d c) cs

  -- The specification: how often the fingerprint of a session was reported since its last reset.
  unfoldable pub tally : String → String → ℕ → Call → ℕ
  tally s' fp' n (failure s raw src now) =
      let fp = normalize_fingerprint lower raw in
      if is_empty fp || is_empty s then n else if str_eq s s' && str_eq fp fp' then suc n else n
  tally s' fp' n (reset s) = if str_eq s s' then 0 else n

  unfoldable pub tally_all : String → String → ℕ → List Call → ℕ
  unfolding tally
  tally_all s' fp' n [] = n
  tally_all s' fp' n (c ∷ cs) = tally_all s' fp' (tally s' fp' n c) cs

  count_of-step :
      (d : RepeatedFailureDetector) (c : Call) (s' fp' : String)
      → count_of (step d c) s' fp' ≡ tally s' fp' (count_of d s' fp') c
  unfolding step observe_raw tally
  count_of-step d (failure s raw src now) s' fp' =
      let fp = normalize_fingerprint lower raw in
      elim (Bool-cases (is_empty fp || is_empty s)) [
        | inl e ↦ rw (e, step, observe_raw)
        | inr e ↦ rw (e, step, observe_raw) (count_of-record_failure d s fp src now s' fp')
      ]
  count_of-step d (reset s) s' fp' = count_of-reset_session d s s' fp'

  count_of-run :
      (d : RepeatedFailureDetector) (cs : List Call) (s' fp' : String)
      → count_of (run d cs) s' fp' ≡ tally_all s' fp' (count_of d s' fp') cs
  unfolding run tally_all
  count_of-run d [] s' fp' = refl
  count_of-run d (c ∷ cs) s' fp' =
      count_of-run (step d c) cs s' fp' ∙ ap (λ n. tally_all s' fp' n cs) (count_of-step d c s' fp')

  threshold-run :
      (d : RepeatedFailureDetector) (cs : List Call) → (run d cs).threshold ≡ d.threshold
  unfolding run step observe_raw record_failure reset_session
  threshold-run d [] = refl
  threshold-run d (c ∷ cs) = threshold-run (step d c) cs ∙ kept c
    where
      kept : (c : Call) → (step d c).threshold ≡ d.threshold
      kept (failure s raw src now) = ground arith
      kept (reset s) = refl

  sends-observe_raw :
      (d : RepeatedFailureDetector) (s raw src : String) (now : ℕ)
      → let fp = normalize_fingerprint lower raw in
        sends (observe_raw lower d s raw src now).1
        ≡ (not (is_empty fp || is_empty s) && leb d.threshold (suc (count_of d s fp)))
  unfolding observe_raw
  sends-observe_raw d s raw src now =
      let fp = normalize_fingerprint lower raw in
      elim (Bool-cases (is_empty fp || is_empty s)) [
        | inl e ↦ rw e
        | inr e ↦ rw e (sends-record_failure d s fp src now)
      ]

  -- After any calls on a new detector, a count is the number of reports of that fingerprint in that
  -- session since the session's last reset; the next report sends a signal exactly if it has a
  -- session and a fingerprint and brings that number to the configured threshold or beyond.
  pub run-tally :
      (threshold : ℤ) (cs : List Call) (s raw src : String) (now : ℕ)
      → let d = run (new threshold) cs in
        let fp = normalize_fingerprint lower raw in
        let reports = tally_all s fp 0 cs in
        (count_of d s fp ≡ reports)
        × (sends (observe_raw lower d s raw src now).1 ≡ (
            not (is_empty fp || is_empty s)
            && leb (positive_or default_threshold threshold) (suc reports)))
  unfolding new count_of lookup
  run-tally threshold cs s raw src now =
      let d = run (new threshold) cs in
      let fp = normalize_fingerprint lower raw in
      let counted = count_of-run (new threshold) cs s fp in
      (
        counted,
        sends-observe_raw d s raw src now
            ∙ ap₂ (λ t n. not (is_empty fp || is_empty s) && leb t (suc n))
                (threshold-run (new threshold) cs) counted,
      )
