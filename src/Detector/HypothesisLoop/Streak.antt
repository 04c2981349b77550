-- ===== src/Detector/HypothesisLoop/Streak.antt =====
-- Which observations pkg/detector/hypothesis_loop.go signals, against the history of observations.
use reinframe.Prelude.{
  ℕ, suc, String, Char, Bool, false, not, ◌&&◌, ◌||◌, List, [], ◌∷◌, ℤ, positive_or, lookup,
  is_empty, str_eq, leb, if◌then◌else◌, ◌≡◌, refl, arith, ◌∙◌, sym, Bool-cases, inl, inr, ap, ap₂,
  if-true, if-false, eq_iff, eq_refl, subst,
}
use reinframe.Detector.Fingerprint.{normalize_fingerprint}
use reinframe.Detector.HypothesisLoop.{
  HypothesisObservation, HypothesisLoopDetector, new, has, set_entry, count_of, evidence_of,
  observe_locked, reset_session, observe, default_threshold,
}
use reinframe.Detector.HypothesisLoop.Entries.{
  sends, count_of-observe_locked, has-observe_locked, sends-observe_locked, count_of-reset_session,
  has-reset_session,
}
use reinframe.Detector.HypothesisLoop.Evidence.{names, brings_new, brings_new-cong}

-- A call that changes the detector.
pub data Call : Type 0 where
  state : (session_id : String) (obs : HypothesisObservation) (now : ℕ) → Call
  reset : (session_id : String) → Call

-- The specification's view of one fingerprint of one session: which evidence has been attached, and
-- how many observations there were in a row up to now without new evidence.
pub record Watch : Type 0 where
  pub known : String → Bool
  pub streak : ℕ

unfoldable pub start : Watch
start = record { known = λ id. false; streak = 0 }

-- After one more statement.
unfoldable pub stated : List String → Watch → Watch
stated ids w = record {
  known = λ id. names ids id || w.known id;
  streak = if brings_new w.known ids then 1 else suc w.streak;
}

-- The detector shows what the specification has of the fingerprint `fp` of the session `s`.
unfoldable pub Shows : HypothesisLoopDetector → String → String → Watch → Type 0
Shows d s fp w =
    (count_of d s fp ≡ w.streak) × ((id : String) → has (evidence_of d s fp) id ≡ w.known id)

module _ (lower : Char → Char) where
  unfoldable pub step : HypothesisLoopDetector → Call → HypothesisLoopDetector
  step d (state s obs now) = (observe lower d s obs now).0
  step d (reset s) = reset_session d s

  unfoldable pub run : HypothesisLoopDetector → List Call → HypothesisLoopDetector
  unfolding step
  run d [] = d
  run d (c ∷ cs) = run (step d c) cs

  -- The call states the fingerprint `fp'` in the session `s'`.
  unfoldable pub regards : String → String → String → HypothesisObservation → Bool
  regards s' fp' s obs =
      let fp = normalize_fingerprint lower obs.statement in
      not (is_empty s || is_empty fp) && (str_eq s s' && str_eq fp fp')

  unfoldable pub watch : String → String → Watch → Call → Watch
  watch s' fp' w (state s obs now) = if regards s' fp' s obs then stated obs.evidence_ids w else w
  watch s' fp' w (reset s) = if str_eq s s' then start else w

  unfoldable pub watch_all : String → String → Watch → List Call → Watch
  unfolding watch
  watch_all s' fp' w [] = w
  watch_all s' fp' w (c ∷ cs) = watch_all s' fp' (watch s' fp' w c) cs

  -- An observation that is no other fingerprint's.
  Shows-stated :
      (d : HypothesisLoopDetector) (s fp : String) (ids : List String) (now : ℕ) (w : Watch)
      → Shows d s fp w
      → Shows (observe_locked d s fp ids now).0 s fp (stated ids w)
  unfolding Shows stated
  Shows-stated d s fp ids now w (counted, knows) =
      let known = brings_new-cong (has (evidence_of d s fp)) w.known knows ids in
      (
        count_of-observe_locked d s fp ids now s fp
            ∙ ground (arith, known, counted, eq_refl s, eq_refl fp),
        λ id.
            has-observe_locked d s fp ids now s fp id
            ∙ ground (arith, knows id, eq_refl s, eq_refl fp),
      )

  Shows-other :
      (d : HypothesisLoopDetector) (s fp : String) (ids : List String) (now : ℕ) (s' fp' : String)
      (w : Watch)
      → (str_eq s s' && str_eq fp fp') ≡ false
      → Shows d s' fp' w
      → Shows (observe_locked d s fp ids now).0 s' fp' w
  unfolding Shows
  Shows-other d s fp ids now s' fp' w e (counted, knows) = (
    count_of-observe_locked d s fp ids now s' fp' ∙ if-false _ _ e ∙ counted,
    λ id. has-observe_locked d s fp ids now s' fp' id ∙ if-false _ _ e ∙ knows id,
  )

  Shows-observe_locked :
      (d : HypothesisLoopDetector) (s fp : String) (ids : List String) (now : ℕ) (s' fp' : String)
      (w : Watch)
      → Shows d s' fp' w
      → Shows
          (observe_locked d s fp ids now).0
          s'
          fp'
          (if str_eq s s' && str_eq fp fp' then stated ids w else w)
  Shows-observe_locked d s fp ids now s' fp' w h =
      elim (Bool-cases (str_eq s s' && str_eq fp fp')) [
        | inl e ↦
            let same_s : s ≡ s' = ground (arith, eq_iff s s') in
            let same_fp : fp ≡ fp' = ground (arith, eq_iff fp fp') in
            subst (Shows (observe_locked d s fp ids now).0 s' fp') (sym (if-true _ w e)) (
              subst (λ t. Shows (observe_locked d s fp ids now).0 t fp' (stated ids w)) same_s
                (subst (λ t. Shows (observe_locked d s fp ids now).0 s t (stated ids w)) same_fp
                  (Shows-stated d s fp ids now w (
                    subst (λ t. Shows d t fp w) (sym same_s)
                      (subst (λ t. Shows d s' t w) (sym same_fp) h)))))
        | inr e ↦
            subst (Shows (observe_locked d s fp ids now).0 s' fp') (sym (if-false _ _ e))
              (Shows-other d s fp ids now s' fp' w e h)
      ]

  Shows-reset :
      (d : HypothesisLoopDetector) (s s' fp' : String) (w : Watch)
      → Shows d s' fp' w
      → Shows (reset_session d s) s' fp' (if str_eq s s' then start else w)
  unfolding Shows start
  Shows-reset d s s' fp' w (counted, knows) = (
    ground (arith, count_of-reset_session d s s' fp', counted),
    λ id. ground (arith, has-reset_session d s s' fp' id, knows id),
  )

  Shows-step :
      (d : HypothesisLoopDetector) (c : Call) (s' fp' : String) (w : Watch)
      → Shows d s' fp' w
      → Shows (step d c) s' fp' (watch s' fp' w c)
  unfolding step watch observe regards
  Shows-step d (reset s) s' fp' w h = Shows-reset d s s' fp' w h
  Shows-step d (state s obs now) s' fp' w h =
      let fp = normalize_fingerprint lower obs.statement in
      elim (Bool-cases (is_empty s || is_empty fp)) [
        | inl e ↦ rw (step, observe, watch, regards, e) h
        | inr e ↦
            rw (step, observe, watch, regards, e)
              (Shows-observe_locked d s fp obs.evidence_ids now s' fp' w h)
      ]

  Shows-run :
      (d : HypothesisLoopDetector) (cs : List Call) (s' fp' : String) (w : Watch)
      → Shows d s' fp' w
      → Shows (run d cs) s' fp' (watch_all s' fp' w cs)
  unfolding run watch_all
  Shows-run d [] s' fp' w h = h
  Shows-run d (c ∷ cs) s' fp' w h =
      Shows-run (step d c) cs s' fp' (watch s' fp' w c) (Shows-step d c s' fp' w h)

  threshold-run : (d : HypothesisLoopDetector) (cs : List Call) → (run d cs).threshold ≡ d.threshold
  unfolding run step observe observe_locked set_entry reset_session
  threshold-run d [] = refl
  threshold-run d (c ∷ cs) = threshold-run (step d c) cs ∙ kept c
    where
      kept : (c : Call) → (step d c).threshold ≡ d.threshold
      kept (state s obs now) = ground arith
      kept (reset s) = refl

  sends-observe :
      (d : HypothesisLoopDetector) (s : String) (obs : HypothesisObservation) (now : ℕ)
      → let fp = normalize_fingerprint lower obs.statement in
        sends (observe lower d s obs now).1 ≡ (
          not (is_empty s || is_empty fp)
          && not (brings_new (has (evidence_of d s fp)) obs.evidence_ids)
          && leb d.threshold (suc (count_of d s fp)))
  unfolding observe
  sends-observe d s obs now =
      let fp = normalize_fingerprint lower obs.statement in
      elim (Bool-cases (is_empty s || is_empty fp)) [
        | inl e ↦ rw e refl
        | inr e ↦ rw e (sends-observe_locked d s fp obs.evidence_ids now)
      ]

  -- After any calls on a new detector, the count of a conclusion in a session is the number of times
  -- in a row that it was stated there without evidence new to it, where the statement that last
  -- brought new evidence counts as one, and a reset of the session forgets all; the next statement
  -- sends a signal exactly if it has a session and a fingerprint, brings no evidence new to the
  -- conclusion, and takes that number to the configured threshold or beyond.
  pub run-streak :
      (threshold : ℤ) (cs : List Call) (s : String) (obs : HypothesisObservation) (now : ℕ)
      → let d = run (new threshold) cs in
        let fp = normalize_fingerprint lower obs.statement in
        let w = watch_all s fp start cs in
        (count_of d s fp ≡ w.streak)
        × (sends (observe lower d s obs now).1 ≡ (
            not (is_empty s || is_empty fp)
            && not (brings_new w.known obs.evidence_ids)
            && leb (positive_or default_threshold threshold) (suc w.streak)))
  unfolding new count_of evidence_of lookup Shows start
  run-streak threshold cs s obs now =
      let d = run (new threshold) cs in
      let fp = normalize_fingerprint lower obs.statement in
      let w = watch_all s fp start cs in
      let shown : Shows d s fp w = Shows-run (new threshold) cs s fp start (refl, λ id. refl) in
      let known = brings_new-cong (has (evidence_of d s fp)) w.known shown.1 obs.evidence_ids in
      (
        shown.0,
        sends-observe d s obs now
            ∙ ap
                (λ t.
                  not (is_empty s || is_empty fp)
                  && not (brings_new (has (evidence_of d s fp)) obs.evidence_ids)
                  && leb t (suc (count_of d s fp)))
                (threshold-run (new threshold) cs)
            ∙ ap₂
                (λ b n.
                  not (is_empty s || is_empty fp)
                  && not b
                  && leb (positive_or default_threshold threshold) (suc n))
                known shown.0,
      )
