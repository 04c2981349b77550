-- ===== src/Detector/VerificationChurn/Successes.antt =====
-- Which attempts pkg/detector/verification_churn.go signals, against the history of the attempts.
use reinframe.Prelude.{
  ℕ, String, Char, Bool, true, false, not, ◌&&◌, ◌||◌, Option, none, some, List, [], ◌∷◌, lookup,
  insert, lookup_or, lookup_or-insert, lookup-remove, is_empty, str_eq, if◌then◌else◌, ◌≡◌, refl,
  arith, ◌∙◌, sym, Bool-cases, inl, inr, ap, if-true, if-false, eq_iff, Map,
}
use reinframe.Detector.Signal.{TunnelSignal}
use reinframe.Detector.VerificationChurn.{
  ValidationAttempt, VerificationChurnDetector, new, has_succeeded, add_success, touch_session,
  record_success_if_needed, reset_session, is_exempt, validation_fingerprint, observe_locked,
  is_no_validation, observe,
}

abbrev pub sends : Option TunnelSignal → Bool
sends none = false
sends (some sig) = true

-- A call that changes the detector.
pub data Call : Type 0 where
  attempt : (session_id : String) (a : ValidationAttempt) (now : ℕ) → Call
  reset : (session_id : String) → Call

-- The flags after one session is given the map `m`.
has-insert :
    (d : VerificationChurnDetector) (m : Map Bool) (s s' fp' : String)
    → lookup_or false fp' (lookup_or [] s' (insert s m d.sessions))
      ≡ (if str_eq s s' then lookup_or false fp' m else has_succeeded d s' fp')
has-insert d m s s' fp' =
    ap (lookup_or false fp') (lookup_or-insert [] s s' m d.sessions)
    ∙ elim (Bool-cases (str_eq s s')) [ inl e ↦ rw e refl | inr e ↦ rw e refl ]

abbrev flag : String → String → VerificationChurnDetector × Option TunnelSignal → Bool
flag s fp r = has_succeeded r.0 s fp

-- What a success leaves of the flag of a fingerprint.
has-add_success :
    (d : VerificationChurnDetector) (s fp s' fp' : String)
    → has_succeeded (add_success d s fp) s' fp'
      ≡ (str_eq s s' && str_eq fp fp' || has_succeeded d s' fp')
has-add_success d s fp s' fp' =
    let m = lookup_or [] s d.sessions in
    has-insert d (insert fp true m) s s' fp' ∙ elim (Bool-cases (str_eq s s')) [
      | inl e ↦
          let same : s ≡ s' = ground (arith, eq_iff s s') in
          rw e (lookup_or-insert false fp fp' true m ∙ rw same (ground arith))
      | inr e ↦ rw e refl
    ]

has-touch_session :
    (d : VerificationChurnDetector) (s s' fp' : String)
    → has_succeeded (touch_session d s) s' fp' ≡ has_succeeded d s' fp'
has-touch_session d s s' fp' =
    has-insert d (lookup_or [] s d.sessions) s s' fp' ∙ elim (Bool-cases (str_eq s s')) [
      | inl e ↦ (let same : s ≡ s' = ground (arith, eq_iff s s') in rw (e, same) refl)
      | inr e ↦ rw e refl
    ]

has-reset_session :
    (d : VerificationChurnDetector) (s s' fp' : String)
    → has_succeeded (reset_session d s) s' fp' ≡ (not (str_eq s s') && has_succeeded d s' fp')
unfolding reset_session lookup
has-reset_session d s s' fp' = ground (arith, lookup-remove s s' d.sessions)

has-record_success :
    (d : VerificationChurnDetector) (s fp : String) (a : ValidationAttempt) (s' fp' : String)
    → a.succeeded ≡ true
    → has_succeeded (record_success_if_needed d s fp a) s' fp' ≡ (
        str_eq s s' && str_eq fp fp'
        || not (a.workspace_changed && str_eq s s') && has_succeeded d s' fp')
unfolding record_success_if_needed lookup
has-record_success d s fp a s' fp' ok = elim (Bool-cases a.workspace_changed) [
  | inr w ↦ rw (ok, w) (has-add_success d s fp s' fp')
  | inl w ↦
      rw (ok, w)
        (has-insert d (insert fp true []) s s' fp' ∙ elim (Bool-cases (str_eq s s')) [
          | inl e ↦ rw e (lookup_or-insert false fp fp' true [] ∙ ground arith)
          | inr e ↦ rw e refl
        ])
]

has-exempt :
    (d : VerificationChurnDetector) (s fp : String) (a : ValidationAttempt) (s' fp' : String)
    → has_succeeded (record_success_if_needed d s fp a) s' fp' ≡ (
        if not a.succeeded
        then has_succeeded d s' fp'
        else str_eq s s' && str_eq fp fp'
          || not (a.workspace_changed && str_eq s s') && has_succeeded d s' fp')
unfolding record_success_if_needed
has-exempt d s fp a s' fp' = elim (Bool-cases a.succeeded) [
  | inl ok ↦
      has-record_success d s fp a s' fp' ok
      ∙ sym (if-false (not a.succeeded) _ (ground (arith, ok)))
  | inr fails ↦
      ap (λ e. has_succeeded e s' fp') (if-true (not a.succeeded) _ (ground (arith, fails)))
      ∙ sym (if-true (not a.succeeded) _ (ground (arith, fails)))
]

module _ (lower : Char → Char) where
  unfoldable pub step : VerificationChurnDetector → Call → VerificationChurnDetector
  step d (attempt s a now) = (observe lower d s a now).0
  step d (reset s) = reset_session d s

  unfoldable pub run : VerificationChurnDetector → List Call → VerificationChurnDetector
  unfolding step
  run d [] = d
  run d (c ∷ cs) = run (step d c) cs

  -- The specification: whether a validation of the fingerprint has succeeded in the session since
  -- its last reset, or since its last success with a changed workspace, that one included.
  unfoldable pub proven : String → String → Bool → Call → Bool
  proven s' fp' b (attempt s a now) =
      if is_empty s || is_no_validation lower a || not a.succeeded
      then b
      else str_eq s s' && str_eq (validation_fingerprint lower a) fp'
        || not (a.workspace_changed && str_eq s s') && b
  proven s' fp' b (reset s) = not (str_eq s s') && b

  unfoldable pub proven_all : String → String → Bool → List Call → Bool
  unfolding proven
  proven_all s' fp' b [] = b
  proven_all s' fp' b (c ∷ cs) = proven_all s' fp' (proven s' fp' b c) cs

  already :
      (d : VerificationChurnDetector) (s fp : String) (a : ValidationAttempt) (s' fp' : String)
      → a.succeeded ≡ true
      → has_succeeded d s fp ≡ true
      → has_succeeded d s' fp' ≡ (
          if not a.succeeded
          then has_succeeded d s' fp'
          else str_eq s s' && str_eq fp fp' || has_succeeded d s' fp')
  already d s fp a s' fp' ok h = ground (arith, ok, h, eq_iff s s', eq_iff fp fp')

  has-observe_locked :
      (d : VerificationChurnDetector) (s fp : String) (a : ValidationAttempt) (now : ℕ)
      (s' fp' : String)
      → a.workspace_changed ≡ false
      → has_succeeded (observe_locked lower d s fp a now).0 s' fp' ≡ (
          if not a.succeeded
          then has_succeeded d s' fp'
          else str_eq s s' && str_eq fp fp' || has_succeeded d s' fp')
  unfolding observe_locked
  has-observe_locked d s fp a now s' fp' w =
      let f = flag s' fp' in
      elim (Bool-cases a.succeeded) [
        | inr fails ↦
            ap f (
              if-false (a.succeeded && has_succeeded d s fp) _ (ground (arith, fails))
              ∙ if-false a.succeeded _ fails)
            ∙ has-touch_session d s s' fp'
            ∙ ground (arith, fails)
        | inl ok ↦ (elim (Bool-cases (has_succeeded d s fp)) [
          | inl h ↦
              ap f (if-true (a.succeeded && has_succeeded d s fp) _ (ground (arith, ok, h)))
              ∙ has-touch_session d s s' fp'
              ∙ already d s fp a s' fp' ok h
          | inr h ↦
              ap f (
                if-false (a.succeeded && has_succeeded d s fp) _ (ground (arith, ok, h))
                ∙ if-true a.succeeded _ ok)
              ∙ has-add_success d s fp s' fp'
              ∙ ground (arith, ok)
        ])
      ]

  has-step :
      (d : VerificationChurnDetector) (c : Call) (s' fp' : String)
      → has_succeeded (step d c) s' fp' ≡ proven s' fp' (has_succeeded d s' fp') c
  unfolding step proven observe
  has-step d (attempt s a now) s' fp' =
      let f = flag s' fp' in
      let fp = validation_fingerprint lower a in
      elim (Bool-cases (is_empty s || is_no_validation lower a)) [
        | inl e ↦ ap f (if-true (is_empty s || is_no_validation lower a) _ e) ∙ ground (arith, e)
        | inr e ↦
            ap f (if-false (is_empty s || is_no_validation lower a) _ e)
            ∙ elim (Bool-cases (is_exempt a)) [
              | inl x ↦
                  ap f (if-true (is_exempt a) _ x) ∙ has-exempt d s fp a s' fp' ∙ ground (arith, e)
              | inr x ↦
                  ap f (if-false (is_exempt a) _ x)
                  ∙ has-observe_locked d s fp a now s' fp' (ground (arith, x))
                  ∙ ground (arith, e, x)
            ]
      ]
  has-step d (reset s) s' fp' = has-reset_session d s s' fp'

  has-run :
      (d : VerificationChurnDetector) (cs : List Call) (s' fp' : String)
      → has_succeeded (run d cs) s' fp' ≡ proven_all s' fp' (has_succeeded d s' fp') cs
  unfolding run proven_all
  has-run d [] s' fp' = refl
  has-run d (c ∷ cs) s' fp' =
      has-run (step d c) cs s' fp' ∙ ap (λ b. proven_all s' fp' b cs) (has-step d c s' fp')

  sends-observe :
      (d : VerificationChurnDetector) (s : String) (a : ValidationAttempt) (now : ℕ)
      → sends (observe lower d s a now).1 ≡ (
          not (is_empty s || is_no_validation lower a)
          && not (is_exempt a)
          && a.succeeded
          && has_succeeded d s (validation_fingerprint lower a))
  unfolding observe observe_locked
  sends-observe d s a now = ground arith

  -- After any calls on a new detector, an attempt sends a signal exactly if it has a session and a
  -- command, is not exempt, succeeds, and its fingerprint has succeeded in the session since the
  -- last reset, or since the last success with a changed workspace, that one included.
  pub run-proven :
      (cs : List Call) (s : String) (a : ValidationAttempt) (now : ℕ)
      → sends (observe lower (run new cs) s a now).1 ≡ (
          not (is_empty s || is_no_validation lower a)
          && not (is_exempt a)
          && a.succeeded
          && proven_all s (validation_fingerprint lower a) false cs)
  unfolding new lookup
  run-proven cs s a now =
      let d = run new cs in
      let fp = validation_fingerprint lower a in
      sends-observe d s a now
      ∙ ap
          (λ b.
            not (is_empty s || is_no_validation lower a) && not (is_exempt a) && a.succeeded && b)
          (has-run new cs s fp)
