-- ===== src/Policy/Slow/Outcomes.antt =====
-- EvaluateSlow of pkg/policy/policy.go: who is asked, and what comes of it.
use reinframe.Prelude.{
  ℕ, String, Bool, true, false, not, ◌&&◌, ◌||◌, Option, none, some, is_empty, str_eq, ◌≡◌, refl,
  arith, Bool-cases, Option-cases, inl, inr, subst, sym, if_splits, leb,
}
use reinframe.Detector.Signal.{TunnelSignal, next_u64}
use reinframe.Adapter.Delivery.{Intervention}
use reinframe.Policy.Slow.{
  Formats, Engine, SlowInput, SlowResult, is_high_confidence, contract_suggests_reviewer,
  has_reviewer, zoom_out_advice, or_else, ReviewDecision, advice_from_contract, build_zoom_out,
  zoom_out, after_review, review, evaluate_signal, evaluate_slow,
}

abbrev pub intervenes : SlowResult → Bool
intervenes r = elim r.intervention [ none ↦ false | some iv ↦ true ]

-- An intervention for the signal: it advises something, and waits for an acknowledgement.
abbrev pub Suits : TunnelSignal → Option Intervention → Type 0
Suits sig none = Unit
Suits sig (some iv) =
    (iv.session_id ≡ sig.session_id)
    × (is_empty iv.advice_prompt ≡ false)
    × (iv.action_type ≡ "ZOOM_OUT_PROMPT")
    × (iv.requires_ack ≡ true)

-- What an answer shows, by whether the reviewer was asked.
pub record Outcome (sig : TunnelSignal) (asked : Bool) (r : SlowResult) (failed : Bool)
    : Type 0 where
  pub uses : r.used_reviewer ≡ asked
  pub suits : Suits sig r.intervention
  pub acts : str_eq r.action "ZOOM_OUT_PROMPT" ≡ intervenes r
  pub decides : is_high_confidence sig ≡ true → intervenes r ≡ not failed
  pub fails : asked ≡ false → failed ≡ false

is_empty-or_else : (s d : String) → is_empty d ≡ false → is_empty (or_else s d) ≡ false
unfolding or_else
is_empty-or_else s d h = elim (Bool-cases (is_empty s)) [ inl e ↦ rw e h | inr e ↦ rw e e ]

abbrev Is : TunnelSignal → Bool → Engine × SlowResult × Bool → Type 0
Is sig asked (e, r, failed) = Outcome sig asked r failed

Is-at :
    (sig : TunnelSignal) (out : Engine × SlowResult × Bool) {asked asked' : Bool}
    → asked ≡ asked'
    → Is sig asked out
    → Is sig asked' out
Is-at sig out e h = subst (λ b. Is sig b out) e h

zoom_out-Is :
    (e : Engine) (sig : TunnelSignal) (advice : String) (used : Bool)
    (decision : Option ReviewDecision) (reason : String) (now : ℕ)
    → Is sig used (zoom_out e sig advice used decision reason now)
unfolding zoom_out build_zoom_out
zoom_out-Is e sig advice used decision reason now = record {
  uses = refl;
  suits = (refl, is_empty-or_else advice zoom_out_advice refl, refl, refl);
  acts = refl;
  decides = λ _. refl;
  fails = λ _. refl;
}

-- Whether the reviewer is asked about a signal.
abbrev pub asks : Engine → SlowInput → TunnelSignal → Bool
asks e i sig =
    has_reviewer e
    && (i.uncertain
        || contract_suggests_reviewer i.contract i.ledger
        || not (is_high_confidence sig))

module _ (formats : Formats) where
  after_review-Is :
      (e : Engine) (i : SlowInput) (sig : TunnelSignal) (answer : Option ReviewDecision) (now : ℕ)
      → Is sig true (after_review formats e i sig answer now)
  unfolding after_review
  after_review-Is e i sig none now = record {
    uses = refl;
    suits = tt;
    acts = refl;
    decides = λ _. refl;
    fails = λ h. h;
  }
  after_review-Is e i sig (some dec) now =
      if_splits (Is sig true)
        (str_eq dec.classification "TUNNEL_VISION"
          || leb 85 dec.tunnel_confidence
          || is_high_confidence sig)
        (λ _. zoom_out-Is e sig _ true (some dec) _ now)
        (λ low. record {
          uses = refl;
          suits = tt;
          acts = refl;
          decides = λ high. ground (arith, low, high);
          fails = λ _. refl;
        })

  review-Is :
      (e : Engine) (i : SlowInput) (sig : TunnelSignal) (asked now : ℕ)
      → Is sig (has_reviewer e) (review formats e i sig asked now)
  unfolding review
  review-Is e i sig asked now = elim (Option-cases e.reviewer) [
    | inr (ask, known) ↦
        rw (known, review) (after_review-Is (record e { id_seq = next_u64 e.id_seq }) i sig _ now)
    | inl alone ↦
        rw (alone, review)
          (if_splits (Is sig false) (is_high_confidence sig)
            (λ _. zoom_out-Is e sig _ false none _ now)
            (λ low. record {
              uses = refl;
              suits = tt;
              acts = refl;
              decides = λ high. ground (arith, low, high);
              fails = λ _. refl;
            }))
  ]

  evaluate_signal-Is :
      (e : Engine) (i : SlowInput) (sig : TunnelSignal) (asked now : ℕ)
      → Is sig (asks e i sig) (evaluate_signal formats e i sig asked now)
  unfolding evaluate_signal
  evaluate_signal-Is e i sig asked now =
      let uncertain =
        i.uncertain || contract_suggests_reviewer i.contract i.ledger && has_reviewer e in
      if_splits (Is sig (asks e i sig)) (not uncertain && is_high_confidence sig)
        (λ sure.
          let no_one : asks e i sig ≡ false = ground (arith, sure) in
          let advice = or_else i.advice_prompt (advice_from_contract formats i.contract i.ledger) in
          let reason : String = "deterministic_repeated_error_loop" in
          Is-at sig (zoom_out e sig advice false none reason now) (sym no_one)
            (zoom_out-Is e sig advice false none reason now))
        (λ unsure.
          let same : has_reviewer e ≡ asks e i sig = ground (arith, unsure) in
          Is-at sig (review formats e i sig asked now) same (review-Is e i sig asked now))

  pub slow_outcomes :
      (e : Engine) (i : SlowInput) (asked now : ℕ) (sig : TunnelSignal)
      → i.tunnel_signal ≡ some sig
      → let (e', r, failed) = evaluate_slow formats e i asked now in
        (r.used_reviewer ≡ asks e i sig)
        × (str_eq r.action "ZOOM_OUT_PROMPT" ≡ intervenes r)
        × Suits sig r.intervention
        × (is_high_confidence sig ≡ true → intervenes r ≡ not failed)
        × (asks e i sig ≡ false → failed ≡ false)
  unfolding evaluate_slow
  slow_outcomes e i asked now sig given =
      let o = evaluate_signal-Is e i sig asked now in
      rw (given, evaluate_slow) (o.uses, o.acts, o.suits, o.decides, o.fails)
