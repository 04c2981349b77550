-- ===== src/Policy/Slow.antt =====
-- pkg/policy/policy.go: what becomes of a detector's signal. The reviewer is an interface, so what it
-- answers is a function that the engine holds; scores and confidences are in hundredths, and how
-- `fmt` prints them and a map is a parameter. The clock is an argument.
pub mod Outcomes
pub mod Tests
use reinframe.Prelude.{
  ℕ, ◌+◌, String, Bool, true, false, not, ◌&&◌, ◌||◌, Option, none, some, List, [], ◌∷◌, Map,
  lookup_or, is_empty, str_eq, leb, length, itoa, show_ℤ, ◌⧺◌, if◌then◌else◌,
}
use reinframe.Detector.Signal.{TunnelSignal, next_u64}
use reinframe.Adapter.Delivery.{Intervention}
use reinframe.Protocol.Contract.{TaskContract, EvidenceLedger}

-- What `fmt` prints for `%g` and `%.2f` of a number in hundredths, and for `%v` of a map.
pub record Formats : Type 0 where
  pub show_g : ℕ → String
  pub show_fixed : ℕ → String
  pub show_map : Map String → String

pub record ReviewRequest : Type 0 where
  pub request_id : String
  pub reviewer_role : String
  pub model : String
  pub prompt : String
  pub requested_at : ℕ

-- The fields of `ReviewDecision` that the policy reads.
pub record ReviewDecision : Type 0 where
  pub classification : String
  pub tunnel_confidence : ℕ
  pub suggested_advice : String

-- `none` is an error.
abbrev pub Reviewer : Type 0
Reviewer = ReviewRequest → Option ReviewDecision

-- `id_seq` counts the ids that the engine has given out.
pub record Engine : Type 0 where
  pub reviewer : Option Reviewer
  pub reviewer_model : String
  pub id_seq : ℕ

abbrev pub has_reviewer : Engine → Bool
has_reviewer e = elim e.reviewer [ none ↦ false | some _ ↦ true ]

-- `NewEngine`
unfoldable pub new_engine : Option Reviewer → String → Engine
new_engine reviewer model = record { reviewer = reviewer; reviewer_model = model; id_seq = 0 }

pub record SlowInput : Type 0 where
  pub tunnel_signal : Option TunnelSignal
  pub contract : Option TaskContract
  pub ledger : Option EvidenceLedger
  pub uncertain : Bool
  pub advice_prompt : String

pub record SlowResult : Type 0 where
  pub action : String
  pub intervention : Option Intervention
  pub used_reviewer : Bool
  pub review_decision : Option ReviewDecision
  pub reason : String

abbrev pub no_intervention : String → String → Bool → Option ReviewDecision → SlowResult
no_intervention action reason used decision = record {
  action = action;
  intervention = none;
  used_reviewer = used;
  review_decision = decision;
  reason = reason;
}

abbrev pub zoom_out_advice : String
zoom_out_advice =
    "ZOOM_OUT: you are repeating the same failure. Pause, re-diagnose the root cause, and replan before retrying the same edit/test loop."

-- `isHighConfidenceRepeatedFailure`
unfoldable pub is_high_confidence : TunnelSignal → Bool
is_high_confidence sig =
    str_eq sig.failure_mode "repeated_error_loop"
    || str_eq sig.detector_name "RepeatedFailureDetector" && leb 100 sig.score
    || (str_eq sig.failure_mode "tool_budget_churn" || str_eq sig.failure_mode "hypothesis_loop")
    || (str_eq sig.detector_name "ToolBudgetChurnDetector"
        || str_eq sig.detector_name "HypothesisLoopDetector")
      && leb 100 sig.score

any_met : Map String → Bool
any_met [] = false
any_met ((id, status) ∷ m) = str_eq status "met" || any_met m

-- `contractSuggestsReviewer`
unfoldable pub contract_suggests_reviewer : Option TaskContract → Option EvidenceLedger → Bool
unfolding any_met
contract_suggests_reviewer none led = false
contract_suggests_reviewer (some c) none = str_eq c.risk "high" || str_eq c.risk "irreversible"
contract_suggests_reviewer (some c) (some led) =
    (str_eq c.risk "high" || str_eq c.risk "irreversible") && not (any_met led.criteria_status)

or_else : String → String → String
or_else s d = if is_empty s then d else s

-- `buildZoomOut`
unfoldable pub build_zoom_out : Engine → TunnelSignal → String → ℕ → Engine × Intervention
unfolding or_else
build_zoom_out e sig advice now =
    let n = next_u64 e.id_seq in
    (
      record e { id_seq = n },
      record {
        intervention_id = "iv-zoom-" ⧺ sig.signal_id ⧺ "-" ⧺ itoa n;
        session_id = sig.session_id;
        action_type = "ZOOM_OUT_PROMPT";
        advice_prompt = or_else advice zoom_out_advice;
        fingerprint = lookup_or "" "fingerprint" sig.details;
        level = 1;
        status = "PENDING";
        requires_ack = true;
        safe_boundary = "before_tool";
        priority = 10;
        executed_at = now;
      },
    )

-- A zoom-out with its advice.
unfoldable pub zoom_out :
    Engine
    → TunnelSignal
    → String
    → Bool
    → Option ReviewDecision
    → String
    → ℕ
    → Engine × SlowResult × Bool
zoom_out e sig advice used decision reason now =
    let (e', iv) = build_zoom_out e sig advice now in
    (
      e',
      record {
        action = "ZOOM_OUT_PROMPT";
        intervention = some iv;
        used_reviewer = used;
        review_decision = decision;
        reason = reason;
      },
      false,
    )

module _ (formats : Formats) where
  -- `adviceFromContract`
  unfoldable pub advice_from_contract : Option TaskContract → Option EvidenceLedger → String
  advice_from_contract none none = ""
  advice_from_contract none (some led) = zoom_out_advice
  advice_from_contract (some c) led =
      let counts : String = elim led [
        | none ↦ ""
        | some l ↦
            " [ledger validations="
            ⧺ itoa (length l.validation_records)
            ⧺ " tools="
            ⧺ itoa (length l.tool_call_counts)
            ⧺ "]"
      ] in
      zoom_out_advice
      ⧺ " [contract rev="
      ⧺ show_ℤ c.revision
      ⧺ " complexity="
      ⧺ c.complexity
      ⧺ " risk="
      ⧺ c.risk
      ⧺ " confidence="
      ⧺ formats.show_fixed c.confidence
      ⧺ "]"
      ⧺ counts

  -- The request to the reviewer, which takes the next id.
  review_request : Engine → TunnelSignal → ℕ → ReviewRequest
  unfolding or_else
  review_request e sig now = record {
    request_id = "rev-" ⧺ sig.signal_id ⧺ "-" ⧺ itoa (next_u64 e.id_seq);
    reviewer_role = "TunnelClassifier";
    model = or_else e.reviewer_model "policy-optional";
    prompt =
        "session="
        ⧺ sig.session_id
        ⧺ " failure_mode="
        ⧺ sig.failure_mode
        ⧺ " score="
        ⧺ formats.show_g sig.score
        ⧺ " details="
        ⧺ formats.show_map sig.details;
    requested_at = now;
  }

  -- The advice after a review: the caller's, the reviewer's, the contract's, or the template.
  reviewed_advice : SlowInput → ReviewDecision → String
  unfolding or_else
  reviewed_advice i dec = or_else i.advice_prompt (
      or_else dec.suggested_advice
        (or_else (advice_from_contract i.contract i.ledger) zoom_out_advice))

  reviewed_reason : SlowInput → ReviewDecision → String
  reviewed_reason i dec =
      if is_empty i.advice_prompt && not (is_empty dec.suggested_advice)
      then "reviewer_tunnel_suggested_advice"
      else "reviewer_tunnel"

  -- The reviewer's answer is acted on. The flag says that an error is returned.
  unfoldable pub after_review :
      Engine → SlowInput → TunnelSignal → Option ReviewDecision → ℕ → Engine × SlowResult × Bool
  unfolding reviewed_advice reviewed_reason
  after_review e i sig none now = (e, no_intervention "none" "reviewer_error" true none, true)
  after_review e i sig (some dec) now =
      if str_eq dec.classification "TUNNEL_VISION"
        || leb 85 dec.tunnel_confidence
        || is_high_confidence sig
      then zoom_out e sig (reviewed_advice i dec) true (some dec) (reviewed_reason i dec) now
      else (e, no_intervention "no_intervention" "reviewer_normal_progress" true (some dec), false)

  -- The branch that is uncertain, or for a signal of low confidence.
  unfoldable pub review : Engine → SlowInput → TunnelSignal → ℕ → ℕ → Engine × SlowResult × Bool
  unfolding review_request or_else
  review e i sig asked now = elim e.reviewer [
    | none ↦
        if is_high_confidence sig
        then zoom_out e sig (or_else i.advice_prompt (advice_from_contract i.contract i.ledger))
            false none "uncertain_but_no_reviewer_fallback_deterministic" now
        else (e, no_intervention "no_intervention" "uncertain_no_reviewer" false none, false)
    | some ask ↦
        after_review (record e { id_seq = next_u64 e.id_seq }) i sig
          (ask (review_request e sig asked)) now
  ]

  unfoldable pub evaluate_signal :
      Engine → SlowInput → TunnelSignal → ℕ → ℕ → Engine × SlowResult × Bool
  unfolding or_else
  evaluate_signal e i sig asked now =
      let uncertain =
        i.uncertain || contract_suggests_reviewer i.contract i.ledger && has_reviewer e in
      if not uncertain && is_high_confidence sig
      then zoom_out e sig (or_else i.advice_prompt (advice_from_contract i.contract i.ledger)) false
          none "deterministic_repeated_error_loop" now
      else review e i sig asked now

  -- `EvaluateSlow`; `asked` and `now` are the times of the request and of the intervention.
  unfoldable pub evaluate_slow : Engine → SlowInput → ℕ → ℕ → Engine × SlowResult × Bool
  evaluate_slow e i asked now = elim i.tunnel_signal [
    | none ↦ (e, no_intervention "none" "nil_signal" false none, false)
    | some sig ↦ evaluate_signal e i sig asked now
  ]
