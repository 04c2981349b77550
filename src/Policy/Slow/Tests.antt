-- ===== src/Policy/Slow/Tests.antt =====
-- EvaluateSlow of pkg/policy/policy.go at a concrete signal.
use reinframe.Prelude.{true, none, some, [], ◌∷◌}
use reinframe.Detector.Signal.{TunnelSignal}
use reinframe.Policy.Slow.{Formats, Engine, SlowInput}

abbrev formats : Formats
formats = record { show_g = λ n. ""; show_fixed = λ n. ""; show_map = λ m. "" }

-- A reviewer that sees no tunnel.
abbrev calm : Engine
calm = record {
  reviewer = some (λ r. some (record {
    classification = "NORMAL_PROGRESS";
    tunnel_confidence = 20;
    suggested_advice = "";
  }));
  reviewer_model = "";
  id_seq = 7;
}

abbrev churn : TunnelSignal
churn = record {
  signal_id = "sig-1";
  session_id = "s";
  detector_name = "VerificationChurnDetector";
  failure_mode = "verification_churn";
  weight = 20;
  score = 50;
  details = ("fingerprint", "go test") ∷ [];
  triggered_at = 4;
}

abbrev input : SlowInput
input = record {
  tunnel_signal = some churn;
  contract = none;
  ledger = none;
  uncertain = true;
  advice_prompt = "";
}
