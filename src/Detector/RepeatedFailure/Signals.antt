-- ===== src/Detector/RepeatedFailure/Signals.antt =====
-- What the signals of pkg/detector/repeated_failure.go say.
use reinframe.Prelude.{
  ℕ, String, Char, ◌||◌, Option, none, some, is_empty, ltb, ◌≡◌, refl, if_keeps, insert, lookup_or,
}
use reinframe.Detector.Fingerprint.{normalize_fingerprint}
use reinframe.Detector.Signal.{AgentEvent, TunnelSignal, next_u64}
use reinframe.Detector.RepeatedFailure.{
  RepeatedFailureDetector, record_failure, observe_raw, observe, extract_failure_text, mark,
  empty_session, signal_of,
}

-- A signal for the session, of the detector's failure mode.
abbrev pub Signals : String → Option TunnelSignal → Type 0
Signals session none = Unit
Signals session (some sig) = (sig.session_id ≡ session) × (sig.failure_mode ≡ "repeated_error_loop")

record_failure-Signals :
    (d : RepeatedFailureDetector) (session fp source : String) (now : ℕ)
    → Signals session (record_failure d session fp source now).1
unfolding record_failure signal_of
record_failure-Signals d session fp source now =
    let P = λ (r : RepeatedFailureDetector × Option TunnelSignal). Signals session r.1 in
    let ss = mark (lookup_or empty_session session d.sessions) fp now in
    let fired = record d { sessions = insert session ss d.sessions; seq = next_u64 d.seq } in
    let says : P (fired, some (signal_of fired session fp source (lookup_or 0 fp ss.counts) now)) =
      (refl, refl) in
    if_keeps P (ltb (lookup_or 0 fp ss.counts) d.threshold) tt says

module _ (lower : Char → Char) where
  observe_raw-Signals :
      (d : RepeatedFailureDetector) (session raw source : String) (now : ℕ)
      → Signals session (observe_raw lower d session raw source now).1
  unfolding observe_raw
  observe_raw-Signals d session raw source now =
      if_keeps (λ (r : RepeatedFailureDetector × Option TunnelSignal). Signals session r.1)
        (is_empty (normalize_fingerprint lower raw) || is_empty session) tt
        (record_failure-Signals d session (normalize_fingerprint lower raw) source now)

  pub observe-Signals :
      (d : RepeatedFailureDetector) (event : AgentEvent) (now : ℕ)
      → Signals event.session_id (observe lower d event now).1
  unfolding observe
  observe-Signals d event now =
      if_keeps (λ (r : RepeatedFailureDetector × Option TunnelSignal). Signals event.session_id r.1)
        (is_empty (extract_failure_text event)) tt
        (observe_raw-Signals d event.session_id (extract_failure_text event) event.event_id now)
