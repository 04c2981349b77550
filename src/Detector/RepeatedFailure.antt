-- ===== src/Detector/RepeatedFailure.antt =====
-- pkg/detector/repeated_failure.go: per session, how often each failure fingerprint was seen. The
-- clock is an argument of the calls that read it; the mutex makes each call one step.
pub mod History
pub mod Signals
use reinframe.Prelude.{
  ℕ, zero, suc, ◌+◌, String, Char, Bool, true, false, ◌&&◌, ◌||◌, not, Option, none, some, List, [],
  ◌∷◌, ℤ, pos, negsuc, positive_or, show_ℤ, itoa, ◌⧺◌, Map, lookup, insert, remove, lookup_or,
  is_empty, str_eq, ltb, leb, if◌then◌else◌,
}
use reinframe.Detector.Fingerprint.{normalize_fingerprint}
use reinframe.Detector.Signal.{
  Json, text, number, other, TestResult, ToolCall, Payload, AgentEvent, TunnelSignal, next_u64,
}

abbrev pub default_threshold : ℕ
default_threshold = 3

pub record SessionFingerprints : Type 0 where
  pub counts : Map ℕ
  pub first : Map ℕ
  pub last : Map ℕ

pub record RepeatedFailureDetector : Type 0 where
  pub threshold : ℕ
  pub sessions : Map SessionFingerprints
  pub seq : ℕ

unfoldable pub new : ℤ → RepeatedFailureDetector
new threshold = record {
  threshold = positive_or default_threshold threshold;
  sessions = [];
  seq = 0;
}

abbrev pub empty_session : SessionFingerprints
empty_session = record { counts = []; first = []; last = [] }

-- The new marks of one session at a failure `fp`.
unfoldable pub mark : SessionFingerprints → String → ℕ → SessionFingerprints
mark ss fp now = record {
  counts = insert fp (lookup_or 0 fp ss.counts + 1) ss.counts;
  first = elim (lookup fp ss.first) [ none ↦ insert fp now ss.first | some _ ↦ ss.first ];
  last = insert fp now ss.last;
}

signal_of : RepeatedFailureDetector → String → String → String → ℕ → ℕ → TunnelSignal
signal_of d session_id fp source_id count now = record {
  signal_id =
      if is_empty source_id
      then "sig-rf-" ⧺ itoa d.seq
      else "sig-rf-" ⧺ source_id ⧺ "-" ⧺ itoa d.seq;
  session_id = session_id;
  detector_name = "RepeatedFailureDetector";
  failure_mode = "repeated_error_loop";
  weight = 35;
  score = 100;
  details =
      ("fingerprint", fp)
      ∷ ("count", itoa count)
      ∷ ("threshold", itoa d.threshold)
      ∷ ("source_id", source_id)
      ∷ [];
  triggered_at = now;
}

-- The locked part of `ObserveRaw`.
unfoldable pub record_failure :
    RepeatedFailureDetector
    → String
    → String
    → String
    → ℕ
    → RepeatedFailureDetector × Option TunnelSignal
unfolding mark signal_of
record_failure d session_id fp source_id now =
    let ss = mark (lookup_or empty_session session_id d.sessions) fp now in
    let d' = record d { sessions = insert session_id ss d.sessions } in
    let count = lookup_or 0 fp ss.counts in
    let fired = record d' { seq = next_u64 d.seq } in
    if ltb count d.threshold
    then (d', none)
    else (fired, some (signal_of fired session_id fp source_id count now))

-- `extractFailureText`: the first of the keys that holds a non-empty text.
unfoldable pub first_text : List String → Map Json → Option String
first_text [] m = none
first_text (k ∷ ks) m =
    let rest = first_text ks m in
    elim (lookup_or other k m) [
      | text v ↦ if is_empty v then rest else some v
      | number b ↦ rest
      | other ↦ rest
    ]

test_result_text : TestResult → Option String
test_result_text tr = elim tr.failed_count [
  | pos zero ↦ if is_empty tr.failure_output then none else some tr.failure_output
  | pos (suc n) ↦ some (
      if is_empty tr.failure_output
      then "test_failed command=" ⧺ tr.command ⧺ " failed=" ⧺ itoa (suc n)
      else tr.failure_output)
  | negsuc n ↦ if is_empty tr.failure_output then none else some tr.failure_output
]

exit_text : ToolCall → ℤ → Option String
exit_text tc (pos zero) = none
exit_text tc code = some ("tool " ⧺ tc.tool_name ⧺ " exit=" ⧺ show_ℤ code ⧺ " output=" ⧺ tc.output)

tool_call_text : ToolCall → Option String
unfolding exit_text
tool_call_text tc =
    if is_empty tc.error
    then (elim tc.exit_code [ none ↦ none | some code ↦ exit_text tc code ])
    else some tc.error

-- The fallback on any decodable object. Its last branch, a positive `failed_count` with a non-empty
-- `failure_output`, reads a key that the loop above it has tried.
generic_text : Map Json → Option String
unfolding first_text
generic_text m =
    elim (first_text ("failure_output" ∷ "error" ∷ "normalized_text" ∷ "raw_error" ∷ []) m) [
      | some v ↦ some v
      | none ↦ (elim (lookup_or other "failed_count" m) [
        | number true ↦ first_text ("failure_output" ∷ []) m
        | _ ↦ none
      ])
    ]

then_try : Option String → Option String → Option String
then_try (some v) k = some v
then_try none k = k

or_empty : Option String → String
or_empty (some v) = v
or_empty none = ""

unfoldable pub extract_failure_text : AgentEvent → String
unfolding test_result_text tool_call_text generic_text then_try or_empty first_text
extract_failure_text event =
    let p = event.payload in
    let t = event.event_type in
    let generic : Option String = elim p.as_object [ none ↦ none | some m ↦ generic_text m ] in
    let from_test : Option String = elim p.as_test_result [
      | none ↦ none
      | some tr ↦ test_result_text tr
    ] in
    let from_tool : Option String = elim p.as_tool_call [
      | none ↦ none
      | some tc ↦ tool_call_text tc
    ] in
    let from_error : Option String = elim p.as_object [
      | none ↦ none
      | some m ↦
          first_text ("error" ∷ "failure_output" ∷ "normalized_text" ∷ "message" ∷ "raw_error" ∷ [])
            m
    ] in
    if is_empty p.raw
    then ""
    else if str_eq t "test_result" || str_eq t "TestResult"
    then or_empty (then_try from_test generic)
    else if str_eq t "tool_call" || str_eq t "ToolCall"
    then or_empty (then_try from_tool generic)
    else if str_eq t "error" || str_eq t "failure" || str_eq t "agent_error"
    then or_empty (then_try from_error (some p.raw))
    else or_empty generic

abbrev pub count_in : Option SessionFingerprints → String → ℕ
count_in none fp = 0
count_in (some ss) fp = lookup_or 0 fp ss.counts

-- `Count`
unfoldable pub count_of : RepeatedFailureDetector → String → String → ℕ
count_of d session_id fp = count_in (lookup session_id d.sessions) fp

-- `ResetSession`
unfoldable pub reset_session : RepeatedFailureDetector → String → RepeatedFailureDetector
reset_session d session_id = record d { sessions = remove session_id d.sessions }

module _ (lower : Char → Char) where
  -- `ObserveRaw`
  unfoldable pub observe_raw :
      RepeatedFailureDetector
      → String
      → String
      → String
      → ℕ
      → RepeatedFailureDetector × Option TunnelSignal
  observe_raw d session_id raw source_id now =
      let fp = normalize_fingerprint lower raw in
      if is_empty fp || is_empty session_id
      then (d, none)
      else record_failure d session_id fp source_id now

  -- `Observe`
  unfoldable pub observe :
      RepeatedFailureDetector → AgentEvent → ℕ → RepeatedFailureDetector × Option TunnelSignal
  unfolding observe_raw
  observe d event now =
      let raw = extract_failure_text event in
      if is_empty raw then (d, none) else observe_raw d event.session_id raw event.event_id now

  -- `Count` normalizes the text it is asked for.
  unfoldable pub count : RepeatedFailureDetector → String → String → ℕ
  unfolding count_of
  count d session_id raw = count_of d session_id (normalize_fingerprint lower raw)
