-- ===== src/Detector/ToolBudget.antt =====
-- pkg/detector/tool_budget.go: per session, the tool calls, and those since the last progress. The
-- clock is an argument of the calls that read it; the mutex makes each call one step.
pub mod Window
use reinframe.Prelude.{
  ℕ, zero, suc, ◌+◌, String, Bool, true, false, not, ◌&&◌, ◌||◌, Option, none, some, List, [], ◌∷◌,
  ℤ, pos, positive_or, itoa, ◌⧺◌, Map, lookup, insert, remove, lookup_or, is_empty, str_eq, ltb,
  if◌then◌else◌,
}
use reinframe.Detector.Signal.{
  Json, text, number, other, ToolCall, Payload, AgentEvent, TunnelSignal, next_u64,
}

abbrev pub default_max_tool_calls : ℕ
default_max_tool_calls = 30

pub record ToolBudgetSession : Type 0 where
  pub tool_calls : ℕ
  pub progress_hits : ℕ
  pub tools_since_progress : ℕ

pub record ToolBudgetChurnDetector : Type 0 where
  pub max_default : ℕ
  pub sessions : Map ToolBudgetSession
  pub seq : ℕ

abbrev pub no_calls : ToolBudgetSession
no_calls = record { tool_calls = 0; progress_hits = 0; tools_since_progress = 0 }

-- `NewToolBudgetChurnDetector`
unfoldable pub new : ℤ → ToolBudgetChurnDetector
new max = record { max_default = positive_or default_max_tool_calls max; sessions = []; seq = 0 }

-- The session's counters, zeros where it has none.
abbrev pub session_of : ToolBudgetChurnDetector → String → ToolBudgetSession
session_of d s = lookup_or no_calls s d.sessions

-- `MarkProgress`
unfoldable pub mark_progress : ToolBudgetChurnDetector → String → ToolBudgetChurnDetector
mark_progress d session_id =
    let ss = session_of d session_id in
    if is_empty session_id then d else record d {
      sessions =
          insert session_id
            (record ss { progress_hits = ss.progress_hits + 1; tools_since_progress = 0 })
            d.sessions;
    }

-- `ToolCount`
unfoldable pub tool_count : ToolBudgetChurnDetector → String → ℕ
tool_count d session_id = (session_of d session_id).tool_calls

-- `ToolsSinceProgress`
unfoldable pub tools_since_progress : ToolBudgetChurnDetector → String → ℕ
tools_since_progress d session_id = (session_of d session_id).tools_since_progress

-- `ResetSession`
unfoldable pub reset_session : ToolBudgetChurnDetector → String → ToolBudgetChurnDetector
reset_session d session_id = record d { sessions = remove session_id d.sessions }

signal_of : ℕ → String → String → String → ℕ → ToolBudgetSession → ℕ → TunnelSignal
signal_of seq session_id tool_name source_id max ss now = record {
  signal_id =
      if is_empty source_id then "sig-tb-" ⧺ itoa seq else "sig-tb-" ⧺ source_id ⧺ "-" ⧺ itoa seq;
  session_id = session_id;
  detector_name = "ToolBudgetChurnDetector";
  failure_mode = "tool_budget_churn";
  weight = 32;
  score = 100;
  details =
      ("tool_name", tool_name)
      ∷ ("tools_since_progress", itoa ss.tools_since_progress)
      ∷ ("total_tool_calls", itoa ss.tool_calls)
      ∷ ("max_tool_calls", itoa max)
      ∷ ("progress_hits", itoa ss.progress_hits)
      ∷ ("source_id", source_id)
      ∷ [];
  triggered_at = now;
}

-- The budget of one call: the override, if it is positive.
abbrev pub budget : ToolBudgetChurnDetector → ℤ → ℕ
budget d max_override = positive_or d.max_default max_override

-- `recordTool`
unfoldable pub record_tool :
    ToolBudgetChurnDetector
    → String
    → String
    → String
    → ℤ
    → ℕ
    → ToolBudgetChurnDetector × Option TunnelSignal
unfolding signal_of
record_tool d session_id tool_name source_id max_override now =
    let old = session_of d session_id in
    let ss = record old {
      tool_calls = old.tool_calls + 1;
      tools_since_progress = old.tools_since_progress + 1;
    } in
    let max = budget d max_override in
    let d' = record d { sessions = insert session_id ss d.sessions } in
    let seq = next_u64 d.seq in
    if is_empty session_id
    then (d, none)
    else if ltb ss.tools_since_progress max
    then (d', none)
    else (record d' { seq = seq }, some (signal_of seq session_id tool_name source_id max ss now))

-- The text under a key, even an empty one.
text_at : String → Map Json → Option String
text_at k m = elim (lookup_or other k m) [ text v ↦ some v | number b ↦ none | other ↦ none ]

name_in : Map Json → String
unfolding text_at
name_in m = elim (text_at "tool_name" m) [
  | some v ↦ v
  | none ↦ (elim (text_at "name" m) [ some v ↦ v | none ↦ "" ])
]

-- `extractToolName`
unfoldable pub extract_tool_name : AgentEvent → String
unfolding name_in
extract_tool_name event =
    let p = event.payload in
    let generic : String = elim p.as_object [ none ↦ "" | some m ↦ name_in m ] in
    if is_empty p.raw then "" else (elim p.as_tool_call [
      | none ↦ generic
      | some tc ↦ if is_empty tc.tool_name then generic else tc.tool_name
    ])

abbrev is_tool_call : String → Bool
is_tool_call t = str_eq t "tool_call" || str_eq t "ToolCall"

abbrev is_progress : String → Bool
is_progress t =
    str_eq t "file_change"
    || str_eq t "FileChange"
    || str_eq t "evidence"
    || str_eq t "criterion_met"

-- `ObserveWithBudget`; `Observe` passes 0, for which the default holds.
unfoldable pub observe_with_budget :
    ToolBudgetChurnDetector → AgentEvent → ℤ → ℕ → ToolBudgetChurnDetector × Option TunnelSignal
unfolding record_tool extract_tool_name mark_progress
observe_with_budget d event max now =
    if is_empty event.session_id
    then (d, none)
    else if is_tool_call event.event_type
    then record_tool d event.session_id (extract_tool_name event) event.event_id max now
    else if is_progress event.event_type
    then (mark_progress d event.session_id, none)
    else (d, none)
