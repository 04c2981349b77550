-- ===== src/Detector/Signal.antt =====
-- The records that the detectors share: `AgentEvent` with its payload, and `TunnelSignal`
-- (pkg/protocol/schema.go). What `json.Unmarshal` makes of a payload is part of the event, one
-- field for each type that the detectors decode into. A weight is in hundredths, a time a number.
use reinframe.Prelude.{ℕ, ◌+◌, ◌%◌, ◌^◌, String, Bool, Option, Map, ℤ}

-- A value of `map[string]any`; of a number only whether it exceeds 0.
pub data Json : Type 0 where
  text : String → Json
  number : Bool → Json
  other : Json

-- `TestResultEvent`
pub record TestResult : Type 0 where
  pub command : String
  pub failed_count : ℤ
  pub failure_output : String

-- `ToolCallEvent`
pub record ToolCall : Type 0 where
  pub tool_name : String
  pub output : String
  pub error : String
  pub exit_code : Option ℤ

-- `json.RawMessage`: its text, and what it decodes to, `none` where decoding fails.
pub record Payload : Type 0 where
  pub raw : String
  pub as_test_result : Option TestResult
  pub as_tool_call : Option ToolCall
  pub as_object : Option (Map Json)

pub record AgentEvent : Type 0 where
  pub event_id : String
  pub session_id : String
  pub event_type : String
  pub payload : Payload

pub record TunnelSignal : Type 0 where
  pub signal_id : String
  pub session_id : String
  pub detector_name : String
  pub failure_mode : String
  pub weight : ℕ
  pub score : ℕ
  pub details : Map String
  pub triggered_at : ℕ

-- `seq++` on a `uint64`
abbrev pub next_u64 : ℕ → ℕ
next_u64 n = (n + 1) % 2 ^ 64
