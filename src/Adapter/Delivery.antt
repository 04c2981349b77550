-- ===== src/Adapter/Delivery.antt =====
-- The records of pkg/adapter/result.go, the layers of pkg/adapter/grok_acp.go and the `Intervention`
-- of pkg/protocol/schema.go. A Go string with a fixed set of values is a data type whose constructor
-- `other` holds any other text; times are numbers.
use reinframe.Prelude.{ℕ, String, Bool, true, false, Option, str_eq, if◌then◌else◌}

-- The fields of `Intervention` that the policy sets and the delivery reads.
pub record Intervention : Type 0 where
  pub intervention_id : String
  pub session_id : String
  pub action_type : String
  pub advice_prompt : String
  pub fingerprint : String
  pub level : ℕ
  pub status : String
  pub requires_ack : Bool
  pub safe_boundary : String
  pub priority : ℕ
  pub executed_at : ℕ

pub data DeliveryState : Type 0 where
  pending delivering transport_accepted session_visible explicit_ack behavioral_ack acked :
      DeliveryState
  rejected timed_out expired suppressed failed unsupported ambiguous : DeliveryState

pub data AckStatus : Type 0 where
  pending acked rejected timed_out unsupported : AckStatus
  other : String → AckStatus

pub data ErrorClass : Type 0 where
  no_error unsupported_capability timeout agent_rejected transport : ErrorClass
  other : String → ErrorClass

pub data AckLayer : Type 0 where
  no_layer transport session_visible behavioral explicit : AckLayer
  other : String → AckLayer

pub data Boundary : Type 0 where
  not_sent send_attempted_unknown transport_accepted session_visible : Boundary
  other : String → Boundary

pub data DeliveryMode : Type 0 where
  advice context_inject tool_gate pause cancel mcp_pending human_escalation : DeliveryMode
  other : String → DeliveryMode

pub record InterventionResult : Type 0 where
  pub intervention_id : String
  pub accepted : Bool
  pub delivery_mode : DeliveryMode
  pub delivered_at : ℕ
  pub ack_status : AckStatus
  pub ack_at : Option ℕ
  pub error_class : ErrorClass
  pub message : String
  pub ack_layer : AckLayer
  pub host_family : String
  pub host_version : String
  pub profile : String
  pub safe_boundary : String
  pub target_session_id : String
  pub caps_digest : String
  pub delivery_boundary : Boundary

-- `DefaultDeliveryMode` (pkg/adapter/actuator.go)
unfoldable pub default_delivery_mode : String → DeliveryMode
default_delivery_mode t =
    if str_eq t "ZOOM_OUT_PROMPT"
    then advice
    else if str_eq t "PAUSE_PROCESS"
    then pause
    else if str_eq t "CANCEL_ACTION"
    then cancel
    else if str_eq t "GIT_ROLLBACK"
    then human_escalation
    else if str_eq t "TERMINATE_SESSION"
    then human_escalation
    else advice

abbrev pub is_pending : DeliveryState → Bool
is_pending DeliveryState.pending = true
is_pending _ = false

-- `inFlightAdvisory` (pkg/adapter/pending_queue.go)
unfoldable pub in_flight_advisory : DeliveryState → Bool
in_flight_advisory DeliveryState.pending = true
in_flight_advisory DeliveryState.delivering = true
in_flight_advisory DeliveryState.transport_accepted = true
in_flight_advisory DeliveryState.session_visible = true
in_flight_advisory _ = false
