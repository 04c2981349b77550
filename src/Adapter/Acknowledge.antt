-- ===== src/Adapter/Acknowledge.antt =====
-- pkg/adapter/acknowledge.go: the request of a source-bound acknowledgement and its checks.
use reinframe.Prelude.{
  ℕ, String, Bool, true, false, ◌||◌, not, Option, none, some, str_eq, is_empty, if◌then◌else◌,
}
use reinframe.Adapter.Delivery.{AckStatus, AckLayer}

pub record AcknowledgeRequest : Type 0 where
  pub schema_version : String
  pub intervention_id : String
  pub host_family : String
  pub host_version : String
  pub profile : String
  pub target_session : String
  pub source_kind : String
  pub source_event_id : String
  pub correlation_id : String
  pub ack_layer : AckLayer
  pub status : AckStatus
  pub observed_at : Option ℕ

pub data AckErr : Type 0 where
  id_required source_bound_required invalid_status explicit_not_supported unknown_intervention :
      AckErr
  not_awaiting session_mismatch bare_explicit durable_write_failed : AckErr

-- Both ways through the function return the same ceiling.
unfoldable pub profile_max_ack_layer : String → String → AckLayer
profile_max_ack_layer host_family profile =
    if str_eq host_family "grok_build" || str_eq profile "reinframe.grok_build_acp.v1"
    then AckLayer.session_visible
    else AckLayer.session_visible

abbrev pub is_explicit : AckLayer → Bool
is_explicit AckLayer.explicit = true
is_explicit _ = false

valid_status : AckStatus → Bool
valid_status AckStatus.acked = true
valid_status AckStatus.rejected = true
valid_status AckStatus.timed_out = true
valid_status _ = false

abbrev is_acked : AckStatus → Bool
is_acked AckStatus.acked = true
is_acked _ = false

-- An empty layer asks for the default of its status.
requested_layer : AckLayer → AckStatus → AckLayer
requested_layer (AckLayer.other String.[]) status =
    if is_acked status then AckLayer.session_visible else AckLayer.no_layer
requested_layer (AckLayer.other (String.◌∷◌ c s)) status = AckLayer.other (String.◌∷◌ c s)
requested_layer layer status = layer

-- `ValidateAcknowledgeRequest`
unfoldable pub validate_acknowledge_request : AcknowledgeRequest → Option AckErr
unfolding valid_status requested_layer profile_max_ack_layer
validate_acknowledge_request req =
    if is_empty req.intervention_id
    then some id_required
    else if is_empty req.source_kind || is_empty req.source_event_id
    then some source_bound_required
    else if not (valid_status req.status)
    then some invalid_status
    else if is_explicit (requested_layer req.ack_layer req.status)
    then (if is_explicit (profile_max_ack_layer req.host_family req.profile)
        then none
        else some explicit_not_supported)
    else none
