-- ===== src/Adapter/Boundary.antt =====
-- pkg/adapter/delivery_boundary.go, and `mapResultToState` of pkg/adapter/advisory_delivery.go.
use reinframe.Prelude.{Bool, true, false, if◌then◌else◌}
use reinframe.Adapter.Delivery.{
  DeliveryState, AckStatus, ErrorClass, AckLayer, Boundary, InterventionResult,
}

by_error : ErrorClass → Bool → Boundary
by_error ErrorClass.unsupported_capability failed = Boundary.not_sent
by_error ErrorClass.agent_rejected failed = Boundary.transport_accepted
by_error ErrorClass.timeout failed = Boundary.send_attempted_unknown
by_error ErrorClass.transport failed = Boundary.send_attempted_unknown
by_error _ failed = if failed then Boundary.send_attempted_unknown else Boundary.not_sent

by_layer : AckLayer → Bool → ErrorClass → Bool → Boundary
unfolding by_error
by_layer AckLayer.session_visible accepted e failed = Boundary.session_visible
by_layer AckLayer.explicit accepted e failed = Boundary.session_visible
by_layer AckLayer.behavioral accepted e failed = Boundary.session_visible
by_layer AckLayer.transport accepted e failed = Boundary.transport_accepted
by_layer _ accepted e failed = if accepted then Boundary.transport_accepted else by_error e failed

by_declared : Boundary → AckLayer → Bool → ErrorClass → Bool → Boundary
unfolding by_layer
by_declared Boundary.not_sent layer accepted e failed = Boundary.not_sent
by_declared Boundary.send_attempted_unknown layer accepted e failed =
    Boundary.send_attempted_unknown
by_declared Boundary.transport_accepted layer accepted e failed = Boundary.transport_accepted
by_declared Boundary.session_visible layer accepted e failed = Boundary.session_visible
by_declared (Boundary.other s) layer accepted e failed = by_layer layer accepted e failed

-- `ClassifyDeliveryBoundary`; `failed` says that `deliverErr` is not nil.
unfoldable pub classify_delivery_boundary : InterventionResult → Bool → Boundary
unfolding by_declared
classify_delivery_boundary res failed =
    by_declared res.delivery_boundary res.ack_layer res.accepted res.error_class failed

-- `ShouldAmbiguousSuppress`
unfoldable pub should_ambiguous_suppress : Boundary → Bool
should_ambiguous_suppress Boundary.send_attempted_unknown = true
should_ambiguous_suppress Boundary.transport_accepted = true
should_ambiguous_suppress Boundary.session_visible = true
should_ambiguous_suppress _ = false

acked_state : AckLayer → DeliveryState
acked_state AckLayer.explicit = DeliveryState.explicit_ack
acked_state AckLayer.behavioral = DeliveryState.behavioral_ack
acked_state _ = DeliveryState.acked

waiting_state : AckLayer → DeliveryState
waiting_state AckLayer.session_visible = DeliveryState.session_visible
waiting_state AckLayer.transport = DeliveryState.transport_accepted
waiting_state _ = DeliveryState.delivering

other_state : ErrorClass → Bool → Bool → DeliveryState
other_state ErrorClass.unsupported_capability accepted failed = DeliveryState.unsupported
other_state ErrorClass.timeout accepted failed = DeliveryState.timed_out
other_state ErrorClass.transport accepted failed = DeliveryState.failed
other_state _ accepted failed =
    if failed
    then DeliveryState.failed
    else if accepted
    then DeliveryState.acked
    else DeliveryState.failed

state_by_status : AckStatus → InterventionResult → Bool → DeliveryState
unfolding acked_state waiting_state other_state
state_by_status AckStatus.acked res failed = acked_state res.ack_layer
state_by_status AckStatus.rejected res failed = DeliveryState.rejected
state_by_status AckStatus.timed_out res failed = DeliveryState.timed_out
state_by_status AckStatus.unsupported res failed = DeliveryState.unsupported
state_by_status AckStatus.pending res failed =
    if failed then DeliveryState.failed else waiting_state res.ack_layer
state_by_status (AckStatus.other s) res failed = other_state res.error_class res.accepted failed

-- `mapResultToState`
unfoldable pub map_result_to_state : InterventionResult → Bool → DeliveryState
unfolding state_by_status
map_result_to_state res failed = state_by_status res.ack_status res failed
