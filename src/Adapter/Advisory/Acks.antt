-- ===== src/Adapter/Advisory/Acks.antt =====
-- Acknowledge and AcknowledgeSource of pkg/adapter/advisory_delivery.go.
use reinframe.Prelude.{
  ℕ, String, Bool, true, false, not, ◌&&◌, Option, none, some, str_eq, is_empty, ◌⧺◌, ltb,
  if◌then◌else◌,
}
use reinframe.Adapter.Delivery.{
  DeliveryState, AckStatus, ErrorClass, AckLayer, InterventionResult, default_delivery_mode,
}
use reinframe.Adapter.PendingQueue.{PendingItem, update_state, get}
use reinframe.Adapter.Ledger.{AppendIo, record_result}
use reinframe.Adapter.Acknowledge.{
  AcknowledgeRequest, AckErr, unknown_intervention, not_awaiting, session_mismatch, bare_explicit,
  durable_write_failed, explicit_not_supported, invalid_status, profile_max_ack_layer, is_explicit,
  validate_acknowledge_request,
}
use reinframe.Adapter.Advisory.{AdvisoryDelivery, blank_result}

-- `awaitingExplicitACK`
unfoldable pub awaiting_explicit_ack : DeliveryState → Bool
awaiting_explicit_ack DeliveryState.delivering = true
awaiting_explicit_ack DeliveryState.transport_accepted = true
awaiting_explicit_ack DeliveryState.session_visible = true
awaiting_explicit_ack _ = false

-- `layerRank`
unfoldable pub layer_rank : AckLayer → ℕ
layer_rank AckLayer.transport = 1
layer_rank AckLayer.session_visible = 2
layer_rank AckLayer.behavioral = 3
layer_rank AckLayer.explicit = 4
layer_rank _ = 0

pick_non_empty : String → String → String
pick_non_empty a b = if is_empty a then b else a

unfoldable pub ack_default : AckLayer → AckStatus → AckLayer
ack_default (AckLayer.other String.[]) AckStatus.acked = AckLayer.session_visible
ack_default layer status = layer

-- The layer within the ceiling of the profile, `none` where an explicit one is refused.
unfoldable pub capped_layer : AckLayer → AckLayer → Option AckLayer
unfolding layer_rank
capped_layer layer max =
    if is_explicit layer && not (is_explicit max)
    then none
    else some (if ltb (layer_rank max) (layer_rank layer) then max else layer)

unfoldable pub ack_state : AckLayer → DeliveryState
ack_state AckLayer.explicit = DeliveryState.explicit_ack
ack_state AckLayer.session_visible = DeliveryState.session_visible
ack_state AckLayer.transport = DeliveryState.transport_accepted
ack_state _ = DeliveryState.acked

-- The pins of the host's delivery, overlaid with those of the request.
unfoldable pub base_result : AcknowledgeRequest → PendingItem → ℕ → InterventionResult
unfolding blank_result pick_non_empty
base_result req it now = elim it.result [
  | none ↦
      record (blank_result it.intervention (default_delivery_mode it.intervention.action_type)
        now) {
          intervention_id = req.intervention_id;
          error_class = ErrorClass.no_error;
          host_family = req.host_family;
          host_version = req.host_version;
          profile = req.profile;
          target_session_id = req.target_session;
        }
  | some prev ↦ record prev {
    host_family = pick_non_empty req.host_family prev.host_family;
    host_version = pick_non_empty req.host_version prev.host_version;
    profile = pick_non_empty req.profile prev.profile;
    target_session_id = pick_non_empty req.target_session prev.target_session_id;
  }
]

layer_name : AckLayer → String
layer_name AckLayer.no_layer = "none"
layer_name AckLayer.transport = "transport"
layer_name AckLayer.session_visible = "session_visible"
layer_name AckLayer.behavioral = "behavioral"
layer_name AckLayer.explicit = "explicit"
layer_name (AckLayer.other s) = s

-- The new state and result by the status, `none` for a status that is no answer.
unfoldable pub outcome :
    AckStatus
    → AcknowledgeRequest
    → AckLayer
    → InterventionResult
    → ℕ
    → Option (DeliveryState × InterventionResult)
unfolding ack_state layer_name
outcome AckStatus.acked req layer res now = some (
  ack_state layer,
  record res {
    accepted = true;
    ack_status = AckStatus.acked;
    ack_layer = layer;
    ack_at = some now;
    message =
        "source_bound ack kind="
        ⧺ req.source_kind
        ⧺ " event="
        ⧺ req.source_event_id
        ⧺ " layer="
        ⧺ layer_name layer;
  },
)
outcome AckStatus.rejected req layer res now = some (
  DeliveryState.rejected,
  record res {
    accepted = false;
    ack_status = AckStatus.rejected;
    error_class = ErrorClass.agent_rejected;
    ack_at = some now;
  },
)
outcome AckStatus.timed_out req layer res now = some (
  DeliveryState.timed_out,
  record res {
    accepted = false;
    ack_status = AckStatus.timed_out;
    error_class = ErrorClass.timeout;
  },
)
outcome _ req layer res now = none

unfoldable pub is_mismatch : PendingItem → String → Bool
is_mismatch it target = elim it.result [
  | none ↦ false
  | some r ↦
      not (is_empty r.target_session_id)
      && not (is_empty target)
      && not (str_eq r.target_session_id target)
]

-- Durable first, then memory.
unfoldable pub commit :
    AdvisoryDelivery
    → AppendIo
    → AcknowledgeRequest
    → PendingItem
    → DeliveryState × InterventionResult
    → AdvisoryDelivery × Option AckErr
commit d io req it (state, res) =
    let q = (update_state d.queue req.intervention_id state (some res)).0 in
    elim d.ledger [
      | none ↦ (record d { queue = q }, none)
      | some l ↦
          let (l', lerr) =
            record_result l io it.state it.intervention.session_id res state req.source_kind
              req.source_event_id it.intervention.fingerprint in
          elim lerr [
            | none ↦ (record d { queue = q; ledger = some l' }, none)
            | some e ↦ (record d { ledger = some l' }, some durable_write_failed)
          ]
    ]

unfoldable pub answer :
    AdvisoryDelivery
    → AppendIo
    → ℕ
    → AcknowledgeRequest
    → PendingItem
    → AdvisoryDelivery × Option AckErr
unfolding is_mismatch base_result ack_default capped_layer outcome commit
answer d io wall req it =
    let now : ℕ = elim req.observed_at [ none ↦ wall | some t ↦ t ] in
    let res = base_result req it now in
    let max = profile_max_ack_layer res.host_family res.profile in
    if not (awaiting_explicit_ack it.state)
    then (d, some not_awaiting)
    else if is_mismatch it req.target_session
    then (d, some session_mismatch)
    else elim (capped_layer (ack_default req.ack_layer req.status) max) [
      | none ↦ (d, some explicit_not_supported)
      | some layer ↦ (elim (outcome req.status req layer res now) [
        | none ↦ (d, some invalid_status)
        | some r ↦ commit d io req it r
      ])
    ]

-- `AcknowledgeSource`; `wall` is the clock, read where the request has no time of its own.
unfoldable pub acknowledge_source :
    AdvisoryDelivery → AppendIo → ℕ → AcknowledgeRequest → AdvisoryDelivery × Option AckErr
unfolding answer
acknowledge_source d io wall req = elim (validate_acknowledge_request req) [
  | some e ↦ (d, some e)
  | none ↦ (elim (get d.queue req.intervention_id) [
    | none ↦ (d, some unknown_intervention)
    | some it ↦ answer d io wall req it
  ])
]

abbrev pub is_acked : AckStatus → Bool
is_acked AckStatus.acked = true
is_acked _ = false

unfoldable pub status_name : AckStatus → String
status_name AckStatus.pending = "pending"
status_name AckStatus.acked = "acked"
status_name AckStatus.rejected = "rejected"
status_name AckStatus.timed_out = "timed_out"
status_name AckStatus.unsupported = "unsupported"
status_name (AckStatus.other s) = s

-- `Acknowledge`, which cannot ask for an explicit acknowledgement.
unfoldable pub acknowledge :
    AdvisoryDelivery → AppendIo → ℕ → String → AckStatus → AdvisoryDelivery × Option AckErr
unfolding acknowledge_source status_name
acknowledge d io wall id status =
    if is_acked status
    then (d, some bare_explicit)
    else acknowledge_source d io wall (record {
      schema_version = "reinframe.ack_request.v1";
      intervention_id = id;
      host_family = "";
      host_version = "";
      profile = "";
      target_session = "";
      source_kind = "legacy_bare";
      source_event_id = "legacy:" ⧺ id ⧺ ":" ⧺ status_name status;
      correlation_id = "";
      ack_layer = AckLayer.no_layer;
      status = status;
      observed_at = none;
    })
