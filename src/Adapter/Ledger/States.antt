-- ===== src/Adapter/Ledger/States.antt =====
-- The names of the delivery states in the log of pkg/adapter/durable_advice_ledger.go.
use reinframe.Prelude.{false, ◌≡◌, refl, some, is_empty}
use reinframe.Adapter.Delivery.{DeliveryState}
use reinframe.Adapter.Ledger.{state_name, known_state}

-- A state's name is known, and names that state.
pub known_state-state_name : (st : DeliveryState) → known_state (state_name st) ≡ some st
unfolding known_state state_name
known_state-state_name DeliveryState.pending = refl
known_state-state_name DeliveryState.delivering = refl
known_state-state_name DeliveryState.transport_accepted = refl
known_state-state_name DeliveryState.session_visible = refl
known_state-state_name DeliveryState.explicit_ack = refl
known_state-state_name DeliveryState.behavioral_ack = refl
known_state-state_name DeliveryState.acked = refl
known_state-state_name DeliveryState.rejected = refl
known_state-state_name DeliveryState.timed_out = refl
known_state-state_name DeliveryState.expired = refl
known_state-state_name DeliveryState.suppressed = refl
known_state-state_name DeliveryState.failed = refl
known_state-state_name DeliveryState.unsupported = refl
known_state-state_name DeliveryState.ambiguous = refl

pub is_empty-state_name : (st : DeliveryState) → is_empty (state_name st) ≡ false
unfolding state_name
is_empty-state_name DeliveryState.pending = refl
is_empty-state_name _ = refl
