-- ===== src/Challenge/States.antt =====
-- The states of a challenge: `ChallengeState` of pkg/challenge/types.go, isTerminal and
-- validateTransition of pkg/challenge/store.go.
pub mod Paths
use reinframe.Prelude.{Bool, true, false}

-- `unset` is the empty text, `opened` is OPEN. No other text stands in a record: the service writes these
-- alone, and a store read from a file that holds another is left out.
pub data ChallengeState : Type 0 where
  unset opened justified retry_pending allowed_once rejected human_review abandoned expired :
      ChallengeState

-- `isTerminal`
unfoldable pub is_terminal : ChallengeState → Bool
is_terminal ChallengeState.allowed_once = true
is_terminal ChallengeState.rejected = true
is_terminal ChallengeState.human_review = true
is_terminal ChallengeState.abandoned = true
is_terminal ChallengeState.expired = true
is_terminal _ = false

-- The states that the switches of the store call active.
unfoldable pub is_active : ChallengeState → Bool
is_active ChallengeState.opened = true
is_active ChallengeState.justified = true
is_active ChallengeState.retry_pending = true
is_active _ = false

from_open : ChallengeState → Bool
from_open ChallengeState.justified = true
from_open ChallengeState.rejected = true
from_open ChallengeState.abandoned = true
from_open ChallengeState.expired = true
from_open ChallengeState.human_review = true
from_open ChallengeState.opened = true
from_open _ = false

from_justified : ChallengeState → Bool
from_justified ChallengeState.retry_pending = true
from_justified ChallengeState.abandoned = true
from_justified ChallengeState.expired = true
from_justified ChallengeState.rejected = true
from_justified ChallengeState.human_review = true
from_justified ChallengeState.justified = true
from_justified _ = false

from_retry_pending : ChallengeState → Bool
from_retry_pending ChallengeState.allowed_once = true
from_retry_pending ChallengeState.rejected = true
from_retry_pending ChallengeState.human_review = true
from_retry_pending ChallengeState.expired = true
from_retry_pending ChallengeState.retry_pending = true
from_retry_pending _ = false

-- `validateTransition`; `true` where Go returns nil.
unfoldable pub validate_transition : ChallengeState → ChallengeState → Bool
unfolding from_open from_justified from_retry_pending
validate_transition ChallengeState.unset ChallengeState.opened = true
validate_transition ChallengeState.unset _ = false
validate_transition ChallengeState.opened to = from_open to
validate_transition ChallengeState.justified to = from_justified to
validate_transition ChallengeState.retry_pending to = from_retry_pending to
validate_transition ChallengeState.allowed_once ChallengeState.allowed_once = true
validate_transition ChallengeState.allowed_once _ = false
validate_transition ChallengeState.rejected ChallengeState.rejected = true
validate_transition ChallengeState.rejected _ = false
validate_transition ChallengeState.human_review ChallengeState.human_review = true
validate_transition ChallengeState.human_review _ = false
validate_transition ChallengeState.abandoned ChallengeState.abandoned = true
validate_transition ChallengeState.abandoned _ = false
validate_transition ChallengeState.expired ChallengeState.expired = true
validate_transition ChallengeState.expired _ = false
