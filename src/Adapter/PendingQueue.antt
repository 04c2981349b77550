-- ===== src/Adapter/PendingQueue.antt =====
-- pkg/adapter/pending_queue.go: the pending interventions of each session. The clock is an argument;
-- the mutex makes each call one step.
pub mod Scan
pub mod HandOut
pub mod Oldest
pub mod Keeping
use reinframe.Prelude.{
  ℕ, ◌+◌, String, Bool, true, false, not, ◌&&◌, Option, none, some, List, [], ◌∷◌, ◌++◌, ℤ,
  positive_or, Map, lookup, insert, lookup_or, str_eq, leb, if◌then◌else◌,
}
use reinframe.Adapter.Delivery.{
  Intervention, DeliveryState, InterventionResult, is_pending, in_flight_advisory,
}

pub record PendingItem : Type 0 where
  pub intervention : Intervention
  pub state : DeliveryState
  pub enqueued_at : ℕ
  pub expires_at : ℕ
  pub result : Option InterventionResult

pub record PendingQueue : Type 0 where
  pub by_id : Map PendingItem
  pub by_sess : Map (List String)

abbrev pub empty : PendingQueue
empty = record { by_id = []; by_sess = [] }

pub record EnqueueResult : Type 0 where
  pub item : PendingItem
  pub suppressed : Bool
  pub expired : Bool

-- Five minutes, in nanoseconds.
abbrev pub default_ttl : ℕ
default_ttl = 300_000_000_000

fresh_item : Intervention → ℕ → ℕ → PendingItem
fresh_item iv now expires = record {
  intervention = iv;
  state = DeliveryState.pending;
  enqueued_at = now;
  expires_at = expires;
  result = none;
}

unfoldable pub enqueue : PendingQueue → Intervention → ℤ → ℕ → PendingQueue × EnqueueResult
unfolding fresh_item
enqueue q iv ttl now =
    let id = iv.intervention_id in
    let expires = now + positive_or default_ttl ttl in
    let item = fresh_item iv now expires in
    let dead = record item { state = DeliveryState.expired } in
    let ids = lookup_or [] iv.session_id q.by_sess in
    elim (lookup id q.by_id) [
      | some existing ↦ (
        q,
        record {
          item = record existing { state = DeliveryState.suppressed };
          suppressed = true;
          expired = false;
        },
      )
      | none ↦
          if leb expires now
          then (
            record q { by_id = insert id dead q.by_id },
            record { item = dead; suppressed = false; expired = true },
          )
          else (
            record {
              by_id = insert id item q.by_id;
              by_sess = insert iv.session_id (ids ++ id ∷ []) q.by_sess;
            },
            record { item = item; suppressed = false; expired = false },
          )
    ]

-- `Get`
unfoldable pub get : PendingQueue → String → Option PendingItem
get q id = lookup id q.by_id

-- What one round of the loop of `NextPending` makes of an entry.
pub data Look : Type 0 where
  skip : Look
  lapse : PendingItem → Look
  take : PendingItem → Look

unfoldable pub look : ℕ → Option PendingItem → Look
look now none = skip
look now (some it) =
    if is_pending it.state
    then (if leb it.expires_at now
        then lapse (record it { state = DeliveryState.expired })
        else take (record it { state = DeliveryState.delivering }))
    else skip

abbrev pub Scan : Type 0
Scan = Map PendingItem × Option (PendingItem × List String)

-- The ids that stay in the session's order.
abbrev pub keep : String → Scan → Scan
keep id (m, none) = (m, none)
keep id (m, some (it, rest)) = (m, some (it, id ∷ rest))

unfoldable pub next_scan : ℕ → Map PendingItem → List String → Scan
next_scan now m [] = (m, none)
next_scan now m (id ∷ ids) = elim (look now (lookup id m)) [
  | skip ↦ keep id (next_scan now m ids)
  | lapse it ↦ keep id (next_scan now (insert id it m) ids)
  | take it ↦ (insert id it m, some (it, ids))
]

finish_next : PendingQueue → String → Scan → PendingQueue × Option PendingItem
finish_next q session_id (m, none) = (record q { by_id = m }, none)
finish_next q session_id (m, some (it, rest)) =
    (record { by_id = m; by_sess = insert session_id rest q.by_sess }, some it)

-- `NextPending`
unfoldable pub next_pending : PendingQueue → String → ℕ → PendingQueue × Option PendingItem
unfolding finish_next
next_pending q session_id now =
    finish_next q session_id (next_scan now q.by_id (lookup_or [] session_id q.by_sess))

abbrev pub set_result :
    Option InterventionResult → Option InterventionResult → Option InterventionResult
set_result none old = old
set_result (some r) old = some r

-- `UpdateState`
unfoldable pub update_state :
    PendingQueue → String → DeliveryState → Option InterventionResult → PendingQueue × Bool
update_state q id state result = elim (lookup id q.by_id) [
  | none ↦ (q, false)
  | some it ↦ (
    record q {
      by_id = insert id (record it { state = state; result = set_result result it.result }) q.by_id;
    },
    true,
  )
]

-- What the first loop of `PendingAdvisoryID` makes of an entry.
pub data Sight : Type 0 where
  pass : Sight
  fade : PendingItem → Sight
  hold : PendingItem → Sight

unfoldable pub sight : ℕ → Option PendingItem → Sight
unfolding in_flight_advisory
sight now none = pass
sight now (some it) =
    if is_pending it.state && leb it.expires_at now
    then fade (record it { state = DeliveryState.expired })
    else if in_flight_advisory it.state
    then hold it
    else pass

unfoldable pub advisory_scan : ℕ → Map PendingItem → List String → Map PendingItem × Option String
advisory_scan now m [] = (m, none)
advisory_scan now m (id ∷ ids) = elim (sight now (lookup id m)) [
  | pass ↦ advisory_scan now m ids
  | fade it ↦ advisory_scan now (insert id it m) ids
  | hold it ↦ (m, some it.intervention.intervention_id)
]

-- The second loop: items that `NextPending` took out of the session's order. Go ranges over the map
-- in any order; here it is the order of the list.
unfoldable pub taken_scan : String → Map PendingItem → String
unfolding in_flight_advisory
taken_scan session_id [] = ""
taken_scan session_id ((k, it) ∷ m) =
    let rest = taken_scan session_id m in
    if str_eq it.intervention.session_id session_id
      && in_flight_advisory it.state
      && not (is_pending it.state)
    then it.intervention.intervention_id
    else rest

finish_advisory : PendingQueue → String → Map PendingItem × Option String → PendingQueue × String
unfolding taken_scan
finish_advisory q session_id (m, some id) = (record q { by_id = m }, id)
finish_advisory q session_id (m, none) = (record q { by_id = m }, taken_scan session_id m)

-- `PendingAdvisoryID`
unfoldable pub pending_advisory_id : PendingQueue → String → ℕ → PendingQueue × String
unfolding finish_advisory
pending_advisory_id q session_id now =
    finish_advisory q session_id (advisory_scan now q.by_id (lookup_or [] session_id q.by_sess))
