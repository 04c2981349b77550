-- ===== src/Adapter/Ledger.antt =====
-- pkg/adapter/durable_advice_ledger.go: the append-only log of delivery transitions, the sidecar
-- directory of suppress markers, and the dedupe keys that both leave in memory. The log file is the
-- list of its lines, each decoded or malformed, and whether its end is torn. How each write ends is an
-- argument.
pub mod States
pub mod Reading
pub mod Marking
pub mod Reopening
pub mod Restart
pub mod Recording
pub mod Tests
use reinframe.Prelude.{
  String, Bool, true, false, not, ◌&&◌, ◌||◌, Option, none, some, List, [], ◌∷◌, ◌++◌, str_eq,
  is_empty, if◌then◌else◌,
}
use reinframe.Adapter.Markers.{
  DedupeKey, dedupe_key, key_eq, has_key, Marker, load_marker, remove_marker, put_marker,
  recover_markers,
}
use reinframe.Adapter.Delivery.{
  DeliveryState, delivering, explicit_ack, behavioral_ack, rejected, timed_out, expired, suppressed,
  failed, ambiguous, acked, unsupported, AckStatus, AckLayer, InterventionResult,
}

-- `string(state)`
unfoldable pub state_name : DeliveryState → String
state_name DeliveryState.pending = "PENDING"
state_name DeliveryState.delivering = "DELIVERING"
state_name DeliveryState.transport_accepted = "TRANSPORT_ACCEPTED"
state_name DeliveryState.session_visible = "SESSION_VISIBLE"
state_name DeliveryState.explicit_ack = "EXPLICIT_ACK"
state_name DeliveryState.behavioral_ack = "BEHAVIORAL_ACK"
state_name DeliveryState.acked = "ACKED"
state_name DeliveryState.rejected = "REJECTED"
state_name DeliveryState.timed_out = "TIMED_OUT"
state_name DeliveryState.expired = "EXPIRED"
state_name DeliveryState.suppressed = "SUPPRESSED"
state_name DeliveryState.failed = "FAILED"
state_name DeliveryState.unsupported = "UNSUPPORTED"
state_name DeliveryState.ambiguous = "AMBIGUOUS"

abbrev all_states : List DeliveryState
all_states =
    DeliveryState.pending ∷ DeliveryState.delivering ∷ DeliveryState.transport_accepted
    ∷ DeliveryState.session_visible ∷ DeliveryState.explicit_ack ∷ DeliveryState.behavioral_ack
    ∷ DeliveryState.acked ∷ DeliveryState.rejected ∷ DeliveryState.timed_out ∷ DeliveryState.expired
    ∷ DeliveryState.suppressed ∷ DeliveryState.failed ∷ DeliveryState.unsupported
    ∷ DeliveryState.ambiguous ∷ []

find_state : String → List DeliveryState → Option DeliveryState
unfolding state_name
find_state name [] = none
find_state name (st ∷ sts) =
    let rest = find_state name sts in if str_eq (state_name st) name then some st else rest

-- `isKnownDeliveryState`, with the state that the text names.
unfoldable pub known_state : String → Option DeliveryState
unfolding find_state
known_state name = find_state name all_states

-- `isSuppressState`
unfoldable pub is_suppress_state : DeliveryState → Bool
is_suppress_state DeliveryState.transport_accepted = true
is_suppress_state DeliveryState.session_visible = true
is_suppress_state DeliveryState.explicit_ack = true
is_suppress_state DeliveryState.behavioral_ack = true
is_suppress_state DeliveryState.acked = true
is_suppress_state DeliveryState.rejected = true
is_suppress_state DeliveryState.timed_out = true
is_suppress_state DeliveryState.expired = true
is_suppress_state DeliveryState.suppressed = true
is_suppress_state DeliveryState.ambiguous = true
is_suppress_state _ = false

abbrev pub schema_v1 : String
schema_v1 = "reinframe.advice_delivery.v1"

-- The fields of `DeliveryTransition` that are read again.
pub record Transition : Type 0 where
  pub schema : String
  pub intervention_id : String
  pub session_id : String
  pub from_state : String
  pub to_state : String
  pub ack_layer : AckLayer
  pub ack_status : AckStatus
  pub host_family : String
  pub source_kind : String
  pub source_event_id : String
  pub fingerprint : String

pub data LedgerErr : Type 0 where
  corrupt marker_invalid recovery_incomplete io_failed id_required : LedgerErr

abbrev pub key_of : Transition → DedupeKey
key_of tr = dedupe_key tr.intervention_id tr.session_id tr.host_family tr.fingerprint

abbrev pub suppresses : String → Bool
suppresses name = elim (known_state name) [ none ↦ false | some st ↦ is_suppress_state st ]

abbrev pub is_known : String → Bool
is_known name = elim (known_state name) [ none ↦ false | some st ↦ true ]

-- `validateTransitionSemantic`; `true` where Go returns nil.
unfoldable pub validate_transition : Transition → Bool
validate_transition tr =
    str_eq tr.schema schema_v1
    && not (is_empty tr.to_state)
    && is_known tr.to_state
    && (is_empty tr.from_state || is_known tr.from_state)
    && not (is_empty tr.intervention_id)
    && not (suppresses tr.to_state && is_empty tr.session_id)

pub data Line : Type 0 where
  decoded : Transition → Line
  malformed : Line

-- The log file and the sidecar directory, as a restart finds them.
pub record Disk : Type 0 where
  pub lines : List Line
  pub torn : Bool
  pub markers : List Marker

pub record Ledger : Type 0 where
  pub disk : Disk
  pub seen : List DedupeKey

pub data Opened : Type 0 where
  opened : Ledger → Opened
  refused : LedgerErr → Opened

pub data Keys : Type 0 where
  keys : List DedupeKey → Keys
  bad : LedgerErr → Keys

-- The loop of `ingestJSONL`.
unfoldable pub ingest_lines : List Line → List DedupeKey → Keys
unfolding validate_transition known_state is_suppress_state
ingest_lines [] seen = keys seen
ingest_lines (malformed ∷ ls) seen = bad corrupt
ingest_lines (decoded tr ∷ ls) seen =
    let rest = ingest_lines ls (if suppresses tr.to_state then key_of tr ∷ seen else seen) in
    if validate_transition tr then rest else bad corrupt

-- The loop of `loadAmbiguousMarkersUnlocked`.
unfoldable pub load_markers : List Marker → List DedupeKey → Keys
unfolding load_marker
load_markers [] seen = keys seen
load_markers (m ∷ ms) seen = elim (load_marker m) [
  | none ↦ bad (if m.temp then recovery_incomplete else marker_invalid)
  | some k ↦ load_markers ms (k ∷ seen)
]

-- `OpenDurableAdviceLedger` on a path that is no symbolic link, where the files can be read, renamed and
-- written; Go refuses the ledger where they cannot.
unfoldable pub open_ledger : Disk → Opened
unfolding ingest_lines load_markers recover_markers
open_ledger disk = if disk.torn then refused corrupt else (elim (ingest_lines disk.lines []) [
  | bad e ↦ refused e
  | keys seen ↦ (elim (load_markers disk.markers seen) [
    | bad e ↦ refused e
    | keys all ↦ opened (record {
      disk = record disk { markers = recover_markers disk.markers disk.markers };
      seen = all;
    })
  ])
])

-- What an append of one line meets: all of it is written, none of it, or a part.
pub data AppendIo : Type 0 where
  written unwritten part_written : AppendIo

-- A whole line behind a torn end completes a line that does not decode.
unfoldable pub write_line : AppendIo → Transition → Disk → Disk
write_line unwritten tr disk = disk
write_line part_written tr disk = record disk { torn = true }
write_line written tr disk = record disk {
  lines = disk.lines ++ (if disk.torn then malformed else decoded tr) ∷ [];
  torn = false;
}

is_written : AppendIo → Bool
is_written written = true
is_written _ = false

-- The default schema filled in.
abbrev pub filled : Transition → Transition
filled tr = record tr { schema = if is_empty tr.schema then schema_v1 else tr.schema }

-- `Append`
unfoldable pub append : Ledger → AppendIo → Transition → Ledger × Option LedgerErr
unfolding write_line is_written
append l io given =
    let tr = filled given in
    let disk = write_line io tr l.disk in
    if validate_transition tr
    then (if is_written io
        then (
          record {
            disk = disk;
            seen = if suppresses tr.to_state then key_of tr ∷ l.seen else l.seen;
          },
          none,
        )
        else (record l { disk = disk }, some io_failed))
    else (l, some corrupt)

-- How a mark ends: the marker is in place; nothing has changed; a part of the temporary file is left;
-- all of it is, since neither the rename nor the removal succeeds; or the rename fails and it is removed.
pub data MarkIo : Type 0 where
  installed unmarked part_marked temp_left temp_removed : MarkIo

unfoldable pub write_marker : MarkIo → DedupeKey → List Marker → List Marker
unfolding put_marker remove_marker
write_marker installed k ms =
    put_marker (record { name = k; temp = false; whole = true }) (remove_marker k true ms)
write_marker unmarked k ms = ms
write_marker part_marked k ms = put_marker (record { name = k; temp = true; whole = false }) ms
write_marker temp_left k ms = put_marker (record { name = k; temp = true; whole = true }) ms
write_marker temp_removed k ms = remove_marker k true ms

is_installed : MarkIo → Bool
is_installed installed = true
is_installed _ = false

-- `MarkAmbiguousSuppress`
unfoldable pub mark_ambiguous_suppress :
    Ledger → MarkIo → String → String → String → String → Ledger × Option LedgerErr
unfolding write_marker is_installed
mark_ambiguous_suppress l io id session host fp =
    let key = dedupe_key id session host fp in
    let disk = record (l.disk) { markers = write_marker io key l.disk.markers } in
    if is_empty id
    then (l, some id_required)
    else if is_installed io
    then (record { disk = disk; seen = key ∷ l.seen }, none)
    else (record l { disk = disk }, some io_failed)

-- `AlreadyDeliveredKey`
unfoldable pub already_delivered_key : Ledger → String → String → String → String → Bool
unfolding has_key
already_delivered_key l id session host fp =
    not (is_empty id) && has_key (dedupe_key id session host fp) l.seen

-- `AlreadyDelivered`
unfoldable pub already_delivered : Ledger → String → Bool
unfolding already_delivered_key
already_delivered l id = already_delivered_key l id "" "" ""

-- `RecordResultWithSource`
unfoldable pub record_result :
    Ledger
    → AppendIo
    → DeliveryState
    → String
    → InterventionResult
    → DeliveryState
    → String
    → String
    → String
    → Ledger × Option LedgerErr
unfolding append state_name
record_result l io from session res to src_kind src_event fp = append l io (record {
  schema = "";
  intervention_id = res.intervention_id;
  session_id = session;
  from_state = state_name from;
  to_state = state_name to;
  ack_layer = res.ack_layer;
  ack_status = res.ack_status;
  host_family = res.host_family;
  source_kind = src_kind;
  source_event_id = src_event;
  fingerprint = fp;
})
