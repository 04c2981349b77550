-- ===== src/Adapter/Ledger/Tests.antt =====
-- The ledger of pkg/adapter/durable_advice_ledger.go at concrete calls.
use reinframe.Prelude.{
  ℕ, zero, suc, String, Bool, true, false, some, List, [], ◌∷◌, ◌≡◌, refl, All, ◌⧺◌,
}
use reinframe.Adapter.Delivery.{AckStatus, AckLayer}
use reinframe.Adapter.Markers.{
  DedupeKey, dedupe_key, key_eq, has_key, json_char, json_chars, json_array, utf8_length,
  marker_size, is_current, split_pipes, legacy_parts, legacy_key, load_marker, remove_marker,
  put_marker, recover_markers,
}
use reinframe.Adapter.Ledger.{
  Ledger, Transition, Opened, opened, refused, open_ledger, ingest_lines, load_markers, written,
  unwritten, write_line, append as append_call, installed, temp_left, write_marker,
  mark_ambiguous_suppress, is_suppress_state, validate_transition, known_state,
}
use reinframe.Adapter.Ledger.Reading.{lines_valid, lines_have}
use reinframe.Adapter.Ledger.Marking.{markers_valid, markers_have, is_migrated}
use reinframe.Adapter.Ledger.Reopening.{IsKept, IsWhole, Restarts}
use reinframe.Adapter.Ledger.Restart.{Untorn, Call, append, mark, step, run, run-restart}

abbrev pub new_ledger : Ledger
new_ledger = record { disk = record { lines = []; torn = false; markers = [] }; seen = [] }

pub new_ledger-IsKept : IsKept new_ledger
unfolding lines_valid lines_have has_key markers_have
new_ledger-IsKept = record { closed = refl; lines = refl; same = λ k. refl }

new_ledger-IsWhole : IsWhole new_ledger
unfolding markers_valid
new_ledger-IsWhole = (new_ledger-IsKept, refl)

abbrev rejection : Transition
rejection = record {
  schema = "";
  intervention_id = "iv-1";
  session_id = "s";
  from_state = "DELIVERING";
  to_state = "REJECTED";
  ack_layer = AckLayer.no_layer;
  ack_status = AckStatus.rejected;
  host_family = "grok_build";
  source_kind = "";
  source_event_id = "";
  fingerprint = "fp";
}

-- A line that is lost, a suppress marker, one whose rename fails, and a line that is written.
abbrev writes : List Call
writes =
    append unwritten rejection
    ∷ mark installed "iv-1" "s" "" "fp"
    ∷ mark temp_left "iv-2" "s" "" "fp"
    ∷ append written rejection
    ∷ []

-- What the ledger holds of two keys after the writes and an opening.
abbrev holds_after : Opened → DedupeKey → Bool
holds_after (opened l) k = has_key k l.seen
holds_after (refused e) k = false

forgets_stray : has_key (dedupe_key "iv-2" "s" "" "fp") (run new_ledger writes).seen ≡ false
unfolding run step append_call mark_ambiguous_suppress write_marker put_marker remove_marker
    write_line has_key key_eq validate_transition known_state is_suppress_state
forgets_stray = refl

finds_stray :
    holds_after (open_ledger (run new_ledger writes).disk) (dedupe_key "iv-2" "s" "" "fp") ≡ true
unfolding run step append_call mark_ambiguous_suppress write_marker put_marker remove_marker
    write_line open_ledger ingest_lines load_markers load_marker is_current marker_size json_array
    json_chars json_char utf8_length recover_markers has_key key_eq validate_transition known_state
    is_suppress_state
finds_stray = refl

encodes_key : json_array (dedupe_key "a\"b" "<" "" "|") ≡ "[\"a\\\"b\",\"\\u003c\",\"\",\"|\"]"
unfolding json_array json_chars json_char
encodes_key = refl

-- The body of a key with three pipes is taken for an old one.
splits_key :
    legacy_key (dedupe_key "iv" "s" "h" "a|b|c|d")
    ≡ some (dedupe_key "[\"iv\",\"s\",\"h\",\"a" "b" "c" "d\"]")
unfolding legacy_key legacy_parts split_pipes json_array json_chars json_char
splits_key = refl

abbrev repeated : ℕ → String
repeated zero = "|b|c|d"
repeated (suc n) = "a" ⧺ repeated n

-- One that is also too large is found under the other key only.
migrates_large : is_migrated (dedupe_key "iv" "s" "h" (repeated 4080)) ≡ true
unfolding is_current marker_size legacy_key legacy_parts split_pipes json_array json_chars json_char
    utf8_length
migrates_large = refl

pub installs_small : is_migrated (dedupe_key "iv-1" "s" "grok_build" "fp") ≡ false
unfolding is_current marker_size json_array json_chars json_char utf8_length
installs_small = refl

run-restart_example :
    Restarts (run new_ledger writes) (open_ledger (run new_ledger writes).disk)
    × (All Untorn writes → (l : Ledger) × (open_ledger (run new_ledger writes).disk ≡ opened l))
run-restart_example = run-restart new_ledger writes new_ledger-IsWhole
