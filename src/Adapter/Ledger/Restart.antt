-- ===== src/Adapter/Ledger/Restart.antt =====
-- pkg/adapter/durable_advice_ledger.go across restarts: memory against the files.
use reinframe.Prelude.{
  String, Bool, true, false, ◌&&◌, List, [], ◌∷◌, ◌++◌, if◌then◌else◌, ◌≡◌, refl, ◌⊎◌, inl, inr,
  arith, Bool-cases, All, ◌∙◌, is_empty,
}
use reinframe.Adapter.Markers.{DedupeKey, dedupe_key, key_eq}
use reinframe.Adapter.Ledger.{
  Transition, key_of, suppresses, validate_transition, decoded, malformed, Disk, Ledger, opened,
  open_ledger, AppendIo, written, unwritten, part_written, write_line, append as append_call,
  MarkIo, installed, unmarked, part_marked, temp_left, temp_removed, write_marker,
  mark_ambiguous_suppress, filled,
}
use reinframe.Adapter.Ledger.Reading.{
  lines_have, lines_valid, line_valid, line_has, lines_have-append, lines_valid-append, has_key-if,
  or_middle, or_shuffle,
}
use reinframe.Adapter.Ledger.Marking.{
  markers_have, markers_valid, puts, IsSound, markers_have-write, markers_valid-write,
}
use reinframe.Adapter.Ledger.Reopening.{
  IsKept, IsWhole, IsBroken, Restarts, open_of_whole, open_of_unloaded, open_of_broken,
}

-- The calls that write, each with what the file system answers.
pub data Call : Type 0 where
  append : (io : AppendIo) (tr : Transition) → Call
  mark : (io : MarkIo) (intervention session host action : String) → Call

unfoldable pub step : Ledger → Call → Ledger
step l (Call.append io tr) = (append_call l io tr).0
step l (mark io i s h f) = (mark_ambiguous_suppress l io i s h f).0

append-invalid :
    (l : Ledger) (io : AppendIo) (tr : Transition)
    → validate_transition (filled tr) ≡ false
    → (append_call l io tr).0 ≡ l
unfolding append_call
append-invalid l io tr e = simp e

append-unwritten : (l : Ledger) (tr : Transition) → (append_call l unwritten tr).0 ≡ l
unfolding append_call
append-unwritten l tr = elim (Bool-cases (validate_transition (filled tr))) [
  | inl e ↦ simp e
  | inr e ↦ simp e
]

append-part :
    (l : Ledger) (tr : Transition)
    → validate_transition (filled tr) ≡ true
    → (append_call l part_written tr).0.disk.torn ≡ true
unfolding append_call
append-part l tr e = simp e

pub append-written :
    (l : Ledger) (tr : Transition)
    → validate_transition (filled tr) ≡ true
    → (append_call l written tr).0 ≡ record {
      disk = write_line written (filled tr) l.disk;
      seen = if suppresses tr.to_state then key_of tr ∷ l.seen else l.seen;
    }
unfolding append_call
append-written l tr e = simp e

append-lines :
    (d : Disk) (tr : Transition)
    → (write_line written tr d).lines ≡ d.lines ++ (if d.torn then malformed else decoded tr) ∷ []
unfolding write_line
append-lines d tr = refl

append-IsKept :
    (l : Ledger) (tr : Transition)
    → validate_transition (filled tr) ≡ true
    → IsKept l
    → IsKept (record {
      disk = record (l.disk) { lines = l.disk.lines ++ decoded (filled tr) ∷ []; torn = false };
      seen = if suppresses tr.to_state then key_of tr ∷ l.seen else l.seen;
    })
append-IsKept l tr e w = record {
  closed = refl;
  lines = lines_valid-append l.disk.lines (decoded (filled tr)) ∙ rw (w.lines, e);
  same = λ k.
      has_key-if k (key_of tr) (suppresses tr.to_state) l.seen
      ∙ rw (lines_have-append k l.disk.lines (decoded (filled tr)), w.same k)
          (or_shuffle (lines_have k l.disk.lines) (markers_have k l.disk.markers)
            (line_has k (decoded (filled tr))));
}

-- What a mark leaves.
abbrev marked : Ledger → MarkIo → DedupeKey → Ledger
marked l io j = record {
  disk = record (l.disk) { markers = write_marker io j l.disk.markers };
  seen = if puts io then j ∷ l.seen else l.seen;
}

mark-IsKept : (l : Ledger) (io : MarkIo) (j : DedupeKey) → IsKept l → IsKept (marked l io j)
mark-IsKept l io j w = record {
  closed = w.closed;
  lines = w.lines;
  same = λ k.
      has_key-if k j (puts io) l.seen
      ∙ rw (markers_have-write k j io l.disk.markers, w.same k)
          (or_middle (lines_have k l.disk.lines) (markers_have k l.disk.markers)
            (puts io && key_eq j k));
}

mark_cases :
    (l : Ledger) (io : MarkIo) (i s h f : String)
    → ((mark_ambiguous_suppress l io i s h f).0 ≡ l)
      ⊎ ((is_empty i ≡ false)
          × ((mark_ambiguous_suppress l io i s h f).0 ≡ marked l io (dedupe_key i s h f)))
unfolding mark_ambiguous_suppress
mark_cases l installed i s h f = ground arith
mark_cases l unmarked i s h f = ground arith
mark_cases l part_marked i s h f = ground arith
mark_cases l temp_left i s h f = ground arith
mark_cases l temp_removed i s h f = ground arith

-- No part of a line is left, and no part of a marker or one that is too large.
abbrev pub Untorn : Call → Type 0
Untorn (append part_written tr) = ⊥
Untorn (append _ tr) = Unit {0}
Untorn (mark io i s h f) = IsSound io (dedupe_key i s h f)

-- A ledger is kept or broken, and stays so.
abbrev pub IsEither : Ledger → Type 0
IsEither l = IsKept l ⊎ IsBroken l

pub write_line-closed :
    (d : Disk) (tr : Transition)
    → d.torn ≡ false
    → write_line written tr d ≡ record d { lines = d.lines ++ decoded tr ∷ []; torn = false }
unfolding write_line
write_line-closed d tr e = simp e

and_false_right : (a : Bool) → (a && false) ≡ false
and_false_right true = refl
and_false_right false = refl

broken_lines :
    (l : Ledger) (tr : Transition)
    → IsBroken l
    → lines_valid (write_line written tr l.disk).lines ≡ false
broken_lines l tr b = rw (append-lines l.disk tr, lines_valid-append l.disk.lines) (gone b)
  where
    gone :
        IsBroken l
        → (lines_valid l.disk.lines && line_valid (if l.disk.torn then malformed else decoded tr))
          ≡ false
    gone (inl torn) = rw torn (and_false_right (lines_valid l.disk.lines))
    gone (inr lost) = rw lost

append-written-IsKept :
    (l : Ledger) (tr : Transition) → IsKept l → IsKept (append_call l written tr).0
append-written-IsKept l tr w = elim (Bool-cases (validate_transition (filled tr))) [
  | inr e ↦ rw (append-invalid l written tr e) w
  | inl e ↦
      rw (append-written l tr e, write_line-closed l.disk (filled tr) w.closed)
        (append-IsKept l tr e w)
]

pub append-written-IsBroken :
    (l : Ledger) (tr : Transition) → IsBroken l → IsBroken (append_call l written tr).0
append-written-IsBroken l tr b = elim (Bool-cases (validate_transition (filled tr))) [
  | inr e ↦ rw (append-invalid l written tr e) b
  | inl e ↦ rw (append-written l tr e) (inr (broken_lines l (filled tr) b))
]

pub step-IsEither : (l : Ledger) (c : Call) → IsEither l → IsEither (step l c)
unfolding step
step-IsEither l (append unwritten tr) h = rw (append-unwritten l tr) h
step-IsEither l (append part_written tr) h = elim (Bool-cases (validate_transition (filled tr))) [
  | inr e ↦ rw (append-invalid l part_written tr e) h
  | inl e ↦ inr (inl (append-part l tr e))
]
step-IsEither l (append written tr) (inl w) = inl (append-written-IsKept l tr w)
step-IsEither l (append written tr) (inr b) = inr (append-written-IsBroken l tr b)
step-IsEither l (mark io i s h f) (inl w) = elim (mark_cases l io i s h f) [
  | inl e ↦ rw e (inl w)
  | inr (named, e) ↦ rw e (inl (mark-IsKept l io (dedupe_key i s h f) w))
]
step-IsEither l (mark io i s h f) (inr b) = elim (mark_cases l io i s h f) [
  | inl e ↦ rw e (inr b)
  | inr (named, e) ↦ rw e (inr b)
]

append-markers :
    (l : Ledger) (io : AppendIo) (tr : Transition)
    → (append_call l io tr).0.disk.markers ≡ l.disk.markers
unfolding append_call write_line
append-markers l written tr = ground arith
append-markers l unwritten tr = ground arith
append-markers l part_written tr = ground arith

step-IsWhole : (l : Ledger) (c : Call) → Untorn c → IsWhole l → IsWhole (step l c)
unfolding step
step-IsWhole l (append unwritten tr) ok w = rw (append-unwritten l tr) w
step-IsWhole l (append part_written tr) ok w = absurd ok
step-IsWhole l (append written tr) ok (w, v) =
    (append-written-IsKept l tr w, rw (append-markers l written tr) v)
step-IsWhole l (mark io i s h f) ok (w, v) = elim (mark_cases l io i s h f) [
  | inl e ↦ rw e (w, v)
  | inr (named, e) ↦
      let j = dedupe_key i s h f in
      rw e (mark-IsKept l io j w, markers_valid-write j io l.disk.markers named ok v)
]

unfoldable pub run : Ledger → List Call → Ledger
run l [] = l
run l (c ∷ cs) = run (step l c) cs

run-IsEither : (l : Ledger) (cs : List Call) → IsEither l → IsEither (run l cs)
unfolding run
run-IsEither l [] h = h
run-IsEither l (c ∷ cs) h = run-IsEither (step l c) cs (step-IsEither l c h)

run-IsWhole : (l : Ledger) (cs : List Call) → All Untorn cs → IsWhole l → IsWhole (run l cs)
unfolding run
run-IsWhole l [] ok w = w
run-IsWhole l (c ∷ cs) ok w = run-IsWhole (step l c) cs ok.1 (step-IsWhole l c ok.0 w)

pub either-Restarts : (l : Ledger) → IsEither l → Restarts l (open_ledger l.disk)
either-Restarts l (inl w) = elim (Bool-cases (markers_valid l.disk.markers)) [
  | inl v ↦ let (l', e, r) = open_of_whole l (w, v) in rw e r
  | inr v ↦ let (err, e) = open_of_unloaded l w v in rw e (inr v)
]
either-Restarts l (inr b) = let (err, e) = open_of_broken l b in rw e (inl b)

-- Take any appends and suppress marks, each ending in any of the ways a write can end, on a ledger whose
-- memory holds the keys of its log and of the markers in place, all of them readable. Opening the files
-- again, where the opening's own reads, writes and renames succeed, either yields a ledger, or is
-- refused because a line is torn or does not decode or a marker does not load, being incomplete or too
-- large. A ledger that is yielded suppresses each key that the running one does and whose line is in the
-- log or whose marker is not migrated, as one over 4096 bytes with exactly three pipes is; and a key
-- that the running one does not suppress comes from a temporary marker or a migrated one. If no line or
-- marker was written in part and the marked keys fit into a marker, the opening succeeds.
pub run-restart :
    (l : Ledger) (cs : List Call)
    → IsWhole l
    → Restarts (run l cs) (open_ledger (run l cs).disk)
      × (All Untorn cs → (l' : Ledger) × (open_ledger (run l cs).disk ≡ opened l'))
run-restart l cs w = (
  either-Restarts (run l cs) (run-IsEither l cs (inl w.0)),
  (λ ok. let (l', e, r) = open_of_whole (run l cs) (run-IsWhole l cs ok w) in (l', e)),
)
