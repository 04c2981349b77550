-- ===== src/Adapter/Ledger/Recording.antt =====
-- RecordResultWithSource and MarkAmbiguousSuppress of pkg/adapter/durable_advice_ledger.go: the key
-- that they leave is the one that AlreadyDeliveredKey asks for.
use reinframe.Prelude.{
  String, Bool, true, false, not, ◌&&◌, ◌||◌, none, some, is_empty, ◌≡◌, refl, ◌⊎◌, inl, inr, ap,
  ◌∙◌, eq_refl,
}
use reinframe.Adapter.Delivery.{DeliveryState, InterventionResult}
use reinframe.Adapter.Markers.{key_eq, DedupeKey, dedupe_key, has_key}
use reinframe.Adapter.Ledger.{
  decoded, Disk, Transition, io_failed, Ledger, AppendIo, MarkIo, installed, written, unwritten,
  part_written, filled, validate_transition, state_name, is_suppress_state, suppresses,
  already_delivered_key, record_result, mark_ambiguous_suppress, is_known,
}
use reinframe.Adapter.Ledger.States.{known_state-state_name, is_empty-state_name}
use reinframe.Adapter.Ledger.Reading.{lines_have, line_has, lines_have-append}
use reinframe.Adapter.Ledger.Reopening.{IsBroken}
use reinframe.Adapter.Ledger.Restart.{
  IsEither, Call, mark, step, step-IsEither, append-written, append-written-IsBroken,
  write_line-closed,
}

key_eq_refl : (k : DedupeKey) → key_eq k k ≡ true
unfolding key_eq
key_eq_refl k = simp eq_refl

suppresses-state_name : (st : DeliveryState) → suppresses (state_name st) ≡ is_suppress_state st
suppresses-state_name st = rw (known_state-state_name st, suppresses)

or_true : (b : Bool) → (b || true) ≡ true
or_true true = refl
or_true false = refl

not-and_false : (b : Bool) → not (b && false) ≡ true
not-and_false true = refl
not-and_false false = refl

-- The transition that a result leaves.
abbrev transition_of :
    DeliveryState
    → String
    → InterventionResult
    → DeliveryState
    → String
    → String
    → String
    → Transition
transition_of from session res to kind event fp = record {
  schema = "";
  intervention_id = res.intervention_id;
  session_id = session;
  from_state = state_name from;
  to_state = state_name to;
  ack_layer = res.ack_layer;
  ack_status = res.ack_status;
  host_family = res.host_family;
  source_kind = kind;
  source_event_id = event;
  fingerprint = fp;
}

module _ (from to : DeliveryState) (session : String) (res : InterventionResult)
    (kind event fp : String) (named : is_empty res.intervention_id ≡ false)
    (placed : is_empty session ≡ false) where
  transition_valid :
      validate_transition (filled (transition_of from session res to kind event fp)) ≡ true
  unfolding validate_transition
  transition_valid =
      rw
        (
          filled,
          is_known,
          suppresses,
          transition_of,
          is_empty-state_name to,
          known_state-state_name to,
          known_state-state_name from,
          is_empty-state_name from,
          named,
          placed,
        )
        (not-and_false (is_suppress_state to))

  -- A suppress state that is written in full puts its key in memory.
  pub record_result-written :
      (l : Ledger)
      → is_suppress_state to ≡ true
      → ((record_result l written from session res to kind event fp).1 ≡ none)
        × (already_delivered_key
              (record_result l written from session res to kind event fp).0
              res.intervention_id
              session
              res.host_family
              fp
            ≡ true)
  unfolding record_result already_delivered_key
  record_result-written l s = (
    rw transition_valid refl,
    rw
        (
          append-written l (transition_of from session res to kind event fp) transition_valid,
          transition_of,
          suppresses,
          known_state-state_name to,
          s,
          named,
          key_eq_refl (dedupe_key res.intervention_id session res.host_family fp),
        )
        refl,
  )

  result_has :
      is_suppress_state to ≡ true
      → line_has
          (dedupe_key res.intervention_id session res.host_family fp)
          (decoded (filled (transition_of from session res to kind event fp)))
        ≡ true
  result_has s =
      rw
        (
          filled,
          transition_of,
          suppresses,
          known_state-state_name to,
          s,
          key_eq_refl (dedupe_key res.intervention_id session res.host_family fp),
        )
        refl

  -- The line is in the log, unless the log is broken.
  pub record_result-lasts :
      (l : Ledger)
      → is_suppress_state to ≡ true
      → IsEither l
      → IsBroken (record_result l written from session res to kind event fp).0
        ⊎ (lines_have
              (dedupe_key res.intervention_id session res.host_family fp)
              (record_result l written from session res to kind event fp).0.disk.lines
            ≡ true)
  unfolding record_result
  record_result-lasts l s (inr b) =
      inl (append-written-IsBroken l (transition_of from session res to kind event fp) b)
  record_result-lasts l s (inl w) =
      let tr = transition_of from session res to kind event fp in
      let k = dedupe_key res.intervention_id session res.host_family fp in
      inr (
        ap (λ (l' : Ledger). lines_have k l'.disk.lines) (append-written l tr transition_valid)
        ∙ ap (λ (d : Disk). lines_have k d.lines) (write_line-closed l.disk (filled tr) w.closed)
        ∙ lines_have-append k l.disk.lines (decoded (filled tr))
        ∙ ap (λ b. lines_have k l.disk.lines || b) (result_has s)
        ∙ or_true (lines_have k l.disk.lines))

  pub record_result-failed :
      (l : Ledger) (io : AppendIo)
      → (io ≡ unwritten) ⊎ (io ≡ part_written)
      → (record_result l io from session res to kind event fp).1 ≡ some io_failed
  unfolding record_result
  record_result-failed l io (inl e) = rw (e, transition_valid) refl
  record_result-failed l io (inr e) = rw (e, transition_valid) refl

pub record_result-IsEither :
    (l : Ledger) (io : AppendIo) (from to : DeliveryState) (session : String)
    (res : InterventionResult) (kind event fp : String)
    → IsEither l
    → IsEither (record_result l io from session res to kind event fp).0
unfolding record_result step
record_result-IsEither l io from to session res kind event fp h =
    step-IsEither l (Call.append io (transition_of from session res to kind event fp)) h

pub mark-already_delivered :
    (l : Ledger) (id session host fp : String)
    → is_empty id ≡ false
    → already_delivered_key
        (mark_ambiguous_suppress l installed id session host fp).0
        id
        session
        host
        fp
      ≡ true
unfolding already_delivered_key mark_ambiguous_suppress has_key
mark-already_delivered l id session host fp named = simp (named, eq_refl)

pub mark-IsEither :
    (l : Ledger) (io : MarkIo) (id session host fp : String)
    → IsEither l
    → IsEither (mark_ambiguous_suppress l io id session host fp).0
unfolding step
mark-IsEither l io id session host fp h = step-IsEither l (mark io id session host fp) h
