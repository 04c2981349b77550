-- ===== src/Adapter/Advisory/Remembering.antt =====
-- What DeliverPending of pkg/adapter/advisory_delivery.go leaves in the ledger when the host answered.
use reinframe.Prelude.{
  String, Bool, true, false, Option, none, some, is_empty, ◌≡◌, refl, arith, ◌∙◌, sym, inl, inr,
  ◌⊎◌, ◌≢◌, Option-cases,
}
use reinframe.Adapter.Delivery.{DeliveryState, InterventionResult, ErrorClass}
use reinframe.Adapter.PendingQueue.{PendingItem}
use reinframe.Adapter.Ledger.{
  Ledger, AppendIo, written, unwritten, part_written, is_suppress_state, already_delivered_key,
  record_result, mark_ambiguous_suppress, io_failed, LedgerErr, installed,
}
use reinframe.Adapter.Markers.{DedupeKey, dedupe_key}
use reinframe.Adapter.Ledger.Marking.{is_migrated}
use reinframe.Adapter.Ledger.Reopening.{IsBroken, IsLasting}
use reinframe.Adapter.Ledger.Restart.{IsEither}
use reinframe.Adapter.Ledger.Recording.{
  record_result-written, record_result-IsEither, mark-already_delivered, mark-IsEither,
  record_result-failed, record_result-lasts,
}
use reinframe.Adapter.Boundary.{
  classify_delivery_boundary, should_ambiguous_suppress, map_result_to_state,
}
use reinframe.Adapter.Advisory.{
  AdvisoryDelivery, World, with_host, mark_ambiguous, write_failed, record_answer, noted,
}

-- The AMBIGUOUS line is written, or the marker is put in place and is not one that is migrated.
abbrev pub IsMarked : World → DedupeKey → Type 0
IsMarked w k = (w.second_write ≡ written) ⊎ ((w.marker_write ≡ installed) × (is_migrated k ≡ false))

-- Where the line is not written, the key is marked.
abbrev pub Lasts : World → DedupeKey → Type 0
Lasts w k = w.first_write ≢ written → IsMarked w k

-- The ledger can be opened again or refuses to, and holds the key.
abbrev pub Holds : Ledger → String → String → String → String → Type 0
Holds l id session host fp =
    IsEither l
    × ((already_delivered_key l id session host fp ≡ true)
        × (IsBroken l ⊎ IsLasting l (dedupe_key id session host fp)))

io_cases : (io : AppendIo) → (io ≡ written) ⊎ ((io ≡ unwritten) ⊎ (io ≡ part_written))
io_cases written = inl refl
io_cases unwritten = inr (inl refl)
io_cases part_written = inr (inr refl)

unwritten_io : {io : AppendIo} → (io ≡ unwritten) ⊎ (io ≡ part_written) → io ≢ written
unwritten_io (inl e) n = ground arith
unwritten_io (inr e) n = ground arith

some≢none {ℓ} : {A : Type ℓ} {a : A} → some a ≢ none
some≢none e = ground arith

module _ (w : World) (session : String) (res : InterventionResult) (it : PendingItem)
    (placed : is_empty session ≡ false) (named : is_empty res.intervention_id ≡ false)
    (same : it.intervention.intervention_id ≡ res.intervention_id) where
  abbrev second : Ledger → Ledger × Option LedgerErr
  second l =
      record_result l w.second_write DeliveryState.delivering session res DeliveryState.ambiguous ""
        "" it.intervention.fingerprint

  mark_ambiguous_cases :
      (l : Ledger)
      → (((second l).1 ≡ none)
          × ((mark_ambiguous l w session res it.intervention).0 ≡ (second l).0))
        ⊎ (((second l).1 ≢ none)
            × ((mark_ambiguous l w session res it.intervention).0
                ≡ (mark_ambiguous_suppress
                    (second l).0
                    w.marker_write
                    it.intervention.intervention_id
                    session
                    res.host_family
                    it.intervention.fingerprint).0))
  unfolding mark_ambiguous
  mark_ambiguous_cases l = elim (Option-cases (second l).1) [
    | inl e ↦ inl (e, rw (mark_ambiguous, e) refl)
    | inr (x, e) ↦ inr ((λ n. some≢none (sym e ∙ n)), rw (mark_ambiguous, e) refl)
  ]

  pub mark_ambiguous-IsEither :
      (l : Ledger) → IsEither l → IsEither (mark_ambiguous l w session res it.intervention).0
  mark_ambiguous-IsEither l e =
      let e' =
        record_result-IsEither l w.second_write DeliveryState.delivering DeliveryState.ambiguous
          session res "" "" it.intervention.fingerprint e in
      elim (mark_ambiguous_cases l) [
        | inl (n, m) ↦ rw m e'
        | inr (n, m) ↦ rw m (
            mark-IsEither (second l).0 w.marker_write it.intervention.intervention_id session
              res.host_family it.intervention.fingerprint e')
      ]

  abbrev key : DedupeKey
  key = dedupe_key res.intervention_id session res.host_family it.intervention.fingerprint

  abbrev Has : Ledger → Type 0
  Has l =
      (already_delivered_key l res.intervention_id session res.host_family
          it.intervention.fingerprint
        ≡ true)
      × (IsBroken l ⊎ IsLasting l key)

  second-Has :
      (l : Ledger)
      → IsEither l
      → w.second_write ≡ written
      → ((second l).1 ≡ none) × Has (second l).0
  unfolding is_suppress_state
  second-Has l either e =
      let (n, h) =
        record_result-written DeliveryState.delivering DeliveryState.ambiguous session res "" ""
          it.intervention.fingerprint named placed l refl in
      let lasts =
        record_result-lasts DeliveryState.delivering DeliveryState.ambiguous session res "" ""
          it.intervention.fingerprint named placed l refl either in
      rw e (n, (h, elim lasts [ inl b ↦ inl b | inr line ↦ inr (inl line) ]))

  mark-Has :
      (l : Ledger)
      → w.marker_write ≡ installed
      → is_migrated key ≡ false
      → Has
          (mark_ambiguous_suppress l w.marker_write it.intervention.intervention_id session
            res.host_family it.intervention.fingerprint).0
  mark-Has l e kept =
      rw (e, same)
        (
          mark-already_delivered l res.intervention_id session res.host_family
              it.intervention.fingerprint named,
          inr (inr kept),
        )

  -- The second write or the marker leaves the key.
  pub mark_ambiguous-Has :
      (l : Ledger)
      → IsEither l
      → IsMarked w key
      → Has (mark_ambiguous l w session res it.intervention).0
  mark_ambiguous-Has l either (inl e) = elim (mark_ambiguous_cases l) [
    | inl (n, m) ↦ rw m (second-Has l either e).1
    | inr (n, m) ↦ absurd (n (second-Has l either e).0)
  ]
  mark_ambiguous-Has l either (inr (e, kept)) = elim (mark_ambiguous_cases l) [
    | inr (n, m) ↦ rw m (mark-Has (second l).0 e kept)
    | inl (n, m) ↦ elim (io_cases w.second_write) [
      | inl e' ↦ rw m (second-Has l either e').1
      | inr e' ↦ absurd (
          some≢none (
            sym (
              record_result-failed DeliveryState.delivering DeliveryState.ambiguous session res ""
                "" it.intervention.fingerprint named placed l w.second_write e')
            ∙ n))
    ]
  ]

  pub mark_ambiguous-Holds :
      (l : Ledger)
      → IsEither l
      → IsMarked w key
      → Holds
          (mark_ambiguous l w session res it.intervention).0
          res.intervention_id
          session
          res.host_family
          it.intervention.fingerprint
  mark_ambiguous-Holds l e ok = (mark_ambiguous-IsEither l e, mark_ambiguous-Has l e ok)

-- What the ledger of a delivery holds, if there is one.
abbrev pub Remembers : AdvisoryDelivery → String → String → String → String → Type 0
Remembers d id session host fp = (l : Ledger) × ((d.ledger ≡ some l) × Holds l id session host fp)

module _ (d : AdvisoryDelivery) (l : Ledger) (w : World) (session : String) (it : PendingItem)
    (answer : InterventionResult) (failed : Bool) (has : d.ledger ≡ some l)
    (placed : is_empty session ≡ false) (named : is_empty answer.intervention_id ≡ false)
    (same : it.intervention.intervention_id ≡ answer.intervention_id)
    (reached : should_ambiguous_suppress (classify_delivery_boundary (with_host d answer) failed)
      ≡ true)
    (closes : is_suppress_state (map_result_to_state (with_host d answer) failed) ≡ true) where
  abbrev first : Ledger × Option LedgerErr
  first =
      record_result l w.first_write DeliveryState.delivering session (with_host d answer)
        (map_result_to_state (with_host d answer) failed) "" "" it.intervention.fingerprint

  abbrev unclear : InterventionResult
  unclear = record (noted (with_host d answer)) { error_class = ErrorClass.transport }

  abbrev answer_key : DedupeKey
  answer_key =
      dedupe_key answer.intervention_id session (with_host d answer).host_family
        it.intervention.fingerprint

  first-written :
      IsEither l
      → w.first_write ≡ written
      → (first.1 ≡ none)
        × ((already_delivered_key first.0 answer.intervention_id session
                (with_host d answer).host_family
                it.intervention.fingerprint
              ≡ true)
            × (IsBroken first.0 ⊎ IsLasting first.0 answer_key))
  first-written e i =
      let (n, h) =
        record_result-written DeliveryState.delivering
          (map_result_to_state (with_host d answer) failed) session (with_host d answer) "" ""
          it.intervention.fingerprint named placed l closes in
      let lasts =
        record_result-lasts DeliveryState.delivering
          (map_result_to_state (with_host d answer) failed) session (with_host d answer) "" ""
          it.intervention.fingerprint named placed l closes e in
      rw i (n, (h, elim lasts [ inl b ↦ inl b | inr line ↦ inr (inl line) ]))

  first-failed :
      (w.first_write ≡ unwritten) ⊎ (w.first_write ≡ part_written) → first.1 ≡ some io_failed
  first-failed i =
      record_result-failed DeliveryState.delivering
        (map_result_to_state (with_host d answer) failed) session (with_host d answer) "" ""
        it.intervention.fingerprint named placed l w.first_write i

  first-IsEither : IsEither l → IsEither first.0
  first-IsEither e =
      record_result-IsEither l w.first_write DeliveryState.delivering
        (map_result_to_state (with_host d answer) failed) session (with_host d answer) "" ""
        it.intervention.fingerprint e

  record_answer-recorded :
      first.1 ≡ none → (record_answer d w session it answer failed).delivery.ledger ≡ some first.0
  unfolding record_answer
  record_answer-recorded e = rw (record_answer, has, e) refl

  record_answer-lost :
      first.1 ≡ some io_failed
      → (record_answer d w session it answer failed).delivery.ledger
        ≡ some (mark_ambiguous first.0 w session unclear it.intervention).0
  unfolding record_answer write_failed
  record_answer-lost e = rw (record_answer, has, e, write_failed, reached) refl

  pub record_answer-Remembers :
      IsEither l
      → Lasts w answer_key
      → Remembers
          (record_answer d w session it answer failed).delivery
          answer.intervention_id
          session
          (with_host d answer).host_family
          it.intervention.fingerprint
  unfolding noted
  record_answer-Remembers e ok = elim (io_cases w.first_write) [
    | inl i ↦
        let (n, h) = first-written e i in
        (first.0, (record_answer-recorded n, (first-IsEither e, h)))
    | inr i ↦ (
      (mark_ambiguous first.0 w session unclear it.intervention).0,
      (
        record_answer-lost (first-failed i),
        mark_ambiguous-Holds w session unclear it placed named same first.0 (first-IsEither e)
            (ok (unwritten_io i)),
      ),
    )
  ]
