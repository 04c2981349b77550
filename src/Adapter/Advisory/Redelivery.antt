-- ===== src/Adapter/Advisory/Redelivery.antt =====
-- DeliverPending of pkg/adapter/advisory_delivery.go over a restart of the ledger.
use reinframe.Prelude.{
  String, true, false, none, some, is_empty, ◌≡◌, arith, ◌∙◌, sym, subst, ◌⊎◌, ◌≢◌, inl, inr,
}
use reinframe.Adapter.PendingQueue.{PendingItem}
use reinframe.Adapter.Markers.{dedupe_key, has_key}
use reinframe.Adapter.Ledger.{
  Ledger, written, is_suppress_state, already_delivered_key, open_ledger, opened, installed,
}
use reinframe.Adapter.Ledger.Marking.{is_migrated}
use reinframe.Adapter.Ledger.Reopening.{Restarts, open_of_broken}
use reinframe.Adapter.Ledger.Restart.{IsEither, either-Restarts}
use reinframe.Adapter.Boundary.{
  classify_delivery_boundary, should_ambiguous_suppress, map_result_to_state,
}
use reinframe.Adapter.Advisory.{
  AdvisoryDelivery, World, Actuator, with_host, record_answer, is_duplicate, deliver_item, suppress,
  escalate,
}
use reinframe.Adapter.Advisory.Remembering.{Holds, record_answer-Remembers}

sent_answer :
    (d : AdvisoryDelivery) (actuator : Actuator) (w : World) (session : String) (it : PendingItem)
    → (deliver_item d actuator w session it).sent ≡ true
    → deliver_item d actuator w session it
      ≡ record_answer d w session it (actuator it.intervention).0 (actuator it.intervention).1
unfolding deliver_item suppress escalate
sent_answer d actuator w session it s = ground arith

duplicate_unsent :
    (d : AdvisoryDelivery) (actuator : Actuator) (w : World) (session : String) (it : PendingItem)
    → is_duplicate d session it ≡ true
    → (deliver_item d actuator w session it).sent ≡ false
unfolding deliver_item suppress
duplicate_unsent d actuator w session it dup = simp dup

restart_key :
    (l l' : Ledger) (id session host fp : String)
    → Holds l id session host fp
    → open_ledger l.disk ≡ opened l'
    → already_delivered_key l' id session host fp ≡ true
unfolding already_delivered_key
restart_key l l' id session host fp (e, (h, inl broken)) o =
    let (err, refuses) = open_of_broken l broken in absurd (cc (refuses, o))
restart_key l l' id session host fp (e, (h, inr lasts)) o =
    let same : Restarts l (opened l') = subst (Restarts l) o (either-Restarts l e) in
    let k = dedupe_key id session host fp in
    let held : has_key k l'.seen ≡ true = same.0 k (ground (arith, h)) lasts in
    ground (arith, h, held)

restart_duplicate :
    (d : AdvisoryDelivery) (l l' : Ledger) (session id host fp : String) (it : PendingItem)
    → Holds l id session host fp
    → open_ledger l.disk ≡ opened l'
    → d.ledger ≡ some l'
    → d.dedupe_host_family ≡ host
    → it.result ≡ none
    → it.intervention.intervention_id ≡ id
    → it.intervention.fingerprint ≡ fp
    → is_duplicate d session it ≡ true
unfolding is_duplicate
restart_duplicate d l l' session id host fp it holds o has hosts fresh ids fps =
    rw (has, fresh, ids, fps, hosts) (restart_key l l' id session host fp holds o)

-- Take a delivery that called the actuator, with a ledger whose memory holds the keys of its files or
-- whose log is broken, and an answer that names the intervention, may have reached the host, leads to a
-- suppress state, and comes from the host of the dedupe key or names no host. If the line of the answer
-- was written, or else the AMBIGUOUS line or the suppress marker, which is not migrated as one over
-- 4096 bytes with exactly three pipes is, then once the ledger's files are opened again, with the same
-- host of the dedupe key, no delivery of an item without a result that has the same intervention and
-- fingerprint to the session calls an actuator again.
pub no_redelivery :
    (d : AdvisoryDelivery) (l : Ledger) (actuator : Actuator) (w : World) (session : String)
    (it : PendingItem)
    → d.ledger ≡ some l
    → IsEither l
    → is_empty session ≡ false
    → is_empty it.intervention.intervention_id ≡ false
    → (actuator it.intervention).0.intervention_id ≡ it.intervention.intervention_id
    → (with_host d (actuator it.intervention).0).host_family ≡ d.dedupe_host_family
    → should_ambiguous_suppress (
        classify_delivery_boundary
          (with_host d (actuator it.intervention).0)
          (actuator it.intervention).1)
      ≡ true
    → is_suppress_state (
        map_result_to_state (with_host d (actuator it.intervention).0) (actuator it.intervention).1)
      ≡ true
    → (w.first_write ≢ written
        → (w.second_write ≡ written)
          ⊎ ((w.marker_write ≡ installed)
              × (is_migrated (
                    dedupe_key it.intervention.intervention_id session d.dedupe_host_family
                      it.intervention.fingerprint)
                  ≡ false)))
    → (deliver_item d actuator w session it).sent ≡ true
    → (l' : Ledger) × (((deliver_item d actuator w session it).delivery.ledger ≡ some l')
        × ((l2 : Ledger) (d2 : AdvisoryDelivery) (again : Actuator) (w2 : World) (it2 : PendingItem)
            → open_ledger l'.disk ≡ opened l2
            → d2.ledger ≡ some l2
            → d2.dedupe_host_family ≡ d.dedupe_host_family
            → it2.result ≡ none
            → it2.intervention.intervention_id ≡ it.intervention.intervention_id
            → it2.intervention.fingerprint ≡ it.intervention.fingerprint
            → (deliver_item d2 again w2 session it2).sent ≡ false))
no_redelivery d l actuator w session it has e placed named names hosts reached closes ok s =
    let (l', (led, held)) =
      record_answer-Remembers d l w session it (actuator it.intervention).0
        (actuator it.intervention).1 has placed (rw names named) (sym names) reached closes e
        (rw (names, hosts) ok) in
    (
      l',
      (
        rw (sent_answer d actuator w session it s) led,
        λ l2 d2 again w2 it2 o has2 host2 fresh ids fps. duplicate_unsent d2 again w2 session it2 (
            restart_duplicate d2 l' l2 session (actuator it.intervention).0.intervention_id
              (with_host d (actuator it.intervention).0).host_family it.intervention.fingerprint it2
              held o has2 (host2 ∙ sym hosts) fresh (ids ∙ sym names) fps),
      ),
    )
