-- ===== src/Adapter/Advisory/Ceiling.antt =====
-- What no acknowledgement of pkg/adapter/advisory_delivery.go can do.
use reinframe.Prelude.{
  ℕ, String, Bool, true, false, Option, none, some, ◌≡◌, ◌≢◌, refl, sym, subst, ◌⊎◌, inl, inr,
  arith, lookup, lookup-insert, Option-cases, Bool-cases, eq_iff,
}
use reinframe.Adapter.Delivery.{DeliveryState, AckStatus, AckLayer, InterventionResult}
use reinframe.Adapter.PendingQueue.{PendingItem, PendingQueue, update_state, set_result, get}
use reinframe.Adapter.Ledger.{AppendIo, record_result}
use reinframe.Adapter.Acknowledge.{
  AcknowledgeRequest, AckErr, bare_explicit, profile_max_ack_layer, is_explicit,
  validate_acknowledge_request,
}
use reinframe.Adapter.Advisory.{AdvisoryDelivery}
use reinframe.Adapter.Advisory.Acks.{
  awaiting_explicit_ack, capped_layer, ack_default, outcome, commit, answer, is_mismatch,
  base_result, acknowledge_source, acknowledge,
}

abbrev pub is_explicit_ack : DeliveryState → Bool
is_explicit_ack DeliveryState.explicit_ack = true
is_explicit_ack _ = false

profile_max : (h p : String) → profile_max_ack_layer h p ≡ AckLayer.session_visible
unfolding profile_max_ack_layer
profile_max h p = ground arith

capped_layer-implicit :
    (layer l : AckLayer)
    → capped_layer layer AckLayer.session_visible ≡ some l
    → is_explicit l ≡ false
unfolding capped_layer
capped_layer-implicit layer l h = ground arith

outcome-implicit :
    (status : AckStatus) (req : AcknowledgeRequest) (layer : AckLayer) (res : InterventionResult)
    (now : ℕ) (r : DeliveryState × InterventionResult)
    → is_explicit layer ≡ false
    → outcome status req layer res now ≡ some r
    → is_explicit_ack r.0 ≡ false
unfolding outcome
outcome-implicit status req layer res now (st, res') l h = ground arith

-- The queue is as before, or one item is set to a state that is not EXPLICIT_ACK, without error.
abbrev Changes : AdvisoryDelivery → String → AdvisoryDelivery × Option AckErr → Type 0
Changes d id r =
    (r.0.queue ≡ d.queue)
    ⊎ ((st : DeliveryState) × (res : InterventionResult) × (is_explicit_ack st ≡ false)
        × (r.1 ≡ none)
        × (r.0.queue ≡ (update_state d.queue id st (some res)).0))

commit-Changes :
    (d : AdvisoryDelivery) (io : AppendIo) (req : AcknowledgeRequest) (it : PendingItem)
    (r : DeliveryState × InterventionResult)
    → is_explicit_ack r.0 ≡ false
    → Changes d req.intervention_id (commit d io req it r)
unfolding commit
commit-Changes d io req it (st, res) h = elim (Option-cases d.ledger) [
  | inl e ↦ inr (st, res, h, ground arith, ground arith)
  | inr (l, e) ↦
      let saved =
        record_result l io it.state it.intervention.session_id res st req.source_kind
          req.source_event_id it.intervention.fingerprint in
      elim (Option-cases saved.1) [
        | inl k ↦ inr (st, res, h, ground arith, ground arith)
        | inr (err, k) ↦ inl (ground arith)
      ]
]

unchanged : (d : AdvisoryDelivery) (id : String) (err : AckErr) → Changes d id (d, some err)
unchanged d id err = inl refl

answer-Changes :
    (d : AdvisoryDelivery) (io : AppendIo) (wall : ℕ) (req : AcknowledgeRequest) (it : PendingItem)
    → Changes d req.intervention_id (answer d io wall req it)
unfolding answer
answer-Changes d io wall req it =
    let now : ℕ = elim req.observed_at [ none ↦ wall | some t ↦ t ] in
    let res = base_result req it now in
    let max = profile_max_ack_layer res.host_family res.profile in
    let layer? = capped_layer (ack_default req.ack_layer req.status) max in
    elim (Bool-cases (awaiting_explicit_ack it.state)) [
      | inr e ↦ inl (ground arith)
      | inl e ↦ elim (Bool-cases (is_mismatch it req.target_session)) [
        | inl m ↦ inl (ground arith)
        | inr m ↦ elim (Option-cases layer?) [
          | inl k ↦ inl (ground arith)
          | inr (l, k) ↦ elim (Option-cases (outcome req.status req l res now)) [
            | inl o ↦ inl (ground arith)
            | inr (r, o) ↦
                let asked = ack_default req.ack_layer req.status in
                let k' : capped_layer asked AckLayer.session_visible ≡ some l =
                  subst (λ x. capped_layer asked x ≡ some l)
                    (profile_max res.host_family res.profile) k in
                let implicit =
                  outcome-implicit req.status req l res now r (capped_layer-implicit asked l k')
                    o in
                let same : answer d io wall req it ≡ commit d io req it r = ground arith in
                subst (Changes d req.intervention_id) (sym same)
                  (commit-Changes d io req it r implicit)
          ]
        ]
      ]
    ]

acknowledge_source-Changes :
    (d : AdvisoryDelivery) (io : AppendIo) (wall : ℕ) (req : AcknowledgeRequest)
    → Changes d req.intervention_id (acknowledge_source d io wall req)
unfolding acknowledge_source get
acknowledge_source-Changes d io wall req = elim (Option-cases (validate_acknowledge_request req)) [
  | inr (err, e) ↦ inl (ground arith)
  | inl e ↦ elim (Option-cases (lookup req.intervention_id d.queue.by_id)) [
    | inl k ↦ inl (ground arith)
    | inr (it, k) ↦
        let same : acknowledge_source d io wall req ≡ answer d io wall req it = ground arith in
        subst (Changes d req.intervention_id) (sym same) (answer-Changes d io wall req it)
  ]
]

-- An item that is EXPLICIT_ACK now was so before.
update_state-explicit :
    (q : PendingQueue) (k id : String) (st : DeliveryState) (r : Option InterventionResult)
    (it : PendingItem)
    → is_explicit_ack st ≡ false
    → lookup id (update_state q k st r).0.by_id ≡ some it
    → it.state ≡ DeliveryState.explicit_ack
    → lookup id q.by_id ≡ some it
unfolding update_state
update_state-explicit q k id st r it h found e = elim (Option-cases (lookup k q.by_id)) [
  | inl none_there ↦ ground arith
  | inr (old, there) ↦
      let new = record old { state = st; result = set_result r old.result } in
      ground (arith, lookup-insert k id new q.by_id, eq_iff k id)
]

-- No source-bound acknowledgement makes an item EXPLICIT_ACK: an item that is so afterwards was so
-- before, unchanged. One that is refused leaves the whole queue as it was. A bare `acked` of the same
-- intervention is always refused.
pub acknowledge_never_explicit :
    (d : AdvisoryDelivery) (io : AppendIo) (wall : ℕ) (req : AcknowledgeRequest)
    → let r = acknowledge_source d io wall req in
      ((id : String) (it : PendingItem)
        → lookup id r.0.queue.by_id ≡ some it
        → it.state ≡ DeliveryState.explicit_ack
        → lookup id d.queue.by_id ≡ some it)
      × (r.1 ≢ none → r.0.queue ≡ d.queue)
      × ((acknowledge d io wall req.intervention_id AckStatus.acked).1 ≡ some bare_explicit)
unfolding acknowledge
acknowledge_never_explicit d io wall req = elim (acknowledge_source-Changes d io wall req) [
  | inl same ↦ ((λ id it found e. rw same at found), (λ err. same), refl)
  | inr (st, res, implicit, fine, changed) ↦ (
    (λ id it found e.
        let q = d.queue in
        let k = req.intervention_id in
        update_state-explicit q k id st (some res) it implicit
          (subst (λ p. lookup id p.by_id ≡ some it) changed found) e),
    (λ err. absurd (err fine)),
    refl,
  )
]
