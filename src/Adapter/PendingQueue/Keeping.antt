-- ===== src/Adapter/PendingQueue/Keeping.antt =====
-- pkg/adapter/pending_queue.go: no operation drops an item or changes its intervention.
use reinframe.Prelude.{
  ℕ, ◌+◌, String, false, ◌||◌, Option, none, some, List, [], ◌∷◌, ℤ, Map, positive_or, ◌≡◌, refl,
  inl, inr, lookup, insert, lookup-insert, lookup-insert_self, lookup_or, str_eq, leb, arith,
  eq_iff, Option-cases, Bool-cases, sym, if_keeps, subst,
}
use reinframe.Adapter.Delivery.{Intervention, DeliveryState, InterventionResult}
use reinframe.Adapter.PendingQueue.{
  PendingItem, PendingQueue, enqueue, fresh_item, EnqueueResult, keep, Scan, next_scan,
  next_pending, update_state, finish_next, default_ttl,
}
use reinframe.Adapter.PendingQueue.Scan.{
  look_cases, next_scan-nil, next_scan-skip, next_scan-lapse, next_scan-take,
}

-- Under the id stands an item for the intervention.
abbrev pub Holds : Map PendingItem → String → Intervention → Type 0
Holds m id iv = (it : PendingItem) × (lookup id m ≡ some it) × (it.intervention ≡ iv)

-- What `m` holds, `m'` holds.
abbrev pub Keeps : Map PendingItem → Map PendingItem → Type 0
Keeps m m' = (id : String) (iv : Intervention) → Holds m id iv → Holds m' id iv

pub Keeps-insert :
    (k : String) (old new : PendingItem) (m : Map PendingItem)
    → lookup k m ≡ some old
    → new.intervention ≡ old.intervention
    → Keeps m (insert k new m)
Keeps-insert k old new m found same id iv (it, at, for_iv) = elim (Bool-cases (str_eq k id)) [
  | inl e ↦ (new, ground (arith, lookup-insert k id new m, e), ground (arith, eq_iff k id, e))
  | inr e ↦ (it, ground (arith, lookup-insert k id new m, e), for_iv)
]

pub Keeps-insert_new :
    (k : String) (new : PendingItem) (m : Map PendingItem)
    → lookup k m ≡ none
    → Keeps m (insert k new m)
Keeps-insert_new k new m fresh id iv (it, at, for_iv) =
    (it, ground (arith, lookup-insert k id new m, eq_iff k id, fresh), for_iv)

pub enqueue-Keeps :
    (q : PendingQueue) (iv : Intervention) (ttl : ℤ) (now : ℕ)
    → Keeps q.by_id (enqueue q iv ttl now).0.by_id
unfolding enqueue
enqueue-Keeps q iv ttl now = elim (Option-cases (lookup iv.intervention_id q.by_id)) [
  | inr (it, e) ↦ rw (e, enqueue) (λ id jv h. h)
  | inl e ↦
      let id = iv.intervention_id in
      rw (e, enqueue)
        (if_keeps (λ (r : PendingQueue × EnqueueResult). Keeps q.by_id r.0.by_id)
          (leb (now + positive_or default_ttl ttl) now) (Keeps-insert_new id _ q.by_id e)
          (Keeps-insert_new id _ q.by_id e))
]

Keeps-keep : (m : Map PendingItem) (k : String) (s : Scan) → Keeps m s.0 → Keeps m (keep k s).0
Keeps-keep m k (m', none) h = h
Keeps-keep m k (m', some (it, rest)) h = h

next_scan-Keeps :
    (now : ℕ) (m : Map PendingItem) (ids : List String) → Keeps m (next_scan now m ids).0
next_scan-Keeps now m [] = rw (next_scan-nil now m) (λ id iv h. h)
next_scan-Keeps now m (k ∷ ks) = elim (look_cases now (lookup k m)) [
  | inl e ↦ rw (next_scan-skip now m k ks e) (Keeps-keep m k _ (next_scan-Keeps now m ks))
  | inr (inl (it, found, waits, late, e)) ↦
      let gone = record it { state = DeliveryState.expired } in
      rw (next_scan-lapse now m k ks e) (
        Keeps-keep m k _ (λ id iv h.
          next_scan-Keeps now (insert k gone m) ks id iv
            (Keeps-insert k it gone m found refl id iv h)))
  | inr (inr (it, found, waits, late, e)) ↦
      rw (next_scan-take now m k ks e) (Keeps-insert k it _ m found refl)
]

pub update_state-Keeps :
    (q : PendingQueue) (k : String) (state : DeliveryState) (r : Option InterventionResult)
    → Keeps q.by_id (update_state q k state r).0.by_id
unfolding update_state
update_state-Keeps q k state r = elim (Option-cases (lookup k q.by_id)) [
  | inl e ↦ rw (e, update_state) (λ id iv h. h)
  | inr (it, e) ↦ rw (e, update_state) (Keeps-insert k it _ q.by_id e refl)
]

finish_next-by_id :
    (q : PendingQueue) (session_id : String) (s : Scan) → (finish_next q session_id s).0.by_id ≡ s.0
unfolding finish_next
finish_next-by_id q session_id (m, none) = refl
finish_next-by_id q session_id (m, some (it, rest)) = refl

pub next_pending-Keeps :
    (q : PendingQueue) (session_id : String) (now : ℕ)
    → Keeps q.by_id (next_pending q session_id now).0.by_id
unfolding next_pending
next_pending-Keeps q session_id now =
    let s = next_scan now q.by_id (lookup_or [] session_id q.by_sess) in
    subst (Keeps q.by_id) (sym (finish_next-by_id q session_id s))
      (next_scan-Keeps now q.by_id (lookup_or [] session_id q.by_sess))

-- An intervention that is taken in, neither a duplicate nor expired, is held by the queue.
abbrev TakenIn : Intervention → PendingQueue × EnqueueResult → Type 0
TakenIn iv r = (r.1.suppressed || r.1.expired) ≡ false → Holds r.0.by_id iv.intervention_id iv

pub enqueue-TakenIn :
    (q : PendingQueue) (iv : Intervention) (ttl : ℤ) (now : ℕ) → TakenIn iv (enqueue q iv ttl now)
unfolding enqueue fresh_item
enqueue-TakenIn q iv ttl now = elim (Option-cases (lookup iv.intervention_id q.by_id)) [
  | inr (it, e) ↦ rw (e, enqueue) (λ h. cc)
  | inl e ↦
      rw (e, enqueue)
        (if_keeps (TakenIn iv) (leb (now + positive_or default_ttl ttl) now) (λ h. cc)
          (λ h. (
            fresh_item iv now (now + positive_or default_ttl ttl),
            lookup-insert_self iv.intervention_id _ q.by_id,
            refl,
          )))
]
