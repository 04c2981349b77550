-- ===== src/Adapter/PendingQueue/HandOut.antt =====
-- pkg/adapter/pending_queue.go: what the queue hands out over a whole history of calls.
use reinframe.Prelude.{
  ℕ, ◌+◌, ◌≤◌, String, false, Option, none, some, List, [], ◌∷◌, ℤ, Map, positive_or, ◌≡◌, refl,
  ◌⊎◌, inl, inr, All, lookup, insert, lookup_or, str_eq, leb, if◌then◌else◌, arith, Option-cases,
  Bool-cases,
}
use reinframe.Adapter.Delivery.{Intervention, DeliveryState, InterventionResult, is_pending}
use reinframe.Adapter.PendingQueue.{
  PendingItem, PendingQueue, empty, enqueue, Scan, next_pending, update_state, finish_next,
  finish_advisory, default_ttl, sight, pass, fade, hold, advisory_scan, pending_advisory_id,
}
use reinframe.Adapter.PendingQueue.Scan.{
  IsKeyed, IsKeyed-insert, credit, credit-insert-le, credit-insert_new, Pays, next_scan-Pays,
}

sight_cases :
    (now : ℕ) (o : Option PendingItem)
    → (sight now o ≡ pass)
      ⊎ ((it : PendingItem) × (o ≡ some it)
          × (sight now o ≡ fade (record it { state = DeliveryState.expired })))
      ⊎ ((it : PendingItem) × (sight now o ≡ hold it))
unfolding sight
sight_cases now none = inl refl
sight_cases now (some it) = ground arith

-- Nothing is handed out, and no credit is gained.
record IsQuiet (m m' : Map PendingItem) (id : String) : Type 0 where
  keyed : IsKeyed m'
  paid : credit m' id ≤ credit m id

advisory_scan-IsQuiet :
    (now : ℕ) (m : Map PendingItem) (ids : List String) (id : String)
    → IsKeyed m
    → IsQuiet m (advisory_scan now m ids).0 id
unfolding advisory_scan
advisory_scan-IsQuiet now m [] id h = record { keyed = h; paid = omega arith }
advisory_scan-IsQuiet now m (k ∷ ks) id h = elim (sight_cases now (lookup k m)) [
  | inl e ↦ rw (e, advisory_scan) (advisory_scan-IsQuiet now m ks id h)
  | inr (inl (it, found, e)) ↦
      let gone = record it { state = DeliveryState.expired } in
      let ih =
        advisory_scan-IsQuiet now (insert k gone m) ks id
          (IsKeyed-insert k gone m (h k it found) h) in
      rw (e, advisory_scan)
        (record {
          keyed = ih.keyed;
          paid = omega (arith, ih.paid, credit-insert-le k gone m id refl);
        })
  | inr (inr (it, e)) ↦ rw (e, advisory_scan) (record { keyed = h; paid = omega arith })
]

update_state-IsQuiet :
    (q : PendingQueue) (k : String) (state : DeliveryState) (r : Option InterventionResult)
    → is_pending state ≡ false
    → (id : String) → IsKeyed q.by_id
    → IsQuiet q.by_id (update_state q k state r).0.by_id id
unfolding update_state
update_state-IsQuiet q k state r settled id h = elim (Option-cases (lookup k q.by_id)) [
  | inl e ↦ rw (e, update_state) (record { keyed = h; paid = omega arith })
  | inr (it, e) ↦
      rw (e, update_state)
        (record {
          keyed = IsKeyed-insert k _ q.by_id (h k it e) h;
          paid = credit-insert-le k _ q.by_id id settled;
        })
]

enqueue-IsQuiet :
    (q : PendingQueue) (iv : Intervention) (ttl : ℤ) (now : ℕ) (id : String)
    → IsKeyed q.by_id
    → IsQuiet q.by_id (enqueue q iv ttl now).0.by_id id
unfolding enqueue
enqueue-IsQuiet q iv ttl now id h = elim (Option-cases (lookup iv.intervention_id q.by_id)) [
  | inr (it, e) ↦ rw (e, enqueue) (record { keyed = h; paid = omega arith })
  | inl e ↦ elim (Bool-cases (leb (now + positive_or default_ttl ttl) now)) [
    | inl late ↦
        rw (e, enqueue)
          (rw late (record {
            keyed = IsKeyed-insert iv.intervention_id _ q.by_id refl h;
            paid = credit-insert_new iv.intervention_id _ q.by_id id e;
          }))
    | inr soon ↦
        rw (e, enqueue)
          (rw soon (record {
            keyed = IsKeyed-insert iv.intervention_id _ q.by_id refl h;
            paid = credit-insert_new iv.intervention_id _ q.by_id id e;
          }))
  ]
]

-- The calls on a queue, each with the clock it reads.
pub data Call : Type 0 where
  submit : (iv : Intervention) (ttl : ℤ) (now : ℕ) → Call
  next : (session_id : String) (now : ℕ) → Call
  advisory : (session_id : String) (now : ℕ) → Call
  update : (id : String) (state : DeliveryState) (result : Option InterventionResult) → Call

-- No caller sets an item back to PENDING.
abbrev pub Settles : Call → Type 0
Settles (update id state result) = is_pending state ≡ false
Settles _ = Unit {0}

abbrev id_of : Option PendingItem → Option String
id_of none = none
id_of (some it) = some it.intervention.intervention_id

-- The new queue, and the id that the call hands out for delivery.
pub step : PendingQueue → Call → PendingQueue × Option String
step q (submit iv ttl now) = ((enqueue q iv ttl now).0, none)
step q (next s now) = let (q', it) = next_pending q s now in (q', id_of it)
step q (advisory s now) = ((pending_advisory_id q s now).0, none)
step q (update id state r) = ((update_state q id state r).0, none)

abbrev occurs : Option String → String → ℕ
occurs none id = 0
occurs (some k) id = if str_eq k id then 1 else 0

-- How often a history hands out the id.
unfoldable pub handed : PendingQueue → List Call → String → ℕ
unfolding step
handed q [] id = 0
handed q (c ∷ cs) id = occurs (step q c).1 id + handed (step q c).0 cs id

record StepPays (q : PendingQueue) (id : String) (r : PendingQueue × Option String) : Type 0 where
  keyed : IsKeyed r.0.by_id
  paid : occurs r.1 id + credit r.0.by_id id ≤ credit q.by_id id

finish_next-StepPays :
    (q : PendingQueue) (s id : String) (r : Scan)
    → Pays q.by_id id r
    → StepPays q id (let (q', it) = finish_next q s r in (q', id_of it))
unfolding finish_next
finish_next-StepPays q s id (m, none) h = record { keyed = h.keyed; paid = h.paid }
finish_next-StepPays q s id (m, some (it, rest)) h = record { keyed = h.keyed; paid = h.paid }

finish_advisory-by_id :
    (q : PendingQueue) (s : String) (r : Map PendingItem × Option String)
    → (finish_advisory q s r).0.by_id ≡ r.0
unfolding finish_advisory
finish_advisory-by_id q s (m, none) = refl
finish_advisory-by_id q s (m, some id) = refl

quiet : (q q' : PendingQueue) (id : String) → IsQuiet q.by_id q'.by_id id → StepPays q id (q', none)
quiet q q' id h = record { keyed = h.keyed; paid = omega (arith, h.paid) }

step-StepPays :
    (q : PendingQueue) (c : Call) (id : String)
    → Settles c
    → IsKeyed q.by_id
    → StepPays q id (step q c)
unfolding step
step-StepPays q (submit iv ttl now) id ok h = quiet q _ id (enqueue-IsQuiet q iv ttl now id h)
step-StepPays q (next s now) id ok h =
    let ids = lookup_or [] s q.by_sess in
    unfold next_pending in finish_next-StepPays q s id _ (next_scan-Pays now q.by_id ids id h)
step-StepPays q (advisory s now) id ok h =
    let ids = lookup_or [] s q.by_sess in
    let k = advisory_scan-IsQuiet now q.by_id ids id h in
    let e = finish_advisory-by_id q s (advisory_scan now q.by_id ids) in
    quiet q _ id (unfold pending_advisory_id in rw e k)
step-StepPays q (update k state r) id ok h = quiet q _ id (update_state-IsQuiet q k state r ok id h)

handed-le :
    (q : PendingQueue) (cs : List Call) (id : String)
    → All Settles cs
    → IsKeyed q.by_id
    → handed q cs id ≤ credit q.by_id id
unfolding handed
handed-le q [] id ok h = omega arith
handed-le q (c ∷ cs) id ok h =
    let p = step-StepPays q c id ok.0 h in
    omega (arith, p.paid, handed-le (step q c).0 cs id ok.1 p.keyed)

empty-IsKeyed : IsKeyed empty.by_id
unfolding lookup
empty-IsKeyed k it found = absurd (cc)

-- Over every history of calls on a new queue in which no caller sets an item back to PENDING, an
-- intervention id is handed out for delivery at most once, however often it is enqueued.
pub handed_once : (cs : List Call) (id : String) → All Settles cs → handed empty cs id ≤ 1
unfolding lookup
handed_once cs id ok = handed-le empty cs id ok empty-IsKeyed
