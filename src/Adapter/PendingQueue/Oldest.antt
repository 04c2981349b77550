-- ===== src/Adapter/PendingQueue/Oldest.antt =====
-- pkg/adapter/pending_queue.go: which item `NextPending` hands out, against the list of the items that
-- wait.
use reinframe.Prelude.{
  ℕ, String, Bool, true, false, ◌&&◌, Option, none, some, List, [], ◌∷◌, Map, ◌≡◌, refl, ◌∙◌, sym,
  ap, inl, inr, lookup, insert, lookup-insert, ltb, lookup_or, if◌then◌else◌, arith, eq_iff,
}
use reinframe.Adapter.Delivery.{DeliveryState, is_pending}
use reinframe.Adapter.PendingQueue.{
  PendingItem, PendingQueue, look, skip, Scan, keep, next_scan, next_pending, finish_next,
}
use reinframe.Adapter.PendingQueue.Scan.{
  look_cases, next_scan-nil, next_scan-skip, next_scan-lapse, next_scan-take,
}

-- The item waits to be handed out at the time `now`.
unfoldable pub is_waiting : ℕ → PendingItem → Bool
is_waiting now it = is_pending it.state && ltb now it.expires_at

-- The items of the ids that wait, in the order of the ids.
unfoldable pub waiting : ℕ → Map PendingItem → List String → List PendingItem
waiting now m [] = []
waiting now m (id ∷ ids) =
    let rest = waiting now m ids in
    elim (lookup id m) [ none ↦ rest | some it ↦ if is_waiting now it then it ∷ rest else rest ]

unfoldable pub first_handed : List PendingItem → Option PendingItem
first_handed [] = none
first_handed (it ∷ its) = some (record it { state = DeliveryState.delivering })

abbrev handed : Scan → Option PendingItem
handed (m, none) = none
handed (m, some (it, rest)) = some it

handed-keep : (id : String) (s : Scan) → handed (keep id s) ≡ handed s
handed-keep id (m, none) = refl
handed-keep id (m, some (it, rest)) = refl

-- An item that does not wait may be replaced by another such.
waiting-insert :
    (now : ℕ) (k : String) (it gone : PendingItem) (m : Map PendingItem) (ids : List String)
    → lookup k m ≡ some it
    → is_waiting now it ≡ false
    → is_waiting now gone ≡ false
    → waiting now (insert k gone m) ids ≡ waiting now m ids
unfolding waiting
waiting-insert now k it gone m [] found e e' = refl
waiting-insert now k it gone m (id ∷ ids) found e e' =
    ground
      (arith, waiting-insert now k it gone m ids found e e', lookup-insert k id gone m, eq_iff k id)

waiting-skip :
    (now : ℕ) (m : Map PendingItem) (k : String) (ks : List String)
    → look now (lookup k m) ≡ skip
    → waiting now m (k ∷ ks) ≡ waiting now m ks
unfolding waiting look is_waiting
waiting-skip now m k ks e = ground (arith, e)

waiting-late :
    (now : ℕ) (m : Map PendingItem) (k : String) (ks : List String) (it : PendingItem)
    → lookup k m ≡ some it
    → is_waiting now it ≡ false
    → waiting now m (k ∷ ks) ≡ waiting now m ks
unfolding waiting
waiting-late now m k ks it found e = ground (arith, found, e)

waiting-next :
    (now : ℕ) (m : Map PendingItem) (k : String) (ks : List String) (it : PendingItem)
    → lookup k m ≡ some it
    → is_waiting now it ≡ true
    → waiting now m (k ∷ ks) ≡ it ∷ waiting now m ks
unfolding waiting
waiting-next now m k ks it found e = ground (arith, found, e)

next_scan-waiting :
    (now : ℕ) (m : Map PendingItem) (ids : List String)
    → handed (next_scan now m ids) ≡ first_handed (waiting now m ids)
unfolding first_handed waiting is_waiting
next_scan-waiting now m [] = rw (next_scan-nil now m) refl
next_scan-waiting now m (k ∷ ks) = elim (look_cases now (lookup k m)) [
  | inl e ↦
      ap handed (next_scan-skip now m k ks e)
      ∙ handed-keep k _
      ∙ next_scan-waiting now m ks
      ∙ ap first_handed (sym (waiting-skip now m k ks e))
  | inr (inl (it, found, waits, late, e)) ↦
      let gone = record it { state = DeliveryState.expired } in
      let over : is_waiting now it ≡ false = ground (arith, late) in
      ap handed (next_scan-lapse now m k ks e)
      ∙ handed-keep k _
      ∙ next_scan-waiting now (insert k gone m) ks
      ∙ ap first_handed (
          waiting-insert now k it gone m ks found over refl
          ∙ sym (waiting-late now m k ks it found over))
  | inr (inr (it, found, waits, late, e)) ↦
      let now_waits : is_waiting now it ≡ true = ground (arith, late, waits) in
      ap handed (next_scan-take now m k ks e)
      ∙ ap first_handed (sym (waiting-next now m k ks it found now_waits))
]

-- NextPending hands out, in the state DELIVERING, the first item in the session's order that is
-- PENDING and has not expired; it returns nothing exactly if no item of that order is such.
pub next_pending-waiting :
    (q : PendingQueue) (session_id : String) (now : ℕ)
    → (next_pending q session_id now).1
      ≡ first_handed (waiting now q.by_id (lookup_or [] session_id q.by_sess))
unfolding next_pending finish_next
next_pending-waiting q session_id now =
    let ids = lookup_or [] session_id q.by_sess in
    ends (next_scan now q.by_id ids) ∙ next_scan-waiting now q.by_id ids
  where
    ends : (s : Scan) → (finish_next q session_id s).1 ≡ handed s
    ends (m, none) = refl
    ends (m, some (it, rest)) = refl
