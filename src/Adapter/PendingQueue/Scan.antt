-- ===== src/Adapter/PendingQueue/Scan.antt =====
-- pkg/adapter/pending_queue.go: the loop of `NextPending`, and the credit of an id: 1 while it can
-- still be handed out, else 0.
use reinframe.Prelude.{
  ℕ, ◌+◌, ◌≤◌, String, true, false, Option, none, some, List, [], ◌∷◌, Map, ◌≡◌, refl, ◌⊎◌, inl,
  inr, lookup, insert, lookup-insert, str_eq, leb, if◌then◌else◌, arith, eq_iff,
}
use reinframe.Adapter.Delivery.{DeliveryState, is_pending}
use reinframe.Adapter.PendingQueue.{PendingItem, look, skip, lapse, take, Scan, keep, next_scan}

-- Every item stands under its own id.
abbrev pub IsKeyed : Map PendingItem → Type 0
IsKeyed m =
    (k : String) (it : PendingItem) → lookup k m ≡ some it → it.intervention.intervention_id ≡ k

abbrev pub credit_of : Option PendingItem → ℕ
credit_of none = 1
credit_of (some it) = if is_pending it.state then 1 else 0

-- How often the id may still be handed out.
abbrev pub credit : Map PendingItem → String → ℕ
credit m id = credit_of (lookup id m)

pub IsKeyed-insert :
    (k : String) (it : PendingItem) (m : Map PendingItem)
    → it.intervention.intervention_id ≡ k
    → IsKeyed m
    → IsKeyed (insert k it m)
IsKeyed-insert k it m e h =
    λ j other found. ground (arith, lookup-insert k j it m, eq_iff k j, h j other)

pub credit-insert :
    (k : String) (it : PendingItem) (m : Map PendingItem) (id : String)
    → credit (insert k it m) id ≡ (if str_eq k id then credit_of (some it) else credit m id)
credit-insert k it m id = ground (arith, lookup-insert k id it m)

pub credit-insert-le :
    (k : String) (it : PendingItem) (m : Map PendingItem) (id : String)
    → is_pending it.state ≡ false
    → credit (insert k it m) id ≤ credit m id
credit-insert-le k it m id h = ground (arith, credit-insert k it m id)

pub credit-insert_new :
    (k : String) (it : PendingItem) (m : Map PendingItem) (id : String)
    → lookup k m ≡ none
    → credit (insert k it m) id ≤ credit m id
credit-insert_new k it m id h = ground (arith, credit-insert k it m id, eq_iff k id)

-- The rounds of the scan.
pub look_cases :
    (now : ℕ) (o : Option PendingItem)
    → (look now o ≡ skip)
      ⊎ ((it : PendingItem) × (o ≡ some it)
          × (is_pending it.state ≡ true)
          × (leb it.expires_at now ≡ true)
          × (look now o ≡ lapse (record it { state = DeliveryState.expired })))
      ⊎ ((it : PendingItem) × (o ≡ some it)
          × (is_pending it.state ≡ true)
          × (leb it.expires_at now ≡ false)
          × (look now o ≡ take (record it { state = DeliveryState.delivering })))
unfolding look
look_cases now none = inl refl
look_cases now (some it) = ground arith

abbrev pub given : Option (PendingItem × List String) → String → ℕ
given none id = 0
given (some (it, rest)) id = if str_eq it.intervention.intervention_id id then 1 else 0

-- One round, by what `look` finds.
pub next_scan-skip :
    (now : ℕ) (m : Map PendingItem) (k : String) (ks : List String)
    → look now (lookup k m) ≡ skip
    → next_scan now m (k ∷ ks) ≡ keep k (next_scan now m ks)
unfolding next_scan
next_scan-skip now m k ks e = rw (e, next_scan)

pub next_scan-lapse :
    (now : ℕ) (m : Map PendingItem) (k : String) (ks : List String) {it : PendingItem}
    → look now (lookup k m) ≡ lapse it
    → next_scan now m (k ∷ ks) ≡ keep k (next_scan now (insert k it m) ks)
unfolding next_scan
next_scan-lapse now m k ks e = rw (e, next_scan)

pub next_scan-take :
    (now : ℕ) (m : Map PendingItem) (k : String) (ks : List String) {it : PendingItem}
    → look now (lookup k m) ≡ take it
    → next_scan now m (k ∷ ks) ≡ (insert k it m, some (it, ks))
unfolding next_scan
next_scan-take now m k ks e = rw (e, next_scan)

-- A scan keeps the keys, and what it hands out it pays for.
pub record Pays (m : Map PendingItem) (id : String) (s : Scan) : Type 0 where
  pub keyed : IsKeyed s.0
  pub paid : given s.1 id + credit s.0 id ≤ credit m id

Pays-keep :
    (k : String) (m : Map PendingItem) (id : String) (s : Scan) → Pays m id s → Pays m id (keep k s)
Pays-keep k m id (m', none) h = record { keyed = h.keyed; paid = h.paid }
Pays-keep k m id (m', some (it, rest)) h = record { keyed = h.keyed; paid = h.paid }

pub next_scan-nil : (now : ℕ) (m : Map PendingItem) → next_scan now m [] ≡ (m, none)
unfolding next_scan
next_scan-nil now m = refl

pub next_scan-Pays :
    (now : ℕ) (m : Map PendingItem) (ids : List String) (id : String)
    → IsKeyed m
    → Pays m id (next_scan now m ids)
next_scan-Pays now m [] id h = rw (next_scan-nil now m) (record { keyed = h; paid = omega arith })
next_scan-Pays now m (k ∷ ks) id h = elim (look_cases now (lookup k m)) [
  | inl e ↦ rw (next_scan-skip now m k ks e) (Pays-keep k m id _ (next_scan-Pays now m ks id h))
  | inr (inl (it, found, waits, late, e)) ↦
      let gone = record it { state = DeliveryState.expired } in
      let m' = insert k gone m in
      let ih = next_scan-Pays now m' ks id (IsKeyed-insert k gone m (h k it found) h) in
      rw (next_scan-lapse now m k ks e) (
        Pays-keep k m id _ (record {
          keyed = ih.keyed;
          paid = omega (arith, ih.paid, credit-insert-le k gone m id refl);
        }))
  | inr (inr (it, found, waits, late, e)) ↦
      let out = record it { state = DeliveryState.delivering } in
      rw (next_scan-take now m k ks e) (record {
        keyed = IsKeyed-insert k out m (h k it found) h;
        paid = ground (arith, credit-insert k out m id, h k it found, eq_iff k id);
      })
]
