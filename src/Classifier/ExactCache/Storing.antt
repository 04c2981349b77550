-- ===== src/Classifier/ExactCache/Storing.antt =====
-- The locked part of Admit in pkg/classifier/exact_cache.go keeps the store sound.
use reinframe.Prelude.{
  ℕ, zero, suc, ◌+◌, String, true, false, none, [], ◌∷◌, ◌++◌, length, length-append, lookup,
  insert, lookup-remove, ◌≡◌, refl, arith, Bool-cases, Option-cases, List-cases, inl, inr, eq_refl,
}
use reinframe.Classifier.ExactCache.{
  ExactAssessmentCache, CachedAssessment, mem, remove_locked, is_over, count_eviction, evict,
  without, store, reject,
}
use reinframe.Classifier.ExactCache.Orders.{keys, mem-lookup, insert_missing}
use reinframe.Classifier.ExactCache.Linked.{
  Linked, evict_stop, evict_empty, evict_more, Linked-evict, Linked-without, add-IsLinked,
}
use reinframe.Classifier.ExactCache.Bounds.{
  Within, Shrinks, Shrinks-without, Shrinks-evict, Shrinks-trans,
}

-- The store is consistent and within its bounds.
pub record IsSound (c : ExactAssessmentCache) : Type 0 where
  pub linked : Linked c
  pub within : Within c

pub shrink : (c c' : ExactAssessmentCache) → Shrinks c c' → Within c → Within c'
shrink c c' s w = rw s.cfg (omega (arith, s.fewer, w.0), omega (arith, s.less, w.1))

-- What `store` leaves of the other entries.
abbrev pub roomy : ExactAssessmentCache → String → ℕ → ExactAssessmentCache
roomy c key size = evict (length (without c key).order) (without c key) size

pub store_rejects :
    (c : ExactAssessmentCache) (key : String) (val : CachedAssessment) (size : ℕ)
    → is_over (roomy c key size) size ≡ true
    → store c key val size ≡ (reject (roomy c key size), false)
unfolding store
store_rejects c key val size e = simp e

abbrev pub stored : ExactAssessmentCache → String → CachedAssessment → ℕ → ExactAssessmentCache
stored r key val size = record r {
  entries = insert key (record { val = record val { key_hash = key }; size = size }) r.entries;
  order = r.order ++ key ∷ [];
  bytes = r.bytes + size;
  stats = record (r.stats) { admissions = r.stats.admissions + 1 };
}

pub store_admits :
    (c : ExactAssessmentCache) (key : String) (val : CachedAssessment) (size : ℕ)
    → is_over (roomy c key size) size ≡ false
    → store c key val size ≡ (stored (roomy c key size) key val size, true)
unfolding store
store_admits c key val size e = simp e

Missing-remove_locked :
    (c : ExactAssessmentCache) (k v : String)
    → lookup k c.entries ≡ none
    → lookup k (remove_locked c v).entries ≡ none
unfolding remove_locked
Missing-remove_locked c k v h = elim (Option-cases (lookup v c.entries)) [
  | inl e ↦ rw (remove_locked, e) h
  | inr (ent, e) ↦ rw (remove_locked, e) (ground (arith, lookup-remove v k c.entries, h))
]

Missing-without : (c : ExactAssessmentCache) (k : String) → lookup k (without c k).entries ≡ none
unfolding without
Missing-without c k = elim (Option-cases (lookup k c.entries)) [
  | inl e ↦ rw (without, e) e
  | inr (ent, e) ↦ rw (without, e) (rw (lookup-remove k k c.entries, eq_refl k) refl)
]

Missing-evict :
    (f : ℕ) (c : ExactAssessmentCache) (size : ℕ) (k : String)
    → lookup k c.entries ≡ none
    → lookup k (evict f c size).entries ≡ none
unfolding evict
Missing-evict zero c size k h = h
Missing-evict (suc f) c size k h = elim (Bool-cases (is_over c size)) [
  | inr e ↦ rw (evict_stop (suc f) c size e) h
  | inl e ↦ (elim (List-cases c.order) [
    | inl o ↦ rw (evict_empty (suc f) c size o) h
    | inr (v, (rest, o)) ↦ rw (evict_more f c size v rest o e) (
        Missing-evict f (count_eviction (remove_locked c v)) size k (Missing-remove_locked c k v h))
  ])
]

Linked-roomy :
    (c : ExactAssessmentCache) (key : String) (size : ℕ) → Linked c → Linked (roomy c key size)
Linked-roomy c key size l =
    Linked-evict (length (without c key).order) (without c key) size (Linked-without c key l)

pub Shrinks-roomy :
    (c : ExactAssessmentCache) (key : String) (size : ℕ) → Shrinks c (roomy c key size)
Shrinks-roomy c key size =
    Shrinks-trans c (without c key) (roomy c key size) (Shrinks-without c key)
      (Shrinks-evict (length (without c key).order) (without c key) size)

missing_key :
    (c : ExactAssessmentCache) (key : String) (size : ℕ)
    → mem key (keys (roomy c key size).entries) ≡ false
missing_key c key size =
    let gone =
      Missing-evict (length (without c key).order) (without c key) size key
        (Missing-without c key) in
    rw (mem-lookup key (roomy c key size).entries, gone) refl

stored-IsSound :
    (r : ExactAssessmentCache) (key : String) (val : CachedAssessment) (size : ℕ)
    → Linked r
    → mem key (keys r.entries) ≡ false
    → is_over r size ≡ false
    → IsSound (stored r key val size)
unfolding is_over
stored-IsSound r key val size l gone room = record {
  linked =
      add-IsLinked r.entries r.order r.bytes key
        (record { val = record val { key_hash = key }; size = size }) l gone;
  within =
      rw
        (insert_missing key (record { val = record val { key_hash = key }; size = size }) r.entries
          gone)
        (ground (
          arith,
          room,
          length-append r.entries
              ((key, record { val = record val { key_hash = key }; size = size }) ∷ []),
        ));
}

pub store-IsSound :
    (c : ExactAssessmentCache) (key : String) (val : CachedAssessment) (size : ℕ)
    → IsSound c
    → IsSound (store c key val size).0
store-IsSound c key val size s = elim (Bool-cases (is_over (roomy c key size) size)) [
  | inl e ↦ rw (store_rejects c key val size e) (record {
    linked = Linked-roomy c key size s.linked;
    within = shrink c (roomy c key size) (Shrinks-roomy c key size) s.within;
  })
  | inr e ↦ rw (store_admits c key val size e) (
      stored-IsSound (roomy c key size) key val size (Linked-roomy c key size s.linked)
        (missing_key c key size) e)
]
