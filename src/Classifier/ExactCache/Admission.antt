-- ===== src/Classifier/ExactCache/Admission.antt =====
-- Get after Admit in pkg/classifier/exact_cache.go.
use reinframe.Prelude.{
  ℕ, ◌≤◌, String, true, false, not, ◌||◌, Option, none, some, length, ltb, is_empty,
  lookup-insert_self, ◌≡◌, refl, arith, if-false, ◌∙◌, ap,
}
use reinframe.Classifier.ExactCache.{
  ExactAssessmentCache, CachedAssessment, remove_locked, count_eviction, without, store, admit,
  get_cached, reject, is_stale, validate_cached, Limits,
}
use reinframe.Classifier.ExactCache.Linked.{Linked-without}
use reinframe.Classifier.ExactCache.Bounds.{Shrinks-without, evict_ends}
use reinframe.Classifier.ExactCache.Storing.{IsSound, roomy, stored, store_admits, Shrinks-roomy}
use reinframe.Classifier.ExactCache.Calls.{missed}

admit_by_tests :
    (c : ExactAssessmentCache) (key : String) (val : CachedAssessment) (n : ℕ)
    → c.cfg.enabled ≡ true
    → is_empty key ≡ false
    → validate_cached val ≡ true
    → ltb c.cfg.max_bytes n ≡ false
    → admit c key val (some n) ≡ store c key val n
unfolding admit
admit_by_tests c key val n on named valid fits =
    if-false (not c.cfg.enabled || is_empty key) (c, false) (ground (arith, on, named))
    ∙ if-false (not (validate_cached val)) (reject c, false) (ground (arith, valid))
    ∙ if-false (ltb c.cfg.max_bytes n) (reject c, false) fits

admit_stores :
    (c : ExactAssessmentCache) (key : String) (val : CachedAssessment) (n : ℕ)
    → IsSound c
    → c.cfg.enabled ≡ true
    → 1 ≤ c.cfg.max_entries
    → is_empty key ≡ false
    → validate_cached val ≡ true
    → n ≤ c.cfg.max_bytes
    → admit c key val (some n) ≡ (stored (roomy c key n) key val n, true)
unfolding admit
admit_stores c key val n s on one named valid fits =
    let w = Shrinks-without c key in
    let room =
      evict_ends (length (without c key).order) (without c key) n (Linked-without c key s.linked)
        (rw w.cfg one) (rw w.cfg fits) (omega arith) in
    admit_by_tests c key val n on named valid (ground (arith, fits)) ∙ store_admits c key val n room

abbrev found : ExactAssessmentCache × Option CachedAssessment → Option CachedAssessment
found r = r.1

get_stored :
    (r : ExactAssessmentCache) (key : String) (val : CachedAssessment) (n now : ℕ)
    → r.cfg.enabled ≡ true
    → is_empty key ≡ false
    → is_stale val now ≡ false
    → (get_cached (stored r key val n) key now).1 ≡ some (record val { key_hash = key })
unfolding get_cached
get_stored r key val n now on named young =
    ap found (
      if-false (not r.cfg.enabled || is_empty key) (stored r key val n, none)
        (ground (arith, on, named)))
    ∙ rw
        (lookup-insert_self key (record { val = record val { key_hash = key }; size = n })
          r.entries)
        (ap found (
          if-false (is_stale val now)
            (count_eviction (remove_locked (missed (stored r key val n)) key), none) young))

-- A value that is valid, no longer than the byte limit and fresh, offered under a non-empty key to an
-- enabled cache that is consistent, within its bounds and may hold an entry, is admitted, and Get
-- returns it at that time with the key's hash filled in.
pub admit-get :
    (c : ExactAssessmentCache) (key : String) (val : CachedAssessment) (n now : ℕ)
    → IsSound c
    → c.cfg.enabled ≡ true
    → 1 ≤ c.cfg.max_entries
    → is_empty key ≡ false
    → validate_cached val ≡ true
    → n ≤ c.cfg.max_bytes
    → is_stale val now ≡ false
    → ((admit c key val (some n)).1 ≡ true)
      × ((get_cached (admit c key val (some n)).0 key now).1 ≡ some (record val { key_hash = key }))
admit-get c key val n now s on one named valid fits young =
    let done = admit_stores c key val n s on one named valid fits in
    (
      rw done refl,
      rw done (
          get_stored (roomy c key n) key val n now
            (ap Limits.enabled (Shrinks-roomy c key n).cfg ∙ on) named young),
    )
