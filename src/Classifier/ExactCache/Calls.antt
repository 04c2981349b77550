-- ===== src/Classifier/ExactCache/Calls.antt =====
-- Sequences of Get and Admit of pkg/classifier/exact_cache.go.
use reinframe.Prelude.{
  ℕ, ◌+◌, ◌≤◌, String, Bool, not, ◌||◌, Option, none, some, List, [], ◌∷◌, length, ltb, is_empty,
  lookup, ◌≡◌, refl, arith, if_keeps, if-true, if-false, Bool-cases, Option-cases, inl, inr, ◌∙◌,
  sym, ap,
}
use reinframe.Classifier.ExactCache.{
  ExactAssessmentCache, ExactCacheConfig, CachedAssessment, remove_locked, is_over, count_eviction,
  store, admit, get_cached, reject, is_stale, validate_cached, Limits, new_cache, normalize,
  validate_config, fresh,
}
use reinframe.Classifier.ExactCache.Linked.{IsLinked, Linked-remove_locked, touch-IsLinked}
use reinframe.Classifier.ExactCache.Bounds.{Shrinks-remove_locked}
use reinframe.Classifier.ExactCache.Storing.{
  IsSound, shrink, roomy, store_rejects, store_admits, Shrinks-roomy, store-IsSound,
}

-- A call of the store.
pub data Call : Type 0 where
  ask : (key : String) (now : ℕ) → Call
  offer : (key : String) (val : CachedAssessment) (size : Option ℕ) → Call

unfoldable pub call : ExactAssessmentCache → Call → ExactAssessmentCache
unfolding get_cached admit
call c (ask key now) = (get_cached c key now).0
call c (offer key val size) = (admit c key val size).0

unfoldable pub calls : ExactAssessmentCache → List Call → ExactAssessmentCache
unfolding call
calls c [] = c
calls c (x ∷ xs) = calls (call c x) xs

reject-IsSound : (c : ExactAssessmentCache) → IsSound c → IsSound (reject c)
reject-IsSound c s = record { linked = s.linked; within = s.within }

abbrev AdmittedSound : ExactAssessmentCache × Bool → Type 0
AdmittedSound r = IsSound r.0

abbrev GotSound : ExactAssessmentCache × Option CachedAssessment → Type 0
GotSound r = IsSound r.0

admit-IsSound :
    (c : ExactAssessmentCache) (key : String) (val : CachedAssessment) (size : Option ℕ)
    → IsSound c
    → IsSound (admit c key val size).0
unfolding admit
admit-IsSound c key val none s =
    if_keeps AdmittedSound (not c.cfg.enabled || is_empty key) s
      (if_keeps AdmittedSound (not (validate_cached val)) (reject-IsSound c s) (reject-IsSound c s))
admit-IsSound c key val (some n) s = if_keeps AdmittedSound (not c.cfg.enabled || is_empty key) s (
    if_keeps AdmittedSound (not (validate_cached val)) (reject-IsSound c s) (
      if_keeps AdmittedSound (ltb c.cfg.max_bytes n) (reject-IsSound c s)
        (store-IsSound c key val n s)))

abbrev pub missed : ExactAssessmentCache → ExactAssessmentCache
missed c = record c {
  stats = record (c.stats) { lookups = c.stats.lookups + 1; misses = c.stats.misses + 1 };
}

stale-IsSound :
    (c : ExactAssessmentCache) (key : String)
    → IsSound c
    → IsSound (count_eviction (remove_locked (missed c) key))
stale-IsSound c key s =
    let w =
      shrink (missed c) (remove_locked (missed c) key) (Shrinks-remove_locked (missed c) key)
        s.within in
    record { linked = Linked-remove_locked (missed c) key s.linked; within = w }

get_cached-IsSound :
    (c : ExactAssessmentCache) (key : String) (now : ℕ)
    → IsSound c
    → IsSound (get_cached c key now).0
unfolding get_cached
get_cached-IsSound c key now s =
    if_keeps GotSound (not c.cfg.enabled || is_empty key) s
      (elim (Option-cases (lookup key c.entries)) [
        | inl e ↦ rw e (record { linked = s.linked; within = s.within })
        | inr (ent, e) ↦ rw e (
            if_keeps GotSound (is_stale ent.val now) (stale-IsSound c key s) (record {
              linked = touch-IsLinked c.entries c.order c.bytes key ent s.linked e;
              within = s.within;
            }))
      ])

call-IsSound : (c : ExactAssessmentCache) (x : Call) → IsSound c → IsSound (call c x)
unfolding call
call-IsSound c (ask key now) s = get_cached-IsSound c key now s
call-IsSound c (offer key val size) s = admit-IsSound c key val size s

abbrev AdmittedCfg : Limits → ExactAssessmentCache × Bool → Type 0
AdmittedCfg cfg r = r.0.cfg ≡ cfg

abbrev GotCfg : Limits → ExactAssessmentCache × Option CachedAssessment → Type 0
GotCfg cfg r = r.0.cfg ≡ cfg

store_cfg :
    (c : ExactAssessmentCache) (key : String) (val : CachedAssessment) (size : ℕ)
    → (store c key val size).0.cfg ≡ c.cfg
store_cfg c key val size = elim (Bool-cases (is_over (roomy c key size) size)) [
  | inl e ↦ rw (store_rejects c key val size e) (Shrinks-roomy c key size).cfg
  | inr e ↦ rw (store_admits c key val size e) (Shrinks-roomy c key size).cfg
]

admit_cfg :
    (c : ExactAssessmentCache) (key : String) (val : CachedAssessment) (size : Option ℕ)
    → (admit c key val size).0.cfg ≡ c.cfg
unfolding admit
admit_cfg c key val none =
    if_keeps (AdmittedCfg c.cfg) (not c.cfg.enabled || is_empty key) refl
      (if_keeps (AdmittedCfg c.cfg) (not (validate_cached val)) refl refl)
admit_cfg c key val (some n) =
    if_keeps (AdmittedCfg c.cfg) (not c.cfg.enabled || is_empty key) refl (
      if_keeps (AdmittedCfg c.cfg) (not (validate_cached val)) refl
        (if_keeps (AdmittedCfg c.cfg) (ltb c.cfg.max_bytes n) refl (store_cfg c key val n)))

get_cached_cfg :
    (c : ExactAssessmentCache) (key : String) (now : ℕ) → (get_cached c key now).0.cfg ≡ c.cfg
unfolding get_cached
get_cached_cfg c key now =
    if_keeps (GotCfg c.cfg) (not c.cfg.enabled || is_empty key) refl
      (elim (Option-cases (lookup key c.entries)) [
        | inl e ↦ rw e refl
        | inr (ent, e) ↦ rw e (
            if_keeps (GotCfg c.cfg) (is_stale ent.val now)
              (Shrinks-remove_locked (missed c) key).cfg refl)
      ])

call_cfg : (c : ExactAssessmentCache) (x : Call) → (call c x).cfg ≡ c.cfg
unfolding call
call_cfg c (ask key now) = get_cached_cfg c key now
call_cfg c (offer key val size) = admit_cfg c key val size

calls-keep :
    (c : ExactAssessmentCache) (xs : List Call)
    → IsSound c
    → IsSound (calls c xs) × ((calls c xs).cfg ≡ c.cfg)
unfolding calls
calls-keep c [] s = (s, refl)
calls-keep c (x ∷ xs) s =
    let (t, e) = calls-keep (call c x) xs (call-IsSound c x s) in (t, e ∙ call_cfg c x)

pub fresh-IsSound : (cfg : Limits) → IsSound (fresh cfg)
fresh-IsSound cfg = record {
  linked = record { order_once = tt; keys_once = tt; same = λ k. refl; long = refl; sum = refl };
  within = (omega arith, omega arith);
}

or_else : ExactAssessmentCache → Option ExactAssessmentCache → ExactAssessmentCache
or_else c none = c
or_else c (some d) = d

new_cache-IsSound :
    (config : ExactCacheConfig) (c : ExactAssessmentCache)
    → new_cache config ≡ some c
    → IsSound c × (c.cfg ≡ normalize config)
unfolding new_cache or_else
new_cache-IsSound config c h = elim (Bool-cases (validate_config (normalize config))) [
  | inl e ↦
      let made : fresh (normalize config) ≡ c =
        ap (or_else c) (sym (if-true (validate_config (normalize config)) none e) ∙ h) in
      rw⁻¹ made (fresh-IsSound (normalize config), refl)
  | inr e ↦ absurd (
      let no : none ≡ some c =
        sym (if-false (validate_config (normalize config)) (some (fresh (normalize config))) e)
        ∙ h in
      ground arith)
]

-- After any calls of Get and Admit on a new cache, at any times and with any values, the LRU order
-- lists the keys of the entries once each, the byte count is the sum of their sizes, and there are at
-- most as many entries and bytes as the normalized configuration allows.
pub bounded :
    (config : ExactCacheConfig) (c : ExactAssessmentCache) (xs : List Call)
    → new_cache config ≡ some c
    → IsLinked (calls c xs).entries (calls c xs).order (calls c xs).bytes
      × ((length (calls c xs).entries ≤ (normalize config).max_entries)
          × ((calls c xs).bytes ≤ (normalize config).max_bytes))
bounded config c xs h =
    let (s, e) = new_cache-IsSound config c h in
    let (t, k) = calls-keep c xs s in (t.linked, rw⁻¹ (k ∙ e) t.within)
