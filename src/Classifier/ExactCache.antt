-- ===== src/Classifier/ExactCache.antt =====
-- The store of pkg/classifier/exact_cache.go, an LRU cache with expiry. The clock and the length of
-- the JSON text of a value are arguments (`none`: the value does not marshal); the mutex makes each
-- call one step.
pub mod Orders
pub mod Linked
pub mod Bounds
pub mod Storing
pub mod Calls
pub mod Admission
use reinframe.Prelude.{
  ℕ, zero, suc, ◌+◌, ◌-◌, ◌*◌, String, Bool, true, false, not, ◌&&◌, ◌||◌, Option, none, some, List,
  [], ◌∷◌, ◌++◌, map, length, ltb, leb, str_eq, is_empty, ℤ, pos, positive_or, Map, lookup, insert,
  remove, if◌then◌else◌,
}

pub record ExactCacheConfig : Type 0 where
  pub enabled : Bool
  pub max_entries : ℤ
  pub max_bytes : ℤ
  pub ttl : ℤ
  pub singleflight : Bool

-- A normalized configuration, whose bounds are not negative; `ttl` is in nanoseconds.
pub record Limits : Type 0 where
  pub enabled : Bool
  pub max_entries : ℕ
  pub max_bytes : ℕ
  pub ttl : ℕ
  pub singleflight : Bool

abbrev second : ℕ
second = 1000000000

-- `Normalize`
unfoldable pub normalize : ExactCacheConfig → Limits
normalize c =
    if not c.enabled
    then record { enabled = false; max_entries = 0; max_bytes = 0; ttl = 0; singleflight = false }
    else record {
      enabled = true;
      max_entries = positive_or 1024 c.max_entries;
      max_bytes = positive_or 16777216 c.max_bytes;
      ttl = positive_or (600 * second) c.ttl;
      singleflight = c.singleflight;
    }

-- `ValidateExactCacheConfig` of a normalized configuration; `true` where Go returns nil.
unfoldable pub validate_config : Limits → Bool
validate_config c =
    if not c.enabled
    then leb c.max_entries 0 && leb c.max_bytes 0 && leb c.ttl 0
    else not (ltb c.max_entries 1 || ltb 1000000 c.max_entries)
      && not (ltb c.max_bytes 1024 || ltb 268435456 c.max_bytes)
      && not (ltb c.ttl second || ltb (86400 * second) c.ttl)

pub record RawAssessment : Type 0 where
  pub schema_version : String
  pub severity : ℤ
  pub reason_code : String
  pub evidence_event_ids : List String
  pub model_id : String
  pub model_version : String
  pub prompt_hash : String
  pub ruleset_id : String
  pub ruleset_hash : String
  pub parse_status : String
  pub latency_ms : ℤ

pub record ProviderMeta : Type 0 where
  pub provider_request_id : String
  pub parse_status : String
  pub fallback_reason : String
  pub error_class : String

-- `expires_at` is `none` for the zero time.
pub record CachedAssessment : Type 0 where
  pub schema_version : String
  pub assessment : RawAssessment
  pub source_audit_id : String
  pub provider_meta : ProviderMeta
  pub created_at : ℕ
  pub expires_at : Option ℕ
  pub cache_key_version : String
  pub key_hash : String

pub record ExactCacheStats : Type 0 where
  pub lookups : ℕ
  pub hits : ℕ
  pub misses : ℕ
  pub admissions : ℕ
  pub rejections : ℕ
  pub evictions : ℕ

pub record Entry : Type 0 where
  pub val : CachedAssessment
  pub size : ℕ

pub record ExactAssessmentCache : Type 0 where
  pub cfg : Limits
  pub entries : Map Entry
  pub order : List String
  pub bytes : ℕ
  pub stats : ExactCacheStats

abbrev pub fresh : Limits → ExactAssessmentCache
fresh cfg = record {
  cfg = cfg;
  entries = [];
  order = [];
  bytes = 0;
  stats = record {
    lookups = 0;
    hits = 0;
    misses = 0;
    admissions = 0;
    rejections = 0;
    evictions = 0;
  };
}

-- `NewExactAssessmentCache`; `none` where it fails.
unfoldable pub new_cache : ExactCacheConfig → Option ExactAssessmentCache
unfolding normalize validate_config
new_cache c = let cfg = normalize c in if validate_config cfg then some (fresh cfg) else none

-- `removeOrderLocked`: the first occurrence goes.
unfoldable pub remove_order : String → List String → List String
remove_order k [] = []
remove_order k (j ∷ ks) = let rest = remove_order k ks in if str_eq j k then ks else j ∷ rest

-- `touchLocked`
unfoldable pub touch : ExactAssessmentCache → String → ExactAssessmentCache
unfolding remove_order
touch c key = record c { order = remove_order key c.order ++ key ∷ [] }

-- `removeLocked`
unfoldable pub remove_locked : ExactAssessmentCache → String → ExactAssessmentCache
unfolding remove_order
remove_locked c key = elim (lookup key c.entries) [
  | none ↦ c
  | some ent ↦ record c {
    bytes = c.bytes - ent.size;
    entries = remove key c.entries;
    order = remove_order key c.order;
  }
]

abbrev pub reject : ExactAssessmentCache → ExactAssessmentCache
reject c = record c { stats = record (c.stats) { rejections = c.stats.rejections + 1 } }

abbrev pub count_eviction : ExactAssessmentCache → ExactAssessmentCache
count_eviction c = record c { stats = record (c.stats) { evictions = c.stats.evictions + 1 } }

-- The entry is past its expiry.
abbrev pub is_stale : CachedAssessment → ℕ → Bool
is_stale v now = elim v.expires_at [ none ↦ false | some t ↦ not (ltb now t) ]

-- `Get`
unfoldable pub get_cached :
    ExactAssessmentCache → String → ℕ → ExactAssessmentCache × Option CachedAssessment
unfolding remove_locked touch
get_cached c key now =
    let asked = record c { stats = record (c.stats) { lookups = c.stats.lookups + 1 } } in
    let missed = record asked {
      stats = record (asked.stats) { misses = asked.stats.misses + 1 };
    } in
    if not c.cfg.enabled || is_empty key then (c, none) else (elim (lookup key c.entries) [
      | none ↦ (missed, none)
      | some ent ↦
          if is_stale ent.val now then (count_eviction (remove_locked missed key), none) else (
            record (touch asked key) {
              stats = record (asked.stats) { hits = asked.stats.hits + 1 };
            },
            some ent.val,
          )
    ])

-- The entry of the key, if any, goes before a new one is admitted.
unfoldable pub without : ExactAssessmentCache → String → ExactAssessmentCache
unfolding remove_order
without c key = elim (lookup key c.entries) [
  | none ↦ c
  | some prev ↦ record c {
    bytes = c.bytes - prev.size;
    entries = remove key c.entries;
    order = remove_order key c.order;
  }
]

-- There is no room for `size` more bytes.
unfoldable pub is_over : ExactAssessmentCache → ℕ → Bool
is_over c size = leb c.cfg.max_entries (length c.entries) || ltb c.cfg.max_bytes (c.bytes + size)

-- One turn of the eviction loop of `Admit`: the oldest key goes while there is no room.
abbrev pub turn :
    List String
    → Bool
    → (String → ExactAssessmentCache)
    → ExactAssessmentCache
    → ExactAssessmentCache
turn [] over next c = c
turn (victim ∷ rest) over next c = if over then next victim else c

-- The eviction loop of `Admit`, on fuel.
unfoldable pub evict : ℕ → ExactAssessmentCache → ℕ → ExactAssessmentCache
unfolding is_over remove_locked
evict zero c size = c
evict (suc f) c size =
    turn c.order (is_over c size) (λ victim. evict f (count_eviction (remove_locked c victim)) size)
      c

abbrev schema_cached : String
schema_cached = "reinframe.cached_assessment.v1"

abbrev schema_raw : String
schema_raw = "reinframe.raw_assessment.v1"

-- `ValidateSeverity`
validate_severity : ℤ → Bool
validate_severity (pos n) = leb n 100
validate_severity _ = false

-- `ValidRawReasonCodes`
abbrev reason_codes : List String
reason_codes =
    "NORMAL_PROGRESS" ∷ "SCOPE_DRIFT" ∷ "VERIFICATION_CHURN" ∷ "REPEATED_FAILURE"
    ∷ "HYPOTHESIS_LOOP" ∷ "TOOL_BUDGET" ∷ "EVIDENCE_GAP" ∷ "OVER_SOP" ∷ "UNKNOWN" ∷ []

-- The text is in the list.
unfoldable pub mem : String → List String → Bool
mem k [] = false
mem k (j ∷ ks) = str_eq j k || mem k ks

-- `ValidateRawReasonCode`
validate_raw_reason_code : String → Bool
unfolding mem
validate_raw_reason_code code = mem code reason_codes

-- `validateCachedAssessment`; `true` where Go returns nil.
unfoldable pub validate_cached : CachedAssessment → Bool
unfolding validate_severity validate_raw_reason_code
validate_cached v =
    (is_empty v.schema_version || str_eq v.schema_version schema_cached)
    && str_eq v.assessment.schema_version schema_raw
    && (str_eq v.assessment.parse_status "ok" || is_empty v.assessment.parse_status)
    && not (
        str_eq v.provider_meta.parse_status "error"
        || str_eq v.provider_meta.parse_status "invalid")
    && is_empty v.provider_meta.error_class
    && is_empty v.provider_meta.fallback_reason
    && validate_severity v.assessment.severity
    && validate_raw_reason_code v.assessment.reason_code

-- The locked part of `Admit`.
unfoldable pub store :
    ExactAssessmentCache → String → CachedAssessment → ℕ → ExactAssessmentCache × Bool
unfolding without evict is_over
store c key val size =
    let kept = without c key in
    let roomy = evict (length kept.order) kept size in
    if is_over roomy size then (reject roomy, false) else (
      record roomy {
        entries =
            insert key (record { val = record val { key_hash = key }; size = size }) roomy.entries;
        order = roomy.order ++ key ∷ [];
        bytes = roomy.bytes + size;
        stats = record (roomy.stats) { admissions = roomy.stats.admissions + 1 };
      },
      true,
    )

-- `Admit`
unfoldable pub admit :
    ExactAssessmentCache → String → CachedAssessment → Option ℕ → ExactAssessmentCache × Bool
admit c key val size =
    if not c.cfg.enabled || is_empty key
    then (c, false)
    else if not (validate_cached val)
    then (reject c, false)
    else (elim size [
      | none ↦ (reject c, false)
      | some n ↦ if ltb c.cfg.max_bytes n then (reject c, false) else store c key val n
    ])
