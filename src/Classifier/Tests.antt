-- ===== src/Classifier/Tests.antt =====
-- Runs of the store of pkg/classifier/exact_cache.go on small inputs.
use reinframe.Prelude.{◌≤◌, true, false, some, List, [], ◌∷◌, length, pos, negsuc, ◌≡◌, refl, arith}
use reinframe.Classifier.ExactCache.{
  ExactCacheConfig, CachedAssessment, ExactAssessmentCache, normalize, validate_config, new_cache,
  fresh, admit, get_cached, validate_cached,
}
use reinframe.Classifier.ExactCache.Linked.{IsLinked}
use reinframe.Classifier.ExactCache.Calls.{Call, ask, offer, calls, fresh-IsSound, bounded}
use reinframe.Classifier.ExactCache.Admission.{admit-get}

abbrev config : ExactCacheConfig
config = record {
  enabled = true;
  max_entries = pos 2;
  max_bytes = pos 2000;
  ttl = negsuc 0;
  singleflight = false;
}

abbrev cache : ExactAssessmentCache
cache = fresh (normalize config)

abbrev value : CachedAssessment
value = record {
  schema_version = "";
  assessment = record {
    schema_version = "reinframe.raw_assessment.v1";
    severity = pos 40;
    reason_code = "OVER_SOP";
    evidence_event_ids = [];
    model_id = "m";
    model_version = "1";
    prompt_hash = "p";
    ruleset_id = "r";
    ruleset_hash = "h";
    parse_status = "ok";
    latency_ms = pos 5;
  };
  source_audit_id = "a";
  provider_meta = record {
    provider_request_id = "q";
    parse_status = "ok";
    fallback_reason = "";
    error_class = "";
  };
  created_at = 1;
  expires_at = some 50;
  cache_key_version = "v1";
  key_hash = "";
}

-- Three values for two places, and a lookup after the expiry.
abbrev session : List Call
session =
    offer "a" value (some 900)
    ∷ offer "b" value (some 900)
    ∷ ask "a" 10
    ∷ offer "c" value (some 900)
    ∷ ask "c" 60
    ∷ []

new_config : new_cache config ≡ some cache
unfolding new_cache validate_config normalize
new_config = refl

value_valid : validate_cached value ≡ true
unfolding validate_cached
value_valid = refl

bounded_example :
    IsLinked (calls cache session).entries (calls cache session).order (calls cache session).bytes
    × ((length (calls cache session).entries ≤ 2) × ((calls cache session).bytes ≤ 2000))
unfolding normalize
bounded_example = bounded config cache session new_config

admit-get_example :
    ((admit cache "k" value (some 700)).1 ≡ true)
    × ((get_cached (admit cache "k" value (some 700)).0 "k" 49).1
        ≡ some (record value { key_hash = "k" }))
unfolding normalize
admit-get_example =
    admit-get cache "k" value 700 49 (fresh-IsSound (normalize config)) refl (omega arith) refl
      value_valid (omega arith) refl
