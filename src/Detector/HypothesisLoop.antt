-- ===== src/Detector/HypothesisLoop.antt =====
-- pkg/detector/hypothesis_loop.go: per session and fingerprint of a stated conclusion, the evidence
-- attached so far and the number of observations in a row without new evidence. The clock is an
-- argument; the mutex makes each call one step. `lower` is the parameter of the fingerprints.
pub mod Evidence
pub mod Entries
pub mod Streak
use reinframe.Prelude.{
  ℕ, suc, ◌+◌, String, Char, Bool, true, false, ◌||◌, Option, none, some, List, [], ◌∷◌, ℤ,
  positive_or, itoa, ◌⧺◌, Map, lookup, insert, remove, lookup_or, is_empty, ltb, length,
  if◌then◌else◌,
}
use reinframe.Detector.Fingerprint.{normalize_fingerprint, trim_space}
use reinframe.Detector.Signal.{TunnelSignal, next_u64}

abbrev pub default_threshold : ℕ
default_threshold = 3

-- `map[string]struct{}`
abbrev pub IdSet : Type 0
IdSet = Map Unit

-- `HypothesisObservation`
pub record HypothesisObservation : Type 0 where
  pub statement : String
  pub evidence_ids : List String

pub record HypothesisSession : Type 0 where
  pub counts : Map ℕ
  pub seen_evidence : Map IdSet

pub record HypothesisLoopDetector : Type 0 where
  pub threshold : ℕ
  pub sessions : Map HypothesisSession
  pub seq : ℕ

-- `NewHypothesisLoopDetector`
unfoldable pub new : ℤ → HypothesisLoopDetector
new threshold = record {
  threshold = positive_or default_threshold threshold;
  sessions = [];
  seq = 0;
}

abbrev pub empty_session : HypothesisSession
empty_session = record { counts = []; seen_evidence = [] }

-- `_, ok := seen[id]`
abbrev pub has : IdSet → String → Bool
has seen id = elim (lookup id seen) [ none ↦ false | some _ ↦ true ]

-- One turn of the loop over the evidence: the set, and whether it has gained an element.
unfoldable pub attach_one : IdSet × Bool → String → IdSet × Bool
attach_one found raw =
    let id = trim_space raw in
    if is_empty id || has found.0 id then found else (insert id tt found.0, true)

unfoldable pub attach : IdSet × Bool → List String → IdSet × Bool
unfolding attach_one
attach found [] = found
attach found (raw ∷ ids) = attach (attach_one found raw) ids

signal_of : HypothesisLoopDetector → String → String → ℕ → ℕ → ℕ → TunnelSignal
signal_of d session_id fp count evidence_seen now = record {
  signal_id = "sig-hl-" ⧺ itoa d.seq;
  session_id = session_id;
  detector_name = "HypothesisLoopDetector";
  failure_mode = "hypothesis_loop";
  weight = 30;
  score = 100;
  details =
      ("fingerprint", fp)
      ∷ ("count", itoa count)
      ∷ ("threshold", itoa d.threshold)
      ∷ ("evidence_seen", itoa evidence_seen)
      ∷ [];
  triggered_at = now;
}

-- The detector after the session's maps have at `fp` the set `seen` and the count `n`.
unfoldable pub set_entry :
    HypothesisLoopDetector → String → String → IdSet → ℕ → HypothesisLoopDetector
set_entry d session_id fp seen n =
    let ss = lookup_or empty_session session_id d.sessions in
    record d {
      sessions =
          insert session_id
            (record {
              counts = insert fp n ss.counts;
              seen_evidence = insert fp seen ss.seen_evidence;
            })
            d.sessions;
    }

-- `ss.counts[fp]` and `ss.seenEvidence[fp]` of the session `session_id`
unfoldable pub count_of : HypothesisLoopDetector → String → String → ℕ
count_of d session_id fp =
    let ss = lookup_or empty_session session_id d.sessions in lookup_or 0 fp ss.counts

unfoldable pub evidence_of : HypothesisLoopDetector → String → String → IdSet
evidence_of d session_id fp =
    let ss = lookup_or empty_session session_id d.sessions in lookup_or [] fp ss.seen_evidence

-- The locked part of `Observe`.
unfoldable pub observe_locked :
    HypothesisLoopDetector
    → String
    → String
    → List String
    → ℕ
    → HypothesisLoopDetector × Option TunnelSignal
unfolding set_entry count_of evidence_of attach signal_of
observe_locked d session_id fp ids now =
    let found = attach (evidence_of d session_id fp, false) ids in
    let count = count_of d session_id fp + 1 in
    let counted = set_entry d session_id fp found.0 count in
    let fired = record counted { seq = next_u64 d.seq } in
    if found.1
    then (set_entry d session_id fp found.0 1, none)
    else if ltb count d.threshold
    then (counted, none)
    else (fired, some (signal_of fired session_id fp count (length found.0) now))

-- `ResetSession`
unfoldable pub reset_session : HypothesisLoopDetector → String → HypothesisLoopDetector
reset_session d session_id = record d { sessions = remove session_id d.sessions }

module _ (lower : Char → Char) where
  -- `Observe`
  unfoldable pub observe :
      HypothesisLoopDetector
      → String
      → HypothesisObservation
      → ℕ
      → HypothesisLoopDetector × Option TunnelSignal
  unfolding observe_locked
  observe d session_id obs now =
      let fp = normalize_fingerprint lower obs.statement in
      if is_empty session_id || is_empty fp
      then (d, none)
      else observe_locked d session_id fp obs.evidence_ids now

  -- `Count` normalizes the text it is asked for.
  unfoldable pub count : HypothesisLoopDetector → String → String → ℕ
  unfolding count_of
  count d session_id raw = count_of d session_id (normalize_fingerprint lower raw)
