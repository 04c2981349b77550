-- ===== src/Detector/VerificationChurn.antt =====
-- pkg/detector/verification_churn.go: per session, the fingerprints of the validations that have
-- succeeded. The clock is an argument; the mutex makes each call one step. `lower` is the parameter of
-- the fingerprints.
pub mod Successes
use reinframe.Prelude.{
  ℕ, zero, suc, String, Char, Bool, true, false, not, ◌&&◌, ◌||◌, Option, none, some, List, [], ◌∷◌,
  ℤ, show_ℤ, itoa, ◌⧺◌, Map, lookup, insert, remove, lookup_or, is_empty, str_eq, if◌then◌else◌,
}
use reinframe.Detector.Fingerprint.{normalize_fingerprint, trim_space}
use reinframe.Detector.Signal.{TunnelSignal, next_u64}
use text.Mathlib.Text.{starts_with}

pub record ValidationAttempt : Type 0 where
  pub command : String
  pub target_scope : List String
  pub workspace_rev : String
  pub contract_revision : ℤ
  pub purpose : String
  pub succeeded : Bool
  pub flaky_investigation : Bool
  pub policy_requires_rerun : Bool
  pub high_risk_independent : Bool
  pub workspace_changed : Bool

-- A session is its map `lastSuccess`.
pub record VerificationChurnDetector : Type 0 where
  pub sessions : Map (Map Bool)
  pub seq : ℕ

-- `NewVerificationChurnDetector`
unfoldable pub new : VerificationChurnDetector
new = record { sessions = []; seq = 0 }

-- `lastSuccess[fp]` of a session, false where it has none.
abbrev pub has_succeeded : VerificationChurnDetector → String → String → Bool
has_succeeded d s fp = lookup_or false fp (lookup_or [] s d.sessions)

-- `ss.lastSuccess[fp] = true`
abbrev pub add_success : VerificationChurnDetector → String → String → VerificationChurnDetector
add_success d s fp = record d {
  sessions = insert s (insert fp true (lookup_or [] s d.sessions)) d.sessions;
}

-- The session, created where it is missing.
abbrev pub touch_session : VerificationChurnDetector → String → VerificationChurnDetector
touch_session d s = record d { sessions = insert s (lookup_or [] s d.sessions) d.sessions }

-- `recordSuccessIfNeeded`
unfoldable pub record_success_if_needed :
    VerificationChurnDetector → String → String → ValidationAttempt → VerificationChurnDetector
record_success_if_needed d s fp a =
    if not a.succeeded
    then d
    else if a.workspace_changed
    then record d { sessions = insert s (insert fp true []) d.sessions }
    else add_success d s fp

-- `ResetSession`
unfoldable pub reset_session : VerificationChurnDetector → String → VerificationChurnDetector
reset_session d s = record d { sessions = remove s d.sessions }

-- `strings.Join(parts, ",")`
join_commas : List String → String
join_commas [] = ""
join_commas (p ∷ []) = p
join_commas (p ∷ q ∷ ps) = p ⧺ "," ⧺ join_commas (q ∷ ps)

abbrev pub is_exempt : ValidationAttempt → Bool
is_exempt a =
    a.flaky_investigation || a.policy_requires_rerun || a.high_risk_independent
    || a.workspace_changed

module _ (lower : Char → Char) where
  scope_parts : List String → List String
  scope_parts [] = []
  scope_parts (s ∷ ss) =
      let rest = scope_parts ss in
      let part = normalize_fingerprint lower s in if is_empty part then rest else part ∷ rest

  -- `normalizeScope`
  normalize_scope : List String → String
  unfolding scope_parts join_commas
  normalize_scope scope = join_commas (scope_parts scope)

  -- `ValidationFingerprint`
  unfoldable pub validation_fingerprint : ValidationAttempt → String
  unfolding normalize_scope
  validation_fingerprint a =
      "cmd="
      ⧺ normalize_fingerprint lower a.command
      ⧺ "|scope="
      ⧺ normalize_scope a.target_scope
      ⧺ "|ws="
      ⧺ trim_space a.workspace_rev
      ⧺ "|crev="
      ⧺ show_ℤ a.contract_revision
      ⧺ "|purpose="
      ⧺ normalize_fingerprint lower a.purpose

  signal_of : ℕ → String → String → ValidationAttempt → ℕ → TunnelSignal
  signal_of seq s fp a now = record {
    signal_id = "sig-vc-" ⧺ itoa seq;
    session_id = s;
    detector_name = "VerificationChurnDetector";
    failure_mode = "verification_churn";
    weight = 30;
    score = 100;
    details =
        ("fingerprint", fp)
        ∷ ("command", normalize_fingerprint lower a.command)
        ∷ ("workspace_rev", trim_space a.workspace_rev)
        ∷ ("contract_revision", show_ℤ a.contract_revision)
        ∷ ("purpose", normalize_fingerprint lower a.purpose)
        ∷ [];
    triggered_at = now;
  }

  -- The locked part of `Observe`.
  unfoldable pub observe_locked :
      VerificationChurnDetector
      → String
      → String
      → ValidationAttempt
      → ℕ
      → VerificationChurnDetector × Option TunnelSignal
  unfolding signal_of
  observe_locked d s fp a now =
      let seq = next_u64 d.seq in
      if a.succeeded && has_succeeded d s fp
      then (record (touch_session d s) { seq = seq }, some (signal_of seq s fp a now))
      else if a.succeeded
      then (add_success d s fp, none)
      else (touch_session d s, none)

  -- The attempt has no command, and so is no validation.
  unfoldable pub is_no_validation : ValidationAttempt → Bool
  is_no_validation a =
      (starts_with (validation_fingerprint a) "cmd=|" || is_empty a.command)
      && is_empty (normalize_fingerprint lower a.command)

  -- `Observe`
  unfoldable pub observe :
      VerificationChurnDetector
      → String
      → ValidationAttempt
      → ℕ
      → VerificationChurnDetector × Option TunnelSignal
  observe d s a now =
      let fp = validation_fingerprint a in
      if is_empty s || is_no_validation a
      then (d, none)
      else if is_exempt a
      then (record_success_if_needed d s fp a, none)
      else observe_locked d s fp a now
