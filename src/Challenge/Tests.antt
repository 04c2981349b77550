-- ===== src/Challenge/Tests.antt =====
-- Runs of the store of pkg/challenge on small inputs.
use reinframe.Prelude.{
  eq_iff, String, true, false, ◌||◌, none, some, List, [], ◌∷◌, lookup, insert, ◌≡◌, ◌≢◌, refl,
  arith, ◌<◌, ◌≤◌,
}
use reinframe.Challenge.States.{
  ChallengeState, opened, justified, retry_pending, allowed_once, is_terminal, is_active,
  validate_transition,
}
use reinframe.Challenge.States.Paths.{Walk, stay, go, Visits, walks}
use reinframe.Challenge.Store.{
  Decision, ChallengeRecord, ChallengeEvent, Store, BarrierEntry, Opening, new_store, put,
  mark_barrier, barrier_note, expire_others,
}
use reinframe.Challenge.Store.Single.{Call, write, run, single_active}
use reinframe.Challenge.Store.Barriers.{same_policy, barrier_holds}

-- OPEN, JUSTIFIED, RETRY_PENDING, ALLOWED_ONCE.
allowed-Walk : Walk opened (justified ∷ retry_pending ∷ allowed_once ∷ []) allowed_once
unfolding validate_transition
allowed-Walk = go opened justified allowed_once _ refl (
    go justified retry_pending allowed_once _ refl
      (go retry_pending allowed_once allowed_once _ refl (stay allowed_once)))

walks_example :
    (is_terminal opened ≡ true → allowed_once ≡ opened)
    × (opened ≡ opened
        → allowed_once ≡ allowed_once
        → Visits justified (justified ∷ retry_pending ∷ allowed_once ∷ [])
          × Visits retry_pending (justified ∷ retry_pending ∷ allowed_once ∷ []))
walks_example = walks allowed-Walk

abbrev challenge : String → ChallengeRecord
challenge id = record {
  challenge_id = id;
  challenge_nonce = "n";
  suggested_fix = "";
  session_id = "s";
  action_fingerprint = "fp";
  original_action_id = "a";
  policy_class = "PRODUCTIVITY";
  block_class = "OVER_SOP";
  reason_code = "BLOCK";
  required_claims = [];
  retry_budget = 1;
  retry_budget_initial = 1;
  state = opened;
  appealability = "APPEALABLE";
  intervention = "APPEALABLE_CHALLENGE";
  stage2_decision = Decision.block;
  workspace_revision = "";
  contract_revision = 0;
  branch = "";
  side_effect_class = "test_suite";
  target_resources = [];
  policy_version = "";
  ruleset_hash = "";
  policy_hash = "";
  justification_hash = "";
  consumed_retry_key = "";
  operation_digest = "";
  expires_at_sequence = 0;
  created_sequence = 1;
  updated_sequence = 1;
  provider_call_audit_id = "";
  created_at = 5;
  updated_at = 5;
}

abbrev opening_event : String → ChallengeEvent
opening_event id = record {
  sequence = 1;
  challenge_id = id;
  session_id = "s";
  kind = "opened";
  from_state = ChallengeState.unset;
  to_state = opened;
  correlation_id = "";
  causation_id = "";
  payload_hash = "";
  provider_call_audit_id = "";
  note = "";
  at = 5;
}

-- Two challenges of one action.
abbrev twice : List Call
twice =
    write (challenge "a") (opening_event "a") none
    ∷ write (challenge "b") (opening_event "b") none
    ∷ []

abbrev first_id : String
first_id = "a"

abbrev second_id : String
second_id = "b"

ids_differ : first_id ≢ second_id
ids_differ e = ground (arith, eq_iff "a" "b", e)

single_active_example : (is_terminal ChallengeState.expired || is_terminal opened) ≡ true
unfolding run put is_active lookup expire_others insert is_terminal
single_active_example =
    single_active twice "a" "b" (record (challenge "a") { state = ChallengeState.expired })
      (challenge "b") (refl, (refl, tt)) refl refl ids_differ refl refl

abbrev denial : BarrierEntry
denial = record {
  note = "hard_deny";
  policy_version = "v1";
  ruleset_hash = "h1";
  mark_seq = 0;
  side_effect_class = "delete_tree";
  target_resources = "/data" ∷ [];
  operation_digest = "rm";
}

abbrev request : Opening
request = record {
  session = "s";
  fingerprint = "fp";
  policy = "v2";
  rules = "h1";
  ticket = 0;
  side = "delete_tree";
  targets = "/data" ∷ [];
  digest = "";
}

abbrev after_denial : Store
after_denial = run (mark_barrier new_store "s" "fp" denial) twice

barrier_holds_example :
    (same_policy denial request ≡ true → barrier_note after_denial request ≡ some "hard_deny")
    × ((0 ≤ 0 → (note : String) × (barrier_note after_denial request ≡ some note))
        × (same_policy denial request ≡ false
            → 0 < 0
            → true ≡ true
            → barrier_note after_denial request ≡ none))
barrier_holds_example = barrier_holds new_store denial twice request (tt, (tt, tt))
