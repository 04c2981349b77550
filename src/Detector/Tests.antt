-- ===== src/Detector/Tests.antt =====
-- Runs of the detectors of pkg/detector on small inputs.
use reinframe.Prelude.{
  Char, not, ◌&&◌, ◌||◌, is_empty, show_ℤ, itoa, code, Bool-cases, inl, inr, ◌==◌, true, false,
  List, [], ◌∷◌, pos, ◌≡◌, refl, if◌then◌else◌, arith,
}
use reinframe.Detector.Fingerprint.{
  normalize_fingerprint, trim_space, collapse, map_chars, IsCasing, is_space, is_space_code,
}
use reinframe.Detector.Fingerprint.Normal.{IsNormal, normalize-IsNormal_idem}
use reinframe.Detector.RepeatedFailure.{new, count_of, observe_raw}
use reinframe.Detector.RepeatedFailure.History.{
  Call, failure, reset, run, tally_all, tally, sends, run-tally,
}
use reinframe.Detector.HypothesisLoop
use reinframe.Detector.HypothesisLoop.Entries
use reinframe.Detector.HypothesisLoop.Evidence
use reinframe.Detector.HypothesisLoop.Streak
use reinframe.Detector.ToolBudget
use reinframe.Detector.ToolBudget.{tools_since_progress, tool_count, record_tool}
use reinframe.Detector.ToolBudget.Window
use reinframe.Detector.ToolBudget.Window.{fold, window, total}
use reinframe.Detector.VerificationChurn
use reinframe.Detector.VerificationChurn.{
  ValidationAttempt, validation_fingerprint, is_no_validation, is_exempt, observe as observe_churn,
}
use reinframe.Detector.VerificationChurn.Successes
use reinframe.Detector.VerificationChurn.Successes.{sends as sends_churn, proven_all}

-- Two tools, progress, two tools without a session, and one more.
abbrev tools : List Window.Call
tools =
    Window.tool "s" "Bash" "a" (pos 0) 1
    ∷ Window.tool "s" "Edit" "b" (pos 0) 2
    ∷ Window.progress "s"
    ∷ Window.tool "" "Edit" "c" (pos 0) 3
    ∷ Window.tool "s" "Edit" "d" (pos 0) 4
    ∷ []

run-window_example :
    (tools_since_progress (Window.run (ToolBudget.new (pos 9)) tools) "s" ≡ 1)
    × ((tool_count (Window.run (ToolBudget.new (pos 9)) tools) "s" ≡ 3)
        × (Window.sends
              (record_tool (Window.run (ToolBudget.new (pos 9)) tools) "s" "Bash" "e" (pos 2) 5).1
            ≡ true))
unfolding fold window total
run-window_example = Window.run-window (pos 9) tools "s" "Bash" "e" (pos 2) 5

-- Lower-casing of one letter.
abbrev lower_e : Char → Char
lower_e c = if code c == 69 then "e" else c

lower_e-lower_e : (c : Char) → lower_e (lower_e c) ≡ lower_e c
lower_e-lower_e c = elim (Bool-cases (code c == 69)) [ inl e ↦ rw e refl | inr e ↦ rw (e, e) refl ]

is_space-lower_e : (c : Char) → is_space (lower_e c) ≡ is_space c
unfolding is_space is_space_code
is_space-lower_e c = elim (Bool-cases (code c == 69)) [
  | inl e ↦ (let k : code c ≡ 69 = ground arith in rw (e, k) refl)
  | inr e ↦ rw e refl
]

lower_e-IsCasing : IsCasing lower_e
lower_e-IsCasing = record {
  lower_idem = lower_e-lower_e;
  lower-is_space = is_space-lower_e;
  lower_space = refl;
}

normalize-IsNormal_idem_example :
    IsNormal lower_e "an e here" × (normalize_fingerprint lower_e "an e here" ≡ "an e here")
unfolding normalize_fingerprint trim_space collapse map_chars is_space
normalize-IsNormal_idem_example = normalize-IsNormal_idem lower_e lower_e-IsCasing "  an  E here "

-- Two failures, a reset, and two more.
abbrev history : List Call
history =
    failure "s" "E 1" "a" 1
    ∷ reset "s"
    ∷ failure "s" "E 1" "b" 2
    ∷ failure "other" "E 1" "c" 3
    ∷ failure "s" " e  1" "d" 4
    ∷ []

run-tally_example :
    (count_of (run lower_e (new (pos 3)) history) "s" "e 1" ≡ 2)
    × (sends (observe_raw lower_e (run lower_e (new (pos 3)) history) "s" "E 1" "x" 5).1 ≡ true)
unfolding normalize_fingerprint trim_space collapse map_chars tally_all tally is_space
run-tally_example = run-tally lower_e (pos 3) history "s" "E 1" "x" 5

abbrev go_test : ValidationAttempt
go_test = record {
  command = "go test ";
  target_scope = "./pkg" ∷ "" ∷ [];
  workspace_rev = "r1";
  contract_revision = pos 2;
  purpose = "verify";
  succeeded = true;
  flaky_investigation = false;
  policy_requires_rerun = false;
  high_risk_independent = false;
  workspace_changed = false;
}

go_test-fingerprint :
    validation_fingerprint lower_e go_test ≡ "cmd=go test|scope=./pkg|ws=r1|crev=2|purpose=verify"
unfolding validation_fingerprint normalize_fingerprint trim_space collapse map_chars is_space
    is_space_code show_ℤ itoa
go_test-fingerprint = refl

run-proven_example :
    sends_churn
      (observe_churn lower_e
        (Successes.run lower_e VerificationChurn.new (Successes.attempt "s" go_test 1 ∷ []))
        "s"
        go_test
        2).1
    ≡ (not (is_empty "s" || is_no_validation lower_e go_test)
        && not (is_exempt go_test)
        && true
        && proven_all lower_e "s"
            (validation_fingerprint lower_e go_test)
            false
            (Successes.attempt "s" go_test 1 ∷ []))
run-proven_example =
    Successes.run-proven lower_e (Successes.attempt "s" go_test 1 ∷ []) "s" go_test 2

abbrev bare : HypothesisLoop.HypothesisObservation
bare = record { statement = "leak  E"; evidence_ids = [] }

abbrev backed : HypothesisLoop.HypothesisObservation
backed = record { statement = " leak e"; evidence_ids = "a.go" ∷ " " ∷ "b.go" ∷ [] }

-- Two statements, one with evidence, a reset of another session, the same evidence again.
abbrev statements : List Streak.Call
statements =
    Streak.state "s" bare 1
    ∷ Streak.state "s" bare 2
    ∷ Streak.state "s" backed 3
    ∷ Streak.reset "t"
    ∷ Streak.state "s" backed 4
    ∷ []

run-streak_example :
    (HypothesisLoop.count_of
        (Streak.run lower_e (HypothesisLoop.new (pos 0)) statements)
        "s"
        "leak e"
      ≡ 2)
    × (Entries.sends
          (HypothesisLoop.observe lower_e
            (Streak.run lower_e (HypothesisLoop.new (pos 0)) statements)
            "s"
            bare
            5).1
        ≡ true)
unfolding normalize_fingerprint trim_space collapse map_chars is_space Streak.watch_all Streak.watch
    Streak.regards Streak.stated Streak.start Evidence.names Evidence.brings_new
run-streak_example = Streak.run-streak lower_e (pos 0) statements "s" bare 5
