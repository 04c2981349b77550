-- ===== src/Lib.antt =====
-- Verification of reinframe, a supervisor that watches a coding agent, detects when it is stuck in a
-- tunnel, and intervenes: by denying or deferring tool calls, and by advice that is delivered at the
-- next safe boundary of a turn.
--
-- The parts and how they interact. Events of the agent go through the detectors (pkg/detector), each
-- of which keeps counters per session and may send a tunnel signal. The slow policy turns a signal
-- into an intervention, after asking a reviewer where it is in doubt; the supervisor queues it, and
-- latches it for its session until it is answered. The router chooses the lane, and so the bill, of a
-- call to a language model. The advisory delivery (pkg/adapter/advisory_delivery.go) queues an
-- intervention, hands it to the host's actuator once, records what the host answered in a durable
-- ledger, and accepts acknowledgements. The hook gate (pkg/adapter/hook_gate.go) decides each tool
-- call, and defers while an advisory is pending. A denied agent may be given a challenge, whose state
-- the challenge store keeps (pkg/challenge/store.go); the challenge service lets it be justified and the
-- action be tried again, once (pkg/challenge/service.go). Assessments of language models are kept in an exact
-- cache (pkg/classifier/exact_cache.go).
--
-- The files.
-- - Prelude and its children: Boolean tests, lists, texts, Go's maps and integers.
-- - Detector.Fingerprint: pkg/detector/fingerprint.go. NormalizeFingerprint is normalize_fingerprint.
-- - Detector.Signal: AgentEvent, ToolCallEvent, TestResultEvent and TunnelSignal of
--   pkg/protocol/schema.go, as far as the detectors read and write them.
-- - Detector.RepeatedFailure: pkg/detector/repeated_failure.go. Observe, ObserveRaw, Count and
--   ResetSession are observe, observe_raw, count and reset_session.
-- - Detector.ToolBudget: pkg/detector/tool_budget.go. ObserveWithBudget, recordTool, MarkProgress,
--   ToolCount, ToolsSinceProgress and ResetSession under the same words.
-- - Detector.VerificationChurn: pkg/detector/verification_churn.go. Observe, recordSuccessIfNeeded,
--   ResetSession and ValidationFingerprint under the same words.
-- - Detector.HypothesisLoop: pkg/detector/hypothesis_loop.go. Observe, Count and ResetSession are
--   observe, count and reset_session.
-- - Adapter.Proposed: FullSuiteCommand of pkg/adapter/proposed_action.go as full_suite_command, with
--   isFullSuiteText, goTestHasAlteringFlags and isShellIdent under the same words.
-- - Policy.BeforeTool: pkg/policy/before_tool.go. EvaluateBeforeTool is evaluate_before_tool,
--   shouldDenyDisproportionate is should_deny_disproportionate.
-- - Policy.Slow: EvaluateSlow of pkg/policy/policy.go as evaluate_slow. The reviewer is a function.
-- - Policy.Router: pkg/policy/router.go. ResolveRoute, resolveRouteLocked, resolveSubscriptionLane,
--   resolveAPIResponsesLane and ResolveFallback under the same words, in Policy.Router.Resolve and
--   Policy.Router.Lanes.
-- - Protocol.Catalog: the lookups of pkg/protocol/model_catalog.go. Protocol.Contract: TaskContract and
--   EvidenceLedger of pkg/protocol/schema.go, as far as the policy reads them.
-- - Supervisor.Orchestrator: pkg/supervisor/orchestrator.go. HandleEvent, EvaluatePreTool,
--   DeliverAtSafeBoundary and Acknowledge are handle_event, evaluate_pre_tool,
--   deliver_at_safe_boundary and acknowledge_intervention, over the models of the other packages.
-- - Adapter.HookGate: pkg/adapter/hook_gate.go. EvaluateHook is evaluate_hook, over a Schedule that
--   says what the contexts and the channels do; evaluateHookRules is evaluate_hook_rules.
-- - Adapter.Delivery: the constants and records of pkg/adapter/result.go, the layers of
--   pkg/adapter/grok_acp.go, DefaultDeliveryMode of pkg/adapter/actuator.go.
-- - Adapter.PendingQueue: pkg/adapter/pending_queue.go. Enqueue, Get, NextPending, UpdateState and
--   PendingAdvisoryID are enqueue, get, next_pending, update_state and pending_advisory_id.
-- - Adapter.Ledger: pkg/adapter/durable_advice_ledger.go. OpenDurableAdviceLedger, Append,
--   MarkAmbiguousSuppress, AlreadyDeliveredKey and RecordResultWithSource are open_ledger, append,
--   mark_ambiguous_suppress, already_delivered_key and record_result. Adapter.Markers has its marker files:
--   loadMarkerFile, tryParseLegacyPipeKey and the promotion and migration of markers.
-- - Adapter.Boundary: pkg/adapter/delivery_boundary.go, and mapResultToState.
-- - Adapter.Acknowledge: pkg/adapter/acknowledge.go.
-- - Adapter.Advisory: pkg/adapter/advisory_delivery.go. Enqueue is submit, DeliverPending is
--   deliver_pending; Acknowledge and AcknowledgeSource are in Adapter.Advisory.Acks.
-- - Classifier.ExactCache: the store of pkg/classifier/exact_cache.go. Get and Admit are get_cached and
--   admit.
-- - Challenge.States: the states of pkg/challenge/types.go, and isTerminal and validateTransition of
--   pkg/challenge/store.go.
-- - Challenge.Store: pkg/challenge/store.go. putLocked, appendTransitionAudit, ActiveByFingerprint,
--   markNonAppealBarrierLocked and nonAppealBarrierNoteLocked are put, append_transition,
--   active_by_fingerprint, mark_barrier and barrier_note.
-- - Challenge.Service: pkg/challenge/service.go. Justify, Abandon, ExpireDue and expireIfNeeded under the
--   same words; Open in Challenge.Service.Opening, AttemptRetry in Challenge.Service.Retry as enter
--   and begin, and in its child Settle as settle and cancel, one function for each part that holds the
--   lock of the store.
-- - Challenge.Justification: pkg/challenge/justification.go, ValidateJustification, HashJustification and
--   what Justify does with them. The digest is an argument.
-- - Challenge.Projector: ApplyEvent of pkg/challenge/projector.go and Replay of pkg/challenge/store.go, as
--   apply_event and replay.
-- A child of a component's module holds its proofs, and the modules called Tests hold runs on small
-- inputs.
--
-- State. An object behind a mutex is a record, each locked call a function from the record to the new
-- record and the answer. Clocks, file systems, actuators and alerters are arguments that say what they
-- answer. A Go string with a fixed set of values is a data type with a constructor for any other
-- text, except the state of a challenge, which only the service writes.
-- Times are numbers. Counters are natural numbers, the sequence numbers of the detectors modulo 2^64;
-- the counters that Go keeps in an int, and the sums of times, are taken not to overflow.
--
-- Fuel. Only the eviction loop of Admit runs on fuel, as much as the LRU order is long; one turn takes
-- one key out of the order, and the proofs show that the loop ends because there is room. All other
-- loops run over lists. The number printer runs on the number itself.
--
-- Not modelled. Of the ledger: marker bodies of older versions, symbolic links, the byte cursor. Of the
-- cache: the key hash, the goroutines of the singleflight, the provider around it. The hosts, the
-- providers, the SQL store, the workspace, the commands and the evaluation are input and output. The
-- fingerprints of challenged actions, the replay that starts from a stored record, the negotiation of
-- capabilities and the configuration are not modelled.
pub mod Policy
pub mod Prelude
pub mod Detector
pub mod Adapter
pub mod Classifier
pub mod Challenge
pub mod Protocol
pub mod Supervisor
