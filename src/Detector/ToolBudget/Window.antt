-- ===== src/Detector/ToolBudget/Window.antt =====
-- The counters of pkg/detector/tool_budget.go against the history of the calls.
use reinframe.Prelude.{
  ℕ, suc, ◌+◌, String, Bool, true, false, not, ◌&&◌, Option, none, some, List, [], ◌∷◌, ℤ,
  positive_or, lookup, insert, lookup_or, lookup_or-insert, lookup-remove, is_empty, str_eq, ltb,
  leb, if◌then◌else◌, ◌≡◌, refl, arith, ◌∙◌, Bool-cases, if_keeps, eq_iff, ap, ap₂, Map, inl, inr,
}
use reinframe.Detector.Signal.{TunnelSignal}
use reinframe.Detector.ToolBudget.{
  ToolBudgetChurnDetector, ToolBudgetSession, no_calls, session_of, new, mark_progress, tool_count,
  tools_since_progress, reset_session, record_tool, budget, default_max_tool_calls,
}

-- A call that changes the detector.
pub data Call : Type 0 where
  tool : (session_id tool_name source_id : String) (max : ℤ) (now : ℕ) → Call
  progress : (session_id : String) → Call
  reset : (session_id : String) → Call

unfoldable pub step : ToolBudgetChurnDetector → Call → ToolBudgetChurnDetector
step d (tool s name src max now) = (record_tool d s name src max now).0
step d (progress s) = mark_progress d s
step d (reset s) = reset_session d s

unfoldable pub run : ToolBudgetChurnDetector → List Call → ToolBudgetChurnDetector
unfolding step
run d [] = d
run d (c ∷ cs) = run (step d c) cs

-- The specification: the tool calls of a session since its last progress or reset, and since its
-- last reset.
unfoldable pub window : String → ℕ → Call → ℕ
window s' n (tool s name src max now) = if not (is_empty s) && str_eq s s' then suc n else n
window s' n (progress s) = if not (is_empty s) && str_eq s s' then 0 else n
window s' n (reset s) = if str_eq s s' then 0 else n

unfoldable pub total : String → ℕ → Call → ℕ
total s' n (tool s name src max now) = if not (is_empty s) && str_eq s s' then suc n else n
total s' n (progress s) = n
total s' n (reset s) = if str_eq s s' then 0 else n

unfoldable pub fold : (ℕ → Call → ℕ) → ℕ → List Call → ℕ
fold f n [] = n
fold f n (c ∷ cs) = fold f (f n c) cs

abbrev bumped : ToolBudgetSession → ToolBudgetSession
bumped ss = record ss {
  tool_calls = ss.tool_calls + 1;
  tools_since_progress = ss.tools_since_progress + 1;
}

abbrev Kept : Map ToolBudgetSession → ToolBudgetChurnDetector × Option TunnelSignal → Type 0
Kept m r = r.0.sessions ≡ m

-- A session is replaced by what `f` makes of it.
session-update :
    (f : ToolBudgetSession → ToolBudgetSession) (d : ToolBudgetChurnDetector) (s s' : String)
    → lookup_or no_calls s' (insert s (f (session_of d s)) d.sessions)
      ≡ (if str_eq s s' then f (session_of d s') else session_of d s')
session-update f d s s' = elim (Bool-cases (str_eq s s')) [
  | inl e ↦
      let same : s ≡ s' = ground (arith, eq_iff s s') in
      lookup_or-insert no_calls s s' (f (session_of d s)) d.sessions ∙ rw (e, same) refl
  | inr e ↦ lookup_or-insert no_calls s s' (f (session_of d s)) d.sessions ∙ rw e refl
]

abbrev cleared : ToolBudgetSession → ToolBudgetSession
cleared ss = record ss { progress_hits = ss.progress_hits + 1; tools_since_progress = 0 }

-- The sessions after a tool call, whether or not a signal is sent.
sessions-record_tool :
    (d : ToolBudgetChurnDetector) (s name src : String) (max : ℤ) (now : ℕ)
    → is_empty s ≡ false
    → (record_tool d s name src max now).0.sessions ≡ insert s (bumped (session_of d s)) d.sessions
unfolding record_tool
sessions-record_tool d s name src max now e =
    rw (record_tool, e)
      (if_keeps (Kept (insert s (bumped (session_of d s)) d.sessions))
        (ltb ((session_of d s).tools_since_progress + 1) (budget d max)) refl refl)

session-record_tool :
    (d : ToolBudgetChurnDetector) (s name src : String) (max : ℤ) (now : ℕ) (s' : String)
    → session_of (record_tool d s name src max now).0 s'
      ≡ (if not (is_empty s) && str_eq s s' then bumped (session_of d s') else session_of d s')
unfolding record_tool
session-record_tool d s name src max now s' = elim (Bool-cases (is_empty s)) [
  | inl e ↦ rw e refl
  | inr e ↦
      ap (lookup_or no_calls s') (sessions-record_tool d s name src max now e)
      ∙ session-update bumped d s s'
      ∙ rw e refl
]

session-mark_progress :
    (d : ToolBudgetChurnDetector) (s s' : String)
    → session_of (mark_progress d s) s'
      ≡ (if not (is_empty s) && str_eq s s' then cleared (session_of d s') else session_of d s')
unfolding mark_progress
session-mark_progress d s s' = elim (Bool-cases (is_empty s)) [
  | inl e ↦ rw e refl
  | inr e ↦ rw (mark_progress, e) (session-update cleared d s s')
]

session-reset_session :
    (d : ToolBudgetChurnDetector) (s s' : String)
    → session_of (reset_session d s) s' ≡ (if str_eq s s' then no_calls else session_of d s')
unfolding reset_session
session-reset_session d s s' = ground (arith, lookup-remove s s' d.sessions)

window-step :
    (d : ToolBudgetChurnDetector) (c : Call) (s : String)
    → tools_since_progress (step d c) s ≡ window s (tools_since_progress d s) c
unfolding step tools_since_progress window
window-step d (tool s name src max now) s' =
    ap ToolBudgetSession.tools_since_progress (session-record_tool d s name src max now s')
    ∙ ground arith
window-step d (progress s) s' =
    ap ToolBudgetSession.tools_since_progress (session-mark_progress d s s') ∙ ground arith
window-step d (reset s) s' =
    ap ToolBudgetSession.tools_since_progress (session-reset_session d s s') ∙ ground arith

total-step :
    (d : ToolBudgetChurnDetector) (c : Call) (s : String)
    → tool_count (step d c) s ≡ total s (tool_count d s) c
unfolding step tool_count total
total-step d (tool s name src max now) s' =
    ap ToolBudgetSession.tool_calls (session-record_tool d s name src max now s') ∙ ground arith
total-step d (progress s) s' =
    ap ToolBudgetSession.tool_calls (session-mark_progress d s s') ∙ ground arith
total-step d (reset s) s' =
    ap ToolBudgetSession.tool_calls (session-reset_session d s s') ∙ ground arith

-- A counter that every call changes as `f` says is the fold of `f`.
fold-run :
    (count : ToolBudgetChurnDetector → ℕ) (f : ℕ → Call → ℕ)
    → ((d : ToolBudgetChurnDetector) (c : Call) → count (step d c) ≡ f (count d) c)
    → (d : ToolBudgetChurnDetector) (cs : List Call) → count (run d cs) ≡ fold f (count d) cs
unfolding run fold
fold-run count f one d [] = refl
fold-run count f one d (c ∷ cs) =
    fold-run count f one (step d c) cs ∙ ap (λ n. fold f n cs) (one d c)

max-record_tool :
    (d : ToolBudgetChurnDetector) (s name src : String) (max : ℤ) (now : ℕ)
    → (record_tool d s name src max now).0.max_default ≡ d.max_default
unfolding record_tool
max-record_tool d s name src max now = ground arith

max-step : (d : ToolBudgetChurnDetector) (c : Call) → (step d c).max_default ≡ d.max_default
unfolding step mark_progress reset_session
max-step d (tool s name src max now) = max-record_tool d s name src max now
max-step d (progress s) = ground arith
max-step d (reset s) = refl

max-run : (d : ToolBudgetChurnDetector) (cs : List Call) → (run d cs).max_default ≡ d.max_default
unfolding run
max-run d [] = refl
max-run d (c ∷ cs) = max-run (step d c) cs ∙ max-step d c

abbrev pub sends : Option TunnelSignal → Bool
sends none = false
sends (some sig) = true

sends-record_tool :
    (d : ToolBudgetChurnDetector) (s name src : String) (max : ℤ) (now : ℕ)
    → sends (record_tool d s name src max now).1
      ≡ (not (is_empty s) && leb (budget d max) (suc (tools_since_progress d s)))
unfolding record_tool tools_since_progress
sends-record_tool d s name src max now = ground arith

-- After any calls on a new detector, the two counters of a session are its tool calls since its last
-- progress or reset, and since its last reset; the next tool call sends a signal exactly if it has a
-- session and brings the first number to the budget or beyond, which is the call's own if that is
-- positive, else the configured one, else 30.
pub run-window :
    (configured : ℤ) (cs : List Call) (s name src : String) (max : ℤ) (now : ℕ)
    → let d = run (new configured) cs in
      let limit = positive_or (positive_or default_max_tool_calls configured) max in
      (tools_since_progress d s ≡ fold (window s) 0 cs)
      × ((tool_count d s ≡ fold (total s) 0 cs)
          × (sends (record_tool d s name src max now).1
              ≡ (not (is_empty s) && leb limit (suc (fold (window s) 0 cs)))))
unfolding new tools_since_progress tool_count lookup
run-window configured cs s name src max now =
    let d = run (new configured) cs in
    let w =
      fold-run (λ e. tools_since_progress e s) (window s) (λ e c. window-step e c s)
        (new configured) cs in
    (
      w,
      (
        fold-run (λ e. tool_count e s) (total s) (λ e c. total-step e c s) (new configured) cs,
        sends-record_tool d s name src max now
            ∙ ap₂ (λ m n. not (is_empty s) && leb (positive_or m max) (suc n))
                (max-run (new configured) cs) w,
      ),
    )
