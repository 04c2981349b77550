-- ===== src/Challenge/Store/Barriers.antt =====
-- The barriers of hard denials in pkg/challenge/store.go, over the calls that follow a denial.
use reinframe.Prelude.{
  ◌+◌, ◌≤◌, ◌<◌, String, Bool, true, false, ◌&&◌, Option, none, some, List, [], ◌∷◌, All, lookup,
  lookup-insert, lookup-insert_self, is_empty, str_eq, ltb, ◌⧺◌, ◌≡◌, refl, ◌∙◌, arith, Bool-cases,
  inl, inr, ap, if-true, if-false,
}
use reinframe.Challenge.Store.{
  ChallengeRecord, ChallengeEvent, Store, BarrierEntry, Opening, barrier_key, put,
  append_transition, mark_barrier, barrier_policy_hit, barrier_note,
}
use reinframe.Challenge.Store.Single.{Call, write, move, bar, step, run}

-- The call puts no barrier under the key.
abbrev pub Spares : String → Call → Type 0
Spares k (bar session fp e) = str_eq (barrier_key session fp) k ≡ false
Spares k _ = Unit {0}

barriers-put :
    (s : Store) (rec : ChallengeRecord) (ev : ChallengeEvent) (just : Option String)
    → (put s rec ev just).non_appeal_barrier ≡ s.non_appeal_barrier
unfolding put
barriers-put s rec ev just = ground arith

step-Spares :
    (s : Store) (c : Call) (k : String)
    → Spares k c
    → lookup k (step s c).non_appeal_barrier ≡ lookup k s.non_appeal_barrier
unfolding step append_transition mark_barrier
step-Spares s (write rec ev just) k n = ap (lookup k) (barriers-put s rec ev just)
step-Spares s (move rec t) k n =
    ap (lookup k) (barriers-put (record s { seq = s.seq + 1 }) _ _ t.just)
step-Spares s (bar session fp e) k n =
    lookup-insert (barrier_key session fp) k _ s.non_appeal_barrier
    ∙ if-false (str_eq (barrier_key session fp) k) _ n

run-Spares :
    (s : Store) (cs : List Call) (k : String)
    → All (Spares k) cs
    → lookup k (run s cs).non_appeal_barrier ≡ lookup k s.non_appeal_barrier
unfolding run
run-Spares s [] k n = refl
run-Spares s (c ∷ cs) k n = run-Spares (step s c) cs k n.1 ∙ step-Spares s c k n.0

-- The policy of the request is that of the entry.
abbrev pub same_policy : BarrierEntry → Opening → Bool
same_policy e o = str_eq e.policy_version o.policy && str_eq e.ruleset_hash o.rules

hit_same :
    (e : BarrierEntry) (o : Opening)
    → same_policy e o ≡ true
    → barrier_policy_hit e o.policy o.rules o.ticket ≡ some e.note
unfolding barrier_policy_hit
hit_same e o h = if-true (same_policy e o) _ h

hit_stale :
    (e : BarrierEntry) (o : Opening)
    → o.ticket < e.mark_seq
    → (note : String) × (barrier_policy_hit e o.policy o.rules o.ticket ≡ some note)
unfolding barrier_policy_hit
hit_stale e o h = elim (Bool-cases (same_policy e o)) [
  | inl p ↦ (e.note, if-true (same_policy e o) _ p)
  | inr p ↦ (
    e.note ⧺ "_stale_open",
    if-false (same_policy e o) _ p ∙ if-true (ltb o.ticket e.mark_seq) _ (ground (arith, h)),
  )
]

hit_free :
    (e : BarrierEntry) (o : Opening)
    → same_policy e o ≡ false
    → e.mark_seq ≤ o.ticket
    → barrier_policy_hit e o.policy o.rules o.ticket ≡ none
unfolding barrier_policy_hit
hit_free e o h late =
    if-false (same_policy e o) _ h ∙ if-false (ltb o.ticket e.mark_seq) _ (ground (arith, late))

module _ (s : Store) (o : Opening) (e : BarrierEntry)
    (held : lookup (barrier_key o.session o.fingerprint) s.non_appeal_barrier ≡ some e) where
  note_hit :
      (note : String)
      → barrier_policy_hit e o.policy o.rules o.ticket ≡ some note
      → barrier_note s o ≡ some note
  unfolding barrier_note
  note_hit note h = rw (barrier_note, held, h) refl

  note_free :
      barrier_policy_hit e o.policy o.rules o.ticket ≡ none
      → is_empty o.digest ≡ true
      → barrier_note s o ≡ none
  unfolding barrier_note
  note_free h d = rw (barrier_note, held, h, d) refl

-- After a denial has put a barrier under a session and fingerprint, and any later calls that put none
-- under that key: a request to open with the denial's policy is blocked with the denial's note; one
-- whose ticket was drawn no later than the denial is blocked under any policy; and one of another
-- policy with a later ticket and no operation digest may proceed.
pub barrier_holds :
    (s : Store) (e : BarrierEntry) (cs : List Call) (o : Opening)
    → All (Spares (barrier_key o.session o.fingerprint)) cs
    → let later = run (mark_barrier s o.session o.fingerprint e) cs in
      (same_policy e o ≡ true → barrier_note later o ≡ some e.note)
      × ((o.ticket ≤ s.seq → (note : String) × (barrier_note later o ≡ some note))
          × (same_policy e o ≡ false
              → s.seq < o.ticket
              → is_empty o.digest ≡ true
              → barrier_note later o ≡ none))
unfolding mark_barrier
barrier_holds s e cs o spared =
    let k = barrier_key o.session o.fingerprint in
    let marked : BarrierEntry = record e { mark_seq = s.seq + 1 } in
    let later = run (mark_barrier s o.session o.fingerprint e) cs in
    let held : lookup k later.non_appeal_barrier ≡ some marked =
      run-Spares (mark_barrier s o.session o.fingerprint e) cs k spared
      ∙ lookup-insert_self k marked s.non_appeal_barrier in
    (
      (λ h. note_hit later o marked held e.note (hit_same marked o h)),
      (
        (λ h.
            let (note, hit) = hit_stale marked o (omega (arith, h)) in
            (note, note_hit later o marked held note hit)),
        (λ h late d. note_free later o marked held (hit_free marked o h (omega (arith, late))) d),
      ),
    )
