-- ===== src/Challenge/Service/Retry/Silent.antt =====
-- The steps of pkg/challenge/service.go whose answer allows nothing.
use reinframe.Prelude.{
  ℕ, String, Bool, false, not, ◌&&◌, Option, none, some, List, [], ◌∷◌, lookup, str_eq, ◌≡◌, refl,
  inl, inr, arith, Bool-cases, Option-cases, if_keeps, if_splits, option_keeps, ltb, leb,
}
use reinframe.Challenge.States.{ChallengeState, is_terminal}
use reinframe.Challenge.Store.{
  ChallengeRecord, Store, BarrierEntry, append_transition, get, mark_barrier, barrier_note,
}
use reinframe.Challenge.Service.{
  RetryRequest, is_due, expire_if_needed, abandon, expire_at, expire_each, expire_due,
  justify_locked, abandon_at, justify_at,
}
use reinframe.Challenge.Service.Opening.{
  OpenCase, Appeal, non_appealable, human_review, appealable, expire_live, expire_all,
  expire_active, open_denied, open_review, reclaim_one, reclaim, write_opened, kept_or_opened,
  opening_of, open_appealable, open_locked, policy_identity_match,
}
use reinframe.Challenge.Service.Safe.{
  is_once, IsSafe, stay-IsSafe, append-IsSafe, other-IsSafe, once_ends, seq-IsSafe,
}
use reinframe.Challenge.Service.Retry.{Attempt}
use reinframe.Challenge.Service.Retry.Settle.{cancel, if_pending}
use reinframe.Challenge.Service.Retry.Beginning.{due-live}

live-once : (st : ChallengeState) → is_terminal st ≡ false → is_once st ≡ false
live-once st live = elim (Bool-cases (is_once st)) [
  | inr e ↦ e
  | inl e ↦ let ended = once_ends st e in cc
]

module _ (id : String) where
  -- A step without an answer.
  abbrev pub Silent : Store → Store → Type 0
  Silent s s' = IsSafe id s s' none

  if_pending-Silent :
      (s s' : Store) (st : ChallengeState)
      → (is_once st ≡ false → Silent s s')
      → Silent s (if_pending s s' st)
  unfolding if_pending
  if_pending-Silent s s' ChallengeState.retry_pending h = h refl
  if_pending-Silent s s' _ h = stay-IsSafe id s

  pub cancel-Silent :
      (s : Store) (req : RetryRequest) (a : Attempt) (now : ℕ) → Silent s (cancel s req a now)
  unfolding cancel get
  cancel-Silent s req a now = elim (Option-cases (lookup req.challenge_id s.by_id)) [
    | inl e ↦ rw (e, cancel) (stay-IsSafe id s)
    | inr (cur, e) ↦
        rw (e, cancel)
          (if_pending-Silent s _ cur.state
            (λ live. append-IsSafe id req.challenge_id s cur _ _ e refl live refl (λ h. refl)))
  ]

  abandon_at-Silent :
      (s : Store) (rec : ChallengeRecord) (r : Store × ChallengeRecord) (st : ChallengeState)
      → (is_once st ≡ false → Silent s r.0)
      → Silent s (abandon_at s rec r st).0
  unfolding abandon_at
  abandon_at-Silent s rec (s', left) ChallengeState.opened h = h refl
  abandon_at-Silent s rec (s', left) ChallengeState.justified h = h refl
  abandon_at-Silent s rec (s', left) _ h = stay-IsSafe id s

  pub abandon-Silent : (s : Store) (k corr : String) (now : ℕ) → Silent s (abandon s k corr now).0
  unfolding abandon get
  abandon-Silent s k corr now = elim (Option-cases (lookup k s.by_id)) [
    | inl e ↦ rw (e, abandon) (stay-IsSafe id s)
    | inr (rec, e) ↦
        rw (e, abandon)
          (abandon_at-Silent s rec _ rec.state
            (λ live. append-IsSafe id k s rec rec _ e refl live refl (λ h. h)))
  ]

  justify_at-Silent :
      (s : Store) (rec : ChallengeRecord) (hash : String) (r : Store × ChallengeRecord)
      (st : ChallengeState)
      → (is_once st ≡ false → Silent s r.0)
      → Silent s (justify_at s rec hash r st).0
  unfolding justify_at
  justify_at-Silent s rec hash (s', left) ChallengeState.opened h = h refl
  justify_at-Silent s rec hash (s', left) _ h = stay-IsSafe id s

  pub justify_locked-Silent :
      (s : Store) (k hash : String) (now : ℕ) → Silent s (justify_locked s k hash now).0
  unfolding justify_locked get
  justify_locked-Silent s k hash now = elim (Option-cases (lookup k s.by_id)) [
    | inl e ↦ rw (e, justify_locked) (stay-IsSafe id s)
    | inr (rec, e) ↦
        rw (e, justify_locked)
          (if_splits (λ (r : Store × Option ChallengeRecord × Bool). Silent s r.0) (is_due s rec)
            (λ due. append-IsSafe id k s rec rec _ e refl (due-live s rec due) refl (λ h. h))
            (λ on_time.
              justify_at-Silent s rec hash _ rec.state
                (λ live. append-IsSafe id k s rec _ _ e refl live refl (λ h. h))))
  ]

  pub expire_if_needed-Silent :
      (s : Store) (rec : ChallengeRecord) (now : ℕ) → Silent s (expire_if_needed s rec now).0
  unfolding expire_if_needed get
  expire_if_needed-Silent s rec now =
      let P = λ (r : Store × ChallengeRecord × Bool). Silent s r.0 in
      elim (Option-cases (lookup rec.challenge_id s.by_id)) [
        | inl e ↦
            rw (e, expire_if_needed)
              (if_keeps P (not (is_due s rec)) (stay-IsSafe id s) (stay-IsSafe id s))
        | inr (cur, e) ↦
            rw (e, expire_if_needed)
              (if_keeps P (not (is_due s rec)) (stay-IsSafe id s) (
                if_splits P (is_terminal cur.state) (λ h. stay-IsSafe id s)
                  (λ live.
                    append-IsSafe id rec.challenge_id s cur cur _ e refl (live-once cur.state live)
                      refl (λ h. h))))
      ]

  expire_at-Silent : (seq now : ℕ) (k : String) (s : Store) → Silent s (expire_at seq now k s).0
  unfolding expire_at get
  expire_at-Silent seq now k s = elim (Option-cases (lookup k s.by_id)) [
    | inl e ↦ rw (e, expire_at) (stay-IsSafe id s)
    | inr (rec, e) ↦
        rw (e, expire_at)
          (if_splits (λ (r : Store × Bool). Silent s r.0)
            (ltb 0 rec.expires_at_sequence
              && leb rec.expires_at_sequence seq
              && not (is_terminal rec.state))
            (λ due.
              append-IsSafe id k s rec rec _ e refl (live-once rec.state (ground (arith, due))) refl
                (λ h. h))
            (λ h. stay-IsSafe id s))
  ]

  expire_each-Silent :
      (seq now : ℕ) (ks : List String) (s : Store) → Silent s (expire_each seq now ks s).0
  unfolding expire_each
  expire_each-Silent seq now [] s = stay-IsSafe id s
  expire_each-Silent seq now (k ∷ ks) s =
      seq-IsSafe id s _ _ none (expire_at-Silent seq now k s) (expire_each-Silent seq now ks _)

  pub expire_due-Silent : (s : Store) (now : ℕ) → Silent s (expire_due s now).0
  unfolding expire_due
  expire_due-Silent s now = expire_each-Silent s.seq now _ s

  expire_live-Silent :
      (c : OpenCase) (cause note : String) (now : ℕ) (k : String) (s : Store)
      → Silent s (expire_live c cause note now k s)
  unfolding expire_live get
  expire_live-Silent c cause note now k s = elim (Option-cases (lookup k s.by_id)) [
    | inl e ↦ rw (e, expire_live) (stay-IsSafe id s)
    | inr (cur, e) ↦
        rw (e, expire_live)
          (if_splits (Silent s) (is_terminal cur.state) (λ h. stay-IsSafe id s)
            (λ live.
              append-IsSafe id k s cur cur _ e refl (live-once cur.state live) refl (λ h. h)))
  ]

  expire_all-Silent :
      (c : OpenCase) (note : String) (now : ℕ) (ks : List String) (s : Store)
      → Silent s (expire_all c note now ks s)
  unfolding expire_all
  expire_all-Silent c note now [] s = stay-IsSafe id s
  expire_all-Silent c note now (k ∷ ks) s =
      seq-IsSafe id s _ _ none (expire_live-Silent c c.action_id note now k s)
        (expire_all-Silent c note now ks _)

  expire_active-Silent :
      (c : OpenCase) (note : String) (now : ℕ) (s : Store) → Silent s (expire_active c note now s)
  unfolding expire_active
  expire_active-Silent c note now s = expire_all-Silent c note now _ s

  mark_barrier-Silent :
      (s : Store) (session fp : String) (e : BarrierEntry) → Silent s (mark_barrier s session fp e)
  unfolding mark_barrier
  mark_barrier-Silent s session fp e = record {
    named = λ n. n;
    quiet = λ n q. inl (q, refl);
    spent = λ n k h. (h, inl refl);
  }

  reclaim_one-Silent :
      (c : OpenCase) (now : ℕ) (k : String) (r : Store × Option ChallengeRecord)
      → Silent r.0 (reclaim_one c now k r).0
  unfolding reclaim_one get
  reclaim_one-Silent c now k (s, kept) =
      let P = λ (r : Store × Option ChallengeRecord). Silent s r.0 in
      option_keeps P (lookup k s.by_id) (stay-IsSafe id s) λ rec.
        if_keeps P (policy_identity_match rec c)
          (option_keeps P kept (stay-IsSafe id s)
            (λ first. expire_live-Silent c k "superseded_duplicate_open" now k s))
          (expire_live-Silent c k "superseded_by_policy_change" now k s)

  reclaim-Silent :
      (c : OpenCase) (now : ℕ) (ks : List String) (r : Store × Option ChallengeRecord)
      → Silent r.0 (reclaim c now ks r).0
  unfolding reclaim
  reclaim-Silent c now [] r = stay-IsSafe id r.0
  reclaim-Silent c now (k ∷ ks) r =
      seq-IsSafe id r.0 _ _ none (reclaim_one-Silent c now k r) (reclaim-Silent c now ks _)

  kept_or_opened-Silent :
      (s : Store) (c : OpenCase) (now : ℕ) (r : Store × Option ChallengeRecord)
      → str_eq c.challenge_id id ≡ false
      → Silent s r.0
      → Silent s (kept_or_opened c now r).0
  unfolding kept_or_opened write_opened
  kept_or_opened-Silent s c now (s', some rec) fresh h = h
  kept_or_opened-Silent s c now (s', none) fresh h =
      seq-IsSafe id s s' _ none h (other-IsSafe id s' _ _ _ none fresh)

  open_appealable-Silent :
      (s : Store) (c : OpenCase) (now : ℕ)
      → str_eq c.challenge_id id ≡ false
      → Silent s (open_appealable s c now).0
  unfolding open_appealable
  open_appealable-Silent s c now fresh = elim (Option-cases (barrier_note s (opening_of c))) [
    | inr (note, e) ↦ rw (e, open_appealable) (stay-IsSafe id s)
    | inl e ↦
        rw (e, open_appealable)
          (kept_or_opened-Silent s c now _ fresh (reclaim-Silent c now _ (s, none)))
  ]

  pub open_locked-Silent :
      (s : Store) (c : OpenCase) (appeal : Appeal) (now : ℕ)
      → str_eq c.challenge_id id ≡ false
      → Silent s (open_locked s c appeal now).0
  unfolding open_locked open_denied open_review append_transition
  open_locked-Silent s c non_appealable now fresh =
      seq-IsSafe id s _ _ none (expire_active-Silent c "superseded_by_hard_block" now s)
        (mark_barrier-Silent _ _ _ _)
  open_locked-Silent s c human_review now fresh =
      seq-IsSafe id s _ _ none (expire_active-Silent c "superseded_by_human_review" now s) (
        seq-IsSafe id _ _ _ none (mark_barrier-Silent _ _ _ _) (other-IsSafe id _ _ _ _ none fresh))
  open_locked-Silent s c appealable now fresh = open_appealable-Silent s c now fresh
