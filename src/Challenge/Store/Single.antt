-- ===== src/Challenge/Store/Single.antt =====
-- putLocked of pkg/challenge/store.go keeps one live challenge per session and action fingerprint.
use reinframe.Prelude.{
  ◌+◌, str_eq-false, String, true, false, not, ◌&&◌, ◌||◌, Option, none, some, List, [], ◌∷◌, Map,
  All, lookup, insert, lookup-insert, str_eq, ◌≡◌, ◌≢◌, refl, sym, ◌∙◌, arith, eq_iff, Bool-cases,
  Option-cases, inl, inr, ap, ap₂, if-true, if-false, ◌⊎◌,
}
use reinframe.Challenge.States.{is_terminal, is_active}
use reinframe.Challenge.Store.{
  ChallengeRecord, ChallengeEvent, Store, Transition, new_store, same_action, expire_one,
  expire_others, put, append_transition, moved, mark_barrier, BarrierEntry,
}

abbrev pub map_option :
    (ChallengeRecord → ChallengeRecord) → Option ChallengeRecord → Option ChallengeRecord
map_option f none = none
map_option f (some r) = some (f r)

pub lookup-expire_others :
    (rec : ChallengeRecord) (m : Map ChallengeRecord) (k : String)
    → lookup k (expire_others rec m) ≡ map_option (expire_one rec k) (lookup k m)
unfolding lookup expire_others
lookup-expire_others rec [] k = refl
lookup-expire_others rec ((j, r) ∷ m) k = elim (Bool-cases (str_eq j k)) [
  | inl e ↦ (let same : j ≡ k = ground (arith, eq_iff j k) in rw (e, same) refl)
  | inr e ↦ rw e (lookup-expire_others rec m k)
]

-- Two records of one session and action are not both live.
abbrev pub IsSingle : Map ChallengeRecord → Type 0
IsSingle m =
    (i j : String) (a b : ChallengeRecord)
    → lookup i m ≡ some a
    → lookup j m ≡ some b
    → str_eq i j ≡ false
    → same_action a b ≡ true
    → (is_terminal a.state || is_terminal b.state) ≡ true

lookup-insert_hit :
    (m : Map ChallengeRecord) (k i : String) (rec : ChallengeRecord)
    → str_eq k i ≡ true
    → lookup i (insert k rec m) ≡ some rec
lookup-insert_hit m k i rec e = lookup-insert k i rec m ∙ if-true (str_eq k i) (lookup i m) e

lookup-insert_miss :
    (m : Map ChallengeRecord) (k i : String) (rec : ChallengeRecord)
    → str_eq k i ≡ false
    → lookup i (insert k rec m) ≡ lookup i m
lookup-insert_miss m k i rec e = lookup-insert k i rec m ∙ if-false (str_eq k i) (some rec) e

some_inj : (a b : ChallengeRecord) → some a ≡ some b → a ≡ b
some_inj a b e = ap (from_some a) e
  where
    from_some : ChallengeRecord → Option ChallengeRecord → ChallengeRecord
    from_some d none = d
    from_some d (some r) = r

insert-terminal :
    (m : Map ChallengeRecord) (k : String) (rec : ChallengeRecord)
    → is_terminal rec.state ≡ true
    → IsSingle m
    → IsSingle (insert k rec m)
insert-terminal m k rec over h i j a b la lb ne same = elim (Bool-cases (str_eq k i)) [
  | inl e ↦
      let mine : a ≡ rec = some_inj a rec (sym la ∙ lookup-insert_hit m k i rec e) in
      rw (mine, over) refl
  | inr e ↦ (elim (Bool-cases (str_eq k j)) [
    | inl f ↦
        let mine : b ≡ rec = some_inj b rec (sym lb ∙ lookup-insert_hit m k j rec f) in
        rw (mine, over) (ground arith)
    | inr f ↦
        h i j a b (sym (lookup-insert_miss m k i rec e) ∙ la)
          (sym (lookup-insert_miss m k j rec f) ∙ lb) ne same
  ])
]

-- Where an entry comes from when `rec` becomes active.
abbrev Origin : Map ChallengeRecord → ChallengeRecord → String → ChallengeRecord → Type 0
Origin m rec i a =
    ((str_eq rec.challenge_id i ≡ true) × (a ≡ rec))
    ⊎ ((a0 : ChallengeRecord) × ((lookup i m ≡ some a0)
          × ((str_eq i rec.challenge_id ≡ false) × (a ≡ expire_one rec i a0))))

own_kept : (rec : ChallengeRecord) (i : String) → rec.challenge_id ≡ i → expire_one rec i rec ≡ rec
unfolding expire_one
own_kept rec i e =
    if-false (not (str_eq i rec.challenge_id) && same_action rec rec && not (is_terminal rec.state))
      _ (ground (arith, eq_iff i rec.challenge_id, e))

origin :
    (m : Map ChallengeRecord) (rec : ChallengeRecord) (i : String) (a : ChallengeRecord)
    → lookup i (expire_others rec (insert rec.challenge_id rec m)) ≡ some a
    → Origin m rec i a
unfolding expire_one
origin m rec i a la =
    let whole = lookup-expire_others rec (insert rec.challenge_id rec m) i in
    elim (Bool-cases (str_eq rec.challenge_id i)) [
      | inl e ↦
          let same : rec.challenge_id ≡ i = ground (arith, eq_iff rec.challenge_id i) in
          let found =
            whole
            ∙ ap (map_option (expire_one rec i)) (lookup-insert_hit m rec.challenge_id i rec e) in
          inl (e, some_inj a rec (sym la ∙ found ∙ ap some (own_kept rec i same)))
      | inr e ↦
          let found =
            whole
            ∙ ap (map_option (expire_one rec i)) (lookup-insert_miss m rec.challenge_id i rec e) in
          (elim (Option-cases (lookup i m)) [
            | inl none_there ↦ absurd (
                let no : some a ≡ none =
                  sym la ∙ found ∙ ap (map_option (expire_one rec i)) none_there in
                ground arith)
            | inr (a0, there) ↦ inr (
              a0,
              (
                there,
                (
                  ground (arith, e, eq_iff rec.challenge_id i, eq_iff i rec.challenge_id),
                  some_inj a (expire_one rec i a0)
                      (sym la ∙ found ∙ ap (map_option (expire_one rec i)) there),
                ),
              ),
            )
          ])
    ]

rival_expires :
    (rec r : ChallengeRecord) (j : String)
    → str_eq j rec.challenge_id ≡ false
    → same_action (expire_one rec j r) rec ≡ true
    → is_terminal (expire_one rec j r).state ≡ true
unfolding expire_one is_terminal
rival_expires rec r j ne same = ground (arith, same)

terminal_kept :
    (rec r : ChallengeRecord) (j : String)
    → is_terminal r.state ≡ true
    → is_terminal (expire_one rec j r).state ≡ true
unfolding expire_one
terminal_kept rec r j h = ground (arith, h)

same_action-expire_one :
    (rec r q : ChallengeRecord) (i j : String)
    → same_action (expire_one rec i r) (expire_one rec j q) ≡ same_action r q
unfolding expire_one
same_action-expire_one rec r q i j = ground arith

same_action_sym : (a b : ChallengeRecord) → same_action a b ≡ true → same_action b a ≡ true
same_action_sym a b h = ground (
  arith,
  eq_iff a.session_id b.session_id,
  eq_iff b.session_id a.session_id,
  eq_iff a.action_fingerprint b.action_fingerprint,
  eq_iff b.action_fingerprint a.action_fingerprint,
)

both_kept :
    (rec a0 b0 : ChallengeRecord) (i j : String) (a b : ChallengeRecord)
    → a ≡ expire_one rec i a0
    → b ≡ expire_one rec j b0
    → (is_terminal a0.state || is_terminal b0.state) ≡ true
    → (is_terminal a.state || is_terminal b.state) ≡ true
both_kept rec a0 b0 i j a b a_is b_is over = elim (Bool-cases (is_terminal a0.state)) [
  | inl t ↦ (let k = terminal_kept rec a0 i t in rw (a_is, k) refl)
  | inr n ↦ let k = terminal_kept rec b0 j (ground (arith, over, n)) in rw (b_is, k) (ground arith)
]

expire-IsSingle :
    (m : Map ChallengeRecord) (rec : ChallengeRecord)
    → IsSingle m
    → IsSingle (expire_others rec (insert rec.challenge_id rec m))
expire-IsSingle m rec h i j a b la lb ne same = elim (origin m rec i a la) [
  | inl (ei, a_is) ↦ (elim (origin m rec j b lb) [
    | inl (ej, b_is) ↦
        absurd (ground (arith, eq_iff rec.challenge_id i, eq_iff rec.challenge_id j, eq_iff i j))
    | inr (b0, (lb0, (nj, b_is))) ↦
        let t = rival_expires rec b0 j nj (rw⁻¹ b_is (rw⁻¹ a_is (same_action_sym a b same))) in
        rw (b_is, t) (ground arith)
  ])
  | inr (a0, (la0, (ni, a_is))) ↦ (elim (origin m rec j b lb) [
    | inl (ej, b_is) ↦
        let t = rival_expires rec a0 i ni (rw⁻¹ a_is (rw⁻¹ b_is same)) in rw (a_is, t) refl
    | inr (b0, (lb0, (nj, b_is))) ↦ both_kept rec a0 b0 i j a b a_is b_is (
        h i j a0 b0 la0 lb0 ne (
          sym (same_action-expire_one rec a0 b0 i j)
          ∙ ap₂ same_action (sym a_is) (sym b_is)
          ∙ same))
  ])
]

-- The calls that change the store.
pub data Call : Type 0 where
  write : (rec : ChallengeRecord) (ev : ChallengeEvent) (just : Option String) → Call
  move : (rec : ChallengeRecord) (t : Transition) → Call
  bar : (session fp : String) (e : BarrierEntry) → Call

unfoldable pub step : Store → Call → Store
step s (write rec ev just) = put s rec ev just
step s (move rec t) = (append_transition s rec t).0
step s (bar session fp e) = mark_barrier s session fp e

unfoldable pub run : Store → List Call → Store
unfolding step
run s [] = s
run s (c ∷ cs) = run (step s c) cs

-- The state that a call writes is one of the named ones.
abbrev pub IsNamed : Call → Type 0
IsNamed (write rec ev just) = (is_active rec.state || is_terminal rec.state) ≡ true
IsNamed (move rec t) = (is_active t.to || is_terminal t.to) ≡ true
IsNamed (bar session fp e) = Unit

put-IsSingle :
    (s : Store) (rec : ChallengeRecord) (ev : ChallengeEvent) (just : Option String)
    → (is_active rec.state || is_terminal rec.state) ≡ true
    → IsSingle s.by_id
    → IsSingle (put s rec ev just).by_id
unfolding put
put-IsSingle s rec ev just named h = elim (Bool-cases (is_active rec.state)) [
  | inl e ↦ rw (put, e) (expire-IsSingle s.by_id rec h)
  | inr e ↦ rw (put, e) (insert-terminal s.by_id rec.challenge_id rec (ground (arith, named, e)) h)
]

step-IsSingle : (s : Store) (c : Call) → IsNamed c → IsSingle s.by_id → IsSingle (step s c).by_id
unfolding step append_transition mark_barrier
step-IsSingle s (write rec ev just) n h = put-IsSingle s rec ev just n h
step-IsSingle s (move rec t) n h =
    put-IsSingle (record s { seq = s.seq + 1 }) (moved s rec t) _ t.just n h
step-IsSingle s (bar session fp e) n h = h

run-IsSingle :
    (s : Store) (cs : List Call) → All IsNamed cs → IsSingle s.by_id → IsSingle (run s cs).by_id
unfolding run
run-IsSingle s [] n h = h
run-IsSingle s (c ∷ cs) n h = run-IsSingle (step s c) cs n.1 (step-IsSingle s c n.0 h)

-- Over every history of writes, transitions and barriers on a new store, in which each record is
-- written in a named state: of two challenges of the same session and action fingerprint, one is
-- terminal.
pub single_active :
    (cs : List Call) (i j : String) (a b : ChallengeRecord)
    → All IsNamed cs
    → lookup i (run new_store cs).by_id ≡ some a
    → lookup j (run new_store cs).by_id ≡ some b
    → i ≢ j
    → a.session_id ≡ b.session_id
    → a.action_fingerprint ≡ b.action_fingerprint
    → (is_terminal a.state || is_terminal b.state) ≡ true
unfolding lookup
single_active cs i j a b named la lb ne sess fp =
    run-IsSingle new_store cs named (λ k l r q found e n m. absurd (cc)) i j a b la lb
      (str_eq-false i j ne)
      (ground (
        arith,
        eq_iff a.session_id b.session_id,
        eq_iff a.action_fingerprint b.action_fingerprint,
        sess,
        fp,
      ))
