-- ===== src/Challenge/Service/Safe.antt =====
-- Writes of the store of pkg/challenge, as far as the retry of one challenge is concerned.
use reinframe.Prelude.{
  ℕ, ◌+◌, String, Bool, true, false, Option, none, some, Map, lookup, insert, lookup-insert, str_eq,
  ◌≡◌, refl, sym, ◌∙◌, ◌⊎◌, inl, inr, arith, ap, subst, Bool-cases, Option-cases, eq_iff, if_keeps,
  if_splits, if◌then◌else◌, if-false,
}
use reinframe.Challenge.States.{ChallengeState, is_terminal, is_active}
use reinframe.Challenge.Store.{
  ChallengeRecord, ChallengeEvent, Store, Transition, append_transition, moved, put, expire_one,
}
use reinframe.Challenge.Store.Single.{lookup-expire_others, map_option}
use reinframe.Challenge.Service.Retry.Settle.{is_allow}

abbrev pub is_once : ChallengeState → Bool
is_once ChallengeState.allowed_once = true
is_once _ = false

-- The challenge has not been allowed.
abbrev pub IsQuiet : Option ChallengeRecord → Type 0
IsQuiet none = Unit
IsQuiet (some rec) = (is_once rec.state ≡ false) × (is_allow rec.stage2_decision ≡ false)

-- The challenge has been allowed, to the retry of this key.
abbrev pub IsSpent : String → Option ChallengeRecord → Type 0
IsSpent k none = ⊥
IsSpent k (some rec) = (is_once rec.state ≡ true) × (rec.consumed_retry_key ≡ k)

-- A record stands under its own id.
abbrev pub IsNamed : Map ChallengeRecord → Type 0
IsNamed m = (k : String) (rec : ChallengeRecord) → lookup k m ≡ some rec → rec.challenge_id ≡ k

-- An answer that allows: its key, and whether it is the first.
abbrev pub Allowance : Type 0
Allowance = Option (String × Bool)

-- A step lets the challenge be allowed once, and then only again to the same key.
pub record IsSafe (id : String) (s s' : Store) (ans : Allowance) : Type 0 where
  pub named : IsNamed s.by_id → IsNamed s'.by_id
  pub quiet :
      IsNamed s.by_id
      → IsQuiet (lookup id s.by_id)
      → (IsQuiet (lookup id s'.by_id) × (ans ≡ none))
        ⊎ ((k : String) × IsSpent k (lookup id s'.by_id) × (ans ≡ some (k, true)))
  pub spent :
      IsNamed s.by_id
      → (k : String) → IsSpent k (lookup id s.by_id)
      → IsSpent k (lookup id s'.by_id) × ((ans ≡ none) ⊎ (ans ≡ some (k, false)))

pub stay-IsSafe : (id : String) (s : Store) → IsSafe id s s none
stay-IsSafe id s = record {
  named = λ n. n;
  quiet = λ n q. inl (q, refl);
  spent = λ n k h. (h, inl refl);
}

-- What stands under `k` after a write of `rec` that makes it active.
lookup-put :
    (s : Store) (rec : ChallengeRecord) (ev : ChallengeEvent) (just : Option String) (k : String)
    → lookup k (put s rec ev just).by_id ≡ (
        if is_active rec.state
        then map_option (expire_one rec k) (lookup k (insert rec.challenge_id rec s.by_id))
        else lookup k (insert rec.challenge_id rec s.by_id))
unfolding put
lookup-put s rec ev just k = elim (Bool-cases (is_active rec.state)) [
  | inl e ↦ rw (e, put) (lookup-expire_others rec (insert rec.challenge_id rec s.by_id) k)
  | inr e ↦ rw (e, put) refl
]

pub put-own :
    (s : Store) (rec : ChallengeRecord) (ev : ChallengeEvent) (just : Option String) (k : String)
    → str_eq rec.challenge_id k ≡ true
    → lookup k (put s rec ev just).by_id ≡ some rec
unfolding expire_one
put-own s rec ev just k e = ground (
  arith,
  lookup-put s rec ev just k,
  lookup-insert rec.challenge_id k rec s.by_id,
  eq_iff k rec.challenge_id,
  eq_iff rec.challenge_id k,
)

-- Another record is as it was, or it was live and has been expired.
abbrev Ages : Option ChallengeRecord → Option ChallengeRecord → Type 0
Ages o o' =
    (o' ≡ o)
    ⊎ ((old new : ChallengeRecord) × (o ≡ some old)
        × (o' ≡ some new)
        × (is_terminal old.state ≡ false)
        × (new.state ≡ ChallengeState.expired)
        × (new.stage2_decision ≡ old.stage2_decision)
        × (new.challenge_id ≡ old.challenge_id))

expire_one-Ages :
    (rec old : ChallengeRecord) (k : String) → Ages (some old) (some (expire_one rec k old))
unfolding expire_one
expire_one-Ages rec old k =
    if_splits (λ r. Ages (some old) (some r)) _
      (λ live. inr (old, _, refl, refl, ground (arith, live), refl, refl, refl)) (λ still. inl refl)

put-Ages :
    (s : Store) (rec : ChallengeRecord) (ev : ChallengeEvent) (just : Option String) (k : String)
    → str_eq rec.challenge_id k ≡ false
    → Ages (lookup k s.by_id) (lookup k (put s rec ev just).by_id)
put-Ages s rec ev just k e =
    let other : lookup k (insert rec.challenge_id rec s.by_id) ≡ lookup k s.by_id =
      lookup-insert rec.challenge_id k rec s.by_id ∙ if-false _ (some rec) e in
    subst (Ages (lookup k s.by_id)) (sym (lookup-put s rec ev just k)) (
      if_keeps (Ages (lookup k s.by_id)) (is_active rec.state)
        (elim (Option-cases (lookup k s.by_id)) [
          | inl absent ↦ inl (rw (other, absent) refl)
          | inr (old, there) ↦ rw (other, there) (expire_one-Ages rec old k)
        ])
        (inl other))

Ages-IsQuiet : (o o' : Option ChallengeRecord) → Ages o o' → IsQuiet o → IsQuiet o'
Ages-IsQuiet o o' (inl same) q = subst IsQuiet (sym same) q
Ages-IsQuiet o o' (inr (old, new, e, e', live, gone, decision, named)) q =
    let (never, blocks) = subst IsQuiet e q in
    subst IsQuiet (sym e') (rw gone refl, rw decision blocks)

pub once_ends : (st : ChallengeState) → is_once st ≡ true → is_terminal st ≡ true
unfolding is_terminal
once_ends ChallengeState.allowed_once h = refl
once_ends _ h = cc

Ages-IsSpent : (k : String) (o o' : Option ChallengeRecord) → Ages o o' → IsSpent k o → IsSpent k o'
Ages-IsSpent k o o' (inl same) q = subst (IsSpent k) (sym same) q
Ages-IsSpent k o o' (inr (old, new, e, e', live, gone, decision, named)) q =
    let (once, key) = subst (IsSpent k) e q in let ended = once_ends old.state once in cc

put-IsNamed :
    (s : Store) (rec : ChallengeRecord) (ev : ChallengeEvent) (just : Option String)
    → IsNamed s.by_id
    → IsNamed (put s rec ev just).by_id
put-IsNamed s rec ev just named k r at = elim (Bool-cases (str_eq rec.challenge_id k)) [
  | inl e ↦
      let own = put-own s rec ev just k e in
      let here : rec.challenge_id ≡ k = ground (arith, eq_iff rec.challenge_id k) in
      let same : some rec ≡ some r = sym own ∙ at in cc
  | inr e ↦ elim (put-Ages s rec ev just k e) [
    | inl same ↦ named k r (sym same ∙ at)
    | inr (old, new, o, o', live, gone, decision, id) ↦
        let before = named k old o in let same : some new ≡ some r = sym o' ∙ at in cc
  ]
]

-- A write of what the live record under `k` becomes, without allowing it.
pub write-IsSafe :
    (id k : String) (s : Store) (seq : ℕ) (cur rec : ChallengeRecord) (ev : ChallengeEvent)
    (just : Option String)
    → lookup k s.by_id ≡ some cur
    → rec.challenge_id ≡ cur.challenge_id
    → is_once cur.state ≡ false
    → is_once rec.state ≡ false
    → (is_allow cur.stage2_decision ≡ false → is_allow rec.stage2_decision ≡ false)
    → IsSafe id s (put (record s { seq = seq }) rec ev just) none
write-IsSafe id k s seq cur rec ev just at same live still blocks =
    let s0 : Store = record s { seq = seq } in
    let own = put-own s0 rec ev just id in
    let ages = put-Ages s0 rec ev just id in
    let o = lookup id s.by_id in
    let o' = lookup id (put s0 rec ev just).by_id in
    record {
      named = λ n. put-IsNamed s0 rec ev just n;
      quiet = λ n q. elim (Bool-cases (str_eq rec.challenge_id id)) [
        | inr e ↦ inl (Ages-IsQuiet o o' (ages e) q, refl)
        | inl e ↦
            let here : rec.challenge_id ≡ id = ground (arith, eq_iff rec.challenge_id id) in
            let at_id : o ≡ some cur =
              ap (λ j. lookup j s.by_id) (sym here ∙ same ∙ n k cur at) ∙ at in
            let was = subst IsQuiet at_id q in
            inl (subst IsQuiet (sym (own e)) (still, blocks was.1), refl)
      ];
      spent = λ n key h. elim (Bool-cases (str_eq rec.challenge_id id)) [
        | inr e ↦ (Ages-IsSpent key o o' (ages e) h, inl refl)
        | inl e ↦
            let here : rec.challenge_id ≡ id = ground (arith, eq_iff rec.challenge_id id) in
            let at_id : o ≡ some cur =
              ap (λ j. lookup j s.by_id) (sym here ∙ same ∙ n k cur at) ∙ at in
            let was = subst (IsSpent key) at_id h in cc
      ];
    }

pub append-IsSafe :
    (id k : String) (s : Store) (cur rec : ChallengeRecord) (t : Transition)
    → lookup k s.by_id ≡ some cur
    → rec.challenge_id ≡ cur.challenge_id
    → is_once cur.state ≡ false
    → is_once t.to ≡ false
    → (is_allow cur.stage2_decision ≡ false → is_allow rec.stage2_decision ≡ false)
    → IsSafe id s (append_transition s rec t).0 none
unfolding append_transition
append-IsSafe id k s cur rec t at same live still blocks =
    write-IsSafe id k s (s.seq + 1) cur (moved s rec t) _ t.just at same live still blocks

-- A write under another id.
pub other-IsSafe :
    (id : String) (s : Store) (seq : ℕ) (rec : ChallengeRecord) (ev : ChallengeEvent)
    (just : Option String)
    → str_eq rec.challenge_id id ≡ false
    → IsSafe id s (put (record s { seq = seq }) rec ev just) none
other-IsSafe id s seq rec ev just e =
    let s0 : Store = record s { seq = seq } in
    let ages = put-Ages s0 rec ev just id e in
    record {
      named = λ n. put-IsNamed s0 rec ev just n;
      quiet = λ n q. inl (Ages-IsQuiet _ _ ages q, refl);
      spent = λ n key h. (Ages-IsSpent key _ _ ages h, inl refl);
    }

-- The live record under `k` is allowed to the retry of its key.
pub allow-IsSafe :
    (id k : String) (s : Store) (cur rec : ChallengeRecord) (t : Transition)
    → lookup k s.by_id ≡ some cur
    → rec.challenge_id ≡ cur.challenge_id
    → is_once cur.state ≡ false
    → t.to ≡ ChallengeState.allowed_once
    → IsSafe id s
        (append_transition s rec t).0
        (if str_eq k id then some (rec.consumed_retry_key, true) else none)
unfolding append_transition
allow-IsSafe id k s cur rec t at same live to =
    let s0 : Store = record s { seq = s.seq + 1 } in
    let own = put-own s0 (moved s rec t) _ t.just id in
    let ages = put-Ages s0 (moved s rec t) _ t.just id in
    record {
      named = λ n. put-IsNamed s0 (moved s rec t) _ t.just n;
      quiet = λ n q.
          let under : rec.challenge_id ≡ k = same ∙ n k cur at in
          elim (Bool-cases (str_eq k id)) [
            | inr e ↦ inl (Ages-IsQuiet _ _ (ages (rw (under, e) refl)) q, rw e refl)
            | inl e ↦ inr (
              rec.consumed_retry_key,
              subst (IsSpent rec.consumed_retry_key) (sym (own (rw (under, e) refl)))
                  (rw to refl, refl),
              rw e refl,
            )
          ];
      spent = λ n key h.
          let under : rec.challenge_id ≡ k = same ∙ n k cur at in
          elim (Bool-cases (str_eq k id)) [
            | inr e ↦ (Ages-IsSpent key _ _ (ages (rw (under, e) refl)) h, inl (rw e refl))
            | inl e ↦
                let here : k ≡ id = ground (arith, eq_iff k id) in
                let was = subst (IsSpent key) (ap (λ j. lookup j s.by_id) (sym here) ∙ at) h in cc
          ];
    }

-- A step that allows nothing, and one after it.
pub seq-IsSafe :
    (id : String) (s s1 s2 : Store) (ans : Allowance)
    → IsSafe id s s1 none
    → IsSafe id s1 s2 ans
    → IsSafe id s s2 ans
seq-IsSafe id s s1 s2 ans first second = record {
  named = λ n. second.named (first.named n);
  quiet = λ n q. elim (first.quiet n q) [ inl h ↦ second.quiet (first.named n) h.0 | inr h ↦ cc ];
  spent = λ n k h. second.spent (first.named n) k (first.spent n k h).0;
}
