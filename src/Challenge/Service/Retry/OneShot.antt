-- ===== src/Challenge/Service/Retry/OneShot.antt =====
-- All steps of pkg/challenge/service.go, interleaved in any order: a challenge is allowed once.
use reinframe.Prelude.{
  ℕ, String, Bool, true, false, none, some, List, [], ◌∷◌, All, lookup, str_eq, ◌≡◌, refl, inl, inr,
  Option-cases,
}
use reinframe.Challenge.Store.{ChallengeRecord, Store, get}
use reinframe.Challenge.Service.{
  RetryRequest, expire_if_needed, abandon, expire_due, justify_locked,
}
use reinframe.Challenge.Service.Opening.{OpenCase, Appeal, open_locked}
use reinframe.Challenge.Service.Safe.{IsQuiet, IsSpent, IsNamed, Allowance, IsSafe, stay-IsSafe}
use reinframe.Challenge.Service.Retry.{Attempt, begin, after_wait}
use reinframe.Challenge.Service.Retry.Settle.{ReEvalResult, settle, cancel}
use reinframe.Challenge.Service.Retry.Beginning.{
  allowance, begun_allowance, reply-IsSafe, begin-IsSafe,
}
use reinframe.Challenge.Service.Retry.Silent.{
  cancel-Silent, abandon-Silent, justify_locked-Silent, expire_if_needed-Silent, expire_due-Silent,
  open_locked-Silent,
}
use reinframe.Challenge.Service.Retry.Settling.{after_wait-Repeats, settle-IsSafe}

-- One step of a call of the service, in any interleaving; an attempt is what the checks before the lock
-- have made of it, whatever they were.
pub data Step : Type 0 where
  opens : OpenCase → Appeal → ℕ → Step
  checks : ChallengeRecord → ℕ → Step
  justifies : String → String → ℕ → Step
  begins : RetryRequest → Attempt → ℕ → Step
  wakes : RetryRequest → Attempt → Step
  settles : RetryRequest → Attempt → ReEvalResult → ℕ → Step
  cancels : RetryRequest → Attempt → ℕ → Step
  abandons : String → String → ℕ → Step
  expires : ℕ → Step

-- The store after a step, and what the step's answer allows the challenge `id`.
unfoldable pub step : String → Store → Step → Store × Allowance
step id s (opens c appeal now) = ((open_locked s c appeal now).0, none)
step id s (checks rec now) = ((expire_if_needed s rec now).0, none)
step id s (justifies k hash now) = ((justify_locked s k hash now).0, none)
step id s (begins req a now) = let r = begin s req a now in (r.0, begun_allowance id req a r.1)
step id s (wakes req a) = (
  s,
  elim (get s req.challenge_id) [ none ↦ none | some rec ↦ allowance id req a (after_wait rec a) ],
)
step id s (settles req a re now) = let r = settle s req a re now in (r.0, allowance id req a r.1)
step id s (cancels req a now) = (cancel s req a now, none)
step id s (abandons k corr now) = ((abandon s k corr now).0, none)
step id s (expires now) = ((expire_due s now).0, none)

-- No challenge is opened under the id.
abbrev pub Spares : String → Step → Type 0
Spares id (opens c appeal now) = str_eq c.challenge_id id ≡ false
Spares id _ = Unit {0}

step-IsSafe :
    (id : String) (s : Store) (c : Step) → Spares id c → IsSafe id s (step id s c).0 (step id s c).1
unfolding step get
step-IsSafe id s (opens c appeal now) fresh = open_locked-Silent id s c appeal now fresh
step-IsSafe id s (checks rec now) fresh = expire_if_needed-Silent id s rec now
step-IsSafe id s (justifies k hash now) fresh = justify_locked-Silent id s k hash now
step-IsSafe id s (begins req a now) fresh = begin-IsSafe id s req a now
step-IsSafe id s (wakes req a) fresh = elim (Option-cases (lookup req.challenge_id s.by_id)) [
  | inl e ↦ rw (e, step) (stay-IsSafe id s)
  | inr (rec, e) ↦
      rw (e, step) (reply-IsSafe id s req a rec (after_wait rec a) e (after_wait-Repeats rec a))
]
step-IsSafe id s (settles req a re now) fresh = settle-IsSafe id s req a re now
step-IsSafe id s (cancels req a now) fresh = cancel-Silent id s req a now
step-IsSafe id s (abandons k corr now) fresh = abandon-Silent id s k corr now
step-IsSafe id s (expires now) fresh = expire_due-Silent id s now

abbrev with_allowance : Allowance → List (String × Bool) → List (String × Bool)
with_allowance none rest = rest
with_allowance (some a) rest = a ∷ rest

-- The allowances of the steps, in their order.
unfoldable pub allowances : String → Store → List Step → List (String × Bool)
allowances id s [] = []
allowances id s (c ∷ cs) = with_allowance (step id s c).1 (allowances id (step id s c).0 cs)

-- All are repetitions for the key.
abbrev pub Repeated : String → List (String × Bool) → Type 0
Repeated k [] = Unit {0}
Repeated k ((key, first) ∷ rest) = (key ≡ k) × (first ≡ false) × Repeated k rest

-- The first is a first one, and the others repeat it.
abbrev pub IsOneShot : List (String × Bool) → Type 0
IsOneShot [] = Unit {0}
IsOneShot ((key, first) ∷ rest) = (first ≡ true) × Repeated key rest

spent-Repeated :
    (id k : String) (s : Store) (cs : List Step)
    → IsNamed s.by_id
    → IsSpent k (lookup id s.by_id)
    → All (Spares id) cs
    → Repeated k (allowances id s cs)
unfolding allowances
spent-Repeated id k s [] n h fresh = tt
spent-Repeated id k s (c ∷ cs) n h fresh =
    let safe = step-IsSafe id s c fresh.0 in
    let (later, ans) = safe.spent n k h in
    let rest = spent-Repeated id k (step id s c).0 cs (safe.named n) later fresh.1 in
    elim ans [ inl e ↦ rw e rest | inr e ↦ rw e (refl, refl, rest) ]

-- Whatever calls of the service are made, and however their locked parts interleave, a challenge that
-- was not allowed before is allowed to one retry: at most one answer is a first ALLOW, it comes before
-- any other ALLOW, and all others repeat it to a retry of the same key. New challenges are taken to be
-- given other ids.
pub retries-IsOneShot :
    (id : String) (s : Store) (cs : List Step)
    → IsNamed s.by_id
    → IsQuiet (lookup id s.by_id)
    → All (Spares id) cs
    → IsOneShot (allowances id s cs)
unfolding allowances
retries-IsOneShot id s [] n q fresh = tt
retries-IsOneShot id s (c ∷ cs) n q fresh =
    let safe = step-IsSafe id s c fresh.0 in
    elim (safe.quiet n q) [
      | inl (still, e) ↦ rw e (retries-IsOneShot id (step id s c).0 cs (safe.named n) still fresh.1)
      | inr (k, spent, e) ↦
          rw e (refl, spent-Repeated id k (step id s c).0 cs (safe.named n) spent fresh.1)
    ]
