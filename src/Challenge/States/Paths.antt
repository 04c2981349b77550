-- ===== src/Challenge/States/Paths.antt =====
-- Paths of the transition table of pkg/challenge/store.go.
use reinframe.Prelude.{sym, subst, true, List, [], ◌∷◌, ◌≡◌, refl, ◌∙◌, ◌≢◌, ◌⊎◌, inl, inr, arith}
use reinframe.Challenge.States.{
  ChallengeState, opened, justified, retry_pending, allowed_once, is_terminal, validate_transition,
}

-- A path of valid transitions, with its states after the first.
pub data Walk : ChallengeState → List ChallengeState → ChallengeState → Type 0 where
  stay : (s : ChallengeState) → Walk s [] s
  go :
      (s t u : ChallengeState) (ts : List ChallengeState)
      → validate_transition s t ≡ true
      → Walk t ts u
      → Walk s (t ∷ ts) u

-- The state is in the list.
abbrev pub Visits : ChallengeState → List ChallengeState → Type 0
Visits s [] = ⊥
Visits s (t ∷ ts) = (t ≡ s) ⊎ Visits s ts

-- A valid transition out of a terminal state.
pub terminal_step :
    (s t : ChallengeState) → is_terminal s ≡ true → validate_transition s t ≡ true → t ≡ s
unfolding is_terminal validate_transition
terminal_step s t h e = ground arith

terminal_stays :
    {s u : ChallengeState} {ts : List ChallengeState} → is_terminal s ≡ true → Walk s ts u → u ≡ s
terminal_stays h (stay s) = refl
terminal_stays h (go s t u ts e p) =
    let same = terminal_step s t h e in terminal_stays (rw same h) p ∙ same

justified_step :
    (t : ChallengeState)
    → validate_transition justified t ≡ true
    → (t ≡ justified) ⊎ ((t ≡ retry_pending) ⊎ ((is_terminal t ≡ true) × (t ≢ allowed_once)))
unfolding is_terminal validate_transition
justified_step t e = ground arith

opened_step :
    (t : ChallengeState)
    → validate_transition opened t ≡ true
    → (t ≡ opened) ⊎ ((t ≡ justified) ⊎ ((is_terminal t ≡ true) × (t ≢ allowed_once)))
unfolding is_terminal validate_transition
opened_step t e = ground arith

retried :
    {s u : ChallengeState} {ts : List ChallengeState}
    → Walk s ts u
    → s ≡ justified
    → u ≡ allowed_once
    → Visits retry_pending ts
retried (stay s) j a = ground arith
retried (go s t u ts e p) j a =
    elim (justified_step t (subst (λ x. validate_transition x t ≡ true) j e)) [
      | inl same ↦ inr (retried p same a)
      | inr (inl there) ↦ inl there
      | inr (inr (over, ne)) ↦ absurd (ne (sym (terminal_stays over p) ∙ a))
    ]

answered :
    {s u : ChallengeState} {ts : List ChallengeState}
    → Walk s ts u
    → s ≡ opened
    → u ≡ allowed_once
    → Visits justified ts × Visits retry_pending ts
answered (stay s) o a = ground arith
answered (go s t u ts e p) o a =
    elim (opened_step t (subst (λ x. validate_transition x t ≡ true) o e)) [
      | inl same ↦ (let (j, r) = answered p same a in (inr j, inr r))
      | inr (inl there) ↦ (inl there, inr (retried p there a))
      | inr (inr (over, ne)) ↦ absurd (ne (sym (terminal_stays over p) ∙ a))
    ]

-- By valid transitions a challenge leaves no terminal state, and one that is open comes to
-- ALLOWED_ONCE only through JUSTIFIED and RETRY_PENDING.
pub walks :
    {s u : ChallengeState} {ts : List ChallengeState}
    → Walk s ts u
    → (is_terminal s ≡ true → u ≡ s)
      × (s ≡ opened → u ≡ allowed_once → Visits justified ts × Visits retry_pending ts)
walks p = ((λ h. terminal_stays h p), answered p)
