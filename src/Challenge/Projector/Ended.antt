-- ===== src/Challenge/Projector/Ended.antt =====
-- Replays of challenges that have ended: Replay and ApplyEvent of pkg/challenge.
use reinframe.Prelude.{
  String, Bool, Bool-cases, true, false, not, ◌&&◌, List, [], ◌∷◌, ◌++◌, is_empty, str_eq, Result,
  ok, err, ◌>>=◌, ◌>>◌, ensure, Ensures, Ensures-bind, Ensures-map, Ensures-eq, eq_iff, ◌≡◌, refl,
  sym, ◌∙◌, inl, inr,
}
use reinframe.Challenge.States.{ChallengeState, is_terminal, validate_transition}
use reinframe.Challenge.States.Paths.{terminal_step}
use reinframe.Challenge.Store.{ChallengeRecord, ChallengeEvent}
use reinframe.Challenge.Projector.{
  same_state, is_unset, ReplayError, no_events, is_revival, seeded, named, project_consumed,
  project, stamp, apply_event, replay_event, replay_one, replay_each, replay,
}

-- The same outcome of a challenge.
pub record SameOutcome (a b : ChallengeRecord) : Type 0 where
  pub state : b.state ≡ a.state
  pub decision : b.stage2_decision ≡ a.stage2_decision
  pub intervention : b.intervention ≡ a.intervention

-- The replay has begun, and keeps the outcome.
abbrev Keeps : ChallengeRecord → Bool × ChallengeRecord → Type 0
Keeps a p = (p.0 ≡ true) × SameOutcome a p.1

keeps_itself : (a : ChallengeRecord) → SameOutcome a a
keeps_itself a = record { state = refl; decision = refl; intervention = refl }

pub terminal_is_set : (st : ChallengeState) → is_terminal st ≡ true → is_unset st ≡ false
unfolding is_terminal is_unset same_state
terminal_is_set ChallengeState.unset h = cc
terminal_is_set ChallengeState.opened h = cc
terminal_is_set ChallengeState.justified h = cc
terminal_is_set ChallengeState.retry_pending h = cc
terminal_is_set ChallengeState.allowed_once h = refl
terminal_is_set ChallengeState.rejected h = refl
terminal_is_set ChallengeState.human_review h = refl
terminal_is_set ChallengeState.abandoned h = refl
terminal_is_set ChallengeState.expired h = refl

pub same_state_refl : (st : ChallengeState) → same_state st st ≡ true
unfolding same_state
same_state_refl ChallengeState.unset = refl
same_state_refl ChallengeState.opened = refl
same_state_refl ChallengeState.justified = refl
same_state_refl ChallengeState.retry_pending = refl
same_state_refl ChallengeState.allowed_once = refl
same_state_refl ChallengeState.rejected = refl
same_state_refl ChallengeState.human_review = refl
same_state_refl ChallengeState.abandoned = refl
same_state_refl ChallengeState.expired = refl

project-consumed :
    (rec : ChallengeRecord) (ev : ChallengeEvent)
    → ev.kind ≡ "budget_consumed"
    → project rec ev ≡ ok (project_consumed rec ev)
unfolding project
project-consumed rec ev k = rw k refl

stamp-consumed :
    (rec : ChallengeRecord) (ev : ChallengeEvent)
    → is_unset ev.to_state ≡ false
    → ev.to_state ≡ rec.state
    → SameOutcome rec (stamp ev (project_consumed rec ev))
unfolding stamp project_consumed
stamp-consumed rec ev set e = record {
  state = rw (set, e) refl;
  decision = refl;
  intervention = refl;
}

-- An event that leads to the state a challenge has ended in changes no part of its outcome.
apply_event-same :
    (rec : ChallengeRecord) (ev : ChallengeEvent)
    → is_terminal rec.state ≡ true
    → ev.to_state ≡ rec.state
    → Ensures (SameOutcome rec) (apply_event rec ev)
unfolding apply_event
apply_event-same rec ev h e =
    let set = terminal_is_set rec.state h in
    let same : same_state rec.state ev.to_state ≡ true = rw e (same_state_refl rec.state) in
    let to_set : is_unset ev.to_state ≡ false = rw e set in
    elim (Bool-cases (str_eq ev.kind "budget_consumed")) [
      | inl k ↦
          rw
            (
              apply_event,
              set,
              same,
              k,
              project-consumed rec ev ((eq_iff ev.kind "budget_consumed").0 k),
            )
            (stamp-consumed rec ev to_set e)
      | inr k ↦
          rw (apply_event, set, same, k)
            (record { state = refl; decision = refl; intervention = refl })
    ]

named-begun : (rec : ChallengeRecord) (ev : ChallengeEvent) → named true rec ev ≡ rec
unfolding named
named-begun rec ev = refl

seeded-set :
    (rec : ChallengeRecord) (ev : ChallengeEvent) → is_unset rec.state ≡ false → seeded rec ev ≡ rec
unfolding seeded
seeded-set rec ev set = rw set refl

replay_event-Keeps :
    (rec : ChallengeRecord) (ev : ChallengeEvent)
    → is_terminal rec.state ≡ true
    → Ensures (Keeps rec) (replay_event true rec ev)
unfolding replay_event
replay_event-Keeps rec ev h =
    let set = terminal_is_set rec.state h in
    elim (Bool-cases (is_revival rec ev)) [
      | inl e ↦ rw (replay_event, e) (refl, keeps_itself rec)
      | inr e ↦ elim (Bool-cases (validate_transition rec.state ev.to_state)) [
        | inl v ↦
            rw (replay_event, e, v, seeded-set rec ev set)
              (Ensures-bind (SameOutcome rec) (Keeps rec) (apply_event rec ev)
                (λ next. ok (true, next))
                (apply_event-same rec ev h (terminal_step rec.state ev.to_state h v))
                λ next kept. (refl, kept))
        | inr v ↦ rw (replay_event, e, v, set) tt
      ]
    ]

outcome_trans : {a b c : ChallengeRecord} → SameOutcome a b → SameOutcome b c → SameOutcome a c
outcome_trans p q = record {
  state = q.state ∙ p.state;
  decision = q.decision ∙ p.decision;
  intervention = q.intervention ∙ p.intervention;
}

replay_one-Keeps :
    (id : String) (a : ChallengeRecord) (at : Bool × ChallengeRecord) (ev : ChallengeEvent)
    → is_terminal a.state ≡ true
    → Keeps a at
    → Ensures (Keeps a) (replay_one id at ev)
unfolding replay_one
replay_one-Keeps id a at ev h (begun, kept) =
    elim (Bool-cases (not (is_empty id) && not (str_eq ev.challenge_id id))) [
      | inl e ↦ rw (replay_one, e) (begun, kept)
      | inr e ↦
          rw (replay_one, e, begun, named-begun at.1 ev)
            (Ensures-map (Keeps at.1) (Keeps a) (replay_event true at.1 ev)
              (λ p k. (k.0, outcome_trans kept k.1)) (replay_event-Keeps at.1 ev (rw kept.state h)))
    ]

replay_each-Keeps :
    (id : String) (a : ChallengeRecord) (at : Bool × ChallengeRecord) (evs : List ChallengeEvent)
    → is_terminal a.state ≡ true
    → Keeps a at
    → Ensures (Keeps a) (replay_each id at evs)
unfolding replay_each
replay_each-Keeps id a at [] h k = k
replay_each-Keeps id a at (ev ∷ evs) h k =
    Ensures-bind (Keeps a) (Keeps a) (replay_one id at ev) (λ next. replay_each id next evs)
      (replay_one-Keeps id a at ev h k) λ next kept. replay_each-Keeps id a next evs h kept

bind_after :
    {A : Type 0} (m : Result ReplayError A) (f g h : A → Result ReplayError A)
    → ((a : A) → h a ≡ (f a >>= g))
    → (m >>= h) ≡ ((m >>= f) >>= g)
bind_after (ok a) f g h k = k a
bind_after (err e) f g h k = refl

pub replay_each-append :
    (id : String) (at : Bool × ChallengeRecord) (xs ys : List ChallengeEvent)
    → replay_each id at (xs ++ ys) ≡ (replay_each id at xs >>= λ next. replay_each id next ys)
unfolding replay_each
replay_each-append id at [] ys = refl
replay_each-append id at (ev ∷ xs) ys =
    bind_after (replay_one id at ev) (λ next. replay_each id next xs)
      (λ next. replay_each id next ys) (λ next. replay_each id next (xs ++ ys))
      (λ next. replay_each-append id next xs ys)

-- A replay that gives a record has seen an event.
abbrev finish : Result ReplayError (Bool × ChallengeRecord) → Result ReplayError ChallengeRecord
finish m = m >>= λ end. ensure end.0 no_events >> ok end.1

finished :
    (m : Result ReplayError (Bool × ChallengeRecord)) (r : ChallengeRecord)
    → finish m ≡ ok r
    → m ≡ ok (true, r)
finished (err e) r h = cc
finished (ok (false, a)) r h = cc
finished (ok (true, a)) r h = cc

-- If a replay gives a challenge that has ended, the replay of the same events with any others after
-- them gives, if it gives a record, one with the same state, decision of stage 2 and intervention.
pub replay-keeps_ended :
    (seed : ChallengeRecord) (xs ys : List ChallengeEvent) (mid out : ChallengeRecord)
    → replay xs seed ≡ ok mid
    → is_terminal mid.state ≡ true
    → replay (xs ++ ys) seed ≡ ok out
    → SameOutcome mid out
unfolding replay
replay-keeps_ended seed xs ys mid out e h e' =
    let id = seed.challenge_id in
    let begun = finished (replay_each id (false, seed) xs) mid e in
    let split : replay_each id (true, mid) ys ≡ replay_each id (false, seed) (xs ++ ys) =
      sym (replay_each-append id (false, seed) xs ys ∙ rw begun refl) in
    let end = finished (replay_each id (false, seed) (xs ++ ys)) out e' in
    (Ensures-eq (Keeps mid) (replay_each id (true, mid) ys)
      (replay_each-Keeps id mid (true, mid) ys h (refl, keeps_itself mid)) (split ∙ end)).1
