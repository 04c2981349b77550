-- ===== src/Challenge/Projector/Live.antt =====
-- Replay of pkg/challenge/store.go against the record that appendTransitionAudit keeps.
use reinframe.Prelude.{
  arith, ◌+◌, String, Bool, true, false, Option, List, [], ◌∷◌, ◌++◌, All, is_empty, str_eq, ok,
  ◌≡◌, refl, ◌∙◌,
}
use reinframe.Challenge.Store.{
  ChallengeRecord, ChallengeEvent, Store, Transition, moved, put, append_transition,
}
use reinframe.Challenge.Projector.{replay_one, replay_each, replay}
use reinframe.Challenge.Projector.Ended.{replay_each-append}
use reinframe.Challenge.Projector.Steps.{kind_of, is_step, IsChain}
use reinframe.Challenge.Projector.Matching.{Matches, written, replay_one-Matches}

-- The record after the transitions.
abbrev pub live : Store → ChallengeRecord → List Transition → Store × ChallengeRecord
live s rec [] = (s, rec)
live s rec (t ∷ ts) = live (append_transition s rec t).0 (append_transition s rec t).1 ts

put-events :
    (s : Store) (rec : ChallengeRecord) (ev : ChallengeEvent) (just : Option String)
    → (put s rec ev just).events ≡ s.events ++ ev ∷ []
unfolding put
put-events s rec ev just = ground arith

append-written :
    (s : Store) (rec : ChallengeRecord) (t : Transition)
    → (append_transition s rec t).0.events ≡ s.events ++ written s rec t ∷ []
unfolding append_transition
append-written s rec t =
    put-events (record s { seq = s.seq + 1 }) (moved s rec t) (written s rec t) t.just

append-moved :
    (s : Store) (rec : ChallengeRecord) (t : Transition)
    → (append_transition s rec t).1 ≡ moved s rec t
unfolding append_transition
append-moved s rec t = refl

-- A replay of the events of the store has got as far as the live record; `b` says that it has begun.
Follows : String → ChallengeRecord → Bool → Store → ChallengeRecord → Type 0
Follows id seed b s rec =
    (a : ChallengeRecord) × ((replay_each id (false, seed) s.events ≡ ok (b, a))
      × (Matches a rec × (rec.challenge_id ≡ id)))

append-Follows :
    (id : String) (seed : ChallengeRecord) (b : Bool) (s : Store) (rec : ChallengeRecord)
    (t : Transition)
    → t.kind ≡ kind_of t.to
    → is_step rec.state t.to ≡ true
    → Follows id seed b s rec
    → Follows id seed true (append_transition s rec t).0 (append_transition s rec t).1
unfolding Follows replay_each
append-Follows id seed b s rec t k h (a, (e, (m, own))) =
    let ev = written s rec t in
    let (out, (first, matches)) = replay_one-Matches id s (b, a) rec t own m k h in
    let last : replay_each id (b, a) (ev ∷ []) ≡ ok (true, out) = rw (replay_each, first) refl in
    let all : replay_each id (false, seed) (s.events ++ ev ∷ []) ≡ ok (true, out) =
      replay_each-append id (false, seed) s.events (ev ∷ []) ∙ rw e last in
    (
      out,
      (
        rw (append-written s rec t) all,
        (rw (append-moved s rec t) matches, rw (append-moved s rec t) own),
      ),
    )

live-Follows :
    (id : String) (seed : ChallengeRecord) (s : Store) (rec : ChallengeRecord)
    (ts : List Transition)
    → IsChain rec.state ts
    → Follows id seed true s rec
    → Follows id seed true (live s rec ts).0 (live s rec ts).1
live-Follows id seed s rec [] c f = f
live-Follows id seed s rec (t ∷ ts) (k, (h, c)) f =
    live-Follows id seed (append_transition s rec t).0 (append_transition s rec t).1 ts
      (rw (append-moved s rec t) c) (append-Follows id seed true s rec t k h f)

replay_each-foreign :
    (id : String) (at : Bool × ChallengeRecord) (evs : List ChallengeEvent)
    → is_empty id ≡ false
    → All (λ ev. str_eq ev.challenge_id id ≡ false) evs
    → replay_each id at evs ≡ ok at
unfolding replay_each replay_one
replay_each-foreign id at [] h f = refl
replay_each-foreign id at (ev ∷ evs) h (f, fs) =
    rw (replay_each, replay_one, h, f) (replay_each-foreign id at evs h fs)

-- A challenge with an id goes through changes of state that the table allows, or is opened for a human
-- to review, each written by appendTransitionAudit under the name the service uses; the store held no
-- event of it before. Then a replay of the whole log from the first record gives a record, which has
-- the state, the last sequence number, the last time and the audit id of the live one.
pub replay-live :
    (s : Store) (rec : ChallengeRecord) (t : Transition) (ts : List Transition)
    → is_empty rec.challenge_id ≡ false
    → All (λ ev. str_eq ev.challenge_id rec.challenge_id ≡ false) s.events
    → IsChain rec.state (t ∷ ts)
    → (out : ChallengeRecord) × ((replay (live s rec (t ∷ ts)).0.events rec ≡ ok out)
        × Matches out (live s rec (t ∷ ts)).1)
unfolding replay Follows
replay-live s rec t ts h foreign (k, (step, chain)) =
    let id = rec.challenge_id in
    let before : Follows id rec false s rec = (
      rec,
      (
        replay_each-foreign id (false, rec) s.events h foreign,
        (record { state = refl; sequence = refl; time = refl; audit = refl }, refl),
      ),
    ) in
    let after = append-Follows id rec false s rec t k step before in
    let (out, (e, (m, own))) =
      live-Follows id rec (append_transition s rec t).0 (append_transition s rec t).1 ts
        (rw (append-moved s rec t) chain) after in
    (out, (rw (replay, e) refl, m))
