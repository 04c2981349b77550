-- ===== src/Challenge/Justification/Trimming.antt =====
-- What TrimSpace and boundField of pkg/challenge/justification.go leave of a text.
use reinframe.Prelude.{
  ℕ, suc, ◌≤◌, String, Bool, true, false, not, ◌&&◌, ◌||◌, is_empty, leb, ◌≡◌, refl, arith,
  Bool-cases, inl, inr, if_splits,
}
use reinframe.Detector.Fingerprint.{trim_space, trim_left, trim_right, is_space}
use reinframe.Challenge.Justification.{max_field, runes, first_runes, bound_field}

-- The text begins with a character that is no space.
abbrev starts : String → Bool
starts String.[] = false
starts (String.◌∷◌ c s) = not (is_space c)

not-false : {b : Bool} → b ≡ false → not b ≡ true
not-false e = rw e refl

trim_left-starts : (s : String) → (is_empty (trim_left s) || starts (trim_left s)) ≡ true
unfolding trim_left
trim_left-starts String.[] = refl
trim_left-starts (String.◌∷◌ c s) = elim (Bool-cases (is_space c)) [
  | inl e ↦ rw (trim_left, e) (trim_left-starts s)
  | inr e ↦ rw (trim_left, e) (not-false e)
]

starts-trim_right : (s : String) → starts s ≡ true → starts (trim_right s) ≡ true
unfolding trim_right
starts-trim_right String.[] h = h
starts-trim_right (String.◌∷◌ c s) h =
    let solid : is_space c ≡ false = ground (arith, h) in rw (trim_right, solid) h

starts-full : (s : String) → starts s ≡ true → is_empty s ≡ false
starts-full String.[] h = cc
starts-full (String.◌∷◌ c s) h = refl

trim_left-solid : (s : String) → starts s ≡ true → trim_left s ≡ s
unfolding trim_left
trim_left-solid String.[] h = refl
trim_left-solid (String.◌∷◌ c s) h =
    let solid : is_space c ≡ false = ground (arith, h) in rw (trim_left, solid) refl

-- A text that begins with no space is not blank.
starts-trim_space : (s : String) → starts s ≡ true → is_empty (trim_space s) ≡ false
unfolding trim_space
starts-trim_space s h =
    rw (trim_space, trim_left-solid s h) (starts-full (trim_right s) (starts-trim_right s h))

trim_right-empty : (s : String) → is_empty s ≡ true → is_empty (trim_right s) ≡ true
unfolding trim_right
trim_right-empty String.[] h = refl
trim_right-empty (String.◌∷◌ c s) h = cc

trim_space-starts : (s : String) → is_empty (trim_space s) ≡ false → starts (trim_space s) ≡ true
unfolding trim_space
trim_space-starts s h = elim (Bool-cases (is_empty (trim_left s))) [
  | inl e ↦ absurd (ground (arith, h, trim_right-empty (trim_left s) e))
  | inr e ↦ starts-trim_right (trim_left s) (ground (arith, e, trim_left-starts s))
]

starts-first_runes : (n : ℕ) (s : String) → starts s ≡ true → starts (first_runes (suc n) s) ≡ true
starts-first_runes n String.[] h = h
starts-first_runes n (String.◌∷◌ c s) h = h

pub bound_field-full :
    (s : String) → is_empty (trim_space s) ≡ false → is_empty (trim_space (bound_field s)) ≡ false
bound_field-full s h =
    let begins = trim_space-starts s h in
    if_splits (λ (t : String). is_empty (trim_space t) ≡ false)
      (leb (runes (trim_space s)) max_field) (λ _. starts-trim_space (trim_space s) begins)
      (λ _.
        starts-trim_space (first_runes max_field (trim_space s))
          (starts-first_runes 499 (trim_space s) begins))

runes-trim_left : (s : String) → runes (trim_left s) ≤ runes s
unfolding trim_left
runes-trim_left String.[] = omega arith
runes-trim_left (String.◌∷◌ c s) = elim (Bool-cases (is_space c)) [
  | inl e ↦ rw (trim_left, e) (omega (arith, runes-trim_left s))
  | inr e ↦ rw (trim_left, e) (omega arith)
]

runes-trim_right : (s : String) → runes (trim_right s) ≤ runes s
unfolding trim_right
runes-trim_right String.[] = omega arith
runes-trim_right (String.◌∷◌ c s) =
    if_splits (λ (t : String). runes t ≤ suc (runes s)) (is_space c && is_empty (trim_right s))
      (λ _. omega arith) (λ _. omega (arith, runes-trim_right s))

-- Nothing is cut off a text that is not too long.
pub bound_field-trims : (s : String) → runes s ≤ max_field → bound_field s ≡ trim_space s
unfolding trim_space
bound_field-trims s h =
    let left = runes-trim_left s in
    let right = runes-trim_right (trim_left s) in
    let fits : leb (runes (trim_space s)) max_field ≡ true =
      unfold trim_space in ground (arith, h, left, right) in
    rw fits refl
