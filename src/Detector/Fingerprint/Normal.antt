-- ===== src/Detector/Fingerprint/Normal.antt =====
-- The normal form of a failure text, and that normalizing reaches it.
use reinframe.Prelude.{
  String, Char, ◌≡◌, refl, ap, Bool, true, false, ◌&&◌, is_empty, arith, if◌then◌else◌, Bool-cases,
  inl, inr, ◌∙◌, sym, subst,
}
use reinframe.Detector.Fingerprint.{
  is_space, is_ws, trim_left, trim_right, trim_space, collapse, map_chars, normalize_fingerprint,
  IsCasing,
}

-- Whether the last character is a space; `b` for the empty text.
abbrev pub last_space : Bool → String → Bool
last_space b String.[] = b
last_space b (String.◌∷◌ c s) = last_space (is_space c) s

abbrev pub first_space : String → Bool
first_space String.[] = false
first_space (String.◌∷◌ c s) = is_space c

is_ws→is_space : (c : Char) → is_ws c ≡ true → is_space c ≡ true
unfolding is_ws is_space
is_ws→is_space c h = ground arith

is_ws_space : is_ws " " ≡ true
unfolding is_ws
is_ws_space = refl

is_space_space : is_space " " ≡ true
unfolding is_space
is_space_space = refl

trim_left-first_space : (s : String) → first_space (trim_left s) ≡ false
unfolding trim_left
trim_left-first_space String.[] = refl
trim_left-first_space (String.◌∷◌ c s) = elim (Bool-cases (is_space c)) [
  | inl e ↦ rw e (trim_left-first_space s)
  | inr e ↦ rw e e
]

first_space-trim_right : (s : String) → first_space s ≡ false → first_space (trim_right s) ≡ false
unfolding trim_right
first_space-trim_right String.[] h = refl
first_space-trim_right (String.◌∷◌ c s) h = rw h h

-- The default does not matter behind a first character.
last_space_cons : (b : Bool) (s : String) → is_empty s ≡ false → last_space b s ≡ last_space false s
last_space_cons b String.[] h = cc
last_space_cons b (String.◌∷◌ c s) h = refl

trim_right-last_space : (s : String) → last_space false (trim_right s) ≡ false
unfolding trim_right
trim_right-last_space String.[] = refl
trim_right-last_space (String.◌∷◌ c s) = keep c (trim_right s) (trim_right-last_space s)
  where
    keep :
        (c : Char) (r : String)
        → last_space false r ≡ false
        → last_space false (if is_space c && is_empty r then String.[] else String.◌∷◌ c r) ≡ false
    keep c String.[] h = elim (Bool-cases (is_space c)) [ inl e ↦ rw e | inr e ↦ rw e e ]
    keep c (String.◌∷◌ d r) h = elim (Bool-cases (is_space c)) [ inl e ↦ rw e h | inr e ↦ rw e h ]

trim_left_of_clean : (s : String) → first_space s ≡ false → trim_left s ≡ s
unfolding trim_left
trim_left_of_clean String.[] h = refl
trim_left_of_clean (String.◌∷◌ c s) h = rw h

trim_right_of_clean : (s : String) → last_space false s ≡ false → trim_right s ≡ s
unfolding trim_right
trim_right_of_clean String.[] h = refl
trim_right_of_clean (String.◌∷◌ c String.[]) h = rw h
trim_right_of_clean (String.◌∷◌ c (String.◌∷◌ d s)) h =
    rw (trim_right_of_clean (String.◌∷◌ d s) h) (ground arith)

first_space-map_chars :
    (f : Char → Char)
    → ((c : Char) → is_space (f c) ≡ is_space c)
    → (s : String) → first_space (map_chars f s) ≡ first_space s
unfolding map_chars
first_space-map_chars f h String.[] = refl
first_space-map_chars f h (String.◌∷◌ c s) = h c

last_space-map_chars :
    (f : Char → Char)
    → ((c : Char) → is_space (f c) ≡ is_space c)
    → (b : Bool) (s : String) → last_space b (map_chars f s) ≡ last_space b s
unfolding map_chars
last_space-map_chars f h b String.[] = refl
last_space-map_chars f h b (String.◌∷◌ c s) =
    last_space-map_chars f h (is_space (f c)) s ∙ ap (λ d. last_space d s) (h c)

-- `f` changes no character of the text.
abbrev pub IsFixed : (Char → Char) → String → Type 0
IsFixed f String.[] = Unit {0}
IsFixed f (String.◌∷◌ c s) = (f c ≡ c) × IsFixed f s

map_chars-IsFixed :
    (f : Char → Char) → ((c : Char) → f (f c) ≡ f c) → (s : String) → IsFixed f (map_chars f s)
unfolding map_chars
map_chars-IsFixed f h String.[] = tt
map_chars-IsFixed f h (String.◌∷◌ c s) = (h c, map_chars-IsFixed f h s)

map_chars_of_fixed : (f : Char → Char) (s : String) → IsFixed f s → map_chars f s ≡ s
unfolding map_chars
map_chars_of_fixed f String.[] h = refl
map_chars_of_fixed f (String.◌∷◌ c s) h = cc (h.0, map_chars_of_fixed f s h.1)

collapse-IsFixed :
    (f : Char → Char)
    → f " " ≡ " "
    → (b : Bool) (s : String) → IsFixed f s
    → IsFixed f (collapse b s)
unfolding collapse
collapse-IsFixed f e b String.[] h = tt
collapse-IsFixed f e b (String.◌∷◌ c s) h =
    let rest = collapse-IsFixed f e (is_ws c) s h.1 in pick (is_ws c) b _ rest
  where
    pick :
        (w v : Bool) (r : String)
        → IsFixed f r
        → IsFixed f (if w then (if v then r else String.◌∷◌ " " r) else String.◌∷◌ c r)
    pick true true r k = k
    pick true false r k = (e, k)
    pick false v r k = (h.0, k)

first_space-collapse : (s : String) → first_space s ≡ false → first_space (collapse false s) ≡ false
unfolding collapse
first_space-collapse String.[] h = refl
first_space-collapse (String.◌∷◌ c s) h = elim (Bool-cases (is_ws c)) [
  | inl e ↦ absurd (let k = is_ws→is_space c e in cc)
  | inr e ↦ rw e h
]

last_space-collapse :
    (b d : Bool) (s : String) → (b ≡ true → d ≡ true) → last_space d (collapse b s) ≡ last_space d s
unfolding collapse
last_space-collapse b d String.[] h = refl
last_space-collapse true d (String.◌∷◌ c s) h = elim (Bool-cases (is_ws c)) [
  | inl e ↦
      rw (e, is_ws→is_space c e)
        (ap (λ x. last_space x (collapse true s)) (h refl)
          ∙ last_space-collapse true true s (λ k. refl))
  | inr e ↦ rw e (last_space-collapse false (is_space c) s (λ k. cc))
]
last_space-collapse false d (String.◌∷◌ c s) h = elim (Bool-cases (is_ws c)) [
  | inl e ↦
      rw (e, is_ws→is_space c e)
        (ap (λ x. last_space x (collapse true s)) is_space_space
          ∙ last_space-collapse true true s (λ k. refl))
  | inr e ↦ rw e (last_space-collapse false (is_space c) s (λ k. cc))
]

-- No run of white space is left: after a space (`b`) comes no white space, and one run is one space.
abbrev pub NoRuns : Bool → String → Type 0
NoRuns b String.[] = Unit {0}
NoRuns b (String.◌∷◌ c s) = (is_ws c ≡ true → (b ≡ false) × (c ≡ " ")) × NoRuns (is_ws c) s

collapse-NoRuns : (b : Bool) (s : String) → NoRuns b (collapse b s)
unfolding collapse
collapse-NoRuns b String.[] = tt
collapse-NoRuns true (String.◌∷◌ c s) = elim (Bool-cases (is_ws c)) [
  | inl e ↦ rw e (collapse-NoRuns true s)
  | inr e ↦ rw (e, e) ((λ k. absurd (cc)), collapse-NoRuns false s)
]
collapse-NoRuns false (String.◌∷◌ c s) = elim (Bool-cases (is_ws c)) [
  | inl e ↦ rw (e, is_ws_space) ((λ k. (refl, refl)), collapse-NoRuns true s)
  | inr e ↦ rw (e, e) ((λ k. absurd (cc)), collapse-NoRuns false s)
]

collapse_of_NoRuns : (b : Bool) (s : String) → NoRuns b s → collapse b s ≡ s
unfolding collapse
collapse_of_NoRuns b String.[] h = refl
collapse_of_NoRuns b (String.◌∷◌ c s) h = elim (Bool-cases (is_ws c)) [
  | inl e ↦
      rw (e, (h.0 e).0)
        (ap (λ r. String.◌∷◌ " " r) (collapse_of_NoRuns true s (subst (λ x. NoRuns x s) e h.1))
          ∙ ap (λ d. String.◌∷◌ d s) (sym (h.0 e).1))
  | inr e ↦ rw e (ap (String.◌∷◌ c) (collapse_of_NoRuns false s (subst (λ x. NoRuns x s) e h.1)))
]

-- What a fingerprint looks like.
pub record IsNormal (lower : Char → Char) (s : String) : Type 0 where
  pub first : first_space s ≡ false
  pub last : last_space false s ≡ false
  pub runs : NoRuns false s
  pub lowered : IsFixed lower s

module _ (lower : Char → Char) (casing : IsCasing lower) where
  IsNormal-of_clean :
      (s : String)
      → first_space s ≡ false
      → last_space false s ≡ false
      → IsNormal lower (collapse false (map_chars lower s))
  IsNormal-of_clean s first last = record {
    first =
        first_space-collapse (map_chars lower s)
          (first_space-map_chars lower casing.lower-is_space s ∙ first);
    last =
        last_space-collapse false false (map_chars lower s) (λ k. k)
        ∙ last_space-map_chars lower casing.lower-is_space false s
        ∙ last;
    runs = collapse-NoRuns false (map_chars lower s);
    lowered =
        collapse-IsFixed lower casing.lower_space false (map_chars lower s)
          (map_chars-IsFixed lower casing.lower_idem s);
  }

  pub normalize-IsNormal : (raw : String) → IsNormal lower (normalize_fingerprint lower raw)
  unfolding normalize_fingerprint trim_space
  normalize-IsNormal raw = elim (Bool-cases (is_empty (trim_space raw))) [
    | inl e ↦ rw e (record { first = refl; last = refl; runs = tt; lowered = tt })
    | inr e ↦ rw e (
        IsNormal-of_clean (trim_space raw)
          (first_space-trim_right (trim_left raw) (trim_left-first_space raw))
          (trim_right-last_space (trim_left raw)))
  ]

  normalize_of_normal : (s : String) → IsNormal lower s → normalize_fingerprint lower s ≡ s
  unfolding normalize_fingerprint trim_space
  normalize_of_normal String.[] n = refl
  normalize_of_normal (String.◌∷◌ c s) n =
      let t = String.◌∷◌ c s in
      rw (trim_left_of_clean t n.first, trim_right_of_clean t n.last)
        (ap (collapse false) (map_chars_of_fixed lower t n.lowered)
          ∙ collapse_of_NoRuns false t n.runs)

  -- For a lower-casing that is idempotent, keeps white space apart from other characters and keeps
  -- the space: a fingerprint is in normal form (no white space at either end, every run of ASCII white
  -- space one single space, all characters lowered), and normalizing it again gives it back.
  pub normalize-IsNormal_idem :
      (raw : String)
      → let fp = normalize_fingerprint lower raw in
        IsNormal lower fp × (normalize_fingerprint lower fp ≡ fp)
  normalize-IsNormal_idem raw = let n = normalize-IsNormal raw in (n, normalize_of_normal _ n)
