-- ===== src/Adapter/Ledger/Reading.antt =====
-- pkg/adapter/durable_advice_ledger.go: what reading valid lines yields.
use reinframe.Prelude.{
  Bool-cases, inl, inr, Bool, true, false, ◌&&◌, ◌||◌, List, [], ◌∷◌, ◌++◌, if◌then◌else◌, ◌≡◌,
  refl, arith, ◌∙◌,
}
use reinframe.Adapter.Markers.{DedupeKey, has_key, key_eq}
use reinframe.Adapter.Ledger.{
  LedgerErr, corrupt, bad, key_of, suppresses, validate_transition, Line, decoded, malformed, keys,
  ingest_lines,
}

abbrev pub line_has : DedupeKey → Line → Bool
line_has k (decoded tr) = suppresses tr.to_state && key_eq (key_of tr) k
line_has k malformed = false

unfoldable pub lines_have : DedupeKey → List Line → Bool
lines_have k [] = false
lines_have k (l ∷ ls) = line_has k l || lines_have k ls

abbrev pub line_valid : Line → Bool
line_valid (decoded tr) = validate_transition tr
line_valid malformed = false

unfoldable pub lines_valid : List Line → Bool
lines_valid [] = true
lines_valid (l ∷ ls) = line_valid l && lines_valid ls

and_left : (a b : Bool) → (a && b) ≡ true → a ≡ true
and_left a b h = ground arith

and_right : (a b : Bool) → (a && b) ≡ true → b ≡ true
and_right a b h = ground arith

pub and_false : (a b : Bool) → a ≡ true → (a && b) ≡ false → b ≡ false
and_false a b e h = ground arith

pub or_swap : (a b : Bool) → (a || b) ≡ (b || a)
or_swap true true = refl
or_swap true false = refl
or_swap false true = refl
or_swap false false = refl

pub or_shuffle : (a m x : Bool) → ((a || m) || x) ≡ ((a || x) || m)
or_shuffle true m x = refl
or_shuffle false m x = or_swap m x

pub has_key-cons :
    (k j : DedupeKey) (seen : List DedupeKey)
    → has_key k (j ∷ seen) ≡ (has_key k seen || key_eq j k)
has_key-cons k j seen = unfold has_key in or_swap (key_eq j k) (has_key k seen)

pub lines_have-append :
    (k : DedupeKey) (ls : List Line) (l : Line)
    → lines_have k (ls ++ l ∷ []) ≡ (lines_have k ls || line_has k l)
unfolding lines_have
lines_have-append k [] l = ground arith
lines_have-append k (x ∷ ls) l = ground (arith, lines_have-append k ls l)

pub lines_valid-append :
    (ls : List Line) (l : Line) → lines_valid (ls ++ l ∷ []) ≡ (lines_valid ls && line_valid l)
unfolding lines_valid
lines_valid-append [] l = ground arith
lines_valid-append (x ∷ ls) l = ground (arith, lines_valid-append ls l)

pub has_key-if :
    (k j : DedupeKey) (b : Bool) (seen : List DedupeKey)
    → has_key k (if b then j ∷ seen else seen) ≡ (has_key k seen || (b && key_eq j k))
has_key-if k j true seen = has_key-cons k j seen
has_key-if k j false seen = ground arith

pub or_middle : (a b c : Bool) → ((a || b) || c) ≡ (a || (b || c))
or_middle true b c = refl
or_middle false b c = refl

-- Reading one line more.
line_first :
    (k j : DedupeKey) (b : Bool) (seen : List DedupeKey) (later : Bool)
    → (has_key k (if b then j ∷ seen else seen) || later)
      ≡ (has_key k seen || ((b && key_eq j k) || later))
line_first k j b seen later = rw (has_key-if k j b seen) (or_middle (has_key k seen) _ later)

-- Reading valid lines succeeds, and yields the keys of the lines that suppress.
pub ingest_lines-keys :
    (ls : List Line) (seen : List DedupeKey)
    → lines_valid ls ≡ true
    → (all : List DedupeKey) × (ingest_lines ls seen ≡ keys all)
      × ((k : DedupeKey) → has_key k all ≡ (has_key k seen || lines_have k ls))
unfolding ingest_lines lines_valid lines_have has_key
ingest_lines-keys [] seen v = (seen, refl, (λ k. ground arith))
ingest_lines-keys (malformed ∷ ls) seen v = absurd (cc)
ingest_lines-keys (decoded tr ∷ ls) seen v =
    let next = if suppresses tr.to_state then key_of tr ∷ seen else seen in
    let (all, read, has) = ingest_lines-keys ls next (and_right (line_valid (decoded tr)) _ v) in
    (
      all,
      rw (and_left (line_valid (decoded tr)) _ v) read,
      (λ k. has k ∙ line_first k (key_of tr) (suppresses tr.to_state) seen (lines_have k ls)),
    )

-- Reading a line that is not valid fails.
pub ingest_lines-bad :
    (ls : List Line) (seen : List DedupeKey)
    → lines_valid ls ≡ false
    → (e : LedgerErr) × (ingest_lines ls seen ≡ bad e)
unfolding ingest_lines lines_valid
ingest_lines-bad [] seen v = absurd (cc)
ingest_lines-bad (malformed ∷ ls) seen v = (corrupt, refl)
ingest_lines-bad (decoded tr ∷ ls) seen v = elim (Bool-cases (validate_transition tr)) [
  | inl e ↦
      let next = if suppresses tr.to_state then key_of tr ∷ seen else seen in
      let later : lines_valid ls ≡ false = unfold lines_valid in and_false _ _ e v in
      let (err, read) = ingest_lines-bad ls next later in (err, rw e read)
  | inr e ↦ (corrupt, rw e)
]
