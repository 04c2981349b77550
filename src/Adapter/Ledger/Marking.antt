-- ===== src/Adapter/Ledger/Marking.antt =====
-- The suppress markers of pkg/adapter/durable_advice_ledger.go: what marks leave and openings find.
use reinframe.Prelude.{
  if◌then◌else◌, ◌≤◌, Bool, Bool-cases, true, false, not, ◌&&◌, ◌||◌, Option, Option-cases, none,
  some, List, [], ◌∷◌, is_empty, eq_iff, ◌≡◌, refl, ap, inl, inr, arith,
}
use reinframe.Adapter.Markers.{
  DedupeKey, key_eq, has_key, Marker, marker_size, max_marker_bytes, is_current, legacy_key,
  load_marker, is_file, remove_marker, put_marker,
}
use reinframe.Adapter.Ledger.{
  LedgerErr, marker_invalid, recovery_incomplete, keys, bad, load_markers, MarkIo, installed,
  unmarked, part_marked, temp_left, temp_removed, write_marker,
}

abbrev pub has_value : Option DedupeKey → Bool
has_value none = false
has_value (some k) = true

-- The body of the key is too large, but is taken for one of the old form.
abbrev pub is_migrated : DedupeKey → Bool
is_migrated k = not (is_current k) && has_value (legacy_key k)

abbrev key_is : DedupeKey → Option DedupeKey → Bool
key_is k none = false
key_is k (some j) = key_eq j k

-- The opening finds the key in the marker.
abbrev loads : DedupeKey → Marker → Bool
loads k m = key_is k (load_marker m)

-- The marker is one that a mark has put in place for the key.
abbrev names : DedupeKey → Marker → Bool
names k m = not m.temp && m.whole && key_eq m.name k

-- The opening finds the key in a marker that is not in place, or not the key's own.
abbrev strays : DedupeKey → Marker → Bool
strays k m = (m.temp || is_migrated m.name) && loads k m

unfoldable pub loaded_have : DedupeKey → List Marker → Bool
loaded_have k [] = false
loaded_have k (m ∷ ms) = loads k m || loaded_have k ms

unfoldable pub markers_have : DedupeKey → List Marker → Bool
markers_have k [] = false
markers_have k (m ∷ ms) = names k m || markers_have k ms

unfoldable pub strays_have : DedupeKey → List Marker → Bool
strays_have k [] = false
strays_have k (m ∷ ms) = strays k m || strays_have k ms

-- Every marker loads.
unfoldable pub markers_valid : List Marker → Bool
markers_valid [] = true
markers_valid (m ∷ ms) = has_value (load_marker m) && markers_valid ms

pub key_eq-same : (a b : DedupeKey) → key_eq a b ≡ true → a ≡ b
unfolding key_eq
key_eq-same a b h =
    let i : a.intervention ≡ b.intervention =
      ground (arith, h, eq_iff a.intervention b.intervention) in
    let s : a.session ≡ b.session = ground (arith, h, eq_iff a.session b.session) in
    let t : a.host ≡ b.host = ground (arith, h, eq_iff a.host b.host) in
    let f : a.action ≡ b.action = ground (arith, h, eq_iff a.action b.action) in cc (i, s, t, f)

pub load_markers-keys :
    (ms : List Marker) (seen : List DedupeKey)
    → markers_valid ms ≡ true
    → (all : List DedupeKey) × (load_markers ms seen ≡ keys all)
      × ((k : DedupeKey) → has_key k all ≡ (has_key k seen || loaded_have k ms))
unfolding load_markers markers_valid loaded_have has_key
load_markers-keys [] seen v = (seen, refl, (λ k. ground arith))
load_markers-keys (m ∷ ms) seen v = elim (Option-cases (load_marker m)) [
  | inl e ↦ absurd (ground (arith, rw e at v))
  | inr (j, e) ↦
      let later : markers_valid ms ≡ true = unfold markers_valid in ground (arith, v) in
      let (all, read, has) = load_markers-keys ms (j ∷ seen) later in
      (all, rw (load_markers, e) read, (λ k. rw (loaded_have, e) (ground (arith, has k))))
]

pub load_markers-bad :
    (ms : List Marker) (seen : List DedupeKey)
    → markers_valid ms ≡ false
    → (e : LedgerErr) × (load_markers ms seen ≡ bad e)
unfolding load_markers markers_valid
load_markers-bad [] seen v = absurd (cc)
load_markers-bad (m ∷ ms) seen v = elim (Option-cases (load_marker m)) [
  | inl e ↦ ((if m.temp then recovery_incomplete else marker_invalid), rw (load_markers, e) refl)
  | inr (j, e) ↦
      let (err, read) = load_markers-bad ms (j ∷ seen) (rw e at v) in
      (err, rw (load_markers, e) read)
]

load-current :
    (m : Marker) → m.whole ≡ true → is_current m.name ≡ true → load_marker m ≡ some m.name
unfolding load_marker
load-current m w c = rw (load_marker, w, c) refl

load-legacy :
    (m : Marker) → m.whole ≡ true → is_current m.name ≡ false → load_marker m ≡ legacy_key m.name
unfolding load_marker
load-legacy m w c = rw (load_marker, w, c) refl

load-torn : (m : Marker) → m.whole ≡ false → load_marker m ≡ none
unfolding load_marker
load-torn m w = rw (load_marker, w) refl

-- What an opening finds was in place, or is a stray.
found : (k : DedupeKey) (m : Marker) → loads k m ≡ true → (names k m || strays k m) ≡ true
found k m h = elim (Bool-cases m.whole) [
  | inr w ↦ absurd (ground (arith, rw (load-torn m w) at h))
  | inl w ↦ elim (Bool-cases (is_current m.name)) [
    | inl c ↦
        let own : key_eq m.name k ≡ true = rw (load-current m w c) at h in
        elim (Bool-cases m.temp) [
          | inl t ↦ ground (arith, w, own, t, h)
          | inr t ↦ ground (arith, w, own, t, h)
        ]
    | inr c ↦ elim (Option-cases (legacy_key m.name)) [
      | inl e ↦ absurd (ground (arith, rw (load-legacy m w c, e) at h))
      | inr (j, e) ↦
          let moved : is_migrated m.name ≡ true = rw (is_migrated, c, e) refl in
          ground (arith, moved, h)
    ]
  ]
]

pub loaded_have-found :
    (k : DedupeKey) (ms : List Marker)
    → loaded_have k ms ≡ true
    → (markers_have k ms || strays_have k ms) ≡ true
unfolding loaded_have markers_have strays_have
loaded_have-found k [] h = cc
loaded_have-found k (m ∷ ms) h = elim (Bool-cases (loads k m)) [
  | inl e ↦ ground (arith, found k m e)
  | inr e ↦ ground (arith, loaded_have-found k ms (rw e at h))
]

-- A marker in place is found, unless it is migrated.
names-loads :
    (k : DedupeKey) (m : Marker)
    → has_value (load_marker m) ≡ true
    → is_migrated k ≡ false
    → names k m ≡ true
    → loads k m ≡ true
names-loads k m v kept n =
    let w : m.whole ≡ true = ground (arith, n) in
    let own : key_eq m.name k ≡ true = ground (arith, n) in
    elim (Bool-cases (is_current m.name)) [
      | inl c ↦ rw (load-current m w c) own
      | inr c ↦
          let moved : is_migrated m.name ≡ true =
            rw (is_migrated, c) (rw (load-legacy m w c) at v) in
          absurd (ground (arith, rw (key_eq-same m.name k own) at moved, kept))
    ]

pub markers_have-loaded :
    (k : DedupeKey) (ms : List Marker)
    → markers_valid ms ≡ true
    → is_migrated k ≡ false
    → markers_have k ms ≡ true
    → loaded_have k ms ≡ true
unfolding loaded_have markers_have markers_valid
markers_have-loaded k [] v kept h = h
markers_have-loaded k (m ∷ ms) v kept h = elim (Bool-cases (names k m)) [
  | inl e ↦ ground (arith, names-loads k m (ground (arith, v)) kept e)
  | inr e ↦
      let later : markers_valid ms ≡ true = unfold markers_valid in ground (arith, v) in
      ground (arith, markers_have-loaded k ms later kept (rw e at h))
]

markers_have-remove_temp :
    (k j : DedupeKey) (ms : List Marker)
    → markers_have k (remove_marker j true ms) ≡ markers_have k ms
unfolding markers_have remove_marker
markers_have-remove_temp k j [] = refl
markers_have-remove_temp k j (m ∷ ms) = elim (Bool-cases (is_file j true m)) [
  | inl e ↦
      let t : m.temp ≡ true = ground (arith, e) in
      rw (remove_marker, markers_have, e, t) (markers_have-remove_temp k j ms)
  | inr e ↦
      rw (remove_marker, markers_have, e)
        (ap (λ b. names k m || b) (markers_have-remove_temp k j ms))
]

markers_have-remove_file :
    (k j : DedupeKey) (ms : List Marker)
    → (key_eq j k || markers_have k (remove_marker j false ms)) ≡ (key_eq j k || markers_have k ms)
unfolding markers_have remove_marker
markers_have-remove_file k j [] = refl
markers_have-remove_file k j (m ∷ ms) = elim (Bool-cases (is_file j false m)) [
  | inl e ↦
      let own : key_eq m.name j ≡ true = ground (arith, e) in
      let same : key_eq m.name k ≡ key_eq j k = ap (λ n. key_eq n k) (key_eq-same m.name j own) in
      let rest = markers_have-remove_file k j ms in
      rw (remove_marker, e, markers_have, same) (ground (arith, rest))
  | inr e ↦
      let rest = markers_have-remove_file k j ms in
      rw (remove_marker, e, markers_have) (ground (arith, rest))
]

markers_valid-remove :
    (j : DedupeKey) (temp : Bool) (ms : List Marker)
    → markers_valid ms ≡ true
    → markers_valid (remove_marker j temp ms) ≡ true
unfolding markers_valid remove_marker
markers_valid-remove j temp [] v = refl
markers_valid-remove j temp (m ∷ ms) v =
    let later : markers_valid ms ≡ true = unfold markers_valid in ground (arith, v) in
    let rest = markers_valid-remove j temp ms later in
    let here : has_value (load_marker m) ≡ true = unfold markers_valid in ground (arith, v) in
    elim (Bool-cases (is_file j temp m)) [
      | inl e ↦ rw (remove_marker, e) rest
      | inr e ↦ rw (remove_marker, e, markers_valid, here) rest
    ]

-- What a mark leaves in place.
abbrev pub puts : MarkIo → Bool
puts installed = true
puts _ = false

pub markers_have-write :
    (k j : DedupeKey) (io : MarkIo) (ms : List Marker)
    → markers_have k (write_marker io j ms) ≡ (markers_have k ms || (puts io && key_eq j k))
unfolding write_marker put_marker markers_have
markers_have-write k j installed ms =
    let rest = markers_have-remove_file k j (remove_marker j true ms) in
    let same = markers_have-remove_temp k j ms in ground (arith, rest, same)
markers_have-write k j unmarked ms = ground arith
markers_have-write k j part_marked ms = ground (arith, markers_have-remove_temp k j ms)
markers_have-write k j temp_left ms = ground (arith, markers_have-remove_temp k j ms)
markers_have-write k j temp_removed ms = ground (arith, markers_have-remove_temp k j ms)

-- A mark whose marker is whole and not too large.
abbrev pub IsSound : MarkIo → DedupeKey → Type 0
IsSound part_marked k = ⊥
IsSound _ k = marker_size k ≤ max_marker_bytes

whole_loads :
    (k : DedupeKey) (temp : Bool)
    → is_empty k.intervention ≡ false
    → marker_size k ≤ max_marker_bytes
    → has_value (load_marker (record { name = k; temp = temp; whole = true })) ≡ true
unfolding is_current
whole_loads k temp named fits =
    let fine : is_current k ≡ true = rw (is_current, named) (ground (arith, fits)) in
    rw (load-current (record { name = k; temp = temp; whole = true }) refl fine) refl

pub markers_valid-write :
    (j : DedupeKey) (io : MarkIo) (ms : List Marker)
    → is_empty j.intervention ≡ false
    → IsSound io j
    → markers_valid ms ≡ true
    → markers_valid (write_marker io j ms) ≡ true
unfolding write_marker put_marker markers_valid
markers_valid-write j installed ms named fits v =
    let rest = markers_valid-remove j false _ (markers_valid-remove j true ms v) in
    rw (whole_loads j false named fits) rest
markers_valid-write j unmarked ms named fits v = v
markers_valid-write j part_marked ms named fits v = absurd fits
markers_valid-write j temp_left ms named fits v =
    rw (whole_loads j true named fits) (markers_valid-remove j true ms v)
markers_valid-write j temp_removed ms named fits v = markers_valid-remove j true ms v
