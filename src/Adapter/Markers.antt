-- ===== src/Adapter/Markers.antt =====
-- The suppress markers of pkg/adapter/durable_advice_ledger.go: the keys, the marker files of the sidecar
-- directory, and what an opening makes of them. A file's name is the hash of its key, of which no two
-- keys share one, so the key stands for it here. The bodies are those that MarkAmbiguousSuppress writes;
-- a body that does not load stands for any other. Symbolic links
-- are left out, and the texts are valid UTF-8.
use reinframe.Prelude.{
  ℕ, ◌+◌, ◌/◌, ◌%◌, String, Char, code, Bool, true, false, not, ◌&&◌, ◌||◌, ◌==◌, Option, none,
  some, List, [], ◌∷◌, str_eq, is_empty, ltb, leb, ◌⧺◌, if◌then◌else◌,
}

-- `dedupeKey`: the four texts that the JSON array holds.
pub record DedupeKey : Type 0 where
  pub intervention : String
  pub session : String
  pub host : String
  pub action : String

abbrev pub dedupe_key : String → String → String → String → DedupeKey
dedupe_key i s h f = record { intervention = i; session = s; host = h; action = f }

unfoldable pub key_eq : DedupeKey → DedupeKey → Bool
key_eq a b =
    str_eq a.intervention b.intervention
    && str_eq a.session b.session
    && str_eq a.host b.host
    && str_eq a.action b.action

unfoldable pub has_key : DedupeKey → List DedupeKey → Bool
unfolding key_eq
has_key k [] = false
has_key k (j ∷ ks) = key_eq j k || has_key k ks

-- One hexadecimal digit.
abbrev hex_digit : ℕ → String
hex_digit n =
    if n == 0
    then "0"
    else if n == 1
    then "1"
    else if n == 2
    then "2"
    else if n == 3
    then "3"
    else if n == 4
    then "4"
    else if n == 5
    then "5"
    else if n == 6
    then "6"
    else if n == 7
    then "7"
    else if n == 8
    then "8"
    else if n == 9
    then "9"
    else if n == 10
    then "a"
    else if n == 11
    then "b"
    else if n == 12
    then "c"
    else if n == 13
    then "d"
    else if n == 14
    then "e"
    else "f"

-- A character in a text of `json.Marshal`.
unfoldable pub json_char : Char → String
json_char c =
    let n = code c in
    if n == 34 || n == 92
    then "\\" ⧺ String.◌∷◌ c String.[]
    else if n == 8
    then "\\b"
    else if n == 9
    then "\\t"
    else if n == 10
    then "\\n"
    else if n == 12
    then "\\f"
    else if n == 13
    then "\\r"
    else if ltb n 32 || n == 38 || n == 60 || n == 62
    then "\\u00" ⧺ hex_digit (n / 16) ⧺ hex_digit (n % 16)
    else if n == 0x2028
    then "\\u2028"
    else if n == 0x2029
    then "\\u2029"
    else String.◌∷◌ c String.[]

unfoldable pub json_chars : String → String
unfolding json_char
json_chars String.[] = String.[]
json_chars (String.◌∷◌ c s) = json_char c ⧺ json_chars s

abbrev json_text : String → String
json_text s = "\"" ⧺ json_chars s ⧺ "\""

-- The text of `dedupeKey`.
unfoldable pub json_array : DedupeKey → String
unfolding json_chars
json_array k =
    "["
    ⧺ json_text k.intervention
    ⧺ ","
    ⧺ json_text k.session
    ⧺ ","
    ⧺ json_text k.host
    ⧺ ","
    ⧺ json_text k.action
    ⧺ "]"

-- `len` of a text in UTF-8.
unfoldable pub utf8_length : String → ℕ
utf8_length String.[] = 0
utf8_length (String.◌∷◌ c s) =
    let n = code c in
    (if ltb n 0x80 then 1 else if ltb n 0x800 then 2 else if ltb n 0x10000 then 3 else 4)
    + utf8_length s

-- `maxSuppressMarkerBytes`
abbrev pub max_marker_bytes : ℕ
max_marker_bytes = 4096

-- The size of a marker's body: the key and a newline.
unfoldable pub marker_size : DedupeKey → ℕ
unfolding json_array utf8_length
marker_size k = utf8_length (json_array k) + 1

-- `parseAndValidateMarkerBody` accepts the body of the key.
unfoldable pub is_current : DedupeKey → Bool
is_current k = leb (marker_size k) max_marker_bytes && not (is_empty k.intervention)

-- The text up to the first `|`, and the texts behind each.
unfoldable pub split_pipes : String → String × List String
split_pipes String.[] = ("", [])
split_pipes (String.◌∷◌ c s) =
    let (first, rest) = split_pipes s in
    if code c == 124 then ("", first ∷ rest) else (String.◌∷◌ c first, rest)

-- `tryParseLegacyPipeKey` on a text that is trimmed, with the key that is made of its parts.
unfoldable pub legacy_parts : String × List String → Option DedupeKey
legacy_parts (a, b ∷ c ∷ d ∷ []) = if is_empty a then none else some (dedupe_key a b c d)
legacy_parts _ = none

-- What `loadMarkerFile` makes of a key's body that the current encoding refuses: a body with three `|`
-- is taken for one of the old form, and migrated to another key.
unfoldable pub legacy_key : DedupeKey → Option DedupeKey
unfolding json_array split_pipes legacy_parts
legacy_key k = legacy_parts (split_pipes (json_array k))

-- A file of the sidecar directory: `.key`, or `.key.tmp` where `temp` holds. It is whole if its body is
-- that of the key; what is left of a failed write, up to the newline, is not.
pub record Marker : Type 0 where
  pub name : DedupeKey
  pub temp : Bool
  pub whole : Bool

-- The key that `loadMarkerFile` finds.
unfoldable pub load_marker : Marker → Option DedupeKey
load_marker m =
    if not m.whole then none else if is_current m.name then some m.name else legacy_key m.name

abbrev pub is_file : DedupeKey → Bool → Marker → Bool
is_file k temp m = key_eq m.name k && (if temp then m.temp else not m.temp)

-- The directory without the file of the key.
unfoldable pub remove_marker : DedupeKey → Bool → List Marker → List Marker
unfolding key_eq
remove_marker k temp [] = []
remove_marker k temp (m ∷ ms) =
    let rest = remove_marker k temp ms in if is_file k temp m then rest else m ∷ rest

-- A file is written or renamed over the one of its name.
unfoldable pub put_marker : Marker → List Marker → List Marker
unfolding remove_marker
put_marker m ms = m ∷ remove_marker m.name m.temp ms

-- The opening promotes a temporary marker, and rewrites one that it migrates under the new key.
unfoldable pub recover_marker : Marker → List Marker → List Marker
unfolding put_marker load_marker
recover_marker m ms = elim (load_marker m) [
  | none ↦ ms
  | some k ↦
      if m.temp || not (is_current m.name)
      then put_marker (record { name = k; temp = false; whole = true })
          (remove_marker m.name m.temp ms)
      else ms
]

-- The directory after an opening that has gone over all its files.
unfoldable pub recover_markers : List Marker → List Marker → List Marker
unfolding recover_marker
recover_markers [] dir = dir
recover_markers (m ∷ ms) dir = recover_markers ms (recover_marker m dir)
