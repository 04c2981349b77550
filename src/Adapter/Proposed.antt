-- ===== src/Adapter/Proposed.antt =====
-- pkg/adapter/proposed_action.go: whether a proposed tool call runs a full test suite. `lower` maps
-- one character as `unicode.ToLower` does.
use reinframe.Prelude.{
  ℕ, String, Char, code, Bool, true, false, not, ◌&&◌, ◌||◌, ◌==◌, Option, none, some, List, [],
  ◌∷◌, is_empty, str_eq, leb, if◌then◌else◌,
}
use reinframe.Detector.Fingerprint.{trim_space, is_space, map_chars}
use text.Mathlib.Text.{starts_with}

-- The fields of `ProposedAction` that are read here and by the challenges. A revision is not negative.
pub record ProposedAction : Type 0 where
  pub action_id : String
  pub session_id : String
  pub workspace_revision : String
  pub contract_revision : ℕ
  pub tool_name : String
  pub tool_class : String
  pub command : String

-- `strings.Contains`
unfoldable pub contains : String → String → Bool
contains String.[] sub = starts_with String.[] sub
contains (String.◌∷◌ c s) sub = starts_with (String.◌∷◌ c s) sub || contains s sub

abbrev flush : String × List String → List String
flush (word, rest) = if is_empty word then rest else word ∷ rest

-- The word that the text begins with, empty where it begins with a space, and the words after it.
words : String → String × List String
unfolding is_space
words String.[] = (String.[], [])
words (String.◌∷◌ c s) =
    let found = words s in
    if is_space c then (String.[], flush found) else (String.◌∷◌ c found.0, found.1)

-- `strings.Fields`
unfoldable pub fields : String → List String
unfolding words
fields s = flush (words s)

-- `strings.ContainsAny(s, "/\\")`
has_slash : String → Bool
has_slash String.[] = false
has_slash (String.◌∷◌ c s) = code c == 47 || code c == 92 || has_slash s

-- What stands before the first `=`.
before_eq : String → Option String
before_eq String.[] = none
before_eq (String.◌∷◌ c s) =
    let rest = before_eq s in
    if code c == 61
    then some String.[]
    else (elim rest [ none ↦ none | some pre ↦ some (String.◌∷◌ c pre) ])

abbrev is_ident_start : Char → Bool
is_ident_start c = let n = code c in leb 65 n && leb n 90 || leb 97 n && leb n 122 || n == 95

abbrev is_ident_part : Char → Bool
is_ident_part c = let n = code c in is_ident_start c || leb 48 n && leb n 57

ident_parts : String → Bool
ident_parts String.[] = true
ident_parts (String.◌∷◌ c s) = is_ident_part c && ident_parts s

-- `isShellIdent`
unfoldable pub is_shell_ident : String → Bool
unfolding ident_parts
is_shell_ident String.[] = false
is_shell_ident (String.◌∷◌ c s) = is_ident_start c && ident_parts s

-- The first field assigns a variable of the environment.
unfoldable pub is_assignment : String → Bool
unfolding before_eq is_shell_ident
is_assignment lead = elim (before_eq lead) [
  | none ↦ false
  | some pre ↦
      not (is_empty lead) && not (starts_with lead "-") && not (is_empty pre) && is_shell_ident pre
]

-- `strings.EqualFold(s, "test")`: the long s folds to s.
unfoldable pub folds_to_test : String → Bool
folds_to_test (String.◌∷◌ a (String.◌∷◌ b (String.◌∷◌ c (String.◌∷◌ d String.[])))) =
    (code a == 84 || code a == 116)
    && (code b == 69 || code b == 101)
    && (code c == 83 || code c == 115 || code c == 383)
    && (code d == 84 || code d == 116)
folds_to_test _ = false

module _ (lower : Char → Char) where
  -- One argument; the second line repeats some of the first, as in the source.
  is_altering : String → Bool
  is_altering low =
      starts_with low "-toolexec"
      || starts_with low "-exec"
      || starts_with low "-overlay"
      || starts_with low "-linkshared"
      || starts_with low "-buildmode"
      || (str_eq low "-toolexec"
          || str_eq low "-exec"
          || str_eq low "-overlay"
          || str_eq low "-buildmode")

  -- `goTestHasAlteringFlags`
  unfoldable pub go_test_has_altering_flags : List String → Bool
  unfolding is_altering
  go_test_has_altering_flags [] = false
  go_test_has_altering_flags (a ∷ args) =
      is_altering (map_chars lower a) || go_test_has_altering_flags args

  go_arguments : List String → String → Bool
  unfolding go_test_has_altering_flags folds_to_test
  go_arguments [] low = false
  go_arguments (verb ∷ args) low =
      folds_to_test verb
      && not (go_test_has_altering_flags args)
      && (contains low "./..." || contains low "-race" && contains low "./")

  runs_suite : List String → String → Bool
  unfolding is_assignment has_slash go_arguments go_test_has_altering_flags
  runs_suite [] low = false
  runs_suite (argv0 ∷ args) low =
      let base = map_chars lower argv0 in
      not (is_assignment argv0)
      && not (has_slash argv0)
      && (if str_eq base "go"
          then go_arguments args low
          else (str_eq base "gotestsum" || str_eq base "gotest")
            && not (go_test_has_altering_flags args)
            && contains low "./...")

  -- `isFullSuiteText`
  unfoldable pub is_full_suite_text : String → Bool
  unfolding runs_suite fields
  is_full_suite_text s =
      let n = trim_space s in not (is_empty n) && runs_suite (fields n) (map_chars lower n)

  -- `looksLikeCommandString`
  unfoldable pub looks_like_command_string : String → Bool
  looks_like_command_string s =
      let n = trim_space s in
      not (is_empty n) && (contains n " " || contains n "./" || contains n "-" && contains n "test")

  -- `FullSuiteCommand`
  unfoldable pub full_suite_command : ProposedAction → Bool
  unfolding is_full_suite_text looks_like_command_string
  full_suite_command pa =
      if str_eq pa.tool_class "shell" || not (is_empty pa.command)
      then is_full_suite_text pa.command
      else looks_like_command_string pa.tool_name && is_full_suite_text pa.tool_name
