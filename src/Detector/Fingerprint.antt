-- ===== src/Detector/Fingerprint.antt =====
-- pkg/detector/fingerprint.go. `strings.TrimSpace`, `strings.ToLower` and the expression `\s+` are
-- written out; the case tables of Unicode, which Go's library holds, are the parameter `lower`.
pub mod Normal
use reinframe.Prelude.{
  ℕ, String, Char, code, ◌≡◌, Bool, true, false, not, ◌&&◌, ◌||◌, is_empty, ltb, leb, ◌==◌,
  if◌then◌else◌,
}

-- `unicode.IsSpace`
unfoldable pub is_space_code : ℕ → Bool
is_space_code n =
    (leb 9 n && leb n 13)
    || n == 32
    || n == 0x85
    || n == 0xa0
    || n == 0x1680
    || (leb 0x2000 n && leb n 0x200a)
    || n == 0x2028
    || n == 0x2029
    || n == 0x202f
    || n == 0x205f
    || n == 0x3000

unfoldable pub is_space : Char → Bool
unfolding is_space_code
is_space c = is_space_code (code c)

-- `\s` of the `regexp` package: tab, line feed, form feed, carriage return and space.
unfoldable pub is_ws : Char → Bool
is_ws c = let n = code c in n == 9 || n == 10 || n == 12 || n == 13 || n == 32

unfoldable pub trim_left : String → String
unfolding is_space
trim_left String.[] = String.[]
trim_left (String.◌∷◌ c s) = let rest = trim_left s in if is_space c then rest else String.◌∷◌ c s

unfoldable pub trim_right : String → String
unfolding is_space
trim_right String.[] = String.[]
trim_right (String.◌∷◌ c s) =
    let r = trim_right s in if is_space c && is_empty r then String.[] else String.◌∷◌ c r

-- `strings.TrimSpace`
unfoldable pub trim_space : String → String
unfolding trim_left trim_right
trim_space s = trim_right (trim_left s)

-- `whitespaceRE.ReplaceAllString(s, " ")`; the flag says that the previous character was in a run.
unfoldable pub collapse : Bool → String → String
unfolding is_ws
collapse b String.[] = String.[]
collapse b (String.◌∷◌ c s) =
    let r = collapse (is_ws c) s in
    if is_ws c then (if b then r else String.◌∷◌ " " r) else String.◌∷◌ c r

unfoldable pub map_chars : (Char → Char) → String → String
map_chars f String.[] = String.[]
map_chars f (String.◌∷◌ c s) = String.◌∷◌ (f c) (map_chars f s)

-- `NormalizeFingerprint`
unfoldable pub normalize_fingerprint : (Char → Char) → String → String
unfolding trim_space collapse map_chars
normalize_fingerprint lower raw =
    let s = trim_space raw in if is_empty s then "" else collapse false (map_chars lower s)

-- What the code relies on of the case tables of Unicode.
pub record IsCasing (lower : Char → Char) : Type 0 where
  pub lower_idem : (c : Char) → lower (lower c) ≡ lower c
  pub lower-is_space : (c : Char) → is_space (lower c) ≡ is_space c
  pub lower_space : lower " " ≡ " "
