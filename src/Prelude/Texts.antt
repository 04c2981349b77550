-- ===== src/Prelude/Texts.antt =====
-- Texts: the test `==` on strings, and decimal numbers as `fmt.Sprintf("%d")` prints them.
use Prim.Native.Nat.{ℕ, zero, suc, ◌/◌, ◌%◌}
use Prim.Native.Char.{Char}
use Prim.Native.String.{String}
use mathlib.Core.Path.{◌≡◌, refl}
use mathlib.Core.Logic.{◌≢◌}
use mathlib.Core.Bool.{Bool, true, false}
use native.Mathlib.Omega.{arith}
use text.Mathlib.Text.{◌==◌}
use text.Mathlib.TextEquality.{eq_iff}
use reinframe.Prelude.Tests.{ltb, if◌then◌else◌}

abbrev pub str_eq : String → String → Bool
str_eq s t = s == t

-- `s == ""`
abbrev pub is_empty : String → Bool
is_empty String.[] = true
is_empty (String.◌∷◌ c s) = false

pub str_eq-false : (s t : String) → s ≢ t → str_eq s t ≡ false
str_eq-false s t h = ground (arith, eq_iff s t)

infixr 66 ◌⧺◌
-- `s + t`
abbrev pub ◌⧺◌ : String → String → String
String.[] ⧺ t = t
(String.◌∷◌ c s) ⧺ t = String.◌∷◌ c (s ⧺ t)

nth_char : String → ℕ → Char
nth_char String.[] n = "?"
nth_char (String.◌∷◌ c s) zero = c
nth_char (String.◌∷◌ c s) (suc n) = nth_char s n

digit : ℕ → Char
unfolding nth_char
digit n = nth_char "0123456789" n

-- The digits of `n` in front of `acc`; the fuel bounds the number of digits.
itoa_from : ℕ → ℕ → String → String
unfolding digit
itoa_from zero n acc = acc
itoa_from (suc f) n acc =
    let longer = itoa_from f (n / 10) (String.◌∷◌ (digit (n % 10)) acc) in
    if ltb n 10 then String.◌∷◌ (digit n) acc else longer

unfoldable pub itoa : ℕ → String
unfolding itoa_from
itoa n = itoa_from (suc n) n ""

itoa_test : itoa 1207 ≡ "1207"
unfolding itoa
itoa_test = refl

pub is_empty→eq : (s : String) → is_empty s ≡ true → s ≡ ""
is_empty→eq String.[] h = refl
is_empty→eq (String.◌∷◌ c s) h = cc

pub not-is_empty→ne : (s : String) → is_empty s ≡ false → s ≢ ""
not-is_empty→ne s h = λ e. absurd (let k : is_empty s ≡ true = rw e in cc)

pub ne→not-is_empty : (s : String) → s ≢ "" → is_empty s ≡ false
ne→not-is_empty String.[] h = absurd (h refl)
ne→not-is_empty (String.◌∷◌ c s) h = refl
