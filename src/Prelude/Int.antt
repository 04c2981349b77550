-- ===== src/Prelude/Int.antt =====
-- Go's `int` where a negative value may be passed in.
use Prim.Native.Nat.{ℕ, suc}
use Prim.Native.String.{String}
use reinframe.Prelude.Texts.{itoa, ◌⧺◌}

-- `negsuc n` is -(n + 1).
pub data ℤ : Type 0 where
  pos : ℕ → ℤ
  negsuc : ℕ → ℤ

-- `if n <= 0 { n = d }`
abbrev pub positive_or : ℕ → ℤ → ℕ
positive_or d (pos (suc n)) = suc n
positive_or d _ = d

unfoldable pub show_ℤ : ℤ → String
show_ℤ (pos n) = itoa n
show_ℤ (negsuc n) = "-" ⧺ itoa (suc n)
