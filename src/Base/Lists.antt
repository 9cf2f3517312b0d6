-- ===== src/Base/Lists.antt =====
-- Lists measured in native numbers.
use Prim.Native.Nat.{ℕ, zero, suc, ◌+◌}
use Prim.Native.Char.{code}
use Prim.Native.String.{String}
use mathlib.Core.Bool.{Bool, true, false, ◌&&◌}
use filsys.Base.Tests.{◌==◌, if◌then◌else◌}
use mathlib.Core.List.{List, [], ◌∷◌}

abbrev pub length {ℓ} : {A : Type ℓ} → List A → ℕ
length [] = 0
length (x ∷ xs) = length xs + 1

-- A C string: its bytes, without the NUL.
abbrev pub Name : Type 0
Name = List ℕ

-- A string literal of C.
abbrev pub codes : String → Name
codes String.[] = []
codes (String.◌∷◌ c s) = code c ∷ codes s

-- The bytes of the string, with the zeros behind it.
abbrev pub text : Name → ℕ → ℕ
text [] i = 0
text (c ∷ s) zero = c
text (c ∷ s) (suc i) = text s i

-- `strcmp(a, b) == 0`
unfoldable pub same_name : Name → Name → Bool
same_name [] [] = true
same_name [] (y ∷ b) = false
same_name (x ∷ a) [] = false
same_name (x ∷ a) (y ∷ b) = (x == y) && same_name a b

-- `strchr(a, c) != NULL`, at a `c` that is not 0
unfoldable pub has_char : ℕ → Name → Bool
has_char c [] = false
has_char c (x ∷ a) = if x == c then true else has_char c a
