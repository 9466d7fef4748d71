-- ===== src/Common/Text.antt =====
-- The text of a literal as bytes, and a number in decimal digits.
use Prim.Native.Nat.{ℕ, zero, suc, ◌+◌, ◌/◌, ◌%◌}
use Prim.Native.Char.{code}
use Prim.Native.String.{String}
use mathlib.Core.List.{List, [], ◌∷◌, ◌++◌}
use lhjsample.Common.Tests.{ltb, if◌then◌else◌}

-- The code points of a text.
abbrev pub codes : String → List ℕ
codes String.[] = []
codes (String.◌∷◌ c s) = code c ∷ codes s

-- A number of at most `k` digits.
abbrev pub digits : ℕ → ℕ → List ℕ
digits zero n = []
digits (suc k) n = (if ltb n 10 then [] else digits k (n / 10)) ++ (48 + n % 10) ∷ []

-- `std::format("{}", …)` of a `UINT16`.
abbrev pub u16_text : ℕ → List ℕ
u16_text n = digits 5 n
