-- ===== src/Common/Int.antt =====
-- Signed numbers over the native numbers, under the library's names, and `INT32` in memory.
use Prim.Native.Nat.{ℕ, suc, ◌+◌, ◌-◌, ◌*◌, ◌/◌, ◌%◌, ◌^◌, ◌≤◌, ◌<◌}
use mathlib.Core.Path.{◌≡◌}
use mathlib.Core.Bool.{Bool}
use mathlib.Core.Option.{Option, some}
use mathlib.Core.List.{List, [], ◌∷◌}
use native.Mathlib.Omega.{arith}
use lhjsample.Common.Tests.{ltb, leb, if◌then◌else◌}
use lhjsample.Common.Lists.{get_elem?}
use lhjsample.Common.Fallible.{◌>>=◌}

-- `negsuc n` is -(n + 1).
pub data ℤ : Type 0 where
  pos : ℕ → ℤ
  negsuc : ℕ → ℤ

abbrev pub pos_part : ℤ → ℕ
pos_part (pos n) = n
pos_part (negsuc n) = 0

abbrev pub neg_part : ℤ → ℕ
neg_part (pos n) = 0
neg_part (negsuc n) = suc n

abbrev pub sub_ℕ : ℕ → ℕ → ℤ
sub_ℕ a b = if leb b a then pos (a - b) else negsuc (b - a - 1)

infixl 65 ◌+ℤ◌ ◌-ℤ◌
infix 50 ◌≤ℤ◌ ◌<ℤ◌
unfoldable pub ◌+ℤ◌ : ℤ → ℤ → ℤ
a +ℤ b = sub_ℕ (pos_part a + pos_part b) (neg_part a + neg_part b)

unfoldable pub ◌-ℤ◌ : ℤ → ℤ → ℤ
a -ℤ b = sub_ℕ (pos_part a + neg_part b) (neg_part a + pos_part b)

abbrev pub ◌≤ℤ◌ : ℤ → ℤ → Type 0
a ≤ℤ b = pos_part a + neg_part b ≤ pos_part b + neg_part a

abbrev pub ◌<ℤ◌ : ℤ → ℤ → Type 0
a <ℤ b = pos_part a + neg_part b < pos_part b + neg_part a

abbrev pub ltb_ℤ : ℤ → ℤ → Bool
ltb_ℤ a b = ltb (pos_part a + neg_part b) (pos_part b + neg_part a)

pub +ℤ-parts :
    (a b : ℤ)
    → pos_part (a +ℤ b) + neg_part a + neg_part b ≡ neg_part (a +ℤ b) + pos_part a + pos_part b
unfolding ◌+ℤ◌
+ℤ-parts a b = ground arith

pub -ℤ-parts :
    (a b : ℤ)
    → pos_part (a -ℤ b) + neg_part a + pos_part b ≡ neg_part (a -ℤ b) + pos_part a + neg_part b
unfolding ◌-ℤ◌
-ℤ-parts a b = ground arith

pub eq_of_parts : (a b : ℤ) → pos_part a + neg_part b ≡ pos_part b + neg_part a → a ≡ b
eq_of_parts a b h = ground arith

-- The number that a 32-bit pattern stands for, and the pattern of a number.
abbrev pub signed32 : ℕ → ℤ
signed32 w = if ltb w (2 ^ 31) then pos w else negsuc (2 ^ 32 - w - 1)

abbrev pub pattern32 : ℤ → ℕ
pattern32 (pos n) = n % 2 ^ 32
pattern32 (negsuc n) = 2 ^ 32 - 1 - n % 2 ^ 32

pub signed32-pattern32 :
    (z : ℤ) → negsuc (2 ^ 31 - 1) ≤ℤ z → z ≤ℤ pos (2 ^ 31 - 1) → signed32 (pattern32 z) ≡ z
signed32-pattern32 (pos n) lo hi = ground arith
signed32-pattern32 (negsuc n) lo hi = ground arith

abbrev pub i32_bytes : ℤ → List ℕ
i32_bytes z = let w = pattern32 z in w % 256 ∷ w / 256 % 256 ∷ w / 65536 % 256 ∷ w / 16777216 ∷ []

unfoldable pub read_i32 : List ℕ → ℕ → Option ℤ
read_i32 m i = do
  a ← get_elem? m i
  b ← get_elem? m (i + 1)
  c ← get_elem? m (i + 2)
  d ← get_elem? m (i + 3)
  some (signed32 (a + 256 * b + 65536 * c + 16777216 * d))
