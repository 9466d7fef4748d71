-- ===== src/Common/Bytes.antt =====
-- Memory as lists of bytes: bounded reads and writes, C strings, little-endian numbers.
use Prim.Native.Nat.{ℕ, zero, suc, ◌+◌, ◌*◌, ◌/◌, ◌%◌, ◌≤◌, ◌<◌}
use mathlib.Core.Path.{◌≡◌, refl, ap}
use mathlib.Core.Bool.{Bool, true, false, ◌&&◌}
use mathlib.Core.Logic.{◌↔◌}
use mathlib.Core.Option
use mathlib.Core.Option.{Option, none, some}
use mathlib.Core.List.{List, [], ◌∷◌, ◌++◌}
use native.Mathlib.Omega.{arith}
use lhjsample.Common.Tests.{leb, le→leb, lt→not-leb, ◌==◌, if◌then◌else◌}
use lhjsample.Common.Lists.{
  length, take, drop, get_elem?, length-append, length-drop, length-take, take-append_length,
}
use lhjsample.Common.Fallible.{◌>>=◌}

module _ {ℓ} {A : Type ℓ} where
  -- `dst` with `src` written over it from index `i` on, which fits.
  unfoldable pub blit : List A → ℕ → List A → List A
  blit dst zero src = src ++ drop (length src) dst
  blit [] (suc i) src = []
  blit (x ∷ dst) (suc i) src = x ∷ blit dst i src

  -- `CopyMemory(&dst[i], src, length src)`: a write past the end of `dst` is a fault.
  unfoldable pub write_at : List A → ℕ → List A → Option (List A)
  write_at dst i src = if leb (i + length src) (length dst) then some (blit dst i src) else none

  -- The `n` bytes from `&src[i]` on: a read past the end is a fault.
  unfoldable pub read_at : List A → ℕ → ℕ → Option (List A)
  read_at src i n = if leb (i + n) (length src) then some (take n (drop i src)) else none

  pub length-blit :
      (dst : List A) (i : ℕ) (src : List A)
      → i + length src ≤ length dst
      → length (blit dst i src) ≡ length dst
  unfolding blit
  length-blit dst zero src h =
      omega (arith, length-append src (drop (length src) dst), length-drop (length src) dst)
  length-blit [] (suc i) src h = absurd (omega arith)
  length-blit (x ∷ dst) (suc i) src h = ap suc (length-blit dst i src (omega arith))

  take-blit :
      (n i : ℕ) (dst src : List A)
      → n ≡ i + length src
      → i ≤ length dst
      → take n (blit dst i src) ≡ take i dst ++ src
  unfolding blit
  take-blit n zero dst src e h = take-append_length n src (drop (length src) dst) (omega arith)
  take-blit n (suc i) [] src e h = elim h [ ]
  take-blit zero (suc i) (x ∷ dst) src e h = absurd (omega arith)
  take-blit (suc n) (suc i) (x ∷ dst) src e h =
      ap (◌∷◌ x) (take-blit n i dst src (omega arith) (omega arith))

  -- A window that ends where the write begins grows by what is written.
  pub window-blit :
      (r m n i : ℕ) (dst src : List A)
      → i ≡ r + m
      → n ≡ m + length src
      → i ≤ length dst
      → take n (drop r (blit dst i src)) ≡ take m (drop r dst) ++ src
  unfolding blit
  window-blit zero m n i dst src e f h =
      let k : m ≡ i = omega arith in rw k (take-blit n i dst src (omega arith) h)
  window-blit (suc r) m n zero dst src e f h = absurd (omega arith)
  window-blit (suc r) m n (suc i) [] src e f h = elim h [ ]
  window-blit (suc r) m n (suc i) (x ∷ dst) src e f h =
      window-blit r m n i dst src (omega arith) f (omega arith)

  pub write_at-fits :
      (dst : List A) (i : ℕ) (src : List A)
      → i + length src ≤ length dst
      → write_at dst i src ≡ some (blit dst i src)
  unfolding write_at
  write_at-fits dst i src h = rw (le→leb _ _ h)

  pub write_at-overflow :
      (dst : List A) (i : ℕ) (src : List A)
      → length dst < i + length src
      → write_at dst i src ≡ none
  unfolding write_at
  write_at-overflow dst i src h = rw (lt→not-leb _ _ h)

  pub read_at-fits :
      (src : List A) (i n : ℕ) → i + n ≤ length src → read_at src i n ≡ some (take n (drop i src))
  unfolding read_at
  read_at-fits src i n h = rw (le→leb _ _ h)

  pub length-read_at :
      (src : List A) (i n : ℕ) (m : List A) → read_at src i n ≡ some m → length m ≡ n
  unfolding read_at
  length-read_at src i n m h = ground (arith, length-take n (drop i src), length-drop i src)

-- `std::string s(p)`: the bytes up to the first NUL; a fault if none stands before the end.
unfoldable pub c_string : List ℕ → Option (List ℕ)
c_string [] = none
c_string (x ∷ xs) = if x == 0 then some [] else Option.map (◌∷◌ x) (c_string xs)

-- A `UINT16` in memory, least significant byte first.
abbrev pub u16_bytes : ℕ → List ℕ
u16_bytes n = n % 256 ∷ n / 256 % 256 ∷ []

unfoldable pub read_u16 : List ℕ → ℕ → Option ℕ
read_u16 m i = do lo ← get_elem? m i; hi ← get_elem? m (i + 1); some (lo + 256 * hi)

-- Equality of texts.
unfoldable pub eq_bytes : List ℕ → List ℕ → Bool
eq_bytes [] [] = true
eq_bytes (x ∷ xs) (y ∷ ys) = x == y && eq_bytes xs ys
eq_bytes _ _ = false

pub eq_bytes_iff : (xs ys : List ℕ) → (eq_bytes xs ys ≡ true) ↔ (xs ≡ ys)
unfolding eq_bytes
eq_bytes_iff [] [] = (λ _. refl, λ _. refl)
eq_bytes_iff [] (y ∷ ys) = (λ h. cc, λ h. cc)
eq_bytes_iff (x ∷ xs) [] = (λ h. cc, λ h. cc)
eq_bytes_iff (x ∷ xs) (y ∷ ys) = ground (arith, eq_bytes_iff xs ys)
