-- ===== src/FormsClient/Fields.antt =====
-- LHJSampleClientCS/Packet.cs and the C strings of LHJSample: texts in fields of zeros.
use lhjsample.Common.{
  ℤ, pos, negsuc, ◌≤ℤ◌, i32_bytes, read_i32, pattern32, signed32, signed32-pattern32, ◌*◌, ◌/◌, ◌%◌,
  ◌^◌, get_elem?, get_elem?-drop, ℕ, zero, suc, ◌+◌, ◌-◌, ◌≤◌, ◌<◌, ◌≡◌, refl, sym, ap, ◌∙◌, List,
  [], ◌∷◌, ◌++◌, some, arith, length, drop, replicate, write_at, blit, write_at-fits, c_string,
  append_assoc, append-nil, length-append, length-replicate,
}
use lhjsample.FormsClient.{Encoding, remove_nul}

-- A text in a field of `n` zeros.
abbrev pub padded : ℕ → List ℕ → List ℕ
padded n xs = xs ++ replicate (n - length xs) 0

abbrev pub NoNul : List ℕ → Type 0
NoNul [] = Unit
NoNul (x ∷ xs) = (0 < x) × NoNul xs

drop-replicate : (k n : ℕ) → drop k (replicate {A = ℕ} n 0) ≡ replicate (n - k) 0
drop-replicate zero n = let e : n ≡ n - 0 = omega arith in ap (λ m. replicate m 0) e
drop-replicate (suc k) zero = let e : 0 ≡ 0 - suc k = omega arith in ap (λ m. replicate m 0) e
drop-replicate (suc k) (suc n) =
    let e : n - k ≡ suc n - suc k = omega arith in drop-replicate k n ∙ ap (λ m. replicate m 0) e

pub write_at-zeros :
    (n : ℕ) (xs : List ℕ) → length xs ≤ n → write_at (replicate n 0) 0 xs ≡ some (padded n xs)
unfolding blit
write_at-zeros n xs h =
    write_at-fits (replicate n 0) 0 xs (omega (arith, h, length-replicate {A = ℕ} n 0))
    ∙ ap (λ ys. some (xs ++ ys)) (drop-replicate (length xs) n)

pub length-padded : (n : ℕ) (xs : List ℕ) → length xs ≤ n → length (padded n xs) ≡ n
length-padded n xs h = omega (
  arith,
  h,
  length-append xs (replicate (n - length xs) 0),
  length-replicate {A = ℕ} (n - length xs) 0,
)

-- A C string ends at its first NUL.
pub c_string-nul : (xs rest : List ℕ) → NoNul xs → c_string (xs ++ 0 ∷ rest) ≡ some xs
unfolding c_string
c_string-nul [] rest h = refl
c_string-nul (x ∷ xs) rest (h, hs) = ground (arith, c_string-nul xs rest hs)

zeros_more : (n : ℕ) → 0 < n → replicate {A = ℕ} n 0 ≡ 0 ∷ replicate (n - 1) 0
zeros_more zero h = elim h [ ]
zeros_more (suc n) h = let e : n ≡ suc n - 1 = omega arith in ap (λ m. 0 ∷ replicate m 0) e

pub c_string-padded :
    (n : ℕ) (xs rest : List ℕ) → NoNul xs → length xs < n → c_string (padded n xs ++ rest) ≡ some xs
c_string-padded n xs rest h short =
    ap c_string (
      append_assoc xs (replicate (n - length xs) 0) rest
      ∙ ap (λ ys. xs ++ (ys ++ rest)) (zeros_more (n - length xs) (omega (arith, short))))
    ∙ c_string-nul xs (replicate (n - length xs - 1) 0 ++ rest) h

pub NoNul-append : (xs ys : List ℕ) → NoNul xs → NoNul ys → NoNul (xs ++ ys)
NoNul-append [] ys h k = k
NoNul-append (x ∷ xs) ys (h, hs) k = (h, NoNul-append xs ys hs k)

pub padded_full : (n : ℕ) (xs : List ℕ) → length xs ≡ n → padded n xs ≡ xs
padded_full n xs h =
    let none_left : n - length xs ≡ 0 = omega (arith, h) in
    ap (λ m. xs ++ replicate m 0) none_left ∙ append-nil xs

-- Removing NULs.
pub remove_nul-append : (xs ys : List ℕ) → remove_nul (xs ++ ys) ≡ remove_nul xs ++ remove_nul ys
unfolding remove_nul
remove_nul-append [] ys = refl
remove_nul-append (x ∷ xs) ys = ground (arith, remove_nul-append xs ys)

pub remove_nul-NoNul : (xs : List ℕ) → NoNul xs → remove_nul xs ≡ xs
unfolding remove_nul
remove_nul-NoNul [] h = refl
remove_nul-NoNul (x ∷ xs) (h, hs) = ground (arith, remove_nul-NoNul xs hs)

-- What the code relies on in UTF-8: a NUL is encoded as a NUL and is no part of another character.
pub record IsUtf8 (utf8 : Encoding) : Type 0 where
  pub empty : utf8.get_string [] ≡ []
  pub nul :
      (xs ys : List ℕ)
      → utf8.get_string (xs ++ 0 ∷ ys) ≡ utf8.get_string xs ++ 0 ∷ utf8.get_string ys

-- A text that is encoded and decoded again as it was, and holds no NUL.
pub record IsText (utf8 : Encoding) (s : List ℕ) : Type 0 where
  pub decodes : utf8.get_string (utf8.get_bytes s) ≡ s
  pub no_nul : NoNul s
  pub no_nul_byte : NoNul (utf8.get_bytes s)

-- What the client shows of some bytes.
abbrev pub shown : Encoding → List ℕ → List ℕ
shown utf8 xs = remove_nul (utf8.get_string xs)

module _ (utf8 : Encoding) (law : IsUtf8 utf8) where
  pub shown-nul : (xs ys : List ℕ) → shown utf8 (xs ++ 0 ∷ ys) ≡ shown utf8 xs ++ shown utf8 ys
  unfolding remove_nul
  shown-nul xs ys =
      ap remove_nul (law.nul xs ys)
      ∙ remove_nul-append (utf8.get_string xs) (0 ∷ utf8.get_string ys)

  shown-zeros : (n : ℕ) → shown utf8 (replicate n 0) ≡ []
  unfolding remove_nul
  shown-zeros zero = ap remove_nul law.empty
  shown-zeros (suc n) =
      shown-nul [] (replicate n 0)
      ∙ ap (λ x. remove_nul x ++ shown utf8 (replicate n 0)) law.empty
      ∙ shown-zeros n

  shown-text : (s : List ℕ) → IsText utf8 s → shown utf8 (utf8.get_bytes s) ≡ s
  shown-text s t = ap remove_nul t.decodes ∙ remove_nul-NoNul s t.no_nul

  -- A text up to a NUL, and what is behind the NUL.
  pub shown-text_nul :
      (s rest : List ℕ)
      → IsText utf8 s
      → shown utf8 (utf8.get_bytes s ++ 0 ∷ rest) ≡ s ++ shown utf8 rest
  shown-text_nul s rest t =
      shown-nul (utf8.get_bytes s) rest ∙ ap (λ x. x ++ shown utf8 rest) (shown-text s t)

  pub shown-padded :
      (n : ℕ) (s : List ℕ) → IsText utf8 s → shown utf8 (padded n (utf8.get_bytes s)) ≡ s
  shown-padded n s t = zeros_behind (n - length (utf8.get_bytes s))
    where
      zeros_behind : (k : ℕ) → shown utf8 (utf8.get_bytes s ++ replicate k 0) ≡ s
      zeros_behind zero = ap (shown utf8) (append-nil (utf8.get_bytes s)) ∙ shown-text s t
      zeros_behind (suc k) =
          shown-text_nul s (replicate k 0) t ∙ ap (λ x. s ++ x) (shown-zeros k) ∙ append-nil s

-- A number reads back from its bytes.
le32 :
    (w : ℕ)
    → w % 256 + 256 * (w / 256 % 256) + 65536 * (w / 65536 % 256) + 16777216 * (w / 16777216) ≡ w
le32 w = omega arith

pub signed32-bytes :
    (n : ℤ)
    → negsuc (2 ^ 31 - 1) ≤ℤ n
    → n ≤ℤ pos (2 ^ 31 - 1)
    → signed32 (
        pattern32 n % 256
        + 256 * (pattern32 n / 256 % 256)
        + 65536 * (pattern32 n / 65536 % 256)
        + 16777216 * (pattern32 n / 16777216))
      ≡ n
signed32-bytes n lo hi = ap signed32 (le32 (pattern32 n)) ∙ signed32-pattern32 n lo hi

pub read_i32-bytes :
    (body : List ℕ) (k : ℕ) (n : ℤ) (rest : List ℕ)
    → negsuc (2 ^ 31 - 1) ≤ℤ n
    → n ≤ℤ pos (2 ^ 31 - 1)
    → drop k body ≡ i32_bytes n ++ rest
    → read_i32 body k ≡ some n
unfolding read_i32
read_i32-bytes body k n rest lo hi e =
    let at : (i j : ℕ) → j ≡ k + i → get_elem? body j ≡ get_elem? (i32_bytes n ++ rest) i =
      λ i j same. sym (get_elem?-drop j k i body same) ∙ ap (λ (x : List ℕ). get_elem? x i) e in
    rw (at 0 k (omega arith), at 1 (k + 1) refl, at 2 (k + 2) refl, at 3 (k + 3) refl)
      (ap some (signed32-bytes n lo hi))
