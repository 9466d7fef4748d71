-- ===== src/Network/Calls.antt =====
-- Histories of sends as lists, and what the messages and the calls of `WSASend` of one session are.
use lhjsample.Common.{
  ℕ, zero, suc, ◌+◌, ◌≤◌, ◌≡◌, refl, ap, ◌⊎◌, inl, inr, List, [], ◌∷◌, ◌++◌, Bool, true, false,
  length, take, drop, if◌then◌else◌, ◌==◌, arith, Bool-cases, ==_iff,
}

-- A call of `SendMsg`, or the completion of a send, for a session.
pub data SendCall : Type 0 where
  message : ℕ → List ℕ → SendCall
  completion : ℕ → SendCall

-- The messages of a history for a session, and how many of its sends have completed.
abbrev pub messages : ℕ → List SendCall → List (List ℕ)
messages i [] = []
messages i (message j m ∷ calls) = if j == i then m ∷ messages i calls else messages i calls
messages i (completion j ∷ calls) = messages i calls

abbrev pub completions : ℕ → List SendCall → ℕ
completions i [] = 0
completions i (message j m ∷ calls) = completions i calls
completions i (completion j ∷ calls) =
    if j == i then suc (completions i calls) else completions i calls

-- The buffers given to `WSASend` for a session.
abbrev pub posted_by : ℕ → List (ℕ × List ℕ) → List (List ℕ)
posted_by i [] = []
posted_by i ((j, m) ∷ ps) = if j == i then m ∷ posted_by i ps else posted_by i ps

pub posted_by-append :
    (i : ℕ) (ps qs : List (ℕ × List ℕ)) → posted_by i (ps ++ qs) ≡ posted_by i ps ++ posted_by i qs
posted_by-append i [] qs = refl
posted_by-append i ((j, m) ∷ ps) qs = elim (Bool-cases (j == i)) [
  | inl same ↦ rw same (ap (◌∷◌ m) (posted_by-append i ps qs))
  | inr other ↦ rw other (posted_by-append i ps qs)
]

abbrev pub tagged : ℕ → List (List ℕ) → List (ℕ × List ℕ)
tagged j [] = []
tagged j (m ∷ ms) = (j, m) ∷ tagged j ms

pub queue_cases :
    (q : List (List ℕ)) → (q ≡ []) ⊎ ((x : List ℕ) × (rest : List (List ℕ)) × (q ≡ x ∷ rest))
queue_cases [] = inl refl
queue_cases (x ∷ rest) = inr (x, rest, refl)

pub drop-snoc :
    (k : ℕ) (all : List (List ℕ)) (m : List ℕ)
    → k ≤ length all
    → drop k (all ++ m ∷ []) ≡ drop k all ++ m ∷ []
drop-snoc zero all m h = refl
drop-snoc (suc k) [] m h = elim h [ ]
drop-snoc (suc k) (x ∷ all) m h = drop-snoc k all m (omega arith)

pub take-snoc :
    (k : ℕ) (all : List (List ℕ)) (m : List ℕ)
    → k ≤ length all
    → take (suc k) (all ++ m ∷ [])
      ≡ take (suc k) all ++ (if length (drop k all) == 0 then m ∷ [] else [])
take-snoc zero [] m h = refl
take-snoc zero (x ∷ all) m h =
    let waits : (suc (length all) == 0) ≡ false = ground arith in rw waits refl
take-snoc (suc k) [] m h = elim h [ ]
take-snoc (suc k) (x ∷ all) m h = ap (◌∷◌ x) (take-snoc k all m (omega arith))

pub take-next :
    (k : ℕ) (all : List (List ℕ))
    → take (suc (suc k)) all ≡ take (suc k) all ++ take 1 (drop 1 (drop k all))
take-next zero [] = refl
take-next zero (x ∷ []) = refl
take-next zero (x ∷ y ∷ all) = refl
take-next (suc k) [] = refl
take-next (suc k) (x ∷ all) = ap (◌∷◌ x) (take-next k all)

pub posted_by-tagged : (i : ℕ) (ms : List (List ℕ)) → posted_by i (tagged i ms) ≡ ms
posted_by-tagged i [] = refl
posted_by-tagged i (m ∷ ms) = rw ((==_iff i i).1 refl) (ap (◌∷◌ m) (posted_by-tagged i ms))

pub posted_by-other :
    (i j : ℕ) (ms : List (List ℕ)) → (j == i) ≡ false → posted_by i (tagged j ms) ≡ []
posted_by-other i j [] h = refl
posted_by-other i j (m ∷ ms) h = rw h (posted_by-other i j ms h)

pub if-append :
    (b : Bool) (m : List ℕ) (ms : List (List ℕ))
    → (if b then m ∷ [] else []) ++ ms ≡ (if b then m ∷ ms else ms)
if-append true m ms = refl
if-append false m ms = refl

pub if-plus : (b : Bool) (k c : ℕ) → (if b then suc k else k) + c ≡ k + (if b then suc c else c)
if-plus true k c = omega arith
if-plus false k c = omega arith
