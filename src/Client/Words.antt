-- ===== src/Client/Words.antt =====
-- What the test client sends.
use lhjsample.Common.{
  ℕ, zero, suc, ◌≤◌, ◌≡◌, refl, sym, ap, ◌∙◌, Bool, true, false, List, [], ◌∷◌, ◌++◌, Option, some,
  if◌then◌else◌, codes, eq_bytes, length, drop, take, c_string, append_assoc, append-nil, ◌==◌,
  arith, Bool-cases, inl, inr,
}
use lhjsample.Client.{
  Outcome, done, pending, failed, Wsa, IocpClient, Ended, returned, error, receive, print_message,
  send_word, run_words,
}

-- The words before the first "exit", and whether there is one.
abbrev pub before_exit : List (List ℕ) → List (List ℕ)
before_exit [] = []
before_exit (word ∷ words) = if eq_bytes word (codes "exit") then [] else word ∷ before_exit words

abbrev pub has_exit : List (List ℕ) → Bool
has_exit [] = false
has_exit (word ∷ words) = if eq_bytes word (codes "exit") then true else has_exit words

-- A C string ends before the first NUL, which is there.
c_string-stops : (xs ys : List ℕ) → (t : List ℕ) × (c_string (xs ++ 0 ∷ ys) ≡ some t)
unfolding c_string
c_string-stops [] ys = ([], refl)
c_string-stops (x ∷ xs) ys =
    let (t, e) = c_string-stops xs ys in
    elim (Bool-cases (x == 0)) [
      | inl end ↦ ([], rw end refl)
      | inr later ↦ (x ∷ t, rw (later, e) refl)
    ]

drop-within {ℓ} :
    {A : Type ℓ} (k : ℕ) (xs ys : List A) → k ≤ length xs → drop k (xs ++ ys) ≡ drop k xs ++ ys
drop-within zero xs ys h = refl
drop-within (suc k) [] ys h = absurd (omega (arith, h))
drop-within (suc k) (x ∷ xs) ys h = drop-within k xs ys (omega (arith, h))

module _ {Os : Type 0} (s : Wsa Os) where
  -- Winsock gives at most as many bytes as are asked for.
  abbrev pub IsBounded : Type 0
  IsBounded = (socket : Option ℕ) (size : ℕ) (os : Os) → length (s.wsa_recv socket size os).1 ≤ size

  -- What a run of the loop has sent: all of the words, or with an error the first of them.
  abbrev pub HasSent : List (List ℕ) → List (List ℕ) → Ended Os → Type 0
  HasSent base words (returned after) = after.sent ≡ base ++ words
  HasSent base words (error text after) = (k : ℕ) × (after.sent ≡ base ++ take k words)

  abbrev pub sent_of : Ended Os → List (List ℕ)
  sent_of (returned after) = after.sent
  sent_of (error text after) = after.sent

  print_message-ends :
      (outcome : Outcome) (c : IocpClient Os) (t : List ℕ)
      → c_string c.message ≡ some t
      → (r : Ended Os) × (print_message s outcome c ≡ some r) × (sent_of r ≡ c.sent)
  unfolding print_message
  print_message-ends failed c t e = (_, refl, refl)
  print_message-ends done c t e =
      (returned (record c { printed = c.printed ++ t ∷ [] }), rw (print_message, e) refl, refl)
  print_message-ends pending c t e =
      (returned (record c { printed = c.printed ++ t ∷ [] }), rw (print_message, e) refl, refl)

  -- What is received is no longer than the word, so that the NUL behind it stays.
  still_stops :
      (word rest bytes m : List ℕ)
      → m ≡ word ++ 0 ∷ rest
      → length bytes ≤ length word
      → (t : List ℕ) × (c_string (bytes ++ drop (length bytes) m) ≡ some t)
  still_stops word rest bytes m stored short =
      let (t, stops) = c_string-stops (bytes ++ drop (length bytes) word) rest in
      let whole : bytes ++ drop (length bytes) m ≡ (bytes ++ drop (length bytes) word) ++ 0 ∷ rest =
        ap (λ x. bytes ++ drop (length bytes) x) stored
        ∙ ap (λ x. bytes ++ x) (drop-within (length bytes) word (0 ∷ rest) short)
        ∙ sym (append_assoc bytes (drop (length bytes) word) (0 ∷ rest)) in
      (t, ap c_string whole ∙ stops)

  receive-ends :
      (outcome : Outcome) (word rest : List ℕ) (c : IocpClient Os)
      → IsBounded
      → c.message ≡ word ++ 0 ∷ rest
      → (r : Ended Os) × (receive s outcome (length word) c ≡ some r) × (sent_of r ≡ c.sent)
  unfolding receive
  receive-ends failed word rest c bounded stored = (_, refl, refl)
  receive-ends done word rest c bounded stored =
      let (t, stops) =
        still_stops word rest _ c.message stored (bounded c.client_sock (length word) _) in
      print_message-ends _ _ t stops
  receive-ends pending word rest c bounded stored =
      let (t, stops) =
        still_stops word rest _ c.message stored (bounded c.client_sock (length word) _) in
      print_message-ends _ _ t stops

  -- A round ends, and has sent its word.
  send_word-ends :
      (word : List ℕ) (c : IocpClient Os)
      → IsBounded
      → (r : Ended Os) × (send_word s word c ≡ some r) × (sent_of r ≡ c.sent ++ word ∷ [])
  unfolding send_word
  send_word-ends word c bounded =
      receive-ends _ word (drop (length (word ++ 0 ∷ [])) c.message) _ bounded
        (append_assoc word (0 ∷ []) _)

  HasSent-cons :
      (base words sent : List (List ℕ)) (word : List ℕ) (r : Ended Os)
      → sent ≡ base ++ word ∷ []
      → HasSent sent words r
      → HasSent base (word ∷ words) r
  HasSent-cons base words sent word (returned a) e h =
      h ∙ ap (λ x. x ++ words) e ∙ append_assoc base (word ∷ []) words
  HasSent-cons base words sent word (error text a) e (k, h) =
      (suc k, h ∙ ap (λ x. x ++ take k words) e ∙ append_assoc base (word ∷ []) (take k words))

  next-HasSent :
      (word : List ℕ) (words : List (List ℕ)) (c : IocpClient Os) (r : Ended Os)
      → eq_bytes word (codes "exit") ≡ false
      → send_word s word c ≡ some r
      → sent_of r ≡ c.sent ++ word ∷ []
      → ((a : IocpClient Os)
          → (q : Ended Os) × (run_words s words a ≡ some q) × HasSent a.sent (before_exit words) q)
      → (q : Ended Os) × (run_words s (word ∷ words) c ≡ some q)
        × HasSent c.sent (before_exit (word ∷ words)) q
  unfolding run_words
  next-HasSent word words c (error text a) goes e sent later =
      (error text a, rw (run_words, goes, e) refl, rw goes (1, sent))
  next-HasSent word words c (returned a) goes e sent later =
      let (q, e', h) = later a in
      (
        q,
        rw (run_words, goes, e) e',
        rw goes (HasSent-cons c.sent (before_exit words) a.sent word q sent h),
      )

  -- For a Winsock that gives at most as many bytes as are asked for, and words of which one is
  -- "exit": the loop of `Run` ends. It has sent the words before "exit" as they are and in order,
  -- or only the first of them if it ends by an error.
  pub run_words-HasSent :
      (words : List (List ℕ)) (c : IocpClient Os)
      → IsBounded
      → has_exit words ≡ true
      → (r : Ended Os) × (run_words s words c ≡ some r) × HasSent c.sent (before_exit words) r
  unfolding run_words
  run_words-HasSent [] c bounded exits = absurd (ground arith)
  run_words-HasSent (word ∷ words) c bounded exits =
      elim (Bool-cases (eq_bytes word (codes "exit"))) [
        | inl stops ↦ (returned c, rw (run_words, stops) refl, rw stops (sym (append-nil c.sent)))
        | inr goes ↦
            let exits' : has_exit words ≡ true = rw goes at exits in
            let (r, e, sent) = send_word-ends word c bounded in
            next-HasSent word words c r goes e sent (λ a. run_words-HasSent words a bounded exits')
      ]
