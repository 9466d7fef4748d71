-- ===== src/Client/Protocol.antt =====
-- What the server makes of what the test client sends.
use mathlib.Core.Option.{some-injective}
use lhjsample.Common.{
  ℕ, zero, suc, ◌+◌, ◌*◌, ◌≤◌, ◌≡◌, refl, sym, ◌∙◌, subst, true, false, List, [], ◌∷◌, ◌++◌, some,
  codes, eq_bytes, length, take, leb, arith, Bool-cases, inl, inr,
}
use lhjsample.User.Buffer.{PacketBuffer, PacketInfo, get_packet}
use lhjsample.User.Buffer
use lhjsample.User.Buffer.Append.{contents, length-contents}
use lhjsample.User.Buffer.Packets.{view, take_frame, get_packet-take_frame}
use lhjsample.Client.{Wsa, IocpClient, Ended, returned, error, run_words}
use lhjsample.Client.Words.{IsBounded, HasSent, sent_of, before_exit, has_exit, run_words-HasSent}

-- Characters that are neither control characters nor spaces.
abbrev pub IsText : List ℕ → Type 0
IsText [] = Unit
IsText (b ∷ bs) = (33 ≤ b) × IsText bs

abbrev pub AllText : List (List ℕ) → Type 0
AllText [] = Unit
AllText (word ∷ words) = IsText word × AllText words

-- The bytes of the words, one after the other.
abbrev pub bytes_of : List (List ℕ) → List ℕ
bytes_of [] = []
bytes_of (word ∷ words) = word ++ bytes_of words

append-IsText : (a b : List ℕ) → IsText a → IsText b → IsText (a ++ b)
append-IsText [] b h k = k
append-IsText (x ∷ a) b (h, hs) k = (h, append-IsText a b hs k)

take-IsText : (n : ℕ) (a : List ℕ) → IsText a → IsText (take n a)
take-IsText zero a h = tt
take-IsText (suc n) [] h = tt
take-IsText (suc n) (x ∷ a) (h, hs) = (h, take-IsText n a hs)

bytes_of-IsText : (words : List (List ℕ)) → AllText words → IsText (bytes_of words)
bytes_of-IsText [] h = tt
bytes_of-IsText (word ∷ words) (h, hs) =
    append-IsText word (bytes_of words) h (bytes_of-IsText words hs)

take-AllText : (n : ℕ) (words : List (List ℕ)) → AllText words → AllText (take n words)
take-AllText zero words h = tt
take-AllText (suc n) [] h = tt
take-AllText (suc n) (word ∷ words) (h, hs) = (h, take-AllText n words hs)

before_exit-AllText : (words : List (List ℕ)) → AllText words → AllText (before_exit words)
before_exit-AllText [] h = tt
before_exit-AllText (word ∷ words) (h, hs) = elim (Bool-cases (eq_bytes word (codes "exit"))) [
  | inl stops ↦ rw stops tt
  | inr goes ↦ rw goes (h, before_exit-AllText words hs)
]

-- A text announces more bytes than a buffer holds.
take_frame-IsText : (q : List ℕ) → IsText q → length q ≤ 8096 → take_frame q ≡ (0, [], q)
unfolding take_frame
take_frame-IsText (a ∷ b ∷ c ∷ d ∷ e ∷ q) (ha, (hb, h)) short =
    let n = length (a ∷ b ∷ c ∷ d ∷ e ∷ q) in
    let big : leb (a + 256 * b) n ≡ false = ground arith in rw big refl
take_frame-IsText q h short = refl

module _ {Os : Type 0} (s : Wsa Os) where
  HasSent-AllText :
      (words : List (List ℕ)) (r : Ended Os)
      → AllText words
      → HasSent s [] words r
      → AllText (sent_of s r)
  HasSent-AllText words (returned after) h e = subst AllText (sym e) h
  HasSent-AllText words (error text after) h (k, e) = subst AllText (sym e) (take-AllText k words h)

  -- For a Winsock that gives at most as many bytes as are asked for, a client that had sent nothing
  -- yet, and words of printable characters of which one is "exit": however many of the bytes that
  -- the loop of `Run` has sent are the unread bytes of a user's valid buffer, the server finds no
  -- packet in them: `GetPacket` gives the packet of id 0 and leaves the bytes.
  pub run_words-no_packet :
      (words : List (List ℕ)) (c : IocpClient Os) (r : Ended Os) (b : PacketBuffer) (k : ℕ)
      → IsBounded s
      → c.sent ≡ []
      → AllText words
      → has_exit words ≡ true
      → run_words s words c ≡ some r
      → Buffer.IsValid b
      → contents b ≡ take k (bytes_of (sent_of s r))
      → (q : PacketInfo × PacketBuffer) × (get_packet b ≡ some q) × (view q ≡ (0, [], contents b))
  run_words-no_packet words c r b k bounded silent texts exits e valid holds =
      let (r', e', sent') = run_words-HasSent s words c bounded exits in
      let sent =
        subst (HasSent s c.sent (before_exit words)) (some-injective _ _ (sym e' ∙ e)) sent' in
      let all =
        HasSent-AllText (before_exit words) r (before_exit-AllText words texts)
          (subst (λ x. HasSent s x (before_exit words) r) silent sent) in
      let text =
        subst IsText (sym holds)
          (take-IsText k (bytes_of (sent_of s r)) (bytes_of-IsText (sent_of s r) all)) in
      let (q, got, kept, seen) = get_packet-take_frame b valid in
      (
        q,
        got,
        seen
            ∙ take_frame-IsText (contents b) text
                (omega (arith, length-contents b valid, valid.within)),
      )
