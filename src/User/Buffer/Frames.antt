-- ===== src/User/Buffer/Frames.antt =====
-- What a client's frames become: nothing is lost between the chunks received and the packets
-- fetched, and frames that a client wrote come out as they were.
use mathlib.Core.Option
use mathlib.Core.Option.{some-injective}
use lhjsample.Common.{
  ℕ, suc, ◌+◌, ◌*◌, ◌/◌, ◌%◌, ◌<◌, ◌^◌, ◌≡◌, refl, sym, ap, subst, ◌∙◌, none, some, List, [], ◌∷◌,
  ◌++◌, arith, leb, length, map, replicate, Bool-cases, inl, inr, le→leb, append_assoc, append-nil,
  length-append, u16_bytes, take-append_length, drop-append_length, take-append-drop,
}
use lhjsample.Common.Fallible.{>>=-eq-some}
use lhjsample.User.Buffer.{PacketBuffer, IsValid, packet_data_buffer_size}
use lhjsample.User.Buffer.Append.{contents}
use lhjsample.User.Buffer.Packets.{take_frame, take_frame_complete}
use lhjsample.User.Buffer.Histories.{Call, receive, fetch, run, spec_run, outcome, run-spec_run}

-- All the bytes received in a history, and all those of the packets fetched.
abbrev pub received : List Call → List ℕ
received [] = []
received (receive p_data ∷ calls) = p_data ++ received calls
received (fetch ∷ calls) = received calls

abbrev pub fetched : List (ℕ × List ℕ) → List ℕ
fetched [] = []
fetched ((id, bytes) ∷ packets) = bytes ++ fetched packets

take_frame-append : (q : List ℕ) → (take_frame q).1 ++ (take_frame q).2 ≡ q
unfolding take_frame
take_frame-append (l0 ∷ l1 ∷ i0 ∷ i1 ∷ t ∷ body) =
    elim (Bool-cases (leb (l0 + 256 * l1) (suc (suc (suc (suc (suc (length body)))))))) [
      | inl whole ↦ rw whole (take-append-drop (l0 + 256 * l1) (l0 ∷ l1 ∷ i0 ∷ i1 ∷ t ∷ body))
      | inr partial ↦ rw partial refl
    ]
take_frame-append q = refl

spec_run-conserves :
    (calls : List Call) (q : List ℕ) (r : List (ℕ × List ℕ) × List ℕ)
    → spec_run calls q ≡ some r
    → fetched r.0 ++ r.1 ≡ q ++ received calls
unfolding spec_run
spec_run-conserves [] q r h =
    subst (λ r. fetched r.0 ++ r.1 ≡ q ++ []) (some-injective _ _ h) (sym (append-nil q))
spec_run-conserves (receive p_data ∷ calls) q r h =
    elim (Bool-cases (leb (length q + length p_data) packet_data_buffer_size)) [
      | inl fits ↦
          spec_run-conserves calls (q ++ p_data) r (rw fits at h)
          ∙ append_assoc q p_data (received calls)
      | inr full ↦ let fault : none ≡ some r = rw full at h in cc
    ]
spec_run-conserves (fetch ∷ calls) q r h =
    let (rest, e, f) = >>=-eq-some (spec_run calls (take_frame q).2) _ h in
    subst (λ r. fetched r.0 ++ r.1 ≡ q ++ received calls) (some-injective _ _ f)
      (append_assoc (take_frame q).1 (fetched rest.0) rest.1
        ∙ ap (◌++◌ (take_frame q).1) (spec_run-conserves calls (take_frame q).2 rest e)
        ∙ sym (append_assoc (take_frame q).1 (take_frame q).2 (received calls))
        ∙ ap (λ k. k ++ received calls) (take_frame-append q))

-- Whenever a history of calls on a valid buffer ends without a fault, the packets fetched, put
-- together in order and followed by what is still unread, are exactly the bytes that were unread at
-- the start followed by those received: nothing is lost, repeated or reordered.
pub run-conserves :
    (calls : List Call) (b : PacketBuffer) (r : List (ℕ × List ℕ) × PacketBuffer)
    → IsValid b
    → run calls b ≡ some r
    → fetched r.0 ++ contents r.1 ≡ contents b ++ received calls
run-conserves calls b r v h =
    spec_run-conserves calls (contents b) (outcome r)
      (sym (run-spec_run calls b v) ∙ ap (Option.map outcome) h)

-- A frame as a client writes it: `PacketLength`, `PacketId`, `Type` and the body.
pub record Frame : Type 0 where
  pub id : ℕ
  pub kind : ℕ
  pub body : List ℕ

abbrev pub frame_bytes : Frame → List ℕ
frame_bytes f = u16_bytes (5 + length f.body) ++ u16_bytes f.id ++ f.kind ∷ f.body

-- Length and id fit their `UINT16` fields.
abbrev pub Encodable : Frame → Type 0
Encodable f = (5 + length f.body < 2 ^ 16) × (f.id < 2 ^ 16)

abbrev pub AllEncodable : List Frame → Type 0
AllEncodable [] = Unit {0}
AllEncodable (f ∷ fs) = Encodable f × AllEncodable fs

take_frame-frame_bytes :
    (f : Frame) (rest : List ℕ)
    → Encodable f
    → take_frame (frame_bytes f ++ rest) ≡ (f.id, frame_bytes f, rest)
take_frame-frame_bytes f rest h =
    take_frame_complete (frame_bytes f ++ rest) _ _ _ _ f.kind (f.body ++ rest) refl (
      le→leb _ (length (frame_bytes f ++ rest)) (omega (arith, length-append (frame_bytes f) rest)))
    ∙ (λ i. (
      id i,
      take-append_length _ (frame_bytes f) rest size i,
      drop-append_length _ (frame_bytes f) rest size i,
    ))
  where
    id : f.id % 256 + 256 * (f.id / 256 % 256) ≡ f.id
    id = omega arith

    size :
        (5 + length f.body) % 256 + 256 * ((5 + length f.body) / 256 % 256) ≡ length (frame_bytes f)
    size = omega arith

abbrev pub all_frames : List Frame → List ℕ
all_frames [] = []
all_frames (f ∷ fs) = frame_bytes f ++ all_frames fs

abbrev pub packet_of : Frame → ℕ × List ℕ
packet_of f = (f.id, frame_bytes f)

spec_run-frames :
    (fs : List Frame) (rest : List ℕ)
    → AllEncodable fs
    → spec_run (replicate (length fs) fetch) (all_frames fs ++ rest) ≡ some (map packet_of fs, rest)
unfolding spec_run
spec_run-frames [] rest h = refl
spec_run-frames (f ∷ fs) rest h =
    rw
      (
        append_assoc (frame_bytes f) (all_frames fs) rest,
        take_frame-frame_bytes f (all_frames fs ++ rest) h.0,
        spec_run-frames fs rest h.1,
      )
      refl

-- Fetching once for each frame of a valid buffer that begins with the encoded frames `fs`, whose
-- lengths and ids fit 16 bits, yields the ids and bytes of these frames in order, without a fault,
-- and leaves what follows them unread.
pub run-frames :
    (fs : List Frame) (rest : List ℕ) (b : PacketBuffer)
    → IsValid b
    → contents b ≡ all_frames fs ++ rest
    → AllEncodable fs
    → Option.map outcome (run (replicate (length fs) fetch) b) ≡ some (map packet_of fs, rest)
run-frames fs rest b v e h =
    run-spec_run (replicate (length fs) fetch) b v ∙ ap (spec_run _) e ∙ spec_run-frames fs rest h
