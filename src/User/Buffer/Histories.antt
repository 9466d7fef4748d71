-- ===== src/User/Buffer/Histories.antt =====
-- Whole histories of `SetPacketData` and `GetPacket` on one buffer, and the frames a client sends.
use mathlib.Core.Option
use lhjsample.Common.{
  ℕ, ◌+◌, ◌≡◌, refl, ap, ◌∙◌, Option, none, some, List, [], ◌∷◌, ◌++◌, arith, leb, if◌then◌else◌,
  length, Bool-cases, inl, inr, leb→le,
}
use lhjsample.Common.Fallible.{◌>>=◌}
use lhjsample.User.Buffer.{
  PacketBuffer, IsValid, packet_data_buffer_size, set_packet_data, get_packet,
}
use lhjsample.User.Buffer.Append.{contents, set_packet_data-append, set_packet_data-overflow}
use lhjsample.User.Buffer.Packets.{take_frame, payload, get_packet-take_frame}

-- The calls that the two threads make: `receive` of a chunk, and `fetch` of a packet.
pub data Call : Type 0 where
  receive : List ℕ → Call
  fetch : Call

-- The packets that a history fetches, each its id and its bytes, and the buffer it leaves.
unfoldable pub run : List Call → PacketBuffer → Option (List (ℕ × List ℕ) × PacketBuffer)
run [] b = some ([], b)
run (receive p_data ∷ calls) b = do c ← set_packet_data p_data b; run calls c
run (fetch ∷ calls) b = do
  (info, c) ← get_packet b
  (rest, d) ← run calls c
  some ((info.packet_id, payload info c) ∷ rest, d)

-- The specification: a queue of at most `packet_data_buffer_size` bytes that is appended to and
-- yields whole frames.
unfoldable pub spec_run : List Call → List ℕ → Option (List (ℕ × List ℕ) × List ℕ)
spec_run [] q = some ([], q)
spec_run (receive p_data ∷ calls) q =
    let rest = spec_run calls (q ++ p_data) in
    if leb (length q + length p_data) packet_data_buffer_size then rest else none
spec_run (fetch ∷ calls) q =
    let (id, bytes, left) = take_frame q in
    do (rest, last) ← spec_run calls left; some ((id, bytes) ∷ rest, last)

abbrev pub outcome : List (ℕ × List ℕ) × PacketBuffer → List (ℕ × List ℕ) × List ℕ
outcome (packets, b) = (packets, contents b)

fetch-outcome :
    (p : ℕ × List ℕ) (m : Option (List (ℕ × List ℕ) × PacketBuffer))
    → Option.map outcome (m >>= (λ r. some (p ∷ r.0, r.1)))
      ≡ (Option.map outcome m >>= (λ r. some (p ∷ r.0, r.1)))
fetch-outcome p none = refl
fetch-outcome p (some (rest, b)) = refl

-- Over every history of calls a valid buffer fetches the packets of
-- the bounded byte queue of its contents and leaves the same unread bytes; it faults exactly where
-- the queue would grow past `packet_data_buffer_size`.
pub run-spec_run :
    (calls : List Call) (b : PacketBuffer)
    → IsValid b
    → Option.map outcome (run calls b) ≡ spec_run calls (contents b)
unfolding run spec_run
run-spec_run [] b v = refl
run-spec_run (receive p_data ∷ calls) b v =
    elim (Bool-cases (leb (length (contents b) + length p_data) packet_data_buffer_size)) [
      | inl fits ↦
          let (c, e, w, same) = set_packet_data-append b p_data v (leb→le _ _ fits) in
          rw (fits, e) (run-spec_run calls c w ∙ ap (spec_run calls) same)
      | inr full ↦ rw (full, set_packet_data-overflow b p_data v (ground arith)) refl
    ]
run-spec_run (fetch ∷ calls) b v =
    let (r, e, w, same) = get_packet-take_frame b v in
    let (info, c) = r in
    rw (e, ← same)
      (fetch-outcome _ (run calls c)
        ∙ ap (λ m. m >>= (λ r. some ((info.packet_id, payload info c) ∷ r.0, r.1)))
            (run-spec_run calls c w))
