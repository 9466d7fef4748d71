-- ===== src/FormsClient/Delivery.antt =====
-- From the messages of the server to the packets in the queue of a windows client: LHJSample and
-- NetworkReadProcess of LHJSampleClientCS/Form1.cs.
use lhjsample.Common.{
  ℕ, suc, ◌+◌, ◌*◌, ◌^◌, ◌≤◌, ◌<◌, ◌≡◌, refl, ap, ◌∙◌, List, [], ◌∷◌, some, true, inl, inr,
  Bool-cases, ◌==◌, arith, length, get_elem?, read_u16,
}
use lhjsample.Packet.Framing.{announced}
use lhjsample.World.{World, Message, Platform}
use lhjsample.ChatServer.{Event, run}
use lhjsample.Server.Delivery.{sent_to}
use lhjsample.Invariants.Users.{IsStarted}
use lhjsample.Invariants.Messages.{IsWellSent, run-IsWellSent}
use lhjsample.FormsClient.PacketBuffer.{PacketBufferManager, IsValid, unread}
use lhjsample.FormsClient.PacketBuffer.Queue.{IsPacket}
use lhjsample.FormsClient.Form.{Form}
use lhjsample.FormsClient.Receiving.{stream, AllPackets, with_packets}
use lhjsample.FormsClient.Receiving.Streams.{receive_all, pieces, AllPieces, receive_all_lem}

-- Buffers that hold a header and at most `m` bytes.
abbrev pub AllSized : ℕ → List (List ℕ) → Type 0
AllSized m [] = Unit
AllSized m (f ∷ fs) = (5 ≤ length f) × (length f ≤ m) × AllSized m fs

content-IsPacket :
    (m : Message)
    → IsWellSent m
    → 5 ≤ length m.content
    → length m.content < 2 ^ 15
    → IsPacket m.content
content-IsPacket m h header small = record {
  announces = starts m.content (h.header (omega (arith, h.whole, header)) ∙ h.whole) header;
  has_header = header;
  fits = small;
}
  where
    starts : (f : List ℕ) → announced f ≡ length f → 5 ≤ length f → read_u16 f 0 ≡ some (length f)
    starts [] e k = elim k [ ]
    starts (a ∷ []) e k = absurd (omega (arith, k))
    starts (a ∷ b ∷ f) e k = unfold read_u16 in ap some e

sent_to-AllPackets :
    (i m : ℕ) (ms : List Message)
    → ((k : ℕ) (x : Message) → get_elem? ms k ≡ some x → IsWellSent x)
    → m < 2 ^ 15
    → AllSized m (sent_to i ms)
    → AllPackets m (sent_to i ms)
sent_to-AllPackets i m [] h small s = tt
sent_to-AllPackets i m (x ∷ ms) h small s =
    let ih : AllSized m (sent_to i ms) → AllPackets m (sent_to i ms) =
      sent_to-AllPackets i m ms (λ k. h (suc k)) small in
    elim (Bool-cases (x.client_index == i)) [
      | inl mine ↦
          let (header, fits, more) : AllSized m (x.content ∷ sent_to i ms) = rw mine at s in
          rw mine
            (content-IsPacket x (h 0 x refl) header (omega (arith, fits, small)), fits, ih more)
      | inr other ↦ let more : AllSized m (sent_to i ms) = rw other at s in rw other (ih more)
    ]

module _ {Db : Type 0} where
  -- What the server's packet thread sends to one session, in any history from the start, is what
  -- the client of the session gets: if the bytes of these messages arrive in any pieces, the client
  -- queues each message as one packet, in the order of the sends, with its id and its body, and
  -- nothing else. Each message has at least a header; messages and pieces are not larger than
  -- `MaxPacketSize`, which is below 2 ^ 15; and the client's buffer is empty, has three times that
  -- size and room for one packet.
  pub run-received :
      (p : Platform Db) (es : List Event) (w : World Db) (after : Unit {0} × World Db) (i : ℕ)
      (received : List (ℕ × List ℕ)) (form : Form)
      → let b = form.packet_buffer in
        IsStarted w
        → run p es w ≡ some after
        → AllSized b.max_packet_size (sent_to i after.1.sent)
        → b.max_packet_size < 2 ^ 15
        → form.is_connected ≡ true
        → IsValid b
        → length (unread b) ≤ 0
        → 3 * b.max_packet_size ≤ b.buffer_size
        → b.write_pos + b.max_packet_size ≤ b.buffer_size
        → AllPieces b.max_packet_size received
        → pieces received ≡ stream (sent_to i after.1.sent)
        → (c : PacketBufferManager) × (receive_all received form
            ≡ some (with_packets form c (sent_to i after.1.sent)))
  run-received p es w after i received form start e sized small connected v empty large room few
        same =
      receive_all_lem (sent_to i after.1.sent) received form connected v empty large room
        (sent_to-AllPackets i form.packet_buffer.max_packet_size after.1.sent
          (λ k x at. run-IsWellSent p es w after k x start e at) small sized)
        few same
