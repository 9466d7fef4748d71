-- ===== src/FormsClient/Receiving/Streams.antt =====
-- LHJSampleClientCS/Form1.cs, NetworkReadProcess: whole streams.
use mathlib.Core.List.{map-append}
use lhjsample.Common.{
  ℕ, ◌+◌, ◌-◌, ◌*◌, ◌≤◌, ◌≡◌, refl, sym, ap, ◌∙◌, List, [], ◌∷◌, ◌++◌, map, Option, some, suc,
  subst, true, arith, if_of_true, length, take, length-take, length-append, append_assoc,
  append-nil,
}
use lhjsample.Common.Fallible.{◌>>=◌, >>=-some}
use lhjsample.FormsClient.PacketBuffer.{PacketBufferManager, IsValid, unread, write}
use lhjsample.FormsClient.PacketBuffer.Queue.{length-unread, write_lem}
use lhjsample.FormsClient.Form.{Form, read_packets, network_read}
use lhjsample.FormsClient.Receiving.{
  decoded, stream, AllPackets, Waits, with_packets, HasRead, read_packets_lem,
}

-- Rounds of `NetworkReadProcess` that receive something: the number of bytes, and the array.
unfoldable pub receive_all : List (ℕ × List ℕ) → Form → Option Form
receive_all [] form = some form
receive_all (received ∷ later) form = do
  next ← network_read (some received) form
  receive_all later next

abbrev pub pieces : List (ℕ × List ℕ) → List ℕ
pieces [] = []
pieces ((n, bytes) ∷ later) = take n bytes ++ pieces later

-- Every piece lies in its array and has at most `m` bytes.
abbrev pub AllPieces : ℕ → List (ℕ × List ℕ) → Type 0
AllPieces m [] = Unit
AllPieces m ((n, bytes) ∷ later) = (n ≤ length bytes) × (n ≤ m) × AllPieces m later

AllPackets-append : (m : ℕ) (xs ys : List (List ℕ)) → AllPackets m (xs ++ ys) → AllPackets m ys
AllPackets-append m [] ys h = h
AllPackets-append m (x ∷ xs) ys (p, small, h) = AllPackets-append m xs ys h

-- What waits is smaller than a packet.
Waits-short :
    (m : ℕ) (q : List ℕ) (fs : List (List ℕ)) → AllPackets m fs → Waits q fs → length q ≤ m
Waits-short m q [] p w = omega (arith, w)
Waits-short m q (f ∷ fs) (p, small, ps) w = omega (arith, w, small)

-- What the proof keeps from round to round.
record Between (m : ℕ) (fs : List (List ℕ)) (more : List ℕ) (form : Form) : Type 0 where
  connected : form.is_connected ≡ true
  valid : IsValid form.packet_buffer
  largest : form.packet_buffer.max_packet_size ≡ m
  large : 3 * m ≤ form.packet_buffer.buffer_size
  room : form.packet_buffer.write_pos + m ≤ form.packet_buffer.buffer_size
  packets : AllPackets m fs
  stands : unread form.packet_buffer ++ more ≡ stream fs
  waits : Waits (unread form.packet_buffer) fs

-- One round: some packets are queued, and the rest waits.
record AfterRound (m : ℕ) (fs : List (List ℕ)) (more : List ℕ) (form : Form) (result : Option Form)
    : Type 0 where
  done : List (List ℕ)
  rest : List (List ℕ)
  buffer : PacketBufferManager
  splits : fs ≡ done ++ rest
  returns : result ≡ some (with_packets form buffer done)
  between : Between m rest more (with_packets form buffer done)

network_read_lem :
    (m : ℕ) (fs : List (List ℕ)) (n : ℕ) (bytes more : List ℕ) (form : Form)
    → n ≤ length bytes
    → n ≤ m
    → Between m fs (take n bytes ++ more) form
    → AfterRound m fs more form (network_read (some (n, bytes)) form)
unfolding network_read
network_read_lem m fs n bytes more form inside small k =
    let (b, e1, v, grown, s1, s2, room) =
      write_lem form.packet_buffer bytes n k.valid inside (omega (arith, small, k.room)) in
    let f : Form = record form { packet_buffer = b } in
    let stands : unread b ++ more ≡ stream fs =
      ap (λ x. x ++ more) grown
      ∙ append_assoc (unread form.packet_buffer) (take n bytes) more
      ∙ k.stands in
    let h : HasRead f more fs (read_packets (suc (b.write_pos - b.read_pos)) f) =
      read_packets_lem m fs (b.write_pos - b.read_pos) f more v k.packets stands
        (omega (arith, length-unread b v)) in
    let count : length (unread b) ≤ m + m = omega (
      arith,
      ap length grown,
      length-append (unread form.packet_buffer) (take n bytes),
      length-take n bytes,
      Waits-short m (unread form.packet_buffer) fs k.packets k.waits,
      small,
    ) in
    record {
      done = h.done;
      rest = h.rest;
      buffer = h.buffer;
      splits = h.splits;
      returns =
          if_of_true _ _ k.connected
          ∙ >>=-some (write bytes 0 n form.packet_buffer) _ e1
          ∙ h.returns;
      between = record {
        connected = k.connected;
        valid = h.valid;
        largest = h.largest ∙ s2 ∙ k.largest;
        large = omega (arith, h.size, s1, k.large);
        room = omega (
          arith,
          room (omega (arith, count, k.largest, k.large)),
          h.place,
          h.size,
          s1,
          k.largest,
        );
        packets = AllPackets-append m h.done h.rest (subst (AllPackets m) h.splits k.packets);
        stands = h.left;
        waits = h.waits;
      };
    }

-- At the end of the stream nothing waits.
nothing_left :
    (m : ℕ) (q : List ℕ) (fs : List (List ℕ))
    → AllPackets m fs
    → Waits q fs
    → q ++ [] ≡ stream fs
    → fs ≡ []
nothing_left m q [] p w e = refl
nothing_left m q (f ∷ fs) p w e =
    absurd (omega (arith, w, ap length e, length-append q [], length-append f (stream fs)))

rounds :
    (m : ℕ) (received : List (ℕ × List ℕ)) (fs : List (List ℕ)) (form : Form)
    → AllPieces m received
    → Between m fs (pieces received) form
    → (b : PacketBufferManager) × (receive_all received form ≡ some (with_packets form b fs))
unfolding receive_all
rounds m [] fs form small k =
    let none_left : fs ≡ [] =
      nothing_left m (unread form.packet_buffer) fs k.packets k.waits k.stands in
    (
      form.packet_buffer,
      rw none_left (
          ap (λ q. some (record form { recv_packet_queue = q }))
            (sym (append-nil form.recv_packet_queue))),
    )
rounds m ((n, bytes) ∷ later) fs form (inside, small, smalls) k =
    let r : AfterRound m fs (pieces later) form (network_read (some (n, bytes)) form) =
      network_read_lem m fs n bytes (pieces later) form inside small k in
    let (b, e) = rounds m later r.rest (with_packets form r.buffer r.done) smalls r.between in
    (
      b,
      >>=-some (network_read (some (n, bytes)) form) (receive_all later) r.returns
          ∙ e
          ∙ ap (λ q. some (record form { packet_buffer = b; recv_packet_queue = q }))
              (append_assoc form.recv_packet_queue (map decoded r.done) (map decoded r.rest)
                ∙ ap (λ x. form.recv_packet_queue ++ x)
                    (sym (map-append decoded r.done r.rest) ∙ ap (map decoded) (sym r.splits))),
    )

length-zero : (q more : List ℕ) → length q ≤ 0 → q ++ more ≡ more
length-zero [] more h = refl
length-zero (x ∷ q) more h = elim h [ ]

starts : (m : ℕ) (q : List ℕ) (fs : List (List ℕ)) → AllPackets m fs → length q ≤ 0 → Waits q fs
starts m q [] p h = h
starts m q (f ∷ fs) (p, small, ps) h = omega (arith, p.has_header, h)

-- Packets that arrive in pieces, however the stream is cut, are queued whole, in their order and
-- once each, and nothing else is: where each packet tells its length in its header and has at most
-- `MaxPacketSize` bytes, each piece has at most as many and lies in its array, the buffer holds
-- three times as much, has room for one at the start, and holds nothing that is not read.
pub receive_all_lem :
    (fs : List (List ℕ)) (received : List (ℕ × List ℕ)) (form : Form)
    → let b = form.packet_buffer in
      form.is_connected ≡ true
      → IsValid b
      → length (unread b) ≤ 0
      → 3 * b.max_packet_size ≤ b.buffer_size
      → b.write_pos + b.max_packet_size ≤ b.buffer_size
      → AllPackets b.max_packet_size fs
      → AllPieces b.max_packet_size received
      → pieces received ≡ stream fs
      → (c : PacketBufferManager) × (receive_all received form ≡ some (with_packets form c fs))
receive_all_lem fs received form connected v empty large room packets small e =
    rounds form.packet_buffer.max_packet_size received fs form small (record {
      connected = connected;
      valid = v;
      largest = refl;
      large = large;
      room = room;
      packets = packets;
      stands = length-zero (unread form.packet_buffer) (pieces received) empty ∙ e;
      waits =
          starts form.packet_buffer.max_packet_size (unread form.packet_buffer) fs packets empty;
    })
