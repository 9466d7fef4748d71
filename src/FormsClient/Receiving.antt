-- ===== src/FormsClient/Receiving.antt =====
-- LHJSampleClientCS/Form1.cs, NetworkReadProcess: from the pieces in which a stream arrives to the
-- packets in the queue.
pub mod Streams
use lhjsample.Common.{
  ℕ, zero, suc, ◌+◌, ◌-◌, ◌*◌, ◌≤◌, ◌<◌, ◌≡◌, refl, sym, ap, ◌∙◌, List, [], ◌∷◌, ◌++◌, map, Option,
  some, none, true, false, inl, inr, arith, ltb, Bool-cases, length, take, drop, get_elem?, read_at,
  read_u16, get_elem?-take, get_elem?-drop, read_at-fits, length-take, length-append, drop-drop,
  drop-take, append-nil, append_assoc,
}
use lhjsample.Common.Fallible.{◌>>=◌, >>=-some}
use lhjsample.FormsClient.PacketBuffer.{
  PacketBufferManager, ArraySegment, no_segment, IsValid, unread, write, read,
}
use lhjsample.FormsClient.PacketBuffer.Queue.{
  IsPacket, read-packet, read-partial, read-empty, write_lem,
}
use lhjsample.FormsClient.Form.{
  PacketData, Form, packet_header_size, packet_data_of, read_packets, network_read,
}

-- What the client makes of the bytes of one packet.
unfoldable pub decoded : List ℕ → PacketData
decoded (l0 ∷ l1 ∷ i0 ∷ i1 ∷ t ∷ body) = record {
  data_size = length body;
  packet_id = i0 + 256 * i1;
  kind = t;
  body_data = body;
}
decoded other = record { data_size = 0; packet_id = 0; kind = 0; body_data = [] }

-- The packets one after the other, as the server sends them.
abbrev pub stream : List (List ℕ) → List ℕ
stream [] = []
stream (f ∷ fs) = f ++ stream fs

-- Packets of at most `m` bytes.
abbrev pub AllPackets : ℕ → List (List ℕ) → Type 0
AllPackets m [] = Unit
AllPackets m (f ∷ fs) = IsPacket f × (length f ≤ m) × AllPackets m fs

abbrev pub Waits : List ℕ → List (List ℕ) → Type 0
Waits q [] = length q ≤ 0
Waits q (f ∷ fs) = length q < length f

packet_data_of_lem :
    (f : List ℕ) (r : ℕ) (b : PacketBufferManager)
    → 5 ≤ length f
    → r + length f ≤ length b.packet_data
    → take (length f) (drop r b.packet_data) ≡ f
    → packet_data_of (record { offset = r; count = length f }) b ≡ some (decoded f)
unfolding packet_data_of decoded read_u16
packet_data_of_lem (l0 ∷ l1 ∷ i0 ∷ i1 ∷ t ∷ body) r b h fits e =
    let f : List ℕ = l0 ∷ l1 ∷ i0 ∷ i1 ∷ t ∷ body in
    let at : (i k : ℕ) → k ≡ r + i → i < length f → get_elem? b.packet_data k ≡ get_elem? f i =
      λ i k same less.
        sym (get_elem?-drop k r i b.packet_data same)
        ∙ sym (get_elem?-take (length f) i (drop r b.packet_data) less)
        ∙ ap (λ (x : List ℕ). get_elem? x i) e in
    let part : take (length body) (drop (r + 5) b.packet_data) ≡ body =
      ap (take (length body)) (sym (drop-drop (r + 5) 5 r b.packet_data refl))
      ∙ sym (drop-take (length f) 5 (length body) (drop r b.packet_data) (omega arith))
      ∙ ap (drop 5) e in
    let size : length f - 5 ≡ length body = omega arith in
    ground (
      arith,
      at 2 (r + 2) refl (omega arith),
      at 3 (r + 2 + 1) (omega arith) (omega arith),
      at 4 (r + 4) refl (omega arith),
      read_at-fits b.packet_data (r + 5) (length body) (omega (arith, fits)),
      part,
      size,
    )
packet_data_of_lem [] r b h fits e = absurd (omega (arith, h))
packet_data_of_lem (x0 ∷ []) r b h fits e = absurd (omega (arith, h))
packet_data_of_lem (x0 ∷ x1 ∷ []) r b h fits e = absurd (omega (arith, h))
packet_data_of_lem (x0 ∷ x1 ∷ x2 ∷ []) r b h fits e = absurd (omega (arith, h))
packet_data_of_lem (x0 ∷ x1 ∷ x2 ∷ x3 ∷ []) r b h fits e = absurd (omega (arith, h))

-- A list that is at least as long as the first part of an equal one begins with it.
split_front :
    (f xs ys zs : List ℕ)
    → xs ++ ys ≡ f ++ zs
    → length f ≤ length xs
    → (q : List ℕ) × (xs ≡ f ++ q) × (q ++ ys ≡ zs)
split_front [] xs ys zs e h = (xs, refl, e)
split_front (a ∷ f) [] ys zs e h = elim h [ ]
split_front (a ∷ f) (x ∷ xs) ys zs e h =
    let (q, e1, e2) = split_front f xs ys zs (ap (drop 1) e) (omega arith) in (q, cc (e, e1), e2)

abbrev pub with_packets : Form → PacketBufferManager → List (List ℕ) → Form
with_packets form b fs = record form {
  packet_buffer = b;
  recv_packet_queue = form.recv_packet_queue ++ map decoded fs;
}

-- What the inner loop has done: it has read some packets from the front, and waits for the next.
pub record HasRead (form : Form) (more : List ℕ) (fs : List (List ℕ)) (result : Option Form)
    : Type 0 where
  pub done : List (List ℕ)
  pub rest : List (List ℕ)
  pub buffer : PacketBufferManager
  pub splits : fs ≡ done ++ rest
  pub returns : result ≡ some (with_packets form buffer done)
  pub valid : IsValid buffer
  pub left : unread buffer ++ more ≡ stream rest
  pub waits : Waits (unread buffer) rest
  pub size : buffer.buffer_size ≡ form.packet_buffer.buffer_size
  pub largest : buffer.max_packet_size ≡ form.packet_buffer.max_packet_size
  pub place : buffer.write_pos ≡ form.packet_buffer.write_pos

-- The loop stops where a read finds no packet.
stops :
    (n : ℕ) (form : Form) (more : List ℕ) (fs : List (List ℕ))
    → IsValid form.packet_buffer
    → unread form.packet_buffer ++ more ≡ stream fs
    → Waits (unread form.packet_buffer) fs
    → read form.packet_buffer ≡ some (no_segment, form.packet_buffer)
    → HasRead form more fs (read_packets (suc n) form)
unfolding read_packets
stops n form more fs v e w stop = record {
  done = [];
  rest = fs;
  buffer = form.packet_buffer;
  splits = refl;
  returns = rw stop (
      ap (λ q. some (record form { recv_packet_queue = q }))
        (sym (append-nil form.recv_packet_queue)));
  valid = v;
  left = e;
  waits = w;
  size = refl;
  largest = refl;
  place = refl;
}

-- One packet is read and queued, and the loop goes on.
goes_on :
    (n : ℕ) (form : Form) (f q more : List ℕ) (fs : List (List ℕ))
    → IsValid form.packet_buffer
    → IsPacket f
    → unread form.packet_buffer ≡ f ++ q
    → let b = form.packet_buffer in
      let c = record b { read_pos = b.read_pos + length f } in
      let next = with_packets form c (f ∷ []) in
      HasRead next more fs (read_packets n next)
      → HasRead form more (f ∷ fs) (read_packets (suc n) form)
unfolding read_packets
goes_on n form f q more fs v p e h =
    let b : PacketBufferManager = form.packet_buffer in
    let (e1, vc, same, front) = read-packet b f q v p e in
    let c : PacketBufferManager = record b { read_pos = b.read_pos + length f } in
    let e2 : packet_data_of (record { offset = b.read_pos; count = length f }) c
        ≡ some (decoded f) =
      packet_data_of_lem f b.read_pos c p.has_header
        (omega (arith, vc.ordered, vc.within, vc.storage)) front in
    let e3 : ltb (length f) 1 ≡ false = ground (arith, p.has_header) in
    record {
      done = f ∷ h.done;
      rest = h.rest;
      buffer = h.buffer;
      splits = ap (◌∷◌ f) h.splits;
      returns =
          >>=-some (read b) _ e1
          ∙ rw (e3, e2)
              (h.returns
                ∙ ap
                    (λ queue.
                      some (record form { packet_buffer = h.buffer; recv_packet_queue = queue }))
                    (append_assoc form.recv_packet_queue (decoded f ∷ []) (map decoded h.done)));
      valid = h.valid;
      left = h.left;
      waits = h.waits;
      size = h.size;
      largest = h.largest;
      place = h.place;
    }

-- With as much fuel as there are bytes, the loop queues every packet that has arrived as a whole.
pub read_packets_lem :
    (m : ℕ) (fs : List (List ℕ)) (n : ℕ) (form : Form) (more : List ℕ)
    → IsValid form.packet_buffer
    → AllPackets m fs
    → unread form.packet_buffer ++ more ≡ stream fs
    → length (unread form.packet_buffer) ≤ n
    → HasRead form more fs (read_packets (suc n) form)
read_packets_lem m [] n form more v p e h =
    let none_left : length (unread form.packet_buffer) ≤ 0 =
      omega (arith, length-append (unread form.packet_buffer) more, ap length e) in
    stops n form more [] v e none_left (read-empty form.packet_buffer v none_left)
read_packets_lem m (f ∷ fs) zero form more v (p, small, ps) e h =
    let few : length (unread form.packet_buffer) < length f = omega (arith, h, p.has_header) in
    stops 0 form more (f ∷ fs) v e few
      (read-partial form.packet_buffer f (stream fs) more v p e few)
read_packets_lem m (f ∷ fs) (suc n) form more v (p, small, ps) e h =
    let b : PacketBufferManager = form.packet_buffer in
    let c : PacketBufferManager = record b { read_pos = b.read_pos + length f } in
    elim (Bool-cases (ltb (length (unread b)) (length f))) [
      | inl short ↦
          let few : length (unread b) < length f = ground (arith, short) in
          stops (suc n) form more (f ∷ fs) v e few (read-partial b f (stream fs) more v p e few)
      | inr whole ↦
          let (q, e1, e2) = split_front f (unread b) more (stream fs) e (ground (arith, whole)) in
          let (e3, vc, same, front) = read-packet b f q v p e1 in
          goes_on (suc n) form f q more fs v p e1 (
            read_packets_lem m fs n (with_packets form c (f ∷ [])) more vc ps
              (ap (λ x. x ++ more) same ∙ e2)
              (omega (arith, h, ap length e1, length-append f q, ap length same, p.has_header)))
    ]
