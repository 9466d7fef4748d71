-- ===== src/FormsClient/PacketBuffer/Queue.antt =====
-- The buffer of the client against a queue of bytes.
use lhjsample.Common.{
  ℕ, zero, suc, ◌+◌, ◌-◌, ◌^◌, ◌≤◌, ◌<◌, ◌≡◌, refl, sym, ap, ◌∙◌, List, [], ◌∷◌, ◌++◌, some, true,
  false, inl, inr, arith, ltb, Bool-cases, length, take, drop, get_elem?, read_at, write_at, blit,
  read_u16, get_elem?-take, get_elem?-drop, length-append, length-take, length-drop, length-blit,
  window-blit, write_at-fits, read_at-fits, take-append_length, drop-append_length, take-take,
  append-nil, drop-drop, drop-take,
}
use lhjsample.FormsClient.PacketBuffer.{
  PacketBufferManager, no_segment, IsValid, unread, next_free, buffer_relocate, make_room, copy_in,
  write, read,
}

-- A packet on the wire whose header tells its length, which a signed 16-bit number can hold.
pub record IsPacket (f : List ℕ) : Type 0 where
  pub announces : read_u16 f 0 ≡ some (length f)
  pub has_header : 5 ≤ length f
  pub fits : length f < 2 ^ 15

pub length-unread :
    (b : PacketBufferManager) → IsValid b → length (unread b) ≡ b.write_pos - b.read_pos
length-unread b v = omega (
  arith,
  v.storage,
  v.within,
  length-take (b.write_pos - b.read_pos) (drop b.read_pos b.packet_data),
  length-drop b.read_pos b.packet_data,
)

-- The first two elements, in the array, in what is unread, and in what it is a part of.
elem-unread :
    (b : PacketBufferManager) (i k : ℕ)
    → k ≡ b.read_pos + i
    → i < b.write_pos - b.read_pos
    → get_elem? b.packet_data k ≡ get_elem? (unread b) i
elem-unread b i k e h = rw (
  get_elem?-take (b.write_pos - b.read_pos) i (drop b.read_pos b.packet_data) h,
  get_elem?-drop k b.read_pos i b.packet_data e,
)

pub get_elem?-append_left :
    (xs ys : List ℕ) (i : ℕ) → i < length xs → get_elem? (xs ++ ys) i ≡ get_elem? xs i
get_elem?-append_left [] ys i h = elim h [ ]
get_elem?-append_left (x ∷ xs) ys zero h = refl
get_elem?-append_left (x ∷ xs) ys (suc i) h = get_elem?-append_left xs ys i (omega arith)

-- What is read at the front of a list is read in the array.
read_u16-unread :
    (b : PacketBufferManager) (more q : List ℕ)
    → IsValid b
    → 2 ≤ length (unread b)
    → unread b ++ more ≡ q
    → read_u16 b.packet_data b.read_pos ≡ read_u16 q 0
unfolding read_u16
read_u16-unread b more q v h e =
    let n : 2 ≤ b.write_pos - b.read_pos = omega (arith, length-unread b v) in
    rw
      (
        sym e,
        get_elem?-append_left (unread b) more 0 (omega arith),
        get_elem?-append_left (unread b) more 1 h,
        sym (elem-unread b 0 b.read_pos (omega arith) (omega arith)),
        sym (elem-unread b 1 (b.read_pos + 1) refl n),
      )
      refl

-- The length of a packet is read at the front of what begins with it.
front_u16 : (f rest : List ℕ) → IsPacket f → read_u16 (f ++ rest) 0 ≡ some (length f)
front_u16 [] rest p = absurd (omega (arith, p.has_header))
front_u16 (l0 ∷ []) rest p = absurd (omega (arith, p.has_header))
front_u16 (l0 ∷ l1 ∷ f) rest p = unfold read_u16 in p.announces

-- A whole packet at the front is read, and what is behind it stays.
pub read-packet :
    (b : PacketBufferManager) (f rest : List ℕ)
    → IsValid b
    → IsPacket f
    → unread b ≡ f ++ rest
    → let c = record b { read_pos = b.read_pos + length f } in
      (read b ≡ some (record { offset = b.read_pos; count = length f }, c))
      × IsValid c
      × (unread c ≡ rest)
      × (take (length f) (drop b.read_pos b.packet_data) ≡ f)
unfolding read
read-packet b f rest v p e =
    let all : length (unread b) ≡ length f + length rest = rw e (length-append f rest) in
    let n : b.write_pos - b.read_pos ≡ length f + length rest = omega (arith, length-unread b v) in
    let size : read_u16 b.packet_data b.read_pos ≡ some (length f) =
      read_u16-unread b [] (f ++ rest) v (omega (arith, p.has_header)) (append-nil _ ∙ e)
      ∙ front_u16 f rest p in
    let front : take (length f) (unread b) ≡ f = rw e (take-append_length (length f) f rest refl) in
    let back : drop (length f) (unread b) ≡ rest =
      rw e (drop-append_length (length f) f rest refl) in
    (
      ground (arith, size, v.header, p.has_header, p.fits),
      record {
        storage = v.storage;
        scratch = v.scratch;
        ordered = omega (arith, v.ordered, n);
        within = v.within;
        header = v.header;
      },
      ap (take (b.write_pos - (b.read_pos + length f)))
            (sym (drop-drop (b.read_pos + length f) (length f) b.read_pos b.packet_data refl))
          ∙ sym (
              drop-take (b.write_pos - b.read_pos) (length f)
                (b.write_pos - (b.read_pos + length f)) (drop b.read_pos b.packet_data)
                (omega (arith, n)))
          ∙ back,
      sym (
            take-take (length f) (b.write_pos - b.read_pos) (drop b.read_pos b.packet_data)
              (omega (arith, n)))
          ∙ front,
    )

-- A packet of which a part has not arrived is not read.
pub read-partial :
    (b : PacketBufferManager) (f rest more : List ℕ)
    → IsValid b
    → IsPacket f
    → unread b ++ more ≡ f ++ rest
    → length (unread b) < length f
    → read b ≡ some (no_segment, b)
unfolding read
read-partial b f rest more v p e short = elim (Bool-cases (ltb (b.write_pos - b.read_pos) 5)) [
  | inl few ↦ rw (v.header, few) refl
  | inr many ↦
      let n : 5 ≤ b.write_pos - b.read_pos = ground (arith, many) in
      let size : read_u16 b.packet_data b.read_pos ≡ some (length f) =
        read_u16-unread b more (f ++ rest) v (omega (arith, length-unread b v, n)) e
        ∙ front_u16 f rest p in
      ground (arith, size, v.header, p.fits, length-unread b v)
]

pub read-empty :
    (b : PacketBufferManager) → IsValid b → length (unread b) ≤ 0 → read b ≡ some (no_segment, b)
unfolding read
read-empty b v e =
    let n : b.write_pos - b.read_pos ≡ 0 = omega (arith, length-unread b v, e) in
    rw (v.header, n) refl

-- Relocating keeps what is unread, and moves it to the front.
pub buffer_relocate_lem :
    (b : PacketBufferManager)
    → IsValid b
    → (c : PacketBufferManager) × (buffer_relocate b ≡ some c)
      × IsValid c
      × (unread c ≡ unread b)
      × (c.buffer_size ≡ b.buffer_size)
      × (c.max_packet_size ≡ b.max_packet_size)
      × (c.write_pos ≡ b.write_pos - b.read_pos)
unfolding buffer_relocate blit
buffer_relocate_lem b v =
    let n : ℕ = b.write_pos - b.read_pos in
    let count : length (unread b) ≡ n = length-unread b v in
    let fits : n ≤ b.buffer_size = omega (arith, v.ordered, v.within) in
    let e1 : read_at b.packet_data b.read_pos n ≡ some (unread b) =
      read_at-fits b.packet_data b.read_pos n (omega (arith, v.storage, v.within, v.ordered)) in
    let kept : length (blit b.packet_data 0 (unread b)) ≡ b.buffer_size =
      length-blit b.packet_data 0 (unread b) (omega (arith, v.storage, count)) ∙ v.storage in
    let temp : List ℕ = blit b.packet_data_temp 0 (unread b) in
    let e2 : write_at b.packet_data_temp 0 (unread b) ≡ some temp =
      write_at-fits b.packet_data_temp 0 (unread b) (omega (arith, v.scratch, count)) in
    let same : length temp ≡ b.buffer_size =
      length-blit b.packet_data_temp 0 (unread b) (omega (arith, v.scratch, count)) ∙ v.scratch in
    let e3 : read_at temp 0 n ≡ some (unread b) =
      read_at-fits temp 0 n (omega (arith, same))
      ∙ ap some (take-append_length n (unread b) _ (sym count)) in
    let e4 : write_at b.packet_data 0 (unread b) ≡ some (blit b.packet_data 0 (unread b)) =
      write_at-fits b.packet_data 0 (unread b) (omega (arith, v.storage, count)) in
    (
      record b {
        packet_data = blit b.packet_data 0 (unread b);
        packet_data_temp = temp;
        read_pos = 0;
        write_pos = n;
      },
      rw (e1, e2, e3, e4) refl,
      record {
        storage = kept;
        scratch = same;
        ordered = omega arith;
        within = fits;
        header = v.header;
      },
      take-append_length (n - 0) (unread b) _ (omega (arith, count)),
      refl,
      refl,
      refl,
    )

-- Where the bytes fit behind what is there, `Write` appends them; and there is room for a packet of
-- the largest size afterwards, if what is unread leaves that much.
pub write_lem :
    (b : PacketBufferManager) (bytes : List ℕ) (size : ℕ)
    → IsValid b
    → size ≤ length bytes
    → b.write_pos + size ≤ b.buffer_size
    → (c : PacketBufferManager) × (write bytes 0 size b ≡ some (true, c))
      × IsValid c
      × (unread c ≡ unread b ++ take size bytes)
      × (c.buffer_size ≡ b.buffer_size)
      × (c.max_packet_size ≡ b.max_packet_size)
      × (length (unread c) + b.max_packet_size ≤ b.buffer_size
          → c.write_pos + b.max_packet_size ≤ b.buffer_size)
unfolding write copy_in make_room next_free
write_lem b bytes size v some_bytes fits =
    let part : List ℕ = take size bytes in
    let count : length part ≡ size = omega (arith, length-take size bytes) in
    let e1 : write_at b.packet_data b.write_pos part ≡ some (blit b.packet_data b.write_pos part) =
      write_at-fits b.packet_data b.write_pos part (omega (arith, v.storage, count)) in
    let c : PacketBufferManager = record b {
      packet_data = blit b.packet_data b.write_pos part;
      write_pos = b.write_pos + length part;
    } in
    let vc : IsValid c = record {
      storage =
          length-blit b.packet_data b.write_pos part (omega (arith, v.storage, count)) ∙ v.storage;
      scratch = v.scratch;
      ordered = omega (arith, v.ordered);
      within = omega (arith, count);
      header = v.header;
    } in
    let grown : unread c ≡ unread b ++ part =
      window-blit b.read_pos (b.write_pos - b.read_pos) (c.write_pos - b.read_pos) b.write_pos
        b.packet_data part (omega (arith, v.ordered)) (omega (arith, v.ordered))
        (omega (arith, v.storage, v.within)) in
    let t1 : ltb (length bytes) (0 + size) ≡ false = ground (arith, some_bytes) in
    let t2 : ltb (b.buffer_size - b.write_pos) size ≡ false = ground (arith, fits) in
    elim (Bool-cases (ltb (b.buffer_size - c.write_pos) b.max_packet_size)) [
      | inl full ↦
          let (d, e2, vd, same, s1, s2, w) = buffer_relocate_lem c vc in
          (
            d,
            rw (t1, t2, e1, full, e2) refl,
            vd,
            same ∙ grown,
            s1,
            s2,
            λ room. omega (arith, room, w, length-unread c vc, ap length same),
          )
      | inr free ↦
          (c, rw (t1, t2, e1, free) refl, vc, grown, refl, refl, λ room. ground (arith, free))
    ]
