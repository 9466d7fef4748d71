-- ===== src/User/Buffer/Append.antt =====
-- `SetPacketData`: what it appends to the unread bytes, and when it writes out of bounds.
use lhjsample.Common.{
  ℕ, ◌+◌, ◌-◌, ◌≤◌, ◌<◌, ◌≡◌, refl, sym, ap, subst, leb→le, ◌∙◌, none, some, List, ◌++◌, arith, ltb,
  leb, length, take, drop, length-take, length-drop, blit, write_at, length-blit, window-blit,
  write_at-fits, read_at-fits, write_at-overflow, Bool-cases, inl, inr,
}
use mathlib.Core.Option.{some-injective}
use lhjsample.User.Buffer.{
  PacketBuffer, IsValid, packet_data_buffer_size, add32, sub32, move_unread, compact,
  set_packet_data,
}

-- The bytes received and not yet taken as a packet.
abbrev pub contents : PacketBuffer → List ℕ
contents b = take (b.wpos - b.rpos) (drop b.rpos b.bytes)

pub length-contents : (b : PacketBuffer) → IsValid b → length (contents b) ≡ b.wpos - b.rpos
length-contents b v =
    omega (arith, length-take (b.wpos - b.rpos) (drop b.rpos b.bytes), length-drop b.rpos b.bytes)

-- A write behind the last byte appends to the contents.
append-contents :
    (b : PacketBuffer) (p_data : List ℕ)
    → IsValid b
    → b.wpos + length p_data ≤ packet_data_buffer_size
    → let c = record b {
      bytes = blit b.bytes b.wpos p_data;
      wpos = add32 b.wpos (length p_data);
    } in
      (write_at b.bytes b.wpos p_data ≡ some c.bytes)
      × IsValid c
      × (contents c ≡ contents b ++ p_data)
append-contents b p_data v h = (
  write_at-fits b.bytes b.wpos p_data (omega (arith, v.storage)),
  record {
    storage = length-blit b.bytes b.wpos p_data (omega (arith, v.storage)) ∙ v.storage;
    ordered = omega arith;
    within = omega arith;
  },
  window-blit b.rpos (b.wpos - b.rpos) _ b.wpos b.bytes p_data (omega arith) (omega arith)
      (omega (arith, v.storage)),
)

pub sub32-exact : (b : PacketBuffer) → IsValid b → sub32 b.wpos b.rpos ≡ b.wpos - b.rpos
sub32-exact b v = omega arith

move_unread-contents :
    (b : PacketBuffer)
    → IsValid b
    → let c : PacketBuffer = record {
      bytes = blit b.bytes 0 (contents b);
      wpos = b.wpos - b.rpos;
      rpos = 0;
    } in
      (move_unread b (b.wpos - b.rpos) ≡ some c) × IsValid c × (contents c ≡ contents b)
unfolding move_unread
move_unread-contents b v = (
  rw (
    read_at-fits b.bytes b.rpos (b.wpos - b.rpos) (omega (arith, v.storage)),
    write_at-fits b.bytes 0 (contents b) fits,
  ),
  record {
    storage = length-blit b.bytes 0 (contents b) fits ∙ v.storage;
    ordered = omega arith;
    within = omega arith;
  },
  window-blit 0 0 (b.wpos - b.rpos - 0) 0 b.bytes (contents b) (omega arith)
      (omega (arith, length-contents b v)) (omega arith),
)
  where
    fits : 0 + length (contents b) ≤ length b.bytes
    fits = omega (arith, length-contents b v, v.storage)

-- Compaction keeps the contents, and leaves them at the front.
compact-contents :
    (b : PacketBuffer)
    → IsValid b
    → (c : PacketBuffer) × (compact b ≡ some c)
      × IsValid c
      × (contents c ≡ contents b)
      × (c.wpos ≡ b.wpos - b.rpos)
unfolding compact
compact-contents b v = elim (Bool-cases (ltb 0 (sub32 b.wpos b.rpos))) [
  | inl some_left ↦
      let (e, valid, same) = move_unread-contents b v in
      (
        record { bytes = blit b.bytes 0 (contents b); wpos = b.wpos - b.rpos; rpos = 0 },
        rw (some_left, sub32-exact b v) e,
        valid,
        same,
        refl,
      )
  | inr none_left ↦
      let empty : b.wpos - b.rpos ≡ 0 = ground arith in
      (
        record b { wpos = 0; rpos = 0 },
        rw none_left refl,
        record { storage = v.storage; ordered = omega arith; within = omega arith },
        rw empty refl,
        rw empty refl,
      )
]

-- While the unread bytes and the new ones fit, `SetPacketData` succeeds, keeps the buffer valid and
-- appends exactly the new bytes to what is unread, whether or not it moves bytes to the front.
pub set_packet_data-append :
    (b : PacketBuffer) (p_data : List ℕ)
    → IsValid b
    → length (contents b) + length p_data ≤ packet_data_buffer_size
    → (c : PacketBuffer) × (set_packet_data p_data b ≡ some c)
      × IsValid c
      × (contents c ≡ contents b ++ p_data)
unfolding set_packet_data
set_packet_data-append b p_data v h =
    elim (Bool-cases (leb packet_data_buffer_size (add32 b.wpos (length p_data)))) [
      | inl late ↦
          let (c, e, w, same, at) = compact-contents b v in
          let (written, valid, grown) =
            append-contents c p_data w (omega (arith, length-contents b v)) in
          (
            record {
              bytes = blit c.bytes c.wpos p_data;
              wpos = add32 c.wpos (length p_data);
              rpos = c.rpos;
            },
            rw (late, e, written) refl,
            valid,
            grown ∙ ap (λ q. q ++ p_data) same,
          )
      | inr early ↦
          let (written, valid, grown) =
            append-contents b p_data v (ground (arith, length-contents b v)) in
          (
            record {
              bytes = blit b.bytes b.wpos p_data;
              wpos = add32 b.wpos (length p_data);
              rpos = b.rpos;
            },
            rw (early, written) refl,
            valid,
            grown,
          )
    ]

-- With more unread and new bytes than the buffer holds, `SetPacketData` writes past its end,
-- whether or not it moves bytes to the front first.
pub set_packet_data-overflow :
    (b : PacketBuffer) (p_data : List ℕ)
    → IsValid b
    → packet_data_buffer_size < length (contents b) + length p_data
    → set_packet_data p_data b ≡ none
unfolding set_packet_data
set_packet_data-overflow b p_data v h =
    elim (Bool-cases (leb packet_data_buffer_size (add32 b.wpos (length p_data)))) [
      | inl late ↦
          let (c, e, w, same, at) = compact-contents b v in
          rw (
            late,
            e,
            write_at-overflow c.bytes c.wpos p_data (omega (arith, w.storage, length-contents b v)),
          )
      | inr early ↦ rw (
        early,
        write_at-overflow b.bytes b.wpos p_data (omega (arith, v.storage, length-contents b v)),
      )
    ]

-- Whatever is received, `SetPacketData` leaves a valid buffer valid if it does not fault.
pub set_packet_data-IsValid :
    (b c : PacketBuffer) (p_data : List ℕ)
    → IsValid b
    → set_packet_data p_data b ≡ some c
    → IsValid c
set_packet_data-IsValid b c p_data v e =
    elim (Bool-cases (leb (length (contents b) + length p_data) packet_data_buffer_size)) [
      | inl fits ↦
          let (d, made, w, same) = set_packet_data-append b p_data v (leb→le _ _ fits) in
          subst IsValid (some-injective _ _ (sym made ∙ e)) w
      | inr full ↦ let fault = set_packet_data-overflow b p_data v (ground arith) in cc
    ]
