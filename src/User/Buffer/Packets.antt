-- ===== src/User/Buffer/Packets.antt =====
-- `GetPacket` against a queue of bytes that yields whole frames, and whole histories of calls.
use lhjsample.Common.{
  ℕ, ◌+◌, ◌-◌, ◌*◌, ◌<◌, ◌≤◌, ◌≡◌, refl, sym, ap, ◌∙◌, none, some, List, [], ◌∷◌, arith, ltb, leb,
  if◌then◌else◌, length, take, drop, get_elem?, get_elem?-take, get_elem?-drop, drop-take,
  drop-drop, take-take, read_u16, Bool-cases, inl, inr, lt→ltb, leb→le, le→not-ltb, true, false,
}
use lhjsample.User.Buffer.{PacketBuffer, PacketInfo, IsValid, no_packet, add32, get_packet}
use lhjsample.User.Buffer.Append.{contents, length-contents, sub32-exact}

-- The specification: of the unread bytes, the first frame (its id and its bytes) and the rest; no
-- frame, `(0, [])`, while the header or a part of the announced length has not arrived.
unfoldable pub take_frame : List ℕ → ℕ × List ℕ × List ℕ
take_frame (l0 ∷ l1 ∷ i0 ∷ i1 ∷ t ∷ body) =
    let q = l0 ∷ l1 ∷ i0 ∷ i1 ∷ t ∷ body in
    let n = l0 + 256 * l1 in
    if leb n (length q) then (i0 + 256 * i1, take n q, drop n q) else (0, [], q)
take_frame q = (0, [], q)

-- The bytes that a packet's pointer and size denote.
abbrev pub payload : PacketInfo → PacketBuffer → List ℕ
payload info b = elim info.data_ptr [ none ↦ [] | some p ↦ take info.data_size (drop p b.bytes) ]

-- What the caller of `GetPacket` sees.
abbrev pub view : PacketInfo × PacketBuffer → ℕ × List ℕ × List ℕ
view (info, b) = (info.packet_id, payload info b, contents b)

elem-contents :
    (b : PacketBuffer) (i k : ℕ)
    → k ≡ b.rpos + i
    → i < b.wpos - b.rpos
    → get_elem? b.bytes k ≡ get_elem? (contents b) i
elem-contents b i k e h = rw (
  get_elem?-take (b.wpos - b.rpos) i (drop b.rpos b.bytes) h,
  get_elem?-drop k b.rpos i b.bytes e,
)

read_u16-contents :
    (b : PacketBuffer) (i k : ℕ)
    → k ≡ b.rpos + i
    → i + 1 < b.wpos - b.rpos
    → read_u16 b.bytes k ≡ read_u16 (contents b) i
unfolding read_u16
read_u16-contents b i k e h =
    rw (elem-contents b i k e (omega arith), elem-contents b (i + 1) (k + 1) (omega arith) h)

get_packet-short :
    (b : PacketBuffer) → IsValid b → length (contents b) < 5 → get_packet b ≡ some (no_packet, b)
unfolding get_packet
get_packet-short b v h =
    rw (sub32-exact b v, lt→ltb (b.wpos - b.rpos) 5 (omega (arith, length-contents b v)))

-- The two numbers of a header at the front of the contents, as `GetPacket` reads them.
read-header :
    (b : PacketBuffer) (l0 l1 i0 i1 t : ℕ) (body : List ℕ)
    → IsValid b
    → contents b ≡ l0 ∷ l1 ∷ i0 ∷ i1 ∷ t ∷ body
    → (read_u16 b.bytes b.rpos ≡ some (l0 + 256 * l1))
      × (read_u16 b.bytes (b.rpos + 2) ≡ some (i0 + 256 * i1))
unfolding read_u16
read-header b l0 l1 i0 i1 t body v e = (
  read_u16-contents b 0 b.rpos (omega arith) (omega (arith, long)) ∙ ap (λ q. read_u16 q 0) e,
  read_u16-contents b 2 (b.rpos + 2) refl (omega (arith, long)) ∙ ap (λ q. read_u16 q 2) e,
)
  where
    long : 4 < b.wpos - b.rpos
    long = omega (arith, length-contents b v, ap length e)

-- Moving the read position over the first `n` bytes drops them from the contents.
skip-contents :
    (b : PacketBuffer) (n : ℕ)
    → IsValid b
    → n ≤ b.wpos - b.rpos
    → let c : PacketBuffer = record b { rpos = add32 b.rpos n } in
      IsValid c
      × (contents c ≡ drop n (contents b))
      × (take n (drop b.rpos b.bytes) ≡ take n (contents b))
skip-contents b n v h = (
  record { storage = v.storage; ordered = omega arith; within = v.within },
  sym (
      drop-take (b.wpos - b.rpos) n _ (drop b.rpos b.bytes) (omega arith)
      ∙ ap (take _) (drop-drop _ n b.rpos b.bytes (omega arith))),
  sym (take-take n (b.wpos - b.rpos) (drop b.rpos b.bytes) h),
)

module _ (q : List ℕ) (l0 l1 i0 i1 t : ℕ) (body : List ℕ)
    (e : q ≡ l0 ∷ l1 ∷ i0 ∷ i1 ∷ t ∷ body) where
  pub take_frame_complete :
      leb (l0 + 256 * l1) (length q) ≡ true
      → take_frame q ≡ (i0 + 256 * i1, take (l0 + 256 * l1) q, drop (l0 + 256 * l1) q)
  unfolding take_frame
  take_frame_complete h = rw (e, rw e at h)

  take_frame_partial : leb (l0 + 256 * l1) (length q) ≡ false → take_frame q ≡ (0, [], q)
  unfolding take_frame
  take_frame_partial h = rw (e, rw e at h)

-- `GetPacket` when a whole header is there.
get_packet-header :
    (b : PacketBuffer) (l0 l1 i0 i1 t : ℕ) (body : List ℕ)
    → IsValid b
    → contents b ≡ l0 ∷ l1 ∷ i0 ∷ i1 ∷ t ∷ body
    → (r : PacketInfo × PacketBuffer) × (get_packet b ≡ some r)
      × IsValid r.1
      × (view r ≡ take_frame (contents b))
unfolding get_packet
get_packet-header b l0 l1 i0 i1 t body v e =
    let (len, id) = read-header b l0 l1 i0 i1 t body v e in
    let whole : ltb (b.wpos - b.rpos) 5 ≡ false =
      le→not-ltb _ _ (omega (arith, length-contents b v, ap length e)) in
    elim (Bool-cases (leb (l0 + 256 * l1) (b.wpos - b.rpos))) [
      | inl complete ↦
          let (valid, rest, bytes) = skip-contents b (l0 + 256 * l1) v (leb→le _ _ complete) in
          (
            (
              record {
                client_index = 0;
                packet_id = i0 + 256 * i1;
                data_size = l0 + 256 * l1;
                data_ptr = some b.rpos;
              },
              record b { rpos = add32 b.rpos (l0 + 256 * l1) },
            ),
            rw (sub32-exact b v, whole, len, le→not-ltb _ _ (leb→le _ _ complete), id) refl,
            valid,
            (λ i. (i0 + 256 * i1, bytes i, rest i))
                ∙ sym (
                    take_frame_complete _ l0 l1 i0 i1 t body e (rw (length-contents b v) complete)),
          )
      | inr partial ↦
          let short : ltb (b.wpos - b.rpos) (l0 + 256 * l1) ≡ true = ground arith in
          (
            (no_packet, b),
            rw (sub32-exact b v, whole, len, short) refl,
            v,
            sym (take_frame_partial _ l0 l1 i0 i1 t body e (rw (length-contents b v) partial)),
          )
    ]

get_packet-cases :
    (b : PacketBuffer) (q : List ℕ)
    → IsValid b
    → contents b ≡ q
    → (r : PacketInfo × PacketBuffer) × (get_packet b ≡ some r)
      × IsValid r.1
      × (view r ≡ take_frame (contents b))
unfolding take_frame
get_packet-cases b (l0 ∷ l1 ∷ i0 ∷ i1 ∷ t ∷ body) v e = get_packet-header b l0 l1 i0 i1 t body v e
get_packet-cases b q v e = ((no_packet, b), get_packet-short b v (rw e (omega arith)), v, rw e refl)

-- `GetPacket` never reads out of bounds on a valid buffer, keeps it valid, and returns the id and
-- the bytes of the first whole frame of the unread bytes, which it removes; without a whole frame
-- it returns the empty packet and leaves the unread bytes as they are.
pub get_packet-take_frame :
    (b : PacketBuffer)
    → IsValid b
    → (r : PacketInfo × PacketBuffer) × (get_packet b ≡ some r)
      × IsValid r.1
      × (view r ≡ take_frame (contents b))
get_packet-take_frame b v = get_packet-cases b (contents b) v refl
