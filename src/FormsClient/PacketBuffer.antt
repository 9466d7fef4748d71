-- ===== src/FormsClient/PacketBuffer.antt =====
-- LHJSampleClientCS/PacketBufferManager.cs: the bytes that the client has received. An exception of
-- an array is `none`.
pub mod Queue
use lhjsample.Common.{
  ℕ, ◌+◌, ◌-◌, ◌*◌, ◌^◌, List, Bool, true, false, ◌||◌, not, Option, some, none, ltb, length,
  replicate, read_at, write_at, read_u16, if◌then◌else◌, drop, take, ◌≤◌, ◌≡◌,
}
use lhjsample.Common.Fallible.{◌>>=◌}

pub record PacketBufferManager : Type 0 where
  pub buffer_size : ℕ
  pub read_pos : ℕ
  pub write_pos : ℕ
  pub header_size : ℕ
  pub max_packet_size : ℕ
  pub packet_data : List ℕ
  pub packet_data_temp : List ℕ

-- `ArraySegment<byte>` of `PacketData`; the default segment is empty.
pub record ArraySegment : Type 0 where
  pub offset : ℕ
  pub count : ℕ

abbrev pub no_segment : ArraySegment
no_segment = record { offset = 0; count = 0 }

-- `Init`; the sizes that the client passes are not negative.
unfoldable pub init_buffer : ℕ → ℕ → ℕ → PacketBufferManager → Bool × PacketBufferManager
init_buffer size header_size max_packet_size b =
    if ltb size (max_packet_size * 2) || ltb size 1 || ltb header_size 1 || ltb max_packet_size 1
    then (false, b)
    else (
      true,
      record b {
        buffer_size = size;
        packet_data = replicate size 0;
        packet_data_temp = replicate size 0;
        header_size = header_size;
        max_packet_size = max_packet_size;
      },
    )

unfoldable pub next_free : PacketBufferManager → Bool
next_free b = if ltb (b.buffer_size - b.write_pos) b.max_packet_size then false else true

unfoldable pub buffer_relocate : PacketBufferManager → Option PacketBufferManager
buffer_relocate b = do
  unread ← read_at b.packet_data b.read_pos (b.write_pos - b.read_pos)
  temp ← write_at b.packet_data_temp 0 unread
  moved ← read_at temp 0 (b.write_pos - b.read_pos)
  front ← write_at b.packet_data 0 moved
  some (record b {
    packet_data = front;
    packet_data_temp = temp;
    read_pos = 0;
    write_pos = b.write_pos - b.read_pos;
  })

-- The end of `Write`, and `Write` behind its two tests.
unfoldable pub make_room : PacketBufferManager → Option PacketBufferManager
make_room b = if not (next_free b) then buffer_relocate b else some b

unfoldable pub copy_in : List ℕ → PacketBufferManager → Option (Bool × PacketBufferManager)
copy_in bytes b = do
  written ← write_at b.packet_data b.write_pos bytes
  relocated ← make_room (record b { packet_data = written; write_pos = b.write_pos + length bytes })
  some (true, relocated)

unfoldable pub write : List ℕ → ℕ → ℕ → PacketBufferManager → Option (Bool × PacketBufferManager)
unfolding copy_in
write bytes pos size b =
    if ltb (length bytes) (pos + size) || ltb (b.buffer_size - b.write_pos) size
    then some (false, b)
    else copy_in (take size (drop pos bytes)) b

-- `Read`. The size of a packet is an `Int16`; a segment cannot have a negative length.
unfoldable pub read : PacketBufferManager → Option (ArraySegment × PacketBufferManager)
read b = if ltb (b.write_pos - b.read_pos) b.header_size then some (no_segment, b) else do
  packet_data_size ← read_u16 b.packet_data b.read_pos
  if not (ltb packet_data_size (2 ^ 15))
      then none
      else if ltb (b.write_pos - b.read_pos) packet_data_size
      then some (no_segment, b)
      else some (
        record { offset = b.read_pos; count = packet_data_size },
        record b { read_pos = b.read_pos + packet_data_size },
      )

-- What is received and not yet read.
abbrev pub unread : PacketBufferManager → List ℕ
unread b = take (b.write_pos - b.read_pos) (drop b.read_pos b.packet_data)

-- What a buffer is between two calls, once `Init` has made it.
pub record IsValid (b : PacketBufferManager) : Type 0 where
  pub storage : length b.packet_data ≡ b.buffer_size
  pub scratch : length b.packet_data_temp ≡ b.buffer_size
  pub ordered : b.read_pos ≤ b.write_pos
  pub within : b.write_pos ≤ b.buffer_size
  pub header : b.header_size ≡ 5
