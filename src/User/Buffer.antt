-- ===== src/User/Buffer.antt =====
-- The packet buffer of a user: `mPacketDataBuffer`, its two positions, `SetPacketData` and
-- `GetPacket` of LHJSample/User/User.cpp. `none` is a write or read outside the buffer.
-- Positions are `UINT32`, with their wrap-around. `CopyMemory` onto an overlapping range is taken
-- to move the bytes, as the runtime of the compiler does.
pub mod Append
pub mod Packets
pub mod Histories
pub mod Frames
use lhjsample.Common.{
  ℕ, ◌+◌, ◌-◌, ◌%◌, ◌^◌, Option, none, some, List, Bool, ltb, leb, if◌then◌else◌, length, write_at,
  read_at, read_u16, ◌≡◌, ◌≤◌,
}
use lhjsample.Common.Fallible.{◌>>=◌}

abbrev pub packet_data_buffer_size : ℕ
packet_data_buffer_size = 8096

-- `sizeof(PACKET_HEADER)`: `UINT16 PacketLength`, `UINT16 PacketId`, `UINT8 Type`, packed.
abbrev pub packet_header_length : ℕ
packet_header_length = 5

-- `UINT32` addition and subtraction.
abbrev pub add32 : ℕ → ℕ → ℕ
add32 a b = (a + b) % 2 ^ 32

abbrev pub sub32 : ℕ → ℕ → ℕ
sub32 a b = (a + 2 ^ 32 - b) % 2 ^ 32

pub record PacketBuffer : Type 0 where
  pub bytes : List ℕ
  pub wpos : ℕ
  pub rpos : ℕ

-- `pDataPtr` points into the buffer of the user that sent the packet: the offset there.
pub record PacketInfo : Type 0 where
  pub client_index : ℕ
  pub packet_id : ℕ
  pub data_size : ℕ
  pub data_ptr : Option ℕ

-- `PacketInfo()`
abbrev pub no_packet : PacketInfo
no_packet = record { client_index = 0; packet_id = 0; data_size = 0; data_ptr = none }

-- `SetPacketData` moves what is unread to the front.
move_unread : PacketBuffer → ℕ → Option PacketBuffer
move_unread b remain = do
  unread ← read_at b.bytes b.rpos remain
  front ← write_at b.bytes 0 unread
  some (record { bytes = front; wpos = remain; rpos = 0 })

compact : PacketBuffer → Option PacketBuffer
unfolding move_unread
compact b =
    let remain_data_size = sub32 b.wpos b.rpos in
    if ltb 0 remain_data_size
    then move_unread b remain_data_size
    else some (record b { wpos = 0; rpos = 0 })

-- `SetPacketData(dataSize_, pData_)`; the list is the `dataSize_` bytes at `pData_`.
unfoldable pub set_packet_data : List ℕ → PacketBuffer → Option PacketBuffer
unfolding compact
set_packet_data p_data b = do
  c ← (if leb packet_data_buffer_size (add32 b.wpos (length p_data)) then compact b else some b)
  written ← write_at c.bytes c.wpos p_data
  some (record c { bytes = written; wpos = add32 c.wpos (length p_data) })

-- `GetPacket` behind its first test: the header at `rpos` is there to be read.
read_packet : PacketBuffer → ℕ → Option (PacketInfo × PacketBuffer)
read_packet b remain_byte = do
  packet_length ← read_u16 b.bytes b.rpos
  if ltb remain_byte packet_length then some (no_packet, b) else do
    packet_id ← read_u16 b.bytes (b.rpos + 2)
    some (info packet_length packet_id, record b { rpos = add32 b.rpos packet_length })
  where
    info : ℕ → ℕ → PacketInfo
    info packet_length packet_id = record {
      client_index = 0;
      packet_id = packet_id;
      data_size = packet_length;
      data_ptr = some b.rpos;
    }

unfoldable pub get_packet : PacketBuffer → Option (PacketInfo × PacketBuffer)
unfolding read_packet
get_packet b =
    let remain_byte = sub32 b.wpos b.rpos in
    if ltb remain_byte packet_header_length then some (no_packet, b) else read_packet b remain_byte

-- What a user's buffer is between two calls.
pub record IsValid (b : PacketBuffer) : Type 0 where
  pub storage : length b.bytes ≡ packet_data_buffer_size
  pub ordered : b.rpos ≤ b.wpos
  pub within : b.wpos ≤ packet_data_buffer_size
