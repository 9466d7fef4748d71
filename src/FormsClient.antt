-- ===== src/FormsClient.antt =====
-- LHJSampleClientCS/Packet.cs: the client with windows; what its packets are as bytes, and how it
-- reads the bodies of the server's packets. A `string` is the list of its UTF-16 units. An exception
-- is `none`.
pub mod PacketBuffer
pub mod Form
pub mod Dispatch
pub mod Fields
pub mod Requests
pub mod Entering
pub mod Notices
pub mod Receiving
pub mod Delivery
use lhjsample.Common.{
  ℕ, zero, suc, ◌+◌, ◌-◌, ℤ, List, [], ◌∷◌, ◌++◌, Option, some, none, ◌==◌, true, false, get_elem?,
  drop, length, replicate, read_at, write_at, read_u16, read_i32, i32_bytes,
}
use lhjsample.Common.Fallible.{◌>>=◌}

-- `Encoding.UTF8`
pub record Encoding : Type 0 where
  pub get_bytes : List ℕ → List ℕ
  pub get_string : List ℕ → List ℕ

abbrev pub max_user_id_byte_length : ℕ
max_user_id_byte_length = 11

abbrev pub max_user_pw_byte_length : ℕ
max_user_pw_byte_length = 11

abbrev pub max_chat_msg_size : ℕ
max_chat_msg_size = 257

-- `s.Replace("\0", string.Empty)`
unfoldable pub remove_nul : List ℕ → List ℕ
remove_nul [] = []
remove_nul (c ∷ cs) = let rest = remove_nul cs in elim (c == 0) [ true ↦ rest | false ↦ c ∷ rest ]

-- The loop of `ACK_ROOM_INFO_PACKET::FromBytes` that fills `idLen`, from index `i` on.
unfoldable pub id_lengths : ℕ → ℕ → List ℕ → List ℕ
id_lengths i current_pos [] = []
id_lengths i current_pos (b ∷ bs) = elim (b == 0) [
  | true ↦ (i - current_pos) ∷ id_lengths (i + 1) (i + 1) bs
  | false ↦ id_lengths (i + 1) current_pos bs
]

-- The loop of `NOTIFY_LOBBY_INFO_PACKET::FromBytes`.
unfoldable pub read_rooms : ℕ → List ℕ → ℕ → Option (List ℤ)
read_rooms zero body read_pos = some []
read_rooms (suc n) body read_pos = do
  room_num ← read_i32 body read_pos
  rest ← read_rooms n body (read_pos + 4)
  some (room_num ∷ rest)

module _ (utf8 : Encoding) where
  -- `SetValue` and `ToBytes` of a new `REQ_LOGIN_PACKET`, `REQ_ROOM_ENTER_PACKET` and
  -- `REQ_ROOM_CHAT_PACKET`. `CopyTo` throws where the text does not fit.
  unfoldable pub login_body : List ℕ → List ℕ → Option (List ℕ)
  login_body user_id user_pw = do
    id ← write_at (replicate max_user_id_byte_length 0) 0 (utf8.get_bytes user_id)
    pw ← write_at (replicate max_user_pw_byte_length 0) 0 (utf8.get_bytes user_pw)
    some (id ++ pw)

  unfoldable pub chat_body : List ℕ → Option (List ℕ)
  chat_body message = write_at (replicate max_chat_msg_size 0) 0 (utf8.get_bytes message)

  -- `Encoding.UTF8.GetString(body, index, count)` without its NULs.
  unfoldable pub text_at : List ℕ → ℕ → ℕ → Option (List ℕ)
  text_at body index count = do
    bytes ← read_at body index count
    some (remove_nul (utf8.get_string bytes))

  -- `FromBytes` of `NOTIFY_ROOM_INFO_PACKET`, `NOTIFY_ROOM_LEAVE_PACKET` and
  -- `NOTIFY_ROOM_CHAT_PACKET`.
  unfoldable pub name_from_bytes : List ℕ → Option (List ℕ)
  name_from_bytes body = text_at body 0 max_user_id_byte_length

  unfoldable pub chat_from_bytes : List ℕ → Option (List ℕ × List ℕ)
  chat_from_bytes body = do
    user_id ← text_at body 0 max_user_id_byte_length
    message ← text_at body max_user_id_byte_length max_chat_msg_size
    some (user_id, message)

  -- The loop of `ACK_ROOM_INFO_PACKET::FromBytes` that fills `UserIDList`.
  unfoldable pub read_ids : ℕ → List ℕ → List ℕ → ℕ → Option (List (List ℕ))
  read_ids zero body id_len read_pos = some []
  read_ids (suc n) body [] read_pos = none
  read_ids (suc n) body (l ∷ id_len) read_pos = do
    id ← text_at body read_pos (l + 1)
    rest ← read_ids n body id_len (read_pos + l + 1)
    some (id ∷ rest)

  -- `ACK_ROOM_INFO_PACKET::FromBytes`: `Result` and `UserIDList`, whose length is `UserCount`.
  unfoldable pub room_info_from_bytes : List ℕ → Option (ℕ × List (List ℕ))
  room_info_from_bytes body = do
    result ← read_u16 body 0
    user_count ← get_elem? body 2
    users ← read_ids user_count body (id_lengths 6 6 (drop 6 body)) 6
    some (result, users)

abbrev pub room_enter_body : ℤ → List ℕ
room_enter_body room_number = i32_bytes room_number

-- `FromBytes` of the acknowledgements with a result alone.
abbrev pub ack_from_bytes : List ℕ → Option ℕ
ack_from_bytes body = read_u16 body 0

-- `NOTIFY_LOBBY_INFO_PACKET::FromBytes`: the count is one byte.
unfoldable pub lobby_from_bytes : List ℕ → Option (List ℤ)
lobby_from_bytes body = do room_count ← get_elem? body 0; read_rooms room_count body 4
