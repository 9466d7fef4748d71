-- ===== src/Packet.antt =====
-- LHJSample/Packet.h and LHJSample/ResultCode.h: packet ids, result codes, and the packed layout of
-- the packets as bytes. The tests of sizes and the offsets of fields follow `#pragma pack(1)`.
pub mod Framing
use lhjsample.Common.{
  ℕ, ◌+◌, ◌*◌, ◌-◌, ◌%◌, List, [], ◌∷◌, ◌++◌, ℤ, pos, length, take, replicate, u16_bytes, i32_bytes,
  Option, some, none, ltb, if◌then◌else◌,
}
use lhjsample.Common.Fallible.{◌>>=◌ as bind}

pub data PacketId : Type 0 where
  sys_user_connect sys_user_disconnect sys_end db_end : PacketId
  req_create_account ack_create_account req_login ack_login : PacketId
  req_lobby_info ack_lobby_info notify_lobby_info : PacketId
  req_room_enter ack_room_enter : PacketId
  req_room_leave ack_room_leave notify_room_leave : PacketId
  req_room_chat ack_room_chat notify_room_chat : PacketId
  req_room_info ack_room_info notify_room_info : PacketId

-- `(UINT16)PACKET_ID::…`
abbrev pub packet_id : PacketId → ℕ
packet_id sys_user_connect = 11
packet_id sys_user_disconnect = 12
packet_id sys_end = 30
packet_id db_end = 199
packet_id req_create_account = 200
packet_id ack_create_account = 201
packet_id req_login = 210
packet_id ack_login = 211
packet_id req_lobby_info = 300
packet_id ack_lobby_info = 301
packet_id notify_lobby_info = 302
packet_id req_room_enter = 400
packet_id ack_room_enter = 401
packet_id req_room_leave = 410
packet_id ack_room_leave = 411
packet_id notify_room_leave = 412
packet_id req_room_chat = 420
packet_id ack_room_chat = 421
packet_id notify_room_chat = 422
packet_id req_room_info = 430
packet_id ack_room_info = 431
packet_id notify_room_info = 432

pub data ResultCode : Type 0 where
  result_none : ResultCode
  user_mgr_invalid_user_index user_mgr_invalid_user_uniqueid : ResultCode
  create_account_fail : ResultCode
  login_success login_user_already login_user_used_all_obj login_user_invalid_pw : ResultCode
  new_room_used_all_obj new_room_fail_enter : ResultCode
  enter_room_success enter_room_not_finde_user enter_room_invalid_user_status : ResultCode
  enter_room_not_used_status enter_room_full_user : ResultCode
  room_invalid_index room_not_used room_too_many_packet room_full : ResultCode
  leave_room_success leave_room_fail : ResultCode
  chat_room_invalid_room_number : ResultCode
  lobby_info_success : ResultCode
  chat_room_success : ResultCode

-- `(UINT16)RESULT_CODE::…`; `NONE` is `result_none`.
abbrev pub result_code : ResultCode → ℕ
result_code result_none = 0
result_code user_mgr_invalid_user_index = 10
result_code user_mgr_invalid_user_uniqueid = 11
result_code create_account_fail = 20
result_code login_success = 30
result_code login_user_already = 31
result_code login_user_used_all_obj = 32
result_code login_user_invalid_pw = 33
result_code new_room_used_all_obj = 40
result_code new_room_fail_enter = 41
result_code enter_room_success = 50
result_code enter_room_not_finde_user = 51
result_code enter_room_invalid_user_status = 52
result_code enter_room_not_used_status = 53
result_code enter_room_full_user = 54
result_code room_invalid_index = 60
result_code room_not_used = 61
result_code room_too_many_packet = 62
result_code room_full = 63
result_code leave_room_success = 70
result_code leave_room_fail = 71
result_code chat_room_invalid_room_number = 80
result_code lobby_info_success = 90
result_code chat_room_success = 100

-- The lengths of `char UserID[MAX_USER_ID_LEN + 1]`, `char UserPW[MAX_USER_PW_LEN + 1]` and
-- `char Message[MAX_CHAT_MSG_SIZE + 1]`.
abbrev pub user_id_field : ℕ
user_id_field = 11

abbrev pub user_pw_field : ℕ
user_pw_field = 11

abbrev pub message_field : ℕ
message_field = 257

abbrev pub packet_header_length : ℕ
packet_header_length = 5

-- `sizeof(REQ_CREATE_ACCOUNT_PACKET)` and `sizeof(REQ_LOGIN_PACKET)`
abbrev pub account_packet_size : ℕ
account_packet_size = 27

-- Offsets in the requests: `UserID`, `UserPW`, `RoomNumber` and `Message`.
abbrev pub user_id_offset : ℕ
user_id_offset = 5

abbrev pub user_pw_offset : ℕ
user_pw_offset = 16

abbrev pub room_number_offset : ℕ
room_number_offset = 5

abbrev pub message_offset : ℕ
message_offset = 5

-- A `PACKET_HEADER` in memory.
abbrev pub header_bytes : ℕ → PacketId → ℕ → List ℕ
header_bytes packet_length id kind =
    u16_bytes packet_length ++ u16_bytes (packet_id id) ++ kind ∷ []

-- The acknowledgements that hold a result alone.
unfoldable pub ack_packet : PacketId → ℕ → ResultCode → List ℕ
ack_packet id kind result = header_bytes 7 id kind ++ u16_bytes (result_code result)

-- The loop that copies the bytes of a text into an array: what is left of the array, and of the
-- text. A byte that is left when the array has ended is written past it: `none`.
unfoldable pub copy_bytes : List ℕ → List ℕ → Option (List ℕ)
copy_bytes array [] = some array
copy_bytes [] (b ∷ id) = none
copy_bytes (old ∷ array) (b ∷ id) = bind (copy_bytes array id) λ rest. some (b ∷ rest)

-- A `char` array of `user_id_field` zeros into which the loop has copied an id.
unfoldable pub zeroed_name : List ℕ → Option (List ℕ)
unfolding copy_bytes
zeroed_name id = copy_bytes (replicate user_id_field 0) id

-- `NOTIFY_ROOM_INFO_PACKET` and `NOTIFY_ROOM_LEAVE_PACKET`, zeroed before they are filled.
unfoldable pub name_packet : PacketId → List ℕ → List ℕ
name_packet id name = header_bytes 16 id 0 ++ name

-- `NOTIFY_ROOM_CHAT_PACKET`
unfoldable pub chat_packet : ℕ → List ℕ → List ℕ → List ℕ
chat_packet kind name msg = header_bytes 273 notify_room_chat kind ++ name ++ msg

abbrev pub room_number_bytes : List ℤ → List ℕ
room_number_bytes [] = []
room_number_bytes (n ∷ ns) = i32_bytes n ++ room_number_bytes ns

-- The buffer that `UserStateInLobby::ProcessLobbyInfo` sends: header, `RoomCount`, the numbers.
unfoldable pub lobby_info_packet : ℕ → List ℤ → List ℕ
lobby_info_packet kind room =
    header_bytes (packet_header_length + 4 + length room * 4) notify_lobby_info kind
    ++ i32_bytes (pos (length room))
    ++ room_number_bytes room

-- The names one after the other, each with its NUL.
abbrev pub name_bytes : List (List ℕ) → List ℕ
name_bytes [] = []
name_bytes (u ∷ us) = u ++ 0 ∷ name_bytes us

-- The loop that adds up `vectorLength`.
abbrev pub vector_length : List (List ℕ) → ℕ
vector_length [] = 0
vector_length (u ∷ us) = length u + 1 + vector_length us

-- The buffer that `UserStateInRoom::ProcessRoomInfo` sends: header, `Result`, `UserCount`, names.
unfoldable pub room_info_packet : ℕ → List (List ℕ) → List ℕ
room_info_packet kind users =
    header_bytes (packet_header_length + 2 + 4 + vector_length users) ack_room_info kind
    ++ u16_bytes (result_code enter_room_success)
    ++ i32_bytes (pos (length users))
    ++ name_bytes users
