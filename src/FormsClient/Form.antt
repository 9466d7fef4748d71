-- ===== src/FormsClient/Form.antt =====
-- LHJSampleClientCS/Form1.cs and ClientNetwork.cs: the window, its queues and its threads. The
-- socket is the flag `is_connected`; what its calls answer is an input.
use lhjsample.Common.{
  ℕ, zero, suc, ◌+◌, ◌-◌, ◌%◌, ◌^◌, ℤ, List, [], ◌∷◌, ◌++◌, Option, some, none, Bool, true, false,
  ◌==◌, ltb, if◌then◌else◌, length, get_elem?, read_at, read_u16, u16_bytes, codes, eq_bytes,
}
use lhjsample.Common.Fallible.{◌>>=◌}
use lhjsample.Packet.{
  PacketId, packet_id, result_code, login_success, enter_room_success, leave_room_success,
  req_lobby_info, req_room_info,
}
use lhjsample.FormsClient.{Encoding, ack_from_bytes, lobby_from_bytes, name_from_bytes}
use lhjsample.FormsClient.PacketBuffer.{PacketBufferManager, ArraySegment, write, read, init_buffer}

abbrev pub packet_header_size : ℕ
packet_header_size = 5

pub record PacketData : Type 0 where
  pub data_size : ℕ
  pub packet_id : ℕ
  pub kind : ℕ
  pub body_data : List ℕ

-- `Form1`. `sent` records the calls of `Network.Send`; `…_btn`, `room_exit` and `chat_send` tell
-- whether the button is enabled.
pub record Form : Type 0 where
  pub is_connected : Bool
  pub sent : List (List ℕ)
  pub packet_buffer : PacketBufferManager
  pub recv_packet_queue : List PacketData
  pub send_packet_queue : List (List ℕ)
  pub lobby_room_list : List ℤ
  pub user_list : List (List ℕ)
  pub list_box_room_chat_msg : List (List ℕ)
  pub connect_btn : Bool
  pub login_btn : Bool
  pub room_list_refresh_btn : Bool
  pub room_enter_btn : Bool
  pub room_exit : Bool
  pub chat_send : Bool

-- `Form1()` and `Form1_Load`.
unfoldable pub load : Form → Form
load form = record form {
  login_btn = false;
  room_list_refresh_btn = false;
  room_enter_btn = false;
  room_exit = false;
  chat_send = false;
  packet_buffer = (init_buffer 80960 packet_header_size 1024 form.packet_buffer).1;
}

-- The bytes that `PostSendPacket` queues; no body is an empty one.
unfoldable pub request_bytes : PacketId → List ℕ → List ℕ
request_bytes id body_data =
    u16_bytes ((length body_data + packet_header_size) % 2 ^ 16)
    ++ u16_bytes (packet_id id)
    ++ 0 ∷ body_data

unfoldable pub post_send_packet : PacketId → List ℕ → Form → Form
post_send_packet id body_data form =
    if form.is_connected
    then record form {
      send_packet_queue = form.send_packet_queue ++ request_bytes id body_data ∷ [];
    }
    else form

-- A round of `NetworkSendProcess`.
unfoldable pub network_send : Form → Form
network_send form =
    if form.is_connected
    then elim form.send_packet_queue [
      | [] ↦ form
      | packet ∷ rest ↦ record form { send_packet_queue = rest; sent = form.sent ++ packet ∷ [] }
    ]
    else form

-- The packet that `NetworkReadProcess` makes of a segment; an array of a negative length throws.
unfoldable pub packet_data_of : ArraySegment → PacketBufferManager → Option PacketData
packet_data_of segment b = do
  id ← read_u16 b.packet_data (segment.offset + 2)
  kind ← get_elem? b.packet_data (segment.offset + 4)
  if ltb segment.count packet_header_size then none else do
    body ←
        read_at b.packet_data (segment.offset + packet_header_size)
          (segment.count - packet_header_size)
    some (record {
      data_size = segment.count - packet_header_size;
      packet_id = id;
      kind = kind;
      body_data = body;
    })

-- The inner loop of `NetworkReadProcess`, on fuel.
unfoldable pub read_packets : ℕ → Form → Option Form
read_packets zero form = none
read_packets (suc n) form = do
  (segment, b) ← read form.packet_buffer
  elim (ltb segment.count 1) [
    | true ↦ some (record form { packet_buffer = b })
    | false ↦ do
      packet ← packet_data_of segment b
      read_packets n (record form {
        packet_buffer = b;
        recv_packet_queue = form.recv_packet_queue ++ packet ∷ [];
      })
  ]

-- A round of `NetworkReadProcess` with what `Network.Receive` answers: the number of bytes and the
-- array, or nothing. A packet has at least one byte, so that as many rounds of the inner loop as
-- there are bytes, and one, are enough. What `Write` answers is not looked at.
unfoldable pub network_read : Option (ℕ × List ℕ) → Form → Option Form
network_read recv_data form =
    if form.is_connected
    then elim recv_data [
      | none ↦ some (record form { is_connected = false })
      | some (n, bytes) ↦ do
        (written, b) ← write bytes 0 n form.packet_buffer
        read_packets (suc (b.write_pos - b.read_pos)) (record form { packet_buffer = b })
    ]
    else some form

-- `AddRoomChatMessageList`
unfoldable pub add_room_chat_message_list : List ℕ → List ℕ → Form → Form
add_room_chat_message_list user_id message form =
    let msg = user_id ++ (codes ":  " ++ message) in
    let kept =
      if ltb 512 (length form.list_box_room_chat_msg) then [] else form.list_box_room_chat_msg in
    record form { list_box_room_chat_msg = kept ++ msg ∷ [] }

-- The loop of `PacketProcess_NotifyRoomLeave`: the list without the first name that is equal, if
-- there is one.
unfoldable pub remove_at : List ℕ → List (List ℕ) → Option (List (List ℕ))
remove_at user_id [] = none
remove_at user_id (u ∷ us) =
    let rest = remove_at user_id us in
    elim (eq_bytes u user_id) [
      | true ↦ some us
      | false ↦ elim rest [ none ↦ none | some vs ↦ some (u ∷ vs) ]
    ]

-- What the chat list says when a user enters and leaves.
abbrev pub has_entered : List ℕ
has_entered = codes "님께서 채팅방에 입장하셨습니다"

abbrev pub has_left : List ℕ
has_left = codes "님께서 채팅방에서 퇴장하셨습니다"

module _ (utf8 : Encoding) where
  unfoldable pub process_ack_login : List ℕ → Form → Option Form
  process_ack_login body form = do
    result ← ack_from_bytes body
    some (
        if result == result_code login_success
        then post_send_packet req_lobby_info [] (record form { login_btn = false })
        else form)

  unfoldable pub process_notify_lobby_info : List ℕ → Form → Option Form
  process_notify_lobby_info body form = do
    room ← lobby_from_bytes body
    some (record form { lobby_room_list = room })

  unfoldable pub process_ack_lobby_info : List ℕ → Form → Option Form
  process_ack_lobby_info body form = do
    result ← ack_from_bytes body
    some (record form { room_list_refresh_btn = true; room_enter_btn = true })

  unfoldable pub process_ack_room_enter : List ℕ → Form → Option Form
  process_ack_room_enter body form = do
    result ← ack_from_bytes body
    some (
        if result == result_code enter_room_success
        then post_send_packet req_room_info []
            (record form { room_list_refresh_btn = false; room_enter_btn = false })
        else form)

  unfoldable pub process_ack_room_leave : List ℕ → Form → Option Form
  process_ack_room_leave body form = do
    result ← ack_from_bytes body
    some (
        if result == result_code leave_room_success
        then post_send_packet req_lobby_info [] (record form {
          list_box_room_chat_msg = [];
          user_list = [];
          room_exit = false;
          chat_send = false;
        })
        else form)

  unfoldable pub process_notify_room_leave : List ℕ → Form → Option Form
  process_notify_room_leave body form = do
    user_id ← name_from_bytes utf8 body
    some (elim (remove_at user_id form.user_list) [
      | none ↦ form
      | some rest ↦ record form {
        user_list = rest;
        list_box_room_chat_msg = form.list_box_room_chat_msg ++ (user_id ++ has_left) ∷ [];
      }
    ])
