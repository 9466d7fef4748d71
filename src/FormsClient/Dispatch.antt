-- ===== src/FormsClient/Dispatch.antt =====
-- LHJSampleClientCS/Form1.cs: the table of packets, the rest of its methods, and the buttons.
use lhjsample.Common.{
  ℕ, ℤ, List, [], ◌∷◌, ◌++◌, Option, some, none, Bool, true, false, ◌==◌, if◌then◌else◌,
}
use lhjsample.Common.Fallible.{◌>>=◌}
use lhjsample.Packet.{
  packet_id, req_login, ack_login, req_lobby_info, ack_lobby_info, notify_lobby_info,
  req_room_enter, ack_room_enter, req_room_leave, ack_room_leave, notify_room_leave, req_room_chat,
  ack_room_chat, notify_room_chat, ack_room_info, notify_room_info,
}
use lhjsample.FormsClient.{
  Encoding, login_body, chat_body, room_enter_body, ack_from_bytes, name_from_bytes,
  chat_from_bytes, room_info_from_bytes,
}
use lhjsample.FormsClient.Form.{
  PacketData, Form, post_send_packet, add_room_chat_message_list, has_entered, process_ack_login,
  process_notify_lobby_info, process_ack_lobby_info, process_ack_room_enter, process_ack_room_leave,
  process_notify_room_leave,
}

-- `button1_Click` with what `Network.Connect` answers.
unfoldable pub connect_click : Bool → Form → Form
connect_click connected form =
    if connected
    then record form { is_connected = true; connect_btn = false; login_btn = true }
    else form

unfoldable pub room_enter_click : ℤ → Form → Form
room_enter_click selected_index form =
    post_send_packet req_room_enter (room_enter_body selected_index) form

unfoldable pub room_list_refresh_click : Form → Form
room_list_refresh_click form =
    post_send_packet req_lobby_info []
      (record form { room_list_refresh_btn = false; room_enter_btn = false })

unfoldable pub room_exit_click : Form → Form
room_exit_click form = post_send_packet req_room_leave [] form

-- The result of a chat request is read and not used.
unfoldable pub process_ack_room_chat : List ℕ → Form → Option Form
process_ack_room_chat body form = do result ← ack_from_bytes body; some form

module _ (utf8 : Encoding) where
  unfoldable pub process_notify_room_chat : List ℕ → Form → Option Form
  process_notify_room_chat body form = do
    (user_id, message) ← chat_from_bytes utf8 body
    some (add_room_chat_message_list user_id message form)

  unfoldable pub process_ack_room_info : List ℕ → Form → Option Form
  process_ack_room_info body form = do
    (result, users) ← room_info_from_bytes utf8 body
    some (record form { room_exit = true; chat_send = true; user_list = form.user_list ++ users })

  unfoldable pub process_notify_room_info : List ℕ → Form → Option Form
  process_notify_room_info body form = do
    user_id ← name_from_bytes utf8 body
    some (record form {
      user_list = form.user_list ++ user_id ∷ [];
      list_box_room_chat_msg = form.list_box_room_chat_msg ++ (user_id ++ has_entered) ∷ [];
    })

  -- `PacketFuncDic`, as `SetPacketHandler` fills it.
  unfoldable pub packet_func_dic : ℕ → Option (List ℕ → Form → Option Form)
  packet_func_dic id =
      if id == packet_id ack_login
      then some (process_ack_login utf8)
      else if id == packet_id ack_room_enter
      then some (process_ack_room_enter utf8)
      else if id == packet_id ack_lobby_info
      then some (process_ack_lobby_info utf8)
      else if id == packet_id notify_lobby_info
      then some (process_notify_lobby_info utf8)
      else if id == packet_id ack_room_chat
      then some process_ack_room_chat
      else if id == packet_id notify_room_chat
      then some process_notify_room_chat
      else if id == packet_id ack_room_info
      then some process_ack_room_info
      else if id == packet_id notify_room_info
      then some process_notify_room_info
      else if id == packet_id ack_room_leave
      then some (process_ack_room_leave utf8)
      else if id == packet_id notify_room_leave
      then some (process_notify_room_leave utf8)
      else none

  unfoldable pub packet_process : PacketData → Form → Option Form
  packet_process packet form = elim (packet_func_dic packet.packet_id) [
    | none ↦ some form
    | some process ↦ process packet.body_data form
  ]

  -- `BackGroundProcess`: a packet with the id 0 is not looked at.
  unfoldable pub back_ground_process : Form → Option Form
  back_ground_process form = elim form.recv_packet_queue [
    | [] ↦ some form
    | packet ∷ rest ↦
        let taken = record form { recv_packet_queue = rest } in
        if packet.packet_id == 0 then some taken else packet_process packet taken
  ]

  unfoldable pub login_click : List ℕ → List ℕ → Form → Option Form
  login_click id_text pw_text form = do
    body ← login_body utf8 id_text pw_text
    some (post_send_packet req_login body form)

  unfoldable pub chat_send_click : List ℕ → Form → Option Form
  chat_send_click chat_box form = do
    body ← chat_body utf8 chat_box
    some (post_send_packet req_room_chat body form)
