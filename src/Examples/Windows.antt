-- ===== src/Examples/Windows.antt =====
-- Concrete inputs for the theorems about the windows client.
use lhjsample.Common.{
  ℕ, ◌≡◌, refl, ap, List, [], ◌∷◌, ◌++◌, true, false, some, arith, length, pos, negsuc, replicate,
  ◌+ℤ◌, ◌-ℤ◌, i32_bytes,
}
use lhjsample.Common.Effect.{◌>>=◌}
use lhjsample.Packet.{
  packet_id, req_login, req_room_enter, req_room_chat, ack_room_enter, ack_room_chat,
  chat_room_success, ack_packet, lobby_info_packet, room_info_packet,
}
use lhjsample.User.{User, process_login, process_enter_room}
use lhjsample.User.Buffer.Packets.{take_frame}
use lhjsample.World.{World, get_room}
use lhjsample.World.Inversion.{message}
use lhjsample.Rooms.{get_room_by_number, init_room_manager}
use lhjsample.Rooms.Broadcast.{broadcast, with_messages, MembersOf}
use lhjsample.Session.{call_handler, chat_request, user_enter_room, ack}
use lhjsample.Server.Delivery.{sent_to}
use lhjsample.FormsClient.{Encoding}
use lhjsample.FormsClient.Fields.{IsUtf8, IsText, padded}
use lhjsample.FormsClient.PacketBuffer.{PacketBufferManager, IsValid}
use lhjsample.FormsClient.Form.{Form, request_bytes, add_room_chat_message_list}
use lhjsample.FormsClient.Dispatch.{login_click, room_enter_click, chat_send_click, packet_process}
use lhjsample.FormsClient.Requests.{
  login_packet, logs_in, take_frame-request_bytes, login_click_lem, login_click-eleven,
}
use lhjsample.FormsClient.Entering.{room_enter_click_lem}
use lhjsample.FormsClient.Receiving.{decoded, with_packets}
use lhjsample.FormsClient.Receiving.Streams.{receive_all}
use lhjsample.FormsClient.Delivery.{run-received}
use lhjsample.FormsClient.Notices.{packet_process-lobby_info}
use lhjsample.FormsClient.Notices.Members.{packet_process-members}
use lhjsample.FormsClient.Notices.Chat.{sender_name, chat_bytes, chat_send_click_lem}
use lhjsample.Examples.{
  platform, two_clients, fresh_user, two_clients-UsersValid, two_clients-IsStarted, history,
  logged_in, ends,
}
use lhjsample.Examples.Histories.{login_reply, logged_in-sent}
use lhjsample.Examples.Members.{room, member, world, memory}

-- The texts of these examples are their own bytes.
abbrev utf8 : Encoding
utf8 = record { get_bytes = λ s. s; get_string = λ s. s }

utf8-IsUtf8 : IsUtf8 utf8
utf8-IsUtf8 = record { empty = refl; nul = λ xs ys. refl }

abbrev ab : List ℕ
ab = 97 ∷ 98 ∷ []

abbrev pw : List ℕ
pw = 112 ∷ 119 ∷ []

abbrev long_id : List ℕ
long_id = replicate 11 97

ab-IsText : IsText utf8 ab
ab-IsText = record { decodes = refl; no_nul = omega arith; no_nul_byte = omega arith }

pw-IsText : IsText utf8 pw
pw-IsText = record { decodes = refl; no_nul = omega arith; no_nul_byte = omega arith }

abbrev buffer : PacketBufferManager
buffer = record {
  buffer_size = 64;
  read_pos = 0;
  write_pos = 0;
  header_size = 5;
  max_packet_size = 16;
  packet_data = replicate 64 0;
  packet_data_temp = replicate 64 0;
}

buffer-IsValid : IsValid buffer
buffer-IsValid = record {
  storage = refl;
  scratch = refl;
  ordered = omega arith;
  within = omega arith;
  header = refl;
}

abbrev form : Form
form = record {
  is_connected = true;
  sent = [];
  packet_buffer = buffer;
  recv_packet_queue = [];
  send_packet_queue = [];
  lobby_room_list = [];
  user_list = [];
  list_box_room_chat_msg = [];
  connect_btn = false;
  login_btn = true;
  room_list_refresh_btn = false;
  room_enter_btn = false;
  room_exit = false;
  chat_send = false;
}

-- A user in whose buffer a request stands, and the world with it.
abbrev holding : List ℕ → User
holding request = record member { buffer = record member.buffer { bytes = request } }

abbrev with_request : List ℕ → World (Unit {0})
with_request request = record world {
  user_manager = record world.user_manager { user_obj_pool = holding request ∷ [] };
}

login_click_lem_example :
    (login_click utf8 ab pw form
      ≡ some (record form { send_packet_queue = [] ++ login_packet utf8 ab pw ∷ [] }))
    × (call_handler platform 0 0 process_login
          (length (login_packet utf8 ab pw))
          (some 0)
          (with_request (login_packet utf8 ab pw ++ []))
        ≡ logs_in platform 0 0 ab pw (with_request (login_packet utf8 ab pw ++ [])))
login_click_lem_example =
    login_click_lem platform 0 0 0 (holding (login_packet utf8 ab pw ++ []))
      (with_request (login_packet utf8 ab pw ++ [])) utf8 ab pw [] form refl refl (omega arith)
      (omega arith) (omega arith) (omega arith) refl

login_click-eleven_example :
    (login_click utf8 long_id pw form
      ≡ some (record form { send_packet_queue = [] ++ login_packet utf8 long_id pw ∷ [] }))
    × (call_handler platform 0 0 process_login
          (length (login_packet utf8 long_id pw))
          (some 0)
          (with_request (login_packet utf8 long_id pw ++ []))
        ≡ logs_in platform 0 0
            (long_id ++ pw)
            pw
            (with_request (login_packet utf8 long_id pw ++ [])))
login_click-eleven_example =
    login_click-eleven platform 0 0 0 (holding (login_packet utf8 long_id pw ++ []))
      (with_request (login_packet utf8 long_id pw ++ [])) utf8 long_id pw [] form refl refl
      (omega arith) (omega arith) refl (omega arith) refl

abbrev enter_second : List ℕ
enter_second = request_bytes req_room_enter (i32_bytes (pos 1))

room_enter_click_lem_example :
    (room_enter_click (pos 1) form ≡ record form { send_packet_queue = [] ++ enter_second ∷ [] })
    × (call_handler platform 0 0 process_enter_room 9 (some 0) (with_request (enter_second ++ []))
        ≡ (do result ← user_enter_room 0 (pos 1); ack platform 0 0 ack_room_enter result)
            (with_request (enter_second ++ [])))
room_enter_click_lem_example =
    room_enter_click_lem platform 0 0 0 (holding (enter_second ++ []))
      (with_request (enter_second ++ [])) (pos 1) [] form refl refl (omega arith) (omega arith) refl

take_frame-request_bytes_example :
    take_frame (request_bytes req_login (padded 22 ab) ++ 9 ∷ [])
    ≡ (packet_id req_login, request_bytes req_login (padded 22 ab), 9 ∷ [])
take_frame-request_bytes_example =
    take_frame-request_bytes req_login (padded 22 ab) (9 ∷ []) (omega arith)

packet_process-lobby_info_example :
    packet_process utf8 (decoded (lobby_info_packet 0 (pos 3 ∷ negsuc 0 ∷ []))) form
    ≡ some (record form { lobby_room_list = pos 3 ∷ negsuc 0 ∷ [] })
packet_process-lobby_info_example =
    packet_process-lobby_info utf8 0 (pos 3 ∷ negsuc 0 ∷ []) form (omega arith)

packet_process-members_example :
    packet_process utf8 (decoded (room_info_packet 0 (ab ∷ pw ∷ []))) form
    ≡ some (record form { room_exit = true; chat_send = true; user_list = ab ∷ pw ∷ [] })
packet_process-members_example =
    packet_process-members utf8 0 (ab ∷ pw ∷ []) form utf8-IsUtf8 (ab-IsText, (pw-IsText, tt))
      (omega arith)

-- The reply to a login, in two pieces.
in_pieces : List (ℕ × List ℕ)
in_pieces = (3, 7 ∷ 0 ∷ 211 ∷ 9 ∷ []) ∷ (4, 0 ∷ 0 ∷ 30 ∷ 0 ∷ []) ∷ []

login_replies : sent_to 0 logged_in.sent ≡ login_reply.content ∷ []
login_replies = ap (sent_to 0) logged_in-sent

run-received_example :
    (c : PacketBufferManager) × (receive_all in_pieces form
      ≡ some (with_packets form c (sent_to 0 logged_in.sent)))
unfolding in_pieces
run-received_example =
    run-received platform history two_clients (tt, logged_in) 0 in_pieces form two_clients-IsStarted
      ends (rw login_replies (omega arith)) (omega arith) refl buffer-IsValid (omega arith)
      (omega arith) (omega arith) (omega arith) (rw login_replies refl)

abbrev says_pw : List ℕ
says_pw = request_bytes req_room_chat (padded 257 pw)

abbrev talking : World (Unit {0})
talking = record world {
  user_manager = record world.user_manager { user_obj_pool = holding (says_pw ++ []) ∷ [] };
  room_manager = record world.room_manager { room_list = record room { user_list = 0 ∷ [] } ∷ [] };
}

talker_first : get_room_by_number (pos 0) talking ≡ some (some 0, talking)
unfolding get_room_by_number ◌>>=◌ init_room_manager ◌+ℤ◌ get_room ◌-ℤ◌
talker_first = refl

talker : MembersOf talking (0 ∷ [])
talker =
    ((holding (says_pw ++ []), refl, (two_clients-UsersValid 0 (fresh_user 0) refl).position), tt)

chat_send_click_lem_example :
    (chat_send_click utf8 pw form ≡ some (record form { send_packet_queue = [] ++ says_pw ∷ [] }))
    × (chat_request memory 0 0 (some 0) talking
        ≡ some (
          tt,
          with_messages talking (
              message 0 7 (ack_packet ack_room_chat 0 chat_room_success)
              ∷ broadcast 273
                  (chat_bytes utf8 memory 0 0 0 (holding (says_pw ++ [])) talking ab pw)
                  0
                  false
                  (0 ∷ [])),
        ))
    × (packet_process utf8
          (decoded (chat_bytes utf8 memory 0 0 0 (holding (says_pw ++ [])) talking ab pw))
          form
        ≡ some (add_room_chat_message_list (sender_name utf8 ab (replicate 9 0)) pw form))
chat_send_click_lem_example =
    chat_send_click_lem utf8 memory 0 0 0 (holding (says_pw ++ [])) talking ab pw [] form form 0
      (record room { user_list = 0 ∷ [] }) utf8-IsUtf8 ab-IsText pw-IsText (omega arith)
      (omega arith) refl refl refl (omega arith) talker_first refl talker refl
