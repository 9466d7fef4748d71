-- ===== src/Session.antt =====
-- The methods of `User` that reach other objects, and the handlers of its state objects:
-- LHJSample/User/User.cpp and the files of LHJSample/User/State. A user is given by its position in
-- the pool, which is `mIndex`; `pPacket_` is an offset in that user's packet buffer.
pub mod Guards
pub mod Chat
pub mod Safety
use lhjsample.Common.{
  ℕ, ◌+◌, ◌*◌, ℤ, Bool, List, [], ◌∷◌, ◌++◌, Option, none, some, ◌==◌, if◌then◌else◌, drop, length,
  c_string, read_i32,
}
use lhjsample.Common.Effect.{Effect, pure, lift, gets, update, ◌>>=◌, ◌>>◌}
use lhjsample.Packet.{
  PacketId, ResultCode, result_none, result_code, create_account_fail, login_success,
  lobby_info_success, chat_room_success, chat_room_invalid_room_number, ack_create_account,
  ack_login, ack_lobby_info, notify_lobby_info, ack_room_enter, ack_room_info, ack_room_leave,
  ack_room_chat, ack_packet, lobby_info_packet, room_info_packet, vector_length,
  account_packet_size, user_id_offset, user_pw_offset, room_number_offset, message_offset,
  packet_header_length,
}
use lhjsample.User.{
  User, Handler, ignore, in_lobby, in_room, process_create_account, process_login,
  process_lobby_info, process_enter_room, process_room_info, process_leave_room,
  process_room_chat_message, change_state, set_login,
}
use lhjsample.World.{World, Platform, get_user, modify_user, send_packet}
use lhjsample.Rooms.{
  enter_user, leave_user, get_room_by_number, get_room_list, get_room_member_list, notify_chat,
}
use lhjsample.Accounts.{check_loginable, create_user_account}

module _ {Db : Type 0} where
  -- `User::EnterRoom`: the room index and the state change whatever the result is.
  unfoldable pub user_enter_room : ℕ → ℤ → Effect (World Db) ResultCode
  user_enter_room user_ptr room_index = do
    result ← enter_user room_index user_ptr
    modify_user user_ptr (λ u. some (record u { room_index = room_index }))
    modify_user user_ptr (change_state in_room)
    pure result

  -- `User::LeaveRoom`
  unfoldable pub user_leave_room : ℕ → Effect (World Db) ResultCode
  user_leave_room user_ptr = do
    user ← get_user user_ptr
    result ← leave_user user.room_index user_ptr
    modify_user user_ptr (change_state in_lobby)
    pure result

  -- `User::GetRoom`
  unfoldable pub user_get_room : ℕ → Effect (World Db) (Option ℕ)
  user_get_room user_ptr = do user ← get_user user_ptr; get_room_by_number user.room_index

  -- `User::GetRoomList`, `User::CreateAccount` and `User::CheckLoginable`
  abbrev pub user_get_room_list : Effect (World Db) (List ℤ)
  user_get_room_list = get_room_list

  abbrev pub user_create_account : Platform Db → List ℕ → List ℕ → Effect (World Db) Bool
  user_create_account p user_id password = create_user_account p user_id password

  abbrev pub user_check_loginable : Platform Db → ℕ → List ℕ → List ℕ → Effect (World Db) ResultCode
  user_check_loginable p client_index user_id password =
      check_loginable p client_index user_id password

  -- The memory from `pPacket_` on; the null pointer of a system packet cannot be read.
  unfoldable pub packet_memory : ℕ → Option ℕ → Effect (World Db) (List ℕ)
  packet_memory user_ptr p_packet = do
    user ← get_user user_ptr
    offset ← lift p_packet
    pure (drop offset user.buffer.bytes)

  module _ (p : Platform Db) (user_ptr : ℕ) (client_index : ℕ) where
    unfoldable pub ack : PacketId → ResultCode → Effect (World Db) (Unit {0})
    ack id result = send_packet client_index 7 (ack_packet id (p.stack_byte id) result)

    -- `UserStateConnected::ProcessCreateAccount` behind its test of the size.
    unfoldable pub create_account_request : Option ℕ → Effect (World Db) (Unit {0})
    unfolding ack
    create_account_request p_packet = do
      packet ← packet_memory user_ptr p_packet
      user_id ← lift (c_string (drop user_id_offset packet))
      password ← lift (c_string (drop user_pw_offset packet))
      created ← user_create_account p user_id password
      ack ack_create_account (if created then result_none else create_account_fail)

    -- `UserStateConnected::ProcessLogin` behind its test of the size.
    unfoldable pub login_request : Option ℕ → Effect (World Db) (Unit {0})
    unfolding ack
    login_request p_packet = do
      packet ← packet_memory user_ptr p_packet
      user_id ← lift (c_string (drop user_id_offset packet))
      password ← lift (c_string (drop user_pw_offset packet))
      result ← user_check_loginable p client_index user_id password
      if result_code result == result_code login_success
          then modify_user user_ptr (set_login user_id)
          else pure tt
      ack ack_login result

    -- `UserStateInLobby::ProcessLobbyInfo`
    unfoldable pub lobby_info_request : Effect (World Db) (Unit {0})
    unfolding ack
    lobby_info_request = do
      ack ack_lobby_info lobby_info_success
      room ← user_get_room_list
      send_packet client_index (packet_header_length + 4 + length room * 4)
          (lobby_info_packet (p.stack_byte notify_lobby_info) room)

    -- `UserStateInLobby::ProcessEnterRoom`; the size of the packet is not tested.
    unfoldable pub enter_room_request : Option ℕ → Effect (World Db) (Unit {0})
    unfolding ack
    enter_room_request p_packet = do
      packet ← packet_memory user_ptr p_packet
      room_number ← lift (read_i32 packet room_number_offset)
      result ← user_enter_room user_ptr room_number
      ack ack_room_enter result

    -- `UserStateInRoom::ProcessRoomInfo`; the room is used without a test for the null pointer.
    unfoldable pub room_info_request : Effect (World Db) (Unit {0})
    room_info_request = do
      found ← user_get_room user_ptr
      room ← lift found
      members ← get_room_member_list room
      send_packet client_index (packet_header_length + 2 + 4 + vector_length members)
          (room_info_packet (p.stack_byte ack_room_info) members)

    -- `UserStateInRoom::ProcessLeaveRoom`
    unfoldable pub leave_room_request : Effect (World Db) (Unit {0})
    unfolding ack
    leave_room_request = do result ← user_leave_room user_ptr; ack ack_room_leave result

    -- `UserStateInRoom::ProcessRoomChatMessage` once the room is known.
    unfoldable pub chat_in : Option ℕ → Option ℕ → Effect (World Db) (Unit {0})
    unfolding ack
    chat_in p_packet none = ack ack_room_chat chat_room_invalid_room_number
    chat_in p_packet (some room) = do
      ack ack_room_chat chat_room_success
      user ← get_user user_ptr
      packet ← packet_memory user_ptr p_packet
      notify_chat p room client_index (user.user_id ++ 0 ∷ p.past_end user.user_id)
          (drop message_offset packet)

    -- `UserStateInRoom::ProcessRoomChatMessage`; the size of the packet is not tested.
    unfoldable pub chat_request : Option ℕ → Effect (World Db) (Unit {0})
    unfolding chat_in
    chat_request p_packet = do room ← user_get_room user_ptr; chat_in p_packet room

    -- A function of `recvFuntionDictionary`, called with the size and the address of a packet.
    unfoldable pub call_handler : Handler → ℕ → Option ℕ → Effect (World Db) (Unit {0})
    unfolding create_account_request login_request lobby_info_request enter_room_request
        room_info_request leave_room_request chat_request
    call_handler ignore packet_size p_packet = pure tt
    call_handler process_create_account packet_size p_packet =
        if packet_size == account_packet_size then create_account_request p_packet else pure tt
    call_handler process_login packet_size p_packet =
        if packet_size == account_packet_size then login_request p_packet else pure tt
    call_handler process_lobby_info packet_size p_packet = lobby_info_request
    call_handler process_enter_room packet_size p_packet = enter_room_request p_packet
    call_handler process_room_info packet_size p_packet = room_info_request
    call_handler process_leave_room packet_size p_packet = leave_room_request
    call_handler process_room_chat_message packet_size p_packet = chat_request p_packet
