-- ===== src/Rooms.antt =====
-- LHJSample/Room/Room.cpp and RoomManager.cpp. A room is given by its position in `mRoomList`.
pub mod Numbers
pub mod Broadcast
pub mod Leaving
pub mod Safety
use lhjsample.Common.{
  ℕ, ◌+◌, ◌%◌, ◌^◌, ℤ, pos_part, ◌-ℤ◌, ltb_ℤ, Bool, true, false, not, ◌&&◌, ◌||◌, List, [], ◌∷◌,
  ◌++◌, map, Option, none, some, leb, ◌==◌, if◌then◌else◌, get_elem?, read_at, eq_bytes, pos, zero,
  suc, ◌+ℤ◌,
}
use lhjsample.Common.Fallible.{◌>>=◌ as bind}
use lhjsample.Common.Effect.{Effect, pure, lift, gets, update, ◌>>=◌, ◌>>◌}
use lhjsample.Packet.{
  PacketId, ResultCode, notify_room_info, notify_room_leave, notify_room_chat, enter_room_full_user,
  enter_room_success, leave_room_success, room_invalid_index, room_full, zeroed_name, name_packet,
  chat_packet, user_id_field, message_field,
}
use lhjsample.User.{User}
use lhjsample.World.{
  World, Room, RoomManager, Platform, users, rooms, get_user, get_room, modify_room, send_packet,
}

-- `Room::Init` on a new room.
unfoldable pub init_room : ℤ → ℕ → Room
init_room room_num max_user_count = record {
  room_num = room_num;
  user_list = [];
  max_user_count = max_user_count;
  current_user_count = 0;
}

-- The loop of `RoomManager::Init` from room `i` on, with `n` rooms left to make.
unfoldable pub init_rooms : ℤ → ℕ → ℕ → ℕ → List Room
init_rooms begin_room_number max_room_user_count i zero = []
init_rooms begin_room_number max_room_user_count i (suc n) =
    init_room (pos i +ℤ begin_room_number) max_room_user_count
    ∷ init_rooms begin_room_number max_room_user_count (i + 1) n

-- `RoomManager::Init`. `mEndRoomNumber` is an `INT32`, whose overflow is undefined; the numbers that
-- `ChatServer::Init` gives are 0 and 10.
unfoldable pub init_room_manager : ℤ → ℕ → ℕ → RoomManager
unfolding init_rooms init_room
init_room_manager begin_room_number max_room_count max_room_user_count = record {
  room_list = init_rooms begin_room_number max_room_user_count 0 max_room_count;
  begin_room_number = begin_room_number;
  end_room_number = begin_room_number +ℤ pos max_room_count;
  max_room_count = max_room_count;
}

-- The members left by `remove_if`: those whose id, looked up in the pool, is not the leaver's.
unfoldable pub remove_id : List User → List ℕ → List ℕ → Option (List ℕ)
remove_id pool leave_user_id [] = some []
remove_id pool leave_user_id (m ∷ members) = bind (get_elem? pool m) λ user.
    bind (remove_id pool leave_user_id members)
      λ rest. some (if eq_bytes leave_user_id user.user_id then rest else m ∷ rest)

-- The loop of `GetRoomMemberList`.
unfoldable pub member_ids : List User → List ℕ → Option (List (List ℕ))
member_ids pool [] = some []
member_ids pool (m ∷ members) =
    bind (get_elem? pool m)
      λ user. bind (member_ids pool members) λ rest. some (user.user_id ∷ rest)

-- `mUserList.push_back(user_); ++mCurrentUserCount;`
unfoldable pub push_user : ℕ → Room → Option Room
push_user user_ptr room = some (record room {
  user_list = room.user_list ++ user_ptr ∷ [];
  current_user_count = (room.current_user_count + 1) % 2 ^ 16;
})

-- `mUserList.remove_if(…)`; `mCurrentUserCount` stays.
unfoldable pub remove_user : List User → List ℕ → Room → Option Room
unfolding remove_id
remove_user pool leave_user_id room =
    bind (remove_id pool leave_user_id room.user_list)
      λ members. some (record room { user_list = members })

module _ {Db : Type 0} where
  -- The loop of `Room::SendToAllUser` over `mUserList`, which never holds a null pointer.
  unfoldable pub send_to_all_user : ℕ → List ℕ → ℕ → Bool → List ℕ → Effect (World Db) (Unit {0})
  send_to_all_user data_size bytes pass_user_index except_me [] = pure tt
  send_to_all_user data_size bytes pass_user_index except_me (m ∷ members) = do
    user ← get_user m
    if except_me && (user.index == pass_user_index)
        then pure tt
        else send_packet user.index data_size bytes
    send_to_all_user data_size bytes pass_user_index except_me members

  -- `Room::EnterUser` behind the test of its capacity.
  unfoldable pub admit_user : ℕ → Room → ℕ → Effect (World Db) ResultCode
  admit_user r room user_ptr = do
    user ← get_user user_ptr
    enter_user ← lift (zeroed_name user.user_id)
    send_to_all_user 16 (name_packet notify_room_info enter_user) user.index false room.user_list
    modify_room r (push_user user_ptr)
    pure enter_room_success

  -- `Room::EnterUser`
  unfoldable pub enter_room_user : ℕ → ℕ → Effect (World Db) ResultCode
  unfolding admit_user
  enter_room_user r user_ptr = do
    room ← get_room r
    if leb room.max_user_count room.current_user_count
        then pure enter_room_full_user
        else admit_user r room user_ptr

  -- `Room::LeaveUser`
  unfoldable pub leave_room_user : ℕ → ℕ → Effect (World Db) ResultCode
  leave_room_user r user_ptr = do
    room ← get_room r
    user ← get_user user_ptr
    leave_user ← lift (zeroed_name user.user_id)
    send_to_all_user 16 (name_packet notify_room_leave leave_user) user.index false room.user_list
    pool ← gets users
    modify_room r (remove_user pool user.user_id)
    pure leave_room_success

  -- `Room::NotifyChat`; the two texts are the memory from `userID_` and from `msg_` on.
  unfoldable pub notify_chat : Platform Db → ℕ → ℕ → List ℕ → List ℕ → Effect (World Db) (Unit {0})
  notify_chat p r client_index user_id msg = do
    message ← lift (read_at msg 0 message_field)
    name ← lift (read_at user_id 0 user_id_field)
    room ← get_room r
    send_to_all_user 273 (chat_packet (p.stack_byte notify_room_chat) name message) client_index
        false room.user_list

  -- `Room::GetRoomMemberList`
  unfoldable pub get_room_member_list : ℕ → Effect (World Db) (List (List ℕ))
  unfolding member_ids
  get_room_member_list r = do
    room ← get_room r
    pool ← gets users
    lift (member_ids pool room.user_list)

  -- `RoomManager::GetRoomByNumber`; `none` is the null pointer.
  unfoldable pub get_room_by_number : ℤ → Effect (World Db) (Option ℕ)
  get_room_by_number number = do
    m ← gets (λ w. w.room_manager)
    let index = pos_part (number -ℤ m.begin_room_number)
    if ltb_ℤ number m.begin_room_number || not (ltb_ℤ number m.end_room_number)
        then pure none
        else do get_room index; pure (some index)

  -- `RoomManager::EnterUser` behind the test for the null pointer.
  unfoldable pub enter_found : ℕ → Option ℕ → Effect (World Db) ResultCode
  enter_found user_ptr none = pure room_invalid_index
  enter_found user_ptr (some r) = do
    room ← get_room r
    if leb room.max_user_count room.current_user_count
        then pure room_full
        else enter_room_user r user_ptr

  -- `RoomManager::EnterUser`
  unfoldable pub enter_user : ℤ → ℕ → Effect (World Db) ResultCode
  unfolding enter_found
  enter_user room_number user_ptr = do
    room ← get_room_by_number room_number
    enter_found user_ptr room

  unfoldable pub leave_found : ℕ → Option ℕ → Effect (World Db) ResultCode
  leave_found user_ptr none = pure room_invalid_index
  leave_found user_ptr (some r) = leave_room_user r user_ptr

  -- `RoomManager::LeaveUser`
  unfoldable pub leave_user : ℤ → ℕ → Effect (World Db) ResultCode
  unfolding leave_found
  leave_user room_number user_ptr = do
    room ← get_room_by_number room_number
    leave_found user_ptr room

  -- `RoomManager::GetRoomList`
  unfoldable pub get_room_list : Effect (World Db) (List ℤ)
  get_room_list = gets (λ w. map (λ (room : Room). room.room_num) (rooms w))
