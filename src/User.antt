-- ===== src/User.antt =====
-- LHJSample/User/User.h, User.cpp and the `Enter` and `Exit` of the classes in LHJSample/User/State:
-- the methods of a user that touch no other object. Those that do are in Session.
pub mod Buffer
pub mod Bindings
use lhjsample.Common.{
  ℕ, Bool, true, false, ℤ, negsuc, List, [], Option, none, some, ◌==◌, if◌then◌else◌,
}
use lhjsample.Common.Fallible.{◌>>=◌}
use lhjsample.User.Buffer.{PacketBuffer}
use lhjsample.Packet.{
  PacketId, packet_id, req_create_account, req_login, req_lobby_info, req_room_enter, req_room_info,
  req_room_leave, req_room_chat,
}

-- `enum class UserState`; its `None` is `initial`.
pub data UserState : Type 0 where
  initial connected disconnect in_lobby room_enter in_room room_exit : UserState

-- What stands in `recvFuntionDictionary`: the empty lambda, or one that calls a method of the
-- user's state object.
pub data Handler : Type 0 where
  ignore : Handler
  process_create_account process_login : Handler
  process_lobby_info process_enter_room : Handler
  process_room_info process_leave_room process_room_chat_message : Handler

-- `std::unordered_map<int, std::function<…>>`
abbrev pub Dictionary : Type 0
Dictionary = ℕ → Option Handler

abbrev pub bind_recv : PacketId → Handler → Dictionary → Dictionary
bind_recv id h d k = if k == packet_id id then some h else d k

-- `mAuthToken` is never used. `sendPacketFunc` is the same for all users, and is `send_packet` of
-- World.
pub record User : Type 0 where
  pub index : ℕ
  pub room_index : ℤ
  pub user_id : List ℕ
  pub is_confirm : Bool
  pub state : UserState
  pub recv_funtion_dictionary : Dictionary
  pub buffer : PacketBuffer

-- `ResetRecvFunction`
unfoldable pub reset_recv_function : User → User
reset_recv_function u = record u {
  recv_funtion_dictionary = bind_recv req_room_chat ignore (
      bind_recv req_room_leave ignore (
        bind_recv req_room_info ignore (
          bind_recv req_room_enter ignore (
            bind_recv req_lobby_info ignore (
              bind_recv req_login ignore
                (bind_recv req_create_account ignore u.recv_funtion_dictionary))))));
}

-- `mStates[mState]`: `Init` makes an object for five of the states; for the others the map gives a
-- null pointer, whose methods cannot be called.
unfoldable pub has_object : UserState → Bool
has_object room_enter = false
has_object room_exit = false
has_object _ = true

-- `Exit()` of each state object does nothing.
unfoldable pub exit_state : User → Option User
unfolding has_object
exit_state u = if has_object u.state then some u else none

-- `Enter()` of `UserStateNone` and of `UserStateDisConnect` does nothing.
abbrev pub enter_none : User → User
enter_none u = u

abbrev pub enter_disconnect : User → User
enter_disconnect u = u

-- `Enter()` of the state object.
unfoldable pub enter_state : UserState → User → Option User
unfolding reset_recv_function
enter_state connected u =
    let r = reset_recv_function u in
    some (record r {
      recv_funtion_dictionary =
          bind_recv req_login process_login
            (bind_recv req_create_account process_create_account r.recv_funtion_dictionary);
    })
enter_state in_lobby u =
    let r = reset_recv_function u in
    some (record r {
      recv_funtion_dictionary =
          bind_recv req_room_enter process_enter_room
            (bind_recv req_lobby_info process_lobby_info r.recv_funtion_dictionary);
    })
enter_state in_room u =
    let r = reset_recv_function u in
    some (record r {
      recv_funtion_dictionary = bind_recv req_room_chat process_room_chat_message (
          bind_recv req_room_leave process_leave_room
            (bind_recv req_room_info process_room_info r.recv_funtion_dictionary));
    })
enter_state initial u = some (enter_none u)
enter_state disconnect u = some (enter_disconnect u)
enter_state room_enter u = none
enter_state room_exit u = none

unfoldable pub switch_state : UserState → User → Option User
unfolding exit_state enter_state
switch_state new_state u = do
  exited ← exit_state u
  enter_state new_state (record exited { state = new_state })

-- `ChangeState`: a change to `None` returns at once.
unfoldable pub change_state : UserState → User → Option User
unfolding switch_state
change_state initial u = some u
change_state new_state u = switch_state new_state u

-- `Init`, on a user that `new User()` has zeroed and given its default members. `storage` is the
-- memory that `new char[PACKET_DATA_BUFFER_SIZE]` returns.
unfoldable pub init_user : ℕ → List ℕ → Option User
unfolding change_state reset_recv_function
init_user index storage = do
  u ← change_state initial (record {
    index = index;
    room_index = negsuc 0;
    user_id = [];
    is_confirm = false;
    state = initial;
    recv_funtion_dictionary = λ _. none;
    buffer = record { bytes = storage; wpos = 0; rpos = 0 };
  })
  some (reset_recv_function u)

-- `Clear`
unfoldable pub clear : User → Option User
unfolding change_state reset_recv_function
clear u = do
  changed ←
      change_state initial (record u { room_index = negsuc 0; user_id = []; is_confirm = false })
  let reset = reset_recv_function changed
  some (record reset { buffer = record reset.buffer { wpos = 0; rpos = 0 } })

-- `SetLogin`
unfoldable pub set_login : List ℕ → User → Option User
unfolding change_state
set_login user_id u = do
  changed ← change_state in_lobby u
  some (record changed { user_id = user_id })
