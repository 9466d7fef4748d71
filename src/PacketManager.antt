-- ===== src/PacketManager.antt =====
-- LHJSample/PacketManager.cpp: the queues between the I/O threads and the packet thread, the table
-- of methods and the packet thread's loop. The calls of the threads are atomic steps.
pub mod Order
pub mod Safety
use lhjsample.Common.{
  ℕ, ◌+◌, Bool, true, false, List, [], ◌∷◌, ◌++◌, Option, none, some, ltb, ◌==◌, if◌then◌else◌,
}
use lhjsample.Common.Fallible.{◌>>=◌ as bind}
use lhjsample.Common.Effect.{Effect, pure, lift, gets, update, ◌>>=◌, ◌>>◌}
use lhjsample.Packet.{
  PacketId, packet_id, sys_user_connect, sys_user_disconnect, sys_end, req_create_account,
  req_login, req_lobby_info, req_room_enter, req_room_info, req_room_leave, req_room_chat,
}
use lhjsample.User.Buffer.{PacketInfo, no_packet, set_packet_data, get_packet}
use lhjsample.User.{User, UserState, connected, initial, clear, change_state}
use lhjsample.World.{World, PacketQueues, Platform, get_user, put_user, modify_user}
use lhjsample.Accounts.{delete_user_info}
use lhjsample.Session.{call_handler}

-- A `PROCESS_RECV_PACKET_FUNCTION`; the seven methods for requests differ in the id alone.
pub data Method : Type 0 where
  process_user_connect process_user_disconnect : Method
  process_request : PacketId → Method

-- `mRecvFuntionDictionary` as `Init` fills it.
unfoldable pub recv_funtion : ℕ → Option Method
recv_funtion k =
    if k == packet_id sys_user_connect
    then some process_user_connect
    else if k == packet_id sys_user_disconnect
    then some process_user_disconnect
    else if k == packet_id req_create_account
    then some (process_request req_create_account)
    else if k == packet_id req_login
    then some (process_request req_login)
    else if k == packet_id req_lobby_info
    then some (process_request req_lobby_info)
    else if k == packet_id req_room_enter
    then some (process_request req_room_enter)
    else if k == packet_id req_room_info
    then some (process_request req_room_info)
    else if k == packet_id req_room_leave
    then some (process_request req_room_leave)
    else if k == packet_id req_room_chat
    then some (process_request req_room_chat)
    else none

unfoldable pub is_initial : UserState → Bool
is_initial initial = true
is_initial _ = false

-- `SetPacketData` and `GetPacket` on the buffer of a user.
unfoldable pub store_data : List ℕ → User → Option User
store_data p_data u = bind (set_packet_data p_data u.buffer) λ b. some (record u { buffer = b })

module _ {Db : Type 0} where
  unfoldable pub update_queues : (PacketQueues → PacketQueues) → Effect (World Db) (Unit {0})
  update_queues f = update (λ w. record w { queues = f w.queues })

  -- `EnqueuePacketData`
  unfoldable pub enqueue_packet_data : ℕ → Effect (World Db) (Unit {0})
  unfolding update_queues
  enqueue_packet_data client_index = update_queues (λ q. record q {
    incoming_packet_user_index = q.incoming_packet_user_index ++ client_index ∷ [];
  })

  -- `ReceivePacketData`
  unfoldable pub receive_packet_data : ℕ → List ℕ → Effect (World Db) (Unit {0})
  unfolding store_data
  receive_packet_data client_index p_data = do
    modify_user client_index (store_data p_data)
    enqueue_packet_data client_index

  -- `PushSystemPacket`
  unfoldable pub push_system_packet : PacketInfo → Effect (World Db) (Unit {0})
  unfolding update_queues
  push_system_packet packet =
      update_queues (λ q. record q { system_packet_queue = q.system_packet_queue ++ packet ∷ [] })

  -- `DequePacketData` behind the queue: the next packet of the user whose index was taken.
  unfoldable pub fetch_packet : ℕ → Effect (World Db) PacketInfo
  fetch_packet user_index = do
    user ← get_user user_index
    (packet_data, left) ← lift (get_packet user.buffer)
    put_user user_index (record user { buffer = left })
    pure (record packet_data { client_index = user_index })

  unfoldable pub deque_from : List ℕ → Effect (World Db) PacketInfo
  unfolding update_queues fetch_packet
  deque_from [] = pure no_packet
  deque_from (user_index ∷ rest) = do
    update_queues (λ q. record q { incoming_packet_user_index = rest })
    fetch_packet user_index

  -- `DequePacketData`
  unfoldable pub deque_packet_data : Effect (World Db) PacketInfo
  unfolding deque_from
  deque_packet_data = do queue ← gets (λ w. w.queues.incoming_packet_user_index); deque_from queue

  unfoldable pub deque_system_from : List PacketInfo → Effect (World Db) PacketInfo
  unfolding update_queues
  deque_system_from [] = pure no_packet
  deque_system_from (packet_data ∷ rest) = do
    update_queues (λ q. record q { system_packet_queue = rest })
    pure packet_data

  -- `DequeSystemPacketData`
  unfoldable pub deque_system_packet_data : Effect (World Db) PacketInfo
  unfolding deque_system_from
  deque_system_packet_data = do
    queue ← gets (λ w. w.queues.system_packet_queue)
    deque_system_from queue

  -- `ProcessUserConnect`
  unfoldable pub user_connect : ℕ → Effect (World Db) (Unit {0})
  user_connect client_index = do
    modify_user client_index clear
    modify_user client_index (change_state connected)

  -- `ClearConnectionInfo`, and `ProcessUserDisConnect`, which calls it.
  unfoldable pub clear_connection_info : ℕ → Effect (World Db) (Unit {0})
  unfolding is_initial
  clear_connection_info client_index = do
    user ← get_user client_index
    if is_initial user.state then pure tt else delete_user_info client_index

  module _ (p : Platform Db) where
    -- `ProcessCreateAccount`, `ProcessLogin` and so on: the user's function for the id. A key that
    -- is missing there would give an empty function, whose call ends the process.
    unfoldable pub user_request : PacketId → ℕ → ℕ → Option ℕ → Effect (World Db) (Unit {0})
    user_request id client_index packet_size p_packet = do
      user ← get_user client_index
      handler ← lift (user.recv_funtion_dictionary (packet_id id))
      call_handler p client_index user.index handler packet_size p_packet

    unfoldable pub call_method : Option Method → ℕ → ℕ → Option ℕ → Effect (World Db) (Unit {0})
    call_method none client_index packet_size p_packet = pure tt
    call_method (some process_user_connect) client_index packet_size p_packet =
        user_connect client_index
    call_method (some process_user_disconnect) client_index packet_size p_packet =
        clear_connection_info client_index
    call_method (some (process_request id)) client_index packet_size p_packet =
        user_request id client_index packet_size p_packet

    -- `ProcessRecvPacket`
    unfoldable pub process_recv_packet : PacketInfo → Effect (World Db) (Unit {0})
    unfolding call_method
    process_recv_packet packet =
        call_method (recv_funtion packet.packet_id) packet.client_index packet.data_size
          packet.data_ptr

    -- The two halves of a round of `ProcessPacket`, and the round.
    unfoldable pub process_client_packet : Effect (World Db) (Unit {0})
    process_client_packet = do
      packet_data ← deque_packet_data
      if ltb (packet_id sys_end) packet_data.packet_id
          then process_recv_packet packet_data
          else pure tt

    unfoldable pub process_system_packet : Effect (World Db) (Unit {0})
    process_system_packet = do
      packet_data ← deque_system_packet_data
      if packet_data.packet_id == 0 then pure tt else process_recv_packet packet_data

    unfoldable pub process_packet : Effect (World Db) (Unit {0})
    process_packet = process_client_packet >> process_system_packet
