-- ===== src/World.antt =====
-- The objects of the server that the packet handlers share, and the primitives that the handlers
-- are built from. A `User*` is a position in `mUserObjPool`, a `Room*` a position in `mRoomList`;
-- following one that is outside its vector is a fault. The messages given to `IOCPServer::SendMsg`
-- are recorded in order, the latest last.
pub mod Inversion
pub mod Safety
use lhjsample.Common.{ℕ, ◌%◌, ◌^◌, ℤ, List, [], ◌∷◌, ◌++◌, Option, Bool, take, get_elem?, set}
use lhjsample.Common.Effect.{Effect, pure, lift, gets, update, ◌>>=◌, ◌>>◌}
use lhjsample.Packet.{PacketId}
use lhjsample.User.Buffer.{PacketInfo}
use lhjsample.User.{User}
use lhjsample.AccountDb.{Odbc}

-- Room/Room.h. `SendPacketFunc` is `send_packet` below for every room.
pub record Room : Type 0 where
  pub room_num : ℤ
  pub user_list : List ℕ
  pub max_user_count : ℕ
  pub current_user_count : ℕ

-- Room/RoomManager.h. Its own `SendPacketFunc` is never set or called.
pub record RoomManager : Type 0 where
  pub room_list : List Room
  pub begin_room_number : ℤ
  pub end_room_number : ℤ
  pub max_room_count : ℕ

-- User/UserManager.h
pub record UserManager : Type 0 where
  pub max_user_cnt : ℕ
  pub current_user_cnt : ℕ
  pub user_obj_pool : List User
  pub user_id_dictionary : List (List ℕ × ℕ)

-- PacketManager.h: the two queues that `mLock` protects.
pub record PacketQueues : Type 0 where
  pub incoming_packet_user_index : List ℕ
  pub system_packet_queue : List PacketInfo

-- A call `SendMsg(clientIndex_, packetSize, pSendPacket)` and the bytes it copies.
pub record Message : Type 0 where
  pub client_index : ℕ
  pub packet_size : ℕ
  pub content : List ℕ

pub record World (Db : Type 0) : Type 0 where
  pub user_manager : UserManager
  pub room_manager : RoomManager
  pub queues : PacketQueues
  pub db : Db
  pub sent : List Message

-- What the code takes from outside: the ODBC driver, the value that the uninitialised `Type` byte
-- of a packet on the stack happens to have, and the bytes that follow the NUL of a `std::string`.
pub record Platform (Db : Type 0) : Type 0 where
  pub odbc : Odbc Db
  pub stack_byte : PacketId → ℕ
  pub past_end : List ℕ → List ℕ

module _ {Db : Type 0} where
  abbrev pub users : World Db → List User
  users w = w.user_manager.user_obj_pool

  abbrev pub rooms : World Db → List Room
  rooms w = w.room_manager.room_list

  -- `GetUserByConnIdx`, and any use of a `User*`.
  unfoldable pub get_user : ℕ → Effect (World Db) User
  get_user i = do pool ← gets users; lift (get_elem? pool i)

  -- A user after its fields were assigned.
  unfoldable pub put_user : ℕ → User → Effect (World Db) (Unit {0})
  put_user i u =
      update (λ w. record w {
        user_manager = record w.user_manager { user_obj_pool = set (users w) i u };
      })

  -- A call of a method of `User` that touches no other object.
  unfoldable pub modify_user : ℕ → (User → Option User) → Effect (World Db) (Unit {0})
  unfolding get_user put_user
  modify_user i method = do u ← get_user i; v ← lift (method u); put_user i v

  -- Any use of a `Room*`.
  unfoldable pub get_room : ℕ → Effect (World Db) Room
  get_room r = do list ← gets rooms; lift (get_elem? list r)

  unfoldable pub put_room : ℕ → Room → Effect (World Db) (Unit {0})
  put_room r room =
      update (λ w. record w {
        room_manager = record w.room_manager { room_list = set (rooms w) r room };
      })

  -- A change of a room in place.
  unfoldable pub modify_room : ℕ → (Room → Option Room) → Effect (World Db) (Unit {0})
  unfolding get_room put_room
  modify_room r change = do room ← get_room r; changed ← lift (change room); put_room r changed

  -- `sendPacketFunc`, the lambda of `ChatServer::Run`, whose size is a `UINT16`.
  unfoldable pub send_packet : ℕ → ℕ → List ℕ → Effect (World Db) (Unit {0})
  send_packet client_index packet_size p_send_packet = update (λ w. record w {
    sent =
        w.sent
        ++ record {
          client_index = client_index;
          packet_size = packet_size % 2 ^ 16;
          content = take (packet_size % 2 ^ 16) p_send_packet;
        }
          ∷ [];
  })

  -- A call into the database.
  unfoldable pub call_db : (Db → Bool × Db) → Effect (World Db) Bool
  call_db query = do
    (result, after) ← gets (λ w. query w.db)
    update (λ w. record w { db = after })
    pure result
