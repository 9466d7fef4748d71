-- ===== src/ChatServer.antt =====
-- LHJSample/ChatServer.cpp: how the objects are made, and what the I/O threads call. A history of
-- the server is a list of the calls that its threads make on the shared objects, in some order.
pub mod Safety
use lhjsample.Common.{ℕ, List, [], ◌∷◌, Option, none, some, pos}
use lhjsample.Common.Fallible.{◌>>=◌ as bind}
use lhjsample.Common.Effect.{Effect, ◌>>◌, pure}
use lhjsample.Packet.{packet_id, sys_user_connect, sys_user_disconnect}
use lhjsample.User.Buffer.{PacketInfo}
use lhjsample.World.{World, Platform}
use lhjsample.Rooms.{init_room_manager}
use lhjsample.Accounts.{init_user_manager}
use lhjsample.PacketManager.{receive_packet_data, push_system_packet, process_packet}

abbrev pub start_room_number : ℕ
start_room_number = 0

abbrev pub server_room_count : ℕ
server_room_count = 10

abbrev pub server_room_user_count : ℕ
server_room_user_count = 4

-- `PacketInfo packet{ clientIndex_, (UINT16)PACKET_ID::…, 0 }`
abbrev pub system_packet : ℕ → ℕ → PacketInfo
system_packet client_index id = record {
  client_index = client_index;
  packet_id = id;
  data_size = 0;
  data_ptr = none;
}

-- What a thread does in one step: an I/O thread calls `OnConnect`, `OnClose` or `OnReceive`, or the
-- packet thread makes a round of its loop.
pub data Event : Type 0 where
  connect close : ℕ → Event
  receive : ℕ → List ℕ → Event
  round : Event

module _ {Db : Type 0} where
  -- `Init`, with the database as `AccountDB::Init` leaves it.
  unfoldable pub init : ℕ → (ℕ → List ℕ) → Db → Option (World Db)
  init max_client storage db = bind (init_user_manager max_client storage) λ user_manager.
      some (record {
        user_manager = user_manager;
        room_manager =
            init_room_manager (pos start_room_number) server_room_count server_room_user_count;
        queues = record { incoming_packet_user_index = []; system_packet_queue = [] };
        db = db;
        sent = [];
      })

  unfoldable pub on_connect : ℕ → Effect (World Db) (Unit {0})
  on_connect client_index =
      push_system_packet (system_packet client_index (packet_id sys_user_connect))

  unfoldable pub on_close : ℕ → Effect (World Db) (Unit {0})
  on_close client_index =
      push_system_packet (system_packet client_index (packet_id sys_user_disconnect))

  unfoldable pub on_receive : ℕ → List ℕ → Effect (World Db) (Unit {0})
  on_receive client_index p_data = receive_packet_data client_index p_data

  unfoldable pub step : Platform Db → Event → Effect (World Db) (Unit {0})
  step p (connect i) = on_connect i
  step p (close i) = on_close i
  step p (receive i p_data) = on_receive i p_data
  step p round = process_packet p

  unfoldable pub run : Platform Db → List Event → Effect (World Db) (Unit {0})
  run p [] = pure tt
  run p (e ∷ es) = step p e >> run p es
