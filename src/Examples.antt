-- ===== src/Examples.antt =====
-- Concrete inputs for the theorems about the server's histories: two clients, one of whom connects
-- and logs in as "ab" with the password "pw".
mod Histories
mod Buffers
mod Handlers
mod Threads
mod Whole
mod Configuration
mod Members
mod Programs
mod Windows
mod Safety
use lhjsample.Common.{
  ap, ℕ, ◌≡◌, refl, sym, ◌∙◌, inl, inr, Option-cases, List, [], ◌∷◌, ◌++◌, Bool, false, arith,
  write_at, blit, write_at-fits, Option, none, some, replicate, take, length, length-replicate, pos,
  negsuc, get_elem?,
}
use lhjsample.Packet.{PacketId, ack_packet}
use lhjsample.AccountDb.{Odbc}
use lhjsample.User.{User, initial, reset_recv_function, init_user, change_state}
use lhjsample.User.Buffer.{packet_data_buffer_size, set_packet_data, get_packet}
use lhjsample.World.{World, Platform, users}
use lhjsample.Rooms.{init_room_manager}
use lhjsample.Accounts.{init_users, init_user_manager}
use lhjsample.ChatServer.{Event, connect, close, receive, round, init, run}
use lhjsample.ChatServer.{step, on_connect, on_receive}
use lhjsample.Session.{call_handler, login_request}
use lhjsample.PacketManager.{
  process_packet, process_client_packet, process_system_packet, deque_packet_data,
  deque_system_packet_data, process_recv_packet, push_system_packet, receive_packet_data,
  user_connect, user_request,
}
use lhjsample.Common.{set}
use lhjsample.Common.Effect.{◌>>=◌, update}
use mathlib.Core.Option.{some-injective}
use lhjsample.User.{clear}
use lhjsample.World.{modify_user}
use lhjsample.PacketManager.{recv_funtion}
use lhjsample.Common.{read_u16, c_string, eq_bytes, ◌≢◌}
use lhjsample.World.{call_db, send_packet}
use lhjsample.World.Inversion.{UserAt}
use lhjsample.Session.{packet_memory}
use lhjsample.Accounts.{check_loginable, add_user}
use lhjsample.AccountDb.{select_account}
use lhjsample.User.{set_login}
use lhjsample.PacketManager.{enqueue_packet_data}
use lhjsample.Invariants.Users.{IsStarted, IsStarted-users}
use lhjsample.Invariants.Messages.{IsWellSent, run-IsWellSent}
use lhjsample.Invariants.RoomCounts.{RoomIsValid, run-RoomIsValid}
use lhjsample.Invariants.FullRooms.{IsFull, run-IsFull}
use lhjsample.Invariants.Protocol.{run-UserIsValid}
use lhjsample.Invariants.Stable.{UsersValid}
use lhjsample.User.Bindings.{UserIsValid}
use lhjsample.World.{Message, Room, rooms}
use lhjsample.Common.{get_elem?_of_lt}
use lhjsample.ChatServer.{system_packet, on_close}
use lhjsample.Invariants.UniqueIds.{run-unique_ids}

-- A database in which every id has the password "pw".
abbrev pub driver : Odbc (Unit {0})
driver = record {
  exec_create = λ id pw db. (0, db);
  exec_select = λ id db. (0, (112 ∷ 119 ∷ []) ∷ [], db);
  get_data = λ v. take 9 v;
  free_unbind = λ db. db;
  free_close = λ db. db;
}

abbrev pub platform : Platform (Unit {0})
platform = record { odbc = driver; stack_byte = λ id. 0; past_end = λ id. replicate 10 0 }

abbrev pub storage : ℕ → List ℕ
storage i = replicate packet_data_buffer_size 0

abbrev pub fresh_user : ℕ → User
fresh_user i = reset_recv_function (record {
  index = i;
  room_index = negsuc 0;
  user_id = [];
  is_confirm = false;
  state = initial;
  recv_funtion_dictionary = λ _. none;
  buffer = record { bytes = storage i; wpos = 0; rpos = 0 };
})

abbrev pub zeros : ℕ → List ℕ
zeros n = replicate n 0

abbrev pub login_packet : List ℕ
login_packet = 27 ∷ 0 ∷ 210 ∷ 0 ∷ 0 ∷ 97 ∷ 98 ∷ zeros 9 ++ 112 ∷ 119 ∷ zeros 9

abbrev pub two_clients : World (Unit {0})
two_clients = record {
  user_manager = record {
    max_user_cnt = 2;
    current_user_cnt = 0;
    user_obj_pool = fresh_user 0 ∷ fresh_user 1 ∷ [];
    user_id_dictionary = [];
  };
  room_manager = init_room_manager (pos 0) 10 4;
  queues = record { incoming_packet_user_index = []; system_packet_queue = [] };
  db = tt;
  sent = [];
}

pub two_clients-started : init 2 storage tt ≡ some two_clients
unfolding init init_user_manager init_users init_user change_state
two_clients-started = refl

-- Client 0 connects and logs in.
abbrev pub history : List Event
history = connect 0 ∷ round ∷ receive 0 login_packet ∷ round ∷ []

abbrev pub ended : Option (Unit {0} × World (Unit {0})) → World (Unit {0})
ended none = two_clients
ended (some (u, w)) = w

unfoldable pub connecting : World (Unit {0})
connecting = ended (step platform (connect 0) two_clients)

unfoldable pub connected : World (Unit {0})
unfolding connecting
connected = ended (step platform round connecting)

pub connects_first : step platform (connect 0) two_clients ≡ some (tt, connecting)
unfolding connecting step on_connect push_system_packet update
connects_first = refl

pub connects_second : step platform round connecting ≡ some (tt, connected)
unfolding connected connecting ◌>>=◌ step on_connect push_system_packet process_packet
    process_client_packet deque_packet_data process_system_packet deque_system_packet_data
    process_recv_packet recv_funtion user_connect modify_user clear
connects_second = refl

pub connecting-sent : connecting.sent ≡ []
unfolding connecting step on_connect push_system_packet update
connecting-sent = refl

pub connected-sent : connected.sent ≡ []
unfolding connected connecting ◌>>=◌ step on_connect push_system_packet process_packet
    process_client_packet deque_packet_data process_system_packet deque_system_packet_data
    process_recv_packet recv_funtion user_connect modify_user clear
connected-sent = refl

fits : write_at (storage 0) 0 login_packet ≡ some (blit (storage 0) 0 login_packet)
fits = write_at-fits (storage 0) 0 login_packet (omega (arith, length-replicate {A = ℕ} 8096 0))

unfoldable pub first_user : List User → User
first_user [] = fresh_user 0
first_user (u ∷ us) = u

unfoldable pub received : World (Unit {0})
unfolding connected first_user
received = record connected {
  user_manager = record connected.user_manager {
    user_obj_pool =
        set connected.user_manager.user_obj_pool 0
          (record (first_user connected.user_manager.user_obj_pool) {
            buffer = record { bytes = blit (storage 0) 0 login_packet; wpos = 27; rpos = 0 };
          });
  };
  queues = record connected.queues { incoming_packet_user_index = 0 ∷ [] };
}

pub receives : step platform (receive 0 login_packet) connected ≡ some (tt, received)
unfolding received connected connecting first_user ◌>>=◌ step on_connect push_system_packet
    process_packet process_client_packet deque_packet_data process_system_packet
    deque_system_packet_data process_recv_packet recv_funtion user_connect modify_user clear
    on_receive receive_packet_data set_packet_data run enqueue_packet_data
receives = rw fits refl

unfoldable pub logged_in : World (Unit {0})
unfolding received
logged_in = ended (step platform round received)

pub logs_in : step platform round received ≡ some (tt, logged_in)
unfolding logged_in received connected connecting first_user ◌>>=◌ step run on_connect
    push_system_packet process_packet process_client_packet deque_packet_data process_system_packet
    deque_system_packet_data process_recv_packet recv_funtion user_connect modify_user clear
    on_receive receive_packet_data set_packet_data blit get_packet user_request call_handler
    login_request read_u16 packet_memory c_string check_loginable call_db select_account eq_bytes
    add_user set_login send_packet
logs_in = refl

-- The history of a login ends, and the user holds its id.
pub ends : run platform history two_clients ≡ some (tt, logged_in)
unfolding run ◌>>=◌
ends = rw (connects_first, connects_second, receives, logs_in) refl

pub two_clients-IsStarted : IsStarted two_clients
unfolding IsStarted
two_clients-IsStarted =
    (2, storage, tt, (λ j. length-replicate {A = ℕ} 8096 0), two_clients-started)

pub two_clients-UsersValid : UsersValid two_clients
two_clients-UsersValid i u at = (IsStarted-users two_clients two_clients-IsStarted i u at).0
