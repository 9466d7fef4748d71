-- ===== src/Examples/Histories.antt =====
-- Concrete inputs for the theorems about histories: a login, and a full room.
use lhjsample.Common.{
  ap, ℕ, ◌≡◌, refl, sym, ◌∙◌, inl, inr, Option-cases, List, [], ◌∷◌, arith, blit, Option, none,
  some, length, pos, get_elem?,
}
use lhjsample.Packet.{ack_packet, req_login}
use lhjsample.User.{User, UserState, ignore, in_lobby}
use lhjsample.User.Buffer.{set_packet_data, get_packet}
use lhjsample.World.{World, users}
use lhjsample.Rooms.{init_room_manager}
use lhjsample.ChatServer.{connect, close, run}
use lhjsample.ChatServer.{step, on_connect, on_receive}
use lhjsample.Session.{call_handler, login_request}
use lhjsample.PacketManager.{
  process_packet, process_client_packet, process_system_packet, deque_packet_data,
  deque_system_packet_data, process_recv_packet, push_system_packet, receive_packet_data,
  user_connect, user_request,
}
use lhjsample.Common.Effect.{◌>>=◌}
use mathlib.Core.Option.{some-injective}
use lhjsample.User.{clear}
use lhjsample.World.{modify_user}
use lhjsample.PacketManager.{recv_funtion}
use lhjsample.Common.{read_u16, c_string, eq_bytes, ◌≢◌}
use lhjsample.World.{call_db, send_packet}
use lhjsample.World.Inversion.{UserAt}
use lhjsample.Session.{packet_memory}
use lhjsample.Accounts.{check_loginable, add_user}
use lhjsample.AccountDb.{select_account}
use lhjsample.User.{set_login}
use lhjsample.Invariants.Messages.{IsWellSent, run-IsWellSent}
use lhjsample.Invariants.RoomCounts.{RoomIsValid, run-RoomIsValid}
use lhjsample.Invariants.FullRooms.{IsFull, run-IsFull}
use lhjsample.Invariants.Protocol.{run-UserIsValid, run-refused}
use lhjsample.User.Bindings.{UserIsValid, protocol}
use lhjsample.World.{Message, Room, rooms}
use lhjsample.Common.{get_elem?_of_lt}
use lhjsample.ChatServer.{system_packet, on_close}
use lhjsample.Invariants.UniqueIds.{run-unique_ids}
use lhjsample.Examples.{
  platform, two_clients, history, connecting, connected, first_user, received, logged_in, ends,
  two_clients-IsStarted, two_clients-UsersValid,
}

abbrev id_at : List User → ℕ → Option (List ℕ)
id_at us i = elim (get_elem? us i) [ none ↦ none | some u ↦ some u.user_id ]

logged_in-id : id_at (users logged_in) 0 ≡ some (97 ∷ 98 ∷ [])
unfolding logged_in received connected connecting first_user ◌>>=◌ step run on_connect
    push_system_packet process_packet process_client_packet deque_packet_data process_system_packet
    deque_system_packet_data process_recv_packet recv_funtion user_connect modify_user clear
    on_receive receive_packet_data set_packet_data blit get_packet user_request call_handler
    login_request read_u16 packet_memory c_string check_loginable call_db select_account eq_bytes
    add_user set_login send_packet
logged_in-id = refl

user_of_id :
    (us : List User) (i : ℕ) (id : List ℕ)
    → id_at us i ≡ some id
    → (u : User) × (get_elem? us i ≡ some u) × (u.user_id ≡ id)
user_of_id us i id h = elim (Option-cases (get_elem? us i)) [
  | inl missing ↦ let k = rw (id_at, missing) at h in cc
  | inr (u, at) ↦ (u, at, some-injective _ _ (rw (id_at, at) at h))
]

-- The user that has logged in.
pub online : (u : User) × UserAt logged_in 0 u × (u.user_id ≡ 97 ∷ 98 ∷ [])
online = user_of_id (users logged_in) 0 (97 ∷ 98 ∷ []) logged_in-id

online-named : online.0.user_id ≢ []
online-named h = let k : ◌≡◌ {A = List ℕ} (97 ∷ 98 ∷ []) [] = sym online.2 ∙ h in ground arith

run-unique_ids_example : ◌≡◌ {A = ℕ} 0 0
run-unique_ids_example =
    run-unique_ids platform history two_clients (tt, logged_in) 0 0 online.0 online.0
      two_clients-IsStarted ends online.1 online.1 refl online-named

-- The answer to the login.
abbrev pub login_reply : Message
login_reply = record {
  client_index = 0;
  packet_size = 7;
  content = 7 ∷ 0 ∷ 211 ∷ 0 ∷ 0 ∷ 30 ∷ 0 ∷ [];
}

pub logged_in-sent : logged_in.sent ≡ login_reply ∷ []
unfolding logged_in received connected connecting first_user ◌>>=◌ step run on_connect
    push_system_packet process_packet process_client_packet deque_packet_data process_system_packet
    deque_system_packet_data process_recv_packet recv_funtion user_connect modify_user clear
    on_receive receive_packet_data set_packet_data blit get_packet user_request call_handler
    login_request read_u16 packet_memory c_string check_loginable call_db select_account eq_bytes
    add_user set_login send_packet ack_packet
logged_in-sent = refl

first_message : (m : Message) × (get_elem? logged_in.sent 0 ≡ some m)
first_message = get_elem?_of_lt logged_in.sent 0 (omega (arith, ap length logged_in-sent))

run-IsWellSent_example : IsWellSent first_message.0
run-IsWellSent_example =
    run-IsWellSent platform history two_clients (tt, logged_in) 0 first_message.0
      two_clients-IsStarted ends first_message.1

logged_in-rooms : length (rooms logged_in) ≡ 10
unfolding logged_in received connected connecting first_user ◌>>=◌ step run on_connect
    push_system_packet process_packet process_client_packet deque_packet_data process_system_packet
    deque_system_packet_data process_recv_packet recv_funtion user_connect modify_user clear
    on_receive receive_packet_data set_packet_data blit get_packet user_request call_handler
    login_request read_u16 packet_memory c_string check_loginable call_db select_account eq_bytes
    add_user set_login send_packet init_room_manager
logged_in-rooms = refl

first_room : (a : Room) × (get_elem? (rooms logged_in) 0 ≡ some a)
first_room = get_elem?_of_lt (rooms logged_in) 0 (omega (arith, logged_in-rooms))

run-RoomIsValid_example : RoomIsValid (length (users logged_in)) first_room.0
run-RoomIsValid_example =
    run-RoomIsValid platform history two_clients (tt, logged_in) 0 first_room.0
      two_clients-IsStarted ends first_room.1

run-UserIsValid_example : UserIsValid 0 online.0
run-UserIsValid_example =
    run-UserIsValid platform history two_clients (tt, logged_in) 0 online.0 two_clients-IsStarted
      ends online.1

abbrev state_at : List User → ℕ → Option UserState
state_at us i = elim (get_elem? us i) [ none ↦ none | some u ↦ some u.state ]

state_of :
    (us : List User) (i : ℕ) (u : User) (s : UserState)
    → get_elem? us i ≡ some u
    → state_at us i ≡ some s
    → u.state ≡ s
state_of us i u s at h = some-injective _ _ (rw (state_at, at) at h)

logged_in-state : state_at (users logged_in) 0 ≡ some in_lobby
unfolding logged_in received connected connecting first_user ◌>>=◌ step run on_connect
    push_system_packet process_packet process_client_packet deque_packet_data process_system_packet
    deque_system_packet_data process_recv_packet recv_funtion user_connect modify_user clear
    on_receive receive_packet_data set_packet_data blit get_packet user_request call_handler
    login_request read_u16 packet_memory c_string check_loginable call_db select_account eq_bytes
    add_user set_login send_packet
logged_in-state = refl

online-refuses : protocol online.0.state 210 ≡ ignore
online-refuses =
    ap (λ s. protocol s 210)
      (state_of (users logged_in) 0 online.0 in_lobby online.1 logged_in-state)

-- The user asks for a second login.
run-refused_example : user_request platform req_login 0 27 (some 0) logged_in ≡ some (tt, logged_in)
run-refused_example =
    run-refused platform history two_clients (tt, logged_in) 0 online.0 req_login 27 (some 0)
      two_clients-IsStarted ends online.1 (inr (inl refl)) online-refuses

abbrev full_room : Room
full_room = record { room_num = pos 0; user_list = []; max_user_count = 4; current_user_count = 4 }

abbrev full : World (Unit {0})
full = record two_clients {
  room_manager = record two_clients.room_manager { room_list = full_room ∷ [] };
}

abbrev full_after : World (Unit {0})
full_after = record full {
  queues = record {
    incoming_packet_user_index = [];
    system_packet_queue = system_packet 1 11 ∷ system_packet 1 12 ∷ [];
  };
}

full-runs : run platform (connect 1 ∷ close 1 ∷ []) full ≡ some (tt, full_after)
unfolding run step on_connect on_close push_system_packet ◌>>=◌
full-runs = refl

run-IsFull_example : IsFull 0 full_after
run-IsFull_example =
    run-IsFull platform (connect 1 ∷ close 1 ∷ []) full (tt, full_after) 0 two_clients-UsersValid
      (full_room, refl, omega arith) full-runs
