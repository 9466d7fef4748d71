-- ===== src/Examples/Threads.antt =====
-- Concrete inputs for the theorems about the packet thread, the sessions and the task queues.
use lhjsample.Redis.{RedisTask, RedisManager, RedisStep, push, process, take_response, release}
use lhjsample.Common.{
  ◌++◌, false, ℕ, ◌≡◌, ◌≤◌, refl, List, [], ◌∷◌, ◌++◌, true, none, some, arith, length-append,
  length-replicate,
}
use lhjsample.Common.Effect.{◌>>=◌}
use lhjsample.User.{User}
use lhjsample.User.Buffer
use lhjsample.User.Buffer.{PacketBuffer, PacketInfo}
use lhjsample.User.Buffer.Append.{contents}
use lhjsample.User.Buffer.Packets.{take_frame}
use lhjsample.World.{World}
use lhjsample.PacketManager.{process_client_packet}
use lhjsample.PacketManager.Order.{after_fetch, process_client_packet-system_ids}
use lhjsample.Network.{
  recv, ClientInfo, Winsock, Network, call_os, send_msg, send_completed, send_io, get_client_info,
}
use lhjsample.Network.Server.{Completion}
use lhjsample.Network.Calls.{SendCall, message, completion}
use lhjsample.Network.SendQueue.{run_sends}
use lhjsample.Examples.{platform, two_clients, fresh_user, login_packet, zeros}

-- A client has sent bytes, and its index is in the queue.
abbrev waiting_user : List ℕ → User
waiting_user bytes = record (fresh_user 0) {
  buffer = record { bytes = bytes; wpos = 27; rpos = 0 };
}

abbrev waiting : List ℕ → World (Unit {0})
waiting bytes = record two_clients {
  user_manager = record two_clients.user_manager {
    user_obj_pool = waiting_user bytes ∷ fresh_user 1 ∷ [];
  };
  queues = record { incoming_packet_user_index = 0 ∷ []; system_packet_queue = [] };
}

abbrev login_bytes : List ℕ
login_bytes = login_packet ++ zeros 8069

login-IsValid : Buffer.IsValid (waiting_user login_bytes).buffer
login-IsValid = record {
  storage = omega (arith, length-append login_packet (zeros 8069), length-replicate {A = ℕ} 8069 0);
  ordered = omega arith;
  within = omega arith;
}

-- A packet that pretends to be `SYS_USER_CONNECT`.
abbrev system_bytes : List ℕ
system_bytes = 27 ∷ 0 ∷ 11 ∷ 0 ∷ zeros 8092

system-IsValid : Buffer.IsValid (waiting_user system_bytes).buffer
system-IsValid = record {
  storage = omega (arith, length-replicate {A = ℕ} 8092 0);
  ordered = omega arith;
  within = omega arith;
}

system-low : (take_frame (contents (waiting_user system_bytes).buffer)).0 ≤ 30
unfolding take_frame
system-low = omega arith

process_client_packet-system_ids_example :
    (b : PacketBuffer) × (process_client_packet platform (waiting system_bytes)
      ≡ some (tt, after_fetch (waiting system_bytes) [] 0 (waiting_user system_bytes) b))
    × (contents b ≡ (take_frame (contents (waiting_user system_bytes).buffer)).2)
process_client_packet-system_ids_example =
    process_client_packet-system_ids platform (waiting system_bytes) 0 []
      (waiting_user system_bytes) refl refl system-IsValid system-low

abbrev new_client : ClientInfo
new_client = record { index = 0; latest_closed_time_sec = 0; sock = none; send_dataqueue = [] }

-- A system on which every call succeeds.
abbrev pub winsock : Winsock (Unit {0})
winsock = record {
  wsa_startup = λ os. (true, os);
  bind = λ socket port os. (true, os);
  listen = λ socket backlog os. (true, os);
  new_completion_port = λ threads os. (some 9, os);
  bind_listen_socket = λ socket port os. (true, os);
  close_handle = λ handle os. os;
  close_listener = λ socket os. os;
  wsa_socket = λ os. (some 1, os);
  accept_ex = λ socket i os. (true, os);
  create_io_completion_port = λ socket os. (true, os);
  wsa_recv = λ socket os. (true, os);
  wsa_send = λ socket bytes os. (true, os);
  close = λ socket is_force os. os;
}

abbrev network : ClientInfo → List (ℕ × List ℕ) → Network (Unit {0})
network c posted = record {
  client_infos = c ∷ [];
  listen_socket = some 0;
  client_cnt = 0;
  io_worker_threads = [];
  accepter_thread = false;
  iocp_handle = some 9;
  is_worker_run = true;
  is_accepter_run = true;
  is_sender_run = false;
  send_thread = false;
  os = tt;
  events = [];
  posted = posted;
}

abbrev sends : List SendCall
sends = message 0 (1 ∷ []) ∷ message 0 (2 ∷ []) ∷ message 0 (3 ∷ []) ∷ completion 0 ∷ []

abbrev sent : Network (Unit {0})
sent =
    network (record new_client { send_dataqueue = (2 ∷ []) ∷ (3 ∷ []) ∷ [] })
      ((0, 1 ∷ []) ∷ (0, 2 ∷ []) ∷ [])

sends-run : run_sends winsock sends (network new_client []) ≡ some (tt, sent)
unfolding run_sends send_msg send_completed send_io get_client_info ◌>>=◌ call_os
sends-run = refl

-- A receive of session 0 has completed.
abbrev reception : Completion
reception = record {
  success = true;
  io_size = 1;
  key = some 0;
  overlapped = some (recv, 0);
  recv_buf = 7 ∷ [];
}

abbrev no_tasks : RedisManager
no_tasks = record {
  is_task_run = true;
  thread_count = 2;
  request_task = [];
  response_task = [];
  held = [];
  released = [];
}

abbrev task : RedisTask
task = record { user_index = 1; task_id = 0; p_data = 5 ∷ [] }

abbrev redis_steps : List RedisStep
redis_steps = push task ∷ push task ∷ process ∷ release 0 ∷ take_response ∷ []
