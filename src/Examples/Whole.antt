-- ===== src/Examples/Whole.antt =====
-- Concrete inputs for the theorems about the whole server.
use lhjsample.Common.{ℕ, ◌≡◌, refl, List, [], ◌∷◌, true, false, none, some}
use lhjsample.Common.Effect.{pure, ◌>>=◌}
use lhjsample.ChatServer
use lhjsample.ChatServer.{connect, receive, round, step}
use lhjsample.Network.{
  ClientInfo, Network, accept, recv, uint32_max, get_client_info, accept_completion, bind_recv,
  post_accept, call_os, send_msg,
}
use lhjsample.Network.Lifecycle.{accepter_round, send}
use lhjsample.Network.Server.{Completion, worker_round, accept_clients}
use lhjsample.Server.{
  Server, Round, worker, accepter, packets, server_run, server_step, worker_step, packet_step,
  accepter_step, deliver,
}
use lhjsample.Server.Refinement.{run-one}
use lhjsample.Examples.{
  connecting-sent, connected-sent, platform, two_clients, login_packet, connected, connecting,
  received, logged_in, connects_first, connects_second, receives, logs_in, history,
}
use lhjsample.Examples.Histories.{logged_in-sent, login_reply}
use lhjsample.Examples.Threads.{winsock}

abbrev pub new_client : ℕ → ClientInfo
new_client i = record { index = i; latest_closed_time_sec = 0; sock = none; send_dataqueue = [] }

abbrev pub network :
    List ClientInfo → ℕ → List ChatServer.Event → List (ℕ × List ℕ) → Network (Unit {0})
network clients count events posted = record {
  client_infos = clients;
  listen_socket = some 1;
  client_cnt = count;
  io_worker_threads = true ∷ true ∷ true ∷ true ∷ [];
  accepter_thread = true;
  iocp_handle = some 9;
  is_worker_run = true;
  is_accepter_run = true;
  is_sender_run = false;
  send_thread = false;
  os = tt;
  events = events;
  posted = posted;
}

abbrev pub waiting_client : ℕ → ClientInfo
waiting_client i = record (new_client i) { sock = some 1; latest_closed_time_sec = uint32_max }

abbrev waiting : List ClientInfo
waiting = waiting_client 0 ∷ waiting_client 1 ∷ []

abbrev pub completion : Completion
completion = record {
  success = true;
  io_size = 0;
  key = none;
  overlapped = some (accept, 0);
  recv_buf = [];
}

abbrev pub reception : Completion
reception = record {
  success = true;
  io_size = 27;
  key = some 0;
  overlapped = some (recv, 0);
  recv_buf = login_packet;
}

abbrev pub started : Server (Unit {0}) (Unit {0})
started = record {
  network = network (new_client 0 ∷ new_client 1 ∷ []) 0 [] [];
  world = two_clients;
  history = [];
}

-- Client 0 connects and asks for a login, which the packet thread answers.
abbrev pub rounds : List Round
rounds = accepter 100 ∷ worker completion ∷ packets ∷ worker reception ∷ packets ∷ []

abbrev pub replied : Server (Unit {0}) (Unit {0})
replied = record {
  network =
      network
        (record (waiting_client 0) { send_dataqueue = login_reply.content ∷ [] }
          ∷ waiting_client 1
          ∷ [])
        1 (receive 0 login_packet ∷ []) ((0, login_reply.content) ∷ []);
  world = logged_in;
  history = history;
}

accepted :
    worker_round winsock completion (network waiting 0 [] [])
    ≡ some (tt, network waiting 1 (connect 0 ∷ []) [])
unfolding worker_round ◌>>=◌ get_client_info accept_completion call_os bind_recv
accepted = refl

was_received :
    worker_round winsock reception (network waiting 1 [] [])
    ≡ some (tt, network waiting 1 (receive 0 login_packet ∷ []) [])
unfolding worker_round ◌>>=◌ get_client_info bind_recv
was_received = refl

accepts :
    accepter_step platform winsock 100 started
    ≡ some (record started { network = network waiting 0 [] [] })
unfolding accepter_step accepter_round ◌>>=◌ accept_clients get_client_info post_accept call_os
accepts = refl

delivers :
    deliver winsock (login_reply ∷ []) (network waiting 1 (receive 0 login_packet ∷ []) [])
    ≡ some (tt, replied.network)
unfolding deliver ◌>>=◌ send get_client_info send_msg call_os
delivers = refl

received-sent : received.sent ≡ []
unfolding received
received-sent = connected-sent

abbrev connected_server : Server (Unit {0}) (Unit {0})
connected_server = record {
  network = network waiting 1 (connect 0 ∷ []) [];
  world = connected;
  history = connect 0 ∷ round ∷ [];
}

abbrev receiving_server : Server (Unit {0}) (Unit {0})
receiving_server = record {
  network = network waiting 1 (receive 0 login_packet ∷ []) [];
  world = received;
  history = connect 0 ∷ round ∷ receive 0 login_packet ∷ [];
}

abbrev connecting_server : Server (Unit {0}) (Unit {0})
connecting_server = record {
  network = network waiting 1 (connect 0 ∷ []) [];
  world = connecting;
  history = connect 0 ∷ [];
}

connects :
    worker_step platform winsock completion (record started { network = network waiting 0 [] [] })
    ≡ some connecting_server
unfolding worker_step
connects =
    rw (accepted, run-one platform (connect 0) two_clients (tt, connecting) connects_first) refl

welcomes : packet_step platform winsock connecting_server ≡ some connected_server
unfolding packet_step deliver pure
welcomes = rw (connects_second, connecting-sent, connected-sent) refl

reads : worker_step platform winsock reception connected_server ≡ some receiving_server
unfolding worker_step
reads =
    rw (was_received, run-one platform (receive 0 login_packet) connected (tt, received) receives)
      refl

answers : packet_step platform winsock receiving_server ≡ some replied
unfolding packet_step
answers = rw (logs_in, received-sent, logged_in-sent, delivers) refl

pub runs : server_run platform winsock rounds started ≡ some replied
unfolding server_run server_step
runs = rw (accepts, connects, welcomes, reads, answers) refl
