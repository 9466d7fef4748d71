-- ===== src/Examples/Programs.antt =====
-- Concrete inputs for the theorems about the start and the end of the program, and about the test
-- client.
use lhjsample.Common.{
  ℕ, suc, ◌≡◌, ◌≤◌, refl, List, [], ◌∷◌, ◌++◌, true, false, none, some, arith, get_elem?, take,
  drop, length, c_string, length-replicate, length-append, replicate, codes, eq_bytes,
}
use lhjsample.Common.Effect.{pure, ◌>>=◌}
use lhjsample.User.Buffer
use lhjsample.User.Buffer.{PacketBuffer, PacketInfo, packet_data_buffer_size, get_packet}
use lhjsample.User.Buffer.Packets.{view}
use lhjsample.Packet.Framing.{announced}
use lhjsample.ChatServer
use lhjsample.ChatServer.{init}
use lhjsample.User.{init_user}
use lhjsample.Accounts.{init_user_manager}
use lhjsample.Network.{
  ClientInfo, Network, call_os, init_client, recv, is_connected, get_client_info, close, put_client,
}
use lhjsample.Network.Server.{Completion, worker_round, accept_clients}
use lhjsample.Network.Calls.{posted_by}
use lhjsample.Network.Lifecycle.{init_socket, bind_and_listen, start_server}
use lhjsample.World.{World}
use lhjsample.PacketManager.{push_system_packet}
use lhjsample.Server.{Server, worker, server_run, server_step, worker_step}
use lhjsample.Server.Delivery.{sent_to}
use lhjsample.Program.{Program, terminated, max_client, start, main, end, wait_for_quit}
use lhjsample.Program.Startup.{IsReady, start-IsReady}
use lhjsample.Program.Service.{start-AllName, start-no_reuse, start-order, start-announced}
use lhjsample.Program.Shutdown.{main-terminated}
use lhjsample.Client.{done, Wsa, IocpClient, returned, run_words}
use lhjsample.Client.Protocol.{run_words-no_packet}
use lhjsample.Network.Places.{AllName}
use lhjsample.Examples.{history, platform, storage, zeros, logged_in}
use lhjsample.Examples.Histories.{login_reply}
use lhjsample.Examples.Threads.{winsock}
use lhjsample.Examples.Whole.{waiting_client, started, rounds, replied, runs}
use lhjsample.Examples.Configuration.{xml, configuration, loads_config}

sizes : (j : ℕ) → length (storage j) ≡ packet_data_buffer_size
sizes j = length-replicate {A = ℕ} 8096 0

abbrev program : Program (Unit {0}) (Unit {0})
program = record {
  server = started;
  is_run_process_thread = true;
  process_thread = true;
  redis_mgr = none;
}

starts : start winsock 2 storage tt tt configuration ≡ some (true, program)
unfolding start init_socket ◌>>=◌ call_os bind_and_listen init init_user_manager init_user
    start_server init_client
starts = refl

start-order_example :
    (k : ℕ) × (k ≤ length (sent_to 0 logged_in.sent))
    × (posted_by 0 replied.network.posted ≡ take (suc k) (sent_to 0 logged_in.sent))
    × ((c : ClientInfo) × (get_elem? replied.network.client_infos 0 ≡ some c)
        × (c.send_dataqueue ≡ drop k (sent_to 0 logged_in.sent)))
start-order_example =
    start-order platform winsock 2 storage sizes tt tt configuration program rounds replied 0 starts
      (omega arith) runs

start-announced_example : announced login_reply.content ≡ 7
start-announced_example =
    start-announced platform winsock 2 storage sizes tt tt configuration program rounds replied 0 0
      login_reply.content starts (omega arith) runs refl (omega arith)

start-AllName_example : AllName 2 history × (length replied.network.client_infos ≡ 2)
start-AllName_example =
    start-AllName platform winsock 2 storage sizes tt tt configuration program rounds replied starts
      runs

-- Client 0 leaves after its login.
abbrev leave : Completion
leave = record {
  success = true;
  io_size = 0;
  key = some 0;
  overlapped = some (recv, 0);
  recv_buf = [];
}

closes :
    (q : Unit {0} × Network (Unit {0})) × (worker_round winsock leave
        (record replied.network { events = [] })
      ≡ some q)
    × (q.1.events ≡ ChatServer.close 0 ∷ [])
unfolding worker_round ◌>>=◌ get_client_info close put_client
closes = (_, refl, refl)

left_world :
    (q : Unit {0} × World (Unit {0})) × (ChatServer.run platform (ChatServer.close 0 ∷ []) logged_in
      ≡ some q)
unfolding ChatServer.run ◌>>=◌ pure ChatServer.step ChatServer.on_close push_system_packet
left_world = (_, refl)

abbrev left : Server (Unit {0}) (Unit {0})
left = record {
  network = closes.0.1;
  world = left_world.0.1;
  history = history ++ closes.0.1.events;
}

leaves : server_run platform winsock (worker leave ∷ []) replied ≡ some left
unfolding server_run server_step worker_step
leaves = rw (closes.1, closes.2, left_world.1) refl

start-no_reuse_example : accept_clients winsock 1000000 0 1 left.network ≡ some (tt, left.network)
unfolding is_connected
start-no_reuse_example =
    start-no_reuse platform winsock 2 storage sizes tt tt configuration program rounds
      (worker leave ∷ []) replied left 0 1000000
      (record (waiting_client 0) { send_dataqueue = login_reply.content ∷ [] }) starts runs refl
      refl leaves (omega arith)

-- The program with all of its sessions, and a round in which nothing has completed.
hundred :
    (q : Program (Unit {0}) (Unit {0})) × (start winsock max_client storage tt tt configuration
      ≡ some (true, q))
    × IsReady max_client q
hundred = start-IsReady winsock max_client storage tt tt configuration sizes

abbrev nothing : Completion
nothing = record { success = false; io_size = 0; key = none; overlapped = none; recv_buf = [] }

abbrev idled : Server (Unit {0}) (Unit {0})
idled = record hundred.0.server {
  network = record hundred.0.server.network { events = [] };
  history = hundred.0.server.history ++ [];
}

idles : server_run platform winsock (worker nothing ∷ []) hundred.0.server ≡ some idled
unfolding server_run worker_round pure ChatServer.run
idles = refl

abbrev lines : List (List ℕ)
lines = codes "help" ∷ codes "quit" ∷ []

quits : wait_for_quit lines ≡ some []
unfolding wait_for_quit eq_bytes
quits = refl

main-terminated_example :
    (main xml platform winsock 4 storage tt tt (worker nothing ∷ []) lines ≡ some terminated)
    × (end winsock (record hundred.0 { server = idled }) ≡ none)
main-terminated_example =
    main-terminated winsock xml platform 4 storage tt tt (worker nothing ∷ []) lines []
      configuration hundred.0 idled sizes loads_config hundred.1 idles quits

abbrev wsa : Wsa (Unit {0})
wsa = record {
  wsa_startup = λ os. (true, os);
  wsa_socket = λ os. (some 1, os);
  connect = λ socket ip port os. (true, os);
  wsa_create_event = λ os. os;
  wsa_send = λ socket bytes os. (done, os);
  wsa_wait = λ os. os;
  wsa_get_overlapped_result = λ os. (0, os);
  wsa_recv = λ socket size os. (done, [], os);
  closesocket = λ socket os. os;
  wsa_cleanup = λ os. os;
}

abbrev client : List (List ℕ) → IocpClient (Unit {0})
client sent = record {
  client_sock = some 1;
  client_addr = (codes "127.0.0.1", 5000);
  message = replicate 1024 0;
  sent = sent;
  printed = [];
  os = tt;
}

abbrev words : List (List ℕ)
words = codes "hello" ∷ codes "exit" ∷ []

abbrev hello_client : IocpClient (Unit {0})
hello_client = record (client (codes "hello" ∷ [])) {
  message = codes "hello" ++ 0 ∷ zeros 1018;
  printed = codes "hello" ∷ [];
}

says_hello : run_words wsa words (client []) ≡ some (returned hello_client)
unfolding run_words eq_bytes c_string
says_hello = refl

abbrev hello_buffer : PacketBuffer
hello_buffer = record { bytes = codes "hello" ++ zeros 8091; wpos = 5; rpos = 0 }

hello-IsValid : Buffer.IsValid hello_buffer
hello-IsValid = record {
  storage =
      omega (arith, length-append (codes "hello") (zeros 8091), length-replicate {A = ℕ} 8091 0);
  ordered = omega arith;
  within = omega arith;
}

run_words-no_packet_example :
    (q : PacketInfo × PacketBuffer) × (get_packet hello_buffer ≡ some q)
    × (view q ≡ (0, [], codes "hello"))
unfolding eq_bytes
run_words-no_packet_example =
    run_words-no_packet wsa words (client []) (returned hello_client) hello_buffer 5
      (λ socket size os. omega arith) refl
      (
        (omega arith, (omega arith, (omega arith, (omega arith, (omega arith, tt))))),
        ((omega arith, (omega arith, (omega arith, (omega arith, tt)))), tt),
      )
      refl says_hello hello-IsValid refl
