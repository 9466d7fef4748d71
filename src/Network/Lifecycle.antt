-- ===== src/Network/Lifecycle.antt =====
-- LHJSample/ServerNetwork/IOCPServer.cpp: how the server is set up, started and stopped, and the
-- loops of its threads.
use lhjsample.Common.{
  ℕ, zero, suc, ◌+◌, Bool, true, false, not, List, [], ◌∷◌, ◌++◌, map, Option, none, some,
  if◌then◌else◌, length, replicate,
}
use lhjsample.Common.Effect.{Effect, pure, gets, update, ◌>>=◌, ◌>>◌}
use lhjsample.Network.{
  ClientInfo, Winsock, Network, is_connected, call_os, get_client_info, send_msg, send_io,
}
use lhjsample.Network.Server.{Completion, create_client, worker_round, accept_clients}

abbrev pub max_workerthread : ℕ
max_workerthread = 4

-- The members as `IOCPServer()` leaves them; `none` is `INVALID_SOCKET`, and for the port
-- `INVALID_HANDLE_VALUE`, or the null handle after a failure.
abbrev pub new_server : {Os : Type 0} → Os → Network Os
new_server os = record {
  client_infos = [];
  listen_socket = none;
  client_cnt = 0;
  io_worker_threads = [];
  accepter_thread = false;
  iocp_handle = none;
  is_worker_run = true;
  is_accepter_run = true;
  is_sender_run = false;
  send_thread = false;
  os = os;
  events = [];
  posted = [];
}

-- The position of the first session that is not connected, from position `i` on.
unfoldable pub first_empty : ℕ → List ClientInfo → Option ℕ
unfolding is_connected
first_empty i [] = none
first_empty i (c ∷ clients) = if not (is_connected c) then some i else first_empty (i + 1) clients

module _ {Os : Type 0} where
  -- `SendMsg` of the server.
  unfoldable pub send : Winsock Os → ℕ → List ℕ → Effect (Network Os) Bool
  send s session_index p_data = do get_client_info session_index; send_msg s session_index p_data

  -- `GetEmptyClientInfo`; `none` is the null pointer. Nothing calls it.
  unfoldable pub get_empty_client_info : Effect (Network Os) (Option ℕ)
  unfolding first_empty
  get_empty_client_info = gets (λ n. first_empty 0 n.client_infos)

  -- `CreateClient`, `CreateWokerThread` and `CreateAccepterThread`.
  unfoldable pub create_clients : ℕ → Effect (Network Os) (Unit {0})
  unfolding create_client
  create_clients max_client_count =
      update (λ n. record n { client_infos = n.client_infos ++ create_client 0 max_client_count })

  unfoldable pub create_woker_thread : Effect (Network Os) Bool
  create_woker_thread = do
    update (λ n. record n {
      io_worker_threads = n.io_worker_threads ++ replicate max_workerthread true;
    })
    pure true

  unfoldable pub create_accepter_thread : Effect (Network Os) Bool
  create_accepter_thread = do update (λ n. record n { accepter_thread = true }); pure true

  -- `CreateSendThread`. Nothing calls it.
  unfoldable pub create_send_thread : Effect (Network Os) (Unit {0})
  create_send_thread = update (λ n. record n { is_sender_run = true; send_thread = true })

  -- `StartServer`
  unfoldable pub start_server : ℕ → Effect (Network Os) Bool
  unfolding create_clients create_woker_thread create_accepter_thread
  start_server max_client_count = do
    create_clients max_client_count
    workers ← create_woker_thread
    if not workers
        then pure false
        else do accepter ← create_accepter_thread; if not accepter then pure false else pure true

  module _ (s : Winsock Os) where
    -- `InitSocket`
    unfoldable pub init_socket : Effect (Network Os) Bool
    init_socket = do
      started ← call_os s.wsa_startup
      if not started then pure false else do
        socket ← call_os s.wsa_socket
        update (λ n. record n { listen_socket = socket })
        pure (elim socket [ none ↦ false | some handle ↦ true ])

    -- `BindandListen` from the completion port on.
    unfoldable pub open_port : Effect (Network Os) Bool
    open_port = do
      handle ← call_os (s.new_completion_port max_workerthread)
      update (λ n. record n { iocp_handle = handle })
      socket ← gets (λ n. n.listen_socket)
      elim handle [
        | none ↦ pure false
        | some port ↦ call_os (s.bind_listen_socket socket (some port))
      ]

    -- `BindandListen`
    unfoldable pub bind_and_listen : ℕ → Effect (Network Os) Bool
    unfolding open_port
    bind_and_listen n_bind_port = do
      socket ← gets (λ n. n.listen_socket)
      bound ← call_os (s.bind socket n_bind_port)
      if not bound then pure false else do
        listening ← call_os (s.listen socket 5)
        if not listening then pure false else open_port

    -- `DestroyThread`. A join waits until the thread has ended; it is taken to return.
    unfoldable pub destroy_thread : Effect (Network Os) (Unit {0})
    destroy_thread = do
      update (λ n. record n { is_worker_run = false })
      update (λ n. record n { os = s.close_handle n.iocp_handle n.os })
      update (λ n. record n { io_worker_threads = map (λ joinable. false) n.io_worker_threads })
      update (λ n. record n { is_accepter_run = false })
      update (λ n. record n { os = s.close_listener n.listen_socket n.os })
      update (λ n. record n { accepter_thread = false })

    -- `WokerThread` on the completions that `GetQueuedCompletionStatus` gives it.
    unfoldable pub woker_thread : List Completion → Effect (Network Os) (Unit {0})
    woker_thread [] = pure tt
    woker_thread (c ∷ completions) = do
      running ← gets (λ n. n.is_worker_run)
      if running then (worker_round s c >> woker_thread completions) else pure tt

    -- A round of `AccepterThread`, and its loop over the times that it reads.
    unfoldable pub accepter_round : ℕ → Effect (Network Os) (Unit {0})
    accepter_round cur_time_sec = do
      count ← gets (λ n. length n.client_infos)
      accept_clients s cur_time_sec 0 count

    unfoldable pub accepter_loop : List ℕ → Effect (Network Os) (Unit {0})
    unfolding accepter_round
    accepter_loop [] = pure tt
    accepter_loop (cur_time_sec ∷ times) = do
      running ← gets (λ n. n.is_accepter_run)
      if running then (accepter_round cur_time_sec >> accepter_loop times) else pure tt

    -- A round of `SendThread` from session `i` on, with `k` sessions left. The thread is never
    -- created.
    unfoldable pub send_sessions : ℕ → ℕ → Effect (Network Os) (Unit {0})
    send_sessions i zero = pure tt
    send_sessions i (suc k) = do
      c ← get_client_info i
      if is_connected c then (send_io s i >> pure tt) else pure tt
      send_sessions (i + 1) k
