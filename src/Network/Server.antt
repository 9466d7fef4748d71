-- ===== src/Network/Server.antt =====
-- LHJSample/ServerNetwork/IOCPServer.cpp: the rounds of the worker threads and of the accepter.
use lhjsample.Common.{
  ℕ, zero, suc, ◌+◌, ◌-◌, Bool, true, false, List, [], ◌∷◌, ◌++◌, Option, none, some, ◌==◌, ltb,
  leb, not, ◌&&◌, if◌then◌else◌, take,
}
use lhjsample.Common.Effect.{Effect, pure, lift, update, ◌>>=◌, ◌>>◌}
use lhjsample.ChatServer.{Event, connect, receive}
use lhjsample.ChatServer
use lhjsample.Network.{
  IoOperation, accept, recv, send, ClientInfo, Winsock, Network, re_use_session_wait_timesec,
  init_client, is_connected, get_client_info, bind_recv, accept_completion, post_accept, close,
  send_completed,
}

-- What `GetQueuedCompletionStatus` returns: `bSuccess`, `dwIoSize`, the client of the completion
-- key, the overlapped structure's operation and session if there is one, and the client's
-- `mRecvBuf` at this time. `key` is `none` for the null pointer: `BindandListen` gives the listening
-- socket the key 0, which the completions of `AcceptEx` carry.
pub record Completion : Type 0 where
  pub success : Bool
  pub io_size : ℕ
  pub key : Option ℕ
  pub overlapped : Option (IoOperation × ℕ)
  pub recv_buf : List ℕ

-- The loop of `CreateClient` from client `i` on, with `n` clients left to make.
unfoldable pub create_client : ℕ → ℕ → List ClientInfo
create_client i zero = []
create_client i (suc n) = init_client i ∷ create_client (i + 1) n

unfoldable pub is_accept : IoOperation → Bool
is_accept accept = true
is_accept _ = false

-- The tests of the accepter: whether a client is to wait for a connection.
unfoldable pub is_acceptable : ℕ → ClientInfo → Bool
unfolding is_connected
is_acceptable cur_time_sec c =
    not (is_connected c)
    && not (ltb cur_time_sec c.latest_closed_time_sec)
    && not (leb (cur_time_sec - c.latest_closed_time_sec) re_use_session_wait_timesec)

module _ {Os : Type 0} where
  unfoldable pub record_event : Event → Effect (Network Os) (Unit {0})
  record_event e = update (λ n. record n { events = n.events ++ e ∷ [] })

  module _ (s : Winsock Os) where
    -- `CloseSocket`
    unfoldable pub close_socket : ℕ → Bool → Effect (Network Os) (Unit {0})
    unfolding record_event
    close_socket i is_force = do
      c ← get_client_info i
      close s i is_force
      record_event (ChatServer.close c.index)

    -- `CloseSocket(pClientInfo)` with the client of the completion key; the null pointer faults.
    unfoldable pub close_key : Option ℕ → Effect (Network Os) (Unit {0})
    unfolding close_socket
    close_key key = do i ← lift key; close_socket i false

    -- `WokerThread` behind `AcceptCompletion`.
    unfoldable pub accepted_round : ℕ → ClientInfo → Bool → Effect (Network Os) (Unit {0})
    unfolding close_socket
    accepted_round session client true = do
      update (λ n. record n { client_cnt = n.client_cnt + 1 })
      record_event (connect client.index)
    accepted_round session client false = close_socket session true

    -- `WokerThread` on a completed accept, receive or send.
    unfoldable pub completed : IoOperation → ℕ → Completion → Effect (Network Os) (Unit {0})
    unfolding accepted_round
    completed accept session c = do
      client ← get_client_info session
      accepted ← accept_completion s session
      accepted_round session client accepted
    completed recv session c = do
      i ← lift c.key
      client ← get_client_info i
      record_event (receive client.index (take c.io_size c.recv_buf))
      bind_recv s i
      pure tt
    completed send session c = do i ← lift c.key; send_completed s i

    unfoldable pub overlapped_round :
        Option (IoOperation × ℕ) → Completion → Effect (Network Os) (Unit {0})
    unfolding completed close_key is_accept
    overlapped_round none c =
        if c.success && (c.io_size == 0)
        then update (λ n. record n { is_worker_run = false })
        else pure tt
    overlapped_round (some (operation, session)) c =
        if not c.success
        then close_key c.key
        else if (c.io_size == 0) && not (is_accept operation)
        then close_key c.key
        else completed operation session c

    -- A round of `WokerThread`.
    unfoldable pub worker_round : Completion → Effect (Network Os) (Unit {0})
    unfolding overlapped_round
    worker_round c = overlapped_round c.overlapped c

    -- The loop of a round of `AccepterThread` from client `i` on, with `k` clients left.
    unfoldable pub accept_clients : ℕ → ℕ → ℕ → Effect (Network Os) (Unit {0})
    unfolding is_acceptable
    accept_clients cur_time_sec i zero = pure tt
    accept_clients cur_time_sec i (suc k) = do
      c ← get_client_info i
      if is_acceptable cur_time_sec c then (post_accept s i >> pure tt) else pure tt
      accept_clients cur_time_sec (i + 1) k
