-- ===== src/Network.antt =====
-- LHJSample/ServerNetwork/ClientInfo.h, ClientInfo.cpp and Define.h: the sessions. The calls into
-- Winsock are the parameter `Winsock`; `Os` is what the system keeps. What the server's threads
-- call on the derived `ChatServer` is recorded as events, the latest last.
pub mod Server
pub mod Lifecycle
pub mod Kept
pub mod Ordered
pub mod Events
pub mod Places
pub mod Total
pub mod Calls
pub mod Sending
pub mod SendQueue
pub mod Reuse
use lhjsample.Common.{
  ℕ, ◌-◌, ◌^◌, Bool, true, false, List, [], ◌∷◌, ◌++◌, Option, none, some, ◌==◌, if◌then◌else◌,
  get_elem?, set, length, take,
}
use lhjsample.Common.Effect.{Effect, pure, lift, gets, update, ◌>>=◌, ◌>>◌}
use lhjsample.ChatServer.{Event}

-- `enum class IOOperation`
pub data IoOperation : Type 0 where
  accept recv send : IoOperation

abbrev pub max_sockbuf : ℕ
max_sockbuf = 256

abbrev pub re_use_session_wait_timesec : ℕ
re_use_session_wait_timesec = 3

abbrev pub uint32_max : ℕ
uint32_max = 2 ^ 32 - 1

-- `sock` is `none` for `INVALID_SOCKET`. `mIsConnect` is never used. Of an entry of
-- `mSendDataqueue` the bytes of its buffer are kept.
pub record ClientInfo : Type 0 where
  pub index : ℕ
  pub latest_closed_time_sec : ℕ
  pub sock : Option ℕ
  pub send_dataqueue : List (List ℕ)

-- The calls into Winsock, each with whether the code takes its answer for a success; an operation
-- that is pending counts as one. `wsa_send` gets the bytes of the buffer.
pub record Winsock (Os : Type 0) : Type 0 where
  pub wsa_startup : Os → Bool × Os
  pub bind : Option ℕ → ℕ → Os → Bool × Os
  pub listen : Option ℕ → ℕ → Os → Bool × Os
  pub new_completion_port : ℕ → Os → Option ℕ × Os
  pub bind_listen_socket : Option ℕ → Option ℕ → Os → Bool × Os
  pub close_handle : Option ℕ → Os → Os
  pub close_listener : Option ℕ → Os → Os
  pub wsa_socket : Os → Option ℕ × Os
  pub accept_ex : Option ℕ → ℕ → Os → Bool × Os
  pub create_io_completion_port : Option ℕ → Os → Bool × Os
  pub wsa_recv : Option ℕ → Os → Bool × Os
  pub wsa_send : Option ℕ → List ℕ → Os → Bool × Os
  pub close : Option ℕ → Bool → Os → Os

-- The members of `IOCPServer`, the system, and the calls of `OnConnect`, `OnClose` and `OnReceive`.
-- `posted` records the calls of `WSASend` by session. Of a thread it is kept whether it can still
-- be joined. `mSocketBuf` is never used.
pub record Network (Os : Type 0) : Type 0 where
  pub client_infos : List ClientInfo
  pub listen_socket : Option ℕ
  pub client_cnt : ℕ
  pub io_worker_threads : List Bool
  pub accepter_thread : Bool
  pub iocp_handle : Option ℕ
  pub is_worker_run : Bool
  pub is_accepter_run : Bool
  pub is_sender_run : Bool
  pub send_thread : Bool
  pub os : Os
  pub events : List Event
  pub posted : List (ℕ × List ℕ)

-- `ClientInfo()` and `Init`
unfoldable pub init_client : ℕ → ClientInfo
init_client index = record {
  index = index;
  latest_closed_time_sec = 0;
  sock = none;
  send_dataqueue = [];
}

-- `IsConnected`
unfoldable pub is_connected : ClientInfo → Bool
is_connected c = elim c.sock [ none ↦ false | some socket ↦ true ]

module _ {Os : Type 0} where
  -- `GetClientInfo`, and any use of a `ClientInfo*`.
  unfoldable pub get_client_info : ℕ → Effect (Network Os) ClientInfo
  get_client_info i = do clients ← gets (λ n. n.client_infos); lift (get_elem? clients i)

  unfoldable pub put_client : ℕ → ClientInfo → Effect (Network Os) (Unit {0})
  put_client i c = update (λ n. record n { client_infos = set n.client_infos i c })

  -- A call into the system.
  unfoldable pub call_os : {A : Type 0} → (Os → A × Os) → Effect (Network Os) A
  call_os call = do
    (answer, after) ← gets (λ n. call n.os)
    update (λ n. record n { os = after })
    pure answer

  module _ (s : Winsock Os) where
    -- `BindRecv`
    unfoldable pub bind_recv : ℕ → Effect (Network Os) Bool
    unfolding get_client_info call_os
    bind_recv i = do c ← get_client_info i; call_os (s.wsa_recv c.sock)

    -- `BindIOCompletionPort`
    abbrev pub bind_io_completion_port : ClientInfo → Effect (Network Os) Bool
    bind_io_completion_port c = call_os (s.create_io_completion_port c.sock)

    -- `ClientInfo::OnConnect`, with the socket of the session itself; `Clear` does nothing.
    abbrev pub on_connect : ℕ → ClientInfo → Effect (Network Os) Bool
    on_connect i c = do bound ← bind_io_completion_port c; if bound then bind_recv i else pure false

    -- `AcceptCompletion`
    unfoldable pub accept_completion : ℕ → Effect (Network Os) Bool
    accept_completion i = do c ← get_client_info i; on_connect i c

    -- `PostAccept` behind the test of the new socket.
    unfoldable pub post_accept_on : ℕ → Option ℕ → Effect (Network Os) Bool
    post_accept_on i none = pure false
    post_accept_on i (some socket) = call_os (s.accept_ex (some socket) i)

    -- `PostAccept`; `curTimeSec_` is not used.
    unfoldable pub post_accept : ℕ → Effect (Network Os) Bool
    unfolding post_accept_on put_client
    post_accept i = do
      c ← get_client_info i
      socket ← call_os s.wsa_socket
      put_client i (record c { latest_closed_time_sec = uint32_max; sock = socket })
      post_accept_on i socket

    -- `Close`
    unfoldable pub close : ℕ → Bool → Effect (Network Os) (Unit {0})
    unfolding put_client
    close i is_force = do
      c ← get_client_info i
      update (λ n. record n { os = s.close c.sock is_force n.os })
      put_client i (record c { sock = none })

    -- `WSASend` on the front of the queue.
    unfoldable pub post_front : ℕ → ClientInfo → Option (List ℕ) → Effect (Network Os) Bool
    post_front i c front = do
      bytes ← lift front
      update (λ n. record n { posted = n.posted ++ (i, bytes) ∷ [] })
      call_os (s.wsa_send c.sock bytes)

    -- `SendIO`; the front of an empty queue cannot be read.
    unfoldable pub send_io : ℕ → Effect (Network Os) Bool
    unfolding post_front
    send_io i = do c ← get_client_info i; post_front i c (get_elem? c.send_dataqueue 0)

    -- `SendMsg`; the list is the `dataSize_` bytes at `pMsg_`.
    unfoldable pub send_msg : ℕ → List ℕ → Effect (Network Os) Bool
    unfolding send_io put_client
    send_msg i msg = do
      c ← get_client_info i
      put_client i (record c { send_dataqueue = c.send_dataqueue ++ msg ∷ [] })
      if length c.send_dataqueue == 0 then (send_io i >> pure true) else pure true

    -- `SendCompleted` behind `pop`.
    unfoldable pub send_rest : ℕ → List (List ℕ) → Effect (Network Os) (Unit {0})
    unfolding send_io
    send_rest i [] = pure tt
    send_rest i (next ∷ rest) = send_io i >> pure tt

    unfoldable pub pop_front : ℕ → ClientInfo → List (List ℕ) → Effect (Network Os) (Unit {0})
    unfolding send_rest
    pop_front i c [] = lift none
    pop_front i c (sent ∷ rest) = do
      put_client i (record c { send_dataqueue = rest })
      send_rest i rest

    -- `SendCompleted`; an empty queue has no front to delete.
    unfoldable pub send_completed : ℕ → Effect (Network Os) (Unit {0})
    unfolding pop_front
    send_completed i = do c ← get_client_info i; pop_front i c c.send_dataqueue
