-- ===== src/Network/Events.antt =====
-- The calls of the derived class that a worker thread makes.
use lhjsample.Common.{ℕ, List, [], ◌∷◌, ◌++◌, Bool, true, false, ◌&&◌, Option, some, none, ◌==◌}
use lhjsample.Common.Effect.Keeps.{
  Keeps, keeps_rules, Keeps-pure, Keeps-lift, Keeps-gets, Keeps-if, Keeps-bind, Keeps-update,
}
use lhjsample.ChatServer.{Event, round}
use lhjsample.Network.{
  ClientInfo, IoOperation, Winsock, Network, accept, recv, send, get_client_info, put_client,
  call_os, bind_recv, accept_completion, close, post_front, send_io, send_rest, pop_front,
  send_completed,
}
use lhjsample.Network.Server.{
  Completion, record_event, close_socket, close_key, accepted_round, completed, overlapped_round,
  worker_round,
}

-- A call of `OnConnect`, `OnClose` or `OnReceive`, not a round of the packet thread.
abbrev pub IsIo : Event → Type 0
IsIo round = ⊥
IsIo _ = Unit

abbrev pub AllIo : List Event → Type 0
AllIo [] = Unit
AllIo (e ∷ es) = IsIo e × AllIo es

AllIo-snoc : (es : List Event) (e : Event) → AllIo es → IsIo e → AllIo (es ++ e ∷ [])
AllIo-snoc [] e h k = (k, tt)
AllIo-snoc (x ∷ es) e (a, h) k = (a, AllIo-snoc es e h k)

module _ {Os : Type 0} (s : Winsock Os) where
  abbrev pub Io : Network Os → Type 0
  Io n = AllIo n.events

  get_client_info-Io : (j : ℕ) → Keeps Io (get_client_info j)
  unfolding get_client_info
  get_client_info-Io j = search keeps_rules

  put_client-Io : (j : ℕ) (c : ClientInfo) → Keeps Io (put_client j c)
  unfolding put_client
  put_client-Io j c = Keeps-update _ λ n h. h

  call_os-Io : {A : Type 0} → (call : Os → A × Os) → Keeps Io (call_os call)
  unfolding call_os
  call_os-Io call =
      Keeps-bind _ _ (Keeps-gets _)
        λ r. Keeps-bind _ _ (Keeps-update _ (λ n h. h)) λ _. Keeps-pure r.0

  bind_recv-Io : (j : ℕ) → Keeps Io (bind_recv s j)
  unfolding bind_recv
  bind_recv-Io j = search (keeps_rules, get_client_info-Io, call_os-Io)

  accept_completion-Io : (j : ℕ) → Keeps Io (accept_completion s j)
  unfolding accept_completion
  accept_completion-Io j = search (keeps_rules, get_client_info-Io, call_os-Io, bind_recv-Io)

  close-Io : (j : ℕ) (is_force : Bool) → Keeps Io (close s j is_force)
  unfolding close
  close-Io j is_force =
      Keeps-bind _ _ (get_client_info-Io j)
        λ c. Keeps-bind _ _ (Keeps-update _ (λ n h. h)) λ _. put_client-Io j _

  post_front-Io :
      (j : ℕ) (c : ClientInfo) (front : Option (List ℕ)) → Keeps Io (post_front s j c front)
  unfolding post_front
  post_front-Io j c front =
      Keeps-bind _ _ (Keeps-lift front)
        λ m. Keeps-bind _ _ (Keeps-update _ (λ n h. h)) λ _. call_os-Io _

  send_io-Io : (j : ℕ) → Keeps Io (send_io s j)
  unfolding send_io
  send_io-Io j = search (keeps_rules, get_client_info-Io, post_front-Io)

  send_rest-Io : (j : ℕ) (queue : List (List ℕ)) → Keeps Io (send_rest s j queue)
  unfolding send_rest
  send_rest-Io j [] = Keeps-pure tt
  send_rest-Io j (m ∷ queue) = search (keeps_rules, send_io-Io)

  pop_front-Io : (j : ℕ) (c : ClientInfo) (queue : List (List ℕ)) → Keeps Io (pop_front s j c queue)
  unfolding pop_front
  pop_front-Io j c [] = Keeps-lift none
  pop_front-Io j c (m ∷ queue) = search (keeps_rules, put_client-Io, send_rest-Io)

  send_completed-Io : (j : ℕ) → Keeps Io (send_completed s j)
  unfolding send_completed
  send_completed-Io j = search (keeps_rules, get_client_info-Io, pop_front-Io)

  record_event-Io : (e : Event) → IsIo e → Keeps Io (record_event e)
  unfolding record_event
  record_event-Io e k = Keeps-update _ λ n h. AllIo-snoc n.events e h k

  close_socket-Io : (j : ℕ) (is_force : Bool) → Keeps Io (close_socket s j is_force)
  unfolding close_socket
  close_socket-Io j is_force =
      Keeps-bind _ _ (get_client_info-Io j)
        λ c. Keeps-bind _ _ (close-Io j is_force) λ _. record_event-Io _ tt

  close_key-Io : (key : Option ℕ) → Keeps Io (close_key s key)
  unfolding close_key
  close_key-Io key = Keeps-bind _ _ (Keeps-lift key) λ i. close_socket-Io i false

  accepted_round-Io :
      (j : ℕ) (client : ClientInfo) (accepted : Bool)
      → Keeps Io (accepted_round s j client accepted)
  unfolding accepted_round
  accepted_round-Io j client true =
      Keeps-bind _ _ (Keeps-update _ (λ n h. h)) λ _. record_event-Io _ tt
  accepted_round-Io j client false = close_socket-Io j true

  completed-Io :
      (operation : IoOperation) (session : ℕ) (c : Completion)
      → Keeps Io (completed s operation session c)
  unfolding completed
  completed-Io accept session c = Keeps-bind _ _ (get_client_info-Io session) λ client.
      Keeps-bind _ _ (accept_completion-Io session)
        λ accepted. accepted_round-Io session client accepted
  completed-Io recv session c = Keeps-bind _ _ (Keeps-lift c.key) λ i.
      Keeps-bind _ _ (get_client_info-Io i) λ client.
        Keeps-bind _ _ (record_event-Io _ tt)
          λ _. Keeps-bind _ _ (bind_recv-Io i) λ _. Keeps-pure tt
  completed-Io send session c = Keeps-bind _ _ (Keeps-lift c.key) λ i. send_completed-Io i

  overlapped_round-Io :
      (overlapped : Option (IoOperation × ℕ)) (c : Completion)
      → Keeps Io (overlapped_round s overlapped c)
  unfolding overlapped_round
  overlapped_round-Io none c =
      Keeps-if (Keeps-update (λ (n : Network Os). record n { is_worker_run = false }) (λ n h. h))
        (Keeps-pure tt) (c.success && (c.io_size == 0))
  overlapped_round-Io (some (operation, session)) c =
      Keeps-if (close_key-Io c.key)
        (Keeps-if (close_key-Io c.key) (completed-Io operation session c) _) _

  -- A worker thread calls `OnConnect`, `OnClose` and `OnReceive`, and nothing else of the server.
  pub worker_round-Io : (c : Completion) → Keeps Io (worker_round s c)
  unfolding worker_round
  worker_round-Io c = overlapped_round-Io c.overlapped c
