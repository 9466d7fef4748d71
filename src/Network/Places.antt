-- ===== src/Network/Places.antt =====
-- Which clients the threads of the sessions name when they call the derived class, and which
-- sessions carry the time of `PostAccept`.
use lhjsample.Common.{
  ℕ, zero, suc, ◌+◌, ◌<◌, ◌≡◌, refl, ◌⊎◌, sym, ap, ◌∙◌, subst, inl, inr, List, [], ◌∷◌, ◌++◌, Bool,
  true, false, ◌&&◌, Option, some, none, length, get_elem?, ◌==◌, arith, get_elem?-lt,
  get_elem?-set_cases, length-set,
}
use lhjsample.Common.Effect.{Effect, ◌>>=◌}
use lhjsample.Common.Effect.Keeps.{
  Keeps, Keeps-pure, Keeps-lift, Keeps-gets, Keeps-if, Keeps-bind, Keeps-update, >>=-eq-some,
}
use lhjsample.ChatServer.{Event, connect, receive, round}
use lhjsample.ChatServer
use lhjsample.Network.{
  ClientInfo, IoOperation, Winsock, Network, accept, recv, send, get_client_info, put_client,
  call_os, bind_recv, accept_completion, post_accept, post_accept_on, close, post_front, send_io,
  send_msg, send_rest, pop_front, send_completed, is_connected, uint32_max,
}
use lhjsample.Network.Kept.{get_client_info-reads}
use lhjsample.Network.Server.{
  Completion, record_event, close_socket, close_key, accepted_round, completed, overlapped_round,
  worker_round, accept_clients,
}

-- A call that names one of the first `k` clients, or none.
abbrev pub Names : ℕ → Event → Type 0
Names k (connect i) = i < k
Names k (ChatServer.close i) = i < k
Names k (receive i p_data) = i < k
Names k round = Unit

abbrev pub AllName : ℕ → List Event → Type 0
AllName k [] = Unit
AllName k (e ∷ es) = Names k e × AllName k es

pub AllName-append :
    (k : ℕ) (es later : List Event) → AllName k es → AllName k later → AllName k (es ++ later)
AllName-append k [] later h l = l
AllName-append k (e ∷ es) later (a, h) l = (a, AllName-append k es later h l)

-- A session that is connected, or is one of the used, has the time that `PostAccept` writes.
abbrev pub IsMarked : (ℕ → Type 0) → ℕ → ClientInfo → Type 0
IsMarked used j c = (is_connected c ≡ true) ⊎ used j → c.latest_closed_time_sec ≡ uint32_max

pub unconnected-IsMarked : (i : ℕ) (c : ClientInfo) → is_connected c ≡ false → IsMarked (λ j. ⊥) i c
unconnected-IsMarked i c closed (inl connected) = absurd (ground arith)
unconnected-IsMarked i c closed (inr impossible) = absurd impossible

module _ {Os : Type 0} (s : Winsock Os) (k : ℕ) (used : ℕ → Type 0) where
  -- There are `k` sessions, each knows its position and is marked if it is one of the used, and the
  -- calls so far name such positions.
  pub record Placed (n : Network Os) : Type 0 where
    pub count : length n.client_infos ≡ k
    pub indexed : (i : ℕ) (c : ClientInfo) → get_elem? n.client_infos i ≡ some c → c.index ≡ i
    pub marked : (i : ℕ) (c : ClientInfo) → get_elem? n.client_infos i ≡ some c → IsMarked used i c
    pub calls : AllName k n.events

  -- A session that is read is at its position.
  pub Placed-get :
      {A : Type 0}
      → (j : ℕ) (next : ClientInfo → Effect (Network Os) A)
      → ((c : ClientInfo) → c.index ≡ j → IsMarked used j c → j < k → Keeps Placed (next c))
      → Keeps Placed (get_client_info j >>= next)
  Placed-get j next keeps = record {
    at = λ n q h e.
        let (a, e1, e2) = >>=-eq-some (get_client_info j) next n q e in
        let (found, same) = get_client_info-reads s j n a e1 in
        (keeps a.0 (h.indexed j a.0 found) (h.marked j a.0 found)
            (omega (arith, get_elem?-lt n.client_infos j found, h.count))).at
          a.1 q (subst Placed (sym same) h) e2;
  }

  put_client-Placed :
      (j : ℕ) (c : ClientInfo) → c.index ≡ j → IsMarked used j c → Keeps Placed (put_client j c)
  unfolding put_client
  put_client-Placed j c place marks = Keeps-update _ λ n h. record {
    count = length-set n.client_infos j c ∙ h.count;
    indexed = λ i x at. elim (get_elem?-set_cases n.client_infos j i c x at) [
      | inl (here, same) ↦ ap (λ (y : ClientInfo). y.index) (sym same) ∙ place ∙ here
      | inr (other, old) ↦ h.indexed i x old
    ];
    marked = λ i x at. elim (get_elem?-set_cases n.client_infos j i c x at) [
      | inl (here, same) ↦ subst (IsMarked used i) same (subst (λ m. IsMarked used m c) here marks)
      | inr (other, old) ↦ h.marked i x old
    ];
    calls = h.calls;
  }

  call_os-Placed : {A : Type 0} → (call : Os → A × Os) → Keeps Placed (call_os call)
  unfolding call_os
  call_os-Placed call = Keeps-bind _ _ (Keeps-gets _) λ r.
      Keeps-bind _ _
        (Keeps-update _ (λ n h. record {
          count = h.count;
          indexed = h.indexed;
          marked = h.marked;
          calls = h.calls;
        }))
        λ _. Keeps-pure r.0

  record_event-Placed : (e : Event) → Names k e → Keeps Placed (record_event e)
  unfolding record_event
  record_event-Placed e name = Keeps-update _ λ n h. record {
    count = h.count;
    indexed = h.indexed;
    marked = h.marked;
    calls = AllName-append k n.events (e ∷ []) h.calls (name, tt);
  }

  bind_recv-Placed : (j : ℕ) → Keeps Placed (bind_recv s j)
  unfolding bind_recv
  bind_recv-Placed j = Placed-get j _ λ c place marked below. call_os-Placed _

  accept_completion-Placed : (j : ℕ) → Keeps Placed (accept_completion s j)
  unfolding accept_completion
  accept_completion-Placed j = Placed-get j _ λ c place marked below.
      Keeps-bind _ _ (call_os-Placed _)
        λ bound. Keeps-if (bind_recv-Placed j) (Keeps-pure false) bound

  post_accept_on-Placed : (j : ℕ) (socket : Option ℕ) → Keeps Placed (post_accept_on s j socket)
  unfolding post_accept_on
  post_accept_on-Placed j none = Keeps-pure _
  post_accept_on-Placed j (some socket) = call_os-Placed _

  post_accept-Placed : (j : ℕ) → Keeps Placed (post_accept s j)
  unfolding post_accept
  post_accept-Placed j = Placed-get j _ λ c place marked below.
      Keeps-bind _ _ (call_os-Placed _) λ socket.
        Keeps-bind _ _ (put_client-Placed j _ place (λ _. refl)) λ _. post_accept_on-Placed j socket

  -- A closed session is not connected.
  closed_used : (j : ℕ) (c : ClientInfo) → c.sock ≡ none → (is_connected c ≡ true) ⊎ used j → used j
  unfolding is_connected
  closed_used j c closed (inl connected) = absurd (ground arith)
  closed_used j c closed (inr one) = one

  close-Placed : (j : ℕ) (is_force : Bool) → Keeps Placed (close s j is_force)
  unfolding close
  close-Placed j is_force = Placed-get j _ λ c place marked below.
      Keeps-bind _ _
        (Keeps-update _ (λ n h. record {
          count = h.count;
          indexed = h.indexed;
          marked = h.marked;
          calls = h.calls;
        }))
        λ _. put_client-Placed j _ place (λ x. marked (inr (closed_used j _ refl x)))

  post_front-Placed :
      (j : ℕ) (c : ClientInfo) (front : Option (List ℕ)) → Keeps Placed (post_front s j c front)
  unfolding post_front
  post_front-Placed j c front = Keeps-bind _ _ (Keeps-lift front) λ m.
      Keeps-bind _ _
        (Keeps-update _ (λ n h. record {
          count = h.count;
          indexed = h.indexed;
          marked = h.marked;
          calls = h.calls;
        }))
        λ _. call_os-Placed _

  send_io-Placed : (j : ℕ) → Keeps Placed (send_io s j)
  unfolding send_io
  send_io-Placed j = Placed-get j _ λ c place marked below. post_front-Placed j c _

  pub send_msg-Placed : (j : ℕ) (m : List ℕ) → Keeps Placed (send_msg s j m)
  unfolding send_msg is_connected
  send_msg-Placed j m = Placed-get j _ λ c place marked below.
      Keeps-bind _ _
        (put_client-Placed j (record c { send_dataqueue = c.send_dataqueue ++ m ∷ [] }) place
          marked)
        λ _. Keeps-if (Keeps-bind _ _ (send_io-Placed j) λ _. Keeps-pure true) (Keeps-pure true) _

  send_rest-Placed : (j : ℕ) (queue : List (List ℕ)) → Keeps Placed (send_rest s j queue)
  unfolding send_rest
  send_rest-Placed j [] = Keeps-pure tt
  send_rest-Placed j (m ∷ queue) = Keeps-bind _ _ (send_io-Placed j) λ _. Keeps-pure tt

  pop_front-Placed :
      (j : ℕ) (c : ClientInfo) (queue : List (List ℕ))
      → c.index ≡ j
      → IsMarked used j c
      → Keeps Placed (pop_front s j c queue)
  unfolding pop_front is_connected
  pop_front-Placed j c [] place marked = Keeps-lift none
  pop_front-Placed j c (m ∷ queue) place marked =
      Keeps-bind _ _ (put_client-Placed j (record c { send_dataqueue = queue }) place marked)
        λ _. send_rest-Placed j queue

  close_socket-Placed : (j : ℕ) (is_force : Bool) → Keeps Placed (close_socket s j is_force)
  unfolding close_socket
  close_socket-Placed j is_force = Placed-get j _ λ c place marked below.
      Keeps-bind _ _ (close-Placed j is_force)
        λ _. record_event-Placed _ (subst (λ i. i < k) (sym place) below)

  close_key-Placed : (key : Option ℕ) → Keeps Placed (close_key s key)
  unfolding close_key
  close_key-Placed key = Keeps-bind _ _ (Keeps-lift key) λ i. close_socket-Placed i false

  accepted_round-Placed :
      (j : ℕ) (client : ClientInfo) (accepted : Bool)
      → client.index < k
      → Keeps Placed (accepted_round s j client accepted)
  unfolding accepted_round
  accepted_round-Placed j client true below =
      Keeps-bind _ _
        (Keeps-update _ (λ n h. record {
          count = h.count;
          indexed = h.indexed;
          marked = h.marked;
          calls = h.calls;
        }))
        λ _. record_event-Placed _ below
  accepted_round-Placed j client false below = close_socket-Placed j true

  completed-Placed :
      (operation : IoOperation) (session : ℕ) (c : Completion)
      → Keeps Placed (completed s operation session c)
  unfolding completed send_completed
  completed-Placed accept session c = Placed-get session _ λ client place marked below.
      Keeps-bind _ _ (accept_completion-Placed session) λ accepted.
        accepted_round-Placed session client accepted (subst (λ i. i < k) (sym place) below)
  completed-Placed recv session c = Keeps-bind _ _ (Keeps-lift c.key) λ i.
      Placed-get i _ λ client place marked below.
        Keeps-bind _ _ (record_event-Placed _ (subst (λ i. i < k) (sym place) below))
          λ _. Keeps-bind _ _ (bind_recv-Placed i) λ _. Keeps-pure tt
  completed-Placed send session c =
      Keeps-bind _ _ (Keeps-lift c.key)
        λ i. Placed-get i _ λ client place marked below. pop_front-Placed i client _ place marked

  overlapped_round-Placed :
      (overlapped : Option (IoOperation × ℕ)) (c : Completion)
      → Keeps Placed (overlapped_round s overlapped c)
  unfolding overlapped_round
  overlapped_round-Placed none c =
      Keeps-if
        (Keeps-update (λ (n : Network Os). record n { is_worker_run = false })
          (λ n h. record {
            count = h.count;
            indexed = h.indexed;
            marked = h.marked;
            calls = h.calls;
          }))
        (Keeps-pure tt) (c.success && (c.io_size == 0))
  overlapped_round-Placed (some (operation, session)) c =
      Keeps-if (close_key-Placed c.key)
        (Keeps-if (close_key-Placed c.key) (completed-Placed operation session c) _) _

  -- A round of a worker thread names only sessions that there are.
  pub worker_round-Placed : (c : Completion) → Keeps Placed (worker_round s c)
  unfolding worker_round
  worker_round-Placed c = overlapped_round-Placed c.overlapped c

  pub accept_clients-Placed : (time j m : ℕ) → Keeps Placed (accept_clients s time j m)
  unfolding accept_clients
  accept_clients-Placed time j zero = Keeps-pure tt
  accept_clients-Placed time j (suc m) = Placed-get j _ λ c place marked below.
      Keeps-bind _ _
        (Keeps-if (Keeps-bind _ _ (post_accept-Placed j) λ _. Keeps-pure tt) (Keeps-pure tt) _)
        λ _. accept_clients-Placed time (j + 1) m
