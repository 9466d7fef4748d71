-- ===== src/Invariants/Histories.antt =====
-- The steps of the threads, and whole histories, keep an invariant that the primitives keep.
use lhjsample.Common.{ℕ, subst, sym, List, [], ◌∷◌, Option, none, some}
use lhjsample.Common.Effect.Keeps.{Keeps, keeps_rules, Keeps-pure, Keeps-lift, Keeps-bind}
use lhjsample.Packet.{PacketId}
use lhjsample.User.Buffer.{PacketInfo}
use lhjsample.World.{World, Platform}
use lhjsample.Session.{call_handler}
use lhjsample.PacketManager.{
  Method, process_user_connect, process_user_disconnect, process_request, enqueue_packet_data,
  receive_packet_data, push_system_packet, deque_from, deque_packet_data, deque_system_from,
  deque_system_packet_data, user_connect, clear_connection_info, user_request, call_method,
  process_recv_packet, process_client_packet, process_system_packet, process_packet,
}
use lhjsample.ChatServer.{
  Event, connect, close, receive, round, on_connect, on_close, on_receive, step, run,
}
use lhjsample.Invariants.Interface.{Invariant}
use lhjsample.Invariants.Handlers.{get_user-Keeps, Keeps-bind-user, call_handler-Keeps}

module _ {Db : Type 0} (p : Platform Db) {P : World Db → Type 0} (inv : Invariant p P) where
  open inv use {queues, stores, fetches, connects, clears, deletes}

  user_request-Keeps :
      (id : PacketId) (i size : ℕ) (q : Option ℕ) → Keeps P (user_request p id i size q)
  unfolding user_request
  user_request-Keeps id i size q = Keeps-bind-user p inv i _ λ u at.
      Keeps-bind _ _ (Keeps-lift _) λ h.
        subst (λ (c : ℕ). Keeps P (call_handler p i c h size q)) (sym at)
          (call_handler-Keeps p inv i size h q)

  user_connect-Keeps : (i : ℕ) → Keeps P (user_connect i)
  unfolding user_connect
  user_connect-Keeps i = search (keeps_rules, clears, connects)

  clear_connection_info-Keeps : (i : ℕ) → Keeps P (clear_connection_info i)
  unfolding clear_connection_info
  clear_connection_info-Keeps i = search (keeps_rules, get_user-Keeps, deletes)

  call_method-Keeps :
      (m : Option Method) (i size : ℕ) (q : Option ℕ) → Keeps P (call_method p m i size q)
  unfolding call_method
  call_method-Keeps none i size q = Keeps-pure tt
  call_method-Keeps (some process_user_connect) i size q = user_connect-Keeps i
  call_method-Keeps (some process_user_disconnect) i size q = clear_connection_info-Keeps i
  call_method-Keeps (some (process_request id)) i size q = user_request-Keeps id i size q

  process_recv_packet-Keeps : (packet : PacketInfo) → Keeps P (process_recv_packet p packet)
  unfolding process_recv_packet
  process_recv_packet-Keeps packet = call_method-Keeps _ _ _ _

  deque_from-Keeps : (queue : List ℕ) → Keeps P (deque_from queue)
  unfolding deque_from
  deque_from-Keeps [] = Keeps-pure _
  deque_from-Keeps (i ∷ rest) = Keeps-bind _ _ (queues _) λ _. fetches i

  deque_packet_data-Keeps : Keeps P deque_packet_data
  unfolding deque_packet_data
  deque_packet_data-Keeps = search (keeps_rules, deque_from-Keeps)

  deque_system_from-Keeps : (queue : List PacketInfo) → Keeps P (deque_system_from queue)
  unfolding deque_system_from
  deque_system_from-Keeps [] = Keeps-pure _
  deque_system_from-Keeps (packet ∷ rest) = Keeps-bind _ _ (queues _) λ _. Keeps-pure packet

  deque_system_packet_data-Keeps : Keeps P deque_system_packet_data
  unfolding deque_system_packet_data
  deque_system_packet_data-Keeps = search (keeps_rules, deque_system_from-Keeps)

  process_packet-Keeps : Keeps P (process_packet p)
  unfolding process_packet process_client_packet process_system_packet
  process_packet-Keeps =
      search
        (
          keeps_rules, deque_packet_data-Keeps, deque_system_packet_data-Keeps,
          process_recv_packet-Keeps,
        )
        depth 9

  pub step-Keeps : (e : Event) → Keeps P (step p e)
  unfolding step on_connect on_close on_receive push_system_packet receive_packet_data
      enqueue_packet_data
  step-Keeps (connect i) = queues _
  step-Keeps (close i) = queues _
  step-Keeps (receive i p_data) = Keeps-bind _ _ (stores i p_data) λ _. queues _
  step-Keeps round = process_packet-Keeps

  pub run-Keeps : (es : List Event) → Keeps P (run p es)
  unfolding run
  run-Keeps [] = Keeps-pure tt
  run-Keeps (e ∷ es) = Keeps-bind _ _ (step-Keeps e) λ _. run-Keeps es
