-- ===== src/Examples/Safety.antt =====
-- Concrete inputs for the theorem about which histories end: the history of a login.
use mathlib.Core.Option.{some-injective}
use lhjsample.Common.{
  ℕ, ◌+◌, ◌≤◌, ◌≡◌, refl, sym, ap, ◌∙◌, subst, List, [], ◌∷◌, some, length, length-replicate, arith,
  c_string, blit, read_u16,
}
use lhjsample.Common.Effect.{update, ◌>>=◌}
use lhjsample.User.Buffer.{PacketInfo, PacketBuffer, packet_data_buffer_size, get_packet}
use lhjsample.User.Buffer.Append.{contents}
use lhjsample.User.{User, Handler, process_login, clear}
use lhjsample.World.{World, users, modify_user}
use lhjsample.World.Inversion.{UserAt}
use lhjsample.World.Safety.{Safe}
use lhjsample.PacketManager.{
  push_system_packet, process_packet, process_client_packet, deque_packet_data,
  process_system_packet, deque_system_packet_data, process_recv_packet, recv_funtion, user_connect,
}
use lhjsample.PacketManager.Order.{after_fetch}
use lhjsample.PacketManager.Safety.Rounds.{CanTake}
use lhjsample.Session.Safety.Requests.{CanServe}
use lhjsample.ChatServer.{Event, connect, receive, round, run, step, on_connect}
use lhjsample.ChatServer.Safety.{AllFit, run-ends}
use lhjsample.Examples.{
  platform, storage, login_packet, two_clients, two_clients-started, history, connecting, connected,
  received, first_user, connects_first, connects_second, receives,
}

no_client : connecting.queues.incoming_packet_user_index ≡ []
unfolding connecting step on_connect push_system_packet update
no_client = refl

new_user : User
new_user = first_user (users connected)

there : UserAt connected 0 new_user
unfolding new_user first_user connected connecting ◌>>=◌ step on_connect push_system_packet
    process_packet process_client_packet deque_packet_data process_system_packet
    deque_system_packet_data process_recv_packet recv_funtion user_connect modify_user clear
there = refl

nothing_there : contents new_user.buffer ≡ []
unfolding new_user first_user connected connecting ◌>>=◌ step on_connect push_system_packet
    process_packet process_client_packet deque_packet_data process_system_packet
    deque_system_packet_data process_recv_packet recv_funtion user_connect modify_user clear
nothing_there = refl

has_room :
    (u : User)
    → UserAt connected 0 u
    → length (contents u.buffer) + length login_packet ≤ packet_data_buffer_size
has_room u at =
    let same : new_user ≡ u = some-injective _ _ (sym there ∙ at) in
    subst (λ (x : User). length (contents x.buffer) + 27 ≤ packet_data_buffer_size) same
      (omega (arith, ap length nothing_there))

one_waits : received.queues.incoming_packet_user_index ≡ 0 ∷ []
unfolding received
one_waits = refl

abbrev filled : PacketBuffer
filled = record { bytes = blit (storage 0) 0 login_packet; wpos = 27; rpos = 0 }

sender : User
sender = record new_user { buffer = filled }

sends : UserAt received 0 sender
unfolding sender received new_user first_user connected connecting ◌>>=◌ step on_connect
    push_system_packet process_packet process_client_packet deque_packet_data process_system_packet
    deque_system_packet_data process_recv_packet recv_funtion user_connect modify_user clear
sends = refl

abbrev taken : PacketInfo × PacketBuffer
taken = (
  record { client_index = 0; packet_id = 210; data_size = 27; data_ptr = some 0 },
  record filled { rpos = 27 },
)

takes : get_packet sender.buffer ≡ some taken
unfolding sender get_packet read_u16 blit
takes = refl

binds : sender.recv_funtion_dictionary 210 ≡ some process_login
unfolding sender new_user first_user connected connecting ◌>>=◌ step on_connect push_system_packet
    process_packet process_client_packet deque_packet_data process_system_packet
    deque_system_packet_data process_recv_packet recv_funtion user_connect modify_user clear
binds = refl

serves :
    (u : User) (w : World (Unit {0})) → CanServe process_login 0 (record u { buffer = taken.1 }) w
unfolding CanServe c_string blit
serves u w = (97 ∷ 98 ∷ [], 112 ∷ 119 ∷ [], refl, refl, omega arith)

received-CanTake : CanTake received
received-CanTake i rest u r h offset queue at got bound pointer =
    let queues : (0 ∷ []) ≡ i ∷ rest = sym one_waits ∙ queue in
    let first : 0 ≡ i = cc queues in
    let same : sender ≡ u =
      some-injective _ _ (sym sends ∙ subst (λ x. UserAt received x u) (sym first) at) in
    let packet : taken ≡ r =
      some-injective _ _
        (sym takes ∙ subst (λ (x : User). get_packet x.buffer ≡ some r) (sym same) got) in
    let place : 0 ≡ offset =
      some-injective _ _ (ap (λ (x : PacketInfo × PacketBuffer). x.0.data_ptr) packet ∙ pointer) in
    let handler : process_login ≡ h = some-injective _ _ (
      sym binds
      ∙ ap (λ (x : User). x.recv_funtion_dictionary 210) same
      ∙ ap (λ (x : PacketInfo × PacketBuffer). u.recv_funtion_dictionary x.0.packet_id) packet
      ∙ bound) in
    let w : World (Unit {0}) = after_fetch received rest i u r.1 in
    subst (λ (x : Handler). CanServe x offset (record u { buffer = r.1 }) w) handler
      (subst (λ (x : ℕ). CanServe process_login x (record u { buffer = r.1 }) w) place
        (subst
          (λ (x : PacketInfo × PacketBuffer).
            CanServe process_login 0 (record u { buffer = x.1 }) w)
          packet (serves u w)))

-- A history all of whose steps end fits where each step does.
next_fits :
    (es : List Event) (e : Event) (w after : World (Unit {0}))
    → step platform e w ≡ some (tt, after)
    → AllFit 2 platform es after
    → (q : Unit {0} × World (Unit {0})) → step platform e w ≡ some q
    → AllFit 2 platform es q.1
next_fits es e w after made h q also =
    subst (λ (x : Unit {0} × World (Unit {0})). AllFit 2 platform es x.1)
      (some-injective _ _ (sym made ∙ also)) h

history-AllFit : AllFit 2 platform history two_clients
history-AllFit = (
  omega arith,
  next_fits (round ∷ receive 0 login_packet ∷ round ∷ []) (connect 0) two_clients connecting
      connects_first
      (
        (λ i rest u r h offset queue. absurd (omega (arith, ap length (sym no_client ∙ queue)))),
        next_fits (receive 0 login_packet ∷ round ∷ []) round connecting connected connects_second (
          (omega arith, has_room),
          next_fits (round ∷ []) (receive 0 login_packet) connected received receives
              (received-CanTake, λ q e. tt),
        ),
      ),
)

run-ends_example :
    (q : Unit {0} × World (Unit {0})) × (run platform history two_clients ≡ some q) × Safe 2 10 q.1
run-ends_example =
    run-ends platform history 2 storage tt two_clients (λ j. length-replicate {A = ℕ} 8096 0)
      two_clients-started (λ name. omega arith) history-AllFit
