-- ===== src/PacketManager/Safety/Rounds.antt =====
-- LHJSample/PacketManager.cpp: which rounds of the packet thread end, as wholes.
use lhjsample.Common.{
  get_elem?-set_self, get_elem?-lt, get_elem?_of_lt, ℕ, ◌+◌, ◌≤◌, ◌<◌, ◌≡◌, refl, sym, ap, ◌∙◌,
  subst, inl, inr, List, [], ◌∷◌, Bool-cases, some, length, ltb, arith, ltb→lt,
}
use lhjsample.Common.Effect.{lift, ◌>>=◌}
use lhjsample.Packet.{PacketId, packet_id, sys_end}
use lhjsample.User.Buffer
use lhjsample.User.Buffer.{PacketInfo, PacketBuffer, no_packet, get_packet}
use lhjsample.User.{User, Handler}
use lhjsample.User.Bindings.{UserIsValid}
use lhjsample.World.{World, Platform, users, get_user}
use lhjsample.World.Inversion.{UserAt}
use lhjsample.World.Safety.{AllBelow, Safe, Safe-with_user}
use lhjsample.PacketManager.Safety.{
  recv_funtion-IsRequest, request-bound, get_packet-pointer, process_system_packet-Ends,
}
use lhjsample.Session.Safety.Requests.{CanServe, call_handler-ends}
use lhjsample.PacketManager.{
  deque_packet_data, user_request, call_method, process_recv_packet, process_client_packet,
  process_packet,
}
use lhjsample.PacketManager.Order.{after_fetch, deque_packet_data-get_packet}
use lhjsample.User.Buffer.Packets.{get_packet-take_frame}

-- What a round needs of the packet that it takes from a client: the handler that the user binds
-- to its id can serve it.
abbrev pub CanTake : {Db : Type 0} → World Db → Type 0
CanTake w =
    (i : ℕ) (rest : List ℕ) (u : User) (r : PacketInfo × PacketBuffer) (h : Handler) (offset : ℕ)
    → w.queues.incoming_packet_user_index ≡ i ∷ rest
    → UserAt w i u
    → get_packet u.buffer ≡ some r
    → u.recv_funtion_dictionary r.0.packet_id ≡ some h
    → r.0.data_ptr ≡ some offset
    → CanServe h offset (record u { buffer = r.1 }) (after_fetch w rest i u r.1)

module _ {Db : Type 0} (k n : ℕ) (p : Platform Db) where
  -- The world after a round has taken a packet from a client.
  after_fetch-Safe :
      (w : World Db) (i : ℕ) (rest : List ℕ) (u : User) (b : PacketBuffer)
      → w.queues.incoming_packet_user_index ≡ i ∷ rest
      → UserAt w i u
      → Buffer.IsValid b
      → Safe k n w
      → Safe k n (after_fetch w rest i u b)
  after_fetch-Safe w i rest u b queue at valid s =
      let taken : Safe k n
          (record w { queues = record w.queues { incoming_packet_user_index = rest } }) =
        record {
          user_count = s.user_count;
          room_count = s.room_count;
          valid = s.valid;
          short = s.short;
          members = s.members;
          range = s.range;
          incoming = (subst (AllBelow k) queue s.incoming).1;
          system = s.system;
        } in
      let known : UserIsValid i u = s.valid i u at in
      Safe-with_user k n _ i (record u { buffer = b }) taken
        (
          record {
            position = known.position;
            buffer_valid = valid;
            bindings = record { entered = known.bindings.entered; bound = known.bindings.bound };
          },
          s.short i u at,
        )

  user_request-ends :
      (id : PacketId) (size : ℕ) (i offset : ℕ) (u : User) (w : World Db) (h : Handler)
      → ((name : List ℕ) → 10 ≤ length name + length (p.past_end name))
      → Safe k n w
      → i < k
      → UserAt w i u
      → u.recv_funtion_dictionary (packet_id id) ≡ some h
      → CanServe h offset u w
      → (q : Unit {0} × World Db) × (user_request p id i size (some offset) w ≡ some q)
        × Safe k n q.1
  unfolding user_request get_user lift ◌>>=◌
  user_request-ends id size i offset u w h memory s below at bound can =
      let place : u.index ≡ i = (s.valid i u at).position in
      let (q, e, t) =
        call_handler-ends p k n i u.index h size offset u w memory s below
          (subst (λ x. x < k) (sym place) below) at can in
      (q, rw (at, bound) e, t)

  -- The first half of a round ends, where the packet that it takes can be served.
  process_client_packet-takes :
      (w : World Db) (i : ℕ) (rest : List ℕ) (u : User) (r : PacketInfo × PacketBuffer)
      → ((name : List ℕ) → 10 ≤ length name + length (p.past_end name))
      → Safe k n w
      → CanTake w
      → i < k
      → w.queues.incoming_packet_user_index ≡ i ∷ rest
      → UserAt w i u
      → get_packet u.buffer ≡ some r
      → Buffer.IsValid r.1
      → (q : Unit {0} × World Db) × (process_client_packet p w ≡ some q) × Safe k n q.1
  unfolding process_client_packet process_recv_packet call_method ◌>>=◌
  process_client_packet-takes w i rest u r memory s can below queue at got fresh =
      let after : World Db = after_fetch w rest i u r.1 in
      let v : User = record u { buffer = r.1 } in
      let taken : deque_packet_data w ≡ some (record r.0 { client_index = i }, after) =
        deque_packet_data-get_packet w i rest u r queue at got in
      let safe : Safe k n after = after_fetch-Safe w i rest u r.1 queue at fresh s in
      let there : UserAt after i v =
        get_elem?-set_self (users w) i v (get_elem?-lt (users w) i at) in
      elim (Bool-cases (ltb (packet_id sys_end) r.0.packet_id)) [
        | inr low ↦ ((tt, after), rw (taken, low) refl, safe)
        | inl high ↦ elim (recv_funtion-IsRequest r.0.packet_id (ltb→lt _ _ high)) [
          | inl dropped ↦ ((tt, after), rw (taken, high, dropped) refl, safe)
          | inr (id, same, request, method) ↦
              let (offset, pointer) =
                get_packet-pointer u.buffer r got (omega (arith, ltb→lt _ _ high)) in
              let (h, bound) = request-bound i r.0.packet_id u (s.valid i u at) request in
              let (q, e, t) =
                user_request-ends id r.0.data_size i offset v after h memory safe below there
                  (ap u.recv_funtion_dictionary (sym same) ∙ bound)
                  (can i rest u r h offset queue at got bound pointer) in
              (q, rw (taken, high, method, pointer) e, t)
        ]
      ]

  process_client_packet-ends :
      (w : World Db)
      → ((name : List ℕ) → 10 ≤ length name + length (p.past_end name))
      → Safe k n w
      → CanTake w
      → (queue : List ℕ) → w.queues.incoming_packet_user_index ≡ queue
      → (q : Unit {0} × World Db) × (process_client_packet p w ≡ some q) × Safe k n q.1
  unfolding process_client_packet deque_packet_data ◌>>=◌
  process_client_packet-ends w memory s can [] e = ((tt, w), rw e refl, s)
  process_client_packet-ends w memory s can (i ∷ rest) e =
      let below : i < k = (subst (AllBelow k) e s.incoming).0 in
      let (u, at) = get_elem?_of_lt (users w) i (omega (arith, s.user_count, below)) in
      let (r, got, fresh, seen) = get_packet-take_frame u.buffer (s.valid i u at).buffer_valid in
      process_client_packet-takes w i rest u r memory s can below e at got fresh

  -- A round ends and leaves a safe world, where the packet that it takes can be served.
  pub process_packet-ends :
      (w : World Db)
      → ((name : List ℕ) → 10 ≤ length name + length (p.past_end name))
      → Safe k n w
      → CanTake w
      → (q : Unit {0} × World Db) × (process_packet p w ≡ some q) × Safe k n q.1
  unfolding process_packet ◌>>=◌
  process_packet-ends w memory s can =
      let (q, e, t) =
        process_client_packet-ends w memory s can w.queues.incoming_packet_user_index refl in
      let (r, e', _, t') = (process_system_packet-Ends k n p).at q.1 t in (r, rw e e', t')
