-- ===== src/PacketManager/Order.antt =====
-- Which packet the packet thread takes next, and which packets of clients it drops.
use lhjsample.Common.{ℕ, ◌≤◌, ◌≡◌, refl, ap, List, ◌∷◌, false, some, ltb, arith, le→not-ltb}
use lhjsample.Common.Effect.{update, ◌>>=◌}
use lhjsample.Packet.{packet_id, sys_end}
use lhjsample.User.{User}
use lhjsample.User.Buffer
use lhjsample.User.Buffer.{PacketInfo, PacketBuffer, get_packet}
use lhjsample.User.Buffer.Append.{contents}
use lhjsample.User.Buffer.Packets.{take_frame, view, get_packet-take_frame}
use lhjsample.World.{World, Platform, get_user, put_user}
use lhjsample.World.Inversion.{with_user, UserAt}
use lhjsample.PacketManager.{deque_packet_data, fetch_packet, update_queues, process_client_packet}

module _ {Db : Type 0} where
  -- The world after user `i` at the front of the queue was taken and its buffer became `b`.
  abbrev pub after_fetch : World Db → List ℕ → ℕ → User → PacketBuffer → World Db
  after_fetch w rest i u b =
      with_user (record w { queues = record w.queues { incoming_packet_user_index = rest } }) i
        (record u { buffer = b })

  pub deque_packet_data-get_packet :
      (w : World Db) (i : ℕ) (rest : List ℕ) (u : User) (r : PacketInfo × PacketBuffer)
      → w.queues.incoming_packet_user_index ≡ i ∷ rest
      → UserAt w i u
      → get_packet u.buffer ≡ some r
      → deque_packet_data w ≡ some (record r.0 { client_index = i }, after_fetch w rest i u r.1)
  unfolding deque_packet_data fetch_packet get_user update_queues put_user update ◌>>=◌
  deque_packet_data-get_packet w i rest u r queue at got = rw (queue, at, got) refl

  -- `DequePacketData` serves the users in the order in which their data came in: it takes the first
  -- index of the queue and yields the first whole frame of that user's unread bytes, with the index
  -- of the user. It does not fault, and changes this queue and this user's buffer alone.
  pub deque_packet_data_lem :
      (w : World Db) (i : ℕ) (rest : List ℕ) (u : User)
      → w.queues.incoming_packet_user_index ≡ i ∷ rest
      → UserAt w i u
      → Buffer.IsValid u.buffer
      → (r : PacketInfo × PacketBuffer) × (deque_packet_data w
          ≡ some (record r.0 { client_index = i }, after_fetch w rest i u r.1))
        × Buffer.IsValid r.1
        × (view r ≡ take_frame (contents u.buffer))
  deque_packet_data_lem w i rest u queue at valid =
      let (r, got, fresh, seen) = get_packet-take_frame u.buffer valid in
      (r, deque_packet_data-get_packet w i rest u r queue at got, fresh, seen)

  -- A packet of a client whose id is not above `SYS_END` is consumed and has no other effect:
  -- no client can call the methods for connecting and disconnecting.
  pub process_client_packet-system_ids :
      (p : Platform Db) (w : World Db) (i : ℕ) (rest : List ℕ) (u : User)
      → w.queues.incoming_packet_user_index ≡ i ∷ rest
      → UserAt w i u
      → Buffer.IsValid u.buffer
      → (take_frame (contents u.buffer)).0 ≤ packet_id sys_end
      → (b : PacketBuffer) × (process_client_packet p w ≡ some (tt, after_fetch w rest i u b))
        × (contents b ≡ (take_frame (contents u.buffer)).2)
  unfolding process_client_packet ◌>>=◌
  process_client_packet-system_ids p w i rest u queue at valid low =
      let (r, e, fresh, seen) = deque_packet_data_lem w i rest u queue at valid in
      let id : r.0.packet_id ≡ (take_frame (contents u.buffer)).0 = ap (λ x. x.0) seen in
      let dropped : ltb 30 r.0.packet_id ≡ false = le→not-ltb _ _ (omega arith) in
      (r.1, rw (e, dropped) refl, ap (λ x. x.2) seen)
