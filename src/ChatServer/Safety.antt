-- ===== src/ChatServer/Safety.antt =====
-- LHJSample/ChatServer.cpp: which histories of the server end.
use mathlib.Core.Option.{some-injective}
use lhjsample.Common.{
  ltb_ℤ, ◌||◌, not, false, pos_part, ◌<◌, ℕ, zero, suc, ◌+◌, ◌≤◌, ◌≡◌, refl, sym, ap, ◌∙◌, subst,
  inl, inr, ℤ, pos, ◌+ℤ◌, ◌-ℤ◌, List, [], ◌∷◌, some, length, get_elem?, get_elem?_of_lt, arith,
}
use lhjsample.Common.Fallible.{>>=-eq-some}
use lhjsample.Common.Effect.{update, pure, ◌>>=◌}
use lhjsample.User.Buffer.{PacketInfo, packet_data_buffer_size}
use lhjsample.User.Buffer.Append.{contents, set_packet_data-append}
use lhjsample.User.{User, init_user}
use lhjsample.User.Bindings.{UserIsValid}
use lhjsample.World.{World, RoomManager, Platform, users}
use lhjsample.World.Inversion.{UserAt, with_user, modify_user-succeeds}
use lhjsample.World.Safety.{
  Safe, AllBelow, AllSystem, AllBelow-append, IsSystem, AllSystem-append, Safe-with_user,
}
use lhjsample.Rooms.{init_rooms, init_room_manager}
use lhjsample.Accounts.{init_users, init_user_manager}
use lhjsample.PacketManager.{
  store_data, push_system_packet, receive_packet_data, enqueue_packet_data, update_queues,
}
use lhjsample.PacketManager.Safety.Rounds.{CanTake, process_packet-ends}
use lhjsample.ChatServer.{
  Event, connect, close, receive, round, init, on_connect, on_close, on_receive, step, run,
}
use lhjsample.Invariants.Users.{IsStarted, IsStarted-users}
use lhjsample.Invariants.RoomCounts.{init_rooms-RoomIsValid}

length-init_users :
    (storage : ℕ → List ℕ) (i n : ℕ) (us : List User)
    → init_users storage i n ≡ some us
    → length us ≡ n
unfolding init_users
length-init_users storage i zero us e = ap length (sym (some-injective _ _ e))
length-init_users storage i (suc n) us e =
    let (u, made, e1) = >>=-eq-some (init_user i (storage i)) _ e in
    let (rest, more, e2) = >>=-eq-some (init_users storage (i + 1) n) _ e1 in
    ap length (sym (some-injective _ _ e2)) ∙ ap suc (length-init_users storage (i + 1) n rest more)

module _ {Db : Type 0} where
  in_range :
      (w : World Db)
      → w.room_manager ≡ init_room_manager (pos 0) 10 4
      → (number : ℤ)
      → (ltb_ℤ number w.room_manager.begin_room_number
          || not (ltb_ℤ number w.room_manager.end_room_number))
        ≡ false
      → pos_part (number -ℤ w.room_manager.begin_room_number) < 10
  unfolding init_room_manager ◌+ℤ◌ ◌-ℤ◌
  in_range w made number inside =
      let first : w.room_manager.begin_room_number ≡ pos 0 = ap (λ m. m.begin_room_number) made in
      let last : w.room_manager.end_room_number ≡ pos 10 = ap (λ m. m.end_room_number) made in
      ground arith

  -- The server as `Init` makes it is safe.
  started-Safe :
      (max_client : ℕ) (storage : ℕ → List ℕ) (db : Db) (w : World Db)
      → ((j : ℕ) → length (storage j) ≡ packet_data_buffer_size)
      → init max_client storage db ≡ some w
      → Safe max_client 10 w
  unfolding init init_user_manager init_room_manager IsStarted
  started-Safe max_client storage db w sizes e =
      let (m, managed, e1) = >>=-eq-some (init_user_manager max_client storage) _ e in
      let (us, made, e2) = >>=-eq-some (init_users storage 0 max_client) _ managed in
      let pools : us ≡ users w =
        ap (λ x. x.user_obj_pool) (some-injective _ _ e2)
        ∙ ap (λ (x : World Db). users x) (some-injective _ _ e1) in
      let room_manager : init_room_manager (pos 0) 10 4 ≡ w.room_manager =
        ap (λ (x : World Db). x.room_manager) (some-injective _ _ e1) in
      let started : IsStarted w = (max_client, storage, db, sizes, e) in
      record {
        user_count = ap length (sym pools) ∙ length-init_users storage 0 max_client us made;
        room_count =
            ap (λ (x : RoomManager). length x.room_list) (sym room_manager)
            ∙ unfold init_rooms in refl;
        valid = λ i u at. (IsStarted-users w started i u at).0;
        short = λ i u at. omega (arith, ap length (IsStarted-users w started i u at).1);
        members = λ r a at.
            (init_rooms-RoomIsValid max_client (pos 0) 4 0 10 r a (omega arith)
              (ap (λ (x : RoomManager). get_elem? x.room_list r) room_manager ∙ at)).members;
        range = in_range w (sym room_manager);
        incoming =
            subst (λ (x : World Db). AllBelow max_client x.queues.incoming_packet_user_index)
              (some-injective _ _ e1) tt;
        system =
            subst (λ (x : World Db). AllSystem max_client x.queues.system_packet_queue)
              (some-injective _ _ e1) tt;
      }

  -- What a step needs to end: an index of a session, as many bytes as the user's buffer has room
  -- for, and a packet that can be served.
  abbrev pub Fits : ℕ → Event → World Db → Type 0
  Fits k (connect i) w = i < k
  Fits k (close i) w = i < k
  Fits k (receive i p_data) w =
      (i < k)
      × ((u : User)
          → UserAt w i u
          → length (contents u.buffer) + length p_data ≤ packet_data_buffer_size)
  Fits k round w = CanTake w

  -- Each step of the history has what it needs when it is reached.
  abbrev pub AllFit : ℕ → Platform Db → List Event → World Db → Type 0
  AllFit k p [] w = Unit
  AllFit k p (e ∷ es) w =
      Fits k e w × ((q : Unit {0} × World Db) → step p e w ≡ some q → AllFit k p es q.1)

  module _ (k n : ℕ) (p : Platform Db) where
    -- A packet of the system is queued.
    push_system_packet-ends :
        (packet : PacketInfo) (w : World Db)
        → Safe k n w
        → IsSystem k packet
        → (q : Unit {0} × World Db) × (push_system_packet packet w ≡ some q) × Safe k n q.1
    unfolding push_system_packet update_queues update
    push_system_packet-ends packet w s new = (
      (tt, _),
      refl,
      record {
        user_count = s.user_count;
        room_count = s.room_count;
        valid = s.valid;
        short = s.short;
        members = s.members;
        range = s.range;
        incoming = s.incoming;
        system = AllSystem-append k packet w.queues.system_packet_queue s.system new;
      },
    )

    enqueue_packet_data-ends :
        (i : ℕ) (w : World Db)
        → Safe k n w
        → i < k
        → (q : Unit {0} × World Db) × (enqueue_packet_data i w ≡ some q) × Safe k n q.1
    unfolding enqueue_packet_data update_queues update
    enqueue_packet_data-ends i w s below = (
      (tt, _),
      refl,
      record {
        user_count = s.user_count;
        room_count = s.room_count;
        valid = s.valid;
        short = s.short;
        members = s.members;
        range = s.range;
        incoming = AllBelow-append k i w.queues.incoming_packet_user_index s.incoming below;
        system = s.system;
      },
    )

    receive_packet_data-ends :
        (i : ℕ) (p_data : List ℕ) (w : World Db)
        → Safe k n w
        → Fits k (receive i p_data) w
        → (q : Unit {0} × World Db) × (receive_packet_data i p_data w ≡ some q) × Safe k n q.1
    unfolding receive_packet_data store_data ◌>>=◌
    receive_packet_data-ends i p_data w s (below, room) =
        let (u, at) = get_elem?_of_lt (users w) i (omega (arith, s.user_count, below)) in
        let known : UserIsValid i u = s.valid i u at in
        let (c, e, vc, same) =
          set_packet_data-append u.buffer p_data known.buffer_valid (room u at) in
        let v : User = record u { buffer = c } in
        let stored : store_data p_data u ≡ some v = rw e refl in
        let safe : Safe k n (with_user w i v) = Safe-with_user k n w i v s (
          record {
            position = known.position;
            buffer_valid = vc;
            bindings = record { entered = known.bindings.entered; bound = known.bindings.bound };
          },
          s.short i u at,
        ) in
        let (q, e', t) = enqueue_packet_data-ends i (with_user w i v) safe below in
        (q, rw (modify_user-succeeds i (store_data p_data) w u v at stored) e', t)

    step-ends :
        (e : Event) (w : World Db)
        → ((name : List ℕ) → 10 ≤ length name + length (p.past_end name))
        → Safe k n w
        → Fits k e w
        → (q : Unit {0} × World Db) × (step p e w ≡ some q) × Safe k n q.1
    unfolding step on_connect on_close on_receive
    step-ends (connect i) w memory s below = push_system_packet-ends _ w s (below, inl refl)
    step-ends (close i) w memory s below = push_system_packet-ends _ w s (below, inr refl)
    step-ends (receive i p_data) w memory s fits = receive_packet_data-ends i p_data w s fits
    step-ends round w memory s can = process_packet-ends k n p w memory s can

    steps-end :
        (es : List Event) (w : World Db)
        → ((name : List ℕ) → 10 ≤ length name + length (p.past_end name))
        → Safe k n w
        → AllFit k p es w
        → (q : Unit {0} × World Db) × (run p es w ≡ some q) × Safe k n q.1
    unfolding run ◌>>=◌ pure
    steps-end [] w memory s fit = ((tt, w), refl, s)
    steps-end (e ∷ es) w memory s (fits, later) =
        let (q, made, t) = step-ends e w memory s fits in
        let (r, more, t') = steps-end es q.1 memory t (later q made) in (r, rw made more, t')

  -- A history of the server ends without a fault, whatever its steps are and however the threads
  -- take turns, from the server that `Init` makes with buffers of the size asked for: where each
  -- step is about one of the sessions, the bytes that arrive fit in what is free of the user's
  -- buffer, and a packet that is taken is one that its handler can serve, which is said of the state
  -- at that moment; and where the memory behind an id holds what a chat message copies of it. The
  -- world at the end is safe again.
  pub run-ends :
      (p : Platform Db) (es : List Event) (max_client : ℕ) (storage : ℕ → List ℕ) (db : Db)
      (w : World Db)
      → ((j : ℕ) → length (storage j) ≡ packet_data_buffer_size)
      → init max_client storage db ≡ some w
      → ((name : List ℕ) → 10 ≤ length name + length (p.past_end name))
      → AllFit max_client p es w
      → (q : Unit {0} × World Db) × (run p es w ≡ some q) × Safe max_client 10 q.1
  run-ends p es max_client storage db w sizes e memory fit =
      steps-end max_client 10 p es w memory (started-Safe max_client storage db w sizes e) fit
