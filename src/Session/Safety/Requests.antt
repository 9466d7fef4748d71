-- ===== src/Session/Safety/Requests.antt =====
-- Which requests end: the request handlers of LHJSample/User/State as wholes.
use mathlib.Core.Option.{some-injective}
use lhjsample.Common.{
  subst, inl, inr, Bool-cases, ℤ, ℕ, ◌+◌, ◌≤◌, ◌<◌, ◌≡◌, refl, sym, ap, ◌∙◌, List, ◌∷◌, Option,
  some, none, length, drop, length-append, length-drop, arith, c_string, if◌then◌else◌, ◌==◌,
}
use lhjsample.Common.Effect.{Effect, pure, update, lift, gets, ◌>>=◌, ◌>>◌}
use lhjsample.Packet.{
  ResultCode, result_code, login_success, result_none, create_account_fail, ack_create_account,
  ack_login, ack_room_info, room_info_packet, vector_length, packet_header_length, user_id_field,
  account_packet_size,
}
use lhjsample.User.Buffer.{packet_data_buffer_size}
use lhjsample.User.{
  User, Handler, ignore, process_create_account, process_login, process_lobby_info,
  process_enter_room, process_room_info, process_leave_room, process_room_chat_message, set_login,
}
use lhjsample.World.{World, Platform, get_user, modify_user, send_packet}
use lhjsample.World.Inversion.{UserAt}
use lhjsample.World.Safety.{
  Safe, Any, Ends, Ends-pure, Ends-bind, Ends-if, Ends-lift, get_user-Ends, modify_user-Ends,
  send_packet-Ends, call_db-Ends,
}
use lhjsample.Rooms.{get_room_by_number, get_room_member_list}
use lhjsample.Rooms.Safety.{
  Found, get_room_by_number-Ends, notify_chat-Ends, get_room_member_list-Ends, get_room_list-Ends,
}
use lhjsample.Accounts.{check_loginable, login, add_user, update_dictionary, create_user_account}
use lhjsample.Session.{
  user_get_room, packet_memory, ack, create_account_request, login_request, lobby_info_request,
  enter_room_request, room_info_request, leave_room_request, chat_in, chat_request, call_handler,
}
use lhjsample.Session.Safety.{
  set_login-Known, read_i32-fits, ack-Ends, user_get_room-Ends, packet_memory-Ends,
  user_enter_room-Ends, user_leave_room-Ends,
}

-- What a handler needs of the packet at `offset` and of the world, to end.
unfoldable pub CanServe : {Db : Type 0} → Handler → ℕ → User → World Db → Type 0
CanServe ignore offset u w = Unit
CanServe process_create_account offset u w =
    (id : List ℕ) × (pw : List ℕ) × (c_string (drop 5 (drop offset u.buffer.bytes)) ≡ some id)
    × (c_string (drop 16 (drop offset u.buffer.bytes)) ≡ some pw)
CanServe process_login offset u w =
    (id : List ℕ) × (pw : List ℕ) × (c_string (drop 5 (drop offset u.buffer.bytes)) ≡ some id)
    × (c_string (drop 16 (drop offset u.buffer.bytes)) ≡ some pw)
    × (length id ≤ user_id_field)
CanServe process_lobby_info offset u w = Unit
CanServe process_enter_room offset u w = offset + 9 ≤ packet_data_buffer_size
CanServe process_room_info offset u w =
    (r : ℕ) × (get_room_by_number u.room_index w ≡ some (some r, w))
CanServe process_leave_room offset u w = Unit
CanServe process_room_chat_message offset u w = offset + 262 ≤ packet_data_buffer_size

module _ {Db : Type 0} (p : Platform Db) (k n i client_index : ℕ) where
  add_user-Ends :
      (id : List ℕ) (c : ℕ)
      → c < k
      → length id ≤ user_id_field
      → Ends {Db = Db} k n Any (add_user id c)
  unfolding add_user update_dictionary update
  add_user-Ends id c below small =
      Ends-bind k n _ _
        (modify_user-Ends k n c _ below λ u known. set_login-Known id c u small known)
        λ _ _.
          Ends-bind k n {P = Any} _ _
            (record {
              at = λ w s. (
                (tt, _),
                refl,
                tt,
                record {
                  user_count = s.user_count;
                  room_count = s.room_count;
                  valid = s.valid;
                  short = s.short;
                  members = s.members;
                  range = s.range;
                  incoming = s.incoming;
                  system = s.system;
                },
              );
            })
            λ _ _. Ends-pure k n _ tt

  check_loginable-Ends :
      (id pw : List ℕ) (c : ℕ)
      → c < k
      → length id ≤ user_id_field
      → Ends {Db = Db} k n Any (check_loginable p c id pw)
  unfolding check_loginable login gets
  check_loginable-Ends id pw c below small =
      Ends-bind k n {P = Any} _ _ (record { at = λ w s. (_, refl, tt, s) })
        λ m _. Ends-if k n _ _ _ (Ends-pure k n _ tt) (
          Ends-if k n _ _ _
            (Ends-bind k n _ _ (call_db-Ends k n _) λ accepted _.
              Ends-if k n accepted _ _
                (Ends-bind k n _ _ (add_user-Ends id c below small) λ _ _. Ends-pure k n _ tt)
                (Ends-pure k n _ tt))
            (Ends-pure k n _ tt))

  lobby_info_request-Ends : Ends {Db = Db} k n Any (lobby_info_request p i client_index)
  unfolding lobby_info_request
  lobby_info_request-Ends =
      Ends-bind k n _ _ (ack-Ends p k n i client_index _ _)
        λ _ _. Ends-bind k n _ _ (get_room_list-Ends k n) λ room _. send_packet-Ends k n _ _ _

  enter_room_request-Ends :
      (offset : ℕ)
      → i < k
      → offset + 9 ≤ packet_data_buffer_size
      → Ends {Db = Db} k n Any (enter_room_request p i client_index (some offset))
  unfolding enter_room_request
  enter_room_request-Ends offset below inside =
      Ends-bind k n _ _ (packet_memory-Ends p k n i client_index offset below) λ m size.
        let (number, e) = read_i32-fits m 5 (omega (arith, size, inside)) in
        Ends-bind k n _ _ (Ends-lift k n {P = Any} _ number e tt) λ z _.
          Ends-bind k n _ _ (user_enter_room-Ends p k n i client_index z below)
            λ result _. ack-Ends p k n i client_index _ _

  leave_room_request-Ends : i < k → Ends {Db = Db} k n Any (leave_room_request p i client_index)
  unfolding leave_room_request
  leave_room_request-Ends below =
      Ends-bind k n _ _ (user_leave_room-Ends p k n i client_index below)
        λ result _. ack-Ends p k n i client_index _ _

  chat_request-Ends :
      (offset : ℕ)
      → i < k
      → offset + 262 ≤ packet_data_buffer_size
      → ((id : List ℕ) → 10 ≤ length id + length (p.past_end id))
      → Ends {Db = Db} k n Any (chat_request p i client_index (some offset))
  unfolding chat_request chat_in
  chat_request-Ends offset below inside memory =
      Ends-bind k n _ _ (user_get_room-Ends p k n i client_index below) λ found h.
        elim found
            as (λ o.
              Found n o → Ends {Db = Db} k n Any (chat_in p i client_index (some offset) o)) [
                | none ↦ λ _. ack-Ends p k n i client_index _ _
                | some r ↦ λ here. Ends-bind k n _ _ (ack-Ends p k n i client_index _ _) λ _ _.
                    Ends-bind k n _ _ (get_user-Ends k n i below) λ u known.
                      Ends-bind k n _ _ (packet_memory-Ends p k n i client_index offset below)
                        λ m size.
                          notify_chat-Ends k n p r client_index _ _ here
                            (omega (arith, length-drop 5 m, size, inside))
                            (omega (
                              arith,
                              length-append u.user_id (0 ∷ p.past_end u.user_id),
                              memory u.user_id,
                            ))
              ]
          h

  create_user_account-Ends : (id pw : List ℕ) → Ends {Db = Db} k n Any (create_user_account p id pw)
  unfolding create_user_account
  create_user_account-Ends id pw = call_db-Ends k n _

  -- What a lookup finds, in a safe world, is inside the list of rooms.
  found_below :
      (number : ℤ) (r : ℕ) (w : World Db)
      → Safe k n w
      → get_room_by_number number w ≡ some (some r, w)
      → r < n
  found_below number r w s e =
      let (q, e', h, t) = (get_room_by_number-Ends k n number).at w s in
      subst (Found n) (ap (λ (x : Option ℕ × World Db). x.0) (some-injective _ _ (sym e' ∙ e))) h

  -- A request that ends, in a safe world.
  abbrev EndsAt : World Db → Effect (World Db) (Unit {0}) → Type 0
  EndsAt w m = (q : Unit {0} × World Db) × (m w ≡ some q) × Safe k n q.1

  ends_at :
      (m : Effect (World Db) (Unit {0})) → Ends k n Any m → (w : World Db) → Safe k n w → EndsAt w m
  ends_at m h w s = let (q, e, _, t) = h.at w s in (q, e, t)

  create_account_request-ends :
      (offset : ℕ) (u : User) (w : World Db)
      → Safe k n w
      → UserAt w i u
      → CanServe process_create_account offset u w
      → EndsAt w (create_account_request p i client_index (some offset))
  unfolding create_account_request packet_memory get_user lift ◌>>=◌ pure CanServe
  create_account_request-ends offset u w s at (id, pw, c1, c2) =
      let rest : Effect (World Db) (Unit {0}) = create_user_account p id pw >>= λ created.
      ack p i client_index ack_create_account
        (if created then result_none else create_account_fail) in
      let ends : Ends {Db = Db} k n Any rest =
        Ends-bind k n _ _ (create_user_account-Ends id pw)
          λ created _. ack-Ends p k n i client_index _ _ in
      let (q, e, t) = ends_at rest ends w s in (q, rw (at, c1, c2) e, t)

  login_request-ends :
      (offset : ℕ) (u : User) (w : World Db)
      → Safe k n w
      → i < k
      → client_index < k
      → UserAt w i u
      → CanServe process_login offset u w
      → EndsAt w (login_request p i client_index (some offset))
  unfolding login_request packet_memory get_user lift ◌>>=◌ pure CanServe
  login_request-ends offset u w s below named at (id, pw, c1, c2, small) =
      let store : ResultCode → Effect (World Db) (Unit {0}) = λ result.
        if result_code result == result_code login_success
        then modify_user i (set_login id)
        else pure tt in
      let answer : ResultCode → Effect (World Db) (Unit {0}) =
        λ result. store result >> ack p i client_index ack_login result in
      let stores : (result : ResultCode) → Ends {Db = Db} k n Any (store result) = λ result.
        Ends-if k n _ _ _
          (modify_user-Ends k n i _ below λ v known. set_login-Known id i v small known)
          (Ends-pure k n tt tt) in
      let ends : Ends {Db = Db} k n Any (check_loginable p client_index id pw >>= answer) =
        Ends-bind k n _ answer (check_loginable-Ends id pw client_index named small) λ result _.
          Ends-bind k n (store result) _ (stores result) λ _ _. ack-Ends p k n i client_index _ _ in
      let (q, e, t) = ends_at _ ends w s in (q, rw (at, c1, c2) e, t)

  room_info_request-ends :
      (offset : ℕ) (u : User) (w : World Db)
      → Safe k n w
      → i < k
      → UserAt w i u
      → CanServe process_room_info offset u w
      → EndsAt w (room_info_request p i client_index)
  unfolding room_info_request user_get_room get_user lift ◌>>=◌ pure CanServe
  room_info_request-ends offset u w s below at (r, found) =
      let inside : r < n = found_below u.room_index r w s found in
      let rest : Effect (World Db) (Unit {0}) = get_room_member_list r >>= λ members.
      send_packet client_index (packet_header_length + 2 + 4 + vector_length members)
        (room_info_packet (p.stack_byte ack_room_info) members) in
      let ends : Ends {Db = Db} k n Any rest =
        Ends-bind k n _ _ (get_room_member_list-Ends k n r inside)
          λ members _. send_packet-Ends k n _ _ _ in
      let (q, e, t) = ends_at rest ends w s in (q, rw (at, found) e, t)

  -- Each request ends without a fault, and leaves a safe world again, where the packet and the
  -- world are as its handler needs them: for an account or a login, two texts that end in the
  -- buffer, and an id that fits its field for a login; to enter a room and to chat, as many bytes in
  -- the buffer behind the packet's begin as are read; for the members of a room, a room with the
  -- number that the user holds. Behind an id in memory there are the bytes that a chat message
  -- copies.
  pub call_handler-ends :
      (h : Handler) (size offset : ℕ) (u : User) (w : World Db)
      → ((id : List ℕ) → 10 ≤ length id + length (p.past_end id))
      → Safe k n w
      → i < k
      → client_index < k
      → UserAt w i u
      → CanServe h offset u w
      → (q : Unit {0} × World Db) × (call_handler p i client_index h size (some offset) w ≡ some q)
        × Safe k n q.1
  unfolding call_handler
  call_handler-ends ignore size offset u w memory s below named at c =
      ends_at _ (Ends-pure k n tt tt) w s
  call_handler-ends process_create_account size offset u w memory s below named at c =
      elim (Bool-cases (size == account_packet_size)) [
        | inl whole ↦ rw whole (create_account_request-ends offset u w s at c)
        | inr other ↦ rw other (ends_at _ (Ends-pure k n tt tt) w s)
      ]
  call_handler-ends process_login size offset u w memory s below named at c =
      elim (Bool-cases (size == account_packet_size)) [
        | inl whole ↦ rw whole (login_request-ends offset u w s below named at c)
        | inr other ↦ rw other (ends_at _ (Ends-pure k n tt tt) w s)
      ]
  call_handler-ends process_lobby_info size offset u w memory s below named at c =
      ends_at _ lobby_info_request-Ends w s
  call_handler-ends process_enter_room size offset u w memory s below named at c =
      ends_at _ (enter_room_request-Ends offset below (unfold CanServe in c)) w s
  call_handler-ends process_room_info size offset u w memory s below named at c =
      room_info_request-ends offset u w s below at c
  call_handler-ends process_leave_room size offset u w memory s below named at c =
      ends_at _ (leave_room_request-Ends below) w s
  call_handler-ends process_room_chat_message size offset u w memory s below named at c =
      ends_at _ (chat_request-Ends offset below (unfold CanServe in c) memory) w s
