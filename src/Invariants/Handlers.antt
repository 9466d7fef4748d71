-- ===== src/Invariants/Handlers.antt =====
-- Every handler, every round of the packet thread and every history of the threads keeps an
-- invariant that the primitives keep.
use lhjsample.Common.{
  ℕ, ◌≡◌, subst, sym, List, [], ◌∷◌, Bool, false, Option, none, some, get_elem?, arith,
  length-read_at, read_at, ℤ,
}
use lhjsample.Common.Effect.{Effect, ◌>>=◌}
use lhjsample.Common.Effect.Keeps.{
  Keeps, keeps_rules, Keeps-pure, Keeps-lift, Keeps-gets, Keeps-if, Keeps-bind, Keeps-bind-lift,
  >>=-eq-some,
}
use lhjsample.Packet.{PacketId, ResultCode, message_field, user_id_field}
use lhjsample.Packet.Framing.{
  ack_packet-IsFramed, chat_packet-IsFramed, lobby_info_packet-IsFramed, room_info_packet-IsFramed,
  length-ack_packet, length-chat_packet, length-lobby_info_packet, length-room_info_packet,
}
use lhjsample.User.{
  User, Handler, ignore, process_create_account, process_login, process_lobby_info,
  process_enter_room, process_room_info, process_leave_room, process_room_chat_message,
}
use lhjsample.World.{World, Platform, users, get_user, get_room, send_packet}
use lhjsample.Rooms.{
  send_to_all_user, notify_chat, get_room_by_number, get_room_member_list, get_room_list,
  enter_user, enter_found, leave_user, leave_found,
}
use lhjsample.Accounts.{create_user_account}
use lhjsample.Session.{
  user_enter_room, user_leave_room, user_get_room, packet_memory, ack, create_account_request,
  lobby_info_request, enter_room_request, room_info_request, leave_room_request, chat_in,
  chat_request, call_handler,
}
use lhjsample.Invariants.Interface.{Invariant}

module _ {Db : Type 0} where
  pub get_user-reads :
      (i : ℕ) (w : World Db) (q : User × World Db)
      → get_user i w ≡ some q
      → (get_elem? (users w) i ≡ some q.0) × (q.1 ≡ w)
  unfolding get_user ◌>>=◌
  get_user-reads i w q e = ground arith

-- Methods that only read.
module _ {Db : Type 0} {P : World Db → Type 0} where
  pub get_user-Keeps : (i : ℕ) → Keeps P (get_user i)
  unfolding get_user
  get_user-Keeps i = search keeps_rules

  pub get_room-Keeps : (r : ℕ) → Keeps P (get_room r)
  unfolding get_room
  get_room-Keeps r = search keeps_rules

  -- A broadcast keeps what sending one copy keeps.
  pub send_to_all_user-Keeps :
      (size : ℕ) (m : List ℕ) (pass : ℕ) (except_me : Bool) (members : List ℕ)
      → ((c : ℕ) → Keeps P (send_packet c size m))
      → Keeps P (send_to_all_user size m pass except_me members)
  unfolding send_to_all_user
  send_to_all_user-Keeps size m pass except_me [] k = search keeps_rules
  send_to_all_user-Keeps size m pass except_me (i ∷ members) k =
      Keeps-bind _ _ (get_user-Keeps i) λ user.
        Keeps-bind _ _ (Keeps-if (Keeps-pure tt) (k user.index) _)
          λ _. send_to_all_user-Keeps size m pass except_me members k

  get_room_by_number-Keeps : (n : ℤ) → Keeps P (get_room_by_number n)
  unfolding get_room_by_number
  get_room_by_number-Keeps n = search (keeps_rules, get_room-Keeps)

  get_room_member_list-Keeps : (r : ℕ) → Keeps P (get_room_member_list r)
  unfolding get_room_member_list
  get_room_member_list-Keeps r = search (keeps_rules, get_room-Keeps)

  pub packet_memory-Keeps : (i : ℕ) (p_packet : Option ℕ) → Keeps P (packet_memory i p_packet)
  unfolding packet_memory
  packet_memory-Keeps i p_packet = search (keeps_rules, get_user-Keeps)

  user_get_room-Keeps : (i : ℕ) → Keeps P (user_get_room i)
  unfolding user_get_room
  user_get_room-Keeps i = search (keeps_rules, get_user-Keeps, get_room_by_number-Keeps)

module _ {Db : Type 0} (p : Platform Db) {P : World Db → Type 0} (inv : Invariant p P) where
  open inv use {
    positions, sends, queries, queues, stores, fetches, joins, leaves, moves, connects, lobbies,
    enters, clears, deletes, logins,
  }

  -- A user that was read knows its position.
  pub Keeps-bind-user :
      {B : Type 0} (i : ℕ) (f : User → Effect (World Db) B)
      → ((u : User) → u.index ≡ i → Keeps P (f u))
      → Keeps P (get_user i >>= f)
  Keeps-bind-user {B} i f kf = record {
    at = λ w r h e. go w r h (>>=-eq-some (get_user i) f w r e);
  }
    where
      go :
          (w : World Db) (r : B × World Db)
          → P w
          → (q : User × World Db) × (get_user i w ≡ some q) × (f q.0 q.1 ≡ some r)
          → P r.1
      go w r h (q, e, g) =
          let (found, same) = get_user-reads i w q e in
          (kf q.0 (positions w i q.0 h found)).at q.1 r (subst P (sym same) h) g

  notify_chat-Keeps : (r c : ℕ) (user_id msg : List ℕ) → Keeps P (notify_chat p r c user_id msg)
  unfolding notify_chat
  notify_chat-Keeps r c user_id msg = Keeps-bind-lift (read_at msg 0 message_field) _ λ message m.
      Keeps-bind-lift (read_at user_id 0 user_id_field) _ λ name n.
        Keeps-bind _ _ (get_room-Keeps r) λ room.
          let a = length-read_at msg 0 message_field message m in
          let b = length-read_at user_id 0 user_id_field name n in
          send_to_all_user-Keeps 273 _ c false room.user_list λ i.
            sends i 273 _ (chat_packet-IsFramed _ name message b a)
              (length-chat_packet _ name message b a)

  ack-Keeps : (i c : ℕ) (id : PacketId) (result : ResultCode) → Keeps P (ack p i c id result)
  unfolding ack
  ack-Keeps i c id result =
      sends c 7 _ (ack_packet-IsFramed id _ result) (length-ack_packet id _ result)

  enter_found-Keeps : (i : ℕ) (found : Option ℕ) → Keeps P (enter_found i found)
  unfolding enter_found
  enter_found-Keeps i none = search keeps_rules
  enter_found-Keeps i (some r) = search (keeps_rules, get_room-Keeps, joins)

  enter_user-Keeps : (n : ℤ) (i : ℕ) → Keeps P (enter_user n i)
  unfolding enter_user
  enter_user-Keeps n i = search (keeps_rules, get_room_by_number-Keeps, enter_found-Keeps)

  leave_found-Keeps : (i : ℕ) (found : Option ℕ) → Keeps P (leave_found i found)
  unfolding leave_found
  leave_found-Keeps i none = search keeps_rules
  leave_found-Keeps i (some r) = leaves r i

  leave_user-Keeps : (n : ℤ) (i : ℕ) → Keeps P (leave_user n i)
  unfolding leave_user
  leave_user-Keeps n i = search (keeps_rules, get_room_by_number-Keeps, leave_found-Keeps)

  user_enter_room-Keeps : (i : ℕ) (n : ℤ) → Keeps P (user_enter_room i n)
  unfolding user_enter_room
  user_enter_room-Keeps i n = search (keeps_rules, enter_user-Keeps, moves, enters)

  user_leave_room-Keeps : (i : ℕ) → Keeps P (user_leave_room i)
  unfolding user_leave_room
  user_leave_room-Keeps i = search (keeps_rules, get_user-Keeps, leave_user-Keeps, lobbies)

  create_account_request-Keeps : (i c : ℕ) (q : Option ℕ) → Keeps P (create_account_request p i c q)
  unfolding create_account_request create_user_account
  create_account_request-Keeps i c q =
      search (keeps_rules, packet_memory-Keeps, queries, ack-Keeps) depth 9

  lobby_info_request-Keeps : (i c : ℕ) → Keeps P (lobby_info_request p i c)
  unfolding lobby_info_request get_room_list
  lobby_info_request-Keeps i c = Keeps-bind _ _ (ack-Keeps i c _ _) λ _.
      Keeps-bind _ _ (Keeps-gets _)
        λ room. sends c _ _ (lobby_info_packet-IsFramed _ room) (length-lobby_info_packet _ room)

  enter_room_request-Keeps : (i c : ℕ) (q : Option ℕ) → Keeps P (enter_room_request p i c q)
  unfolding enter_room_request
  enter_room_request-Keeps i c q =
      search (keeps_rules, packet_memory-Keeps, user_enter_room-Keeps, ack-Keeps) depth 9

  room_info_request-Keeps : (i c : ℕ) → Keeps P (room_info_request p i c)
  unfolding room_info_request
  room_info_request-Keeps i c = Keeps-bind _ _ (user_get_room-Keeps i) λ found.
      Keeps-bind _ _ (Keeps-lift found) λ room.
        Keeps-bind _ _ (get_room_member_list-Keeps room) λ members.
          sends c _ _ (room_info_packet-IsFramed _ members) (length-room_info_packet _ members)

  leave_room_request-Keeps : (i c : ℕ) → Keeps P (leave_room_request p i c)
  unfolding leave_room_request
  leave_room_request-Keeps i c = search (keeps_rules, user_leave_room-Keeps, ack-Keeps)

  chat_in-Keeps : (i c : ℕ) (q found : Option ℕ) → Keeps P (chat_in p i c q found)
  unfolding chat_in
  chat_in-Keeps i c q none = ack-Keeps i c _ _
  chat_in-Keeps i c q (some r) =
      search (keeps_rules, ack-Keeps, get_user-Keeps, packet_memory-Keeps, notify_chat-Keeps) depth
        9

  chat_request-Keeps : (i c : ℕ) (q : Option ℕ) → Keeps P (chat_request p i c q)
  unfolding chat_request
  chat_request-Keeps i c q = search (keeps_rules, user_get_room-Keeps, chat_in-Keeps)

  pub call_handler-Keeps :
      (i size : ℕ) (h : Handler) (q : Option ℕ) → Keeps P (call_handler p i i h size q)
  unfolding call_handler
  call_handler-Keeps i size ignore q = Keeps-pure tt
  call_handler-Keeps i size process_create_account q =
      search (keeps_rules, create_account_request-Keeps)
  call_handler-Keeps i size process_login q = search (keeps_rules, logins)
  call_handler-Keeps i size process_lobby_info q = lobby_info_request-Keeps i i
  call_handler-Keeps i size process_enter_room q = enter_room_request-Keeps i i q
  call_handler-Keeps i size process_room_info q = room_info_request-Keeps i i
  call_handler-Keeps i size process_leave_room q = leave_room_request-Keeps i i
  call_handler-Keeps i size process_room_chat_message q = chat_request-Keeps i i q
