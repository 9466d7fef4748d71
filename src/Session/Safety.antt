-- ===== src/Session/Safety.antt =====
-- Which requests end: the handlers of LHJSample/User/State in a safe world.
pub mod Requests
use mathlib.Core.Option.{some-injective}
use lhjsample.Common.{
  ℕ, zero, suc, ◌+◌, ◌-◌, ◌≤◌, ◌<◌, ◌≡◌, refl, sym, ap, ◌∙◌, subst, ℤ, pos, List, [], ◌∷◌, ◌++◌,
  Bool, Option, some, none, length, drop, get_elem?, get_elem?_of_lt, length-append, length-drop,
  arith, c_string, read_i32, signed32, ◌*◌, if◌then◌else◌, ◌==◌,
}
use lhjsample.Common.Effect.{Effect, pure, update, lift, gets, ◌>>=◌, ◌>>◌}
use lhjsample.Packet.{PacketId, ResultCode, user_id_field, message_field}
use lhjsample.User.Buffer.{packet_data_buffer_size}
use lhjsample.User.{
  User, Handler, ignore, in_lobby, in_room, process_create_account, process_login,
  process_lobby_info, process_enter_room, process_room_info, process_leave_room,
  process_room_chat_message, change_state, set_login, UserState, disconnect, room_enter, room_exit,
}
use lhjsample.User.Bindings.{
  UserIsValid, change_state-total, change_state-UserIsValid, change_state-user_id,
  set_login-UserIsValid, set_login-user_id,
}
use lhjsample.World.{World, Platform, users, get_user, modify_user}
use lhjsample.World.Inversion.{UserAt}
use lhjsample.World.Safety.{
  Safe, Any, Known, Ends, Ends-pure, Ends-bind, Ends-if, Ends-lift, get_user-Ends, modify_user-Ends,
  send_packet-Ends, call_db-Ends,
}
use lhjsample.Rooms.{get_room_by_number}
use lhjsample.Rooms.Safety.{
  Found, notify_chat-Ends, get_room_member_list-Ends, get_room_by_number-Ends, enter_user-Ends,
  leave_user-Ends, get_room_list-Ends,
}
use lhjsample.Accounts.{check_loginable, login, add_user, update_dictionary, create_user_account}
use lhjsample.Session.{
  user_enter_room, user_leave_room, user_get_room, packet_memory, ack, create_account_request,
  login_request, lobby_info_request, enter_room_request, room_info_request, leave_room_request,
  chat_in, chat_request, call_handler,
}

-- The methods of one user end on a known user, and leave one.
pub change_state-Known :
    (s : UserState) (i : ℕ) (u : User)
    → ¬ (s ≡ room_enter)
    → ¬ (s ≡ room_exit)
    → ¬ (s ≡ disconnect)
    → Known i u
    → (v : User) × (change_state s u ≡ some v) × Known i v
change_state-Known s i u a b c (valid, short) =
    let (v, e) = change_state-total s i u a b valid in
    (
      v,
      e,
      (
        change_state-UserIsValid i u v valid s c e,
        subst (λ x. length x ≤ user_id_field) (sym (change_state-user_id i u v valid s e)) short,
      ),
    )

pub set_login-Known :
    (id : List ℕ) (i : ℕ) (u : User)
    → length id ≤ user_id_field
    → Known i u
    → (v : User) × (set_login id u ≡ some v) × Known i v
unfolding set_login
set_login-Known id i u small (valid, short) =
    let (changed, e) = change_state-total in_lobby i u (λ h. cc) (λ h. cc) valid in
    let v : User = record changed { user_id = id } in
    let made : set_login id u ≡ some v = rw e refl in
    (v, made, (set_login-UserIsValid i u v valid id made, small))

-- A number that lies in the memory is read.
pub read_i32-fits : (m : List ℕ) (i : ℕ) → i + 4 ≤ length m → (z : ℤ) × (read_i32 m i ≡ some z)
unfolding read_i32
read_i32-fits m i h =
    let (a, e0) = get_elem?_of_lt m i (omega (arith, h)) in
    let (b, e1) = get_elem?_of_lt m (i + 1) (omega (arith, h)) in
    let (c, e2) = get_elem?_of_lt m (i + 2) (omega (arith, h)) in
    let (d, e3) = get_elem?_of_lt m (i + 3) (omega (arith, h)) in
    (signed32 (a + 256 * b + 65536 * c + 16777216 * d), rw (e0, e1, e2, e3) refl)

module _ {Db : Type 0} (p : Platform Db) (k n i client_index : ℕ) where
  pub ack-Ends :
      (id : PacketId) (result : ResultCode)
      → Ends {Db = Db} k n Any (ack p i client_index id result)
  unfolding ack
  ack-Ends id result = send_packet-Ends k n _ _ _

  pub user_get_room-Ends : i < k → Ends {Db = Db} k n (Found n) (user_get_room i)
  unfolding user_get_room
  user_get_room-Ends below =
      Ends-bind k n _ _ (get_user-Ends k n i below) λ u known. get_room_by_number-Ends k n _

  pub packet_memory-Ends :
      (offset : ℕ)
      → i < k
      → Ends {Db = Db} k n
          (λ m. length m ≡ packet_data_buffer_size - offset)
          (packet_memory i (some offset))
  unfolding packet_memory
  packet_memory-Ends offset below = Ends-bind k n _ _ (get_user-Ends k n i below) λ u known.
      Ends-bind k n _ _ (Ends-lift k n {P = λ x. x ≡ offset} _ offset refl refl) λ x same.
        Ends-pure k n _
          (rw same (omega (arith, length-drop offset u.buffer.bytes, known.0.buffer_valid.storage)))

  pub user_enter_room-Ends :
      (number : ℤ) → i < k → Ends {Db = Db} k n Any (user_enter_room i number)
  unfolding user_enter_room
  user_enter_room-Ends number below =
      Ends-bind k n _ _ (enter_user-Ends k n number i below) λ result _.
        Ends-bind k n _ _
          (modify_user-Ends k n i _ below λ u (valid, short). (
            record u { room_index = number },
            refl,
            (
              record {
                position = valid.position;
                buffer_valid = valid.buffer_valid;
                bindings = record {
                  entered = valid.bindings.entered;
                  bound = valid.bindings.bound;
                };
              },
              short,
            ),
          ))
          λ _ _.
            Ends-bind k n _ _
              (modify_user-Ends k n i _ below
                λ u known. change_state-Known in_room i u (λ h. cc) (λ h. cc) (λ h. cc) known)
              λ _ _. Ends-pure k n _ tt

  pub user_leave_room-Ends : i < k → Ends {Db = Db} k n Any (user_leave_room i)
  unfolding user_leave_room
  user_leave_room-Ends below = Ends-bind k n _ _ (get_user-Ends k n i below) λ u known.
      Ends-bind k n _ _ (leave_user-Ends k n u.room_index i below) λ result _.
        Ends-bind k n _ _
          (modify_user-Ends k n i _ below
            λ v known'. change_state-Known in_lobby i v (λ h. cc) (λ h. cc) (λ h. cc) known')
          λ _ _. Ends-pure k n _ tt
