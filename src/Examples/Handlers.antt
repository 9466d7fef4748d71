-- ===== src/Examples/Handlers.antt =====
-- Concrete inputs for the theorems about users, rooms, accounts and requests.
use lhjsample.Common.{
  ℕ, ◌+◌, ◌≡◌, ◌⊎◌, inl, inr, refl, List, [], ◌∷◌, ◌++◌, true, false, ℤ, pos, Option, none, some,
  arith, replicate, ◌<◌, get_elem?, if◌then◌else◌, leb, eq_bytes, ◌+ℤ◌,
}
use lhjsample.Common.Effect.{◌>>=◌}
use lhjsample.Packet.{
  name_packet, notify_room_info, enter_room_full_user, enter_room_success, room_invalid_index,
  login_user_used_all_obj, login_user_already, login_success, login_user_invalid_pw,
}
use lhjsample.User.{User, connected, in_room, change_state, set_login}
use lhjsample.User.Bindings.{UserIsValid, protocol, change_state-protocol, change_state-total}
use lhjsample.AccountDb.{select_account}
use lhjsample.AccountDb.Passwords.{select_account-long_password}
use lhjsample.World.{World, Room, rooms}
use lhjsample.World.Inversion.{with_room, with_user}
use lhjsample.Rooms.{enter_room_user, get_room_by_number, init_room_manager}
use lhjsample.Rooms.Numbers.{get_room_by_number_lem}
use lhjsample.Rooms.Broadcast.{
  broadcast, with_messages, enter_room_user_lem, enter_room_user-long_id,
}
use lhjsample.Accounts.{find_id, check_loginable}
use lhjsample.Accounts.Login.{with_db, logged_in, check_loginable_lem}
use lhjsample.Session.{user_enter_room}
use lhjsample.Session.Guards.{user_enter_room-invalid}
use lhjsample.Examples.{platform, driver, two_clients, fresh_user, two_clients-UsersValid}

some_user : Option User → User
some_user none = fresh_user 0
some_user (some u) = u

abbrev ab : List ℕ
ab = 97 ∷ 98 ∷ []

abbrev pw : List ℕ
pw = 112 ∷ 119 ∷ []

fresh_user-UserIsValid : UserIsValid 0 (fresh_user 0)
fresh_user-UserIsValid = two_clients-UsersValid 0 (fresh_user 0) refl

connected_user : (v : User) × (change_state connected (fresh_user 0) ≡ some v)
connected_user =
    change_state-total connected 0 (fresh_user 0) (λ k. cc) (λ k. cc) fresh_user-UserIsValid

change_state-protocol_example :
    (connected_user.0.state ≡ connected)
    × (connected_user.0.recv_funtion_dictionary 210 ≡ some (protocol connected 210))
change_state-protocol_example =
    change_state-protocol connected (fresh_user 0) connected_user.0 210 connected_user.1
      (inr (inl refl))

pw_accepted : (select_account driver ab pw tt).0 ≡ true
unfolding select_account eq_bytes
pw_accepted = refl

select_account-long_password_example : (select_account driver ab (replicate 10 112) tt).0 ≡ false
select_account-long_password_example =
    select_account-long_password driver ab (replicate 10 112) tt (λ v. refl) (omega arith)

logged_user : User
unfolding set_login
logged_user = some_user (set_login ab (fresh_user 0))

logs : set_login ab (fresh_user 0) ≡ some logged_user
unfolding logged_user set_login change_state some_user
logs = refl

check_loginable_lem_example : check_loginable platform 0 ab pw two_clients ≡ (
    if leb 2 0 then some (login_user_used_all_obj, two_clients) else elim (find_id ab []) [
      | some other ↦ some (login_user_already, two_clients)
      | none ↦
          if (select_account driver ab pw tt).0
          then some (
            login_success,
            logged_in (with_db two_clients (select_account driver ab pw tt).1) 0 ab logged_user,
          )
          else some (login_user_invalid_pw, with_db two_clients (select_account driver ab pw tt).1)
    ])
check_loginable_lem_example =
    check_loginable_lem platform 0 ab pw two_clients (fresh_user 0) logged_user refl logs

get_room_by_number_lem_example :
    ((r : ℕ) × (a : Room) × (get_room_by_number (pos 3) two_clients ≡ some (some r, two_clients))
      × (get_elem? (rooms two_clients) r ≡ some a)
      × (a.room_num ≡ pos 3))
    ⊎ ((get_room_by_number (pos 3) two_clients ≡ some (none, two_clients))
        × ((k : ℕ) → k < 10 → ¬ (pos 3 ≡ pos (0 + k))))
get_room_by_number_lem_example = get_room_by_number_lem 0 10 4 two_clients (pos 3) refl

-- A room with one member, and a user whose id is too long.
abbrev one_room : Room
one_room = record {
  room_num = pos 0;
  user_list = 1 ∷ [];
  max_user_count = 4;
  current_user_count = 1;
}

abbrev long_user : User
long_user = record (fresh_user 0) { user_id = replicate 12 97 }

abbrev one_member : User → World (Unit {0})
one_member u = record two_clients {
  user_manager = record two_clients.user_manager { user_obj_pool = u ∷ fresh_user 1 ∷ [] };
  room_manager = record two_clients.room_manager { room_list = one_room ∷ [] };
}

abbrev named_user : User
named_user = record (fresh_user 0) { user_id = ab }

enter_room_user_lem_example :
    let told =
      with_messages
        (one_member named_user)
        (broadcast 16 (name_packet notify_room_info (ab ++ replicate 9 0)) 0 false (1 ∷ [])) in
    enter_room_user 0 0 (one_member named_user) ≡ (
      if leb 4 1
      then some (enter_room_full_user, one_member named_user)
      else some (
        enter_room_success,
        with_room told 0 (record one_room { user_list = 1 ∷ 0 ∷ []; current_user_count = 2 }),
      ))
enter_room_user_lem_example =
    enter_room_user_lem 0 0 one_room named_user (one_member named_user) refl refl
      fresh_user-UserIsValid.position
      ((fresh_user 1, refl, (two_clients-UsersValid 1 (fresh_user 1) refl).position), tt)
      (omega arith)

enter_room_user-long_id_example : enter_room_user 0 0 (one_member long_user) ≡ none
enter_room_user-long_id_example =
    enter_room_user-long_id 0 0 one_room long_user (one_member long_user) refl refl (omega arith)
      (omega arith)

no_room : (n : ℤ) → n ≡ pos 10 → get_room_by_number n two_clients ≡ some (none, two_clients)
unfolding get_room_by_number init_room_manager ◌>>=◌ ◌+ℤ◌
no_room n e = rw e refl

user_enter_room-invalid_example :
    (v : User) × (user_enter_room 0 (pos 10) two_clients
      ≡ some (
        room_invalid_index,
        with_user (with_user two_clients 0 (record (fresh_user 0) { room_index = pos 10 })) 0 v,
      ))
    × (v.state ≡ in_room)
    × (v.room_index ≡ pos 10)
user_enter_room-invalid_example =
    user_enter_room-invalid platform 0 (pos 10) two_clients (fresh_user 0) refl
      fresh_user-UserIsValid (no_room (pos 10) refl)

-- A user that holds the number of a room that does not exist.
abbrev lost_user : User
lost_user = record (fresh_user 0) { room_index = pos 10 }

lost-nowhere :
    get_room_by_number (pos 10) (one_member lost_user) ≡ some (none, one_member lost_user)
unfolding get_room_by_number init_room_manager ◌>>=◌ ◌+ℤ◌
lost-nowhere = refl
