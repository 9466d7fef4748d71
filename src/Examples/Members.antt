-- ===== src/Examples/Members.antt =====
-- Concrete inputs for the theorems about the members of a room.
use lhjsample.Common.{
  ℕ, ◌≡◌, ◌≤◌, refl, [], ◌∷◌, false, pos, some, arith, replicate, length, length-replicate,
  length-drop, ◌+ℤ◌, ◌-ℤ◌,
}
use lhjsample.Common.Effect.{◌>>=◌}
use lhjsample.Packet.{name_packet, notify_room_leave, leave_room_success, message_field}
use lhjsample.User.{User, reset_recv_function}
use lhjsample.World.{World, Room, Platform, users, get_room}
use lhjsample.World.Inversion.{with_room}
use lhjsample.Rooms.{leave_room_user, get_room_by_number, init_room_manager}
use lhjsample.Rooms.Broadcast.{broadcast, with_messages, MembersOf}
use lhjsample.Rooms.Leaving.{others, leave_room_user_lem}
use lhjsample.Session.Chat.{text_memory}
use lhjsample.Examples.{platform, two_clients, fresh_user, storage, two_clients-UsersValid}

-- Two members, of whom one has an id.
abbrev pub room : Room
room = record {
  room_num = pos 0;
  user_list = 1 ∷ 0 ∷ [];
  max_user_count = 4;
  current_user_count = 2;
}

abbrev pub member : User
member = record (fresh_user 0) { user_id = 97 ∷ 98 ∷ []; room_index = pos 0 }

abbrev pub world : World (Unit {0})
world = record two_clients {
  user_manager = record two_clients.user_manager { user_obj_pool = member ∷ fresh_user 1 ∷ [] };
  room_manager = record two_clients.room_manager { room_list = room ∷ [] };
}

pub members : MembersOf world (1 ∷ 0 ∷ [])
members = (
  (fresh_user 1, refl, (two_clients-UsersValid 1 (fresh_user 1) refl).position),
  ((member, refl, (two_clients-UsersValid 0 (fresh_user 0) refl).position), tt),
)

leave_room_user_lem_example :
    leave_room_user 0 0 world
    ≡ some (
      leave_room_success,
      with_room
          (with_messages world (
            broadcast 16
              (name_packet notify_room_leave (97 ∷ 98 ∷ replicate 9 0))
              0
              false
              (1 ∷ 0 ∷ [])))
          0
          (record room { user_list = others (users world) (97 ∷ 98 ∷ []) (1 ∷ 0 ∷ []) }),
    )
leave_room_user_lem_example =
    leave_room_user_lem 0 0 room member world refl refl
      (two_clients-UsersValid 0 (fresh_user 0) refl).position members (omega arith)

-- What follows the id in memory is zeros.
abbrev pub memory : Platform (Unit {0})
memory = record platform { past_end = λ id. replicate 9 0 }

pub in_first : get_room_by_number (pos 0) world ≡ some (some 0, world)
unfolding get_room_by_number ◌>>=◌ init_room_manager ◌+ℤ◌ get_room ◌-ℤ◌
in_first = refl

text : message_field ≤ length (text_memory memory 0 0 0 member world)
unfolding reset_recv_function
text = omega (arith, length-drop 5 (storage 0), length-replicate {A = ℕ} 8096 0)
