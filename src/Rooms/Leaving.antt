-- ===== src/Rooms/Leaving.antt =====
-- What leaving does to a room and sends to its members.
use lhjsample.Common.{
  ℕ, ◌≤◌, ◌-◌, ◌≡◌, refl, List, [], ◌∷◌, ◌++◌, false, some, none, length, get_elem?, if◌then◌else◌,
  replicate, eq_bytes,
}
use lhjsample.Common.Effect.{update, ◌>>=◌}
use lhjsample.Packet.Framing.{zeroed_name-fits}
use lhjsample.Packet.{name_packet, notify_room_leave, leave_room_success, user_id_field}
use lhjsample.User.{User}
use lhjsample.World.{World, Room, rooms, users, get_user, get_room, modify_room, put_room}
use lhjsample.World.Inversion.{with_room, UserAt}
use lhjsample.Rooms.{remove_id, remove_user, leave_room_user}
use lhjsample.Rooms.Broadcast.{broadcast, with_messages, MembersOf, send_to_all_user_lem}

-- The members with another id.
abbrev pub others : List User → List ℕ → List ℕ → List ℕ
others pool id [] = []
others pool id (m ∷ members) = elim (get_elem? pool m) [
  | none ↦ m ∷ others pool id members
  | some user ↦
      if eq_bytes id user.user_id then others pool id members else m ∷ others pool id members
]

module _ {Db : Type 0} where
  remove_id-others :
      (id members : List ℕ) (w : World Db)
      → MembersOf w members
      → remove_id (users w) id members ≡ some (others (users w) id members)
  unfolding remove_id
  remove_id-others id [] w h = refl
  remove_id-others id (m ∷ members) w ((u, at, place), h) =
      rw (others, at, remove_id-others id members w h) refl

  -- Leaving a room: every member is sent the id of the user, the user itself included if it is a
  -- member, and then the members with this id are taken from the list; the count stays. The id must
  -- fit the field of the packet.
  pub leave_room_user_lem :
      (r i : ℕ) (a : Room) (u : User) (w : World Db)
      → get_elem? (rooms w) r ≡ some a
      → UserAt w i u
      → u.index ≡ i
      → MembersOf w a.user_list
      → length u.user_id ≤ user_id_field
      → let name = u.user_id ++ replicate (user_id_field - length u.user_id) 0 in
        leave_room_user r i w
        ≡ some (
          leave_room_success,
          with_room
              (with_messages w
                (broadcast 16 (name_packet notify_room_leave name) i false a.user_list))
              r
              (record a { user_list = others (users w) u.user_id a.user_list }),
        )
  unfolding leave_room_user get_room get_user modify_room put_room remove_user update ◌>>=◌
  leave_room_user_lem r i a u w at found place members short =
      let name = u.user_id ++ replicate (user_id_field - length u.user_id) 0 in
      rw
        (
          at,
          found,
          zeroed_name-fits u.user_id short,
          place,
          send_to_all_user_lem 16 (name_packet notify_room_leave name) i false a.user_list w
              members,
          at,
          remove_id-others u.user_id a.user_list w members,
        )
        refl
