-- ===== src/Rooms/Broadcast.antt =====
-- What the members of a room are sent, and what entering and leaving do to the room.
use lhjsample.Common.{
  ℕ, ◌+◌, ◌%◌, ◌^◌, ◌≤◌, ◌<◌, ◌≡◌, refl, sym, ap, ◌∙◌, inl, inr, List, [], ◌∷◌, ◌++◌, append_assoc,
  append-nil, Bool, false, ◌&&◌, some, none, length, get_elem?, if◌then◌else◌, leb, ◌==◌, arith,
  Bool-cases, replicate, ◌-◌,
}
use lhjsample.Common.Effect.{update, ◌>>=◌}
use lhjsample.Packet.Framing.{zeroed_name-fits, zeroed_name-long}
use lhjsample.Packet.{
  name_packet, notify_room_info, enter_room_full_user, enter_room_success, user_id_field,
}
use lhjsample.User.{User}
use lhjsample.World.{
  World, Room, Message, rooms, get_user, get_room, modify_room, put_room, send_packet,
}
use lhjsample.World.Inversion.{message, with_room, UserAt}
use lhjsample.Rooms.{send_to_all_user, push_user, enter_room_user}

-- The messages of one broadcast, in the order of the list; the passed user is left out if asked.
abbrev pub broadcast : ℕ → List ℕ → ℕ → Bool → List ℕ → List Message
broadcast size bytes pass except_me [] = []
broadcast size bytes pass except_me (m ∷ members) =
    let rest = broadcast size bytes pass except_me members in
    if except_me && (m == pass) then rest else message m size bytes ∷ rest

module _ {Db : Type 0} where
  abbrev pub with_messages : World Db → List Message → World Db
  with_messages w ms = record w { sent = w.sent ++ ms }

  -- Every member is a user of the pool that knows its position.
  abbrev pub MembersOf : World Db → List ℕ → Type 0
  MembersOf w [] = Unit
  MembersOf w (m ∷ members) = ((u : User) × UserAt w m u × (u.index ≡ m)) × MembersOf w members

  pub MembersOf-with_messages :
      (w : World Db) (ms : List Message) (members : List ℕ)
      → MembersOf w members
      → MembersOf (with_messages w ms) members
  MembersOf-with_messages w ms [] h = tt
  MembersOf-with_messages w ms (m ∷ members) (a, h) = (a, MembersOf-with_messages w ms members h)

  pub with_messages-append :
      (w : World Db) (xs ys : List Message)
      → with_messages (with_messages w xs) ys ≡ with_messages w (xs ++ ys)
  with_messages-append w xs ys = ap (λ ms. record w { sent = ms }) (append_assoc w.sent xs ys)

  -- `SendToAllUser` sends the bytes once to each member in the order of the list, but not to the
  -- user that is passed if `exceptMe` is set, and changes nothing else.
  pub send_to_all_user_lem :
      (size : ℕ) (bytes : List ℕ) (pass : ℕ) (except_me : Bool) (members : List ℕ) (w : World Db)
      → MembersOf w members
      → send_to_all_user size bytes pass except_me members w
        ≡ some (tt, with_messages w (broadcast size bytes pass except_me members))
  unfolding send_to_all_user get_user send_packet ◌>>=◌
  send_to_all_user_lem size bytes pass except_me [] w h =
      ap (λ ms. some (tt, record w { sent = ms })) (sym (append-nil w.sent))
  send_to_all_user_lem size bytes pass except_me (m ∷ members) w ((u, at, place), h) =
      elim (Bool-cases (except_me && (m == pass))) [
        | inl passed ↦
            rw (at, place, passed) (send_to_all_user_lem size bytes pass except_me members w h)
        | inr other ↦
            let w' = with_messages w (message m size bytes ∷ []) in
            rw (at, place, other)
              (send_to_all_user_lem size bytes pass except_me members w'
                  (MembersOf-with_messages w (message m size bytes ∷ []) members h)
                ∙ ap (λ x. some (tt, x))
                    (with_messages-append w (message m size bytes ∷ [])
                      (broadcast size bytes pass except_me members)))
      ]

  module _ (r i : ℕ) (a : Room) (u : User) (w : World Db) where
    -- Entering a room: a full room answers so and nothing changes; else the members that are there
    -- are sent the id of the user, and the user becomes the last member and is counted. The id must
    -- fit the field of the packet.
    pub enter_room_user_lem :
        get_elem? (rooms w) r ≡ some a
        → UserAt w i u
        → u.index ≡ i
        → MembersOf w a.user_list
        → length u.user_id ≤ user_id_field
        → let name = u.user_id ++ replicate (user_id_field - length u.user_id) 0 in
          let told =
            with_messages w
              (broadcast 16 (name_packet notify_room_info name) i false a.user_list) in
          enter_room_user r i w ≡ (
            if leb a.max_user_count a.current_user_count
            then some (enter_room_full_user, w)
            else some (
              enter_room_success,
              with_room told r (record a {
                user_list = a.user_list ++ i ∷ [];
                current_user_count = (a.current_user_count + 1) % 2 ^ 16;
              }),
            ))
    unfolding enter_room_user get_room get_user modify_room put_room push_user update ◌>>=◌
    enter_room_user_lem at found place members short =
        let name = u.user_id ++ replicate (user_id_field - length u.user_id) 0 in
        let bytes = name_packet notify_room_info name in
        elim (Bool-cases (leb a.max_user_count a.current_user_count)) [
          | inl full ↦ rw (at, full) refl
          | inr space ↦
              rw
                (
                  at,
                  space,
                  found,
                  zeroed_name-fits u.user_id short,
                  place,
                  send_to_all_user_lem 16 bytes i false a.user_list w members,
                  at,
                )
                refl
        ]

    -- In a room with a free place, a user whose id is longer than the field faults: the loop of
    -- `EnterUser` over the bytes of the id writes past the end of the array.
    pub enter_room_user-long_id :
        get_elem? (rooms w) r ≡ some a
        → UserAt w i u
        → a.current_user_count < a.max_user_count
        → user_id_field < length u.user_id
        → enter_room_user r i w ≡ none
    unfolding enter_room_user get_room get_user ◌>>=◌
    enter_room_user-long_id at found space long =
        let free : leb a.max_user_count a.current_user_count ≡ false = ground arith in
        rw (at, free, found, zeroed_name-long u.user_id long) refl
