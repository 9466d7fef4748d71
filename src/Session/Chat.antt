-- ===== src/Session/Chat.antt =====
-- A chat message from the request to the members of the room.
use lhjsample.Common.{
  ℕ, ◌≤◌, ◌≡◌, ap, ◌∙◌, List, [], ◌∷◌, ◌++◌, false, some, length, take, drop, get_elem?, arith,
  read_at,
}
use lhjsample.Common.Effect.{◌>>=◌}
use lhjsample.Packet.{
  ack_packet, chat_packet, ack_room_chat, notify_room_chat, chat_room_success, message_offset,
  message_field, user_id_field,
}
use lhjsample.User.{User}
use lhjsample.World.{World, Room, Message, Platform, rooms, get_user, get_room, send_packet}
use lhjsample.World.Inversion.{message, UserAt}
use lhjsample.Rooms.{get_room_by_number, notify_chat}
use lhjsample.Rooms.Broadcast.{
  broadcast, with_messages, with_messages-append, MembersOf, MembersOf-with_messages,
  send_to_all_user_lem,
}
use lhjsample.Session.{chat_request, chat_in, ack, user_get_room, packet_memory}

module _ {Db : Type 0} (p : Platform Db) (i client_index offset : ℕ) (u : User) (w : World Db) where
  -- What the sender is told.
  abbrev told : List Message
  told =
      message client_index 7
        (ack_packet ack_room_chat (p.stack_byte ack_room_chat) chat_room_success)
      ∷ []

  -- The memory from the user's id on, and from the text of the packet on.
  abbrev pub id_memory : List ℕ
  id_memory = u.user_id ++ 0 ∷ p.past_end u.user_id

  abbrev pub text_memory : List ℕ
  text_memory = drop message_offset (drop offset u.buffer.bytes)

  read_at-front : (m : List ℕ) (n : ℕ) → n ≤ length m → read_at m 0 n ≡ some (take n m)
  unfolding read_at
  read_at-front m n h = ground arith

  -- A chat request of a user in a room, with a whole text behind the header of its packet: the
  -- sender is told that it succeeded, and then every member of the room, in the order of the list
  -- and the sender included, is sent the eleven bytes from the sender's id on and the text, and
  -- nothing else changes.
  pub chat_request_lem :
      (r : ℕ) (a : Room)
      → UserAt w i u
      → get_room_by_number u.room_index w ≡ some (some r, w)
      → get_elem? (rooms w) r ≡ some a
      → MembersOf w a.user_list
      → user_id_field ≤ length id_memory
      → message_field ≤ length text_memory
      → chat_request p i client_index (some offset) w
        ≡ some (
          tt,
          with_messages w (
              told
              ++ broadcast 273
                  (chat_packet
                    (p.stack_byte notify_room_chat)
                    (take user_id_field id_memory)
                    (take message_field text_memory))
                  client_index
                  false
                  a.user_list),
        )
  unfolding chat_request chat_in ack user_get_room packet_memory notify_chat get_user get_room
      send_packet ◌>>=◌
  chat_request_lem r a at room found members id text =
      let bytes =
        chat_packet (p.stack_byte notify_room_chat) (take user_id_field id_memory)
          (take message_field text_memory) in
      let w' = with_messages w told in
      rw
        (
          at,
          room,
          at,
          at,
          read_at-front text_memory message_field text,
          read_at-front id_memory user_id_field id,
          found,
        )
        (send_to_all_user_lem 273 bytes client_index false a.user_list w'
            (MembersOf-with_messages w told a.user_list members)
          ∙ ap (λ x. some (tt, x))
              (with_messages-append w told (broadcast 273 bytes client_index false a.user_list)))
