-- ===== src/FormsClient/Notices/Chat.antt =====
-- A chat message from the window of one user, through the server, to the windows of the members of
-- the room: LHJSampleClientCS/Form1.cs and Packet.cs, LHJSample/User/State/UserStateInRoom.cpp and
-- LHJSample/Room/Room.cpp.
use lhjsample.Common.{
  ℕ, zero, suc, ◌-◌, ◌≤◌, ◌≡◌, refl, sym, ap, ◌∙◌, List, [], ◌∷◌, ◌++◌, Option, some, true, false,
  arith, length, take, drop, get_elem?, read_at-fits, length-append, length-take,
  take-append_length, subst, append-nil, if_of_true,
}
use lhjsample.Packet.{
  chat_packet, req_room_chat, notify_room_chat, ack_room_chat, ack_packet, chat_room_success,
}
use lhjsample.User.{User}
use lhjsample.World.{World, Room, Platform, rooms}
use lhjsample.World.Inversion.{UserAt, message}
use lhjsample.Rooms.{get_room_by_number}
use lhjsample.Rooms.Broadcast.{broadcast, with_messages, MembersOf}
use lhjsample.Session.{chat_request}
use lhjsample.Session.Chat.{chat_request_lem, text_memory}
use lhjsample.FormsClient.{Encoding, text_at, chat_body, chat_from_bytes}
use lhjsample.FormsClient.Fields.{
  IsUtf8, IsText, padded, shown, shown-text_nul, length-padded, write_at-zeros,
}
use lhjsample.FormsClient.Form.{Form, request_bytes, post_send_packet, add_room_chat_message_list}
use lhjsample.FormsClient.Dispatch.{
  chat_send_click, packet_process, packet_func_dic, process_notify_room_chat,
}
use lhjsample.FormsClient.Receiving.{decoded}
use lhjsample.FormsClient.Notices.{text_at-padded}

take-past :
    (n : ℕ) (xs ys : List ℕ) → length xs ≤ n → take n (xs ++ ys) ≡ xs ++ take (n - length xs) ys
take-past n [] ys h = let e : n ≡ n - 0 = omega arith in ap (λ k. take k ys) e
take-past zero (x ∷ xs) ys h = elim h [ ]
take-past (suc n) (x ∷ xs) ys h =
    let e : n - length xs ≡ suc n - suc (length xs) = omega arith in
    ap (◌∷◌ x) (take-past n xs ys (omega arith) ∙ ap (λ k. xs ++ take k ys) e)

-- The eleven bytes from the id of the sender on: the id, its NUL, and what stands behind them.
take-id :
    (id junk : List ℕ)
    → length id ≤ 10
    → take 11 (id ++ 0 ∷ junk) ≡ id ++ 0 ∷ take (10 - length id) junk
take-id id junk h =
    let e : 11 - length id ≡ suc (10 - length id) = omega (arith, h) in
    take-past 11 id (0 ∷ junk) (omega (arith, h)) ∙ ap (λ k. id ++ take k (0 ∷ junk)) e

module _ (utf8 : Encoding) where
  -- The name that the windows show for a sender.
  abbrev pub sender_name : List ℕ → List ℕ → List ℕ
  sender_name name junk = name ++ shown utf8 (take (10 - length (utf8.get_bytes name)) junk)

  -- What a window makes of the packet.
  packet_process-chat :
      (kind : ℕ) (name junk text : List ℕ) (form : Form)
      → IsUtf8 utf8
      → IsText utf8 name
      → IsText utf8 text
      → length (utf8.get_bytes name) ≤ 10
      → length (utf8.get_bytes text) ≤ 257
      → 11 ≤ length (utf8.get_bytes name ++ 0 ∷ junk)
      → packet_process utf8
          (decoded (
            chat_packet kind
              (take 11 (utf8.get_bytes name ++ 0 ∷ junk))
              (padded 257 (utf8.get_bytes text))))
          form
        ≡ some (add_room_chat_message_list (sender_name name junk) text form)
  unfolding packet_process packet_func_dic process_notify_room_chat chat_from_bytes decoded
      chat_packet text_at
  packet_process-chat kind name junk text form law n t h k more =
      let front : List ℕ = take 11 (utf8.get_bytes name ++ 0 ∷ junk) in
      let field : List ℕ = padded 257 (utf8.get_bytes text) in
      let size : length front ≡ 11 =
        omega (arith, more, length-take 11 (utf8.get_bytes name ++ 0 ∷ junk)) in
      let first : text_at utf8 (front ++ field) 0 11 ≡ some (sender_name name junk) =
        rw
          (read_at-fits (front ++ field) 0 11 (omega (arith, size, length-append front field))
            ∙ ap some (
                take-append_length 11 front field (sym size)
                ∙ take-id (utf8.get_bytes name) junk h))
          (ap some
            (shown-text_nul utf8 law name (take (10 - length (utf8.get_bytes name)) junk) n)) in
      let second : text_at utf8 (front ++ field) 11 257 ≡ some text =
        text_at-padded utf8 257 text front [] (front ++ field) 11 law t k (sym size)
          (ap (λ x. front ++ x) (sym (append-nil field))) in
      rw (first, second) refl

  chat_send_click-packet :
      (text : List ℕ) (form : Form)
      → length (utf8.get_bytes text) ≤ 257
      → chat_send_click utf8 text form
        ≡ some (post_send_packet req_room_chat (padded 257 (utf8.get_bytes text)) form)
  unfolding chat_send_click chat_body
  chat_send_click-packet text form h = rw (write_at-zeros 257 (utf8.get_bytes text) h) refl

  module _ {Db : Type 0} (p : Platform Db) (i client_index offset : ℕ) (u : User)
      (w : World Db) where
    -- What the members of the room are sent.
    abbrev pub chat_bytes : List ℕ → List ℕ → List ℕ
    chat_bytes name text =
        chat_packet (p.stack_byte notify_room_chat)
          (take 11 (utf8.get_bytes name ++ 0 ∷ p.past_end (utf8.get_bytes name)))
          (padded 257 (utf8.get_bytes text))

    -- A chat message from window to window. Where a user in a room types a text of at most 257 bytes
    -- and the request stands in the user's buffer on the server: the client has queued just that
    -- request; the server tells the sender that it succeeded and sends one packet to every member
    -- of the room in the order of the list, the sender included, and changes nothing else; and a
    -- window that processes this packet adds to its chat list the sender's name and the text as it
    -- was typed. The name, of at most ten bytes, is followed by what the rest of the field shows,
    -- which the server fills with the memory behind the id.
    pub chat_send_click_lem :
        (name text rest : List ℕ) (sender receiver : Form) (r : ℕ) (a : Room)
        → IsUtf8 utf8
        → IsText utf8 name
        → IsText utf8 text
        → length (utf8.get_bytes name) ≤ 10
        → length (utf8.get_bytes text) ≤ 257
        → sender.is_connected ≡ true
        → UserAt w i u
        → u.user_id ≡ utf8.get_bytes name
        → 11 ≤ length (utf8.get_bytes name ++ 0 ∷ p.past_end (utf8.get_bytes name))
        → get_room_by_number u.room_index w ≡ some (some r, w)
        → get_elem? (rooms w) r ≡ some a
        → MembersOf w a.user_list
        → drop offset u.buffer.bytes
          ≡ request_bytes req_room_chat (padded 257 (utf8.get_bytes text)) ++ rest
        → (chat_send_click utf8 text sender
            ≡ some (record sender {
              send_packet_queue =
                  sender.send_packet_queue
                  ++ request_bytes req_room_chat (padded 257 (utf8.get_bytes text)) ∷ [];
            }))
          × (chat_request p i client_index (some offset) w
              ≡ some (
                tt,
                with_messages w (
                    message client_index 7
                      (ack_packet ack_room_chat (p.stack_byte ack_room_chat) chat_room_success)
                    ∷ broadcast 273 (chat_bytes name text) client_index false a.user_list),
              ))
          × (packet_process utf8 (decoded (chat_bytes name text)) receiver
              ≡ some (
                  add_room_chat_message_list
                    (sender_name name (p.past_end (utf8.get_bytes name)))
                    text
                    receiver))
    unfolding post_send_packet request_bytes
    chat_send_click_lem name text rest sender receiver r a law n t h k connected at id more room
          found members e =
        let field : List ℕ = padded 257 (utf8.get_bytes text) in
        let size : length field ≡ 257 = length-padded 257 (utf8.get_bytes text) k in
        let memory : List ℕ = text_memory p i client_index offset u w in
        let content : List ℕ → List ℕ → List ℕ = chat_packet (p.stack_byte notify_room_chat) in
        let sent_as : List ℕ → Option (Unit {0} × World Db) = λ bytes. some (
          tt,
          with_messages w (
              message client_index 7
                (ack_packet ack_room_chat (p.stack_byte ack_room_chat) chat_room_success)
              ∷ broadcast 273 bytes client_index false a.user_list),
        ) in
        let body : text_memory p i client_index offset u w ≡ field ++ rest = ap (drop 5) e in
        (
          chat_send_click-packet text sender k ∙ ap some (if_of_true _ _ connected),
          chat_request_lem p i client_index offset u w r a at room found members
                (subst (λ x. 11 ≤ length (x ++ 0 ∷ p.past_end x)) (sym id) more)
                (omega (arith, ap length body, length-append field rest, size))
              ∙ ap sent_as (
                  ap (λ x. content (take 11 (x ++ 0 ∷ p.past_end x)) (take 257 memory)) id
                  ∙ ap
                      (content
                        (take 11 (utf8.get_bytes name ++ 0 ∷ p.past_end (utf8.get_bytes name))))
                      (ap (take 257) body ∙ take-append_length 257 field rest (sym size))),
          packet_process-chat (p.stack_byte notify_room_chat) name
              (p.past_end (utf8.get_bytes name)) text receiver law n t h k more,
        )
