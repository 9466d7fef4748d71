-- ===== src/FormsClient/Notices.antt =====
-- What the windows client makes of the server's packets: LHJSampleClientCS/Form1.cs and Packet.cs
-- against LHJSample/Packet.h and the code that fills its packets.
pub mod Members
pub mod Chat
use lhjsample.Common.{
  ℕ, zero, suc, ◌+◌, ◌-◌, ◌*◌, ◌/◌, ◌%◌, ◌^◌, ◌≤◌, ◌<◌, ◌≡◌, refl, sym, ap, ◌∙◌, ℤ, pos, negsuc,
  ◌≤ℤ◌, List, [], ◌∷◌, ◌++◌, Option, some, none, true, false, arith, length, take, drop, get_elem?,
  read_at, read_at-fits, i32_bytes, read_i32, length-append, take-append_length, drop-append_length,
  drop-drop, replicate, append-nil,
}
use lhjsample.Common.Fallible.{◌>>=◌, >>=-some}
use lhjsample.Packet.{
  notify_lobby_info, notify_room_info, notify_room_leave, lobby_info_packet, name_packet,
  room_number_bytes,
}
use lhjsample.FormsClient.{
  Encoding, remove_nul, text_at, name_from_bytes, read_rooms, lobby_from_bytes,
}
use lhjsample.FormsClient.Fields.{
  IsUtf8, IsText, padded, shown, shown-padded, length-padded, read_i32-bytes,
}
use lhjsample.FormsClient.Form.{
  Form, PacketData, process_notify_lobby_info, process_notify_room_leave, has_left, has_entered,
  remove_at,
}
use lhjsample.FormsClient.Dispatch.{packet_process, packet_func_dic, process_notify_room_info}
use lhjsample.FormsClient.Receiving.{decoded}

-- Numbers that 32 bits hold.
abbrev pub AllInt32 : List ℤ → Type 0
AllInt32 [] = Unit
AllInt32 (n ∷ ns) = (negsuc (2 ^ 31 - 1) ≤ℤ n) × (n ≤ℤ pos (2 ^ 31 - 1)) × AllInt32 ns

read_rooms_lem :
    (k : ℕ) (ns : List ℤ) (body : List ℕ) (p : ℕ)
    → AllInt32 ns
    → k ≤ length ns
    → drop p body ≡ room_number_bytes ns
    → read_rooms k body p ≡ some (take k ns)
unfolding read_rooms
read_rooms_lem zero ns body p h less e = refl
read_rooms_lem (suc k) [] body p h less e = elim less [ ]
read_rooms_lem (suc k) (n ∷ ns) body p (lo, hi, h) less e =
    let next : drop (p + 4) body ≡ room_number_bytes ns =
      sym (drop-drop (p + 4) 4 p body refl) ∙ ap (drop 4) e in
    rw
      (
        read_i32-bytes body p n (room_number_bytes ns) lo hi e,
        read_rooms_lem k ns body (p + 4) h (omega (arith, less)) next,
      )
      refl

module _ (utf8 : Encoding) where
  -- The list of rooms: the client shows the numbers that the server has written, in their order,
  -- but of `n` numbers only the first `n % 256`, since it reads one byte of the count; where all of
  -- them fit in 32 bits.
  pub packet_process-lobby_info :
      (kind : ℕ) (room : List ℤ) (form : Form)
      → AllInt32 room
      → packet_process utf8 (decoded (lobby_info_packet kind room)) form
        ≡ some (record form { lobby_room_list = take (length room % 256) room })
  unfolding packet_process packet_func_dic process_notify_lobby_info lobby_from_bytes decoded
      lobby_info_packet
  packet_process-lobby_info kind room form h =
      let body : List ℕ = i32_bytes (pos (length room)) ++ room_number_bytes room in
      let few : length room % 2 ^ 32 % 256 ≡ length room % 256 = omega arith in
      rw
        (read_rooms_lem (length room % 2 ^ 32 % 256) room body 4 h (omega arith) refl
          ∙ ap (λ k. some (take k room)) few)
        refl

  pub text_at-padded :
      (n : ℕ) (s front rest body : List ℕ) (k : ℕ)
      → IsUtf8 utf8
      → IsText utf8 s
      → length (utf8.get_bytes s) ≤ n
      → k ≡ length front
      → body ≡ front ++ (padded n (utf8.get_bytes s) ++ rest)
      → text_at utf8 body k n ≡ some s
  unfolding text_at
  text_at-padded n s front rest body k law t h at e =
      let field : List ℕ = padded n (utf8.get_bytes s) in
      let size : length field ≡ n = length-padded n (utf8.get_bytes s) h in
      let behind : drop k body ≡ field ++ rest =
        ap (drop k) e ∙ drop-append_length k front (field ++ rest) at in
      let whole : length body ≡ k + (n + length rest) = omega (
        arith,
        ap length e,
        length-append front (field ++ rest),
        length-append field rest,
        size,
        at,
      ) in
      let found : read_at body k n ≡ some field =
        read_at-fits body k n (omega (arith, whole))
        ∙ ap some (ap (take n) behind ∙ take-append_length n field rest (sym size)) in
      rw found (ap some (shown-padded utf8 law n s t))

  -- A user that enters the room of the client: its name is added to the list of users and the chat
  -- list says so; where the name is a text of at most eleven bytes.
  pub packet_process-room_info :
      (s : List ℕ) (form : Form)
      → IsUtf8 utf8
      → IsText utf8 s
      → length (utf8.get_bytes s) ≤ 11
      → packet_process utf8
          (decoded (name_packet notify_room_info (padded 11 (utf8.get_bytes s))))
          form
        ≡ some (record form {
          user_list = form.user_list ++ s ∷ [];
          list_box_room_chat_msg = form.list_box_room_chat_msg ++ (s ++ has_entered) ∷ [];
        })
  unfolding packet_process packet_func_dic process_notify_room_info name_from_bytes decoded
      name_packet
  packet_process-room_info s form law t h =
      rw
        (text_at-padded 11 s [] [] (padded 11 (utf8.get_bytes s)) 0 law t h refl
          (sym (append-nil (padded 11 (utf8.get_bytes s)))))
        refl

  pub packet_process-room_leave :
      (s : List ℕ) (form : Form)
      → IsUtf8 utf8
      → IsText utf8 s
      → length (utf8.get_bytes s) ≤ 11
      → packet_process utf8
          (decoded (name_packet notify_room_leave (padded 11 (utf8.get_bytes s))))
          form
        ≡ some (elim (remove_at s form.user_list) [
          | none ↦ form
          | some rest ↦ record form {
            user_list = rest;
            list_box_room_chat_msg = form.list_box_room_chat_msg ++ (s ++ has_left) ∷ [];
          }
        ])
  unfolding packet_process packet_func_dic process_notify_room_leave name_from_bytes decoded
      name_packet
  packet_process-room_leave s form law t h =
      rw
        (text_at-padded 11 s [] [] (padded 11 (utf8.get_bytes s)) 0 law t h refl
          (sym (append-nil (padded 11 (utf8.get_bytes s)))))
        refl
