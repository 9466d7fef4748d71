-- ===== src/FormsClient/Entering.antt =====
-- LHJSampleClientCS/Form1.cs and LHJSample/User/State/UserStateInLobby.cpp: the number of a room
-- from the window to the handler.
use lhjsample.Common.{
  ℕ, ◌-◌, ◌^◌, ◌≡◌, refl, ℤ, pos, negsuc, ◌≤ℤ◌, List, [], ◌∷◌, ◌++◌, some, true, drop, i32_bytes,
  read_i32, if_of_true,
}
use lhjsample.Common.Effect.{pure, lift, ◌>>=◌}
use lhjsample.Packet.{req_room_enter, ack_room_enter}
use lhjsample.User.{User, process_enter_room}
use lhjsample.World.{World, Platform, get_user}
use lhjsample.World.Inversion.{UserAt}
use lhjsample.Session.{packet_memory, ack, enter_room_request, call_handler, user_enter_room}
use lhjsample.FormsClient.Fields.{signed32-bytes}
use lhjsample.FormsClient.Form.{Form, request_bytes, post_send_packet}
use lhjsample.FormsClient.Dispatch.{room_enter_click}

module _ {Db : Type 0} (p : Platform Db) (i client_index offset : ℕ) (u : User) (w : World Db) where
  -- The request to enter a room: the server's handler reads the number that the client has sent.
  pub room_enter_click_lem :
      (n : ℤ) (rest : List ℕ) (form : Form)
      → form.is_connected ≡ true
      → UserAt w i u
      → negsuc (2 ^ 31 - 1) ≤ℤ n
      → n ≤ℤ pos (2 ^ 31 - 1)
      → drop offset u.buffer.bytes ≡ request_bytes req_room_enter (i32_bytes n) ++ rest
      → (room_enter_click n form ≡ record form {
        send_packet_queue =
            form.send_packet_queue ++ request_bytes req_room_enter (i32_bytes n) ∷ [];
      })
        × (call_handler p i client_index process_enter_room 9 (some offset) w
            ≡ (do result ← user_enter_room i n; ack p i client_index ack_room_enter result) w)
  unfolding room_enter_click post_send_packet call_handler enter_room_request packet_memory get_user
      lift request_bytes ◌>>=◌ pure read_i32
  room_enter_click_lem n rest form connected at lo hi e =
      (if_of_true _ _ connected, rw (at, e, signed32-bytes n lo hi) refl)
