-- ===== src/FormsClient/Requests.antt =====
-- What the windows client sends against what the handlers of the server read: the requests of
-- LHJSampleClientCS/Form1.cs and Packet.cs, and the files of LHJSample/User/State.
use lhjsample.Common.{
  ℕ, ◌+◌, ◌-◌, ◌*◌, ◌/◌, ◌%◌, ◌^◌, ◌≤◌, ◌<◌, ◌≡◌, refl, sym, ap, ◌∙◌, List, [], ◌∷◌, ◌++◌, some,
  true, ◌==◌, if◌then◌else◌, leb, le→leb, arith, length, drop, replicate, c_string, append_assoc,
  length-append, take-append_length, drop-append_length, if_of_true,
}
use lhjsample.Common.Effect.{Effect, pure, lift, ◌>>=◌, ◌>>◌}
use lhjsample.Packet.{PacketId, packet_id, result_code, req_login, ack_login, login_success}
use lhjsample.User.{User, process_login, set_login}
use lhjsample.User.Buffer.Packets.{take_frame}
use lhjsample.World.{World, Platform, get_user, modify_user}
use lhjsample.World.Inversion.{UserAt}
use lhjsample.Accounts.{check_loginable}
use lhjsample.Session.{packet_memory, ack, login_request, call_handler}
use lhjsample.FormsClient.{Encoding, login_body, max_user_id_byte_length, max_user_pw_byte_length}
use lhjsample.FormsClient.Fields.{
  padded, NoNul, write_at-zeros, length-padded, c_string-padded, padded_full, NoNul-append,
}
use lhjsample.FormsClient.Form.{Form, request_bytes, post_send_packet}
use lhjsample.FormsClient.Dispatch.{login_click}

pub take_frame-bytes :
    (l0 l1 i0 i1 t : ℕ) (body rest : List ℕ)
    → l0 + 256 * l1 ≡ 5 + length body
    → let f = l0 ∷ l1 ∷ i0 ∷ i1 ∷ t ∷ body in take_frame (f ++ rest) ≡ (i0 + 256 * i1, f, rest)
unfolding take_frame
take_frame-bytes l0 l1 i0 i1 t body rest e =
    let f : List ℕ = l0 ∷ l1 ∷ i0 ∷ i1 ∷ t ∷ body in
    let n : length f ≡ l0 + 256 * l1 = omega (arith, e) in
    let fits : leb (l0 + 256 * l1) (length (f ++ rest)) ≡ true =
      le→leb _ _ (omega (arith, e, length-append body rest)) in
    if_of_true _ _ fits
    ∙ ap (λ x. (i0 + 256 * i1, x, drop (l0 + 256 * l1) (f ++ rest)))
        (take-append_length (l0 + 256 * l1) f rest (sym n))
    ∙ ap (λ x. (i0 + 256 * i1, f, x)) (drop-append_length (l0 + 256 * l1) f rest (sym n))

packet_id-bound : (id : PacketId) → packet_id id < 2 ^ 16
packet_id-bound id = ground arith

-- The server's framing takes each request of the client from the bytes that have arrived, as a
-- whole and with its id, if its body has at most 65530 bytes.
pub take_frame-request_bytes :
    (id : PacketId) (body rest : List ℕ)
    → length body ≤ 65530
    → take_frame (request_bytes id body ++ rest) ≡ (packet_id id, request_bytes id body, rest)
unfolding take_frame request_bytes
take_frame-request_bytes id body rest h =
    let size : ℕ = (length body + 5) % 2 ^ 16 in
    let n : ℕ = packet_id id in
    let same : n % 256 + 256 * (n / 256 % 256) ≡ n = omega (arith, packet_id-bound id) in
    take_frame-bytes (size % 256) (size / 256 % 256) (n % 256) (n / 256 % 256) 0 body rest
      (omega (arith, h))
    ∙ ap (λ x. (x, request_bytes id body, rest)) same

-- Two fields of which the first is full are one field of their texts.
one_field : (x y : List ℕ) → length x ≡ 11 → padded 11 x ++ padded 11 y ≡ padded 22 (x ++ y)
one_field x y h =
    let n : 11 - length y ≡ 22 - length (x ++ y) = omega (arith, length-append x y, h) in
    ap (λ z. z ++ padded 11 y) (padded_full 11 x h)
    ∙ sym (append_assoc x y (replicate (11 - length y) 0))
    ∙ ap (λ k. (x ++ y) ++ replicate k 0) n

second_field :
    (field y rest : List ℕ)
    → length field ≡ 11
    → NoNul y
    → length y ≤ 10
    → c_string (drop 11 ((field ++ padded 11 y) ++ rest)) ≡ some y
second_field field y rest size m k =
    ap c_string (
      ap (drop 11) (append_assoc field (padded 11 y) rest)
      ∙ drop-append_length 11 field (padded 11 y ++ rest) (sym size))
    ∙ c_string-padded 11 y rest m (omega (arith, k))

module _ (utf8 : Encoding) where
  -- The bytes of a login request.
  abbrev pub login_packet : List ℕ → List ℕ → List ℕ
  login_packet id pw = request_bytes req_login (
      padded max_user_id_byte_length (utf8.get_bytes id)
      ++ padded max_user_pw_byte_length (utf8.get_bytes pw))

  pub login_click-packet :
      (id pw : List ℕ) (form : Form)
      → length (utf8.get_bytes id) ≤ 11
      → length (utf8.get_bytes pw) ≤ 11
      → login_click utf8 id pw form
        ≡ some (
            post_send_packet req_login
              (padded 11 (utf8.get_bytes id) ++ padded 11 (utf8.get_bytes pw))
              form)
  unfolding login_click login_body
  login_click-packet id pw form h k =
      rw (write_at-zeros 11 (utf8.get_bytes id) h, write_at-zeros 11 (utf8.get_bytes pw) k) refl

-- What a login of `id` with `pw` does on the server.
unfoldable pub logs_in :
    {Db : Type 0} → Platform Db → ℕ → ℕ → List ℕ → List ℕ → Effect (World Db) (Unit {0})
logs_in p i client_index id pw = do
  result ← check_loginable p client_index id pw
  if result_code result == result_code login_success then modify_user i (set_login id) else pure tt
  ack p i client_index ack_login result

module _ {Db : Type 0} (p : Platform Db) (i client_index offset : ℕ) (u : User) (w : World Db) where
  -- A login request in the buffer, with the id and the password that are read from it.
  login_request-reads :
      (fields id pw rest : List ℕ)
      → UserAt w i u
      → length fields ≡ 22
      → drop offset u.buffer.bytes ≡ request_bytes req_login fields ++ rest
      → c_string (fields ++ rest) ≡ some id
      → c_string (drop 11 (fields ++ rest)) ≡ some pw
      → call_handler p i client_index process_login
          (length (request_bytes req_login fields))
          (some offset)
          w
        ≡ logs_in p i client_index id pw w
  unfolding call_handler login_request packet_memory get_user lift request_bytes logs_in ◌>>=◌ pure
  login_request-reads fields id pw rest at size e c1 c2 =
      let body : drop 5 (drop offset u.buffer.bytes) ≡ fields ++ rest = ap (drop 5) e in
      let behind : drop 16 (drop offset u.buffer.bytes) ≡ drop 11 (fields ++ rest) =
        ap (drop 16) e in
      rw (size, at, body, behind, c1, c2) refl

  module _ (utf8 : Encoding) (id pw rest : List ℕ) where
    -- The button for a login queues one packet, and the server's handler makes of it a login with
    -- just the id and the password that stand in the window: where both have at most ten bytes and
    -- no NUL, the client is connected, and the packet stands in the buffer of the user.
    pub login_click_lem :
        (form : Form)
        → form.is_connected ≡ true
        → UserAt w i u
        → NoNul (utf8.get_bytes id)
        → NoNul (utf8.get_bytes pw)
        → length (utf8.get_bytes id) ≤ 10
        → length (utf8.get_bytes pw) ≤ 10
        → drop offset u.buffer.bytes ≡ login_packet utf8 id pw ++ rest
        → (login_click utf8 id pw form
            ≡ some (record form {
              send_packet_queue = form.send_packet_queue ++ login_packet utf8 id pw ∷ [];
            }))
          × (call_handler p i client_index process_login
                (length (login_packet utf8 id pw))
                (some offset)
                w
              ≡ logs_in p i client_index (utf8.get_bytes id) (utf8.get_bytes pw) w)
    unfolding post_send_packet
    login_click_lem form connected at n m h k e =
        let x : List ℕ = utf8.get_bytes id in
        let y : List ℕ = utf8.get_bytes pw in
        let lx : length (padded 11 x) ≡ 11 = length-padded 11 x (omega (arith, h)) in
        let ly : length (padded 11 y) ≡ 11 = length-padded 11 y (omega (arith, k)) in
        (
          login_click-packet utf8 id pw form (omega (arith, h)) (omega (arith, k))
              ∙ ap some (if_of_true _ _ connected),
          login_request-reads (padded 11 x ++ padded 11 y) x y rest at
              (omega (arith, length-append (padded 11 x) (padded 11 y), lx, ly)) e
              (ap c_string (append_assoc (padded 11 x) (padded 11 y) rest)
                ∙ c_string-padded 11 x (padded 11 y ++ rest) n (omega (arith, h)))
              (second_field (padded 11 x) y rest lx m k),
        )

    -- The handler reads an id of eleven bytes on into the password.
    login_request-eleven :
        UserAt w i u
        → NoNul (utf8.get_bytes id)
        → NoNul (utf8.get_bytes pw)
        → length (utf8.get_bytes id) ≡ 11
        → length (utf8.get_bytes pw) ≤ 10
        → drop offset u.buffer.bytes ≡ login_packet utf8 id pw ++ rest
        → call_handler p i client_index process_login
            (length (login_packet utf8 id pw))
            (some offset)
            w
          ≡ logs_in p i client_index (utf8.get_bytes id ++ utf8.get_bytes pw) (utf8.get_bytes pw) w
    login_request-eleven at n m h k e =
        let x : List ℕ = utf8.get_bytes id in
        let y : List ℕ = utf8.get_bytes pw in
        let lx : length (padded 11 x) ≡ 11 = length-padded 11 x (omega (arith, h)) in
        let ly : length (padded 11 y) ≡ 11 = length-padded 11 y (omega (arith, k)) in
        login_request-reads (padded 11 x ++ padded 11 y) (x ++ y) y rest at
          (omega (arith, length-append (padded 11 x) (padded 11 y), lx, ly)) e
          (ap (λ z. c_string (z ++ rest)) (one_field x y h)
            ∙ c_string-padded 22 (x ++ y) rest (NoNul-append x y n m)
                (omega (arith, length-append x y, h, k)))
          (second_field (padded 11 x) y rest lx m k)

    -- The button for a login lets an id of eleven bytes through, for a password of at most ten bytes:
    -- it queues the packet of the two, if the client is connected. In this packet no NUL stands
    -- behind the id, and the server's handler logs in the id followed by the password instead: where
    -- neither holds a NUL, and the packet stands in the buffer of the user.
    pub login_click-eleven :
        (form : Form)
        → form.is_connected ≡ true
        → UserAt w i u
        → NoNul (utf8.get_bytes id)
        → NoNul (utf8.get_bytes pw)
        → length (utf8.get_bytes id) ≡ 11
        → length (utf8.get_bytes pw) ≤ 10
        → drop offset u.buffer.bytes ≡ login_packet utf8 id pw ++ rest
        → (login_click utf8 id pw form
            ≡ some (record form {
              send_packet_queue = form.send_packet_queue ++ login_packet utf8 id pw ∷ [];
            }))
          × (call_handler p i client_index process_login
                (length (login_packet utf8 id pw))
                (some offset)
                w
              ≡ logs_in p i client_index
                  (utf8.get_bytes id ++ utf8.get_bytes pw)
                  (utf8.get_bytes pw)
                  w)
    unfolding post_send_packet
    login_click-eleven form connected at n m h k e = (
      login_click-packet utf8 id pw form (omega (arith, h)) (omega (arith, k))
          ∙ ap some (if_of_true _ _ connected),
      login_request-eleven at n m h k e,
    )
