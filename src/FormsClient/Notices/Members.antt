-- ===== src/FormsClient/Notices/Members.antt =====
-- The answer to REQ_ROOM_INFO: LHJSample/User/State/UserStateInRoom.cpp against
-- ACK_ROOM_INFO_PACKET of LHJSampleClientCS/Packet.cs.
use lhjsample.Common.{
  ℕ, ◌+◌, ◌-◌, ◌%◌, ◌^◌, ◌≤◌, ◌≡◌, refl, sym, ap, ◌∙◌, List, [], ◌∷◌, ◌++◌, map, some, true, arith,
  length, take, drop, read_u16, read_at, read_at-fits, length-append, length-drop,
  take-append_length, drop-append_length, drop-drop, length-map, append_assoc, append-nil, pos,
  i32_bytes,
}
use lhjsample.Packet.{room_info_packet, name_bytes}
use lhjsample.FormsClient.{
  Encoding, remove_nul, text_at, id_lengths, read_ids, room_info_from_bytes,
}
use lhjsample.FormsClient.Fields.{IsUtf8, IsText, NoNul, shown-text_nul, shown}
use lhjsample.FormsClient.Form.{Form}
use lhjsample.FormsClient.Dispatch.{packet_process, packet_func_dic, process_ack_room_info}
use lhjsample.FormsClient.Receiving.{decoded}

-- The loop up to the end of a name.
id_lengths-name :
    (u rest : List ℕ) (i c : ℕ)
    → NoNul u
    → c ≤ i
    → id_lengths i c (u ++ 0 ∷ rest)
      ≡ (i + length u - c) ∷ id_lengths (i + length u + 1) (i + length u + 1) rest
unfolding id_lengths
id_lengths-name [] rest i c h less = ground arith
id_lengths-name (x ∷ u) rest i c (h, hs) less =
    ground (arith, id_lengths-name u rest (i + 1) c hs (omega arith))

abbrev AllNoNul : List (List ℕ) → Type 0
AllNoNul [] = Unit
AllNoNul (u ∷ us) = NoNul u × AllNoNul us

id_lengths_lem :
    (us : List (List ℕ)) (i : ℕ) → AllNoNul us → id_lengths i i (name_bytes us) ≡ map length us
unfolding id_lengths
id_lengths_lem [] i h = refl
id_lengths_lem (u ∷ us) i (h, hs) =
    let e : i + length u - i ≡ length u = omega arith in
    id_lengths-name u (name_bytes us) i i h (omega arith)
    ∙ ap (λ n. n ∷ id_lengths (i + length u + 1) (i + length u + 1) (name_bytes us)) e
    ∙ ap (◌∷◌ (length u)) (id_lengths_lem us (i + length u + 1) hs)

module _ (utf8 : Encoding) where
  abbrev pub AllTexts : List (List ℕ) → Type 0
  AllTexts [] = Unit
  AllTexts (s ∷ names) = IsText utf8 s × AllTexts names

  all_no_nul : (names : List (List ℕ)) → AllTexts names → AllNoNul (map utf8.get_bytes names)
  all_no_nul [] h = tt
  all_no_nul (s ∷ names) (t, h) = (t.no_nul_byte, all_no_nul names h)

  read_ids_lem :
      (names : List (List ℕ)) (body : List ℕ) (p : ℕ)
      → IsUtf8 utf8
      → AllTexts names
      → drop p body ≡ name_bytes (map utf8.get_bytes names)
      → read_ids utf8 (length names) body (map length (map utf8.get_bytes names)) p ≡ some names
  unfolding read_ids text_at remove_nul
  read_ids_lem [] body p law h e = refl
  read_ids_lem (s ∷ names) body p law (t, h) e =
      let u : List ℕ = utf8.get_bytes s in
      let more : List ℕ = name_bytes (map utf8.get_bytes names) in
      let split : u ++ 0 ∷ more ≡ (u ++ 0 ∷ []) ++ more = sym (append_assoc u (0 ∷ []) more) in
      let size : length (u ++ 0 ∷ []) ≡ length u + 1 = omega (arith, length-append u (0 ∷ [])) in
      let fits : p + (length u + 1) ≤ length body =
        omega (arith, ap length e, length-append u (0 ∷ more), length-drop p body) in
      let found : read_at body p (length u + 1) ≡ some (u ++ 0 ∷ []) =
        read_at-fits body p (length u + 1) fits
        ∙ ap some (
            ap (take (length u + 1)) (e ∙ split)
            ∙ take-append_length (length u + 1) (u ++ 0 ∷ []) more (sym size)) in
      let next : drop (p + length u + 1) body ≡ more =
        sym (drop-drop (p + length u + 1) (length u + 1) p body (omega arith))
        ∙ ap (drop (length u + 1)) (e ∙ split)
        ∙ drop-append_length (length u + 1) (u ++ 0 ∷ []) more (sym size) in
      let name : shown utf8 (u ++ 0 ∷ []) ≡ s =
        shown-text_nul utf8 law s [] t ∙ ap (λ x. s ++ remove_nul x) law.empty ∙ append-nil s in
      rw (found, name, read_ids_lem names body (p + length u + 1) law h next) refl

  -- The members of a room: the answer of the server to a request for them is read as the same
  -- names, in the same order, which are added behind the names that the window shows, and leaving
  -- and chatting become possible; where there are at most 255 names and each is a text.
  pub packet_process-members :
      (kind : ℕ) (names : List (List ℕ)) (form : Form)
      → IsUtf8 utf8
      → AllTexts names
      → length names ≤ 255
      → packet_process utf8 (decoded (room_info_packet kind (map utf8.get_bytes names))) form
        ≡ some (record form {
          room_exit = true;
          chat_send = true;
          user_list = form.user_list ++ names;
        })
  unfolding packet_process packet_func_dic process_ack_room_info room_info_from_bytes decoded
      room_info_packet read_u16
  packet_process-members kind names form law h few =
      let users : List (List ℕ) = map utf8.get_bytes names in
      let n : length users ≡ length names = length-map utf8.get_bytes names in
      let count : length users % 2 ^ 32 % 256 ≡ length names = omega (arith, n, few) in
      let body : List ℕ = 50 ∷ 0 ∷ (i32_bytes (pos (length users)) ++ name_bytes users) in
      let got : read_ids utf8 (length users % 2 ^ 32 % 256) body (map length users) 6 ≡ some names =
        ap (λ k. read_ids utf8 k body (map length users) 6) count
        ∙ read_ids_lem names body 6 law h refl in
      rw (id_lengths_lem users 6 (all_no_nul names h), got) refl
