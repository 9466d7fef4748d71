-- ===== src/Packet/Framing.antt =====
-- The length and the id that every packet of the server carries in its header.
use lhjsample.Common.{
  ℕ, zero, suc, ◌<◌, subst, sym, ap, ◌∙◌, none, ◌+◌, ◌*◌, ◌-◌, ◌%◌, ◌≤◌, ◌^◌, ◌≡◌, refl, List, [],
  ◌∷◌, ℤ, length, replicate, some, arith, length-append, ◌++◌,
}
use mathlib.Core.Option.{some-injective}
use lhjsample.Common.Fallible.{>>=-eq-some}
use lhjsample.Packet.{
  PacketId, ResultCode, ack_packet, copy_bytes, zeroed_name, name_packet, chat_packet,
  room_number_bytes, lobby_info_packet, name_bytes, vector_length, room_info_packet, user_id_field,
  message_field, packet_header_length,
}

-- Some first bytes hold a number: the length of the whole, modulo 2 ^ 16.
abbrev pub announced : List ℕ → ℕ
announced (l0 ∷ l1 ∷ rest) = l0 + 256 * l1
announced _ = 0

abbrev pub announced_id : List ℕ → ℕ
announced_id (l0 ∷ l1 ∷ i0 ∷ i1 ∷ rest) = i0 + 256 * i1
announced_id _ = 0

abbrev pub IsFramed : List ℕ → Type 0
IsFramed m = (announced m ≡ length m % 2 ^ 16) × (5 ≤ length m)

pub ack_packet-IsFramed :
    (id : PacketId) (kind : ℕ) (r : ResultCode) → IsFramed (ack_packet id kind r)
unfolding ack_packet
ack_packet-IsFramed id kind r = omega arith

-- An id that fits is copied, and the zeros behind it stay.
copy_bytes-fits :
    (n : ℕ) (id : List ℕ)
    → length id ≤ n
    → copy_bytes (replicate n 0) id ≡ some (id ++ replicate (n - length id) 0)
unfolding copy_bytes
copy_bytes-fits zero [] h = refl
copy_bytes-fits (suc n) [] h =
    let whole : suc n ≡ suc n - 0 = omega arith in
    subst (λ m. copy_bytes (replicate (suc n) 0) [] ≡ some (replicate m 0)) whole refl
copy_bytes-fits zero (b ∷ id) h = absurd (omega arith)
copy_bytes-fits (suc n) (b ∷ id) h =
    let left : n - length id ≡ suc n - suc (length id) = omega arith in
    rw (copy_bytes-fits n id (omega arith)) (ap (λ m. some (b ∷ id ++ replicate m 0)) left)

copy_bytes-long : (n : ℕ) (id : List ℕ) → n < length id → copy_bytes (replicate n 0) id ≡ none
unfolding copy_bytes
copy_bytes-long n [] h = absurd (omega arith)
copy_bytes-long zero (b ∷ id) h = refl
copy_bytes-long (suc n) (b ∷ id) h = rw (copy_bytes-long n id (omega arith)) refl

pub zeroed_name-fits :
    (id : List ℕ)
    → length id ≤ user_id_field
    → zeroed_name id ≡ some (id ++ replicate (user_id_field - length id) 0)
unfolding zeroed_name
zeroed_name-fits id h = copy_bytes-fits user_id_field id h

-- An id that does not fit is written past the end of the array.
pub zeroed_name-long : (id : List ℕ) → user_id_field < length id → zeroed_name id ≡ none
unfolding zeroed_name
zeroed_name-long id h = copy_bytes-long user_id_field id h

-- The loop keeps the length of the array.
length-copy_bytes :
    (array id name : List ℕ) → copy_bytes array id ≡ some name → length name ≡ length array
unfolding copy_bytes
length-copy_bytes array [] name h = ap length (sym (some-injective _ _ h))
length-copy_bytes [] (b ∷ id) name h = cc
length-copy_bytes (old ∷ array) (b ∷ id) name h =
    let (rest, e1, e2) = >>=-eq-some (copy_bytes array id) _ h in
    ap length (sym (some-injective _ _ e2)) ∙ ap suc (length-copy_bytes array id rest e1)

pub length-zeroed_name :
    (id name : List ℕ) → zeroed_name id ≡ some name → length name ≡ user_id_field
unfolding zeroed_name
length-zeroed_name id name h = length-copy_bytes (replicate user_id_field 0) id name h

pub name_packet-IsFramed :
    (id : PacketId) (name : List ℕ) → length name ≡ user_id_field → IsFramed (name_packet id name)
unfolding name_packet
name_packet-IsFramed id name h = omega arith

pub chat_packet-IsFramed :
    (kind : ℕ) (name msg : List ℕ)
    → length name ≡ user_id_field
    → length msg ≡ message_field
    → IsFramed (chat_packet kind name msg)
unfolding chat_packet
chat_packet-IsFramed kind name msg h k = omega (arith, length-append name msg)

length-room_number_bytes : (ns : List ℤ) → length (room_number_bytes ns) ≡ length ns * 4
length-room_number_bytes [] = omega arith
length-room_number_bytes (n ∷ ns) = omega (arith, length-room_number_bytes ns)

pub lobby_info_packet-IsFramed : (kind : ℕ) (room : List ℤ) → IsFramed (lobby_info_packet kind room)
unfolding lobby_info_packet
lobby_info_packet-IsFramed kind room = omega (arith, length-room_number_bytes room)

length-name_bytes : (us : List (List ℕ)) → length (name_bytes us) ≡ vector_length us
length-name_bytes [] = omega arith
length-name_bytes (u ∷ us) =
    omega (arith, length-append u (0 ∷ name_bytes us), length-name_bytes us)

pub room_info_packet-IsFramed :
    (kind : ℕ) (users : List (List ℕ)) → IsFramed (room_info_packet kind users)
unfolding room_info_packet
room_info_packet-IsFramed kind users = omega (arith, length-name_bytes users)

-- The lengths that the code announces.
pub length-ack_packet :
    (id : PacketId) (kind : ℕ) (r : ResultCode) → 7 ≡ length (ack_packet id kind r)
unfolding ack_packet
length-ack_packet id kind r = refl

pub length-name_packet :
    (id : PacketId) (name : List ℕ)
    → length name ≡ user_id_field
    → 16 ≡ length (name_packet id name)
unfolding name_packet
length-name_packet id name h = omega arith

pub length-chat_packet :
    (kind : ℕ) (name msg : List ℕ)
    → length name ≡ user_id_field
    → length msg ≡ message_field
    → 273 ≡ length (chat_packet kind name msg)
unfolding chat_packet
length-chat_packet kind name msg h k = omega (arith, length-append name msg)

pub length-lobby_info_packet :
    (kind : ℕ) (room : List ℤ)
    → packet_header_length + 4 + length room * 4 ≡ length (lobby_info_packet kind room)
unfolding lobby_info_packet
length-lobby_info_packet kind room = omega (arith, length-room_number_bytes room)

pub length-room_info_packet :
    (kind : ℕ) (users : List (List ℕ))
    → packet_header_length + 2 + 4 + vector_length users ≡ length (room_info_packet kind users)
unfolding room_info_packet
length-room_info_packet kind users = omega (arith, length-name_bytes users)
