-- ===== src/Rooms/Safety.antt =====
-- LHJSample/Room/Room.cpp and RoomManager.cpp: every method ends in a safe world.
use lhjsample.Common.{
  ℕ, ◌≤◌, ◌<◌, ◌≡◌, refl, inl, inr, ℤ, pos_part, ◌-ℤ◌, ltb_ℤ, List, [], ◌∷◌, Bool, not, ◌||◌,
  Bool-cases, Option, some, none, length, get_elem?_of_lt, arith, read_at-fits, eq_bytes,
}
use lhjsample.Common.Effect.{pure, gets, ◌>>=◌}
use lhjsample.Packet.Framing.{zeroed_name-fits}
use lhjsample.Packet.{user_id_field, message_field}
use lhjsample.User.{User}
use lhjsample.World.{Room, Platform, rooms, get_room}
use lhjsample.World.Safety.{
  AllBelow, AllBelow-append, Any, Ends, Ends-pure, Ends-bind, Ends-if, Ends-lift, get_user-Ends,
  get_room-Ends, modify_room-Ends, send_packet-Ends, gets-users-Ends,
}
use lhjsample.Rooms.{
  remove_id, member_ids, push_user, remove_user, send_to_all_user, admit_user, enter_room_user,
  leave_room_user, notify_chat, get_room_member_list, get_room_by_number, enter_found, enter_user,
  leave_found, leave_user, get_room_list,
}

remove_id-AllBelow :
    (k : ℕ) (pool : List User) (id members : List ℕ)
    → length pool ≡ k
    → AllBelow k members
    → (rest : List ℕ) × (remove_id pool id members ≡ some rest) × AllBelow k rest
unfolding remove_id
remove_id-AllBelow k pool id [] e h = ([], refl, tt)
remove_id-AllBelow k pool id (m ∷ members) e (below, h) =
    let (u, found) = get_elem?_of_lt pool m (omega (arith, e, below)) in
    let (rest, e', h') = remove_id-AllBelow k pool id members e h in
    elim (Bool-cases (eq_bytes id u.user_id)) [
      | inl leaves ↦ (rest, rw (found, e', leaves) refl, h')
      | inr stays ↦ (m ∷ rest, rw (found, e', stays) refl, (below, h'))
    ]

member_ids-ends :
    (k : ℕ) (pool : List User) (members : List ℕ)
    → length pool ≡ k
    → AllBelow k members
    → (ids : List (List ℕ)) × (member_ids pool members ≡ some ids)
unfolding member_ids
member_ids-ends k pool [] e h = ([], refl)
member_ids-ends k pool (m ∷ members) e (below, h) =
    let (u, found) = get_elem?_of_lt pool m (omega (arith, e, below)) in
    let (ids, e') = member_ids-ends k pool members e h in (u.user_id ∷ ids, rw (found, e') refl)

-- What a lookup finds is one of `n` rooms.
abbrev pub Found : ℕ → Option ℕ → Type 0
Found n none = Unit
Found n (some r) = r < n

module _ {Db : Type 0} (k n : ℕ) where
  send_to_all_user-Ends :
      (size : ℕ) (bytes : List ℕ) (pass : ℕ) (except_me : Bool) (members : List ℕ)
      → AllBelow k members
      → Ends {Db = Db} k n Any (send_to_all_user size bytes pass except_me members)
  unfolding send_to_all_user
  send_to_all_user-Ends size bytes pass except_me [] h = Ends-pure k n tt tt
  send_to_all_user-Ends size bytes pass except_me (m ∷ members) (below, h) =
      Ends-bind k n _ _ (get_user-Ends k n m below) λ u known.
        Ends-bind k n _ _ (Ends-if k n _ _ _ (Ends-pure k n tt tt) (send_packet-Ends k n _ _ _))
          λ _ _. send_to_all_user-Ends size bytes pass except_me members h

  admit_user-Ends :
      (r : ℕ) (room : Room) (i : ℕ)
      → r < n
      → i < k
      → AllBelow k room.user_list
      → Ends {Db = Db} k n Any (admit_user r room i)
  unfolding admit_user push_user
  admit_user-Ends r room i inside below h = Ends-bind k n _ _ (get_user-Ends k n i below) λ u known.
      Ends-bind k n _ _ (Ends-lift k n {P = Any} _ _ (zeroed_name-fits u.user_id known.1) tt)
        λ name _. Ends-bind k n _ _ (send_to_all_user-Ends _ _ _ _ room.user_list h) λ _ _.
          Ends-bind k n _ _
            (modify_room-Ends k n r _ inside
              (λ a members. (_, refl, AllBelow-append k i a.user_list members below)))
            λ _ _. Ends-pure k n _ tt

  enter_room_user-Ends : (r i : ℕ) → r < n → i < k → Ends {Db = Db} k n Any (enter_room_user r i)
  unfolding enter_room_user
  enter_room_user-Ends r i inside below =
      Ends-bind k n _ _ (get_room-Ends k n r inside)
        λ room h. Ends-if k n _ _ _ (Ends-pure k n _ tt) (admit_user-Ends r room i inside below h)

  leave_room_user-Ends : (r i : ℕ) → r < n → i < k → Ends {Db = Db} k n Any (leave_room_user r i)
  unfolding leave_room_user remove_user
  leave_room_user-Ends r i inside below = Ends-bind k n _ _ (get_room-Ends k n r inside) λ room h.
      Ends-bind k n _ _ (get_user-Ends k n i below) λ u known.
        Ends-bind k n _ _ (Ends-lift k n {P = Any} _ _ (zeroed_name-fits u.user_id known.1) tt)
          λ name _. Ends-bind k n _ _ (send_to_all_user-Ends _ _ _ _ room.user_list h) λ _ _.
            Ends-bind k n _ _ (gets-users-Ends k n) λ pool size.
              Ends-bind k n _ _
                (modify_room-Ends k n r _ inside λ a members.
                  let (rest, e, more) =
                    remove_id-AllBelow k pool u.user_id a.user_list size members in
                  (record a { user_list = rest }, rw e refl, more))
                λ _ _. Ends-pure k n _ tt

  pub notify_chat-Ends :
      (p : Platform Db) (r client_index : ℕ) (user_id msg : List ℕ)
      → r < n
      → message_field ≤ length msg
      → user_id_field ≤ length user_id
      → Ends {Db = Db} k n Any (notify_chat p r client_index user_id msg)
  unfolding notify_chat
  notify_chat-Ends p r client_index user_id msg inside long enough =
      Ends-bind k n _ _ (Ends-lift k n {P = Any} _ _ (read_at-fits msg 0 message_field long) tt)
        λ m _.
          Ends-bind k n _ _
            (Ends-lift k n {P = Any} _ _ (read_at-fits user_id 0 user_id_field enough) tt)
            λ name _.
              Ends-bind k n _ _ (get_room-Ends k n r inside)
                λ room h. send_to_all_user-Ends _ _ _ _ room.user_list h

  pub get_room_member_list-Ends : (r : ℕ) → r < n → Ends {Db = Db} k n Any (get_room_member_list r)
  unfolding get_room_member_list
  get_room_member_list-Ends r inside = Ends-bind k n _ _ (get_room-Ends k n r inside) λ room h.
      Ends-bind k n _ _ (gets-users-Ends k n) λ pool size.
        let (ids, e) = member_ids-ends k pool room.user_list size h in Ends-lift k n _ ids e tt

  pub get_room_by_number-Ends :
      (number : ℤ) → Ends {Db = Db} k n (Found n) (get_room_by_number number)
  unfolding get_room_by_number get_room ◌>>=◌ pure
  get_room_by_number-Ends number = record {
    at = λ w s.
        elim (Bool-cases (
          ltb_ℤ number w.room_manager.begin_room_number
          || not (ltb_ℤ number w.room_manager.end_room_number))) [
            | inl outside ↦ ((none, w), rw outside refl, tt, s)
            | inr inside ↦
                let index : ℕ = pos_part (number -ℤ w.room_manager.begin_room_number) in
                let below : index < n = s.range number inside in
                let (a, found) =
                  get_elem?_of_lt (rooms w) index (omega (arith, s.room_count, below)) in
                ((some index, w), rw (inside, found) refl, below, s)
          ];
  }

  pub enter_user-Ends : (number : ℤ) (i : ℕ) → i < k → Ends {Db = Db} k n Any (enter_user number i)
  unfolding enter_user enter_found
  enter_user-Ends number i below = Ends-bind k n _ _ (get_room_by_number-Ends number) λ found h.
      elim found as (λ o. Found n o → Ends {Db = Db} k n Any (enter_found i o)) [
        | none ↦ λ _. Ends-pure k n _ tt
        | some r ↦ λ inside. Ends-bind k n _ _ (get_room-Ends k n r inside) λ room members.
            Ends-if k n _ _ _ (Ends-pure k n _ tt) (enter_room_user-Ends r i inside below)
      ]
        h

  pub leave_user-Ends : (number : ℤ) (i : ℕ) → i < k → Ends {Db = Db} k n Any (leave_user number i)
  unfolding leave_user leave_found
  leave_user-Ends number i below = Ends-bind k n _ _ (get_room_by_number-Ends number) λ found h.
      elim found as (λ o. Found n o → Ends {Db = Db} k n Any (leave_found i o)) [
        | none ↦ λ _. Ends-pure k n _ tt
        | some r ↦ λ inside. leave_room_user-Ends r i inside below
      ]
        h

  pub get_room_list-Ends : Ends {Db = Db} k n Any get_room_list
  unfolding get_room_list gets
  get_room_list-Ends = record { at = λ w s. (_, refl, tt, s) }
