-- ===== src/Rooms/Numbers.antt =====
-- `RoomManager::GetRoomByNumber` on the rooms that `RoomManager::Init` makes.
use lhjsample.Common.{
  ℕ, zero, suc, ◌+◌, ◌-◌, ◌<◌, ◌≡◌, refl, ap, ◌∙◌, subst, ◌⊎◌, inl, inr, ℤ, pos, negsuc, pos_part,
  ◌+ℤ◌, ◌-ℤ◌, ltb, leb, ◌&&◌, Bool-cases, some, none, get_elem?, arith,
}
use lhjsample.Common.Effect.{◌>>=◌}
use lhjsample.World.{World, Room, rooms, get_room}
use lhjsample.Rooms.{init_room, init_rooms, init_room_manager, get_room_by_number}

init_rooms-number :
    (first max_users i n k : ℕ)
    → k < n
    → (a : Room) × (get_elem? (init_rooms (pos first) max_users i n) k ≡ some a)
      × (a.room_num ≡ pos (first + i + k))
unfolding init_rooms init_room ◌+ℤ◌
init_rooms-number first max_users i zero k h = elim h [ ]
init_rooms-number first max_users i (suc n) zero h =
    (init_room (pos i +ℤ pos first) max_users, refl, ground arith)
init_rooms-number first max_users i (suc n) (suc k) h =
    let (a, at, number) = init_rooms-number first max_users (i + 1) n k (omega arith) in
    let same : first + (i + 1) + k ≡ first + i + suc k = omega arith in
    (a, at, number ∙ ap pos same)

module _ {Db : Type 0} where
  in_range :
      (first count max_users k : ℕ) (w : World Db)
      → w.room_manager ≡ init_room_manager (pos first) count max_users
      → k < count
      → (a : Room) × (get_room_by_number (pos (first + k)) w ≡ some (some k, w))
        × (get_elem? (rooms w) k ≡ some a)
        × (a.room_num ≡ pos (first + k))
  unfolding get_room_by_number init_room_manager get_room ◌>>=◌ ◌+ℤ◌ ◌-ℤ◌
  in_range first count max_users k w made h =
      let (a, at, number) = init_rooms-number first max_users 0 count k h in
      let here : get_elem? (rooms w) k ≡ some a = ap (λ m. get_elem? m.room_list k) made ∙ at in
      let begins : w.room_manager.begin_room_number ≡ pos first =
        ap (λ m. m.begin_room_number) made in
      let ends : w.room_manager.end_room_number ≡ pos (first + count) =
        ap (λ m. m.end_room_number) made ∙ ground arith in
      (a, ground arith, here, ground arith)

  out_of_range :
      (first count max_users : ℕ) (w : World Db) (n : ℤ)
      → w.room_manager ≡ init_room_manager (pos first) count max_users
      → ((k : ℕ) → k < count → ¬ (n ≡ pos (first + k)))
      → get_room_by_number n w ≡ some (none, w)
  unfolding get_room_by_number init_room_manager get_room ◌>>=◌ ◌+ℤ◌ ◌-ℤ◌
  out_of_range first count max_users w n made h =
      let begins : w.room_manager.begin_room_number ≡ pos first =
        ap (λ m. m.begin_room_number) made in
      let ends : w.room_manager.end_room_number ≡ pos (first + count) =
        ap (λ m. m.end_room_number) made ∙ ground arith in
      ground (arith, h (pos_part n - first))

  -- With the rooms as `Init` makes them, whose numbers begin at `first`, the lookup of a number in
  -- the range gives the room that has this number, and of any other number the null pointer.
  pub get_room_by_number_lem :
      (first count max_users : ℕ) (w : World Db) (n : ℤ)
      → w.room_manager ≡ init_room_manager (pos first) count max_users
      → ((r : ℕ) × (a : Room) × (get_room_by_number n w ≡ some (some r, w))
          × (get_elem? (rooms w) r ≡ some a)
          × (a.room_num ≡ n))
        ⊎ ((get_room_by_number n w ≡ some (none, w))
            × ((k : ℕ) → k < count → ¬ (n ≡ pos (first + k))))
  get_room_by_number_lem first count max_users w (negsuc m) made =
      inr (out_of_range first count max_users w (negsuc m) made (λ k h. cc), λ k h. cc)
  get_room_by_number_lem first count max_users w (pos m) made =
      elim (Bool-cases (leb first m && ltb m (first + count))) [
        | inl inside ↦
            let place : first + (m - first) ≡ m = ground arith in
            let (a, found, at, number) =
              in_range first count max_users (m - first) w made (ground arith) in
            inl (
              m - first,
              a,
              subst (λ (j : ℕ). get_room_by_number (pos j) w ≡ some (some (m - first), w)) place
                  found,
              at,
              number ∙ ap pos place,
            )
        | inr outside ↦
            let none_has : (k : ℕ) → k < count → ¬ (pos m ≡ pos (first + k)) =
              λ k h e. ground arith in
            inr (out_of_range first count max_users w (pos m) made none_has, none_has)
      ]
