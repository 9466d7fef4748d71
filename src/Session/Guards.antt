-- ===== src/Session/Guards.antt =====
-- What is left after an attempt to enter a room that does not exist, and what the handlers do then.
use lhjsample.Common.{ℕ, ◌≡◌, refl, ℤ, some, none, arith, get_elem?-set_self, get_elem?-lt}
use lhjsample.Common.Effect.{◌>>=◌}
use lhjsample.Packet.{room_invalid_index}
use lhjsample.User.{User, in_room, change_state}
use lhjsample.User.Bindings.{UserIsValid, change_state-total}
use lhjsample.World.{World, Platform, users, get_user}
use lhjsample.World.Inversion.{with_user, UserAt, modify_user-succeeds}
use lhjsample.Rooms.{get_room_by_number, enter_user, enter_found}
use lhjsample.Session.{user_enter_room, user_get_room, room_info_request}

change_state-in_room :
    (u v : User)
    → change_state in_room u ≡ some v
    → (v.state ≡ in_room) × (v.room_index ≡ u.room_index)
unfolding change_state
change_state-in_room u v e = ground arith

module _ {Db : Type 0} (p : Platform Db) where
  -- `User::EnterRoom` with a number that no room has: the answer is that the index is invalid, but
  -- the user now holds this number and is in the state of being in a room.
  pub user_enter_room-invalid :
      (i : ℕ) (n : ℤ) (w : World Db) (u : User)
      → UserAt w i u
      → UserIsValid i u
      → get_room_by_number n w ≡ some (none, w)
      → (v : User) × (user_enter_room i n w
          ≡ some (room_invalid_index, with_user (with_user w i (record u { room_index = n })) i v))
        × (v.state ≡ in_room)
        × (v.room_index ≡ n)
  unfolding user_enter_room enter_user enter_found ◌>>=◌
  user_enter_room-invalid i n w u at valid missing =
      let moved : User = record u { room_index = n } in
      let kept : UserIsValid i moved = record {
        position = valid.position;
        buffer_valid = valid.buffer_valid;
        bindings = record { entered = valid.bindings.entered; bound = valid.bindings.bound };
      } in
      let (v, made) = change_state-total in_room i moved (λ k. cc) (λ k. cc) kept in
      let (state, index) = change_state-in_room moved v made in
      let first =
        modify_user-succeeds i (λ x. some (record x { room_index = n })) w u moved at refl in
      let here : UserAt (with_user w i moved) i moved =
        get_elem?-set_self (users w) i moved (get_elem?-lt (users w) i at) in
      let second =
        modify_user-succeeds i (change_state in_room) (with_user w i moved) moved v here made in
      (v, rw (missing, first, second) refl, state, index)

  -- A request for the room's members whose room does not exist faults: the null pointer that
  -- `GetRoom` returns is used.
  pub room_info_request-faults :
      (i client_index : ℕ) (w : World Db) (u : User)
      → UserAt w i u
      → get_room_by_number u.room_index w ≡ some (none, w)
      → room_info_request p i client_index w ≡ none
  unfolding room_info_request user_get_room get_user ◌>>=◌
  room_info_request-faults i client_index w u at missing = rw (at, missing) refl
