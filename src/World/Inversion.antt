-- ===== src/World/Inversion.antt =====
-- What a primitive has done when it ended without a fault.
use lhjsample.Common.{
  ℕ, ◌%◌, ◌^◌, ◌≡◌, sym, ap, ◌∙◌, List, [], ◌∷◌, ◌++◌, Option, some, arith, get_elem?, set, take,
}
use lhjsample.Common.Effect.{lift, update, ◌>>=◌}
use lhjsample.Common.Effect.Keeps.{>>=-eq-some, lift-reads}
use mathlib.Core.Option.{some-injective}
use lhjsample.User.{User}
use lhjsample.World.{
  World, Room, Message, users, rooms, get_user, put_user, modify_user, get_room, put_room,
  modify_room,
}

-- The message that a call of `send_packet` records.
abbrev pub message : ℕ → ℕ → List ℕ → Message
message client_index size m = record {
  client_index = client_index;
  packet_size = size % 2 ^ 16;
  content = take (size % 2 ^ 16) m;
}

module _ {Db : Type 0} where
  -- The world with one user, or one room, replaced, or one message more.
  abbrev pub with_user : World Db → ℕ → User → World Db
  with_user w i u = record w {
    user_manager = record w.user_manager { user_obj_pool = set (users w) i u };
  }

  abbrev pub with_dictionary : World Db → List (List ℕ × ℕ) → World Db
  with_dictionary w d = record w { user_manager = record w.user_manager { user_id_dictionary = d } }

  abbrev pub with_room : World Db → ℕ → Room → World Db
  with_room w r room = record w {
    room_manager = record w.room_manager { room_list = set (rooms w) r room };
  }

  abbrev pub with_message : World Db → Message → World Db
  with_message w m = record w { sent = w.sent ++ m ∷ [] }

  abbrev pub UserAt : World Db → ℕ → User → Type 0
  UserAt w i u = get_elem? (users w) i ≡ some u

  pub get_user-reads :
      (i : ℕ) (w : World Db) (q : User × World Db)
      → get_user i w ≡ some q
      → UserAt w i q.0 × (q.1 ≡ w)
  unfolding get_user ◌>>=◌
  get_user-reads i w q e = ground arith

  pub get_room-reads :
      (r : ℕ) (w : World Db) (q : Room × World Db)
      → get_room r w ≡ some q
      → (get_elem? (rooms w) r ≡ some q.0) × (q.1 ≡ w)
  unfolding get_room ◌>>=◌
  get_room-reads r w q e = ground arith

  pub modify_user-changes :
      (i : ℕ) (method : User → Option User) (w : World Db) (q : Unit {0} × World Db)
      → modify_user i method w ≡ some q
      → (u v : User) × UserAt w i u × (method u ≡ some v) × (q.1 ≡ with_user w i v)
  unfolding modify_user put_user update
  modify_user-changes i method w q e =
      let (a, e1, e2) = >>=-eq-some (get_user i) _ w q e in
      let (found, same) = get_user-reads i w a e1 in
      let (b, e3, e4) = >>=-eq-some (lift (method a.0)) _ a.1 q e2 in
      let (made, same') = lift-reads (method a.0) a.1 b e3 in
      (
        a.0,
        b.0,
        found,
        made,
        sym (ap (λ x. x.1) (some-injective _ _ e4)) ∙ ap (λ x. with_user x i b.0) (same' ∙ same),
      )

  pub modify_room-changes :
      (r : ℕ) (change : Room → Option Room) (w : World Db) (q : Unit {0} × World Db)
      → modify_room r change w ≡ some q
      → (a b : Room) × (get_elem? (rooms w) r ≡ some a)
        × (change a ≡ some b)
        × (q.1 ≡ with_room w r b)
  unfolding modify_room put_room update
  modify_room-changes r change w q e =
      let (a, e1, e2) = >>=-eq-some (get_room r) _ w q e in
      let (found, same) = get_room-reads r w a e1 in
      let (b, e3, e4) = >>=-eq-some (lift (change a.0)) _ a.1 q e2 in
      let (made, same') = lift-reads (change a.0) a.1 b e3 in
      (
        a.0,
        b.0,
        found,
        made,
        sym (ap (λ x. x.1) (some-injective _ _ e4)) ∙ ap (λ x. with_room x r b.0) (same' ∙ same),
      )

  -- The other way round.
  pub modify_user-succeeds :
      (i : ℕ) (method : User → Option User) (w : World Db) (u v : User)
      → UserAt w i u
      → method u ≡ some v
      → modify_user i method w ≡ some (tt, with_user w i v)
  unfolding modify_user ◌>>=◌
  modify_user-succeeds i method w u v e f = ground arith
