-- ===== src/Invariants/RoomCounts.antt =====
-- The counts of the rooms, and who is in them.
use mathlib.Core.Option.{some-injective}
use lhjsample.Common.{
  get_elem?-set_cases, ℕ, zero, suc, ◌+◌, ◌^◌, ◌≤◌, ◌<◌, ◌≡◌, sym, ap, ◌∙◌, subst, ℤ, pos, inl, inr,
  List, [], ◌∷◌, some, length, get_elem?, arith, Bool-cases, eq_bytes, length-append, length-set,
  get_elem?-lt,
}
use lhjsample.Common.Fallible.{>>=-eq-some}
use lhjsample.User.{User}
use lhjsample.User.Bindings.{clear-UserIsValid, set_login-UserIsValid}
use lhjsample.World.{World, Room, Platform, users, rooms}
use lhjsample.World.Safety.{AllBelow, AllBelow-append}
use lhjsample.World.Inversion.{with_room, with_user}
use lhjsample.Rooms.{push_user, remove_id, remove_user, init_room, init_rooms, init_room_manager}
use lhjsample.Accounts.{init_user_manager}
use lhjsample.ChatServer.{Event, init, run}
use lhjsample.Invariants.Stable.{UsersValid, Stable}
use lhjsample.Invariants.Assemble.{run-stable}
use lhjsample.Invariants.Users.{UsersValid-with_user, IsStarted, IsStarted-users}

-- The room's list is at most as long as its count, the count is at most the maximum, and the list
-- points into the pool.
pub record RoomIsValid (pool_size : ℕ) (room : Room) : Type 0 where
  pub capacity : room.max_user_count < 2 ^ 16
  pub counted : room.current_user_count ≤ room.max_user_count
  pub listed : length room.user_list ≤ room.current_user_count
  pub members : AllBelow pool_size room.user_list

remove_id-below :
    (pool : List User) (id : List ℕ) (ms left : List ℕ) (n : ℕ)
    → remove_id pool id ms ≡ some left
    → AllBelow n ms
    → (length left ≤ length ms) × AllBelow n left
unfolding remove_id
remove_id-below pool id [] left n e h = ground arith
remove_id-below pool id (m ∷ ms) left n e (a, h) =
    let (user, found, e1) = >>=-eq-some (get_elem? pool m) _ e in
    let (rest, removed, e2) = >>=-eq-some (remove_id pool id ms) _ e1 in
    let (shorter, below) = remove_id-below pool id ms rest n removed h in
    elim (Bool-cases (eq_bytes id user.user_id)) [
      | inl same ↦
          subst (λ (x : List ℕ). (length x ≤ suc (length ms)) × AllBelow n x)
            (some-injective _ _ (rw same at e2)) (omega arith, below)
      | inr other ↦
          subst (λ (x : List ℕ). (length x ≤ suc (length ms)) × AllBelow n x)
            (some-injective _ _ (rw other at e2)) (omega arith, (a, below))
    ]

push_user-RoomIsValid :
    (n i : ℕ) (a b : Room)
    → i < n
    → a.current_user_count < a.max_user_count
    → push_user i a ≡ some b
    → RoomIsValid n a
    → RoomIsValid n b
unfolding push_user
push_user-RoomIsValid n i a b h space e ok =
    let same = some-injective _ _ e in
    subst (RoomIsValid n) same (record {
      capacity = ok.capacity;
      counted = omega (arith, ok.capacity);
      listed = omega (arith, length-append a.user_list (i ∷ []), ok.listed, ok.capacity);
      members = AllBelow-append n i a.user_list ok.members h;
    })

remove_user-RoomIsValid :
    (n : ℕ) (pool : List User) (id : List ℕ) (a b : Room)
    → remove_user pool id a ≡ some b
    → RoomIsValid n a
    → RoomIsValid n b
unfolding remove_user
remove_user-RoomIsValid n pool id a b e ok =
    let (left, removed, e1) = >>=-eq-some (remove_id pool id a.user_list) _ e in
    let (shorter, below) = remove_id-below pool id a.user_list left n removed ok.members in
    subst (RoomIsValid n) (some-injective _ _ e1) (record {
      capacity = ok.capacity;
      counted = ok.counted;
      listed = omega (arith, ok.listed);
      members = below;
    })

pub init_rooms-RoomIsValid :
    (n : ℕ) (first : ℤ) (users i k : ℕ) (r : ℕ) (a : Room)
    → users < 2 ^ 16
    → get_elem? (init_rooms first users i k) r ≡ some a
    → RoomIsValid n a
unfolding init_rooms init_room
init_rooms-RoomIsValid n first users i zero r a h e = cc
init_rooms-RoomIsValid n first users i (suc k) zero a h e =
    subst (RoomIsValid n) (some-injective _ _ e)
      (record { capacity = h; counted = omega arith; listed = omega arith; members = tt })
init_rooms-RoomIsValid n first users i (suc k) (suc r) a h e =
    init_rooms-RoomIsValid n first users (i + 1) k r a h e

module _ {Db : Type 0} where
  abbrev RoomsValid : World Db → Type 0
  RoomsValid w =
      (r : ℕ) (a : Room) → get_elem? (rooms w) r ≡ some a → RoomIsValid (length (users w)) a

  record Counted (w : World Db) : Type 0 where
    pub valid : UsersValid w
    pub counts : RoomsValid w

  counts-with_room :
      (w : World Db) (r : ℕ) (b : Room)
      → RoomIsValid (length (users w)) b
      → RoomsValid w
      → RoomsValid (with_room w r b)
  counts-with_room w r b ok all j a at = elim (get_elem?-set_cases (rooms w) r j b a at) [
    | inl (place, same) ↦ subst (RoomIsValid (length (users w))) same ok
    | inr (other, old) ↦ all j a old
  ]

  counts-with_user : (w : World Db) (i : ℕ) (v : User) → RoomsValid w → RoomsValid (with_user w i v)
  counts-with_user w i v all r a at =
      subst (λ n. RoomIsValid n a) (sym (length-set (users w) i v)) (all r a at)

  Counted-Stable : Stable Counted
  Counted-Stable = record {
    pool = λ w h. h.valid;
    says = λ w c m framed h. record { valid = h.valid; counts = h.counts };
    queries = λ w db h. record { valid = h.valid; counts = h.counts };
    queues = λ w q h. record { valid = h.valid; counts = h.counts };
    revises = λ w i u v at same ok h. record {
      valid = UsersValid-with_user w i v ok h.valid;
      counts = counts-with_user w i v h.counts;
    };
    pushes = λ w r i a b u ra at space pushed h. record {
      valid = h.valid;
      counts =
          counts-with_room w r b
            (push_user-RoomIsValid _ i a b (get_elem?-lt (users w) i at) space pushed
              (h.counts r a ra))
            h.counts;
    };
    removes = λ w r id a b ra removed h. record {
      valid = h.valid;
      counts =
          counts-with_room w r b
            (remove_user-RoomIsValid _ (users w) id a b removed (h.counts r a ra)) h.counts;
    };
    clears = λ w i u v at made h. record {
      valid = UsersValid-with_user w i v (clear-UserIsValid i u v (h.valid i u at) made) h.valid;
      counts = counts-with_user w i v h.counts;
    };
    deletes = λ w i u v at made h. record {
      valid = UsersValid-with_user w i v (clear-UserIsValid i u v (h.valid i u at) made) h.valid;
      counts = counts-with_user w i v h.counts;
    };
    logins = λ w i u v id at fresh made h. record {
      valid =
          UsersValid-with_user w i v (set_login-UserIsValid i u v (h.valid i u at) id made) h.valid;
      counts = counts-with_user w i v h.counts;
    };
  }

  IsStarted-rooms : (w : World Db) → IsStarted w → RoomsValid w
  unfolding IsStarted init init_room_manager
  IsStarted-rooms w (max_client, storage, db, sizes, e) r a at =
      let (m, managed, e1) = >>=-eq-some (init_user_manager max_client storage) _ e in
      init_rooms-RoomIsValid _ (pos 0) 4 0 10 r a (omega arith)
        (ap (λ (x : World Db). get_elem? (rooms x) r) (some-injective _ _ e1) ∙ at)

  -- In every history of a started server, no room counts more users than its maximum, no room's
  -- list is longer than its count, and every member of a list is a position in the pool.
  pub run-RoomIsValid :
      (p : Platform Db) (es : List Event) (w : World Db) (q : Unit {0} × World Db) (r : ℕ)
      (a : Room)
      → IsStarted w
      → run p es w ≡ some q
      → get_elem? (rooms q.1) r ≡ some a
      → RoomIsValid (length (users q.1)) a
  run-RoomIsValid p es w q r a start e at =
      let begin : Counted w = record {
        valid = λ i u h. (IsStarted-users w start i u h).0;
        counts = IsStarted-rooms w start;
      } in
      (run-stable Counted-Stable p es w q begin e).counts r a at
