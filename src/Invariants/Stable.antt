-- ===== src/Invariants/Stable.antt =====
-- The interface for an invariant of the world's data: what it has to survive, one field for each
-- way in which the code changes the data. `Derive` turns it into an `Invariant` of the methods.
use lhjsample.Common.{ℕ, ◌<◌, ◌≡◌, List, some, none, length, get_elem?}
use lhjsample.Packet.Framing.{IsFramed}
use lhjsample.User.{User, clear, set_login}
use lhjsample.User.Bindings.{UserIsValid}
use lhjsample.World.{World, Room, PacketQueues, users, rooms}
use lhjsample.World.Inversion.{with_user, with_dictionary, with_room, with_message, message, UserAt}
use lhjsample.Rooms.{push_user, remove_user}
use lhjsample.Accounts.{find_id, insert_id, erase_id}

module _ {Db : Type 0} where
  -- Every user in the pool is valid at its position.
  abbrev pub UsersValid : World Db → Type 0
  UsersValid w = (i : ℕ) (u : User) → UserAt w i u → UserIsValid i u

  abbrev pub dictionary : World Db → List (List ℕ × ℕ)
  dictionary w = w.user_manager.user_id_dictionary

  pub record Stable (P : World Db → Type 0) : Type 0 where
    pub pool : (w : World Db) → P w → UsersValid w
    pub says :
        (w : World Db) (client_index : ℕ) (m : List ℕ)
        → IsFramed m
        → P w
        → P (with_message w (message client_index (length m) m))
    pub queries : (w : World Db) (db : Db) → P w → P (record w { db = db })
    pub queues : (w : World Db) (q : PacketQueues) → P w → P (record w { queues = q })
    pub revises :
        (w : World Db) (i : ℕ) (u v : User)
        → UserAt w i u
        → v.user_id ≡ u.user_id
        → UserIsValid i v
        → P w
        → P (with_user w i v)
    pub pushes :
        (w : World Db) (r i : ℕ) (a b : Room) (u : User)
        → get_elem? (rooms w) r ≡ some a
        → UserAt w i u
        → a.current_user_count < a.max_user_count
        → push_user i a ≡ some b
        → P w
        → P (with_room w r b)
    pub removes :
        (w : World Db) (r : ℕ) (id : List ℕ) (a b : Room)
        → get_elem? (rooms w) r ≡ some a
        → remove_user (users w) id a ≡ some b
        → P w
        → P (with_room w r b)
    pub clears :
        (w : World Db) (i : ℕ) (u v : User)
        → UserAt w i u
        → clear u ≡ some v
        → P w
        → P (with_user w i v)
    pub deletes :
        (w : World Db) (i : ℕ) (u v : User)
        → UserAt w i u
        → clear u ≡ some v
        → P w
        → P (with_user (with_dictionary w (erase_id u.user_id (dictionary w))) i v)
    pub logins :
        (w : World Db) (i : ℕ) (u v : User) (id : List ℕ)
        → UserAt w i u
        → find_id id (dictionary w) ≡ none
        → set_login id u ≡ some v
        → P w
        → P (with_dictionary (with_user w i v) (insert_id id i (dictionary w)))
