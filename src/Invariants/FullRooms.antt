-- ===== src/Invariants/FullRooms.antt =====
-- A room that counts as full. `Room::LeaveUser` does not lower `mCurrentUserCount`.
use mathlib.Core.Option.{some-injective}
use lhjsample.Common.{
  ℕ, ◌≤◌, ◌≡◌, sym, ap, ◌∙◌, subst, inl, inr, List, some, get_elem?, set, ◌==◌, arith, Bool-cases,
  ==_iff, get_elem?-lt, get_elem?-set_ne, get_elem?-set_self,
}
use lhjsample.Common.Fallible.{>>=-eq-some}
use lhjsample.User.{User}
use lhjsample.User.Bindings.{clear-UserIsValid, set_login-UserIsValid}
use lhjsample.World.{World, Room, Platform, users, rooms}
use lhjsample.World.Inversion.{with_room}
use lhjsample.Rooms.{remove_id, remove_user}
use lhjsample.ChatServer.{Event, run}
use lhjsample.Invariants.Stable.{UsersValid, Stable}
use lhjsample.Invariants.Assemble.{run-stable}
use lhjsample.Invariants.Users.{UsersValid-with_user}

remove_user-counts :
    (pool : List User) (id : List ℕ) (a b : Room)
    → remove_user pool id a ≡ some b
    → (b.max_user_count ≡ a.max_user_count) × (b.current_user_count ≡ a.current_user_count)
unfolding remove_user
remove_user-counts pool id a b e =
    let (left, removed, e1) = >>=-eq-some (remove_id pool id a.user_list) _ e in
    let same = some-injective _ _ e1 in
    (
      sym (ap (λ (x : Room). x.max_user_count) same),
      sym (ap (λ (x : Room). x.current_user_count) same),
    )

module _ {Db : Type 0} where
  abbrev pub IsFull : ℕ → World Db → Type 0
  IsFull r w =
      (a : Room) × (get_elem? (rooms w) r ≡ some a) × (a.max_user_count ≤ a.current_user_count)

  record Full (r : ℕ) (w : World Db) : Type 0 where
    pub valid : UsersValid w
    pub full : IsFull r w

  full-with_room :
      (w : World Db) (r k : ℕ) (a b : Room)
      → get_elem? (rooms w) k ≡ some a
      → (a.max_user_count ≤ a.current_user_count → b.max_user_count ≤ b.current_user_count)
      → IsFull r w
      → IsFull r (with_room w k b)
  full-with_room w r k a b at keeps (c, here, full) = elim (Bool-cases (k == r)) [
    | inl same ↦
        let place = (==_iff k r).0 same in
        let one : c ≡ a =
          some-injective _ _ (sym here ∙ ap (get_elem? (rooms w)) (sym place) ∙ at) in
        (
          b,
          ap (get_elem? (set (rooms w) k b)) (sym place)
              ∙ get_elem?-set_self (rooms w) k b (get_elem?-lt (rooms w) k at),
          keeps (subst (λ (x : Room). x.max_user_count ≤ x.current_user_count) one full),
        )
    | inr other ↦ (c, get_elem?-set_ne (rooms w) b (λ p. ground (arith, ==_iff k r)) ∙ here, full)
  ]

  Full-Stable : (r : ℕ) → Stable (Full r)
  Full-Stable r = record {
    pool = λ w h. h.valid;
    says = λ w c m framed h. record { valid = h.valid; full = h.full };
    queries = λ w db h. record { valid = h.valid; full = h.full };
    queues = λ w q h. record { valid = h.valid; full = h.full };
    revises = λ w i u v at same ok h. record {
      valid = UsersValid-with_user w i v ok h.valid;
      full = h.full;
    };
    pushes = λ w k i a b u ra at space pushed h. record {
      valid = h.valid;
      full = full-with_room w r k a b ra (λ full. absurd (omega arith)) h.full;
    };
    removes = λ w k id a b ra removed h. record {
      valid = h.valid;
      full =
          full-with_room w r k a b ra
            (λ full. omega (arith, remove_user-counts (users w) id a b removed)) h.full;
    };
    clears = λ w i u v at made h. record {
      valid = UsersValid-with_user w i v (clear-UserIsValid i u v (h.valid i u at) made) h.valid;
      full = h.full;
    };
    deletes = λ w i u v at made h. record {
      valid = UsersValid-with_user w i v (clear-UserIsValid i u v (h.valid i u at) made) h.valid;
      full = h.full;
    };
    logins = λ w i u v id at fresh made h. record {
      valid =
          UsersValid-with_user w i v (set_login-UserIsValid i u v (h.valid i u at) id made) h.valid;
      full = h.full;
    };
  }

  -- From a world of valid users in which the count of a room has reached its maximum, every history
  -- ends in one where it has too, whoever has left: the room is full for ever.
  pub run-IsFull :
      (p : Platform Db) (es : List Event) (w : World Db) (q : Unit {0} × World Db) (r : ℕ)
      → UsersValid w
      → IsFull r w
      → run p es w ≡ some q
      → IsFull r q.1
  run-IsFull p es w q r valid full e =
      (run-stable (Full-Stable r) p es w q (record { valid = valid; full = full }) e).full
