-- ===== src/World/Safety.antt =====
-- Which methods end, whatever the state is: what a world has to be for it, and the primitives of
-- World. Every method that ends keeps it.
use lhjsample.Common.{
  ℕ, ◌≤◌, ◌<◌, ◌≡◌, refl, ◌∙◌, subst, ◌⊎◌, inl, inr, ℤ, pos_part, ◌-ℤ◌, List, [], ◌∷◌, ◌++◌, Bool,
  true, false, not, ◌||◌, ltb_ℤ, Option, some, length, get_elem?, length-set, get_elem?_of_lt,
  get_elem?-set_cases, if◌then◌else◌, arith,
}
use lhjsample.Common.Effect.{Effect, pure, lift, gets, update, ◌>>=◌}
use lhjsample.User.{User}
use lhjsample.User.Bindings.{UserIsValid}
use lhjsample.Packet.{user_id_field, packet_id, sys_user_connect, sys_user_disconnect}
use lhjsample.User.Buffer.{PacketInfo}
use lhjsample.World.{
  World, Room, users, rooms, get_user, put_user, modify_user, get_room, put_room, modify_room,
  send_packet, call_db,
}
use lhjsample.World.Inversion.{with_user, with_room, UserAt}

abbrev pub AllBelow : ℕ → List ℕ → Type 0
AllBelow k [] = Unit
AllBelow k (m ∷ members) = (m < k) × AllBelow k members

pub AllBelow-append :
    (k i : ℕ) (members : List ℕ) → AllBelow k members → i < k → AllBelow k (members ++ i ∷ [])
AllBelow-append k i [] h below = (below, tt)
AllBelow-append k i (m ∷ members) (a, h) below = (a, AllBelow-append k i members h below)

-- System packets that tell of a connection of one of `k` users, or of its end.
abbrev pub IsSystem : ℕ → PacketInfo → Type 0
IsSystem k packet =
    (packet.client_index < k)
    × ((packet.packet_id ≡ packet_id sys_user_connect)
        ⊎ (packet.packet_id ≡ packet_id sys_user_disconnect))

abbrev pub AllSystem : ℕ → List PacketInfo → Type 0
AllSystem k [] = Unit
AllSystem k (packet ∷ packets) = IsSystem k packet × AllSystem k packets

pub AllSystem-append :
    (k : ℕ) (packet : PacketInfo) (packets : List PacketInfo)
    → AllSystem k packets
    → IsSystem k packet
    → AllSystem k (packets ++ packet ∷ [])
AllSystem-append k packet [] h new = (new, tt)
AllSystem-append k packet (x ∷ packets) (a, h) new = (a, AllSystem-append k packet packets h new)

-- A result of which nothing is said, and a user of the pool.
abbrev pub Any : {A : Type 0} → A → Type 0
Any a = Unit {0}

abbrev pub Known : ℕ → User → Type 0
Known i u = UserIsValid i u × (length u.user_id ≤ user_id_field)

module _ {Db : Type 0} (k n : ℕ) where
  -- A world of `k` users and `n` rooms in which the users are valid and have ids that fit the field
  -- of a packet, the members of the rooms are users, and every number in the range of the room
  -- manager has a room.
  pub record Safe (w : World Db) : Type 0 where
    pub user_count : length (users w) ≡ k
    pub room_count : length (rooms w) ≡ n
    pub valid : (i : ℕ) (u : User) → UserAt w i u → UserIsValid i u
    pub short : (i : ℕ) (u : User) → UserAt w i u → length u.user_id ≤ user_id_field
    pub members : (r : ℕ) (a : Room) → get_elem? (rooms w) r ≡ some a → AllBelow k a.user_list
    pub range :
        (number : ℤ)
        → (ltb_ℤ number w.room_manager.begin_room_number
            || not (ltb_ℤ number w.room_manager.end_room_number))
          ≡ false
        → pos_part (number -ℤ w.room_manager.begin_room_number) < n
    pub incoming : AllBelow k w.queues.incoming_packet_user_index
    pub system : AllSystem k w.queues.system_packet_queue

  -- A method that ends with such a result in each such world, and leaves such a world.
  pub record Ends {A : Type 0} (P : A → Type 0) (m : Effect (World Db) A) : Type 0 where
    pub at : (w : World Db) → Safe w → (q : A × World Db) × (m w ≡ some q) × P q.0 × Safe q.1

  pub Ends-pure : {A : Type 0} {P : A → Type 0} (a : A) → P a → Ends P (pure a)
  unfolding pure
  Ends-pure a h = record { at = λ w s. ((a, w), refl, h, s) }

  pub Ends-bind :
      {A B : Type 0} {P : A → Type 0} {Q : B → Type 0} (m : Effect (World Db) A)
      (f : A → Effect (World Db) B)
      → Ends P m
      → ((a : A) → P a → Ends Q (f a))
      → Ends Q (m >>= f)
  unfolding ◌>>=◌
  Ends-bind m f first later = record {
    at = λ w s.
        let (q, e, h, t) = first.at w s in
        let (r, e', h', t') = (later q.0 h).at q.1 t in (r, rw e e', h', t');
  }

  pub Ends-if :
      {A : Type 0} {P : A → Type 0} (test : Bool) (this that : Effect (World Db) A)
      → Ends P this
      → Ends P that
      → Ends P (if test then this else that)
  Ends-if true this that h l = h
  Ends-if false this that h l = l

  pub Ends-lift :
      {A : Type 0} {P : A → Type 0} (o : Option A) (a : A) → o ≡ some a → P a → Ends P (lift o)
  unfolding lift
  Ends-lift o a e h = record { at = λ w s. ((a, w), rw e refl, h, s) }

  pub get_user-Ends : (i : ℕ) → i < k → Ends (Known i) (get_user i)
  unfolding get_user ◌>>=◌
  get_user-Ends i below = record {
    at = λ w s.
        let (u, found) = get_elem?_of_lt (users w) i (omega (arith, s.user_count, below)) in
        ((u, w), rw found refl, (s.valid i u found, s.short i u found), s);
  }

  pub Safe-with_user :
      (w : World Db) (i : ℕ) (v : User) → Safe w → Known i v → Safe (with_user w i v)
  Safe-with_user w i v s (valid, short) = record {
    user_count = length-set (users w) i v ∙ s.user_count;
    room_count = s.room_count;
    valid = λ j u at. elim (get_elem?-set_cases (users w) i j v u at) [
      | inl (same, new) ↦ subst (λ x. UserIsValid x u) same (subst (UserIsValid i) new valid)
      | inr (other, old) ↦ s.valid j u old
    ];
    short = λ j u at. elim (get_elem?-set_cases (users w) i j v u at) [
      | inl (same, new) ↦ subst (λ (x : User). length x.user_id ≤ user_id_field) new short
      | inr (other, old) ↦ s.short j u old
    ];
    members = s.members;
    range = s.range;
    incoming = s.incoming;
    system = s.system;
  }

  pub modify_user-Ends :
      (i : ℕ) (method : User → Option User)
      → i < k
      → ((u : User) → Known i u → (v : User) × (method u ≡ some v) × Known i v)
      → Ends Any (modify_user i method)
  unfolding modify_user get_user put_user ◌>>=◌
  modify_user-Ends i method below h = record {
    at = λ w s.
        let (u, found) = get_elem?_of_lt (users w) i (omega (arith, s.user_count, below)) in
        let (v, e, known) = h u (s.valid i u found, s.short i u found) in
        ((tt, with_user w i v), rw (found, e) refl, tt, Safe-with_user w i v s known);
  }

  pub get_room-Ends : (r : ℕ) → r < n → Ends (λ a. AllBelow k a.user_list) (get_room r)
  unfolding get_room ◌>>=◌
  get_room-Ends r below = record {
    at = λ w s.
        let (a, found) = get_elem?_of_lt (rooms w) r (omega (arith, s.room_count, below)) in
        ((a, w), rw found refl, s.members r a found, s);
  }

  Safe-with_room :
      (w : World Db) (r : ℕ) (b : Room) → Safe w → AllBelow k b.user_list → Safe (with_room w r b)
  Safe-with_room w r b s h = record {
    user_count = s.user_count;
    room_count = length-set (rooms w) r b ∙ s.room_count;
    valid = s.valid;
    short = s.short;
    members = λ j a at. elim (get_elem?-set_cases (rooms w) r j b a at) [
      | inl (same, new) ↦ subst (λ (x : Room). AllBelow k x.user_list) new h
      | inr (other, old) ↦ s.members j a old
    ];
    range = s.range;
    incoming = s.incoming;
    system = s.system;
  }

  pub modify_room-Ends :
      (r : ℕ) (change : Room → Option Room)
      → r < n
      → ((a : Room)
          → AllBelow k a.user_list
          → (b : Room) × (change a ≡ some b) × AllBelow k b.user_list)
      → Ends Any (modify_room r change)
  unfolding modify_room get_room put_room ◌>>=◌
  modify_room-Ends r change below h = record {
    at = λ w s.
        let (a, found) = get_elem?_of_lt (rooms w) r (omega (arith, s.room_count, below)) in
        let (b, e, more) = h a (s.members r a found) in
        ((tt, with_room w r b), rw (found, e) refl, tt, Safe-with_room w r b s more);
  }

  pub send_packet-Ends :
      (client_index size : ℕ) (bytes : List ℕ) → Ends Any (send_packet client_index size bytes)
  unfolding send_packet update
  send_packet-Ends client_index size bytes = record {
    at = λ w s. (
      (tt, _),
      refl,
      tt,
      record {
        user_count = s.user_count;
        room_count = s.room_count;
        valid = s.valid;
        short = s.short;
        members = s.members;
        range = s.range;
        incoming = s.incoming;
        system = s.system;
      },
    );
  }

  pub call_db-Ends : (query : Db → Bool × Db) → Ends Any (call_db query)
  unfolding call_db ◌>>=◌
  call_db-Ends query = record {
    at = λ w s. (
      ((query w.db).0, record w { db = (query w.db).1 }),
      refl,
      tt,
      record {
        user_count = s.user_count;
        room_count = s.room_count;
        valid = s.valid;
        short = s.short;
        members = s.members;
        range = s.range;
        incoming = s.incoming;
        system = s.system;
      },
    );
  }

  -- The pool, read.
  pub gets-users-Ends : Ends (λ pool. length pool ≡ k) (gets users)
  unfolding gets
  gets-users-Ends = record { at = λ w s. ((users w, w), refl, s.user_count, s) }
