-- ===== src/User/Bindings.antt =====
-- Which handlers a user's state lets a request reach.
use mathlib.Core.Option.{some-injective}
use lhjsample.Common.{
  ℕ, ◌≡◌, ◌≢◌, List, Option, none, some, arith, ◌⊎◌, inl, inr, ◌==◌, if◌then◌else◌, Option-cases,
  length, [], subst, sym, ◌∙◌,
}
use lhjsample.Common.Fallible.{>>=-eq-some}
use lhjsample.Packet.{
  packet_id, req_create_account, req_login, req_lobby_info, req_room_enter, req_room_info,
  req_room_leave, req_room_chat,
}
use lhjsample.User.Buffer
use lhjsample.User.Buffer.{packet_data_buffer_size}
use lhjsample.User.{
  UserState, User, Handler, ignore, initial, connected, disconnect, in_lobby, in_room, room_enter,
  room_exit, process_create_account, process_login, process_lobby_info, process_enter_room,
  process_room_info, process_leave_room, process_room_chat_message, change_state,
  reset_recv_function, init_user, clear, set_login,
}

-- The table of the protocol: what a request does in each state of the user.
abbrev pub protocol : UserState → ℕ → Handler
protocol connected k =
    if k == packet_id req_create_account
    then process_create_account
    else if k == packet_id req_login
    then process_login
    else ignore
protocol in_lobby k =
    if k == packet_id req_lobby_info
    then process_lobby_info
    else if k == packet_id req_room_enter
    then process_enter_room
    else ignore
protocol in_room k =
    if k == packet_id req_room_info
    then process_room_info
    else if k == packet_id req_room_leave
    then process_leave_room
    else if k == packet_id req_room_chat
    then process_room_chat_message
    else ignore
protocol _ k = ignore

-- The requests that a client can make.
abbrev pub IsRequest : ℕ → Type 0
IsRequest k =
    (k ≡ packet_id req_create_account)
    ⊎ (k ≡ packet_id req_login)
    ⊎ (k ≡ packet_id req_lobby_info)
    ⊎ (k ≡ packet_id req_room_enter)
    ⊎ (k ≡ packet_id req_room_info)
    ⊎ (k ≡ packet_id req_room_leave)
    ⊎ (k ≡ packet_id req_room_chat)

-- The state of a user after a change to a state: `ChangeState` to none returns at once.
abbrev pub state_after : UserState → User → UserState
state_after initial u = u.state
state_after s u = s

-- What a request is bound to after a change to a state: the protocol of the state, but to none and
-- to disconnect what it was bound to before.
abbrev pub bound_after : UserState → User → ℕ → Option Handler
bound_after initial u k = u.recv_funtion_dictionary k
bound_after disconnect u k = u.recv_funtion_dictionary k
bound_after s u k = some (protocol s k)

-- A change to the state connected, lobby or room binds every request to exactly what the protocol
-- of that state says, whatever was bound before; a change to none or to disconnect leaves the
-- bindings as they were, so that those of the old state outlive the change to disconnect. The user
-- is in the new state, but a change to none leaves the state as it was.
pub change_state-protocol :
    (s : UserState) (u v : User) (k : ℕ)
    → change_state s u ≡ some v
    → IsRequest k
    → (v.state ≡ state_after s u) × (v.recv_funtion_dictionary k ≡ bound_after s u k)
unfolding change_state reset_recv_function
change_state-protocol s u v k e r = ground arith

-- The state has its object, and each request is bound to nothing or to what the protocol of the
-- state says.
pub record IsBound (u : User) : Type 0 where
  pub entered : (u.state ≢ room_enter) × (u.state ≢ room_exit)
  pub bound :
      (k : ℕ)
      → IsRequest k
      → (u.recv_funtion_dictionary k ≡ some ignore)
        ⊎ (u.recv_funtion_dictionary k ≡ some (protocol u.state k))

-- What holds of the user at position `i` of the pool between two calls.
pub record UserIsValid (i : ℕ) (u : User) : Type 0 where
  pub position : u.index ≡ i
  pub buffer_valid : Buffer.IsValid u.buffer
  pub bindings : IsBound u

-- A new user with a buffer of the right size is valid, and every request of it is ignored.
pub init_user-UserIsValid :
    (i : ℕ) (storage : List ℕ) (u : User)
    → length storage ≡ packet_data_buffer_size
    → init_user i storage ≡ some u
    → UserIsValid i u
unfolding init_user
init_user-UserIsValid i storage u h e = record {
  position = ground arith;
  buffer_valid = record { storage = ground arith; ordered = ground arith; within = ground arith };
  bindings = record { entered = ground arith; bound = λ k r. inl (ground arith) };
}

module _ (i : ℕ) (u v : User) (u_valid : UserIsValid i u) where
  change_state-keeps :
      (s : UserState)
      → change_state s u ≡ some v
      → (v.index ≡ u.index)
        × (v.buffer ≡ u.buffer)
        × (v.user_id ≡ u.user_id)
        × (v.room_index ≡ u.room_index)
        × (v.state ≢ room_enter)
        × (v.state ≢ room_exit)
  unfolding change_state
  change_state-keeps s e = ground arith

  pub change_state-user_id : (s : UserState) → change_state s u ≡ some v → v.user_id ≡ u.user_id
  change_state-user_id s e = (change_state-keeps s e).2

  change_state-bound :
      (s : UserState) (k : ℕ)
      → s ≢ disconnect
      → change_state s u ≡ some v
      → IsRequest k
      → (v.recv_funtion_dictionary k ≡ some ignore)
        ⊎ (v.recv_funtion_dictionary k ≡ some (protocol v.state k))
  unfolding change_state reset_recv_function
  change_state-bound s k d e r = ground (arith, u_valid.bindings.bound k r)

  pub change_state-UserIsValid :
      (s : UserState) → s ≢ disconnect → change_state s u ≡ some v → UserIsValid i v
  change_state-UserIsValid s d e =
      let kept = change_state-keeps s e in
      record {
        position = kept.0 ∙ u_valid.position;
        buffer_valid = subst Buffer.IsValid (sym kept.1) u_valid.buffer_valid;
        bindings = record {
          entered = (kept.4, kept.5);
          bound = λ k r. change_state-bound s k d e r;
        };
      }

  pub clear-UserIsValid : clear u ≡ some v → UserIsValid i v
  unfolding clear
  clear-UserIsValid e = record {
    position = ground arith;
    buffer_valid = record { storage = ground arith; ordered = ground arith; within = ground arith };
    bindings = record { entered = ground arith; bound = λ k r. inl (ground arith) };
  }

change_state-ne-none :
    (s : UserState) (i : ℕ) (u : User)
    → s ≢ room_enter
    → s ≢ room_exit
    → UserIsValid i u
    → change_state s u ≢ none
unfolding change_state
change_state-ne-none s i u a b h e = ground arith

-- `SetLogin` gives the user its id and keeps it valid.
module _ (i : ℕ) (u v : User) (u_valid : UserIsValid i u) (id : List ℕ) where
  pub set_login-UserIsValid : set_login id u ≡ some v → UserIsValid i v
  unfolding set_login
  set_login-UserIsValid e =
      let (changed, c, made) = >>=-eq-some (change_state in_lobby u) _ e in
      let w = change_state-UserIsValid i u changed u_valid in_lobby (λ k. cc) c in
      subst (UserIsValid i) (some-injective _ _ made) (record {
        position = w.position;
        buffer_valid = w.buffer_valid;
        bindings = record { entered = w.bindings.entered; bound = w.bindings.bound };
      })

pub set_login-user_id : (id : List ℕ) (u v : User) → set_login id u ≡ some v → v.user_id ≡ id
unfolding set_login
set_login-user_id id u v e = ground arith

pub clear-user_id : (u v : User) → clear u ≡ some v → v.user_id ≡ []
unfolding clear
clear-user_id u v e = ground arith

-- A valid user can change to each state that has an object: no null state object is called.
pub change_state-total :
    (s : UserState) (i : ℕ) (u : User)
    → s ≢ room_enter
    → s ≢ room_exit
    → UserIsValid i u
    → (v : User) × (change_state s u ≡ some v)
change_state-total s i u a b h = elim (Option-cases (change_state s u)) [
  | inl fault ↦ absurd (change_state-ne-none s i u a b h fault)
  | inr done ↦ done
]
