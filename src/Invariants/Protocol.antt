-- ===== src/Invariants/Protocol.antt =====
-- The users of the pool in every history.
use lhjsample.Common.{ℕ, ◌≡◌, refl, ap, ◌∙◌, inl, inr, List, Option, some}
use lhjsample.Common.Effect.{◌>>=◌}
use lhjsample.Packet.{PacketId, packet_id}
use lhjsample.Session.{call_handler}
use lhjsample.PacketManager.{user_request}
use lhjsample.User.{User, ignore}
use lhjsample.User.Bindings.{
  UserIsValid, IsRequest, protocol, clear-UserIsValid, set_login-UserIsValid,
}
use lhjsample.World.{World, Platform, get_user}
use lhjsample.World.Inversion.{UserAt}
use lhjsample.ChatServer.{Event, run}
use lhjsample.Invariants.Stable.{UsersValid, Stable}
use lhjsample.Invariants.Assemble.{run-stable}
use lhjsample.Invariants.Users.{UsersValid-with_user, IsStarted, IsStarted-users}

module _ {Db : Type 0} where
  pub UsersValid-Stable : Stable {Db = Db} UsersValid
  UsersValid-Stable = record {
    pool = λ w h. h;
    says = λ w c m framed h. h;
    queries = λ w db h. h;
    queues = λ w q h. h;
    revises = λ w i u v at same ok h. UsersValid-with_user w i v ok h;
    pushes = λ w k i a b u ra at space pushed h. h;
    removes = λ w k id a b ra removed h. h;
    clears =
        λ w i u v at made h. UsersValid-with_user w i v (clear-UserIsValid i u v (h i u at) made) h;
    deletes =
        λ w i u v at made h. UsersValid-with_user w i v (clear-UserIsValid i u v (h i u at) made) h;
    logins = λ w i u v id at fresh made h.
        UsersValid-with_user w i v (set_login-UserIsValid i u v (h i u at) id made) h;
  }

  -- In every history of a started server, every user of the pool is valid at its position: its
  -- `mIndex` is the position, the positions in its packet buffer are in order and inside it, its
  -- state has an object, and each request is bound to the handler of its state or to nothing.
  pub run-UserIsValid :
      (p : Platform Db) (es : List Event) (w : World Db) (r : Unit {0} × World Db) (i : ℕ)
      (u : User)
      → IsStarted w
      → run p es w ≡ some r
      → UserAt r.1 i u
      → UserIsValid i u
  run-UserIsValid p es w r i u start e at =
      run-stable UsersValid-Stable p es w r (λ j x h. (IsStarted-users w start j x h).0) e i u at

  -- In every history of a started server, a request that the protocol does not allow in the state
  -- that the user has then, such as a second login or a request for a room before the login, ends
  -- without a fault and changes nothing at all, whatever states the user was in before.
  pub run-refused :
      (p : Platform Db) (es : List Event) (w : World Db) (r : Unit {0} × World Db) (i : ℕ)
      (u : User) (id : PacketId) (packet_size : ℕ) (p_packet : Option ℕ)
      → IsStarted w
      → run p es w ≡ some r
      → UserAt r.1 i u
      → IsRequest (packet_id id)
      → protocol u.state (packet_id id) ≡ ignore
      → user_request p id i packet_size p_packet r.1 ≡ some (tt, r.1)
  unfolding user_request get_user call_handler ◌>>=◌
  run-refused p es w r i u id packet_size p_packet start e at request refused =
      elim ((run-UserIsValid p es w r i u start e at).bindings.bound (packet_id id) request) [
        | inl unbound ↦ rw (at, unbound) refl
        | inr bound ↦ rw (at, bound ∙ ap some refused) refl
      ]
