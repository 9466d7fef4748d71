-- ===== src/Invariants/Messages.antt =====
-- The frames of the messages that the server sends.
use mathlib.Core.Option.{some-injective}
use lhjsample.Common.{
  ℕ, zero, suc, ◌%◌, ◌^◌, ◌≤◌, ◌≡◌, refl, sym, ap, ◌∙◌, subst, List, [], ◌∷◌, ◌++◌, some, length,
  take, get_elem?, arith, length-take,
}
use lhjsample.Common.Fallible.{>>=-eq-some}
use lhjsample.Packet.Framing.{announced, IsFramed}
use lhjsample.User.Bindings.{clear-UserIsValid, set_login-UserIsValid}
use lhjsample.World.{World, Message, Platform}
use lhjsample.World.Inversion.{message}
use lhjsample.Accounts.{init_user_manager}
use lhjsample.ChatServer.{Event, init, run}
use lhjsample.Invariants.Stable.{UsersValid, Stable}
use lhjsample.Invariants.Assemble.{run-stable}
use lhjsample.Invariants.Users.{UsersValid-with_user, IsStarted, IsStarted-users}

-- The size given to `SendMsg` is the number of bytes, and the length in the header of the packet.
pub record IsWellSent (m : Message) : Type 0 where
  pub whole : m.packet_size ≡ length m.content
  pub header : 2 ≤ m.packet_size → announced m.content ≡ m.packet_size

announced-take : (k : ℕ) (m : List ℕ) → 2 ≤ k → announced (take k m) ≡ announced m
announced-take zero m h = absurd (omega arith)
announced-take (suc zero) m h = absurd (omega arith)
announced-take (suc (suc k)) [] h = refl
announced-take (suc (suc k)) (a ∷ []) h = refl
announced-take (suc (suc k)) (a ∷ b ∷ m) h = refl

message-IsWellSent : (c : ℕ) (m : List ℕ) → IsFramed m → IsWellSent (message c (length m) m)
message-IsWellSent c m framed = record {
  whole = omega (arith, length-take (length m % 2 ^ 16) m);
  header = λ h. announced-take (length m % 2 ^ 16) m h ∙ framed.0;
}

append-all :
    (ms : List Message) (m : Message)
    → ((k : ℕ) (x : Message) → get_elem? ms k ≡ some x → IsWellSent x)
    → IsWellSent m
    → (k : ℕ) (x : Message) → get_elem? (ms ++ m ∷ []) k ≡ some x
    → IsWellSent x
append-all [] m h n zero x e = subst IsWellSent (some-injective _ _ e) n
append-all [] m h n (suc k) x e = cc
append-all (y ∷ ms) m h n zero x e = h 0 x e
append-all (y ∷ ms) m h n (suc k) x e = append-all ms m (λ j. h (suc j)) n k x e

module _ {Db : Type 0} where
  record Framed (w : World Db) : Type 0 where
    pub valid : UsersValid w
    pub messages : (k : ℕ) (m : Message) → get_elem? w.sent k ≡ some m → IsWellSent m

  Framed-Stable : Stable Framed
  Framed-Stable = record {
    pool = λ w h. h.valid;
    says = λ w c m framed h. record {
      valid = h.valid;
      messages = append-all w.sent _ h.messages (message-IsWellSent c m framed);
    };
    queries = λ w db h. record { valid = h.valid; messages = h.messages };
    queues = λ w q h. record { valid = h.valid; messages = h.messages };
    revises = λ w i u v at same ok h. record {
      valid = UsersValid-with_user w i v ok h.valid;
      messages = h.messages;
    };
    pushes = λ w r i a b u ra at space pushed h. record { valid = h.valid; messages = h.messages };
    removes = λ w r id a b ra removed h. record { valid = h.valid; messages = h.messages };
    clears = λ w i u v at made h. record {
      valid = UsersValid-with_user w i v (clear-UserIsValid i u v (h.valid i u at) made) h.valid;
      messages = h.messages;
    };
    deletes = λ w i u v at made h. record {
      valid = UsersValid-with_user w i v (clear-UserIsValid i u v (h.valid i u at) made) h.valid;
      messages = h.messages;
    };
    logins = λ w i u v id at fresh made h. record {
      valid =
          UsersValid-with_user w i v (set_login-UserIsValid i u v (h.valid i u at) id made) h.valid;
      messages = h.messages;
    };
  }

  pub IsStarted-sent : (w : World Db) → IsStarted w → w.sent ≡ []
  unfolding IsStarted init
  IsStarted-sent w (max_client, storage, db, sizes, e) =
      let (m, managed, e1) = >>=-eq-some (init_user_manager max_client storage) _ e in
      sym (ap (λ (x : World Db). x.sent) (some-injective _ _ e1))

  -- In every history of a started server, every message given to `SendMsg` holds as many bytes as
  -- the size says, and, if that is two or more, announces this size in its first two bytes.
  pub run-IsWellSent :
      (p : Platform Db) (es : List Event) (w : World Db) (r : Unit {0} × World Db) (k : ℕ)
      (m : Message)
      → IsStarted w
      → run p es w ≡ some r
      → get_elem? r.1.sent k ≡ some m
      → IsWellSent m
  run-IsWellSent p es w r k m start e at =
      let begin : Framed w = record {
        valid = λ i u h. (IsStarted-users w start i u h).0;
        messages = λ j x h. absurd (ground (arith, IsStarted-sent w start));
      } in
      (run-stable Framed-Stable p es w r begin e).messages k m at
