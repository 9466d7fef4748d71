-- ===== src/Server/Delivery.antt =====
-- The messages that the objects of `ChatServer` send in a history: they are only added to, and
-- only the packet thread adds to them.
use mathlib.Core.Option.{some-injective}
use lhjsample.Common.{
  ℕ, ◌≡◌, refl, sym, ap, ◌∙◌, List, [], ◌∷◌, ◌++◌, append_assoc, some, drop, length, ◌==◌,
  if◌then◌else◌,
}
use lhjsample.Common.Effect.{update}
use lhjsample.Common.Effect.Keeps.{>>=-eq-some, pure-reads}
use lhjsample.World.{World, Message, Platform, modify_user}
use lhjsample.World.Inversion.{message, modify_user-changes}
use lhjsample.PacketManager.{
  store_data, enqueue_packet_data, push_system_packet, receive_packet_data,
}
use lhjsample.ChatServer
use lhjsample.ChatServer.{
  Event, connect, receive, round, step, on_connect, on_close, on_receive, system_packet,
}
use lhjsample.Invariants.Stable.{UsersValid, Stable}
use lhjsample.Invariants.Users.{UsersValid-with_user}
use lhjsample.User.Bindings.{clear-UserIsValid, set_login-UserIsValid}
use lhjsample.Network.Events.{IsIo, AllIo}

-- The bytes of the messages for session `i`, in order.
abbrev pub sent_to : ℕ → List Message → List (List ℕ)
sent_to i [] = []
sent_to i (m ∷ messages) =
    (if m.client_index == i then m.content ∷ [] else []) ++ sent_to i messages

pub sent_to-append :
    (i : ℕ) (xs ys : List Message) → sent_to i (xs ++ ys) ≡ sent_to i xs ++ sent_to i ys
sent_to-append i [] ys = refl
sent_to-append i (m ∷ xs) ys =
    ap (λ z. (if m.client_index == i then m.content ∷ [] else []) ++ z) (sent_to-append i xs ys)
    ∙ sym (
        append_assoc (if m.client_index == i then m.content ∷ [] else []) (sent_to i xs)
          (sent_to i ys))

pub drop-append_self {ℓ} : {A : Type ℓ} (xs ys : List A) → drop (length xs) (xs ++ ys) ≡ ys
drop-append_self [] ys = refl
drop-append_self (x ∷ xs) ys = drop-append_self xs ys

module _ {Db : Type 0} where
  -- The users are valid, and messages were only added to `base`.
  pub record Extends (base : List Message) (w : World Db) : Type 0 where
    pub valid : UsersValid w
    pub more : (ms : List Message) × (w.sent ≡ base ++ ms)

  pub Extends-Stable : (base : List Message) → Stable (Extends base)
  Extends-Stable base = record {
    pool = λ w h. h.valid;
    says = λ w c m framed h. record {
      valid = h.valid;
      more = (
        h.more.0 ++ message c (length m) m ∷ [],
        ap (λ x. x ++ message c (length m) m ∷ []) h.more.1
            ∙ append_assoc base h.more.0 (message c (length m) m ∷ []),
      );
    };
    queries = λ w db h. record { valid = h.valid; more = h.more };
    queues = λ w q h. record { valid = h.valid; more = h.more };
    revises = λ w i u v at same ok h. record {
      valid = UsersValid-with_user w i v ok h.valid;
      more = h.more;
    };
    pushes = λ w k i a b u ra at space pushed h. record { valid = h.valid; more = h.more };
    removes = λ w k id a b ra removed h. record { valid = h.valid; more = h.more };
    clears = λ w i u v at made h. record {
      valid = UsersValid-with_user w i v (clear-UserIsValid i u v (h.valid i u at) made) h.valid;
      more = h.more;
    };
    deletes = λ w i u v at made h. record {
      valid = UsersValid-with_user w i v (clear-UserIsValid i u v (h.valid i u at) made) h.valid;
      more = h.more;
    };
    logins = λ w i u v id at fresh made h. record {
      valid =
          UsersValid-with_user w i v (set_login-UserIsValid i u v (h.valid i u at) id made) h.valid;
      more = h.more;
    };
  }

  module _ (p : Platform Db) where
    -- What the I/O threads call sends nothing.
    step-silent :
        (e : Event) (w : World Db) (q : Unit {0} × World Db)
        → IsIo e
        → step p e w ≡ some q
        → q.1.sent ≡ w.sent
    unfolding step on_connect on_close on_receive push_system_packet receive_packet_data
        enqueue_packet_data update
    step-silent (connect i) w q io e = sym (ap (λ x. x.1.sent) (some-injective _ _ e))
    step-silent (ChatServer.close i) w q io e = sym (ap (λ x. x.1.sent) (some-injective _ _ e))
    step-silent (receive i p_data) w q io e =
        let (a, e1, e2) = >>=-eq-some (modify_user i (store_data p_data)) _ w q e in
        let (u, v, at, made, changed) = modify_user-changes i (store_data p_data) w a e1 in
        sym (ap (λ x. x.1.sent) (some-injective _ _ e2)) ∙ ap (λ (x : World Db). x.sent) changed
    step-silent round w q io e = absurd io

    pub run-silent :
        (es : List Event) (w : World Db) (q : Unit {0} × World Db)
        → AllIo es
        → ChatServer.run p es w ≡ some q
        → q.1.sent ≡ w.sent
    unfolding ChatServer.run
    run-silent [] w q io e = ap (λ (x : World Db). x.sent) (pure-reads tt w q e).1
    run-silent (x ∷ es) w q io e =
        let (m, e1, e2) = >>=-eq-some (step p x) _ w q e in
        run-silent es m.1 q io.1 e2 ∙ step-silent x w m io.0 e1
