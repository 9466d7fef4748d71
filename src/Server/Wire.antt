-- ===== src/Server/Wire.antt =====
-- The buffers on the wire are packets.
use mathlib.Core.Option.{some-injective}
use lhjsample.Common.{
  ℕ, zero, suc, ◌≤◌, ◌≡◌, refl, sym, ap, ◌∙◌, List, [], ◌∷◌, ◌++◌, Bool, true, false, some,
  get_elem?, take, length, ◌==◌, if◌then◌else◌, arith,
}
use lhjsample.World.{Message, Platform}
use lhjsample.Packet.Framing.{announced}
use lhjsample.Invariants.Users.{IsStarted}
use lhjsample.Invariants.Messages.{run-IsWellSent}
use lhjsample.Network.{ClientInfo, Winsock}
use lhjsample.Network.Calls.{posted_by}
use lhjsample.Server.{Server, Round, server_run}
use lhjsample.Server.Refinement.{server_run-refines}
use lhjsample.Server.Delivery.{sent_to}
use lhjsample.Server.Order.{server_run-order}

take-some {ℓ} :
    {A : Type ℓ} (n k : ℕ) (xs : List A) (x : A)
    → get_elem? (take n xs) k ≡ some x
    → get_elem? xs k ≡ some x
take-some zero k xs x e = absurd (ground arith)
take-some (suc n) k [] x e = e
take-some (suc n) zero (y ∷ xs) x e = e
take-some (suc n) (suc k) (y ∷ xs) x e = take-some n k xs x e

-- A message of the list holds these bytes.
abbrev Source : List Message → List ℕ → Type 0
Source ms m = (j : ℕ) × (x : Message) × (get_elem? ms j ≡ some x) × (x.content ≡ m)

Source-cons : (x : Message) (ms : List Message) (m : List ℕ) → Source ms m → Source (x ∷ ms) m
Source-cons x ms m (j, y, at, same) = (suc j, y, at, same)

next-Source :
    (b : Bool) (i k : ℕ) (x : Message) (ms : List Message) (m : List ℕ)
    → ((n : ℕ) → get_elem? (sent_to i ms) n ≡ some m → Source ms m)
    → get_elem? ((if b then x.content ∷ [] else []) ++ sent_to i ms) k ≡ some m
    → Source (x ∷ ms) m
next-Source true i zero x ms m rest h = (0, x, refl, some-injective _ _ h)
next-Source true i (suc n) x ms m rest h = Source-cons x ms m (rest n h)
next-Source false i n x ms m rest h = Source-cons x ms m (rest n h)

sent_to-Source :
    (i : ℕ) (ms : List Message) (k : ℕ) (m : List ℕ)
    → get_elem? (sent_to i ms) k ≡ some m
    → Source ms m
sent_to-Source i [] k m e = absurd (ground arith)
sent_to-Source i (x ∷ ms) k m e =
    next-Source (x.client_index == i) i k x ms m (λ n h. sent_to-Source i ms n m h) e

module _ {Db Os : Type 0} (p : Platform Db) (s : Winsock Os) where
  -- From a started server that has recorded no calls and whose session `i` has an empty queue and
  -- has sent nothing, over every sequence of rounds of the worker threads, the accepter and the
  -- packet thread: every buffer given to `WSASend` for the session, if it has two bytes or more,
  -- announces its own length in its first two bytes.
  pub server_run-announced :
      (rounds : List Round) (server after : Server Db Os) (i : ℕ) (c : ClientInfo) (k : ℕ)
      (m : List ℕ)
      → IsStarted server.world
      → server.history ≡ []
      → get_elem? server.network.client_infos i ≡ some c
      → c.send_dataqueue ≡ []
      → posted_by i server.network.posted ≡ []
      → server_run p s rounds server ≡ some after
      → get_elem? (posted_by i after.network.posted) k ≡ some m
      → 2 ≤ length m
      → announced m ≡ length m
  server_run-announced rounds server after i c k m start fresh at empty silent e posted two =
      let (n, within, wire, queue) =
        server_run-order p s i rounds server after c start at empty silent e in
      let sent = take-some (suc n) k _ m (sym (ap (λ x. get_elem? x k) wire) ∙ posted) in
      let (j, x, found, same) = sent_to-Source i after.world.sent k m sent in
      let well =
        run-IsWellSent p after.history server.world (tt, after.world) j x start
          (server_run-refines p s rounds server after fresh e) found in
      let sizes : x.packet_size ≡ length m = well.whole ∙ ap length same in
      ap announced (sym same) ∙ well.header (omega (arith, sizes)) ∙ sizes
