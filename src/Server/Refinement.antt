-- ===== src/Server/Refinement.antt =====
-- What the packet thread's objects see of the whole server is a history of `ChatServer`.
use mathlib.Core.Option.{some-injective}
use lhjsample.Common.{ℕ, ◌≡◌, refl, sym, ap, ◌∙◌, subst, List, [], ◌∷◌, ◌++◌, some, drop, length}
use lhjsample.Common.Fallible.{>>=-eq-some as bind-eq-some}
use lhjsample.Common.Effect.{pure, ◌>>=◌}
use lhjsample.Common.Effect.Keeps.{>>=-eq-some, pure-reads}
use lhjsample.World.{World, Platform}
use lhjsample.ChatServer
use lhjsample.ChatServer.{Event, round, step}
use lhjsample.Network.{Winsock}
use lhjsample.Network.Server.{Completion, worker_round}
use lhjsample.Network.Lifecycle.{accepter_round}
use lhjsample.Server.{
  Server, Round, worker, accepter, packets, deliver, worker_step, accepter_step, packet_step,
  server_step, server_run,
}

module _ {Db : Type 0} (p : Platform Db) where
  -- A history after a history.
  run-append :
      (early late : List Event) (w : World Db) (q r : Unit {0} × World Db)
      → ChatServer.run p early w ≡ some q
      → ChatServer.run p late q.1 ≡ some r
      → ChatServer.run p (early ++ late) w ≡ some r
  unfolding ChatServer.run ◌>>=◌
  run-append [] late w q r e f =
      let (_, same) = pure-reads tt w q e in ap (ChatServer.run p late) (sym same) ∙ f
  run-append (a ∷ early) late w q r e f =
      let (m, e1, e2) = >>=-eq-some (step p a) _ w q e in rw e1 (run-append early late m.1 q r e2 f)

  pub run-one :
      (e : Event) (w : World Db) (q : Unit {0} × World Db)
      → step p e w ≡ some q
      → ChatServer.run p (e ∷ []) w ≡ some q
  unfolding ChatServer.run ◌>>=◌
  run-one e w q h = rw h refl

  module _ {Os : Type 0} (s : Winsock Os) where
    -- The history that is recorded leads from `w` to the world of the server.
    pub record Explains (w : World Db) (server : Server Db Os) : Type 0 where
      pub runs : ChatServer.run p server.history w ≡ some (tt, server.world)

    worker_step-Explains :
        (w : World Db) (c : Completion) (server after : Server Db Os)
        → Explains w server
        → worker_step p s c server ≡ some after
        → Explains w after
    unfolding worker_step
    worker_step-Explains w c server after h e =
        let (r, e1, f1) =
          bind-eq-some (worker_round s c (record server.network { events = [] })) _ e in
        let (q, e2, f2) = bind-eq-some (ChatServer.run p r.1.events server.world) _ f1 in
        subst (Explains w) (some-injective _ _ f2)
          (record { runs = run-append server.history r.1.events w (tt, server.world) q h.runs e2 })

    packet_step-Explains :
        (w : World Db) (server after : Server Db Os)
        → Explains w server
        → packet_step p s server ≡ some after
        → Explains w after
    unfolding packet_step
    packet_step-Explains w server after h e =
        let (q, e1, f1) = bind-eq-some (step p round server.world) _ e in
        let (r, e2, f2) =
          bind-eq-some (deliver s (drop (length server.world.sent) q.1.sent) server.network) _ f1 in
        subst (Explains w) (some-injective _ _ f2) (record {
          runs =
              run-append server.history (round ∷ []) w (tt, server.world) q h.runs
                (run-one round server.world q e1);
        })

    accepter_step-Explains :
        (w : World Db) (time : ℕ) (server after : Server Db Os)
        → Explains w server
        → accepter_step p s time server ≡ some after
        → Explains w after
    unfolding accepter_step
    accepter_step-Explains w time server after h e =
        let (r, e1, f1) = bind-eq-some (accepter_round s time server.network) _ e in
        subst (Explains w) (some-injective _ _ f1) (record { runs = h.runs })

    server_step-Explains :
        (w : World Db) (r : Round) (server after : Server Db Os)
        → Explains w server
        → server_step p s r server ≡ some after
        → Explains w after
    unfolding server_step
    server_step-Explains w (worker c) server after h e = worker_step-Explains w c server after h e
    server_step-Explains w (accepter time) server after h e =
        accepter_step-Explains w time server after h e
    server_step-Explains w packets server after h e = packet_step-Explains w server after h e

    pub server_run-Explains :
        (w : World Db) (rounds : List Round) (server after : Server Db Os)
        → Explains w server
        → server_run p s rounds server ≡ some after
        → Explains w after
    unfolding server_run
    server_run-Explains w [] server after h e = subst (Explains w) (some-injective _ _ e) h
    server_run-Explains w (r ∷ rounds) server after h e =
        let (m, e1, e2) = bind-eq-some (server_step p s r server) _ e in
        server_run-Explains w rounds m after (server_step-Explains w r server m h e1) e2

    -- Every history of the whole server is one of the objects of `ChatServer`: from a server that
    -- has recorded nothing, each sequence of rounds of the worker threads, the accepter and the
    -- packet thread takes its world to where the recorded calls of `OnConnect`, `OnClose`,
    -- `OnReceive` and rounds of the packet thread take it.
    pub server_run-refines :
        (rounds : List Round) (server after : Server Db Os)
        → server.history ≡ []
        → server_run p s rounds server ≡ some after
        → ChatServer.run p after.history server.world ≡ some (tt, after.world)
    unfolding ChatServer.run pure
    server_run-refines rounds server after fresh e =
        (server_run-Explains server.world rounds server after (record { runs = rw fresh refl })
          e).runs
