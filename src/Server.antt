-- ===== src/Server.antt =====
-- The whole server: the sessions of LHJSample/ServerNetwork and the objects of LHJSample/ChatServer,
-- which the worker threads, the accepter and the packet thread share. A worker thread calls
-- `OnConnect`, `OnClose` and `OnReceive`, and the packet thread's messages go to `SendMsg`. The
-- calls of one round into the other half are made here at the end of the round, in their order:
-- neither half reads the other.
pub mod Refinement
pub mod Delivery
pub mod Order
pub mod Wire
pub mod Places
use lhjsample.Common.{ℕ, List, [], ◌∷◌, ◌++◌, Option, some, drop, length}
use lhjsample.Common.Fallible.{◌>>=◌ as bind}
use lhjsample.Common.Effect.{Effect, pure, ◌>>=◌, ◌>>◌}
use lhjsample.World.{World, Message, Platform}
use lhjsample.ChatServer
use lhjsample.ChatServer.{Event, round}
use lhjsample.Network.{Winsock, Network}
use lhjsample.Network.Server.{Completion, worker_round}
use lhjsample.Network.Lifecycle.{send, accepter_round}

-- `history` records the calls on the objects of `ChatServer`, the latest last.
pub record Server (Db Os : Type 0) : Type 0 where
  pub network : Network Os
  pub world : World Db
  pub history : List Event

-- A round of a worker thread, of the accepter, or of the packet thread.
pub data Round : Type 0 where
  worker : Completion → Round
  accepter : ℕ → Round
  packets : Round

-- The lambda of `ChatServer::Run` for each message of a round of the packet thread.
unfoldable pub deliver : {Os : Type 0} → Winsock Os → List Message → Effect (Network Os) (Unit {0})
deliver s [] = pure tt
deliver s (m ∷ messages) = send s m.client_index m.content >> deliver s messages

module _ {Db Os : Type 0} (p : Platform Db) (s : Winsock Os) where
  unfoldable pub worker_step : Completion → Server Db Os → Option (Server Db Os)
  worker_step c server = bind (worker_round s c (record server.network { events = [] })) λ r.
      bind (ChatServer.run p r.1.events server.world)
        λ q. some (record { network = r.1; world = q.1; history = server.history ++ r.1.events })

  unfoldable pub accepter_step : ℕ → Server Db Os → Option (Server Db Os)
  accepter_step cur_time_sec server =
      bind (accepter_round s cur_time_sec server.network)
        λ r. some (record server { network = r.1 })

  unfoldable pub packet_step : Server Db Os → Option (Server Db Os)
  unfolding deliver
  packet_step server = bind (ChatServer.step p round server.world) λ q.
      bind (deliver s (drop (length server.world.sent) q.1.sent) server.network)
        λ r. some (record { network = r.1; world = q.1; history = server.history ++ round ∷ [] })

  unfoldable pub server_step : Round → Server Db Os → Option (Server Db Os)
  unfolding worker_step accepter_step packet_step
  server_step (worker c) server = worker_step c server
  server_step (accepter cur_time_sec) server = accepter_step cur_time_sec server
  server_step packets server = packet_step server

  -- The rounds of all threads in their order. Those of a thread whose flag has been cleared are
  -- not left out: a thread that is past the test of its loop still makes its round.
  unfoldable pub server_run : List Round → Server Db Os → Option (Server Db Os)
  unfolding server_step
  server_run [] server = some server
  server_run (r ∷ rounds) server = bind (server_step r server) (server_run rounds)
