-- ===== src/Program/Service.antt =====
-- What the clients get from the server that `main` has started.
use mathlib.Core.Option.{some-injective}
use lhjsample.Common.{
  ℕ, ◌+◌, inr, get_elem?_of_lt, get_elem?-lt, suc, ◌<◌, ◌≤◌, ◌≡◌, refl, sym, ap, ◌∙◌, subst, true,
  List, some, length, get_elem?, take, drop, arith,
}
use lhjsample.User.Buffer.{packet_data_buffer_size}
use lhjsample.World.{Platform}
use lhjsample.Packet.Framing.{announced}
use lhjsample.Network.{ClientInfo, Winsock, init_client, is_connected, uint32_max}
use lhjsample.Network.Server.{accept_clients}
use lhjsample.Network.Reuse.{accept_clients-used}
use lhjsample.Network.Calls.{posted_by}
use lhjsample.Config.{ConfigLoader}
use lhjsample.Server.{Server, Round, server_run}
use lhjsample.Server.Delivery.{sent_to}
use lhjsample.Server.Order.{server_run-order}
use lhjsample.Server.Wire.{server_run-announced}
use lhjsample.Network.Places.{AllName, unconnected-IsMarked}
use lhjsample.Server.Places.{Bounded, Bounded-used, server_run-Bounded}
use lhjsample.Program.{Program, start}
use lhjsample.Program.Startup.{
  IsReady, length-create_client, create_client-indexed, create_client-unconnected, create_client-at,
  start-IsReady,
}

module _ {Db Os : Type 0} (p : Platform Db) (s : Winsock Os) (max_client : ℕ) (storage : ℕ → List ℕ)
    (sizes : (j : ℕ) → length (storage j) ≡ packet_data_buffer_size) (db : Db) (os : Os)
    (config : ConfigLoader) where
  pub started-IsReady :
      (program : Program Db Os)
      → start s max_client storage db os config ≡ some (true, program)
      → IsReady max_client program
  started-IsReady program e =
      let (same, at, ready) = start-IsReady s max_client storage db os config sizes in
      subst (IsReady max_client) (ap (λ x. x.1) (some-injective _ _ (sym at ∙ e))) ready

  session_at :
      (program : Program Db Os) (i : ℕ)
      → IsReady max_client program
      → i < max_client
      → get_elem? program.server.network.client_infos i ≡ some (init_client i)
  session_at program i ready below =
      ap (λ x. get_elem? x i) ready.sessions
      ∙ create_client-at 0 max_client i below
      ∙ ap (λ j. some (init_client j)) (omega arith)

  -- From the program as `main` starts it, with memory of the buffers of the size asked for,
  -- whenever a sequence of rounds of the worker threads, the accepter and the packet thread ends,
  -- for each of the sessions: `WSASend` was called for the session's messages in the order in
  -- which the packet thread sent them, once each, for all that have completed and at most one
  -- more, and the session's queue holds those that have not completed.
  pub start-order :
      (program : Program Db Os) (rounds : List Round) (after : Server Db Os) (i : ℕ)
      → start s max_client storage db os config ≡ some (true, program)
      → i < max_client
      → server_run p s rounds program.server ≡ some after
      → (k : ℕ) × (k ≤ length (sent_to i after.world.sent))
        × (posted_by i after.network.posted ≡ take (suc k) (sent_to i after.world.sent))
        × ((c : ClientInfo) × (get_elem? after.network.client_infos i ≡ some c)
            × (c.send_dataqueue ≡ drop k (sent_to i after.world.sent)))
  unfolding init_client
  start-order program rounds after i e below runs =
      let ready = started-IsReady program e in
      server_run-order p s i rounds program.server after (init_client i) ready.started
        (session_at program i ready below) refl (ap (posted_by i) ready.unsent) runs

  -- From the program as `main` starts it, with such memory, whenever such a sequence of rounds
  -- ends: every buffer given to `WSASend` for one of the sessions, if it has two bytes or more,
  -- announces its own length in its first two bytes.
  pub start-announced :
      (program : Program Db Os) (rounds : List Round) (after : Server Db Os) (i k : ℕ) (m : List ℕ)
      → start s max_client storage db os config ≡ some (true, program)
      → i < max_client
      → server_run p s rounds program.server ≡ some after
      → get_elem? (posted_by i after.network.posted) k ≡ some m
      → 2 ≤ length m
      → announced m ≡ length m
  unfolding init_client
  start-announced program rounds after i k m e below runs at two =
      let ready = started-IsReady program e in
      server_run-announced p s rounds program.server after i (init_client i) k m ready.started
        ready.unrecorded (session_at program i ready below) refl (ap (posted_by i) ready.unsent)
        runs at two

  -- At the start no session is used.
  started-Bounded :
      (program : Program Db Os)
      → IsReady max_client program
      → Bounded p s max_client (λ i. ⊥) program.server
  started-Bounded program ready = record {
    placed = record {
      count = ap length ready.sessions ∙ length-create_client 0 max_client;
      indexed = λ i c at.
          create_client-indexed 0 max_client i c (ap (λ x. get_elem? x i) (sym ready.sessions) ∙ at)
          ∙ omega arith;
      marked = λ i c at. unconnected-IsMarked i c (
          create_client-unconnected 0 max_client i c
            (ap (λ x. get_elem? x i) (sym ready.sessions) ∙ at));
      calls = subst (AllName max_client) (sym ready.uncalled) tt;
    };
    names = subst (AllName max_client) (sym ready.unrecorded) tt;
  }

  -- From the program as `main` starts it, with such memory, whenever such a sequence of rounds
  -- ends: each recorded call of `OnConnect`, `OnClose` or `OnReceive` names a client below the
  -- number of clients, and there are as many sessions as clients.
  pub start-AllName :
      (program : Program Db Os) (rounds : List Round) (after : Server Db Os)
      → start s max_client storage db os config ≡ some (true, program)
      → server_run p s rounds program.server ≡ some after
      → AllName max_client after.history × (length after.network.client_infos ≡ max_client)
  start-AllName program rounds after e runs =
      let ready = started-IsReady program e in
      let bounded =
        server_run-Bounded p s max_client (λ i. ⊥) rounds program.server after
          (started-Bounded program ready) runs in
      (bounded.names, bounded.placed.count)

  -- From the program as `main` starts it, with such memory: once a session has been connected after
  -- some rounds of the threads, then after all further rounds, whatever they are, and up to the time
  -- `UINT32_MAX + 3` seconds, the accepter passes over the session and changes nothing, also when it
  -- has been closed meanwhile.
  pub start-no_reuse :
      (program : Program Db Os) (rounds later : List Round) (between after : Server Db Os)
      (i cur_time_sec : ℕ) (c : ClientInfo)
      → start s max_client storage db os config ≡ some (true, program)
      → server_run p s rounds program.server ≡ some between
      → get_elem? between.network.client_infos i ≡ some c
      → is_connected c ≡ true
      → server_run p s later between ≡ some after
      → cur_time_sec ≤ uint32_max + 3
      → accept_clients s cur_time_sec i 1 after.network ≡ some (tt, after.network)
  start-no_reuse program rounds later between after i cur_time_sec c e runs at connected more
        early =
      let first =
        server_run-Bounded p s max_client (λ i. ⊥) rounds program.server between
          (started-Bounded program (started-IsReady program e)) runs in
      let second =
        server_run-Bounded p s max_client (λ j. j ≡ i) later between after
          (Bounded-used p s max_client between i c first at connected) more in
      let (d, there) = get_elem?_of_lt after.network.client_infos i (
        omega (
          arith,
          get_elem?-lt between.network.client_infos i at,
          first.placed.count,
          second.placed.count,
        )) in
      accept_clients-used s cur_time_sec i d after.network there
        (second.placed.marked i d there (inr refl)) early
