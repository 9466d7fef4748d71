-- ===== src/Program/Shutdown.antt =====
-- How the program ends.
use lhjsample.Common.{ℕ, ◌≡◌, refl, ◌∙◌, true, false, List, none, some, length, map, codes}
use lhjsample.Common.Fallible.{>>=-some as bind-some}
use lhjsample.Common.Effect.{◌>>=◌}
use lhjsample.User.Buffer.{packet_data_buffer_size}
use lhjsample.World.{Platform}
use lhjsample.Network.{Winsock, Network}
use lhjsample.Network.Lifecycle.{destroy_thread}
use lhjsample.Config.{ConfigLoader, Xml, returned, get_instance, load_network_config}
use lhjsample.Server.{Server, Round, server_run}
use lhjsample.Program.{
  Program, terminated, max_client, start, serve, main, destroy, leave, end, packet_manager_end,
  wait_for_quit,
}
use lhjsample.Program.Service.{started-IsReady}

module _ {Os : Type 0} (s : Winsock Os) where
  -- The network after `DestroyThread`.
  abbrev destroyed : Network Os → Network Os
  destroyed n = record n {
    is_worker_run = false;
    io_worker_threads = map (λ joinable. false) n.io_worker_threads;
    is_accepter_run = false;
    accepter_thread = false;
    os = s.close_listener n.listen_socket (s.close_handle n.iocp_handle n.os);
  }

  destroy_thread-destroyed : (n : Network Os) → destroy_thread s n ≡ some (tt, destroyed n)
  unfolding destroy_thread ◌>>=◌
  destroy_thread-destroyed n = refl

module _ {Db Os : Type 0} (s : Winsock Os) where
  -- `main`, for a configuration that loads, with memory of the buffers of the size asked for, when
  -- its threads have made their rounds and a line of the console is "quit": it ends by
  -- `std::terminate`, as the packet thread was not ended. `ChatServer::End`, which would end it, has
  -- no result, as it calls `End` of a `RedisManager` that was never made.
  pub main-terminated :
      {Document Element : Type 0} (x : Xml Document Element) (p : Platform Db) (fuel : ℕ)
      (storage : ℕ → List ℕ) (db : Db) (os : Os) (rounds : List Round) (lines rest : List (List ℕ))
      (config : ConfigLoader) (program : Program Db Os) (served : Server Db Os)
      → ((j : ℕ) → length (storage j) ≡ packet_data_buffer_size)
      → load_network_config x fuel (codes "../Config.xml") get_instance ≡ some (returned config)
      → start s max_client storage db os config ≡ some (true, program)
      → server_run p s rounds program.server ≡ some served
      → wait_for_quit lines ≡ some rest
      → (main x p s fuel storage db os rounds lines ≡ some terminated)
        × (end s (record program { server = served }) ≡ none)
  unfolding main serve destroy leave end packet_manager_end
  main-terminated x p fuel storage db os rounds lines rest config program served sizes loads starts
        runs quits =
      let ready = started-IsReady p s max_client storage sizes db os config program starts in
      (
        bind-some (load_network_config x fuel (codes "../Config.xml") get_instance) _ loads
            ∙ bind-some (start s max_client storage db os config) _ starts
            ∙ bind-some (server_run p s rounds program.server) _ runs
            ∙ bind-some (wait_for_quit lines) _ quits
            ∙ bind-some (destroy s (record program { server = served })) _ (
                bind-some (destroy_thread s served.network) _
                  (destroy_thread-destroyed s served.network))
            ∙ rw ready.processes refl,
        rw ready.unmanaged refl,
      )
