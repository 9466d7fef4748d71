-- ===== src/Program.antt =====
-- LHJSample/main.cpp, and how `ChatServer` and `PacketManager` are run and ended: `Run`, `End`, and
-- the destructor. Between the start and the line "quit" the threads make their rounds.
pub mod Startup
pub mod Service
pub mod Shutdown
use lhjsample.Common.{
  ℕ, Bool, true, false, not, List, [], ◌∷◌, Option, none, some, if◌then◌else◌, codes, eq_bytes,
}
use lhjsample.Common.Fallible.{◌>>=◌ as bind}
use lhjsample.World.{Platform}
use lhjsample.ChatServer.{init}
use lhjsample.Network.{Winsock}
use lhjsample.Network.Lifecycle.{
  new_server, init_socket, bind_and_listen, start_server, destroy_thread,
}
use lhjsample.Server.{Server, Round, server_run}
use lhjsample.Redis.{RedisManager}
use lhjsample.Redis
use lhjsample.Config.{
  ConfigLoader, Xml, returned, threw, crashed, get_instance, load_network_config,
}

-- `MAX_CLIENT`
abbrev pub max_client : ℕ
max_client = 100

-- The server with the members of `PacketManager` for its thread, and whether this can be joined.
-- `redis_mgr` is `none` as long as `mRedisMgr` points to nothing.
pub record Program (Db Os : Type 0) : Type 0 where
  pub server : Server Db Os
  pub is_run_process_thread : Bool
  pub process_thread : Bool
  pub redis_mgr : Option RedisManager

-- How `main` ends: it returns, `std::terminate` is called, or it uses a null pointer.
pub data Exit : Type 0 where
  exited : ℕ → Exit
  terminated crash : Exit

-- The loop over the lines of the console; `none` while no line is "quit".
unfoldable pub wait_for_quit : List (List ℕ) → Option (List (List ℕ))
wait_for_quit [] = none
wait_for_quit (input_cmd ∷ lines) =
    let rest = wait_for_quit lines in if eq_bytes input_cmd (codes "quit") then some lines else rest

module _ {Db Os : Type 0} where
  -- `PacketManager::Run`
  unfoldable pub packet_manager_run : Program Db Os → Bool × Program Db Os
  packet_manager_run program =
      (true, record program { is_run_process_thread = true; process_thread = true })

  -- `PacketManager::End`: without a `RedisManager` its call is a fault.
  unfoldable pub packet_manager_end : Program Db Os → Option (Program Db Os)
  packet_manager_end program = elim program.redis_mgr [
    | none ↦ none
    | some manager ↦ some (record program {
      redis_mgr = some (Redis.end manager);
      is_run_process_thread = false;
      process_thread = false;
    })
  ]

  -- `ChatServer::Run`. The answer of `StartServer` is not looked at.
  unfoldable pub run : ℕ → Program Db Os → Option (Bool × Program Db Os)
  unfolding packet_manager_run
  run max_client program =
      let (running, after) = packet_manager_run program in
      if not running
      then some (false, after)
      else bind (start_server max_client after.server.network) λ started.
        some (true, record after { server = record after.server { network = started.1 } })

  -- `DestroyThread` on the whole program.
  unfoldable pub destroy : Winsock Os → Program Db Os → Option (Program Db Os)
  destroy s program =
      bind (destroy_thread s program.server.network)
        λ ended. some (record program { server = record program.server { network = ended.1 } })

  -- `ChatServer::End`
  unfoldable pub end : Winsock Os → Program Db Os → Option (Program Db Os)
  unfolding packet_manager_end destroy
  end s program = bind (packet_manager_end program) (destroy s)

  -- The destructor of `ChatServer` at the end of `main`, which deletes the `PacketManager`: the
  -- destructor of a thread that can still be joined calls `std::terminate`.
  unfoldable pub leave : Program Db Os → Exit
  leave program = if program.process_thread then terminated else exited 0

  -- The part of `main` from the server's construction to `Run`.
  unfoldable pub start :
      Winsock Os → ℕ → (ℕ → List ℕ) → Db → Os → ConfigLoader → Option (Bool × Program Db Os)
  unfolding run
  start s max_client storage db os config = bind (init_socket s (new_server os)) λ a.
      bind (bind_and_listen s config.chat_server_info.port a.1) λ b.
        bind (init max_client storage db) λ world. run max_client (record {
          server = record { network = b.1; world = world; history = [] };
          is_run_process_thread = false;
          process_thread = false;
          redis_mgr = none;
        })

  -- The rest of `main`.
  unfoldable pub serve :
      Platform Db → Winsock Os → List Round → List (List ℕ) → Bool × Program Db Os → Option Exit
  unfolding destroy leave wait_for_quit
  serve p s rounds lines (false, program) = bind (destroy s program) λ ended. some (leave ended)
  serve p s rounds lines (true, program) = bind (server_run p s rounds program.server) λ served.
      bind (wait_for_quit lines)
        λ rest. bind (destroy s (record program { server = served })) λ ended. some (leave ended)

  -- `main`, on fuel for the configuration. Nothing catches what `LoadNetworkConfig` throws.
  unfoldable pub main :
      {Document Element : Type 0}
      → Xml Document Element
      → Platform Db
      → Winsock Os
      → ℕ
      → (ℕ → List ℕ)
      → Db
      → Os
      → List Round
      → List (List ℕ)
      → Option Exit
  unfolding start serve
  main x p s fuel storage db os rounds lines =
      bind (load_network_config x fuel (codes "../Config.xml") get_instance) λ loaded. elim loaded [
        | threw error config ↦ some terminated
        | crashed config ↦ some crash
        | returned config ↦ bind (start s max_client storage db os config) (serve p s rounds lines)
      ]
