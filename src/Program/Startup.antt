-- ===== src/Program/Startup.antt =====
-- The server as `main` starts it.
use mathlib.Core.Option.{some-injective}
use lhjsample.Common.{
  sym, ℕ, zero, suc, ◌+◌, ◌<◌, ◌≡◌, refl, ap, ◌∙◌, Bool, true, false, List, [], ◌∷◌, Option, none,
  some, if◌then◌else◌, length, get_elem?, replicate, arith,
}
use lhjsample.Common.Fallible.{>>=-some as bind-some}
use lhjsample.Common.Effect.{Effect, pure, gets, update, ◌>>=◌}
use lhjsample.User.{User, init_user, change_state}
use lhjsample.User.Buffer.{packet_data_buffer_size}
use lhjsample.World.{World}
use lhjsample.Accounts.{init_users, init_user_manager}
use lhjsample.ChatServer.{init}
use lhjsample.Invariants.Users.{IsStarted}
use lhjsample.Network.{ClientInfo, Winsock, Network, init_client, is_connected, call_os}
use lhjsample.Network.Server.{create_client}
use lhjsample.Network.Lifecycle.{
  max_workerthread, new_server, init_socket, open_port, bind_and_listen, start_server,
}
use lhjsample.Config.{ConfigLoader}
use lhjsample.Program.{Program, run, start}

module _ {Os : Type 0} (s : Winsock Os) where
  -- The network with other handles.
  abbrev with_handles : Network Os → Option ℕ → Option ℕ → Os → Network Os
  with_handles n socket port os = record n { listen_socket = socket; iocp_handle = port; os = os }

  -- A call that ends, whatever the system answers, and changes only handles.
  record Opens {A : Type 0} (call : Effect (Network Os) A) : Type 0 where
    pub ends :
        (n : Network Os)
        → (a : A) × (socket : Option ℕ) × (port : Option ℕ) × (os : Os) × (call n
            ≡ some (a, with_handles n socket port os))

  Opens-pure : {A : Type 0} (a : A) → Opens (pure a)
  unfolding pure
  Opens-pure a = record { ends = λ n. (a, n.listen_socket, n.iocp_handle, n.os, refl) }

  Opens-bind :
      {A B : Type 0} (call : Effect (Network Os) A) (next : A → Effect (Network Os) B)
      → Opens call
      → ((a : A) → Opens (next a))
      → Opens (call >>= next)
  unfolding ◌>>=◌
  Opens-bind call next first later = record {
    ends = λ n.
        let (a, socket, port, os, e) = first.ends n in
        let (b, socket', port', os', e') = (later a).ends (with_handles n socket port os) in
        (b, socket', port', os', rw e e');
  }

  Opens-if :
      {A : Type 0} (test : Bool) (this that : Effect (Network Os) A)
      → Opens this
      → Opens that
      → Opens (if test then this else that)
  Opens-if true this that h k = h
  Opens-if false this that h k = k

  Opens-call : {A : Type 0} (call : Os → A × Os) → Opens (call_os call)
  unfolding call_os ◌>>=◌
  Opens-call call = record {
    ends = λ n. ((call n.os).0, n.listen_socket, n.iocp_handle, (call n.os).1, refl);
  }

  Opens-gets : {A : Type 0} (read : Network Os → A) → Opens (gets read)
  unfolding gets
  Opens-gets read = record { ends = λ n. (read n, n.listen_socket, n.iocp_handle, n.os, refl) }

  Opens-socket :
      (socket : Option ℕ) → Opens (update (λ (n : Network Os). record n { listen_socket = socket }))
  unfolding update
  Opens-socket socket = record { ends = λ n. (tt, socket, n.iocp_handle, n.os, refl) }

  Opens-port :
      (port : Option ℕ) → Opens (update (λ (n : Network Os). record n { iocp_handle = port }))
  unfolding update
  Opens-port port = record { ends = λ n. (tt, n.listen_socket, port, n.os, refl) }

  init_socket-Opens : Opens (init_socket s)
  unfolding init_socket
  init_socket-Opens = Opens-bind _ _ (Opens-call s.wsa_startup) λ started.
      Opens-if _ _ _ (Opens-pure false) (
        Opens-bind _ _ (Opens-call s.wsa_socket)
          λ socket. Opens-bind _ _ (Opens-socket socket) λ _. Opens-pure _)

  listen_port-Opens :
      (handle socket : Option ℕ)
      → Opens (elim handle [
        | none ↦ pure false
        | some port ↦ call_os (s.bind_listen_socket socket (some port))
      ])
  listen_port-Opens none socket = Opens-pure false
  listen_port-Opens (some port) socket = Opens-call _

  open_port-Opens : Opens (open_port s)
  unfolding open_port
  open_port-Opens = Opens-bind _ _ (Opens-call _) λ handle.
      Opens-bind _ _ (Opens-port handle)
        λ _. Opens-bind _ _ (Opens-gets _) λ socket. listen_port-Opens handle socket

  bind_and_listen-Opens : (port : ℕ) → Opens (bind_and_listen s port)
  unfolding bind_and_listen
  bind_and_listen-Opens port = Opens-bind _ _ (Opens-gets _) λ socket.
      Opens-bind _ _ (Opens-call _) λ bound. Opens-if _ _ _ (Opens-pure false) (
        Opens-bind _ _ (Opens-call _)
          λ listening. Opens-if _ _ _ (Opens-pure false) open_port-Opens)

-- The sessions as they are made.
pub create_client-at :
    (first n i : ℕ) → i < n → get_elem? (create_client first n) i ≡ some (init_client (first + i))
unfolding create_client
create_client-at first zero i below = absurd (omega arith)
create_client-at first (suc n) zero below = ap (λ j. some (init_client j)) (omega arith)
create_client-at first (suc n) (suc i) below =
    create_client-at (first + 1) n i (omega arith) ∙ ap (λ j. some (init_client j)) (omega arith)

pub length-create_client : (first n : ℕ) → length (create_client first n) ≡ n
unfolding create_client
length-create_client first zero = refl
length-create_client first (suc n) = ap suc (length-create_client (first + 1) n)

pub create_client-indexed :
    (first n i : ℕ) (c : ClientInfo)
    → get_elem? (create_client first n) i ≡ some c
    → c.index ≡ first + i
unfolding create_client init_client
create_client-indexed first zero i c e = absurd (ground arith)
create_client-indexed first (suc n) zero c e =
    ap (λ x. x.index) (sym (some-injective _ _ e)) ∙ omega arith
create_client-indexed first (suc n) (suc i) c e =
    create_client-indexed (first + 1) n i c e ∙ omega arith

pub create_client-unconnected :
    (first n i : ℕ) (c : ClientInfo)
    → get_elem? (create_client first n) i ≡ some c
    → is_connected c ≡ false
unfolding create_client init_client is_connected
create_client-unconnected first zero i c e = absurd (ground arith)
create_client-unconnected first (suc n) zero c e =
    ap (λ (x : ClientInfo). is_connected x) (sym (some-injective _ _ e))
create_client-unconnected first (suc n) (suc i) c e = create_client-unconnected (first + 1) n i c e

-- `User::Init` has a result, so that the users are made.
init_user-total : (i : ℕ) (storage : List ℕ) → (u : User) × (init_user i storage ≡ some u)
unfolding init_user change_state
init_user-total i storage = (_, refl)

init_users-total :
    (storage : ℕ → List ℕ) (i n : ℕ) → (us : List User) × (init_users storage i n ≡ some us)
unfolding init_users
init_users-total storage i zero = ([], refl)
init_users-total storage i (suc n) =
    let (u, first) = init_user-total i (storage i) in
    let (us, others) = init_users-total storage (i + 1) n in
    (u ∷ us, rw (init_users, first, others) refl)

init-total :
    {Db : Type 0} (max_client : ℕ) (storage : ℕ → List ℕ) (db : Db)
    → (w : World Db) × (init max_client storage db ≡ some w)
unfolding init init_user_manager
init-total max_client storage db =
    let (us, made) = init_users-total storage 0 max_client in
    (
      _,
      bind-some (init_user_manager max_client storage) _
          (bind-some (init_users storage 0 max_client) _ made),
    )

module _ {Db Os : Type 0} where
  -- What `main` has before the lines of the console are read.
  pub record IsReady (max_client : ℕ) (program : Program Db Os) : Type 0 where
    pub started : IsStarted program.server.world
    pub unrecorded : program.server.history ≡ []
    pub uncalled : program.server.network.events ≡ []
    pub unsent : program.server.network.posted ≡ []
    pub sessions : program.server.network.client_infos ≡ create_client 0 max_client
    pub workers : program.server.network.io_worker_threads ≡ replicate max_workerthread true
    pub works_on : program.server.network.is_worker_run ≡ true
    pub accepts : program.server.network.accepter_thread ≡ true
    pub accepts_on : program.server.network.is_accepter_run ≡ true
    pub processes : program.process_thread ≡ true
    pub processes_on : program.is_run_process_thread ≡ true
    pub unmanaged : program.redis_mgr ≡ none

  pub start-IsReady :
      (s : Winsock Os) (max_client : ℕ) (storage : ℕ → List ℕ) (db : Db) (os : Os)
      (config : ConfigLoader)
      → ((j : ℕ) → length (storage j) ≡ packet_data_buffer_size)
      → (program : Program Db Os) × (start s max_client storage db os config ≡ some (true, program))
        × IsReady max_client program
  unfolding start run start_server ◌>>=◌ IsStarted
  start-IsReady s max_client storage db os config sizes =
      let (a, socket, port, os', first) = (init_socket-Opens s).ends (new_server os) in
      let (b, socket', port', os'', second) =
        (bind_and_listen-Opens s config.chat_server_info.port).ends
          (with_handles s (new_server os) socket port os') in
      let (w, made) = init-total max_client storage db in
      (
        _,
        bind-some (init_socket s (new_server os)) _ first
            ∙ bind-some (bind_and_listen s config.chat_server_info.port _) _ second
            ∙ bind-some (init max_client storage db) _ made,
        record {
          started = (max_client, storage, db, sizes, made);
          unrecorded = refl;
          uncalled = refl;
          unsent = refl;
          sessions = refl;
          workers = refl;
          works_on = refl;
          accepts = refl;
          accepts_on = refl;
          processes = refl;
          processes_on = refl;
          unmanaged = refl;
        },
      )
