-- ===== src/Client.antt =====
-- LHJSampleClient: the client for tests, which sends the words of the console to the server as they
-- are. The calls into Winsock are the parameter `Wsa`.
pub mod Words
pub mod Protocol
use lhjsample.Common.{
  ℕ, Bool, true, false, List, [], ◌∷◌, ◌++◌, Option, none, some, if◌then◌else◌, codes, eq_bytes,
  length, drop, take, c_string, replicate,
}

-- What a call of `WSASend` or `WSARecv` answers: it is done, it is `WSA_IO_PENDING`, or another
-- error.
pub data Outcome : Type 0 where
  done pending failed : Outcome

-- The calls into Winsock. `wsa_recv` also gives the bytes that stand in the buffer when the client
-- prints it.
pub record Wsa (Os : Type 0) : Type 0 where
  pub wsa_startup : Os → Bool × Os
  pub wsa_socket : Os → Option ℕ × Os
  pub connect : Option ℕ → List ℕ → ℕ → Os → Bool × Os
  pub wsa_create_event : Os → Os
  pub wsa_send : Option ℕ → List ℕ → Os → Outcome × Os
  pub wsa_wait : Os → Os
  pub wsa_get_overlapped_result : Os → ℕ × Os
  pub wsa_recv : Option ℕ → ℕ → Os → Outcome × List ℕ × Os
  pub closesocket : Option ℕ → Os → Os
  pub wsa_cleanup : Os → Os

-- `IOCPClient` and the array `message` of `Run`. `sent` records the calls of `WSASend`, and
-- `printed` what is written behind `Recv`.
pub record IocpClient (Os : Type 0) : Type 0 where
  pub client_sock : Option ℕ
  pub client_addr : List ℕ × ℕ
  pub message : List ℕ
  pub sent : List (List ℕ)
  pub printed : List (List ℕ)
  pub os : Os

-- How a method ends: it returns, or `ErrorHandling` ends the program.
pub data Ended (Os : Type 0) : Type 0 where
  returned : IocpClient Os → Ended Os
  error : List ℕ → IocpClient Os → Ended Os

module _ {Os : Type 0} (s : Wsa Os) where
  -- `Init`, from the socket on, and as a whole.
  unfoldable pub open_socket : IocpClient Os → Ended Os
  open_socket c =
      let (socket, os) = s.wsa_socket c.os in
      let opened = record c { client_sock = socket; os = os } in
      elim socket [
        | none ↦ error (codes "socket() error") opened
        | some handle ↦ returned (record opened { client_addr = (codes "127.0.0.1", 5000) })
      ]

  unfoldable pub init : IocpClient Os → Ended Os
  unfolding open_socket
  init c =
      let (loaded, os) = s.wsa_startup c.os in
      if loaded
      then open_socket (record c { os = os })
      else error (codes "WSAStartup() error!") (record c { os = os })

  -- A round of `Run` behind `WSARecv`: the client prints the array up to its first NUL.
  unfoldable pub print_message : Outcome → IocpClient Os → Option (Ended Os)
  print_message failed c = some (error (codes "WSASend() error") c)
  print_message _ c = elim (c_string c.message) [
    | none ↦ none
    | some text ↦ some (returned (record c { printed = c.printed ++ text ∷ [] }))
  ]

  -- A round behind `WSASend`: the client waits for the end of the send, and asks for as many bytes
  -- as it has given to it.
  unfoldable pub receive : Outcome → ℕ → IocpClient Os → Option (Ended Os)
  unfolding print_message
  receive failed size c = some (error (codes "WSASend() error") c)
  receive _ size c =
      let (send_bytes, os) = s.wsa_get_overlapped_result (s.wsa_wait c.os) in
      let (outcome, bytes, after) = s.wsa_recv c.client_sock size os in
      print_message outcome
        (record c { message = bytes ++ drop (length bytes) c.message; os = after })

  -- A round behind the test for "exit", where `scanf_s` has stored a word.
  unfoldable pub send_word : List ℕ → IocpClient Os → Option (Ended Os)
  unfolding receive
  send_word word c =
      let stored = word ++ 0 ∷ [] in
      let (outcome, os) = s.wsa_send c.client_sock word c.os in
      receive outcome (length word) (record c {
        message = stored ++ drop (length stored) c.message;
        sent = c.sent ++ word ∷ [];
        os = os;
      })

  -- The loop of `Run` over the words of the console; `none` while it goes on, and if a print runs
  -- past the array.
  unfoldable pub run_words : List (List ℕ) → IocpClient Os → Option (Ended Os)
  unfolding send_word
  run_words [] c = none
  run_words (word ∷ words) c =
      if eq_bytes word (codes "exit") then some (returned c) else elim (send_word word c) [
        | none ↦ none
        | some (error text after) ↦ some (error text after)
        | some (returned after) ↦ run_words words after
      ]

  -- `Run`
  unfoldable pub run : List (List ℕ) → IocpClient Os → Option (Ended Os)
  unfolding run_words
  run words c =
      let cleared = record c { message = replicate 1024 0 } in
      let (connected, os) = s.connect c.client_sock c.client_addr.0 c.client_addr.1 c.os in
      if connected
      then run_words words (record cleared { os = s.wsa_create_event os })
      else some (error (codes "connect() error!") (record cleared { os = os }))

  -- The destructor.
  unfoldable pub destroy : IocpClient Os → IocpClient Os
  destroy c = record c { os = s.wsa_cleanup (s.closesocket c.client_sock c.os) }

  -- `main`
  unfoldable pub main : List (List ℕ) → IocpClient Os → Option (Ended Os)
  unfolding init run destroy
  main words c = elim (init c) [
    | error text after ↦ some (error text after)
    | returned ready ↦ elim (run words ready) [
      | none ↦ none
      | some (error text after) ↦ some (error text after)
      | some (returned after) ↦ some (returned (destroy after))
    ]
  ]
