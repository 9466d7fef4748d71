-- ===== src/Network/Total.antt =====
-- Which rounds of the worker threads end: all whose completion is about a session that there is.
use lhjsample.Common.{ℕ, ◌<◌, ◌≡◌, ◌≢◌, [], true, false, Option, some, none, length, get_elem?}
use lhjsample.Common.Effect.{Effect}
use lhjsample.Network.{ClientInfo, IoOperation, Winsock, Network, accept, recv, send}
use lhjsample.Network.Server.{Completion}

module _ {Os : Type 0} (s : Winsock Os) (k : ℕ) where
  -- A method that ends, whatever the system answers, on every network of `k` sessions, and leaves
  -- as many.
  record Ends {A : Type 0} (m : Effect (Network Os) A) : Type 0 where
    pub at :
        (n : Network Os)
        → length n.client_infos ≡ k
        → (q : A × Network Os) × (m n ≡ some q) × (length q.1.client_infos ≡ k)

  abbrev Result : Effect (Network Os) (Unit {0}) → Network Os → Type 0
  Result m n = (q : Unit {0} × Network Os) × (m n ≡ some q) × (length q.1.client_infos ≡ k)

  -- The completion is about a session that there is: an accept, which has succeeded, about that of
  -- its overlapped structure, a receive about that of its key, and a send about that of its key,
  -- which has sent.
  abbrev About : Option (IoOperation × ℕ) → Completion → Network Os → Type 0
  About none c n = Unit
  About (some (accept, session)) c n = (c.success ≡ true) × (session < k)
  About (some (recv, session)) c n = (key : ℕ) × (c.key ≡ some key) × (key < k)
  About (some (send, session)) c n =
      (key : ℕ) × (c.key ≡ some key)
      × (key < k)
      × ((client : ClientInfo) × (get_elem? n.client_infos key ≡ some client)
          × (client.send_dataqueue ≢ []))

  abbrev pub IsAbout : Completion → Network Os → Type 0
  IsAbout c n = About c.overlapped c n

  -- What `GetQueuedCompletionStatus` gives for an accept of a session that has failed.
  abbrev pub failed_accept : ℕ → Completion
  failed_accept session = record {
    success = false;
    io_size = 0;
    key = none;
    overlapped = some (accept, session);
    recv_buf = [];
  }
