-- ===== src/Network/Ordered.antt =====
-- A round of the threads of the sessions keeps the order of what each session sends.
use lhjsample.Common.{ℕ, List, Bool, false, ◌&&◌, Option, some, none, ◌==◌}
use lhjsample.Common.Effect.{Effect, update}
use lhjsample.Common.Effect.Keeps.{
  Keeps, Keeps-pure, Keeps-lift, Keeps-if, Keeps-bind, Keeps-update,
}
use lhjsample.Network.{IoOperation, Winsock, Network, accept, recv, send}
use lhjsample.Network.Server.{
  Completion, close_socket, close_key, completed, overlapped_round, worker_round, accept_clients,
}
use lhjsample.Network.SendQueue.{Sent, send_completed-Sent}
use lhjsample.Network.Kept.{
  get_client_info-Kept, bind_recv-Kept, accept_completion-Kept, record_event-Kept,
  close_socket-Kept, accepted_round-Kept, accept_clients-Kept,
}

module _ {Os : Type 0} (s : Winsock Os) where
  -- The session has sent the first of the messages `all` in order, whatever has completed.
  abbrev pub Ordered : ℕ → List (List ℕ) → Network Os → Type 0
  Ordered i all n = (k : ℕ) × Sent s i all k n

  Ordered-Keeps :
      {A : Type 0}
      → (i : ℕ) (all : List (List ℕ)) (m : Effect (Network Os) A)
      → ((k : ℕ) → Keeps (Sent s i all k) m)
      → Keeps (Ordered i all) m
  Ordered-Keeps i all m keeps = record { at = λ n q (k, sent) e. (k, (keeps k).at n q sent e) }

  module _ (i : ℕ) (all : List (List ℕ)) where
    completed-Ordered :
        (operation : IoOperation) (session : ℕ) (c : Completion)
        → Keeps (Ordered i all) (completed s operation session c)
    unfolding completed
    completed-Ordered accept session c = Ordered-Keeps i all _ λ k.
        Keeps-bind _ _ (get_client_info-Kept s i all k session) λ client.
          Keeps-bind _ _ (accept_completion-Kept s i all k session)
            λ accepted. accepted_round-Kept s i all k session client accepted
    completed-Ordered recv session c = Ordered-Keeps i all _ λ k.
        Keeps-bind _ _ (Keeps-lift c.key) λ j.
          Keeps-bind _ _ (get_client_info-Kept s i all k j) λ client.
            Keeps-bind _ _ (record_event-Kept s i all k _)
              λ _. Keeps-bind _ _ (bind_recv-Kept s i all k j) λ _. Keeps-pure tt
    completed-Ordered send session c =
        Keeps-bind _ _ (Keeps-lift c.key)
          λ j. record { at = λ n q (k, sent) e. (_, send_completed-Sent s i j all k n q sent e) }

    close_socket-Ordered :
        (j : ℕ) (is_force : Bool) → Keeps (Ordered i all) (close_socket s j is_force)
    close_socket-Ordered j is_force =
        Ordered-Keeps i all _ λ k. close_socket-Kept s i all k j is_force

    close_key-Ordered : (key : Option ℕ) → Keeps (Ordered i all) (close_key s key)
    unfolding close_key
    close_key-Ordered key = Keeps-bind _ _ (Keeps-lift key) λ j. close_socket-Ordered j false

    stop-Ordered : Keeps (Ordered i all) (update (λ n. record n { is_worker_run = false }))
    stop-Ordered = Keeps-update _ λ n (k, h). (
      k,
      record {
        client = h.client;
        at = h.at;
        queue = h.queue;
        completed = h.completed;
        posted = h.posted;
      },
    )

    overlapped_round-Ordered :
        (overlapped : Option (IoOperation × ℕ)) (c : Completion)
        → Keeps (Ordered i all) (overlapped_round s overlapped c)
    unfolding overlapped_round
    overlapped_round-Ordered none c =
        Keeps-if stop-Ordered (Keeps-pure tt) (c.success && (c.io_size == 0))
    overlapped_round-Ordered (some (operation, session)) c =
        Keeps-if (close_key-Ordered c.key)
          (Keeps-if (close_key-Ordered c.key) (completed-Ordered operation session c) _) _

    -- A round of a worker thread keeps the order of what each session sends.
    pub worker_round-Ordered : (c : Completion) → Keeps (Ordered i all) (worker_round s c)
    unfolding worker_round
    worker_round-Ordered c = overlapped_round-Ordered c.overlapped c

    pub accept_clients-Ordered : (time j m : ℕ) → Keeps (Ordered i all) (accept_clients s time j m)
    accept_clients-Ordered time j m =
        Ordered-Keeps i all _ λ k. accept_clients-Kept s i all k time j m
