-- ===== src/Server/Order.antt =====
-- From the messages of the packet thread to the buffers on the wire.
use mathlib.Core.Option.{some-injective}
use lhjsample.Common.{
  ℕ, suc, ◌≤◌, ◌≡◌, sym, ap, ◌∙◌, subst, List, [], ◌∷◌, ◌++◌, append_assoc, append-nil, Bool, some,
  get_elem?, drop, take, length, ◌==◌, if◌then◌else◌, arith,
}
use lhjsample.Common.Fallible.{>>=-eq-some as bind-eq-some}
use lhjsample.Common.Effect.{◌>>=◌}
use lhjsample.Common.Effect.Keeps.{>>=-eq-some, pure-reads}
use lhjsample.World.{Message, Platform}
use lhjsample.ChatServer
use lhjsample.ChatServer.{Event, round, step}
use lhjsample.Invariants.Stable.{UsersValid}
use lhjsample.Invariants.Assemble.{run-stable}
use lhjsample.Invariants.Users.{IsStarted, IsStarted-users}
use lhjsample.Invariants.Messages.{IsStarted-sent}
use lhjsample.Invariants.Protocol.{UsersValid-Stable}
use lhjsample.Network.{ClientInfo, Winsock, Network, get_client_info, send_msg}
use lhjsample.Network.Server.{Completion, worker_round}
use lhjsample.Network.Lifecycle.{send, accepter_round}
use lhjsample.Network.Calls.{posted_by}
use lhjsample.Network.SendQueue.{Sent, send_msg-Sent}
use lhjsample.Network.Kept.{get_client_info-reads}
use lhjsample.Network.Ordered.{Ordered, worker_round-Ordered, accept_clients-Ordered}
use lhjsample.Network.Events.{worker_round-Io}
use lhjsample.Server.{
  Server, Round, worker, accepter, packets, deliver, worker_step, accepter_step, packet_step,
  server_step, server_run,
}
use lhjsample.Server.Refinement.{run-one}
use lhjsample.Server.Delivery.{
  sent_to, sent_to-append, drop-append_self, Extends, Extends-Stable, run-silent,
}

module _ {Os : Type 0} (s : Winsock Os) (i : ℕ) where
  send-Ordered :
      (j : ℕ) (m : List ℕ) (all : List (List ℕ)) (n : Network Os) (q : Bool × Network Os)
      → Ordered s i all n
      → send s j m n ≡ some q
      → Ordered s i (all ++ (if j == i then m ∷ [] else [])) q.1
  unfolding send
  send-Ordered j m all n q (k, sent) e =
      let (a, e1, e2) = >>=-eq-some (get_client_info j) _ n q e in
      let (found, same) = get_client_info-reads s j n a e1 in
      (k, send_msg-Sent s i j m all k a.1 q (subst (Sent s i all k) (sym same) sent) e2)

  deliver-Ordered :
      (ms : List Message) (all : List (List ℕ)) (n : Network Os) (q : Unit {0} × Network Os)
      → Ordered s i all n
      → deliver s ms n ≡ some q
      → Ordered s i (all ++ sent_to i ms) q.1
  unfolding deliver
  deliver-Ordered [] all n q h e =
      subst (λ x. Ordered s i x q.1) (sym (append-nil all))
        (subst (Ordered s i all) (sym (pure-reads tt n q e).1) h)
  deliver-Ordered (m ∷ ms) all n q h e =
      let (a, e1, e2) = >>=-eq-some (send s m.client_index m.content) _ n q e in
      let next =
        deliver-Ordered ms _ a.1 q (send-Ordered m.client_index m.content all n a h e1) e2 in
      subst (λ x. Ordered s i x q.1)
        (append_assoc all (if m.client_index == i then m.content ∷ [] else []) (sent_to i ms)) next

module _ {Db Os : Type 0} (p : Platform Db) (s : Winsock Os) (i : ℕ) where
  -- The users are valid, and session `i` sends what the packet thread has sent to it.
  record Running (server : Server Db Os) : Type 0 where
    pub valid : UsersValid server.world
    pub order : Ordered s i (sent_to i server.world.sent) server.network

  worker_step-Running :
      (c : Completion) (server after : Server Db Os)
      → Running server
      → worker_step p s c server ≡ some after
      → Running after
  unfolding worker_step
  worker_step-Running c server after h e =
      let start : Network Os = record server.network { events = [] } in
      let (r, e1, f1) = bind-eq-some (worker_round s c start) _ e in
      let (q, e2, f2) = bind-eq-some (ChatServer.run p r.1.events server.world) _ f1 in
      let (k, sent) = h.order in
      let order : Ordered s i (sent_to i server.world.sent) start = (
        k,
        record {
          client = sent.client;
          at = sent.at;
          queue = sent.queue;
          completed = sent.completed;
          posted = sent.posted;
        },
      ) in
      let quiet =
        run-silent p r.1.events server.world q ((worker_round-Io s c).at start r tt e1) e2 in
      subst Running (some-injective _ _ f2) (record {
        valid = run-stable UsersValid-Stable p r.1.events server.world q h.valid e2;
        order =
            subst (λ x. Ordered s i (sent_to i x) r.1) (sym quiet)
              ((worker_round-Ordered s i (sent_to i server.world.sent) c).at start r order e1);
      })

  accepter_step-Running :
      (time : ℕ) (server after : Server Db Os)
      → Running server
      → accepter_step p s time server ≡ some after
      → Running after
  unfolding accepter_step accepter_round lhjsample.Network.Server.accept_clients ◌>>=◌
  accepter_step-Running time server after h e =
      let (r, e1, f1) = bind-eq-some (accepter_round s time server.network) _ e in
      subst Running (some-injective _ _ f1) (record {
        valid = h.valid;
        order =
            (accept_clients-Ordered s i (sent_to i server.world.sent) time 0
                (length server.network.client_infos)).at
              server.network r h.order e1;
      })

  packet_step-Running :
      (server after : Server Db Os)
      → Running server
      → packet_step p s server ≡ some after
      → Running after
  unfolding packet_step
  packet_step-Running server after h e =
      let base = server.world.sent in
      let (q, e1, f1) = bind-eq-some (step p round server.world) _ e in
      let (r, e2, f2) =
        bind-eq-some (deliver s (drop (length base) q.1.sent) server.network) _ f1 in
      let grown : Extends base q.1 =
        run-stable (Extends-Stable base) p (round ∷ []) server.world q
          (record { valid = h.valid; more = ([], sym (append-nil base)) })
          (run-one p round server.world q e1) in
      let new : drop (length base) q.1.sent ≡ grown.more.0 =
        ap (drop (length base)) grown.more.1 ∙ drop-append_self base grown.more.0 in
      let same : sent_to i base ++ sent_to i (drop (length base) q.1.sent) ≡ sent_to i q.1.sent =
        ap (λ x. sent_to i base ++ sent_to i x) new
        ∙ sym (sent_to-append i base grown.more.0)
        ∙ ap (sent_to i) (sym grown.more.1) in
      subst Running (some-injective _ _ f2) (record {
        valid = grown.valid;
        order =
            subst (λ x. Ordered s i x r.1) same
              (deliver-Ordered s i _ _ server.network r h.order e2);
      })

  server_step-Running :
      (r : Round) (server after : Server Db Os)
      → Running server
      → server_step p s r server ≡ some after
      → Running after
  unfolding server_step
  server_step-Running (worker c) server after h e = worker_step-Running c server after h e
  server_step-Running (accepter time) server after h e = accepter_step-Running time server after h e
  server_step-Running packets server after h e = packet_step-Running server after h e

  server_run-Running :
      (rounds : List Round) (server after : Server Db Os)
      → Running server
      → server_run p s rounds server ≡ some after
      → Running after
  unfolding server_run
  server_run-Running [] server after h e = subst Running (some-injective _ _ e) h
  server_run-Running (r ∷ rounds) server after h e =
      let (m, e1, e2) = bind-eq-some (server_step p s r server) _ e in
      server_run-Running rounds m after (server_step-Running r server m h e1) e2

  -- From a started server whose session `i` has an empty queue and has sent nothing, over every
  -- sequence of rounds of the worker threads, the accepter and the packet thread: `WSASend` was
  -- called for the session's messages in the order in which the packet thread sent them, once each,
  -- for all that have completed and at most one more, and its queue holds those that have not.
  pub server_run-order :
      (rounds : List Round) (server after : Server Db Os) (c : ClientInfo)
      → IsStarted server.world
      → get_elem? server.network.client_infos i ≡ some c
      → c.send_dataqueue ≡ []
      → posted_by i server.network.posted ≡ []
      → server_run p s rounds server ≡ some after
      → (k : ℕ) × (k ≤ length (sent_to i after.world.sent))
        × (posted_by i after.network.posted ≡ take (suc k) (sent_to i after.world.sent))
        × ((c' : ClientInfo) × (get_elem? after.network.client_infos i ≡ some c')
            × (c'.send_dataqueue ≡ drop k (sent_to i after.world.sent)))
  server_run-order rounds server after c start at empty silent e =
      let none_sent = IsStarted-sent server.world start in
      let begin : Running server = record {
        valid = λ j u h. (IsStarted-users server.world start j u h).0;
        order = (
          0,
          record {
            client = c;
            at = at;
            queue = empty ∙ ap (λ x. drop 0 (sent_to i x)) (sym none_sent);
            completed = omega arith;
            posted = silent ∙ ap (λ x. take 1 (sent_to i x)) (sym none_sent);
          },
        );
      } in
      let (k, sent) = (server_run-Running rounds server after begin e).order in
      (k, sent.completed, sent.posted, (sent.client, sent.at, sent.queue))
