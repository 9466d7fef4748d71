-- ===== src/Server/Places.antt =====
-- Which clients the history of the whole server names.
use mathlib.Core.Option.{some-injective}
use lhjsample.Common.{
  ℕ, ◌≡◌, sym, ap, ◌∙◌, inl, inr, true, get_elem?, subst, List, [], ◌∷◌, some, drop, length,
}
use lhjsample.Common.Fallible.{>>=-eq-some as bind-eq-some}
use lhjsample.Common.Effect.Keeps.{Keeps, Keeps-pure, Keeps-bind, Keeps-gets}
use lhjsample.World.{Message, Platform}
use lhjsample.ChatServer
use lhjsample.ChatServer.{Event, round, step}
use lhjsample.Network.{ClientInfo, Winsock, Network, is_connected, uint32_max}
use lhjsample.Network.Server.{Completion, worker_round}
use lhjsample.Network.Lifecycle.{send, accepter_round}
use lhjsample.Network.Places.{
  AllName, AllName-append, Placed, Placed-get, send_msg-Placed, worker_round-Placed,
  accept_clients-Placed,
}
use lhjsample.Server.{
  Server, Round, worker, accepter, packets, deliver, worker_step, accepter_step, packet_step,
  server_step, server_run,
}

module _ {Os : Type 0} (s : Winsock Os) (k : ℕ) (used : ℕ → Type 0) where
  deliver-Placed : (ms : List Message) → Keeps (Placed s k used) (deliver s ms)
  unfolding deliver send
  deliver-Placed [] = Keeps-pure tt
  deliver-Placed (m ∷ ms) =
      Keeps-bind _ _
        (Placed-get s k used m.client_index _
          λ c place marked below. send_msg-Placed s k used m.client_index m.content)
        λ _. deliver-Placed ms

  accepter_round-Placed : (time : ℕ) → Keeps (Placed s k used) (accepter_round s time)
  unfolding accepter_round
  accepter_round-Placed time =
      Keeps-bind _ _ (Keeps-gets _) λ count. accept_clients-Placed s k used time 0 count

module _ {Db Os : Type 0} (p : Platform Db) (s : Winsock Os) (k : ℕ) (used : ℕ → Type 0) where
  -- The sessions are at their positions, and the history names only them.
  pub record Bounded (server : Server Db Os) : Type 0 where
    pub placed : Placed s k used server.network
    pub names : AllName k server.history

  worker_step-Bounded :
      (c : Completion) (server after : Server Db Os)
      → Bounded server
      → worker_step p s c server ≡ some after
      → Bounded after
  unfolding worker_step
  worker_step-Bounded c server after h e =
      let start : Network Os = record server.network { events = [] } in
      let (r, e1, f1) = bind-eq-some (worker_round s c start) _ e in
      let (q, e2, f2) = bind-eq-some (ChatServer.run p r.1.events server.world) _ f1 in
      let placed =
        (worker_round-Placed s k used c).at start r
          (record {
            count = h.placed.count;
            indexed = h.placed.indexed;
            marked = h.placed.marked;
            calls = tt;
          })
          e1 in
      subst Bounded (some-injective _ _ f2) (record {
        placed = placed;
        names = AllName-append k server.history r.1.events h.names placed.calls;
      })

  packet_step-Bounded :
      (server after : Server Db Os)
      → Bounded server
      → packet_step p s server ≡ some after
      → Bounded after
  unfolding packet_step
  packet_step-Bounded server after h e =
      let (q, e1, f1) = bind-eq-some (step p round server.world) _ e in
      let (r, e2, f2) =
        bind-eq-some (deliver s (drop (length server.world.sent) q.1.sent) server.network) _ f1 in
      subst Bounded (some-injective _ _ f2) (record {
        placed = (deliver-Placed s k used _).at server.network r h.placed e2;
        names = AllName-append k server.history (round ∷ []) h.names (tt, tt);
      })

  server_step-Bounded :
      (r : Round) (server after : Server Db Os)
      → Bounded server
      → server_step p s r server ≡ some after
      → Bounded after
  unfolding server_step accepter_step
  server_step-Bounded (worker c) server after h e = worker_step-Bounded c server after h e
  server_step-Bounded (accepter time) server after h e =
      let (r, e1, f1) = bind-eq-some (accepter_round s time server.network) _ e in
      subst Bounded (some-injective _ _ f1) (record {
        placed = (accepter_round-Placed s k used time).at server.network r h.placed e1;
        names = h.names;
      })
  server_step-Bounded packets server after h e = packet_step-Bounded server after h e

  pub server_run-Bounded :
      (rounds : List Round) (server after : Server Db Os)
      → Bounded server
      → server_run p s rounds server ≡ some after
      → Bounded after
  unfolding server_run
  server_run-Bounded [] server after h e = subst Bounded (some-injective _ _ e) h
  server_run-Bounded (r ∷ rounds) server after h e =
      let (m, e1, e2) = bind-eq-some (server_step p s r server) _ e in
      server_run-Bounded rounds m after (server_step-Bounded r server m h e1) e2

module _ {Db Os : Type 0} (p : Platform Db) (s : Winsock Os) (k : ℕ) where
  -- A session that is connected is from then on one of the used.
  pub Bounded-used :
      (server : Server Db Os) (i : ℕ) (c : ClientInfo)
      → Bounded p s k (λ j. ⊥) server
      → get_elem? server.network.client_infos i ≡ some c
      → is_connected c ≡ true
      → Bounded p s k (λ j. j ≡ i) server
  Bounded-used server i c h at connected =
      let time : c.latest_closed_time_sec ≡ uint32_max = h.placed.marked i c at (inl connected) in
      record {
        placed = record {
          count = h.placed.count;
          indexed = h.placed.indexed;
          marked = λ j d there. λ x. elim x [
            | inl other ↦ h.placed.marked j d there (inl other)
            | inr same ↦
                ap (λ (y : ClientInfo). y.latest_closed_time_sec)
                  (some-injective _ _
                    (sym there ∙ ap (get_elem? server.network.client_infos) same ∙ at))
                ∙ time
          ];
          calls = h.placed.calls;
        };
        names = h.names;
      }
