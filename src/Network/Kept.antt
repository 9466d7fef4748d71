-- ===== src/Network/Kept.antt =====
-- What the methods of the sessions that send nothing leave as it is: the send queues.
use lhjsample.Common.{
  ℕ, zero, suc, ◌+◌, ◌≡◌, refl, sym, ap, ◌∙◌, subst, inl, inr, List, Bool, true, false, Option,
  some, none, get_elem?, set, ◌==◌, arith, Bool-cases, ==_iff, get_elem?-set_self, get_elem?-set_ne,
  get_elem?-lt,
}
use mathlib.Core.Option.{some-injective}
use lhjsample.Common.Effect.{update, ◌>>=◌}
use lhjsample.Common.Effect.Keeps.{
  Keeps, keeps_rules, Keeps-pure, Keeps-gets, Keeps-if, Keeps-bind, Keeps-update, >>=-eq-some,
}
use lhjsample.ChatServer.{Event}
use lhjsample.Network.{
  ClientInfo, Winsock, Network, get_client_info, put_client, call_os, uint32_max, bind_recv,
  accept_completion, post_accept, post_accept_on, close,
}
use lhjsample.Network.Server.{record_event, close_socket, accepted_round, accept_clients}
use lhjsample.Network.SendQueue.{Sent}

-- What a property of the network has to survive: every change that leaves the send queues.
module _ {Os : Type 0} (s : Winsock Os) where
  pub get_client_info-reads :
      (i : ℕ) (n : Network Os) (q : ClientInfo × Network Os)
      → get_client_info i n ≡ some q
      → (get_elem? n.client_infos i ≡ some q.0) × (q.1 ≡ n)
  unfolding get_client_info ◌>>=◌
  get_client_info-reads i n q e = ground arith

  call_os-reads :
      {A : Type 0}
      → (call : Os → A × Os) (n : Network Os) (q : A × Network Os) → call_os call n ≡ some q
      → q.1.client_infos ≡ n.client_infos
  unfolding call_os ◌>>=◌
  call_os-reads call n q e = sym (ap (λ x. x.1.client_infos) (some-injective _ _ e))

  module _ (i : ℕ) (all : List (List ℕ)) (k : ℕ) where
    abbrev Kept : Network Os → Type 0
    Kept n = Sent s i all k n

    pub get_client_info-Kept : (j : ℕ) → Keeps Kept (get_client_info j)
    unfolding get_client_info
    get_client_info-Kept j = search keeps_rules

    pub call_os-Kept : {A : Type 0} → (call : Os → A × Os) → Keeps Kept (call_os call)
    unfolding call_os
    call_os-Kept call = Keeps-bind _ _ (Keeps-gets _) λ r.
        Keeps-bind _ _
          (Keeps-update _ (λ n h. record {
            client = h.client;
            at = h.at;
            queue = h.queue;
            completed = h.completed;
            posted = h.posted;
          }))
          λ _. Keeps-pure r.0

    -- A session whose time or socket changes keeps its queue.
    pub put_client-Kept :
        (j : ℕ) (c c' : ClientInfo) (n : Network Os)
        → get_elem? n.client_infos j ≡ some c
        → c'.send_dataqueue ≡ c.send_dataqueue
        → Kept n
        → Kept (record n { client_infos = set n.client_infos j c' })
    put_client-Kept j c c' n at same h = elim (Bool-cases (j == i)) [
      | inl here ↦
          let place = (==_iff j i).0 here in
          let one : c ≡ h.client =
            some-injective _ _ (sym at ∙ ap (get_elem? n.client_infos) place ∙ h.at) in
          record {
            client = c';
            at =
                ap (λ x. get_elem? (set n.client_infos x c') i) place
                ∙ get_elem?-set_self n.client_infos i c' (get_elem?-lt n.client_infos i h.at);
            queue = same ∙ ap (λ (x : ClientInfo). x.send_dataqueue) one ∙ h.queue;
            completed = h.completed;
            posted = h.posted;
          }
      | inr other ↦ record {
        client = h.client;
        at = get_elem?-set_ne n.client_infos c' (λ p. ground (arith, ==_iff j i)) ∙ h.at;
        queue = h.queue;
        completed = h.completed;
        posted = h.posted;
      }
    ]

    pub bind_recv-Kept : (j : ℕ) → Keeps Kept (bind_recv s j)
    unfolding bind_recv
    bind_recv-Kept j = search (keeps_rules, get_client_info-Kept, call_os-Kept)

    pub accept_completion-Kept : (j : ℕ) → Keeps Kept (accept_completion s j)
    unfolding accept_completion
    accept_completion-Kept j =
        search (keeps_rules, get_client_info-Kept, call_os-Kept, bind_recv-Kept)

    pub post_accept_on-Kept : (j : ℕ) (socket : Option ℕ) → Keeps Kept (post_accept_on s j socket)
    unfolding post_accept_on
    post_accept_on-Kept j none = Keeps-pure _
    post_accept_on-Kept j (some socket) = call_os-Kept _

    pub post_accept-Kept : (j : ℕ) → Keeps Kept (post_accept s j)
    unfolding post_accept put_client update
    post_accept-Kept j = record {
      at = λ n q h e.
          let (a, e1, f1) = >>=-eq-some (get_client_info j) _ n q e in
          let (found, same) = get_client_info-reads j n a e1 in
          let (b, e2, f2) = >>=-eq-some (call_os s.wsa_socket) _ a.1 q f1 in
          let (d, e3, f3) =
            >>=-eq-some
              (put_client j (record a.0 { latest_closed_time_sec = uint32_max; sock = b.0 })) _ b.1
              q f2 in
          let written = ap (λ x. x.1) (some-injective _ _ e3) in
          let h' = (call_os-Kept s.wsa_socket).at a.1 b (subst Kept (sym same) h) e2 in
          let found' : get_elem? b.1.client_infos j ≡ some a.0 =
            ap (λ x. get_elem? x j)
              (call_os-reads s.wsa_socket a.1 b e2 ∙ ap (λ (x : Network Os). x.client_infos) same)
            ∙ found in
          (post_accept_on-Kept j b.0).at d.1 q
            (subst Kept written (put_client-Kept j a.0 _ b.1 found' refl h')) f3;
    }

    pub close-Kept : (j : ℕ) (is_force : Bool) → Keeps Kept (close s j is_force)
    unfolding close put_client update
    close-Kept j is_force = record {
      at = λ n q h e.
          let (a, e1, f1) = >>=-eq-some (get_client_info j) _ n q e in
          let (found, same) = get_client_info-reads j n a e1 in
          let closed : Network Os → Network Os =
            λ m. record m { os = s.close a.0.sock is_force m.os } in
          let (b, e2, f2) = >>=-eq-some (update closed) _ a.1 q f1 in
          let off = ap (λ x. x.1) (some-injective _ _ e2) in
          let h' : Kept (closed a.1) =
            let k = subst Kept (sym same) h in
            record {
              client = k.client;
              at = k.at;
              queue = k.queue;
              completed = k.completed;
              posted = k.posted;
            } in
          let found' : get_elem? b.1.client_infos j ≡ some a.0 =
            ap (λ (x : Network Os). get_elem? x.client_infos j) (sym off)
            ∙ ap (λ (x : Network Os). get_elem? x.client_infos j) same
            ∙ found in
          subst Kept (ap (λ x. x.1) (some-injective _ _ f2))
            (put_client-Kept j a.0 _ b.1 found' refl (subst Kept off h'));
    }

    pub record_event-Kept : (e : Event) → Keeps Kept (record_event e)
    unfolding record_event
    record_event-Kept e = Keeps-update _ (λ n h. record {
      client = h.client;
      at = h.at;
      queue = h.queue;
      completed = h.completed;
      posted = h.posted;
    })

    pub close_socket-Kept : (j : ℕ) (is_force : Bool) → Keeps Kept (close_socket s j is_force)
    unfolding close_socket
    close_socket-Kept j is_force =
        search (keeps_rules, get_client_info-Kept, close-Kept, record_event-Kept)

    pub accepted_round-Kept :
        (j : ℕ) (client : ClientInfo) (accepted : Bool)
        → Keeps Kept (accepted_round s j client accepted)
    unfolding accepted_round
    accepted_round-Kept j client true =
        Keeps-bind _ _
          (Keeps-update _ (λ n h. record {
            client = h.client;
            at = h.at;
            queue = h.queue;
            completed = h.completed;
            posted = h.posted;
          }))
          λ _. record_event-Kept _
    accepted_round-Kept j client false = close_socket-Kept j true

    pub accept_clients-Kept : (time j m : ℕ) → Keeps Kept (accept_clients s time j m)
    unfolding accept_clients
    accept_clients-Kept time j zero = Keeps-pure tt
    accept_clients-Kept time j (suc m) = Keeps-bind _ _ (get_client_info-Kept j) λ c.
        Keeps-bind _ _
          (Keeps-if (Keeps-bind _ _ (post_accept-Kept j) λ _. Keeps-pure tt) (Keeps-pure tt) _)
          λ _. accept_clients-Kept time (j + 1) m
