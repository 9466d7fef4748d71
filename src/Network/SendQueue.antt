-- ===== src/Network/SendQueue.antt =====
-- The order in which the sessions send their messages, over any interleaving of `SendMsg` with the
-- completions of sends: what `mSendDataqueue` is for.
use lhjsample.Common.{
  ℕ, suc, ◌+◌, ◌≤◌, ◌≡◌, sym, ap, ◌∙◌, subst, inl, inr, List, [], ◌∷◌, ◌++◌, append_assoc,
  append-nil, Bool, true, false, some, length, take, drop, set, get_elem?, if◌then◌else◌, ◌==◌,
  arith, Bool-cases, Option-cases, ==_iff, length-append, length-drop, get_elem?-set_self,
  get_elem?-set_ne, get_elem?-lt, drop-drop,
}
use lhjsample.Common.Effect.{Effect, pure, ◌>>◌}
use lhjsample.Common.Effect.Keeps.{>>=-eq-some, pure-reads}
use lhjsample.Network.{ClientInfo, Winsock, Network, send_msg, send_completed}
use lhjsample.Network.Calls.{
  SendCall, message, completion, messages, completions, posted_by, tagged, drop-snoc, take-snoc,
  take-next, posted_by-tagged, posted_by-other, posted_by-append, if-append, if-plus,
}
use lhjsample.Network.Sending.{
  Effected, send_msg-Effected, send_completed-Effected, send_msg-missing, send_completed-missing,
}

module _ {Os : Type 0} (s : Winsock Os) where
  unfoldable pub run_sends : List SendCall → Effect (Network Os) (Unit {0})
  run_sends [] = pure tt
  run_sends (message j m ∷ calls) = send_msg s j m >> run_sends calls
  run_sends (completion j ∷ calls) = send_completed s j >> run_sends calls

  -- After the messages `all` and `k` completions of session `i`: the queue holds what is not
  -- completed, and `WSASend` was called once for each of the first `suc k` messages, in order.
  pub record Sent (i : ℕ) (all : List (List ℕ)) (k : ℕ) (n : Network Os) : Type 0 where
    pub client : ClientInfo
    pub at : get_elem? n.client_infos i ≡ some client
    pub queue : client.send_dataqueue ≡ drop k all
    pub completed : k ≤ length all
    pub posted : posted_by i n.posted ≡ take (suc k) all

  module _ (i j : ℕ) (all : List (List ℕ)) (k : ℕ) (n n' : Network Os) (sent : Sent i all k n) where
    -- A call for another session leaves the session as it is.
    other-Sent :
        (c : ClientInfo) (queue new : List (List ℕ))
        → (j == i) ≡ false
        → Effected s n n' j c queue new
        → Sent i all k n'
    other-Sent c queue new other (clients, wire) = record {
      client = sent.client;
      at =
          ap (λ x. get_elem? x i) clients
          ∙ get_elem?-set_ne n.client_infos _ (λ h. ground (arith, ==_iff j i))
          ∙ sent.at;
      queue = sent.queue;
      completed = sent.completed;
      posted =
          ap (posted_by i) wire
          ∙ posted_by-append i n.posted (tagged j new)
          ∙ ap (λ x. posted_by i n.posted ++ x) (posted_by-other i j new other)
          ∙ append-nil _
          ∙ sent.posted;
    }

    -- A call for this session.
    same-Sent :
        (all' : List (List ℕ)) (k' : ℕ) (queue new : List (List ℕ))
        → (j == i) ≡ true
        → Effected s n n' j sent.client queue new
        → queue ≡ drop k' all'
        → k' ≤ length all'
        → take (suc k) all ++ new ≡ take (suc k') all'
        → Sent i all' k' n'
    same-Sent all' k' queue new same (clients, wire) waits done more =
        let place : j ≡ i = (==_iff j i).0 same in
        let c : ClientInfo = record sent.client { send_dataqueue = queue } in
        record {
          client = c;
          at =
              ap (λ x. get_elem? x i) clients
              ∙ ap (λ x. get_elem? (set n.client_infos x c) i) place
              ∙ get_elem?-set_self n.client_infos i c (get_elem?-lt n.client_infos i sent.at);
          queue = waits;
          completed = done;
          posted =
              ap (posted_by i) wire
              ∙ ap (λ x. posted_by i (n.posted ++ tagged x new)) place
              ∙ posted_by-append i n.posted (tagged i new)
              ∙ (λ t. sent.posted t ++ posted_by-tagged i new t)
              ∙ more;
        }

  pub send_msg-Sent :
      (i j : ℕ) (m : List ℕ) (all : List (List ℕ)) (k : ℕ) (n : Network Os) (q : Bool × Network Os)
      → Sent i all k n
      → send_msg s j m n ≡ some q
      → Sent i (all ++ (if j == i then m ∷ [] else [])) k q.1
  send_msg-Sent i j m all k n q sent e = elim (Bool-cases (j == i)) [
    | inl same ↦
        let here = ap (get_elem? n.client_infos) ((==_iff j i).0 same) ∙ sent.at in
        let change = send_msg-Effected s j m n sent.client q here e in
        subst (λ b. Sent i (all ++ (if b then m ∷ [] else [])) k q.1) (sym same)
          (same-Sent i j all k n q.1 sent (all ++ m ∷ []) k _ _ same change
            (ap (λ x. x ++ m ∷ []) sent.queue ∙ sym (drop-snoc k all m sent.completed))
            (omega (arith, sent.completed, length-append all (m ∷ [])))
            (ap (λ x. take (suc k) all ++ (if length x == 0 then m ∷ [] else [])) sent.queue
              ∙ sym (take-snoc k all m sent.completed)))
    | inr other ↦ elim (Option-cases (get_elem? n.client_infos j)) [
      | inl missing ↦ let fault = send_msg-missing s j m n missing in cc
      | inr (c, here) ↦
          let change = send_msg-Effected s j m n c q here e in
          subst (λ b. Sent i (all ++ (if b then m ∷ [] else [])) k q.1) (sym other)
            (subst (λ x. Sent i x k q.1) (sym (append-nil all))
              (other-Sent i j all k n q.1 sent c _ _ other change))
    ]
  ]

  pub send_completed-Sent :
      (i j : ℕ) (all : List (List ℕ)) (k : ℕ) (n : Network Os) (q : Unit {0} × Network Os)
      → Sent i all k n
      → send_completed s j n ≡ some q
      → Sent i all (if j == i then suc k else k) q.1
  send_completed-Sent i j all k n q sent e = elim (Bool-cases (j == i)) [
    | inl same ↦
        let here = ap (get_elem? n.client_infos) ((==_iff j i).0 same) ∙ sent.at in
        let (one, change) = send_completed-Effected s j n sent.client q here e in
        let waits = ap (drop 1) sent.queue ∙ drop-drop (suc k) 1 k all (omega arith) in
        subst (λ b. Sent i all (if b then suc k else k) q.1) (sym same)
          (same-Sent i j all k n q.1 sent all (suc k) _ _ same change waits
            (omega (arith, ap length sent.queue, length-drop k all, one))
            (ap (λ x. take (suc k) all ++ take 1 (drop 1 x)) sent.queue ∙ sym (take-next k all)))
    | inr other ↦ elim (Option-cases (get_elem? n.client_infos j)) [
      | inl missing ↦ let fault = send_completed-missing s j n missing in cc
      | inr (c, here) ↦
          let (one, change) = send_completed-Effected s j n c q here e in
          subst (λ b. Sent i all (if b then suc k else k) q.1) (sym other)
            (other-Sent i j all k n q.1 sent c _ _ other change)
    ]
  ]

  run_sends-from :
      (i : ℕ) (calls : List SendCall) (all : List (List ℕ)) (k : ℕ) (n : Network Os)
      (q : Unit {0} × Network Os)
      → Sent i all k n
      → run_sends calls n ≡ some q
      → Sent i (all ++ messages i calls) (k + completions i calls) q.1
  unfolding run_sends
  run_sends-from i [] all k n q sent e =
      let (_, same) = pure-reads tt n q e in
      subst (λ x. Sent i x (k + 0) q.1) (sym (append-nil all))
        (subst (λ x. Sent i all x q.1) (omega arith) (subst (Sent i all k) (sym same) sent))
  run_sends-from i (message j m ∷ calls) all k n q sent e =
      let (a, e1, e2) = >>=-eq-some (send_msg s j m) _ n q e in
      let next = run_sends-from i calls _ k a.1 q (send_msg-Sent i j m all k n a sent e1) e2 in
      subst (λ x. Sent i x (k + completions i calls) q.1)
        (append_assoc all _ (messages i calls)
          ∙ ap (λ x. all ++ x) (if-append (j == i) m (messages i calls)))
        next
  run_sends-from i (completion j ∷ calls) all k n q sent e =
      let (a, e1, e2) = >>=-eq-some (send_completed s j) _ n q e in
      let next =
        run_sends-from i calls all _ a.1 q (send_completed-Sent i j all k n a sent e1) e2 in
      subst (λ x. Sent i (all ++ messages i calls) x q.1) (if-plus (j == i) k (completions i calls))
        next

  -- From a session with an empty queue that has sent nothing, over every interleaving of `SendMsg`
  -- and completed sends of all sessions: the session's queue holds those of its messages whose
  -- sends have not completed, and `WSASend` was called for its messages in the order of `SendMsg`,
  -- once each, and for at most one message that has not completed.
  pub run_sends-order :
      (i : ℕ) (calls : List SendCall) (n : Network Os) (c : ClientInfo) (q : Unit {0} × Network Os)
      → get_elem? n.client_infos i ≡ some c
      → c.send_dataqueue ≡ []
      → posted_by i n.posted ≡ []
      → run_sends calls n ≡ some q
      → Sent i (messages i calls) (completions i calls) q.1
  run_sends-order i calls n c q at empty quiet e =
      subst (λ k. Sent i (messages i calls) k q.1) (omega arith)
        (run_sends-from i calls [] 0 n q
          (record { client = c; at = at; queue = empty; completed = omega arith; posted = quiet })
          e)
