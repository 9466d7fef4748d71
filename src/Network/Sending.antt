-- ===== src/Network/Sending.antt =====
-- What `SendMsg` and `SendCompleted` of a session do to its queue and to the calls of `WSASend`.
use mathlib.Core.Option.{some-injective}
use lhjsample.Common.{
  ℕ, ◌≤◌, ◌≡◌, refl, sym, ap, ◌∙◌, ◌⊎◌, inl, inr, List, [], ◌∷◌, ◌++◌, append-nil, Bool, true,
  false, some, none, length, take, drop, set, get_elem?, if◌then◌else◌, ◌==◌, arith,
  get_elem?-set_self, get_elem?-lt,
}
use lhjsample.Common.Effect.{◌>>=◌}
use lhjsample.Network.{
  ClientInfo, Winsock, Network, send_msg, send_completed, get_client_info, put_client, call_os,
  send_io, post_front, send_rest, pop_front,
}
use lhjsample.Network.Calls.{tagged, queue_cases}

module _ {Os : Type 0} (s : Winsock Os) where
  -- What one call does to the sessions and to the record of `WSASend`.
  abbrev pub Effected :
      Network Os → Network Os → ℕ → ClientInfo → List (List ℕ) → List (List ℕ) → Type 0
  Effected n n' j c queue new =
      (n'.client_infos ≡ set n.client_infos j (record c { send_dataqueue = queue }))
      × (n'.posted ≡ n.posted ++ tagged j new)

  pub send_msg-Effected :
      (j : ℕ) (m : List ℕ) (n : Network Os) (c : ClientInfo) (q : Bool × Network Os)
      → get_elem? n.client_infos j ≡ some c
      → send_msg s j m n ≡ some q
      → Effected n q.1 j c
          (c.send_dataqueue ++ m ∷ [])
          (if length c.send_dataqueue == 0 then m ∷ [] else [])
  unfolding send_msg send_io post_front get_client_info put_client call_os ◌>>=◌
  send_msg-Effected j m n c q at e = elim (queue_cases c.send_dataqueue) [
    | inl empty ↦
        let c' : ClientInfo = record c { send_dataqueue = c.send_dataqueue ++ m ∷ [] } in
        let here = get_elem?-set_self n.client_infos j c' (get_elem?-lt n.client_infos j at) in
        let front : get_elem? (c.send_dataqueue ++ m ∷ []) 0 ≡ some m = rw empty refl in
        let none_waits : (length c.send_dataqueue == 0) ≡ true = rw empty refl in
        let q' = sym (some-injective _ _ (rw (at, none_waits, here, front) at e)) in
        (ap (λ x. x.1.client_infos) q', ap (λ x. x.1.posted) q' ∙ rw none_waits refl)
    | inr (x, rest, waits) ↦
        let some_wait : (length c.send_dataqueue == 0) ≡ false = rw waits (ground arith) in
        let q' = sym (some-injective _ _ (rw (at, some_wait) at e)) in
        (
          ap (λ x. x.1.client_infos) q',
          ap (λ x. x.1.posted) q' ∙ rw some_wait (sym (append-nil n.posted)),
        )
  ]

  pub send_completed-Effected :
      (j : ℕ) (n : Network Os) (c : ClientInfo) (q : Unit {0} × Network Os)
      → get_elem? n.client_infos j ≡ some c
      → send_completed s j n ≡ some q
      → (1 ≤ length c.send_dataqueue)
        × Effected n q.1 j c (drop 1 c.send_dataqueue) (take 1 (drop 1 c.send_dataqueue))
  unfolding send_completed pop_front send_rest send_io post_front get_client_info put_client call_os
      ◌>>=◌
  send_completed-Effected j n c q at e = elim (queue_cases c.send_dataqueue) [
    | inl empty ↦ let fault = rw (at, empty) at e in cc
    | inr (x, rest, waits) ↦ go x rest waits (queue_cases rest)
  ]
    where
      go :
          (x : List ℕ) (rest : List (List ℕ))
          → c.send_dataqueue ≡ x ∷ rest
          → (rest ≡ []) ⊎ ((y : List ℕ) × (left : List (List ℕ)) × (rest ≡ y ∷ left))
          → (1 ≤ length c.send_dataqueue)
            × Effected n q.1 j c (drop 1 c.send_dataqueue) (take 1 (drop 1 c.send_dataqueue))
      go x rest waits (inl last) =
          let q' = sym (some-injective _ _ (rw (at, waits, last) at e)) in
          (
            omega (arith, ap length waits),
            (
              ap (λ x. x.1.client_infos) q' ∙ rw (waits, last) refl,
              ap (λ x. x.1.posted) q' ∙ rw (waits, last) (sym (append-nil n.posted)),
            ),
          )
      go x rest waits (inr (y, left, next)) =
          let c' : ClientInfo = record c { send_dataqueue = y ∷ left } in
          let here = get_elem?-set_self n.client_infos j c' (get_elem?-lt n.client_infos j at) in
          let q' = sym (some-injective _ _ (rw (at, waits, next, here) at e)) in
          (
            omega (arith, ap length waits),
            (
              ap (λ x. x.1.client_infos) q' ∙ rw (waits, next) refl,
              ap (λ x. x.1.posted) q' ∙ rw (waits, next) refl,
            ),
          )

  pub send_msg-missing :
      (j : ℕ) (m : List ℕ) (n : Network Os)
      → get_elem? n.client_infos j ≡ none
      → send_msg s j m n ≡ none
  unfolding send_msg get_client_info ◌>>=◌
  send_msg-missing j m n missing = rw missing refl

  pub send_completed-missing :
      (j : ℕ) (n : Network Os) → get_elem? n.client_infos j ≡ none → send_completed s j n ≡ none
  unfolding send_completed get_client_info ◌>>=◌
  send_completed-missing j n missing = rw missing refl
