-- ===== src/Invariants/UniqueIds.antt =====
-- The dictionary of `UserManager` and the ids in the pool.
use mathlib.Core.Option.{some-injective}
use lhjsample.Common.{
  get_elem?-set_cases, ℕ, ◌≡◌, ◌≢◌, refl, sym, ap, ◌∙◌, subst, ◌⊎◌, inl, inr, List, [], ◌∷◌, some,
  none, arith, Bool-cases, eq_bytes, eq_bytes_iff,
}
use lhjsample.User.{User}
use lhjsample.User.Bindings.{
  clear-UserIsValid, clear-user_id, set_login-UserIsValid, set_login-user_id,
}
use lhjsample.World.{World, Platform, users}
use lhjsample.World.Inversion.{with_user, with_dictionary, UserAt}
use lhjsample.Accounts.{find_id, insert_id, erase_id}
use lhjsample.ChatServer.{Event, run}
use lhjsample.Invariants.Stable.{UsersValid, Stable, dictionary}
use lhjsample.Invariants.Assemble.{run-stable}
use lhjsample.Invariants.Users.{UsersValid-with_user, IsStarted, IsStarted-users}

insert_id-find :
    (id key : List ℕ) (c i : ℕ) (d : List (List ℕ × ℕ))
    → find_id id d ≡ some i
    → find_id id (insert_id key c d) ≡ some i
unfolding find_id insert_id
insert_id-find id key c i d h = ground (arith, eq_bytes_iff key id)

insert_id-find_self :
    (id : List ℕ) (c : ℕ) (d : List (List ℕ × ℕ))
    → find_id id d ≡ none
    → find_id id (insert_id id c d) ≡ some c
unfolding find_id insert_id
insert_id-find_self id c d h = ground (arith, (eq_bytes_iff id id).1 refl)

erase_id-find :
    (id key : List ℕ) (d : List (List ℕ × ℕ))
    → id ≢ key
    → find_id id (erase_id key d) ≡ find_id id d
unfolding find_id erase_id
erase_id-find id key [] h = refl
erase_id-find id key ((k, c) ∷ d) h =
    ground (arith, erase_id-find id key d h, eq_bytes_iff k key, eq_bytes_iff k id)

-- A user that is logged in is found under its id.
abbrev IsRegistered : List (List ℕ × ℕ) → ℕ → User → Type 0
IsRegistered d i u = (u.user_id ≡ []) ⊎ (find_id u.user_id d ≡ some i)

IsRegistered-erase_id :
    (d : List (List ℕ × ℕ)) (i j : ℕ) (u x : User)
    → i ≢ j
    → IsRegistered d i u
    → IsRegistered d j x
    → IsRegistered (erase_id u.user_id d) j x
IsRegistered-erase_id d i j u x other (inl hu) (inl hx) = inl hx
IsRegistered-erase_id d i j u x other (inr hu) (inl hx) = inl hx
IsRegistered-erase_id d i j u x other hu (inr hx) =
    elim (Bool-cases (eq_bytes x.user_id u.user_id)) [
      | inl same ↦ elim hu [
        | inl empty ↦ inl ((eq_bytes_iff _ _).0 same ∙ empty)
        | inr found ↦ absurd (
            other (
              some-injective _ _
                (sym found ∙ ap (λ id. find_id id d) (sym ((eq_bytes_iff _ _).0 same)) ∙ hx)))
      ]
      | inr different ↦ inr (
          erase_id-find x.user_id u.user_id d
            (λ k. ground (arith, eq_bytes_iff x.user_id u.user_id))
          ∙ hx)
    ]

IsRegistered-insert_id :
    (d : List (List ℕ × ℕ)) (id : List ℕ) (i j : ℕ) (x : User)
    → IsRegistered d j x
    → IsRegistered (insert_id id i d) j x
IsRegistered-insert_id d id i j x (inl empty) = inl empty
IsRegistered-insert_id d id i j x (inr found) = inr (insert_id-find x.user_id id i j d found)

IsRegistered-insert_self :
    (d : List (List ℕ × ℕ)) (id : List ℕ) (i : ℕ) (v : User)
    → find_id id d ≡ none
    → v.user_id ≡ id
    → IsRegistered (insert_id id i d) i v
IsRegistered-insert_self d id i v fresh named =
    inr (ap (λ k. find_id k (insert_id id i d)) named ∙ insert_id-find_self id i d fresh)

same_place :
    (d : List (List ℕ × ℕ)) (i j : ℕ) (u v : User)
    → IsRegistered d i u
    → IsRegistered d j v
    → u.user_id ≡ v.user_id
    → u.user_id ≢ []
    → i ≡ j
same_place d i j u v (inl empty) h same named = absurd (named empty)
same_place d i j u v (inr found) (inl empty) same named = absurd (named (same ∙ empty))
same_place d i j u v (inr found) (inr other) same named =
    some-injective _ _ (sym found ∙ ap (λ id. find_id id d) same ∙ other)

module _ {Db : Type 0} where
  record Registered (w : World Db) : Type 0 where
    pub valid : UsersValid w
    pub found : (i : ℕ) (u : User) → UserAt w i u → IsRegistered (dictionary w) i u

  IsRegistered-with_user :
      (w : World Db) (i : ℕ) (v : User) (d : List (List ℕ × ℕ))
      → ((j : ℕ) (u : User) → i ≢ j → UserAt w j u → IsRegistered d j u)
      → IsRegistered d i v
      → (j : ℕ) (u : User) → UserAt (with_user w i v) j u
      → IsRegistered d j u
  IsRegistered-with_user w i v d others mine j u at =
      elim (get_elem?-set_cases (users w) i j v u at) [
        | inl (place, same) ↦
            subst (λ (x : User). IsRegistered d j x) same
              (subst (λ (k : ℕ). IsRegistered d k v) place mine)
        | inr (other, old) ↦ others j u other old
      ]

  Registered-Stable : Stable Registered
  Registered-Stable = record {
    pool = λ w h. h.valid;
    says = λ w c m f h. record { valid = h.valid; found = h.found };
    queries = λ w db h. record { valid = h.valid; found = h.found };
    queues = λ w q h. record { valid = h.valid; found = h.found };
    revises = λ w i u v at same ok h. record {
      valid = UsersValid-with_user w i v ok h.valid;
      found =
          IsRegistered-with_user w i v _ (λ j x _ at'. h.found j x at')
            (subst (λ (id : List ℕ). (id ≡ []) ⊎ (find_id id (dictionary w) ≡ some i)) (sym same)
              (h.found i u at));
    };
    pushes = λ w r i a b u ra at space pushed h. record { valid = h.valid; found = h.found };
    removes = λ w r id a b ra removed h. record { valid = h.valid; found = h.found };
    clears = λ w i u v at made h. record {
      valid = UsersValid-with_user w i v (clear-UserIsValid i u v (h.valid i u at) made) h.valid;
      found =
          IsRegistered-with_user w i v _ (λ j x _ at'. h.found j x at')
            (inl (clear-user_id u v made));
    };
    deletes = λ w i u v at made h. record {
      valid = UsersValid-with_user w i v (clear-UserIsValid i u v (h.valid i u at) made) h.valid;
      found =
          IsRegistered-with_user (with_dictionary w (erase_id u.user_id (dictionary w))) i v _
            (λ j x other at'.
              IsRegistered-erase_id (dictionary w) i j u x other (h.found i u at) (h.found j x at'))
            (inl (clear-user_id u v made));
    };
    logins = λ w i u v id at fresh made h. record {
      valid =
          UsersValid-with_user w i v (set_login-UserIsValid i u v (h.valid i u at) id made) h.valid;
      found =
          IsRegistered-with_user w i v _
            (λ j x _ at'. IsRegistered-insert_id (dictionary w) id i j x (h.found j x at'))
            (IsRegistered-insert_self (dictionary w) id i v fresh (set_login-user_id id u v made));
    };
  }

  -- In every history of a started server, two users of the pool that hold the same id, not the
  -- empty one, are the same user: nobody is logged in twice.
  pub run-unique_ids :
      (p : Platform Db) (es : List Event) (w : World Db) (r : Unit {0} × World Db) (i j : ℕ)
      (u v : User)
      → IsStarted w
      → run p es w ≡ some r
      → UserAt r.1 i u
      → UserAt r.1 j v
      → u.user_id ≡ v.user_id
      → u.user_id ≢ []
      → i ≡ j
  run-unique_ids p es w r i j u v start e at at' same named =
      let begin : Registered w = record {
        valid = λ k x h. (IsStarted-users w start k x h).0;
        found = λ k x h. inl (IsStarted-users w start k x h).1;
      } in
      let done = run-stable Registered-Stable p es w r begin e in
      same_place (dictionary r.1) i j u v (done.found i u at) (done.found j v at') same named
