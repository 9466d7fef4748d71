-- ===== src/Invariants/Users.antt =====
-- The pool of users: what holds of the users when the server starts, and after a change of one.
use mathlib.Core.Option.{some-injective}
use lhjsample.Common.{
  ℕ, zero, suc, ◌+◌, ◌≡◌, ap, ◌∙◌, subst, inl, inr, List, [], ◌∷◌, some, length, get_elem?,
  get_elem?-set_cases, arith,
}
use lhjsample.Common.Fallible.{>>=-eq-some}
use lhjsample.User.{User, init_user}
use lhjsample.User.Buffer.{packet_data_buffer_size}
use lhjsample.User.Bindings.{UserIsValid, init_user-UserIsValid}
use lhjsample.World.{World, users}
use lhjsample.World.Inversion.{with_user, UserAt}
use lhjsample.Accounts.{init_users, init_user_manager}
use lhjsample.ChatServer.{init}
use lhjsample.Invariants.Stable.{UsersValid}

init_user-user_id :
    (i : ℕ) (storage : List ℕ) (u : User) → init_user i storage ≡ some u → u.user_id ≡ []
unfolding init_user
init_user-user_id i storage u e = ground arith

-- The users that the loop of `UserManager::Init` makes.
init_users-users :
    (storage : ℕ → List ℕ) (i n : ℕ) (us : List User) (k : ℕ) (u : User)
    → ((j : ℕ) → length (storage j) ≡ packet_data_buffer_size)
    → init_users storage i n ≡ some us
    → get_elem? us k ≡ some u
    → UserIsValid (i + k) u × (u.user_id ≡ [])
unfolding init_users
init_users-users storage i zero us k u h e at = absurd (ground arith)
init_users-users storage i (suc n) us k u h e at =
    let (first, made, e1) = >>=-eq-some (init_user i (storage i)) _ e in
    let (rest, others, e2) = >>=-eq-some (init_users storage (i + 1) n) _ e1 in
    go k first rest made (λ j at'. init_users-users storage (i + 1) n rest j u h others at')
      (ap (λ x. get_elem? x k) (some-injective _ _ e2) ∙ at)
  where
    go :
        (k : ℕ) (first : User) (rest : List User)
        → init_user i (storage i) ≡ some first
        → ((j : ℕ) → get_elem? rest j ≡ some u → UserIsValid (i + 1 + j) u × (u.user_id ≡ []))
        → get_elem? (first ∷ rest) k ≡ some u
        → UserIsValid (i + k) u × (u.user_id ≡ [])
    go zero first rest made others at =
        let same : first ≡ u = some-injective _ _ at in
        let place : i ≡ i + 0 = omega arith in
        subst (λ (x : User). UserIsValid (i + 0) x × (x.user_id ≡ [])) same
          (
            subst (λ (j : ℕ). UserIsValid j first) place
                (init_user-UserIsValid i (storage i) first (h i) made),
            init_user-user_id i (storage i) first made,
          )
    go (suc k) first rest made others at =
        let (valid, id) = others k at in
        let place : i + 1 + k ≡ i + suc k = omega arith in
        (subst (λ (j : ℕ). UserIsValid j u) place valid, id)

module _ {Db : Type 0} where
  pub UsersValid-with_user :
      (w : World Db) (i : ℕ) (v : User)
      → UserIsValid i v
      → UsersValid w
      → UsersValid (with_user w i v)
  UsersValid-with_user w i v valid all j u at = elim (get_elem?-set_cases (users w) i j v u at) [
    | inl (place, same) ↦
        subst (λ (x : User). UserIsValid j x) same (subst (λ (k : ℕ). UserIsValid k v) place valid)
    | inr (other, old) ↦ all j u old
  ]

  -- A world as `ChatServer::Init` makes it, with the buffers of the size that `User::Init` asks for.
  unfoldable pub IsStarted : World Db → Type 0
  IsStarted w =
      (max_client : ℕ) × (storage : ℕ → List ℕ) × (db : Db) × ((j : ℕ)
        → length (storage j) ≡ packet_data_buffer_size)
      × (init max_client storage db ≡ some w)

  pub IsStarted-users :
      (w : World Db)
      → IsStarted w
      → (i : ℕ) (u : User) → UserAt w i u
      → UserIsValid i u × (u.user_id ≡ [])
  unfolding IsStarted init init_user_manager
  IsStarted-users w (max_client, storage, db, sizes, e) i u at =
      let (m, managed, e1) = >>=-eq-some (init_user_manager max_client storage) _ e in
      let (us, made, e2) = >>=-eq-some (init_users storage 0 max_client) _ managed in
      let pools : us ≡ users w =
        ap (λ x. x.user_obj_pool) (some-injective _ _ e2)
        ∙ ap (λ (x : World Db). users x) (some-injective _ _ e1) in
      let place : 0 + i ≡ i = omega arith in
      let found =
        init_users-users storage 0 max_client us i u sizes made
          (ap (λ x. get_elem? x i) pools ∙ at) in
      (subst (λ (j : ℕ). UserIsValid j u) place found.0, found.1)
