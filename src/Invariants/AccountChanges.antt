-- ===== src/Invariants/AccountChanges.antt =====
-- Logging in, and forgetting a user, keep a stable property.
use mathlib.Core.Option.{some-injective}
use lhjsample.Common.{
  ℕ, ◌≡◌, sym, ap, ◌∙◌, subst, List, true, false, Option, some, get_elem?, if◌then◌else◌, arith,
  Bool-cases, inl, inr, ◌⊎◌,
}
use lhjsample.Common.Effect.{pure, update, ◌>>◌}
use lhjsample.Common.Effect.Keeps.{Keeps, Keeps-lift, Keeps-bind, >>=-eq-some, pure-reads}
use lhjsample.Packet.{ResultCode}
use lhjsample.User.{User, clear, set_login}
use lhjsample.User.Bindings.{set_login-user_id, set_login-UserIsValid}
use lhjsample.World.{World, Platform, users, get_user, modify_user}
use lhjsample.World.Inversion.{
  with_user, with_dictionary, UserAt, get_user-reads, modify_user-changes,
}
use lhjsample.Accounts.{delete_user_info, erase_id}
use lhjsample.Invariants.Stable.{Stable, dictionary}
use lhjsample.Invariants.Derive.{send_packet-Keeps}
use lhjsample.Common.{◌==◌, get_elem?-set_self, get_elem?-lt}
use lhjsample.Packet.{ack_login, result_code, login_success}
use lhjsample.Packet.Framing.{ack_packet-IsFramed, length-ack_packet}
use lhjsample.Accounts.{update_dictionary, check_loginable}
use lhjsample.Accounts.Login.{with_db, Outcome, refused, accepted, check_loginable-Outcome}
use lhjsample.Session.{login_request, ack}
use lhjsample.Invariants.Handlers.{packet_memory-Keeps}

login_code :
    (r : ResultCode) → (result_code r == result_code login_success) ≡ true → r ≡ login_success
login_code r h = ground arith

module _ {Db : Type 0} {P : World Db → Type 0} (stable : Stable P) where
  open stable use {pool, queries, revises, deletes, logins}

  pub delete_user_info-Keeps : (i : ℕ) → Keeps P (delete_user_info i)
  unfolding delete_user_info update
  delete_user_info-Keeps i = record {
    at = λ w q h e.
        let (a, e1, f1) = >>=-eq-some (get_user i) _ w q e in
        let (found, same) = get_user-reads i w a e1 in
        let (b, e2, f2) = >>=-eq-some (update_dictionary (erase_id a.0.user_id)) _ a.1 q f1 in
        let erased : b.1 ≡ with_dictionary w (erase_id a.0.user_id (dictionary w)) =
          sym (ap (λ x. x.1) (some-injective _ _ e2))
          ∙ ap (λ (x : World Db). with_dictionary x (erase_id a.0.user_id (dictionary x))) same in
        let (u, v, at, made, changed) = modify_user-changes i clear b.1 q f2 in
        let same_user : u ≡ a.0 =
          some-injective _ _
            (sym at ∙ ap (λ (x : World Db). get_elem? (users x) i) erased ∙ found) in
        let made' = subst (λ (x : User). clear x ≡ some v) same_user made in
        subst P (sym (changed ∙ ap (λ (x : World Db). with_user x i v) erased))
          (deletes w i a.0 v found made' h);
  }

  module _ (p : Platform Db) where
    -- After the check, `ProcessLogin` sets the login of an accepted user a second time.
    login-again :
        (i : ℕ) (id : List ℕ) (w : World Db) (a : ResultCode × World Db)
        → P w
        → Outcome p i id w a
        → P a.1 × (a.0 ≡ login_success → (u : User) × UserAt a.1 i u × (u.user_id ≡ id))
    login-again i id w a h (refused db code same) =
        (subst P (sym same) (queries w db h), λ k. absurd (code k))
    login-again i id w a h (accepted db u v code fresh at made same) = (
      subst P (sym same) (logins (with_db w db) i u v id at fresh made (queries w db h)),
      λ _. (
        v,
        subst (λ x. UserAt x i v) (sym same)
            (get_elem?-set_self (users w) i v (get_elem?-lt (users w) i at)),
        set_login-user_id id u v made,
      ),
    )

    again-Keeps :
        (i : ℕ) (id : List ℕ) (w : World Db) (q : Unit {0} × World Db) (u : User)
        → P w
        → UserAt w i u
        → u.user_id ≡ id
        → modify_user i (set_login id) w ≡ some q
        → P q.1
    again-Keeps i id w q u h at named e =
        let (a, b, at', made, changed) = modify_user-changes i (set_login id) w q e in
        let same_user : u ≡ a = some-injective _ _ (sym at ∙ at') in
        let valid = pool w h i a at' in
        subst P (sym changed) (
          revises w i a b at'
            (set_login-user_id id a b made ∙ sym named ∙ ap (λ (x : User). x.user_id) same_user)
            (set_login-UserIsValid i a b valid id made) h)

    pub login_request-Keeps : (i : ℕ) (p_packet : Option ℕ) → Keeps P (login_request p i i p_packet)
    unfolding login_request ack
    login_request-Keeps i p_packet = Keeps-bind _ _ (packet_memory-Keeps i p_packet) λ packet.
        Keeps-bind _ _ (Keeps-lift _) λ id. Keeps-bind _ _ (Keeps-lift _) λ pw. record {
          at = λ w q h e.
              let (a, e1, f1) = >>=-eq-some (check_loginable p i id pw) _ w q e in
              let (h', in_world) =
                login-again i id w a h (check_loginable-Outcome p i id pw w a e1) in
              go id a q h' in_world (Bool-cases _) f1;
        }
      where
        acks : (result : ResultCode) → Keeps P (ack p i i ack_login result)
        acks result =
            send_packet-Keeps stable i 7 _ (ack_packet-IsFramed ack_login _ result)
              (length-ack_packet ack_login _ result)

        go :
            (id : List ℕ) (a : ResultCode × World Db) (q : Unit {0} × World Db)
            → P a.1
            → (a.0 ≡ login_success → (u : User) × UserAt a.1 i u × (u.user_id ≡ id))
            → ((result_code a.0 == result_code login_success) ≡ true)
              ⊎ ((result_code a.0 == result_code login_success) ≡ false)
            → ((if result_code a.0 == result_code login_success
                    then modify_user i (set_login id)
                    else pure tt)
                  >> ack p i i ack_login a.0)
                a.1
              ≡ some q
            → P q.1
        go id a q h k (inl success) f =
            let (b, e2, f2) =
              >>=-eq-some (modify_user i (set_login id)) _ a.1 q (rw success at f) in
            let (u, at, named) = k (login_code a.0 success) in
            (acks a.0).at b.1 q (again-Keeps i id a.1 b u h at named e2) f2
        go id a q h k (inr failure) f =
            let (b, e2, f2) = >>=-eq-some (pure tt) _ a.1 q (rw failure at f) in
            let (_, same) = pure-reads tt a.1 b e2 in (acks a.0).at b.1 q (subst P (sym same) h) f2
