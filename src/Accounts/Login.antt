-- ===== src/Accounts/Login.antt =====
-- What the login check does on each of its branches.
use mathlib.Core.Option.{some-injective}
use lhjsample.Common.{
  ℕ, ◌≡◌, ◌≢◌, refl, sym, ap, ◌∙◌, subst, List, Bool, true, false, some, none, leb, if◌then◌else◌,
  arith, Bool-cases, inl, inr, ◌⊎◌,
}
use lhjsample.Common.Effect.{pure, update, ◌>>=◌, ◌>>◌}
use lhjsample.Common.Effect.Keeps.{>>=-eq-some, pure-reads}
use lhjsample.Packet.{
  ResultCode, result_none, login_success, login_user_already, login_user_used_all_obj,
  login_user_invalid_pw,
}
use lhjsample.AccountDb.{select_account}
use lhjsample.User.{User, set_login}
use lhjsample.World.{World, UserManager, Platform, modify_user, call_db}
use lhjsample.World.Inversion.{
  with_user, with_dictionary, UserAt, modify_user-changes, modify_user-succeeds,
}
use lhjsample.Accounts.{
  find_id, insert_id, find_user_index_by_id, is_minus_one, update_dictionary, add_user, login,
  check_loginable,
}

module _ {Db : Type 0} where
  abbrev pub with_db : World Db → Db → World Db
  with_db w db = record w { db = db }

  -- The world after `AddUser` has made `u` into `v` at position `c`.
  abbrev pub logged_in : World Db → ℕ → List ℕ → User → World Db
  logged_in w c id v =
      with_dictionary (with_user w c v) (insert_id id c w.user_manager.user_id_dictionary)

  pub call_db-reads :
      (query : Db → Bool × Db) (w : World Db) (q : Bool × World Db)
      → call_db query w ≡ some q
      → (q.0 ≡ (query w.db).0) × (q.1 ≡ with_db w (query w.db).1)
  unfolding call_db ◌>>=◌
  call_db-reads query w q e =
      (sym (ap (λ x. x.0) (some-injective _ _ e)), sym (ap (λ x. x.1) (some-injective _ _ e)))

  pub add_user-changes :
      (id : List ℕ) (c : ℕ) (w : World Db) (q : ResultCode × World Db)
      → add_user id c w ≡ some q
      → (u v : User) × UserAt w c u × (set_login id u ≡ some v) × (q.1 ≡ logged_in w c id v)
  unfolding add_user update
  add_user-changes id c w q e =
      let (a, e1, f1) = >>=-eq-some (modify_user c (set_login id)) _ w q e in
      let (u, v, at, made, changed) = modify_user-changes c (set_login id) w a e1 in
      let (b, e2, f2) = >>=-eq-some (update_dictionary (insert_id id c)) _ a.1 q f1 in
      let (_, done) = pure-reads result_none b.1 q f2 in
      let stored : b.1 ≡ with_dictionary a.1 (insert_id id c a.1.user_manager.user_id_dictionary) =
        sym (ap (λ x. x.1) (some-injective _ _ e2)) in
      (
        u,
        v,
        at,
        made,
        done
            ∙ stored
            ∙ ap
                (λ (x : World Db).
                  with_dictionary x (insert_id id c x.user_manager.user_id_dictionary))
                changed,
      )

  module _ (p : Platform Db) where
    -- The two ways in which the login check ends.
    pub data Outcome (c : ℕ) (id : List ℕ) (w : World Db) (q : ResultCode × World Db) : Type 0 where
      refused : (db : Db) → q.0 ≢ login_success → q.1 ≡ with_db w db → Outcome c id w q
      accepted :
          (db : Db) (u v : User)
          → q.0 ≡ login_success
          → find_id id w.user_manager.user_id_dictionary ≡ none
          → UserAt w c u
          → set_login id u ≡ some v
          → q.1 ≡ logged_in (with_db w db) c id v
          → Outcome c id w q

    login-Outcome :
        (c : ℕ) (id pw : List ℕ) (w : World Db) (q : ResultCode × World Db)
        → find_id id w.user_manager.user_id_dictionary ≡ none
        → login p c id pw w ≡ some q
        → Outcome c id w q
    unfolding login
    login-Outcome c id pw w q fresh e =
        let (a, e1, f1) = >>=-eq-some (call_db (select_account p.odbc id pw)) _ w q e in
        let (_, after) = call_db-reads (select_account p.odbc id pw) w a e1 in
        go a (Bool-cases a.0) after f1
      where
        go :
            (a : Bool × World Db)
            → (a.0 ≡ true) ⊎ (a.0 ≡ false)
            → a.1 ≡ with_db w (select_account p.odbc id pw w.db).1
            → (if a.0 then (add_user id c >> pure login_success) else pure login_user_invalid_pw)
                a.1
              ≡ some q
            → Outcome c id w q
        go a (inl yes_row) after f =
            let (b, e2, f2) = >>=-eq-some (add_user id c) _ a.1 q (rw yes_row at f) in
            let (u, v, at, made, changed) = add_user-changes id c a.1 b e2 in
            let (code, same) = pure-reads login_success b.1 q f2 in
            accepted (select_account p.odbc id pw w.db).1 u v code fresh
              (subst (λ x. UserAt x c u) after at) made
              (same ∙ changed ∙ ap (λ x. logged_in x c id v) after)
        go a (inr no_row) after f =
            let (code, same) = pure-reads login_user_invalid_pw a.1 q (rw no_row at f) in
            refused _ (λ k. cc) (same ∙ after)

    find_minus_one :
        (id : List ℕ) (m : UserManager)
        → is_minus_one (find_user_index_by_id id m) ≡ true
        → find_id id m.user_id_dictionary ≡ none
    unfolding is_minus_one find_user_index_by_id
    find_minus_one id m h = ground arith

    -- A login check that ends without a fault has either refused, and then changed nothing but the
    -- database's own state, or accepted an id that was not logged in, and logged the user in.
    pub check_loginable-Outcome :
        (c : ℕ) (id pw : List ℕ) (w : World Db) (q : ResultCode × World Db)
        → check_loginable p c id pw w ≡ some q
        → Outcome c id w q
    unfolding check_loginable ◌>>=◌
    check_loginable-Outcome c id pw w q e = go w.user_manager (Bool-cases _) (Bool-cases _) refl e
      where
        go :
            (m : UserManager)
            → (leb m.max_user_cnt m.current_user_cnt ≡ true)
              ⊎ (leb m.max_user_cnt m.current_user_cnt ≡ false)
            → (is_minus_one (find_user_index_by_id id m) ≡ true)
              ⊎ (is_minus_one (find_user_index_by_id id m) ≡ false)
            → m ≡ w.user_manager
            → (if leb m.max_user_cnt m.current_user_cnt
                  then pure login_user_used_all_obj
                  else if is_minus_one (find_user_index_by_id id m)
                  then login p c id pw
                  else pure login_user_already)
                w
              ≡ some q
            → Outcome c id w q
        go m (inl full) online at f =
            let (code, same) = pure-reads login_user_used_all_obj w q (rw full at f) in
            refused w.db (λ k. cc) same
        go m (inr space) (inl offline) at f =
            login-Outcome c id pw w q
              (subst (λ (x : UserManager). find_id id x.user_id_dictionary ≡ none) at
                (find_minus_one id m offline))
              (rw (space, offline) at f)
        go m (inr space) (inr online) at f =
            let (code, same) = pure-reads login_user_already w q (rw (space, online) at f) in
            refused w.db (λ k. cc) same

    -- For a valid index, whose user `u` `SetLogin` makes into `v`, the login check answers: that all
    -- users are in use when the count has reached the maximum; else that the id is already logged in
    -- when the dictionary has it; else by the database, logging the user in if it accepts. In all
    -- other cases the users and the dictionary stay as they are.
    pub check_loginable_lem :
        (c : ℕ) (id pw : List ℕ) (w : World Db) (u v : User)
        → UserAt w c u
        → set_login id u ≡ some v
        → let m = w.user_manager in
          let (found, db) = select_account p.odbc id pw w.db in
          check_loginable p c id pw w ≡ (
            if leb m.max_user_cnt m.current_user_cnt
            then some (login_user_used_all_obj, w)
            else elim (find_id id m.user_id_dictionary) [
              | some other ↦ some (login_user_already, w)
              | none ↦
                  if found
                  then some (login_success, logged_in (with_db w db) c id v)
                  else some (login_user_invalid_pw, with_db w db)
            ])
    unfolding check_loginable call_db add_user update ◌>>=◌
    check_loginable_lem c id pw w u v at made = ground (
      arith,
      modify_user-succeeds c (set_login id) (with_db w (select_account p.odbc id pw w.db).1) u v at
          made,
    )
