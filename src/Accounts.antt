-- ===== src/Accounts.antt =====
-- LHJSample/User/UserManager.cpp: the pool of users, who is logged in, and the login check.
pub mod Login
use lhjsample.Common.{
  ℕ, zero, suc, ◌+◌, ◌-◌, ℤ, pos, negsuc, Bool, true, false, List, [], ◌∷◌, Option, none, some, ltb,
  leb, ◌==◌, if◌then◌else◌, eq_bytes,
}
use lhjsample.Common.Fallible.{◌>>=◌ as bind}
use lhjsample.Common.Effect.{Effect, pure, lift, gets, update, ◌>>=◌, ◌>>◌}
use lhjsample.Packet.{
  ResultCode, result_none, login_success, login_user_already, login_user_used_all_obj,
  login_user_invalid_pw,
}
use lhjsample.AccountDb.{create_account, select_account}
use lhjsample.User.{User, init_user, clear, set_login}
use lhjsample.World.{World, UserManager, Platform, users, get_user, modify_user, call_db}

-- The loop of `UserManager::Init` from user `i` on, with `n` users left to make; `storage i` is the
-- memory of the buffer of user `i`.
unfoldable pub init_users : (ℕ → List ℕ) → ℕ → ℕ → Option (List User)
init_users storage i zero = some []
init_users storage i (suc n) =
    bind (init_user i (storage i))
      λ user. bind (init_users storage (i + 1) n) λ rest. some (user ∷ rest)

-- `Init`
unfoldable pub init_user_manager : ℕ → (ℕ → List ℕ) → Option UserManager
unfolding init_users
init_user_manager max_user_count storage = bind (init_users storage 0 max_user_count) λ pool.
    some (record {
      max_user_cnt = max_user_count;
      current_user_cnt = 0;
      user_obj_pool = pool;
      user_id_dictionary = [];
    })

-- `IncreaseUserCnt` and `DecreaseUserCnt`; the server calls neither.
unfoldable pub increase_user_cnt : UserManager → UserManager
increase_user_cnt m = record m { current_user_cnt = m.current_user_cnt + 1 }

unfoldable pub decrease_user_cnt : UserManager → UserManager
decrease_user_cnt m =
    if ltb 0 m.current_user_cnt then record m { current_user_cnt = m.current_user_cnt - 1 } else m

-- `std::unordered_map<std::string, int>`: `find`, `insert`, which keeps an old entry, and `erase`.
unfoldable pub find_id : List ℕ → List (List ℕ × ℕ) → Option ℕ
find_id id [] = none
find_id id ((key, index) ∷ d) = if eq_bytes key id then some index else find_id id d

unfoldable pub insert_id : List ℕ → ℕ → List (List ℕ × ℕ) → List (List ℕ × ℕ)
unfolding find_id
insert_id id index d = elim (find_id id d) [ none ↦ (id, index) ∷ d | some _ ↦ d ]

unfoldable pub erase_id : List ℕ → List (List ℕ × ℕ) → List (List ℕ × ℕ)
erase_id id [] = []
erase_id id ((key, index) ∷ d) =
    if eq_bytes key id then erase_id id d else (key, index) ∷ erase_id id d

-- `FindUserIndexByID`: -1 for an id that is not logged in.
unfoldable pub find_user_index_by_id : List ℕ → UserManager → ℤ
unfolding find_id
find_user_index_by_id id m = elim (find_id id m.user_id_dictionary) [
  | some index ↦ pos index
  | none ↦ negsuc 0
]

unfoldable pub is_minus_one : ℤ → Bool
is_minus_one (pos n) = false
is_minus_one (negsuc n) = n == 0

module _ {Db : Type 0} where
  unfoldable pub update_dictionary :
      (List (List ℕ × ℕ) → List (List ℕ × ℕ)) → Effect (World Db) (Unit {0})
  update_dictionary f = update (λ w. record w {
    user_manager = record w.user_manager {
      user_id_dictionary = f w.user_manager.user_id_dictionary;
    };
  })

  -- `AddUser`
  unfoldable pub add_user : List ℕ → ℕ → Effect (World Db) ResultCode
  unfolding update_dictionary insert_id
  add_user user_id client_index = do
    modify_user client_index (set_login user_id)
    update_dictionary (insert_id user_id client_index)
    pure result_none

  -- `DeleteUserInfo`
  unfoldable pub delete_user_info : ℕ → Effect (World Db) (Unit {0})
  unfolding update_dictionary erase_id
  delete_user_info user_ptr = do
    user ← get_user user_ptr
    update_dictionary (erase_id user.user_id)
    modify_user user_ptr clear

  module _ (p : Platform Db) where
    -- `CheckLoginable` for an id that is not logged in.
    unfoldable pub login : ℕ → List ℕ → List ℕ → Effect (World Db) ResultCode
    login client_index user_id password = do
      accepted ← call_db (select_account p.odbc user_id password)
      if accepted
          then (add_user user_id client_index >> pure login_success)
          else pure login_user_invalid_pw

    -- `CheckLoginable`
    unfoldable pub check_loginable : ℕ → List ℕ → List ℕ → Effect (World Db) ResultCode
    unfolding login is_minus_one find_user_index_by_id
    check_loginable client_index user_id password = do
      m ← gets (λ w. w.user_manager)
      if leb m.max_user_cnt m.current_user_cnt
          then pure login_user_used_all_obj
          else if is_minus_one (find_user_index_by_id user_id m)
          then login client_index user_id password
          else pure login_user_already

    -- `UserManager::CreateAccount`
    unfoldable pub create_user_account : List ℕ → List ℕ → Effect (World Db) Bool
    create_user_account user_id password = call_db (create_account p.odbc user_id password)
