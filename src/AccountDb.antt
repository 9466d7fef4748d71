-- ===== src/AccountDb.antt =====
-- LHJSample/DB/AccountDB.cpp over an abstract ODBC driver. `Db` is what the driver and the database
-- keep: tables, the statement handle, its bound parameters and its cursor.
pub mod Passwords
pub mod Connection
use lhjsample.Common.{
  ℕ, Bool, true, false, ◌||◌, List, [], ◌∷◌, ◌==◌, if◌then◌else◌, take, map, ◌%◌, ◌≡◌, eq_bytes,
}

-- What the code calls of ODBC. `exec_select` also returns column 3 of each row that `SQLFetch` then
-- yields; `get_data v` is the text that `SQLGetData(…, SQL_C_WCHAR, password, 20, …)` leaves in the
-- array of ten wide characters for a column value `v`.
pub record Odbc (Db : Type 0) : Type 0 where
  pub exec_create : List ℕ → List ℕ → Db → ℕ × Db
  pub exec_select : List ℕ → Db → ℕ × List (List ℕ) × Db
  pub get_data : List ℕ → List ℕ
  pub free_unbind : Db → Db
  pub free_close : Db → Db

-- `SQLGetData` truncates character data to the buffer's length less the terminating NUL.
abbrev pub Truncates : {Db : Type 0} → Odbc Db → Type 0
Truncates o = (v : List ℕ) → o.get_data v ≡ take 9 v

abbrev pub sql_success : ℕ
sql_success = 0

abbrev pub sql_success_with_info : ℕ
sql_success_with_info = 1

module _ {Db : Type 0} (o : Odbc Db) where
  -- `CreateAccount`
  unfoldable pub create_account : List ℕ → List ℕ → Db → Bool × Db
  create_account id pw db =
      let (ret, after) = o.exec_create id pw db in
      (if ret == sql_success || ret == sql_success_with_info then true else false, after)

  -- The loop over the rows: whether one has the password. `strPassword` gets each wide character
  -- as a `char`.
  unfoldable pub fetch_password : List ℕ → List (List ℕ) → Bool
  fetch_password pw [] = false
  fetch_password pw (row ∷ rows) =
      let rest = fetch_password pw rows in
      if eq_bytes (map (λ c. c % 256) (o.get_data row)) pw then true else rest

  -- `SelectAccount`: on every path the statement is unbound and its cursor closed.
  unfoldable pub select_account : List ℕ → List ℕ → Db → Bool × Db
  unfolding fetch_password
  select_account id pw db =
      let (ret, rows, after) = o.exec_select id db in
      let released = o.free_close (o.free_unbind after) in
      if ret == sql_success || ret == sql_success_with_info
      then (fetch_password pw rows, released)
      else (false, released)
