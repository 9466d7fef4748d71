-- ===== src/AccountDb/Connection.antt =====
-- LHJSample/DB/AccountDB.cpp: how the connection is opened and closed. The ODBC calls are the
-- parameter `OdbcHandles`.
use lhjsample.Common.{ℕ, not, List, ◌++◌, Option, ◌==◌, if◌then◌else◌, codes, u16_text}
use lhjsample.AccountDb.{sql_success_with_info}
use lhjsample.Config.{DbConnectionInfo}

-- `SQLAllocHandle` for an environment, a connection or a statement gives a handle, or leaves the
-- variable as it is.
pub record OdbcHandles (Os : Type 0) : Type 0 where
  pub alloc_env : Os → Option ℕ × Os
  pub set_env_attr : Option ℕ → Os → Os
  pub alloc_dbc : Option ℕ → Os → Option ℕ × Os
  pub driver_connect : Option ℕ → List ℕ → Os → ℕ × Os
  pub alloc_stmt : Option ℕ → Os → Option ℕ × Os
  pub disconnect : Option ℕ → Os → Os
  pub free_handle : Option ℕ → Os → Os

-- The members; `none` as long as nothing was assigned.
pub record AccountDb (Os : Type 0) : Type 0 where
  pub henv : Option ℕ
  pub hdbc : Option ℕ
  pub hstmt : Option ℕ
  pub os : Os

-- The text for `SQLDriverConnectW`.
abbrev pub connection_string : DbConnectionInfo → List ℕ
connection_string info =
    codes "DRIVER={SQL Server};"
    ++ codes "SERVER="
    ++ info.ip
    ++ codes ", "
    ++ u16_text info.port
    ++ codes ";DATABASE=AccountDB;UID="
    ++ info.id
    ++ codes ";PWD="
    ++ info.password

module _ {Os : Type 0} (o : OdbcHandles Os) where
  -- `Init` behind `SQLDriverConnectW`.
  unfoldable pub open_statement : ℕ → AccountDb Os → AccountDb Os
  open_statement ret db =
      let (hstmt, os) = o.alloc_stmt db.hdbc db.os in
      if not (ret == sql_success_with_info) then db else record db { hstmt = hstmt; os = os }

  -- `Init`
  unfoldable pub init : DbConnectionInfo → AccountDb Os → AccountDb Os
  unfolding open_statement
  init info db =
      let (henv, a) = o.alloc_env db.os in
      let (hdbc, b) = o.alloc_dbc henv (o.set_env_attr henv a) in
      let (ret, c) = o.driver_connect hdbc (connection_string info) b in
      open_statement ret (record db { henv = henv; hdbc = hdbc; os = c })

  -- The destructor
  unfoldable pub destroy : AccountDb Os → AccountDb Os
  destroy db = record db {
    os =
        o.free_handle db.henv
          (o.free_handle db.hdbc (o.disconnect db.hdbc (o.free_handle db.hstmt db.os)));
  }
