-- ===== src/Examples/Configuration.antt =====
-- Concrete inputs for the theorems about the configuration: the file Config.xml.
use lhjsample.Common.{
  ℕ, ◌≡◌, refl, List, [], ◌∷◌, Option, none, some, ◌==◌, if◌then◌else◌, get_elem?, codes, eq_bytes,
  pos, arith,
}
use lhjsample.Config.{ConfigLoader, Xml, returned, get_instance, load_network_config}
use lhjsample.AccountDb.{sql_success, sql_success_with_info}
use lhjsample.AccountDb.Connection.{OdbcHandles, AccountDb, connection_string, init}
use lhjsample.Config.Loading.{IsConfig, load_network_config-read_sections}

-- The elements of the file in the order in which they begin, with name, text, number, first child
-- and next sibling.
abbrev Element : Type 0
Element = ℕ

abbrev elements : List (List ℕ × Option (List ℕ) × ℕ × Option ℕ × Option ℕ)
elements =
    (codes "Config", none, 0, some 1, none)
    ∷ (codes "ChatServer", none, 0, some 2, some 4)
    ∷ (codes "IP", some (codes "127.0.0.1"), 0, none, some 3)
    ∷ (codes "Port", some (codes "5000"), 5000, none, none)
    ∷ (codes "RedisServer", none, 0, some 5, some 7)
    ∷ (codes "IP", some (codes "127.0.0.1"), 0, none, some 6)
    ∷ (codes "Port", some (codes "6379"), 6379, none, none)
    ∷ (codes "AccountDB", none, 0, some 8, none)
    ∷ (codes "IP", some (codes "127.0.0.1"), 0, none, some 9)
    ∷ (codes "Port", some (codes "5001"), 5001, none, some 10)
    ∷ (codes "ID", some (codes "test"), 0, none, some 11)
    ∷ (codes "Password", some (codes "1234"), 1234, none, none)
    ∷ []

abbrev child_of_root : List ℕ → Option ℕ
child_of_root name =
    if eq_bytes name (codes "ChatServer")
    then some 1
    else if eq_bytes name (codes "RedisServer")
    then some 4
    else if eq_bytes name (codes "AccountDB")
    then some 7
    else none

abbrev pub xml : Xml (Unit {0}) ℕ
xml = record {
  load_file = λ path. tt;
  error_id_to_name = λ document. none;
  root_element = λ document name. if eq_bytes name (codes "Config") then some 0 else none;
  first_child_named = λ e name. if e == 0 then child_of_root name else none;
  first_child = λ e. elim (get_elem? elements e) [ none ↦ none | some x ↦ x.3 ];
  next_sibling = λ e. elim (get_elem? elements e) [ none ↦ none | some x ↦ x.4 ];
  name = λ e. elim (get_elem? elements e) [ none ↦ [] | some x ↦ x.0 ];
  get_text = λ e. elim (get_elem? elements e) [ none ↦ none | some x ↦ x.1 ];
  int_text = λ e. elim (get_elem? elements e) [ none ↦ pos 0 | some x ↦ pos x.2 ];
}

abbrev pub configuration : ConfigLoader
configuration = record {
  chat_server_info = record { ip = codes "127.0.0.1"; port = 5000 };
  redis_server_info = record { ip = codes "127.0.0.1"; port = 6379 };
  account_db_info = record {
    ip = codes "127.0.0.1";
    port = 5001;
    id = codes "test";
    password = codes "1234";
  };
}

xml-IsConfig :
    IsConfig xml 4
      (codes "../Config.xml")
      (some (2 ∷ 3 ∷ []))
      (some (5 ∷ 6 ∷ []))
      (some (8 ∷ 9 ∷ 10 ∷ 11 ∷ []))
unfolding eq_bytes
xml-IsConfig = record {
  root = 0;
  loads = refl;
  rooted = refl;
  chat_server = ((refl, (refl, refl)), omega arith);
  redis_server = ((refl, (refl, refl)), omega arith);
  account_db = ((refl, (refl, (refl, (refl, refl)))), omega arith);
}

pub loads_config :
    load_network_config xml 4 (codes "../Config.xml") get_instance ≡ some (returned configuration)
unfolding load_network_config eq_bytes
loads_config = refl

load_network_config-read_sections_example :
    load_network_config xml 4 (codes "../Config.xml") get_instance ≡ some (returned configuration)
unfolding eq_bytes
load_network_config-read_sections_example =
    load_network_config-read_sections xml 4 (codes "../Config.xml") (some (2 ∷ 3 ∷ []))
      (some (5 ∷ 6 ∷ [])) (some (8 ∷ 9 ∷ 10 ∷ 11 ∷ [])) get_instance xml-IsConfig

-- The text with which the database is opened.
connects_to :
    connection_string configuration.account_db_info
    ≡ codes "DRIVER={SQL Server};SERVER=127.0.0.1, 5001;DATABASE=AccountDB;UID=test;PWD=1234"
connects_to = refl

abbrev handles : ℕ → OdbcHandles (Unit {0})
handles ret = record {
  alloc_env = λ os. (some 1, os);
  set_env_attr = λ henv os. os;
  alloc_dbc = λ henv os. (some 2, os);
  driver_connect = λ hdbc text os. (ret, os);
  alloc_stmt = λ hdbc os. (some 3, os);
  disconnect = λ hdbc os. os;
  free_handle = λ handle os. os;
}

abbrev unopened : AccountDb (Unit {0})
unopened = record { henv = none; hdbc = none; hstmt = none; os = tt }

-- A connection that the driver opens with `SQL_SUCCESS` gets no statement.
no_statement : (init (handles sql_success) configuration.account_db_info unopened).hstmt ≡ none
unfolding init
no_statement = refl

statement :
    (init (handles sql_success_with_info) configuration.account_db_info unopened).hstmt ≡ some 3
unfolding init
statement = refl
