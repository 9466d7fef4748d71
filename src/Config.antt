-- ===== src/Config.antt =====
-- LHJSample/Config: how `ConfigLoader` reads the file of the configuration. The XML library is the
-- parameter `Xml`; a `throw` is a result that holds what the loader had read until then.
pub mod Sections
pub mod Database
pub mod Loading
use lhjsample.Common.{
  ℕ, zero, suc, ◌-◌, ◌%◌, ◌^◌, Bool, true, false, List, [], ◌∷◌, Option, none, some, if◌then◌else◌,
  eq_bytes, codes, ℤ, pos, negsuc,
}

pub record ServerConnectionInfo : Type 0 where
  pub ip : List ℕ
  pub port : ℕ

pub record DbConnectionInfo : Type 0 where
  pub ip : List ℕ
  pub port : ℕ
  pub id : List ℕ
  pub password : List ℕ

pub record ConfigLoader : Type 0 where
  pub chat_server_info : ServerConnectionInfo
  pub redis_server_info : ServerConnectionInfo
  pub account_db_info : DbConnectionInfo

-- The object of `GetInstance`, which is static, before anything is read.
abbrev pub get_instance : ConfigLoader
get_instance = record {
  chat_server_info = record { ip = []; port = 0 };
  redis_server_info = record { ip = []; port = 0 };
  account_db_info = record { ip = []; port = 0; id = []; password = [] };
}

-- What the code calls of the XML library. `load_file` gives the document, or the name of the error.
pub record Xml (Document Element : Type 0) : Type 0 where
  pub load_file : List ℕ → Document
  pub error_id_to_name : Document → Option (List ℕ)
  pub root_element : Document → List ℕ → Option Element
  pub first_child_named : Element → List ℕ → Option Element
  pub first_child : Element → Option Element
  pub next_sibling : Element → Option Element
  pub name : Element → List ℕ
  pub get_text : Element → Option (List ℕ)
  pub int_text : Element → ℤ

-- The texts that are thrown: `"{} Load fail - {}"` with its two arguments, the three kinds of
-- `"NotFound <…> config"`, and `"GetTextFail"`.
pub data LoadError : Type 0 where
  load_fail : List ℕ → List ℕ → LoadError
  not_found_chat_server not_found_redis_server not_found_account_db : LoadError
  get_text_fail : LoadError

-- How a method of the loader ends, with the members at this time. `crashed`: it has called a method
-- of a null pointer.
pub data Result (A : Type 0) : Type 0 where
  returned : A → Result A
  threw : LoadError → A → Result A
  crashed : A → Result A

-- `(unsigned short)` of an `int`
abbrev pub to_ushort : ℤ → ℕ
to_ushort (pos n) = n % 2 ^ 16
to_ushort (negsuc n) = 2 ^ 16 - 1 - n % 2 ^ 16

module _ {Document Element : Type 0} (x : Xml Document Element) where
  -- `IsElementName`
  unfoldable pub is_element_name : Option Element → List ℕ → Bool
  is_element_name none compare_name = false
  is_element_name (some ele) compare_name = eq_bytes (x.name ele) compare_name

  -- `GetText`; `none` is the throw.
  unfoldable pub get_text : Option Element → Bool → Option (List ℕ)
  get_text none required = if required then none else some []
  get_text (some ele) required = elim (x.get_text ele) [
    | some text ↦ some text
    | none ↦ if required then none else some []
  ]

  -- Assigns the text of a child.
  unfoldable pub assign_text : {A : Type 0} → (List ℕ → A) → Element → A → Result A
  unfolding get_text
  assign_text change child info = elim (get_text (some child) true) [
    | some text ↦ returned (change text)
    | none ↦ threw get_text_fail info
  ]

  -- The body of the loops over the children of `ChatServer` and `RedisServer`.
  unfoldable pub assign_server : Element → ServerConnectionInfo → Result ServerConnectionInfo
  unfolding is_element_name assign_text
  assign_server child info =
      if is_element_name (some child) (codes "IP")
      then assign_text (λ text. record info { ip = text }) child info
      else if is_element_name (some child) (codes "Port")
      then returned (record info { port = to_ushort (x.int_text child) })
      else returned info

  -- The body of the loop over the children of `AccountDB`.
  unfoldable pub assign_db : Element → DbConnectionInfo → Result DbConnectionInfo
  unfolding is_element_name assign_text
  assign_db child info =
      if is_element_name (some child) (codes "IP")
      then assign_text (λ text. record info { ip = text }) child info
      else if is_element_name (some child) (codes "Port")
      then returned (record info { port = to_ushort (x.int_text child) })
      else if is_element_name (some child) (codes "ID")
      then assign_text (λ text. record info { id = text }) child info
      else if is_element_name (some child) (codes "Password")
      then assign_text (λ text. record info { password = text }) child info
      else returned info

  -- A loop over an element and its next siblings, on fuel.
  unfoldable pub read_children :
      {A : Type 0} → (Element → A → Result A) → ℕ → Option Element → A → Option (Result A)
  read_children body fuel none info = some (returned info)
  read_children body zero (some child) info = none
  read_children body (suc fuel) (some child) info = elim (body child info) [
    | returned after ↦ read_children body fuel (x.next_sibling child) after
    | threw error after ↦ some (threw error after)
    | crashed after ↦ some (crashed after)
  ]

  -- One section of `LoadNetworkConfig`: its element or the throw, and the loop.
  unfoldable pub load_section :
      {A : Type 0}
      → (Element → A → Result A)
      → ℕ
      → Option Element
      → LoadError
      → A
      → Option (Result A)
  unfolding read_children
  load_section body fuel none error info = some (threw error info)
  load_section body fuel (some server) error info =
      read_children body fuel (x.first_child server) info

  -- The members with one of them as its section has left it, and the rest of the method.
  unfoldable pub and_then :
      {A : Type 0}
      → Option (Result A)
      → (A → ConfigLoader)
      → (ConfigLoader → Option (Result ConfigLoader))
      → Option (Result ConfigLoader)
  and_then none put rest = none
  and_then (some (returned info)) put rest = rest (put info)
  and_then (some (threw error info)) put rest = some (threw error (put info))
  and_then (some (crashed info)) put rest = some (crashed (put info))

  unfoldable pub load_account_db : ℕ → Element → ConfigLoader → Option (Result ConfigLoader)
  unfolding load_section and_then assign_db
  load_account_db fuel root config =
      and_then
        (load_section assign_db fuel (x.first_child_named root (codes "AccountDB"))
          not_found_account_db config.account_db_info)
        (λ info. record config { account_db_info = info }) (λ after. some (returned after))

  unfoldable pub load_redis_server : ℕ → Element → ConfigLoader → Option (Result ConfigLoader)
  unfolding load_section and_then assign_server
  load_redis_server fuel root config =
      and_then
        (load_section assign_server fuel (x.first_child_named root (codes "RedisServer"))
          not_found_redis_server config.redis_server_info)
        (λ info. record config { redis_server_info = info }) (load_account_db fuel root)

  unfoldable pub load_chat_server : ℕ → Element → ConfigLoader → Option (Result ConfigLoader)
  unfolding load_section and_then assign_server
  load_chat_server fuel root config =
      and_then
        (load_section assign_server fuel (x.first_child_named root (codes "ChatServer"))
          not_found_chat_server config.chat_server_info)
        (λ info. record config { chat_server_info = info }) (load_redis_server fuel root)

  -- `LoadNetworkConfig`. The root is used before it is tested, or not at all.
  unfoldable pub load_network_config : ℕ → List ℕ → ConfigLoader → Option (Result ConfigLoader)
  unfolding load_chat_server load_redis_server load_account_db
  load_network_config fuel config_path config =
      let xml_doc = x.load_file config_path in
      elim (x.error_id_to_name xml_doc) [
        | some error ↦ some (threw (load_fail config_path error) config)
        | none ↦ elim (x.root_element xml_doc (codes "Config")) [
          | none ↦ some (crashed config)
          | some root ↦ load_chat_server fuel root config
        ]
      ]
