-- ===== src/Config/Loading.antt =====
-- `LoadNetworkConfig` as a whole, against a reading of the document's sections.
use lhjsample.Common.{ℕ, ◌≤◌, ◌≡◌, refl, Bool, List, Option, none, some, codes, length}
use lhjsample.Config.{
  ServerConnectionInfo, DbConnectionInfo, ConfigLoader, Xml, LoadError, Result, returned, threw,
  crashed, not_found_chat_server, not_found_redis_server, not_found_account_db, assign_server,
  assign_db, load_section, and_then, load_account_db, load_redis_server, load_chat_server,
  load_network_config,
}
use lhjsample.Config.Sections.{
  IsSiblings, before_first, has_any, outcome, server_lacks, server_values, read_children-server,
}
use lhjsample.Config.Database.{db_lacks, db_values, read_children-db}

module _ {Document Element : Type 0} (x : Xml Document Element) where
  -- A section of the document: there is none, or an element with these children, for each of which
  -- there is fuel.
  abbrev IsSection : ℕ → Option Element → Option (List Element) → Type 0
  IsSection fuel none none = Unit
  IsSection fuel none (some children) = ⊥
  IsSection fuel (some server) none = ⊥
  IsSection fuel (some server) (some children) =
      IsSiblings x (x.first_child server) children × (length children ≤ fuel)

  -- A document that was loaded, with its three sections.
  pub record IsConfig (fuel : ℕ) (path : List ℕ) (chat redis db : Option (List Element))
      : Type 0 where
    pub root : Element
    pub loads : x.error_id_to_name (x.load_file path) ≡ none
    pub rooted : x.root_element (x.load_file path) (codes "Config") ≡ some root
    pub chat_server : IsSection fuel (x.first_child_named root (codes "ChatServer")) chat
    pub redis_server : IsSection fuel (x.first_child_named root (codes "RedisServer")) redis
    pub account_db : IsSection fuel (x.first_child_named root (codes "AccountDB")) db

  -- What a section says.
  abbrev section_result :
      {A : Type 0}
      → (Element → Bool)
      → (List Element → A → A)
      → LoadError
      → Option (List Element)
      → A
      → Result A
  section_result lacks values error none info = threw error info
  section_result lacks values error (some children) info =
      outcome x (has_any lacks children) (values (before_first lacks children) info)

  -- A section that is read ends the reading, or the next one follows.
  abbrev followed :
      {A : Type 0}
      → Result A
      → (A → ConfigLoader)
      → (ConfigLoader → Result ConfigLoader)
      → Result ConfigLoader
  followed (returned info) put rest = rest (put info)
  followed (threw error info) put rest = threw error (put info)
  followed (crashed info) put rest = crashed (put info)

  -- What the three sections say, in their order.
  abbrev read_db : Option (List Element) → ConfigLoader → Result ConfigLoader
  read_db db config =
      followed
        (section_result (db_lacks x) (db_values x) not_found_account_db db config.account_db_info)
        (λ info. record config { account_db_info = info }) returned

  abbrev read_redis :
      Option (List Element) → Option (List Element) → ConfigLoader → Result ConfigLoader
  read_redis redis db config =
      followed
        (section_result (server_lacks x) (server_values x) not_found_redis_server redis
          config.redis_server_info)
        (λ info. record config { redis_server_info = info }) (read_db db)

  abbrev pub read_sections :
      Option (List Element)
      → Option (List Element)
      → Option (List Element)
      → ConfigLoader
      → Result ConfigLoader
  read_sections chat redis db config =
      followed
        (section_result (server_lacks x) (server_values x) not_found_chat_server chat
          config.chat_server_info)
        (λ info. record config { chat_server_info = info }) (read_redis redis db)

  load_section-server :
      (fuel : ℕ) (server : Option Element) (children : Option (List Element)) (error : LoadError)
      (info : ServerConnectionInfo)
      → IsSection fuel server children
      → load_section x (assign_server x) fuel server error info
        ≡ some (section_result (server_lacks x) (server_values x) error children info)
  unfolding load_section
  load_section-server fuel none none error info h = refl
  load_section-server fuel none (some children) error info h = absurd h
  load_section-server fuel (some server) none error info h = absurd h
  load_section-server fuel (some server) (some children) error info (siblings, enough) =
      read_children-server x children (x.first_child server) fuel info siblings enough

  load_section-db :
      (fuel : ℕ) (server : Option Element) (children : Option (List Element)) (error : LoadError)
      (info : DbConnectionInfo)
      → IsSection fuel server children
      → load_section x (assign_db x) fuel server error info
        ≡ some (section_result (db_lacks x) (db_values x) error children info)
  unfolding load_section
  load_section-db fuel none none error info h = refl
  load_section-db fuel none (some children) error info h = absurd h
  load_section-db fuel (some server) none error info h = absurd h
  load_section-db fuel (some server) (some children) error info (siblings, enough) =
      read_children-db x children (x.first_child server) fuel info siblings enough

  and_then-followed :
      {A : Type 0} (r : Result A) (put : A → ConfigLoader)
      (rest : ConfigLoader → Option (Result ConfigLoader))
      (said : ConfigLoader → Result ConfigLoader)
      → ((c : ConfigLoader) → rest c ≡ some (said c))
      → and_then x (some r) put rest ≡ some (followed r put said)
  unfolding and_then
  and_then-followed (returned info) put rest said same = same (put info)
  and_then-followed (threw error info) put rest said same = refl
  and_then-followed (crashed info) put rest said same = refl

  module _ (fuel : ℕ) (path : List ℕ) (chat redis db : Option (List Element))
      (h : IsConfig fuel path chat redis db) where
    load_account_db-reads :
        (config : ConfigLoader) → load_account_db x fuel h.root config ≡ some (read_db db config)
    unfolding load_account_db
    load_account_db-reads config =
        rw (load_section-db fuel _ db not_found_account_db config.account_db_info h.account_db)
          (and_then-followed _ _ _ returned (λ c. refl))

    load_redis_server-reads :
        (config : ConfigLoader)
        → load_redis_server x fuel h.root config ≡ some (read_redis redis db config)
    unfolding load_redis_server
    load_redis_server-reads config =
        rw
          (load_section-server fuel _ redis not_found_redis_server config.redis_server_info
            h.redis_server)
          (and_then-followed _ _ _ (read_db db) load_account_db-reads)

    load_chat_server-reads :
        (config : ConfigLoader)
        → load_chat_server x fuel h.root config ≡ some (read_sections chat redis db config)
    unfolding load_chat_server
    load_chat_server-reads config =
        rw
          (load_section-server fuel _ chat not_found_chat_server config.chat_server_info
            h.chat_server)
          (and_then-followed _ _ _ (read_redis redis db) load_redis_server-reads)

  -- For a document that the XML library loads and that has a root `Config`, with fuel for the
  -- children of each section, `LoadNetworkConfig` ends, and gives what the sections `ChatServer`,
  -- `RedisServer` and `AccountDB` say in this order: for each name the last child of this name; a
  -- section that is missing, or a child of a text that has none, ends the reading with its error,
  -- with what was read before it.
  pub load_network_config-read_sections :
      (fuel : ℕ) (path : List ℕ) (chat redis db : Option (List Element)) (config : ConfigLoader)
      → IsConfig fuel path chat redis db
      → load_network_config x fuel path config ≡ some (read_sections chat redis db config)
  unfolding load_network_config
  load_network_config-read_sections fuel path chat redis db config h =
      rw (load_network_config, h.loads, h.rooted)
        (load_chat_server-reads fuel path chat redis db h config)
