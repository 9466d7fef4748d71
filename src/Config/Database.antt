-- ===== src/Config/Database.antt =====
-- The loop over the children of `AccountDB`.
use lhjsample.Common.{
  ℕ, ◌≤◌, ◌≡◌, refl, ap, ◌∙◌, Bool, false, ◌||◌, ◌&&◌, List, [], ◌∷◌, Option, some, if◌then◌else◌,
  eq_bytes, codes, length, arith,
}
use lhjsample.Config.{
  DbConnectionInfo, Xml, returned, threw, get_text_fail, to_ushort, is_element_name, get_text,
  assign_text, assign_db, read_children,
}
use lhjsample.Config.Sections.{
  IsSiblings, before_first, has_any, last_value, last_value-cons, text, has_no_text, one_name,
  changes, outcome, read_children-changes,
}

apart :
    (eq_bytes (codes "IP") (codes "Port") ≡ false)
    × (eq_bytes (codes "IP") (codes "ID") ≡ false)
    × (eq_bytes (codes "IP") (codes "Password") ≡ false)
    × (eq_bytes (codes "Port") (codes "ID") ≡ false)
    × (eq_bytes (codes "Port") (codes "Password") ≡ false)
    × (eq_bytes (codes "ID") (codes "Password") ≡ false)
unfolding eq_bytes
apart = (refl, refl, refl, refl, refl, refl)

module _ {Document Element : Type 0} (x : Xml Document Element) where
  abbrev is_named : List ℕ → Element → Bool
  is_named name child = eq_bytes (x.name child) name

  abbrev pub db_lacks : Element → Bool
  db_lacks child =
      (is_named (codes "IP") child
        || is_named (codes "ID") child
        || is_named (codes "Password") child)
      && has_no_text x child

  abbrev pub db_values : List Element → DbConnectionInfo → DbConnectionInfo
  db_values children info = record {
    ip = last_value x (text x) (codes "IP") children info.ip;
    port = last_value x (λ child. to_ushort (x.int_text child)) (codes "Port") children info.port;
    id = last_value x (text x) (codes "ID") children info.id;
    password = last_value x (text x) (codes "Password") children info.password;
  }

  abbrev change_db : Element → DbConnectionInfo → DbConnectionInfo
  change_db child info = record {
    ip = if is_named (codes "IP") child then text x child else info.ip;
    port = if is_named (codes "Port") child then to_ushort (x.int_text child) else info.port;
    id = if is_named (codes "ID") child then text x child else info.id;
    password = if is_named (codes "Password") child then text x child else info.password;
  }

  assign_db-changes :
      (child : Element) (info : DbConnectionInfo)
      → assign_db x child info
        ≡ (if db_lacks child then threw get_text_fail info else returned (change_db child info))
  unfolding assign_db assign_text get_text is_element_name
  assign_db-changes child info =
      let n = x.name child in
      let a = one_name x n (codes "IP") (codes "Port") apart.0 in
      let b = one_name x n (codes "IP") (codes "ID") apart.1 in
      let c = one_name x n (codes "IP") (codes "Password") apart.2 in
      let d = one_name x n (codes "Port") (codes "ID") apart.3 in
      let e = one_name x n (codes "Port") (codes "Password") apart.4 in
      let f = one_name x n (codes "ID") (codes "Password") apart.5 in
      ground (arith, a, b, c, d, e, f)

  db-section :
      (children : List Element) (info : DbConnectionInfo)
      → changes x change_db children info ≡ db_values children info
  db-section [] info = refl
  db-section (child ∷ children) info =
      db-section children (change_db child info)
      ∙ rw
          (
            last_value-cons x (text x) (codes "IP") child children info.ip,
            last_value-cons x (λ c. to_ushort (x.int_text c)) (codes "Port") child children
                info.port,
            last_value-cons x (text x) (codes "ID") child children info.id,
            last_value-cons x (text x) (codes "Password") child children info.password,
          )
          refl

  -- The same for the children of `AccountDB`.
  pub read_children-db :
      (children : List Element) (first : Option Element) (fuel : ℕ) (info : DbConnectionInfo)
      → IsSiblings x first children
      → length children ≤ fuel
      → read_children x (assign_db x) fuel first info
        ≡ some (
            outcome x (has_any db_lacks children) (db_values (before_first db_lacks children) info))
  read_children-db children first fuel info siblings enough =
      read_children-changes x (assign_db x) db_lacks change_db children first fuel info
        assign_db-changes siblings enough
      ∙ ap (λ v. some (outcome x (has_any db_lacks children) v))
          (db-section (before_first db_lacks children) info)
