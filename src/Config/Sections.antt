-- ===== src/Config/Sections.antt =====
-- The loops over the children of a section against what the section says: for each name the last
-- child of this name counts.
use lhjsample.Common.{
  ℕ, zero, suc, ◌≤◌, ◌≡◌, refl, sym, ap, ◌∙◌, Bool, true, false, ◌&&◌, List, [], ◌∷◌, Option, none,
  some, if◌then◌else◌, eq_bytes, eq_bytes_iff, codes, length, arith, Bool-cases, inl, inr,
}
use lhjsample.Config.{
  ServerConnectionInfo, Xml, Result, returned, threw, get_text_fail, to_ushort, is_element_name,
  get_text, assign_text, assign_server, read_children,
}

ip_port : eq_bytes (codes "IP") (codes "Port") ≡ false
unfolding eq_bytes
ip_port = refl

-- The first part of a list, before the first element that the test finds, and whether there is one.
abbrev pub before_first {ℓ} : {A : Type ℓ} → (A → Bool) → List A → List A
before_first test [] = []
before_first test (a ∷ as_) = if test a then [] else a ∷ before_first test as_

abbrev pub has_any {ℓ} : {A : Type ℓ} → (A → Bool) → List A → Bool
has_any test [] = false
has_any test (a ∷ as_) = if test a then true else has_any test as_

module _ {Document Element : Type 0} (x : Xml Document Element) where
  -- The children from one on, as `NextSiblingElement` gives them.
  abbrev pub IsSiblings : Option Element → List Element → Type 0
  IsSiblings first [] = first ≡ none
  IsSiblings first (child ∷ children) =
      (first ≡ some child) × IsSiblings (x.next_sibling child) children

  -- The last child of a name.
  abbrev pub last_named : List ℕ → List Element → Option Element
  last_named name [] = none
  last_named name (child ∷ children) = elim (last_named name children) [
    | some later ↦ some later
    | none ↦ if eq_bytes (x.name child) name then some child else none
  ]

  abbrev pub last_value {ℓ} : {A : Type ℓ} → (Element → A) → List ℕ → List Element → A → A
  last_value value name children initial = elim (last_named name children) [
    | none ↦ initial
    | some child ↦ value child
  ]

  abbrev pub text : Element → List ℕ
  text child = elim (x.get_text child) [ none ↦ [] | some t ↦ t ]

  abbrev pub has_no_text : Element → Bool
  has_no_text child = elim (x.get_text child) [ none ↦ true | some t ↦ false ]

  pub last_value-cons {ℓ} :
      {A : Type ℓ} (value : Element → A) (name : List ℕ) (child : Element) (children : List Element)
      (initial : A)
      → last_value value name (child ∷ children) initial
        ≡ last_value value name children
            (if eq_bytes (x.name child) name then value child else initial)
  last_value-cons value name child children initial = ground arith

  abbrev pub changes : {A : Type 0} → (Element → A → A) → List Element → A → A
  changes change [] info = info
  changes change (child ∷ children) info = changes change children (change child info)

  abbrev pub outcome : {A : Type 0} → Bool → A → Result A
  outcome lack info = if lack then threw get_text_fail info else returned info

  -- A loop whose body changes the info by `change`, but throws at a child that lacks its text.
  module _ {A : Type 0} (body : Element → A → Result A) (lacks : Element → Bool)
      (change : Element → A → A) where
    pub read_children-changes :
        (children : List Element) (first : Option Element) (fuel : ℕ) (info : A)
        → ((child : Element) (a : A)
            → body child a
              ≡ (if lacks child then threw get_text_fail a else returned (change child a)))
        → IsSiblings first children
        → length children ≤ fuel
        → read_children x body fuel first info
          ≡ some
              (outcome (has_any lacks children) (changes change (before_first lacks children) info))
    unfolding read_children
    read_children-changes [] first fuel info each siblings enough = rw siblings refl
    read_children-changes (child ∷ children) first zero info each siblings enough =
        absurd (omega (arith, enough))
    read_children-changes (child ∷ children) first (suc fuel) info each (here, rest) enough =
        elim (Bool-cases (lacks child)) [
          | inl lack ↦ rw (here, read_children, each child info, lack) refl
          | inr has ↦
              let next =
                read_children-changes children (x.next_sibling child) fuel (change child info) each
                  rest (omega (arith, enough)) in
              rw (here, read_children, each child info, has) next
        ]

  -- A child without the text that it has to have.
  abbrev pub server_lacks : Element → Bool
  server_lacks child = eq_bytes (x.name child) (codes "IP") && has_no_text child

  -- What the children say.
  abbrev pub server_values : List Element → ServerConnectionInfo → ServerConnectionInfo
  server_values children info = record {
    ip = last_value text (codes "IP") children info.ip;
    port = last_value (λ child. to_ushort (x.int_text child)) (codes "Port") children info.port;
  }

  abbrev change_server : Element → ServerConnectionInfo → ServerConnectionInfo
  change_server child info = record {
    ip = if eq_bytes (x.name child) (codes "IP") then text child else info.ip;
    port =
        if eq_bytes (x.name child) (codes "Port") then to_ushort (x.int_text child) else info.port;
  }

  -- A name is not two names.
  pub one_name :
      (n a b : List ℕ) → eq_bytes a b ≡ false → eq_bytes n a ≡ true → eq_bytes n b ≡ false
  one_name n a b apart h = elim (Bool-cases (eq_bytes n b)) [
    | inl same ↦
        let one = sym ((eq_bytes_iff n a).0 h) ∙ (eq_bytes_iff n b).0 same in
        absurd (ground (arith, sym apart ∙ (eq_bytes_iff a b).1 one))
    | inr other ↦ other
  ]

  assign_server-changes :
      (child : Element) (info : ServerConnectionInfo)
      → assign_server x child info ≡ (
          if server_lacks child
          then threw get_text_fail info
          else returned (change_server child info))
  unfolding assign_server assign_text get_text is_element_name
  assign_server-changes child info =
      let apart = one_name (x.name child) (codes "IP") (codes "Port") ip_port in
      ground (arith, apart)

  server-section :
      (children : List Element) (info : ServerConnectionInfo)
      → changes change_server children info ≡ server_values children info
  server-section [] info = refl
  server-section (child ∷ children) info =
      server-section children (change_server child info)
      ∙ rw
          (
            last_value-cons text (codes "IP") child children info.ip,
            last_value-cons (λ c. to_ushort (x.int_text c)) (codes "Port") child children info.port,
          )
          refl

  -- The loop over the children of `ChatServer` or `RedisServer`, with fuel for each child, for each
  -- name takes the last child of this name among those before the first that lacks its text, and
  -- throws if there is such a child.
  pub read_children-server :
      (children : List Element) (first : Option Element) (fuel : ℕ) (info : ServerConnectionInfo)
      → IsSiblings first children
      → length children ≤ fuel
      → read_children x (assign_server x) fuel first info
        ≡ some (
            outcome
              (has_any server_lacks children)
              (server_values (before_first server_lacks children) info))
  read_children-server children first fuel info siblings enough =
      read_children-changes (assign_server x) server_lacks change_server children first fuel info
        assign_server-changes siblings enough
      ∙ ap (λ v. some (outcome (has_any server_lacks children) v))
          (server-section (before_first server_lacks children) info)
