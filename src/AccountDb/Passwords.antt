-- ===== src/AccountDb/Passwords.antt =====
-- Which passwords `SelectAccount` accepts.
use mathlib.Core.List.{Memᴰ}
use lhjsample.Common.{
  ℕ, suc, ◌%◌, map, ◌≤◌, ◌≡◌, refl, ap, true, false, List, [], ◌∷◌, arith, eq_bytes, eq_bytes_iff,
  length, length-take, Bool-cases, inl, inr,
}
use lhjsample.AccountDb.{Odbc, Truncates, fetch_password, select_account}

-- The wide characters as `char`.
abbrev narrow : List ℕ → List ℕ
narrow ws = map (λ c. c % 256) ws

length-narrow : (ws : List ℕ) → length (narrow ws) ≡ length ws
length-narrow [] = refl
length-narrow (w ∷ ws) = ap suc (length-narrow ws)

module _ {Db : Type 0} (o : Odbc Db) where
  fetch_password_sound :
      (pw : List ℕ) (rows : List (List ℕ))
      → fetch_password o pw rows ≡ true
      → (row : List ℕ) × Memᴰ row rows × (narrow (o.get_data row) ≡ pw)
  unfolding fetch_password
  fetch_password_sound pw [] h = cc
  fetch_password_sound pw (row ∷ rows) h =
      elim (Bool-cases (eq_bytes (narrow (o.get_data row)) pw)) [
        | inl same ↦ (row, Memᴰ.head refl, (eq_bytes_iff _ _).0 same)
        | inr other ↦
            let (found, m, e) = fetch_password_sound pw rows (rw other at h) in
            (found, Memᴰ.tail m, e)
      ]

  -- `SelectAccount` accepts only a password that is, after truncation by `SQLGetData` and narrowing, the third
  -- column of a row that the stored procedure returned for the id.
  pub select_account_sound :
      (id pw : List ℕ) (db : Db)
      → (select_account o id pw db).0 ≡ true
      → (row : List ℕ) × Memᴰ row (o.exec_select id db).1 × (narrow (o.get_data row) ≡ pw)
  unfolding select_account
  select_account_sound id pw db h = fetch_password_sound pw (o.exec_select id db).1 (ground arith)

  -- With a driver that truncates to the array of ten wide characters, no password of ten or more
  -- characters is ever accepted, though the packets carry passwords of `MAX_USER_PW_LEN`, ten.
  pub select_account-long_password :
      (id pw : List ℕ) (db : Db)
      → Truncates o
      → 10 ≤ length pw
      → (select_account o id pw db).0 ≡ false
  select_account-long_password id pw db t h = elim (Bool-cases (select_account o id pw db).0) [
    | inl accepted ↦
        let (row, m, e) = select_account_sound id pw db accepted in
        absurd (
          omega (
            arith,
            length-take 9 row,
            length-narrow (o.get_data row),
            ap length (t row),
            ap length e,
          ))
    | inr refused ↦ refused
  ]
