-- ===== src/Prelude/Rows.antt =====
-- Tables as lists of rows, and the SQL statements that the queries are made of. A `WHERE` clause is
-- a Boolean test of a row.
use Prim.Native.Nat.{ℕ, suc}
use mathlib.Core.List.{List, [], ◌∷◌}
use mathlib.Core.Bool.{Bool}
use mathlib.Core.Option.{Option, none, some}
use testharness.Prelude.Tests.{if◌then◌else◌, leb}

module _ {ℓ} {A : Type ℓ} where
  -- SELECT * FROM rows WHERE p
  unfoldable pub select_where : (A → Bool) → List A → List A
  select_where p [] = []
  select_where p (r ∷ rows) = let rest = select_where p rows in if p r then r ∷ rest else rest

  -- SELECT * FROM rows WHERE p, `fetchone()`
  unfoldable pub select_one : (A → Bool) → List A → Option A
  select_one p [] = none
  select_one p (r ∷ rows) = let rest = select_one p rows in if p r then some r else rest

  -- UPDATE rows SET f WHERE p
  unfoldable pub update_where : (A → Bool) → (A → A) → List A → List A
  update_where p f [] = []
  update_where p f (r ∷ rows) = (if p r then f r else r) ∷ update_where p f rows

  -- the `rowcount` of an UPDATE or DELETE, and `SELECT COUNT(*)`
  unfoldable pub count_where : (A → Bool) → List A → ℕ
  count_where p [] = 0
  count_where p (r ∷ rows) = let rest = count_where p rows in if p r then suc rest else rest

  -- DELETE FROM rows WHERE p
  unfoldable pub delete_where : (A → Bool) → List A → List A
  delete_where p [] = []
  delete_where p (r ∷ rows) = let rest = delete_where p rows in if p r then rest else r ∷ rest

  unfoldable pub insert_by : (A → ℕ) → A → List A → List A
  insert_by key a [] = a ∷ []
  insert_by key a (r ∷ rows) =
      let rest = insert_by key a rows in if leb (key a) (key r) then a ∷ r ∷ rows else r ∷ rest

  -- ORDER BY key; rows of one key stay in the table's order
  unfoldable pub order_by : (A → ℕ) → List A → List A
  unfolding insert_by
  order_by key [] = []
  order_by key (r ∷ rows) = insert_by key r (order_by key rows)

  unfoldable pub insert_desc : (A → ℕ) → A → List A → List A
  insert_desc key a [] = a ∷ []
  insert_desc key a (r ∷ rows) =
      let rest = insert_desc key a rows in if leb (key r) (key a) then a ∷ r ∷ rows else r ∷ rest

  -- ORDER BY key DESC
  unfoldable pub order_desc : (A → ℕ) → List A → List A
  unfolding insert_desc
  order_desc key [] = []
  order_desc key (r ∷ rows) = insert_desc key r (order_desc key rows)

  -- The value of a column after an UPDATE that may leave it out.
  abbrev pub kept_or : Option A → A → A
  kept_or none column = column
  kept_or (some a) column = a
