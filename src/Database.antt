-- ===== src/Database.antt =====
-- What the service relies on of its Postgres database, which is not code of the repository: tables
-- with a unique text column, as an interface, and lists that meet it.
use powabase_ai.Prelude.{
  ◌≡◌, refl, Option, none, some, List, [], ◌∷◌, String, arith, ◌=s◌, =s_iff, if◌then◌else◌,
}

-- A table of rows whose key column is UNIQUE.
pub record UniqueTable (Row : Type 0) (key : Row → String) : Type 1 where
  pub Table : Type 0
  pub no_rows : Table
  -- SELECT ... WHERE key = k
  pub select : Table → String → Option Row
  -- INSERT of a row whose key is free
  pub insert : Table → Row → Table
  -- DELETE ... WHERE key = k
  pub delete : Table → String → Table
  pub select-empty : (k : String) → select no_rows k ≡ none
  -- a row is found under its own key
  pub key-select : (t : Table) (k : String) (row : Row) → select t k ≡ some row → key row ≡ k
  pub select-insert :
      (t : Table) (row : Row) (k : String)
      → select t (key row) ≡ none
      → select (insert t row) k ≡ (if key row =s k then some row else select t k)
  pub select-delete :
      (t : Table) (k j : String) → select (delete t k) j ≡ (if k =s j then none else select t j)

module _ {Row : Type 0} (key : Row → String) where
  unfoldable pub row_with : List Row → String → Option Row
  row_with [] k = none
  row_with (row ∷ t) k = if key row =s k then some row else row_with t k

  unfoldable pub rows_without : List Row → String → List Row
  rows_without [] k = []
  rows_without (row ∷ t) k =
      let rest = rows_without t k in if key row =s k then rest else row ∷ rest

  pub key-row_with : (t : List Row) (k : String) (row : Row) → row_with t k ≡ some row → key row ≡ k
  unfolding row_with
  key-row_with [] k row h = cc
  key-row_with (r ∷ t) k row h = ground (arith, key-row_with t k row, =s_iff (key r) k)

  pub row_with-rows_without :
      (t : List Row) (k j : String)
      → row_with (rows_without t k) j ≡ (if k =s j then none else row_with t j)
  unfolding row_with rows_without
  row_with-rows_without [] k j = ground arith
  row_with-rows_without (r ∷ t) k j =
      ground (arith, row_with-rows_without t k j, =s_iff (key r) k, =s_iff (key r) j, =s_iff k j)

  abbrev pub list_table : UniqueTable Row key
  unfolding row_with
  list_table = record {
    Table = List Row;
    no_rows = [];
    select = row_with;
    insert = λ t row. row ∷ t;
    delete = rows_without;
    select-empty = λ k. refl;
    key-select = key-row_with;
    select-insert = λ t row k h. refl;
    select-delete = row_with-rows_without;
  }
