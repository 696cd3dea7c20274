-- ===== src/Ledger/Model.antt =====
-- A table that meets the laws, to try the theorems at.
use autonomy_harbor.Base.{
  ◌≡◌, true, false, Option, none, some, List, [], ◌∷◌, ◌++◌, any, if◌then◌else◌, arith,
}
use autonomy_harbor.Ledger.{Row, Sqlite, clashes}

pub insert_table : Row → List Row → Option (List Row)
insert_table r rows = if any (clashes r) rows then none else some (rows ++ r ∷ [])

pub insert_table-fresh :
    (r : Row) (rows : List Row)
    → any (clashes r) rows ≡ false
    → insert_table r rows ≡ some (rows ++ r ∷ [])
unfolding insert_table
insert_table-fresh r rows h = ground arith

pub insert_table-clash :
    (r : Row) (rows : List Row) → any (clashes r) rows ≡ true → insert_table r rows ≡ none
unfolding insert_table
insert_table-clash r rows h = ground arith

instance unfoldable pub table : Sqlite
unfolding insert_table
table = record {
  insert_row = insert_table;
  insert_row-fresh = insert_table-fresh;
  insert_row-clash = insert_table-clash;
}
