-- ===== src/Ledger.antt =====
-- The one-shot ledgers: `ReplayLedger` of verifiable.py and `ExecutionPermitLedger` of appliance.py.
-- SQLite is a parameter, with what the two tables' PRIMARY KEY and UNIQUE promise as its laws. Its
-- other errors, on which `consume` rolls back and raises again, are left out.
pub mod OneShot
pub mod Model
use autonomy_harbor.Base.{
  ◌≡◌, String, Bool, true, false, ◌||◌, Option, none, some, List, [], ◌∷◌, ◌++◌, ◌==◌, any,
}

-- A row of `review_lease_use` or of `execution_permit_use`; `id` is the primary key.
pub record Row : Type 0 where
  pub id : String
  pub envelope_hash : String
  pub consumed_at : String

-- Whether a row has the key or the unique value of another.
abbrev pub clashes : Row → Row → Bool
clashes new old = old.id == new.id || old.envelope_hash == new.envelope_hash

pub record Sqlite : Type 0 where
  -- INSERT in a transaction; nothing where it raises `IntegrityError` and is rolled back
  pub insert_row : Row → List Row → Option (List Row)
  pub insert_row-fresh :
      (r : Row) (rows : List Row)
      → any (clashes r) rows ≡ false
      → insert_row r rows ≡ some (rows ++ r ∷ [])
  pub insert_row-clash :
      (r : Row) (rows : List Row) → any (clashes r) rows ≡ true → insert_row r rows ≡ none

-- `consume` after a COMMIT and after an `IntegrityError`
unfoldable pub committed : Option (List Row) → List Row → Bool × List Row
committed none rows = (false, rows)
committed (some rows') rows = (true, rows')

module _ ⦃q : Sqlite⦄ where
  -- `ReplayLedger.consume`
  unfoldable pub consume_lease : String → String → String → List Row → Bool × List Row
  consume_lease lease_id envelope_hash consumed_at rows =
      let row : Row = record {
        id = lease_id;
        envelope_hash = envelope_hash;
        consumed_at = consumed_at;
      } in
      committed (q.insert_row row rows) rows

  -- `ExecutionPermitLedger.consume`
  unfoldable pub consume_permit : String → String → String → List Row → Bool × List Row
  consume_permit permit_id envelope_hash consumed_at rows =
      let row : Row = record {
        id = permit_id;
        envelope_hash = envelope_hash;
        consumed_at = consumed_at;
      } in
      committed (q.insert_row row rows) rows
