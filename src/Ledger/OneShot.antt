-- ===== src/Ledger/OneShot.antt =====
-- A ledger accepts an id at most once, in whatever order the ids come.
use autonomy_harbor.Base.{
  ℕ, suc, ◌≤◌, ◌≡◌, refl, String, Bool, true, false, ◌||◌, List, [], ◌∷◌, ◌++◌, ◌==◌, any, arith,
  Bool-cases, eq_iff, inl, inr, ◌⊎◌, if◌then◌else◌,
}
use autonomy_harbor.Ledger.{Row, Sqlite, clashes, consume_lease, committed}

module _ ⦃q : Sqlite⦄ where
  -- the id of a row is taken
  abbrev holds : String → List Row → Bool
  holds id rows = any (λ row. row.id == id) rows

  any-clashes-holds :
      (r : Row) (rows : List Row) → holds r.id rows ≡ true → any (clashes r) rows ≡ true
  any-clashes-holds r [] h = h
  any-clashes-holds r (row ∷ rows) h = ground (arith, any-clashes-holds r rows)

  holds-append :
      (id : String) (rows : List Row) (r : Row)
      → holds id (rows ++ r ∷ []) ≡ (holds id rows || r.id == id)
  holds-append id [] r = ground arith
  holds-append id (row ∷ rows) r = ground (arith, holds-append id rows r)

  -- A call is accepted exactly when no row has its id or its digest; then its row is added.
  pub consume-cases :
      (r : Row) (rows : List Row)
      → ((any (clashes r) rows ≡ false)
          × (committed (q.insert_row r rows) rows ≡ (true, rows ++ r ∷ [])))
        ⊎ ((any (clashes r) rows ≡ true) × (committed (q.insert_row r rows) rows ≡ (false, rows)))
  unfolding committed
  consume-cases r rows = elim (Bool-cases (any (clashes r) rows)) [
    | inl taken ↦ inr (taken, rw (q.insert_row-clash r rows taken) refl)
    | inr free ↦ inl (free, rw (q.insert_row-fresh r rows free) refl)
  ]

  -- the answers to a sequence of calls, and the rows after it
  unfoldable pub consume_all : List Row → List Row → List Bool × List Row
  unfolding consume_lease
  consume_all [] rows = ([], rows)
  consume_all (r ∷ rs) rows =
      let (accepted, rows') = consume_lease r.id r.envelope_hash r.consumed_at rows in
      let (answers, rows'') = consume_all rs rows' in (accepted ∷ answers, rows'')

  abbrev pub accepted_of : String → List Row → List Bool → ℕ
  accepted_of id (r ∷ rs) (true ∷ answers) =
      let rest = accepted_of id rs answers in if r.id == id then suc rest else rest
  accepted_of id (r ∷ rs) (false ∷ answers) = accepted_of id rs answers
  accepted_of id _ _ = 0

  -- what a sequence of calls gets, from rows that hold the id or not
  accepted_of-consume_all :
      (id : String) (rs rows : List Row)
      → ((holds id rows ≡ true) × (accepted_of id rs (consume_all rs rows).0 ≡ 0))
        ⊎ ((holds id rows ≡ false) × (accepted_of id rs (consume_all rs rows).0 ≤ 1))
  unfolding consume_all consume_lease
  accepted_of-consume_all id [] rows = ground arith
  accepted_of-consume_all id (r ∷ rs) rows = elim (consume-cases r rows) [
    | inr (taken, e) ↦ rw (e) (accepted_of-consume_all id rs rows)
    | inl (free, e) ↦ rw (e) (
        ground (
          arith,
          accepted_of-consume_all id rs (rows ++ r ∷ []),
          holds-append id rows r,
          any-clashes-holds r rows,
          eq_iff r.id id,
        ))
  ]

  -- Of any sequence of uses of signed leases, from any rows of the replay ledger, at most one
  -- with a given lease id is accepted, and none if a row already has that id.
  pub consume_lease_once :
      (id : String) (rs rows : List Row)
      → (accepted_of id rs (consume_all rs rows).0 ≤ 1)
        × (any (λ row. row.id == id) rows ≡ true → accepted_of id rs (consume_all rs rows).0 ≡ 0)
  consume_lease_once id rs rows = ground (arith, accepted_of-consume_all id rs rows)
