-- ===== src/Store/Table.antt =====
-- A table of the database through gorm: the statements that the services send, and what they are
-- documented to do to the table's rows. Conditions are the Boolean tests of the `WHERE` clauses.
use fyredocs_backend.Prelude.{Bool, true, not, ◌≡◌, List, ◌∷◌, map, filter, Elem, if◌then◌else◌}
use fyredocs_backend.Store.Faults.{Result, ok}

-- `create` answers with the row as it is stored, `delete` with the rows that it has deleted.
pub record Table (S : Type 0) (Row : Type 0) : Type 0 where
  pub first : (Row → Bool) → S → Result Row
  pub create : Row → S → Result Row × S
  pub update : (Row → Bool) → (Row → Row) → S → Result (Unit {0}) × S
  pub delete : (Row → Bool) → S → Result (List Row) × S

pub record TableLaws {S Row : Type 0} (table : Table S Row) (rows : S → List Row) : Type 0 where
  pub first_ok :
      (p : Row → Bool) (s : S) (r : Row) → table.first p s ≡ ok r → (p r ≡ true) × Elem r (rows s)
  pub create_ok :
      (r r' : Row) (s : S) → (table.create r s).0 ≡ ok r' → rows (table.create r s).1 ≡ r' ∷ rows s
  pub update_ok :
      (p : Row → Bool) (f : Row → Row) (s : S)
      → (table.update p f s).0 ≡ ok tt
      → rows (table.update p f s).1 ≡ map (λ r. if p r then f r else r) (rows s)
  pub delete_ok :
      (p : Row → Bool) (s : S) (gone : List Row)
      → (table.delete p s).0 ≡ ok gone
      → (rows (table.delete p s).1 ≡ filter (λ r. not (p r)) (rows s)) × (gone ≡ filter p (rows s))
