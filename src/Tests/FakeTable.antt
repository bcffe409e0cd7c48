-- ===== src/Tests/FakeTable.antt =====
-- A table that is the list of its rows, on which no statement fails.
use fyredocs_backend.Prelude.{
  Bool, true, not, ◌≡◌, refl, List, [], ◌∷◌, map, filter, Elem, inl, inr, Bool-cases, if◌then◌else◌,
  ap,
}
use fyredocs_backend.Store.{Result, ok, err, not_found}
use fyredocs_backend.Store.Table.{Table, TableLaws}

module _ {Row : Type 0} where
  abbrev pub first_row : (Row → Bool) → List Row → Result Row
  first_row p [] = err not_found
  first_row p (r ∷ rs) = let rest = first_row p rs in if p r then ok r else rest

  abbrev pub list_table : Table (List Row) Row
  list_table = record {
    first = first_row;
    create = λ r s. (ok r, r ∷ s);
    update = λ p f s. (ok tt, map (λ r. if p r then f r else r) s);
    delete = λ p s. (ok (filter p s), filter (λ r. not (p r)) s);
  }

  first-ok :
      (p : Row → Bool) (s : List Row) (r : Row) → first_row p s ≡ ok r → (p r ≡ true) × Elem r s
  first-ok p [] r h = cc
  first-ok p (x ∷ xs) r h = elim (Bool-cases (p x)) [
    | inl e ↦ let h' = rw e at h in let same : x ≡ r = cc in (rw⁻¹ same e, inl (rw same refl))
    | inr e ↦ let (fits, there) = first-ok p xs r (rw e at h) in (fits, inr there)
  ]

  pub list-TableLaws : TableLaws list_table (λ s. s)
  list-TableLaws = record {
    first_ok = first-ok;
    create_ok = λ r r' s h. let same : r ≡ r' = cc in ap (λ x. x ∷ s) same;
    update_ok = λ p f s h. refl;
    delete_ok = λ p s gone h. (refl, cc);
  }

  -- What is there is found.
  pub list-finds :
      (p : Row → Bool) (r : Row) (s : List Row)
      → Elem r s
      → p r ≡ true
      → (r' : Row) × (first_row p s ≡ ok r')
  list-finds p r [] there fits = absurd there
  list-finds p r (x ∷ xs) (inl same) fits = let fits' = rw same at fits in (x, rw fits' refl)
  list-finds p r (x ∷ xs) (inr there) fits = elim (Bool-cases (p x)) [
    | inl e ↦ (x, rw e refl)
    | inr e ↦ let (r', found) = list-finds p r xs there fits in (r', rw e found)
  ]
