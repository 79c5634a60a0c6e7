-- ===== src/Persistence/ReaderStore/Select.antt =====
-- Laws of the statements that read a table.
use transit_guard.Base.{◌≡◌, refl, ap, ◌∙◌, true, Bool, inl, inr, List, [], ◌∷◌, ◌++◌, arith}
use transit_guard.Base.Tests.{Bool-cases}
use transit_guard.Base.Int.{ℤ, ◌≤ℤ◌}
use transit_guard.Persistence.ReaderStore.{select_where, insert_by, order_by}

-- Every row has a property.
abbrev pub AllRows {ℓ} : {Row : Type ℓ} → (Row → Type 0) → List Row → Type 0
AllRows P [] = Unit
AllRows P (row ∷ rows) = P row × AllRows P rows

module _ {ℓ} {Row : Type ℓ} where
  pub AllRows-append :
      (P : Row → Type 0) (rows : List Row) (last : Row)
      → AllRows P rows
      → P last
      → AllRows P (rows ++ (last ∷ []))
  AllRows-append P [] last h p = (p, tt)
  AllRows-append P (row ∷ rows) last h p = (h.0, AllRows-append P rows last h.1 p)

  pub AllRows-map :
      (P Q : Row → Type 0)
      → ((row : Row) → P row → Q row)
      → (rows : List Row) → AllRows P rows
      → AllRows Q rows
  AllRows-map P Q f [] h = tt
  AllRows-map P Q f (row ∷ rows) h = (f row h.0, AllRows-map P Q f rows h.1)

  -- A selection has what its WHERE clause and the table give.
  pub select_where-AllRows :
      (where_clause : Row → Bool) (P : Row → Type 0) (rows : List Row)
      → AllRows (λ row. where_clause row ≡ true → P row) rows
      → AllRows P (select_where where_clause rows)
  unfolding select_where
  select_where-AllRows where_clause P [] h = tt
  select_where-AllRows where_clause P (row ∷ rows) h = elim (Bool-cases (where_clause row)) [
    | inl chosen ↦ rw chosen (h.0 chosen, select_where-AllRows where_clause P rows h.1)
    | inr other ↦ rw other (select_where-AllRows where_clause P rows h.1)
  ]

  -- A selected row that is appended comes last.
  pub select_where-append :
      (where_clause : Row → Bool) (rows : List Row) (last : Row)
      → where_clause last ≡ true
      → select_where where_clause (rows ++ (last ∷ []))
        ≡ select_where where_clause rows ++ (last ∷ [])
  unfolding select_where
  select_where-append where_clause [] last chosen = rw chosen
  select_where-append where_clause (row ∷ rows) last chosen =
      ground (arith, select_where-append where_clause rows last chosen)

  insert_by-append :
      (column : Row → ℤ) (row : Row) (rows : List Row) (last : Row)
      → column row ≤ℤ column last
      → insert_by column row (rows ++ (last ∷ [])) ≡ insert_by column row rows ++ (last ∷ [])
  unfolding insert_by
  insert_by-append column row [] last below = ground arith
  insert_by-append column row (other ∷ rows) last below =
      ground (arith, insert_by-append column row rows last below)

  -- A row that is appended comes last in the order of a column in which it is the greatest.
  pub order_by-append :
      (column : Row → ℤ) (rows : List Row) (last : Row)
      → AllRows (λ row. column row ≤ℤ column last) rows
      → order_by column (rows ++ (last ∷ [])) ≡ order_by column rows ++ (last ∷ [])
  unfolding order_by insert_by
  order_by-append column [] last below = refl
  order_by-append column (row ∷ rows) last below =
      ap (insert_by column row) (order_by-append column rows last below.1)
      ∙ insert_by-append column row (order_by column rows) last below.0
