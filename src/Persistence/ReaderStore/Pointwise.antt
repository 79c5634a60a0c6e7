-- ===== src/Persistence/ReaderStore/Pointwise.antt =====
-- A relation between the rows of a table before and after some statements.
use transit_guard.Base.{◌≡◌, true, Bool, List, [], ◌∷◌, inl, inr}
use transit_guard.Base.Tests.{Bool-cases}
use transit_guard.Persistence.ReaderStore.{update_where}

-- The tables have the same rows, in the same order, each related to the row that it was.
abbrev pub Pointwise {ℓ} : {Row : Type ℓ} → (Row → Row → Type 0) → List Row → List Row → Type 0
Pointwise R [] [] = Unit
Pointwise R [] (new ∷ news) = ⊥
Pointwise R (old ∷ olds) [] = ⊥
Pointwise R (old ∷ olds) (new ∷ news) = R old new × Pointwise R olds news

module _ {ℓ} {Row : Type ℓ} (R : Row → Row → Type 0) (same : (row : Row) → R row row) where
  pub Pointwise-refl : (rows : List Row) → Pointwise R rows rows
  Pointwise-refl [] = tt
  Pointwise-refl (row ∷ rows) = (same row, Pointwise-refl rows)

  pub Pointwise-trans :
      ((a b c : Row) → R a b → R b c → R a c)
      → (us vs ws : List Row) → Pointwise R us vs
      → Pointwise R vs ws
      → Pointwise R us ws
  Pointwise-trans trans [] [] [] h k = tt
  Pointwise-trans trans [] [] (c ∷ ws) h k = elim k [ ]
  Pointwise-trans trans [] (b ∷ vs) ws h k = elim h [ ]
  Pointwise-trans trans (a ∷ us) [] ws h k = elim h [ ]
  Pointwise-trans trans (a ∷ us) (b ∷ vs) [] h k = elim k [ ]
  Pointwise-trans trans (a ∷ us) (b ∷ vs) (c ∷ ws) h k =
      (trans a b c h.0 k.0, Pointwise-trans trans us vs ws h.1 k.1)

  -- An UPDATE relates the rows that its WHERE clause selects by its assignment, and no others.
  pub update_where-Pointwise :
      (where_clause : Row → Bool) (assign : Row → Row)
      → ((row : Row) → where_clause row ≡ true → R row (assign row))
      → (rows : List Row) → Pointwise R rows (update_where where_clause assign rows)
  unfolding update_where
  update_where-Pointwise where_clause assign moves [] = tt
  update_where-Pointwise where_clause assign moves (row ∷ rows) =
      elim (Bool-cases (where_clause row)) [
        | inl chosen ↦
            rw chosen (moves row chosen, update_where-Pointwise where_clause assign moves rows)
        | inr other ↦ rw other (same row, update_where-Pointwise where_clause assign moves rows)
      ]
