-- ===== src/Base/Machine.antt =====
-- An object under a sequence of `&mut self` calls, each of which may fail.
use mathlib.Core.Path.{◌≡◌, refl, ap, ◌∙◌}
use mathlib.Core.List.{List, [], ◌∷◌}
use transit_guard.Base.Result.{Mutation}

module _ {ℓ κ μ} {Op : Type ℓ} {S : Type κ} {E : Type μ} (step : Op → S → Mutation S E) where
  -- The object after the calls; a failed call leaves whatever it left.
  unfoldable pub run : List Op → S → S
  run [] s = s
  run (op ∷ ops) s = run ops (step op s).1

  -- What every call keeps, every sequence keeps.
  pub run_inv {ν} :
      (P : S → Type ν)
      → ((op : Op) (s : S) → P s → P (step op s).1)
      → (ops : List Op) (s : S) → P s
      → P (run ops s)
  unfolding run
  run_inv P keep [] s p = p
  run_inv P keep (op ∷ ops) s p = run_inv P keep ops (step op s).1 (keep op s p)

  -- An object that no call changes stays as it is.
  pub run_fixed : (ops : List Op) (s : S) → ((op : Op) → (step op s).1 ≡ s) → run ops s ≡ s
  unfolding run
  run_fixed [] s fixed = refl
  run_fixed (op ∷ ops) s fixed = ap (run ops) (fixed op) ∙ run_fixed ops s fixed
