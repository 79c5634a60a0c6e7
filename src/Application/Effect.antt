-- ===== src/Application/Effect.antt =====
-- The control flow of the use cases: `?` on a port's result, and `rollback_with` of
-- crates/application/src/use_cases/support.rs.
use transit_guard.Base.{Bool, true, false, Option, some, none}
use transit_guard.Base.Result.{Result, ok, err, map_err}
use transit_guard.Application.Ports.{Ports, Port, ApplicationError, RepositoryError}

-- A computation of a use case on the world.
abbrev pub App {ℓ κ} : Type ℓ → Type κ → Type (ℓ ⊔ κ)
App W T = Port W T ApplicationError

-- `?`: an error ends the use case.
abbrev pub proceed {ℓ κ μ} :
    {W : Type ℓ} {T : Type κ} {U : Type μ}
    → Result T ApplicationError × W
    → (T → App W U)
    → Result U ApplicationError × W
proceed (ok value, w) rest = rest value w
proceed (err e, w) rest = (err e, w)

infixl 5 ◌>>=◌ ◌>>◌
unfoldable pub ◌>>=◌ {ℓ κ μ} :
    {W : Type ℓ} {T : Type κ} {U : Type μ} → App W T → (T → App W U) → App W U
first >>= rest = λ w. proceed (first w) rest

abbrev pub ◌>>◌ {ℓ κ} : {W : Type ℓ} {U : Type κ} → App W (Unit {0}) → App W U → App W U
first >> rest = first >>= λ done. rest

abbrev pub return {ℓ κ} : {W : Type ℓ} {T : Type κ} → T → App W T
return value w = (ok value, w)

abbrev pub pure_result {ℓ κ} : {W : Type ℓ} {T : Type κ} → Result T ApplicationError → App W T
pure_result r w = (r, w)

-- The `From` conversion of a port's error.
unfoldable pub lift {ℓ κ μ} :
    {W : Type ℓ} {T : Type κ} {E : Type μ} → (E → ApplicationError) → Port W T E → App W T
lift convert port w = (map_err convert (port w).0, (port w).1)

abbrev pub query {ℓ κ} : {W : Type ℓ} {T : Type κ} → Port W T RepositoryError → App W T
query = lift ApplicationError.repository

-- A generator does not fail.
unfoldable pub draw {ℓ κ} : {W : Type ℓ} {T : Type κ} → (W → T × W) → App W T
draw generate w = (ok (generate w).0, (generate w).1)

abbrev pub rolled_back {ℓ κ} :
    {W : Type ℓ} {T : Type κ}
    → ApplicationError
    → Result (Unit {0}) RepositoryError × W
    → Result T ApplicationError × W
rolled_back original_error (ok _, w) = (err original_error, w)
rolled_back original_error (err rollback_error, w) =
    (err (ApplicationError.repository rollback_error), w)

unfoldable pub rollback_with {ℓ κ} :
    {W : Type ℓ} {T : Type κ} → Ports W → ApplicationError → App W T
rollback_with ports original_error w = rolled_back original_error (ports.rollback w)

abbrev pub recovered {ℓ κ} :
    {W : Type ℓ} {T : Type κ}
    → Ports W
    → Result T ApplicationError × W
    → Result T ApplicationError × W
recovered ports (ok value, w) = (ok value, w)
recovered ports (err e, w) = rollback_with ports e w

-- `match … { Ok(value) => value, Err(error) => return rollback_with(transaction, error.into()) }`.
unfoldable pub or_rollback {ℓ κ} : {W : Type ℓ} {T : Type κ} → Ports W → App W T → App W T
or_rollback ports first w = recovered ports (first w)

-- `match … { Some(value) => value, None => return rollback_with(transaction, error) }`.
abbrev pub require {ℓ κ} :
    {W : Type ℓ} {T : Type κ} → Ports W → ApplicationError → Option T → App W T
require ports error (some value) = return value
require ports error none = rollback_with ports error

-- `if !condition { return rollback_with(transaction, error) }`.
abbrev pub ensure {ℓ} : {W : Type ℓ} → Ports W → ApplicationError → Bool → App W (Unit {0})
ensure ports error true = return tt
ensure ports error false = rollback_with ports error
