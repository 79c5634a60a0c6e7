-- ===== src/Base/Result.antt =====
-- Rust's `Result<T, E>`: the `?` operator is bind, `map_err` and the `From` conversions of an
-- error act on the error side.
use mathlib.Core.Path.{◌≡◌, refl}
use mathlib.Core.Logic.{◌⊎◌, inl, inr}
use mathlib.Core.Option.{Option, none, some}

pub data Result {ℓ κ} (T : Type ℓ) (E : Type κ) : Type (ℓ ⊔ κ) where
  ok : T → Result T E
  err : E → Result T E

-- What a `&mut self` method of Rust leaves: its result, and the object after the call.
abbrev pub Mutation {ℓ κ} : Type ℓ → Type κ → Type (ℓ ⊔ κ)
Mutation S E = Result (Unit {0}) E × S

-- `Option::ok_or`.
abbrev pub ok_or {ℓ κ} : {T : Type ℓ} {E : Type κ} → Option T → E → Result T E
ok_or (some value) _ = ok value
ok_or none e = err e

abbrev pub map_err {ℓ κ μ} :
    {T : Type ℓ} {E : Type κ} {F : Type μ} → (E → F) → Result T E → Result T F
map_err convert (err e) = err (convert e)
map_err convert (ok value) = ok value

infixl 5 ◌>>=◌ ◌>>◌
abbrev pub ◌>>=◌ {ℓ κ μ} :
    {T : Type ℓ} {U : Type κ} {E : Type μ} → Result T E → (T → Result U E) → Result U E
err e >>= rest = err e
ok value >>= rest = rest value

abbrev pub ◌>>◌ {ℓ κ} : {U : Type ℓ} {E : Type κ} → Result (Unit {0}) E → Result U E → Result U E
check >> rest = check >>= λ done. rest

-- To split on the outcome of a call and keep the equation.
pub Result-cases {ℓ κ} :
    {A : Type ℓ} {E : Type κ} (r : Result A E) → ((a : A) × (r ≡ ok a)) ⊎ ((e : E) × (r ≡ err e))
Result-cases (ok a) = inl (a, refl)
Result-cases (err e) = inr (e, refl)

-- A successful chain is a successful first step and a successful rest.
pub >>=-eq-ok {ℓ κ μ} :
    {T : Type ℓ} {U : Type κ} {E : Type μ} (first : Result T E) (rest : T → Result U E) {last : U}
    → first >>= rest ≡ ok last
    → (value : T) × (first ≡ ok value) × (rest value ≡ ok last)
>>=-eq-ok (err failed) rest chain = cc
>>=-eq-ok (ok value) rest chain = (value, refl, chain)

pub map_err-eq-ok {ℓ κ μ} :
    {A : Type ℓ} {E : Type κ} {F : Type μ} (f : E → F) (r : Result A E) {a : A}
    → map_err f r ≡ ok a
    → r ≡ ok a
map_err-eq-ok f (ok a) h = cc
map_err-eq-ok f (err e) h = cc

pub ok-injective {ℓ κ} :
    {A : Type ℓ} {E : Type κ} {a b : A} → ◌≡◌ {A = Result A E} (ok a) (ok b) → a ≡ b
ok-injective h = cc

pub ok_or-eq-ok {ℓ κ} :
    {A : Type ℓ} {E : Type κ} (o : Option A) (e : E) {a : A} → ok_or o e ≡ ok a → o ≡ some a
ok_or-eq-ok none e h = cc
ok_or-eq-ok (some a) e h = cc
