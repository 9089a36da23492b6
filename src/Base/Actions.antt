-- ===== src/Base/Actions.antt =====
-- A call that changes a state and returns a value or raises; what was changed before the exception stays.
use mathlib.Core.Path.{◌≡◌, refl}
use mathlib.Core.Logic.{◌⊎◌, inl, inr}
use pygt.Base.Results.{Error, Result, ok, err}

abbrev pub Act {ℓ κ} : Type ℓ → Type κ → Type (ℓ ⊔ κ)
Act D A = D → Result A × D

abbrev pub pure {ℓ κ} : {D : Type ℓ} {A : Type κ} → A → Act D A
pure a d = (ok a, d)

-- A call that touches no state.
abbrev pub lift {ℓ κ} : {D : Type ℓ} {A : Type κ} → Result A → Act D A
lift r d = (r, d)

abbrev pub proceed {ℓ κ μ} :
    {D : Type ℓ} {A : Type κ} {B : Type μ} → Result A × D → (A → Act D B) → Result B × D
proceed (ok a, d) f = f a d
proceed (err e, d) f = (err e, d)

infixl 5 ◌>>>◌
abbrev pub ◌>>>◌ {ℓ κ μ} :
    {D : Type ℓ} {A : Type κ} {B : Type μ} → Act D A → (A → Act D B) → Act D B
(m >>> f) d = proceed (m d) f

-- A call that only changes the state.
abbrev pub update {ℓ} : {D : Type ℓ} → (D → D) → Act {ℓ, 0} D Unit
update f d = (ok tt, f d)

-- How a call ended.
pub Act-cases {ℓ κ} :
    {D : Type ℓ} {A : Type κ} (p : Result A × D)
    → ((a : A) × (d : D) × (p ≡ (ok a, d))) ⊎ ((e : Error) × (d : D) × (p ≡ (err e, d)))
Act-cases (ok a, d) = inl (a, d, refl)
Act-cases (err e, d) = inr (e, d, refl)
