-- ===== src/Base/Keyed.antt =====
-- A dict that is made of a list of things, each with a key.
use mathlib.Core.Path.{◌≡◌, refl, subst, ◌∙◌}
use mathlib.Core.Bool.{false}
use mathlib.Core.Option.{some}
use mathlib.Core.List.{List, [], ◌∷◌, ◌++◌}
use Prim.Native.Nat.{ℕ, zero, suc}
use pygt.Base.Tests.{Eq, ◌==◌}
use pygt.Base.Lists.{All, All-get_elem, get_elem?}
use pygt.Base.Dict.{Dict, get, has, has-append}

module _ {ℓ κ} {A : Type ℓ} {K : Type κ} ⦃e : Eq K⦄ (key : A → K) where
  -- No two of them have the same key.
  abbrev pub DistinctBy : List A → Type 0
  DistinctBy [] = Unit
  DistinctBy (x ∷ xs) = All (λ y. (key x == key y) ≡ false) xs × DistinctBy xs

  module _ {μ} {V : Type μ} (value : A → V) where
    abbrev pub dict_of : List A → Dict K V
    dict_of [] = []
    dict_of (x ∷ xs) = (key x, value x) ∷ dict_of xs

    -- Each of them is found under its key.
    pub get-dict_of :
        (xs : List A) (i : ℕ) {x : A}
        → DistinctBy xs
        → get_elem? xs i ≡ some x
        → get (dict_of xs) (key x) ≡ some (value x)
    unfolding get
    get-dict_of [] i d at = absurd (cc at)
    get-dict_of (y ∷ xs) zero {x} d at =
        let same : y ≡ x = cc at in
        subst (λ z. get (dict_of (y ∷ xs)) (key z) ≡ some (value z)) same
          (rw ((e.beq_iff (key y) (key y)).1 refl) refl)
    get-dict_of (y ∷ xs) (suc i) d at =
        rw (All-get_elem (λ z. (key y == key z) ≡ false) xs i d.0 at) (get-dict_of xs i d.1 at)

  module _ {μ} {V : Type μ} where
    -- None of them is in a dict that has got one of another key.
    pub fresh_after :
        (d : Dict K V) (k : K) (v : V) (xs : List A)
        → All (λ y. has d (key y) ≡ false) xs
        → All (λ y. (k == key y) ≡ false) xs
        → All (λ y. has (d ++ (k, v) ∷ []) (key y) ≡ false) xs
    unfolding has
    fresh_after d k v [] h n = tt
    fresh_after d k v (y ∷ xs) h n = (
      has-append d ((k, v) ∷ []) (key y) ∙ rw (h.0, has) (rw n.0 refl),
      fresh_after d k v xs h.1 n.1,
    )

  pub All-fresh {μ} : (V : Type μ) (xs : List A) → All (λ y. has {V = V} [] (key y) ≡ false) xs
  unfolding has
  All-fresh V [] = tt
  All-fresh V (x ∷ xs) = (refl, All-fresh V xs)
