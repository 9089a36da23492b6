-- ===== src/Base/Strings/Split.antt =====
-- What splitting finds in a text that is put together from pieces.
use Prim.Native.Nat.{ℕ}
use mathlib.Core.Path.{◌≡◌, refl}
use mathlib.Core.Bool.{false, ◌||◌}
use mathlib.Core.Option.{none, some}
use mathlib.Core.List.{[], ◌∷◌, ◌++◌}
use native.Mathlib.Omega.{arith}
use pygt.Base.Tests.{Text}
use pygt.Base.Strings.{contains, split_on, rsplit_on}

pub contains-append : (s t : Text) (c : ℕ) → contains (s ++ t) c ≡ (contains s c || contains t c)
unfolding contains
contains-append [] t c = refl
contains-append (x ∷ s) t c = ground (arith, contains-append s t c)

module _ (sep : ℕ) where
  pub split_on-append :
      (s t : Text) → contains s sep ≡ false → split_on sep (s ++ sep ∷ t) ≡ s ∷ split_on sep t
  unfolding split_on contains
  split_on-append [] t h = ground arith
  split_on-append (x ∷ s) t h = ground (arith, split_on-append s t)

  pub split_on_none : (s : Text) → contains s sep ≡ false → split_on sep s ≡ s ∷ []
  unfolding split_on contains
  split_on_none [] h = refl
  split_on_none (x ∷ s) h = ground (arith, split_on_none s)

  rsplit_on-none : (s : Text) → contains s sep ≡ false → rsplit_on sep s ≡ none
  unfolding rsplit_on contains
  rsplit_on-none [] h = refl
  rsplit_on-none (x ∷ s) h = ground (arith, rsplit_on-none s)

  pub rsplit_on-append :
      (s t : Text) → contains t sep ≡ false → rsplit_on sep (s ++ sep ∷ t) ≡ some (s, t)
  unfolding rsplit_on
  rsplit_on-append [] t h = ground (arith, rsplit_on-none t h)
  rsplit_on-append (x ∷ s) t h = rw (rsplit_on-append s t h)
