-- ===== src/Base/Lists.antt =====
-- Lists measured and cut by native numbers, under the library's names.
use Prim.Native.Nat.{ℕ, zero, suc, ◌+◌, ◌-◌, ◌≤◌}
use mathlib.Core.Path.{◌≡◌, refl, sym, ap, ◌∙◌, subst}
use mathlib.Core.Bool.{Bool, true, false, ◌&&◌}
use mathlib.Core.Option.{Option, none, some}
use mathlib.Core.List.{List, [], ◌∷◌, ◌++◌}
use native.Mathlib.Omega.{arith}
use pygt.Base.Tests.{nat_beq, if◌then◌else◌}

module _ {ℓ} {A : Type ℓ} where
  abbrev pub length : List A → ℕ
  length [] = 0
  length (x ∷ xs) = suc (length xs)

  abbrev pub get_elem? : List A → ℕ → Option A
  get_elem? [] i = none
  get_elem? (x ∷ xs) zero = some x
  get_elem? (x ∷ xs) (suc i) = get_elem? xs i

  -- `xs[:n]`
  abbrev pub take : ℕ → List A → List A
  take zero xs = []
  take (suc n) [] = []
  take (suc n) (x ∷ xs) = x ∷ take n xs

  -- `xs[n:]`
  abbrev pub drop : ℕ → List A → List A
  drop zero xs = xs
  drop (suc n) [] = []
  drop (suc n) (x ∷ xs) = drop n xs

  pub length-append : (xs ys : List A) → length (xs ++ ys) ≡ length xs + length ys
  length-append [] ys = omega arith
  length-append (x ∷ xs) ys = omega (arith, length-append xs ys)

  pub take-append : (xs ys : List A) → take (length xs) (xs ++ ys) ≡ xs
  take-append [] ys = refl
  take-append (x ∷ xs) ys = ap (λ l. x ∷ l) (take-append xs ys)

  drop-append : (xs ys : List A) → drop (length xs) (xs ++ ys) ≡ ys
  drop-append [] ys = refl
  drop-append (x ∷ xs) ys = drop-append xs ys

  pub take-append-drop : (n : ℕ) (xs : List A) → take n xs ++ drop n xs ≡ xs
  take-append-drop zero xs = refl
  take-append-drop (suc n) [] = refl
  take-append-drop (suc n) (x ∷ xs) = ap (λ l. x ∷ l) (take-append-drop n xs)

  pub length-take : (n : ℕ) (xs : List A) → n ≤ length xs → length (take n xs) ≡ n
  length-take zero xs h = refl
  length-take (suc n) [] h = absurd (omega arith)
  length-take (suc n) (x ∷ xs) h = ap suc (length-take n xs (omega arith))

  pub length-drop : (n : ℕ) (xs : List A) → length (drop n xs) ≡ length xs - n
  length-drop zero xs = omega arith
  length-drop (suc n) [] = omega arith
  length-drop (suc n) (x ∷ xs) = omega (arith, length-drop n xs)

  drop-nil : (n : ℕ) → drop n [] ≡ []
  drop-nil zero = refl
  drop-nil (suc n) = refl

  pub drop-drop : (n k : ℕ) (xs : List A) → drop k (drop n xs) ≡ drop (n + k) xs
  drop-drop zero k xs = ap (λ j. drop j xs) (omega arith)
  drop-drop (suc n) k [] = drop-nil k ∙ sym (drop-nil (suc n + k))
  drop-drop (suc n) k (x ∷ xs) =
      drop-drop n k xs ∙ ap (λ j. drop j (x ∷ xs)) {x = suc (n + k)} (omega arith)

  abbrev pub All {κ} : (A → Type κ) → List A → Type κ
  All P [] = Unit
  All P (x ∷ xs) = P x × All P xs

  pub All-get_elem {κ} :
      (P : A → Type κ) (xs : List A) (i : ℕ) {x : A} → All P xs → get_elem? xs i ≡ some x → P x
  All-get_elem P [] i h at = absurd (cc at)
  All-get_elem P (x ∷ xs) zero h at = subst P (cc at) h.0
  All-get_elem P (x ∷ xs) (suc i) h at = All-get_elem P xs i h.1 at

-- Python's `sum` of a list of numbers.
unfoldable pub sum : List ℕ → ℕ
sum [] = 0
sum (x ∷ xs) = x + sum xs

sum-append : (xs ys : List ℕ) → sum (xs ++ ys) ≡ sum xs + sum ys
unfolding sum
sum-append [] ys = omega arith
sum-append (x ∷ xs) ys = omega (arith, sum-append xs ys)

-- `text.startswith(prefix)`
abbrev pub starts_with : List ℕ → List ℕ → Bool
starts_with xs [] = true
starts_with [] (p ∷ ps) = false
starts_with (x ∷ xs) (p ∷ ps) = nat_beq x p && starts_with xs ps

pub starts_with-split : (xs ps : List ℕ) → starts_with xs ps ≡ true → xs ≡ ps ++ drop (length ps) xs
starts_with-split xs [] h = refl
starts_with-split [] (p ∷ ps) h = cc
starts_with-split (x ∷ xs) (p ∷ ps) h = ground (arith, starts_with-split xs ps)

pub starts_with-append : (ps xs : List ℕ) → starts_with (ps ++ xs) ps ≡ true
starts_with-append [] xs = refl
starts_with-append (p ∷ ps) xs = ground (arith, starts_with-append ps xs)

-- What is left of `text` behind `prefix`, if it begins so.
abbrev pub strip_prefix : List ℕ → List ℕ → Option (List ℕ)
strip_prefix [] xs = some xs
strip_prefix (p ∷ ps) [] = none
strip_prefix (p ∷ ps) (x ∷ xs) = if nat_beq x p then strip_prefix ps xs else none

-- `text.replace(pattern, "")`, for a pattern that is not empty; a match is taken from the left, and
-- `fuel` is the text's length or more.
unfoldable pub remove_all_fuel : ℕ → List ℕ → List ℕ → List ℕ
remove_all_fuel zero pattern xs = xs
remove_all_fuel (suc f) pattern [] = []
remove_all_fuel (suc f) pattern (x ∷ xs) = elim (strip_prefix pattern (x ∷ xs)) [
  | some rest ↦ remove_all_fuel f pattern rest
  | none ↦ x ∷ remove_all_fuel f pattern xs
]

unfoldable pub remove_all : List ℕ → List ℕ → List ℕ
unfolding remove_all_fuel
remove_all pattern xs = remove_all_fuel (length xs) pattern xs
