-- ===== src/Scripts/Converters/Shared.antt =====
-- scripts/spec-to-json.py: the name of the table that the blocks of a type share, and an independent description of it.
use pygt.Base.{
  ℕ, zero, suc, ◌≡◌, refl, sym, ap, ◌∙◌, subst, Text, text, none, some, List, [], ◌∷◌, ◌++◌, All,
  length, strip_prefix, nat_beq, nat_beq_iff, Bool-cases, inl, inr, Option-cases, arith,
}
use pygt.Base.Strings.{replace, replace_fuel}
use pygt.Scripts.Converters.{drop_instance, drop_instances, each_instance}

abbrev patch : Text
patch = text "Patch"

-- "Patch" stands nowhere in the text.
abbrev pub IsClear : Text → Type 0
IsClear [] = Unit
IsClear (c ∷ cs) = (strip_prefix (text "Patch") (c ∷ cs) ≡ none) × IsClear cs

strip_prefix-append : (p x s : Text) → strip_prefix p s ≡ none → strip_prefix (p ++ x) s ≡ none
strip_prefix-append [] x s h = cc
strip_prefix-append (c ∷ p) x [] h = refl
strip_prefix-append (c ∷ p) x (d ∷ s) h = ground (arith, strip_prefix-append p x s)

strip_prefix-IsClear : (p s rest : Text) → strip_prefix p s ≡ some rest → IsClear s → IsClear rest
strip_prefix-IsClear [] s rest h k = subst IsClear (cc h) k
strip_prefix-IsClear (c ∷ p) [] rest h k = cc
strip_prefix-IsClear (c ∷ p) (d ∷ s) rest h k = elim (Bool-cases (nat_beq d c)) [
  | inl same ↦ strip_prefix-IsClear p s rest (rw same at h) k.1
  | inr other ↦ absurd (cc (rw other at h))
]

module _ (f : ℕ) (pattern y : Text) (c : ℕ) (cs : Text) where
  replace_fuel-none :
      strip_prefix pattern (c ∷ cs) ≡ none
      → replace_fuel (suc f) pattern y (c ∷ cs) ≡ c ∷ replace_fuel f pattern y cs
  unfolding replace_fuel
  replace_fuel-none h = rw (h, replace_fuel) refl

  replace_fuel-some :
      {rest : Text}
      → strip_prefix pattern (c ∷ cs) ≡ some rest
      → replace_fuel (suc f) pattern y (c ∷ cs) ≡ y ++ replace_fuel f pattern y rest
  unfolding replace_fuel
  replace_fuel-some h = rw (h, replace_fuel) refl

replace_fuel-IsClear : (f : ℕ) (x y s : Text) → IsClear s → replace_fuel f (patch ++ x) y s ≡ s
replace_fuel-IsClear zero x y s h = (unfold replace_fuel in refl)
replace_fuel-IsClear (suc f) x y [] h = (unfold replace_fuel in refl)
replace_fuel-IsClear (suc f) x y (c ∷ cs) h =
    replace_fuel-none f (patch ++ x) y c cs (strip_prefix-append patch x (c ∷ cs) h.0)
    ∙ ap (λ l. c ∷ l) (replace_fuel-IsClear f x y cs h.1)

-- What one replacement does behind "Patch".
abbrev step : Text → Text → Text → Text
step effect i z = elim (strip_prefix (effect ++ i) z) [ some rest ↦ effect ++ rest | none ↦ z ]

step-none : (effect i z : Text) → strip_prefix (effect ++ i) z ≡ none → step effect i z ≡ z
step-none effect i z e = rw (e, step) refl

step-some :
    (effect i z rest : Text)
    → strip_prefix (effect ++ i) z ≡ some rest
    → step effect i z ≡ effect ++ rest
step-some effect i z rest e = rw (e, step) refl

drop_instance-IsClear : (effect i t : Text) → IsClear t → drop_instance effect i t ≡ t
unfolding drop_instance replace
drop_instance-IsClear effect i t h = replace_fuel-IsClear (length t) (effect ++ i) _ t h

drop_instance-step :
    (effect i z : Text) → IsClear z → drop_instance effect i (patch ++ z) ≡ patch ++ step effect i z
unfolding drop_instance replace
drop_instance-step effect i z h = elim (Option-cases (strip_prefix (effect ++ i) z)) [
  | inl e ↦
      replace_fuel-none (length (text "atch" ++ z)) (patch ++ (effect ++ i)) (patch ++ effect) b'P'
        (text "atch" ++ z) e
      ∙ ap (λ l. b'P' ∷ l)
          (replace_fuel-IsClear (length (text "atch" ++ z)) (effect ++ i) (patch ++ effect)
            (text "atch" ++ z) (refl, (refl, (refl, (refl, h)))))
      ∙ ap (λ l. patch ++ l) (sym (step-none effect i z e))
  | inr (rest, e) ↦
      replace_fuel-some (length (text "atch" ++ z)) (patch ++ (effect ++ i)) (patch ++ effect) b'P'
        (text "atch" ++ z) e
      ∙ ap (λ l. patch ++ (effect ++ l))
          (replace_fuel-IsClear (length (text "atch" ++ z)) (effect ++ i) (patch ++ effect) rest
            (strip_prefix-IsClear (effect ++ i) z rest e h))
      ∙ ap (λ l. patch ++ l) (sym (step-some effect i z rest e))
]

-- An effect whose name brings no "Patch" about.
abbrev pub Keeps : Text → Type 0
Keeps effect = (r : Text) → IsClear r → IsClear (effect ++ r)

step-IsClear : (effect i z : Text) → Keeps effect → IsClear z → IsClear (step effect i z)
step-IsClear effect i z keeps h = elim (Option-cases (strip_prefix (effect ++ i) z)) [
  | inl e ↦ subst IsClear (sym (step-none effect i z e)) h
  | inr (rest, e) ↦
      subst IsClear (sym (step-some effect i z rest e))
        (keeps rest (strip_prefix-IsClear (effect ++ i) z rest e h))
]

abbrev steps : List Text → Text → Text → Text
steps [] i z = z
steps (effect ∷ effects) i z = steps effects i (step effect i z)

abbrev pub each_steps : List Text → List Text → Text → Text
each_steps [] effects z = z
each_steps (i ∷ is) effects z = each_steps is effects (steps effects i z)

steps-IsClear :
    (effects : List Text) (i z : Text) → All Keeps effects → IsClear z → IsClear (steps effects i z)
steps-IsClear [] i z k h = h
steps-IsClear (effect ∷ effects) i z k h =
    steps-IsClear effects i (step effect i z) k.1 (step-IsClear effect i z k.0 h)

pub each_steps-IsClear :
    (is effects : List Text) (z : Text)
    → All Keeps effects
    → IsClear z
    → IsClear (each_steps is effects z)
each_steps-IsClear [] effects z k h = h
each_steps-IsClear (i ∷ is) effects z k h =
    each_steps-IsClear is effects (steps effects i z) k (steps-IsClear effects i z k h)

drop_instances-steps :
    (effects : List Text) (i z : Text)
    → All Keeps effects
    → IsClear z
    → drop_instances effects i (patch ++ z) ≡ patch ++ steps effects i z
unfolding drop_instances
drop_instances-steps [] i z k h = refl
drop_instances-steps (effect ∷ effects) i z k h =
    ap (drop_instances effects i) (drop_instance-step effect i z h)
    ∙ drop_instances-steps effects i (step effect i z) k.1 (step-IsClear effect i z k.0 h)

pub each_instance-steps :
    (is effects : List Text) (z : Text)
    → All Keeps effects
    → IsClear z
    → each_instance is effects (patch ++ z) ≡ patch ++ each_steps is effects z
unfolding each_instance
each_instance-steps [] effects z k h = refl
each_instance-steps (i ∷ is) effects z k h =
    ap (each_instance is effects) (drop_instances-steps effects i z k h)
    ∙ each_instance-steps is effects (steps effects i z) k (steps-IsClear effects i z k h)

steps-none :
    (effects : List Text) (i z : Text)
    → All (λ effect. strip_prefix (effect ++ i) z ≡ none) effects
    → steps effects i z ≡ z
steps-none [] i z h = refl
steps-none (effect ∷ effects) i z h =
    ap (steps effects i) (step-none effect i z h.0) ∙ steps-none effects i z h.1

pub each_steps-none :
    (is effects : List Text) (z : Text)
    → All (λ i. All (λ effect. strip_prefix (effect ++ i) z ≡ none) effects) is
    → each_steps is effects z ≡ z
each_steps-none [] effects z h = refl
each_steps-none (i ∷ is) effects z h =
    ap (each_steps is effects) (steps-none effects i z h.0) ∙ each_steps-none is effects z h.1

drop_instances-IsClear :
    (effects : List Text) (i t : Text) → IsClear t → drop_instances effects i t ≡ t
unfolding drop_instances
drop_instances-IsClear [] i t h = refl
drop_instances-IsClear (effect ∷ effects) i t h =
    ap (drop_instances effects i) (drop_instance-IsClear effect i t h)
    ∙ drop_instances-IsClear effects i t h

pub each_instance-IsClear :
    (is effects : List Text) (t : Text) → IsClear t → each_instance is effects t ≡ t
unfolding each_instance
each_instance-IsClear [] effects t h = refl
each_instance-IsClear (i ∷ is) effects t h =
    ap (each_instance is effects) (drop_instances-IsClear effects i t h)
    ∙ each_instance-IsClear is effects t h

strip_prefix_own : (p q s : Text) → strip_prefix (p ++ q) (p ++ (q ++ s)) ≡ some s
strip_prefix_own [] [] s = refl
strip_prefix_own [] (c ∷ q) s = rw ((nat_beq_iff c c).1 refl) (strip_prefix_own [] q s)
strip_prefix_own (c ∷ p) q s = rw ((nat_beq_iff c c).1 refl) (strip_prefix_own p q s)

pub steps-own :
    (before after : List Text) (effect i s : Text)
    → All (λ e. strip_prefix (e ++ i) (effect ++ (i ++ s)) ≡ none) before
    → All (λ e. strip_prefix (e ++ i) (effect ++ s) ≡ none) after
    → steps (before ++ effect ∷ after) i (effect ++ (i ++ s)) ≡ effect ++ s
steps-own [] after effect i s h k =
    ap (steps after i) (step-some effect i (effect ++ (i ++ s)) s (strip_prefix_own effect i s))
    ∙ steps-none after i (effect ++ s) k
steps-own (e ∷ before) after effect i s h k =
    ap (steps (before ++ effect ∷ after) i) (step-none e i (effect ++ (i ++ s)) h.0)
    ∙ steps-own before after effect i s h.1 k

-- Among the types, `effect` is told apart from the others by its name.
pub record IsOwn (effects : List Text) (effect : Text) : Type 0 where
  pub stays :
      (i r : Text)
      → strip_prefix i r ≡ none
      → All (λ e. strip_prefix (e ++ i) (effect ++ r) ≡ none) effects
  pub drops : (i s : Text) → steps effects i (effect ++ (i ++ s)) ≡ effect ++ s

each_steps-stays :
    (effects : List Text) (effect : Text)
    → IsOwn effects effect
    → (is : List Text) (r : Text) → All (λ i. strip_prefix i r ≡ none) is
    → each_steps is effects (effect ++ r) ≡ effect ++ r
each_steps-stays effects effect own [] r h = refl
each_steps-stays effects effect own (i ∷ is) r h =
    ap (each_steps is effects) (steps-none effects i (effect ++ r) (own.stays i r h.0))
    ∙ each_steps-stays effects effect own is r h.1

-- Of the numbers, the one behind the name of the type is dropped, when none stands behind it.
pub each_steps-own :
    (effects : List Text) (effect : Text)
    → IsOwn effects effect
    → (before after : List Text) (i s : Text) → All (λ j. strip_prefix j (i ++ s) ≡ none) before
    → All (λ j. strip_prefix j s ≡ none) after
    → each_steps (before ++ i ∷ after) effects (effect ++ (i ++ s)) ≡ effect ++ s
each_steps-own effects effect own [] after i s h k =
    ap (each_steps after effects) (own.drops i s) ∙ each_steps-stays effects effect own after s k
each_steps-own effects effect own (j ∷ before) after i s h k =
    ap (each_steps (before ++ i ∷ after) effects)
      (steps-none effects j (effect ++ (i ++ s)) (own.stays j (i ++ s) h.0))
    ∙ each_steps-own effects effect own before after i s h.1 k
