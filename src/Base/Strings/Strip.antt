-- ===== src/Base/Strings/Strip.antt =====
-- What stripping leaves: about lstrip and rstrip, for any set of characters.
use Prim.Native.Nat.{ℕ, ◌≤◌}
use mathlib.Core.Path.{◌≡◌, refl, sym, ap, ◌∙◌}
use mathlib.Core.Logic.{◌≢◌, inl, inr}
use mathlib.Core.Bool.{Bool, true, false}
use mathlib.Core.List.{[], ◌∷◌, ◌++◌}
use native.Mathlib.Omega.{arith}
use pygt.Base.Tests.{Text, Bool-cases}
use pygt.Base.Lists.{length, All}
use pygt.Base.Strings.{is_empty, lstrip, rstrip, strip_of, is_space, strip}

-- A text that stripping leaves alone, by its two ends.
pub record IsTrim (test : ℕ → Bool) (s : Text) : Type 0 where
  pub left : lstrip test s ≡ s
  pub right : rstrip test s ≡ s

module _ (test : ℕ → Bool) where
  length-lstrip-le : (s : Text) → length (lstrip test s) ≤ length s
  unfolding lstrip
  length-lstrip-le [] = omega arith
  length-lstrip-le (c ∷ cs) = ground (arith, length-lstrip-le cs)

  length-rstrip-le : (s : Text) → length (rstrip test s) ≤ length s
  unfolding rstrip
  length-rstrip-le [] = omega arith
  length-rstrip-le (c ∷ cs) = ground (arith, length-rstrip-le cs)

  -- A text whose first character is kept.
  lstrip-cons : (c : ℕ) (cs : Text) → test c ≡ false → lstrip test (c ∷ cs) ≡ c ∷ cs
  unfolding lstrip
  lstrip-cons c cs h = rw h

  pub lstrip_head : (c : ℕ) (cs : Text) → lstrip test (c ∷ cs) ≡ c ∷ cs → test c ≡ false
  unfolding lstrip
  lstrip_head c cs h = elim (Bool-cases (test c)) [
    | inr kept ↦ kept
    | inl gone ↦
        let shorter : lstrip test cs ≡ c ∷ cs = sym (rw gone refl) ∙ h in
        absurd (omega (arith, length-lstrip-le cs, ap length shorter))
  ]

  pub lstrip-append : (s t : Text) → lstrip test s ≡ s → s ≢ [] → lstrip test (s ++ t) ≡ s ++ t
  lstrip-append [] t h ne = absurd (ne refl)
  lstrip-append (c ∷ cs) t h ne = lstrip-cons c (cs ++ t) (lstrip_head c cs h)

  -- What stands before a kept end is kept.
  pub rstrip-append : (s t : Text) → rstrip test t ≡ t → t ≢ [] → rstrip test (s ++ t) ≡ s ++ t
  unfolding rstrip is_empty
  rstrip-append [] t h ne = h
  rstrip-append (x ∷ []) [] h ne = absurd (ne refl)
  rstrip-append (x ∷ []) (y ∷ t) h ne = ground arith
  rstrip-append (x ∷ z ∷ s) t h ne = ground (arith, rstrip-append (z ∷ s) t h ne)

  pub rstrip-append_blank :
      (s : Text) (c : ℕ) → test c ≡ true → rstrip test (s ++ c ∷ []) ≡ rstrip test s
  unfolding rstrip is_empty
  rstrip-append_blank [] c h = rw h
  rstrip-append_blank (x ∷ xs) c h = ground (arith, rstrip-append_blank xs c h)

  pub rstrip_tail : (c : ℕ) (cs : Text) → rstrip test (c ∷ cs) ≡ c ∷ cs → rstrip test cs ≡ cs
  unfolding rstrip is_empty
  rstrip_tail c cs h = ground arith

  pub strip_of-IsTrim : {s : Text} → IsTrim test s → strip_of test s ≡ s
  unfolding strip_of
  strip_of-IsTrim t = rw t.left t.right

-- A text of which no character is taken away.
pub All-IsTrim : (test : ℕ → Bool) (s : Text) → All (λ c. test c ≡ false) s → IsTrim test s
unfolding lstrip rstrip
All-IsTrim test [] h = record { left = refl; right = refl }
All-IsTrim test (c ∷ cs) h = record {
  left = rw h.0;
  right = rw (h.0, (All-IsTrim test cs h.1).right);
}

-- A text between blanks.
pub strip_blanks : (s : Text) → IsTrim is_space s → s ≢ [] → strip (32 ∷ (s ++ 32 ∷ [])) ≡ s
unfolding strip strip_of lstrip
strip_blanks [] t ne = absurd (ne refl)
strip_blanks (c ∷ cs) t ne =
    let kept = lstrip_head is_space c cs t.left in
    rw kept (rstrip-append_blank is_space (c ∷ cs) 32 refl ∙ t.right)

pub strip_blank_right : (s : Text) → IsTrim is_space s → s ≢ [] → strip (s ++ 32 ∷ []) ≡ s
unfolding strip strip_of
strip_blank_right [] t ne = absurd (ne refl)
strip_blank_right (c ∷ cs) t ne =
    rw (lstrip-cons is_space c (cs ++ 32 ∷ []) (lstrip_head is_space c cs t.left))
      (rstrip-append_blank is_space (c ∷ cs) 32 refl ∙ t.right)

pub strip_blank_left : (s : Text) → IsTrim is_space s → strip (32 ∷ s) ≡ s
unfolding strip strip_of lstrip
strip_blank_left s t = rw t.left t.right
