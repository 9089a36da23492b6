-- ===== src/Scripts/Tables/Families.antt =====
-- The name that the tables of one family share: `PatchDelay1`, `PatchDelay2`, ... are `PatchDelay`.
use mathlib.Core.List.{reverse, reverse-append, reverse-cons, reverse-reverse}
use pygt.Base.{
  ℕ, zero, suc, ◌+◌, ◌≡◌, refl, sym, ap, ◌∙◌, Text, Bool, true, false, ◌&&◌, List, [], ◌∷◌, ◌++◌,
  map, length, length-append, starts_with, starts_with-append, ltb, nat_beq, if◌then◌else◌, arith,
  append_assoc, Bool-cases, inl, inr,
}
use pygt.Scripts.Tables.Canonical.{
  drop_last, shorten_prefix, drop_first, shorten_suffix, common_prefix, common_suffix, least_length,
  canonical_name,
}

-- The longest common prefix of two texts.
abbrev pub shared : Text → Text → Text
shared [] n = []
shared (c ∷ cs) [] = []
shared (c ∷ cs) (m ∷ ms) = if nat_beq m c then c ∷ shared cs ms else []

shared_whole : (x n : Text) → starts_with n x ≡ true → shared x n ≡ x
shared_whole [] n h = refl
shared_whole (c ∷ cs) [] h = cc
shared_whole (c ∷ cs) (m ∷ ms) h = ground (arith, shared_whole cs ms)

shared-drop_last : (x n : Text) → starts_with n x ≡ false → shared (drop_last x) n ≡ shared x n
unfolding drop_last
shared-drop_last [] n h = cc
shared-drop_last (c ∷ []) [] h = refl
shared-drop_last (c ∷ []) (m ∷ ms) h = ground arith
shared-drop_last (c ∷ d ∷ cs) [] h = refl
shared-drop_last (c ∷ d ∷ cs) (m ∷ ms) h = ground (arith, shared-drop_last (d ∷ cs) ms)

length-drop_last : (c : ℕ) (cs : Text) → length (drop_last (c ∷ cs)) ≡ length cs
unfolding drop_last
length-drop_last c [] = refl
length-drop_last c (d ∷ cs) = ap suc (length-drop_last d cs)

-- The loop finds it.
shorten_prefix-shared : (f : ℕ) (n x : Text) → length x ≡ f → shorten_prefix f n x ≡ shared x n
unfolding shorten_prefix
shorten_prefix-shared zero n [] h = refl
shorten_prefix-shared zero n (c ∷ cs) h = absurd (omega (arith, h))
shorten_prefix-shared (suc f) n [] h = absurd (omega (arith, h))
shorten_prefix-shared (suc f) n (c ∷ cs) h = elim (Bool-cases (starts_with n (c ∷ cs))) [
  | inl whole ↦ rw (whole, shorten_prefix) (sym (shared_whole (c ∷ cs) n whole))
  | inr less ↦
      rw (less, shorten_prefix)
        (shorten_prefix-shared f n (drop_last (c ∷ cs)) (omega (arith, length-drop_last c cs))
          ∙ shared-drop_last (c ∷ cs) n less)
]

drop_last-snoc : (s : Text) (c : ℕ) → drop_last (s ++ c ∷ []) ≡ s
unfolding drop_last
drop_last-snoc [] c = refl
drop_last-snoc (a ∷ []) c = refl
drop_last-snoc (a ∷ b ∷ s) c = ap (λ t. a ∷ t) (drop_last-snoc (b ∷ s) c)

reverse-drop_first : (x : Text) → reverse (drop_first x) ≡ drop_last (reverse x)
unfolding drop_first
reverse-drop_first [] = (unfold drop_last in refl)
reverse-drop_first (c ∷ cs) =
    sym (drop_last-snoc (reverse cs) c) ∙ ap drop_last (sym (reverse-cons c cs))

-- The suffix is the prefix of the names read backwards.
length-reverse : (x : Text) → length (reverse x) ≡ length x
length-reverse [] = refl
length-reverse (c ∷ cs) =
    ap length (reverse-cons c cs)
    ∙ omega (arith, length-append (reverse cs) (c ∷ []), length-reverse cs)

starts_with_self : (s : Text) → starts_with s s ≡ true
starts_with_self [] = refl
starts_with_self (c ∷ s) = ground (arith, starts_with_self s)

shorten_suffix-shorten_prefix :
    (f : ℕ) (n x : Text) → shorten_suffix f n x ≡ reverse (shorten_prefix f (reverse n) (reverse x))
unfolding shorten_suffix shorten_prefix
shorten_suffix-shorten_prefix zero n x = sym (reverse-reverse x)
shorten_suffix-shorten_prefix (suc f) n x =
    elim (Bool-cases (starts_with (reverse n) (reverse x))) [
      | inl whole ↦ rw (whole, shorten_suffix, shorten_prefix) (sym (reverse-reverse x))
      | inr less ↦
          rw (less, shorten_suffix, shorten_prefix)
            (shorten_suffix-shorten_prefix f n (drop_first x)
              ∙ ap (λ t. reverse (shorten_prefix f (reverse n) t)) (reverse-drop_first x))
    ]

-- The names of a family differ in one character, behind `p` and before `s`.
shared_family :
    (p s : Text) (c d : ℕ)
    → shared (p ++ c ∷ s) (p ++ d ∷ s) ≡ (if nat_beq d c then p ++ c ∷ s else p)
shared_family [] s c d = elim (Bool-cases (nat_beq d c)) [
  | inl same ↦ rw same (ap (λ t. c ∷ t) (shared_whole s s (starts_with_self s)))
  | inr other ↦ rw other
]
shared_family (a ∷ p) s c d = ground (arith, shared_family p s c d)

shared-family_prefix : (p t : Text) → shared p (p ++ t) ≡ p
shared-family_prefix p t = shared_whole p (p ++ t) (starts_with-append p t)

abbrev same : ℕ → List ℕ → Bool
same c [] = true
same c (d ∷ ds) = nat_beq d c && same c ds

abbrev pub family : Text → Text → List ℕ → List Text
family p s ds = map (λ d. p ++ d ∷ s) ds

module _ (p s : Text) where
  prefix_step :
      (x : Text) (d : ℕ) (ds : List ℕ)
      → common_prefix x (family p s (d ∷ ds))
        ≡ common_prefix (shared x (p ++ d ∷ s)) (family p s ds)
  unfolding common_prefix
  prefix_step x d ds =
      ap (λ t. common_prefix t (family p s ds))
        (shorten_prefix-shared (length x) (p ++ d ∷ s) x refl)

  prefix_kept : (ds : List ℕ) → common_prefix p (family p s ds) ≡ p
  prefix_kept [] = unfold common_prefix in refl
  prefix_kept (d ∷ ds) =
      prefix_step p d ds
      ∙ ap (λ t. common_prefix t (family p s ds)) (shared-family_prefix p (d ∷ s))
      ∙ prefix_kept ds

  prefix_family :
      (c : ℕ) (ds : List ℕ) → same c ds ≡ false → common_prefix (p ++ c ∷ s) (family p s ds) ≡ p
  prefix_family c [] h = cc
  prefix_family c (d ∷ ds) h = prefix_step (p ++ c ∷ s) d ds ∙ elim (Bool-cases (nat_beq d c)) [
    | inl equal ↦ rw (shared_family p s c d, equal) (prefix_family c ds (ground arith))
    | inr other ↦ rw (shared_family p s c d, other) (prefix_kept ds)
  ]

  reverse_name : (d : ℕ) → reverse (p ++ d ∷ s) ≡ reverse s ++ d ∷ reverse p
  reverse_name d =
      reverse-append p (d ∷ s)
      ∙ ap (λ t. t ++ reverse p) (reverse-cons d s)
      ∙ append_assoc (reverse s) (d ∷ []) (reverse p)

  suffix_step :
      (x : Text) (d : ℕ)
      → shorten_suffix (length x) (p ++ d ∷ s) x
        ≡ reverse (shared (reverse x) (reverse s ++ d ∷ reverse p))
  suffix_step x d =
      shorten_suffix-shorten_prefix (length x) (p ++ d ∷ s) x
      ∙ ap reverse (
          shorten_prefix-shared (length x) (reverse (p ++ d ∷ s)) (reverse x) (length-reverse x)
          ∙ ap (shared (reverse x)) (reverse_name d))

  suffix_kept : (ds : List ℕ) → common_suffix s (family p s ds) ≡ s
  unfolding common_suffix
  suffix_kept [] = refl
  suffix_kept (d ∷ ds) =
      ap (λ t. common_suffix t (family p s ds))
        (suffix_step s d
          ∙ ap reverse (shared-family_prefix (reverse s) (d ∷ reverse p))
          ∙ reverse-reverse s)
      ∙ suffix_kept ds

  suffix_name :
      (c d : ℕ)
      → shorten_suffix (length (p ++ c ∷ s)) (p ++ d ∷ s) (p ++ c ∷ s)
        ≡ (if nat_beq d c then p ++ c ∷ s else s)
  suffix_name c d =
      suffix_step (p ++ c ∷ s) d
      ∙ ap (λ t. reverse (shared t (reverse s ++ d ∷ reverse p))) (reverse_name c)
      ∙ ap reverse (shared_family (reverse s) (reverse p) c d)
      ∙ elim (Bool-cases (nat_beq d c)) [
        | inl equal ↦ rw equal (ap reverse (sym (reverse_name c)) ∙ reverse-reverse (p ++ c ∷ s))
        | inr other ↦ rw other (reverse-reverse s)
      ]

  suffix_family :
      (c : ℕ) (ds : List ℕ) → same c ds ≡ false → common_suffix (p ++ c ∷ s) (family p s ds) ≡ s
  unfolding common_suffix
  suffix_family c [] h = cc
  suffix_family c (d ∷ ds) h =
      ap (λ t. common_suffix t (family p s ds)) (suffix_name c d)
      ∙ elim (Bool-cases (nat_beq d c)) [
        | inl equal ↦ rw equal (suffix_family c ds (ground arith))
        | inr other ↦ rw other (suffix_kept ds)
      ]

  least_length-family :
      (ds : List ℕ) (n : ℕ)
      → n ≡ length p + suc (length s)
      → least_length n (family p s ds) ≡ length p + suc (length s)
  unfolding least_length
  least_length-family [] n h = h
  least_length-family (d ∷ ds) n h =
      least_length-family ds (if ltb (length (p ++ d ∷ s)) n then length (p ++ d ∷ s) else n)
        (ground (arith, length-append p (d ∷ s)))

-- Take names with a common begin and end that differ in one character in the middle, and not all the same one.
-- Their table is named by the begin and the end.
pub canonical_name-family :
    (p s : Text) (c : ℕ) (ds : List ℕ)
    → same c ds ≡ false
    → canonical_name (p ++ c ∷ s) (family p s ds) ≡ p ++ s
unfolding canonical_name
canonical_name-family p s c [] h = cc
canonical_name-family p s c (d ∷ ds) h =
    let fits : ltb (length p + suc (length s)) (length p + length s) ≡ false = ground arith in
    rw
      (
        prefix_family p s c (d ∷ ds) h,
        suffix_family p s c (d ∷ ds) h,
        least_length-family p s (d ∷ ds) (length (p ++ c ∷ s)) (length-append p (c ∷ s)),
        fits,
      )
      refl
